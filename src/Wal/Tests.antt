-- ===== src/Wal/Tests.antt =====
-- The log theorems at a log with one page write, with a byte sum for the checksum.
use tinydb_cc_comet.Prelude.{ℕ, ◌+◌, ◌≡◌, none, some, List, [], ◌∷◌, ◌++◌, arith, length, take}
use tinydb_cc_comet.Errors.{ok}
use tinydb_cc_comet.Bytes.{Bytes}
use tinydb_cc_comet.Wal.{
  Entry, Scan, header_size, make_header, append, iter_records, truncate_before,
}
use tinydb_cc_comet.Wal.Fields.{
  EntryFits, AllFit, all_bytes, bytes_of, length-bytes_of, encode_all-all_bytes,
  encode_record-bytes_of,
}
use tinydb_cc_comet.Wal.Reading.{iter_records-encode_all, iter_records-append}
use tinydb_cc_comet.Wal.Torn.{iter_records-torn, iter_records_total}
use tinydb_cc_comet.Wal.Truncate.{From, iter_records-truncate_before}

abbrev pub sum_crc : Bytes → ℕ
sum_crc [] = 0
sum_crc (b ∷ bs) = b + sum_crc bs

abbrev write_two : Entry
write_two = record { txn_id = 1; kind = 1; page_id = 2; payload = 5 ∷ 6 ∷ [] }

abbrev commit_two : Entry
commit_two = record { txn_id = 2; kind = 2; page_id = 0; payload = [] }

write_two-EntryFits : EntryFits write_two
write_two-EntryFits = record {
  txn_fits = omega arith;
  kind_fits = omega arith;
  page_fits = omega arith;
  payload_fits = omega arith;
}

commit_two-EntryFits : EntryFits commit_two
commit_two-EntryFits = record {
  txn_fits = omega arith;
  kind_fits = omega arith;
  page_fits = omega arith;
  payload_fits = omega arith;
}

abbrev one : List Entry
one = write_two ∷ []

one-AllFit : AllFit one
one-AllFit = (write_two-EntryFits, tt)

iter_records-encode_all_example :
    iter_records sum_crc (make_header ++ all_bytes sum_crc one)
    ≡ some (record { records = one; corrupt = none })
iter_records-encode_all_example =
    iter_records-encode_all sum_crc one (all_bytes sum_crc one) one-AllFit
      (encode_all-all_bytes sum_crc one one-AllFit)

iter_records-append_example :
    (buf : Bytes) × (append sum_crc commit_two (make_header ++ all_bytes sum_crc one) ≡ ok buf)
    × (iter_records sum_crc buf
        ≡ some (record { records = one ++ commit_two ∷ []; corrupt = none }))
iter_records-append_example =
    iter_records-append sum_crc one commit_two (all_bytes sum_crc one) one-AllFit
      commit_two-EntryFits (encode_all-all_bytes sum_crc one one-AllFit)

iter_records-torn_example :
    iter_records sum_crc
      (make_header ++ (all_bytes sum_crc one ++ take 20 (bytes_of sum_crc commit_two)))
    ≡ some (record { records = one; corrupt = some (header_size + length (all_bytes sum_crc one)) })
iter_records-torn_example =
    iter_records-torn sum_crc one commit_two (all_bytes sum_crc one) (bytes_of sum_crc commit_two)
      20 one-AllFit commit_two-EntryFits (encode_all-all_bytes sum_crc one one-AllFit)
      (encode_record-bytes_of sum_crc commit_two commit_two-EntryFits) (omega arith)
      (omega (arith, length-bytes_of sum_crc commit_two))

iter_records_total_example : (s : Scan) × (iter_records sum_crc (1 ∷ 2 ∷ 3 ∷ []) ≡ some s)
iter_records_total_example = iter_records_total sum_crc (1 ∷ 2 ∷ 3 ∷ [])

iter_records-truncate_before_example :
    (buf : Bytes) × (ks : List Entry) × (truncate_before sum_crc 1
        (make_header ++ all_bytes sum_crc one)
      ≡ some (ok buf))
    × (iter_records sum_crc buf ≡ some (record { records = ks; corrupt = none }))
    × From 1 one ks
iter_records-truncate_before_example =
    iter_records-truncate_before sum_crc 1 one (all_bytes sum_crc one) one-AllFit
      (encode_all-all_bytes sum_crc one one-AllFit)
