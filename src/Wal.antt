-- ===== src/Wal.antt =====
-- src/tinydb/wal.py: the write-ahead log. The file and the in-memory buffer hold the same bytes, so
-- one byte string stands for both. `zlib.crc32` is the parameter `crc32`; a generator that yields
-- records and then raises is the list of what it yielded, with the offset of the exception.
pub mod Fields
pub mod Reading
pub mod Torn
pub mod Truncate
pub mod Tests
use tinydb_cc_comet.Prelude.{
  ℕ, zero, suc, ◌+◌, ◌-◌, ◌%◌, ◌^◌, Bool, true, false, not, ◌||◌, Option, none, some, List, [], ◌∷◌,
  ◌++◌, ltb, leb, ◌==◌, if◌then◌else◌, length, get_or, replicate, slice, take,
}
use mathlib.Core.Option
use tinydb_cc_comet.Errors.{
  Error, Result, ok, err, ◌>>=◌, wal_corruption, invalid_wal_file, index_error,
}
use tinydb_cc_comet.Bytes.{Bytes, int_from_bytes, pack, bytes_eq}

abbrev pub header_size : ℕ
header_size = 16

-- b"TINYWAL\x00"
abbrev pub header_magic : Bytes
header_magic = b'T' ∷ b'I' ∷ b'N' ∷ b'Y' ∷ b'W' ∷ b'A' ∷ b'L' ∷ 0 ∷ []

abbrev pub header_schema : ℕ
header_schema = 1

-- The kinds of record
abbrev pub begin : ℕ
begin = 0

abbrev pub page_write : ℕ
page_write = 1

abbrev pub commit : ℕ
commit = 2

abbrev pub rollback : ℕ
rollback = 3

abbrev pub record_hdr_size : ℕ
record_hdr_size = 17

abbrev pub crc_size : ℕ
crc_size = 4

pub record Entry : Type 0 where
  pub txn_id : ℕ
  pub kind : ℕ
  pub page_id : ℕ
  pub payload : Bytes

-- The records that were yielded, and the offset of a WalCorruption raised behind them.
pub record Scan : Type 0 where
  pub records : List Entry
  pub corrupt : Option ℕ

-- One round of the loop of `iter_records`: raise, or yield a record and go on.
pub data Round : Type 0 where
  bad : Round
  got : Entry → ℕ → Round

unfoldable pub make_header : Bytes
make_header = header_magic ++ header_schema ∷ replicate 7 0

-- The exception of `Wal.__init__` on a bad header: its message reads the ninth byte, which may be missing.
unfoldable pub bad_header : Bytes → Error
bad_header hdr = if ltb 8 (length hdr) then invalid_wal_file else index_error

-- `Wal.__init__` on a file with the given content: a missing or empty file gets a header.
unfoldable pub open_wal : Bytes → Result Bytes
open_wal [] = ok make_header
open_wal (b ∷ bs) =
    let hdr = take header_size (b ∷ bs) in
    if not (length hdr == header_size)
      || not (bytes_eq (slice 0 8 hdr) header_magic)
      || not (get_or hdr 8 0 == header_schema)
    then err (bad_header hdr)
    else ok (b ∷ bs)

-- struct.pack(">QBI I", …) + data
unfoldable pub encode_body : Entry → Result Bytes
encode_body r = do
  t ← pack 8 r.txn_id
  k ← pack 1 r.kind
  p ← pack 4 r.page_id
  n ← pack 4 (length r.payload)
  ok (t ++ (k ++ (p ++ (n ++ r.payload))))

unfoldable pub add_record : Entry → Scan → Scan
add_record r s = record s { records = r ∷ s.records }

-- [rec for rec in … if rec[0] >= txn_id]
unfoldable pub keep_from : ℕ → List Entry → List Entry
keep_from txn_id [] = []
keep_from txn_id (r ∷ rs) =
    let rest = keep_from txn_id rs in if leb txn_id r.txn_id then r ∷ rest else rest

module _ (crc32 : Bytes → ℕ) where
  -- `zlib.crc32(body) & 0xFFFFFFFF`
  unfoldable pub checksum : Bytes → ℕ
  checksum body = crc32 body % 2 ^ 32

  unfoldable pub encode_record : Entry → Result Bytes
  encode_record r = do body ← encode_body r; crc ← pack 4 (checksum body); ok (body ++ crc)

  -- `append`: the record goes to the end of the file.
  unfoldable pub append : Entry → Bytes → Result Bytes
  append r buf = do bytes ← encode_record r; ok (buf ++ bytes)

  unfoldable pub check_record : ℕ → ℕ → Bytes → Round
  check_record pos payload_end buf =
      if ltb (length buf) (payload_end + crc_size)
      then bad
      else if not (
          int_from_bytes (slice payload_end (payload_end + crc_size) buf)
          == checksum (slice pos payload_end buf))
      then bad
      else got
          (record {
            txn_id = int_from_bytes (slice pos (pos + 8) buf);
            kind = int_from_bytes (slice (pos + 8) (pos + 9) buf);
            page_id = int_from_bytes (slice (pos + 9) (pos + 13) buf);
            payload = slice (pos + record_hdr_size) payload_end buf;
          })
          (payload_end + crc_size)

  unfoldable pub read_at : ℕ → Bytes → Round
  read_at pos buf =
      if ltb (length buf - pos) (record_hdr_size + crc_size)
      then bad
      else check_record pos
          (pos + record_hdr_size + int_from_bytes (slice (pos + 13) (pos + 17) buf)) buf

  -- The loop, with fuel; `none` means that the fuel ran out.
  unfoldable pub iter_from : ℕ → ℕ → Bytes → Option Scan
  iter_from zero pos buf = none
  iter_from (suc fuel) pos buf = elim (ltb pos (length buf)) [
    | false ↦ some (record { records = []; corrupt = none })
    | true ↦ elim (read_at pos buf) [
      | bad ↦ some (record { records = []; corrupt = some pos })
      | got r next ↦ Option.map (add_record r) (iter_from fuel next buf)
    ]
  ]

  -- Each round passes at least 21 bytes, so a round for each byte is enough.
  unfoldable pub iter_records : Bytes → Option Scan
  iter_records buf = iter_from (length buf + 1) header_size buf

  unfoldable pub encode_all : List Entry → Result Bytes
  encode_all [] = ok []
  encode_all (r ∷ rs) = do bytes ← encode_record r; rest ← encode_all rs; ok (bytes ++ rest)

  unfoldable pub rewrite : ℕ → Scan → Result Bytes
  rewrite txn_id s = elim s.corrupt [
    | some offset ↦ err (wal_corruption offset)
    | none ↦ do bytes ← encode_all (keep_from txn_id s.records); ok (make_header ++ bytes)
  ]

  -- `truncate_before`: nothing is rewritten if the scan raises.
  unfoldable pub truncate_before : ℕ → Bytes → Option (Result Bytes)
  truncate_before txn_id buf = Option.map (rewrite txn_id) (iter_records buf)
