-- ===== src/Wal/Torn.antt =====
-- Logs that end in the middle of a record, and the end of the scan on any bytes whatever.
use mathlib.Core.Option
use tinydb_cc_comet.Prelude.{
  ℕ, zero, suc, ◌+◌, ◌-◌, ◌≤◌, ◌<◌, ◌≡◌, refl, sym, ap, ap₂, ◌∙◌, true, some, List, [], ◌++◌,
  append-nil, arith, ltb, Bool-cases, ◌⊎◌, inl, inr, length, take, slice, length-append,
  length-take, slice-skip, take-drop-take,
}
use tinydb_cc_comet.Errors.{ok}
use tinydb_cc_comet.Bytes.{Bytes, int_from_bytes}
use tinydb_cc_comet.Wal.Fields.{EntryFits, AllFit, bytes_of, length-bytes_of, len_read}
use tinydb_cc_comet.Wal.Reading.{
  iter_bad, iter_end, iter_step, scan_from_header, encode_all-eq, encode_record-eq,
}
use tinydb_cc_comet.Wal.{
  header_size, record_hdr_size, crc_size, Entry, Scan, Round, add_record, bad, got, make_header,
  check_record, read_at, iter_from, iter_records, encode_all, encode_record,
}

module _ (crc32 : Bytes → ℕ) (r : Entry) (f : EntryFits r) (n : ℕ)
    (short : n < length (bytes_of crc32 r)) where
  abbrev torn : Bytes
  torn = take n (bytes_of crc32 r)

  length-torn : length torn ≡ n
  length-torn = omega (arith, length-take n (bytes_of crc32 r), short)

  -- With the header there, the length field can be read.
  len_torn :
      (pre : Bytes)
      → record_hdr_size ≤ n
      → int_from_bytes (slice (length pre + 13) (length pre + 17) (pre ++ torn)) ≡ length r.payload
  unfolding slice
  len_torn pre h =
      ap int_from_bytes (
        slice-skip (length pre) 13 17 pre torn refl
        ∙ take-drop-take 4 13 n (bytes_of crc32 r) (omega arith)
        ∙ ap (λ (b : Bytes). slice 13 17 b) (sym (append-nil (bytes_of crc32 r))))
      ∙ len_read crc32 [] r [] f

  read_at-torn : (pre : Bytes) → read_at crc32 (length pre) (pre ++ torn) ≡ bad
  unfolding read_at check_record
  read_at-torn pre =
      let size : length (pre ++ torn) ≡ length pre + n =
        omega (arith, length-append pre torn, length-torn) in
      elim (Bool-cases (ltb (length (pre ++ torn) - length pre) (record_hdr_size + crc_size))) [
        | inl t ↦ rw t
        | inr t ↦
            let l = len_torn pre (ground (arith, size)) in
            let t' : ltb (length (pre ++ torn))
                  (length pre + record_hdr_size + length r.payload + crc_size)
                ≡ true =
              ground (arith, size, length-bytes_of crc32 r) in
            rw (t, l, t')
      ]

-- A record cut short by a crash, behind whole ones: the scan yields the whole ones and raises
-- WalCorruption at the offset where the torn record begins.
pub iter_records-torn :
    (crc32 : Bytes → ℕ) (rs : List Entry) (r : Entry) (bytes last : Bytes) (n : ℕ)
    → AllFit rs
    → EntryFits r
    → encode_all crc32 rs ≡ ok bytes
    → encode_record crc32 r ≡ ok last
    → 0 < n
    → n < length last
    → iter_records crc32 (make_header ++ (bytes ++ take n last))
      ≡ some (record { records = rs; corrupt = some (header_size + length bytes) })
iter_records-torn crc32 rs r bytes last n fs f e e' pos short =
    let all = encode_all-eq crc32 rs bytes fs e in
    let one = encode_record-eq crc32 r last f e' in
    let short' : n < length (bytes_of crc32 r) = omega (arith, ap length one) in
    ap (iter_records crc32)
      (ap₂ (λ (a b : Bytes). make_header ++ (a ++ take n b)) (sym all) (sym one))
    ∙ scan_from_header crc32 rs (take n (bytes_of crc32 r)) (λ p. some p)
        (λ pre fuel.
          iter_bad crc32 fuel (length pre) (pre ++ take n (bytes_of crc32 r))
            (omega (
              arith,
              length-append pre (take n (bytes_of crc32 r)),
              length-torn crc32 r f n short',
            ))
            (read_at-torn crc32 r f n short' pre))
        fs
    ∙ ap (λ (b : Bytes). some (record { records = rs; corrupt = some (header_size + length b) }))
        all

-- A round that yields a record passes at least 21 bytes.
read_at-got :
    (crc32 : Bytes → ℕ) (pos next : ℕ) (buf : Bytes) (r : Entry)
    → read_at crc32 pos buf ≡ got r next
    → pos + record_hdr_size + crc_size ≤ next
unfolding read_at check_record
read_at-got crc32 pos next buf r h = ground arith

Round-cases : (o : Round) → (o ≡ bad) ⊎ ((r : Entry) × (next : ℕ) × (o ≡ got r next))
Round-cases bad = inl refl
Round-cases (got r next) = inr (r, next, refl)

iter_from-total :
    (crc32 : Bytes → ℕ) (fuel pos : ℕ) (buf : Bytes)
    → length buf ≤ pos + fuel
    → (s : Scan) × (iter_from crc32 (suc fuel) pos buf ≡ some s)
iter_from-total crc32 zero pos buf h = (_, iter_end crc32 zero pos buf (omega arith))
iter_from-total crc32 (suc fuel) pos buf h = elim (Bool-cases (ltb pos (length buf))) [
  | inr t ↦ (_, iter_end crc32 (suc fuel) pos buf (ground arith))
  | inl t ↦ elim (Round-cases (read_at crc32 pos buf)) [
    | inl b ↦ (_, iter_bad crc32 (suc fuel) pos buf (ground arith) b)
    | inr (r, next, g) ↦
        let (s, e) =
          iter_from-total crc32 fuel next buf (omega (arith, read_at-got crc32 pos next buf r g)) in
        (
          add_record r s,
          iter_step crc32 (suc fuel) pos next buf r (ground arith) g
              ∙ ap (Option.map (add_record r)) e,
        )
  ]
]

-- The scan of any bytes whatever ends within its fuel.
pub iter_records_total :
    (crc32 : Bytes → ℕ) (buf : Bytes) → (s : Scan) × (iter_records crc32 buf ≡ some s)
unfolding iter_records
iter_records_total crc32 buf =
    let (s, e) = iter_from-total crc32 (length buf) header_size buf (omega arith) in
    (s, ap (λ (n : ℕ). iter_from crc32 n header_size buf) (omega arith) ∙ e)
