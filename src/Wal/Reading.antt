-- ===== src/Wal/Reading.antt =====
-- The scan of wal.py over what was appended, and where it stops.
use mathlib.Core.Option
use tinydb_cc_comet.Prelude.{
  ℕ, zero, suc, ◌+◌, ◌≤◌, ◌<◌, ◌≡◌, refl, sym, ap, ap₂, ◌∙◌, false, Option, none, some, List, [],
  ◌∷◌, ◌++◌, append_assoc, append-nil, arith, ltb, lt→ltb, length, length-append, replicate,
}
use tinydb_cc_comet.Errors.{ok}
use tinydb_cc_comet.Bytes.{Bytes}
use tinydb_cc_comet.Wal.Fields.{
  EntryFits, AllFit, bytes_of, all_bytes, encode_record-bytes_of, encode_all-all_bytes,
  length-bytes_of, length-whole, read_at-whole,
}
use tinydb_cc_comet.Wal.{
  header_size, Entry, bad, got, make_header, add_record, encode_record, append, read_at, iter_from,
  iter_records, encode_all,
}

pub AllFit-append : (rs : List Entry) (r : Entry) → AllFit rs → EntryFits r → AllFit (rs ++ r ∷ [])
AllFit-append [] r fs f = (f, tt)
AllFit-append (x ∷ rs) r (g, fs) f = (g, AllFit-append rs r fs f)

module _ (crc32 : Bytes → ℕ) where
  -- The rounds of the loop, one lemma for each way out.
  pub iter_step :
      (fuel pos next : ℕ) (buf : Bytes) (r : Entry)
      → pos < length buf
      → read_at crc32 pos buf ≡ got r next
      → iter_from crc32 (suc fuel) pos buf
        ≡ Option.map (add_record r) (iter_from crc32 fuel next buf)
  unfolding iter_from
  iter_step fuel pos next buf r h e = rw (lt→ltb pos (length buf) h, e, iter_from)

  pub iter_bad :
      (fuel pos : ℕ) (buf : Bytes)
      → pos < length buf
      → read_at crc32 pos buf ≡ bad
      → iter_from crc32 (suc fuel) pos buf ≡ some (record { records = []; corrupt = some pos })
  unfolding iter_from
  iter_bad fuel pos buf h e = rw (lt→ltb pos (length buf) h, e, iter_from)

  pub iter_end :
      (fuel pos : ℕ) (buf : Bytes)
      → length buf ≤ pos
      → iter_from crc32 (suc fuel) pos buf ≡ some (record { records = []; corrupt = none })
  unfolding iter_from
  iter_end fuel pos buf h = let t : ltb pos (length buf) ≡ false = ground arith in rw (t, iter_from)

  -- `stops` says what the scan does at `tail`, wherever it stands: it yields nothing more.
  module _ (tail : Bytes) (verdict : ℕ → Option ℕ)
      (stops : (pre : Bytes) (fuel : ℕ)
        → iter_from crc32 (suc fuel) (length pre) (pre ++ tail)
          ≡ some (record { records = []; corrupt = verdict (length pre) })) where
    iter_from-all :
        (rs : List Entry) (pre : Bytes) (fuel : ℕ)
        → AllFit rs
        → length rs < fuel
        → iter_from crc32 fuel (length pre) (pre ++ (all_bytes crc32 rs ++ tail))
          ≡ some (record {
            records = rs;
            corrupt = verdict (length pre + length (all_bytes crc32 rs));
          })
    unfolding add_record
    iter_from-all rs pre zero f h = absurd (omega arith)
    iter_from-all [] pre (suc fuel) f h =
        stops pre fuel
        ∙ ap (λ (n : ℕ). some (record { records = []; corrupt = verdict n })) (omega arith)
    iter_from-all (r ∷ rs) pre (suc fuel) (f, fs) h =
        let rest = all_bytes crc32 rs ++ tail in
        let regroup : pre ++ ((bytes_of crc32 r ++ all_bytes crc32 rs) ++ tail)
            ≡ pre ++ (bytes_of crc32 r ++ rest) =
          simp append_assoc in
        let moved : pre ++ (bytes_of crc32 r ++ rest) ≡ (pre ++ bytes_of crc32 r) ++ rest =
          simp append_assoc in
        let next : length pre + length (bytes_of crc32 r) ≡ length (pre ++ bytes_of crc32 r) =
          omega (arith, length-append pre (bytes_of crc32 r)) in
        let total : length (pre ++ bytes_of crc32 r) + length (all_bytes crc32 rs)
            ≡ length pre + length (bytes_of crc32 r ++ all_bytes crc32 rs) =
          omega (
            arith,
            length-append pre (bytes_of crc32 r),
            length-append (bytes_of crc32 r) (all_bytes crc32 rs),
          ) in
        ap (iter_from crc32 (suc fuel) (length pre)) regroup
        ∙ iter_step fuel (length pre) (length pre + length (bytes_of crc32 r))
            (pre ++ (bytes_of crc32 r ++ rest)) r (omega (arith, length-whole crc32 pre r rest f))
            (read_at-whole crc32 pre r rest f)
        ∙ ap (Option.map (add_record r)) (
            ap₂ (iter_from crc32 fuel) next moved
            ∙ iter_from-all rs (pre ++ bytes_of crc32 r) fuel fs (omega arith))
        ∙ ap (λ (n : ℕ). some (record { records = r ∷ rs; corrupt = verdict n })) total

  length-rs : (rs : List Entry) → length rs ≤ length (all_bytes crc32 rs)
  length-rs [] = omega arith
  length-rs (r ∷ rs) = omega (
    arith,
    length-rs rs,
    length-append (bytes_of crc32 r) (all_bytes crc32 rs),
    length-bytes_of crc32 r,
  )

  clean_stop :
      (pre : Bytes) (fuel : ℕ)
      → iter_from crc32 (suc fuel) (length pre) (pre ++ [])
        ≡ some (record { records = []; corrupt = none })
  clean_stop pre fuel = iter_end fuel (length pre) (pre ++ []) (omega (arith, length-append pre []))

  pub scan_from_header :
      (rs : List Entry) (tail : Bytes) (verdict : ℕ → Option ℕ)
      → ((pre : Bytes) (fuel : ℕ)
          → iter_from crc32 (suc fuel) (length pre) (pre ++ tail)
            ≡ some (record { records = []; corrupt = verdict (length pre) }))
      → AllFit rs
      → iter_records crc32 (make_header ++ (all_bytes crc32 rs ++ tail))
        ≡ some
            (record { records = rs; corrupt = verdict (header_size + length (all_bytes crc32 rs)) })
  unfolding iter_records make_header replicate
  scan_from_header rs tail verdict stops f = iter_from-all tail verdict stops rs make_header _ f (
      omega (
        arith,
        length-rs rs,
        length-append (all_bytes crc32 rs) tail,
        length-append make_header (all_bytes crc32 rs ++ tail),
      ))

  -- A scan of appended records yields these, in order, and raises nothing.
  pub iter_records-encode_all :
      (rs : List Entry) (bytes : Bytes)
      → AllFit rs
      → encode_all crc32 rs ≡ ok bytes
      → iter_records crc32 (make_header ++ bytes) ≡ some (record { records = rs; corrupt = none })
  iter_records-encode_all rs bytes f e =
      let same : all_bytes crc32 rs ++ [] ≡ bytes =
        append-nil (all_bytes crc32 rs) ∙ ground (arith, encode_all-all_bytes crc32 rs f) in
      ap (λ (b : Bytes). iter_records crc32 (make_header ++ b)) (sym same)
      ∙ scan_from_header rs [] (λ _. none) clean_stop f

  pub all_bytes-append :
      (rs ss : List Entry) → all_bytes crc32 (rs ++ ss) ≡ all_bytes crc32 rs ++ all_bytes crc32 ss
  all_bytes-append [] ss = refl
  all_bytes-append (r ∷ rs) ss =
      ap (λ (b : Bytes). bytes_of crc32 r ++ b) (all_bytes-append rs ss) ∙ simp append_assoc

  -- Where the fields fit, the encoders give these bytes and no others.
  pub encode_all-eq :
      (rs : List Entry) (bytes : Bytes)
      → AllFit rs
      → encode_all crc32 rs ≡ ok bytes
      → all_bytes crc32 rs ≡ bytes
  encode_all-eq rs bytes f e = ground (arith, encode_all-all_bytes crc32 rs f)

  pub encode_record-eq :
      (r : Entry) (bytes : Bytes)
      → EntryFits r
      → encode_record crc32 r ≡ ok bytes
      → bytes_of crc32 r ≡ bytes
  encode_record-eq r bytes f e = ground (arith, encode_record-bytes_of crc32 r f)

  -- On a log of whole records, `append` of one more, when the fields of all of them fit, succeeds, and the
  -- scan yields the new record behind the old ones.
  pub iter_records-append :
      (rs : List Entry) (r : Entry) (bytes : Bytes)
      → AllFit rs
      → EntryFits r
      → encode_all crc32 rs ≡ ok bytes
      → (buf : Bytes) × (append crc32 r (make_header ++ bytes) ≡ ok buf)
        × (iter_records crc32 buf ≡ some (record { records = rs ++ r ∷ []; corrupt = none }))
  unfolding append
  iter_records-append rs r bytes fs f e =
      let same : (make_header ++ bytes) ++ bytes_of crc32 r
          ≡ make_header ++ (all_bytes crc32 (rs ++ r ∷ []) ++ []) =
        simp (all_bytes-append, append-nil, append_assoc, encode_all-eq rs bytes fs e) in
      (
        (make_header ++ bytes) ++ bytes_of crc32 r,
        rw (encode_record-bytes_of crc32 r f),
        ap (iter_records crc32) same
            ∙ scan_from_header (rs ++ r ∷ []) [] (λ _. none) clean_stop (AllFit-append rs r fs f),
      )
