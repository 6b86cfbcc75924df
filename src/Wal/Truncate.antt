-- ===== src/Wal/Truncate.antt =====
-- `truncate_before`: what a scan of the rewritten log yields.
use tinydb_cc_comet.Prelude.{
  ℕ, ◌<◌, ◌≤◌, ◌≡◌, refl, sym, ap, ◌∙◌, false, none, some, List, [], ◌∷◌, ◌++◌, arith, leb,
  Bool-cases, inl, inr,
}
use tinydb_cc_comet.Errors.{ok}
use tinydb_cc_comet.Bytes.{Bytes}
use tinydb_cc_comet.Wal.Fields.{AllFit, all_bytes, encode_all-all_bytes}
use tinydb_cc_comet.Wal.Reading.{iter_records-encode_all, encode_all-eq}
use tinydb_cc_comet.Wal.{
  Entry, make_header, encode_all, keep_from, rewrite, truncate_before, iter_records,
}

keep_from-AllFit : (t : ℕ) (rs : List Entry) → AllFit rs → AllFit (keep_from t rs)
unfolding keep_from
keep_from-AllFit t [] f = tt
keep_from-AllFit t (r ∷ rs) (f, fs) = elim (Bool-cases (leb t r.txn_id)) [
  | inl keep ↦ rw keep (f, keep_from-AllFit t rs fs)
  | inr drop ↦ rw drop (keep_from-AllFit t rs fs)
]

pub truncate_before-eq :
    (crc32 : Bytes → ℕ) (t : ℕ) (rs : List Entry)
    → AllFit rs
    → truncate_before crc32 t (make_header ++ all_bytes crc32 rs)
      ≡ some (ok (make_header ++ all_bytes crc32 (keep_from t rs)))
unfolding truncate_before rewrite
truncate_before-eq crc32 t rs f = rw (
  iter_records-encode_all crc32 rs (all_bytes crc32 rs) f (encode_all-all_bytes crc32 rs f),
  encode_all-all_bytes crc32 (keep_from t rs) (keep_from-AllFit t rs f),
)

-- `ks` are the records of `rs` with the id `t` or more, in their order.
pub data From (t : ℕ) : List Entry → List Entry → Type 0 where
  nothing : From t [] []
  kept : (r : Entry) (rs ks : List Entry) → t ≤ r.txn_id → From t rs ks → From t (r ∷ rs) (r ∷ ks)
  dropped : (r : Entry) (rs ks : List Entry) → r.txn_id < t → From t rs ks → From t (r ∷ rs) ks

keep_from-From : (t : ℕ) (rs : List Entry) → From t rs (keep_from t rs)
unfolding keep_from
keep_from-From t [] = nothing
keep_from-From t (r ∷ rs) = elim (Bool-cases (leb t r.txn_id)) [
  | inl keep ↦ rw keep (kept r rs (keep_from t rs) (ground arith) (keep_from-From t rs))
  | inr drop ↦ rw drop (dropped r rs (keep_from t rs) (ground arith) (keep_from-From t rs))
]

-- On a log of whole records whose fields fit, `truncate_before` succeeds, and the scan of the new log
-- yields exactly the records with `txn_id` or more, in their order.
pub iter_records-truncate_before :
    (crc32 : Bytes → ℕ) (t : ℕ) (rs : List Entry) (bytes : Bytes)
    → AllFit rs
    → encode_all crc32 rs ≡ ok bytes
    → (buf : Bytes) × (ks : List Entry) × (truncate_before crc32 t (make_header ++ bytes)
        ≡ some (ok buf))
      × (iter_records crc32 buf ≡ some (record { records = ks; corrupt = none }))
      × From t rs ks
iter_records-truncate_before crc32 t rs bytes f e = (
  make_header ++ all_bytes crc32 (keep_from t rs),
  keep_from t rs,
  ap (λ (b : Bytes). truncate_before crc32 t (make_header ++ b))
        (sym (encode_all-eq crc32 rs bytes f e))
      ∙ truncate_before-eq crc32 t rs f,
  iter_records-encode_all crc32 (keep_from t rs) _ (keep_from-AllFit t rs f)
      (encode_all-all_bytes crc32 (keep_from t rs) (keep_from-AllFit t rs f)),
  keep_from-From t rs,
)

-- Every record is older than `t`.
abbrev pub AllOlder : ℕ → List Entry → Type 0
AllOlder t [] = Unit
AllOlder t (r ∷ rs) = (r.txn_id < t) × AllOlder t rs

pub keep_from_older : (t : ℕ) (rs : List Entry) → AllOlder t rs → keep_from t rs ≡ []
unfolding keep_from
keep_from_older t [] h = refl
keep_from_older t (r ∷ rs) (h, hs) =
    let e : leb t r.txn_id ≡ false = ground arith in rw e (keep_from_older t rs hs)
