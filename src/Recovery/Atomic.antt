-- ===== src/Recovery/Atomic.antt =====
-- Pages that recovery.py writes more than once: what replay after a crash in the middle rests on.
use tinydb_cc_comet.Prelude.{
  ℕ, zero, suc, ◌+◌, ◌*◌, ◌≡◌, refl, ◌∙◌, Bool, true, false, ◌&&◌, [], ◌∷◌, arith, ltb, leb, length,
  take, Bool-cases, inl, inr, ◌||◌,
}
use tinydb_cc_comet.Bytes.{Bytes}
use tinydb_cc_comet.Dict.{Dict}
use tinydb_cc_comet.Pager.{page_size, file_write}
use tinydb_cc_comet.Pager.Files.{byte_at, byte_at-file_write}
use tinydb_cc_comet.Recovery.{apply_writes}

-- Whether some write covers the byte `i` of the file
covered : Dict Bytes → ℕ → Bool
covered [] i = false
covered ((page_id, bytes) ∷ writes) i =
    (leb (page_id * page_size) i && ltb i (page_id * page_size + length bytes)) || covered writes i

-- Where no write covers it, a byte stays.
apply-uncovered :
    (writes : Dict Bytes) (f : Bytes) (i : ℕ)
    → covered writes i ≡ false
    → byte_at (apply_writes writes f) i ≡ byte_at f i
unfolding covered apply_writes
apply-uncovered [] f i h = refl
apply-uncovered ((page_id, bytes) ∷ writes) f i h =
    apply-uncovered writes (file_write (page_id * page_size) bytes f) i (ground arith)
    ∙ ground (arith, byte_at-file_write (page_id * page_size) bytes f i)

-- Files that agree at a byte agree there after the same writes.
apply-agree :
    (writes : Dict Bytes) (f g : Bytes) (i : ℕ)
    → byte_at f i ≡ byte_at g i
    → byte_at (apply_writes writes f) i ≡ byte_at (apply_writes writes g) i
unfolding apply_writes
apply-agree [] f g i h = h
apply-agree ((page_id, bytes) ∷ writes) f g i h =
    apply-agree writes (file_write (page_id * page_size) bytes f)
      (file_write (page_id * page_size) bytes g) i
      (ground (
        arith,
        byte_at-file_write (page_id * page_size) bytes f i,
        byte_at-file_write (page_id * page_size) bytes g i,
      ))

-- Where a write covers it, a byte does not depend on the file before.
apply-covered :
    (writes : Dict Bytes) (f g : Bytes) (i : ℕ)
    → covered writes i ≡ true
    → byte_at (apply_writes writes f) i ≡ byte_at (apply_writes writes g) i
unfolding covered apply_writes
apply-covered [] f g i h = ground arith
apply-covered ((page_id, bytes) ∷ writes) f g i h = elim (Bool-cases (covered writes i)) [
  | inl later ↦ apply-covered writes _ _ i later
  | inr now ↦
      apply-agree writes (file_write (page_id * page_size) bytes f)
        (file_write (page_id * page_size) bytes g) i
        (ground (
          arith,
          byte_at-file_write (page_id * page_size) bytes f i,
          byte_at-file_write (page_id * page_size) bytes g i,
        ))
]

covered-take :
    (k : ℕ) (writes : Dict Bytes) (i : ℕ)
    → covered writes i ≡ false
    → covered (take k writes) i ≡ false
unfolding covered take
covered-take zero writes i h = refl
covered-take (suc k) [] i h = refl
covered-take (suc k) ((page_id, bytes) ∷ writes) i h = ground (arith, covered-take k writes i)

-- Pages of which a part was already written: writing them all, from the first on, gives byte for
-- byte the file that writing them once gives.
pub apply_writes-take :
    (writes : Dict Bytes) (k : ℕ) (main : Bytes) (i : ℕ)
    → byte_at (apply_writes writes (apply_writes (take k writes) main)) i
      ≡ byte_at (apply_writes writes main) i
apply_writes-take writes k main i = elim (Bool-cases (covered writes i)) [
  | inl c ↦ apply-covered writes _ main i c
  | inr u ↦
      apply-agree writes _ main i
        (apply-uncovered (take k writes) main i (covered-take k writes i u))
]
