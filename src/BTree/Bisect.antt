-- ===== src/BTree/Bisect.antt =====
-- Bisection in the sorted keys of a node of btree.py, and the cut it looks for.
use tinydb_cc_comet.Prelude.{
  ℕ, zero, suc, ◌+◌, ◌-◌, ◌/◌, ◌≤◌, ◌<◌, ◌≡◌, refl, ap, Bool, true, false, not, List, [], ◌∷◌,
  arith, ltb, length, get_or, Bool-cases, inl, inr,
}
use tinydb_cc_comet.Bytes.{Bytes}
use tinydb_cc_comet.BTree.{bytes_lt, bisect_from, bisect_left, bisect_right}

abbrev pub key_at : List Bytes → ℕ → Bytes
key_at keys i = get_or keys i []

-- The keys are in order; equal ones may stand side by side.
abbrev pub IsSorted : List Bytes → Type 0
IsSorted keys =
    (i j : ℕ) → i ≤ j → j < length keys → bytes_lt (key_at keys j) (key_at keys i) ≡ false

-- The test holds of the keys before the cut and of none behind it.
pub record Cut (test : Bytes → Bool) (keys : List Bytes) (cut : ℕ) : Type 0 where
  pub within : cut ≤ length keys
  pub before : (i : ℕ) → i < cut → test (key_at keys i) ≡ true
  pub behind : (i : ℕ) → cut ≤ i → i < length keys → test (key_at keys i) ≡ false

lt-of_le : (a b k : Bytes) → bytes_lt b a ≡ false → bytes_lt b k ≡ true → bytes_lt a k ≡ true
unfolding bytes_lt
lt-of_le a b [] h t = absurd (ground arith)
lt-of_le [] b (z ∷ k) h t = refl
lt-of_le (x ∷ a) [] (z ∷ k) h t = absurd (ground arith)
lt-of_le (x ∷ a) (y ∷ b) (z ∷ k) h t = ground (arith, lt-of_le a b k)

ge_trans : (a b k : Bytes) → bytes_lt b a ≡ false → bytes_lt k b ≡ false → bytes_lt k a ≡ false
unfolding bytes_lt
ge_trans [] b k h t = refl
ge_trans (x ∷ a) [] k h t = absurd (ground arith)
ge_trans (x ∷ a) (y ∷ b) [] h t = absurd (ground arith)
ge_trans (x ∷ a) (y ∷ b) (z ∷ k) h t = ground (arith, ge_trans a b k)

module _ (test : Bytes → Bool) (keys : List Bytes)
    (down : (i j : ℕ)
      → i ≤ j
      → j < length keys
      → test (key_at keys j) ≡ true
      → test (key_at keys i) ≡ true) where
  up :
      (i j : ℕ)
      → i ≤ j
      → j < length keys
      → test (key_at keys i) ≡ false
      → test (key_at keys j) ≡ false
  up i j le lt h = elim (Bool-cases (test (key_at keys j))) [
    | inr f ↦ f
    | inl t ↦ absurd (let d = down i j le lt t in ground arith)
  ]

  bisect_from-Cut :
      (fuel lo hi : ℕ)
      → hi - lo ≤ fuel
      → lo ≤ hi
      → hi ≤ length keys
      → ((i : ℕ) → i < lo → test (key_at keys i) ≡ true)
      → ((i : ℕ) → hi ≤ i → i < length keys → test (key_at keys i) ≡ false)
      → Cut test keys (bisect_from test keys fuel lo hi)
  unfolding bisect_from
  bisect_from-Cut zero lo hi enough le size left right = record {
    within = omega arith;
    before = left;
    behind = λ i h lt. right i (omega arith) lt;
  }
  bisect_from-Cut (suc fuel) lo hi enough le size left right = elim (Bool-cases (ltb lo hi)) [
    | inr stop ↦ rw stop (record {
      within = omega arith;
      before = left;
      behind = λ i h lt. right i (ground arith) lt;
    })
    | inl go ↦
        let mid = (lo + hi) / 2 in
        let low : lo ≤ mid = ground arith in
        let high : mid < hi = ground arith in
        elim (Bool-cases (test (key_at keys mid))) [
          | inl t ↦
              rw (go, t)
                (bisect_from-Cut fuel (mid + 1) hi (omega (arith, low, high)) (omega (arith, high))
                  size (λ i h. down i mid (omega (arith, h)) (omega (arith, high)) t) right)
          | inr f ↦
              rw (go, f)
                (bisect_from-Cut fuel lo mid (omega (arith, low, high)) low (omega (arith, high))
                  left (λ i h lt. up mid i h lt f))
        ]
  ]

  pub bisect-Cut : Cut test keys (bisect_from test keys (length keys) 0 (length keys))
  bisect-Cut =
      bisect_from-Cut (length keys) 0 (length keys) (omega arith) (omega arith) (omega arith)
        (λ i h. absurd (omega arith)) (λ i h lt. absurd (omega arith))

-- On sorted keys `bisect_left` is where the keys below `key` end: all before it are below, and none
-- from it on.
pub bisect_left-Cut :
    (keys : List Bytes) (key : Bytes)
    → IsSorted keys
    → Cut (λ k. bytes_lt k key) keys (bisect_left keys key)
unfolding bisect_left
bisect_left-Cut keys key s =
    bisect-Cut (λ k. bytes_lt k key) keys
      (λ i j le lt t. lt-of_le (key_at keys i) (key_at keys j) key (s i j le lt) t)

-- On sorted keys `bisect_right` is where the keys up to `key` end: none before it is above `key`, and
-- all from it on are.
pub bisect_right-Cut :
    (keys : List Bytes) (key : Bytes)
    → IsSorted keys
    → Cut (λ k. not (bytes_lt key k)) keys (bisect_right keys key)
unfolding bisect_right
bisect_right-Cut keys key s =
    bisect-Cut (λ k. not (bytes_lt key k)) keys
      (λ i j le lt t.
        let above = ge_trans (key_at keys i) (key_at keys j) key (s i j le lt) (ground arith) in
        ap not above)
