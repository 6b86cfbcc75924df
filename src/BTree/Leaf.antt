-- ===== src/BTree/Leaf.antt =====
-- The keys within a leaf of btree.py: `insert` and `search`.
use tinydb_cc_comet.Prelude.{
  ℕ, zero, suc, ◌-◌, ◌≤◌, ◌<◌, ◌≡◌, refl, sym, ap, ◌∙◌, true, false, some, List, [], ◌∷◌, arith,
  ltb, length, get_or, get_elem?, set, insert_at, length-set, get_or-set_self, get_or-set_ne,
  get_elem?-set_self, Bool-cases, inl, inr, lt→ltb,
}
use native.Mathlib.Decide.{ℕ_discrete, dec_lt}
use tinydb_cc_comet.Errors.{ok}
use tinydb_cc_comet.Bytes.{Bytes, bytes_eq_refl}
use tinydb_cc_comet.BTree.{LeafNode, bytes_lt, bisect_left, is_at, put_in_leaf, search_leaf}
use tinydb_cc_comet.BTree.Bisect.{key_at, IsSorted, Cut, bisect-Cut, bisect_left-Cut}

-- A leaf in order, with a value and a flag for each key
pub record IsLeaf (leaf : LeafNode) : Type 0 where
  pub sorted : IsSorted leaf.keys
  pub valued : length leaf.values ≡ length leaf.keys
  pub flagged : length leaf.tombstones ≡ length leaf.keys

bytes_lt_irrefl : (k : Bytes) → bytes_lt k k ≡ false
unfolding bytes_lt
bytes_lt_irrefl [] = refl
bytes_lt_irrefl (b ∷ k) = ground (arith, bytes_lt_irrefl k)

module _ {ℓ} {A : Type ℓ} where
  length-insert_at : (i : ℕ) (v : A) (xs : List A) → length (insert_at i v xs) ≡ suc (length xs)
  unfolding insert_at
  length-insert_at zero v xs = refl
  length-insert_at (suc i) v [] = refl
  length-insert_at (suc i) v (x ∷ xs) = ap suc (length-insert_at i v xs)

  get_elem?-insert_at :
      (i : ℕ) (v : A) (xs : List A) → i ≤ length xs → get_elem? (insert_at i v xs) i ≡ some v
  unfolding insert_at get_elem?
  get_elem?-insert_at zero v xs h = refl
  get_elem?-insert_at (suc i) v [] h = absurd (omega arith)
  get_elem?-insert_at (suc i) v (x ∷ xs) h = get_elem?-insert_at i v xs (omega arith)

  get_or-insert_at_self :
      (i : ℕ) (v d : A) (xs : List A) → i ≤ length xs → get_or (insert_at i v xs) i d ≡ v
  unfolding insert_at get_or
  get_or-insert_at_self zero v d xs h = refl
  get_or-insert_at_self (suc i) v d [] h = absurd (omega arith)
  get_or-insert_at_self (suc i) v d (x ∷ xs) h = get_or-insert_at_self i v d xs (omega arith)

  get_or-insert_at_before :
      (i j : ℕ) (v d : A) (xs : List A)
      → i ≤ length xs
      → j < i
      → get_or (insert_at i v xs) j d ≡ get_or xs j d
  unfolding insert_at get_or
  get_or-insert_at_before zero j v d xs h lt = absurd (omega arith)
  get_or-insert_at_before (suc i) j v d [] h lt = absurd (omega arith)
  get_or-insert_at_before (suc i) zero v d (x ∷ xs) h lt = refl
  get_or-insert_at_before (suc i) (suc j) v d (x ∷ xs) h lt =
      get_or-insert_at_before i j v d xs (omega arith) (omega arith)

  get_or-insert_at_behind :
      (i j : ℕ) (v d : A) (xs : List A)
      → i ≤ j
      → get_or (insert_at i v xs) (suc j) d ≡ get_or xs j d
  unfolding insert_at get_or
  get_or-insert_at_behind zero j v d xs le = refl
  get_or-insert_at_behind (suc i) j v d [] le = refl
  get_or-insert_at_behind (suc i) zero v d (x ∷ xs) le = absurd (omega arith)
  get_or-insert_at_behind (suc i) (suc j) v d (x ∷ xs) le =
      get_or-insert_at_behind i j v d xs (omega arith)

module _ (keys : List Bytes) (key : Bytes) (i : ℕ) (size : i ≤ length keys)
    (before : (j : ℕ) → j < i → bytes_lt (key_at keys j) key ≡ true)
    (behind : (j : ℕ) → i ≤ j → j < length keys → bytes_lt (key_at keys j) key ≡ false) where
  down :
      (k j : ℕ)
      → k ≤ j
      → j < length keys
      → bytes_lt (key_at keys j) key ≡ true
      → bytes_lt (key_at keys k) key ≡ true
  down k j le lt t = elim (dec_lt k i) [
    | yes h ↦ before k h
    | no h ↦ absurd (let f = behind j (omega arith) lt in ground arith)
  ]

  -- Bisection finds the only cut.
  bisect_left-at : bisect_left keys key ≡ i
  unfolding bisect_left
  bisect_left-at =
      let c = bisect-Cut (λ k. bytes_lt k key) keys down in
      elim (dec_lt (bisect_left keys key) i) [
        | yes h ↦ absurd (
            let t = before (bisect_left keys key) h in
            let f = c.behind (bisect_left keys key) (omega arith) (omega arith) in ground arith)
        | no h ↦ elim (dec_lt i (bisect_left keys key)) [
          | yes k ↦ absurd (
              let w = c.within in
              let t = c.before i k in let f = behind i (omega arith) (omega arith) in ground arith)
          | no k ↦ omega arith
        ]
      ]

search_leaf-found :
    (leaf : LeafNode) (key : Bytes) (i : ℕ) (v : ℕ × ℕ)
    → bisect_left leaf.keys key ≡ i
    → i < length leaf.keys
    → key_at leaf.keys i ≡ key
    → get_elem? leaf.tombstones i ≡ some false
    → get_elem? leaf.values i ≡ some v
    → search_leaf key leaf ≡ ok (some v)
unfolding search_leaf is_at
search_leaf-found leaf key i v b lt k t w =
    rw (b, lt→ltb i (length leaf.keys) lt, k, bytes_eq_refl key, t, w)

module _ (leaf : LeafNode) (key : Bytes) (value : ℕ × ℕ) (l : IsLeaf leaf) where
  abbrev place : ℕ
  place = bisect_left leaf.keys key

  cut : Cut (λ k. bytes_lt k key) leaf.keys place
  cut = bisect_left-Cut leaf.keys key l.sorted

  found_replaced :
      is_at place key leaf ≡ true → search_leaf key (put_in_leaf key value leaf) ≡ ok (some value)
  unfolding put_in_leaf
  found_replaced t =
      let inside : place < length leaf.keys = unfold is_at in ground arith in
      let flag : ltb place (length leaf.tombstones) ≡ true = ground (arith, l.flagged) in
      let keys' = set leaf.keys place key in
      let here : key_at keys' place ≡ key = get_or-set_self leaf.keys place key [] inside in
      rw (t, flag)
        (search_leaf-found _ key place value
          (bisect_left-at keys' key place (omega (arith, length-set leaf.keys place key))
            (λ j lt.
              ap (λ (k : Bytes). bytes_lt k key)
                (get_or-set_ne leaf.keys place j key [] (omega arith))
              ∙ cut.before j lt)
            (λ j le lt. elim (ℕ_discrete place j) [
              | yes e ↦
                  ap (λ (n : ℕ). bytes_lt (key_at keys' n) key) (sym e)
                  ∙ ap (λ (k : Bytes). bytes_lt k key) here
                  ∙ bytes_lt_irrefl key
              | no n ↦
                  ap (λ (k : Bytes). bytes_lt k key) (get_or-set_ne leaf.keys place j key [] n)
                  ∙ cut.behind j le (omega (arith, length-set leaf.keys place key))
            ]))
          (omega (arith, length-set leaf.keys place key)) here
          (get_elem?-set_self leaf.tombstones place false (omega (arith, l.flagged)))
          (get_elem?-set_self leaf.values place value (omega (arith, l.valued))))

  found_inserted :
      is_at place key leaf ≡ false → search_leaf key (put_in_leaf key value leaf) ≡ ok (some value)
  unfolding put_in_leaf
  found_inserted f =
      let inside = cut.within in
      let keys' = insert_at place key leaf.keys in
      let here : key_at keys' place ≡ key = get_or-insert_at_self place key [] leaf.keys inside in
      let size = length-insert_at place key leaf.keys in
      rw f (
        search_leaf-found _ key place value
          (bisect_left-at keys' key place (omega (arith, size))
            (λ j lt.
              ap (λ (k : Bytes). bytes_lt k key)
                (get_or-insert_at_before place j key [] leaf.keys inside lt)
              ∙ cut.before j lt)
            (λ j le lt. elim (ℕ_discrete place j) [
              | yes e ↦
                  ap (λ (n : ℕ). bytes_lt (key_at keys' n) key) (sym e)
                  ∙ ap (λ (k : Bytes). bytes_lt k key) here
                  ∙ bytes_lt_irrefl key
              | no n ↦
                  ap (λ (n : ℕ). bytes_lt (key_at keys' n) key) (omega arith)
                  ∙ ap (λ (k : Bytes). bytes_lt k key)
                      (get_or-insert_at_behind place (j - 1) key [] leaf.keys (omega arith))
                  ∙ cut.behind (j - 1) (omega arith) (omega (arith, size))
            ]))
          (omega (arith, size)) here
          (get_elem?-insert_at place false leaf.tombstones (omega (arith, l.flagged)))
          (get_elem?-insert_at place value leaf.values (omega (arith, l.valued))))

  -- In a leaf in order, a key that was put in is found with its value, whether it was there before,
  -- dead or alive, or not.
  pub search_leaf-put_in_leaf : search_leaf key (put_in_leaf key value leaf) ≡ ok (some value)
  search_leaf-put_in_leaf = elim (Bool-cases (is_at place key leaf)) [
    | inl t ↦ found_replaced t
    | inr f ↦ found_inserted f
  ]
