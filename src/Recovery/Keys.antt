-- ===== src/Recovery/Keys.antt =====
-- The keys of the table of recovery.py: those of a dict are distinct, and `sorted` puts them in order.
use tinydb_cc_comet.Prelude.{
  ℕ, suc, ◌≤◌, ◌<◌, ◌≡◌, refl, ap, ◌∙◌, Bool, false, ◌||◌, none, List, [], ◌∷◌, map, arith, leb,
  ◌==◌, Bool-cases, inl, inr,
}
use mathlib.Core.Option
use tinydb_cc_comet.Dict.{Dict, get, put, set_default}
use tinydb_cc_comet.Recovery.{insert_sorted, sorted}

unfoldable pub in_list : ℕ → List ℕ → Bool
in_list k [] = false
in_list k (j ∷ ks) = (j == k) || in_list k ks

abbrev pub Distinct : List ℕ → Type 0
Distinct [] = Unit
Distinct (k ∷ ks) = (in_list k ks ≡ false) × Distinct ks

-- The list ascends strictly, from `a` on.
abbrev pub Ascends : ℕ → List ℕ → Type 0
Ascends a [] = Unit
Ascends a (k ∷ ks) = (a ≤ k) × Ascends (suc k) ks

in_list-insert_sorted :
    (j k : ℕ) (ks : List ℕ) → in_list j (insert_sorted k ks) ≡ ((k == j) || in_list j ks)
unfolding in_list insert_sorted
in_list-insert_sorted j k [] = refl
in_list-insert_sorted j k (i ∷ ks) = ground (arith, in_list-insert_sorted j k ks)

pub in_list-sorted : (j : ℕ) (ks : List ℕ) → in_list j (sorted ks) ≡ in_list j ks
unfolding in_list sorted
in_list-sorted j [] = refl
in_list-sorted j (k ∷ ks) =
    in_list-insert_sorted j k (sorted ks) ∙ ap (λ (b : Bool). (k == j) || b) (in_list-sorted j ks)

Ascends-insert_sorted :
    (a k : ℕ) (ks : List ℕ)
    → a ≤ k
    → in_list k ks ≡ false
    → Ascends a ks
    → Ascends a (insert_sorted k ks)
unfolding in_list insert_sorted
Ascends-insert_sorted a k [] h n s = (h, tt)
Ascends-insert_sorted a k (j ∷ ks) h n (s, ss) = elim (Bool-cases (leb k j)) [
  | inl le ↦ let differ : (j == k) ≡ false = ground arith in rw le (h, (ground arith, ss))
  | inr gt ↦
      let rest : in_list k ks ≡ false = ground arith in
      rw gt (s, Ascends-insert_sorted (suc j) k ks (ground arith) rest ss)
]

pub Ascends-sorted : (ks : List ℕ) → Distinct ks → Ascends 0 (sorted ks)
unfolding sorted
Ascends-sorted [] d = tt
Ascends-sorted (k ∷ ks) (n, d) =
    Ascends-insert_sorted 0 k (sorted ks) (omega arith) (in_list-sorted k ks ∙ n)
      (Ascends-sorted ks d)

-- What lies below is not in the list.
pub Ascends-below : (a b : ℕ) (ks : List ℕ) → Ascends b ks → a < b → in_list a ks ≡ false
unfolding in_list
Ascends-below a b [] s h = refl
Ascends-below a b (k ∷ ks) (s, ss) h =
    let t : (k == a) ≡ false = ground arith in rw t (Ascends-below a (suc k) ks ss (omega arith))

module _ {ℓ} {V : Type ℓ} where
  abbrev pub keys : Dict V → List ℕ
  keys d = map (λ e. e.0) d

  pub keys-put :
      (j k : ℕ) (v : V) (d : Dict V)
      → in_list j (keys (put k v d)) ≡ ((k == j) || in_list j (keys d))
  unfolding in_list put
  keys-put j k v [] = refl
  keys-put j k v ((i, w) ∷ d) = ground (arith, keys-put j k v d)

  pub keys-set_default :
      (j k : ℕ) (v : V) (d : Dict V)
      → in_list j (keys (set_default k v d)) ≡ ((k == j) || in_list j (keys d))
  unfolding in_list set_default
  keys-set_default j k v [] = refl
  keys-set_default j k v ((i, w) ∷ d) = ground (arith, keys-set_default j k v d)

  pub Distinct-put : (k : ℕ) (v : V) (d : Dict V) → Distinct (keys d) → Distinct (keys (put k v d))
  unfolding in_list put
  Distinct-put k v [] h = (refl, tt)
  Distinct-put k v ((i, w) ∷ d) (n, h) = elim (Bool-cases (i == k)) [
    | inl e ↦ rw e (n, h)
    | inr e ↦
        let fresh : in_list i (keys (put k v d)) ≡ false = ground (arith, keys-put i k v d) in
        rw e (fresh, Distinct-put k v d h)
  ]

  pub Distinct-set_default :
      (k : ℕ) (v : V) (d : Dict V) → Distinct (keys d) → Distinct (keys (set_default k v d))
  unfolding in_list set_default
  Distinct-set_default k v [] h = (refl, tt)
  Distinct-set_default k v ((i, w) ∷ d) (n, h) = elim (Bool-cases (i == k)) [
    | inl e ↦ rw e (n, h)
    | inr e ↦
        let fresh : in_list i (keys (set_default k v d)) ≡ false =
          ground (arith, keys-set_default i k v d) in
        rw e (fresh, Distinct-set_default k v d h)
  ]

  pub get-missing : (k : ℕ) (d : Dict V) → in_list k (keys d) ≡ false → get k d ≡ none
  unfolding in_list get
  get-missing k [] h = refl
  get-missing k ((i, w) ∷ d) h = ground (arith, get-missing k d)

  -- A default that is already what a missing key counts as changes no reading.
  pub get_or-set_default :
      (j k : ℕ) (v : V) (d : Dict V)
      → Option.get_or (get j (set_default k v d)) v ≡ Option.get_or (get j d) v
  unfolding get set_default
  get_or-set_default j k v [] = ground arith
  get_or-set_default j k v ((i, w) ∷ d) = ground (arith, get_or-set_default j k v d)
