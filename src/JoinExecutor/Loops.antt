-- ===== src/JoinExecutor/Loops.antt =====
-- The nested loops of _join_executor.py against the relational definitions of the joins.
use tinydb_cc_comet.Prelude.{
  ℕ, suc, ◌≡◌, refl, sym, Bool, true, false, ◌||◌, List, [], ◌∷◌, ◌++◌, map, Bool-cases, inl, inr,
}
use tinydb_cc_comet.Errors.{Result, ok, err, ◌>>=◌}
use tinydb_cc_comet.JoinExecutor.{Row, Loop, scan_right, inner_rows}

-- Of every element
abbrev pub Each {ℓ κ} : {A : Type ℓ} → (A → Type κ) → List A → Type κ
Each P [] = Unit
Each P (x ∷ xs) = P x × Each P xs

-- Every comparison of a left with a right row returns.
abbrev pub Answers : Loop → (Row → Row → Bool) → List Row → List Row → Type 0
Answers loop test lefts rights = Each (λ l. Each (λ r. loop.test l r ≡ ok (test l r)) rights) lefts

-- The product of two lists, in the order of the loops
unfoldable pub product : List Row → List Row → List (Row × Row)
product [] rights = []
product (l ∷ lefts) rights = map (λ r. (l, r)) rights ++ product lefts rights

unfoldable pub select : (Row → Row → Bool) → List (Row × Row) → List (Row × Row)
select test [] = []
select test (p ∷ pairs) = elim (test p.0 p.1) [
  | false ↦ select test pairs
  | true ↦ p ∷ select test pairs
]

unfoldable pub merge_each : Loop → List (Row × Row) → Result (List Row)
merge_each loop [] = ok []
merge_each loop (p ∷ pairs) =
    loop.merge p.0 p.1 >>= λ row. merge_each loop pairs >>= λ rest. ok (row ∷ rest)

-- Whether a left row matches the right row
unfoldable pub any_match : (Row → Row → Bool) → List Row → Row → Bool
any_match test [] r = false
any_match test (l ∷ lefts) r = test l r || any_match test lefts r

-- The right rows without a match, padded, in their order
unfoldable pub pad_lonely : Loop → (Row → Row → Bool) → List Row → List Row → Result (List Row)
pad_lonely loop test lefts [] = ok []
pad_lonely loop test lefts (r ∷ rights) = elim (any_match test lefts r) [
  | true ↦ pad_lonely loop test lefts rights
  | false ↦ loop.pad_left r >>= λ row. pad_lonely loop test lefts rights >>= λ rest. ok (row ∷ rest)
]

module _ {ℓ} {A : Type ℓ} where
  bind_ok : (r : Result A) → (r >>= λ a. ok a) ≡ r
  bind_ok (ok a) = refl
  bind_ok (err e) = refl

  -- One more row in front of what two parts give
  cons_parts :
      (m : Result A) (a b : Result (List A))
      → (m >>= λ row. (a >>= λ x. b >>= λ y. ok (x ++ y)) >>= λ rest. ok (row ∷ rest))
        ≡ ((m >>= λ row. a >>= λ rest. ok (row ∷ rest)) >>= λ x. b >>= λ y. ok (x ++ y))
  cons_parts (err e) a b = refl
  cons_parts (ok row) (err e) b = refl
  cons_parts (ok row) (ok x) (err e) = refl
  cons_parts (ok row) (ok x) (ok y) = refl

abbrev with_hit : Row → ℕ → List Row × List ℕ → List Row × List ℕ
with_hit row ri rest = (row ∷ rest.0, ri ∷ rest.1)

hit_step :
    (m : Result Row) (s : Result (List Row × List ℕ)) (e : Result (List Row)) (ri : ℕ)
    → (s >>= λ h. ok h.0) ≡ e
    → ((m >>= λ row. s >>= λ rest. ok (with_hit row ri rest)) >>= λ h. ok h.0)
      ≡ (m >>= λ row. e >>= λ rest. ok (row ∷ rest))
hit_step (err x) s e ri h = refl
hit_step (ok row) (ok x) e ri h = rw (sym h) refl
hit_step (ok row) (err x) e ri h = rw (sym h) refl

-- What goes on with the rows alone
rows_alone {ℓ κ λ'} :
    {A : Type ℓ} {B : Type κ} {C : Type λ'} (s : Result (A × B)) (e : Result A) (k : A → Result C)
    → (s >>= λ h. ok h.0) ≡ e
    → (s >>= λ h. k h.0) ≡ (e >>= k)
rows_alone (ok x) e k h = rw (sym h) refl
rows_alone (err x) e k h = rw (sym h) refl

select-append :
    (test : Row → Row → Bool) (a b : List (Row × Row))
    → select test (a ++ b) ≡ select test a ++ select test b
unfolding select
select-append test [] b = refl
select-append test (p ∷ a) b = elim (Bool-cases (test p.0 p.1)) [
  | inl t ↦ rw (select, t, select-append test a b) refl
  | inr f ↦ rw (select, f, select-append test a b) refl
]

merge_each-append :
    (loop : Loop) (a b : List (Row × Row))
    → merge_each loop (a ++ b) ≡ (merge_each loop a >>= λ x. merge_each loop b >>= λ y. ok (x ++ y))
unfolding merge_each
merge_each-append loop [] b = sym (bind_ok (merge_each loop b))
merge_each-append loop (p ∷ a) b =
    rw (merge_each-append loop a b)
      (cons_parts (loop.merge p.0 p.1) (merge_each loop a) (merge_each loop b))

module _ (loop : Loop) (test : Row → Row → Bool) where
  -- The rows of the inner loop
  pub scan_right-rows :
      (l : Row) (ri : ℕ) (rights : List Row)
      → Each (λ r. loop.test l r ≡ ok (test l r)) rights
      → (scan_right loop l ri rights >>= λ hits. ok hits.0)
        ≡ merge_each loop (select test (map (λ r. (l, r)) rights))
  unfolding scan_right merge_each select
  scan_right-rows l ri [] h = refl
  scan_right-rows l ri (r ∷ rights) (h, hs) = elim (Bool-cases (test l r)) [
    | inr miss ↦ rw (h, miss) (scan_right-rows l (suc ri) rights hs)
    | inl hit ↦
        rw (h, hit)
          (hit_step (loop.merge l r) (scan_right loop l (suc ri) rights) _ ri
            (scan_right-rows l (suc ri) rights hs))
  ]

  -- Where every comparison returns, the INNER loop gives the rows of the product that match, merged one by one
  -- in the order of the product, or the first error of merging them.
  pub inner_rows-select :
      (lefts rights : List Row)
      → Answers loop test lefts rights
      → inner_rows loop lefts rights ≡ merge_each loop (select test (product lefts rights))
  unfolding inner_rows product select merge_each
  inner_rows-select [] rights h = refl
  inner_rows-select (l ∷ lefts) rights (h, hs) =
      rw
        (
          select-append test (map (λ r. (l, r)) rights) (product lefts rights),
          merge_each-append loop (select test (map (λ r. (l, r)) rights))
              (select test (product lefts rights)),
          inner_rows-select lefts rights hs,
        )
        (rows_alone (scan_right loop l 0 rights)
          (merge_each loop (select test (map (λ r. (l, r)) rights)))
          (λ x. merge_each loop (select test (product lefts rights)) >>= λ y. ok (x ++ y))
          (scan_right-rows l 0 rights h))
