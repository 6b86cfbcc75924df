-- ===== src/JoinExecutor/Full.antt =====
-- FULL JOIN of _join_executor.py: its set of matched indices against the relational definition.
use tinydb_cc_comet.Prelude.{
  ℕ, zero, suc, ◌+◌, ◌<◌, ◌≡◌, refl, sym, ap, ◌∙◌, Bool, true, false, ◌||◌, Option, none, some,
  List, [], ◌∷◌, ◌++◌, arith, get_elem?, Bool-cases, inl, inr, ◌⊎◌,
}
use tinydb_cc_comet.Errors.{Result, ok, err, ◌>>=◌}
use tinydb_cc_comet.JoinExecutor.{
  Row, Loop, scan_right, or_padded, left_rows, full_left, full_rows, has_index, pad_unmatched,
}
use tinydb_cc_comet.JoinExecutor.Loops.{Each, Answers, any_match, pad_lonely}

-- Of the indices, when the loop returns
abbrev OnOk : (List ℕ → Type 0) → Result (List Row × List ℕ) → Type 0
OnOk P (ok x) = P x.1
OnOk P (err e) = Unit

OnOk-mono :
    (P Q : List ℕ → Type 0) (r : Result (List Row × List ℕ))
    → ((is : List ℕ) → P is → Q is)
    → OnOk P r
    → OnOk Q r
OnOk-mono P Q (ok x) f h = f x.1 h
OnOk-mono P Q (err e) f h = tt

abbrev with_hit : Row → ℕ → List Row × List ℕ → List Row × List ℕ
with_hit row ri rest = (row ∷ rest.0, ri ∷ rest.1)

OnOk-hit :
    (P Q : List ℕ → Type 0) (ri : ℕ) (m : Result Row) (s : Result (List Row × List ℕ))
    → ((is : List ℕ) → P is → Q (ri ∷ is))
    → OnOk P s
    → OnOk Q (m >>= λ row. s >>= λ rest. ok (with_hit row ri rest))
OnOk-hit P Q ri (err e) s f h = tt
OnOk-hit P Q ri (ok row) (err e) f h = tt
OnOk-hit P Q ri (ok row) (ok x) f h = f x.1 h

abbrev holds_at : (Row → Bool) → Option Row → Bool
holds_at p none = false
holds_at p (some r) = p r

-- The indices, counted from `ri`, of the rows that pass
record Indices (p : Row → Bool) (ri : ℕ) (rows : List Row) (is : List ℕ) : Type 0 where
  below : (j : ℕ) → j < ri → has_index j is ≡ false
  at_row : (k : ℕ) → has_index (ri + k) is ≡ holds_at p (get_elem? rows k)

add_suc : (n k : ℕ) → n + suc k ≡ suc n + k
add_suc n k = omega arith

miss_at :
    (p : Row → Bool) (ri : ℕ) (r : Row) (rows : List Row) (is : List ℕ)
    → p r ≡ false
    → Indices p (suc ri) rows is
    → (k : ℕ) → has_index (ri + k) is ≡ holds_at p (get_elem? (r ∷ rows) k)
unfolding get_elem?
miss_at p ri r rows is miss h zero = rw miss (h.below (ri + 0) (omega arith))
miss_at p ri r rows is miss h (suc k) = rw (add_suc ri k) (h.at_row k)

Indices-miss :
    (p : Row → Bool) (ri : ℕ) (r : Row) (rows : List Row) (is : List ℕ)
    → p r ≡ false
    → Indices p (suc ri) rows is
    → Indices p ri (r ∷ rows) is
Indices-miss p ri r rows is miss h = record {
  below = λ j lt. h.below j (omega arith);
  at_row = miss_at p ri r rows is miss h;
}

has_index-head : (j i : ℕ) (is : List ℕ) → j ≡ i → has_index j (i ∷ is) ≡ true
unfolding has_index
has_index-head j i is e = ground (arith, e)

has_index-tail :
    (j i : ℕ) (is : List ℕ) → ((j < i) ⊎ (i < j)) → has_index j (i ∷ is) ≡ has_index j is
unfolding has_index
has_index-tail j i is (inl lt) = ground arith
has_index-tail j i is (inr lt) = ground arith

hit_at :
    (p : Row → Bool) (ri : ℕ) (r : Row) (rows : List Row) (is : List ℕ)
    → p r ≡ true
    → Indices p (suc ri) rows is
    → (k : ℕ) → has_index (ri + k) (ri ∷ is) ≡ holds_at p (get_elem? (r ∷ rows) k)
unfolding get_elem?
hit_at p ri r rows is hit h zero = rw hit (has_index-head (ri + 0) ri is (omega arith))
hit_at p ri r rows is hit h (suc k) =
    has_index-tail (ri + suc k) ri is (inr (omega arith)) ∙ rw (add_suc ri k) (h.at_row k)

Indices-hit :
    (p : Row → Bool) (ri : ℕ) (r : Row) (rows : List Row) (is : List ℕ)
    → p r ≡ true
    → Indices p (suc ri) rows is
    → Indices p ri (r ∷ rows) (ri ∷ is)
Indices-hit p ri r rows is hit h = record {
  below = λ j lt. has_index-tail j ri is (inl lt) ∙ h.below j (omega arith);
  at_row = hit_at p ri r rows is hit h;
}

has_index-append :
    (j : ℕ) (is js : List ℕ) → has_index j (is ++ js) ≡ (has_index j is || has_index j js)
unfolding has_index
has_index-append j [] js = refl
has_index-append j (i ∷ is) js = ground (arith, has_index-append j is js)

-- The parts of one round of the first phase: what was scanned, how it is padded, and the rounds behind it
abbrev joined : List Row → List ℕ → List Row × List ℕ → List Row × List ℕ
joined rows is rest = (rows ++ rest.0, is ++ rest.1)

module _ (pad : List Row → Result (List Row)) where
  OnOk-round :
      (P Q R : List ℕ → Type 0) (s t : Result (List Row × List ℕ))
      → ((is js : List ℕ) → P is → Q js → R (is ++ js))
      → OnOk P s
      → OnOk Q t
      → OnOk R (s >>= λ hits. pad hits.0 >>= λ rows. t >>= λ rest. ok (joined rows hits.1 rest))
  OnOk-round P Q R (err e) t f p q = tt
  OnOk-round P Q R (ok x) t f p q = padded (pad x.0) t q
    where
      padded :
          (m : Result (List Row)) (t : Result (List Row × List ℕ))
          → OnOk Q t
          → OnOk R (m >>= λ rows. t >>= λ rest. ok (joined rows x.1 rest))
      padded (err e) t q = tt
      padded (ok rows) (err e) q = tt
      padded (ok rows) (ok y) q = f x.1 y.1 p q

  -- The rows of the round are those of LEFT.
  round-rows :
      (s t : Result (List Row × List ℕ)) (u : Result (List Row))
      → (t >>= λ rest. ok rest.0) ≡ u
      → ((s >>= λ hits. pad hits.0 >>= λ rows. t >>= λ rest. ok (joined rows hits.1 rest)) >>= λ r.
          ok r.0)
        ≡ (s >>= λ hits. pad hits.0 >>= λ rows. u >>= λ rest. ok (rows ++ rest))
  round-rows (err e) t u h = refl
  round-rows (ok x) t u h = padded (pad x.0) t u h
    where
      padded :
          (m : Result (List Row)) (t : Result (List Row × List ℕ)) (u : Result (List Row))
          → (t >>= λ rest. ok rest.0) ≡ u
          → ((m >>= λ rows. t >>= λ rest. ok (joined rows x.1 rest)) >>= λ r. ok r.0)
            ≡ (m >>= λ rows. u >>= λ rest. ok (rows ++ rest))
      padded (err e) t u h = refl
      padded (ok rows) (err e) u h = rw (sym h) refl
      padded (ok rows) (ok y) u h = rw (sym h) refl

add_zero : (k : ℕ) → k + 0 ≡ k
add_zero k = omega arith

zero_add : (k : ℕ) → 0 + k ≡ k
zero_add k = omega arith

module _ (loop : Loop) (test : Row → Row → Bool) where
  scan_right-Indices :
      (l : Row) (ri : ℕ) (rights : List Row)
      → Each (λ r. loop.test l r ≡ ok (test l r)) rights
      → OnOk (Indices (test l) ri rights) (scan_right loop l ri rights)
  unfolding scan_right has_index get_elem?
  scan_right-Indices l ri [] h = record { below = λ j lt. refl; at_row = λ k. refl }
  scan_right-Indices l ri (r ∷ rights) (h, hs) = elim (Bool-cases (test l r)) [
    | inr miss ↦
        rw (h, miss)
          (OnOk-mono (Indices (test l) (suc ri) rights) (Indices (test l) ri (r ∷ rights))
            (scan_right loop l (suc ri) rights)
            (λ is i. Indices-miss (test l) ri r rights is miss i)
            (scan_right-Indices l (suc ri) rights hs))
    | inl hit ↦
        rw (h, hit)
          (OnOk-hit (Indices (test l) (suc ri) rights) (Indices (test l) ri (r ∷ rights)) ri
            (loop.merge l r) (scan_right loop l (suc ri) rights)
            (λ is i. Indices-hit (test l) ri r rights is hit i)
            (scan_right-Indices l (suc ri) rights hs))
  ]

  holds_at-any :
      (l : Row) (lefts : List Row) (o : Option Row)
      → holds_at (any_match test (l ∷ lefts)) o
        ≡ (holds_at (test l) o || holds_at (any_match test lefts) o)
  unfolding any_match
  holds_at-any l lefts none = refl
  holds_at-any l lefts (some r) = refl

  holds_at-no_left : (o : Option Row) → holds_at (any_match test []) o ≡ false
  unfolding any_match
  holds_at-no_left none = refl
  holds_at-no_left (some r) = refl

  -- The indices of the first phase are those of the right rows that some left row matches.
  abbrev Matched : List Row → List Row → List ℕ → Type 0
  Matched lefts rights is =
      (k : ℕ) → has_index k is ≡ holds_at (any_match test lefts) (get_elem? rights k)

  Matched-append :
      (l : Row) (lefts rights : List Row) (is js : List ℕ)
      → Indices (test l) 0 rights is
      → Matched lefts rights js
      → Matched (l ∷ lefts) rights (is ++ js)
  Matched-append l lefts rights is js i m k =
      rw
        (
          has_index-append k is js,
          holds_at-any l lefts (get_elem? rights k),
          m k,
          sym (i.at_row k),
          zero_add k,
        )
        refl

  full_left-Matched :
      (lefts rights : List Row)
      → Answers loop test lefts rights
      → OnOk (Matched lefts rights) (full_left loop lefts rights)
  unfolding full_left has_index
  full_left-Matched [] rights h = λ k. sym (holds_at-no_left (get_elem? rights k))
  full_left-Matched (l ∷ lefts) rights (h, hs) =
      OnOk-round (λ rows. or_padded rows (loop.pad_right l)) (Indices (test l) 0 rights)
        (Matched lefts rights) (Matched (l ∷ lefts) rights) (scan_right loop l 0 rights)
        (full_left loop lefts rights) (Matched-append l lefts rights)
        (scan_right-Indices l 0 rights h) (full_left-Matched lefts rights hs)

  full_left-rows :
      (lefts rights : List Row)
      → (full_left loop lefts rights >>= λ r. ok r.0) ≡ left_rows loop lefts rights
  unfolding full_left left_rows
  full_left-rows [] rights = refl
  full_left-rows (l ∷ lefts) rights =
      round-rows (λ rows. or_padded rows (loop.pad_right l)) (scan_right loop l 0 rights)
        (full_left loop lefts rights) (left_rows loop lefts rights) (full_left-rows lefts rights)

  at_head :
      (lefts : List Row) (r : Row) (rights : List Row) (is : List ℕ) (ri : ℕ)
      → has_index (ri + 0) is ≡ holds_at (any_match test lefts) (get_elem? (r ∷ rights) 0)
      → has_index ri is ≡ any_match test lefts r
  unfolding get_elem?
  at_head lefts r rights is ri h = rw (add_zero ri) at h

  at_tail :
      (lefts : List Row) (r : Row) (rights : List Row) (is : List ℕ) (ri : ℕ)
      → ((k : ℕ)
          → has_index (ri + k) is ≡ holds_at (any_match test lefts) (get_elem? (r ∷ rights) k))
      → (k : ℕ) → has_index (suc ri + k) is ≡ holds_at (any_match test lefts) (get_elem? rights k)
  unfolding get_elem?
  at_tail lefts r rights is ri h k = rw (sym (add_suc ri k)) (h (suc k))

  pad_unmatched-lonely :
      (lefts rights : List Row) (is : List ℕ) (ri : ℕ)
      → ((k : ℕ) → has_index (ri + k) is ≡ holds_at (any_match test lefts) (get_elem? rights k))
      → pad_unmatched loop is ri rights ≡ pad_lonely loop test lefts rights
  unfolding pad_unmatched pad_lonely
  pad_unmatched-lonely lefts [] is ri h = refl
  pad_unmatched-lonely lefts (r ∷ rights) is ri h =
      let here : has_index ri is ≡ any_match test lefts r = at_head lefts r rights is ri (h 0) in
      let rest = pad_unmatched-lonely lefts rights is (suc ri) (at_tail lefts r rights is ri h) in
      elim (Bool-cases (any_match test lefts r)) [
        | inl t ↦ rw (pad_unmatched, pad_lonely, here, t) rest
        | inr f ↦
            rw (pad_unmatched, pad_lonely, here, f)
              (ap (λ u. loop.pad_left r >>= λ row. u >>= λ next. ok (row ∷ next)) rest)
      ]

  -- Where every comparison returns, FULL gives the rows of LEFT, and behind them the right rows that no left
  -- row matches, padded, in their order, with the errors of making the rows in the same order too.
  pub full_rows-left_rows :
      (lefts rights : List Row)
      → Answers loop test lefts rights
      → full_rows loop lefts rights ≡ (
          left_rows loop lefts rights >>= λ a.
          pad_lonely loop test lefts rights >>= λ b. ok (a ++ b))
  unfolding full_rows
  full_rows-left_rows lefts rights h =
      go (full_left loop lefts rights) (left_rows loop lefts rights) (full_left-rows lefts rights)
        (full_left-Matched lefts rights h)
    where
      go :
          (f : Result (List Row × List ℕ)) (u : Result (List Row))
          → (f >>= λ r. ok r.0) ≡ u
          → OnOk (Matched lefts rights) f
          → (f >>= λ first. pad_unmatched loop first.1 0 rights >>= λ rest. ok (first.0 ++ rest))
            ≡ (u >>= λ a. pad_lonely loop test lefts rights >>= λ b. ok (a ++ b))
      go (err e) u same m = rw (sym same) refl
      go (ok x) u same m =
          rw (sym same, pad_unmatched-lonely lefts rights x.1 0 (λ k. rw (zero_add k) (m k))) refl
