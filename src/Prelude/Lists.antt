-- ===== src/Prelude/Lists.antt =====
-- Lists measured and indexed by native numbers, under the library's names, and Python's slices.
use Prim.Native.Nat.{ℕ, zero, suc, ◌+◌, ◌-◌, ◌≤◌, ◌<◌, min, max}
use mathlib.Core.Path.{◌≡◌, refl, ap, sym, ◌∙◌}
use mathlib.Core.Logic.{◌≢◌}
use mathlib.Core.List.{List, [], ◌∷◌, ◌++◌, map}
use mathlib.Core.Option.{Option, none, some}
use native.Mathlib.Omega.{arith}

module _ {ℓ} {A : Type ℓ} where
  abbrev pub length : List A → ℕ
  length [] = 0
  length (x ∷ xs) = suc (length xs)

  unfoldable pub get_elem? : List A → ℕ → Option A
  get_elem? [] i = none
  get_elem? (x ∷ xs) zero = some x
  get_elem? (x ∷ xs) (suc i) = get_elem? xs i

  -- A write out of bounds changes nothing.
  unfoldable pub set : List A → ℕ → A → List A
  set [] i v = []
  set (x ∷ xs) zero v = v ∷ xs
  set (x ∷ xs) (suc i) v = x ∷ set xs i v

  unfoldable pub get_or : List A → ℕ → A → A
  get_or [] i d = d
  get_or (x ∷ xs) zero d = x
  get_or (x ∷ xs) (suc i) d = get_or xs i d

  unfoldable pub take : ℕ → List A → List A
  take zero xs = []
  take (suc n) [] = []
  take (suc n) (x ∷ xs) = x ∷ take n xs

  unfoldable pub drop : ℕ → List A → List A
  drop zero xs = xs
  drop (suc n) [] = []
  drop (suc n) (x ∷ xs) = drop n xs

  unfoldable pub replicate : ℕ → A → List A
  replicate zero a = []
  replicate (suc n) a = a ∷ replicate n a

  -- `list.insert(i, v)`: past the end it appends.
  unfoldable pub insert_at : ℕ → A → List A → List A
  insert_at zero v xs = v ∷ xs
  insert_at (suc i) v [] = v ∷ []
  insert_at (suc i) v (x ∷ xs) = x ∷ insert_at i v xs

  pub length-append : (xs ys : List A) → length (xs ++ ys) ≡ length xs + length ys
  length-append [] ys = omega arith
  length-append (x ∷ xs) ys = omega (arith, length-append xs ys)

module _ {ℓ} {A : Type ℓ} where
  -- `xs[i:j]` for indices that are not negative.
  unfoldable pub slice : ℕ → ℕ → List A → List A
  slice i j xs = take (j - i) (drop i xs)

  -- `xs[i:j] = v` on a bytearray, for indices that are not negative: the length may change.
  unfoldable pub set_slice : ℕ → ℕ → List A → List A → List A
  set_slice i j v xs = take i xs ++ (v ++ drop (max i j) xs)

  pub length-set : (xs : List A) (i : ℕ) (v : A) → length (set xs i v) ≡ length xs
  unfolding set
  length-set [] i v = refl
  length-set (x ∷ xs) zero v = refl
  length-set (x ∷ xs) (suc i) v = ap suc (length-set xs i v)

  pub length-take : (n : ℕ) (xs : List A) → length (take n xs) ≡ min n (length xs)
  unfolding take
  length-take zero xs = omega arith
  length-take (suc n) [] = omega arith
  length-take (suc n) (x ∷ xs) = omega (arith, length-take n xs)

  pub length-drop : (n : ℕ) (xs : List A) → length (drop n xs) ≡ length xs - n
  unfolding drop
  length-drop zero xs = omega arith
  length-drop (suc n) [] = omega arith
  length-drop (suc n) (x ∷ xs) = omega (arith, length-drop n xs)

  pub length-replicate : (n : ℕ) (a : A) → length (replicate n a) ≡ n
  unfolding replicate
  length-replicate zero a = refl
  length-replicate (suc n) a = ap suc (length-replicate n a)

  pub take-append_le : (n : ℕ) (xs ys : List A) → n ≤ length xs → take n (xs ++ ys) ≡ take n xs
  unfolding take
  take-append_le zero xs ys h = refl
  take-append_le (suc n) [] ys h = absurd (omega arith)
  take-append_le (suc n) (x ∷ xs) ys h = ap (◌∷◌ x) (take-append_le n xs ys (omega arith))

  pub take_all : (n : ℕ) (xs : List A) → length xs ≤ n → take n xs ≡ xs
  unfolding take
  take_all zero [] h = refl
  take_all zero (x ∷ xs) h = absurd (omega arith)
  take_all (suc n) [] h = refl
  take_all (suc n) (x ∷ xs) h = ap (◌∷◌ x) (take_all n xs (omega arith))

  pub take-append_self : (n : ℕ) (xs ys : List A) → length xs ≡ n → take n (xs ++ ys) ≡ xs
  unfolding take
  take-append_self zero [] ys h = refl
  take-append_self zero (x ∷ xs) ys h = absurd (omega arith)
  take-append_self (suc n) [] ys h = absurd (omega arith)
  take-append_self (suc n) (x ∷ xs) ys h = ap (◌∷◌ x) (take-append_self n xs ys (omega arith))

  pub drop-append_self : (n : ℕ) (xs ys : List A) → length xs ≡ n → drop n (xs ++ ys) ≡ ys
  unfolding drop
  drop-append_self zero [] ys h = refl
  drop-append_self zero (x ∷ xs) ys h = absurd (omega arith)
  drop-append_self (suc n) [] ys h = absurd (omega arith)
  drop-append_self (suc n) (x ∷ xs) ys h = drop-append_self n xs ys (omega arith)

  pub drop-append_le :
      (n : ℕ) (xs ys : List A) → n ≤ length xs → drop n (xs ++ ys) ≡ drop n xs ++ ys
  unfolding drop
  drop-append_le zero xs ys h = refl
  drop-append_le (suc n) [] ys h = absurd (omega arith)
  drop-append_le (suc n) (x ∷ xs) ys h = drop-append_le n xs ys (omega arith)

  drop_nil : (n : ℕ) (xs : List A) → length xs ≡ 0 → drop n xs ≡ xs
  unfolding drop
  drop_nil zero xs h = refl
  drop_nil (suc n) [] h = refl
  drop_nil (suc n) (x ∷ xs) h = absurd (omega arith)

  pub drop-drop : (n m : ℕ) (xs : List A) → drop n (drop m xs) ≡ drop (m + n) xs
  unfolding drop
  drop-drop n zero xs = ap (λ (k : ℕ). drop k xs) (omega arith)
  drop-drop n (suc m) [] = drop_nil n [] refl ∙ sym (drop_nil (suc m + n) [] refl)
  drop-drop n (suc m) (x ∷ xs) =
      let e : suc m + n ≡ suc (m + n) = omega arith in rw e (drop-drop n m xs)

  pub take-drop-take :
      (n a i : ℕ) (xs : List A) → a + n ≤ i → take n (drop a (take i xs)) ≡ take n (drop a xs)
  unfolding take drop
  take-drop-take zero a i xs h = refl
  take-drop-take (suc n) zero zero xs h = absurd (omega arith)
  take-drop-take (suc n) zero (suc i) [] h = refl
  take-drop-take (suc n) zero (suc i) (x ∷ xs) h =
      ap (◌∷◌ x) (take-drop-take n zero i xs (omega arith))
  take-drop-take (suc n) (suc a) zero xs h = absurd (omega arith)
  take-drop-take (suc n) (suc a) (suc i) [] h = refl
  take-drop-take (suc n) (suc a) (suc i) (x ∷ xs) h = take-drop-take (suc n) a i xs (omega arith)

  pub length-slice : (i j : ℕ) (xs : List A) → j ≤ length xs → length (slice i j xs) ≡ j - i
  unfolding slice
  length-slice i j xs h = omega (arith, length-take (j - i) (drop i xs), length-drop i xs)

module _ {ℓ} {A : Type ℓ} (i j : ℕ) (v xs : List A) (size : i + length v ≡ j)
    (fits : j ≤ length xs) where
  prefix_size : length (take i xs) ≡ i
  prefix_size = omega (arith, length-take i xs)

  set_slice_split : set_slice i j v xs ≡ take i xs ++ (v ++ drop j xs)
  unfolding set_slice
  set_slice_split = let e : max i j ≡ j = omega arith in rw e

  pub length-set_slice : length (set_slice i j v xs) ≡ length xs
  length-set_slice = rw set_slice_split (
      omega (
        arith,
        length-append (take i xs) (v ++ drop j xs),
        length-append v (drop j xs),
        length-drop j xs,
        prefix_size,
      ))

  pub slice-set_slice_self : slice i j (set_slice i j v xs) ≡ v
  unfolding slice
  slice-set_slice_self =
      rw (set_slice_split, drop-append_self i (take i xs) (v ++ drop j xs) prefix_size)
        (take-append_self (j - i) v (drop j xs) (omega arith))

  pub slice-set_slice_before :
      (a b : ℕ) → a ≤ b → b ≤ i → slice a b (set_slice i j v xs) ≡ slice a b xs
  unfolding slice
  slice-set_slice_before a b h k =
      rw
        (
          set_slice_split,
          drop-append_le a (take i xs) (v ++ drop j xs) (omega (arith, prefix_size)),
        )
        (take-append_le (b - a) (drop a (take i xs)) (v ++ drop j xs)
            (omega (arith, prefix_size, length-drop a (take i xs)))
          ∙ take-drop-take (b - a) a i xs (omega arith))

  drop_after : (a : ℕ) → j ≤ a → drop a (set_slice i j v xs) ≡ drop a xs
  drop_after a h =
      let e : a ≡ i + (length v + (a - j)) = omega arith in
      let f : a ≡ j + (a - j) = omega arith in
      ap (λ (k : ℕ). drop k (set_slice i j v xs)) e
      ∙ sym (drop-drop (length v + (a - j)) i (set_slice i j v xs))
      ∙ ap (drop (length v + (a - j))) (
          ap (drop i) set_slice_split ∙ drop-append_self i (take i xs) (v ++ drop j xs) prefix_size)
      ∙ sym (drop-drop (a - j) (length v) (v ++ drop j xs))
      ∙ ap (drop (a - j)) (drop-append_self (length v) v (drop j xs) refl)
      ∙ drop-drop (a - j) j xs
      ∙ ap (λ (k : ℕ). drop k xs) (sym f)

  pub slice-set_slice_after : (a b : ℕ) → j ≤ a → slice a b (set_slice i j v xs) ≡ slice a b xs
  unfolding slice
  slice-set_slice_after a b h = ap (take (b - a)) (drop_after a h)

module _ {ℓ} {A : Type ℓ} where
  pub get_or-append_left :
      (xs ys : List A) (k : ℕ) (d : A) → k < length xs → get_or (xs ++ ys) k d ≡ get_or xs k d
  unfolding get_or
  get_or-append_left [] ys k d h = absurd (omega arith)
  get_or-append_left (x ∷ xs) ys zero d h = refl
  get_or-append_left (x ∷ xs) ys (suc k) d h = get_or-append_left xs ys k d (omega arith)

  pub get_or-append_right :
      (xs ys : List A) (k : ℕ) (d : A) → get_or (xs ++ ys) (length xs + k) d ≡ get_or ys k d
  unfolding get_or
  get_or-append_right [] ys k d = ap (λ (n : ℕ). get_or ys n d) (omega arith)
  get_or-append_right (x ∷ xs) ys k d =
      let e : suc (length xs) + k ≡ suc (length xs + k) = omega arith in
      rw e (get_or-append_right xs ys k d)

  pub get_or-take :
      (n : ℕ) (xs : List A) (k : ℕ) (d : A) → k < n → get_or (take n xs) k d ≡ get_or xs k d
  unfolding get_or take
  get_or-take zero xs k d h = absurd (omega arith)
  get_or-take (suc n) [] k d h = refl
  get_or-take (suc n) (x ∷ xs) zero d h = refl
  get_or-take (suc n) (x ∷ xs) (suc k) d h = get_or-take n xs k d (omega arith)

  pub get_or-drop :
      (n : ℕ) (xs : List A) (k : ℕ) (d : A) → get_or (drop n xs) k d ≡ get_or xs (n + k) d
  unfolding get_or drop
  get_or-drop zero xs k d = ap (λ (m : ℕ). get_or xs m d) (omega arith)
  get_or-drop (suc n) [] k d = refl
  get_or-drop (suc n) (x ∷ xs) k d =
      let e : suc n + k ≡ suc (n + k) = omega arith in rw e (get_or-drop n xs k d)

  pub get_or_out : (xs : List A) (k : ℕ) (d : A) → length xs ≤ k → get_or xs k d ≡ d
  unfolding get_or
  get_or_out [] k d h = refl
  get_or_out (x ∷ xs) zero d h = absurd (omega arith)
  get_or_out (x ∷ xs) (suc k) d h = get_or_out xs k d (omega arith)

  pub get_or-replicate : (n : ℕ) (a : A) (k : ℕ) → get_or (replicate n a) k a ≡ a
  unfolding get_or replicate
  get_or-replicate zero a k = refl
  get_or-replicate (suc n) a zero = refl
  get_or-replicate (suc n) a (suc k) = get_or-replicate n a k

  pub get_or-set_self :
      (xs : List A) (k : ℕ) (v d : A) → k < length xs → get_or (set xs k v) k d ≡ v
  unfolding get_or set
  get_or-set_self [] k v d h = absurd (omega arith)
  get_or-set_self (x ∷ xs) zero v d h = refl
  get_or-set_self (x ∷ xs) (suc k) v d h = get_or-set_self xs k v d (omega arith)

  pub get_or-set_ne :
      (xs : List A) (k j : ℕ) (v d : A) → k ≢ j → get_or (set xs k v) j d ≡ get_or xs j d
  unfolding get_or set
  get_or-set_ne [] k j v d n = refl
  get_or-set_ne (x ∷ xs) zero zero v d n = absurd (n refl)
  get_or-set_ne (x ∷ xs) zero (suc j) v d n = refl
  get_or-set_ne (x ∷ xs) (suc k) zero v d n = refl
  get_or-set_ne (x ∷ xs) (suc k) (suc j) v d n = get_or-set_ne xs k j v d (λ q. n (ap suc q))

  pub get_elem?-set_self :
      (xs : List A) (k : ℕ) (v : A) → k < length xs → get_elem? (set xs k v) k ≡ some v
  unfolding get_elem? set
  get_elem?-set_self [] k v h = absurd (omega arith)
  get_elem?-set_self (x ∷ xs) zero v h = refl
  get_elem?-set_self (x ∷ xs) (suc k) v h = get_elem?-set_self xs k v (omega arith)

  pub get_elem?-set_ne :
      (xs : List A) (k j : ℕ) (v : A) → k ≢ j → get_elem? (set xs k v) j ≡ get_elem? xs j
  unfolding get_elem? set
  get_elem?-set_ne [] k j v h = refl
  get_elem?-set_ne (x ∷ xs) zero zero v h = absurd (h refl)
  get_elem?-set_ne (x ∷ xs) zero (suc j) v h = refl
  get_elem?-set_ne (x ∷ xs) (suc k) zero v h = refl
  get_elem?-set_ne (x ∷ xs) (suc k) (suc j) v h = get_elem?-set_ne xs k j v (λ e. h (ap suc e))

  pub get_elem?_in : (xs : List A) (k : ℕ) → k < length xs → (a : A) × (get_elem? xs k ≡ some a)
  unfolding get_elem?
  get_elem?_in [] k h = absurd (omega arith)
  get_elem?_in (x ∷ xs) zero h = (x, refl)
  get_elem?_in (x ∷ xs) (suc k) h = get_elem?_in xs k (omega arith)

  pub get_elem?-lt : (xs : List A) (k : ℕ) (a : A) → get_elem? xs k ≡ some a → k < length xs
  unfolding get_elem?
  get_elem?-lt [] k a h = absurd (ground arith)
  get_elem?-lt (x ∷ xs) zero a h = omega arith
  get_elem?-lt (x ∷ xs) (suc k) a h = omega (arith, get_elem?-lt xs k a h)

  pub get_elem?-append_left :
      (xs ys : List A) (k : ℕ) → k < length xs → get_elem? (xs ++ ys) k ≡ get_elem? xs k
  unfolding get_elem?
  get_elem?-append_left [] ys k h = absurd (omega arith)
  get_elem?-append_left (x ∷ xs) ys zero h = refl
  get_elem?-append_left (x ∷ xs) ys (suc k) h = get_elem?-append_left xs ys k (omega arith)

  pub get_elem?-append_end : (xs : List A) (a : A) → get_elem? (xs ++ a ∷ []) (length xs) ≡ some a
  unfolding get_elem?
  get_elem?-append_end [] a = refl
  get_elem?-append_end (x ∷ xs) a = get_elem?-append_end xs a

module _ {ℓ} {A : Type ℓ} (i j : ℕ) (v xs : List A) (size : i + length v ≡ j) (fits : j ≤ length xs)
    (d : A) where
  pub get_or-set_slice_before : (k : ℕ) → k < i → get_or (set_slice i j v xs) k d ≡ get_or xs k d
  get_or-set_slice_before k h = rw (set_slice_split i j v xs size fits) (
      get_or-append_left (take i xs) (v ++ drop j xs) k d
        (omega (arith, prefix_size i j v xs size fits))
      ∙ get_or-take i xs k d h)

module _ {ℓ} {A : Type ℓ} where
  pub slice-append_end :
      (xs ys : List A) → slice (length xs) (length xs + length ys) (xs ++ ys) ≡ ys
  unfolding slice
  slice-append_end xs ys =
      let e : length xs + length ys - length xs ≡ length ys = omega arith in
      rw (drop-append_self (length xs) xs ys refl, e) (take_all (length ys) ys (omega arith))

  pub slice-append_left :
      (a b : ℕ) (xs ys : List A) → a ≤ b → b ≤ length xs → slice a b (xs ++ ys) ≡ slice a b xs
  unfolding slice
  slice-append_left a b xs ys h k =
      rw (drop-append_le a xs ys (omega arith))
        (take-append_le (b - a) (drop a xs) ys (omega (arith, length-drop a xs)))

  pub slice-skip :
      (n a b : ℕ) (xs ys : List A) → length xs ≡ n → slice (n + a) (n + b) (xs ++ ys) ≡ slice a b ys
  unfolding slice
  slice-skip n a b xs ys h =
      let e : n + b - (n + a) ≡ b - a = omega arith in
      rw e (
        ap (take (b - a))
          (sym (drop-drop a n (xs ++ ys)) ∙ ap (drop a) (drop-append_self n xs ys h)))

  pub slice-head : (n : ℕ) (xs ys : List A) → length xs ≡ n → slice 0 n (xs ++ ys) ≡ xs
  unfolding slice drop
  slice-head n xs ys h = let e : n - 0 ≡ n = omega arith in rw e (take-append_self n xs ys h)

  -- The piece `f` of a buffer, from where it starts to where it ends.
  pub slice-field :
      (a b : ℕ) (buf xs f rest : List A)
      → buf ≡ xs ++ (f ++ rest)
      → length xs ≡ a
      → a + length f ≡ b
      → slice a b buf ≡ f
  unfolding slice
  slice-field a b buf xs f rest e h k =
      ap (λ (ys : List A). take (b - a) (drop a ys)) e
      ∙ ap (take (b - a)) (drop-append_self a xs (f ++ rest) h)
      ∙ take-append_self (b - a) f rest (omega arith)

  pub length-map {κ} : {B : Type κ} (xs : List A) (f : A → B) → length (map f xs) ≡ length xs
  length-map [] f = refl
  length-map (x ∷ xs) f = ap suc (length-map xs f)
