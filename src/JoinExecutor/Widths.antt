-- ===== src/JoinExecutor/Widths.antt =====
-- The rows that the joins of _join_executor.py build, and the width of the merged schema.
use tinydb_cc_comet.Prelude.{
  ℕ, suc, ◌+◌, ◌≤◌, ◌<◌, ◌≡◌, refl, ap, ◌∙◌, Bool, true, false, Option, none, some, List, [], ◌∷◌,
  ◌++◌, ◌==◌, arith, length, length-append, length-set, length-replicate, get_elem?_in, set,
  if◌then◌else◌, replicate, Option-cases, inl, inr,
}
use tinydb_cc_comet.Errors.{Result, ok, ◌>>=◌}
use tinydb_cc_comet.TypeSystem.{Value}
use tinydb_cc_comet.JoinExecutor.{
  Row, Schema, JoinKey, Join, Fold, row_at, right_to_left, left_label, unmerged, labelled,
  merged_schema, coalesce_at, right_columns, coalesce_row, set_at, null_pad_right, null_pad_left,
}
use tinydb_cc_comet.JoinExecutor.Loops.{Each}

-- The keys are columns of both sides.
abbrev pub KeysFit : ℕ → ℕ → List JoinKey → Type 0
KeysFit wl wr keys = Each (λ k. (k.left_col < wl) × (k.right_col < wr)) keys

-- A row of the width, without an error
abbrev pub Makes : ℕ → Result Row → Type 0
Makes w r = (row : Row) × (r ≡ ok row) × (length row ≡ w)

pub row_at_ok : (row : Row) (i : ℕ) → i < length row → (v : Option Value) × (row_at row i ≡ ok v)
unfolding row_at
row_at_ok row i h = let (v, e) = get_elem?_in row i h in (v, rw e refl)

abbrev Below : ℕ → Option ℕ → Type 0
Below wl none = Unit
Below wl (some li) = li < wl

last_key :
    (wl : ℕ) (o : Option ℕ) (b : Bool) (left_col : ℕ)
    → Below wl o
    → left_col < wl
    → Below wl (elim o [ some li ↦ some li | none ↦ if b then some left_col else none ])
last_key wl (some li) b c h k = h
last_key wl none true c h k = k
last_key wl none false c h k = tt

right_to_left-Below :
    (keys : List JoinKey) (wl wr ri : ℕ) → KeysFit wl wr keys → Below wl (right_to_left keys ri)
unfolding right_to_left
right_to_left-Below [] wl wr ri f = tt
right_to_left-Below (k ∷ keys) wl wr ri (f, fs) =
    last_key wl (right_to_left keys ri) (k.right_col == ri) k.left_col
      (right_to_left-Below keys wl wr ri fs) f.0

-- The loop over the right columns keeps what it has and adds the columns that are not merged.
module _ (on_key : Row → ℕ → ℕ → Result Row) (value : ℕ → Result (Option Value))
    (keys : List JoinKey) (wl wr : ℕ)
    (merges : (out : Row) (li ri : ℕ)
      → li < wl
      → wl ≤ length out
      → ri < wr
      → Makes (length out) (on_key out li ri))
    (reads : (ri : ℕ) → ri < wr → (v : Option Value) × (value ri ≡ ok v))
    (fit : KeysFit wl wr keys) where
  right_columns-Makes :
      (ri : ℕ) (cs : Schema) (out : Row)
      → ri + length cs ≤ wr
      → wl ≤ length out
      → Makes
          (length out + length (unmerged keys ri cs))
          (right_columns on_key value keys ri cs out)
  unfolding right_columns unmerged
  right_columns-Makes ri [] out h g = (out, refl, omega arith)
  right_columns-Makes ri (c ∷ cs) out h g = elim (Option-cases (right_to_left keys ri)) [
    | inr (li, e) ↦
        let b = right_to_left-Below keys wl wr ri fit in
        let below : li < wl = (rw e at b) in
        let (next, k, l) = merges out li ri below g (omega arith) in
        let (row, m, n) =
          right_columns-Makes (suc ri) cs next (omega arith) (omega (arith, l, g)) in
        (row, rw (right_columns, e, k) m, rw (unmerged, e) (omega (arith, l, n)))
    | inl e ↦
        let (v, k) = reads ri (omega arith) in
        let l = length-append out (v ∷ []) in
        let (row, m, n) =
          right_columns-Makes (suc ri) cs (out ++ (v ∷ [])) (omega arith) (omega (arith, l, g)) in
        (row, rw (right_columns, e, k) m, rw (unmerged, e) (omega (arith, l, n)))
  ]

coalesce_at-Makes :
    (wl wr : ℕ) (right out : Row) (li ri : ℕ)
    → wr ≤ length right
    → li < wl
    → wl ≤ length out
    → ri < wr
    → Makes (length out) (coalesce_at out li right ri)
unfolding coalesce_at
coalesce_at-Makes wl wr right out li ri full below wide here =
    let (v, e) = row_at_ok out li (omega arith) in
    let (w, k) = row_at_ok right ri (omega arith) in rw e (keep v w k)
  where
    keep :
        (v : Option Value) (w : Option Value)
        → row_at right ri ≡ ok w
        → Makes
            (length out)
            (elim v [ some x ↦ ok out | none ↦ row_at right ri >>= λ u. ok (set out li u) ])
    keep (some x) w k = (out, refl, refl)
    keep none w k = (set out li w, rw k refl, length-set out li w)

set_at-Makes :
    (out : Row) (li : ℕ) (v : Option Value) → li < length out → Makes (length out) (set_at out li v)
unfolding set_at
set_at-Makes out li v h =
    let (w, e) = row_at_ok out li h in (set out li v, rw e refl, length-set out li v)

-- The width of the output
abbrev pub width : Schema → Schema → Join → ℕ
width ls rs node = length ls + length (unmerged node.keys 0 rs)

length-labelled :
    (keys : List JoinKey) (i : ℕ) (cs : Schema) → length (labelled keys i cs) ≡ length cs
unfolding labelled
length-labelled keys i [] = refl
length-labelled keys i (c ∷ cs) = elim (Option-cases (left_label keys i)) [
  | inl e ↦ rw (labelled, e) (ap suc (length-labelled keys (suc i) cs))
  | inr (l, e) ↦ rw (labelled, e) (ap suc (length-labelled keys (suc i) cs))
]

pub length-merged_schema :
    (ls rs : Schema) (node : Join) → length (merged_schema ls rs node) ≡ width ls rs node
unfolding merged_schema
length-merged_schema ls rs node =
    length-append (labelled node.keys 0 ls) (unmerged node.keys 0 rs)
    ∙ ap (λ n. n + length (unmerged node.keys 0 rs)) (length-labelled node.keys 0 ls)

unmerged_none : (ri : ℕ) (cs : Schema) → unmerged [] ri cs ≡ cs
unfolding unmerged right_to_left
unmerged_none ri [] = refl
unmerged_none ri (c ∷ cs) = ap (λ (xs : Schema). c ∷ xs) (unmerged_none (suc ri) cs)

module _ (ls rs : Schema) (node : Join) (fit : KeysFit (length ls) (length rs) node.keys) where
  pub coalesce_row-Makes :
      (l r : Row)
      → length l ≡ length ls
      → length r ≡ length rs
      → Makes (width ls rs node) (coalesce_row l r node rs)
  unfolding coalesce_row
  coalesce_row-Makes l r hl hr =
      let (row, e, n) =
        right_columns-Makes (λ out li ri. coalesce_at out li r ri) (row_at r) node.keys (length ls)
          (length rs)
          (λ out li ri a b c.
            coalesce_at-Makes (length ls) (length rs) r out li ri (omega (arith, hr)) a b c)
          (λ ri h. row_at_ok r ri (omega (arith, hr))) fit 0 rs l (omega arith)
          (omega (arith, hl)) in
      (row, e, omega (arith, n, hl))

module _ (ls rs : Schema) (on : List Fold) where
  pad_right_by :
      (keys : List JoinKey) (l : Row)
      → KeysFit (length ls) (length rs) keys
      → length l ≡ length ls
      → Makes
          (width ls rs (record { keys = keys; on_expr = on }))
          (null_pad_right l rs (record { keys = keys; on_expr = on }))
  unfolding null_pad_right
  pad_right_by [] l fit hl = (
    l ++ replicate (length rs) none,
    refl,
    rw (unmerged_none 0 rs) (
        omega (
          arith,
          length-append l (replicate (length rs) none),
          length-replicate {A = Option Value} (length rs) none,
          hl,
        )),
  )
  pad_right_by (k ∷ ks) l fit hl =
      let (row, e, n) =
        right_columns-Makes (λ out li ri. ok out) (λ ri. ok none) (k ∷ ks) (length ls) (length rs)
          (λ out li ri a b c. (out, refl, refl)) (λ ri h. (none, refl)) fit 0 rs l (omega arith)
          (omega (arith, hl)) in
      (row, e, omega (arith, n, hl))

  pad_left_by :
      (keys : List JoinKey) (r : Row)
      → KeysFit (length ls) (length rs) keys
      → length r ≡ length rs
      → Makes
          (width ls rs (record { keys = keys; on_expr = on }))
          (null_pad_left r ls rs (record { keys = keys; on_expr = on }))
  unfolding null_pad_left
  pad_left_by [] r fit hr = (
    replicate (length ls) none ++ r,
    refl,
    rw (unmerged_none 0 rs) (
        omega (
          arith,
          length-append (replicate (length ls) none) r,
          length-replicate {A = Option Value} (length ls) none,
          hr,
        )),
  )
  pad_left_by (k ∷ ks) r fit hr =
      let blank : Row = replicate (length ls) none in
      let n₀ : length blank ≡ length ls = length-replicate {A = Option Value} (length ls) none in
      let (row, e, n) =
        right_columns-Makes (λ out li ri. row_at r ri >>= λ v. set_at out li v) (row_at r) (k ∷ ks)
          (length ls) (length rs)
          (λ out li ri a b c.
            let (v, g) = row_at_ok r ri (omega (arith, hr)) in
            let (next, f, m) = set_at-Makes out li v (omega arith) in (next, rw g f, m))
          (λ ri h. row_at_ok r ri (omega (arith, hr))) fit 0 rs blank (omega arith)
          (omega (arith, n₀)) in
      (row, e, omega (arith, n, n₀))

module _ (ls rs : Schema) (node : Join) (fit : KeysFit (length ls) (length rs) node.keys) where
  pub null_pad_right-Makes :
      (l : Row) → length l ≡ length ls → Makes (width ls rs node) (null_pad_right l rs node)
  null_pad_right-Makes l hl = pad_right_by ls rs node.on_expr node.keys l fit hl

  pub null_pad_left-Makes :
      (r : Row) → length r ≡ length rs → Makes (width ls rs node) (null_pad_left r ls rs node)
  null_pad_left-Makes r hr = pad_left_by ls rs node.on_expr node.keys r fit hr
