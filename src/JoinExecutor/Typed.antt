-- ===== src/JoinExecutor/Typed.antt =====
-- The rows of every join of _join_executor.py against the width of its schema.
use tinydb_cc_comet.Prelude.{
  ℕ, ◌+◌, ◌≡◌, refl, sym, subst, Bool, Option, List, [], ◌∷◌, ◌++◌, map, arith, length,
  length-append, Bool-cases, inl, inr,
}
use tinydb_cc_comet.Errors.{Result, ok, err, ◌>>=◌}
use tinydb_cc_comet.TypeSystem.{Value}
use tinydb_cc_comet.Parser.Joins.{
  JoinKind, inner_join, left_join, right_join, full_join, cross_join,
}
use tinydb_cc_comet.JoinExecutor.{
  Row, Schema, Join, Op, Loop, Side, scan_right, scan_left, or_padded, nested_loop_cross,
  inner_rows, left_rows, right_rows, full_rows, loop_of, eval_join, merged_schema,
}
use tinydb_cc_comet.JoinExecutor.Loops.{
  Each, Answers, product, select, merge_each, any_match, pad_lonely, scan_right-rows,
  inner_rows-select,
}
use tinydb_cc_comet.JoinExecutor.Full.{full_rows-left_rows}
use tinydb_cc_comet.JoinExecutor.Widths.{
  KeysFit, Makes, width, length-merged_schema, coalesce_row-Makes, null_pad_right-Makes,
  null_pad_left-Makes,
}

module _ {ℓ} {A : Type ℓ} (P : A → Type 0) where
  Each-append : (xs ys : List A) → Each P xs → Each P ys → Each P (xs ++ ys)
  Each-append [] ys f g = g
  Each-append (x ∷ xs) ys (f, fs) g = (f, Each-append xs ys fs g)

  Each-mono : (Q : A → Type 0) (xs : List A) → ((x : A) → P x → Q x) → Each P xs → Each Q xs
  Each-mono Q [] h f = tt
  Each-mono Q (x ∷ xs) h (f, fs) = (h x f, Each-mono Q xs h fs)

-- All of one width
abbrev pub Wide : ℕ → List Row → Type 0
Wide w rows = Each (λ row. length row ≡ w) rows

abbrev Gives : ℕ → Result (List Row) → Type 0
Gives w r = (rows : List Row) × (r ≡ ok rows) × Wide w rows

Gives-cons :
    (w : ℕ) (m : Result Row) (r : Result (List Row))
    → Makes w m
    → Gives w r
    → Gives w (m >>= λ row. r >>= λ rest. ok (row ∷ rest))
Gives-cons w m r (row, e, f) (rows, k, g) = (row ∷ rows, rw (e, k) refl, (f, g))

Gives-append :
    (w : ℕ) (a b : Result (List Row))
    → Gives w a
    → Gives w b
    → Gives w (a >>= λ x. b >>= λ y. ok (x ++ y))
Gives-append w a b (xs, e, f) (ys, k, g) =
    (xs ++ ys, rw (e, k) refl, Each-append (λ row. length row ≡ w) xs ys f g)

Gives-padded :
    (w : ℕ) (rows : List Row) (m : Result Row)
    → Wide w rows
    → Makes w m
    → Gives w (or_padded rows m)
Gives-padded w [] m f (row, e, g) = (row ∷ [], rw e refl, (g, tt))
Gives-padded w (r ∷ rows) m f g = (r ∷ rows, refl, f)

module _ (loop : Loop) (test : Row → Row → Bool) (w wl wr : ℕ)
    (merges : (l r : Row) → length l ≡ wl → length r ≡ wr → Makes w (loop.merge l r))
    (pads_right : (l : Row) → length l ≡ wl → Makes w (loop.pad_right l))
    (pads_left : (r : Row) → length r ≡ wr → Makes w (loop.pad_left r)) where
  abbrev Fits : Row × Row → Type 0
  Fits p = (length p.0 ≡ wl) × (length p.1 ≡ wr)

  Each-pairs :
      (l : Row) (rights : List Row)
      → length l ≡ wl
      → Wide wr rights
      → Each Fits (map (λ r. (l, r)) rights)
  Each-pairs l [] h f = tt
  Each-pairs l (r ∷ rights) h (f, fs) = ((h, f), Each-pairs l rights h fs)

  Each-product :
      (lefts rights : List Row) → Wide wl lefts → Wide wr rights → Each Fits (product lefts rights)
  unfolding product
  Each-product [] rights f g = tt
  Each-product (l ∷ lefts) rights (f, fs) g =
      Each-append Fits (map (λ r. (l, r)) rights) (product lefts rights) (Each-pairs l rights f g)
        (Each-product lefts rights fs g)

  Each-select : (pairs : List (Row × Row)) → Each Fits pairs → Each Fits (select test pairs)
  unfolding select
  Each-select [] f = tt
  Each-select (p ∷ pairs) (f, fs) = elim (Bool-cases (test p.0 p.1)) [
    | inl t ↦ rw (select, t) (f, Each-select pairs fs)
    | inr n ↦ rw (select, n) (Each-select pairs fs)
  ]

  merge_each-Gives : (pairs : List (Row × Row)) → Each Fits pairs → Gives w (merge_each loop pairs)
  unfolding merge_each
  merge_each-Gives [] f = ([], refl, tt)
  merge_each-Gives (p ∷ pairs) (f, fs) =
      Gives-cons w (loop.merge p.0 p.1) (merge_each loop pairs) (merges p.0 p.1 f.0 f.1)
        (merge_each-Gives pairs fs)

  inner_rows-Gives :
      (lefts rights : List Row)
      → Wide wl lefts
      → Wide wr rights
      → Answers loop test lefts rights
      → Gives w (inner_rows loop lefts rights)
  inner_rows-Gives lefts rights f g h = rw (inner_rows-select loop test lefts rights h) (
      merge_each-Gives (select test (product lefts rights))
        (Each-select (product lefts rights) (Each-product lefts rights f g)))

  -- One left row of LEFT
  padded_hits :
      (s : Result (List Row × List ℕ)) (pad : Result Row) (t : Result (List Row))
      → Gives w (s >>= λ h. ok h.0)
      → Makes w pad
      → Gives w t
      → Gives w (s >>= λ hits. or_padded hits.0 pad >>= λ rows. t >>= λ rest. ok (rows ++ rest))
  padded_hits (err e) pad t (rows, k, f) p q = absurd cc
  padded_hits (ok x) pad t (rows, k, f) p q =
      let wide : Wide w x.0 =
        subst (λ (r : Result (List Row)). Each (λ row. length row ≡ w) (rows_in r)) (sym k) f in
      Gives-append w (or_padded x.0 pad) t (Gives-padded w x.0 pad wide p) q
    where
      rows_in : Result (List Row) → List Row
      rows_in (ok rows) = rows
      rows_in (err e) = []

  left_rows-Gives :
      (lefts rights : List Row)
      → Wide wl lefts
      → Wide wr rights
      → Answers loop test lefts rights
      → Gives w (left_rows loop lefts rights)
  unfolding left_rows
  left_rows-Gives [] rights f g h = ([], refl, tt)
  left_rows-Gives (l ∷ lefts) rights (f, fs) g (h, hs) =
      let pairs = map (λ r. (l, r)) rights in
      padded_hits (scan_right loop l 0 rights) (loop.pad_right l) (left_rows loop lefts rights)
        (rw (scan_right-rows loop test l 0 rights h)
          (merge_each-Gives (select test pairs) (Each-select pairs (Each-pairs l rights f g))))
        (pads_right l f) (left_rows-Gives lefts rights fs g hs)

  -- One right row of RIGHT
  scan_left-Gives :
      (r : Row) (lefts : List Row)
      → length r ≡ wr
      → Wide wl lefts
      → Each (λ l. loop.test l r ≡ ok (test l r)) lefts
      → Gives w (scan_left loop r lefts)
  unfolding scan_left
  scan_left-Gives r [] k f h = ([], refl, tt)
  scan_left-Gives r (l ∷ lefts) k (f, fs) (h, hs) = elim (Bool-cases (test l r)) [
    | inl t ↦
        rw (scan_left, h, t)
          (Gives-cons w (loop.merge l r) (scan_left loop r lefts) (merges l r f k)
            (scan_left-Gives r lefts k fs hs))
    | inr n ↦ rw (scan_left, h, n) (scan_left-Gives r lefts k fs hs)
  ]

  padded_rows :
      (a : Result (List Row)) (pad : Result Row) (t : Result (List Row))
      → Gives w a
      → Makes w pad
      → Gives w t
      → Gives w (a >>= λ hits. or_padded hits pad >>= λ rows. t >>= λ rest. ok (rows ++ rest))
  padded_rows a pad t (rows, k, f) p q =
      rw k (Gives-append w (or_padded rows pad) t (Gives-padded w rows pad f p) q)

  right_rows-Gives :
      (lefts rights : List Row)
      → Wide wl lefts
      → Wide wr rights
      → Answers loop test lefts rights
      → Gives w (right_rows loop lefts rights)
  unfolding right_rows
  right_rows-Gives lefts [] f g h = ([], refl, tt)
  right_rows-Gives lefts (r ∷ rights) f (g, gs) h =
      let column =
        Each-mono (λ l. Each (λ r. loop.test l r ≡ ok (test l r)) (r ∷ rights))
          (λ l. loop.test l r ≡ ok (test l r)) lefts (λ l x. x.0) h in
      let others =
        Each-mono (λ l. Each (λ r. loop.test l r ≡ ok (test l r)) (r ∷ rights))
          (λ l. Each (λ r. loop.test l r ≡ ok (test l r)) rights) lefts (λ l x. x.1) h in
      padded_rows (scan_left loop r lefts) (loop.pad_left r) (right_rows loop lefts rights)
        (scan_left-Gives r lefts g f column) (pads_left r g)
        (right_rows-Gives lefts rights f gs others)

  pad_lonely-Gives :
      (lefts rights : List Row) → Wide wr rights → Gives w (pad_lonely loop test lefts rights)
  unfolding pad_lonely
  pad_lonely-Gives lefts [] g = ([], refl, tt)
  pad_lonely-Gives lefts (r ∷ rights) (g, gs) = elim (Bool-cases (any_match test lefts r)) [
    | inl t ↦ rw (pad_lonely, t) (pad_lonely-Gives lefts rights gs)
    | inr n ↦
        rw (pad_lonely, n)
          (Gives-cons w (loop.pad_left r) (pad_lonely loop test lefts rights) (pads_left r g)
            (pad_lonely-Gives lefts rights gs))
  ]

  full_rows-Gives :
      (lefts rights : List Row)
      → Wide wl lefts
      → Wide wr rights
      → Answers loop test lefts rights
      → Gives w (full_rows loop lefts rights)
  full_rows-Gives lefts rights f g h = rw (full_rows-left_rows loop test lefts rights h) (
      Gives-append w (left_rows loop lefts rights) (pad_lonely loop test lefts rights)
        (left_rows-Gives lefts rights f g h) (pad_lonely-Gives lefts rights g))

nested_loop_cross-Wide :
    (wl wr : ℕ) (lefts rights : List Row)
    → Wide wl lefts
    → Wide wr rights
    → Wide (wl + wr) (nested_loop_cross lefts rights)
unfolding nested_loop_cross
nested_loop_cross-Wide wl wr [] rights f g = tt
nested_loop_cross-Wide wl wr (l ∷ lefts) rights (f, fs) g =
    Each-append (λ row. length row ≡ wl + wr) (map (λ r. l ++ r) rights)
      (nested_loop_cross lefts rights) (beside rights g)
      (nested_loop_cross-Wide wl wr lefts rights fs g)
  where
    beside : (rs : List Row) → Wide wr rs → Wide (wl + wr) (map (λ r. l ++ r) rs)
    beside [] g = tt
    beside (r ∷ rs) (g, gs) = (omega (arith, length-append l r, f, g), beside rs gs)

module _ (operate : Op → Option Value → Option Value → Result Bool) (equal : Value → Value → Bool)
    (node : Join) (l r : Side) where
  -- Rows of the width of the schema, without an error
  abbrev pub Typed : Result (List Row × Schema) → Type 0
  Typed x =
      (rows : List Row) × (schema : Schema) × (x ≡ ok (rows, schema)) × Wide (length schema) rows

  typed :
      (rows : Result (List Row))
      → Gives (width l.schema r.schema node) rows
      → Typed (rows >>= λ out. ok (out, merged_schema l.schema r.schema node))
  typed rows (out, e, f) = (
    out,
    merged_schema l.schema r.schema node,
    rw e refl,
    subst (λ (n : ℕ). Wide n out) (sym (length-merged_schema l.schema r.schema node)) f,
  )

  -- A join of any kind, of rows that are as wide as the schema of their side, with keys that are columns of both
  -- sides and with comparisons that return, raises nothing, and its rows are as wide as its schema.
  pub eval_join-Typed :
      (kind : JoinKind) (test : Row → Row → Bool)
      → KeysFit (length l.schema) (length r.schema) node.keys
      → Wide (length l.schema) l.rows
      → Wide (length r.schema) r.rows
      → Answers (loop_of operate equal node l r) test l.rows r.rows
      → Typed (eval_join operate equal kind node l r)
  unfolding eval_join
  eval_join-Typed cross_join test fit f g h = (
    nested_loop_cross l.rows r.rows,
    l.schema ++ r.schema,
    refl,
    subst (λ (n : ℕ). Wide n (nested_loop_cross l.rows r.rows))
        (sym (length-append l.schema r.schema))
        (nested_loop_cross-Wide (length l.schema) (length r.schema) l.rows r.rows f g),
  )
  eval_join-Typed inner_join test fit f g h = typed _ (
      inner_rows-Gives (loop_of operate equal node l r) test (width l.schema r.schema node)
        (length l.schema) (length r.schema) (coalesce_row-Makes l.schema r.schema node fit)
        (null_pad_right-Makes l.schema r.schema node fit)
        (null_pad_left-Makes l.schema r.schema node fit) l.rows r.rows f g h)
  eval_join-Typed left_join test fit f g h = typed _ (
      left_rows-Gives (loop_of operate equal node l r) test (width l.schema r.schema node)
        (length l.schema) (length r.schema) (coalesce_row-Makes l.schema r.schema node fit)
        (null_pad_right-Makes l.schema r.schema node fit)
        (null_pad_left-Makes l.schema r.schema node fit) l.rows r.rows f g h)
  eval_join-Typed right_join test fit f g h = typed _ (
      right_rows-Gives (loop_of operate equal node l r) test (width l.schema r.schema node)
        (length l.schema) (length r.schema) (coalesce_row-Makes l.schema r.schema node fit)
        (null_pad_right-Makes l.schema r.schema node fit)
        (null_pad_left-Makes l.schema r.schema node fit) l.rows r.rows f g h)
  eval_join-Typed full_join test fit f g h = typed _ (
      full_rows-Gives (loop_of operate equal node l r) test (width l.schema r.schema node)
        (length l.schema) (length r.schema) (coalesce_row-Makes l.schema r.schema node fit)
        (null_pad_right-Makes l.schema r.schema node fit)
        (null_pad_left-Makes l.schema r.schema node fit) l.rows r.rows f g h)
