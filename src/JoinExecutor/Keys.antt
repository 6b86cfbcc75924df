-- ===== src/JoinExecutor/Keys.antt =====
-- Joins on merged keys (USING and NATURAL) of _join_executor.py, and their errors.
use tinydb_cc_comet.Prelude.{ℕ, ◌≡◌, refl, Bool, true, false, Option, List, [], ◌∷◌, arith, length}
use tinydb_cc_comet.Errors.{Result, ok, err}
use tinydb_cc_comet.TypeSystem.{Value}
use tinydb_cc_comet.Parser.Joins.{JoinKind}
use tinydb_cc_comet.JoinExecutor.{
  Row, JoinKey, Op, Fold, Side, PosMap, matches, keys_match, same_values, loop_of, eval_join,
  build_source_position_map,
}
use tinydb_cc_comet.JoinExecutor.Loops.{Each, Answers}
use tinydb_cc_comet.JoinExecutor.Widths.{KeysFit, row_at_ok}
use tinydb_cc_comet.JoinExecutor.Typed.{Wide, Typed, eval_join-Typed}

-- The answer of a comparison that returns
abbrev pub answer : Result Bool → Bool
answer (ok b) = b
answer (err e) = false

module _ (operate : Op → Option Value → Option Value → Result Bool)
    (equal : Value → Value → Bool) where
  keys_match-ok :
      (keys : List JoinKey) (wl wr : ℕ) (l r : Row)
      → KeysFit wl wr keys
      → length l ≡ wl
      → length r ≡ wr
      → keys_match operate equal keys l r ≡ ok (answer (keys_match operate equal keys l r))
  unfolding keys_match
  keys_match-ok [] wl wr l r fit hl hr = refl
  keys_match-ok (k ∷ keys) wl wr l r (f, fs) hl hr =
      let (a, e) = row_at_ok l k.left_col (omega (arith, f.0, hl)) in
      let (b, g) = row_at_ok r k.right_col (omega (arith, f.1, hr)) in
      rw (e, g) (split (same_values operate equal a b) (keys_match-ok keys wl wr l r fs hl hr))
    where
      split :
          (x : Bool)
          → keys_match operate equal keys l r ≡ ok (answer (keys_match operate equal keys l r))
          → elim x [ false ↦ ok false | true ↦ keys_match operate equal keys l r ]
            ≡ ok (answer (elim x [ false ↦ ok false | true ↦ keys_match operate equal keys l r ]))
      split false h = refl
      split true h = h

  matches-ok :
      (k : JoinKey) (keys : List JoinKey) (on : List Fold) (lm rm : PosMap) (wl wr : ℕ) (l r : Row)
      → KeysFit wl wr (k ∷ keys)
      → length l ≡ wl
      → length r ≡ wr
      → matches operate equal (record { keys = k ∷ keys; on_expr = on }) lm rm l r
        ≡ ok (answer (matches operate equal (record { keys = k ∷ keys; on_expr = on }) lm rm l r))
  unfolding matches
  matches-ok k keys on lm rm wl wr l r fit hl hr = keys_match-ok (k ∷ keys) wl wr l r fit hl hr

  Each-Wide :
      (P : Row → Type 0) (w : ℕ) (rows : List Row)
      → ((r : Row) → length r ≡ w → P r)
      → Wide w rows
      → Each P rows
  Each-Wide P w [] h f = tt
  Each-Wide P w (r ∷ rows) h (f, fs) = (h r f, Each-Wide P w rows h fs)

  pub keys-Answers :
      (k : JoinKey) (keys : List JoinKey) (on : List Fold) (l r : Side)
      → KeysFit (length l.schema) (length r.schema) (k ∷ keys)
      → Wide (length l.schema) l.rows
      → Wide (length r.schema) r.rows
      → Answers
          (loop_of operate equal (record { keys = k ∷ keys; on_expr = on }) l r)
          (λ x y.
            answer
              ((loop_of operate equal (record { keys = k ∷ keys; on_expr = on }) l r).test x y))
          l.rows
          r.rows
  keys-Answers k keys on l r fit f g =
      let lm = build_source_position_map l.sources in
      let rm = build_source_position_map r.sources in
      Each-Wide _ (length l.schema) l.rows
        (λ x hx.
          Each-Wide _ (length r.schema) r.rows
            (λ y hy. matches-ok k keys on lm rm (length l.schema) (length r.schema) x y fit hx hy)
            g)
        f

  -- A join of any kind on merged keys, at least one, that are columns of both sides, of rows that are as wide as
  -- the schema of their side, raises nothing, and its rows are as wide as its schema.
  pub eval_join-keys :
      (kind : JoinKind) (k : JoinKey) (keys : List JoinKey) (on : List Fold) (l r : Side)
      → KeysFit (length l.schema) (length r.schema) (k ∷ keys)
      → Wide (length l.schema) l.rows
      → Wide (length r.schema) r.rows
      → Typed operate equal
          (record { keys = k ∷ keys; on_expr = on })
          l
          r
          (eval_join operate equal kind (record { keys = k ∷ keys; on_expr = on }) l r)
  eval_join-keys kind k keys on l r fit f g =
      eval_join-Typed operate equal (record { keys = k ∷ keys; on_expr = on }) l r kind _ fit f g
        (keys-Answers k keys on l r fit f g)
