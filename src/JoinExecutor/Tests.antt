-- ===== src/JoinExecutor/Tests.antt =====
-- The theorems on joins at two tables of two rows each, joined on their first columns.
use tinydb_cc_comet.Prelude.{
  length, ◌-◌, ℕ, ◌≡◌, refl, Bool, true, false, Option, arith, none, some, List, [], ◌∷◌, ◌++◌,
  ◌==◌,
}
use tinydb_cc_comet.Prelude.Int.{pos}
use tinydb_cc_comet.Errors.{err, index_error, Result, ok, ◌>>=◌}
use tinydb_cc_comet.TypeSystem.{Text, Value, int}
use tinydb_cc_comet.Tokenizer.{codes}
use tinydb_cc_comet.Parser.Joins.{full_join, left_join}
use tinydb_cc_comet.JoinExecutor.{
  remap_position, build_source_position_map, row_at, unmerged, right_to_left, Row, Schema, JoinKey,
  Op, Side, no_fold, eval_join, matches, all_hold, eval_fold_expr, Loop, inner_rows, left_rows,
  full_rows,
}
use tinydb_cc_comet.JoinExecutor.Loops.{product, select, merge_each, pad_lonely, inner_rows-select}
use tinydb_cc_comet.JoinExecutor.Positions.{remap_position_past}
use tinydb_cc_comet.JoinExecutor.Widths.{KeysFit}
use tinydb_cc_comet.JoinExecutor.Typed.{Typed, eval_join-Typed}
use tinydb_cc_comet.JoinExecutor.Keys.{eval_join-keys}
use tinydb_cc_comet.JoinExecutor.Full.{full_rows-left_rows}

abbrev cell : ℕ → Option Value
cell n = some (int (pos n))

abbrev first_of : Row → ℕ
first_of (some (int (pos n)) ∷ row) = n
first_of _ = 0

abbrev same_first : Row → Row → Bool
same_first l r = first_of l == first_of r

-- ON the first columns: rows side by side, NULLs for what is missing
abbrev on_first : Loop
on_first = record {
  test = λ l r. ok (same_first l r);
  merge = λ l r. ok (l ++ r);
  pad_right = λ l. ok (l ++ (none ∷ none ∷ []));
  pad_left = λ r. ok (none ∷ none ∷ r);
}

abbrev users : List Row
users = (cell 1 ∷ cell 10 ∷ []) ∷ (cell 2 ∷ cell 20 ∷ []) ∷ []

abbrev orders : List Row
orders = (cell 2 ∷ cell 7 ∷ []) ∷ (cell 3 ∷ cell 8 ∷ []) ∷ []

inner_rows-select_example :
    inner_rows on_first users orders
    ≡ merge_each on_first (select same_first (product users orders))
inner_rows-select_example =
    inner_rows-select on_first same_first users orders
      ((refl, (refl, tt)), ((refl, (refl, tt)), tt))

full_rows-left_rows_example : full_rows on_first users orders ≡ (
    left_rows on_first users orders >>= λ a.
    pad_lonely on_first same_first users orders >>= λ b. ok (a ++ b))
full_rows-left_rows_example =
    full_rows-left_rows on_first same_first users orders
      ((refl, (refl, tt)), ((refl, (refl, tt)), tt))

-- USING on the first columns, of tables with two columns each
abbrev on_id : JoinKey
on_id = record { left_col = 0; right_col = 0; label = codes "id" }

abbrev two_columns : Schema
two_columns = codes "id" ∷ codes "n" ∷ []

abbrev side : Text → List Row → Side
side name rows = record { sources = (name, 2) ∷ []; rows = rows; schema = two_columns }

-- Every comparison of two columns holds, and two values are the same when they are the same integer.
abbrev always : Op → Option Value → Option Value → Result Bool
always op a b = ok true

abbrev same_int : Value → Value → Bool
same_int (int (pos m)) (int (pos n)) = m == n
same_int _ _ = false

on_id-Fits : KeysFit 2 2 (on_id ∷ [])
on_id-Fits = ((omega arith, omega arith), tt)

eval_join-keys_example :
    Typed always same_int
      (record { keys = on_id ∷ []; on_expr = [] })
      (side (codes "u") users)
      (side (codes "o") orders)
      (eval_join always same_int full_join
        (record { keys = on_id ∷ []; on_expr = [] })
        (side (codes "u") users)
        (side (codes "o") orders))
eval_join-keys_example =
    eval_join-keys always same_int full_join on_id [] [] (side (codes "u") users)
      (side (codes "o") orders) on_id-Fits (refl, (refl, tt)) (refl, (refl, tt))

eval_join-Typed_example :
    Typed always same_int
      (record { keys = []; on_expr = no_fold ∷ [] })
      (side (codes "u") users)
      (side (codes "o") orders)
      (eval_join always same_int left_join
        (record { keys = []; on_expr = no_fold ∷ [] })
        (side (codes "u") users)
        (side (codes "o") orders))
unfolding matches all_hold eval_fold_expr
eval_join-Typed_example =
    eval_join-Typed always same_int (record { keys = []; on_expr = no_fold ∷ [] })
      (side (codes "u") users) (side (codes "o") orders) left_join (λ x y. true) tt
      (refl, (refl, tt)) (refl, (refl, tt)) ((refl, (refl, tt)), ((refl, (refl, tt)), tt))

remap_position_past_example :
    (remap_position (codes "b") (length two_columns - 1) (
        build_source_position_map
          ((codes "a", length two_columns) ∷ (codes "b", length two_columns) ∷ []))
      >>= λ i. row_at (cell 1 ∷ cell 10 ∷ cell 7 ∷ []) i)
    ≡ err index_error
unfolding unmerged right_to_left
remap_position_past_example =
    remap_position_past two_columns two_columns on_id [] (codes "a") (codes "b")
      (cell 1 ∷ cell 10 ∷ cell 7 ∷ []) (omega arith) refl
