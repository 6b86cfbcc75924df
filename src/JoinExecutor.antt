-- ===== src/JoinExecutor.antt =====
-- src/tinydb/_join_executor.py: the nested loops of JOIN, with the predicates and the rows that they build.
-- A row is the list of its values, `none` for NULL. The six comparisons of Python (`_COMPARE_OPS`) are a
-- parameter, since floats and decimals are opaque; `equal` is its `==` on two values that are not NULL.
pub mod Loops
pub mod Full
pub mod Widths
pub mod Typed
pub mod Keys
pub mod Positions
pub mod Tests
use tinydb_cc_comet.Prelude.{
  ℕ, zero, suc, ◌+◌, Bool, true, false, not, ◌||◌, Option, none, some, List, [], ◌∷◌, ◌++◌, map,
  ◌==◌, if◌then◌else◌, length, get_elem?, set, replicate,
}
use tinydb_cc_comet.Errors.{Error, Result, ok, err, or_error, ◌>>=◌, index_error, key_error}
use tinydb_cc_comet.Bytes.{bytes_eq}
use tinydb_cc_comet.TypeSystem.{Text, Value}
use tinydb_cc_comet.Parser.Joins.{
  JoinKind, inner_join, left_join, right_join, full_join, cross_join,
}

abbrev pub Row : Type 0
Row = List (Option Value)

abbrev pub Schema : Type 0
Schema = List Text

-- `label` is the merged column's name. parser.py has the record.
pub record JoinKey : Type 0 where
  pub left_col : ℕ
  pub right_col : ℕ
  pub label : Text

pub data Op : Type 0 where
  op_eq op_ne op_gt op_lt op_ge op_le : Op

-- A folded predicate: the tuples that the resolver makes, and `None`, which holds of every row
pub data Fold : Type 0 where
  and_fold or_fold : Fold → Fold → Fold
  not_fold : Fold → Fold
  compare_cols : (op : Op) (lpos rpos : ℕ) (l_src r_src : Text) → Fold
  equals_literal : (pos : ℕ) (value : Option Value) → Fold
  no_fold : Fold

-- What the loops read of a Join node
pub record Join : Type 0 where
  pub keys : List JoinKey
  pub on_expr : List Fold

-- source_id -> (offset, length)
abbrev pub PosMap : Type 0
PosMap = List (Text × ℕ × ℕ)

unfoldable pub row_at : Row → ℕ → Result (Option Value)
row_at row i = or_error index_error (get_elem? row i)

-- `{k.right_col: k.left_col for k in node.keys}`: the last of equal keys stays.
unfoldable pub right_to_left : List JoinKey → ℕ → Option ℕ
right_to_left [] ri = none
right_to_left (k ∷ ks) ri = elim (right_to_left ks ri) [
  | some li ↦ some li
  | none ↦ (if k.right_col == ri then some k.left_col else none)
]

-- `{k.left_col: k.label for k in node.keys}`
unfoldable pub left_label : List JoinKey → ℕ → Option Text
left_label [] i = none
left_label (k ∷ ks) i = elim (left_label ks i) [
  | some label ↦ some label
  | none ↦ (if k.left_col == i then some k.label else none)
]

-- The right columns that are no merged key, from position `ri` on
unfoldable pub unmerged : List JoinKey → ℕ → Schema → Schema
unmerged keys ri [] = []
unmerged keys ri (c ∷ cs) = elim (right_to_left keys ri) [
  | some li ↦ unmerged keys (suc ri) cs
  | none ↦ c ∷ unmerged keys (suc ri) cs
]

unfoldable pub labelled : List JoinKey → ℕ → Schema → Schema
labelled keys i [] = []
labelled keys i (c ∷ cs) = elim (left_label keys i) [
  | some label ↦ label ∷ labelled keys (suc i) cs
  | none ↦ c ∷ labelled keys (suc i) cs
]

unfoldable pub merged_schema : Schema → Schema → Join → Schema
merged_schema ls rs node = labelled node.keys 0 ls ++ unmerged node.keys 0 rs

-- out[li] = right_row[ri] when the left value is NULL
unfoldable pub coalesce_at : Row → ℕ → Row → ℕ → Result Row
coalesce_at out li right ri = do
  here ← row_at out li
  (elim here [ some v ↦ ok out | none ↦ (row_at right ri >>= λ v. ok (set out li v)) ])

-- The loop over the right schema, from position `ri` on, with the action on a merged key
unfoldable pub right_columns :
    (Row → ℕ → ℕ → Result Row)
    → (ℕ → Result (Option Value))
    → List JoinKey
    → ℕ
    → Schema
    → Row
    → Result Row
right_columns on_key value keys ri [] out = ok out
right_columns on_key value keys ri (c ∷ cs) out = elim (right_to_left keys ri) [
  | some li ↦ on_key out li ri >>= λ next. right_columns on_key value keys (suc ri) cs next
  | none ↦ value ri >>= λ v. right_columns on_key value keys (suc ri) cs (out ++ (v ∷ []))
]

unfoldable pub coalesce_row : Row → Row → Join → Schema → Result Row
coalesce_row left right node rs =
    right_columns (λ out li ri. coalesce_at out li right ri) (row_at right) node.keys 0 rs left

-- `out[li] = v` on a list: IndexError out of range
unfoldable pub set_at : Row → ℕ → Option Value → Result Row
set_at row i v = row_at row i >>= λ old. ok (set row i v)

unfoldable pub null_pad_right : Row → Schema → Join → Result Row
null_pad_right left rs node = elim node.keys [
  | [] ↦ ok (left ++ replicate (length rs) none)
  | k ∷ ks ↦ right_columns (λ out li ri. ok out) (λ ri. ok none) (k ∷ ks) 0 rs left
]

unfoldable pub null_pad_left : Row → Schema → Schema → Join → Result Row
null_pad_left right ls rs node = elim node.keys [
  | [] ↦ ok (replicate (length ls) none ++ right)
  | k ∷ ks ↦
      right_columns (λ out li ri. row_at right ri >>= λ v. set_at out li v) (row_at right) (k ∷ ks)
        0 rs (replicate (length ls) none)
]

unfoldable pub position_map : ℕ → List (Text × ℕ) → PosMap
position_map offset [] = []
position_map offset ((sid, width) ∷ sources) =
    (sid, offset, width) ∷ position_map (offset + width) sources

-- `_build_source_position_map`, on the sources with the lengths of their schemas
unfoldable pub build_source_position_map : List (Text × ℕ) → PosMap
build_source_position_map sources = position_map 0 sources

-- The last entry of a source stays in the dict.
unfoldable pub offset_of : Text → PosMap → Option ℕ
offset_of sid [] = none
offset_of sid ((s, offset, width) ∷ entries) = elim (offset_of sid entries) [
  | some o ↦ some o
  | none ↦ (if bytes_eq sid s then some offset else none)
]

unfoldable pub remap_position : Text → ℕ → PosMap → Result ℕ
remap_position sid pos map = or_error key_error (offset_of sid map) >>= λ offset. ok (offset + pos)

module _ (operate : Op → Option Value → Option Value → Result Bool)
    (equal : Value → Value → Bool) where
  -- `rr` is `none` for WHERE. A comparison of two columns is then passed over, as is any other tuple.
  unfoldable pub eval_fold_expr : Fold → Row → Option Row → PosMap → PosMap → Result Bool
  eval_fold_expr (and_fold a b) lr rr lm rm = eval_fold_expr a lr rr lm rm >>= λ x. elim x [
    | false ↦ ok false
    | true ↦ eval_fold_expr b lr rr lm rm
  ]
  eval_fold_expr (or_fold a b) lr rr lm rm = eval_fold_expr a lr rr lm rm >>= λ x. elim x [
    | true ↦ ok true
    | false ↦ eval_fold_expr b lr rr lm rm
  ]
  eval_fold_expr (not_fold a) lr rr lm rm = eval_fold_expr a lr rr lm rm >>= λ x. ok (not x)
  eval_fold_expr (compare_cols op lpos rpos l_src r_src) lr none lm rm = ok true
  eval_fold_expr (compare_cols op lpos rpos l_src r_src) lr (some right) lm rm = do
    li ← remap_position l_src lpos lm
    ri ← remap_position r_src rpos rm
    lv ← row_at lr li
    rv ← row_at right ri
    operate op lv rv
  eval_fold_expr (equals_literal pos value) lr rr lm rm =
      row_at lr pos >>= λ v. operate op_eq v value
  eval_fold_expr no_fold lr rr lm rm = ok true

  -- Neither value may be NULL.
  abbrev pub same_values : Option Value → Option Value → Bool
  same_values (some a) (some b) = equal a b
  same_values _ _ = false

  unfoldable pub keys_match : List JoinKey → Row → Row → Result Bool
  keys_match [] lr rr = ok true
  keys_match (k ∷ ks) lr rr = do
    lv ← row_at lr k.left_col
    rv ← row_at rr k.right_col
    (elim (same_values lv rv) [ false ↦ ok false | true ↦ keys_match ks lr rr ])

  unfoldable pub all_hold : List Fold → Row → Row → PosMap → PosMap → Result Bool
  all_hold [] lr rr lm rm = ok true
  all_hold (p ∷ ps) lr rr lm rm = eval_fold_expr p lr (some rr) lm rm >>= λ x. elim x [
    | false ↦ ok false
    | true ↦ all_hold ps lr rr lm rm
  ]

  unfoldable pub matches : Join → PosMap → PosMap → Row → Row → Result Bool
  matches node lm rm lr rr = elim node.keys [
    | [] ↦ all_hold node.on_expr lr rr lm rm
    | k ∷ ks ↦ keys_match (k ∷ ks) lr rr
  ]

  unfoldable pub eval_filter : Fold → List Row → Result (List Row)
  eval_filter pred [] = ok []
  eval_filter pred (r ∷ rows) = do
    x ← eval_fold_expr pred r none [] []
    rest ← eval_filter pred rows
    ok (if x then r ∷ rest else rest)

-- What the loops of one Join node have at hand
pub record Loop : Type 0 where
  pub test : Row → Row → Result Bool
  pub merge : Row → Row → Result Row
  pub pad_right : Row → Result Row
  pub pad_left : Row → Result Row

-- The inner loop of LEFT and FULL over the right rows from index `ri` on: the rows that match, merged, and their indices
unfoldable pub scan_right : Loop → Row → ℕ → List Row → Result (List Row × List ℕ)
scan_right loop lr ri [] = ok ([], [])
scan_right loop lr ri (rr ∷ rows) = do
  hit ← loop.test lr rr
  (elim hit [
    | false ↦ scan_right loop lr (suc ri) rows
    | true ↦ (do
      row ← loop.merge lr rr
      rest ← scan_right loop lr (suc ri) rows
      ok (row ∷ rest.0, ri ∷ rest.1))
  ])

unfoldable pub scan_left : Loop → Row → List Row → Result (List Row)
scan_left loop rr [] = ok []
scan_left loop rr (lr ∷ rows) = do
  hit ← loop.test lr rr
  (elim hit [
    | false ↦ scan_left loop rr rows
    | true ↦ (do row ← loop.merge lr rr; rest ← scan_left loop rr rows; ok (row ∷ rest))
  ])

-- Nothing matched: the padded row
abbrev pub or_padded : List Row → Result Row → Result (List Row)
or_padded [] pad = pad >>= λ row. ok (row ∷ [])
or_padded (row ∷ rows) pad = ok (row ∷ rows)

unfoldable pub nested_loop_cross : List Row → List Row → List Row
nested_loop_cross [] rights = []
nested_loop_cross (lr ∷ lefts) rights =
    map (λ rr. lr ++ rr) rights ++ nested_loop_cross lefts rights

unfoldable pub inner_rows : Loop → List Row → List Row → Result (List Row)
inner_rows loop [] rights = ok []
inner_rows loop (lr ∷ lefts) rights = do
  hits ← scan_right loop lr 0 rights
  rest ← inner_rows loop lefts rights
  ok (hits.0 ++ rest)

unfoldable pub left_rows : Loop → List Row → List Row → Result (List Row)
left_rows loop [] rights = ok []
left_rows loop (lr ∷ lefts) rights = do
  hits ← scan_right loop lr 0 rights
  rows ← or_padded hits.0 (loop.pad_right lr)
  rest ← left_rows loop lefts rights
  ok (rows ++ rest)

unfoldable pub right_rows : Loop → List Row → List Row → Result (List Row)
right_rows loop lefts [] = ok []
right_rows loop lefts (rr ∷ rights) = do
  hits ← scan_left loop rr lefts
  rows ← or_padded hits (loop.pad_left rr)
  rest ← right_rows loop lefts rights
  ok (rows ++ rest)

-- The first phase of FULL: the rows, and the indices of the right rows that matched
unfoldable pub full_left : Loop → List Row → List Row → Result (List Row × List ℕ)
full_left loop [] rights = ok ([], [])
full_left loop (lr ∷ lefts) rights = do
  hits ← scan_right loop lr 0 rights
  rows ← or_padded hits.0 (loop.pad_right lr)
  rest ← full_left loop lefts rights
  ok (rows ++ rest.0, hits.1 ++ rest.1)

unfoldable pub has_index : ℕ → List ℕ → Bool
has_index i [] = false
has_index i (j ∷ js) = i == j || has_index i js

-- The second phase: the right rows that no left row matched, padded
unfoldable pub pad_unmatched : Loop → List ℕ → ℕ → List Row → Result (List Row)
pad_unmatched loop matched ri [] = ok []
pad_unmatched loop matched ri (rr ∷ rights) = elim (has_index ri matched) [
  | true ↦ pad_unmatched loop matched (suc ri) rights
  | false ↦ loop.pad_left rr >>= λ row.
      pad_unmatched loop matched (suc ri) rights >>= λ rest. ok (row ∷ rest)
]

unfoldable pub full_rows : Loop → List Row → List Row → Result (List Row)
full_rows loop lefts rights = do
  first ← full_left loop lefts rights
  rest ← pad_unmatched loop first.1 0 rights
  ok (first.0 ++ rest)

-- The sources of a subtree, with its rows and its schema
pub record Side : Type 0 where
  pub sources : List (Text × ℕ)
  pub rows : List Row
  pub schema : Schema

module _ (operate : Op → Option Value → Option Value → Result Bool)
    (equal : Value → Value → Bool) where
  abbrev pub loop_of : Join → Side → Side → Loop
  loop_of node l r = record {
    test =
        matches operate equal node (build_source_position_map l.sources)
          (build_source_position_map r.sources);
    merge = λ lr rr. coalesce_row lr rr node r.schema;
    pad_right = λ lr. null_pad_right lr r.schema node;
    pad_left = λ rr. null_pad_left rr l.schema r.schema node;
  }

  unfoldable pub eval_join : JoinKind → Join → Side → Side → Result (List Row × Schema)
  eval_join cross_join node l r = ok (nested_loop_cross l.rows r.rows, l.schema ++ r.schema)
  eval_join inner_join node l r = inner_rows (loop_of node l r) l.rows r.rows >>= λ rows.
      ok (rows, merged_schema l.schema r.schema node)
  eval_join left_join node l r = left_rows (loop_of node l r) l.rows r.rows >>= λ rows.
      ok (rows, merged_schema l.schema r.schema node)
  eval_join right_join node l r = right_rows (loop_of node l r) l.rows r.rows >>= λ rows.
      ok (rows, merged_schema l.schema r.schema node)
  eval_join full_join node l r = full_rows (loop_of node l r) l.rows r.rows >>= λ rows.
      ok (rows, merged_schema l.schema r.schema node)
