-- ===== src/JoinExecutor/Positions.antt =====
-- The position map of _join_executor.py above a join on merged keys, and the columns of its rows.
use tinydb_cc_comet.Prelude.{
  ℕ, zero, suc, ◌+◌, ◌-◌, ◌≤◌, ◌<◌, ◌≡◌, refl, some, List, [], ◌∷◌, arith, length, get_elem?,
  Option-cases, inl, inr,
}
use tinydb_cc_comet.Errors.{err, ◌>>=◌, index_error}
use tinydb_cc_comet.Bytes.{bytes_eq_refl}
use tinydb_cc_comet.TypeSystem.{Text}
use tinydb_cc_comet.JoinExecutor.{
  Row, Schema, JoinKey, row_at, right_to_left, unmerged, position_map, build_source_position_map,
  offset_of, remap_position,
}
use tinydb_cc_comet.JoinExecutor.Widths.{width}

unmerged_le :
    (keys : List JoinKey) (ri : ℕ) (cs : Schema) → length (unmerged keys ri cs) ≤ length cs
unfolding unmerged
unmerged_le keys ri [] = omega arith
unmerged_le keys ri (c ∷ cs) = elim (Option-cases (right_to_left keys ri)) [
  | inl e ↦ rw (unmerged, e) (omega (arith, unmerged_le keys (suc ri) cs))
  | inr (li, e) ↦ rw (unmerged, e) (omega (arith, unmerged_le keys (suc ri) cs))
]

right_to_left_key :
    (k : JoinKey) (keys : List JoinKey)
    → (li : ℕ) × (right_to_left (k ∷ keys) k.right_col ≡ some li)
unfolding right_to_left
right_to_left_key k keys = elim (Option-cases (right_to_left keys k.right_col)) [
  | inr (li, e) ↦ (li, rw (right_to_left, e) refl)
  | inl e ↦ (k.left_col, rw (right_to_left, e) (ground arith))
]

add_suc : (n k : ℕ) → n + suc k ≡ suc n + k
add_suc n k = omega arith

add_zero : (n : ℕ) → n + 0 ≡ n
add_zero n = omega arith

zero_add : (n : ℕ) → 0 + n ≡ n
zero_add n = omega arith

-- A merged key in reach makes the rest shorter.
unmerged_lt :
    (keys : List JoinKey) (ri j li : ℕ) (cs : Schema)
    → right_to_left keys (ri + j) ≡ some li
    → j < length cs
    → length (unmerged keys ri cs) < length cs
unfolding unmerged
unmerged_lt keys ri j li [] e h = absurd (omega arith)
unmerged_lt keys ri zero li (c ∷ cs) e h =
    let b : right_to_left keys ri ≡ some li = (rw (add_zero ri) at e) in
    rw (unmerged, b) (omega (arith, unmerged_le keys (suc ri) cs))
unmerged_lt keys ri (suc j) li (c ∷ cs) e h =
    let b : right_to_left keys (suc ri + j) ≡ some li = (rw (add_suc ri j) at e) in
    let less = unmerged_lt keys (suc ri) j li cs b (omega arith) in
    elim (Option-cases (right_to_left keys ri)) [
      | inl q ↦ rw (unmerged, q) (omega (arith, less))
      | inr (l, q) ↦ rw (unmerged, q) (omega (arith, less))
    ]

row_at_past : (row : Row) (i : ℕ) → length row ≤ i → row_at row i ≡ err index_error
unfolding row_at get_elem?
row_at_past [] i h = refl
row_at_past (v ∷ row) zero h = absurd (omega arith)
row_at_past (v ∷ row) (suc i) h = row_at_past row i (omega arith)

offset_of_second :
    (sa sb : Text) (wa wb : ℕ)
    → offset_of sb (build_source_position_map ((sa, wa) ∷ (sb, wb) ∷ [])) ≡ some (0 + wa)
unfolding build_source_position_map position_map offset_of
offset_of_second sa sb wa wb = rw (offset_of, bytes_eq_refl sb) refl

-- Above a join of two sources on a key that is a column of the right one, the map takes the last column of the right
-- source to a position behind the merged row, where a read raises IndexError.
pub remap_position_past :
    (ls rs : Schema) (k : JoinKey) (keys : List JoinKey) (sa sb : Text) (row : Row)
    → k.right_col < length rs
    → length row ≡ width ls rs (record { keys = k ∷ keys; on_expr = [] })
    → (remap_position sb
          (length rs - 1)
          (build_source_position_map ((sa, length ls) ∷ (sb, length rs) ∷ []))
        >>= λ i. row_at row i)
      ≡ err index_error
unfolding remap_position
remap_position_past ls rs k keys sa sb row inside wide =
    let (li, e) = right_to_left_key k keys in
    let short = unmerged_lt (k ∷ keys) 0 k.right_col li rs (rw (zero_add k.right_col) e) inside in
    rw (offset_of_second sa sb (length ls) (length rs))
      (row_at_past row (0 + length ls + (length rs - 1)) (omega (arith, short, wide)))
