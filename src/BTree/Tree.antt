-- ===== src/BTree/Tree.antt =====
-- The walks of the B+tree over the pages of a pager: descent, search, range, delete and insert. Each
-- takes fuel, one unit for each page on its way, and answers `none` when it runs out.
use tinydb_cc_comet.Prelude.{
  ℕ, zero, suc, ◌+◌, ◌/◌, Bool, true, false, not, ◌&&◌, Option, none, some, List, [], ◌∷◌, ◌++◌,
  ◌==◌, if◌then◌else◌, length, get_elem?, set, take, drop, insert_at,
}
use tinydb_cc_comet.Errors.{
  Result, ok, err, ◌>>=◌, or_error, value_error, index_error, runtime_error,
}
use tinydb_cc_comet.Bytes.{Bytes}
use tinydb_cc_comet.Pager.{Pager, read_page, write_page, alloc_page}
use tinydb_cc_comet.BTree.{
  LeafNode, InternalNode, node_type_internal, bytes_lt, bisect_left, bisect_right, is_at,
  put_in_leaf, split_leaf, search_leaf, serialize_leaf, deserialize_leaf, serialize_internal,
  deserialize_internal,
}

-- `none` means that the fuel ran out.
abbrev pub and_then {ℓ κ} :
    {A : Type ℓ} {B : Type κ} → Option (Result A) → (A → Option (Result B)) → Option (Result B)
and_then none f = none
and_then (some (err x)) f = some (err x)
and_then (some (ok a)) f = f a

-- page[0] == NODE_TYPE_INTERNAL
unfoldable pub is_internal : Bytes → Result Bool
is_internal page =
    or_error index_error (get_elem? page 0) >>= λ kind. ok (kind == node_type_internal)

-- The child of a page of an internal node that `key` belongs to
unfoldable pub child_for : Bytes → Bytes → Result ℕ
child_for key page = deserialize_internal page >>= λ node.
    or_error index_error (get_elem? node.children (bisect_right node.separators key))

unfoldable pub read_leaf : ℕ → Bytes → Result (ℕ × LeafNode)
read_leaf pid page = deserialize_leaf page >>= λ leaf. ok (pid, leaf)

-- The page of the leaf that `key` belongs to
unfoldable pub find_leaf : ℕ → Bytes → ℕ → Pager → Option (Result ℕ)
find_leaf zero key pid p = none
find_leaf (suc fuel) key pid p =
    let page = read_page pid p in
    and_then (some (is_internal page)) (λ internal. elim internal [
      | true ↦ and_then (some (child_for key page)) (λ child. find_leaf fuel key child p)
      | false ↦ some (ok pid)
    ])

unfoldable pub descend : ℕ → Bytes → ℕ → Pager → Option (Result (ℕ × LeafNode))
descend fuel key root p =
    and_then (find_leaf fuel key root p) (λ pid. some (read_leaf pid (read_page pid p)))

unfoldable pub search : ℕ → Bytes → Option ℕ → Pager → Option (Result (Option (ℕ × ℕ)))
search fuel key none p = some (ok none)
search fuel key (some root) p = and_then (descend fuel key root p) (λ r. some (search_leaf key r.1))

-- `delete` within the leaf
unfoldable pub delete_in_leaf : Bytes → ℕ → LeafNode → Pager → Result Pager
delete_in_leaf key pid leaf p =
    let i = bisect_left leaf.keys key in
    if is_at i key leaf
    then (do
      old ← or_error index_error (get_elem? leaf.tombstones i)
      page ← serialize_leaf (record leaf { tombstones = set leaf.tombstones i true })
      write_page pid page p)
    else ok p

unfoldable pub delete : ℕ → Bytes → Option ℕ → Pager → Option (Result Pager)
delete fuel key none p = some (ok p)
delete fuel key (some root) p =
    and_then (descend fuel key root p) (λ r. some (delete_in_leaf key r.0 r.1 p))

-- The entries of one leaf within the bounds, and whether a key beyond them was met
unfoldable pub scan_entries :
    Bytes → Bytes → List Bytes → List (ℕ × ℕ) → List Bool → List (ℕ × ℕ) × Bool
scan_entries start end (k ∷ keys) (v ∷ values) (t ∷ tombstones) =
    let rest = scan_entries start end keys values tombstones in
    if not (bytes_lt k end)
    then ([], true)
    else if not (bytes_lt k start) && not t
    then (v ∷ rest.0, rest.1)
    else rest
scan_entries start end keys values tombstones = ([], false)

unfoldable pub walk_leaves : ℕ → Bytes → Bytes → ℕ → Pager → Option (Result (List (ℕ × ℕ)))
walk_leaves zero start end pid p = none
walk_leaves (suc fuel) start end zero p = some (ok [])
walk_leaves (suc fuel) start end (suc n) p =
    and_then (some (deserialize_leaf (read_page (suc n) p))) (λ leaf.
      let found = scan_entries start end leaf.keys leaf.values leaf.tombstones in
      elim found.1 [
        | true ↦ some (ok found.0)
        | false ↦
            and_then (walk_leaves fuel start end leaf.next_leaf_id p)
              (λ rest. some (ok (found.0 ++ rest)))
      ])

unfoldable pub range : ℕ → Bytes → Bytes → Option ℕ → Pager → Option (Result (List (ℕ × ℕ)))
range fuel start end none p = some (ok [])
range fuel start end (some root) p =
    and_then (find_leaf fuel start root p) (λ pid. walk_leaves fuel start end pid p)

unfoldable pub find_parent : ℕ → Bytes → ℕ → ℕ → Pager → Option (Result ℕ)
find_parent zero key target pid p = none
find_parent (suc fuel) key target pid p =
    let page = read_page pid p in
    and_then (some (is_internal page)) (λ internal. elim internal [
      | true ↦ and_then (some (child_for key page)) (λ child. elim (child == target) [
        | true ↦ some (ok pid)
        | false ↦ find_parent fuel key target child p
      ])
      | false ↦ some (err runtime_error)
    ])

-- The parent with the new separator and child
unfoldable pub with_child : Bytes → ℕ → InternalNode → InternalNode
with_child key right_pid parent =
    let i = bisect_left parent.separators key in
    record {
      separators = insert_at i key parent.separators;
      children = insert_at (i + 1) right_pid parent.children;
    }

-- The halves of an internal node that overflows; the key between them is promoted.
unfoldable pub split_internal : InternalNode → InternalNode × InternalNode
split_internal node =
    let mid = length node.separators / 2 in
    (
      record { separators = take mid node.separators; children = take (mid + 1) node.children },
      record {
        separators = drop (mid + 1) node.separators;
        children = drop (mid + 1) node.children;
      },
    )

unfoldable pub new_root : ℕ → Bytes → ℕ → Pager → Result (ℕ × Pager)
new_root left_pid key right_pid p = do
  r ← alloc_page p
  page ← serialize_internal (record { separators = key ∷ []; children = left_pid ∷ right_pid ∷ [] })
  p' ← write_page r.0 page r.1
  ok (r.0, p')

-- Both halves of the parent are written; the promoted key, the new page and the pager are returned.
unfoldable pub write_halves : ℕ → InternalNode → Pager → Result (Bytes × (ℕ × Pager))
write_halves parent_pid node p = do
  promoted ← or_error index_error (get_elem? node.separators (length node.separators / 2))
  left ← serialize_internal (split_internal node).0
  p' ← write_page parent_pid left p
  r ← alloc_page p'
  right ← serialize_internal (split_internal node).1
  p'' ← write_page r.0 right r.1
  ok (promoted, (r.0, p''))

unfoldable pub add_to_parent : ℕ → Bytes → ℕ → Pager → Result InternalNode
add_to_parent parent_pid key right_pid p =
    deserialize_internal (read_page parent_pid p) >>= λ parent. ok (with_child key right_pid parent)

-- The root behind the insertion, and the pager. Each unit of fuel is for one level of the tree; the
-- search for the parent has `steps`.
unfoldable pub insert_into_parent : ℕ → ℕ → ℕ → Bytes → ℕ → ℕ → Pager → Option (Result (ℕ × Pager))
insert_into_parent steps zero left_pid key right_pid root p = none
insert_into_parent steps (suc fuel) left_pid key right_pid root p = elim (root == left_pid) [
  | true ↦ some (new_root left_pid key right_pid p)
  | false ↦ and_then (find_parent steps key left_pid root p) (λ parent_pid.
      and_then (some (add_to_parent parent_pid key right_pid p)) (λ node.
        elim (serialize_internal node) [
          | ok page ↦ some (write_page parent_pid page p >>= λ p'. ok (root, p'))
          | err value_error ↦
              and_then (some (write_halves parent_pid node p)) (λ (promoted, (pid, p')).
                insert_into_parent steps fuel parent_pid promoted pid root p')
          | err x ↦ some (err x)
        ]))
]

-- Both halves of the leaf are written; the first key of the right one is promoted.
unfoldable pub write_leaf_halves : ℕ → LeafNode → Pager → Result (Bytes × (ℕ × Pager))
write_leaf_halves leaf_pid leaf p = do
  r ← alloc_page p
  left ← serialize_leaf (split_leaf r.0 leaf).0
  p' ← write_page leaf_pid left r.1
  right ← serialize_leaf (split_leaf r.0 leaf).1
  p'' ← write_page r.0 right p'
  promoted ← or_error index_error (get_elem? (split_leaf r.0 leaf).1.keys 0)
  ok (promoted, (r.0, p''))

unfoldable pub first_leaf : Bytes → ℕ × ℕ → Pager → Result (ℕ × Pager)
first_leaf key value p = do
  r ← alloc_page p
  page ←
      serialize_leaf
        (record { keys = key ∷ []; values = value ∷ []; next_leaf_id = 0; tombstones = false ∷ [] })
  p' ← write_page r.0 page r.1
  ok (r.0, p')

unfoldable pub insert_at_leaf :
    ℕ → Bytes → ℕ × ℕ → ℕ → ℕ → LeafNode → Pager → Option (Result (ℕ × Pager))
insert_at_leaf fuel key value root leaf_pid old p =
    let leaf = put_in_leaf key value old in
    elim (serialize_leaf leaf) [
      | ok page ↦ some (write_page leaf_pid page p >>= λ p'. ok (root, p'))
      | err value_error ↦
          and_then (some (write_leaf_halves leaf_pid leaf p))
            (λ (promoted, (pid, p')). insert_into_parent fuel fuel leaf_pid promoted pid root p')
      | err x ↦ some (err x)
    ]

-- `insert`: the root behind it, and the pager
unfoldable pub insert : ℕ → Bytes → ℕ × ℕ → Option ℕ → Pager → Option (Result (ℕ × Pager))
insert fuel key value none p = some (first_leaf key value p)
insert fuel key value (some root) p =
    and_then (descend fuel key root p) (λ r. insert_at_leaf fuel key value root r.0 r.1 p)
