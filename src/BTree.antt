-- ===== src/BTree.antt =====
-- src/tinydb/btree.py: the pages of the B+tree's nodes, bisection, and the changes within a leaf;
-- the walks over the pages are in Tree. A key is a byte string. A method that mutates a node returns the new node.
pub mod Bisect
pub mod Leaf
pub mod Overflow
pub mod Tree
pub mod Tests
use tinydb_cc_comet.Prelude.{
  ℕ, zero, suc, ◌+◌, ◌*◌, ◌/◌, bit_and, Bool, true, false, not, ◌&&◌, Option, none, some, List, [],
  ◌∷◌, ◌++◌, ltb, leb, ◌==◌, if◌then◌else◌, length, get_elem?, get_or, set, take, drop, replicate,
  insert_at, slice, set_slice,
}
use tinydb_cc_comet.Errors.{
  Result, ok, err, ◌>>=◌, or_error, value_error, index_error, struct_error, assertion_error,
}
use tinydb_cc_comet.Bytes.{Bytes, pack, int_from_bytes, bytes_eq}
use tinydb_cc_comet.Pager.{page_size}

abbrev pub node_type_leaf : ℕ
node_type_leaf = 1

abbrev pub node_type_internal : ℕ
node_type_internal = 2

abbrev pub header_size : ℕ
header_size = 10

abbrev pub tombstone_flag : ℕ
tombstone_flag = 0x80

pub record LeafNode : Type 0 where
  pub keys : List Bytes
  pub values : List (ℕ × ℕ)
  pub next_leaf_id : ℕ
  pub tombstones : List Bool

pub record InternalNode : Type 0 where
  pub separators : List Bytes
  pub children : List ℕ

-- `<` on byte strings
unfoldable pub bytes_lt : Bytes → Bytes → Bool
bytes_lt xs [] = false
bytes_lt [] (b ∷ ys) = true
bytes_lt (a ∷ xs) (b ∷ ys) = let rest = bytes_lt xs ys in if a == b then rest else ltb a b

-- The loop of both bisections; `goes_right` is the test on `keys[mid]`.
unfoldable pub bisect_from : (Bytes → Bool) → List Bytes → ℕ → ℕ → ℕ → ℕ
bisect_from goes_right keys zero lo hi = lo
bisect_from goes_right keys (suc fuel) lo hi =
    let mid = (lo + hi) / 2 in
    let right = goes_right (get_or keys mid []) in
    let rest =
      bisect_from goes_right keys fuel (if right then mid + 1 else lo)
        (if right then hi else mid) in
    if ltb lo hi then rest else lo

-- Each round makes `hi - lo` smaller, so a round for each key is enough.
unfoldable pub bisect_left : List Bytes → Bytes → ℕ
bisect_left keys key = bisect_from (λ k. bytes_lt k key) keys (length keys) 0 (length keys)

unfoldable pub bisect_right : List Bytes → Bytes → ℕ
bisect_right keys key = bisect_from (λ k. not (bytes_lt key k)) keys (length keys) 0 (length keys)

-- struct.unpack of one unsigned field of `w` bytes
unfoldable pub unpack : ℕ → Bytes → Result ℕ
unpack w bytes = if length bytes == w then ok (int_from_bytes bytes) else err struct_error

-- One round of the loop of `LeafNode.serialize`, behind the test of the room
unfoldable pub put_entry : ℕ → Bytes → ℕ × ℕ → Bool → Bytes → Result Bytes
put_entry off key (pid, sid) tomb page = do
  n ← pack 2 (length key)
  p ← pack 4 pid
  s ← pack 4 sid
  ok (
      set_slice (off + 3 + length key) (off + 3 + length key + 8) (p ++ s) (
        set_slice (off + 3) (off + 3 + length key) key
          (set_slice (off + 1) (off + 3) n (set page off (if tomb then tombstone_flag else 0)))))

unfoldable pub put_entries : ℕ → ℕ → List Bytes → LeafNode → Bytes → Result Bytes
put_entries i off [] leaf page = ok page
put_entries i off (key ∷ keys) leaf page =
    if ltb page_size (off + 1 + 2 + length key + 8) then err value_error else do
      v ← or_error index_error (get_elem? leaf.values i)
      page' ← put_entry off key v (get_or leaf.tombstones i false) page
      put_entries (i + 1) (off + 3 + length key + 8) keys leaf page'

abbrev pub node_page : ℕ → Bytes → Bytes
node_page node_type count = set_slice 2 4 count (set (replicate page_size 0) 0 node_type)

unfoldable pub serialize_leaf : LeafNode → Result Bytes
serialize_leaf leaf = do
  count ← pack 2 (length leaf.keys)
  next ← pack 4 leaf.next_leaf_id
  put_entries 0 header_size leaf.keys leaf (set_slice 6 10 next (node_page node_type_leaf count))

unfoldable pub take_entries : ℕ → ℕ → ℕ → Bytes → Result LeafNode
take_entries next zero off page =
    ok (record { keys = []; values = []; next_leaf_id = next; tombstones = [] })
take_entries next (suc n) off page = do
  tomb ← or_error index_error (get_elem? page off)
  key_len ← unpack 2 (slice (off + 1) (off + 3) page)
  pid ← unpack 4 (slice (off + 3 + key_len) (off + 3 + key_len + 4) page)
  sid ← unpack 4 (slice (off + 3 + key_len + 4) (off + 3 + key_len + 8) page)
  rest ← take_entries next n (off + 3 + key_len + 8) page
  ok (record {
    keys = slice (off + 3) (off + 3 + key_len) page ∷ rest.keys;
    values = (pid, sid) ∷ rest.values;
    next_leaf_id = next;
    tombstones = not (bit_and tomb tombstone_flag == 0) ∷ rest.tombstones;
  })

unfoldable pub deserialize_leaf : Bytes → Result LeafNode
deserialize_leaf page = do
  kind ← or_error index_error (get_elem? page 0)
  (if kind == node_type_leaf
      then (do
        count ← unpack 2 (slice 2 4 page)
        next ← unpack 4 (slice 6 10 page)
        take_entries next count header_size page)
      else err assertion_error)

-- One round of the loop of `InternalNode.serialize`, behind the test of the room
unfoldable pub put_child : ℕ → Bytes → ℕ → Bytes → Result Bytes
put_child off key child page = do
  c ← pack 4 child
  n ← pack 2 (length key)
  ok (
      set_slice (off + 6) (off + 6 + length key) key
        (set_slice (off + 4) (off + 6) n (set_slice off (off + 4) c page)))

-- `self.children[-1]`
unfoldable pub last_child : List ℕ → Option ℕ
last_child [] = none
last_child (c ∷ []) = some c
last_child (c ∷ d ∷ cs) = last_child (d ∷ cs)

-- The loop, and the last child behind it: an assignment to a slice that leaves the page makes the
-- page longer.
unfoldable pub put_children : ℕ → ℕ → List Bytes → InternalNode → Bytes → Result Bytes
put_children i off [] node page = do
  child ← or_error index_error (last_child node.children)
  c ← pack 4 child
  ok (set_slice off (off + 4) c page)
put_children i off (key ∷ keys) node page =
    if ltb page_size (off + 4 + 2 + length key) then err value_error else do
      child ← or_error index_error (get_elem? node.children i)
      page' ← put_child off key child page
      put_children (i + 1) (off + 6 + length key) keys node page'

unfoldable pub serialize_internal : InternalNode → Result Bytes
serialize_internal node = do
  count ← pack 2 (length node.separators)
  put_children 0 header_size node.separators node (node_page node_type_internal count)

unfoldable pub take_children : ℕ → ℕ → Bytes → Result InternalNode
take_children zero off page = do
  child ← unpack 4 (slice off (off + 4) page)
  ok (record { separators = []; children = child ∷ [] })
take_children (suc n) off page = do
  child ← unpack 4 (slice off (off + 4) page)
  key_len ← unpack 2 (slice (off + 4) (off + 6) page)
  rest ← take_children n (off + 6 + key_len) page
  ok (record {
    separators = slice (off + 6) (off + 6 + key_len) page ∷ rest.separators;
    children = child ∷ rest.children;
  })

unfoldable pub deserialize_internal : Bytes → Result InternalNode
deserialize_internal page = do
  kind ← or_error index_error (get_elem? page 0)
  (if kind == node_type_internal
      then (do count ← unpack 2 (slice 2 4 page); take_children count header_size page)
      else err assertion_error)

-- i < len(leaf.keys) and leaf.keys[i] == key
unfoldable pub is_at : ℕ → Bytes → LeafNode → Bool
is_at i key leaf = ltb i (length leaf.keys) && bytes_eq (get_or leaf.keys i []) key

-- `insert` within the leaf: an entry with the key is replaced, another is put in its place.
unfoldable pub put_in_leaf : Bytes → ℕ × ℕ → LeafNode → LeafNode
put_in_leaf key value leaf =
    let i = bisect_left leaf.keys key in
    if is_at i key leaf
    then record leaf {
      keys = set leaf.keys i key;
      values = set leaf.values i value;
      tombstones =
          (if ltb i (length leaf.tombstones)
            then set leaf.tombstones i false
            else leaf.tombstones ++ false ∷ []);
    }
    else record leaf {
      keys = insert_at i key leaf.keys;
      values = insert_at i value leaf.values;
      tombstones = insert_at i false leaf.tombstones;
    }

-- The two halves of a leaf that overflows; `right_pid` is the new page.
unfoldable pub split_leaf : ℕ → LeafNode → LeafNode × LeafNode
split_leaf right_pid leaf =
    let mid = length leaf.keys / 2 in
    (
      record {
        keys = take mid leaf.keys;
        values = take mid leaf.values;
        next_leaf_id = right_pid;
        tombstones = take mid leaf.tombstones;
      },
      record {
        keys = drop mid leaf.keys;
        values = drop mid leaf.values;
        next_leaf_id = leaf.next_leaf_id;
        tombstones = drop mid leaf.tombstones;
      },
    )

-- `search` within the leaf
unfoldable pub search_leaf : Bytes → LeafNode → Result (Option (ℕ × ℕ))
search_leaf key leaf =
    let i = bisect_left leaf.keys key in
    if is_at i key leaf
    then (do
      dead ← or_error index_error (get_elem? leaf.tombstones i)
      (if dead
          then ok none
          else (do v ← or_error index_error (get_elem? leaf.values i); ok (some v))))
    else ok none
