-- ===== src/BTree/Tests.antt =====
-- The theorems on nodes at a leaf with two keys, and at an internal node with one long key.
use tinydb_cc_comet.Prelude.{
  ◌^◌, ℕ, zero, suc, ◌<◌, ◌≡◌, refl, true, false, not, some, [], ◌∷◌, arith, length,
  length-replicate, replicate, get_elem?, get_or,
}
use tinydb_cc_comet.Errors.{ok, err, value_error}
use tinydb_cc_comet.Bytes.{Bytes}
use tinydb_cc_comet.Pager.{page_size, open_memory, write_page}
use tinydb_cc_comet.BTree.{
  LeafNode, InternalNode, bytes_lt, bisect_left, bisect_right, put_in_leaf, search_leaf,
  serialize_internal,
}
use tinydb_cc_comet.BTree.Bisect.{IsSorted, Cut, bisect_left-Cut, bisect_right-Cut}
use tinydb_cc_comet.BTree.Leaf.{IsLeaf, search_leaf-put_in_leaf}
use tinydb_cc_comet.BTree.Overflow.{NodeFits, serialize_internal-overflows}

abbrev leaf : LeafNode
leaf = record {
  keys = (1 ∷ []) ∷ (1 ∷ 2 ∷ []) ∷ [];
  values = (5, 0) ∷ (5, 1) ∷ [];
  next_leaf_id = 0;
  tombstones = false ∷ true ∷ [];
}

keys-IsSorted : IsSorted leaf.keys
unfolding bytes_lt get_or
keys-IsSorted zero zero le lt = refl
keys-IsSorted zero (suc zero) le lt = refl
keys-IsSorted (suc zero) zero le lt = absurd (omega arith)
keys-IsSorted (suc zero) (suc zero) le lt = refl
keys-IsSorted i (suc (suc j)) le lt = absurd (omega arith)
keys-IsSorted (suc (suc i)) zero le lt = absurd (omega arith)
keys-IsSorted (suc (suc i)) (suc zero) le lt = absurd (omega arith)

bisect_left-Cut_example :
    Cut (λ k. bytes_lt k (1 ∷ 2 ∷ [])) leaf.keys (bisect_left leaf.keys (1 ∷ 2 ∷ []))
bisect_left-Cut_example = bisect_left-Cut leaf.keys (1 ∷ 2 ∷ []) keys-IsSorted

bisect_right-Cut_example :
    Cut (λ k. not (bytes_lt (1 ∷ []) k)) leaf.keys (bisect_right leaf.keys (1 ∷ []))
bisect_right-Cut_example = bisect_right-Cut leaf.keys (1 ∷ []) keys-IsSorted

leaf-IsLeaf : IsLeaf leaf
leaf-IsLeaf = record { sorted = keys-IsSorted; valued = refl; flagged = refl }

-- The entry that is replaced was dead.
search_leaf-put_in_leaf_example :
    search_leaf (1 ∷ 2 ∷ []) (put_in_leaf (1 ∷ 2 ∷ []) (6, 2) leaf) ≡ ok (some (6, 2))
search_leaf-put_in_leaf_example = search_leaf-put_in_leaf leaf (1 ∷ 2 ∷ []) (6, 2) leaf-IsLeaf

abbrev node : InternalNode
node = record { separators = replicate 4078 7 ∷ []; children = 3 ∷ 4 ∷ [] }

children_small : (i c : ℕ) → get_elem? node.children i ≡ some c → c < 256 ^ 4
unfolding get_elem?
children_small zero c e = ground arith
children_small (suc zero) c e = ground arith
children_small (suc (suc i)) c e = absurd (ground arith)

node-NodeFits : NodeFits node
node-NodeFits = record { counted = refl; few = omega arith; children_fit = children_small }

serialize_internal-overflows_example :
    (page : Bytes) × (serialize_internal node ≡ ok page)
    × (page_size < length page)
    × (write_page 9 page open_memory ≡ err value_error)
serialize_internal-overflows_example =
    serialize_internal-overflows node node-NodeFits 9 open_memory
      (omega (arith, length-replicate {A = ℕ} 4078 7))
      (omega (arith, length-replicate {A = ℕ} 4078 7))
