-- ===== src/BTree/Overflow.antt =====
-- The room in the page of an internal node: the last child pointer is written without a test.
use tinydb_cc_comet.Prelude.{
  ℕ, zero, suc, ◌+◌, ◌-◌, ◌^◌, ◌≤◌, ◌<◌, ◌≡◌, refl, ◌∙◌, max, false, some, List, [], ◌∷◌, ◌++◌,
  arith, ltb, ◌==◌, length, get_elem?, get_elem?_in, set, set_slice, length-set, length-set_slice,
  length-append, length-take, length-drop, length-replicate, replicate, take, drop,
}
use tinydb_cc_comet.Errors.{ok, err, value_error}
use tinydb_cc_comet.Bytes.{Bytes, pack-ok, to_be, length-to_be}
use tinydb_cc_comet.Pager.{Pager, page_size, write_page}
use tinydb_cc_comet.BTree.{
  InternalNode, header_size, node_type_internal, node_page, put_child, put_children, last_child,
  serialize_internal,
}

-- The bytes that the keys take, with a child and a length for each
abbrev pub packed : List Bytes → ℕ
packed [] = 0
packed (key ∷ keys) = 6 + length key + packed keys

pub record NodeFits (node : InternalNode) : Type 0 where
  pub counted : length node.children ≡ length node.separators + 1
  pub few : length node.separators < 256 ^ 2
  pub children_fit : (i c : ℕ) → get_elem? node.children i ≡ some c → c < 256 ^ 4

last_child-get : (cs : List ℕ) (n : ℕ) → length cs ≡ suc n → last_child cs ≡ get_elem? cs n
unfolding last_child get_elem?
last_child-get [] n h = absurd (omega arith)
last_child-get (c ∷ []) zero h = refl
last_child-get (c ∷ []) (suc n) h = absurd (omega arith)
last_child-get (c ∷ d ∷ cs) zero h = absurd (omega arith)
last_child-get (c ∷ d ∷ cs) (suc n) h = last_child-get (d ∷ cs) n (omega arith)

-- A slice that begins within the page and ends behind it makes the page longer.
length-put_last :
    (off : ℕ) (v page : Bytes)
    → length v ≡ 4
    → off ≤ length page
    → length (set_slice off (off + 4) v page) ≡ max (length page) (off + 4)
unfolding set_slice
length-put_last off v page h le = omega (
  arith,
  length-append (take off page) (v ++ drop (max off (off + 4)) page),
  length-append v (drop (max off (off + 4)) page),
  length-take off page,
  length-drop (max off (off + 4)) page,
)

length-put_child :
    (off : ℕ) (key : Bytes) (child : ℕ) (page : Bytes)
    → child < 256 ^ 4
    → off + 6 + length key ≤ length page
    → length page ≡ page_size
    → (page' : Bytes) × (put_child off key child page ≡ ok page') × (length page' ≡ page_size)
unfolding put_child
length-put_child off key child page h le size =
    let first = set_slice off (off + 4) (to_be 4 child) page in
    let second = set_slice (off + 4) (off + 6) (to_be 2 (length key)) first in
    let e₁ : length first ≡ page_size =
      length-set_slice off (off + 4) (to_be 4 child) page (omega (arith, length-to_be 4 child))
        (omega arith)
      ∙ size in
    let e₂ : length second ≡ page_size =
      length-set_slice (off + 4) (off + 6) (to_be 2 (length key)) first
        (omega (arith, length-to_be 2 (length key))) (omega (arith, e₁))
      ∙ e₁ in
    (
      set_slice (off + 6) (off + 6 + length key) key second,
      rw (pack-ok 4 child h, pack-ok 2 (length key) (omega arith)),
      length-set_slice (off + 6) (off + 6 + length key) key second (omega arith) (omega (arith, e₂))
          ∙ e₂,
    )

module _ (node : InternalNode) (f : NodeFits node) where
  put_children-length :
      (i off : ℕ) (keys : List Bytes) (page : Bytes)
      → i + length keys < length node.children
      → off + packed keys ≤ page_size
      → length page ≡ page_size
      → (page' : Bytes) × (put_children i off keys node page ≡ ok page')
        × (length page' ≡ max page_size (off + packed keys + 4))
  unfolding put_children
  put_children-length i off [] page inside room size =
      let (c, e) = get_elem?_in node.children (length node.children - 1) (omega arith) in
      (
        set_slice off (off + 4) (to_be 4 c) page,
        rw (
          last_child-get node.children (length node.children - 1) (omega arith),
          e,
          pack-ok 4 c (f.children_fit (length node.children - 1) c e),
        ),
        omega (arith, length-put_last off (to_be 4 c) page (length-to_be 4 c) (omega arith)),
      )
  put_children-length i off (key ∷ keys) page inside room size =
      let (c, e) = get_elem?_in node.children i (omega arith) in
      let t : ltb page_size (off + 4 + 2 + length key) ≡ false = ground arith in
      let (page₁, e₁, size₁) =
        length-put_child off key c page (f.children_fit i c e) (omega arith) size in
      let (page₂, e₂, size₂) =
        put_children-length (i + 1) (off + 6 + length key) keys page₁ (omega arith) (omega arith)
          size₁ in
      (page₂, rw (t, e, e₁) e₂, omega (arith, size₂))

  length-node_page :
      (count : Bytes) → length count ≡ 2 → length (node_page node_type_internal count) ≡ page_size
  length-node_page count h =
      let blank : Bytes = set (replicate page_size 0) 0 node_type_internal in
      let e : length blank ≡ page_size =
        length-set (replicate page_size 0) 0 node_type_internal
        ∙ length-replicate {A = ℕ} page_size 0 in
      length-set_slice 2 4 count blank (omega arith) (omega (arith, e)) ∙ e

  serialize_internal-length :
      header_size + packed node.separators ≤ page_size
      → (page : Bytes) × (serialize_internal node ≡ ok page)
        × (length page ≡ max page_size (header_size + packed node.separators + 4))
  unfolding serialize_internal
  serialize_internal-length room =
      let n = length node.separators in
      let (page, e, size) =
        put_children-length 0 header_size node.separators (node_page node_type_internal (to_be 2 n))
          (omega (arith, f.counted)) room (length-node_page (to_be 2 n) (length-to_be 2 n)) in
      (page, rw (pack-ok 2 n f.few) e, size)

  -- A node whose keys fit the page, but with less than four bytes behind them, is serialized without
  -- an error to a page that is too long, and no pager accepts that page.
  pub serialize_internal-overflows :
      (id : ℕ) (p : Pager)
      → header_size + packed node.separators ≤ page_size
      → page_size < header_size + packed node.separators + 4
      → (page : Bytes) × (serialize_internal node ≡ ok page)
        × (page_size < length page)
        × (write_page id page p ≡ err value_error)
  unfolding write_page
  serialize_internal-overflows id p room tight =
      let (page, e, size) = serialize_internal-length room in
      let t : (length page == page_size) ≡ false = ground (arith, size) in
      (page, e, omega (arith, size), rw t)
