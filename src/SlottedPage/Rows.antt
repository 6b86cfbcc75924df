-- ===== src/SlottedPage/Rows.antt =====
-- The row operations of slotted_page.py against the rows that `get` shows.
use tinydb_cc_comet.Prelude.{
  ℕ, zero, suc, ◌+◌, ◌&&◌, ◌≤◌, ◌<◌, ◌≡◌, ◌≢◌, refl, sym, ap, subst, ◌∙◌, ◌⊎◌, inl, inr, true,
  false, Option, none, some, List, [], ◌∷◌, ◌++◌, arith, ltb, leb, ◌==◌, if◌then◌else◌, Bool-cases,
  Option-cases, length, get_elem?, set, take, length-append, length-set, get_elem?-set_self,
  get_elem?-set_ne, get_elem?_in, get_elem?-lt, get_elem?-append_left, get_elem?-append_end,
  slice-append_end, slice-append_left,
}
use native.Mathlib.Decide.{ℕ_discrete, dec_lt}
use tinydb_cc_comet.Errors.{ok}
use tinydb_cc_comet.Bytes.{Bytes}
use tinydb_cc_comet.SlottedPage.{
  Slot, SlottedPage, max_inline_payload, extend_data, placed, is_tombstone, append_into_data,
  append_slot, find_reusable, insert_at_slot, insert, tombstoned, delete, update_slot, update,
  read_slot, get,
}

-- The slot count is right, and each live slot points into the data area.
pub record IsValid (p : SlottedPage) : Type 0 where
  pub counted : p.num_slots ≡ length p.slots
  pub stored :
      (i : ℕ) (s : Slot)
      → get_elem? p.slots i ≡ some s
      → is_tombstone s ≡ false
      → s.offset + s.size ≤ length p.area

-- The row of slot `i` is `r`, and every other slot shows what it showed before.
pub record Changed (i : ℕ) (r : Option Bytes) (p q : SlottedPage) : Type 0 where
  pub valid : IsValid q
  pub rows : (j : ℕ) → get j q ≡ (if j == i then ok r else get j p)

rows_by_cases :
    (i : ℕ) (r : Option Bytes) (p q : SlottedPage)
    → get i q ≡ ok r
    → ((j : ℕ) → j ≢ i → get j q ≡ get j p)
    → (j : ℕ) → get j q ≡ (if j == i then ok r else get j p)
rows_by_cases i r p q here elsewhere j = elim (ℕ_discrete j i) [
  | yes e ↦ let t : (j == i) ≡ true = ground arith in rw t (ap (λ (k : ℕ). get k q) e ∙ here)
  | no n ↦ let t : (j == i) ≡ false = ground arith in rw t (elsewhere j n)
]

pub get-at :
    (i : ℕ) (p : SlottedPage) (s : Slot)
    → i < p.num_slots
    → get_elem? p.slots i ≡ some s
    → get i p ≡ read_slot s p.area
unfolding get
get-at i p s h e = let t : leb p.num_slots i ≡ false = ground arith in rw (t, e)

pub get-out : (i : ℕ) (p : SlottedPage) → p.num_slots ≤ i → get i p ≡ ok none
unfolding get
get-out i p h = let t : leb p.num_slots i ≡ true = ground arith in rw t

read-placed :
    (row : Bytes) (p : SlottedPage) → read_slot (placed row p) (p.area ++ row) ≡ ok (some row)
unfolding read_slot placed is_tombstone
read-placed row p =
    let t : ltb (length (p.area ++ row)) (length p.area + length row) ≡ false =
      ground (arith, length-append p.area row) in
    rw t (ap (λ (r : Bytes). ok (some r)) (slice-append_end p.area row))

-- More bytes behind the data area change no row that lies in it.
read-append :
    (s : Slot) (area row : Bytes)
    → (is_tombstone s ≡ false → s.offset + s.size ≤ length area)
    → read_slot s (area ++ row) ≡ read_slot s area
unfolding read_slot
read-append s area row h = elim (Bool-cases (is_tombstone s)) [
  | inl dead ↦ rw dead
  | inr live ↦
      let bound = h live in
      let t : ltb (length (area ++ row)) (s.offset + s.size) ≡ false =
        ground (arith, length-append area row, bound) in
      let t' : ltb (length area) (s.offset + s.size) ≡ false = ground (arith, bound) in
      rw (live, t, t')
        (ap (λ (r : Bytes). ok (some r))
          (slice-append_left s.offset (s.offset + s.size) area row (omega arith) bound))
]

-- A slot found for reuse holds no row.
find_reusable-dead :
    (need i k : ℕ) (slots : List Slot)
    → find_reusable need i slots ≡ some k
    → (j : ℕ) × (i + j ≡ k) × (s : Slot) × (get_elem? slots j ≡ some s) × (is_tombstone s ≡ true)
unfolding find_reusable get_elem?
find_reusable-dead need i k [] h = absurd (ground arith)
find_reusable-dead need i k (s ∷ slots) h = elim (Bool-cases (is_tombstone s && leb need s.size)) [
  | inl free ↦ (0, let e = rw free at h in ground arith, s, refl, ground arith)
  | inr taken ↦
      let (j, e, t, found, dead) = find_reusable-dead need (suc i) k slots (rw taken at h) in
      (suc j, omega arith, t, found, dead)
]

get_elem?-of_take :
    (n j : ℕ) (slots : List Slot) (s : Slot)
    → get_elem? (take n slots) j ≡ some s
    → (j < n) × (get_elem? slots j ≡ some s)
unfolding take get_elem?
get_elem?-of_take zero j slots s h = absurd (ground arith)
get_elem?-of_take (suc n) j [] s h = absurd (ground arith)
get_elem?-of_take (suc n) zero (x ∷ slots) s h = (omega arith, h)
get_elem?-of_take (suc n) (suc j) (x ∷ slots) s h =
    let (lt, e) = get_elem?-of_take n j slots s h in (omega arith, e)

read-dead : (s : Slot) (area : Bytes) → is_tombstone s ≡ true → read_slot s area ≡ ok none
unfolding read_slot
read-dead s area dead = rw dead refl

reusable-empty :
    (need i : ℕ) (p : SlottedPage)
    → find_reusable need 0 (take p.num_slots p.slots) ≡ some i
    → (i < p.num_slots) × (get i p ≡ ok none)
reusable-empty need i p h =
    let (j, e, s, found, dead) = find_reusable-dead need 0 i (take p.num_slots p.slots) h in
    let (lt, here) = get_elem?-of_take p.num_slots j p.slots s found in
    let same : j ≡ i = omega arith in
    (
      omega arith,
      ap (λ (k : ℕ). get k p) (sym same) ∙ get-at j p s lt here ∙ read-dead s p.area dead,
    )

-- A slot that is left alone shows the same row, when bytes are only added behind the data area.
same-row :
    (j : ℕ) (row : Bytes) (p q : SlottedPage)
    → IsValid p
    → q.area ≡ p.area ++ row
    → get_elem? q.slots j ≡ get_elem? p.slots j
    → j < p.num_slots
    → j < q.num_slots
    → get j q ≡ get j p
same-row j row p q v grown kept h h' =
    let (s, e) = get_elem?_in p.slots j (omega (arith, v.counted)) in
    get-at j q s h' (kept ∙ e)
    ∙ ap (read_slot s) grown
    ∙ read-append s p.area row (v.stored j s e)
    ∙ sym (get-at j p s h e)

module _ (row : Bytes) (p : SlottedPage) (v : IsValid p) where
  placed-stored :
      (s : Slot) → some (placed row p) ≡ some s → s.offset + s.size ≤ length (p.area ++ row)
  unfolding placed
  placed-stored s e = ground (arith, length-append p.area row)

  old-stored :
      (i : ℕ) (s : Slot)
      → get_elem? p.slots i ≡ some s
      → is_tombstone s ≡ false
      → s.offset + s.size ≤ length (p.area ++ row)
  old-stored i s e live = omega (arith, length-append p.area row, v.stored i s e live)

  reuse-Changed : (k : ℕ) → k < p.num_slots → Changed k (some row) p (append_into_data row k p)
  unfolding append_into_data extend_data
  reuse-Changed k h =
      let in_slots : k < length p.slots = omega (arith, v.counted) in
      let found = get_elem?-set_self p.slots k (placed row p) in_slots in
      record {
        valid = record {
          counted = v.counted ∙ sym (length-set p.slots k (placed row p));
          stored = λ i s e live. elim (ℕ_discrete k i) [
            | yes q ↦
                placed-stored s (sym found ∙ ap (get_elem? (set p.slots k (placed row p))) q ∙ e)
            | no n ↦ old-stored i s (sym (get_elem?-set_ne p.slots k i (placed row p) n) ∙ e) live
          ];
        };
        rows =
            rows_by_cases k (some row) p (append_into_data row k p)
              (get-at k (append_into_data row k p) (placed row p) h found ∙ read-placed row p)
              (λ j n. elim (dec_lt j p.num_slots) [
                | yes lt ↦
                    same-row j row p (append_into_data row k p) v refl
                      (get_elem?-set_ne p.slots k j (placed row p) (λ q. n (sym q))) lt lt
                | no ge ↦
                    get-out j (append_into_data row k p) (omega arith)
                    ∙ sym (get-out j p (omega arith))
              ]);
      }

  append-Changed : Changed p.num_slots (some row) p (append_slot row p)
  unfolding append_slot extend_data
  append-Changed =
      let found : get_elem? (p.slots ++ placed row p ∷ []) p.num_slots ≡ some (placed row p) =
        ap (get_elem? (p.slots ++ placed row p ∷ [])) v.counted
        ∙ get_elem?-append_end p.slots (placed row p) in
      record {
        valid = record {
          counted = omega (arith, v.counted, length-append p.slots (placed row p ∷ []));
          stored = λ i s e live. elim (ℕ_discrete p.num_slots i) [
            | yes q ↦
                placed-stored s (sym found ∙ ap (get_elem? (p.slots ++ placed row p ∷ [])) q ∙ e)
            | no n ↦
                let small : i < length p.slots = omega (
                  arith,
                  v.counted,
                  length-append p.slots (placed row p ∷ []),
                  get_elem?-lt (p.slots ++ placed row p ∷ []) i s e,
                ) in
                old-stored i s (sym (get_elem?-append_left p.slots (placed row p ∷ []) i small) ∙ e)
                  live
          ];
        };
        rows =
            rows_by_cases p.num_slots (some row) p (append_slot row p)
              (get-at p.num_slots (append_slot row p) (placed row p) (omega arith) found
                ∙ read-placed row p)
              (λ j n. elim (dec_lt j p.num_slots) [
                | yes lt ↦
                    same-row j row p (append_slot row p) v refl
                      (get_elem?-append_left p.slots (placed row p ∷ []) j
                        (omega (arith, v.counted)))
                      lt (omega arith)
                | no ge ↦
                    get-out j (append_slot row p) (omega arith) ∙ sym (get-out j p (omega arith))
              ]);
      }

-- A successful `insert` reuses a slot or appends one.
at_slot_cases :
    (row : Bytes) (p : SlottedPage) (o : Option ℕ) (i : ℕ) (q : SlottedPage)
    → insert_at_slot row p o ≡ ok (i, q)
    → ((o ≡ some i) × (append_into_data row i p ≡ q))
      ⊎ ((p.num_slots ≡ i) × (append_slot row p ≡ q))
unfolding insert_at_slot
at_slot_cases row p (some k) i q h = inl (ground arith, ground arith)
at_slot_cases row p none i q h = inr (ground arith, ground arith)

insert_cases :
    (row : Bytes) (p : SlottedPage) (i : ℕ) (q : SlottedPage)
    → insert row p ≡ ok (i, q)
    → ((find_reusable (length row) 0 (take p.num_slots p.slots) ≡ some i)
        × (append_into_data row i p ≡ q))
      ⊎ ((p.num_slots ≡ i) × (append_slot row p ≡ q))
unfolding insert
insert_cases row p i q h = elim (Bool-cases (ltb max_inline_payload (length row))) [
  | inl long ↦ absurd (ground arith)
  | inr short ↦ at_slot_cases row p _ i q (rw short at h)
]

-- On a valid page a successful `insert` stores the row in the slot that it returns, which held no
-- row before, keeps the page valid and changes no other row.
pub insert-Changed :
    (row : Bytes) (p : SlottedPage) (i : ℕ) (q : SlottedPage)
    → IsValid p
    → insert row p ≡ ok (i, q)
    → (get i p ≡ ok none) × Changed i (some row) p q
insert-Changed row p i q v h = elim (insert_cases row p i q h) [
  | inl (found, e) ↦
      let (lt, empty) = reusable-empty (length row) i p found in
      (empty, subst (Changed i (some row) p) e (reuse-Changed row p v i lt))
  | inr (n, e) ↦ (
    get-out i p (omega arith),
    subst (Changed i (some row) p) e
        (subst (λ k. Changed k (some row) p (append_slot row p)) n (append-Changed row p v)),
  )
]

update_slot-eq :
    (s : Slot) (i : ℕ) (row : Bytes) (p q : SlottedPage)
    → update_slot s i row p ≡ ok q
    → append_into_data row i p ≡ q
unfolding update_slot
update_slot-eq s i row p q h = ground arith

-- On a valid page a successful `update` replaces the row of its slot, keeps the page valid and
-- changes no other row.
pub update-Changed :
    (i : ℕ) (row : Bytes) (p q : SlottedPage)
    → IsValid p
    → update i row p ≡ ok q
    → Changed i (some row) p q
unfolding update
update-Changed i row p q v h = elim (Option-cases (get_elem? p.slots i)) [
  | inl missing ↦ absurd (ground arith)
  | inr (s, e) ↦
      let in_range : i < p.num_slots = ground arith in
      subst (Changed i (some row) p) (update_slot-eq s i row p q (ground arith))
        (reuse-Changed row p v i in_range)
]

read-tombstoned : (s : Slot) (area : Bytes) → read_slot (tombstoned s) area ≡ ok none
unfolding read_slot is_tombstone
read-tombstoned s area = refl

dead-tombstoned : (s t : Slot) → some (tombstoned s) ≡ some t → is_tombstone t ≡ false → ⊥
unfolding is_tombstone
dead-tombstoned s t e live = ground arith

module _ (i : ℕ) (p : SlottedPage) (v : IsValid p) (s : Slot)
    (e : get_elem? p.slots i ≡ some s) where
  abbrev deleted : SlottedPage
  deleted = record p { slots = set p.slots i (tombstoned s) }

  found_dead : get_elem? deleted.slots i ≡ some (tombstoned s)
  found_dead = get_elem?-set_self p.slots i (tombstoned s) (get_elem?-lt p.slots i s e)

  kept_slot : (j : ℕ) → j ≢ i → get_elem? deleted.slots j ≡ get_elem? p.slots j
  kept_slot j n = get_elem?-set_ne p.slots i j (tombstoned s) (λ q. n (sym q))

  deleted-Changed : Changed i none p deleted
  deleted-Changed = record {
    valid = record {
      counted = v.counted ∙ sym (length-set p.slots i (tombstoned s));
      stored = λ j t f live. elim (ℕ_discrete j i) [
        | yes q ↦
            absurd
              (dead-tombstoned s t (sym found_dead ∙ ap (get_elem? deleted.slots) (sym q) ∙ f) live)
        | no n ↦ v.stored j t (sym (kept_slot j n) ∙ f) live
      ];
    };
    rows =
        rows_by_cases i none p deleted
          (get-at i deleted (tombstoned s) (omega (arith, v.counted, get_elem?-lt p.slots i s e))
              found_dead
            ∙ read-tombstoned s p.area)
          (λ j n. elim (dec_lt j p.num_slots) [
            | yes lt ↦
                let (t, f) = get_elem?_in p.slots j (omega (arith, v.counted)) in
                get-at j deleted t lt (kept_slot j n ∙ f) ∙ sym (get-at j p t lt f)
            | no ge ↦ get-out j deleted (omega arith) ∙ sym (get-out j p (omega arith))
          ]);
  }

-- On a valid page `delete` of a slot that is there succeeds, leaves `get` nothing in it, keeps the
-- page valid and changes no other row.
pub delete-Changed :
    (i : ℕ) (p : SlottedPage)
    → IsValid p
    → i < p.num_slots
    → (q : SlottedPage) × (delete i p ≡ ok q) × Changed i none p q
unfolding delete
delete-Changed i p v h =
    let (s, e) = get_elem?_in p.slots i (omega (arith, v.counted)) in
    let t : leb p.num_slots i ≡ false = ground arith in
    (deleted i p v s e, rw (t, e), deleted-Changed i p v s e)
