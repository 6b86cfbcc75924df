-- ===== src/SlottedPage/Updates.antt =====
-- When `update` of slotted_page.py succeeds, and what repeated updates do to the data area.
use native.Mathlib.Decide.{dec_lt}
use tinydb_cc_comet.Prelude.{
  ℕ, zero, suc, ◌+◌, ◌≤◌, ◌<◌, ◌≡◌, refl, sym, ap, ◌∙◌, ◌↔◌, inl, inr, true, false, some, arith,
  ltb, leb, ◌==◌, Bool-cases, Option-cases, length, get_elem?, slice, length-slice,
}
use tinydb_cc_comet.Errors.{Result, ok, ◌>>=◌}
use tinydb_cc_comet.Bytes.{Bytes}
use tinydb_cc_comet.SlottedPage.{
  Slot, SlottedPage, is_tombstone, append_into_data, update_slot, update, read_slot, get,
}
use tinydb_cc_comet.SlottedPage.Rows.{IsValid, Changed, get-at, get-out}

-- What a slot that shows a row holds
record Shows (i : ℕ) (old : Bytes) (p : SlottedPage) : Type 0 where
  in_range : i < p.num_slots
  slot : Slot
  found : get_elem? p.slots i ≡ some slot
  live : is_tombstone slot ≡ false
  size_lem : length old ≡ slot.size

shows_read :
    (s : Slot) (area old : Bytes)
    → read_slot s area ≡ ok (some old)
    → (is_tombstone s ≡ false) × (length old ≡ s.size)
unfolding read_slot
shows_read s area old h = elim (Bool-cases (is_tombstone s)) [
  | inl dead ↦ absurd (let k = rw dead at h in ground arith)
  | inr live ↦ elim (Bool-cases (ltb (length area) (s.offset + s.size))) [
    | inl out ↦ absurd (let k = rw (live, out) at h in ground arith)
    | inr within ↦
        let k = rw (live, within) at h in
        let e : slice s.offset (s.offset + s.size) area ≡ old = ground arith in
        (
          live,
          ap length (sym e)
              ∙ length-slice s.offset (s.offset + s.size) area (ground arith)
              ∙ omega arith,
        )
  ]
]

get-Shows : (i : ℕ) (old : Bytes) (p : SlottedPage) → get i p ≡ ok (some old) → Shows i old p
get-Shows i old p h = elim (dec_lt i p.num_slots) [
  | no out ↦ absurd (let k = sym (get-out i p (omega arith)) ∙ h in ground arith)
  | yes lt ↦ elim (Option-cases (get_elem? p.slots i)) [
    | inl missing ↦ absurd (
        unfold get in
        (let t : leb p.num_slots i ≡ false = ground arith in
          let k = rw (t, missing) at h in ground arith))
    | inr (s, e) ↦
        let (live, size) = shows_read s p.area old (sym (get-at i p s lt e) ∙ h) in
        record { in_range = lt; slot = s; found = e; live = live; size_lem = size }
  ]
]

update-short :
    (i : ℕ) (row old : Bytes) (p : SlottedPage)
    → Shows i old p
    → length row ≤ length old
    → update i row p ≡ ok (append_into_data row i p)
unfolding update update_slot
update-short i row old p o short =
    let t : leb p.num_slots i ≡ false = ground (arith, o.in_range) in
    let t' : ltb o.slot.size (length row) ≡ false = ground (arith, o.size_lem) in
    rw (t, o.found, o.live, t')

update-shown :
    (i : ℕ) (row : Bytes) (p q : SlottedPage)
    → IsValid p
    → update i row p ≡ ok q
    → (old : Bytes) × (get i p ≡ ok (some old)) × (length row ≤ length old)
unfolding update update_slot
update-shown i row p q v h = elim (Option-cases (get_elem? p.slots i)) [
  | inl missing ↦ absurd (ground arith)
  | inr (s, e) ↦
      let in_range : i < p.num_slots = ground arith in
      let t : leb p.num_slots i ≡ false = ground arith in
      let k = rw (t, e) at h in
      let live : is_tombstone s ≡ false = ground arith in
      let short : length row ≤ s.size = ground arith in
      let bound = v.stored i s e live in
      let t' : ltb (length p.area) (s.offset + s.size) ≡ false = ground arith in
      (
        slice s.offset (s.offset + s.size) p.area,
        get-at i p s in_range e ∙ (unfold read_slot in rw (live, t') refl),
        omega (arith, length-slice s.offset (s.offset + s.size) p.area bound),
      )
]

-- On a valid page `update` succeeds exactly when the slot shows a row and the new one is no longer.
pub update-ok_iff :
    (i : ℕ) (row : Bytes) (p : SlottedPage)
    → IsValid p
    → ((q : SlottedPage) × (update i row p ≡ ok q))
      ↔ ((old : Bytes) × (get i p ≡ ok (some old)) × (length row ≤ length old))
update-ok_iff i row p v = (
  λ (q, h). update-shown i row p q v h,
  λ (old, shown, short).
      (append_into_data row i p, update-short i row old p (get-Shows i old p shown) short),
)

-- A row is no longer than itself.
pub update-again :
    (i : ℕ) (row : Bytes) (p : SlottedPage)
    → get i p ≡ ok (some row)
    → update i row p ≡ ok (append_into_data row i p)
update-again i row p h = update-short i row row p (get-Shows i row p h) (omega arith)

pub Changed-shows :
    (i : ℕ) (row : Bytes) (p q : SlottedPage) → Changed i (some row) p q → get i q ≡ ok (some row)
Changed-shows i row p q c = let t : (i == i) ≡ true = ground arith in rw t at (c.rows i)

-- The same update, `n` times
unfoldable pub updates : ℕ → ℕ → Bytes → SlottedPage → Result SlottedPage
updates zero i row p = ok p
updates (suc n) i row p = update i row p >>= λ q. updates n i row q
