-- ===== src/SlottedPage/Room.antt =====
-- What the test of `insert` on the free space guarantees, and what it lets through.
use tinydb_cc_comet.Prelude.{
  ℕ, ◌+◌, ◌-◌, ◌*◌, ◌≤◌, ◌<◌, ◌≡◌, false, none, List, [], ◌∷◌, ◌++◌, arith, ltb, length,
  length-append, take,
}
use tinydb_cc_comet.Prelude.Int.{◌-ℤ◌, sub_ℕ-sub}
use tinydb_cc_comet.Errors.{ok}
use tinydb_cc_comet.Bytes.{Bytes}
use tinydb_cc_comet.SlottedPage.{
  Slot, SlottedPage, page_size, header_size, slot_size, max_slots, max_inline_payload, free_space,
  find_reusable, placed, extend_data, append_slot, is_full, insert_at_slot, insert,
}
use tinydb_cc_comet.SlottedPage.Image.{SlotFits, AllFit, Fits}

-- The bytes that the directory and the data area take together
abbrev pub used : SlottedPage → ℕ
used p = header_size + p.num_slots * slot_size + length p.area

-- On a page that fits, `is_full` is its two comparisons over natural numbers.
is_full_lem :
    (row : Bytes) (p : SlottedPage)
    → Fits p
    → p.num_slots < max_slots
    → used p + length row ≤ page_size - 2
    → is_full row p ≡ false
unfolding is_full free_space ◌-ℤ◌
is_full_lem row p f few h = rw f.data_offset_lem (ground (arith, f.room))

module _ (row : Bytes) (p : SlottedPage) (f : Fits p) (few : p.num_slots < max_slots)
    (fresh : find_reusable (length row) 0 (take p.num_slots p.slots) ≡ none)
    (fits : used p + length row ≤ page_size - 2) where
  insert-fresh : insert row p ≡ ok (p.num_slots, append_slot row p)
  unfolding insert insert_at_slot
  insert-fresh =
      let t : ltb max_inline_payload (length row) ≡ false = ground arith in
      rw (t, fresh, is_full_lem row p f few fits)

  -- A fresh slot for a row that fills all but the last five free bytes, or less, is granted, and
  -- its directory entry then runs into the data area.
  pub insert-overlaps :
      page_size - 2 < used p + length row + slot_size
      → (q : SlottedPage) × (insert row p ≡ ok (p.num_slots, q)) × (page_size - 2 < used q)
  unfolding append_slot extend_data
  insert-overlaps tight = (append_slot row p, insert-fresh, omega (arith, length-append p.area row))

AllFit-append :
    (slots : List Slot) (s : Slot) → AllFit slots → SlotFits s → AllFit (slots ++ s ∷ [])
AllFit-append [] s fs f = (f, tt)
AllFit-append (x ∷ slots) s (g, fs) f = (g, AllFit-append slots s fs f)

module _ (row : Bytes) (p : SlottedPage) (f : Fits p) (few : p.num_slots < max_slots)
    (fresh : find_reusable (length row) 0 (take p.num_slots p.slots) ≡ none)
    (roomy : used p + length row + slot_size ≤ page_size - 2) where
  -- With six more bytes free than the row takes, a fresh slot is granted and the page still fits.
  pub insert-Fits : (q : SlottedPage) × (insert row p ≡ ok (p.num_slots, q)) × Fits q
  unfolding append_slot extend_data placed
  insert-Fits = (
    append_slot row p,
    insert-fresh row p f few fresh (omega arith),
    record {
      counted = omega (arith, f.counted, length-append p.slots (placed row p ∷ []));
      room = omega (arith, length-append p.area row);
      few = omega arith;
      free_fits = omega arith;
      next_fits = f.next_fits;
      slots_fit = AllFit-append p.slots (placed row p) f.slots_fit (omega arith);
      data_offset_lem =
          rw (f.data_offset_lem, length-append p.area row)
            (sub_ℕ-sub (page_size - 2) (length p.area) (length row));
    },
  )
