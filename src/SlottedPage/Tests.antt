-- ===== src/SlottedPage/Tests.antt =====
-- The page theorems at small pages: one row, a page with a free slot, and a page that is nearly full.
use tinydb_cc_comet.Prelude.{
  ℕ, zero, suc, false, sym, ap, take, ◌+◌, ◌-◌, ◌≤◌, ◌<◌, ◌≡◌, refl, ◌↔◌, none, some, [], ◌∷◌,
  arith, length, length-replicate, get_elem?, replicate,
}
use tinydb_cc_comet.Prelude.Int.{sub_ℕ, ◌-ℤ◌}
use tinydb_cc_comet.Errors.{ok}
use tinydb_cc_comet.Bytes.{Bytes}
use tinydb_cc_comet.SlottedPage.{
  Slot, SlottedPage, page_size, null_page_id, is_tombstone, find_reusable, insert_at_slot, is_full,
  free_space, update_slot, append_slot, append_into_data, insert, delete, update, get, to_bytes,
  from_bytes,
}
use tinydb_cc_comet.SlottedPage.Image.{Fits, from_bytes-to_bytes}
use tinydb_cc_comet.SlottedPage.Rows.{
  IsValid, Changed, insert-Changed, update-Changed, delete-Changed,
}
use tinydb_cc_comet.SlottedPage.Room.{used, insert-overlaps, insert-Fits}
use tinydb_cc_comet.SlottedPage.Updates.{update-ok_iff}

abbrev slot_of : ℕ → Slot
slot_of n = record { offset = 0; size = n; flags = 0 }

-- One row of `n` bytes
abbrev page_of : ℕ → SlottedPage
page_of n = record {
  page_id = 2;
  num_slots = 1;
  free_offset = 22;
  overflow_next = null_page_id;
  slots = slot_of n ∷ [];
  area = replicate n 7;
  data_offset = sub_ℕ 4094 n;
}

abbrev small : SlottedPage
small = page_of 2

page_of-Fits : (n : ℕ) → n ≤ 4072 → Fits (page_of n)
page_of-Fits n h = record {
  counted = refl;
  room = omega (arith, length-replicate {A = ℕ} n 7);
  few = omega arith;
  free_fits = omega arith;
  next_fits = omega arith;
  slots_fit =
      (record { offset_fits = omega arith; size_fits = omega arith; flags_fit = omega arith }, tt);
  data_offset_lem = ap (sub_ℕ 4094) (sym (length-replicate {A = ℕ} n 7));
}

one_stored : (i : ℕ) (s : Slot) → get_elem? small.slots i ≡ some s → s.offset + s.size ≤ 2
unfolding get_elem?
one_stored zero s e = ground arith
one_stored (suc i) s e = absurd (ground arith)

small-IsValid : IsValid small
unfolding replicate
small-IsValid = record { counted = refl; stored = λ i s e live. one_stored i s e }

abbrev row : Bytes
row = 8 ∷ 9 ∷ []

insert-small : insert row small ≡ ok (1, append_slot row small)
unfolding insert insert_at_slot find_reusable is_tombstone is_full free_space take ◌-ℤ◌
insert-small = refl

update-small : update 0 row small ≡ ok (append_into_data row 0 small)
unfolding update update_slot is_tombstone get_elem?
update-small = refl

fresh : (n m : ℕ) → find_reusable n 0 (take 1 ((page_of m).slots)) ≡ none
unfolding find_reusable is_tombstone take
fresh n m = refl

live : (n : ℕ) → is_tombstone (slot_of n) ≡ false
unfolding is_tombstone
live n = refl

from_bytes-to_bytes_example :
    (raw : Bytes) × (to_bytes small ≡ ok raw)
    × (length raw ≡ page_size)
    × (from_bytes 2 raw ≡ ok small)
from_bytes-to_bytes_example = from_bytes-to_bytes small (page_of-Fits 2 (omega arith))

insert-Changed_example :
    (get 1 small ≡ ok none) × Changed 1 (some row) small (append_slot row small)
insert-Changed_example =
    insert-Changed row small 1 (append_slot row small) small-IsValid insert-small

update-Changed_example : Changed 0 (some row) small (append_into_data row 0 small)
update-Changed_example =
    update-Changed 0 row small (append_into_data row 0 small) small-IsValid update-small

delete-Changed_example : (q : SlottedPage) × (delete 0 small ≡ ok q) × Changed 0 none small q
delete-Changed_example = delete-Changed 0 small small-IsValid (omega arith)

update-ok_iff_example :
    ((q : SlottedPage) × (update 0 row small ≡ ok q))
    ↔ ((old : Bytes) × (get 0 small ≡ ok (some old)) × (length row ≤ length old))
update-ok_iff_example = update-ok_iff 0 row small small-IsValid

-- One row of 4064 bytes leaves eight bytes free: a row of four is granted, two past the directory.
insert-overlaps_example :
    (q : SlottedPage) × (insert (replicate 4 1) (page_of 4064) ≡ ok (1, q))
    × (page_size - 2 < used q)
insert-overlaps_example =
    insert-overlaps (replicate 4 1) (page_of 4064) (page_of-Fits 4064 (omega arith)) (omega arith)
      (fresh (length (replicate 4 1)) 4064)
      (omega (arith, length-replicate {A = ℕ} 4064 7, length-replicate {A = ℕ} 4 1))
      (omega (arith, length-replicate {A = ℕ} 4064 7, length-replicate {A = ℕ} 4 1))

insert-Fits_example : (q : SlottedPage) × (insert row (page_of 4060) ≡ ok (1, q)) × Fits q
insert-Fits_example =
    insert-Fits row (page_of 4060) (page_of-Fits 4060 (omega arith)) (omega arith) (fresh 2 4060)
      (omega (arith, length-replicate {A = ℕ} 4060 7))
