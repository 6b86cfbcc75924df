-- ===== src/SlottedPage/Image.antt =====
-- The page image of slotted_page.py: `to_bytes` and `from_bytes`.
use tinydb_cc_comet.Prelude.{
  ℕ, zero, suc, ◌+◌, ◌-◌, ◌*◌, ◌^◌, ◌≤◌, ◌<◌, ◌≡◌, refl, sym, ap, ap₂, subst, ◌∙◌, List, [], ◌∷◌,
  arith, true, ltb, leb, ◌==◌, take, lt→ltb, length, get_or, set, slice, set_slice, length-set,
  length-replicate, get_or-set_self, slice-set_slice_self,
}
use tinydb_cc_comet.Prelude.Int.{sub_ℕ}
use tinydb_cc_comet.Prelude.Region.{
  SameOutside, SameOutside-refl, SameOutside-trans, SameOutside-set_slice,
}
use tinydb_cc_comet.Errors.{ok}
use tinydb_cc_comet.Bytes.{
  Bytes, to_be, int_from_bytes, length-to_be, int_from_bytes-to_be, int_to_bytes-ok,
}
use tinydb_cc_comet.SlottedPage.{
  Slot, SlottedPage, page_size, header_size, slot_size, slot_base, byte, zero_page, put_slot,
  put_slots, put_data, to_bytes, take_slot, take_slots, take_data, from_bytes,
}

-- Each field of a slot fits the two bytes that it is stored in.
pub record SlotFits (s : Slot) : Type 0 where
  pub offset_fits : s.offset < 65536
  pub size_fits : s.size < 65536
  pub flags_fit : s.flags < 65536

abbrev pub AllFit : List Slot → Type 0
AllFit [] = Unit
AllFit (s ∷ slots) = SlotFits s × AllFit slots

-- The directory and the data area stand apart within the page, and the header fields fit.
pub record Fits (p : SlottedPage) : Type 0 where
  pub counted : p.num_slots ≡ length p.slots
  pub room : header_size + p.num_slots * slot_size + length p.area ≤ page_size - 2
  pub few : p.num_slots < 256
  pub free_fits : p.free_offset < 65536
  pub next_fits : p.overflow_next < 256 ^ 4
  pub slots_fit : AllFit p.slots
  pub data_offset_lem : p.data_offset ≡ sub_ℕ (page_size - 2) (length p.area)

-- A field written by `int_to_bytes` is read back from its place.
field_read :
    (i j w n : ℕ) (buf : Bytes)
    → i + w ≡ j
    → j ≤ length buf
    → n < 256 ^ w
    → int_from_bytes (slice i j (set_slice i j (to_be w n) buf)) ≡ n
field_read i j w n buf e h k =
    rw (slice-set_slice_self i j (to_be w n) buf (omega (arith, length-to_be w n)) h)
      (int_from_bytes-to_be w n k)

field_same :
    (i j w n : ℕ) (buf : Bytes)
    → i + w ≡ j
    → j ≤ length buf
    → SameOutside i j buf (set_slice i j (to_be w n) buf)
field_same i j w n buf e h =
    SameOutside-set_slice i j (to_be w n) buf (omega (arith, length-to_be w n)) h

-- What one round of the loop over the slots writes.
pub record Wrote (base : ℕ) (s : Slot) (buf out : Bytes) : Type 0 where
  pub outside : SameOutside base (base + 6) buf out
  pub read : take_slot base out ≡ s

module _ (base : ℕ) (s : Slot) (buf : Bytes) (h : base + 6 ≤ length buf) (f : SlotFits s) where
  abbrev one : Bytes
  one = set_slice base (base + 2) (to_be 2 s.offset) buf

  abbrev two : Bytes
  two = set_slice (base + 2) (base + 4) (to_be 2 s.size) one

  abbrev three : Bytes
  three = set_slice (base + 4) (base + 6) (to_be 2 s.flags) two

  same_one : SameOutside base (base + 2) buf one
  same_one = field_same base (base + 2) 2 s.offset buf (omega arith) (omega arith)

  same_two : SameOutside (base + 2) (base + 4) one two
  same_two =
      field_same (base + 2) (base + 4) 2 s.size one (omega arith)
        (omega (arith, same_one.same_length))

  same_three : SameOutside (base + 4) (base + 6) two three
  same_three =
      field_same (base + 4) (base + 6) 2 s.flags two (omega arith)
        (omega (arith, same_one.same_length, same_two.same_length))

  offset_read : int_from_bytes (slice base (base + 2) three) ≡ s.offset
  offset_read =
      ap int_from_bytes (
        same_three.before base (base + 2) (omega arith) (omega arith)
        ∙ same_two.before base (base + 2) (omega arith) (omega arith))
      ∙ field_read base (base + 2) 2 s.offset buf (omega arith) (omega arith) f.offset_fits

  size_read : int_from_bytes (slice (base + 2) (base + 4) three) ≡ s.size
  size_read =
      ap int_from_bytes (same_three.before (base + 2) (base + 4) (omega arith) (omega arith))
      ∙ field_read (base + 2) (base + 4) 2 s.size one (omega arith)
          (omega (arith, same_one.same_length)) f.size_fits

  flags_read : int_from_bytes (slice (base + 4) (base + 6) three) ≡ s.flags
  flags_read =
      field_read (base + 4) (base + 6) 2 s.flags two (omega arith)
        (omega (arith, same_one.same_length, same_two.same_length)) f.flags_fit

  three-Wrote : Wrote base s buf three
  unfolding take_slot
  three-Wrote = record {
    outside =
        SameOutside-trans
          (SameOutside-trans {lo = base} {hi = base + 4} same_one same_two (omega arith)
            (omega arith) (omega arith) (omega arith))
          same_three (omega arith) (omega arith) (omega arith) (omega arith);
    read = λ i. record { offset = offset_read i; size = size_read i; flags = flags_read i };
  }

  put_slot-three : put_slot base s buf ≡ ok three
  unfolding put_slot
  put_slot-three = rw (
    int_to_bytes-ok 2 s.offset f.offset_fits,
    int_to_bytes-ok 2 s.size f.size_fits,
    int_to_bytes-ok 2 s.flags f.flags_fit,
  )

-- The loop over the slots writes the directory, from which `take_slots` reads them back.
pub record WroteAll (lo hi n i : ℕ) (slots : List Slot) (buf out : Bytes) : Type 0 where
  pub outside : SameOutside lo hi buf out
  pub read : take_slots n i out ≡ slots

take_slot-same :
    (lo hi base : ℕ) (xs ys : Bytes)
    → SameOutside lo hi xs ys
    → base + 6 ≤ lo
    → take_slot base ys ≡ take_slot base xs
unfolding take_slot
take_slot-same lo hi base xs ys s h = λ i. record {
  offset = int_from_bytes (s.before base (base + 2) (omega arith) (omega arith) i);
  size = int_from_bytes (s.before (base + 2) (base + 4) (omega arith) (omega arith) i);
  flags = int_from_bytes (s.before (base + 4) (base + 6) (omega arith) (omega arith) i);
}

put_slots-WroteAll :
    (slots : List Slot) (i : ℕ) (buf : Bytes)
    → AllFit slots
    → slot_base (i + length slots) ≤ length buf
    → (out : Bytes) × (put_slots (length slots) i slots buf ≡ ok out)
      × WroteAll (slot_base i) (slot_base (i + length slots)) (length slots) i slots buf out
unfolding put_slots take_slots
put_slots-WroteAll [] i buf f h =
    (buf, refl, record { outside = SameOutside-refl _ _ buf; read = refl })
put_slots-WroteAll (s ∷ slots) i buf (f, fs) h =
    let buf' = three (slot_base i) s buf (omega arith) f in
    let w = three-Wrote (slot_base i) s buf (omega arith) f in
    let (out, e, rest) =
      put_slots-WroteAll slots (i + 1) buf' fs (omega (arith, w.outside.same_length)) in
    (
      out,
      rw (put_slot-three (slot_base i) s buf (omega arith) f) e,
      record {
        outside =
            SameOutside-trans w.outside rest.outside (omega arith) (omega arith) (omega arith)
              (omega arith);
        read = λ k.
            (take_slot-same _ _ (slot_base i) buf' out rest.outside (omega arith) ∙ w.read) k
            ∷ rest.read k;
      },
    )

-- The same for a count that is known to be the number of slots.
put_slots_counted :
    (n : ℕ) (slots : List Slot) (buf : Bytes)
    → n ≡ length slots
    → AllFit slots
    → slot_base n ≤ length buf
    → (out : Bytes) × (put_slots n 0 slots buf ≡ ok out)
      × WroteAll 16 (slot_base n) n 0 slots buf out
put_slots_counted n slots buf e f h =
    subst
      (λ k.
        slot_base k ≤ length buf
        → (out : Bytes) × (put_slots k 0 slots buf ≡ ok out)
          × WroteAll 16 (slot_base k) k 0 slots buf out)
      (sym e)
      (λ g.
        let (out, q, w) = put_slots-WroteAll slots 0 buf f (omega arith) in
        (
          out,
          q,
          record {
            outside =
                SameOutside-trans w.outside (SameOutside-refl 16 16 out) (omega arith) (omega arith)
                  (omega arith) (omega arith);
            read = w.read;
          },
        ))
      h

-- The data area lies in front of the last two bytes, also where it is empty.
pub record Placed (area buf out : Bytes) : Type 0 where
  pub outside : SameOutside (page_size - 2 - length area) (page_size - 2) buf out
  pub read : take_data (length area) out ≡ area

put_data-Placed :
    (area buf : Bytes)
    → length area ≤ page_size - 2
    → length buf ≡ page_size
    → Placed area buf (put_data area buf)
unfolding put_data take_data slice take
put_data-Placed [] buf h e = record { outside = SameOutside-refl 4094 4094 buf; read = refl }
put_data-Placed (x ∷ xs) buf h e =
    let t : leb (length (x ∷ xs)) (page_size - 2) ≡ true = ground arith in
    let t₀ : ltb 0 (length (x ∷ xs)) ≡ true = ground arith in
    rw (t, t₀)
      (record {
        outside =
            SameOutside-set_slice (page_size - 2 - length (x ∷ xs)) (page_size - 2) (x ∷ xs) buf
              (omega arith) (omega arith);
        read = rw t (
            slice-set_slice_self (page_size - 2 - length (x ∷ xs)) (page_size - 2) (x ∷ xs) buf
              (omega arith) (omega arith));
      })

-- The header that `to_bytes` starts from.
module _ (p : SlottedPage) (f : Fits p) where
  abbrev first : Bytes
  first = set (set zero_page 0 1) 1 p.num_slots

  length-first : length first ≡ 4096
  unfolding zero_page
  length-first =
      length-set (set zero_page 0 1) 1 p.num_slots
      ∙ length-set zero_page 0 1
      ∙ length-replicate page_size 0

  count_first : get_or first 1 0 ≡ p.num_slots
  unfolding zero_page
  count_first =
      get_or-set_self (set zero_page 0 1) 1 p.num_slots 0
        (omega (arith, length-set zero_page 0 1, length-replicate {A = ℕ} page_size 0))

  abbrev second : Bytes
  second = set_slice 2 4 (to_be 2 p.free_offset) first

  same_second : SameOutside 2 4 first second
  same_second = field_same 2 4 2 p.free_offset first (omega arith) (omega (arith, length-first))

  abbrev header : Bytes
  header = set_slice 4 8 (to_be 4 p.overflow_next) second

  same_header : SameOutside 4 8 second header
  same_header =
      field_same 4 8 4 p.overflow_next second (omega arith)
        (omega (arith, length-first, same_second.same_length))

  length-header : length header ≡ 4096
  length-header = same_header.same_length ∙ same_second.same_length ∙ length-first

  directory :
      (out : Bytes) × (put_slots p.num_slots 0 p.slots header ≡ ok out)
      × WroteAll 16 (slot_base p.num_slots) p.num_slots 0 p.slots header out
  directory =
      put_slots_counted p.num_slots p.slots header f.counted f.slots_fit
        (omega (arith, length-header, f.room))

take_slots-same :
    (n i lo hi : ℕ) (xs ys : Bytes)
    → SameOutside lo hi xs ys
    → slot_base (i + n) ≤ lo
    → take_slots n i ys ≡ take_slots n i xs
unfolding take_slots
take_slots-same zero i lo hi xs ys s h = refl
take_slots-same (suc n) i lo hi xs ys s h =
    ap₂ ◌∷◌ (take_slot-same lo hi (slot_base i) xs ys s (omega arith))
      (take_slots-same n (i + 1) lo hi xs ys s (omega arith))

take_data-same :
    (n : ℕ) (xs ys : Bytes)
    → n ≤ page_size - 2
    → SameOutside (page_size - 2) page_size xs ys
    → take_data n ys ≡ take_data n xs
unfolding take_data
take_data-same n xs ys h s =
    let t : leb n (page_size - 2) ≡ true = ground arith in
    rw t (s.before (page_size - 2 - n) (page_size - 2) (omega arith) (omega arith))

-- What `from_bytes` reads, field by field.
from_bytes_fields :
    (p : SlottedPage) (raw : Bytes)
    → length raw ≡ page_size
    → get_or raw 1 0 ≡ p.num_slots
    → int_from_bytes (slice 2 4 raw) ≡ p.free_offset
    → int_from_bytes (slice 4 8 raw) ≡ p.overflow_next
    → take_slots p.num_slots 0 raw ≡ p.slots
    → int_from_bytes (slice (page_size - 2) page_size raw) ≡ length p.area
    → take_data (length p.area) raw ≡ p.area
    → p.data_offset ≡ sub_ℕ (page_size - 2) (length p.area)
    → from_bytes p.page_id raw ≡ ok p
unfolding from_bytes
from_bytes_fields p raw size count free next slots len area offset =
    let t : (length raw == page_size) ≡ true = ground arith in
    let area' : take_data (int_from_bytes (slice (page_size - 2) page_size raw)) raw ≡ p.area =
      ap (λ (k : ℕ). take_data k raw) len ∙ area in
    rw t (λ i. ok (record {
      page_id = p.page_id;
      num_slots = count i;
      free_offset = free i;
      overflow_next = next i;
      slots = (ap (λ (k : ℕ). take_slots k 0 raw) count ∙ slots) i;
      area = area' i;
      data_offset = (ap (λ (xs : Bytes). sub_ℕ (page_size - 2) (length xs)) area' ∙ sym offset) i;
    }))

module _ (p : SlottedPage) (f : Fits p) (out : Bytes)
    (w : WroteAll 16 (slot_base p.num_slots) p.num_slots 0 p.slots (header p f) out) where
  small : length p.area ≤ page_size - 2
  small = omega (arith, f.room)

  length-out : length out ≡ page_size
  length-out = w.outside.same_length ∙ length-header p f

  data_region : Placed p.area out (put_data p.area out)
  data_region = put_data-Placed p.area out small length-out

  length-data : length (put_data p.area out) ≡ page_size
  length-data = data_region.outside.same_length ∙ length-out

  abbrev image : Bytes
  image = set_slice (page_size - 2) page_size (to_be 2 (length p.area)) (put_data p.area out)

  same_image : SameOutside (page_size - 2) page_size (put_data p.area out) image
  same_image =
      field_same (page_size - 2) page_size 2 (length p.area) _ refl (omega (arith, length-data))

  -- Everything behind the directory leaves the header and the directory alone.
  tail_same : SameOutside (slot_base p.num_slots) page_size out image
  tail_same =
      SameOutside-trans data_region.outside same_image (omega (arith, f.room))
        (omega (arith, f.room)) (omega arith) (omega arith)

  behind_header : SameOutside 16 page_size (header p f) image
  behind_header =
      SameOutside-trans w.outside tail_same (omega arith) (omega arith) (omega (arith, f.room))
        (omega arith)

  from_bytes-image : from_bytes p.page_id image ≡ ok p
  from_bytes-image =
      from_bytes_fields p image (same_image.same_length ∙ length-data)
        (behind_header.at 1 0 (omega arith)
          ∙ (same_header p f).at 1 0 (omega arith)
          ∙ (same_second p f).at 1 0 (omega arith)
          ∙ count_first p f)
        (ap int_from_bytes (
            behind_header.before 2 4 (omega arith) (omega arith)
            ∙ (same_header p f).before 2 4 (omega arith) (omega arith))
          ∙ field_read 2 4 2 p.free_offset (first p f) refl (omega (arith, length-first p f))
              f.free_fits)
        (ap int_from_bytes (behind_header.before 4 8 (omega arith) (omega arith))
          ∙ field_read 4 8 4 p.overflow_next (second p f) refl
              (omega (arith, length-first p f, (same_second p f).same_length)) f.next_fits)
        (take_slots-same p.num_slots 0 (slot_base p.num_slots) page_size out image tail_same
            (omega arith)
          ∙ w.read)
        (field_read (page_size - 2) page_size 2 (length p.area) (put_data p.area out) refl
          (omega (arith, length-data)) (omega (arith, small)))
        (take_data-same (length p.area) _ image small same_image ∙ data_region.read)
        f.data_offset_lem

-- `to_bytes` of a page that fits succeeds with 4096 bytes, and `from_bytes` of these is the page.
pub from_bytes-to_bytes :
    (p : SlottedPage)
    → Fits p
    → (raw : Bytes) × (to_bytes p ≡ ok raw)
      × (length raw ≡ page_size)
      × (from_bytes p.page_id raw ≡ ok p)
unfolding to_bytes byte
from_bytes-to_bytes p f =
    let (out, e, w) = directory p f in
    (
      image p f out w,
      rw (
        lt→ltb p.num_slots 256 f.few,
        int_to_bytes-ok 2 p.free_offset f.free_fits,
        int_to_bytes-ok 4 p.overflow_next f.next_fits,
        e,
        int_to_bytes-ok 2 (length p.area) (omega (arith, f.room)),
      ),
      (same_image p f out w).same_length ∙ length-data p f out w,
      from_bytes-image p f out w,
    )
