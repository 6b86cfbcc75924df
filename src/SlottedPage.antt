-- ===== src/SlottedPage.antt =====
-- src/tinydb/slotted_page.py: one 4 KB slotted page in memory, its row operations and its image.
-- Slot ids are natural numbers, so the tests `slot_id < 0` never hold. `data_offset` is an integer,
-- since the code subtracts from it without a bound. A method that mutates returns the new page.
pub mod Image
pub mod Rows
pub mod Room
pub mod Updates
pub mod Tests
use tinydb_cc_comet.Prelude.{
  ℕ, zero, suc, ◌+◌, ◌-◌, ◌*◌, bit_and, Bool, not, ◌&&◌, ◌||◌, Option, none, some, List, [], ◌∷◌,
  ◌++◌, ltb, leb, ◌==◌, if◌then◌else◌, length, get_elem?, get_or, set, take, replicate, slice,
  set_slice,
}
use tinydb_cc_comet.Prelude.Int.{ℤ, pos, sub_ℕ, ◌-ℤ◌, ltb_ℤ}
use tinydb_cc_comet.Errors.{Result, ok, err, ◌>>=◌, or_error, value_error, index_error, page_full}
use tinydb_cc_comet.Bytes.{Bytes, int_to_bytes, int_from_bytes}

abbrev pub page_size : ℕ
page_size = 4096

abbrev pub header_size : ℕ
header_size = 16

abbrev pub slot_size : ℕ
slot_size = 6

abbrev pub null_page_id : ℕ
null_page_id = 0xFFFFFFFF

abbrev pub flag_tombstone : ℕ
flag_tombstone = 1

abbrev pub tombstone_offset : ℕ
tombstone_offset = 0xFFFF

abbrev pub max_slots : ℕ
max_slots = 32

abbrev pub max_inline_payload : ℕ
max_inline_payload = page_size - header_size - 2

pub record Slot : Type 0 where
  pub offset : ℕ
  pub size : ℕ
  pub flags : ℕ

-- `area` is the field `data`, and `size` above is `length`.
pub record SlottedPage : Type 0 where
  pub page_id : ℕ
  pub num_slots : ℕ
  pub free_offset : ℕ
  pub overflow_next : ℕ
  pub slots : List Slot
  pub area : Bytes
  pub data_offset : ℤ

unfoldable pub empty : ℕ → SlottedPage
empty page_id = record {
  page_id = page_id;
  num_slots = 0;
  free_offset = header_size;
  overflow_next = null_page_id;
  slots = [];
  area = [];
  data_offset = pos (page_size - 2);
}

unfoldable pub free_space : SlottedPage → ℤ
free_space p = p.data_offset -ℤ pos (header_size + p.num_slots * slot_size)

unfoldable pub is_tombstone : Slot → Bool
is_tombstone s = not (bit_and s.flags flag_tombstone == 0)

-- The slot that `_append_into_data` leaves.
unfoldable pub placed : Bytes → SlottedPage → Slot
placed row p = record { offset = length p.area; size = length row; flags = 0 }

-- `_append_into_data` on a slot that is not yet in the directory: the data area alone.
unfoldable pub extend_data : Bytes → SlottedPage → SlottedPage
extend_data row p = record p {
  area = p.area ++ row;
  data_offset = p.data_offset -ℤ pos (length row);
}

-- `_append_into_data` on the slot `i` of the directory
unfoldable pub append_into_data : Bytes → ℕ → SlottedPage → SlottedPage
append_into_data row i p = record (extend_data row p) { slots = set p.slots i (placed row p) }

-- The loop of `insert` over `enumerate(self.slots[:self.num_slots])`
unfoldable pub find_reusable : ℕ → ℕ → List Slot → Option ℕ
find_reusable need i [] = none
find_reusable need i (s ∷ rest) =
    if is_tombstone s && leb need s.size then some i else find_reusable need (suc i) rest

unfoldable pub append_slot : Bytes → SlottedPage → SlottedPage
append_slot row p = record (extend_data row p) {
  slots = p.slots ++ placed row p ∷ [];
  num_slots = p.num_slots + 1;
  free_offset = header_size + (p.num_slots + 1) * slot_size;
}

unfoldable pub is_full : Bytes → SlottedPage → Bool
is_full row p = leb max_slots p.num_slots || ltb_ℤ (free_space p) (pos (length row))

unfoldable pub insert_at_slot : Bytes → SlottedPage → Option ℕ → Result (ℕ × SlottedPage)
insert_at_slot row p (some i) = ok (i, append_into_data row i p)
insert_at_slot row p none =
    if is_full row p then err page_full else ok (p.num_slots, append_slot row p)

unfoldable pub insert : Bytes → SlottedPage → Result (ℕ × SlottedPage)
insert row p =
    if ltb max_inline_payload (length row)
    then err page_full
    else insert_at_slot row p (find_reusable (length row) 0 (take p.num_slots p.slots))

abbrev pub tombstoned : Slot → Slot
tombstoned s = record s { offset = tombstone_offset; flags = flag_tombstone }

unfoldable pub delete : ℕ → SlottedPage → Result SlottedPage
delete slot_id p = if leb p.num_slots slot_id then err value_error else do
  s ← or_error index_error (get_elem? p.slots slot_id)
  ok (record p { slots = set p.slots slot_id (tombstoned s) })

-- The last lines of `update`, once the slot is known
unfoldable pub update_slot : Slot → ℕ → Bytes → SlottedPage → Result SlottedPage
update_slot s slot_id row p =
    if is_tombstone s
    then err value_error
    else if ltb s.size (length row)
    then err page_full
    else ok (append_into_data row slot_id p)

unfoldable pub update : ℕ → Bytes → SlottedPage → Result SlottedPage
update slot_id row p =
    if leb p.num_slots slot_id
    then err value_error
    else do s ← or_error index_error (get_elem? p.slots slot_id); update_slot s slot_id row p

-- The last lines of `get`, once the slot is known
unfoldable pub read_slot : Slot → Bytes → Result (Option Bytes)
read_slot s area =
    if is_tombstone s
    then ok none
    else if ltb (length area) (s.offset + s.size)
    then err value_error
    else ok (some (slice s.offset (s.offset + s.size) area))

unfoldable pub get : ℕ → SlottedPage → Result (Option Bytes)
get slot_id p =
    if leb p.num_slots slot_id
    then ok none
    else do s ← or_error index_error (get_elem? p.slots slot_id); read_slot s p.area

-- `buf[i] = n`: a byte must be below 256.
unfoldable pub byte : ℕ → Result ℕ
byte n = if ltb n 256 then ok n else err value_error

abbrev pub slot_base : ℕ → ℕ
slot_base i = header_size + i * slot_size

-- One round of the loop of `to_bytes`
unfoldable pub put_slot : ℕ → Slot → Bytes → Result Bytes
put_slot base s buf = do
  o ← int_to_bytes 2 s.offset
  l ← int_to_bytes 2 s.size
  f ← int_to_bytes 2 s.flags
  ok (
      set_slice (base + 4) (base + 6) f
        (set_slice (base + 2) (base + 4) l (set_slice base (base + 2) o buf)))

-- The slots from `i` on, `n` of them: `self.slots[i]` raises IndexError behind the last.
unfoldable pub put_slots : ℕ → ℕ → List Slot → Bytes → Result Bytes
put_slots zero i slots buf = ok buf
put_slots (suc n) i [] buf = err index_error
put_slots (suc n) i (s ∷ slots) buf = do
  buf' ← put_slot (slot_base i) s buf
  put_slots n (i + 1) slots buf'

unfoldable pub zero_page : Bytes
zero_page = replicate page_size 0

-- `buf[PAGE_SIZE - 2 - data_len:PAGE_SIZE - 2] = self.data`: a negative start counts from the end
-- of the buffer, and stops at its beginning.
unfoldable pub put_data : Bytes → Bytes → Bytes
put_data area buf =
    let start =
      (if leb (length area) (page_size - 2)
        then page_size - 2 - length area
        else page_size + (page_size - 2) - length area) in
    if ltb 0 (length area) then set_slice start (page_size - 2) area buf else buf

unfoldable pub to_bytes : SlottedPage → Result Bytes
unfolding byte zero_page
to_bytes p = do
  n ← byte p.num_slots
  fo ← int_to_bytes 2 p.free_offset
  next ← int_to_bytes 4 p.overflow_next
  buf ←
      put_slots p.num_slots 0 p.slots
        (set_slice 4 8 next (set_slice 2 4 fo (set (set zero_page 0 1) 1 n)))
  len ← int_to_bytes 2 (length p.area)
  ok (set_slice (page_size - 2) page_size len (put_data p.area buf))

unfoldable pub take_slot : ℕ → Bytes → Slot
take_slot base raw = record {
  offset = int_from_bytes (slice base (base + 2) raw);
  size = int_from_bytes (slice (base + 2) (base + 4) raw);
  flags = int_from_bytes (slice (base + 4) (base + 6) raw);
}

unfoldable pub take_slots : ℕ → ℕ → Bytes → List Slot
unfolding take_slot
take_slots zero i raw = []
take_slots (suc n) i raw = take_slot (slot_base i) raw ∷ take_slots n (i + 1) raw

-- `raw[PAGE_SIZE - 2 - data_len:PAGE_SIZE - 2]`, with the same rule for a negative start
unfoldable pub take_data : ℕ → Bytes → Bytes
take_data data_len raw =
    slice
      (if leb data_len (page_size - 2)
        then page_size - 2 - data_len
        else page_size + (page_size - 2) - data_len)
      (page_size - 2) raw

unfoldable pub from_bytes : ℕ → Bytes → Result SlottedPage
unfolding take_slots take_data
from_bytes page_id raw =
    if not (length raw == page_size)
    then err value_error
    else (let area = take_data (int_from_bytes (slice (page_size - 2) page_size raw)) raw in
        ok (record {
          page_id = page_id;
          num_slots = get_or raw 1 0;
          free_offset = int_from_bytes (slice 2 4 raw);
          overflow_next = int_from_bytes (slice 4 8 raw);
          slots = take_slots (get_or raw 1 0) 0 raw;
          area = area;
          data_offset = sub_ℕ (page_size - 2) (length area);
        }))
