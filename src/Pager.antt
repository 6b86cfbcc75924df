-- ===== src/Pager.antt =====
-- src/tinydb/pager.py: the pages of a database, in memory or in a mapped file, and its log.
-- A file is its bytes; the map shows the first `mmap_size` of them. `wal` is the buffer of the open
-- log handle. A method returns the new pager; what an exception leaves behind is not modelled.
pub mod FreeList
pub mod Files
pub mod Tests
use mathlib.Core.Option
use tinydb_cc_comet.Prelude.{
  ℕ, zero, suc, ◌+◌, ◌-◌, ◌*◌, ◌/◌, max, Bool, true, false, not, Option, none, some, List, [], ◌∷◌,
  ◌++◌, ltb, leb, ◌==◌, if◌then◌else◌, length, take, drop, replicate, slice, set_slice,
}
use tinydb_cc_comet.Errors.{
  Result, ok, err, ◌>>=◌, or_error, value_error, key_error, index_error, runtime_error,
}
use tinydb_cc_comet.Bytes.{Bytes, int_to_bytes, int_from_bytes}
use tinydb_cc_comet.Dict.{Dict, get, put, set_default}
use tinydb_cc_comet.Wal
use tinydb_cc_comet.Wal.{Entry}

abbrev pub page_size : ℕ
page_size = 4096

-- MAGIC, SCHEMA_VERSION, the head of the free list and the reserved bytes
unfoldable pub header_page : Bytes
header_page =
    b'T' ∷ b'I' ∷ b'N' ∷ b'Y' ∷ b'D' ∷ b'B' ∷ 0 ∷ 3 ∷ 3 ∷ replicate 4 0
    ++ replicate (page_size - 13) 0

unfoldable pub zero_page : Bytes
zero_page = replicate page_size 0

pub record Pager : Type 0 where
  pub is_memory : Bool
  pub mem_pages : Dict Bytes
  pub file : Bytes
  pub mmap_size : ℕ
  pub next_page_id : ℕ
  pub wal : Option Bytes

-- `Pager(":memory:")`
unfoldable pub open_memory : Pager
open_memory = record {
  is_memory = true;
  mem_pages = (0, header_page) ∷ [];
  file = [];
  mmap_size = 0;
  next_page_id = 2;
  wal = none;
}

-- `Pager(path)` on a path with no file: the header page and an empty catalog page are written.
unfoldable pub create_file : Pager
unfolding header_page zero_page
create_file = record {
  is_memory = false;
  mem_pages = [];
  file = header_page ++ zero_page;
  mmap_size = page_size * 2;
  next_page_id = max 2 (page_size * 2 / page_size);
  wal = none;
}

-- `self._mmap[i:j]`
unfoldable pub mmap_slice : ℕ → ℕ → Pager → Bytes
mmap_slice i j p = slice i j (take p.mmap_size p.file)

-- `self._mmap[i:j] = v`, for `v` of length `j - i`: a map cannot grow.
unfoldable pub mmap_write : ℕ → ℕ → Bytes → Pager → Result Pager
mmap_write i j v p =
    if leb j p.mmap_size then ok (record p { file = set_slice i j v p.file }) else err index_error

unfoldable pub read_page : ℕ → Pager → Bytes
unfolding mmap_slice zero_page
read_page page_id p =
    if p.is_memory
    then Option.get_or (get page_id p.mem_pages) zero_page
    else mmap_slice (page_id * page_size) (page_id * page_size + page_size) p

unfoldable pub write_page : ℕ → Bytes → Pager → Result Pager
unfolding mmap_write
write_page page_id bytes p =
    if not (length bytes == page_size)
    then err value_error
    else if p.is_memory
    then ok (record p { mem_pages = put page_id bytes p.mem_pages })
    else mmap_write (page_id * page_size) (page_id * page_size + page_size) bytes p

-- The first four bytes of a page, as `_write_chain_next` and `free_page` write them
unfoldable pub write_link : ℕ → Bytes → Pager → Result Pager
unfolding mmap_write zero_page
write_link page_id link p =
    if p.is_memory
    then ok (record p {
      mem_pages =
          put page_id (set_slice 0 4 link (Option.get_or (get page_id p.mem_pages) zero_page))
            p.mem_pages;
    })
    else mmap_write (page_id * page_size) (page_id * page_size + 4) link p

unfoldable pub write_chain_next : ℕ → ℕ → Pager → Result Pager
write_chain_next page_id next_page_id p = do
  link ← int_to_bytes 4 next_page_id
  write_link page_id link p

unfoldable pub read_free_list_head : Pager → Result ℕ
unfolding mmap_slice
read_free_list_head p =
    if p.is_memory
    then (do page ← or_error key_error (get 0 p.mem_pages); ok (int_from_bytes (slice 9 13 page)))
    else ok (int_from_bytes (mmap_slice 9 13 p))

unfoldable pub put_head : Bytes → Pager → Result Pager
unfolding mmap_write
put_head link p =
    if p.is_memory
    then (do
      page ← or_error key_error (get 0 p.mem_pages)
      ok (record p { mem_pages = put 0 (set_slice 9 13 link page) p.mem_pages }))
    else mmap_write 9 13 link p

unfoldable pub write_free_list_head : ℕ → Pager → Result Pager
unfolding put_head
write_free_list_head head p = do link ← int_to_bytes 4 head; put_head link p

-- The page that leaves the free list is overwritten with zeros.
unfoldable pub clear_page : ℕ → Pager → Result Pager
unfolding mmap_write zero_page
clear_page page_id p =
    if p.is_memory
    then (do
      page ← or_error key_error (get page_id p.mem_pages)
      ok (record p { mem_pages = put page_id zero_page p.mem_pages }))
    else mmap_write (page_id * page_size) (page_id * page_size + page_size) zero_page p

-- `alloc_page` when the free list is empty: the next page, for which the file grows.
unfoldable pub append_page : Pager → ℕ × Pager
unfolding zero_page
append_page p =
    let pid = p.next_page_id in
    let needed_size = (pid + 1) * page_size in
    if p.is_memory
    then (
      pid,
      record p { next_page_id = pid + 1; mem_pages = set_default pid zero_page p.mem_pages },
    )
    else if ltb (length p.file) needed_size
    then (
      pid,
      record p {
        next_page_id = pid + 1;
        file = p.file ++ replicate (needed_size - length p.file) 0;
        mmap_size = needed_size;
      },
    )
    else (pid, record p { next_page_id = pid + 1 })

-- `alloc_page` when the free list begins with `head`
unfoldable pub pop_page : ℕ → Pager → Result (ℕ × Pager)
pop_page head p = do
  let next_free = int_from_bytes (slice 0 4 (read_page head p))
  p' ← write_free_list_head next_free p
  p'' ← clear_page head p'
  ok (head, p'')

unfoldable pub alloc_page : Pager → Result (ℕ × Pager)
alloc_page p = do
  head ← read_free_list_head p
  (if head == 0 then ok (append_page p) else pop_page head p)

unfoldable pub free_page : ℕ → Pager → Result Pager
free_page page_id p = if ltb page_id 1 then err value_error else do
  head ← read_free_list_head p
  link ← int_to_bytes 4 head
  p' ← write_link page_id link p
  write_free_list_head page_id p'

unfoldable pub page_count : Pager → ℕ
page_count p = if p.is_memory then max (length p.mem_pages) 1 else max (p.mmap_size / page_size) 1

-- `file.seek(off); file.write(v)`: a gap behind the end of the file reads as zeros.
unfoldable pub file_write : ℕ → Bytes → Bytes → Bytes
file_write off v f = take off (f ++ replicate (off - length f) 0) ++ (v ++ drop (off + length v) f)

unfoldable pub write_main_page : ℕ → Bytes → Pager → Result Pager
write_main_page page_id bytes p =
    if p.is_memory
    then (if not (length bytes == page_size)
        then err value_error
        else ok (record p { mem_pages = put page_id bytes p.mem_pages }))
    else ok (record p { file = file_write (page_id * page_size) bytes p.file })

-- `_get_or_open_wal`: a log that is not open is created with its header.
unfoldable pub get_or_open_wal : Pager → Bytes
get_or_open_wal p = Option.get_or p.wal Wal.make_header

module _ (crc32 : Bytes → ℕ) where
  unfoldable pub wal_append : Entry → Pager → Result Pager
  wal_append r p = do buf ← Wal.append crc32 r (get_or_open_wal p); ok (record p { wal = some buf })

  unfoldable pub wal_append_page : ℕ → ℕ → Bytes → Pager → Result Pager
  unfolding wal_append
  wal_append_page txn_id page_id bytes =
      wal_append (record { txn_id = txn_id; kind = 1; page_id = page_id; payload = bytes })

  unfoldable pub wal_append_commit : ℕ → Pager → Result Pager
  unfolding wal_append
  wal_append_commit txn_id =
      wal_append (record { txn_id = txn_id; kind = 2; page_id = 0; payload = [] })

  unfoldable pub wal_append_rollback : ℕ → Pager → Result Pager
  unfolding wal_append
  wal_append_rollback txn_id =
      wal_append (record { txn_id = txn_id; kind = 3; page_id = 0; payload = [] })

  -- The scan of the log never runs out of fuel, so the last case is never met.
  unfoldable pub truncated : Pager → Option (Result Bytes) → Result Pager
  truncated p (some r) = r >>= λ buf. ok (record p { wal = some buf })
  truncated p none = err runtime_error

  unfoldable pub wal_truncate_before : ℕ → Pager → Result Pager
  unfolding truncated
  wal_truncate_before txn_id p = truncated p (Wal.truncate_before crc32 txn_id (get_or_open_wal p))
