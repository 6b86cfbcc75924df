-- ===== src/Pager/Tests.antt =====
-- The pager theorem in memory, at the page that a fresh database hands out first.
use tinydb_cc_comet.Prelude.{
  ℕ, ◌≡◌, refl, true, none, some, [], ◌∷◌, arith, ◌==◌, if◌then◌else◌, length-replicate, replicate,
  slice, take, drop,
}
use tinydb_cc_comet.Errors.{ok}
use tinydb_cc_comet.Bytes.{Bytes, int_from_bytes}
use tinydb_cc_comet.Dict.{get, set_default}
use tinydb_cc_comet.Pager.{
  Pager, header_page, zero_page, open_memory, append_page, read_page, read_free_list_head,
  alloc_page, free_page, page_size,
}
use tinydb_cc_comet.Pager.FreeList.{Opened, alloc_page-free_page}

-- `open_memory` after one `alloc_page`
abbrev opened : Pager
opened = record {
  is_memory = true;
  mem_pages = (0, header_page) ∷ (2, zero_page) ∷ [];
  file = [];
  mmap_size = 0;
  next_page_id = 3;
  wal = none;
}

alloc_opened : alloc_page open_memory ≡ ok (2, opened)
unfolding alloc_page read_free_list_head open_memory append_page header_page get slice take drop
    replicate int_from_bytes set_default
alloc_opened = refl

opened-Opened : Opened opened header_page 0
unfolding header_page get slice take drop replicate int_from_bytes
opened-Opened = record {
  in_memory = refl;
  header = refl;
  whole = refl;
  head_read = refl;
  head_fits = omega arith;
}

alloc_page-free_page_example :
    (q r : Pager) × (header : Bytes) × (free_page 2 opened ≡ ok q)
    × (read_free_list_head q ≡ ok 2)
    × (alloc_page q ≡ ok (2, r))
    × (read_page 2 r ≡ zero_page)
    × Opened r header 0
    × ((k : ℕ)
        → get k r.mem_pages ≡ (
            if k == 2
            then some zero_page
            else if k == 0
            then some header
            else get k opened.mem_pages))
alloc_page-free_page_example =
    alloc_page-free_page 2 opened header_page 0 opened-Opened (omega arith) (omega arith)
      (unfold get zero_page in length-replicate {A = ℕ} page_size 0)
