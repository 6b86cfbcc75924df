-- ===== src/Pager/FreeList.antt =====
-- The free list of pager.py, in memory: `free_page` and `alloc_page` on its linked pages.
use mathlib.Core.Option
use tinydb_cc_comet.Prelude.{
  ℕ, ◌^◌, ◌<◌, ◌≡◌, ap, ◌∙◌, true, false, Option, some, arith, ltb, ◌==◌, if◌then◌else◌, length,
  slice, set_slice, slice-set_slice_self, length-set_slice, length-replicate,
}
use tinydb_cc_comet.Errors.{Result, ok}
use tinydb_cc_comet.Bytes.{
  Bytes, to_be, int_from_bytes, int_to_bytes-ok, int_from_bytes-to_be, length-to_be,
}
use tinydb_cc_comet.Dict.{get, put, get-put}
use tinydb_cc_comet.Pager.{
  Pager, page_size, zero_page, read_page, write_link, read_free_list_head, put_head,
  write_free_list_head, clear_page, pop_page, alloc_page, free_page,
}

-- An in-memory pager whose page 0 is a whole page with the free list's head in it.
pub record Opened (p : Pager) (page₀ : Bytes) (head : ℕ) : Type 0 where
  pub in_memory : p.is_memory ≡ true
  pub header : get 0 p.mem_pages ≡ some page₀
  pub whole : length page₀ ≡ page_size
  pub head_read : int_from_bytes (slice 9 13 page₀) ≡ head
  pub head_fits : head < 256 ^ 4

length-zero_page : length zero_page ≡ page_size
unfolding zero_page
length-zero_page = length-replicate page_size 0

abbrev page_of : ℕ → Pager → Bytes
page_of pid p = Option.get_or (get pid p.mem_pages) zero_page

-- The operations in memory.
module _ (p : Pager) (m : p.is_memory ≡ true) where
  read_page-memory : (pid : ℕ) → read_page pid p ≡ page_of pid p
  unfolding read_page
  read_page-memory pid = ground arith

  write_link-memory :
      (pid : ℕ) (link : Bytes)
      → write_link pid link p
        ≡ ok (record p { mem_pages = put pid (set_slice 0 4 link (page_of pid p)) p.mem_pages })
  unfolding write_link
  write_link-memory pid link = ground arith

  read_head-memory :
      (page : Bytes)
      → get 0 p.mem_pages ≡ some page
      → read_free_list_head p ≡ ok (int_from_bytes (slice 9 13 page))
  unfolding read_free_list_head
  read_head-memory page h = ground arith

  put_head-memory :
      (link page : Bytes)
      → get 0 p.mem_pages ≡ some page
      → put_head link p ≡ ok (record p { mem_pages = put 0 (set_slice 9 13 link page) p.mem_pages })
  unfolding put_head
  put_head-memory link page h = ground arith

  write_head-memory :
      (head : ℕ) (page : Bytes)
      → head < 256 ^ 4
      → get 0 p.mem_pages ≡ some page
      → write_free_list_head head p
        ≡ ok (record p { mem_pages = put 0 (set_slice 9 13 (to_be 4 head) page) p.mem_pages })
  unfolding write_free_list_head
  write_head-memory head page k h =
      rw (int_to_bytes-ok 4 head k) (put_head-memory (to_be 4 head) page h)

  clear_page-memory :
      (pid : ℕ) (page : Bytes)
      → get pid p.mem_pages ≡ some page
      → clear_page pid p ≡ ok (record p { mem_pages = put pid zero_page p.mem_pages })
  unfolding clear_page
  clear_page-memory pid page h = ground arith

module _ (pid : ℕ) (p : Pager) (page₀ : Bytes) (head : ℕ) (o : Opened p page₀ head) (pos : 0 < pid)
    (fits : pid < 256 ^ 4) (whole : length (page_of pid p) ≡ page_size) where
  abbrev linked : Bytes
  linked = set_slice 0 4 (to_be 4 head) (page_of pid p)

  abbrev with_link : Pager
  with_link = record p { mem_pages = put pid linked p.mem_pages }

  abbrev freed_header : Bytes
  freed_header = set_slice 9 13 (to_be 4 pid) page₀

  abbrev pub freed : Pager
  freed = record with_link { mem_pages = put 0 freed_header with_link.mem_pages }

  header_linked : get 0 with_link.mem_pages ≡ some page₀
  header_linked = ground (arith, get-put pid 0 linked p.mem_pages, o.header)

  -- The free list as `free_page` leaves it: the freed page is its head.
  free_page-freed : free_page pid p ≡ ok freed
  unfolding free_page
  free_page-freed =
      let t : ltb pid 1 ≡ false = ground arith in
      rw (
        t,
        read_head-memory p o.in_memory page₀ o.header,
        o.head_read,
        int_to_bytes-ok 4 head o.head_fits,
        write_link-memory p o.in_memory pid (to_be 4 head),
        write_head-memory with_link o.in_memory pid page₀ fits header_linked,
      )

  length-freed_header : length freed_header ≡ page_size
  length-freed_header =
      length-set_slice 9 13 (to_be 4 pid) page₀ (omega (arith, length-to_be 4 pid))
        (omega (arith, o.whole))
      ∙ o.whole

  freed-Opened : Opened freed freed_header pid
  freed-Opened = record {
    in_memory = o.in_memory;
    header = ground (arith, get-put 0 0 freed_header with_link.mem_pages);
    whole = length-freed_header;
    head_read =
        ap int_from_bytes (
          slice-set_slice_self 9 13 (to_be 4 pid) page₀ (omega (arith, length-to_be 4 pid))
            (omega (arith, o.whole)))
        ∙ int_from_bytes-to_be 4 pid fits;
    head_fits = fits;
  }

  page_freed : get pid freed.mem_pages ≡ some linked
  page_freed =
      ground
        (arith, get-put 0 pid freed_header with_link.mem_pages, get-put pid pid linked p.mem_pages)

  next_freed : int_from_bytes (slice 0 4 (read_page pid freed)) ≡ head
  next_freed =
      ap (λ (b : Bytes). int_from_bytes (slice 0 4 b))
        (read_page-memory freed o.in_memory pid
          ∙ ap (λ (x : Option Bytes). Option.get_or x zero_page) page_freed)
      ∙ ap int_from_bytes (
          slice-set_slice_self 0 4 (to_be 4 head) (page_of pid p)
            (omega (arith, length-to_be 4 head)) (omega (arith, whole)))
      ∙ int_from_bytes-to_be 4 head o.head_fits

  abbrev popped_header : Bytes
  popped_header = set_slice 9 13 (to_be 4 head) freed_header

  abbrev popped : Pager
  popped = record freed { mem_pages = put 0 popped_header freed.mem_pages }

  page_popped : get pid popped.mem_pages ≡ some linked
  page_popped = ground (arith, get-put 0 pid popped_header freed.mem_pages, page_freed)

  abbrev realloc : Pager
  realloc = record popped { mem_pages = put pid zero_page popped.mem_pages }

  alloc_page-realloc : alloc_page freed ≡ ok (pid, realloc)
  unfolding alloc_page pop_page
  alloc_page-realloc =
      let t : (pid == 0) ≡ false = ground arith in
      rw (
        read_head-memory freed o.in_memory freed_header freed-Opened.header,
        freed-Opened.head_read,
        t,
        next_freed,
        write_head-memory freed o.in_memory head freed_header o.head_fits freed-Opened.header,
        clear_page-memory popped o.in_memory pid linked page_popped,
      )

  realloc-Opened : Opened realloc popped_header head
  realloc-Opened = record {
    in_memory = o.in_memory;
    header = ground (
      arith,
      get-put pid 0 zero_page popped.mem_pages,
      get-put 0 0 popped_header freed.mem_pages,
    );
    whole =
        length-set_slice 9 13 (to_be 4 head) freed_header (omega (arith, length-to_be 4 head))
          (omega (arith, length-freed_header))
        ∙ length-freed_header;
    head_read =
        ap int_from_bytes (
          slice-set_slice_self 9 13 (to_be 4 head) freed_header (omega (arith, length-to_be 4 head))
            (omega (arith, length-freed_header)))
        ∙ int_from_bytes-to_be 4 head o.head_fits;
    head_fits = o.head_fits;
  }

  realloc-page : get pid realloc.mem_pages ≡ some zero_page
  realloc-page = ground (arith, get-put pid pid zero_page popped.mem_pages)

  realloc-pages :
      (k : ℕ)
      → get k realloc.mem_pages ≡ (
          if k == pid
          then some zero_page
          else if k == 0
          then some popped_header
          else get k p.mem_pages)
  realloc-pages k = ground (
    arith,
    get-put pid k zero_page popped.mem_pages,
    get-put 0 k popped_header freed.mem_pages,
    get-put 0 k freed_header with_link.mem_pages,
    get-put pid k linked p.mem_pages,
  )

  -- In memory, a page that is freed becomes the head of the free list, and the next `alloc_page`
  -- hands it out as zeros, with the list's old head restored and every other page as before.
  pub alloc_page-free_page :
      (q r : Pager) × (header : Bytes) × (free_page pid p ≡ ok q)
      × (read_free_list_head q ≡ ok pid)
      × (alloc_page q ≡ ok (pid, r))
      × (read_page pid r ≡ zero_page)
      × Opened r header head
      × ((k : ℕ)
          → get k r.mem_pages ≡ (
              if k == pid
              then some zero_page
              else if k == 0
              then some header
              else get k p.mem_pages))
  alloc_page-free_page = (
    freed,
    realloc,
    popped_header,
    free_page-freed,
    read_head-memory freed o.in_memory freed_header freed-Opened.header
        ∙ ap (λ (n : ℕ). let r : Result ℕ = ok n in r) freed-Opened.head_read,
    alloc_page-realloc,
    read_page-memory realloc o.in_memory pid
        ∙ ap (λ (x : Option Bytes). Option.get_or x zero_page) realloc-page,
    realloc-Opened,
    realloc-pages,
  )
