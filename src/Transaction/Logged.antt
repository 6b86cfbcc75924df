-- ===== src/Transaction/Logged.antt =====
-- The log of a transaction: what `write_page` leaves in the log, and the effects of `commit`.
use tinydb_cc_comet.Prelude.{
  ℕ, ◌≡◌, refl, sym, ap, ◌∙◌, some, List, [], ◌∷◌, ◌++◌, append_assoc, append-nil, map,
}
use tinydb_cc_comet.Errors.{Result, ok, ◌>>=◌, active}
use tinydb_cc_comet.Bytes.{Bytes}
use tinydb_cc_comet.Dict.{Dict, put}
use tinydb_cc_comet.Wal
use tinydb_cc_comet.Wal.{Entry, make_header}
use tinydb_cc_comet.Wal.Fields.{EntryFits, AllFit, all_bytes, encode_record-bytes_of}
use tinydb_cc_comet.Wal.Reading.{all_bytes-append}
use tinydb_cc_comet.Pager.{Pager, get_or_open_wal, wal_append, wal_append_page}
use tinydb_cc_comet.Transaction.{Transaction, write_page}

abbrev pub page_record : ℕ → ℕ × Bytes → Entry
page_record txn_id (page_id, bytes) = record {
  txn_id = txn_id;
  kind = 1;
  page_id = page_id;
  payload = bytes;
}

abbrev pub commit_record : ℕ → Entry
commit_record txn_id = record { txn_id = txn_id; kind = 2; page_id = 0; payload = [] }

abbrev pub rollback_record : ℕ → Entry
rollback_record txn_id = record { txn_id = txn_id; kind = 3; page_id = 0; payload = [] }

-- The records that a sequence of page writes leaves
abbrev pub log_of : ℕ → List (ℕ × Bytes) → List Entry
log_of txn_id = map (page_record txn_id)

-- The writes that are pending after a sequence of page writes: the last one to each page.
abbrev pub puts : List (ℕ × Bytes) → Dict Bytes → Dict Bytes
puts [] d = d
puts ((page_id, bytes) ∷ ws) d = puts ws (put page_id bytes d)

module _ (crc32 : Bytes → ℕ) where
  -- The log of the pager holds exactly these records, whole.
  abbrev pub HasLog : List Entry → Pager → Type 0
  HasLog rs p = get_or_open_wal p ≡ make_header ++ all_bytes crc32 rs

  abbrev pub logged : List Entry → Pager → Pager
  logged rs p = record p { wal = some (make_header ++ all_bytes crc32 rs) }

  pub HasLog-logged : (rs : List Entry) (p : Pager) → HasLog rs (logged rs p)
  unfolding get_or_open_wal
  HasLog-logged rs p = refl

  pub wal_append-logged :
      (rs : List Entry) (r : Entry) (p : Pager)
      → HasLog rs p
      → EntryFits r
      → wal_append crc32 r p ≡ ok (logged (rs ++ r ∷ []) p)
  unfolding wal_append Wal.append
  wal_append-logged rs r p h f =
      rw (h, encode_record-bytes_of crc32 r f)
        (ap (λ (b : Bytes). ok (record p { wal = some b }))
          (simp (all_bytes-append, append-nil, append_assoc)))

  unfoldable pub write_pages : List (ℕ × Bytes) → Transaction → Pager → Result (Transaction × Pager)
  write_pages [] t p = ok (t, p)
  write_pages ((page_id, bytes) ∷ ws) t p =
      write_page crc32 page_id bytes t p >>= λ r. write_pages ws r.0 r.1

  -- What a sequence of page writes leaves behind an active transaction.
  pub record Logged (rs : List Entry) (t : Transaction) (p : Pager) (t' : Transaction) (p' : Pager)
      (ws : List (ℕ × Bytes)) : Type 0 where
    pub same_id : t'.id ≡ t.id
    pub still_active : t'.state ≡ active
    pub pending : t'.pending_writes ≡ puts ws t.pending_writes
    pub log : HasLog (rs ++ log_of t.id ws) p'
    pub same_file : p'.file ≡ p.file
    pub same_mode : p'.is_memory ≡ p.is_memory

  pub write_page-logged :
      (rs : List Entry) (page_id : ℕ) (bytes : Bytes) (t : Transaction) (p : Pager)
      → t.state ≡ active
      → HasLog rs p
      → EntryFits (page_record t.id (page_id, bytes))
      → write_page crc32 page_id bytes t p
        ≡ ok (
          record t { pending_writes = put page_id bytes t.pending_writes },
          logged (rs ++ page_record t.id (page_id, bytes) ∷ []) p,
        )
  unfolding write_page wal_append_page
  write_page-logged rs page_id bytes t p a h f =
      rw (a, wal_append-logged rs (page_record t.id (page_id, bytes)) p h f)

  -- Any sequence of `write_page` on an active transaction whose log holds whole records, when the records of
  -- the writes fit, succeeds, leaves the transaction active with its id, its pending writes with the last one
  -- to each page, its log with one record more for each write, in order, and the main file as it was.
  pub write_pages-Logged :
      (ws : List (ℕ × Bytes)) (rs : List Entry) (t : Transaction) (p : Pager)
      → t.state ≡ active
      → HasLog rs p
      → AllFit (log_of t.id ws)
      → (t' : Transaction) × (p' : Pager) × (write_pages ws t p ≡ ok (t', p'))
        × Logged rs t p t' p' ws
  unfolding write_pages
  write_pages-Logged [] rs t p a h f = (
    t,
    p,
    refl,
    record {
      same_id = refl;
      still_active = a;
      pending = refl;
      log = h ∙ ap (λ (l : List Entry). make_header ++ all_bytes crc32 l) (sym (append-nil rs));
      same_file = refl;
      same_mode = refl;
    },
  )
  write_pages-Logged ((page_id, bytes) ∷ ws) rs t p a h (f, fs) =
      let r = page_record t.id (page_id, bytes) in
      let t₁ : Transaction = record t { pending_writes = put page_id bytes t.pending_writes } in
      let p₁ = logged (rs ++ r ∷ []) p in
      let (t', p', e, l) =
        write_pages-Logged ws (rs ++ r ∷ []) t₁ p₁ a (HasLog-logged (rs ++ r ∷ []) p) fs in
      (
        t',
        p',
        rw (write_page-logged rs page_id bytes t p a h f) e,
        record {
          same_id = l.same_id;
          still_active = l.still_active;
          pending = l.pending;
          log =
              l.log
              ∙ ap (λ (x : List Entry). make_header ++ all_bytes crc32 x)
                  (append_assoc rs (r ∷ []) (log_of t.id ws));
          same_file = l.same_file;
          same_mode = l.same_mode;
        },
      )
