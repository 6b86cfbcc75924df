-- ===== src/Executor/Pages.antt =====
-- The pages that executor.py reads and writes within a transaction, against a store of pages.
use mathlib.Core.Option
use tinydb_cc_comet.Prelude.{
  ℕ, ◌≡◌, refl, sym, ap, ap₂, subst, ◌∙◌, Option, some, List, [], ◌∷◌, ◌++◌, append_assoc,
  append-nil, ◌==◌, if◌then◌else◌, Bool-cases, inl, inr,
}
use tinydb_cc_comet.Errors.{ok, err, active}
use tinydb_cc_comet.Bytes.{Bytes}
use tinydb_cc_comet.Dict.{Dict, get, put, get-put}
use tinydb_cc_comet.Wal.{Entry}
use tinydb_cc_comet.Wal.Fields.{EntryFits, AllFit}
use tinydb_cc_comet.Pager
use tinydb_cc_comet.Pager.{Pager}
use tinydb_cc_comet.Transaction.{Transaction}
use tinydb_cc_comet.Transaction.Logged.{
  page_record, log_of, puts, HasLog, logged, HasLog-logged, write_page-logged,
}
use tinydb_cc_comet.Executor.{Executor, Outcome, txn_write_page, txn_read_page, write_in, buffered}

-- The store of pages that the transactions implement: writes in order, on what was there before
abbrev pub written : List (ℕ × Bytes) → (ℕ → Bytes) → ℕ → Bytes
written [] pages j = pages j
written ((i, b) ∷ ws) pages j = written ws (λ k. if i == k then b else pages k) j

written-cong :
    (ws : List (ℕ × Bytes)) (f g : ℕ → Bytes)
    → ((k : ℕ) → f k ≡ g k)
    → (j : ℕ) → written ws f j ≡ written ws g j
written-cong [] f g h j = h j
written-cong ((i, b) ∷ ws) f g h j =
    written-cong ws _ _ (λ k. ap (λ x. if i == k then b else x) (h k)) j

-- A buffer over the pages below it
puts-written :
    (ws : List (ℕ × Bytes)) (d : Dict Bytes) (below : ℕ → Bytes) (j : ℕ)
    → Option.get_or (get j (puts ws d)) (below j)
      ≡ written ws (λ k. Option.get_or (get k d) (below k)) j
puts-written [] d below j = refl
puts-written ((i, b) ∷ ws) d below j =
    puts-written ws (put i b d) below j ∙ written-cong ws _ _ (λ k. at_put k) j
  where
    at_put :
        (k : ℕ)
        → Option.get_or (get k (put i b d)) (below k)
          ≡ (if i == k then b else Option.get_or (get k d) (below k))
    at_put k = elim (Bool-cases (i == k)) [
      | inl t ↦ rw (get-put i k b d, t) refl
      | inr f ↦ rw (get-put i k b d, f) refl
    ]

module _ (Catalog Indexes : Type 0) (crc32 : Bytes → ℕ) where
  -- A sequence of page writes, up to the first that raises
  unfoldable pub txn_writes :
      List (ℕ × Bytes) → Executor Catalog Indexes → Outcome Catalog Indexes Unit
  txn_writes [] s = (s, ok tt)
  txn_writes ((i, b) ∷ ws) s =
      let r = txn_write_page Catalog Indexes crc32 i b s in
      elim r.1 [ ok _ ↦ txn_writes ws r.0 | err e ↦ (r.0, err e) ]

  -- An active transaction is open, and the log holds exactly these records.
  pub record Open (rs : List Entry) (t : Transaction) (s : Executor Catalog Indexes) : Type 0 where
    pub current : s.current_txn ≡ some t
    pub is_active : t.state ≡ active
    pub log : HasLog crc32 rs s.pager

  -- What a sequence of writes leaves
  pub record Wrote (rs : List Entry) (t : Transaction) (ws : List (ℕ × Bytes))
      (s s' : Executor Catalog Indexes) : Type 0 where
    pub txn : Transaction
    pub same_id : txn.id ≡ t.id
    pub open_now : Open (rs ++ log_of t.id ws) txn s'
    pub buffer : s'.page_buffer ≡ puts ws s.page_buffer
    pub pages : (j : ℕ) → Pager.read_page j s'.pager ≡ Pager.read_page j s.pager
    pub file : s'.pager.file ≡ s.pager.file
    pub snapshot : s'.txn_snapshot ≡ s.txn_snapshot

  read_page-logged :
      (rs : List Entry) (p : Pager) (j : ℕ)
      → Pager.read_page j (logged crc32 rs p) ≡ Pager.read_page j p
  unfolding Pager.read_page Pager.mmap_slice
  read_page-logged rs p j = refl

  after_write :
      List Entry → Transaction → ℕ → Bytes → Executor Catalog Indexes → Executor Catalog Indexes
  after_write rs t i b s = record s {
    pager = logged crc32 (rs ++ (page_record t.id (i, b) ∷ [])) s.pager;
    current_txn = some (record t { pending_writes = put i b t.pending_writes });
    page_buffer = put i b s.page_buffer;
  }

  txn_write_page-Open :
      (rs : List Entry) (t : Transaction) (i : ℕ) (b : Bytes) (s : Executor Catalog Indexes)
      → Open rs t s
      → EntryFits (page_record t.id (i, b))
      → txn_write_page Catalog Indexes crc32 i b s ≡ (after_write rs t i b s, ok tt)
  unfolding txn_write_page write_in buffered after_write
  txn_write_page-Open rs t i b s o f =
      ap (λ (c : Option Transaction). write_in Catalog Indexes crc32 c i b s) o.current
      ∙ ap (buffered Catalog Indexes i b s)
          (write_page-logged crc32 rs i b t s.pager o.is_active o.log f)

  Open-after_write :
      (rs : List Entry) (t : Transaction) (i : ℕ) (b : Bytes) (s : Executor Catalog Indexes)
      → Open rs t s
      → Open
          (rs ++ (page_record t.id (i, b) ∷ []))
          (record t { pending_writes = put i b t.pending_writes })
          (after_write rs t i b s)
  unfolding after_write
  Open-after_write rs t i b s o = record {
    current = refl;
    is_active = o.is_active;
    log = HasLog-logged crc32 (rs ++ (page_record t.id (i, b) ∷ [])) s.pager;
  }

  pub txn_writes-Wrote :
      (ws : List (ℕ × Bytes)) (rs : List Entry) (t : Transaction) (s : Executor Catalog Indexes)
      → Open rs t s
      → AllFit (log_of t.id ws)
      → (s' : Executor Catalog Indexes) × (txn_writes ws s ≡ (s', ok tt)) × Wrote rs t ws s s'
  unfolding txn_writes after_write
  txn_writes-Wrote [] rs t s o f = (
    s,
    refl,
    record {
      txn = t;
      same_id = refl;
      open_now = subst (λ (l : List Entry). Open l t s) (sym (append-nil rs)) o;
      buffer = refl;
      pages = λ j. refl;
      file = refl;
      snapshot = refl;
    },
  )
  txn_writes-Wrote ((i, b) ∷ ws) rs t s o (f, fs) =
      let r = page_record t.id (i, b) in
      let t₁ : Transaction = record t { pending_writes = put i b t.pending_writes } in
      let s₁ = after_write rs t i b s in
      let (s', e, w) =
        txn_writes-Wrote ws (rs ++ (r ∷ [])) t₁ s₁ (Open-after_write rs t i b s o) fs in
      (
        s',
        ap
              (λ (r : Outcome Catalog Indexes Unit). elim r.1 [
                | ok _ ↦ txn_writes ws r.0
                | err e ↦ (r.0, err e)
              ])
              (txn_write_page-Open rs t i b s o f)
            ∙ e,
        record {
          txn = w.txn;
          same_id = w.same_id;
          open_now =
              subst (λ (l : List Entry). Open l w.txn s')
                (append_assoc rs (r ∷ []) (log_of t.id ws)) w.open_now;
          buffer = w.buffer;
          pages = λ j. w.pages j ∙ read_page-logged (rs ++ (r ∷ [])) s.pager j;
          file = w.file;
          snapshot = w.snapshot;
        },
      )

  -- Page writes within an active transaction, whose log holds whole records, succeed when their records fit the
  -- fields of the log, and the pages that are read behind them are those of a store to which the same writes
  -- were made in the same order.
  pub txn_read_page-txn_writes :
      (ws : List (ℕ × Bytes)) (rs : List Entry) (t : Transaction) (s : Executor Catalog Indexes)
      → Open rs t s
      → AllFit (log_of t.id ws)
      → (s' : Executor Catalog Indexes) × (txn_writes ws s ≡ (s', ok tt))
        × ((j : ℕ)
            → txn_read_page Catalog Indexes j s'
              ≡ written ws (λ k. txn_read_page Catalog Indexes k s) j)
  unfolding txn_read_page
  txn_read_page-txn_writes ws rs t s o f =
      let (s', e, w) = txn_writes-Wrote ws rs t s o f in
      (
        s',
        e,
        λ j.
            ap₂ (λ (d : Dict Bytes) (x : Bytes). Option.get_or (get j d) x) w.buffer (w.pages j)
            ∙ puts-written ws s.page_buffer (λ k. Pager.read_page k s.pager) j,
      )
