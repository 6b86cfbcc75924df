-- ===== src/Executor/Rollback.antt =====
-- ROLLBACK and failing statements of executor.py, and the state from before them.
use mathlib.Core.Option
use tinydb_cc_comet.Prelude.{
  ℕ, ◌+◌, ◌≡◌, refl, sym, ap, subst, ◌∙◌, Option, none, some, List, [], ◌∷◌, ◌++◌,
}
use tinydb_cc_comet.Errors.{Error, Result, ok, err, attribute_error, active, rolled_back}
use tinydb_cc_comet.Bytes.{Bytes}
use tinydb_cc_comet.Dict.{Dict, get}
use tinydb_cc_comet.Wal.{Entry, keep_from}
use tinydb_cc_comet.Wal.Fields.{EntryFits, AllFit}
use tinydb_cc_comet.Wal.Reading.{AllFit-append}
use tinydb_cc_comet.Pager
use tinydb_cc_comet.Pager.{Pager, wal_append_rollback}
use tinydb_cc_comet.Transaction
use tinydb_cc_comet.Transaction.{
  Transaction, Run, start, guard_active-active, rollback_effects, roll_back, run, perform,
  append_rollback, truncate, Effect,
}
use tinydb_cc_comet.Transaction.Logged.{
  log_of, rollback_record, HasLog, logged, HasLog-logged, wal_append-logged,
}
use tinydb_cc_comet.Recovery.Effects.{run-ok, perform-truncate}
use tinydb_cc_comet.Executor.{
  Executor, Snapshot, Outcome, snapshot_state, restore_state, closed, back_to, reverted, opened,
  exec_begin, begin_in, exec_rollback, rollback_in, rolled_run, fail_in, worst, conclude_implicit,
  conclude_explicit, in_txn, exec_in_txn, txn_read_page,
}
use tinydb_cc_comet.Executor.Pages.{txn_writes, Open, txn_writes-Wrote}

module _ (Catalog Indexes : Type 0) where
  -- No transaction is open, nothing is buffered, and the catalog, the page lists and the indexes are these.
  pub record Reverted (snap : Snapshot Catalog Indexes) (s : Executor Catalog Indexes)
      : Type 0 where
    pub no_txn : s.current_txn ≡ none
    pub no_buffer : s.page_buffer ≡ []
    pub state : snapshot_state Catalog Indexes s ≡ snap

  reverted-Reverted :
      (snap : Snapshot Catalog Indexes) (s : Executor Catalog Indexes)
      → s.txn_snapshot ≡ some snap
      → Reverted snap (reverted Catalog Indexes s)
  unfolding reverted closed back_to restore_state snapshot_state
  reverted-Reverted snap s h =
      subst
        (λ (o : Option (Snapshot Catalog Indexes)).
          Reverted snap (closed Catalog Indexes (back_to Catalog Indexes o s)))
        (sym h) (record { no_txn = refl; no_buffer = refl; state = refl })

  module _ (crc32 : Bytes → ℕ) where
    worst-err :
        {A : Type 0} (e : Error) (r : Result {0} Unit)
        → (x : Error) × (◌≡◌ {A = Result A} (worst e r) (err x))
    worst-err e (ok u) = (e, refl)
    worst-err e (err x) = (x, refl)

    -- The transaction is over, and the error is that of the statement or of the rollback.
    abbrev pub Failed : {A : Type 0} → Snapshot Catalog Indexes → Outcome Catalog Indexes A → Type 0
    Failed snap r = Reverted snap r.0 × ((x : Error) × (r.1 ≡ err x))

    fail_in-Failed :
        {A : Type 0} (o : Option Transaction) (e : Error) (s : Executor Catalog Indexes)
        (snap : Snapshot Catalog Indexes)
        → s.txn_snapshot ≡ some snap
        → Failed snap (fail_in Catalog Indexes crc32 {A = A} o e s)
    unfolding fail_in
    fail_in-Failed none e s snap h = (reverted-Reverted snap s h, (attribute_error, refl))
    fail_in-Failed (some t) e s snap h =
        let r = (Transaction.rollback crc32 t s.pager).1 in
        (reverted-Reverted snap (record s { pager = r.pager }) h, worst-err e r.raised)

    -- The state that a statement starts in
    abbrev pub begun : Option Transaction → Executor Catalog Indexes → Executor Catalog Indexes
    begun none s = opened Catalog Indexes s
    begun (some t) s = s

    conclude_implicit-Failed :
        {A : Type 0} (s : Executor Catalog Indexes) (r : Result A) (e : Error)
        (snap : Snapshot Catalog Indexes)
        → r ≡ err e
        → s.txn_snapshot ≡ some snap
        → Failed snap (conclude_implicit Catalog Indexes crc32 s r)
    unfolding conclude_implicit
    conclude_implicit-Failed s (ok a) e snap r h = absurd cc
    conclude_implicit-Failed s (err x) e snap r h = fail_in-Failed s.current_txn x s snap h

    conclude_explicit-Failed :
        {A : Type 0} (s : Executor Catalog Indexes) (r : Result A) (e : Error)
        (snap : Snapshot Catalog Indexes)
        → r ≡ err e
        → s.txn_snapshot ≡ some snap
        → Failed snap (conclude_explicit Catalog Indexes crc32 s r)
    unfolding conclude_explicit
    conclude_explicit-Failed s (ok a) e snap r h = absurd cc
    conclude_explicit-Failed s (err x) e snap r h = fail_in-Failed s.current_txn x s snap h

    in_txn-Failed :
        {A : Type 0} (o : Option Transaction)
        (stmt : Executor Catalog Indexes → Outcome Catalog Indexes A) (s : Executor Catalog Indexes)
        (e : Error) (snap : Snapshot Catalog Indexes)
        → (stmt (begun o s)).1 ≡ err e
        → (stmt (begun o s)).0.txn_snapshot ≡ some snap
        → Failed snap (in_txn Catalog Indexes crc32 o stmt s)
    unfolding in_txn
    in_txn-Failed none stmt s e snap r h =
        let x = stmt (opened Catalog Indexes s) in conclude_implicit-Failed x.0 x.1 e snap r h
    in_txn-Failed (some t) stmt s e snap r h =
        let x = stmt s in conclude_explicit-Failed x.0 x.1 e snap r h

    -- Whatever a statement did to the executor before it raised, if it left the snapshot of the transaction
    -- alone: behind it no transaction is open and nothing is buffered, the catalog, the page lists and the
    -- indexes are those of the snapshot, which an implicit transaction took of the state just before, and an
    -- error is raised.
    pub exec_in_txn-Failed :
        {A : Type 0} (stmt : Executor Catalog Indexes → Outcome Catalog Indexes A)
        (s : Executor Catalog Indexes) (e : Error) (snap : Snapshot Catalog Indexes)
        → (begun s.current_txn s).txn_snapshot ≡ some snap
        → (stmt (begun s.current_txn s)).1 ≡ err e
        → (stmt (begun s.current_txn s)).0.txn_snapshot ≡ (begun s.current_txn s).txn_snapshot
        → Failed snap (exec_in_txn Catalog Indexes crc32 stmt s)
    unfolding exec_in_txn
    exec_in_txn-Failed stmt s e snap taken raised kept =
        in_txn-Failed s.current_txn stmt s e snap raised (kept ∙ taken)

    -- The effects of `rollback` on a log of whole records
    run-rollback :
        (t : Transaction) (rs : List Entry) (p : Pager)
        → HasLog crc32 rs p
        → AllFit rs
        → EntryFits (rollback_record t.id)
        → run crc32 (rollback_effects t) p ≡ record {
          pager = logged crc32 (keep_from (t.id + 1) (rs ++ (rollback_record t.id ∷ []))) p;
          raised = ok tt;
        }
    unfolding rollback_effects
    run-rollback t rs p h f g =
        let q = logged crc32 (rs ++ (rollback_record t.id ∷ [])) p in
        run-ok crc32 (append_rollback t.id) (truncate (t.id + 1) ∷ []) p q (
          unfold perform wal_append_rollback in
          wal_append-logged crc32 rs (rollback_record t.id) p h g)
        ∙ run-ok crc32 (truncate (t.id + 1)) [] q _ (
            perform-truncate crc32 (t.id + 1) (rs ++ (rollback_record t.id ∷ [])) q
              (HasLog-logged crc32 (rs ++ (rollback_record t.id ∷ [])) p)
              (AllFit-append rs (rollback_record t.id) f g))
        ∙ (unfold run in refl)

    AllFit-log : (rs xs : List Entry) → AllFit rs → AllFit xs → AllFit (rs ++ xs)
    AllFit-log [] xs f g = g
    AllFit-log (r ∷ rs) xs (f, fs) g = (f, AllFit-log rs xs fs g)

    rollback_lem :
        (t : Transaction) (rs : List Entry) (p : Pager)
        → t.state ≡ active
        → HasLog crc32 rs p
        → AllFit rs
        → EntryFits (rollback_record t.id)
        → Transaction.rollback crc32 t p ≡ (
          record t { state = rolled_back },
          record {
            pager = logged crc32 (keep_from (t.id + 1) (rs ++ (rollback_record t.id ∷ []))) p;
            raised = ok tt;
          },
        )
    unfolding Transaction.rollback roll_back
    rollback_lem t rs p a h f g =
        guard_active-active t _ (λ x. (t, record { pager = p; raised = err x })) a
        ∙ ap (roll_back t) (run-rollback t rs p h f g)

    exec_rollback-Open :
        (rs : List Entry) (t : Transaction) (s : Executor Catalog Indexes)
        → Open Catalog Indexes crc32 rs t s
        → AllFit rs
        → EntryFits (rollback_record t.id)
        → exec_rollback Catalog Indexes crc32 s ≡ (
          reverted Catalog Indexes (record s {
            pager = logged crc32 (keep_from (t.id + 1) (rs ++ (rollback_record t.id ∷ []))) s.pager;
          }),
          ok tt,
        )
    unfolding exec_rollback rollback_in rolled_run
    exec_rollback-Open rs t s o f g =
        ap (λ (c : Option Transaction). rollback_in Catalog Indexes crc32 c s) o.current
        ∙ ap (λ (d : Transaction × Run). rolled_run Catalog Indexes s d.0 d.1 d.1.raised)
            (rollback_lem t rs s.pager o.is_active o.log f g)

    reverted-pages :
        (j : ℕ) (s : Executor Catalog Indexes) (p : Pager)
        → txn_read_page Catalog Indexes j (reverted Catalog Indexes (record s { pager = p }))
          ≡ Pager.read_page j p
    unfolding reverted closed back_to restore_state txn_read_page get
    reverted-pages j s p =
        elim s.txn_snapshot
          as (λ o.
            txn_read_page Catalog Indexes j
              (closed Catalog Indexes (back_to Catalog Indexes o (record s { pager = p })))
            ≡ Pager.read_page j p) [ none ↦ refl | some snap ↦ refl ]

    Open-opened :
        (rs : List Entry) (s : Executor Catalog Indexes)
        → HasLog crc32 rs s.pager
        → Open Catalog Indexes crc32 rs (start s.next_txn_id) (opened Catalog Indexes s)
    unfolding opened start
    Open-opened rs s h = record { current = refl; is_active = refl; log = h }

    begin_lem :
        (s : Executor Catalog Indexes)
        → s.current_txn ≡ none
        → exec_begin Catalog Indexes s ≡ (opened Catalog Indexes s, ok tt)
    unfolding exec_begin begin_in
    begin_lem s h = ap (λ (c : Option Transaction). begin_in Catalog Indexes c s) h

    read_page-wal :
        (j : ℕ) (b : Option Bytes) (p : Pager)
        → Pager.read_page j (record p { wal = b }) ≡ Pager.read_page j p
    unfolding Pager.read_page Pager.mmap_slice
    read_page-wal j b p = refl

    unbuffered :
        (j : ℕ) (s : Executor Catalog Indexes)
        → s.page_buffer ≡ []
        → Pager.read_page j s.pager ≡ txn_read_page Catalog Indexes j s
    unfolding txn_read_page get
    unbuffered j s h =
        ap (λ (d : Dict Bytes). Option.get_or (get j d) (Pager.read_page j s.pager)) (sym h)

    -- BEGIN, any page writes and ROLLBACK, from a state with no transaction open, an empty page buffer and a
    -- log of whole records, with records that fit the fields of the log: none of them raises, and behind them
    -- no transaction is open, nothing is buffered, every page reads as before, and the catalog, the page lists
    -- and the indexes are as before.
    pub rollback-begin :
        (ws : List (ℕ × Bytes)) (rs : List Entry) (s : Executor Catalog Indexes)
        → s.current_txn ≡ none
        → s.page_buffer ≡ []
        → HasLog crc32 rs s.pager
        → AllFit rs
        → AllFit (log_of s.next_txn_id ws)
        → EntryFits (rollback_record s.next_txn_id)
        → ((exec_begin Catalog Indexes s).1 ≡ ok tt)
          × (s' : Executor Catalog Indexes) × (txn_writes Catalog Indexes crc32 ws
                (exec_begin Catalog Indexes s).0
              ≡ (s', ok tt))
          × ((exec_rollback Catalog Indexes crc32 s').1 ≡ ok tt)
          × Reverted (snapshot_state Catalog Indexes s) (exec_rollback Catalog Indexes crc32 s').0
          × ((j : ℕ)
              → txn_read_page Catalog Indexes j (exec_rollback Catalog Indexes crc32 s').0
                ≡ txn_read_page Catalog Indexes j s)
    unfolding opened start
    rollback-begin ws rs s idle clean h f fw fr =
        let t = start s.next_txn_id in
        let o = opened Catalog Indexes s in
        let (s', e, w) = txn_writes-Wrote Catalog Indexes crc32 ws rs t o (Open-opened rs s h) fw in
        let p =
          logged crc32
            (keep_from (w.txn.id + 1) ((rs ++ log_of t.id ws) ++ (rollback_record w.txn.id ∷ [])))
            s'.pager in
        let r : exec_rollback Catalog Indexes crc32 s'
            ≡ (reverted Catalog Indexes (record s' { pager = p }), ok tt) =
          exec_rollback-Open (rs ++ log_of t.id ws) w.txn s' w.open_now
            (AllFit-log rs (log_of t.id ws) f fw)
            (subst (λ (i : ℕ). EntryFits (rollback_record i)) (sym w.same_id) fr) in
        (
          ap (λ (x : Outcome Catalog Indexes Unit). x.1) (begin_lem s idle),
          s',
          rw (begin_lem s idle) e,
          ap (λ (x : Outcome Catalog Indexes Unit). x.1) r,
          subst
              (λ (x : Outcome Catalog Indexes Unit).
                Reverted (snapshot_state Catalog Indexes s) x.0)
              (sym r)
              (reverted-Reverted (snapshot_state Catalog Indexes s) (record s' { pager = p })
                w.snapshot),
          λ j.
              ap (λ (x : Outcome Catalog Indexes Unit). txn_read_page Catalog Indexes j x.0) r
              ∙ reverted-pages j s' p
              ∙ read_page-wal j _ s'.pager
              ∙ w.pages j
              ∙ unbuffered j s clean,
        )
