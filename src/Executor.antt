-- ===== src/Executor.antt =====
-- src/tinydb/executor.py and _executor_snapshot.py: the transactions around statements, and the pages
-- that statements read, write and free through them. A statement is any function of the executor: it may
-- raise, and what it did before it raised stays done. The catalog and the indexes are of any types.
pub mod Pages
pub mod Rollback
pub mod Tests
use mathlib.Core.Option
use tinydb_cc_comet.Prelude.{
  ℕ, zero, suc, ◌+◌, Bool, true, false, Option, none, some, List, [], ◌∷◌, slice, set_slice,
}
use tinydb_cc_comet.Errors.{Error, Result, ok, err, ◌>>=◌, execution_error, attribute_error}
use tinydb_cc_comet.Bytes.{Bytes, int_to_bytes, int_from_bytes}
use tinydb_cc_comet.Dict.{Dict, get, put}
use tinydb_cc_comet.TypeSystem.{Text}
use tinydb_cc_comet.Pager
use tinydb_cc_comet.Pager.{Pager}
use tinydb_cc_comet.Transaction
use tinydb_cc_comet.Transaction.{Transaction, Run, start}

-- The old head of the free list and the new one, as the four bytes of each
unfoldable pub free_links : ℕ → Bytes → Result (Bytes × Bytes)
free_links page_id page0 = do
  old_head ← int_to_bytes 4 (int_from_bytes (slice 9 13 page0))
  head ← int_to_bytes 4 page_id
  ok (old_head, head)

-- The error of the rollback, if there is one, comes before that of the statement.
abbrev pub worst {ℓ} : {A : Type ℓ} → Error → Result {0} Unit → Result A
worst e (ok _) = err e
worst e (err x) = err x

module _ (Catalog Indexes : Type 0) where
  -- What `snapshot_state` copies
  pub record Snapshot : Type 0 where
    pub catalog : Catalog
    pub table_data_pages : List (Text × List ℕ)
    pub indexes : Indexes

  pub record Executor : Type 0 where
    pub pager : Pager
    pub catalog : Catalog
    pub table_data_pages : List (Text × List ℕ)
    pub indexes : Indexes
    pub current_txn : Option Transaction
    pub next_txn_id : ℕ
    pub page_buffer : Dict Bytes
    pub txn_snapshot : Option Snapshot

  -- What a call leaves, whether or not it raised
  abbrev pub Outcome : Type 0 → Type 0
  Outcome A = Executor × Result A

  unfoldable pub snapshot_state : Executor → Snapshot
  snapshot_state s = record {
    catalog = s.catalog;
    table_data_pages = s.table_data_pages;
    indexes = s.indexes;
  }

  unfoldable pub restore_state : Snapshot → Executor → Executor
  restore_state snap s = record s {
    catalog = snap.catalog;
    table_data_pages = snap.table_data_pages;
    indexes = snap.indexes;
  }

  unfoldable pub txn_read_page : ℕ → Executor → Bytes
  txn_read_page page_id s =
      Option.get_or (get page_id s.page_buffer) (Pager.read_page page_id s.pager)

  -- A transaction is opened, with a snapshot to come back to.
  unfoldable pub opened : Executor → Executor
  unfolding snapshot_state
  opened s = record s {
    current_txn = some (start s.next_txn_id);
    next_txn_id = s.next_txn_id + 1;
    txn_snapshot = some (snapshot_state s);
  }

  unfoldable pub begin_in : Option Transaction → Executor → Outcome Unit
  unfolding opened
  begin_in (some t) s = (s, err execution_error)
  begin_in none s = (opened s, ok tt)

  unfoldable pub exec_begin : Executor → Outcome Unit
  unfolding begin_in
  exec_begin s = begin_in s.current_txn s

  -- The state when the transaction is over and its changes stay
  unfoldable pub closed : Executor → Executor
  closed s = record s { current_txn = none; page_buffer = []; txn_snapshot = none }

  unfoldable pub back_to : Option Snapshot → Executor → Executor
  unfolding restore_state
  back_to none s = s
  back_to (some snap) s = restore_state snap s

  -- The state when it is over and its changes do not
  unfoldable pub reverted : Executor → Executor
  unfolding closed back_to
  reverted s = closed (back_to s.txn_snapshot s)

  -- What `commit` or `rollback` of the transaction leaves when it raised
  unfoldable pub stuck : Transaction → Run → Executor → Executor
  stuck t r s = record s { pager = r.pager; current_txn = some t }

  -- A write within the transaction, and one outside of any
  unfoldable pub buffered : ℕ → Bytes → Executor → Result (Transaction × Pager) → Outcome Unit
  buffered i bytes s (ok (t, p)) =
      (record s { pager = p; current_txn = some t; page_buffer = put i bytes s.page_buffer }, ok tt)
  buffered i bytes s (err e) = (s, err e)

  unfoldable pub stored : Executor → Result Pager → Outcome Unit
  stored s (ok p) = (record s { pager = p }, ok tt)
  stored s (err e) = (s, err e)

  -- COMMIT and ROLLBACK, by how the transaction's own call ended
  unfoldable pub committed_run :
      {A : Type 0} → A → Executor → Transaction → Run → Result {0} Unit → Outcome A
  unfolding closed stuck
  committed_run a s t r (ok _) = (closed (record s { pager = r.pager }), ok a)
  committed_run a s t r (err e) = (stuck t r s, err e)

  unfoldable pub rolled_run : Executor → Transaction → Run → Result {0} Unit → Outcome Unit
  unfolding reverted stuck
  rolled_run s t r (ok _) = (reverted (record s { pager = r.pager }), ok tt)
  rolled_run s t r (err e) = (stuck t r s, err e)

  module _ (crc32 : Bytes → ℕ) where
    unfoldable pub write_in : Option Transaction → ℕ → Bytes → Executor → Outcome Unit
    unfolding buffered stored
    write_in (some t) page_id bytes s =
        buffered page_id bytes s (Transaction.write_page crc32 page_id bytes t s.pager)
    write_in none page_id bytes s = stored s (Pager.write_page page_id bytes s.pager)

    unfoldable pub txn_write_page : ℕ → Bytes → Executor → Outcome Unit
    unfolding write_in
    txn_write_page page_id bytes s = write_in s.current_txn page_id bytes s

    -- Two page writes, of which the second is left out when the first raises
    unfoldable pub write_both : ℕ → Bytes → ℕ → Bytes → Executor → Outcome Unit
    write_both i a j b s =
        let r = txn_write_page i a s in
        elim r.1 [ ok _ ↦ txn_write_page j b r.0 | err e ↦ (r.0, err e) ]

    unfoldable pub txn_free_page : ℕ → Executor → Outcome Unit
    unfolding stored
    txn_free_page page_id s = elim s.current_txn [
      | none ↦ stored s (Pager.free_page page_id s.pager)
      | some t ↦
          let page0 = txn_read_page 0 s in
          let freed = txn_read_page page_id s in
          elim (free_links page_id page0) [
            | err e ↦ (s, err e)
            | ok links ↦
                write_both 0 (set_slice 9 13 links.1 page0) page_id (set_slice 0 4 links.0 freed) s
          ]
    ]

    -- COMMIT of the open transaction; without one, `missing` is raised.
    unfoldable pub commit_in : {A : Type 0} → Option Transaction → Error → A → Executor → Outcome A
    unfolding committed_run
    commit_in none missing a s = (s, err missing)
    commit_in (some t) missing a s =
        let done = Transaction.commit crc32 t s.pager in
        committed_run a s done.0 done.1 done.1.raised

    unfoldable pub exec_commit : Executor → Outcome Unit
    unfolding commit_in
    exec_commit s = commit_in s.current_txn execution_error tt s

    unfoldable pub rollback_in : Option Transaction → Executor → Outcome Unit
    unfolding rolled_run
    rollback_in none s = (s, err execution_error)
    rollback_in (some t) s =
        let done = Transaction.rollback crc32 t s.pager in rolled_run s done.0 done.1 done.1.raised

    unfoldable pub exec_rollback : Executor → Outcome Unit
    unfolding rollback_in
    exec_rollback s = rollback_in s.current_txn s

    unfoldable pub fail_in : {A : Type 0} → Option Transaction → Error → Executor → Outcome A
    unfolding reverted
    fail_in none e s = (reverted s, err attribute_error)
    fail_in (some t) e s =
        let done = Transaction.rollback crc32 t s.pager in
        (reverted (record s { pager = done.1.pager }), worst e done.1.raised)

    -- Behind an implicit BEGIN
    unfoldable pub conclude_implicit : {A : Type 0} → Executor → Result A → Outcome A
    unfolding commit_in fail_in
    conclude_implicit s (ok a) = commit_in s.current_txn attribute_error a s
    conclude_implicit s (err e) = fail_in s.current_txn e s

    -- Within an explicit transaction
    unfoldable pub conclude_explicit : {A : Type 0} → Executor → Result A → Outcome A
    unfolding fail_in
    conclude_explicit s (ok a) = (s, ok a)
    conclude_explicit s (err e) = fail_in s.current_txn e s

    unfoldable pub in_txn :
        {A : Type 0} → Option Transaction → (Executor → Outcome A) → Executor → Outcome A
    unfolding conclude_implicit conclude_explicit
    in_txn none stmt s = let r = stmt (opened s) in conclude_implicit r.0 r.1
    in_txn (some t) stmt s = let r = stmt s in conclude_explicit r.0 r.1

    unfoldable pub exec_in_txn : {A : Type 0} → (Executor → Outcome A) → Executor → Outcome A
    unfolding in_txn
    exec_in_txn stmt s = in_txn s.current_txn stmt s
