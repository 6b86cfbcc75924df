-- ===== src/Transaction.antt =====
-- src/tinydb/transaction.py: the states of a transaction, its pending writes, and `commit` and
-- `rollback` as the sequences of effects that they have on the pager. `fsync` changes no bytes.
pub mod Logged
pub mod Tests
use tinydb_cc_comet.Prelude.{ℕ, ◌+◌, List, [], ◌∷◌, ◌++◌, map, ◌≡◌, ap}
use tinydb_cc_comet.Errors.{
  TxnState, active, committed, rolled_back, Error, Result, ok, err, ◌>>=◌, invalid_txn_state,
}
use tinydb_cc_comet.Bytes.{Bytes}
use tinydb_cc_comet.Dict.{Dict, put}
use tinydb_cc_comet.Pager.{
  Pager, wal_append_page, wal_append_commit, wal_append_rollback, wal_truncate_before,
  write_main_page,
}

pub record Transaction : Type 0 where
  pub id : ℕ
  pub state : TxnState
  pub pending_writes : Dict Bytes

unfoldable pub start : ℕ → Transaction
start txn_id = record { id = txn_id; state = active; pending_writes = [] }

-- The calls that `commit` and `rollback` make on the pager.
pub data Effect : Type 0 where
  append_commit append_rollback truncate : ℕ → Effect
  fsync_wal fsync_main : Effect
  write_main : ℕ → Bytes → Effect

unfoldable pub commit_effects : Transaction → List Effect
commit_effects t =
    append_commit t.id
    ∷ fsync_wal
    ∷ (map (λ w. write_main w.0 w.1) t.pending_writes ++ (fsync_main ∷ truncate (t.id + 1) ∷ []))

unfoldable pub rollback_effects : Transaction → List Effect
rollback_effects t = append_rollback t.id ∷ truncate (t.id + 1) ∷ []

-- What a run of effects leaves, whether or not one of them raised.
pub record Run : Type 0 where
  pub pager : Pager
  pub raised : Result {0} Unit

abbrev pub guard_active {ℓ} : {A : Type ℓ} → Transaction → A → (Error → A) → A
guard_active t go stop = elim t.state [
  | active ↦ go
  | committed ↦ stop (invalid_txn_state t.id committed)
  | rolled_back ↦ stop (invalid_txn_state t.id rolled_back)
]

pub guard_active-active {ℓ} :
    {A : Type ℓ} (t : Transaction) (go : A) (stop : Error → A)
    → t.state ≡ active
    → guard_active t go stop ≡ go
guard_active-active t go stop h =
    ap
      (λ s. elim s [
        | active ↦ go
        | committed ↦ stop (invalid_txn_state t.id committed)
        | rolled_back ↦ stop (invalid_txn_state t.id rolled_back)
      ])
      h

unfoldable pub settle : Transaction → Run → Transaction × Run
settle t r = elim r.raised [
  | ok _ ↦ (record t { state = committed }, r)
  | err x ↦ (record t { state = rolled_back }, r)
]

-- An exception within leaves the state ACTIVE.
unfoldable pub roll_back : Transaction → Run → Transaction × Run
roll_back t r = elim r.raised [ ok _ ↦ (record t { state = rolled_back }, r) | err x ↦ (t, r) ]

module _ (crc32 : Bytes → ℕ) where
  unfoldable pub perform : Effect → Pager → Result Pager
  perform (append_commit i) p = wal_append_commit crc32 i p
  perform (append_rollback i) p = wal_append_rollback crc32 i p
  perform (truncate i) p = wal_truncate_before crc32 i p
  perform fsync_wal p = ok p
  perform fsync_main p = ok p
  perform (write_main pid bytes) p = write_main_page pid bytes p

  -- The effects in order, up to the first that raises.
  unfoldable pub run : List Effect → Pager → Run
  run [] p = record { pager = p; raised = ok tt }
  run (e ∷ es) p = elim (perform e p) [
    | ok p' ↦ run es p'
    | err x ↦ record { pager = p; raised = err x }
  ]

  -- The log record comes first; if its append raises, nothing is pending.
  unfoldable pub write_page : ℕ → Bytes → Transaction → Pager → Result (Transaction × Pager)
  write_page page_id bytes t p =
      guard_active t
        (do
          p' ← wal_append_page crc32 t.id page_id bytes p
          ok (record t { pending_writes = put page_id bytes t.pending_writes }, p'))
        (λ x. err x)

  -- An exception within leaves the state ROLLED_BACK and is raised again.
  unfoldable pub commit : Transaction → Pager → Transaction × Run
  commit t p =
      guard_active t (settle t (run (commit_effects t) p))
        (λ x. (t, record { pager = p; raised = err x }))

  unfoldable pub rollback : Transaction → Pager → Transaction × Run
  rollback t p =
      guard_active t (roll_back t (run (rollback_effects t) p))
        (λ x. (t, record { pager = p; raised = err x }))
