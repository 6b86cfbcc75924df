-- ===== src/Recovery.antt =====
-- src/tinydb/recovery.py: replay of the log into the main file when a database is opened.
-- The main file is its bytes. The guard against re-entry is not modelled: the inner pager of
-- `_apply_committed` only writes pages.
pub mod Atomic
pub mod Replay
pub mod Ended
pub mod Keys
pub mod Noted
pub mod Serial
pub mod Effects
pub mod Crash
pub mod Tests
use mathlib.Core.Option
use tinydb_cc_comet.Prelude.{
  ℕ, ◌+◌, ◌*◌, max, Bool, Option, none, some, List, [], ◌∷◌, map, take, leb, ◌==◌, if◌then◌else◌,
}
use tinydb_cc_comet.Errors.{
  TxnState, active, committed, rolled_back, Error, Result, ok, err, wal_corruption,
}
use tinydb_cc_comet.Bytes.{Bytes}
use tinydb_cc_comet.Dict.{Dict, get, put, set_default}
use tinydb_cc_comet.Wal
use tinydb_cc_comet.Wal.{Entry, Scan, begin, page_write, header_size, iter_records, truncate_before}
use tinydb_cc_comet.Pager.{page_size, file_write}

pub record Table : Type 0 where
  pub pending : Dict (Dict Bytes)
  pub status : Dict TxnState

abbrev pub no_table : Table
no_table = record { pending = []; status = [] }

-- One round of the loop of `replay`
unfoldable pub note : Table → Entry → Table
note t r =
    if r.kind == begin
    then record {
      status = put r.txn_id active t.status;
      pending = set_default r.txn_id [] t.pending;
    }
    else if r.kind == page_write
    then record t {
      pending =
          put r.txn_id (put r.page_id r.payload (Option.get_or (get r.txn_id t.pending) []))
            t.pending;
    }
    else if r.kind == Wal.commit
    then record t { status = put r.txn_id committed t.status }
    else if r.kind == Wal.rollback
    then record t { status = put r.txn_id rolled_back t.status }
    else t

unfoldable pub note_all : Table → List Entry → Table
note_all t [] = t
note_all t (r ∷ rs) = note_all (note t r) rs

-- `for page_id, data in pending[txn_id].items(): p.write_main_page(page_id, data)` on a file
unfoldable pub apply_writes : Dict Bytes → Bytes → Bytes
apply_writes [] main = main
apply_writes ((page_id, bytes) ∷ writes) main =
    apply_writes writes (file_write (page_id * page_size) bytes main)

unfoldable pub insert_sorted : ℕ → List ℕ → List ℕ
insert_sorted k [] = k ∷ []
insert_sorted k (j ∷ ks) = if leb k j then k ∷ j ∷ ks else j ∷ insert_sorted k ks

-- sorted(…)
unfoldable pub sorted : List ℕ → List ℕ
sorted [] = []
sorted (k ∷ ks) = insert_sorted k (sorted ks)

abbrev pub is_committed : Option TxnState → Bool
is_committed none = Bool.false
is_committed (some active) = Bool.false
is_committed (some committed) = Bool.true
is_committed (some rolled_back) = Bool.false

unfoldable pub apply_each : List ℕ → Table → Bytes → Bytes
apply_each [] t main = main
apply_each (k ∷ ks) t main = apply_each ks t (
    if is_committed (get k t.status)
    then apply_writes (Option.get_or (get k t.pending) []) main
    else main)

unfoldable pub apply_committed : Table → Bytes → Bytes
apply_committed t main = apply_each (sorted (map (λ e. e.0) t.pending)) t main

unfoldable pub max_key : Dict (Dict Bytes) → ℕ
max_key [] = 0
max_key ((k, v) ∷ d) = max k (max_key d)

-- The lowest id that the truncation keeps
unfoldable pub keep_id : Dict (Dict Bytes) → ℕ
keep_id [] = 1
keep_id (e ∷ d) = max_key (e ∷ d) + 1

-- What `replay` leaves: the main file, the log, and the exception that it raises.
pub record Outcome : Type 0 where
  pub main : Bytes
  pub log : Bytes
  pub raised : Option Error

abbrev pub outcome_of : Bytes → Bytes → Option (Result Bytes) → Option Outcome
outcome_of main wal none = none
outcome_of main wal (some (ok log)) = some (record { main = main; log = log; raised = none })
outcome_of main wal (some (err x)) = some (record { main = main; log = wal; raised = some x })

module _ (crc32 : Bytes → ℕ) where
  unfoldable pub replay_scan : Bytes → Bytes → Scan → Option Outcome
  replay_scan main wal s =
      let t = note_all no_table s.records in
      let main' = apply_committed t main in
      elim s.corrupt [
        | some offset ↦ some (record {
          main = main';
          log = take (max header_size offset) wal;
          raised = some (wal_corruption offset);
        })
        | none ↦ outcome_of main' wal (truncate_before crc32 (keep_id t.pending) wal)
      ]

  unfoldable pub replay : Bytes → Bytes → Option Outcome
  replay main wal = elim (iter_records crc32 wal) [ none ↦ none | some s ↦ replay_scan main wal s ]
