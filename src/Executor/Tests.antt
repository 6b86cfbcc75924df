-- ===== src/Executor/Tests.antt =====
-- The executor's theorems at a fresh file, with numbers for the catalog and the indexes.
use tinydb_cc_comet.Prelude.{ℕ, ◌≡◌, refl, sym, append-nil, none, some, [], arith}
use tinydb_cc_comet.Errors.{ok, err, execution_error}
use tinydb_cc_comet.Wal.{make_header}
use tinydb_cc_comet.Wal.Fields.{EntryFits}
use tinydb_cc_comet.Wal.Tests.{sum_crc}
use tinydb_cc_comet.Pager.{create_file, get_or_open_wal}
use tinydb_cc_comet.Transaction.{start}
use tinydb_cc_comet.Transaction.Tests.{two_pages, two_pages-AllFit}
use tinydb_cc_comet.Transaction.Logged.{rollback_record, HasLog}
use tinydb_cc_comet.Executor.{
  Executor, Outcome, snapshot_state, opened, exec_begin, exec_rollback, exec_in_txn, txn_read_page,
}
use tinydb_cc_comet.Executor.Pages.{Open, txn_writes, written, txn_read_page-txn_writes}
use tinydb_cc_comet.Executor.Rollback.{Reverted, Failed, exec_in_txn-Failed, rollback-begin}

abbrev fresh : Executor ℕ ℕ
fresh = record {
  pager = create_file;
  catalog = 5;
  table_data_pages = [];
  indexes = 7;
  current_txn = none;
  next_txn_id = 9;
  page_buffer = [];
  txn_snapshot = none;
}

abbrev in_block : Executor ℕ ℕ
in_block = record fresh { current_txn = some (start 9) }

-- A statement that changes the catalog and raises
abbrev broken : Executor ℕ ℕ → Outcome ℕ ℕ ℕ
broken s = (record s { catalog = 6 }, err execution_error)

fresh-HasLog : HasLog sum_crc [] create_file
unfolding get_or_open_wal create_file
fresh-HasLog = sym (append-nil make_header)

in_block-Open : Open ℕ ℕ sum_crc [] (start 9) in_block
unfolding start
in_block-Open = record { current = refl; is_active = refl; log = fresh-HasLog }

rollback_record-Fits : EntryFits (rollback_record 9)
rollback_record-Fits = record {
  txn_fits = omega arith;
  kind_fits = omega arith;
  page_fits = omega arith;
  payload_fits = omega arith;
}

exec_in_txn-Failed_example :
    Failed ℕ ℕ sum_crc (snapshot_state ℕ ℕ fresh) (exec_in_txn ℕ ℕ sum_crc broken fresh)
unfolding opened
exec_in_txn-Failed_example =
    exec_in_txn-Failed ℕ ℕ sum_crc broken fresh execution_error (snapshot_state ℕ ℕ fresh) refl refl
      refl

txn_read_page-txn_writes_example :
    (s' : Executor ℕ ℕ) × (txn_writes ℕ ℕ sum_crc two_pages in_block ≡ (s', ok tt))
    × ((j : ℕ) → txn_read_page ℕ ℕ j s' ≡ written two_pages (λ k. txn_read_page ℕ ℕ k in_block) j)
unfolding start
txn_read_page-txn_writes_example =
    txn_read_page-txn_writes ℕ ℕ sum_crc two_pages [] (start 9) in_block in_block-Open
      two_pages-AllFit

rollback-begin_example :
    ((exec_begin ℕ ℕ fresh).1 ≡ ok tt)
    × (s' : Executor ℕ ℕ) × (txn_writes ℕ ℕ sum_crc two_pages (exec_begin ℕ ℕ fresh).0
        ≡ (s', ok tt))
    × ((exec_rollback ℕ ℕ sum_crc s').1 ≡ ok tt)
    × Reverted ℕ ℕ (snapshot_state ℕ ℕ fresh) (exec_rollback ℕ ℕ sum_crc s').0
    × ((j : ℕ) → txn_read_page ℕ ℕ j (exec_rollback ℕ ℕ sum_crc s').0 ≡ txn_read_page ℕ ℕ j fresh)
rollback-begin_example =
    rollback-begin ℕ ℕ sum_crc two_pages [] fresh refl refl fresh-HasLog tt two_pages-AllFit
      rollback_record-Fits
