-- ===== src/Recovery/Tests.antt =====
-- The theorems on replay and on crashes at a transaction with two pending pages.
use tinydb_cc_comet.Prelude.{ℕ, ◌≡◌, refl, false, none, some, [], ◌∷◌, ◌++◌, arith, take}
use tinydb_cc_comet.Errors.{ok, active, committed}
use tinydb_cc_comet.Dict.{put}
use tinydb_cc_comet.Pager.{Pager, get_or_open_wal}
use tinydb_cc_comet.Pager.Files.{byte_at}
use tinydb_cc_comet.Wal.{make_header}
use tinydb_cc_comet.Wal.Fields.{EntryFits, AllFit, all_bytes}
use tinydb_cc_comet.Wal.Tests.{sum_crc}
use tinydb_cc_comet.Transaction.{Transaction, commit}
use tinydb_cc_comet.Transaction.Logged.{commit_record, log_of, puts, HasLog}
use tinydb_cc_comet.Transaction.Tests.{two_pages, two_pages-AllFit}
use tinydb_cc_comet.Recovery.{Outcome, apply_writes, replay}
use tinydb_cc_comet.Recovery.Atomic.{apply_writes-take}
use tinydb_cc_comet.Recovery.Replay.{written}
use tinydb_cc_comet.Recovery.Serial.{serial, replay-serial}
use tinydb_cc_comet.Recovery.Ended.{end_of, replay-ended, replay-stale}
use tinydb_cc_comet.Recovery.Crash.{crashed, replay-crashed, commit_lem}

abbrev writer : Transaction
writer = record { id = 9; state = active; pending_writes = two_pages }

abbrev before : Pager
before = record {
  is_memory = false;
  mem_pages = [];
  file = 1 ∷ 2 ∷ 3 ∷ [];
  mmap_size = 0;
  next_page_id = 3;
  wal = some (make_header ++ all_bytes sum_crc (log_of 9 two_pages));
}

before-HasLog : HasLog sum_crc (log_of 9 two_pages) before
unfolding get_or_open_wal
before-HasLog = refl

commit_record-EntryFits : EntryFits (commit_record 9)
commit_record-EntryFits = record {
  txn_fits = omega arith;
  kind_fits = omega arith;
  page_fits = omega arith;
  payload_fits = omega arith;
}

two_pages-puts : two_pages ≡ puts two_pages []
unfolding put
two_pages-puts = refl

replay-crashed_example :
    (out : Outcome) × (replay sum_crc
        (crashed sum_crc 3 writer before).file
        (get_or_open_wal (crashed sum_crc 3 writer before))
      ≡ some out)
    × (out.raised ≡ none)
    × ((i : ℕ) → byte_at out.main i ≡ byte_at (apply_writes two_pages before.file) i)
replay-crashed_example =
    replay-crashed sum_crc writer two_pages before refl before-HasLog two_pages-AllFit
      commit_record-EntryFits two_pages-puts 3

commit_lem_example : commit sum_crc writer before ≡ (
  record writer { state = committed },
  record {
    pager = record before { wal = some make_header; file = apply_writes two_pages before.file };
    raised = ok tt;
  },
)
commit_lem_example =
    commit_lem sum_crc writer two_pages before refl before-HasLog two_pages-AllFit
      commit_record-EntryFits two_pages-puts refl

apply_writes-take_example :
    byte_at (apply_writes two_pages (apply_writes (take 1 two_pages) before.file)) 4097
    ≡ byte_at (apply_writes two_pages before.file) 4097
apply_writes-take_example = apply_writes-take two_pages 1 before.file 4097

two_pages-ended : AllFit (log_of 9 two_pages ++ end_of committed 9)
two_pages-ended = (two_pages-AllFit.0, (two_pages-AllFit.1.0, (commit_record-EntryFits, tt)))

replay-ended_example :
    replay sum_crc before.file
      (make_header ++ all_bytes sum_crc (log_of 9 two_pages ++ end_of committed 9))
    ≡ some (record { main = written two_pages before.file; log = make_header; raised = none })
unfolding put
replay-ended_example =
    replay-ended sum_crc 9 (1, 5 ∷ 6 ∷ []) ((2, 7 ∷ []) ∷ []) committed before.file two_pages-ended

replay-stale_example :
    (replay sum_crc before.file (make_header ++ all_bytes sum_crc (commit_record 9 ∷ []))
      ≡ some (record {
        main = before.file;
        log = make_header ++ all_bytes sum_crc (commit_record 9 ∷ []);
        raised = none;
      }))
    × (out : Outcome) × (replay sum_crc before.file
          (make_header ++ all_bytes sum_crc (commit_record 9 ∷ log_of 9 two_pages))
        ≡ some out)
    × (out.raised ≡ none)
    × (out.main ≡ written (puts two_pages []) before.file)
replay-stale_example =
    replay-stale sum_crc 9 two_pages before.file (omega arith) commit_record-EntryFits
      two_pages-AllFit

replay-serial_example :
    (out : Outcome) × (replay sum_crc before.file
        (make_header ++ all_bytes sum_crc (log_of 9 two_pages ++ end_of committed 9))
      ≡ some out)
    × (out.raised ≡ none)
    × (out.main ≡ serial (log_of 9 two_pages ++ end_of committed 9) 0 10 before.file)
replay-serial_example =
    replay-serial sum_crc 10 (log_of 9 two_pages ++ end_of committed 9) before.file two_pages-ended
      (omega arith, (omega arith, (omega arith, tt)))
