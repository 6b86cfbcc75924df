-- ===== src/Recovery/Replay.antt =====
-- `replay` on a whole log by its table, and the table behind the page writes of one transaction,
-- without its COMMIT and with it.
use tinydb_cc_comet.Prelude.{
  ℕ, ◌*◌, ◌≡◌, refl, ap, ◌∙◌, true, none, some, List, [], ◌∷◌, ◌++◌, arith, ◌==◌,
}
use tinydb_cc_comet.Errors.{ok, committed}
use tinydb_cc_comet.Bytes.{Bytes}
use tinydb_cc_comet.Dict.{Dict, put, get}
use tinydb_cc_comet.Pager.{page_size, file_write}
use tinydb_cc_comet.Wal.{Entry, Scan, make_header, iter_records, truncate_before, keep_from}
use tinydb_cc_comet.Wal.Fields.{AllFit, all_bytes, encode_all-all_bytes}
use tinydb_cc_comet.Wal.Reading.{iter_records-encode_all}
use tinydb_cc_comet.Wal.Truncate.{truncate_before-eq}
use tinydb_cc_comet.Transaction.Logged.{page_record, commit_record, log_of, puts}
use tinydb_cc_comet.Recovery.{
  Table, no_table, note, note_all, apply_writes, apply_each, apply_committed, sorted, insert_sorted,
  keep_id, Outcome, replay_scan, replay,
}

pub note_all-append :
    (t : Table) (rs ss : List Entry) → note_all t (rs ++ ss) ≡ note_all (note_all t rs) ss
unfolding note_all
note_all-append t [] ss = refl
note_all-append t (r ∷ rs) ss = note_all-append (note t r) rs ss

module _ (id : ℕ) where
  abbrev pub pending_table : Dict Bytes → Table
  pending_table d = record { pending = (id, d) ∷ []; status = [] }

  note-page :
      (d : Dict Bytes) (w : ℕ × Bytes)
      → note (pending_table d) (page_record id w) ≡ pending_table (put w.0 w.1 d)
  unfolding note put get
  note-page d w = let e : (id == id) ≡ true = ground arith in rw e

  pub note_all-log_of :
      (ws : List (ℕ × Bytes)) (d : Dict Bytes)
      → note_all (pending_table d) (log_of id ws) ≡ pending_table (puts ws d)
  unfolding note_all
  note_all-log_of [] d = refl
  note_all-log_of (w ∷ ws) d =
      ap (λ (t : Table). note_all t (log_of id ws)) (note-page d w)
      ∙ note_all-log_of ws (put w.0 w.1 d)

  pub note-first :
      (w : ℕ × Bytes) → note no_table (page_record id w) ≡ pending_table (put w.0 w.1 [])
  unfolding note put get
  note-first w = refl

  apply-uncommitted :
      (d : Dict Bytes) (main : Bytes) → apply_committed (pending_table d) main ≡ main
  unfolding apply_committed sorted insert_sorted apply_each get
  apply-uncommitted d main = refl

  abbrev pub committed_table : Dict Bytes → Table
  committed_table d = record { pending = (id, d) ∷ []; status = (id, committed) ∷ [] }

  pub apply-committed :
      (d : Dict Bytes) (main : Bytes)
      → apply_committed (committed_table d) main ≡ apply_writes d main
  unfolding apply_committed sorted insert_sorted apply_each get
  apply-committed d main = let e : (id == id) ≡ true = ground arith in rw e

  pub note-commit : (d : Dict Bytes) → note (pending_table d) (commit_record id) ≡ committed_table d
  unfolding note put
  note-commit d = refl

  -- The main file after the records, without the COMMIT and with it
  pub main_uncommitted :
      (ws : List (ℕ × Bytes)) (main : Bytes)
      → apply_committed (note_all no_table (log_of id ws)) main ≡ main
  unfolding note_all
  main_uncommitted [] main = unfold apply_committed sorted apply_each in refl
  main_uncommitted (w ∷ ws) main =
      ap (λ (t : Table). apply_committed t main)
        (ap (λ (t : Table). note_all t (log_of id ws)) (note-first w)
          ∙ note_all-log_of ws (put w.0 w.1 []))
      ∙ apply-uncommitted (puts ws (put w.0 w.1 [])) main

  pub main_committed :
      (ws : List (ℕ × Bytes)) (main : Bytes)
      → apply_committed (note_all no_table (log_of id ws ++ commit_record id ∷ [])) main
        ≡ apply_writes (puts ws []) main
  unfolding note_all
  main_committed [] main = unfold note put apply_committed sorted apply_each apply_writes in refl
  main_committed (w ∷ ws) main =
      let d = puts ws (put w.0 w.1 []) in
      ap (λ (t : Table). apply_committed t main)
        (note_all-append (note no_table (page_record id w)) (log_of id ws) (commit_record id ∷ [])
          ∙ ap (λ (t : Table). note (note_all t (log_of id ws)) (commit_record id)) (note-first w)
          ∙ ap (λ (t : Table). note t (commit_record id)) (note_all-log_of ws (put w.0 w.1 []))
          ∙ note-commit d)
      ∙ apply-committed d main

replay-eq :
    (crc32 : Bytes → ℕ) (main wal : Bytes) (s : Scan)
    → iter_records crc32 wal ≡ some s
    → replay crc32 main wal ≡ replay_scan crc32 main wal s
unfolding replay
replay-eq crc32 main wal s h = rw (h, replay)

replay_scan-eq :
    (crc32 : Bytes → ℕ) (main wal log : Bytes) (rs : List Entry)
    → truncate_before crc32 (keep_id (note_all no_table rs).pending) wal ≡ some (ok log)
    → replay_scan crc32 main wal (record { records = rs; corrupt = none })
      ≡ some
          (record { main = apply_committed (note_all no_table rs) main; log = log; raised = none })
unfolding replay_scan
replay_scan-eq crc32 main wal log rs h = rw h

-- On whole records `replay` raises nothing and applies what its table says.
pub replay_table :
    (crc32 : Bytes → ℕ) (main : Bytes) (rs : List Entry)
    → AllFit rs
    → replay crc32 main (make_header ++ all_bytes crc32 rs)
      ≡ some (record {
        main = apply_committed (note_all no_table rs) main;
        log =
            make_header ++ all_bytes crc32 (keep_from (keep_id (note_all no_table rs).pending) rs);
        raised = none;
      })
replay_table crc32 main rs f =
    let bytes = all_bytes crc32 rs in
    let k = keep_id (note_all no_table rs).pending in
    replay-eq crc32 main (make_header ++ bytes) (record { records = rs; corrupt = none })
      (iter_records-encode_all crc32 rs bytes f (encode_all-all_bytes crc32 rs f))
    ∙ replay_scan-eq crc32 main (make_header ++ bytes)
        (make_header ++ all_bytes crc32 (keep_from k rs)) rs (truncate_before-eq crc32 k rs f)

pub replay-table :
    (crc32 : Bytes → ℕ) (main : Bytes) (rs : List Entry)
    → AllFit rs
    → (out : Outcome) × (replay crc32 main (make_header ++ all_bytes crc32 rs) ≡ some out)
      × (out.raised ≡ none)
      × (out.main ≡ apply_committed (note_all no_table rs) main)
replay-table crc32 main rs f = (_, replay_table crc32 main rs f, refl, refl)

-- Pages written to a file, each at its place
abbrev pub written : Dict Bytes → Bytes → Bytes
written [] main = main
written ((page_id, bytes) ∷ d) main = written d (file_write (page_id * page_size) bytes main)

pub apply_writes-written : (d : Dict Bytes) (main : Bytes) → apply_writes d main ≡ written d main
unfolding apply_writes
apply_writes-written [] main = refl
apply_writes-written ((page_id, bytes) ∷ d) main =
    apply_writes-written d (file_write (page_id * page_size) bytes main)
