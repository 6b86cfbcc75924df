-- ===== src/Recovery/Ended.antt =====
-- `replay` of recovery.py on the log of one transaction, by how it ended, and on a COMMIT that stands
-- alone.
use tinydb_cc_comet.Prelude.{
  ℕ, ◌+◌, ◌≤◌, ◌≡◌, refl, ap, ap₂, ◌∙◌, true, none, some, List, [], ◌∷◌, ◌++◌, arith, ◌==◌, leb,
  append-nil,
}
use tinydb_cc_comet.Errors.{TxnState, active, committed, rolled_back}
use tinydb_cc_comet.Bytes.{Bytes}
use tinydb_cc_comet.Dict.{Dict, put, get}
use tinydb_cc_comet.Wal.{Entry, make_header, keep_from}
use tinydb_cc_comet.Wal.Fields.{EntryFits, AllFit, all_bytes}
use tinydb_cc_comet.Wal.Truncate.{AllOlder, keep_from_older}
use tinydb_cc_comet.Transaction.Logged.{page_record, commit_record, rollback_record, log_of, puts}
use tinydb_cc_comet.Recovery.{
  Table, no_table, note, note_all, apply_writes, apply_each, apply_committed, sorted, insert_sorted,
  keep_id, max_key, Outcome, replay,
}
use tinydb_cc_comet.Recovery.Replay.{
  written, apply_writes-written, note_all-append, pending_table, note_all-log_of, note-first,
  committed_table, apply-committed, replay_table, replay-table,
}

-- The records that end a transaction: none, its COMMIT or its ROLLBACK
abbrev pub end_of : TxnState → ℕ → List Entry
end_of active id = []
end_of committed id = commit_record id ∷ []
end_of rolled_back id = rollback_record id ∷ []

-- What a transaction that ended so leaves of the file that it would have written, and of the old one
abbrev pub kept_by : TxnState → Bytes → Bytes → Bytes
kept_by committed new old = new
kept_by active new old = old
kept_by rolled_back new old = old

module _ (id : ℕ) where
  abbrev ended : TxnState → Dict Bytes → Table
  ended active d = pending_table id d
  ended committed d = committed_table id d
  ended rolled_back d = record { pending = (id, d) ∷ []; status = (id, rolled_back) ∷ [] }

  note-ended :
      (e : TxnState) (d : Dict Bytes) → note_all (pending_table id d) (end_of e id) ≡ ended e d
  unfolding note_all note put
  note-ended active d = refl
  note-ended committed d = refl
  note-ended rolled_back d = refl

  ended_table :
      (e : TxnState) (w : ℕ × Bytes) (ws : List (ℕ × Bytes))
      → note_all no_table (log_of id (w ∷ ws) ++ end_of e id) ≡ ended e (puts (w ∷ ws) [])
  unfolding note_all
  ended_table e w ws =
      note_all-append (note no_table (page_record id w)) (log_of id ws) (end_of e id)
      ∙ ap (λ (t : Table). note_all (note_all t (log_of id ws)) (end_of e id)) (note-first id w)
      ∙ ap (λ (t : Table). note_all t (end_of e id)) (note_all-log_of id ws (put w.0 w.1 []))
      ∙ note-ended e (puts ws (put w.0 w.1 []))

  apply-ended :
      (e : TxnState) (d : Dict Bytes) (main : Bytes)
      → apply_committed (ended e d) main ≡ kept_by e (apply_writes d main) main
  unfolding apply_committed sorted insert_sorted apply_each get
  apply-ended active d main = refl
  apply-ended committed d main = apply-committed id d main
  apply-ended rolled_back d main = let e : (id == id) ≡ true = ground arith in rw e refl

  keep_id-ended : (e : TxnState) (d : Dict Bytes) → keep_id (ended e d).pending ≡ id + 1
  unfolding keep_id max_key
  keep_id-ended active d = omega arith
  keep_id-ended committed d = omega arith
  keep_id-ended rolled_back d = omega arith

  AllOlder-ended :
      (e : TxnState) (ws : List (ℕ × Bytes)) → AllOlder (id + 1) (log_of id ws ++ end_of e id)
  AllOlder-ended active [] = tt
  AllOlder-ended committed [] = (omega arith, tt)
  AllOlder-ended rolled_back [] = (omega arith, tt)
  AllOlder-ended e (w ∷ ws) = (omega arith, AllOlder-ended e ws)

-- A log that holds the page writes of one transaction, at least one, and its end, none, a COMMIT or a
-- ROLLBACK, with records that fit: replay raises nothing, writes the pages to the main file behind a
-- COMMIT and leaves it alone otherwise, and empties the log.
pub replay-ended :
    (crc32 : Bytes → ℕ) (id : ℕ) (w : ℕ × Bytes) (ws : List (ℕ × Bytes)) (e : TxnState)
    (main : Bytes)
    → AllFit (log_of id (w ∷ ws) ++ end_of e id)
    → replay crc32 main (make_header ++ all_bytes crc32 (log_of id (w ∷ ws) ++ end_of e id))
      ≡ some (record {
        main = kept_by e (written (puts (w ∷ ws) []) main) main;
        log = make_header;
        raised = none;
      })
replay-ended crc32 id w ws e main f =
    let rs = log_of id (w ∷ ws) ++ end_of e id in
    let d = puts (w ∷ ws) [] in
    let t = ended_table id e w ws in
    let emptied : make_header
          ++ all_bytes crc32 (keep_from (keep_id (note_all no_table rs).pending) rs)
        ≡ make_header =
      ap (λ (t : Table). make_header ++ all_bytes crc32 (keep_from (keep_id t.pending) rs)) t
      ∙ ap (λ (k : ℕ). make_header ++ all_bytes crc32 (keep_from k rs)) (keep_id-ended id e d)
      ∙ ap (λ (l : List Entry). make_header ++ all_bytes crc32 l)
          (keep_from_older (id + 1) rs (AllOlder-ended id e (w ∷ ws)))
      ∙ append-nil make_header in
    let applied : apply_committed (note_all no_table rs) main ≡ kept_by e (written d main) main =
      ap (λ (t : Table). apply_committed t main) t
      ∙ apply-ended id e d main
      ∙ ap (λ (b : Bytes). kept_by e b main) (apply_writes-written d main) in
    replay_table crc32 main rs f
    ∙ ap₂ (λ (m l : Bytes). some (record { main = m; log = l; raised = none })) applied emptied

module _ (id : ℕ) where
  abbrev stale : Dict (Dict Bytes) → Table
  stale p = record { pending = p; status = (id, committed) ∷ [] }

  note-stale :
      (d : Dict Bytes) (w : ℕ × Bytes)
      → note (stale ((id, d) ∷ [])) (page_record id w) ≡ stale ((id, put w.0 w.1 d) ∷ [])
  unfolding note put get
  note-stale d w = let e : (id == id) ≡ true = ground arith in rw e

  note_all-stale :
      (ws : List (ℕ × Bytes)) (d : Dict Bytes)
      → note_all (stale ((id, d) ∷ [])) (log_of id ws) ≡ stale ((id, puts ws d) ∷ [])
  unfolding note_all
  note_all-stale [] d = refl
  note_all-stale (w ∷ ws) d =
      ap (λ (t : Table). note_all t (log_of id ws)) (note-stale d w)
      ∙ note_all-stale ws (put w.0 w.1 d)

  lone_kept :
      1 ≤ id
      → keep_from
          (keep_id (note_all no_table (commit_record id ∷ [])).pending)
          (commit_record id ∷ [])
        ≡ commit_record id ∷ []
  unfolding note_all note keep_id keep_from
  lone_kept h = let t : leb 1 id ≡ true = ground arith in rw t

  lone_applied :
      (main : Bytes) → apply_committed (note_all no_table (commit_record id ∷ [])) main ≡ main
  unfolding note_all note apply_committed sorted apply_each
  lone_applied main = refl

  stale_table :
      (ws : List (ℕ × Bytes)) (main : Bytes)
      → apply_committed (note_all no_table (commit_record id ∷ log_of id ws)) main
        ≡ apply_writes (puts ws []) main
  unfolding note_all note put get
  stale_table [] main = unfold apply_committed sorted apply_each apply_writes in refl
  stale_table (w ∷ ws) main =
      ap (λ (t : Table). apply_committed t main) (note_all-stale ws (put w.0 w.1 []))
      ∙ apply-committed id (puts ws (put w.0 w.1 [])) main

-- A COMMIT with an id of one or more that stands alone, as a transaction without writes leaves it when
-- the process stops within `commit`, is still in the log behind replay. When the next transaction has that
-- id, its page writes, in records that fit, reach the main file without any COMMIT behind them.
pub replay-stale :
    (crc32 : Bytes → ℕ) (id : ℕ) (ws : List (ℕ × Bytes)) (main : Bytes)
    → 1 ≤ id
    → EntryFits (commit_record id)
    → AllFit (log_of id ws)
    → (replay crc32 main (make_header ++ all_bytes crc32 (commit_record id ∷ []))
        ≡ some (record {
          main = main;
          log = make_header ++ all_bytes crc32 (commit_record id ∷ []);
          raised = none;
        }))
      × (out : Outcome) × (replay crc32 main
            (make_header ++ all_bytes crc32 (commit_record id ∷ log_of id ws))
          ≡ some out)
      × (out.raised ≡ none)
      × (out.main ≡ written (puts ws []) main)
replay-stale crc32 id ws main h g f =
    let (out, e, r, q) = replay-table crc32 main (commit_record id ∷ log_of id ws) (g, f) in
    (
      replay_table crc32 main (commit_record id ∷ []) (g, tt)
          ∙ ap₂
              (λ (m : Bytes) (l : List Entry).
                some (record { main = m; log = make_header ++ all_bytes crc32 l; raised = none }))
              (lone_applied id main) (lone_kept id h),
      out,
      e,
      r,
      q ∙ stale_table id ws main ∙ apply_writes-written (puts ws []) main,
    )
