-- ===== src/Recovery/Crash.antt =====
-- `commit` of transaction.py under crashes: the process stops between any two of its effects on the
-- files, and the database is opened again.
use tinydb_cc_comet.Prelude.{
  ℕ, zero, suc, ◌+◌, ◌-◌, ◌≤◌, ◌≡◌, refl, sym, ap, ap₂, subst, ◌∙◌, false, none, some, List, [],
  ◌∷◌, ◌++◌, append-nil, arith, take, length, length-append, length-map, ◌==◌, if◌then◌else◌, inl,
  inr, take_all,
}
use tinydb_cc_comet.Errors.{ok, err, active, committed}
use tinydb_cc_comet.Bytes.{Bytes}
use tinydb_cc_comet.Dict.{Dict}
use tinydb_cc_comet.Wal.{Entry, make_header, keep_from}
use tinydb_cc_comet.Wal.Fields.{EntryFits, AllFit, all_bytes}
use tinydb_cc_comet.Wal.Reading.{AllFit-append}
use tinydb_cc_comet.Wal.Truncate.{AllOlder, keep_from_older}
use tinydb_cc_comet.Pager.{Pager, get_or_open_wal, wal_append_commit}
use tinydb_cc_comet.Pager.Files.{byte_at}
use tinydb_cc_comet.Transaction.{
  Transaction, Effect, append_commit, fsync_wal, write_main, fsync_main, truncate, perform, run,
  commit_effects, settle, commit, Run, guard_active-active,
}
use tinydb_cc_comet.Transaction.Logged.{
  commit_record, log_of, puts, HasLog, logged, wal_append-logged, HasLog-logged,
}
use tinydb_cc_comet.Recovery.{Outcome, replay, apply_writes}
use tinydb_cc_comet.Recovery.Effects.{
  with_file, run-ok, run-writes, writes_of, tail_of, tail_cases, perform-truncate,
}
use tinydb_cc_comet.Recovery.Atomic.{apply_writes-take}
use tinydb_cc_comet.Recovery.Replay.{replay-table, main_uncommitted, main_committed}

-- The pager when the process stops after the first `k` effects of `commit`
abbrev pub crashed : (Bytes → ℕ) → ℕ → Transaction → Pager → Pager
crashed crc32 k t p = (run crc32 (take k (commit_effects t)) p).pager

AllOlder-log_of :
    (id : ℕ) (ws : List (ℕ × Bytes)) → AllOlder (id + 1) (log_of id ws ++ commit_record id ∷ [])
AllOlder-log_of id [] = omega arith
AllOlder-log_of id (w ∷ ws) = (omega arith, AllOlder-log_of id ws)

module _ (crc32 : Bytes → ℕ) (t : Transaction) (ws : List (ℕ × Bytes)) (p : Pager)
    (m : p.is_memory ≡ false) (h : HasLog crc32 (log_of t.id ws) p) (f : AllFit (log_of t.id ws))
    (g : EntryFits (commit_record t.id)) (pending : t.pending_writes ≡ puts ws []) where
  abbrev full_log : List Entry
  full_log = log_of t.id ws ++ commit_record t.id ∷ []

  abbrev after_append : Pager
  after_append = logged crc32 full_log p

  perform-append : perform crc32 (append_commit t.id) p ≡ ok after_append
  unfolding perform wal_append_commit
  perform-append = wal_append-logged crc32 (log_of t.id ws) (commit_record t.id) p h g

  -- What the files can hold when the process stops.
  data Files (c : Pager) : Type 0 where
    written :
        (j : ℕ)
        → HasLog crc32 full_log c
        → c.file ≡ apply_writes (take j t.pending_writes) p.file
        → Files c
    done : HasLog crc32 [] c → c.file ≡ apply_writes t.pending_writes p.file → Files c

  truncated_log : keep_from (t.id + 1) full_log ≡ []
  truncated_log = keep_from_older (t.id + 1) full_log (AllOlder-log_of t.id ws)

  abbrev partly : ℕ → Pager
  partly j = with_file crc32 (apply_writes (take j t.pending_writes) p.file) after_append

  HasLog-partly : (j : ℕ) → HasLog crc32 full_log (partly j)
  HasLog-partly j =
      HasLog-logged crc32 full_log
        (with_file crc32 (apply_writes (take j t.pending_writes) p.file) p)

  Files-tail :
      (j n : ℕ)
      → n ≡ j - length t.pending_writes
      → Files (run crc32 (take n (tail_of crc32 t.id)) (partly j)).pager
  Files-tail j n e =
      elim (tail_cases crc32 t.id n full_log (partly j) (HasLog-partly j)
        (AllFit-append (log_of t.id ws) (commit_record t.id) f g)) [
          | inl stay ↦ subst Files (sym stay) (written j (HasLog-partly j) refl)
          | inr (late, cut) ↦ subst Files (sym cut) (
              done
                (HasLog-logged crc32 (keep_from (t.id + 1) full_log) (partly j)
                  ∙ ap (λ (rs : List Entry). make_header ++ all_bytes crc32 rs) truncated_log)
                (ap (λ (d : Dict Bytes). apply_writes d p.file)
                  (take_all j t.pending_writes (omega arith))))
        ]

  Files-crashed : (k : ℕ) → Files (crashed crc32 (suc k) t p)
  unfolding commit_effects take
  Files-crashed zero =
      subst Files
        (sym (
          ap (λ (r : Run). r.pager)
            (run-ok crc32 (append_commit t.id) [] p after_append perform-append)))
        (unfold run in written 0 (HasLog-logged crc32 full_log p) (unfold apply_writes in refl))
  Files-crashed (suc j) =
      let rest = take j (writes_of crc32 t.pending_writes ++ tail_of crc32 t.id) in
      subst Files
        (sym (
          ap (λ (r : Run). r.pager)
            (run-ok crc32 (append_commit t.id) (fsync_wal ∷ rest) p after_append perform-append
              ∙ run-ok crc32 fsync_wal rest after_append after_append (unfold perform in refl)
              ∙ run-writes crc32 t.pending_writes j (tail_of crc32 t.id) after_append m)))
        (Files-tail j (j - length t.pending_writes) refl)

  -- Opening the database on such files gives the main file with all the writes.
  Files-replay :
      (c : Pager)
      → Files c
      → (out : Outcome) × (replay crc32 c.file (get_or_open_wal c) ≡ some out)
        × (out.raised ≡ none)
        × ((i : ℕ) → byte_at out.main i ≡ byte_at (apply_writes t.pending_writes p.file) i)
  Files-replay c (written j log file) =
      let (out, e, r, q) =
        replay-table crc32 c.file full_log
          (AllFit-append (log_of t.id ws) (commit_record t.id) f g) in
      (
        out,
        ap (replay crc32 c.file) log ∙ e,
        r,
        λ i.
            ap (λ (b : Bytes). byte_at b i)
              (q
                ∙ main_committed t.id ws c.file
                ∙ ap (λ (d : Dict Bytes). apply_writes d c.file) (sym pending)
                ∙ ap (apply_writes t.pending_writes) file)
            ∙ apply_writes-take t.pending_writes j p.file i,
      )
  Files-replay c (done log file) =
      let (out, e, r, q) = replay-table crc32 c.file [] tt in
      (
        out,
        ap (replay crc32 c.file) log ∙ e,
        r,
        λ i. ap (λ (b : Bytes). byte_at b i) (q ∙ main_uncommitted t.id [] c.file ∙ file),
      )

  -- On a database in a file, when the log holds the page writes of the transaction and nothing else, in
  -- records that fit, and they are its pending writes: a process that stops before the first effect of
  -- `commit` leaves files on which replay gives the old main file, and one that stops after one effect or
  -- more, at any point, files on which it gives, byte for byte, the main file with all the pending writes.
  -- In both cases replay raises nothing.
  pub replay-crashed :
      (k : ℕ)
      → (out : Outcome) × (replay crc32
            (crashed crc32 k t p).file
            (get_or_open_wal (crashed crc32 k t p))
          ≡ some out)
        × (out.raised ≡ none)
        × ((i : ℕ)
            → byte_at out.main i
              ≡ byte_at (if k == 0 then p.file else apply_writes t.pending_writes p.file) i)
  replay-crashed zero =
      let (out, e, r, q) = replay-table crc32 p.file (log_of t.id ws) f in
      (
        out,
        unfold run take in (ap (replay crc32 p.file) h ∙ e),
        r,
        λ i. ap (λ (b : Bytes). byte_at b i) (q ∙ main_uncommitted t.id ws p.file),
      )
  replay-crashed (suc k) =
      let e : (suc k == 0) ≡ false = ground arith in
      rw e (Files-replay (crashed crc32 (suc k) t p) (Files-crashed k))

  -- The pager behind a `commit` in which nothing raised
  abbrev pub after_commit : Pager
  after_commit = record p { wal = some make_header; file = apply_writes t.pending_writes p.file }

  run_end : (q : Pager) → run crc32 [] q ≡ record { pager = q; raised = ok tt }
  unfolding run
  run_end q = refl

  run-commit : run crc32 (commit_effects t) p ≡ record { pager = after_commit; raised = ok tt }
  unfolding commit_effects
  run-commit =
      let d = t.pending_writes in
      let all = writes_of crc32 d ++ tail_of crc32 t.id in
      let n = length d + 2 in
      let size : length all ≤ n = omega (
        arith,
        length-append (writes_of crc32 d) (tail_of crc32 t.id),
        length-map d (λ w. write_main w.0 w.1),
      ) in
      let q = with_file crc32 (apply_writes d p.file) after_append in
      let cut = logged crc32 (keep_from (t.id + 1) full_log) q in
      run-ok crc32 (append_commit t.id) (fsync_wal ∷ all) p after_append perform-append
      ∙ run-ok crc32 fsync_wal all after_append after_append (unfold perform in refl)
      ∙ ap (λ (es : List Effect). run crc32 es after_append) (sym (take_all n all size))
      ∙ run-writes crc32 d n (tail_of crc32 t.id) after_append m
      ∙ ap₂
          (λ (es : List Effect) (w : Dict Bytes).
            run crc32 es (with_file crc32 (apply_writes w p.file) after_append))
          (take_all (n - length d) (tail_of crc32 t.id) (omega arith)) (take_all n d (omega arith))
      ∙ run-ok crc32 fsync_main (truncate (t.id + 1) ∷ []) q q (unfold perform in refl)
      ∙ run-ok crc32 (truncate (t.id + 1)) [] q cut (
          perform-truncate crc32 (t.id + 1) full_log q
            (HasLog-logged crc32 full_log (with_file crc32 (apply_writes d p.file) p))
            (AllFit-append (log_of t.id ws) (commit_record t.id) f g))
      ∙ run_end cut
      ∙ ap
          (λ (rs : List Entry).
            let r : Run = record { pager = logged crc32 rs q; raised = ok tt } in r)
          truncated_log
      ∙ ap
          (λ (b : Bytes).
            let r : Run = record { pager = record q { wal = some b }; raised = ok tt } in r)
          (append-nil make_header)

  -- On a database in a file, when the log holds the page writes of the transaction and nothing else, in
  -- records that fit, and they are its pending writes: `commit` of the active transaction raises nothing,
  -- leaves it committed, has written all its pending pages to the main file, and leaves a log with no
  -- record, its own COMMIT not either.
  pub commit_lem :
      t.state ≡ active
      → commit crc32 t p
        ≡ (record t { state = committed }, record { pager = after_commit; raised = ok tt })
  unfolding commit settle
  commit_lem a =
      guard_active-active t _ (λ x. (t, record { pager = p; raised = err x })) a
      ∙ ap (settle t) run-commit
