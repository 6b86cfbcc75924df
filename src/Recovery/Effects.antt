-- ===== src/Recovery/Effects.antt =====
-- The effects of `commit` on the pager, carried out up to any point.
use tinydb_cc_comet.Prelude.{
  ℕ, zero, suc, ◌+◌, ◌-◌, ◌*◌, ◌≤◌, ◌≡◌, refl, ap, ◌∙◌, false, List, [], ◌∷◌, ◌++◌, arith, map,
  take, length, ◌⊎◌, inl, inr,
}
use tinydb_cc_comet.Errors.{ok}
use tinydb_cc_comet.Bytes.{Bytes}
use tinydb_cc_comet.Dict.{Dict}
use tinydb_cc_comet.Wal.{Entry, keep_from}
use tinydb_cc_comet.Wal.Fields.{AllFit}
use tinydb_cc_comet.Wal.Truncate.{truncate_before-eq}
use tinydb_cc_comet.Pager.{
  Pager, write_main_page, file_write, wal_truncate_before, truncated, page_size,
}
use tinydb_cc_comet.Transaction.{Effect, write_main, fsync_main, truncate, perform, run, Run}
use tinydb_cc_comet.Transaction.Logged.{HasLog, logged}
use tinydb_cc_comet.Recovery.{apply_writes}

module _ (crc32 : Bytes → ℕ) where
  abbrev pub writes_of : Dict Bytes → List Effect
  writes_of d = map (λ w. write_main w.0 w.1) d

  abbrev pub with_file : Bytes → Pager → Pager
  with_file f p = record p { file = f }

  pub run-ok :
      (e : Effect) (es : List Effect) (p p' : Pager)
      → perform crc32 e p ≡ ok p'
      → run crc32 (e ∷ es) p ≡ run crc32 es p'
  unfolding run
  run-ok e es p p' h = rw (h, run)

  perform-write :
      (page_id : ℕ) (bytes : Bytes) (p : Pager)
      → p.is_memory ≡ false
      → perform crc32 (write_main page_id bytes) p
        ≡ ok (with_file (file_write (page_id * page_size) bytes p.file) p)
  unfolding perform write_main_page
  perform-write page_id bytes p m = ground arith

  -- The page writes of `commit`, of which the first `j` effects are carried out.
  pub run-writes :
      (d : Dict Bytes) (j : ℕ) (es : List Effect) (p : Pager)
      → p.is_memory ≡ false
      → run crc32 (take j (writes_of d ++ es)) p
        ≡ run crc32 (take (j - length d) es) (with_file (apply_writes (take j d) p.file) p)
  unfolding take apply_writes
  run-writes [] zero es p m = refl
  run-writes [] (suc j) es p m = ap (λ (n : ℕ). run crc32 (take n es) p) {x = suc j} (omega arith)
  run-writes ((page_id, bytes) ∷ d) zero es p m =
      let e : 0 - suc (length d) ≡ 0 = omega arith in rw e
  run-writes ((page_id, bytes) ∷ d) (suc j) es p m =
      let q = with_file (file_write (page_id * page_size) bytes p.file) p in
      run-ok (write_main page_id bytes) (take j (writes_of d ++ es)) p q
        (perform-write page_id bytes p m)
      ∙ run-writes d j es q m
      ∙ ap (λ (n : ℕ). run crc32 (take n es) (with_file (apply_writes (take j d) q.file) q))
          (omega arith)

  -- The two effects behind the page writes: an fsync, and the truncation of the log.
  pub perform-truncate :
      (id : ℕ) (rs : List Entry) (p : Pager)
      → HasLog crc32 rs p
      → AllFit rs
      → perform crc32 (truncate id) p ≡ ok (logged crc32 (keep_from id rs) p)
  unfolding perform wal_truncate_before truncated
  perform-truncate id rs p h f = rw (h, truncate_before-eq crc32 id rs f)

  abbrev no_effects : List Effect
  no_effects = []

  run_none : (m : ℕ) (q : Pager) → (run crc32 (take m no_effects) q).pager ≡ q
  unfolding take run
  run_none zero q = refl
  run_none (suc m) q = refl

  abbrev pub tail_of : ℕ → List Effect
  tail_of id = fsync_main ∷ truncate (id + 1) ∷ []

  pub tail_cases :
      (id m : ℕ) (rs : List Entry) (q : Pager)
      → HasLog crc32 rs q
      → AllFit rs
      → ((run crc32 (take m (tail_of id)) q).pager ≡ q)
        ⊎ ((2 ≤ m)
            × ((run crc32 (take m (tail_of id)) q).pager ≡ logged crc32 (keep_from (id + 1) rs) q))
  unfolding take
  tail_cases id zero rs q h f = inl (unfold run in refl)
  tail_cases id (suc zero) rs q h f = inl (unfold run perform in refl)
  tail_cases id (suc (suc m)) rs q h f = inr (
    omega arith,
    ap (λ (r : Run). r.pager)
          (run-ok fsync_main (truncate (id + 1) ∷ take m (no_effects)) q q (unfold perform in refl)
            ∙ run-ok (truncate (id + 1)) (take m no_effects) q
                (logged crc32 (keep_from (id + 1) rs) q) (perform-truncate (id + 1) rs q h f))
        ∙ run_none m (logged crc32 (keep_from (id + 1) rs) q),
  )
