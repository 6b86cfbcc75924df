-- ===== src/Recovery/Serial.antt =====
-- `replay` of recovery.py on any whole log, against the committed transactions one behind the other.
use mathlib.Core.Option
use native.Mathlib.Decide.{ℕ_discrete}
use tinydb_cc_comet.Prelude.{
  ℕ, zero, suc, ◌+◌, ◌≤◌, ◌<◌, ◌≡◌, refl, sym, ap, ap₂, subst, ◌∙◌, Bool, true, false, none, some,
  List, [], ◌∷◌, ◌++◌, arith, ◌==◌, if◌then◌else◌, Bool-cases, inl, inr,
}
use tinydb_cc_comet.Bytes.{Bytes}
use tinydb_cc_comet.Dict.{Dict, get}
use tinydb_cc_comet.Wal.{Entry, make_header}
use tinydb_cc_comet.Wal.Fields.{AllFit, all_bytes}
use tinydb_cc_comet.Wal.Truncate.{AllOlder}
use tinydb_cc_comet.Transaction.Logged.{puts}
use tinydb_cc_comet.Recovery.{
  Table, no_table, note_all, apply_writes, apply_each, apply_committed, sorted, is_committed,
  Outcome, replay,
}
use tinydb_cc_comet.Recovery.Replay.{replay-table, written, apply_writes-written}
use tinydb_cc_comet.Recovery.Keys.{
  in_list, in_list-sorted, Ascends, Ascends-sorted, Ascends-below, keys, get-missing,
}
use tinydb_cc_comet.Recovery.Noted.{
  writes_in, committed_in, pending-note_all, committed-note_all, Distinct-note_all, Below-note_all,
}

-- The file behind the transactions `a`, `a + 1`, …, `n` of them: of each that is committed, its last write
-- to every page.
unfoldable pub serial : List Entry → ℕ → ℕ → Bytes → Bytes
serial rs a zero main = main
serial rs a (suc n) main =
    serial rs (suc a) n
      (if committed_in a false rs then written (puts (writes_in a rs) []) main else main)

-- What `apply_each` does for one transaction
abbrev apply_one : ℕ → Table → Bytes → Bytes
apply_one k t main =
    if is_committed (get k t.status)
    then apply_writes (Option.get_or (get k t.pending) []) main
    else main

abbrev apply_range : Table → ℕ → ℕ → Bytes → Bytes
apply_range t a zero main = main
apply_range t a (suc n) main = apply_range t (suc a) n (apply_one a t main)

apply_one-missing :
    (k : ℕ) (t : Table) (main : Bytes) → get k t.pending ≡ none → apply_one k t main ≡ main
unfolding apply_writes
apply_one-missing k t main h = elim (Bool-cases (is_committed (get k t.status))) [
  | inl e ↦ rw (e, h) refl
  | inr e ↦ rw e refl
]

module _ (t : Table) where
  apply_each-range :
      (n a : ℕ) (ks : List ℕ) (main : Bytes)
      → Ascends a ks
      → ((k : ℕ) → in_list k ks ≡ true → k < a + n)
      → ((k : ℕ) → a ≤ k → in_list k ks ≡ false → get k t.pending ≡ none)
      → apply_each ks t main ≡ apply_range t a n main
  unfolding apply_each in_list
  apply_each-range zero a [] main s below missing = refl
  apply_each-range zero a (k ∷ ks) main (s, ss) below missing =
      absurd (let h = below k (ground arith) in omega arith)
  apply_each-range (suc n) a [] main s below missing =
      apply_each-range n (suc a) [] main tt (λ k h. absurd (ground arith))
        (λ k le h. missing k (omega arith) h)
      ∙ ap (apply_range t (suc a) n)
          (sym (apply_one-missing a t main (missing a (omega arith) refl)))
  apply_each-range (suc n) a (k ∷ ks) main (s, ss) below missing = elim (ℕ_discrete k a) [
    | yes q ↦
        apply_each-range n (suc a) ks (apply_one k t main) (subst (λ i. Ascends (suc i) ks) q ss)
          (λ j h. let b = below j (ground arith) in omega arith)
          (λ j le h. missing j (omega arith) (let d : (k == j) ≡ false = ground arith in rw d h))
        ∙ ap (λ (i : ℕ). apply_range t (suc a) n (apply_one i t main)) q
    | no q ↦
        let d : (k == a) ≡ false = ground arith in
        let absent = missing a (omega arith) (rw d (Ascends-below a (suc k) ks ss (omega arith))) in
        apply_each-range n (suc a) (k ∷ ks) main (omega arith, ss)
          (λ j h. let b = below j h in omega arith) (λ j le h. missing j (omega arith) h)
        ∙ ap (apply_range t (suc a) n) (sym (apply_one-missing a t main absent))
  ]

module _ (rs : List Entry) where
  abbrev table : Table
  table = note_all no_table rs

  apply_range-serial : (n a : ℕ) (main : Bytes) → apply_range table a n main ≡ serial rs a n main
  unfolding serial get
  apply_range-serial zero a main = refl
  apply_range-serial (suc n) a main =
      apply_range-serial n (suc a) (apply_one a table main)
      ∙ ap (serial rs (suc a) n) (
          ap₂ (λ (c : Bool) (d : Dict Bytes). if c then apply_writes d main else main)
            (committed-note_all a rs no_table) (pending-note_all a rs no_table)
          ∙ ap (λ (b : Bytes). if committed_in a false rs then b else main)
              (apply_writes-written (puts (writes_in a rs) []) main))

  apply_committed-serial :
      (n : ℕ) (main : Bytes) → AllOlder n rs → apply_committed table main ≡ serial rs 0 n main
  unfolding apply_committed
  apply_committed-serial n main h =
      let ks = keys table.pending in
      let below = Below-note_all n rs no_table h (λ k m. absurd (unfold in_list in ground arith)) in
      apply_each-range table n 0 (sorted ks) main
        (Ascends-sorted ks (Distinct-note_all rs no_table tt))
        (λ k m. let b = below k (sym (in_list-sorted k ks) ∙ m) in omega arith)
        (λ k le m. get-missing k table.pending (sym (in_list-sorted k ks) ∙ m))
      ∙ apply_range-serial n 0 main

-- On any log of whole records that fit, of transactions with ids below `n`, replay raises nothing, and
-- leaves the main file with, in the order of the ids, the last write to every page of each transaction whose
-- last BEGIN, COMMIT or ROLLBACK is a COMMIT, and of no other.
pub replay-serial :
    (crc32 : Bytes → ℕ) (n : ℕ) (rs : List Entry) (main : Bytes)
    → AllFit rs
    → AllOlder n rs
    → (out : Outcome) × (replay crc32 main (make_header ++ all_bytes crc32 rs) ≡ some out)
      × (out.raised ≡ none)
      × (out.main ≡ serial rs 0 n main)
replay-serial crc32 n rs main f h =
    let (out, e, r, q) = replay-table crc32 main rs f in
    (out, e, r, q ∙ apply_committed-serial rs n main h)
