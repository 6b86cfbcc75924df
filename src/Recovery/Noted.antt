-- ===== src/Recovery/Noted.antt =====
-- The table of recovery.py behind the records of a log, read for one transaction at a time.
use mathlib.Core.Option
use native.Mathlib.Decide.{ℕ_discrete}
use tinydb_cc_comet.Prelude.{
  ℕ, ◌<◌, ◌≡◌, refl, ap, ◌∙◌, Bool, true, false, ◌&&◌, ◌||◌, Option, List, [], ◌∷◌, arith, ◌==◌,
  if◌then◌else◌, Bool-cases, inl, inr,
}
use tinydb_cc_comet.Errors.{active, committed, rolled_back}
use tinydb_cc_comet.Bytes.{Bytes}
use tinydb_cc_comet.Dict.{Dict, get, put, set_default, get-put}
use tinydb_cc_comet.Wal
use tinydb_cc_comet.Wal.{Entry, make_header, begin, page_write}
use tinydb_cc_comet.Wal.Truncate.{AllOlder}
use tinydb_cc_comet.Transaction.Logged.{puts}
use tinydb_cc_comet.Recovery.{Table, note, note_all, is_committed}
use tinydb_cc_comet.Recovery.Keys.{
  in_list, Distinct, keys, keys-put, keys-set_default, Distinct-put, Distinct-set_default,
  get_or-set_default,
}

-- The page writes of the transaction `k`, in the order of the log
unfoldable pub writes_in : ℕ → List Entry → List (ℕ × Bytes)
writes_in k [] = []
writes_in k (r ∷ rs) =
    let rest = writes_in k rs in
    if r.kind == page_write && r.txn_id == k then (r.page_id, r.payload) ∷ rest else rest

-- Whether `k` counts as committed behind a record, when `old` says so before it
unfoldable pub ends_in : ℕ → Bool → Entry → Bool
ends_in k old r =
    if r.txn_id == k
    then (if r.kind == Wal.commit
        then true
        else if r.kind == begin || r.kind == Wal.rollback
        then false
        else old)
    else old

-- Whether the last BEGIN, COMMIT or ROLLBACK of `k` is a COMMIT
unfoldable pub committed_in : ℕ → Bool → List Entry → Bool
committed_in k old [] = old
committed_in k old (r ∷ rs) = committed_in k (ends_in k old r) rs

-- The table behind a record, by the kind of the record
data Noted (t : Table) (r : Entry) : Table → Type 0 where
  begun :
      r.kind ≡ begin
      → Noted t r (record {
        status = put r.txn_id active t.status;
        pending = set_default r.txn_id [] t.pending;
      })
  wrote :
      r.kind ≡ page_write
      → Noted t r (record t {
        pending =
            put r.txn_id
              (put r.page_id r.payload (Option.get_or (get r.txn_id t.pending) []))
              t.pending;
      })
  did_commit :
      r.kind ≡ Wal.commit → Noted t r (record t { status = put r.txn_id committed t.status })
  did_roll_back :
      r.kind ≡ Wal.rollback → Noted t r (record t { status = put r.txn_id rolled_back t.status })
  skipped :
      (r.kind == begin) ≡ false
      → (r.kind == page_write) ≡ false
      → (r.kind == Wal.commit) ≡ false
      → (r.kind == Wal.rollback) ≡ false
      → Noted t r t

note-Noted : (t : Table) (r : Entry) → Noted t r (note t r)
unfolding note
note-Noted t r = elim (Bool-cases (r.kind == begin)) [
  | inl b ↦ rw b (begun (ground arith))
  | inr b ↦ elim (Bool-cases (r.kind == page_write)) [
    | inl w ↦ rw (b, w) (wrote (ground arith))
    | inr w ↦ elim (Bool-cases (r.kind == Wal.commit)) [
      | inl c ↦ rw (b, w, c) (did_commit (ground arith))
      | inr c ↦ elim (Bool-cases (r.kind == Wal.rollback)) [
        | inl a ↦ rw (b, w, c, a) (did_roll_back (ground arith))
        | inr a ↦ rw (b, w, c, a) (skipped b w c a)
      ]
    ]
  ]
]

module _ (k : ℕ) where
  abbrev pub pending_of : Table → Dict Bytes
  pending_of t = Option.get_or (get k t.pending) []

  abbrev pub committed_of : Table → Bool
  committed_of t = is_committed (get k t.status)

  pending-Noted :
      (t : Table) (r : Entry) (t' : Table)
      → Noted t r t'
      → pending_of t' ≡ (
          if r.kind == page_write && r.txn_id == k
          then put r.page_id r.payload (pending_of t)
          else pending_of t)
  pending-Noted t r t' (begun e) = ground (arith, get_or-set_default k r.txn_id [] t.pending)
  pending-Noted t r t' (wrote e) = elim (ℕ_discrete r.txn_id k) [
    | yes q ↦
        let kind : (r.kind == page_write) ≡ true = ground arith in
        let same : (r.txn_id == k) ≡ true = ground arith in
        let there =
          get-put r.txn_id k (put r.page_id r.payload (Option.get_or (get r.txn_id t.pending) []))
            t.pending in
        rw (kind, same)
          (ap (λ (o : Option (Dict Bytes)). Option.get_or o []) (rw same at there)
            ∙ ap (λ (i : ℕ). put r.page_id r.payload (Option.get_or (get i t.pending) [])) q)
    | no q ↦
        let differ : (r.txn_id == k) ≡ false = ground arith in
        let there =
          get-put r.txn_id k (put r.page_id r.payload (Option.get_or (get r.txn_id t.pending) []))
            t.pending in
        let none_ : (r.kind == page_write && r.txn_id == k) ≡ false = ground arith in
        rw none_ (ap (λ (o : Option (Dict Bytes)). Option.get_or o []) (rw differ at there))
  ]
  pending-Noted t r t' (did_commit e) = ground arith
  pending-Noted t r t' (did_roll_back e) = ground arith
  pending-Noted t r t' (skipped b w c a) = ground arith

  committed-Noted :
      (t : Table) (r : Entry) (t' : Table)
      → Noted t r t'
      → committed_of t' ≡ ends_in k (committed_of t) r
  unfolding ends_in
  committed-Noted t r t' (begun e) = ground (arith, get-put r.txn_id k active t.status)
  committed-Noted t r t' (wrote e) = ground arith
  committed-Noted t r t' (did_commit e) = ground (arith, get-put r.txn_id k committed t.status)
  committed-Noted t r t' (did_roll_back e) = ground (arith, get-put r.txn_id k rolled_back t.status)
  committed-Noted t r t' (skipped b w c a) = ground arith

  pub pending-note_all :
      (rs : List Entry) (t : Table)
      → pending_of (note_all t rs) ≡ puts (writes_in k rs) (pending_of t)
  unfolding note_all writes_in
  pending-note_all [] t = refl
  pending-note_all (r ∷ rs) t =
      pending-note_all rs (note t r)
      ∙ ap (puts (writes_in k rs)) (pending-Noted t r (note t r) (note-Noted t r))
      ∙ elim (Bool-cases (r.kind == page_write && r.txn_id == k)) [
        | inl e ↦ rw e refl
        | inr e ↦ rw e refl
      ]

  pub committed-note_all :
      (rs : List Entry) (t : Table)
      → committed_of (note_all t rs) ≡ committed_in k (committed_of t) rs
  unfolding note_all committed_in
  committed-note_all [] t = refl
  committed-note_all (r ∷ rs) t =
      committed-note_all rs (note t r)
      ∙ ap (λ (b : Bool). committed_in k b rs) (committed-Noted t r (note t r) (note-Noted t r))

Distinct-Noted :
    (t : Table) (r : Entry) (t' : Table)
    → Noted t r t'
    → Distinct (keys t.pending)
    → Distinct (keys t'.pending)
Distinct-Noted t r t' (begun e) h = Distinct-set_default r.txn_id [] t.pending h
Distinct-Noted t r t' (wrote e) h = Distinct-put r.txn_id _ t.pending h
Distinct-Noted t r t' (did_commit e) h = h
Distinct-Noted t r t' (did_roll_back e) h = h
Distinct-Noted t r t' (skipped b w c a) h = h

pub Distinct-note_all :
    (rs : List Entry) (t : Table)
    → Distinct (keys t.pending)
    → Distinct (keys (note_all t rs).pending)
unfolding note_all
Distinct-note_all [] t h = h
Distinct-note_all (r ∷ rs) t h =
    Distinct-note_all rs (note t r) (Distinct-Noted t r (note t r) (note-Noted t r) h)

abbrev pub Below : ℕ → Table → Type 0
Below n t = (k : ℕ) → in_list k (keys t.pending) ≡ true → k < n

Below-Noted :
    (n : ℕ) (t : Table) (r : Entry) (t' : Table)
    → Noted t r t'
    → r.txn_id < n
    → Below n t
    → Below n t'
Below-Noted n t r t' (begun e) h b k m =
    ground (arith, keys-set_default k r.txn_id [] t.pending, b k)
Below-Noted n t r t' (wrote e) h b k m = ground (
  arith,
  keys-put k r.txn_id (put r.page_id r.payload (Option.get_or (get r.txn_id t.pending) []))
      t.pending,
  b k,
)
Below-Noted n t r t' (did_commit e) h b k m = b k m
Below-Noted n t r t' (did_roll_back e) h b k m = b k m
Below-Noted n t r t' (skipped x w c a) h b k m = b k m

pub Below-note_all :
    (n : ℕ) (rs : List Entry) (t : Table) → AllOlder n rs → Below n t → Below n (note_all t rs)
unfolding note_all
Below-note_all n [] t h b = b
Below-note_all n (r ∷ rs) t (h, hs) b =
    Below-note_all n rs (note t r) hs (Below-Noted n t r (note t r) (note-Noted t r) h b)
