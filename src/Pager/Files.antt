-- ===== src/Pager/Files.antt =====
-- The bytes of a file under writes at an offset; what lies behind its end counts as zero.
use tinydb_cc_comet.Prelude.{
  ℕ, ◌+◌, ◌-◌, ◌<◌, ◌≡◌, sym, ap, ◌∙◌, true, false, ◌&&◌, ◌++◌, arith, ltb, leb, if◌then◌else◌,
  length, get_or, take, drop, replicate, length-append, length-take, length-replicate,
  get_or-append_left, get_or-append_right, get_or-take, get_or-drop, get_or_out, get_or-replicate,
}
use native.Mathlib.Decide.{dec_lt}
use tinydb_cc_comet.Bytes.{Bytes}
use tinydb_cc_comet.Pager.{file_write}

abbrev pub byte_at : Bytes → ℕ → ℕ
byte_at f i = get_or f i 0

-- The file, filled up with zeros as far as `off`
padded : ℕ → Bytes → Bytes
padded off f = f ++ replicate (off - length f) 0

byte_at-padded : (off : ℕ) (f : Bytes) (i : ℕ) → byte_at (padded off f) i ≡ byte_at f i
unfolding padded
byte_at-padded off f i = elim (dec_lt i (length f)) [
  | yes h ↦ get_or-append_left f (replicate (off - length f) 0) i 0 h
  | no h ↦
      ap (λ (n : ℕ). byte_at (f ++ replicate (off - length f) 0) n) (omega arith)
      ∙ get_or-append_right f (replicate (off - length f) 0) (i - length f) 0
      ∙ get_or-replicate (off - length f) 0 (i - length f)
      ∙ sym (get_or_out f i 0 (omega arith))
]

module _ (off : ℕ) (v f : Bytes) where
  length-padded : length (take off (padded off f)) ≡ off
  unfolding padded
  length-padded = omega (
    arith,
    length-take off (f ++ replicate (off - length f) 0),
    length-append f (replicate (off - length f) 0),
    length-replicate {A = ℕ} (off - length f) 0,
  )

  byte_before : (i : ℕ) → i < off → byte_at (file_write off v f) i ≡ byte_at f i
  unfolding file_write padded
  byte_before i h =
      get_or-append_left (take off (padded off f)) (v ++ drop (off + length v) f) i 0
        (omega (arith, length-padded))
      ∙ get_or-take off (padded off f) i 0 h
      ∙ byte_at-padded off f i

  byte_within : (i : ℕ) → i < length v → byte_at (file_write off v f) (off + i) ≡ byte_at v i
  unfolding file_write padded
  byte_within i h =
      ap (λ (n : ℕ). byte_at (file_write off v f) (n + i)) (sym length-padded)
      ∙ get_or-append_right (take off (padded off f)) (v ++ drop (off + length v) f) i 0
      ∙ get_or-append_left v (drop (off + length v) f) i 0 h

  byte_after :
      (i : ℕ) → byte_at (file_write off v f) (off + (length v + i)) ≡ byte_at f (off + length v + i)
  unfolding file_write padded
  byte_after i =
      ap (λ (n : ℕ). byte_at (file_write off v f) (n + (length v + i))) (sym length-padded)
      ∙ get_or-append_right (take off (padded off f)) (v ++ drop (off + length v) f) (length v + i)
          0
      ∙ get_or-append_right v (drop (off + length v) f) i 0
      ∙ get_or-drop (off + length v) f i 0

  -- A write changes the bytes from its offset on, as many as are written, and no other.
  pub byte_at-file_write :
      (i : ℕ)
      → byte_at (file_write off v f) i
        ≡ (if leb off i && ltb i (off + length v) then byte_at v (i - off) else byte_at f i)
  byte_at-file_write i = elim (dec_lt i off) [
    | yes h ↦ let t : leb off i ≡ false = ground arith in rw t (byte_before i h)
    | no h ↦ elim (dec_lt i (off + length v)) [
      | yes k ↦
          let t : leb off i ≡ true = ground arith in
          let t' : ltb i (off + length v) ≡ true = ground arith in
          rw (t, t')
            (ap (byte_at (file_write off v f)) (omega arith) ∙ byte_within (i - off) (omega arith))
      | no k ↦
          let t : leb off i ≡ true = ground arith in
          let t' : ltb i (off + length v) ≡ false = ground arith in
          rw (t, t')
            (ap (byte_at (file_write off v f)) (omega arith)
              ∙ byte_after (i - (off + length v))
              ∙ ap (byte_at f) (omega arith))
    ]
  ]
