-- ===== src/RowCodec/Bitmap.antt =====
-- The null bitmap of row_codec.py: its bits set and read.
use tinydb_cc_comet.Prelude.{
  ◌+◌, ◌≤◌, ℕ, zero, suc, ◌/◌, ◌%◌, ◌^◌, ◌<◌, bit_and, bit_or, ◌≡◌, ◌≢◌, refl, sym, ap, subst, ◌∙◌,
  Bool, true, false, not, ◌&&◌, ◌||◌, arith, ltb, ◌==◌, length, get_or, set, get_or-set_self,
  get_or-set_ne, replicate, get_or-replicate,
}
use native.Mathlib.Decide.{ℕ_discrete}
use tinydb_cc_comet.Bytes.{Bytes}
use tinydb_cc_comet.RowCodec.{set_null, is_null}

abbrev eqb : Bool → Bool → Bool
eqb true b = b
eqb false b = not b

abbrev bit : ℕ → ℕ → Bool
bit b j = not (bit_and (b / 2 ^ j) 1 == 0)

-- Whether a test holds of the `count` numbers from `start` on
holds_from : (start count : ℕ) → (ℕ → Bool) → Bool
holds_from start zero test = true
holds_from start (suc count) test = holds_from (start + 1) count test && test start

holds_at :
    (start count k : ℕ) (test : ℕ → Bool)
    → start ≤ k
    → k < start + count
    → holds_from start count test ≡ true
    → test k ≡ true
unfolding holds_from
holds_at start zero k test low high h = absurd (omega arith)
holds_at start (suc count) k test low high h = elim (ℕ_discrete start k) [
  | yes e ↦ ap test (sym e) ∙ ground arith
  | no n ↦ holds_at (start + 1) count k test (omega arith) (omega arith) (ground arith)
]

abbrev bit_case : ℕ → ℕ → ℕ → Bool
bit_case b j k = eqb (bit (bit_or b (2 ^ k)) j) (j == k || bit b j) && ltb (bit_or b (2 ^ k)) 256

-- By evaluation, over the values of a byte and the positions in it
bit_table :
    holds_from 0 256 (λ b. holds_from 0 8 (λ j. holds_from 0 8 (λ k. bit_case b j k))) ≡ true
unfolding holds_from
bit_table = refl

bit_case-true : (b j k : ℕ) → b < 256 → j < 8 → k < 8 → bit_case b j k ≡ true
bit_case-true b j k hb hj hk =
    holds_at 0 8 k (λ k. bit_case b j k) (omega arith) (omega arith)
      (holds_at 0 8 j (λ j. holds_from 0 8 (λ k. bit_case b j k)) (omega arith) (omega arith)
        (holds_at 0 256 b (λ b. holds_from 0 8 (λ j. holds_from 0 8 (λ k. bit_case b j k)))
          (omega arith) (omega arith) bit_table))

bit-bit_or : (b j k : ℕ) → b < 256 → j < 8 → k < 8 → bit (bit_or b (2 ^ k)) j ≡ (j == k || bit b j)
bit-bit_or b j k hb hj hk = ground (arith, bit_case-true b j k hb hj hk)

bit_or_byte : (b k : ℕ) → b < 256 → k < 8 → bit_or b (2 ^ k) < 256
bit_or_byte b k hb hk = ground (arith, bit_case-true b k k hb hk hk)

same_bit : (k i : ℕ) → i / 8 ≡ k / 8 → (k % 8 == i % 8) ≡ (k == i)
same_bit k i e = elim (ℕ_discrete k i) [
  | yes q ↦
      let t : (k == i) ≡ true = ground arith in
      let t' : (k % 8 == i % 8) ≡ true = ground arith in t' ∙ sym t
  | no n ↦
      let t : (k == i) ≡ false = ground arith in
      let t' : (k % 8 == i % 8) ≡ false = ground arith in t' ∙ sym t
]

other_byte : (k i : ℕ) → i / 8 ≢ k / 8 → k ≢ i
other_byte k i n q = n (ap (λ (m : ℕ). m / 8) (sym q))

-- Every entry of a bitmap is a byte.
abbrev pub IsBitmap : Bytes → Type 0
IsBitmap bitmap = (k : ℕ) → get_or bitmap k 0 < 256

pub IsBitmap-replicate : (n : ℕ) → IsBitmap (replicate n 0)
IsBitmap-replicate n k = omega (arith, get_or-replicate {A = ℕ} n 0 k)

module _ (i : ℕ) (bitmap : Bytes) (b : IsBitmap bitmap) (room : i / 8 < length bitmap) where
  abbrev marked : ℕ
  marked = bit_or (get_or bitmap (i / 8) 0) (2 ^ (i % 8))

  pub set_null-IsBitmap : IsBitmap (set_null i bitmap)
  unfolding set_null
  set_null-IsBitmap k = elim (ℕ_discrete (i / 8) k) [
    | yes e ↦
        subst (λ k. get_or (set bitmap (i / 8) marked) k 0 < 256) e
          (omega (
            arith,
            get_or-set_self bitmap (i / 8) marked 0 room,
            bit_or_byte (get_or bitmap (i / 8) 0) (i % 8) (b (i / 8)) (omega arith),
          ))
    | no n ↦ omega (arith, get_or-set_ne bitmap (i / 8) k marked 0 n, b k)
  ]

  -- After `set_null`, a position reads as NULL when it is the one that was set or did so before.
  pub is_null-set_null : (k : ℕ) → is_null k (set_null i bitmap) ≡ (k == i || is_null k bitmap)
  unfolding is_null set_null
  is_null-set_null k = elim (ℕ_discrete (i / 8) (k / 8)) [
    | yes e ↦
        let same : (k % 8 == i % 8) ≡ (k == i) = same_bit k i e in
        ap (λ (n : ℕ). bit (get_or (set bitmap (i / 8) marked) n 0) (k % 8)) (sym e)
        ∙ ap (λ (n : ℕ). bit n (k % 8)) (get_or-set_self bitmap (i / 8) marked 0 room)
        ∙ bit-bit_or (get_or bitmap (i / 8) 0) (k % 8) (i % 8) (b (i / 8)) (omega arith)
            (omega arith)
        ∙ ap (λ (t : Bool). t || bit (get_or bitmap (i / 8) 0) (k % 8)) same
        ∙ ap (λ (n : ℕ). k == i || bit (get_or bitmap n 0) (k % 8)) e
    | no n ↦
        let t : (k == i) ≡ false = ground (arith, other_byte k i n) in
        ap (λ (m : ℕ). bit m (k % 8)) (get_or-set_ne bitmap (i / 8) (k / 8) marked 0 n)
        ∙ ap (λ (u : Bool). u || bit (get_or bitmap (k / 8) 0) (k % 8)) (sym t)
  ]
