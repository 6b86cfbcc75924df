-- ===== src/Bytes.antt =====
-- Byte strings, and the fixed-width big-endian integers of `int.to_bytes` and `struct.pack`.
use native.Mathlib.Nat.{pow-suc}
use mathlib.Core.List.{foldl, foldl-append}
use tinydb_cc_comet.Prelude.{
  ℕ, zero, suc, ◌+◌, ◌*◌, ◌/◌, ◌%◌, ◌^◌, ◌<◌, ◌≡◌, refl, List, [], ◌∷◌, ◌++◌, arith, ltb, ◌==◌,
  Bool, true, false, ◌&&◌, lt→ltb, if◌then◌else◌, length, length-append,
}
use tinydb_cc_comet.Errors.{Result, ok, err, overflow_error, struct_error}

abbrev pub Bytes : Type 0
Bytes = List ℕ

-- The low `w` bytes of a number, the highest first.
unfoldable pub to_be : ℕ → ℕ → Bytes
to_be zero n = []
to_be (suc w) n = to_be w (n / 256) ++ (n % 256) ∷ []

-- `int.from_bytes(b, "big")`
unfoldable pub int_from_bytes : Bytes → ℕ
int_from_bytes = foldl (λ a b. a * 256 + b) 0

-- `n.to_bytes(w, "big")`
unfoldable pub int_to_bytes : ℕ → ℕ → Result Bytes
int_to_bytes w n = if ltb n (256 ^ w) then ok (to_be w n) else err overflow_error

-- `struct.pack` of one unsigned field of `w` bytes
unfoldable pub pack : ℕ → ℕ → Result Bytes
pack w n = if ltb n (256 ^ w) then ok (to_be w n) else err struct_error

-- `==` on byte strings
unfoldable pub bytes_eq : Bytes → Bytes → Bool
bytes_eq [] [] = true
bytes_eq (a ∷ xs) (b ∷ ys) = a == b && bytes_eq xs ys
bytes_eq _ _ = false

pub bytes_eq_refl : (k : Bytes) → bytes_eq k k ≡ true
unfolding bytes_eq
bytes_eq_refl [] = refl
bytes_eq_refl (b ∷ k) = ground (arith, bytes_eq_refl k)

pub length-to_be : (w n : ℕ) → length (to_be w n) ≡ w
unfolding to_be
length-to_be zero n = refl
length-to_be (suc w) n =
    omega (arith, length-append (to_be w (n / 256)) ((n % 256) ∷ []), length-to_be w (n / 256))

pub int_from_bytes-append :
    (bs : Bytes) (b : ℕ) → int_from_bytes (bs ++ b ∷ []) ≡ int_from_bytes bs * 256 + b
unfolding int_from_bytes
int_from_bytes-append bs b = rw foldl-append

-- A number that fits is read back.
pub int_from_bytes-to_be : (w n : ℕ) → n < 256 ^ w → int_from_bytes (to_be w n) ≡ n
unfolding to_be int_from_bytes
int_from_bytes-to_be zero n h = omega arith
int_from_bytes-to_be (suc w) n h =
    rw int_from_bytes-append
      (omega (arith, int_from_bytes-to_be w (n / 256) (omega (arith, pow-suc 256 w))))

pub int_to_bytes-ok : (w n : ℕ) → n < 256 ^ w → int_to_bytes w n ≡ ok (to_be w n)
unfolding int_to_bytes
int_to_bytes-ok w n h = rw (lt→ltb n (256 ^ w) h)

pub pack-ok : (w n : ℕ) → n < 256 ^ w → pack w n ≡ ok (to_be w n)
unfolding pack
pack-ok w n h = rw (lt→ltb n (256 ^ w) h)

-- What a successful `pack` wrote, and that it was in range
pub pack-eq : (w n : ℕ) (bytes : Bytes) → pack w n ≡ ok bytes → (n < 256 ^ w) × (to_be w n ≡ bytes)
unfolding pack
pack-eq w n bytes h = (ground arith, ground arith)
