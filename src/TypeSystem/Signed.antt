-- ===== src/TypeSystem/Signed.antt =====
-- Two's complement in the integer codecs of type_system.py.
use tinydb_cc_comet.Prelude.{
  ℕ, ◌-◌, ◌^◌, ◌<◌, ◌≡◌, refl, ap, ◌∙◌, arith, ltb, lt→ltb, if◌then◌else◌, length,
}
use tinydb_cc_comet.Prelude.Int.{ℤ, pos, negsuc}
use tinydb_cc_comet.Errors.{ok}
use tinydb_cc_comet.Bytes.{to_be, int_from_bytes, int_from_bytes-to_be, length-to_be}
use tinydb_cc_comet.TypeSystem.{
  Width, smallint, four, bigint, width, half, check_bounds, pack_signed, unpack_signed,
}

abbrev pub Bounded : Width → ℤ → Type 0
Bounded w (pos n) = n < half w
Bounded w (negsuc n) = n < half w

pub check_bounds-Bounded : (w : Width) (z v : ℤ) → check_bounds w z ≡ ok v → Bounded w z × (z ≡ v)
unfolding check_bounds
check_bounds-Bounded w (pos n) v h = (ground arith, ground arith)
check_bounds-Bounded w (negsuc n) v h = (ground arith, ground arith)

pub check_bounds-ok : (w : Width) (z : ℤ) → Bounded w z → check_bounds w z ≡ ok z
unfolding check_bounds
check_bounds-ok w (pos n) h = rw (lt→ltb n (half w) h)
check_bounds-ok w (negsuc n) h = rw (lt→ltb n (half w) h)

pub length-pack_signed : (w : Width) (z : ℤ) → length (pack_signed w z) ≡ width w
unfolding pack_signed
length-pack_signed w (pos n) = length-to_be (width w) n
length-pack_signed w (negsuc n) = length-to_be (width w) (256 ^ width w - n - 1)

unsigned : Width → ℤ → ℕ
unsigned w (pos n) = n
unsigned w (negsuc n) = 256 ^ width w - n - 1

of_unsigned : Width → ℕ → ℤ
of_unsigned w u = if ltb u (half w) then pos u else negsuc (256 ^ width w - u - 1)

of_unsigned-unsigned : (w : Width) (z : ℤ) → Bounded w z → of_unsigned w (unsigned w z) ≡ z
unfolding of_unsigned unsigned
of_unsigned-unsigned smallint (pos n) h = ground arith
of_unsigned-unsigned four (pos n) h = ground arith
of_unsigned-unsigned bigint (pos n) h = ground arith
of_unsigned-unsigned smallint (negsuc n) h = ground arith
of_unsigned-unsigned four (negsuc n) h = ground arith
of_unsigned-unsigned bigint (negsuc n) h = ground arith

unsigned-lt : (w : Width) (z : ℤ) → Bounded w z → unsigned w z < 256 ^ width w
unfolding unsigned
unsigned-lt smallint (pos n) h = omega arith
unsigned-lt four (pos n) h = omega arith
unsigned-lt bigint (pos n) h = omega arith
unsigned-lt smallint (negsuc n) h = omega arith
unsigned-lt four (negsuc n) h = omega arith
unsigned-lt bigint (negsuc n) h = omega arith

pack_signed-unsigned : (w : Width) (z : ℤ) → pack_signed w z ≡ to_be (width w) (unsigned w z)
unfolding pack_signed unsigned
pack_signed-unsigned w (pos n) = refl
pack_signed-unsigned w (negsuc n) = refl

pub unpack-pack_signed : (w : Width) (z : ℤ) → Bounded w z → unpack_signed w (pack_signed w z) ≡ z
unfolding unpack_signed of_unsigned
unpack-pack_signed w z h =
    ap (of_unsigned w) (
      ap int_from_bytes (pack_signed-unsigned w z)
      ∙ int_from_bytes-to_be (width w) (unsigned w z) (unsigned-lt w z h))
    ∙ of_unsigned-unsigned w z h
