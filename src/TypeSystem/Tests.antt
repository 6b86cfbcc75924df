-- ===== src/TypeSystem/Tests.antt =====
-- The codec theorem at a CHAR, with ASCII for UTF-8 and no codec that the model leaves out.
use tinydb_cc_comet.Prelude.{
  ℕ, sym, zero, suc, Bool, true, ltb, ◌&&◌, if◌then◌else◌, ap, none, Bool-cases, inl, inr, ◌≡◌,
  refl, Option, some, [], ◌∷◌, ◌++◌, arith, replicate,
}
use tinydb_cc_comet.Errors.{Result, ok, err, type_error}
use tinydb_cc_comet.Bytes.{Bytes, pack, to_be}
use tinydb_cc_comet.TypeSystem.{
  Text, Value, str, Foreign, char_codec, padded, encoded, encode_char, check_length, encode_py,
  decode_bytes,
}
use tinydb_cc_comet.TypeSystem.RoundTrip.{Utf8, decode_bytes-encode_py}

abbrev pub all_ascii : Text → Bool
all_ascii [] = true
all_ascii (c ∷ s) = ltb c 128 && all_ascii s

-- One byte for each character; all but the 128 of ASCII are refused.
abbrev pub ascii : Text → Option Bytes
ascii s = if all_ascii s then some s else none

abbrev pub of_ascii : Bytes → Option Text
of_ascii b = some b

abbrev pub no_encode : Foreign → Value → Result Bytes
no_encode f v = err type_error

abbrev pub no_decode : Foreign → Bytes → ℕ → Result (Value × ℕ)
no_decode f buf offset = err type_error

all_ascii-spaces : (s : Text) (k : ℕ) → all_ascii (s ++ replicate k b' ') ≡ all_ascii s
unfolding replicate
all_ascii-spaces [] zero = refl
all_ascii-spaces [] (suc k) = all_ascii-spaces [] k
all_ascii-spaces (c ∷ s) k = ap (λ (b : Bool). ltb c 128 && b) (all_ascii-spaces s k)

ascii-some : (s : Text) (d : Bytes) → ascii s ≡ some d → (all_ascii s ≡ true) × (s ≡ d)
ascii-some s d h = elim (Bool-cases (all_ascii s)) [
  | inl yes_ ↦ (yes_, let k = rw yes_ at h in ground arith)
  | inr no_ ↦ absurd (let k = rw no_ at h in ground arith)
]

ascii-spaces :
    (s : Text) (d : Bytes) (k : ℕ)
    → ascii s ≡ some d
    → ascii (s ++ replicate k b' ') ≡ some (d ++ replicate k b' ')
ascii-spaces s d k h =
    let (all, same) = ascii-some s d h in
    rw (all_ascii-spaces s k, all) (ap (λ (t : Text). some (t ++ replicate k b' ')) same)

pub ascii-Utf8 : Utf8 ascii of_ascii
ascii-Utf8 = record {
  decode-encode = λ s d h. ap (λ (t : Text). some t) (sym (ascii-some s d h).1);
  spaces = ascii-spaces;
}

abbrev hi : Text
hi = b'h' ∷ b'i' ∷ []

abbrev hi_bytes : Bytes
hi_bytes = 0 ∷ 3 ∷ b'h' ∷ b'i' ∷ b' ' ∷ []

encode_hi : encode_py ascii no_encode (char_codec 3) (str hi) ≡ ok hi_bytes
unfolding encode_py encode_char check_length encoded padded pack to_be replicate
encode_hi = refl

-- CHAR(3) behind one byte and before two
decode_bytes-encode_py_example :
    decode_bytes of_ascii no_decode (char_codec 3) ((1 ∷ []) ++ (hi_bytes ++ (2 ∷ 3 ∷ []))) 1
    ≡ ok (str (padded 3 hi hi), 6)
decode_bytes-encode_py_example =
    decode_bytes-encode_py ascii of_ascii ascii-Utf8 no_encode no_decode (char_codec 3) (str hi)
      hi_bytes (1 ∷ []) (2 ∷ 3 ∷ []) tt tt encode_hi
