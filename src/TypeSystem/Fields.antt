-- ===== src/TypeSystem/Fields.antt =====
-- What the decoders read of an encoded value, wherever it stands in a row.
use tinydb_cc_comet.Prelude.{
  ℕ, ◌+◌, ◌*◌, ◌/◌, ◌%◌, ◌^◌, ◌<◌, ◌≡◌, refl, ap, ◌∙◌, Bool, true, false, Option, some, [], ◌∷◌,
  ◌++◌, append_assoc, arith, ltb, lt→ltb, none, if◌then◌else◌, length, slice, length-append,
  slice-field, get_or-append_right, get_or, not, ◌==◌,
}
use tinydb_cc_comet.Prelude.Int.{ℤ, pos, negsuc}
use tinydb_cc_comet.Errors.{ok}
use tinydb_cc_comet.Bytes.{Bytes, to_be, int_from_bytes, int_from_bytes-to_be, length-to_be}
use tinydb_cc_comet.TypeSystem.Signed.{
  Bounded, check_bounds-ok, length-pack_signed, unpack-pack_signed,
}
use tinydb_cc_comet.TypeSystem.{
  Text, int, bool, str, date, time, Width, four, width, is_date, pack_signed, over_limit,
  decode_int, decode_payload, decode_text, decode_bool, decode_date, decode_time,
}

date-Bounded : (z : ℤ) → is_date z ≡ true → Bounded four z
date-Bounded (pos n) h = ground arith
date-Bounded (negsuc n) h = ground arith

bool_value : (b : Bool) → not ((if b then 1 else 0) == 0) ≡ b
bool_value true = refl
bool_value false = refl

module _ (pre rest : Bytes) where
  -- A piece `f` behind `pre`
  abbrev pub at_pre : Bytes → Bytes
  at_pre f = pre ++ (f ++ rest)

  length-at_pre : (f : Bytes) → length (at_pre f) ≡ length pre + length f + length rest
  length-at_pre f = omega (arith, length-append pre (f ++ rest), length-append f rest)

  slice-at_pre :
      (f : Bytes) (n : ℕ) → length f ≡ n → slice (length pre) (length pre + n) (at_pre f) ≡ f
  slice-at_pre f n h =
      slice-field (length pre) (length pre + n) (at_pre f) pre f rest refl refl (omega arith)

  pub int_read :
      (w : Width) (z : ℤ)
      → Bounded w z
      → decode_int w (at_pre (pack_signed w z)) (length pre) ≡ ok (int z, length pre + width w)
  unfolding decode_int
  int_read w z b =
      let t : ltb (length (at_pre (pack_signed w z))) (length pre + width w) ≡ false =
        ground (arith, length-at_pre (pack_signed w z), length-pack_signed w z) in
      rw (
        t,
        slice-at_pre (pack_signed w z) (width w) (length-pack_signed w z),
        unpack-pack_signed w z b,
        check_bounds-ok w z b,
      )

  pub date_read :
      (z : ℤ)
      → is_date z ≡ true
      → decode_date (at_pre (pack_signed four z)) (length pre) ≡ ok (date z, length pre + 4)
  unfolding decode_date
  date_read z d =
      let t : ltb (length (at_pre (pack_signed four z))) (length pre + 4) ≡ false =
        ground (arith, length-at_pre (pack_signed four z), length-pack_signed four z) in
      rw (
        t,
        slice-at_pre (pack_signed four z) 4 (length-pack_signed four z),
        unpack-pack_signed four z (date-Bounded z d),
        d,
      )

  pub bool_read :
      (b : Bool)
      → decode_bool (at_pre ((if b then 1 else 0) ∷ [])) (length pre) ≡ ok (bool b, length pre + 1)
  unfolding decode_bool
  bool_read b =
      let f : Bytes = (if b then 1 else 0) ∷ [] in
      let t : ltb (length (at_pre f)) (length pre + 1) ≡ false = ground (arith, length-at_pre f) in
      let e : get_or (at_pre f) (length pre) 0 ≡ (if b then 1 else 0) =
        ap (λ (n : ℕ). get_or (at_pre f) n 0) {y = length pre + 0} (omega arith)
        ∙ get_or-append_right pre (f ++ rest) 0 0
        ∙ (unfold get_or in refl) in
      rw (t, e, bool_value b)

  pub time_read :
      (h m s : ℕ)
      → h < 24
      → m < 60
      → s < 60
      → decode_time (at_pre (to_be 4 (h * 3600 + m * 60 + s))) (length pre)
        ≡ ok (time h m s 0 none, length pre + 4)
  unfolding decode_time
  time_read h m s p q r =
      let n = h * 3600 + m * 60 + s in
      let t : ltb (length (at_pre (to_be 4 n))) (length pre + 4) ≡ false =
        ground (arith, length-at_pre (to_be 4 n), length-to_be 4 n) in
      let hour : n / 3600 ≡ h = omega arith in
      let minute : n % 3600 / 60 ≡ m = omega arith in
      let second : n % 3600 % 60 ≡ s = omega arith in
      rw (
        t,
        slice-at_pre (to_be 4 n) 4 (length-to_be 4 n),
        int_from_bytes-to_be 4 n (omega arith),
        hour,
        minute,
        second,
        lt→ltb h 24 p,
      )

  module _ (decode_utf8 : Bytes → Option Text) (s : Text) (bytes : Bytes)
      (law : decode_utf8 bytes ≡ some s) (small : length bytes < 256 ^ 2) where
    abbrev pub field : Bytes
    field = to_be 2 (length bytes) ++ bytes

    length-field : length field ≡ 2 + length bytes
    length-field =
        omega (arith, length-append (to_be 2 (length bytes)) bytes, length-to_be 2 (length bytes))

    prefix_read : int_from_bytes (slice (length pre) (length pre + 2) (at_pre field)) ≡ length bytes
    prefix_read =
        ap int_from_bytes (
          slice-field (length pre) (length pre + 2) (at_pre field) pre (to_be 2 (length bytes))
            (bytes ++ rest) (simp append_assoc) refl (omega (arith, length-to_be 2 (length bytes))))
        ∙ int_from_bytes-to_be 2 (length bytes) small

    payload_read : slice (length pre + 2) (length pre + 2 + length bytes) (at_pre field) ≡ bytes
    payload_read =
        slice-field (length pre + 2) (length pre + 2 + length bytes) (at_pre field)
          (pre ++ to_be 2 (length bytes)) bytes rest (simp append_assoc)
          (omega (arith, length-append pre (to_be 2 (length bytes)), length-to_be 2 (length bytes)))
          refl

    pub text_read :
        (limit : Option ℕ)
        → over_limit limit (length bytes) ≡ false
        → decode_text decode_utf8 limit (at_pre field) (length pre)
          ≡ ok (str s, length pre + length field)
    unfolding decode_text decode_payload
    text_read limit fits =
        let t : ltb (length (at_pre field)) (length pre + 2) ≡ false =
          ground (arith, length-at_pre field, length-field) in
        let t' : ltb (length (at_pre field)) (length pre + 2 + length bytes) ≡ false =
          ground (arith, length-at_pre field, length-field) in
        let e : length pre + 2 + length bytes ≡ length pre + length field =
          omega (arith, length-field) in
        rw (t, prefix_read, t', fits, payload_read, law, e)
