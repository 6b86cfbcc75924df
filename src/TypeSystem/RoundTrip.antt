-- ===== src/TypeSystem/RoundTrip.antt =====
-- `encode_py` and `decode_bytes` of type_system.py together, at any place in a row.
use tinydb_cc_comet.Prelude.{
  ℕ, ◌+◌, ◌-◌, ◌*◌, ◌^◌, ◌<◌, ◌≡◌, refl, sym, ap, subst, ◌∙◌, Bool, true, false, Option, none, some,
  [], ◌∷◌, ◌++◌, arith, ltb, leb, length, length-append, length-replicate, replicate, Option-cases,
  ◌≤◌, if◌then◌else◌, Bool-cases, inl, inr,
}
use tinydb_cc_comet.Prelude.Int.{ℤ}
use tinydb_cc_comet.Errors.{Result, ok, err, codec_error, first-ok}
use tinydb_cc_comet.Bytes.{Bytes, to_be, pack, length-to_be, pack-eq}
use tinydb_cc_comet.TypeSystem.Fields.{int_read, text_read, bool_read, date_read, time_read}
use tinydb_cc_comet.TypeSystem.Signed.{check_bounds-Bounded, length-pack_signed}
use tinydb_cc_comet.TypeSystem.{
  Text, Value, int, bool, str, date, time, Width, four, Foreign, Codec, int_codec, text_codec,
  bool_codec, date_codec, time_codec, varchar_codec, char_codec, foreign, is_date, check_bounds,
  pack_signed, encoded, with_length, check_length, padded, over_limit, encode_char, encode_time,
  encode_py, decode_bytes,
}

-- The codecs that the model computes with
abbrev pub IsModelled : Codec → Type 0
IsModelled (foreign f) = ⊥
IsModelled _ = Unit

-- What every date and time object satisfies
abbrev pub IsObject : Value → Type 0
IsObject (date z) = is_date z ≡ true
IsObject (time h m s us z) = (h < 24) × (m < 60) × (s < 60)
IsObject _ = Unit

-- A CHAR as it is stored
abbrev stored_char : ℕ → Text → Option Bytes → Text
stored_char n s (some d) = padded n d s
stored_char n s none = s

-- The value that is read back: a CHAR comes back padded with spaces, a time without its
-- microseconds and its UTC offset, and every other value as it was.
abbrev pub stored : (Text → Option Bytes) → Codec → Value → Value
stored encode_utf8 (char_codec n) (str s) = str (stored_char n s (encode_utf8 s))
stored encode_utf8 time_codec (time h m s us z) = time h m s 0 none
stored encode_utf8 _ v = v

-- UTF-8 as far as the codecs rely on it: what is encoded is decoded, and each space takes one byte.
pub record Utf8 (encode_utf8 : Text → Option Bytes) (decode_utf8 : Bytes → Option Text)
    : Type 0 where
  pub decode-encode : (s : Text) (d : Bytes) → encode_utf8 s ≡ some d → decode_utf8 d ≡ some s
  pub spaces :
      (s : Text) (d : Bytes) (k : ℕ)
      → encode_utf8 s ≡ some d
      → encode_utf8 (s ++ replicate k b' ') ≡ some (d ++ replicate k b' ')

module _ (encode_utf8 : Text → Option Bytes) (decode_utf8 : Bytes → Option Text)
    (u : Utf8 encode_utf8 decode_utf8) (foreign_encode : Foreign → Value → Result Bytes)
    (foreign_decode : Foreign → Bytes → ℕ → Result (Value × ℕ)) where
  abbrev encode : Codec → Value → Result Bytes
  encode = encode_py encode_utf8 foreign_encode

  abbrev decode : Codec → Bytes → ℕ → Result (Value × ℕ)
  decode = decode_bytes decode_utf8 foreign_decode

  -- What the codec `c` wrote for `v` is read back behind any `pre` and before any `rest`.
  abbrev ReadBack : Codec → Value → Bytes → Bytes → Bytes → Type 0
  ReadBack c v bytes pre rest =
      decode c (pre ++ (bytes ++ rest)) (length pre)
      ≡ ok (stored encode_utf8 c v, length pre + length bytes)

  with_length-eq :
      (payload bytes : Bytes)
      → with_length payload ≡ ok bytes
      → (length payload < 256 ^ 2) × (to_be 2 (length payload) ++ payload ≡ bytes)
  unfolding with_length pack
  with_length-eq payload bytes h = (ground arith, ground arith)

  int_back :
      (w : Width) (z : ℤ) (bytes pre rest : Bytes)
      → encode (int_codec w) (int z) ≡ ok bytes
      → ReadBack (int_codec w) (int z) bytes pre rest
  unfolding encode_py decode_bytes
  int_back w z bytes pre rest h =
      let (v, e, e') = first-ok (check_bounds w z) (λ v. ok (pack_signed w v)) h in
      let (b, same) = check_bounds-Bounded w z v e in
      let written : pack_signed w v ≡ bytes = ground arith in
      subst (λ b. ReadBack (int_codec w) (int z) b pre rest) (ap (pack_signed w) same ∙ written)
        (int_read pre rest w z b
          ∙ ap (λ (n : ℕ). ok (int z, length pre + n)) (sym (length-pack_signed w z)))

  -- What was encoded, when it was
  encoded-some : (s : Text) (d : Bytes) → encoded encode_utf8 s ≡ ok d → encode_utf8 s ≡ some d
  unfolding encoded
  encoded-some s d h = elim (Option-cases (encode_utf8 s)) [
    | inl refused ↦ absurd (let k = rw refused at h in ground arith)
    | inr (x, e) ↦ e ∙ (let k = rw e at h in ground arith)
  ]

  check_length-some :
      (n : ℕ) (s : Text) (d : Bytes)
      → check_length encode_utf8 n s ≡ ok d
      → (encode_utf8 s ≡ some d) × (length d ≤ n)
  unfolding check_length
  check_length-some n s d h =
      let (x, e, k) =
        first-ok (encoded encode_utf8 s) (λ x. if ltb n (length x) then err codec_error else ok x)
          h in
      elim (Bool-cases (ltb n (length x))) [
        | inl long ↦ absurd (let q = rw long at k in ground arith)
        | inr fits ↦
            let same : x ≡ d = (let q = rw fits at k in ground arith) in
            (
              encoded-some s x e ∙ ap (λ (b : Bytes). some b) same,
              ground (arith, ap (λ (b : Bytes). length b) same),
            )
      ]

  text_back :
      (s : Text) (bytes pre rest : Bytes)
      → encode text_codec (str s) ≡ ok bytes
      → ReadBack text_codec (str s) bytes pre rest
  unfolding encode_py decode_bytes
  text_back s bytes pre rest h =
      let (d, e, k) = first-ok (encoded encode_utf8 s) with_length h in
      let (small, q) = with_length-eq d bytes k in
      subst (λ b. ReadBack text_codec (str s) b pre rest) q
        (text_read pre rest decode_utf8 s d (u.decode-encode s d (encoded-some s d e)) small none
          (unfold over_limit in refl))

  varchar_back :
      (n : ℕ) (s : Text) (bytes pre rest : Bytes)
      → encode (varchar_codec n) (str s) ≡ ok bytes
      → ReadBack (varchar_codec n) (str s) bytes pre rest
  unfolding encode_py decode_bytes
  varchar_back n s bytes pre rest h =
      let (d, e, k) = first-ok (check_length encode_utf8 n s) with_length h in
      let (same, fits) = check_length-some n s d e in
      let (small, q) = with_length-eq d bytes k in
      subst (λ b. ReadBack (varchar_codec n) (str s) b pre rest) q
        (text_read pre rest decode_utf8 s d (u.decode-encode s d same) small (some n)
          (unfold over_limit in ground arith))

  char_back :
      (n : ℕ) (s : Text) (bytes pre rest : Bytes)
      → encode (char_codec n) (str s) ≡ ok bytes
      → ReadBack (char_codec n) (str s) bytes pre rest
  unfolding encode_py decode_bytes encode_char
  char_back n s bytes pre rest h =
      let (d, e, k) = first-ok (check_length encode_utf8 n s) _ h in
      let (same, fits) = check_length-some n s d e in
      let (prefix, e', k') = first-ok (pack 2 n) _ k in
      let (small, q) = pack-eq 2 n prefix e' in
      let (b, e'', k'') = first-ok (encoded encode_utf8 (padded n d s)) _ k' in
      let wide : encode_utf8 (padded n d s) ≡ some (d ++ replicate (n - length d) b' ') =
        unfold padded in u.spaces s d (n - length d) same in
      let b_lem : d ++ replicate (n - length d) b' ' ≡ b =
        (let y = sym wide ∙ encoded-some (padded n d s) b e'' in ground arith) in
      let size : length b ≡ n =
        ap (λ (x : Bytes). length x) (sym b_lem)
        ∙ length-append d (replicate (n - length d) b' ')
        ∙ omega (arith, length-replicate {A = ℕ} (n - length d) b' ') in
      let written : to_be 2 (length b) ++ b ≡ bytes =
        ap (λ (j : ℕ). to_be 2 j ++ b) size ∙ ap (λ (x : Bytes). x ++ b) q ∙ ground arith in
      let shown : stored_char n s (encode_utf8 s) ≡ padded n d s =
        ap (λ (o : Option Bytes). stored_char n s o) same in
      subst (λ x. ReadBack (char_codec n) (str s) x pre rest) written
        (text_read pre rest decode_utf8 (padded n d s) b
            (u.decode-encode (padded n d s) b (encoded-some (padded n d s) b e'')) (omega arith)
            (some n) (unfold over_limit in ground (arith, size))
          ∙ ap (λ (x : Text). ok (str x, length pre + length (to_be 2 (length b) ++ b)))
              (sym shown))

  time_back :
      (h m s us : ℕ) (z : Option ℤ) (bytes pre rest : Bytes)
      → IsObject (time h m s us z)
      → encode time_codec (time h m s us z) ≡ ok bytes
      → ReadBack time_codec (time h m s us z) bytes pre rest
  unfolding encode_py decode_bytes encode_time
  time_back h m s us z bytes pre rest (p, q, r) e =
      let t : leb (h * 3600 + m * 60 + s) 86399 ≡ true = ground arith in
      let (_, written) = pack-eq 4 (h * 3600 + m * 60 + s) bytes (rw t at e) in
      subst (λ b. ReadBack time_codec (time h m s us z) b pre rest) written
        (time_read pre rest h m s p q r
          ∙ ap (λ (n : ℕ). ok (time h m s 0 none, length pre + n))
              (sym (length-to_be 4 (h * 3600 + m * 60 + s))))

  date_back :
      (z : ℤ) (bytes pre rest : Bytes)
      → is_date z ≡ true
      → encode date_codec (date z) ≡ ok bytes
      → ReadBack date_codec (date z) bytes pre rest
  unfolding encode_py decode_bytes
  date_back z bytes pre rest d e =
      let written : pack_signed four z ≡ bytes = ground arith in
      subst (λ b. ReadBack date_codec (date z) b pre rest) written
        (date_read pre rest z d
          ∙ ap (λ (n : ℕ). ok (date z, length pre + n)) (sym (length-pack_signed four z)))

  bool_back :
      (b : Bool) (bytes pre rest : Bytes)
      → encode bool_codec (bool b) ≡ ok bytes
      → ReadBack bool_codec (bool b) bytes pre rest
  unfolding encode_py decode_bytes
  bool_back true bytes pre rest e =
      let written : ◌≡◌ {A = Bytes} (1 ∷ []) bytes = ground arith in
      subst (λ b. ReadBack bool_codec (bool true) b pre rest) written (bool_read pre rest true)
  bool_back false bytes pre rest e =
      let written : ◌≡◌ {A = Bytes} (0 ∷ []) bytes = ground arith in
      subst (λ b. ReadBack bool_codec (bool false) b pre rest) written (bool_read pre rest false)

  -- What a modelled codec encodes is read back from any place in a row, with the offset behind it:
  -- the value itself, but for the padding of a CHAR and the microseconds and the UTC offset of a TIME.
  pub decode_bytes-encode_py :
      (c : Codec) (v : Value) (bytes pre rest : Bytes)
      → IsModelled c
      → IsObject v
      → encode c v ≡ ok bytes
      → decode c (pre ++ (bytes ++ rest)) (length pre)
        ≡ ok (stored encode_utf8 c v, length pre + length bytes)
  decode_bytes-encode_py (int_codec w) (int z) bytes pre rest k o e = int_back w z bytes pre rest e
  decode_bytes-encode_py text_codec (str s) bytes pre rest k o e = text_back s bytes pre rest e
  decode_bytes-encode_py bool_codec (bool b) bytes pre rest k o e = bool_back b bytes pre rest e
  decode_bytes-encode_py date_codec (date z) bytes pre rest k o e = date_back z bytes pre rest o e
  decode_bytes-encode_py time_codec (time h m s us z) bytes pre rest k o e =
      time_back h m s us z bytes pre rest o e
  decode_bytes-encode_py (varchar_codec n) (str s) bytes pre rest k o e =
      varchar_back n s bytes pre rest e
  decode_bytes-encode_py (char_codec n) (str s) bytes pre rest k o e =
      char_back n s bytes pre rest e
  decode_bytes-encode_py (foreign f) v bytes pre rest k o e = absurd k
  decode_bytes-encode_py c v bytes pre rest k o e = absurd (unfold encode_py in ground arith)
