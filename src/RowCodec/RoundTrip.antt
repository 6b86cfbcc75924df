-- ===== src/RowCodec/RoundTrip.antt =====
-- `encode_row` and `decode_row` of row_codec.py together.
use tinydb_cc_comet.Prelude.{
  ℕ, suc, ◌+◌, ◌*◌, ◌/◌, ◌≤◌, ◌<◌, ◌≡◌, refl, sym, ap, subst, ◌∙◌, Bool, true, false, ◌||◌, Option,
  none, some, List, [], ◌∷◌, ◌++◌, append_assoc, append-nil, arith, ltb, ◌==◌, length, length-set,
  length-replicate, length-append, replicate, take-append_self, get_or-replicate, Bool-cases, inl,
  inr,
}
use tinydb_cc_comet.Errors.{Result, ok, err, first-ok}
use tinydb_cc_comet.Bytes.{Bytes}
use tinydb_cc_comet.TypeSystem.{Text, Value, Foreign, Codec, encode_py, decode_bytes}
use tinydb_cc_comet.TypeSystem.RoundTrip.{
  Utf8, IsModelled, IsObject, stored, decode_bytes-encode_py,
}
use tinydb_cc_comet.RowCodec.{
  Column, column_codec, bitmap_len, set_null, is_null, encode_columns, encode_row, decode_columns,
  decode_row,
}
use tinydb_cc_comet.RowCodec.Bitmap.{
  IsBitmap, IsBitmap-replicate, set_null-IsBitmap, is_null-set_null,
}

-- A column whose codec the model computes with
abbrev pub IsModelledColumn : Result Codec → Type 0
IsModelledColumn (ok c) = IsModelled c
IsModelledColumn (err e) = Unit

-- Such columns, and values that date and time objects can have
abbrev pub IsModelledRow : List (Option Value) → List Column → Type 0
IsModelledRow (none ∷ values) (c ∷ schema) = IsModelledRow values schema
IsModelledRow (some v ∷ values) (c ∷ schema) =
    IsModelledColumn (column_codec c) × IsObject v × IsModelledRow values schema
IsModelledRow values schema = Unit

abbrev pub stored_in : (Text → Option Bytes) → Result Codec → Value → Value
stored_in encode_utf8 (ok c) v = stored encode_utf8 c v
stored_in encode_utf8 (err e) v = v

-- The row that is read back
abbrev pub stored_row :
    (Text → Option Bytes) → List (Option Value) → List Column → List (Option Value)
stored_row encode_utf8 (none ∷ values) (c ∷ schema) = none ∷ stored_row encode_utf8 values schema
stored_row encode_utf8 (some v ∷ values) (c ∷ schema) =
    some (stored_in encode_utf8 (column_codec c) v) ∷ stored_row encode_utf8 values schema
stored_row encode_utf8 values schema = []

-- The columns from `i` on leave the length of the bitmap, and the positions below `i`.
record Kept (i : ℕ) (before after : Bytes) : Type 0 where
  same_length : length after ≡ length before
  below : (k : ℕ) → k < i → is_null k after ≡ is_null k before

length-set_null : (i : ℕ) (bitmap : Bytes) → length (set_null i bitmap) ≡ length bitmap
unfolding set_null
length-set_null i bitmap = length-set bitmap (i / 8) _

is_null-set_null_ne :
    (i k : ℕ) (bitmap : Bytes)
    → IsBitmap bitmap
    → i / 8 < length bitmap
    → k < i
    → is_null k (set_null i bitmap) ≡ is_null k bitmap
is_null-set_null_ne i k bitmap b room h =
    let t : (k == i) ≡ false = ground arith in
    is_null-set_null i bitmap b room k ∙ ap (λ (u : Bool). u || is_null k bitmap) t

is_null-set_null_self :
    (i : ℕ) (bitmap : Bytes)
    → IsBitmap bitmap
    → i / 8 < length bitmap
    → is_null i (set_null i bitmap) ≡ true
is_null-set_null_self i bitmap b room =
    let t : (i == i) ≡ true = ground arith in
    is_null-set_null i bitmap b room i ∙ ap (λ (u : Bool). u || is_null i bitmap) t

still_clear :
    (i k : ℕ) (bitmap : Bytes)
    → IsBitmap bitmap
    → i / 8 < length bitmap
    → i < k
    → is_null k bitmap ≡ false
    → is_null k (set_null i bitmap) ≡ false
still_clear i k bitmap b room h clear =
    let t : (k == i) ≡ false = ground arith in
    is_null-set_null i bitmap b room k ∙ ap (λ (u : Bool). u || is_null k bitmap) t ∙ clear

module _ (encode_utf8 : Text → Option Bytes) (foreign_encode : Foreign → Value → Result Bytes) where
  -- What a successful round of `encode_columns` on a value did
  record Encoded (i : ℕ) (v : Value) (values : List (Option Value)) (c : Column)
      (schema : List Column) (bitmap : Bytes) (out : Bytes × Bytes) : Type 0 where
    codec : Codec
    found : column_codec c ≡ ok codec
    part : Bytes
    encoded : encode_py encode_utf8 foreign_encode codec v ≡ ok part
    rest : Bytes × Bytes
    continued : encode_columns encode_utf8 foreign_encode (suc i) values schema bitmap ≡ ok rest
    result : (rest.0, part ++ rest.1) ≡ out

  encode_columns-Encoded :
      (i : ℕ) (v : Value) (values : List (Option Value)) (c : Column) (schema : List Column)
      (bitmap : Bytes) (out : Bytes × Bytes)
      → encode_columns encode_utf8 foreign_encode i (some v ∷ values) (c ∷ schema) bitmap ≡ ok out
      → Encoded i v values c schema bitmap out
  unfolding encode_columns
  encode_columns-Encoded i v values c schema bitmap out h =
      let (codec, found, h₁) = first-ok (column_codec c) _ h in
      let (part, encoded, h₂) = first-ok (encode_py encode_utf8 foreign_encode codec v) _ h₁ in
      let (rest, continued, h₃) =
        first-ok (encode_columns encode_utf8 foreign_encode (suc i) values schema bitmap) _ h₂ in
      record {
        codec = codec;
        found = found;
        part = part;
        encoded = encoded;
        rest = rest;
        continued = continued;
        result = ground arith;
      }

  encode_columns-Kept :
      (i : ℕ) (values : List (Option Value)) (schema : List Column) (bitmap : Bytes)
      (out : Bytes × Bytes)
      → IsBitmap bitmap
      → i + length values ≤ 8 * length bitmap
      → encode_columns encode_utf8 foreign_encode i values schema bitmap ≡ ok out
      → Kept i bitmap out.0
  unfolding encode_columns
  encode_columns-Kept i [] schema bitmap out b room h =
      let e : bitmap ≡ out.0 = ground arith in
      record { same_length = ap length (sym e); below = λ k lt. ap (is_null k) (sym e) }
  encode_columns-Kept i (v ∷ values) [] bitmap out b room h =
      let e : bitmap ≡ out.0 = ground arith in
      record { same_length = ap length (sym e); below = λ k lt. ap (is_null k) (sym e) }
  encode_columns-Kept i (none ∷ values) (c ∷ schema) bitmap out b room h =
      let r : i / 8 < length bitmap = omega arith in
      let k =
        encode_columns-Kept (suc i) values schema (set_null i bitmap) out
          (set_null-IsBitmap i bitmap b r) (omega (arith, length-set_null i bitmap)) h in
      record {
        same_length = k.same_length ∙ length-set_null i bitmap;
        below = λ j lt. k.below j (omega arith) ∙ is_null-set_null_ne i j bitmap b r lt;
      }
  encode_columns-Kept i (some v ∷ values) (c ∷ schema) bitmap out b room h =
      let e = encode_columns-Encoded i v values c schema bitmap out h in
      let k = encode_columns-Kept (suc i) values schema bitmap e.rest b (omega arith) e.continued in
      let q : e.rest.0 ≡ out.0 = ap (λ (o : Bytes × Bytes). o.0) e.result in
      record {
        same_length = ap length (sym q) ∙ k.same_length;
        below = λ j lt. ap (is_null j) (sym q) ∙ k.below j (omega arith);
      }

module _ (encode_utf8 : Text → Option Bytes) (decode_utf8 : Bytes → Option Text)
    (u : Utf8 encode_utf8 decode_utf8) (foreign_encode : Foreign → Value → Result Bytes)
    (foreign_decode : Foreign → Bytes → ℕ → Result (Value × ℕ)) where
  abbrev encode : ℕ → List (Option Value) → List Column → Bytes → Result (Bytes × Bytes)
  encode = encode_columns encode_utf8 foreign_encode

  abbrev decode : ℕ → List Column → Bytes → Bytes → ℕ → Result (List (Option Value))
  decode = decode_columns decode_utf8 foreign_decode

  decode-absent :
      (i : ℕ) (c : Column) (schema : List Column) (bitmap buf : Bytes) (off : ℕ)
      (row : List (Option Value))
      → is_null i bitmap ≡ true
      → decode (suc i) schema bitmap buf off ≡ ok row
      → decode i (c ∷ schema) bitmap buf off ≡ ok (none ∷ row)
  unfolding decode_columns
  decode-absent i c schema bitmap buf off row n h = rw (n, h)

  decode-present :
      (i : ℕ) (c : Column) (schema : List Column) (bitmap buf : Bytes) (off next : ℕ)
      (codec : Codec) (v : Value) (row : List (Option Value))
      → is_null i bitmap ≡ false
      → column_codec c ≡ ok codec
      → decode_bytes decode_utf8 foreign_decode codec buf off ≡ ok (v, next)
      → decode (suc i) schema bitmap buf next ≡ ok row
      → decode i (c ∷ schema) bitmap buf off ≡ ok (some v ∷ row)
  unfolding decode_columns
  decode-present i c schema bitmap buf off next codec v row n f d h = rw (n, f, d, h)

  decode-encode :
      (i : ℕ) (values : List (Option Value)) (schema : List Column) (bitmap pre rest : Bytes)
      (out : Bytes × Bytes)
      → length values ≡ length schema
      → IsModelledRow values schema
      → IsBitmap bitmap
      → i + length values ≤ 8 * length bitmap
      → ((k : ℕ) → i ≤ k → is_null k bitmap ≡ false)
      → encode i values schema bitmap ≡ ok out
      → decode i schema out.0 (pre ++ (out.1 ++ rest)) (length pre)
        ≡ ok (stored_row encode_utf8 values schema)
  decode-encode i [] [] bitmap pre rest out n m b room clear h = unfold decode_columns in refl
  decode-encode i [] (c ∷ schema) bitmap pre rest out n m b room clear h = absurd (omega arith)
  decode-encode i (v ∷ values) [] bitmap pre rest out n m b room clear h = absurd (omega arith)
  decode-encode i (none ∷ values) (c ∷ schema) bitmap pre rest out n m b room clear h =
      let r : i / 8 < length bitmap = omega arith in
      let h' : encode (suc i) values schema (set_null i bitmap) ≡ ok out =
        unfold encode_columns in h in
      let b' = set_null-IsBitmap i bitmap b r in
      let room' : suc i + length values ≤ 8 * length (set_null i bitmap) =
        omega (arith, length-set_null i bitmap) in
      let k =
        encode_columns-Kept encode_utf8 foreign_encode (suc i) values schema (set_null i bitmap) out
          b' room' h' in
      decode-absent i c schema out.0 (pre ++ (out.1 ++ rest)) (length pre)
        (stored_row encode_utf8 values schema)
        (k.below i (omega arith) ∙ is_null-set_null_self i bitmap b r)
        (decode-encode (suc i) values schema (set_null i bitmap) pre rest out (omega arith) m b'
          room' (λ j le. still_clear i j bitmap b r le (clear j (omega arith))) h')
  decode-encode i (some v ∷ values) (c ∷ schema) bitmap pre rest out n (m, o, ms) b room clear h =
      let e = encode_columns-Encoded encode_utf8 foreign_encode i v values c schema bitmap out h in
      let k =
        encode_columns-Kept encode_utf8 foreign_encode (suc i) values schema bitmap e.rest b
          (omega arith) e.continued in
      let behind = e.rest.1 ++ rest in
      let back =
        decode_bytes-encode_py encode_utf8 decode_utf8 u foreign_encode foreign_decode e.codec v
          e.part pre behind (subst IsModelledColumn e.found m) o e.encoded in
      let regroup : pre ++ (e.part ++ behind) ≡ (pre ++ e.part) ++ behind = simp append_assoc in
      let row = stored_row encode_utf8 values schema in
      let next =
        decode-encode (suc i) values schema bitmap (pre ++ e.part) rest e.rest (omega arith) ms b
          (omega arith) (λ j le. clear j (omega arith)) e.continued in
      let size : length (pre ++ e.part) ≡ length pre + length e.part = length-append pre e.part in
      let next' : decode (suc i) schema e.rest.0 (pre ++ (e.part ++ behind))
            (length pre + length e.part)
          ≡ ok row =
        ap (λ (x : Bytes). decode (suc i) schema e.rest.0 x (length pre + length e.part)) regroup
        ∙ ap (decode (suc i) schema e.rest.0 ((pre ++ e.part) ++ behind)) (sym size)
        ∙ next in
      let shown : ◌≡◌ {A = Result (List (Option Value))}
          (ok (some (stored encode_utf8 e.codec v) ∷ row))
          (ok (some (stored_in encode_utf8 (column_codec c) v) ∷ row)) =
        ap (λ (x : Result Codec). ok (some (stored_in encode_utf8 x v) ∷ row)) (sym e.found) in
      let assoc : e.part ++ behind ≡ (e.part ++ e.rest.1) ++ rest = simp append_assoc in
      subst
        (λ (o : Bytes × Bytes).
          decode i (c ∷ schema) o.0 (pre ++ (o.1 ++ rest)) (length pre)
          ≡ ok (stored_row encode_utf8 (some v ∷ values) (c ∷ schema)))
        e.result
        (ap (λ (x : Bytes). decode i (c ∷ schema) e.rest.0 (pre ++ x) (length pre)) (sym assoc)
          ∙ decode-present i c schema e.rest.0 (pre ++ (e.part ++ behind)) (length pre)
              (length pre + length e.part) e.codec (stored encode_utf8 e.codec v) row
              (k.below i (omega arith) ∙ clear i (omega arith)) e.found back next'
          ∙ shown)

  clear_bitmap : (n k : ℕ) → is_null k (replicate n 0) ≡ false
  unfolding is_null
  clear_bitmap n k = let e = get_or-replicate {A = ℕ} n 0 (k / 8) in rw e (ground arith)

  decode_row-eq :
      (bitmap behind : Bytes) (schema : List Column)
      → length bitmap ≡ bitmap_len (length schema)
      → decode_row decode_utf8 foreign_decode (bitmap ++ behind) schema
        ≡ decode 0 schema bitmap (bitmap ++ behind) (length bitmap)
  unfolding decode_row
  decode_row-eq bitmap behind schema size =
      let t : ltb (length (bitmap ++ behind)) (bitmap_len (length schema)) ≡ false =
        ground (arith, size, length-append bitmap behind) in
      rw (t, take-append_self (bitmap_len (length schema)) bitmap behind size)
        (ap (decode 0 schema bitmap (bitmap ++ behind)) (sym size))

  encode_row-ok :
      (values : List (Option Value)) (schema : List Column) (buf : Bytes)
      → encode_row encode_utf8 foreign_encode values schema ≡ ok buf
      → (length values ≡ length schema)
        × (out : Bytes × Bytes) × (encode 0 values schema (replicate (bitmap_len (length schema)) 0)
            ≡ ok out)
        × (out.0 ++ out.1 ≡ buf)
  unfolding encode_row
  encode_row-ok values schema buf h = elim (Bool-cases (length values == length schema)) [
    | inr differ ↦ absurd (ground arith)
    | inl same ↦
        let (out, e, w) =
          first-ok (encode 0 values schema (replicate (bitmap_len (length schema)) 0)) _
            (rw same at h) in
        (ground arith, out, e, ground arith)
  ]

  -- A row that `encode_row` accepts, of codecs that the model computes with, is read back by
  -- `decode_row` column by column: NULL as NULL, and each value as its codec stores it.
  pub decode_row-encode_row :
      (values : List (Option Value)) (schema : List Column) (buf : Bytes)
      → IsModelledRow values schema
      → encode_row encode_utf8 foreign_encode values schema ≡ ok buf
      → decode_row decode_utf8 foreign_decode buf schema ≡ ok (stored_row encode_utf8 values schema)
  decode_row-encode_row values schema buf m h =
      let (n, out, e, w) = encode_row-ok values schema buf h in
      let blen = bitmap_len (length schema) in
      let empty : Bytes = replicate blen 0 in
      let size : length empty ≡ blen = length-replicate {A = ℕ} blen 0 in
      let room : 0 + length values ≤ 8 * length empty = unfold bitmap_len in omega (arith, size) in
      let k =
        encode_columns-Kept encode_utf8 foreign_encode 0 values schema empty out
          (IsBitmap-replicate blen) room e in
      subst
        (λ (b : Bytes).
          decode_row decode_utf8 foreign_decode b schema
          ≡ ok (stored_row encode_utf8 values schema))
        w
        (decode_row-eq out.0 out.1 schema (k.same_length ∙ size)
          ∙ ap (λ (b : Bytes). decode 0 schema out.0 (out.0 ++ b) (length out.0))
              (sym (append-nil out.1))
          ∙ decode-encode 0 values schema empty out.0 [] out n m (IsBitmap-replicate blen) room
              (λ j le. clear_bitmap blen j) e)
