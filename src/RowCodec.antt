-- ===== src/RowCodec.antt =====
-- src/tinydb/row_codec.py, with `col_type_and_params` of _schema.py: a row is a null bitmap, lowest
-- bit first, and the encoded values of the columns that are not NULL.
pub mod Bitmap
pub mod RoundTrip
pub mod Tests
use Prim.Native.String.{String}
use tinydb_cc_comet.Prelude.{
  ℕ, zero, suc, ◌+◌, ◌*◌, ◌/◌, ◌%◌, ◌^◌, bit_and, bit_or, Bool, not, Option, none, some, List, [],
  ◌∷◌, ◌++◌, ltb, ◌==◌, if◌then◌else◌, length, get_or, set, replicate, take,
}
use tinydb_cc_comet.Errors.{Result, ok, err, ◌>>=◌, value_error}
use tinydb_cc_comet.Bytes.{Bytes}
use tinydb_cc_comet.TypeSystem.{Text, Value, Foreign, Codec, codec_for, encode_py, decode_bytes}

-- A schema entry: `params` is missing in the form `(name, type)`.
pub record Column : Type 0 where
  pub name : String
  pub col_type : String
  pub params : Option (List ℕ)

abbrev pub params_of : Option (List ℕ) → List ℕ
params_of none = []
params_of (some params) = params

-- `col_type_and_params`
unfoldable pub col_type_and_params : Column → String × List ℕ
col_type_and_params c = (c.col_type, params_of c.params)

-- The codec of a column, as both directions look it up
unfoldable pub column_codec : Column → Result Codec
column_codec c = let (name, params) = col_type_and_params c in codec_for name params

unfoldable pub bitmap_len : ℕ → ℕ
bitmap_len n = (n + 7) / 8

-- bitmap[i // 8] |= 1 << (i % 8)
unfoldable pub set_null : ℕ → Bytes → Bytes
set_null i bitmap = set bitmap (i / 8) (bit_or (get_or bitmap (i / 8) 0) (2 ^ (i % 8)))

-- (bitmap[i // 8] >> (i % 8)) & 1
unfoldable pub is_null : ℕ → Bytes → Bool
is_null i bitmap = not (bit_and (get_or bitmap (i / 8) 0 / 2 ^ (i % 8)) 1 == 0)

module _ (encode_utf8 : Text → Option Bytes) (foreign_encode : Foreign → Value → Result Bytes) where
  -- The loop of `encode_row` from column `i` on: the bitmap, and the values behind it.
  unfoldable pub encode_columns :
      ℕ → List (Option Value) → List Column → Bytes → Result (Bytes × Bytes)
  encode_columns i (none ∷ values) (c ∷ schema) bitmap =
      encode_columns (suc i) values schema (set_null i bitmap)
  encode_columns i (some v ∷ values) (c ∷ schema) bitmap = do
    codec ← column_codec c
    part ← encode_py encode_utf8 foreign_encode codec v
    r ← encode_columns (suc i) values schema bitmap
    ok (r.0, part ++ r.1)
  encode_columns i values schema bitmap = ok (bitmap, [])

  unfoldable pub encode_row : List (Option Value) → List Column → Result Bytes
  encode_row values schema = if not (length values == length schema) then err value_error else do
    r ← encode_columns 0 values schema (replicate (bitmap_len (length schema)) 0)
    ok (r.0 ++ r.1)

module _ (decode_utf8 : Bytes → Option Text)
    (foreign_decode : Foreign → Bytes → ℕ → Result (Value × ℕ)) where
  -- The loop of `decode_row` from column `i` on
  unfoldable pub decode_columns : ℕ → List Column → Bytes → Bytes → ℕ → Result (List (Option Value))
  decode_columns i [] bitmap buf off = ok []
  decode_columns i (c ∷ schema) bitmap buf off =
      let absent = decode_columns (suc i) schema bitmap buf off >>= λ out. ok (none ∷ out) in
      let present = (do
        codec ← column_codec c
        r ← decode_bytes decode_utf8 foreign_decode codec buf off
        out ← decode_columns (suc i) schema bitmap buf r.1
        ok (some r.0 ∷ out)) in
      if is_null i bitmap then absent else present

  unfoldable pub decode_row : Bytes → List Column → Result (List (Option Value))
  decode_row buf schema =
      let blen = bitmap_len (length schema) in
      if ltb (length buf) blen
      then err value_error
      else decode_columns 0 schema (take blen buf) buf blen
