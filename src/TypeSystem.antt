-- ===== src/TypeSystem.antt =====
-- src/tinydb/type_system.py: the codecs of the column types. A Python str is the list of its code
-- points; UTF-8, and the codecs over floats and datetimes (FLOAT, DOUBLE, DECIMAL, TIMESTAMP), are
-- parameters. A date is its day number, counted from 1970-01-01.
pub mod Signed
pub mod Fields
pub mod RoundTrip
pub mod Tests
use Prim.Native.String.{String}
use text.Mathlib.Text.{◌==◌ as str_eq}
use tinydb_cc_comet.Prelude.{
  ℕ, zero, suc, ◌+◌, ◌-◌, ◌*◌, ◌/◌, ◌%◌, ◌^◌, Bool, true, false, not, ◌&&◌, ◌||◌, Option, none,
  some, List, [], ◌∷◌, ◌++◌, ltb, leb, ◌==◌, if◌then◌else◌, length, get_or, replicate, slice,
}
use tinydb_cc_comet.Prelude.Int.{ℤ, pos, negsuc}
use tinydb_cc_comet.Errors.{
  Result, ok, err, ◌>>=◌, or_error, value_error, codec_error, key_error, struct_error,
  overflow_error, type_error,
}
use tinydb_cc_comet.Bytes.{Bytes, to_be, pack, int_from_bytes}

-- The code points of a str
abbrev pub Text : Type 0
Text = List ℕ

-- `time` has hour, minute, second, microsecond and the UTC offset in seconds of an aware time; `other`
-- is a float.
pub data Value : Type 0 where
  int : ℤ → Value
  bool : Bool → Value
  str : Text → Value
  date : ℤ → Value
  time : ℕ → ℕ → ℕ → ℕ → Option ℤ → Value
  datetime : ℕ → Value
  other : ℕ → Value

pub data Width : Type 0 where
  smallint four bigint : Width

abbrev pub width : Width → ℕ
width smallint = 2
width four = 4
width bigint = 8

-- The exclusive upper bound of `_spec`; the lower bound is its negative.
abbrev pub half : Width → ℕ
half smallint = 2 ^ 15
half four = 2 ^ 31
half bigint = 2 ^ 63

pub data Foreign : Type 0 where
  float double timestamp : Foreign
  decimal : ℕ → ℕ → Foreign

pub data Codec : Type 0 where
  int_codec : Width → Codec
  text_codec bool_codec date_codec time_codec : Codec
  varchar_codec char_codec : ℕ → Codec
  foreign : Foreign → Codec

-- `_dt.date.min` and `_dt.date.max` as day numbers: -719162 and 2932896
abbrev pub is_date : ℤ → Bool
is_date (pos n) = leb n 2932896
is_date (negsuc n) = ltb n 719162

-- The parameterless entries of REGISTRY and _ALIAS_MAP
unfoldable pub plain_codec : String → Option Codec
plain_codec name =
    if str_eq name "INT" || str_eq name "INTEGER"
    then some (int_codec four)
    else if str_eq name "SMALLINT"
    then some (int_codec smallint)
    else if str_eq name "BIGINT"
    then some (int_codec bigint)
    else if str_eq name "TEXT"
    then some text_codec
    else if str_eq name "BOOL" || str_eq name "BOOLEAN"
    then some bool_codec
    else if str_eq name "FLOAT" || str_eq name "REAL"
    then some (foreign float)
    else if str_eq name "DOUBLE" || str_eq name "DOUBLE PRECISION"
    then some (foreign double)
    else if str_eq name "DATE"
    then some date_codec
    else if str_eq name "TIME"
    then some time_codec
    else if str_eq name "TIMESTAMP"
    then some (foreign timestamp)
    else none

-- `len(params) != 1 or params[0] < 1` for VARCHAR and CHAR
unfoldable pub one_length : (ℕ → Codec) → List ℕ → Result Codec
one_length make (n ∷ []) = if ltb n 1 then err value_error else ok (make n)
one_length make _ = err value_error

-- `_DecimalCodec.__init__`, behind the test of the number of parameters
unfoldable pub decimal_codec : List ℕ → Result Codec
decimal_codec (p ∷ s ∷ []) =
    if not (leb 1 p && leb p 18)
    then err value_error
    else if not (ltb s p)
    then err value_error
    else ok (foreign (decimal p s))
decimal_codec _ = err value_error

unfoldable pub codec_for : String → List ℕ → Result Codec
unfolding plain_codec one_length decimal_codec
codec_for name params =
    if str_eq name "VARCHAR"
    then one_length varchar_codec params
    else if str_eq name "CHAR"
    then one_length char_codec params
    else if str_eq name "DECIMAL"
    then decimal_codec params
    else or_error key_error (plain_codec name)

-- `_check_bounds`: lo <= value < hi
unfoldable pub check_bounds : Width → ℤ → Result ℤ
check_bounds w (pos n) = if ltb n (half w) then ok (pos n) else err codec_error
check_bounds w (negsuc n) = if ltb n (half w) then ok (negsuc n) else err codec_error

-- struct.pack(">h" | ">i" | ">q", …) within the bounds: two's complement
unfoldable pub pack_signed : Width → ℤ → Bytes
pack_signed w (pos n) = to_be (width w) n
pack_signed w (negsuc n) = to_be (width w) (256 ^ width w - n - 1)

unfoldable pub unpack_signed : Width → Bytes → ℤ
unpack_signed w bytes =
    let u = int_from_bytes bytes in if ltb u (half w) then pos u else negsuc (256 ^ width w - u - 1)

-- struct.pack(">H", len(data)) + data
unfoldable pub with_length : Bytes → Result Bytes
with_length bytes = do prefix ← pack 2 (length bytes); ok (prefix ++ bytes)

unfoldable pub encode_time : ℕ → ℕ → ℕ → Result Bytes
encode_time h m s =
    if leb (h * 3600 + m * 60 + s) 86399 then pack 4 (h * 3600 + m * 60 + s) else err codec_error

unfoldable pub decode_int : Width → Bytes → ℕ → Result (Value × ℕ)
decode_int w buf offset = if ltb (length buf) (offset + width w) then err value_error else do
  v ← check_bounds w (unpack_signed w (slice offset (offset + width w) buf))
  ok (int v, offset + width w)

unfoldable pub decode_bool : Bytes → ℕ → Result (Value × ℕ)
decode_bool buf offset =
    if ltb (length buf) (offset + 1)
    then err value_error
    else ok (bool (not (get_or buf offset 0 == 0)), offset + 1)

-- `struct.unpack_from` and `_EPOCH_DATE + timedelta(days)` raise what the code does not test.
unfoldable pub decode_date : Bytes → ℕ → Result (Value × ℕ)
decode_date buf offset =
    let days = unpack_signed four (slice offset (offset + 4) buf) in
    if ltb (length buf) (offset + 4)
    then err struct_error
    else if is_date days
    then ok (date days, offset + 4)
    else err overflow_error

-- `divmod` twice; `_dt.time` refuses an hour above 23.
unfoldable pub decode_time : Bytes → ℕ → Result (Value × ℕ)
decode_time buf offset =
    let s = int_from_bytes (slice offset (offset + 4) buf) in
    if ltb (length buf) (offset + 4)
    then err struct_error
    else if ltb (s / 3600) 24
    then ok (time (s / 3600) (s % 3600 / 60) (s % 3600 % 60) 0 none, offset + 4)
    else err value_error

-- (value + " " * (self.max_len - len(d)))
unfoldable pub padded : ℕ → Bytes → Text → Text
padded max_len d s = s ++ replicate (max_len - length d) b' '

module _ (encode_utf8 : Text → Option Bytes) where
  -- `value.encode("utf-8")`: a UnicodeEncodeError, on a surrogate, is a ValueError.
  unfoldable pub encoded : Text → Result Bytes
  encoded s = or_error value_error (encode_utf8 s)

  -- `validate` of VARCHAR and CHAR, with the bytes that both then encode again
  unfoldable pub check_length : ℕ → Text → Result Bytes
  check_length max_len s = do
    d ← encoded s
    (if ltb max_len (length d) then err codec_error else ok d)

  -- The CHAR prefix is the declared length.
  unfoldable pub encode_char : ℕ → Text → Result Bytes
  encode_char max_len s = do
    d ← check_length max_len s
    prefix ← pack 2 max_len
    bytes ← encoded (padded max_len d s)
    ok (prefix ++ bytes)

-- `_VarcharCodec._check` on the length that is read; TEXT has no limit.
unfoldable pub over_limit : Option ℕ → ℕ → Bool
over_limit none n = false
over_limit (some max_len) n = ltb max_len n

module _ (decode_utf8 : Bytes → Option Text) where
  -- The text behind a length prefix; `limit` is the maximal length of VARCHAR and CHAR.
  unfoldable pub decode_payload : Option ℕ → ℕ → Bytes → ℕ → Result (Value × ℕ)
  decode_payload limit n buf offset =
      if ltb (length buf) (offset + 2 + n)
      then err value_error
      else if over_limit limit n
      then err codec_error
      else (do
        s ← or_error value_error (decode_utf8 (slice (offset + 2) (offset + 2 + n) buf))
        ok (str s, offset + 2 + n))

  unfoldable pub decode_text : Option ℕ → Bytes → ℕ → Result (Value × ℕ)
  decode_text limit buf offset =
      if ltb (length buf) (offset + 2)
      then err value_error
      else decode_payload limit (int_from_bytes (slice offset (offset + 2) buf)) buf offset

module _ (encode_utf8 : Text → Option Bytes) (foreign_encode : Foreign → Value → Result Bytes) where
  -- `encode_py`, which validates first: a value of another type is refused. A datetime is a date to
  -- Python, but the date of the epoch cannot be subtracted from it.
  unfoldable pub encode_py : Codec → Value → Result Bytes
  encode_py (int_codec w) (int z) = do v ← check_bounds w z; ok (pack_signed w v)
  encode_py text_codec (str s) = do d ← encoded encode_utf8 s; with_length d
  encode_py bool_codec (bool true) = ok (1 ∷ [])
  encode_py bool_codec (bool false) = ok (0 ∷ [])
  encode_py date_codec (date z) = ok (pack_signed four z)
  encode_py date_codec (datetime n) = err type_error
  encode_py time_codec (time h m s us tz) = encode_time h m s
  encode_py (varchar_codec n) (str s) = do d ← check_length encode_utf8 n s; with_length d
  encode_py (char_codec n) (str s) = encode_char encode_utf8 n s
  encode_py (foreign f) v = foreign_encode f v
  encode_py _ _ = err codec_error

module _ (decode_utf8 : Bytes → Option Text)
    (foreign_decode : Foreign → Bytes → ℕ → Result (Value × ℕ)) where
  unfoldable pub decode_bytes : Codec → Bytes → ℕ → Result (Value × ℕ)
  decode_bytes (int_codec w) buf offset = decode_int w buf offset
  decode_bytes text_codec buf offset = decode_text decode_utf8 none buf offset
  decode_bytes bool_codec buf offset = decode_bool buf offset
  decode_bytes date_codec buf offset = decode_date buf offset
  decode_bytes time_codec buf offset = decode_time buf offset
  decode_bytes (varchar_codec n) buf offset = decode_text decode_utf8 (some n) buf offset
  decode_bytes (char_codec n) buf offset = decode_text decode_utf8 (some n) buf offset
  decode_bytes (foreign f) buf offset = foreign_decode f buf offset
