-- ===== src/RowCodec/Tests.antt =====
-- The row round trip at a row with an integer, a NULL and a CHAR.
use tinydb_cc_comet.Prelude.{◌≡◌, refl, Option, none, some, List, [], ◌∷◌, replicate, set, get_or}
use tinydb_cc_comet.Prelude.Int.{pos}
use tinydb_cc_comet.Errors.{ok}
use tinydb_cc_comet.Bytes.{Bytes, pack, to_be}
use tinydb_cc_comet.TypeSystem.{
  Value, int, str, codec_for, encode_py, encode_char, check_length, check_bounds, pack_signed,
  padded, encoded,
}
use tinydb_cc_comet.TypeSystem.Tests.{ascii, of_ascii, no_encode, no_decode, ascii-Utf8}
use tinydb_cc_comet.RowCodec.{
  Column, column_codec, col_type_and_params, bitmap_len, set_null, encode_columns, encode_row,
  decode_row,
}
use tinydb_cc_comet.RowCodec.RoundTrip.{IsModelledRow, stored_row, decode_row-encode_row}

abbrev schema : List Column
schema =
    record { name = "id"; col_type = "SMALLINT"; params = none }
    ∷ record { name = "note"; col_type = "TEXT"; params = none }
    ∷ record { name = "code"; col_type = "CHAR"; params = some (3 ∷ []) }
    ∷ []

abbrev values : List (Option Value)
values = some (int (pos 258)) ∷ none ∷ some (str (b'h' ∷ b'i' ∷ [])) ∷ []

abbrev row_bytes : Bytes
row_bytes = 2 ∷ 1 ∷ 2 ∷ 0 ∷ 3 ∷ b'h' ∷ b'i' ∷ b' ' ∷ []

encode_values : encode_row ascii no_encode values schema ≡ ok row_bytes
unfolding encode_row encode_columns column_codec col_type_and_params codec_for encode_py encode_char
    check_length encoded check_bounds pack_signed padded pack to_be bitmap_len set_null replicate
    set get_or
encode_values = refl

values-IsModelledRow : IsModelledRow values schema
unfolding column_codec col_type_and_params codec_for
values-IsModelledRow = (tt, tt, (tt, tt, tt))

decode_row-encode_row_example :
    decode_row of_ascii no_decode row_bytes schema ≡ ok (stored_row ascii values schema)
decode_row-encode_row_example =
    decode_row-encode_row ascii of_ascii ascii-Utf8 no_encode no_decode values schema row_bytes
      values-IsModelledRow encode_values
