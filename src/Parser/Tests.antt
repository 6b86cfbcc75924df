-- ===== src/Parser/Tests.antt =====
-- The parser's theorems at `a = 1 OR NOT (b = 2 AND c = 3)` and at two statements.
use tinydb_cc_comet.Prelude.{ℕ, ◌≡◌, ◌≢◌, refl, Option, none, [], ◌∷◌, ◌++◌}
use tinydb_cc_comet.Prelude.Int.{pos}
use tinydb_cc_comet.Errors.{ok, err, out_of_fuel}
use tinydb_cc_comet.TypeSystem.{Text, Value, int}
use tinydb_cc_comet.Tokenizer.{Token, keyword, ident, punct, eof, codes}
use tinydb_cc_comet.Parser.{
  Tokens, Expr, equals, and_expr, or_expr, not_expr, parse_expr, peek_is, peek, is_token,
}
use tinydb_cc_comet.Parser.Printer.{symbol, emit, literal}
use tinydb_cc_comet.Parser.RoundTrip.{parse_expr-emit}
use tinydb_cc_comet.Parser.Program.{parse}
use tinydb_cc_comet.Parser.TotalProgram.{parse_total}

-- No text is a date, and none is a number.
abbrev no_date : Text → Text → Option Value
no_date kw s = none

abbrev no_number : Text → Option Value
no_number s = none

abbrev same_case : Text → Text
same_case s = s

abbrev end_token : Token
end_token = record { kind = eof; value = none; line = 0; col = 0 }

abbrev column_is : Text → ℕ → Expr
column_is c n = equals c (int (pos n)) none

abbrev filter : Expr
filter =
    or_expr (column_is (codes "a") 1)
      (not_expr (and_expr (column_is (codes "b") 2) (column_is (codes "c") 3)))

parse_expr-emit_example :
    parse_expr no_date no_number (emit 0 filter ++ (end_token ∷ [])) ≡ ok (filter, end_token ∷ [])
unfolding peek_is peek is_token
parse_expr-emit_example = parse_expr-emit no_date no_number filter (end_token ∷ []) (refl, refl)

-- DROP TABLE t; DELETE FROM t WHERE a = 1
abbrev program : Tokens
program =
    symbol keyword "DROP"
    ∷ symbol keyword "TABLE"
    ∷ symbol ident "t"
    ∷ symbol punct ";"
    ∷ symbol keyword "DELETE"
    ∷ symbol keyword "FROM"
    ∷ symbol ident "t"
    ∷ symbol keyword "WHERE"
    ∷ symbol ident "a"
    ∷ symbol punct "="
    ∷ literal (int (pos 1))
    ∷ end_token
    ∷ []

parse_total_example : parse no_date no_number same_case same_case program ≢ err out_of_fuel
parse_total_example = parse_total no_date no_number same_case same_case program
