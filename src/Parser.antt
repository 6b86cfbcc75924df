-- ===== src/Parser.antt =====
-- src/tinydb/parser.py: the cursor, the expressions of WHERE, and the statements that are built from
-- them. The cursor is the list of the tokens that are left; a reader returns its value with the rest.
-- Python's ISO date and time parsers and `float` are parameters.
pub mod Statements
pub mod Tables
pub mod Joins
pub mod Select
pub mod Program
pub mod Printer
pub mod RoundTrip
pub mod Fuel
pub mod TotalExpr
pub mod Total
pub mod TotalTables
pub mod TotalSelect
pub mod TotalProgram
pub mod Tests
use Prim.Native.String.{String}
use tinydb_cc_comet.Prelude.{
  ℕ, zero, suc, ◌+◌, ◌*◌, Bool, true, false, not, ◌&&◌, ◌||◌, Option, none, some, List, [], ◌∷◌,
  ◌==◌, if◌then◌else◌, length,
}
use tinydb_cc_comet.Errors.{Error, Result, ok, err, ◌>>=◌, index_error, parse_error, out_of_fuel}
use tinydb_cc_comet.Bytes.{bytes_eq}
use tinydb_cc_comet.TypeSystem.{Text, Value, str}
use tinydb_cc_comet.Tokenizer.{
  Token, TokenType, keyword, ident, int_literal, float_literal, text_literal, bool_literal, punct,
  eof, codes,
}

abbrev pub Tokens : Type 0
Tokens = List Token

-- EqualsExpr, AndExpr, OrExpr and NotExpr
pub data Expr : Type 0 where
  equals : (column : Text) (value : Value) (qualifier : Option Text) → Expr
  and_expr or_expr : Expr → Expr → Expr
  not_expr : Expr → Expr

pub record ColumnRef : Type 0 where
  pub qualifier : Option Text
  pub name : Text
  pub line : ℕ
  pub col : ℕ

abbrev pub kind_number : TokenType → ℕ
kind_number keyword = 0
kind_number ident = 1
kind_number int_literal = 2
kind_number float_literal = 3
kind_number text_literal = 4
kind_number bool_literal = 5
kind_number punct = 6
kind_number eof = 7

abbrev pub is_kind : TokenType → Token → Bool
is_kind kind t = kind_number t.kind == kind_number kind

abbrev pub same_text : Text → Option Value → Bool
same_text s (some (str t)) = bytes_eq s t
same_text s _ = false

-- t.type == kind and t.value == text
unfoldable pub is_token : TokenType → Text → Token → Bool
is_token kind text t = is_kind kind t && same_text text t.value

unfoldable pub peek : Tokens → Result Token
peek [] = err index_error
peek (t ∷ ts) = ok t

unfoldable pub advance : Tokens → Result (Token × Tokens)
advance [] = err index_error
advance (t ∷ ts) = ok (t, ts)

unfoldable pub at_end : Tokens → Result Bool
at_end ts = peek ts >>= λ t. ok (is_kind eof t)

abbrev pub refuse {ℓ} : {A : Type ℓ} → Token → Result A
refuse t = err (parse_error t.line t.col)

unfoldable pub expect : TokenType → String → Tokens → Result (Token × Tokens)
expect kind text ts = do
  t ← peek ts
  (if is_token kind (codes text) t then advance ts else refuse t)

unfoldable pub expect_keyword : String → Tokens → Result (Token × Tokens)
unfolding expect
expect_keyword kw ts = expect keyword kw ts

-- `_peek_kw` and `_peek_punct`
unfoldable pub peek_is : TokenType → String → Tokens → Result Bool
peek_is kind text ts = peek ts >>= λ t. ok (is_token kind (codes text) t)

-- The value of an IDENT
abbrev pub text_of : Option Value → Text
text_of (some (str s)) = s
text_of _ = []

-- An IDENT at the cursor, or a ParseError there
unfoldable pub expect_ident : Tokens → Result (Token × Tokens)
expect_ident ts = do t ← peek ts; (if is_kind ident t then advance ts else refuse t)

unfoldable pub parse_column_ref : Tokens → Result (ColumnRef × Tokens)
parse_column_ref ts = do
  first ← expect_ident ts
  dotted ← peek_is punct "." first.1
  (elim dotted [
    | false ↦ ok (
      record {
        qualifier = none;
        name = text_of first.0.value;
        line = first.0.line;
        col = first.0.col;
      },
      first.1,
    )
    | true ↦ (do
      dot ← advance first.1
      name ← expect_ident dot.1
      ok (
        record {
          qualifier = some (text_of first.0.value);
          name = text_of name.0.value;
          line = first.0.line;
          col = first.0.col;
        },
        name.1,
      ))
  ])

abbrev pub is_literal : Token → Bool
is_literal t =
    is_kind int_literal t
    || is_kind float_literal t
    || is_kind text_literal t
    || is_kind bool_literal t

abbrev pub is_keyword : String → Token → Bool
is_keyword kw t = is_token keyword (codes kw) t

abbrev pub is_datetime : Token → Bool
is_datetime t = is_keyword "DATE" t || is_keyword "TIME" t || is_keyword "TIMESTAMP" t

-- A conversion that raises ValueError is a ParseError at the keyword.
abbrev pub converted : Token → Option Value → Tokens → Result (Value × Tokens)
converted kw none ts = refuse kw
converted kw (some v) ts = ok (v, ts)

-- The value of a literal token; each of the four kinds has one.
abbrev pub value_of : Token → Option Value → Tokens → Result (Value × Tokens)
value_of t none ts = refuse t
value_of t (some v) ts = ok (v, ts)

-- A token of one of the four literal kinds
unfoldable pub bare_literal : Tokens → Result (Value × Tokens)
bare_literal ts = do
  lit ← advance ts
  (if is_literal lit.0 then value_of lit.0 lit.0.value lit.1 else refuse lit.0)

module _ (iso_of : Text → Text → Option Value) (float_of : Text → Option Value) where
  -- `iso_of` takes the keyword and the text.
  unfoldable pub parse_datetime_literal : Tokens → Result (Value × Tokens)
  parse_datetime_literal ts = do
    t ← peek ts
    kw ← (if is_kind keyword t then advance ts else refuse t)
    text ← advance kw.1
    (if is_kind text_literal text.0
        then converted kw.0 (iso_of (text_of kw.0.value) (text_of text.0.value)) text.1
        else refuse text.0)

  unfoldable pub parse_decimal_literal : Tokens → Result (Value × Tokens)
  unfolding expect_keyword
  parse_decimal_literal ts = do
    kw ← expect_keyword "DECIMAL" ts
    text ← advance kw.1
    (if is_kind text_literal text.0
        then converted kw.0 (float_of (text_of text.0.value)) text.1
        else refuse text.0)

  unfoldable pub parse_literal_value : Tokens → Result (Value × Tokens)
  parse_literal_value ts = do
    t ← peek ts
    (if is_datetime t
        then parse_datetime_literal ts
        else if is_keyword "DECIMAL" t
        then parse_decimal_literal ts
        else bare_literal ts)

  unfoldable pub parse_comparison : Tokens → Result (Expr × Tokens)
  parse_comparison ts = do
    c ← parse_column_ref ts
    op ← advance c.1
    v ← (if is_token punct (codes "=") op.0 then parse_literal_value op.1 else refuse op.0)
    ok (equals c.0.name v.0 c.0.qualifier, v.1)

  -- What a call leaves is no structural part of what it takes, so each call costs a unit of fuel.
  unfoldable mutual
    pub parse_or : ℕ → Tokens → Result (Expr × Tokens)
    parse_or zero ts = err out_of_fuel
    parse_or (suc f) ts = parse_and f ts >>= λ l. or_loop f l.0 l.1

    pub or_loop : ℕ → Expr → Tokens → Result (Expr × Tokens)
    or_loop zero left ts = err out_of_fuel
    or_loop (suc f) left ts = peek_is keyword "OR" ts >>= λ more. elim more [
      | false ↦ ok (left, ts)
      | true ↦ advance ts >>= λ op. parse_and f op.1 >>= λ r. or_loop f (or_expr left r.0) r.1
    ]

    pub parse_and : ℕ → Tokens → Result (Expr × Tokens)
    parse_and zero ts = err out_of_fuel
    parse_and (suc f) ts = parse_not f ts >>= λ l. and_loop f l.0 l.1

    pub and_loop : ℕ → Expr → Tokens → Result (Expr × Tokens)
    and_loop zero left ts = err out_of_fuel
    and_loop (suc f) left ts = peek_is keyword "AND" ts >>= λ more. elim more [
      | false ↦ ok (left, ts)
      | true ↦ advance ts >>= λ op. parse_not f op.1 >>= λ r. and_loop f (and_expr left r.0) r.1
    ]

    pub parse_not : ℕ → Tokens → Result (Expr × Tokens)
    parse_not zero ts = err out_of_fuel
    parse_not (suc f) ts = peek_is keyword "NOT" ts >>= λ negated. elim negated [
      | false ↦ parse_primary f ts
      | true ↦ advance ts >>= λ op. parse_not f op.1 >>= λ r. ok (not_expr r.0, r.1)
    ]

    pub parse_primary : ℕ → Tokens → Result (Expr × Tokens)
    parse_primary zero ts = err out_of_fuel
    parse_primary (suc f) ts = peek_is punct "(" ts >>= λ opened. elim opened [
      | false ↦ parse_comparison ts
      | true ↦ advance ts >>= λ op.
          parse_or f op.1 >>= λ r. expect punct ")" r.1 >>= λ close. ok (r.0, close.1)
    ]

  -- `_parse_expr`; a level of the grammar costs at most six units, and each takes a token or descends.
  unfoldable pub parse_expr : Tokens → Result (Expr × Tokens)
  parse_expr ts = parse_or (16 * length ts + 8) ts
