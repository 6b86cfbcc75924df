-- ===== src/Parser/Tables.antt =====
-- src/tinydb/parser.py: CREATE TABLE. `upper` is Python's.
use Prim.Native.String.{String}
use tinydb_cc_comet.Prelude.{
  ℕ, zero, suc, Bool, true, false, ◌||◌, Option, none, some, List, [], ◌∷◌, ◌==◌, if◌then◌else◌,
  length,
}
use tinydb_cc_comet.Prelude.Int.{ℤ, pos, negsuc}
use tinydb_cc_comet.Errors.{Result, ok, err, ◌>>=◌, out_of_fuel}
use tinydb_cc_comet.Bytes.{bytes_eq}
use tinydb_cc_comet.TypeSystem.{Text, codec_for}
use tinydb_cc_comet.Tokenizer.{Token, keyword, ident, int_literal, punct, codes}
use tinydb_cc_comet.Parser.{
  Tokens, peek, advance, refuse, is_token, is_kind, is_keyword, expect, expect_keyword, peek_is,
  text_of,
}
use tinydb_cc_comet.Parser.Statements.{comma_from, parse_name, int_of}

pub record ColumnDefinition : Type 0 where
  pub name : Text
  pub type_name : String
  pub type_params : List ℕ
  pub nullable : Bool
  pub unique : Bool
  pub primary_key : Bool

-- `if_not_exists` is never set by the parser.
pub record CreateTable : Type 0 where
  pub name : Text
  pub columns : List ColumnDefinition
  pub line : ℕ
  pub col : ℕ

abbrev pub supported_types : List String
supported_types =
    "INT" ∷ "TEXT" ∷ "FLOAT" ∷ "BOOL" ∷ "SMALLINT" ∷ "BIGINT" ∷ "DOUBLE" ∷ "REAL" ∷ "VARCHAR"
    ∷ "CHAR" ∷ "DECIMAL" ∷ "DATE" ∷ "TIME" ∷ "TIMESTAMP" ∷ "INTEGER" ∷ "BOOLEAN" ∷ []

-- The name among those given that a text spells
unfoldable pub find_name : List String → Text → Option String
find_name [] t = none
find_name (s ∷ names) t =
    let rest = find_name names t in if bytes_eq (codes s) t then some s else rest

-- _PARAMETRIC_TYPES; `none` for a type without parameters
unfoldable pub arity : String → Option ℕ
unfolding find_name bytes_eq
arity name =
    if bytes_eq (codes "VARCHAR") (codes name) || bytes_eq (codes "CHAR") (codes name)
    then some 1
    else if bytes_eq (codes "DECIMAL") (codes name)
    then some 2
    else none

-- The parameters as natural numbers. `codec_for` refuses any type with a negative one.
unfoldable pub naturals : List ℤ → Option (List ℕ)
naturals [] = some []
naturals (pos n ∷ is) = elim (naturals is) [ none ↦ none | some ns ↦ some (n ∷ ns) ]
naturals (negsuc n ∷ is) = none

-- `codec_for` on the parameters: its ValueError is a ParseError at the type.
unfoldable pub checked_params : String → Token → Option (List ℕ) → Tokens → Result (List ℕ × Tokens)
checked_params name at none ts = refuse at
checked_params name at (some ns) ts = elim (codec_for name ns) [
  | ok codec ↦ ok (ns, ts)
  | err e ↦ refuse at
]

-- An INT at the cursor
unfoldable pub parse_int : Tokens → Result (ℤ × Tokens)
parse_int ts = do
  t ← peek ts
  taken ← (if is_kind int_literal t then advance ts else refuse t)
  ok (int_of taken.0.value, taken.1)

unfoldable pub parse_ints : Tokens → Result (List ℤ × Tokens)
parse_ints ts = do
  first ← parse_int ts
  more ← peek_is punct "," first.1
  (elim more [
    | false ↦ ok (first.0 ∷ [], first.1)
    | true ↦ (do
      comma ← advance first.1
      second ← parse_int comma.1
      ok (first.0 ∷ second.0 ∷ [], second.1))
  ])

unfoldable pub parse_type_params : String → Token → Tokens → Result (List ℕ × Tokens)
parse_type_params name at ts = do
  has_paren ← peek_is punct "(" ts
  (elim has_paren [
    | false ↦ (elim (arity name) [ none ↦ ok ([], ts) | some n ↦ refuse at ])
    | true ↦ (do
      opened ← advance ts
      params ← parse_ints opened.1
      close ← expect punct ")" params.1
      (elim (arity name) [
        | none ↦ refuse at
        | some n ↦
            (if length params.0 == n
              then checked_params name at (naturals params.0) close.1
              else refuse at)
      ]))
  ])

-- nullable, unique and primary_key; each `saw_…` flag of the source says that its clause was read, as these do.
pub record Constraints : Type 0 where
  pub nullable : Bool
  pub unique : Bool
  pub primary_key : Bool

-- NOT or PRIMARY, and the keyword that has to follow
unfoldable pub second_keyword : String → Tokens → Result (Token × Tokens)
second_keyword kw ts = do t ← peek ts; (if is_keyword kw t then advance ts else refuse t)

-- One constraint, of which the keyword is at the cursor
unfoldable pub parse_constraint : Constraints → Tokens → Result (Constraints × Tokens)
parse_constraint c ts = do
  kw ← advance ts
  (if is_keyword "NOT" kw.0
      then (do
        null ← second_keyword "NULL" kw.1
        (if c.nullable then ok (record c { nullable = false }, null.1) else refuse kw.0))
      else if is_keyword "PRIMARY" kw.0
      then (do
        key ← second_keyword "KEY" kw.1
        (if c.primary_key then refuse kw.0 else ok (record c { primary_key = true }, key.1)))
      else if is_keyword "UNIQUE" kw.0
      then (if c.unique then refuse kw.0 else ok (record c { unique = true }, kw.1))
      else refuse kw.0)

abbrev pub starts_constraint : Token → Bool
starts_constraint t =
    is_keyword "NOT" t
    || is_keyword "NULL" t
    || is_keyword "PRIMARY" t
    || is_keyword "KEY" t
    || is_keyword "UNIQUE" t

unfoldable pub constraints_from : ℕ → Constraints → Tokens → Result (Constraints × Tokens)
constraints_from zero c ts = err out_of_fuel
constraints_from (suc f) c ts = peek ts >>= λ t. elim (starts_constraint t) [
  | false ↦ ok (c, ts)
  | true ↦ parse_constraint c ts >>= λ r. constraints_from f r.0 r.1
]

-- Each constraint takes a token.
unfoldable pub parse_column_constraints : Tokens → Result (Constraints × Tokens)
parse_column_constraints ts =
    constraints_from (suc (length ts))
      (record { nullable = true; unique = false; primary_key = false }) ts

unfoldable pub has_column : Text → List ColumnDefinition → Bool
has_column name [] = false
has_column name (c ∷ cs) = bytes_eq name c.name || has_column name cs

-- The supported type that the token names; KEYWORD or IDENT
abbrev pub named_type : (Text → Text) → Token → Option String
named_type upper t =
    if is_kind keyword t || is_kind ident t
    then find_name supported_types (upper (text_of t.value))
    else none

module _ (upper : Text → Text) where
  unfoldable pub parse_type : Tokens → Result ((String × List ℕ) × Tokens)
  parse_type ts = do
    t ← peek ts
    (elim (named_type upper t) [
      | none ↦ refuse t
      | some name ↦ (do
        taken ← advance ts
        params ← parse_type_params name t taken.1
        ok ((name, params.0), params.1))
    ])

  unfoldable pub parse_column_definition : Tokens → Result (ColumnDefinition × Tokens)
  parse_column_definition ts = do
    name ← parse_name ts
    ty ← parse_type name.1
    c ← parse_column_constraints ty.1
    ok (
      record {
        name = name.0;
        type_name = ty.0.0;
        type_params = ty.0.1;
        nullable = c.0.nullable;
        unique = c.0.unique;
        primary_key = c.0.primary_key;
      },
      c.1,
    )

  -- One round of the loop of `_parse_column_list`: a duplicate name is reported at its token.
  unfoldable pub parse_new_column :
      List ColumnDefinition → Tokens → Result (ColumnDefinition × Tokens)
  parse_new_column seen ts = do
    at ← peek ts
    c ← parse_column_definition ts
    (if has_column c.0.name seen then refuse at else ok c)

  unfoldable pub parse_column_list : Tokens → Result (List ColumnDefinition × Tokens)
  unfolding comma_from
  parse_column_list ts = do
    t ← peek ts
    (if is_token punct (codes ")") t
        then refuse t
        else comma_from (suc (length ts)) parse_new_column [] ts)

  unfoldable pub parse_create_table : Tokens → Result (CreateTable × Tokens)
  parse_create_table ts = do
    kw ← expect_keyword "CREATE" ts
    table ← expect_keyword "TABLE" kw.1
    name ← parse_name table.1
    opened ← expect punct "(" name.1
    cols ← parse_column_list opened.1
    close ← expect punct ")" cols.1
    ok (record { name = name.0; columns = cols.0; line = kw.0.line; col = kw.0.col }, close.1)
