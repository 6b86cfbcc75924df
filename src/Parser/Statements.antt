-- ===== src/Parser/Statements.antt =====
-- src/tinydb/parser.py: the statements without SELECT and CREATE TABLE, and the loops over commas.
use Prim.Native.String.{String}
use tinydb_cc_comet.Prelude.{
  ℕ, zero, suc, Bool, true, false, not, ◌&&◌, ◌||◌, Option, none, some, List, [], ◌∷◌, ◌++◌, ◌==◌,
  if◌then◌else◌, length,
}
use tinydb_cc_comet.Prelude.Int.{ℤ, pos, negsuc}
use tinydb_cc_comet.Errors.{Result, ok, err, ◌>>=◌, out_of_fuel}
use tinydb_cc_comet.TypeSystem.{Text, Value, int}
use tinydb_cc_comet.Tokenizer.{Token, keyword, int_literal, punct, codes}
use tinydb_cc_comet.Parser.{
  Tokens, Expr, equals, peek, advance, refuse, is_token, is_kind, is_keyword, is_datetime, expect,
  expect_keyword, expect_ident, peek_is, text_of, parse_column_ref, parse_datetime_literal,
  parse_decimal_literal, parse_literal_value, bare_literal, parse_expr,
}

pub record OrderByItem : Type 0 where
  pub column : Text
  pub descending : Bool
  pub qualifier : Option Text

pub record DropTable : Type 0 where
  pub name : Text
  pub line : ℕ
  pub col : ℕ

pub record Insert : Type 0 where
  pub table : Text
  pub columns : List Text
  pub values : List (List (Option Value))
  pub line : ℕ
  pub col : ℕ

pub record Delete : Type 0 where
  pub table : Text
  pub where_expr : Option Expr
  pub line : ℕ
  pub col : ℕ

pub record Update : Type 0 where
  pub table : Text
  pub sets : List (Text × Expr)
  pub where_expr : Option Expr
  pub line : ℕ
  pub col : ℕ

module _ {ℓ} {A : Type ℓ} where
  -- The loops of the source over commas: an item may look at those before it, and costs a unit of fuel.
  unfoldable pub comma_from :
      ℕ → (List A → Tokens → Result (A × Tokens)) → List A → Tokens → Result (List A × Tokens)
  comma_from zero item seen ts = err out_of_fuel
  comma_from (suc f) item seen ts = item seen ts >>= λ x. peek_is punct "," x.1 >>= λ more.
      elim more [
        | false ↦ ok (seen ++ (x.0 ∷ []), x.1)
        | true ↦ advance x.1 >>= λ comma. comma_from f item (seen ++ (x.0 ∷ [])) comma.1
      ]

  unfoldable pub comma_list : (Tokens → Result (A × Tokens)) → Tokens → Result (List A × Tokens)
  unfolding comma_from
  comma_list item ts = comma_from (suc (length ts)) (λ seen. item) [] ts

-- The text of an IDENT at the cursor
unfoldable pub parse_name : Tokens → Result (Text × Tokens)
parse_name ts = expect_ident ts >>= λ t. ok (text_of t.0.value, t.1)

-- `item.column` with ASC or DESC behind it
unfoldable pub parse_order_item : Tokens → Result (OrderByItem × Tokens)
parse_order_item ts = do
  c ← parse_column_ref ts
  asc ← peek_is keyword "ASC" c.1
  (elim asc [
    | true ↦ (do
      kw ← advance c.1
      ok (record { column = c.0.name; descending = false; qualifier = c.0.qualifier }, kw.1))
    | false ↦ (do
      desc ← peek_is keyword "DESC" c.1
      (elim desc [
        | true ↦ (do
          kw ← advance c.1
          ok (record { column = c.0.name; descending = true; qualifier = c.0.qualifier }, kw.1))
        | false ↦
            ok (record { column = c.0.name; descending = false; qualifier = c.0.qualifier }, c.1)
      ]))
  ])

unfoldable pub parse_order_by : Tokens → Result (List OrderByItem × Tokens)
parse_order_by ts = do
  order ← peek_is keyword "ORDER" ts
  (elim order [
    | false ↦ ok ([], ts)
    | true ↦ (do
      kw ← advance ts
      t ← peek kw.1
      by ← (if is_keyword "BY" t then advance kw.1 else refuse t)
      comma_list parse_order_item by.1)
  ])

-- `t.value < 0` of an INT token
abbrev pub is_negative : Option Value → Bool
is_negative (some (int (negsuc n))) = true
is_negative _ = false

abbrev pub int_of : Option Value → ℤ
int_of (some (int i)) = i
int_of _ = pos 0

unfoldable pub parse_int_kw_clause : String → Bool → Tokens → Result (Option ℤ × Tokens)
parse_int_kw_clause kw non_negative ts = do
  here ← peek_is keyword kw ts
  (elim here [
    | false ↦ ok (none, ts)
    | true ↦ (do
      k ← advance ts
      t ← advance k.1
      (if not (is_kind int_literal t.0) || (non_negative && is_negative t.0.value)
          then refuse t.0
          else ok (some (int_of t.0.value), t.1)))
  ])

unfoldable pub parse_limit : Tokens → Result (Option ℤ × Tokens)
parse_limit ts = parse_int_kw_clause "LIMIT" true ts

unfoldable pub parse_offset : Tokens → Result (Option ℤ × Tokens)
parse_offset ts = parse_int_kw_clause "OFFSET" false ts

abbrev pub is_aggregate : Token → Bool
is_aggregate t =
    is_keyword "COUNT" t
    || is_keyword "SUM" t
    || is_keyword "AVG" t
    || is_keyword "MIN" t
    || is_keyword "MAX" t

unfoldable pub parse_drop_table : Tokens → Result (DropTable × Tokens)
parse_drop_table ts = do
  kw ← expect_keyword "DROP" ts
  table ← expect_keyword "TABLE" kw.1
  name ← parse_name table.1
  ok (record { name = name.0; line = kw.0.line; col = kw.0.col }, name.1)

module _ (iso_of : Text → Text → Option Value) (float_of : Text → Option Value) where
  unfoldable pub parse_where : Tokens → Result (Option Expr × Tokens)
  parse_where ts = do
    here ← peek_is keyword "WHERE" ts
    (elim here [
      | false ↦ ok (none, ts)
      | true ↦ (do
        kw ← advance ts
        t ← peek kw.1
        e ← (if is_aggregate t then refuse t else parse_expr iso_of float_of kw.1)
        ok (some e.0, e.1))
    ])

  unfoldable pub parse_delete : Tokens → Result (Delete × Tokens)
  parse_delete ts = do
    kw ← expect_keyword "DELETE" ts
    fr ← expect_keyword "FROM" kw.1
    table ← parse_name fr.1
    filter ← parse_where table.1
    ok (
      record { table = table.0; where_expr = filter.0; line = kw.0.line; col = kw.0.col },
      filter.1,
    )

  -- `col = literal` of SET
  unfoldable pub parse_assignment : Tokens → Result ((Text × Expr) × Tokens)
  parse_assignment ts = do
    col ← parse_name ts
    eq ← expect punct "=" col.1
    val ← parse_literal_value iso_of float_of eq.1
    ok ((col.0, equals col.0 val.0 none), val.1)

  -- The test for an empty list of SET is never reached: the loop above it reads at least one.
  unfoldable pub parse_update : Tokens → Result (Update × Tokens)
  parse_update ts = do
    kw ← expect_keyword "UPDATE" ts
    table ← parse_name kw.1
    set ← expect_keyword "SET" table.1
    sets ← comma_list parse_assignment set.1
    filter ← parse_where sets.1
    ok (
      record {
        table = table.0;
        sets = sets.0;
        where_expr = filter.0;
        line = kw.0.line;
        col = kw.0.col;
      },
      filter.1,
    )

  -- A value of VALUES, where NULL is allowed
  unfoldable pub parse_insert_value : Tokens → Result (Option Value × Tokens)
  parse_insert_value ts = do
    v ← peek ts
    (if is_keyword "NULL" v
        then (advance ts >>= λ kw. ok (none, kw.1))
        else if is_datetime v
        then (parse_datetime_literal iso_of float_of ts >>= λ lit. ok (some lit.0, lit.1))
        else if is_keyword "DECIMAL" v
        then (parse_decimal_literal iso_of float_of ts >>= λ lit. ok (some lit.0, lit.1))
        else (bare_literal ts >>= λ lit. ok (some lit.0, lit.1)))

  -- A row of VALUES; a wrong number of values is reported at INSERT.
  unfoldable pub parse_insert_row : Token → ℕ → Tokens → Result (List (Option Value) × Tokens)
  parse_insert_row kw width ts = do
    opened ← expect punct "(" ts
    t ← peek opened.1
    row ←
        (if is_token punct (codes ")") t then refuse t else comma_list parse_insert_value opened.1)
    counted ← (if length row.0 == width then ok row else refuse kw)
    close ← expect punct ")" counted.1
    ok (counted.0, close.1)

  unfoldable pub parse_insert : Tokens → Result (Insert × Tokens)
  parse_insert ts = do
    kw ← expect_keyword "INSERT" ts
    into ← expect_keyword "INTO" kw.1
    table ← parse_name into.1
    opened ← expect punct "(" table.1
    cols ← comma_list parse_name opened.1
    close ← expect punct ")" cols.1
    vals ← expect_keyword "VALUES" close.1
    rows ← comma_list (parse_insert_row kw.0 (length cols.0)) vals.1
    ok (
      record {
        table = table.0;
        columns = cols.0;
        values = rows.0;
        line = kw.0.line;
        col = kw.0.col;
      },
      rows.1,
    )
