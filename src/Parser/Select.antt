-- ===== src/Parser/Select.antt =====
-- src/tinydb/parser.py: the SELECT list, its aggregates, GROUP BY and HAVING. `upper` and `lower`
-- are Python's.
use Prim.Native.String.{String}
use tinydb_cc_comet.Prelude.{
  ℕ, suc, Bool, true, false, ◌&&◌, ◌||◌, Option, none, some, List, [], ◌∷◌, ◌++◌, if◌then◌else◌,
  length,
}
use tinydb_cc_comet.Prelude.Int.{ℤ}
use tinydb_cc_comet.Errors.{Error, Result, ok, err, ◌>>=◌, parse_error}
use tinydb_cc_comet.Bytes.{bytes_eq}
use tinydb_cc_comet.TypeSystem.{Text, Value}
use tinydb_cc_comet.Tokenizer.{Token, keyword, ident, punct, codes, is_one_of}
use tinydb_cc_comet.Parser.{
  Tokens, Expr, ColumnRef, peek, advance, refuse, is_kind, expect, expect_keyword, peek_is, text_of,
  parse_column_ref, bare_literal,
}
use tinydb_cc_comet.Parser.Statements.{OrderByItem, comma_from, comma_list, parse_name}
use tinydb_cc_comet.Parser.Joins.{TableRef, JoinClause, parse_alias, is_comparison}

-- `arg` is `none` for `*`, else the qualifier and the name of the column.
pub record AggregateCall : Type 0 where
  pub func : Text
  pub arg : Option (Option Text × Text)
  pub alias : Option Text
  pub line : ℕ
  pub col : ℕ

-- `kind` tells the three apart.
pub data SelectItem : Type 0 where
  star : SelectItem
  column_item : (name : Text) (alias qualifier : Option Text) → SelectItem
  aggregate_item : (alias : Option Text) (aggregate : AggregateCall) → SelectItem

-- The left side of HAVING
pub data HavingLeft : Type 0 where
  of_aggregate : AggregateCall → HavingLeft
  of_column : Text → HavingLeft

pub record Select : Type 0 where
  pub table : Text
  pub columns : List Text
  pub where_expr : Option Expr
  pub order_by : List OrderByItem
  pub limit : Option ℤ
  pub offset : Option ℤ
  pub select_items : List SelectItem
  pub group_by : List Text
  pub having : Option (HavingLeft × Text × Value)
  pub aggregate_aliases : List Text
  pub from_ : TableRef
  pub joins : List JoinClause
  pub line : ℕ
  pub col : ℕ

unfoldable pub parse_aggregate_arg : Tokens → Result (Option (Option Text × Text) × Tokens)
parse_aggregate_arg ts = do
  all_ ← peek_is punct "*" ts
  (elim all_ [
    | true ↦ (advance ts >>= λ s. ok (none, s.1))
    | false ↦ (parse_column_ref ts >>= λ c. ok (some (c.0.qualifier, c.0.name), c.1))
  ])

unfoldable pub parse_aggregate_call : Tokens → Result (AggregateCall × Tokens)
parse_aggregate_call ts = do
  func ← advance ts
  opened ← expect punct "(" func.1
  arg ← parse_aggregate_arg opened.1
  close ← expect punct ")" arg.1
  ok (
    record {
      func = text_of func.0.value;
      arg = arg.0;
      alias = none;
      line = func.0.line;
      col = func.0.col;
    },
    close.1,
  )

-- A qualified column of GROUP BY is the text with the dot.
abbrev pub dotted : ColumnRef → Text
dotted c = elim c.qualifier [ none ↦ c.name | some q ↦ q ++ (codes "." ++ c.name) ]

unfoldable pub parse_col_list : Tokens → Result (List Text × Tokens)
parse_col_list ts = comma_list (λ at. parse_column_ref at >>= λ c. ok (dotted c.0, c.1)) ts

abbrev pub item_alias : SelectItem → Option Text
item_alias star = none
item_alias (column_item name alias qualifier) = alias
item_alias (aggregate_item alias aggregate) = alias

unfoldable pub alias_seen : Text → List SelectItem → Bool
alias_seen a [] = false
alias_seen a (i ∷ items) = elim (item_alias i) [
  | none ↦ alias_seen a items
  | some b ↦ bytes_eq a b || alias_seen a items
]

-- Where a duplicate alias is reported: at the aggregate, and at (0, 0) for a column
abbrev pub item_error : SelectItem → Error
item_error (aggregate_item alias aggregate) = parse_error aggregate.line aggregate.col
item_error _ = parse_error 0 0

module _ (upper lower : Text → Text) where
  -- `_is_keyword`: the keyword, or an IDENT that is it in upper case
  unfoldable pub is_word : List String → Token → Bool
  is_word names t =
      (is_kind keyword t && is_one_of names (text_of t.value))
      || (is_kind ident t && is_one_of names (upper (text_of t.value)))

  abbrev pub aggregates : List String
  aggregates = "COUNT" ∷ "SUM" ∷ "AVG" ∷ "MIN" ∷ "MAX" ∷ []

  -- `[AS IDENT]`
  unfoldable pub parse_as : Tokens → Result (Option Text × Tokens)
  parse_as ts = do
    t ← peek ts
    (if is_word ("AS" ∷ []) t then (advance ts >>= λ kw. parse_alias kw.1) else ok (none, ts))

  unfoldable pub parse_select_item : Tokens → Result (SelectItem × Tokens)
  parse_select_item ts = do
    t ← peek ts
    (if is_word aggregates t
        then (do
          agg ← parse_aggregate_call ts
          alias ← parse_as agg.1
          ok (aggregate_item alias.0 (record agg.0 { alias = alias.0 }), alias.1))
        else (do
          c ← parse_column_ref ts
          alias ← parse_as c.1
          ok (column_item c.0.name alias.0 c.0.qualifier, alias.1)))

  -- One round of the loop of `_parse_select_items`
  unfoldable pub parse_new_item : List SelectItem → Tokens → Result (SelectItem × Tokens)
  parse_new_item seen ts = parse_select_item ts >>= λ i. elim (item_alias i.0) [
    | none ↦ ok i
    | some a ↦ (if alias_seen a seen then err (item_error i.0) else ok i)
  ]

  unfoldable pub parse_select_items : Tokens → Result (List SelectItem × Tokens)
  unfolding comma_from
  parse_select_items ts = do
    all_ ← peek_is punct "*" ts
    (elim all_ [
      | true ↦ (advance ts >>= λ s. ok (star ∷ [], s.1))
      | false ↦ comma_from (suc (length ts)) parse_new_item [] ts
    ])

  -- An aggregate's `arg` is `*` or a column.
  unfoldable pub default_alias : AggregateCall → Text
  default_alias agg = elim agg.arg [
    | none ↦ codes "count"
    | some c ↦ lower agg.func ++ (codes "_" ++ c.1)
  ]

  abbrev pub alias_or_default : Option Text → AggregateCall → Text
  alias_or_default (some a) agg = a
  alias_or_default none agg = default_alias agg

  unfoldable pub aliases_of : List SelectItem → List Text
  aliases_of [] = []
  aliases_of (aggregate_item alias agg ∷ items) = alias_or_default alias agg ∷ aliases_of items
  aliases_of (_ ∷ items) = aliases_of items

  -- The legacy columns, behind those that were read; `or` takes an alias that is not empty, and every IDENT is not.
  unfoldable pub columns_from : List Text → List SelectItem → List Text
  columns_from done [] = done
  columns_from done (star ∷ items) = codes "*" ∷ []
  columns_from done (aggregate_item alias agg ∷ items) =
      columns_from (done ++ (alias_or_default alias agg ∷ [])) items
  columns_from done (column_item name alias qualifier ∷ items) =
      columns_from (done ++ (name ∷ [])) items

  unfoldable pub parse_having_left : Tokens → Result (HavingLeft × Tokens)
  parse_having_left ts = do
    t ← peek ts
    (if is_word aggregates t
        then (parse_aggregate_call ts >>= λ a. ok (of_aggregate a.0, a.1))
        else (parse_name ts >>= λ c. ok (of_column c.0, c.1)))

  unfoldable pub parse_having_expr : Tokens → Result ((HavingLeft × Text × Value) × Tokens)
  parse_having_expr ts = do
    left ← parse_having_left ts
    op ← advance left.1
    lit ← (if is_comparison op.0 then bare_literal op.1 else refuse op.0)
    ok ((left.0, text_of op.0.value, lit.0), lit.1)

  unfoldable pub parse_group_by : Tokens → Result (List Text × Tokens)
  parse_group_by ts = do
    here ← peek_is keyword "GROUP" ts
    (elim here [
      | false ↦ ok ([], ts)
      | true ↦ (do
        kw ← expect_keyword "GROUP" ts
        by ← expect_keyword "BY" kw.1
        parse_col_list by.1)
    ])

  unfoldable pub parse_having : Tokens → Result (Option (HavingLeft × Text × Value) × Tokens)
  parse_having ts = do
    here ← peek_is keyword "HAVING" ts
    (elim here [
      | false ↦ ok (none, ts)
      | true ↦ (do kw ← expect_keyword "HAVING" ts; h ← parse_having_expr kw.1; ok (some h.0, h.1))
    ])
