-- ===== src/Parser/Joins.antt =====
-- src/tinydb/parser.py: the tables of FROM and the chain of JOIN clauses behind them.
use Prim.Native.String.{String}
use tinydb_cc_comet.Prelude.{
  ℕ, zero, suc, Bool, true, false, not, ◌&&◌, ◌||◌, Option, none, some, List, [], ◌∷◌,
  if◌then◌else◌, length,
}
use tinydb_cc_comet.Errors.{Result, ok, err, ◌>>=◌, out_of_fuel}
use tinydb_cc_comet.TypeSystem.{Text}
use tinydb_cc_comet.Tokenizer.{Token, keyword, ident, punct, is_one_of}
use tinydb_cc_comet.Parser.{
  Tokens, ColumnRef, peek, advance, at_end, refuse, is_kind, is_keyword, expect, peek_is, text_of,
  parse_column_ref,
}
use tinydb_cc_comet.Parser.Statements.{comma_list, parse_name}

pub record TableRef : Type 0 where
  pub name : Text
  pub alias : Option Text
  pub line : ℕ
  pub col : ℕ

pub record JoinOnPredicate : Type 0 where
  pub left : ColumnRef
  pub op : Text
  pub right : ColumnRef
  pub line : ℕ
  pub col : ℕ

pub data JoinKind : Type 0 where
  inner_join left_join right_join full_join cross_join : JoinKind

pub record JoinClause : Type 0 where
  pub kind : JoinKind
  pub right : TableRef
  pub on_expr : Option JoinOnPredicate
  pub using_keys : List Text
  pub natural : Bool
  pub line : ℕ
  pub col : ℕ

-- `IDENT` behind AS or the table, or its absence
unfoldable pub parse_alias : Tokens → Result (Option Text × Tokens)
parse_alias ts = parse_name ts >>= λ a. ok (some a.0, a.1)

-- An alias with AS, or an IDENT without it
unfoldable pub parse_table_alias : Tokens → Result (Option Text × Tokens)
parse_table_alias ts = do
  as_ ← peek_is keyword "AS" ts
  (elim as_ [
    | true ↦ (advance ts >>= λ kw. parse_alias kw.1)
    | false ↦ (do
      ended ← at_end ts
      t ← peek ts
      (if not ended && is_kind ident t then parse_alias ts else ok (none, ts)))
  ])

unfoldable pub parse_table_ref : Tokens → Result (TableRef × Tokens)
parse_table_ref ts = do
  t ← peek ts
  name ← parse_name ts
  alias ← parse_table_alias name.1
  ok (record { name = name.0; alias = alias.0; line = t.line; col = t.col }, alias.1)

abbrev pub comparison_ops : List String
comparison_ops = "=" ∷ "<" ∷ ">" ∷ "<=" ∷ ">=" ∷ "!=" ∷ []

-- A PUNCT that is one of the six comparisons
abbrev pub is_comparison : Token → Bool
is_comparison t = is_kind punct t && is_one_of comparison_ops (text_of t.value)

unfoldable pub parse_join_predicate : Tokens → Result (JoinOnPredicate × Tokens)
parse_join_predicate ts = do
  left ← parse_column_ref ts
  t ← peek left.1
  op ← (if is_comparison t then advance left.1 else refuse t)
  right ← parse_column_ref op.1
  ok (
    record {
      left = left.0;
      op = text_of op.0.value;
      right = right.0;
      line = left.0.line;
      col = left.0.col;
    },
    right.1,
  )

-- The kinds with a keyword of their own, and whether OUTER may follow
abbrev pub join_kind : Token → Option (JoinKind × Bool)
join_kind t =
    if is_keyword "INNER" t
    then some (inner_join, false)
    else if is_keyword "LEFT" t
    then some (left_join, true)
    else if is_keyword "RIGHT" t
    then some (right_join, true)
    else if is_keyword "FULL" t
    then some (full_join, true)
    else if is_keyword "CROSS" t
    then some (cross_join, false)
    else none

abbrev pub is_cross : JoinKind → Bool
is_cross cross_join = true
is_cross _ = false

-- OUTER, where it may stand, is passed over.
unfoldable pub skip_outer : Bool → Tokens → Result Tokens
skip_outer false ts = ok ts
skip_outer true ts = peek_is keyword "OUTER" ts >>= λ outer. elim outer [
  | false ↦ ok ts
  | true ↦ advance ts >>= λ kw. ok kw.1
]

-- `[kind [OUTER]] JOIN`; `first` is where an error is reported when there is neither.
unfoldable pub parse_join_kind : Token → Tokens → Result (JoinKind × Tokens)
parse_join_kind first ts = do
  t ← peek ts
  (elim (join_kind t) [
    | some found ↦ (do
      kw ← advance ts
      after ← skip_outer found.1 kw.1
      next ← peek after
      join ← (if is_keyword "JOIN" next then advance after else refuse next)
      ok (found.0, join.1))
    | none ↦
        (if is_keyword "JOIN" t
          then (advance ts >>= λ join. ok (inner_join, join.1))
          else refuse first)
  ])

-- USING, ON or neither
unfoldable pub parse_join_keys :
    Token → JoinKind → Bool → Tokens → Result ((Option JoinOnPredicate × List Text) × Tokens)
parse_join_keys first kind natural ts = do
  using ← peek_is keyword "USING" ts
  (elim using [
    | true ↦ (do
      kw ← advance ts
      opened ← expect punct "(" kw.1
      keys ← comma_list parse_name opened.1
      close ← expect punct ")" keys.1
      ok ((none, keys.0), close.1))
    | false ↦ (do
      on_ ← peek_is keyword "ON" ts
      (elim on_ [
        | true ↦ (do kw ← advance ts; p ← parse_join_predicate kw.1; ok ((some p.0, []), p.1))
        | false ↦ (if not (is_cross kind) && not natural then refuse first else ok ((none, []), ts))
      ]))
  ])

-- NATURAL, when the clause begins with it, is passed over.
unfoldable pub skip_natural : Token → Tokens → Result Tokens
skip_natural first ts = elim (is_keyword "NATURAL" first) [
  | true ↦ advance ts >>= λ kw. ok kw.1
  | false ↦ ok ts
]

unfoldable pub parse_join_clause : Tokens → Result (JoinClause × Tokens)
parse_join_clause ts = do
  first ← peek ts
  kind_at ← skip_natural first ts
  kind ← parse_join_kind first kind_at
  right ← parse_table_ref kind.1
  keys ← parse_join_keys first kind.0 (is_keyword "NATURAL" first) right.1
  ok (
    record {
      kind = kind.0;
      right = right.0;
      on_expr = keys.0.0;
      using_keys = keys.0.1;
      natural = is_keyword "NATURAL" first;
      line = first.line;
      col = first.col;
    },
    keys.1,
  )

-- `_peek_join_start`
abbrev pub starts_join : Token → Bool
starts_join t =
    is_keyword "JOIN" t
    || is_keyword "INNER" t
    || is_keyword "LEFT" t
    || is_keyword "RIGHT" t
    || is_keyword "FULL" t
    || is_keyword "CROSS" t
    || is_keyword "NATURAL" t

unfoldable pub joins_from : ℕ → Tokens → Result (List JoinClause × Tokens)
joins_from zero ts = err out_of_fuel
joins_from (suc f) ts = peek ts >>= λ t. elim (starts_join t) [
  | false ↦ ok ([], ts)
  | true ↦ parse_join_clause ts >>= λ j. joins_from f j.1 >>= λ r. ok (j.0 ∷ r.0, r.1)
]

unfoldable pub parse_join_chain : Tokens → Result (List JoinClause × Tokens)
parse_join_chain ts = joins_from (suc (length ts)) ts
