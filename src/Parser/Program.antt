-- ===== src/Parser/Program.antt =====
-- src/tinydb/parser.py: SELECT as a whole, the dispatch on the first keyword, and `parse`.
use tinydb_cc_comet.Prelude.{
  ℕ, zero, suc, true, false, Option, List, [], ◌∷◌, if◌then◌else◌, length,
}
use tinydb_cc_comet.Errors.{Result, ok, err, ◌>>=◌, out_of_fuel}
use tinydb_cc_comet.TypeSystem.{Text, Value}
use tinydb_cc_comet.Tokenizer.{punct}
use tinydb_cc_comet.Parser.{
  Tokens, peek, advance, at_end, refuse, is_keyword, expect_keyword, peek_is,
}
use tinydb_cc_comet.Parser.Statements.{
  DropTable, Insert, Delete, Update, parse_drop_table, parse_insert, parse_delete, parse_update,
  parse_where, parse_order_by, parse_limit, parse_offset,
}
use tinydb_cc_comet.Parser.Tables.{CreateTable, parse_create_table}
use tinydb_cc_comet.Parser.Joins.{parse_table_ref, parse_join_chain}
use tinydb_cc_comet.Parser.Select.{
  Select, parse_select_items, parse_group_by, parse_having, aliases_of, columns_from,
}

pub data Statement : Type 0 where
  begin_stmt commit_stmt rollback_stmt : (line col : ℕ) → Statement
  create_stmt : CreateTable → Statement
  drop_stmt : DropTable → Statement
  insert_stmt : Insert → Statement
  select_stmt : Select → Statement
  delete_stmt : Delete → Statement
  update_stmt : Update → Statement

-- A statement of the kind that `make` builds
abbrev pub as_statement {ℓ} :
    {A : Type ℓ} → (A → Statement) → Result (A × Tokens) → Result (Statement × Tokens)
as_statement make r = r >>= λ s. ok (make s.0, s.1)

module _ (iso_of : Text → Text → Option Value) (float_of : Text → Option Value)
    (upper lower : Text → Text) where
  unfoldable pub parse_select : Tokens → Result (Select × Tokens)
  parse_select ts = do
    kw ← expect_keyword "SELECT" ts
    items ← parse_select_items upper lower kw.1
    ft ← peek items.1
    from_kw ← (if is_keyword "FROM" ft then advance items.1 else refuse ft)
    from_ref ← parse_table_ref from_kw.1
    joins ← parse_join_chain from_ref.1
    filter ← parse_where iso_of float_of joins.1
    group_by ← parse_group_by upper lower filter.1
    having ← parse_having upper lower group_by.1
    order_by ← parse_order_by having.1
    limit ← parse_limit order_by.1
    offset ← parse_offset limit.1
    ok (
      record {
        table = from_ref.0.name;
        columns = columns_from upper lower [] items.0;
        where_expr = filter.0;
        order_by = order_by.0;
        limit = limit.0;
        offset = offset.0;
        select_items = items.0;
        group_by = group_by.0;
        having = having.0;
        aggregate_aliases = aliases_of upper lower items.0;
        from_ = from_ref.0;
        joins = joins.0;
        line = kw.0.line;
        col = kw.0.col;
      },
      offset.1,
    )

  unfoldable pub parse_statement : Tokens → Result (Statement × Tokens)
  parse_statement ts = do
    t ← peek ts
    (if is_keyword "BEGIN" t
        then (advance ts >>= λ kw. ok (begin_stmt t.line t.col, kw.1))
        else if is_keyword "COMMIT" t
        then (advance ts >>= λ kw. ok (commit_stmt t.line t.col, kw.1))
        else if is_keyword "ROLLBACK" t
        then (advance ts >>= λ kw. ok (rollback_stmt t.line t.col, kw.1))
        else if is_keyword "CREATE" t
        then as_statement create_stmt (parse_create_table upper ts)
        else if is_keyword "DROP" t
        then as_statement drop_stmt (parse_drop_table ts)
        else if is_keyword "INSERT" t
        then as_statement insert_stmt (parse_insert iso_of float_of ts)
        else if is_keyword "SELECT" t
        then as_statement select_stmt (parse_select ts)
        else if is_keyword "DELETE" t
        then as_statement delete_stmt (parse_delete iso_of float_of ts)
        else if is_keyword "UPDATE" t
        then as_statement update_stmt (parse_update iso_of float_of ts)
        else refuse t)

  -- A semicolon behind a statement is passed over; another statement may follow without one.
  unfoldable pub skip_semicolon : Tokens → Result Tokens
  skip_semicolon ts = peek_is punct ";" ts >>= λ here. elim here [
    | false ↦ ok ts
    | true ↦ advance ts >>= λ s. ok s.1
  ]

  unfoldable pub statements_from : ℕ → Tokens → Result (List Statement)
  statements_from zero ts = err out_of_fuel
  statements_from (suc f) ts = at_end ts >>= λ ended. elim ended [
    | true ↦ ok []
    | false ↦ parse_statement ts >>= λ s.
        skip_semicolon s.1 >>= λ rest. statements_from f rest >>= λ more. ok (s.0 ∷ more)
  ]

  -- `parse`; each round takes a token, and the last looks at the end.
  unfoldable pub parse : Tokens → Result (List Statement)
  parse ts = statements_from (suc (length ts)) ts
