-- ===== src/Parser/TotalProgram.antt =====
-- The fuel of `parse` and of the statements it dispatches to, in parser.py.
use tinydb_cc_comet.Prelude.{
  ℕ, zero, suc, ◌≤◌, ◌<◌, ◌≡◌, ◌≢◌, true, Option, List, [], ◌∷◌, length, arith, ltb→lt, ap,
  Bool-cases, inl, inr,
}
use tinydb_cc_comet.Errors.{Error, Result, ok, err, ◌>>=◌, out_of_fuel}
use tinydb_cc_comet.TypeSystem.{Text, Value}
use tinydb_cc_comet.Tokenizer.{Token, keyword, punct, eof, codes}
use tinydb_cc_comet.Parser.{
  Tokens, peek_is, peek, advance, at_end, expect_keyword, is_keyword, is_kind, is_token,
  bare_literal,
}
use tinydb_cc_comet.Parser.Fuel.{
  fueled, fueled_le, fueled-enough, advance-fueled, expect_keyword-fueled, peek_is-fueled,
  peek-fueled, if-fueled, guard-fueled, ok-fueled,
}
use tinydb_cc_comet.Parser.TotalExpr.{bare_literal-fueled}
use tinydb_cc_comet.Parser.Statements.{parse_where, parse_order_by, parse_limit, parse_offset}
use tinydb_cc_comet.Parser.Total.{
  then-fueled, maybe-fueled, parse_where-fueled, parse_order_by-fueled, parse_limit-fueled,
  parse_offset-fueled, parse_drop_table-fueled, parse_insert-fueled, parse_delete-fueled,
  parse_update-fueled,
}
use tinydb_cc_comet.Parser.TotalTables.{parse_create_table-fueled}
use tinydb_cc_comet.Parser.TotalSelect.{
  parse_table_ref-fueled, parse_join_chain-fueled, parse_col_list-fueled, parse_select_items-fueled,
  parse_having_left-fueled,
}
use tinydb_cc_comet.Parser.Joins.{is_comparison, parse_table_ref, parse_join_chain}
use tinydb_cc_comet.Parser.Select.{
  parse_col_list, parse_select_items, parse_having_left, parse_having_expr, parse_group_by,
  parse_having,
}
use tinydb_cc_comet.Parser.Program.{
  Statement, begin_stmt, commit_stmt, rollback_stmt, create_stmt, drop_stmt, insert_stmt,
  select_stmt, delete_stmt, update_stmt, as_statement, parse_select, parse_statement,
  skip_semicolon, statements_from, parse,
}

as_statement-fueled {ℓ} :
    {A : Type ℓ} (make : A → Statement) (ts : Tokens) (r : Result (A × Tokens))
    → fueled (length ts) r ≡ true
    → fueled (length ts) (as_statement make r) ≡ true
as_statement-fueled make ts r h =
    then-fueled (length ts) ts r _ h (omega arith)
      λ s rest less. ok-fueled (make s) rest (length ts) less

error_of {ℓ} : {A : Type ℓ} → Result A → Error
error_of (ok a) = out_of_fuel
error_of (err e) = e

err-injective {ℓ} : {A : Type ℓ} {x y : Error} → ◌≡◌ {A = Result A} (err x) (err y) → x ≡ y
unfolding error_of
err-injective e = ap error_of e

abbrev Enough {ℓ} : {A : Type ℓ} → Result A → Type ℓ
Enough r = r ≢ err out_of_fuel

bind-Enough {ℓ κ} :
    {A : Type ℓ} {B : Type κ} (n : ℕ) (r : Result (A × Tokens)) (next : A × Tokens → Result B)
    → fueled n r ≡ true
    → ((a : A) (rest : Tokens) → length rest < n → Enough (next (a, rest)))
    → Enough (r >>= next)
unfolding fueled
bind-Enough n (ok (a, rest)) next h k = k a rest (ltb→lt (length rest) n h)
bind-Enough {A = A} n (err x) next h k =
    λ e. fueled-enough {A = A} n (err x) h (ap err (err-injective e))

then-Enough {ℓ κ} :
    {A : Type ℓ} {B : Type κ} (r : Result A) (next : A → Result B)
    → Enough r
    → ((a : A) → Enough (next a))
    → Enough (r >>= next)
then-Enough (ok a) next h k = k a
then-Enough (err x) next h k = λ e. h (ap err (err-injective e))

-- The text of `";"`
abbrev semicolon : Text
semicolon = codes ";"

module _ (iso_of : Text → Text → Option Value) (float_of : Text → Option Value)
    (upper lower : Text → Text) where
  parse_having_expr-fueled :
      (ts : Tokens) → fueled (length ts) (parse_having_expr upper lower ts) ≡ true
  unfolding parse_having_expr
  parse_having_expr-fueled ts =
      let m = length ts in
      then-fueled m ts (parse_having_left upper lower ts) _
        (parse_having_left-fueled upper lower ts) (omega arith)
        λ left a less. then-fueled m a (advance a) _ (advance-fueled a) (omega arith) λ op b less2.
          then-fueled m b _ _
            (guard-fueled (is_comparison op) (bare_literal b) op (length b)
              (bare_literal-fueled iso_of float_of b))
            (omega arith) λ lit rest less3. ok-fueled _ rest m less3

  parse_group_by-fueled :
      (ts : Tokens) → fueled (suc (length ts)) (parse_group_by upper lower ts) ≡ true
  unfolding parse_group_by
  parse_group_by-fueled ts =
      let m = suc (length ts) in
      peek_is-fueled m keyword "GROUP" ts _
        (then-fueled m ts (expect_keyword "GROUP" ts) _ (expect_keyword-fueled "GROUP" ts)
          (omega arith)
          λ kw a less.
            then-fueled m a (expect_keyword "BY" a) _ (expect_keyword-fueled "BY" a) (omega arith)
              λ by b less2.
                fueled_le (length b) m (parse_col_list b) (omega arith) (parse_col_list-fueled b))
        (ok-fueled _ ts m (omega arith))

  parse_having-fueled :
      (ts : Tokens) → fueled (suc (length ts)) (parse_having upper lower ts) ≡ true
  unfolding parse_having
  parse_having-fueled ts =
      let m = suc (length ts) in
      peek_is-fueled m keyword "HAVING" ts _
        (then-fueled m ts (expect_keyword "HAVING" ts) _ (expect_keyword-fueled "HAVING" ts)
          (omega arith)
          λ kw a less.
            then-fueled m a (parse_having_expr upper lower a) _ (parse_having_expr-fueled a)
              (omega arith) λ h rest less2. ok-fueled _ rest m less2)
        (ok-fueled _ ts m (omega arith))

  parse_select-fueled :
      (ts : Tokens) → fueled (length ts) (parse_select iso_of float_of upper lower ts) ≡ true
  unfolding parse_select
  parse_select-fueled ts =
      let m = length ts in
      then-fueled m ts (expect_keyword "SELECT" ts) _ (expect_keyword-fueled "SELECT" ts)
        (omega arith)
        λ kw a less.
          then-fueled m a (parse_select_items upper lower a) _
            (parse_select_items-fueled upper lower a) (omega arith)
            λ items b less2. peek-fueled m b _ λ t.
              then-fueled m b _ _
                (guard-fueled (is_keyword "FROM" t) (advance b) t (length b) (advance-fueled b))
                (omega arith)
                λ fr c less3.
                  then-fueled m c (parse_table_ref c) _ (parse_table_ref-fueled c) (omega arith)
                    λ ref d less4.
                      maybe-fueled m d (parse_join_chain d) _ (parse_join_chain-fueled d) less4
                        λ joins e less5.
                          maybe-fueled m e (parse_where iso_of float_of e) _
                            (parse_where-fueled iso_of float_of e) less5
                            λ filter g less6.
                              maybe-fueled m g (parse_group_by upper lower g) _
                                (parse_group_by-fueled g) less6
                                λ groups h less7.
                                  maybe-fueled m h (parse_having upper lower h) _
                                    (parse_having-fueled h) less7
                                    λ having i less8.
                                      maybe-fueled m i (parse_order_by i) _
                                        (parse_order_by-fueled i) less8
                                        λ order j less9.
                                          maybe-fueled m j (parse_limit j) _ (parse_limit-fueled j)
                                            less9
                                            λ limit k less10.
                                              maybe-fueled m k (parse_offset k) _
                                                (parse_offset-fueled k) less10
                                                λ offset rest less11. ok-fueled _ rest m less11

  parse_statement-fueled :
      (ts : Tokens) → fueled (length ts) (parse_statement iso_of float_of upper lower ts) ≡ true
  unfolding parse_statement
  parse_statement-fueled ts =
      let m = length ts in
      let one : (make : Token → Statement) (t : Token)
          → fueled m (advance ts >>= λ kw. ok (make t, kw.1)) ≡ true =
        λ make t.
          then-fueled m ts (advance ts) _ (advance-fueled ts) (omega arith)
            λ kw rest less. ok-fueled (make t) rest m less in
      peek-fueled m ts _ λ t.
        if-fueled (is_keyword "BEGIN" t) _ _ m (one (λ u. begin_stmt u.line u.col) t) (
          if-fueled (is_keyword "COMMIT" t) _ _ m (one (λ u. commit_stmt u.line u.col) t) (
            if-fueled (is_keyword "ROLLBACK" t) _ _ m (one (λ u. rollback_stmt u.line u.col) t) (
              if-fueled (is_keyword "CREATE" t) _ _ m
                (as_statement-fueled create_stmt ts _ (parse_create_table-fueled upper ts))
                (if-fueled (is_keyword "DROP" t) _ _ m
                  (as_statement-fueled drop_stmt ts _ (parse_drop_table-fueled ts))
                  (if-fueled (is_keyword "INSERT" t) _ _ m
                    (as_statement-fueled insert_stmt ts _ (parse_insert-fueled iso_of float_of ts))
                    (if-fueled (is_keyword "SELECT" t) _ _ m
                      (as_statement-fueled select_stmt ts _ (parse_select-fueled ts))
                      (if-fueled (is_keyword "DELETE" t) _ _ m
                        (as_statement-fueled delete_stmt ts _
                          (parse_delete-fueled iso_of float_of ts))
                        (guard-fueled (is_keyword "UPDATE" t) _ t m (
                          as_statement-fueled update_stmt ts _
                            (parse_update-fueled iso_of float_of ts))))))))))

  skip_semicolon-Enough :
      (ts : Tokens) (next : Tokens → Result (List Statement))
      → ((rest : Tokens) → length rest ≤ length ts → Enough (next rest))
      → Enough (skip_semicolon iso_of float_of upper lower ts >>= next)
  unfolding skip_semicolon peek_is peek advance
  skip_semicolon-Enough [] next k = λ e. cc
  skip_semicolon-Enough (t ∷ ts) next k = elim (Bool-cases (is_token punct semicolon t)) [
    | inl here ↦ rw here (k ts (omega arith))
    | inr other ↦ rw other (k (t ∷ ts) (omega arith))
  ]

  statements_from-Enough :
      (f : ℕ) (ts : Tokens)
      → length ts < f
      → Enough (statements_from iso_of float_of upper lower f ts)
  unfolding statements_from at_end peek
  statements_from-Enough zero ts enough = absurd (omega arith)
  statements_from-Enough (suc f) [] enough = λ e. cc
  statements_from-Enough (suc f) (t ∷ ts) enough = elim (Bool-cases (is_kind eof t)) [
    | inl ended ↦ rw ended (λ e. cc)
    | inr more ↦ rw more (
        bind-Enough (length (t ∷ ts)) (parse_statement iso_of float_of upper lower (t ∷ ts)) _
          (parse_statement-fueled (t ∷ ts))
          λ s a less. skip_semicolon-Enough a _ λ rest short.
            then-Enough (statements_from iso_of float_of upper lower f rest) _
              (statements_from-Enough f rest (omega arith)) (λ ss e. cc))
  ]

  -- On any tokens, with an end among them or not, `parse` ends with statements or with an error of the source:
  -- the loops of all its readers take tokens, and the fuel of the model is enough.
  pub parse_total : (ts : Tokens) → parse iso_of float_of upper lower ts ≢ err out_of_fuel
  unfolding parse
  parse_total ts = statements_from-Enough (suc (length ts)) ts (omega arith)
