-- ===== src/Parser/TotalTables.antt =====
-- The fuel of the readers of CREATE TABLE in parser.py.
use Prim.Native.String.{String}
use tinydb_cc_comet.Prelude.{
  ℕ, zero, suc, ◌<◌, ◌≡◌, true, ◌==◌, Option, none, some, List, [], length, arith,
}
use tinydb_cc_comet.TypeSystem.{Text, codec_for}
use tinydb_cc_comet.Tokenizer.{Token, punct, int_literal, codes}
use tinydb_cc_comet.Parser.{
  Tokens, advance, expect, expect_keyword, is_token, is_kind, is_keyword, refuse,
}
use tinydb_cc_comet.Parser.Fuel.{
  fueled, fueled_le, fueled-bind, advance-fueled, expect-fueled, expect_keyword-fueled,
  peek_is-fueled, peek-fueled, if-fueled, refuse-fueled, guard-fueled, ok-fueled,
}
use tinydb_cc_comet.Parser.Statements.{parse_name}
use tinydb_cc_comet.Parser.Total.{
  by_option-fueled, by_bool-fueled, by_result-fueled, then-fueled, maybe-fueled, parse_name-fueled,
  comma_from-fueled,
}
use tinydb_cc_comet.Parser.Tables.{
  ColumnDefinition, Constraints, arity, naturals, checked_params, parse_int, parse_ints,
  parse_type_params, second_keyword, parse_constraint, starts_constraint, constraints_from,
  parse_column_constraints, has_column, named_type, parse_type, parse_column_definition,
  parse_new_column, parse_column_list, parse_create_table,
}

checked_params-fueled :
    (name : String) (at : Token) (ns : Option (List ℕ)) (ts : Tokens) (m : ℕ)
    → length ts < m
    → fueled m (checked_params name at ns ts) ≡ true
unfolding checked_params
checked_params-fueled name at none ts m h = refuse-fueled _ at m
checked_params-fueled name at (some ns) ts m h =
    by_result-fueled (codec_for name ns) m _ _ (ok-fueled _ ts m h) (refuse-fueled _ at m)

parse_int-fueled : (ts : Tokens) → fueled (length ts) (parse_int ts) ≡ true
unfolding parse_int
parse_int-fueled ts =
    let m = length ts in
    peek-fueled m ts _ λ t.
      then-fueled m ts _ _
        (guard-fueled (is_kind int_literal t) (advance ts) t m (advance-fueled ts)) (omega arith)
        λ i rest less. ok-fueled _ rest m less

parse_ints-fueled : (ts : Tokens) → fueled (length ts) (parse_ints ts) ≡ true
unfolding parse_ints
parse_ints-fueled ts =
    let m = length ts in
    then-fueled m ts (parse_int ts) _ (parse_int-fueled ts) (omega arith) λ i a less.
      peek_is-fueled m punct "," a _
        (then-fueled m a (advance a) _ (advance-fueled a) (omega arith) λ comma b less2.
          then-fueled m b (parse_int b) _ (parse_int-fueled b) (omega arith)
            λ j rest less3. ok-fueled _ rest m less3)
        (ok-fueled _ a m less)

parse_type_params-fueled :
    (name : String) (at : Token) (ts : Tokens)
    → fueled (suc (length ts)) (parse_type_params name at ts) ≡ true
unfolding parse_type_params
parse_type_params-fueled name at ts =
    let m = suc (length ts) in
    peek_is-fueled m punct "(" ts _
      (then-fueled m ts (advance ts) _ (advance-fueled ts) (omega arith) λ opened a less.
        then-fueled m a (parse_ints a) _ (parse_ints-fueled a) (omega arith) λ params b less2.
          then-fueled m b (expect punct ")" b) _ (expect-fueled punct ")" b) (omega arith)
            λ close c less3. by_option-fueled (arity name) m _ _ (refuse-fueled _ at m) λ n.
              guard-fueled (length params == n) (checked_params name at (naturals params) c) at m
                (checked_params-fueled name at (naturals params) c m less3))
      (by_option-fueled (arity name) m _ _ (ok-fueled _ ts m (omega arith))
        λ n. refuse-fueled _ at m)

second_keyword-fueled :
    (kw : String) (ts : Tokens) → fueled (length ts) (second_keyword kw ts) ≡ true
unfolding second_keyword
second_keyword-fueled kw ts =
    peek-fueled (length ts) ts _
      λ t. guard-fueled (is_keyword kw t) (advance ts) t (length ts) (advance-fueled ts)

parse_constraint-fueled :
    (c : Constraints) (ts : Tokens) → fueled (length ts) (parse_constraint c ts) ≡ true
unfolding parse_constraint
parse_constraint-fueled c ts =
    let m = length ts in
    then-fueled m ts (advance ts) _ (advance-fueled ts) (omega arith) λ kw a less.
      if-fueled (is_keyword "NOT" kw) _ _ m
        (then-fueled m a (second_keyword "NULL" a) _ (second_keyword-fueled "NULL" a) (omega arith)
          λ n rest less2. guard-fueled c.nullable _ kw m (ok-fueled _ rest m less2))
        (if-fueled (is_keyword "PRIMARY" kw) _ _ m
          (then-fueled m a (second_keyword "KEY" a) _ (second_keyword-fueled "KEY" a) (omega arith)
            λ n rest less2.
              if-fueled c.primary_key (refuse kw) _ m (refuse-fueled _ kw m)
                (ok-fueled _ rest m less2))
          (guard-fueled (is_keyword "UNIQUE" kw) _ kw m
            (if-fueled c.unique (refuse kw) _ m (refuse-fueled _ kw m) (ok-fueled _ a m less))))

constraints_from-fueled :
    (f : ℕ) (c : Constraints) (ts : Tokens)
    → length ts < f
    → fueled (suc (length ts)) (constraints_from f c ts) ≡ true
unfolding constraints_from
constraints_from-fueled zero c ts enough = absurd (omega arith)
constraints_from-fueled (suc f) c ts enough =
    let m = suc (length ts) in
    peek-fueled m ts _ λ t.
      by_bool-fueled (starts_constraint t) m _ _ (ok-fueled _ ts m (omega arith)) (
        fueled-bind (length ts) m (parse_constraint c ts) _ (parse_constraint-fueled c ts)
          λ d rest less.
            fueled_le (suc (length rest)) m (constraints_from f d rest) (omega arith)
              (constraints_from-fueled f d rest (omega arith)))

parse_column_constraints-fueled :
    (ts : Tokens) → fueled (suc (length ts)) (parse_column_constraints ts) ≡ true
unfolding parse_column_constraints
parse_column_constraints-fueled ts = constraints_from-fueled (suc (length ts)) _ ts (omega arith)

module _ (upper : Text → Text) where
  parse_type-fueled : (ts : Tokens) → fueled (length ts) (parse_type upper ts) ≡ true
  unfolding parse_type
  parse_type-fueled ts =
      let m = length ts in
      peek-fueled m ts _ λ t.
        by_option-fueled (named_type upper t) m _ _ (refuse-fueled _ t m) λ name.
          then-fueled m ts (advance ts) _ (advance-fueled ts) (omega arith) λ taken a less.
            maybe-fueled m a (parse_type_params name t a) _ (parse_type_params-fueled name t a) less
              λ params rest less2. ok-fueled _ rest m less2

  parse_column_definition-fueled :
      (ts : Tokens) → fueled (length ts) (parse_column_definition upper ts) ≡ true
  unfolding parse_column_definition
  parse_column_definition-fueled ts =
      let m = length ts in
      then-fueled m ts (parse_name ts) _ (parse_name-fueled ts) (omega arith) λ name a less.
        then-fueled m a (parse_type upper a) _ (parse_type-fueled a) (omega arith) λ ty b less2.
          maybe-fueled m b (parse_column_constraints b) _ (parse_column_constraints-fueled b) less2
            λ c rest less3. ok-fueled _ rest m less3

  parse_new_column-fueled :
      (seen : List ColumnDefinition) (ts : Tokens)
      → fueled (length ts) (parse_new_column upper seen ts) ≡ true
  unfolding parse_new_column
  parse_new_column-fueled seen ts =
      let m = length ts in
      peek-fueled m ts _ λ at.
        then-fueled m ts (parse_column_definition upper ts) _ (parse_column_definition-fueled ts)
          (omega arith)
          λ c rest less.
            if-fueled (has_column c.name seen) (refuse at) _ m (refuse-fueled _ at m)
              (ok-fueled _ rest m less)

  parse_column_list-fueled : (ts : Tokens) → fueled (length ts) (parse_column_list upper ts) ≡ true
  unfolding parse_column_list
  parse_column_list-fueled ts =
      let m = length ts in
      peek-fueled m ts _ λ t.
        if-fueled (is_token punct (codes ")") t) (refuse t) _ m (refuse-fueled _ t m) (
          comma_from-fueled (suc m) (parse_new_column upper) parse_new_column-fueled [] ts
            (omega arith))

  pub parse_create_table-fueled :
      (ts : Tokens) → fueled (length ts) (parse_create_table upper ts) ≡ true
  unfolding parse_create_table
  parse_create_table-fueled ts =
      let m = length ts in
      then-fueled m ts (expect_keyword "CREATE" ts) _ (expect_keyword-fueled "CREATE" ts)
        (omega arith)
        λ kw a less.
          then-fueled m a (expect_keyword "TABLE" a) _ (expect_keyword-fueled "TABLE" a)
            (omega arith)
            λ table b less2.
              then-fueled m b (parse_name b) _ (parse_name-fueled b) (omega arith) λ name c less3.
                then-fueled m c (expect punct "(" c) _ (expect-fueled punct "(" c) (omega arith)
                  λ opened d less4.
                    then-fueled m d (parse_column_list upper d) _ (parse_column_list-fueled d)
                      (omega arith)
                      λ cols e less5.
                        then-fueled m e (expect punct ")" e) _ (expect-fueled punct ")" e)
                          (omega arith) λ close rest less6. ok-fueled _ rest m less6
