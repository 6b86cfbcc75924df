-- ===== src/Parser/Total.antt =====
-- The fuel of the loops over commas in parser.py, and of the statements without SELECT and CREATE
-- TABLE.
use Prim.Native.String.{String}
use tinydb_cc_comet.Prelude.{
  ℕ, zero, suc, ◌≤◌, ◌<◌, ◌≡◌, Bool, true, false, ◌==◌, Option, none, some, List, [], ◌∷◌, ◌++◌,
  length, arith,
}
use tinydb_cc_comet.Errors.{Result, ok, err, ◌>>=◌}
use tinydb_cc_comet.TypeSystem.{Text, Value}
use tinydb_cc_comet.Tokenizer.{Token, keyword, punct, codes}
use tinydb_cc_comet.Parser.{
  Tokens, advance, expect, expect_ident, expect_keyword, is_token, is_keyword, refuse,
  parse_column_ref, parse_literal_value, bare_literal, parse_datetime_literal,
  parse_decimal_literal, parse_expr,
}
use tinydb_cc_comet.Parser.Fuel.{
  fueled, fueled_le, fueled-bind, advance-fueled, expect_ident-fueled, expect-fueled,
  expect_keyword-fueled, peek_is-fueled, peek-fueled, if-fueled, refuse-fueled, guard-fueled,
  ok-fueled, parse_column_ref-fueled,
}
use tinydb_cc_comet.Parser.TotalExpr.{
  parse_datetime_literal-fueled, parse_decimal_literal-fueled, bare_literal-fueled,
  parse_literal_value-fueled, parse_expr-fueled,
}
use tinydb_cc_comet.Parser.Statements.{
  comma_from, comma_list, parse_name, parse_order_item, parse_order_by, parse_int_kw_clause,
  parse_limit, parse_offset, is_aggregate, parse_drop_table, parse_where, parse_delete,
  parse_assignment, parse_update, parse_insert_value, parse_insert_row, parse_insert,
}

module _ {ℓ} {A : Type ℓ} where
  pub comma_from-fueled :
      (f : ℕ) (item : List A → Tokens → Result (A × Tokens))
      → ((seen : List A) (ts : Tokens) → fueled (length ts) (item seen ts) ≡ true)
      → (seen : List A) (ts : Tokens) → length ts < f
      → fueled (length ts) (comma_from f item seen ts) ≡ true
  unfolding comma_from
  comma_from-fueled zero item each seen ts enough = absurd (omega arith)
  comma_from-fueled (suc f) item each seen ts enough =
      fueled-bind (length ts) (length ts) (item seen ts) _ (each seen ts) λ x after less.
        peek_is-fueled (length ts) punct "," after _
          (fueled-bind (length after) (length ts) (advance after) _ (advance-fueled after)
            λ comma rest less2.
              fueled_le (length rest) (length ts) (comma_from f item (seen ++ (x ∷ [])) rest)
                (omega arith) (comma_from-fueled f item each (seen ++ (x ∷ [])) rest (omega arith)))
          (ok-fueled _ after (length ts) less)

  pub comma_list-fueled :
      (item : Tokens → Result (A × Tokens))
      → ((ts : Tokens) → fueled (length ts) (item ts) ≡ true)
      → (ts : Tokens) → fueled (length ts) (comma_list item ts) ≡ true
  unfolding comma_list
  comma_list-fueled item each ts =
      comma_from-fueled (suc (length ts)) (λ seen. item) (λ seen. each) [] ts (omega arith)

module _ {ℓ κ} {A : Type ℓ} {B : Type κ} where
  -- A reader that takes a token, and what leaves at most what it was given, within any larger bound
  pub then-fueled :
      (m : ℕ) (ts : Tokens) (r : Result (A × Tokens)) (next : A × Tokens → Result (B × Tokens))
      → fueled (length ts) r ≡ true
      → length ts ≤ m
      → ((a : A) (rest : Tokens) → length rest < m → fueled m (next (a, rest)) ≡ true)
      → fueled m (r >>= next) ≡ true
  then-fueled m ts r next h le k =
      fueled-bind (length ts) m r next h λ a rest less. k a rest (omega arith)

  -- One that may take none
  pub maybe-fueled :
      (m : ℕ) (ts : Tokens) (r : Result (A × Tokens)) (next : A × Tokens → Result (B × Tokens))
      → fueled (suc (length ts)) r ≡ true
      → length ts < m
      → ((a : A) (rest : Tokens) → length rest < m → fueled m (next (a, rest)) ≡ true)
      → fueled m (r >>= next) ≡ true
  maybe-fueled m ts r next h le k =
      fueled-bind (suc (length ts)) m r next h λ a rest less. k a rest (omega arith)

-- Splits on what a reader has found
pub by_option-fueled {ℓ κ} :
    {A : Type ℓ} {B : Type κ} (o : Option A) (m : ℕ) (r : Result (B × Tokens))
    (next : A → Result (B × Tokens))
    → fueled m r ≡ true
    → ((a : A) → fueled m (next a) ≡ true)
    → fueled m (elim o [ none ↦ r | some a ↦ next a ]) ≡ true
by_option-fueled none m r next h k = h
by_option-fueled (some a) m r next h k = k a

pub by_bool-fueled {ℓ} :
    {B : Type ℓ} (b : Bool) (m : ℕ) (r s : Result (B × Tokens))
    → fueled m r ≡ true
    → fueled m s ≡ true
    → fueled m (elim b [ false ↦ r | true ↦ s ]) ≡ true
by_bool-fueled false m r s h k = h
by_bool-fueled true m r s h k = k

pub by_result-fueled {ℓ κ} :
    {A : Type ℓ} {B : Type κ} (o : Result A) (m : ℕ) (r s : Result (B × Tokens))
    → fueled m r ≡ true
    → fueled m s ≡ true
    → fueled m (elim o [ ok a ↦ r | err e ↦ s ]) ≡ true
by_result-fueled (ok a) m r s h k = h
by_result-fueled (err e) m r s h k = k

pub parse_name-fueled : (ts : Tokens) → fueled (length ts) (parse_name ts) ≡ true
unfolding parse_name
parse_name-fueled ts =
    then-fueled (length ts) ts (expect_ident ts) _ (expect_ident-fueled ts) (omega arith)
      λ t rest less. ok-fueled _ rest (length ts) less

parse_order_item-fueled : (ts : Tokens) → fueled (length ts) (parse_order_item ts) ≡ true
unfolding parse_order_item
parse_order_item-fueled ts =
    let m = length ts in
    then-fueled m ts (parse_column_ref ts) _ (parse_column_ref-fueled ts) (omega arith)
      λ c after less.
        peek_is-fueled m keyword "ASC" after _
          (then-fueled m after (advance after) _ (advance-fueled after) (omega arith)
            λ kw rest less2. ok-fueled _ rest m less2)
          (peek_is-fueled m keyword "DESC" after _
            (then-fueled m after (advance after) _ (advance-fueled after) (omega arith)
              λ kw rest less2. ok-fueled _ rest m less2)
            (ok-fueled _ after m less))

pub parse_order_by-fueled : (ts : Tokens) → fueled (suc (length ts)) (parse_order_by ts) ≡ true
unfolding parse_order_by
parse_order_by-fueled ts =
    let m = suc (length ts) in
    peek_is-fueled m keyword "ORDER" ts _
      (then-fueled m ts (advance ts) _ (advance-fueled ts) (omega arith) λ kw after less.
        peek-fueled m after _ λ t.
          then-fueled m after _ _
            (guard-fueled (is_keyword "BY" t) (advance after) t (length after)
              (advance-fueled after))
            (omega arith)
            λ by rest less2.
              fueled_le (length rest) m (comma_list parse_order_item rest) (omega arith)
                (comma_list-fueled parse_order_item parse_order_item-fueled rest))
      (ok-fueled _ ts m (omega arith))

parse_int_kw_clause-fueled :
    (kw : String) (non_negative : Bool) (ts : Tokens)
    → fueled (suc (length ts)) (parse_int_kw_clause kw non_negative ts) ≡ true
unfolding parse_int_kw_clause
parse_int_kw_clause-fueled kw non_negative ts =
    let m = suc (length ts) in
    peek_is-fueled m keyword kw ts _
      (then-fueled m ts (advance ts) _ (advance-fueled ts) (omega arith) λ k after less.
        then-fueled m after (advance after) _ (advance-fueled after) (omega arith) λ t rest less2.
          if-fueled _ (refuse t) _ m (refuse-fueled _ t m) (ok-fueled _ rest m less2))
      (ok-fueled _ ts m (omega arith))

pub parse_limit-fueled : (ts : Tokens) → fueled (suc (length ts)) (parse_limit ts) ≡ true
unfolding parse_limit
parse_limit-fueled ts = parse_int_kw_clause-fueled "LIMIT" true ts

pub parse_offset-fueled : (ts : Tokens) → fueled (suc (length ts)) (parse_offset ts) ≡ true
unfolding parse_offset
parse_offset-fueled ts = parse_int_kw_clause-fueled "OFFSET" false ts

pub parse_drop_table-fueled : (ts : Tokens) → fueled (length ts) (parse_drop_table ts) ≡ true
unfolding parse_drop_table
parse_drop_table-fueled ts =
    let m = length ts in
    then-fueled m ts (expect_keyword "DROP" ts) _ (expect_keyword-fueled "DROP" ts) (omega arith)
      λ kw a less.
        then-fueled m a (expect_keyword "TABLE" a) _ (expect_keyword-fueled "TABLE" a) (omega arith)
          λ table b less2.
            then-fueled m b (parse_name b) _ (parse_name-fueled b) (omega arith)
              λ name rest less3. ok-fueled _ rest m less3

module _ (iso_of : Text → Text → Option Value) (float_of : Text → Option Value) where
  pub parse_where-fueled :
      (ts : Tokens) → fueled (suc (length ts)) (parse_where iso_of float_of ts) ≡ true
  unfolding parse_where
  parse_where-fueled ts =
      let m = suc (length ts) in
      peek_is-fueled m keyword "WHERE" ts _
        (then-fueled m ts (advance ts) _ (advance-fueled ts) (omega arith) λ kw a less.
          peek-fueled m a _ λ t.
            then-fueled m a _ _
              (if-fueled (is_aggregate t) (refuse t) (parse_expr iso_of float_of a) (length a)
                (refuse-fueled _ t (length a)) (parse_expr-fueled iso_of float_of a))
              (omega arith) λ e rest less2. ok-fueled _ rest m less2)
        (ok-fueled _ ts m (omega arith))

  pub parse_delete-fueled :
      (ts : Tokens) → fueled (length ts) (parse_delete iso_of float_of ts) ≡ true
  unfolding parse_delete
  parse_delete-fueled ts =
      let m = length ts in
      then-fueled m ts (expect_keyword "DELETE" ts) _ (expect_keyword-fueled "DELETE" ts)
        (omega arith)
        λ kw a less.
          then-fueled m a (expect_keyword "FROM" a) _ (expect_keyword-fueled "FROM" a) (omega arith)
            λ fr b less2.
              then-fueled m b (parse_name b) _ (parse_name-fueled b) (omega arith) λ table c less3.
                maybe-fueled m c (parse_where iso_of float_of c) _ (parse_where-fueled c) less3
                  λ e rest less4. ok-fueled _ rest m less4

  parse_assignment-fueled :
      (ts : Tokens) → fueled (length ts) (parse_assignment iso_of float_of ts) ≡ true
  unfolding parse_assignment
  parse_assignment-fueled ts =
      let m = length ts in
      then-fueled m ts (parse_name ts) _ (parse_name-fueled ts) (omega arith) λ col a less.
        then-fueled m a (expect punct "=" a) _ (expect-fueled punct "=" a) (omega arith)
          λ eq b less2.
            then-fueled m b (parse_literal_value iso_of float_of b) _
              (parse_literal_value-fueled iso_of float_of b) (omega arith)
              λ v rest less3. ok-fueled _ rest m less3

  pub parse_update-fueled :
      (ts : Tokens) → fueled (length ts) (parse_update iso_of float_of ts) ≡ true
  unfolding parse_update
  parse_update-fueled ts =
      let m = length ts in
      let item = parse_assignment iso_of float_of in
      then-fueled m ts (expect_keyword "UPDATE" ts) _ (expect_keyword-fueled "UPDATE" ts)
        (omega arith)
        λ kw a less.
          then-fueled m a (parse_name a) _ (parse_name-fueled a) (omega arith) λ table b less2.
            then-fueled m b (expect_keyword "SET" b) _ (expect_keyword-fueled "SET" b) (omega arith)
              λ set c less3.
                then-fueled m c (comma_list item c) _
                  (comma_list-fueled item parse_assignment-fueled c) (omega arith)
                  λ sets d less4.
                    maybe-fueled m d (parse_where iso_of float_of d) _ (parse_where-fueled d) less4
                      λ e rest less5. ok-fueled _ rest m less5

  parse_insert_value-fueled :
      (ts : Tokens) → fueled (length ts) (parse_insert_value iso_of float_of ts) ≡ true
  unfolding parse_insert_value
  parse_insert_value-fueled ts =
      let m = length ts in
      peek-fueled m ts _ λ v.
        if-fueled (is_keyword "NULL" v) _ _ m
          (then-fueled m ts (advance ts) _ (advance-fueled ts) (omega arith)
            λ kw rest less. ok-fueled _ rest m less)
          (if-fueled _ _ _ m
            (then-fueled m ts (parse_datetime_literal iso_of float_of ts) _
              (parse_datetime_literal-fueled iso_of float_of ts) (omega arith)
              λ l rest less. ok-fueled _ rest m less)
            (if-fueled _ _ _ m
              (then-fueled m ts (parse_decimal_literal iso_of float_of ts) _
                (parse_decimal_literal-fueled iso_of float_of ts) (omega arith)
                λ l rest less. ok-fueled _ rest m less)
              (then-fueled m ts (bare_literal ts) _ (bare_literal-fueled iso_of float_of ts)
                (omega arith) λ l rest less. ok-fueled _ rest m less)))

  parse_insert_row-fueled :
      (kw : Token) (width : ℕ) (ts : Tokens)
      → fueled (length ts) (parse_insert_row iso_of float_of kw width ts) ≡ true
  unfolding parse_insert_row
  parse_insert_row-fueled kw width ts =
      let m = length ts in
      let item = parse_insert_value iso_of float_of in
      then-fueled m ts (expect punct "(" ts) _ (expect-fueled punct "(" ts) (omega arith)
        λ opened a less. peek-fueled m a _ λ t.
          then-fueled m a _ _
            (if-fueled (is_token punct (codes ")") t) (refuse t) (comma_list item a) (length a)
              (refuse-fueled _ t (length a)) (comma_list-fueled item parse_insert_value-fueled a))
            (omega arith)
            λ row b less2.
              maybe-fueled m b _ _
                (guard-fueled (length row == width) (ok (row, b)) kw (suc (length b))
                  (ok-fueled row b (suc (length b)) (omega arith)))
                less2
                λ counted c less3.
                  then-fueled m c (expect punct ")" c) _ (expect-fueled punct ")" c) (omega arith)
                    λ close rest less4. ok-fueled _ rest m less4

  pub parse_insert-fueled :
      (ts : Tokens) → fueled (length ts) (parse_insert iso_of float_of ts) ≡ true
  unfolding parse_insert
  parse_insert-fueled ts =
      let m = length ts in
      then-fueled m ts (expect_keyword "INSERT" ts) _ (expect_keyword-fueled "INSERT" ts)
        (omega arith)
        λ kw a less.
          then-fueled m a (expect_keyword "INTO" a) _ (expect_keyword-fueled "INTO" a) (omega arith)
            λ into b less2.
              then-fueled m b (parse_name b) _ (parse_name-fueled b) (omega arith) λ table c less3.
                then-fueled m c (expect punct "(" c) _ (expect-fueled punct "(" c) (omega arith)
                  λ opened d less4.
                    then-fueled m d (comma_list parse_name d) _
                      (comma_list-fueled parse_name parse_name-fueled d) (omega arith)
                      λ cols e less5.
                        then-fueled m e (expect punct ")" e) _ (expect-fueled punct ")" e)
                          (omega arith)
                          λ close g less6.
                            then-fueled m g (expect_keyword "VALUES" g) _
                              (expect_keyword-fueled "VALUES" g) (omega arith)
                              λ vals h less7.
                                let item = parse_insert_row iso_of float_of kw (length cols) in
                                then-fueled m h (comma_list item h) _
                                  (comma_list-fueled item (parse_insert_row-fueled kw (length cols))
                                    h)
                                  (omega arith) λ rows rest less8. ok-fueled _ rest m less8
