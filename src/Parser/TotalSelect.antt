-- ===== src/Parser/TotalSelect.antt =====
-- The fuel of the readers of SELECT in parser.py.
use Prim.Native.String.{String}
use tinydb_cc_comet.Prelude.{
  ℕ, zero, suc, ◌<◌, ◌≡◌, refl, Bool, true, false, not, ◌&&◌, List, [], ◌∷◌, length, arith,
}
use tinydb_cc_comet.Errors.{Result, ok, err, ◌>>=◌}
use tinydb_cc_comet.TypeSystem.{Text}
use tinydb_cc_comet.Tokenizer.{Token, TokenType, keyword, punct, ident, codes}
use tinydb_cc_comet.Parser.{
  Tokens, peek_is, peek, advance, expect, is_token, is_kind, is_keyword, refuse, parse_column_ref,
}
use tinydb_cc_comet.Parser.Fuel.{
  fueled, fueled_le, fueled-bind, advance-fueled, expect-fueled, peek_is-fueled, peek-fueled,
  at_end-fueled, if-fueled, refuse-fueled, guard-fueled, ok-fueled, parse_column_ref-fueled,
}
use tinydb_cc_comet.Parser.Statements.{parse_name, comma_list}
use tinydb_cc_comet.Parser.Total.{
  then-fueled, maybe-fueled, by_option-fueled, by_bool-fueled, parse_name-fueled, comma_from-fueled,
  comma_list-fueled,
}
use tinydb_cc_comet.Parser.Joins.{
  JoinKind, parse_alias, parse_table_alias, skip_natural, parse_table_ref, is_comparison,
  parse_join_predicate, join_kind, skip_outer, parse_join_kind, parse_join_keys, is_cross,
  parse_join_clause, starts_join, joins_from, parse_join_chain,
}
use tinydb_cc_comet.Parser.Select.{
  SelectItem, star, column_item, aggregate_item, parse_aggregate_arg, parse_aggregate_call, dotted,
  parse_col_list, item_alias, item_error, alias_seen, is_word, parse_as, parse_select_item,
  parse_new_item, parse_select_items, parse_having_left,
}

parse_alias-fueled : (ts : Tokens) → fueled (length ts) (parse_alias ts) ≡ true
unfolding parse_alias
parse_alias-fueled ts =
    then-fueled (length ts) ts (parse_name ts) _ (parse_name-fueled ts) (omega arith)
      λ a rest less. ok-fueled _ rest (length ts) less

parse_table_alias-fueled : (ts : Tokens) → fueled (suc (length ts)) (parse_table_alias ts) ≡ true
unfolding parse_table_alias
parse_table_alias-fueled ts =
    let m = suc (length ts) in
    peek_is-fueled m keyword "AS" ts _
      (fueled-bind (length ts) m (advance ts) _ (advance-fueled ts)
        λ kw a less. fueled_le (length a) m (parse_alias a) (omega arith) (parse_alias-fueled a))
      (at_end-fueled m ts _ λ ended. peek-fueled m ts _ λ t.
        if-fueled (not ended && is_kind ident t) (parse_alias ts) _ m
          (fueled_le (length ts) m (parse_alias ts) (omega arith) (parse_alias-fueled ts))
          (ok-fueled _ ts m (omega arith)))

pub parse_table_ref-fueled : (ts : Tokens) → fueled (length ts) (parse_table_ref ts) ≡ true
unfolding parse_table_ref
parse_table_ref-fueled ts =
    let m = length ts in
    peek-fueled m ts _ λ t.
      then-fueled m ts (parse_name ts) _ (parse_name-fueled ts) (omega arith) λ name a less.
        maybe-fueled m a (parse_table_alias a) _ (parse_table_alias-fueled a) less
          λ alias rest less2. ok-fueled _ rest m less2

parse_join_predicate-fueled : (ts : Tokens) → fueled (length ts) (parse_join_predicate ts) ≡ true
unfolding parse_join_predicate
parse_join_predicate-fueled ts =
    let m = length ts in
    then-fueled m ts (parse_column_ref ts) _ (parse_column_ref-fueled ts) (omega arith)
      λ left a less. peek-fueled m a _ λ t.
        then-fueled m a _ _
          (guard-fueled (is_comparison t) (advance a) t (length a) (advance-fueled a)) (omega arith)
          λ op b less2.
            then-fueled m b (parse_column_ref b) _ (parse_column_ref-fueled b) (omega arith)
              λ right rest less3. ok-fueled _ rest m less3

-- A token that is passed over where it stands, and what goes on behind it
abbrev pub GoesOn {ℓ} : {B : Type ℓ} → ℕ → ℕ → (Tokens → Result (B × Tokens)) → Type 0
GoesOn n m next = (rest : Tokens) → length rest < n → fueled m (next rest) ≡ true

module _ {ℓ} {B : Type ℓ} where
  advance_on-fueled :
      (n m : ℕ) (ts : Tokens) (next : Tokens → Result (B × Tokens))
      → length ts < n
      → GoesOn n m next
      → fueled m ((advance ts >>= λ kw. ok kw.1) >>= next) ≡ true
  unfolding advance fueled
  advance_on-fueled n m [] next h k = refl
  advance_on-fueled n m (t ∷ rest) next h k = k rest (omega arith)

  optional-fueled :
      (n m : ℕ) (b : Bool) (ts : Tokens) (next : Tokens → Result (B × Tokens))
      → length ts < n
      → GoesOn n m next
      → fueled m (elim b [ false ↦ ok ts | true ↦ advance ts >>= λ kw. ok kw.1 ] >>= next) ≡ true
  optional-fueled n m false ts next h k = k ts h
  optional-fueled n m true ts next h k = advance_on-fueled n m ts next h k

  pub peek_on-fueled :
      (n m : ℕ) (kind : TokenType) (text : String) (ts : Tokens)
      (next : Tokens → Result (B × Tokens))
      → length ts < n
      → GoesOn n m next
      → fueled m (
          (peek_is kind text ts >>= λ b. elim b [
            | false ↦ ok ts
            | true ↦ advance ts >>= λ kw. ok kw.1
          ])
          >>= next)
        ≡ true
  unfolding peek_is peek fueled
  peek_on-fueled n m kind text [] next h k = refl
  peek_on-fueled n m kind text (t ∷ ts) next h k =
      optional-fueled n m (is_token kind (codes text) t) (t ∷ ts) next h k

  skip_outer-fueled :
      (n m : ℕ) (b : Bool) (ts : Tokens) (next : Tokens → Result (B × Tokens))
      → length ts < n
      → GoesOn n m next
      → fueled m (skip_outer b ts >>= next) ≡ true
  unfolding skip_outer
  skip_outer-fueled n m false ts next h k = k ts h
  skip_outer-fueled n m true ts next h k = peek_on-fueled n m keyword "OUTER" ts next h k

  skip_natural-fueled :
      (n m : ℕ) (first : Token) (ts : Tokens) (next : Tokens → Result (B × Tokens))
      → length ts < n
      → GoesOn n m next
      → fueled m (skip_natural first ts >>= next) ≡ true
  unfolding skip_natural
  skip_natural-fueled n m first ts next h k =
      optional-fueled n m (is_keyword "NATURAL" first) ts next h k

parse_join_kind-fueled :
    (first : Token) (ts : Tokens) → fueled (length ts) (parse_join_kind first ts) ≡ true
unfolding parse_join_kind
parse_join_kind-fueled first ts =
    let m = length ts in
    peek-fueled m ts _ λ t.
      by_option-fueled (join_kind t) m _ _
        (guard-fueled (is_keyword "JOIN" t) _ first m (
          then-fueled m ts (advance ts) _ (advance-fueled ts) (omega arith)
            λ join rest less. ok-fueled _ rest m less))
        λ found. then-fueled m ts (advance ts) _ (advance-fueled ts) (omega arith) λ kw a less.
          skip_outer-fueled m m found.1 a _ less λ b less2. peek-fueled m b _ λ t2.
            then-fueled m b _ _
              (guard-fueled (is_keyword "JOIN" t2) (advance b) t2 (length b) (advance-fueled b))
              (omega arith) λ join rest less3. ok-fueled _ rest m less3

parse_join_keys-fueled :
    (first : Token) (kind : JoinKind) (natural : Bool) (ts : Tokens)
    → fueled (suc (length ts)) (parse_join_keys first kind natural ts) ≡ true
unfolding parse_join_keys
parse_join_keys-fueled first kind natural ts =
    let m = suc (length ts) in
    peek_is-fueled m keyword "USING" ts _
      (then-fueled m ts (advance ts) _ (advance-fueled ts) (omega arith) λ kw a less.
        then-fueled m a (expect punct "(" a) _ (expect-fueled punct "(" a) (omega arith)
          λ opened b less2.
            then-fueled m b (comma_list parse_name b) _
              (comma_list-fueled parse_name parse_name-fueled b) (omega arith)
              λ keys c less3.
                then-fueled m c (expect punct ")" c) _ (expect-fueled punct ")" c) (omega arith)
                  λ close rest less4. ok-fueled _ rest m less4)
      (peek_is-fueled m keyword "ON" ts _
        (then-fueled m ts (advance ts) _ (advance-fueled ts) (omega arith) λ kw a less.
          then-fueled m a (parse_join_predicate a) _ (parse_join_predicate-fueled a) (omega arith)
            λ p rest less2. ok-fueled _ rest m less2)
        (if-fueled (not (is_cross kind) && not natural) (refuse first) _ m (refuse-fueled _ first m)
          (ok-fueled _ ts m (omega arith))))

parse_join_clause-fueled : (ts : Tokens) → fueled (length ts) (parse_join_clause ts) ≡ true
unfolding parse_join_clause
parse_join_clause-fueled ts =
    let m = length ts in
    peek-fueled m ts _ λ first. skip_natural-fueled (suc m) m first ts _ (omega arith) λ a less.
      then-fueled m a (parse_join_kind first a) _ (parse_join_kind-fueled first a) (omega arith)
        λ kind b less2.
          then-fueled m b (parse_table_ref b) _ (parse_table_ref-fueled b) (omega arith)
            λ right c less3.
              maybe-fueled m c (parse_join_keys first kind (is_keyword "NATURAL" first) c) _
                (parse_join_keys-fueled first kind (is_keyword "NATURAL" first) c) less3
                λ keys rest less4. ok-fueled _ rest m less4

joins_from-fueled :
    (f : ℕ) (ts : Tokens) → length ts < f → fueled (suc (length ts)) (joins_from f ts) ≡ true
unfolding joins_from
joins_from-fueled zero ts enough = absurd (omega arith)
joins_from-fueled (suc f) ts enough =
    let m = suc (length ts) in
    peek-fueled m ts _ λ t. by_bool-fueled (starts_join t) m _ _ (ok-fueled _ ts m (omega arith)) (
      fueled-bind (length ts) m (parse_join_clause ts) _ (parse_join_clause-fueled ts) λ j a less.
        fueled-bind (suc (length a)) m (joins_from f a) _ (joins_from-fueled f a (omega arith))
          λ r rest less2. ok-fueled _ rest m (omega arith))

pub parse_join_chain-fueled : (ts : Tokens) → fueled (suc (length ts)) (parse_join_chain ts) ≡ true
unfolding parse_join_chain
parse_join_chain-fueled ts = joins_from-fueled (suc (length ts)) ts (omega arith)

parse_aggregate_arg-fueled : (ts : Tokens) → fueled (length ts) (parse_aggregate_arg ts) ≡ true
unfolding parse_aggregate_arg
parse_aggregate_arg-fueled ts =
    let m = length ts in
    peek_is-fueled m punct "*" ts _
      (then-fueled m ts (advance ts) _ (advance-fueled ts) (omega arith)
        λ s rest less. ok-fueled _ rest m less)
      (then-fueled m ts (parse_column_ref ts) _ (parse_column_ref-fueled ts) (omega arith)
        λ c rest less. ok-fueled _ rest m less)

parse_aggregate_call-fueled : (ts : Tokens) → fueled (length ts) (parse_aggregate_call ts) ≡ true
unfolding parse_aggregate_call
parse_aggregate_call-fueled ts =
    let m = length ts in
    then-fueled m ts (advance ts) _ (advance-fueled ts) (omega arith) λ func a less.
      then-fueled m a (expect punct "(" a) _ (expect-fueled punct "(" a) (omega arith)
        λ opened b less2.
          then-fueled m b (parse_aggregate_arg b) _ (parse_aggregate_arg-fueled b) (omega arith)
            λ arg c less3.
              then-fueled m c (expect punct ")" c) _ (expect-fueled punct ")" c) (omega arith)
                λ close rest less4. ok-fueled _ rest m less4

pub parse_col_list-fueled : (ts : Tokens) → fueled (length ts) (parse_col_list ts) ≡ true
unfolding parse_col_list
parse_col_list-fueled ts =
    comma_list-fueled _
      (λ at.
        then-fueled (length at) at (parse_column_ref at) _ (parse_column_ref-fueled at)
          (omega arith) λ c rest less. ok-fueled (dotted c) rest (length at) less)
      ts

module _ (upper lower : Text → Text) where
  parse_as-fueled : (ts : Tokens) → fueled (suc (length ts)) (parse_as upper lower ts) ≡ true
  unfolding parse_as
  parse_as-fueled ts =
      let m = suc (length ts) in
      peek-fueled m ts _ λ t.
        if-fueled (is_word upper lower ("AS" ∷ []) t) _ _ m
          (fueled-bind (length ts) m (advance ts) _ (advance-fueled ts) λ kw a less.
            fueled_le (length a) m (parse_alias a) (omega arith) (parse_alias-fueled a))
          (ok-fueled _ ts m (omega arith))

  parse_select_item-fueled :
      (ts : Tokens) → fueled (length ts) (parse_select_item upper lower ts) ≡ true
  unfolding parse_select_item
  parse_select_item-fueled ts =
      let m = length ts in
      peek-fueled m ts _ λ t.
        if-fueled _ _ _ m
          (then-fueled m ts (parse_aggregate_call ts) _ (parse_aggregate_call-fueled ts)
            (omega arith)
            λ agg a less.
              maybe-fueled m a (parse_as upper lower a) _ (parse_as-fueled a) less
                λ alias rest less2. ok-fueled _ rest m less2)
          (then-fueled m ts (parse_column_ref ts) _ (parse_column_ref-fueled ts) (omega arith)
            λ c a less.
              maybe-fueled m a (parse_as upper lower a) _ (parse_as-fueled a) less
                λ alias rest less2. ok-fueled _ rest m less2)

  error-fueled : (i : SelectItem) (m : ℕ) → fueled {A = SelectItem} m (err (item_error i)) ≡ true
  unfolding fueled
  error-fueled star m = refl
  error-fueled (column_item name alias qualifier) m = refl
  error-fueled (aggregate_item alias agg) m = refl

  parse_new_item-fueled :
      (seen : List SelectItem) (ts : Tokens)
      → fueled (length ts) (parse_new_item upper lower seen ts) ≡ true
  unfolding parse_new_item
  parse_new_item-fueled seen ts =
      let m = length ts in
      then-fueled m ts (parse_select_item upper lower ts) _ (parse_select_item-fueled ts)
        (omega arith)
        λ i rest less. by_option-fueled (item_alias i) m _ _ (ok-fueled i rest m less) λ a.
          if-fueled (alias_seen a seen) (err (item_error i)) _ m (error-fueled i m)
            (ok-fueled i rest m less)

  pub parse_select_items-fueled :
      (ts : Tokens) → fueled (length ts) (parse_select_items upper lower ts) ≡ true
  unfolding parse_select_items
  parse_select_items-fueled ts =
      let m = length ts in
      peek_is-fueled m punct "*" ts _
        (then-fueled m ts (advance ts) _ (advance-fueled ts) (omega arith)
          λ s rest less. ok-fueled _ rest m less)
        (comma_from-fueled (suc m) (parse_new_item upper lower) parse_new_item-fueled [] ts
          (omega arith))

  pub parse_having_left-fueled :
      (ts : Tokens) → fueled (length ts) (parse_having_left upper lower ts) ≡ true
  unfolding parse_having_left
  parse_having_left-fueled ts =
      let m = length ts in
      peek-fueled m ts _ λ t.
        if-fueled _ _ _ m
          (then-fueled m ts (parse_aggregate_call ts) _ (parse_aggregate_call-fueled ts)
            (omega arith) λ a rest less. ok-fueled _ rest m less)
          (then-fueled m ts (parse_name ts) _ (parse_name-fueled ts) (omega arith)
            λ c rest less. ok-fueled _ rest m less)
