-- ===== src/Parser/TotalExpr.antt =====
-- The fuel of the readers of literals and expressions in parser.py.
use tinydb_cc_comet.Prelude.{
  ℕ, zero, suc, ◌+◌, ◌*◌, ◌≤◌, ◌<◌, ◌≡◌, refl, true, Option, none, some, [], ◌∷◌, length, arith,
  lt→ltb, if◌then◌else◌,
}
use tinydb_cc_comet.TypeSystem.{Text, Value}
use tinydb_cc_comet.Tokenizer.{Token, keyword, punct, text_literal}
use tinydb_cc_comet.Parser.{
  Tokens, Expr, text_of, or_expr, and_expr, peek, advance, expect, expect_keyword, is_kind,
  converted, value_of, refuse, parse_literal_value, parse_datetime_literal, parse_decimal_literal,
  bare_literal, parse_comparison, parse_or, or_loop, parse_and, and_loop, parse_not, parse_primary,
  parse_expr,
}
use tinydb_cc_comet.Parser.Fuel.{
  fueled, fueled_le, fueled-bind, advance-fueled, expect-fueled, peek_is-fueled, ok-fueled,
  parse_column_ref-fueled, guard-fueled,
}

converted-fueled :
    (t : Token) (v : Option Value) (ts : Tokens) (m : ℕ)
    → length ts < m
    → fueled m (converted t v ts) ≡ true
unfolding fueled
converted-fueled t none ts m h = refl
converted-fueled t (some v) ts m h = lt→ltb (length ts) m h

value_of-fueled :
    (t : Token) (v : Option Value) (ts : Tokens) (m : ℕ)
    → length ts < m
    → fueled m (value_of t v ts) ≡ true
unfolding fueled
value_of-fueled t none ts m h = refl
value_of-fueled t (some v) ts m h = lt→ltb (length ts) m h

module _ (iso_of : Text → Text → Option Value) (float_of : Text → Option Value) where
  pub parse_datetime_literal-fueled :
      (ts : Tokens) → fueled (length ts) (parse_datetime_literal iso_of float_of ts) ≡ true
  unfolding parse_datetime_literal peek fueled
  parse_datetime_literal-fueled [] = refl
  parse_datetime_literal-fueled (t ∷ ts) =
      fueled-bind {B = Value} (length (t ∷ ts)) (length (t ∷ ts))
        (if is_kind keyword t then advance (t ∷ ts) else refuse t) _
        (guard-fueled (is_kind keyword t) (advance (t ∷ ts)) t (length (t ∷ ts))
          (advance-fueled (t ∷ ts)))
        λ kw after less.
          fueled-bind {B = Value} (length after) (length (t ∷ ts)) (advance after) _
            (advance-fueled after)
            λ s rest less2.
              let v = iso_of (text_of kw.value) (text_of s.value) in
              guard-fueled (is_kind text_literal s) (converted kw v rest) s (length (t ∷ ts))
                (converted-fueled kw v rest (length (t ∷ ts)) (omega arith))

  pub parse_decimal_literal-fueled :
      (ts : Tokens) → fueled (length ts) (parse_decimal_literal iso_of float_of ts) ≡ true
  unfolding parse_decimal_literal expect_keyword
  parse_decimal_literal-fueled ts =
      fueled-bind (length ts) (length ts) _ _ (expect-fueled keyword "DECIMAL" ts) λ kw after less.
        fueled-bind (length after) (length ts) (advance after) _ (advance-fueled after)
          λ s rest less2.
            guard-fueled _ _ s (length ts) (converted-fueled kw _ rest (length ts) (omega arith))

  pub bare_literal-fueled : (ts : Tokens) → fueled (length ts) (bare_literal ts) ≡ true
  unfolding bare_literal
  bare_literal-fueled ts =
      fueled-bind (length ts) (length ts) (advance ts) _ (advance-fueled ts)
        λ t rest less. guard-fueled _ _ t (length ts) (value_of-fueled t _ rest (length ts) less)

  pub parse_literal_value-fueled :
      (ts : Tokens) → fueled (length ts) (parse_literal_value iso_of float_of ts) ≡ true
  unfolding parse_literal_value peek fueled
  parse_literal_value-fueled [] = refl
  parse_literal_value-fueled (t ∷ ts) = ground (
    arith,
    parse_datetime_literal-fueled (t ∷ ts),
    parse_decimal_literal-fueled (t ∷ ts),
    bare_literal-fueled (t ∷ ts),
  )

  parse_comparison-fueled :
      (ts : Tokens) → fueled (length ts) (parse_comparison iso_of float_of ts) ≡ true
  unfolding parse_comparison
  parse_comparison-fueled ts =
      fueled-bind (length ts) (length ts) _ _ (parse_column_ref-fueled ts) λ c after less.
        fueled-bind (length after) (length ts) _ _ (advance-fueled after) λ op behind less2.
          fueled-bind (length behind) (length ts) _ _
            (guard-fueled _ _ op (length behind) (parse_literal_value-fueled behind))
            λ v rest less3. ok-fueled _ rest (length ts) (omega arith)

  record Within (f : ℕ) : Type 0 where
    by_or :
        (ts : Tokens)
        → 6 * length ts + 4 ≤ f
        → fueled (length ts) (parse_or iso_of float_of f ts) ≡ true
    by_or_loop :
        (e : Expr) (ts : Tokens)
        → 6 * length ts + 1 ≤ f
        → fueled (suc (length ts)) (or_loop iso_of float_of f e ts) ≡ true
    by_and :
        (ts : Tokens)
        → 6 * length ts + 3 ≤ f
        → fueled (length ts) (parse_and iso_of float_of f ts) ≡ true
    by_and_loop :
        (e : Expr) (ts : Tokens)
        → 6 * length ts + 1 ≤ f
        → fueled (suc (length ts)) (and_loop iso_of float_of f e ts) ≡ true
    by_not :
        (ts : Tokens)
        → 6 * length ts + 2 ≤ f
        → fueled (length ts) (parse_not iso_of float_of f ts) ≡ true
    by_primary :
        (ts : Tokens)
        → 6 * length ts + 1 ≤ f
        → fueled (length ts) (parse_primary iso_of float_of f ts) ≡ true

  module _ (f : ℕ) (h : Within f) where
    parse_or-fueled :
        (ts : Tokens)
        → 6 * length ts + 4 ≤ suc f
        → fueled (length ts) (parse_or iso_of float_of (suc f) ts) ≡ true
    unfolding parse_or
    parse_or-fueled ts enough =
        fueled-bind (length ts) (length ts) (parse_and iso_of float_of f ts) _
          (h.by_and ts (omega arith))
          λ l rest less.
            fueled_le (suc (length rest)) (length ts) (or_loop iso_of float_of f l rest) less
              (h.by_or_loop l rest (omega arith))

    parse_and-fueled :
        (ts : Tokens)
        → 6 * length ts + 3 ≤ suc f
        → fueled (length ts) (parse_and iso_of float_of (suc f) ts) ≡ true
    unfolding parse_and
    parse_and-fueled ts enough =
        fueled-bind (length ts) (length ts) (parse_not iso_of float_of f ts) _
          (h.by_not ts (omega arith))
          λ l rest less.
            fueled_le (suc (length rest)) (length ts) (and_loop iso_of float_of f l rest) less
              (h.by_and_loop l rest (omega arith))

    or_loop-fueled :
        (e : Expr) (ts : Tokens)
        → 6 * length ts + 1 ≤ suc f
        → fueled (suc (length ts)) (or_loop iso_of float_of (suc f) e ts) ≡ true
    unfolding or_loop
    or_loop-fueled e ts enough =
        peek_is-fueled (suc (length ts)) keyword "OR" ts _
          (fueled-bind (length ts) (suc (length ts)) (advance ts) _ (advance-fueled ts)
            λ op after less.
              fueled-bind (length after) (suc (length ts)) (parse_and iso_of float_of f after) _
                (h.by_and after (omega arith))
                λ r rest less2.
                  fueled_le (suc (length rest)) (suc (length ts))
                    (or_loop iso_of float_of f (or_expr e r) rest) (omega arith)
                    (h.by_or_loop (or_expr e r) rest (omega arith)))
          (ok-fueled _ ts (suc (length ts)) (omega arith))

    and_loop-fueled :
        (e : Expr) (ts : Tokens)
        → 6 * length ts + 1 ≤ suc f
        → fueled (suc (length ts)) (and_loop iso_of float_of (suc f) e ts) ≡ true
    unfolding and_loop
    and_loop-fueled e ts enough =
        peek_is-fueled (suc (length ts)) keyword "AND" ts _
          (fueled-bind (length ts) (suc (length ts)) (advance ts) _ (advance-fueled ts)
            λ op after less.
              fueled-bind (length after) (suc (length ts)) (parse_not iso_of float_of f after) _
                (h.by_not after (omega arith))
                λ r rest less2.
                  fueled_le (suc (length rest)) (suc (length ts))
                    (and_loop iso_of float_of f (and_expr e r) rest) (omega arith)
                    (h.by_and_loop (and_expr e r) rest (omega arith)))
          (ok-fueled _ ts (suc (length ts)) (omega arith))

    parse_not-fueled :
        (ts : Tokens)
        → 6 * length ts + 2 ≤ suc f
        → fueled (length ts) (parse_not iso_of float_of (suc f) ts) ≡ true
    unfolding parse_not
    parse_not-fueled ts enough =
        peek_is-fueled (length ts) keyword "NOT" ts _
          (fueled-bind (length ts) (length ts) (advance ts) _ (advance-fueled ts) λ op after less.
            fueled-bind (length after) (length ts) (parse_not iso_of float_of f after) _
              (h.by_not after (omega arith))
              λ r rest less2. ok-fueled _ rest (length ts) (omega arith))
          (h.by_primary ts (omega arith))

    parse_primary-fueled :
        (ts : Tokens)
        → 6 * length ts + 1 ≤ suc f
        → fueled (length ts) (parse_primary iso_of float_of (suc f) ts) ≡ true
    unfolding parse_primary
    parse_primary-fueled ts enough =
        peek_is-fueled (length ts) punct "(" ts _
          (fueled-bind (length ts) (length ts) (advance ts) _ (advance-fueled ts) λ op after less.
            fueled-bind (length after) (length ts) (parse_or iso_of float_of f after) _
              (h.by_or after (omega arith))
              λ r rest less2.
                fueled-bind (length rest) (length ts) (expect punct ")" rest) _
                  (expect-fueled punct ")" rest)
                  λ close behind less3. ok-fueled _ behind (length ts) (omega arith))
          (parse_comparison-fueled ts)

  within : (f : ℕ) → Within f
  within zero = record {
    by_or = λ ts h. absurd (omega arith);
    by_or_loop = λ e ts h. absurd (omega arith);
    by_and = λ ts h. absurd (omega arith);
    by_and_loop = λ e ts h. absurd (omega arith);
    by_not = λ ts h. absurd (omega arith);
    by_primary = λ ts h. absurd (omega arith);
  }
  within (suc f) =
      let h = within f in
      record {
        by_or = parse_or-fueled f h;
        by_or_loop = or_loop-fueled f h;
        by_and = parse_and-fueled f h;
        by_and_loop = and_loop-fueled f h;
        by_not = parse_not-fueled f h;
        by_primary = parse_primary-fueled f h;
      }

  pub parse_expr-fueled : (ts : Tokens) → fueled (length ts) (parse_expr iso_of float_of ts) ≡ true
  unfolding parse_expr
  parse_expr-fueled ts = (within (16 * length ts + 8)).by_or ts (omega arith)
