-- ===== src/Parser/RoundTrip.antt =====
-- The parser of expressions on what the printer writes: precedence, association and parentheses of
-- the grammar in parser.py.
use tinydb_cc_comet.Prelude.{
  ℕ, zero, suc, ◌+◌, ◌-◌, ◌*◌, ◌≤◌, ◌≡◌, refl, ◌∙◌, true, false, Option, none, some, [], ◌∷◌, ◌++◌,
  append_assoc, length, length-append, arith,
}
use tinydb_cc_comet.Errors.{ok}
use tinydb_cc_comet.Bytes.{bytes_eq}
use tinydb_cc_comet.TypeSystem.{Text, Value, int, bool, str, date, time, datetime, other}
use tinydb_cc_comet.Tokenizer.{keyword, punct}
use tinydb_cc_comet.Parser.{
  Tokens, Expr, equals, and_expr, or_expr, not_expr, peek_is, peek, advance, expect, expect_ident,
  is_token, parse_column_ref, parse_literal_value, bare_literal, parse_comparison, parse_or,
  or_loop, parse_and, and_loop, parse_not, parse_primary, parse_expr,
}
use tinydb_cc_comet.Parser.Printer.{symbol, literal, emit_column, emit, size, size-emit, wrap}

-- The left spine: what the loop of the level goes through before it reaches the end
abbrev or_depth : Expr → ℕ
or_depth (or_expr l r) = suc (or_depth l)
or_depth _ = 1

abbrev and_depth : Expr → ℕ
and_depth (and_expr l r) = suc (and_depth l)
and_depth _ = 1

or_depth-size : (e : Expr) → or_depth e ≤ size e
or_depth-size (or_expr l r) = omega (arith, or_depth-size l)
or_depth-size (and_expr l r) = omega arith
or_depth-size (not_expr e) = omega arith
or_depth-size (equals c v q) = omega arith

and_depth-size : (e : Expr) → and_depth e ≤ size e
and_depth-size (and_expr l r) = omega (arith, and_depth-size l)
and_depth-size (or_expr l r) = omega arith
and_depth-size (not_expr e) = omega arith
and_depth-size (equals c v q) = omega arith

size_pos : (e : Expr) → 1 ≤ size e
size_pos (equals _ _ _) = omega arith
size_pos (or_expr _ _) = omega arith
size_pos (and_expr _ _) = omega arith
size_pos (not_expr _) = omega arith

-- The next token is no such keyword.
abbrev pub Stops : Tokens → Type 0
Stops ts = (peek_is keyword "AND" ts ≡ ok false) × (peek_is keyword "OR" ts ≡ ok false)

parse_column_ref-emit :
    (q : Option Text) (c : Text) (ts : Tokens)
    → parse_column_ref (emit_column q c ++ (symbol punct "=" ∷ ts))
      ≡ ok (record { qualifier = q; name = c; line = 0; col = 0 }, symbol punct "=" ∷ ts)
unfolding parse_column_ref expect_ident peek_is peek advance is_token bytes_eq
parse_column_ref-emit none c ts = refl
parse_column_ref-emit (some q) c ts = refl

module _ (iso_of : Text → Text → Option Value) (float_of : Text → Option Value) where
  parse_literal_value-literal :
      (v : Value) (ts : Tokens) → parse_literal_value iso_of float_of (literal v ∷ ts) ≡ ok (v, ts)
  unfolding parse_literal_value peek bare_literal advance is_token
  parse_literal_value-literal (int i) ts = refl
  parse_literal_value-literal (bool b) ts = refl
  parse_literal_value-literal (str s) ts = refl
  parse_literal_value-literal (date d) ts = refl
  parse_literal_value-literal (time h m s u z) ts = refl
  parse_literal_value-literal (datetime n) ts = refl
  parse_literal_value-literal (other n) ts = refl

  parse_comparison-emit :
      (q : Option Text) (c : Text) (v : Value) (n : ℕ) (ts : Tokens)
      → parse_comparison iso_of float_of (emit n (equals c v q) ++ ts) ≡ ok (equals c v q, ts)
  unfolding parse_comparison emit advance is_token bytes_eq
  parse_comparison-emit q c v n ts =
      rw
        (
          append_assoc (emit_column q c) (symbol punct "=" ∷ literal v ∷ []) ts,
          parse_column_ref-emit q c (literal v ∷ ts),
          parse_literal_value-literal v ts,
        )
        refl

  -- With fuel above `bound`, the reader takes what was printed and leaves what follows.
  abbrev NotReads : ℕ → Expr → Type 0
  NotReads bound e =
      (f : ℕ) (ts : Tokens) → bound ≤ f → parse_not iso_of float_of f (emit 2 e ++ ts) ≡ ok (e, ts)

  -- The levels above come to their loop with the whole expression behind them.
  abbrev AndReads : ℕ → Expr → Type 0
  AndReads bound e =
      (k : ℕ) (ts : Tokens)
      → bound ≤ k + and_depth e
      → parse_and iso_of float_of (k + and_depth e) (emit 1 e ++ ts)
        ≡ and_loop iso_of float_of k e ts

  abbrev OrReads : ℕ → Expr → Type 0
  OrReads bound e =
      (k : ℕ) (ts : Tokens)
      → bound ≤ k + or_depth e
      → peek_is keyword "AND" ts ≡ ok false
      → parse_or iso_of float_of (k + or_depth e) (emit 0 e ++ ts) ≡ or_loop iso_of float_of k e ts

  record Reads (e : Expr) : Type 0 where
    by_not : NotReads (16 * size e) e
    by_and : AndReads (16 * size e) e
    by_or : OrReads (16 * size e) e

  and_loop-stop :
      (k : ℕ) (e : Expr) (ts : Tokens)
      → 1 ≤ k
      → peek_is keyword "AND" ts ≡ ok false
      → and_loop iso_of float_of k e ts ≡ ok (e, ts)
  unfolding and_loop
  and_loop-stop zero e ts h stop = absurd (omega arith)
  and_loop-stop (suc k) e ts h stop = rw stop refl

  or_loop-stop :
      (k : ℕ) (e : Expr) (ts : Tokens)
      → 1 ≤ k
      → peek_is keyword "OR" ts ≡ ok false
      → or_loop iso_of float_of k e ts ≡ ok (e, ts)
  unfolding or_loop
  or_loop-stop zero e ts h stop = absurd (omega arith)
  or_loop-stop (suc k) e ts h stop = rw stop refl

  add_one : (k : ℕ) → k + 1 ≡ suc k
  add_one k = omega arith

  split_fuel : (d f : ℕ) → d ≤ f → f ≡ (f - d) + d
  split_fuel d f h = omega arith

  and_whole :
      (bound : ℕ) (e : Expr)
      → AndReads bound e
      → suc (and_depth e) ≤ bound
      → (f : ℕ) (ts : Tokens) → bound ≤ f
      → peek_is keyword "AND" ts ≡ ok false
      → parse_and iso_of float_of f (emit 1 e ++ ts) ≡ ok (e, ts)
  and_whole bound e reads room f ts h stop = rw (split_fuel (and_depth e) f (omega arith)) (
      reads (f - and_depth e) ts (omega arith)
      ∙ and_loop-stop (f - and_depth e) e ts (omega arith) stop)

  or_whole :
      (bound : ℕ) (e : Expr)
      → OrReads bound e
      → suc (or_depth e) ≤ bound
      → (f : ℕ) (ts : Tokens) → bound ≤ f
      → Stops ts
      → parse_or iso_of float_of f (emit 0 e ++ ts) ≡ ok (e, ts)
  or_whole bound e reads room f ts h stop = rw (split_fuel (or_depth e) f (omega arith)) (
      reads (f - or_depth e) ts (omega arith) stop.0
      ∙ or_loop-stop (f - or_depth e) e ts (omega arith) stop.1)

  -- Behind an opening parenthesis
  not-parenthesis :
      (e : Expr) (bound : ℕ)
      → OrReads bound e
      → suc (or_depth e) ≤ bound
      → (f : ℕ) (ts : Tokens) → suc (suc bound) ≤ f
      → parse_not iso_of float_of f (wrap true (emit 0 e) ++ ts) ≡ ok (e, ts)
  unfolding parse_not parse_primary peek_is peek advance is_token bytes_eq expect
  not-parenthesis e bound reads room zero ts h = absurd (omega arith)
  not-parenthesis e bound reads room (suc zero) ts h = absurd (omega arith)
  not-parenthesis e bound reads room (suc (suc f)) ts h =
      rw
        (
          append_assoc (emit 0 e) (symbol punct ")" ∷ []) ts,
          or_whole bound e reads room f (symbol punct ")" ∷ ts) (omega arith) (refl, refl),
        )
        refl

  -- A level that prints as the level above does
  and-of_not :
      (e : Expr) (bound : ℕ)
      → NotReads bound e
      → emit 1 e ≡ emit 2 e
      → and_depth e ≡ 1
      → AndReads (suc bound) e
  unfolding parse_and
  and-of_not e bound reads same leaf k ts h =
      rw (leaf, add_one k, same, reads k ts (let b = rw leaf at h in omega arith)) refl

  or-of_and :
      (e : Expr) (bound : ℕ)
      → AndReads bound e
      → suc (and_depth e) ≤ bound
      → emit 0 e ≡ emit 1 e
      → or_depth e ≡ 1
      → OrReads (suc bound) e
  unfolding parse_or
  or-of_and e bound reads room same leaf k ts h stop =
      rw
        (
          leaf,
          add_one k,
          same,
          and_whole bound e reads room k ts (let b = rw leaf at h in omega arith) stop,
        )
        refl

  -- One more operand of the loop
  or_step :
      (l r : Expr) (a b : ℕ)
      → OrReads a l
      → AndReads b r
      → suc (and_depth r) ≤ b
      → (k : ℕ) (ts : Tokens) → a ≤ suc k + or_depth l
      → b ≤ k
      → peek_is keyword "AND" ts ≡ ok false
      → parse_or iso_of float_of
          (suc k + or_depth l)
          ((emit 0 l ++ (symbol keyword "OR" ∷ emit 1 r)) ++ ts)
        ≡ or_loop iso_of float_of k (or_expr l r) ts
  unfolding or_loop peek_is peek advance is_token bytes_eq
  or_step l r a b left right room k ts h g stop =
      rw
        (
          append_assoc (emit 0 l) (symbol keyword "OR" ∷ emit 1 r) ts,
          left (suc k) (symbol keyword "OR" ∷ (emit 1 r ++ ts)) h refl,
          and_whole b r right room k ts g stop,
        )
        refl

  and_step :
      (l r : Expr) (a b : ℕ)
      → AndReads a l
      → NotReads b r
      → (k : ℕ) (ts : Tokens) → a ≤ suc k + and_depth l
      → b ≤ k
      → parse_and iso_of float_of
          (suc k + and_depth l)
          ((emit 1 l ++ (symbol keyword "AND" ∷ emit 2 r)) ++ ts)
        ≡ and_loop iso_of float_of k (and_expr l r) ts
  unfolding and_loop peek_is peek advance is_token bytes_eq
  and_step l r a b left right k ts h g =
      rw
        (
          append_assoc (emit 1 l) (symbol keyword "AND" ∷ emit 2 r) ts,
          left (suc k) (symbol keyword "AND" ∷ (emit 2 r ++ ts)) h,
          right k ts g,
        )
        refl

  add_suc : (k d : ℕ) → k + suc d ≡ suc k + d
  add_suc k d = omega arith

  or_expr-Or :
      (l r : Expr) → Reads l → Reads r → OrReads (16 * size (or_expr l r) - 8) (or_expr l r)
  unfolding emit
  or_expr-Or l r left right k ts h stop =
      let dl = or_depth-size l in
      let dr = and_depth-size r in
      rw (add_suc k (or_depth l)) (
        or_step l r (16 * size l) (16 * size r) left.by_or right.by_and
          (omega (arith, dr, size_pos r)) k ts (omega (arith, dl)) (omega (arith, dl)) stop)

  and_expr-And :
      (l r : Expr) → Reads l → Reads r → AndReads (16 * size (and_expr l r) - 8) (and_expr l r)
  unfolding emit
  and_expr-And l r left right k ts h =
      let dl = and_depth-size l in
      rw (add_suc k (and_depth l)) (
        and_step l r (16 * size l) (16 * size r) left.by_and right.by_not k ts (omega (arith, dl))
          (omega (arith, dl)))

  not-equals : (c : Text) (v : Value) (q : Option Text) → NotReads 2 (equals c v q)
  unfolding parse_not parse_primary peek_is peek advance is_token emit
  not-equals c v q zero ts h = absurd (omega arith)
  not-equals c v q (suc zero) ts h = absurd (omega arith)
  not-equals c v none (suc (suc f)) ts h = parse_comparison-emit none c v 2 ts
  not-equals c v (some q) (suc (suc f)) ts h = parse_comparison-emit (some q) c v 2 ts

  not-not : (e : Expr) (bound : ℕ) → NotReads bound e → NotReads (suc bound) (not_expr e)
  unfolding parse_not peek_is peek advance is_token bytes_eq emit
  not-not e bound reads zero ts h = absurd (omega arith)
  not-not e bound reads (suc f) ts h = rw (reads f ts (omega arith)) refl

  -- An expression without a loop of its own
  leaf-Reads :
      (e : Expr) (bound : ℕ)
      → NotReads bound e
      → emit 1 e ≡ emit 2 e
      → emit 0 e ≡ emit 1 e
      → and_depth e ≡ 1
      → or_depth e ≡ 1
      → bound + 3 ≤ 16 * size e
      → Reads e
  leaf-Reads e bound reads same1 same0 leaf1 leaf0 room =
      let a = and-of_not e (bound + 1) (λ f ts h. reads f ts (omega (arith, h))) same1 leaf1 in
      let o =
        or-of_and e (bound + 2) (λ k ts h. a k ts (omega (arith, h))) (omega (arith, leaf1)) same0
          leaf0 in
      record {
        by_not = λ f ts h. reads f ts (omega (arith, h, room));
        by_and = λ k ts h. a k ts (omega (arith, h, room));
        by_or = λ k ts h. o k ts (omega (arith, h, room));
      }

  whole-Reads : (e : Expr) → Reads e
  unfolding emit
  whole-Reads (equals c v q) =
      leaf-Reads (equals c v q) 2 (not-equals c v q) refl refl refl refl (omega arith)
  whole-Reads (not_expr e) =
      leaf-Reads (not_expr e) (16 * size e + 1)
        (λ f ts h. not-not e (16 * size e) ((whole-Reads e).by_not) f ts (omega (arith, h))) refl
        refl refl refl (omega arith)
  whole-Reads (or_expr l r) =
      let e = or_expr l r in
      let n = 16 * size e - 8 in
      let o = or_expr-Or l r (whole-Reads l) (whole-Reads r) in
      let d = or_depth-size e in
      let p = not-parenthesis e n o (omega (arith, d)) in
      let a = and-of_not e (n + 2) (λ f ts h. p f ts (omega (arith, h))) refl refl in
      record {
        by_not = λ f ts h. p f ts (omega (arith, h));
        by_and = λ k ts h. a k ts (omega (arith, h));
        by_or = λ k ts h. o k ts (omega (arith, h));
      }
  whole-Reads (and_expr l r) =
      let e = and_expr l r in
      let n = 16 * size e - 8 in
      let a = and_expr-And l r (whole-Reads l) (whole-Reads r) in
      let d = and_depth-size e in
      let o = or-of_and e n a (omega (arith, d)) refl refl in
      let p = not-parenthesis e (n + 1) (λ k ts h. o k ts (omega (arith, h))) (omega arith) in
      record {
        by_not = λ f ts h. p f ts (omega (arith, h));
        by_and = λ k ts h. a k ts (omega (arith, h));
        by_or = λ k ts h. o k ts (omega (arith, h));
      }

  -- What the printer writes of any expression, the parser reads back as that expression, and it leaves
  -- the tokens behind it, when the first of these is neither AND nor OR; so AND binds tighter than OR, NOT
  -- tighter than both, the loops associate to the left, and the fuel of the model is enough.
  pub parse_expr-emit :
      (e : Expr) (ts : Tokens) → Stops ts → parse_expr iso_of float_of (emit 0 e ++ ts) ≡ ok (e, ts)
  unfolding parse_expr
  parse_expr-emit e ts stop =
      or_whole (16 * size e) e ((whole-Reads e).by_or) (omega (arith, or_depth-size e, size_pos e))
        (16 * length (emit 0 e ++ ts) + 8) ts
        (omega (arith, size-emit 0 e, length-append (emit 0 e) ts)) stop
