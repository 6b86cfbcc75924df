-- ===== src/Parser/Printer.antt =====
-- A reference printer for the expressions of parser.py, which writes the fewest parentheses: the
-- independent description of the grammar that the parser's theorems are about.
use Prim.Native.String.{String}
use tinydb_cc_comet.Prelude.{
  ℕ, suc, ◌+◌, ◌≤◌, Bool, true, false, Option, none, some, [], ◌∷◌, ◌++◌, ltb, length,
  length-append, arith,
}
use tinydb_cc_comet.TypeSystem.{Text, Value, int, bool, str}
use tinydb_cc_comet.Tokenizer.{
  Token, TokenType, keyword, ident, int_literal, float_literal, text_literal, bool_literal, punct,
  codes,
}
use tinydb_cc_comet.Parser.{Tokens, Expr, equals, and_expr, or_expr, not_expr}

-- A printed token stands nowhere in a text.
abbrev pub printed : TokenType → Text → Token
printed k text = record { kind = k; value = some (str text); line = 0; col = 0 }

abbrev pub symbol : TokenType → String → Token
symbol kind text = printed kind (codes text)

abbrev pub literal : Value → Token
literal v = record {
  kind = elim v [
    | int _ ↦ int_literal
    | bool _ ↦ bool_literal
    | str _ ↦ text_literal
    | _ ↦ float_literal
  ];
  value = some v;
  line = 0;
  col = 0;
}

abbrev pub emit_column : Option Text → Text → Tokens
emit_column none name = printed ident name ∷ []
emit_column (some q) name = printed ident q ∷ symbol punct "." ∷ printed ident name ∷ []

abbrev pub wrap : Bool → Tokens → Tokens
wrap false ts = ts
wrap true ts = symbol punct "(" ∷ (ts ++ (symbol punct ")" ∷ []))

-- Level 0 may be a disjunction, level 1 a conjunction, and level 2 neither; else it takes parentheses.
unfoldable pub emit : ℕ → Expr → Tokens
emit n (equals column value qualifier) =
    emit_column qualifier column ++ (symbol punct "=" ∷ literal value ∷ [])
emit n (or_expr l r) = wrap (ltb 0 n) (emit 0 l ++ (symbol keyword "OR" ∷ emit 1 r))
emit n (and_expr l r) = wrap (ltb 1 n) (emit 1 l ++ (symbol keyword "AND" ∷ emit 2 r))
emit n (not_expr e) = symbol keyword "NOT" ∷ emit 2 e

-- Without `=` signs: the number of nodes
abbrev pub size : Expr → ℕ
size (equals _ _ _) = 1
size (or_expr l r) = suc (size l + size r)
size (and_expr l r) = suc (size l + size r)
size (not_expr e) = suc (size e)

length-wrap : (b : Bool) (ts : Tokens) → length ts ≤ length (wrap b ts)
length-wrap false ts = omega arith
length-wrap true ts = omega (arith, length-append ts (symbol punct ")" ∷ []))

pub size-emit : (n : ℕ) (e : Expr) → size e ≤ length (emit n e)
unfolding emit
size-emit n (equals column value none) = omega arith
size-emit n (equals column value (some q)) = omega arith
size-emit n (or_expr l r) = omega (
  arith,
  length-wrap (ltb 0 n) (emit 0 l ++ (symbol keyword "OR" ∷ emit 1 r)),
  length-append (emit 0 l) (symbol keyword "OR" ∷ emit 1 r),
  size-emit 0 l,
  size-emit 1 r,
)
size-emit n (and_expr l r) = omega (
  arith,
  length-wrap (ltb 1 n) (emit 1 l ++ (symbol keyword "AND" ∷ emit 2 r)),
  length-append (emit 1 l) (symbol keyword "AND" ∷ emit 2 r),
  size-emit 1 l,
  size-emit 2 r,
)
size-emit n (not_expr e) = omega (arith, size-emit 2 e)
