-- ===== src/Tokenizer.antt =====
-- src/tinydb/tokenizer.py, with `parse_text_literal` of type_system.py. A text is the list of its code
-- points. The character classes, `upper` and Python's `int` and `float` are parameters.
pub mod Position
pub mod Tests
use Prim.Native.String.{String, [] as nil, ◌∷◌ as cons}
use Prim.Native.Char.{code}
use mathlib.Core.Option
use tinydb_cc_comet.Prelude.{
  ℕ, zero, suc, ◌+◌, ◌-◌, Bool, true, false, not, ◌&&◌, ◌||◌, Option, none, some, List, [], ◌∷◌,
  ◌++◌, ltb, ◌==◌, if◌then◌else◌, length,
}
use tinydb_cc_comet.Errors.{Error, Result, ok, err, ◌>>=◌, value_error, token_error}
use tinydb_cc_comet.Bytes.{bytes_eq}
use tinydb_cc_comet.TypeSystem.{Text, Value, bool, str}

abbrev pub codes : String → Text
codes nil = []
codes (cons c s) = code c ∷ codes s

abbrev pub keywords : List String
keywords =
    "CREATE" ∷ "TABLE" ∷ "DROP" ∷ "INSERT" ∷ "INTO" ∷ "VALUES" ∷ "SELECT" ∷ "FROM" ∷ "WHERE"
    ∷ "DELETE" ∷ "INT" ∷ "TEXT" ∷ "FLOAT" ∷ "BOOL" ∷ "NOT" ∷ "NULL" ∷ "PRIMARY" ∷ "KEY" ∷ "UNIQUE"
    ∷ "UPDATE" ∷ "SET" ∷ "AND" ∷ "OR" ∷ "ORDER" ∷ "BY" ∷ "ASC" ∷ "DESC" ∷ "LIMIT" ∷ "OFFSET"
    ∷ "DATE" ∷ "TIME" ∷ "TIMESTAMP" ∷ "DECIMAL" ∷ "BEGIN" ∷ "COMMIT" ∷ "ROLLBACK" ∷ "COUNT" ∷ "SUM"
    ∷ "AVG" ∷ "MIN" ∷ "MAX" ∷ "GROUP" ∷ "HAVING" ∷ "JOIN" ∷ "INNER" ∷ "LEFT" ∷ "RIGHT" ∷ "FULL"
    ∷ "OUTER" ∷ "CROSS" ∷ "ON" ∷ "USING" ∷ "NATURAL" ∷ "AS" ∷ []

pub data TokenType : Type 0 where
  keyword ident int_literal float_literal text_literal bool_literal punct eof : TokenType

pub record Token : Type 0 where
  pub kind : TokenType
  pub value : Option Value
  pub line : ℕ
  pub col : ℕ

-- One round of the loop: the token, if it gives one, what it consumes, and what is left.
pub record Round : Type 0 where
  pub token : Option Token
  pub used : Text
  pub rest : Text

unfoldable pub is_one_of : List String → Text → Bool
is_one_of [] t = false
is_one_of (s ∷ names) t = bytes_eq (codes s) t || is_one_of names t

unfoldable pub has_code : Text → ℕ → Bool
has_code [] c = false
has_code (d ∷ ds) c = c == d || has_code ds c

-- `_advance`, on the line and the column
unfoldable pub advance : ℕ × ℕ → ℕ → ℕ × ℕ
advance (line, col) c = if c == b'\n' then (line + 1, 1) else (line, col + 1)

unfoldable pub advance_all : ℕ × ℕ → Text → ℕ × ℕ
advance_all at [] = at
advance_all at (c ∷ cs) = advance_all (advance at c) cs

-- The characters up to the first that fails the test, and the rest
unfoldable pub span : (ℕ → Bool) → Text → Text × Text
span test [] = ([], [])
span test (c ∷ cs) = let r = span test cs in if test c then (c ∷ r.0, r.1) else ([], c ∷ cs)

abbrev pub quote : ℕ
quote = b'\''

abbrev pub before : Text → Option (Text × Text) → Option (Text × Text)
before cs none = none
before cs (some (body, rest)) = some (cs ++ body, rest)

-- From behind the opening quote: through the closing one, and the rest; `none` if there is none.
unfoldable pub scan_text : Text → Option (Text × Text)
scan_text [] = none
scan_text (c ∷ []) = if c == quote then some (c ∷ [], []) else none
scan_text (c ∷ d ∷ cs) =
    let doubled = scan_text cs in
    let plain = scan_text (d ∷ cs) in
    if c == quote
    then (if d == quote then before (c ∷ d ∷ []) doubled else some (c ∷ [], d ∷ cs))
    else before (c ∷ []) plain

-- .replace("''", "'")
unfoldable pub undouble : Text → Text
undouble [] = []
undouble (c ∷ []) = c ∷ []
undouble (c ∷ d ∷ cs) =
    let next = undouble cs in
    let plain = undouble (d ∷ cs) in if c == quote && d == quote then quote ∷ next else c ∷ plain

-- `s[1:-1]` and `s[-1]` of a text behind its first character: all but the last, and the last
unfoldable pub unsnoc : ℕ → Text → Text × ℕ
unsnoc c [] = ([], c)
unsnoc c (d ∷ cs) = let r = unsnoc d cs in (c ∷ r.0, r.1)

unfoldable pub parse_text_literal : Text → Result Text
parse_text_literal [] = err value_error
parse_text_literal (c ∷ []) = err value_error
parse_text_literal (c ∷ d ∷ cs) =
    let r = unsnoc d cs in if c == quote && r.1 == quote then ok (undouble r.0) else err value_error

unfoldable pub literal : TokenType → Option Value → ℕ → ℕ → Result Token
literal kind none line col = err (token_error line col)
literal kind (some v) line col = ok (record { kind = kind; value = some v; line = line; col = col })

abbrev pub emit : Text → Text → Token → Round
emit used rest t = record { token = some t; used = used; rest = rest }

unfoldable pub text_round : Text → Option (Text × Text) → ℕ → ℕ → Result Round
text_round opening none line col = err (token_error line col)
text_round opening (some (body, rest)) line col = do
  s ← parse_text_literal (opening ++ body)
  ok (
      emit (opening ++ body) rest
        (record { kind = text_literal; value = some (str s); line = line; col = col }))

abbrev pub add_token : Option Token → Result (List Token) → Result (List Token)
add_token none r = r
add_token (some t) r = r >>= λ ts. ok (t ∷ ts)

module _ (is_alpha is_alnum is_digit : ℕ → Bool) (upper : Text → Text)
    (int_of float_of : Text → Option Value) (is_finite : Value → Bool) where
  unfoldable pub is_ident_start : ℕ → Bool
  is_ident_start c = is_alpha c || c == b'_'

  unfoldable pub is_ident_cont : ℕ → Bool
  is_ident_cont c = is_alnum c || c == b'_'

  -- `parse_float_literal`; `none` is its ValueError.
  unfoldable pub parse_float_literal : Text → Option Value
  parse_float_literal s = elim (float_of s) [
    | none ↦ none
    | some v ↦ if is_finite v then some v else none
  ]

  -- A word: a special float, a Boolean, a keyword or an identifier
  unfoldable pub word : Text → ℕ → ℕ → Result Token
  word s line col =
      let up = upper s in
      if is_one_of ("NAN" ∷ "INF" ∷ "INFINITY" ∷ []) up
      then literal float_literal (parse_float_literal s) line col
      else if bytes_eq (codes "TRUE") up
      then ok (record { kind = bool_literal; value = some (bool true); line = line; col = col })
      else if bytes_eq (codes "FALSE") up
      then ok (record { kind = bool_literal; value = some (bool false); line = line; col = col })
      else if is_one_of keywords up
      then ok (record { kind = keyword; value = some (str up); line = line; col = col })
      else ok (record { kind = ident; value = some (str s); line = line; col = col })

  unfoldable pub number : Text → ℕ → ℕ → Result Token
  number s line col =
      if has_code s b'.'
      then literal float_literal (parse_float_literal s) line col
      else literal int_literal (int_of s) line col

  -- c.isdigit() or (c == "-" and … sql[i + 1].isdigit())
  unfoldable pub starts_number : ℕ → Text → Bool
  starts_number c [] = is_digit c
  starts_number c (d ∷ cs) = is_digit c || (c == b'-' && is_digit d)

  -- One round, on the character `c` and the text `cs` behind it
  unfoldable pub round : ℕ → Text → ℕ → ℕ → Result Round
  round c cs line col =
      let ident_rest = span is_ident_cont (c ∷ cs) in
      let number_rest = span (λ d. is_digit d || d == b'.') cs in
      if has_code (b' ' ∷ b'\t' ∷ b'\r' ∷ b'\n' ∷ []) c
      then ok (record { token = none; used = c ∷ []; rest = cs })
      else if is_ident_start c
      then (word ident_rest.0 line col >>= λ t. ok (emit ident_rest.0 ident_rest.1 t))
      else if starts_number c cs
      then (number (c ∷ number_rest.0) line col >>= λ t.
          ok (emit (c ∷ number_rest.0) number_rest.1 t))
      else if c == quote
      then text_round (c ∷ []) (scan_text cs) line col
      else if has_code (codes "(),;=*<>!.") c
      then ok (
          emit (c ∷ []) cs
            (record { kind = punct; value = some (str (c ∷ [])); line = line; col = col }))
      else err (token_error line col)

  -- The loop, with fuel; `none` means that the fuel ran out.
  unfoldable pub tokenize_from : ℕ → Text → ℕ × ℕ → Option (Result (List Token))
  tokenize_from zero cs at = none
  tokenize_from (suc fuel) [] at =
      some (ok (record { kind = eof; value = none; line = at.0; col = at.1 } ∷ []))
  tokenize_from (suc fuel) (c ∷ cs) at = elim (round c cs at.0 at.1) [
    | err x ↦ some (err x)
    | ok r ↦ Option.map (add_token r.token) (tokenize_from fuel r.rest (advance_all at r.used))
  ]

  -- Each round consumes a character or more, so a round for each is enough, and one for the end.
  unfoldable pub tokenize : Text → Option (Result (List Token))
  tokenize sql = tokenize_from (length sql + 1) sql (1, 1)
