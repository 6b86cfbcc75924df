-- ===== src/Tokenizer/Tests.antt =====
-- The tokenizer's theorems at a statement of two lines, with ASCII character classes.
use tinydb_cc_comet.Prelude.{
  ℕ, ◌≡◌, refl, Bool, true, ◌&&◌, ◌||◌, Option, none, some, List, [], ◌∷◌, leb,
}
use tinydb_cc_comet.Errors.{Result, ok}
use tinydb_cc_comet.Bytes.{bytes_eq}
use tinydb_cc_comet.TypeSystem.{Text, Value, str, int}
use tinydb_cc_comet.Prelude.Int.{pos}
use tinydb_cc_comet.Tokenizer.{
  Token, keyword, ident, punct, eof, codes, tokenize, tokenize_from, round, has_code,
  is_ident_start, word, is_one_of, span, is_ident_cont, starts_number, advance_all, advance,
}
use tinydb_cc_comet.Tokenizer.Position.{last_token, eof_at, tokenize_total, tokenize-eof}

abbrev is_letter : ℕ → Bool
is_letter c = (leb b'A' c && leb c b'Z') || (leb b'a' c && leb c b'z')

abbrev is_digit : ℕ → Bool
is_digit c = leb b'0' c && leb c b'9'

abbrev is_alnum : ℕ → Bool
is_alnum c = is_letter c || is_digit c

letter_alnum : (c : ℕ) → is_letter c ≡ true → is_alnum c ≡ true
letter_alnum c h = rw h refl

-- Upper case is left as it is, and every number reads as zero.
abbrev same_case : Text → Text
same_case s = s

abbrev zero_of : Text → Option Value
zero_of s = some (int (pos 0))

abbrev all_finite : Value → Bool
all_finite v = true

abbrev statement : Text
statement = codes "DROP TABLE\n t;"

abbrev statement_tokens : List Token
statement_tokens =
    record { kind = keyword; value = some (str (codes "DROP")); line = 1; col = 1 }
    ∷ record { kind = keyword; value = some (str (codes "TABLE")); line = 1; col = 6 }
    ∷ record { kind = ident; value = some (str (codes "t")); line = 2; col = 2 }
    ∷ record { kind = punct; value = some (str (codes ";")); line = 2; col = 3 }
    ∷ record { kind = eof; value = none; line = 2; col = 4 }
    ∷ []

tokenize_total_example :
    (r : Result (List Token)) × (tokenize is_letter is_alnum is_digit same_case zero_of zero_of
        all_finite statement
      ≡ some r)
tokenize_total_example =
    tokenize_total is_letter is_alnum is_digit same_case zero_of zero_of all_finite letter_alnum
      statement

tokenize-statement :
    tokenize is_letter is_alnum is_digit same_case zero_of zero_of all_finite statement
    ≡ some (ok statement_tokens)
unfolding tokenize tokenize_from round has_code is_ident_start word is_one_of bytes_eq span
    is_ident_cont starts_number advance_all advance
tokenize-statement = refl

tokenize-eof_example : last_token statement_tokens ≡ some (eof_at (advance_all (1, 1) statement))
tokenize-eof_example =
    tokenize-eof is_letter is_alnum is_digit same_case zero_of zero_of all_finite letter_alnum
      statement statement_tokens tokenize-statement
