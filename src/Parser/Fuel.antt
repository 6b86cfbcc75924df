-- ===== src/Parser/Fuel.antt =====
-- The tokens that a reader of parser.py leaves, as the measure of its recursion.
use tinydb_cc_comet.Prelude.{
  ℕ, suc, ◌≤◌, ◌<◌, ◌≡◌, ◌≢◌, refl, Bool, true, false, not, [], ◌∷◌, ltb, length, arith, Bool-cases,
  inl, inr, lt→ltb, ltb→lt, if◌then◌else◌,
}
use tinydb_cc_comet.Errors.{Error, Result, ok, err, ◌>>=◌, out_of_fuel}
use Prim.Native.String.{String}
use tinydb_cc_comet.Tokenizer.{TokenType, Token, keyword, punct, codes, eof}
use tinydb_cc_comet.Parser.{
  Tokens, peek_is, peek, advance, at_end, expect, expect_ident, expect_keyword, is_token, is_kind,
  refuse, parse_column_ref,
}

abbrev pub ran_out : Error → Bool
ran_out out_of_fuel = true
ran_out _ = false

-- A reader that had enough fuel leaves fewer than `n` tokens when it returns.
unfoldable pub fueled {ℓ} : {A : Type ℓ} → ℕ → Result (A × Tokens) → Bool
fueled n (ok r) = ltb (length r.1) n
fueled n (err e) = not (ran_out e)

module _ {ℓ} {A : Type ℓ} where
  pub fueled_le :
      (n m : ℕ) (r : Result (A × Tokens)) → n ≤ m → fueled n r ≡ true → fueled m r ≡ true
  unfolding fueled
  fueled_le n m (ok (a, ts)) le h = lt→ltb (length ts) m (omega (arith, ltb→lt (length ts) n h))
  fueled_le n m (err e) le h = h

  pub fueled-enough : (n : ℕ) (r : Result (A × Tokens)) → fueled n r ≡ true → r ≢ err out_of_fuel
  unfolding fueled
  fueled-enough n r h e = absurd (let b = rw e at h in cc)

module _ {ℓ κ} {A : Type ℓ} {B : Type κ} where
  pub fueled-bind :
      (n m : ℕ) (r : Result (A × Tokens)) (next : A × Tokens → Result (B × Tokens))
      → fueled n r ≡ true
      → ((a : A) (ts : Tokens) → length ts < n → fueled m (next (a, ts)) ≡ true)
      → fueled m (r >>= next) ≡ true
  unfolding fueled
  fueled-bind n m (ok (a, ts)) next h k = k a ts (ltb→lt (length ts) n h)
  fueled-bind n m (err e) next h k = h

pub advance-fueled : (ts : Tokens) → fueled (length ts) (advance ts) ≡ true
unfolding advance fueled
advance-fueled [] = refl
advance-fueled (t ∷ ts) = lt→ltb (length ts) (suc (length ts)) (omega arith)

pub expect_ident-fueled : (ts : Tokens) → fueled (length ts) (expect_ident ts) ≡ true
unfolding expect_ident peek fueled
expect_ident-fueled [] = refl
expect_ident-fueled (t ∷ ts) = ground (arith, advance-fueled (t ∷ ts))

pub expect-fueled :
    (kind : TokenType) (text : String) (ts : Tokens)
    → fueled (length ts) (expect kind text ts) ≡ true
unfolding expect peek fueled
expect-fueled kind text [] = refl
expect-fueled kind text (t ∷ ts) = ground (arith, advance-fueled (t ∷ ts))

pub peek_is-fueled {ℓ} :
    {B : Type ℓ} (m : ℕ) (kind : TokenType) (text : String) (ts : Tokens)
    (next : Bool → Result (B × Tokens))
    → fueled m (next true) ≡ true
    → fueled m (next false) ≡ true
    → fueled m (peek_is kind text ts >>= next) ≡ true
unfolding peek_is peek fueled
peek_is-fueled m kind text [] next taken other = refl
peek_is-fueled m kind text (t ∷ ts) next taken other =
    elim (Bool-cases (is_token kind (codes text) t)) [ inl e ↦ rw e taken | inr e ↦ rw e other ]

pub ok-fueled {ℓ} :
    {A : Type ℓ} (a : A) (ts : Tokens) (m : ℕ) → length ts < m → fueled m (ok (a, ts)) ≡ true
unfolding fueled
ok-fueled a ts m h = lt→ltb (length ts) m h

pub peek-fueled {ℓ} :
    {B : Type ℓ} (m : ℕ) (ts : Tokens) (next : Token → Result (B × Tokens))
    → ((t : Token) → fueled m (next t) ≡ true)
    → fueled m (peek ts >>= next) ≡ true
unfolding peek fueled
peek-fueled m [] next k = refl
peek-fueled m (t ∷ ts) next k = k t

pub at_end-fueled {ℓ} :
    {B : Type ℓ} (m : ℕ) (ts : Tokens) (next : Bool → Result (B × Tokens))
    → ((b : Bool) → fueled m (next b) ≡ true)
    → fueled m (at_end ts >>= next) ≡ true
unfolding at_end peek fueled
at_end-fueled m [] next k = refl
at_end-fueled m (t ∷ ts) next k = k (is_kind eof t)

-- Two ways to go on
pub if-fueled {ℓ} :
    {A : Type ℓ} (b : Bool) (r s : Result (A × Tokens)) (m : ℕ)
    → fueled m r ≡ true
    → fueled m s ≡ true
    → fueled m (if b then r else s) ≡ true
if-fueled true r s m h k = h
if-fueled false r s m h k = k

pub refuse-fueled {ℓ} : (A : Type ℓ) (t : Token) (m : ℕ) → fueled {A = A} m (refuse t) ≡ true
unfolding fueled
refuse-fueled A t m = refl

pub expect_keyword-fueled :
    (kw : String) (ts : Tokens) → fueled (length ts) (expect_keyword kw ts) ≡ true
unfolding expect_keyword
expect_keyword-fueled kw ts = expect-fueled keyword kw ts

pub parse_column_ref-fueled : (ts : Tokens) → fueled (length ts) (parse_column_ref ts) ≡ true
unfolding parse_column_ref
parse_column_ref-fueled ts =
    fueled-bind (length ts) (length ts) (expect_ident ts) _ (expect_ident-fueled ts) λ t after less.
      peek_is-fueled (length ts) punct "." after _
        (fueled-bind (length after) (length ts) (advance after) _ (advance-fueled after)
          λ dot behind less2.
            fueled-bind (length behind) (length ts) (expect_ident behind) _
              (expect_ident-fueled behind)
              λ n rest less3. ok-fueled _ rest (length ts) (omega arith))
        (ok-fueled _ after (length ts) less)

-- A test that refuses a token when it fails
pub guard-fueled {ℓ} :
    {A : Type ℓ} (b : Bool) (r : Result (A × Tokens)) (t : Token) (m : ℕ)
    → fueled m r ≡ true
    → fueled m (if b then r else refuse t) ≡ true
unfolding fueled
guard-fueled true r t m h = h
guard-fueled false r t m h = refl
