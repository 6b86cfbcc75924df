-- ===== src/Tokenizer/Position.antt =====
-- The tokenizer's loop, piece by piece of its text, and the positions that it counts.
use mathlib.Core.Option
use tinydb_cc_comet.Prelude.{
  ℕ, zero, suc, ◌+◌, ◌<◌, ◌≡◌, refl, sym, ap, ap₂, subst, ◌∙◌, Bool, true, ◌||◌, Option, none, some,
  List, [], ◌∷◌, ◌++◌, arith, ◌==◌, length, length-append, Bool-cases, ◌⊎◌, inl, inr,
}
use tinydb_cc_comet.Errors.{Error, Result, ok, err, first-ok}
use tinydb_cc_comet.TypeSystem.{Text, Value}
use tinydb_cc_comet.Tokenizer.{
  Token, eof, Round, advance, advance_all, span, quote, has_code, before, scan_text, is_ident_start,
  is_ident_cont, starts_number, text_round, round, add_token, word, number, tokenize_from, tokenize,
  parse_text_literal, codes,
}

span-append : (test : ℕ → Bool) (cs : Text) → (span test cs).0 ++ (span test cs).1 ≡ cs
unfolding span
span-append test [] = refl
span-append test (c ∷ cs) = elim (Bool-cases (test c)) [
  | inl t ↦ rw t (ap (◌∷◌ c) (span-append test cs))
  | inr f ↦ rw f refl
]

span-starts :
    (test : ℕ → Bool) (c : ℕ) (cs : Text) → test c ≡ true → 0 < length (span test (c ∷ cs)).0
unfolding span
span-starts test c cs t = rw t (omega arith)

before-eq :
    (cs : Text) (o : Option (Text × Text)) (body rest : Text)
    → before cs o ≡ some (body, rest)
    → (inner : Text) × (o ≡ some (inner, rest)) × (cs ++ inner ≡ body)
before-eq cs none body rest h = absurd (ground arith)
before-eq cs (some (inner, r)) body rest h = (inner, ground arith, ground arith)

parts-eq :
    (a b body rest cs : Text)
    → a ++ b ≡ cs
    → ◌≡◌ {A = Option (Text × Text)} (some (a, b)) (some (body, rest))
    → body ++ rest ≡ cs
parts-eq a b body rest cs e h =
    let p : a ≡ body = ground arith in
    let q : b ≡ rest = ground arith in ap₂ (λ (x y : Text). x ++ y) (sym p) (sym q) ∙ e

scan_text-append : (cs body rest : Text) → scan_text cs ≡ some (body, rest) → body ++ rest ≡ cs
unfolding scan_text
scan_text-append [] body rest h = absurd (ground arith)
scan_text-append (c ∷ []) body rest h = elim (Bool-cases (c == quote)) [
  | inl t ↦ parts-eq (c ∷ []) [] body rest (c ∷ []) refl (rw t at h)
  | inr f ↦ absurd (ground arith)
]
scan_text-append (c ∷ d ∷ cs) body rest h = elim (Bool-cases (c == quote)) [
  | inr f ↦
      let (inner, e, w) = before-eq (c ∷ []) (scan_text (d ∷ cs)) body rest (rw f at h) in
      ap (λ (b : Text). b ++ rest) (sym w) ∙ ap (◌∷◌ c) (scan_text-append (d ∷ cs) inner rest e)
  | inl t ↦ elim (Bool-cases (d == quote)) [
    | inl t' ↦
        let (inner, e, w) = before-eq (c ∷ d ∷ []) (scan_text cs) body rest (rw (t, t') at h) in
        ap (λ (b : Text). b ++ rest) (sym w)
        ∙ ap (λ (x : Text). c ∷ d ∷ x) (scan_text-append cs inner rest e)
    | inr f' ↦ parts-eq (c ∷ []) (d ∷ cs) body rest (c ∷ d ∷ cs) refl (rw (t, f') at h)
  ]
]

-- What a round consumes begins the text, and is not empty.
abbrev Consumes : Text → Round → Type 0
Consumes cs r = (r.used ++ r.rest ≡ cs) × (0 < length r.used)

Consumes-ok :
    (cs : Text) (r r' : Round)
    → ◌≡◌ {A = Result Round} (ok r) (ok r')
    → Consumes cs r
    → Consumes cs r'
Consumes-ok cs r r' e c = let q : r ≡ r' = ground arith in subst (Consumes cs) q c

text_round-Consumes :
    (c : ℕ) (cs : Text) (o : Option (Text × Text)) (line col : ℕ) (r : Round)
    → ((body rest : Text) → o ≡ some (body, rest) → body ++ rest ≡ cs)
    → text_round (c ∷ []) o line col ≡ ok r
    → Consumes (c ∷ cs) r
unfolding text_round
text_round-Consumes c cs none line col r k h = absurd (ground arith)
text_round-Consumes c cs (some (body, rest)) line col r k h =
    let (s, e, w) = first-ok (parse_text_literal (c ∷ body)) _ h in
    Consumes-ok (c ∷ cs) _ r w (ap (◌∷◌ c) (k body rest refl), omega arith)

Result-cases : (o : Result Round) → ((x : Error) × (o ≡ err x)) ⊎ ((r : Round) × (o ≡ ok r))
Result-cases (err x) = inl (x, refl)
Result-cases (ok r) = inr (r, refl)

abbrev pub last_token : List Token → Option Token
last_token [] = none
last_token (t ∷ []) = some t
last_token (t ∷ u ∷ ts) = last_token (u ∷ ts)

last_token-cons :
    (t e : Token) (ts : List Token) → last_token ts ≡ some e → last_token (t ∷ ts) ≡ some e
last_token-cons t e [] h = absurd (ground arith)
last_token-cons t e (u ∷ ts) h = h

-- A successful round that adds a token or none keeps the last one.
added-ok :
    (o : Option Token) (m : Option (Result (List Token))) (ts : List Token)
    → Option.map (add_token o) m ≡ some (ok ts)
    → (ts' : List Token) × (m ≡ some (ok ts'))
      × ((e : Token) → last_token ts' ≡ some e → last_token ts ≡ some e)
added-ok none none ts h = absurd (ground arith)
added-ok (some t) none ts h = absurd (ground arith)
added-ok none (some (err x)) ts h = absurd (ground arith)
added-ok (some t) (some (err x)) ts h = absurd (ground arith)
added-ok none (some (ok ts')) ts h =
    let q : ts' ≡ ts = ground arith in (ts', refl, λ e l. ap last_token (sym q) ∙ l)
added-ok (some t) (some (ok ts')) ts h =
    let q : ◌≡◌ {A = List Token} (t ∷ ts') ts = ground arith in
    (ts', refl, λ e l. ap last_token (sym q) ∙ last_token-cons t e ts' l)

advance_all-append :
    (at : ℕ × ℕ) (xs ys : Text) → advance_all at (xs ++ ys) ≡ advance_all (advance_all at xs) ys
unfolding advance_all
advance_all-append at [] ys = refl
advance_all-append at (x ∷ xs) ys = advance_all-append (advance at x) xs ys

abbrev pub eof_at : ℕ × ℕ → Token
eof_at at = record { kind = eof; value = none; line = at.0; col = at.1 }

module _ (is_alpha is_alnum is_digit : ℕ → Bool) (upper : Text → Text)
    (int_of float_of : Text → Option Value) (is_finite : Value → Bool)
    (alpha_alnum : (c : ℕ) → is_alpha c ≡ true → is_alnum c ≡ true) where
  abbrev go : ℕ → Text → ℕ → ℕ → Result Round
  go = round is_alpha is_alnum is_digit upper int_of float_of is_finite

  abbrev run : ℕ → Text → ℕ × ℕ → Option (Result (List Token))
  run = tokenize_from is_alpha is_alnum is_digit upper int_of float_of is_finite

  start_cont :
      (c : ℕ)
      → is_ident_start is_alpha is_alnum is_digit upper int_of float_of is_finite c ≡ true
      → is_ident_cont is_alpha is_alnum is_digit upper int_of float_of is_finite c ≡ true
  unfolding is_ident_start is_ident_cont
  start_cont c h = elim (Bool-cases (is_alpha c)) [
    | inl t ↦ rw (alpha_alnum c t) refl
    | inr f ↦ ground arith
  ]

  round-Consumes :
      (c : ℕ) (cs : Text) (line col : ℕ) (r : Round) → go c cs line col ≡ ok r → Consumes (c ∷ cs) r
  unfolding round
  round-Consumes c cs line col r h =
      elim (Bool-cases (has_code (b' ' ∷ b'\t' ∷ b'\r' ∷ b'\n' ∷ []) c)) [
        | inl t ↦ Consumes-ok (c ∷ cs) _ r (rw t at h) (refl, omega arith)
        | inr f₁ ↦
            elim (Bool-cases
              (is_ident_start is_alpha is_alnum is_digit upper int_of float_of is_finite c)) [
                | inl t ↦
                    let test =
                      is_ident_cont is_alpha is_alnum is_digit upper int_of float_of is_finite in
                    let (k, e, w) =
                      first-ok
                        (word is_alpha is_alnum is_digit upper int_of float_of is_finite
                          (span test (c ∷ cs)).0 line col)
                        _ (rw (f₁, t) at h) in
                    Consumes-ok (c ∷ cs) _ r w
                      (span-append test (c ∷ cs), span-starts test c cs (start_cont c t))
                | inr f₂ ↦
                    elim (Bool-cases (
                      starts_number is_alpha is_alnum is_digit upper int_of float_of is_finite c
                        cs)) [
                          | inl t ↦
                              let test : ℕ → Bool = λ d. is_digit d || d == b'.' in
                              let (k, e, w) =
                                first-ok
                                  (number is_alpha is_alnum is_digit upper int_of float_of is_finite
                                    (c ∷ (span test cs).0) line col)
                                  _ (rw (f₁, f₂, t) at h) in
                              Consumes-ok (c ∷ cs) _ r w
                                (ap (◌∷◌ c) (span-append test cs), omega arith)
                          | inr f₃ ↦ elim (Bool-cases (c == quote)) [
                            | inl t ↦
                                text_round-Consumes c cs (scan_text cs) line col r
                                  (scan_text-append cs) (rw (f₁, f₂, f₃, t) at h)
                            | inr f₄ ↦ elim (Bool-cases (has_code (codes "(),;=*<>!.") c)) [
                              | inl t ↦
                                  Consumes-ok (c ∷ cs) _ r (rw (f₁, f₂, f₃, f₄, t) at h)
                                    (refl, omega arith)
                              | inr f₅ ↦
                                  absurd (let e = rw (f₁, f₂, f₃, f₄, f₅) at h in ground arith)
                            ]
                          ]
                        ]
              ]
      ]

  step-err :
      (fuel c : ℕ) (cs : Text) (at : ℕ × ℕ) (x : Error)
      → go c cs at.0 at.1 ≡ err x
      → run (suc fuel) (c ∷ cs) at ≡ some (err x)
  unfolding tokenize_from
  step-err fuel c cs at x h = rw (h, tokenize_from)

  step-ok :
      (fuel c : ℕ) (cs : Text) (at : ℕ × ℕ) (r : Round)
      → go c cs at.0 at.1 ≡ ok r
      → run (suc fuel) (c ∷ cs) at
        ≡ Option.map (add_token r.token) (run fuel r.rest (advance_all at r.used))
  unfolding tokenize_from
  step-ok fuel c cs at r h = rw (h, tokenize_from)

  shorter : (cs : Text) (r : Round) → Consumes cs r → length r.rest < length cs
  shorter cs r (e, pos) = omega (arith, length-append r.used r.rest, ap length e)

  tokenize_from-total :
      (fuel : ℕ) (cs : Text) (at : ℕ × ℕ)
      → length cs < fuel
      → (r : Result (List Token)) × (run fuel cs at ≡ some r)
  tokenize_from-total zero cs at h = absurd (omega arith)
  tokenize_from-total (suc fuel) [] at h = (ok (eof_at at ∷ []), unfold tokenize_from in refl)
  tokenize_from-total (suc fuel) (c ∷ cs) at h = elim (Result-cases (go c cs at.0 at.1)) [
    | inl (x, e) ↦ (err x, step-err fuel c cs at x e)
    | inr (r, e) ↦
        let less = shorter (c ∷ cs) r (round-Consumes c cs at.0 at.1 r e) in
        let (out, q) =
          tokenize_from-total fuel r.rest (advance_all at r.used) (omega (arith, less)) in
        (add_token r.token out, step-ok fuel c cs at r e ∙ ap (Option.map (add_token r.token)) q)
  ]

  -- Where letters are alphanumeric, `tokenize` ends on every text within its fuel.
  pub tokenize_total :
      (sql : Text)
      → (r : Result (List Token)) × (tokenize is_alpha is_alnum is_digit upper int_of float_of
            is_finite sql
          ≡ some r)
  unfolding tokenize
  tokenize_total sql = tokenize_from-total (length sql + 1) sql (1, 1) (omega arith)

  tokenize_from-eof :
      (fuel : ℕ) (cs : Text) (at : ℕ × ℕ) (ts : List Token)
      → run fuel cs at ≡ some (ok ts)
      → last_token ts ≡ some (eof_at (advance_all at cs))
  tokenize_from-eof zero cs at ts h = absurd (unfold tokenize_from in ground arith)
  tokenize_from-eof (suc fuel) [] at ts h =
      let e : ◌≡◌ {A = List Token} (eof_at at ∷ []) ts = unfold tokenize_from in ground arith in
      ap last_token (sym e) ∙ (unfold advance_all in refl)
  tokenize_from-eof (suc fuel) (c ∷ cs) at ts h = elim (Result-cases (go c cs at.0 at.1)) [
    | inl (x, e) ↦ absurd (let q = sym (step-err fuel c cs at x e) ∙ h in ground arith)
    | inr (r, e) ↦
        let (ts', q, w) =
          added-ok r.token (run fuel r.rest (advance_all at r.used)) ts
            (sym (step-ok fuel c cs at r e) ∙ h) in
        let whole = round-Consumes c cs at.0 at.1 r e in
        w (eof_at (advance_all at (c ∷ cs))) (
          tokenize_from-eof fuel r.rest (advance_all at r.used) ts' q
          ∙ ap (λ (p : ℕ × ℕ). some (eof_at p))
              (sym (advance_all-append at r.used r.rest) ∙ ap (advance_all at) whole.0))
  ]

  -- Where letters are alphanumeric, the last token of a text that is accepted is the end, and its line
  -- and column are those behind the whole text.
  pub tokenize-eof :
      (sql : Text) (ts : List Token)
      → tokenize is_alpha is_alnum is_digit upper int_of float_of is_finite sql ≡ some (ok ts)
      → last_token ts ≡ some (eof_at (advance_all (1, 1) sql))
  unfolding tokenize
  tokenize-eof sql ts h = tokenize_from-eof (length sql + 1) sql (1, 1) ts h
