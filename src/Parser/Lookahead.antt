-- ===== src/Parser/Lookahead.antt =====
-- Parsers that look at the token at the cursor first: rules for `peek`, `peek_ident` and the tests behind.
use flow_arrow.Prelude.{
  ℕ, suc, ◌<◌, ◌≤◌, Bool, true, false, ◌≡◌, refl, ap, ◌∙◌, Option, [], ◌∷◌, Text, length, arith,
  Ensures, returns, raises, ◌⟫◌, Ensures-weaken, decide_iff, if◌then◌else◌,
}
use flow_arrow.Source.{
  SpannedToken, Token, Token-discrete, ident, eof, string, variable, expected_token,
}
use flow_arrow.Parser.{
  Tokens, Parser, pure, ◌>>=◌, ◌>>◌, peek, error_here, bump, token_eq, ident_of, peek_ident,
  is_keyword, eat, expect, expect_keyword, expect_ident, expect_ident_of, expect_string,
  expect_string_of, expect_variable, expect_variable_of,
}
use flow_arrow.Parser.Ends.{
  is_end, EndsEof, EndsEof-tail, Ends, Consumes, EndsAt, ConsumesAt, Ends-pure, Consumes-error,
  ConsumesAt-EndsAt, Ends-EndsAt, Consumes-ConsumesAt, EndsAt-if, ConsumesAt-if,
}

-- What follows `bump` has a token less to read.
pub EndsAt-bump-next :
    {B : Type 0} {n : ℕ} {t : Token} {q : Unit {0} → Parser B}
    → is_end t ≡ false
    → ((u : Unit {0}) → Ends n (q u))
    → ConsumesAt (suc n) t (bump >>= q)
unfolding ◌>>=◌ bump
EndsAt-bump-next {n} {t} {q} ne k = record {
  at = λ x ts same e l.
      Ensures-weaken (λ r (e', l'). (e', omega arith))
        ((k tt).at ts (EndsEof-tail x ts e (ap is_end same ∙ ne)) (omega arith));
}

pub EndsAt-bump :
    {B : Type 0} {n : ℕ} {t : Token} {q : Unit {0} → Parser B}
    → is_end t ≡ false
    → ((u : Unit {0}) → Ends n (q u))
    → ConsumesAt n t (bump >>= q)
unfolding ◌>>=◌ bump
EndsAt-bump {n} {t} {q} ne k = record {
  at = λ x ts same e l.
      Ensures-weaken (λ r (e', l'). (e', omega arith))
        ((k tt).at ts (EndsEof-tail x ts e (ap is_end same ∙ ne)) (omega arith));
}

pub ConsumesAt-bind :
    {A B : Type 0} {n : ℕ} {t : Token} {p : Parser A} {f : A → Parser B}
    → ConsumesAt n t p
    → ((a : A) → Ends n (f a))
    → ConsumesAt n t (p >>= f)
unfolding ◌>>=◌
ConsumesAt-bind h k = record {
  at = λ x ts same e l. h.at x ts same e l ⟫ λ (a, ts₁) (e₁, l₁).
      Ensures-weaken (λ r (e', l'). (e', omega arith)) ((k a).at ts₁ e₁ (omega arith));
}

module _ {n : ℕ} {B : Type 0} (f : Token → Parser B) where
  peek-Ends :
      ((t : Token) → EndsAt n t (f t))
      → (ts : Tokens) → EndsEof ts
      → length ts ≤ n
      → Ensures (λ r. EndsEof r.1 × (length r.1 ≤ length ts)) ((peek >>= f) ts)
  unfolding ◌>>=◌ peek
  peek-Ends h [] e l = absurd e
  peek-Ends h (x ∷ ts) e l = (h x.token).at x ts refl e l

  pub Ends-peek : ((t : Token) → EndsAt n t (f t)) → Ends n (peek >>= f)
  Ends-peek h = record { at = peek-Ends h }

  peek-Consumes :
      ((t : Token) → ConsumesAt n t (f t))
      → (ts : Tokens) → EndsEof ts
      → length ts ≤ n
      → Ensures (λ r. EndsEof r.1 × (length r.1 < length ts)) ((peek >>= f) ts)
  unfolding ◌>>=◌ peek
  peek-Consumes h [] e l = absurd e
  peek-Consumes h (x ∷ ts) e l = (h x.token).at x ts refl e l

  pub Consumes-peek : ((t : Token) → ConsumesAt n t (f t)) → Consumes n (peek >>= f)
  Consumes-peek h = record { at = peek-Consumes h }

module _ {n : ℕ} {B : Type 0} (f : Option Text → Parser B) where
  peek_ident-Ends :
      ((t : Token) → EndsAt n t (f (ident_of t)))
      → (ts : Tokens) → EndsEof ts
      → length ts ≤ n
      → Ensures (λ r. EndsEof r.1 × (length r.1 ≤ length ts)) ((peek_ident >>= f) ts)
  unfolding ◌>>=◌ peek_ident peek pure
  peek_ident-Ends h [] e l = absurd e
  peek_ident-Ends h (x ∷ ts) e l = (h x.token).at x ts refl e l

  pub Ends-peek_ident : ((t : Token) → EndsAt n t (f (ident_of t))) → Ends n (peek_ident >>= f)
  Ends-peek_ident h = record { at = peek_ident-Ends h }

  peek_ident-Consumes :
      ((t : Token) → ConsumesAt n t (f (ident_of t)))
      → (ts : Tokens) → EndsEof ts
      → length ts ≤ n
      → Ensures (λ r. EndsEof r.1 × (length r.1 < length ts)) ((peek_ident >>= f) ts)
  unfolding ◌>>=◌ peek_ident peek pure
  peek_ident-Consumes h [] e l = absurd e
  peek_ident-Consumes h (x ∷ ts) e l = (h x.token).at x ts refl e l

  pub Consumes-peek_ident :
      ((t : Token) → ConsumesAt n t (f (ident_of t))) → Consumes n (peek_ident >>= f)
  Consumes-peek_ident h = record { at = peek_ident-Consumes h }

-- A keyword is an identifier.
keyword-is_end :
    (keyword : Text) (t : Token) → is_keyword keyword (ident_of t) ≡ true → is_end t ≡ false
unfolding is_keyword
keyword-is_end keyword eof e = cc
keyword-is_end keyword (ident _) e = refl
keyword-is_end keyword _ e = refl

module _ {n : ℕ} {B : Type 0} {t : Token} (keyword : Text) {p : Unit {0} → Parser B}
    {q : Parser B} where
  pub ConsumesAt-keyword :
      ((u : Unit {0}) → Ends n (p u))
      → Consumes n q
      → ConsumesAt n t (if is_keyword keyword (ident_of t) then (bump >>= p) else q)
  ConsumesAt-keyword h k =
      ConsumesAt-if (is_keyword keyword (ident_of t)) (bump >>= p) q
        (λ e. EndsAt-bump (keyword-is_end keyword t e) h) (Consumes-ConsumesAt k)

  pub EndsAt-keyword :
      ((u : Unit {0}) → Ends n (p u))
      → Ends n q
      → EndsAt n t (if is_keyword keyword (ident_of t) then (bump >>= p) else q)
  EndsAt-keyword h k =
      EndsAt-if (is_keyword keyword (ident_of t)) (bump >>= p) q
        (λ e. ConsumesAt-EndsAt (EndsAt-bump (keyword-is_end keyword t e) h)) (Ends-EndsAt k)

token_eq-is_end : (s t : Token) → token_eq s t ≡ true → is_end t ≡ false → is_end s ≡ false
unfolding token_eq
token_eq-is_end s t e n = ap is_end ((decide_iff (Token-discrete s t)).0 e) ∙ n

expect-at :
    (b : Bool) (t : Token) (x : SpannedToken) (ts : Tokens)
    → (b ≡ true → EndsEof ts)
    → Ensures
        (λ r. EndsEof r.1 × (length r.1 < length (x ∷ ts)))
        (((λ ts'. (if b then (bump >> pure true) else pure false) ts') >>= λ eaten.
            if eaten then pure tt else (peek >>= λ token. error_here (expected_token t token)))
          (x ∷ ts))
unfolding ◌>>=◌ bump pure peek error_here
expect-at true t x ts h = returns (h refl, omega arith)
expect-at false t x ts h = raises

expect-Ensures :
    (t : Token) (ts : Tokens)
    → is_end t ≡ false
    → EndsEof ts
    → Ensures (λ r. EndsEof r.1 × (length r.1 < length ts)) (expect t ts)
unfolding expect eat peek ◌>>=◌
expect-Ensures t [] ne e = absurd e
expect-Ensures t (x ∷ ts) ne e =
    unfold ◌>>=◌ in
    expect-at (token_eq x.token t) t x ts
      (λ same. EndsEof-tail x ts e (token_eq-is_end x.token t same ne))

module _ {n : ℕ} where
  bump-ConsumesAt : {t : Token} → is_end t ≡ false → ConsumesAt n t bump
  unfolding bump
  bump-ConsumesAt ne = record {
    at = λ x ts same e l. returns (EndsEof-tail x ts e (ap is_end same ∙ ne), omega arith);
  }

  pub eat-Ends : (t : Token) → is_end t ≡ false → Ends n (eat t)
  unfolding eat
  eat-Ends t ne = Ends-peek _ λ s.
      EndsAt-if _ _ _
        (λ e. ConsumesAt-EndsAt (EndsAt-bump (token_eq-is_end s _ e ne) (λ _. Ends-pure true)))
        (Ends-EndsAt (Ends-pure false))

  pub expect-Consumes : (t : Token) → is_end t ≡ false → Consumes n (expect t)
  expect-Consumes t ne = record { at = λ ts e _. expect-Ensures t ts ne e }

  expect_ident-at : (t : Token) → ConsumesAt n t (expect_ident_of t)
  unfolding expect_ident_of
  expect_ident-at (ident name) = EndsAt-bump refl (λ _. Ends-pure name)
  expect_ident-at t = Consumes-ConsumesAt (Consumes-error _)

  pub expect_ident-Consumes : Consumes n expect_ident
  unfolding expect_ident
  expect_ident-Consumes = Consumes-peek _ expect_ident-at

  expect_string-at : (t : Token) → ConsumesAt n t (expect_string_of t)
  unfolding expect_string_of
  expect_string-at (string value) = EndsAt-bump refl (λ _. Ends-pure value)
  expect_string-at t = Consumes-ConsumesAt (Consumes-error _)

  pub expect_string-Consumes : Consumes n expect_string
  unfolding expect_string
  expect_string-Consumes = Consumes-peek _ expect_string-at

  expect_variable-at : (t : Token) → ConsumesAt n t (expect_variable_of t)
  unfolding expect_variable_of
  expect_variable-at (variable name) = EndsAt-bump refl (λ _. Ends-pure name)
  expect_variable-at (ident name) = Consumes-ConsumesAt (Consumes-error _)
  expect_variable-at t = Consumes-ConsumesAt (Consumes-error _)

  pub expect_variable-Consumes : Consumes n expect_variable
  unfolding expect_variable
  expect_variable-Consumes = Consumes-peek _ expect_variable-at

  pub expect_keyword-Consumes : (keyword : Text) → Consumes n (expect_keyword keyword)
  unfolding expect_keyword
  expect_keyword-Consumes keyword = Consumes-peek _ λ t.
      ConsumesAt-if _ _ _ (λ e. bump-ConsumesAt (keyword-is_end keyword t e))
        (Consumes-ConsumesAt (Consumes-error _))
