-- ===== src/Parser/Ends.antt =====
-- Runs of parsers on tokens that end with `eof`: rules for each way to build a parser.
use flow_arrow.Prelude.{
  ℕ, suc, ◌<◌, ◌≤◌, Bool, true, false, ◌≡◌, refl, [], ◌∷◌, length, arith, Ensures, returns, raises,
  ◌⟫◌, Ensures-weaken, if◌then◌else◌,
}
use flow_arrow.Source.{SpannedToken, Token, Message, eof}
use flow_arrow.Parser.{Tokens, Parser, pure, ◌>>=◌, error_here}

abbrev pub is_end : Token → Bool
is_end eof = true
is_end _ = false

-- The last token, and there is one, is `eof`.
abbrev pub EndsEof : Tokens → Type 0
EndsEof [] = ⊥
EndsEof (t ∷ []) = is_end t.token ≡ true
EndsEof (_ ∷ t ∷ ts) = EndsEof (t ∷ ts)

pub EndsEof-tail :
    (t : SpannedToken) (ts : Tokens) → EndsEof (t ∷ ts) → is_end t.token ≡ false → EndsEof ts
EndsEof-tail t [] e n = cc
EndsEof-tail t (t' ∷ ts) e n = e

pub EndsEof-cons : (t : SpannedToken) (ts : Tokens) → EndsEof ts → EndsEof (t ∷ ts)
EndsEof-cons t [] e = absurd e
EndsEof-cons t (_ ∷ _) e = e

-- On at most `n` tokens that end with `eof`, the run ends, with a diagnostic or before such tokens.
pub record Ends (n : ℕ) {A : Type 0} (p : Parser A) : Type 0 where
  pub at :
      (ts : Tokens)
      → EndsEof ts
      → length ts ≤ n
      → Ensures (λ r. EndsEof r.1 × (length r.1 ≤ length ts)) (p ts)

-- So it does, and it has read a token.
pub record Consumes (n : ℕ) {A : Type 0} (p : Parser A) : Type 0 where
  pub at :
      (ts : Tokens)
      → EndsEof ts
      → length ts ≤ n
      → Ensures (λ r. EndsEof r.1 × (length r.1 < length ts)) (p ts)

-- So it does where the cursor is at the token `t`.
pub record EndsAt (n : ℕ) (t : Token) {A : Type 0} (p : Parser A) : Type 0 where
  pub at :
      (x : SpannedToken) (ts : Tokens)
      → x.token ≡ t
      → EndsEof (x ∷ ts)
      → length (x ∷ ts) ≤ n
      → Ensures (λ r. EndsEof r.1 × (length r.1 ≤ length (x ∷ ts))) (p (x ∷ ts))

pub record ConsumesAt (n : ℕ) (t : Token) {A : Type 0} (p : Parser A) : Type 0 where
  pub at :
      (x : SpannedToken) (ts : Tokens)
      → x.token ≡ t
      → EndsEof (x ∷ ts)
      → length (x ∷ ts) ≤ n
      → Ensures (λ r. EndsEof r.1 × (length r.1 < length (x ∷ ts))) (p (x ∷ ts))

error_here-at :
    {A : Type 0} (message : Message) (P : A × Tokens → Type 0) (ts : Tokens)
    → EndsEof ts
    → Ensures P (error_here message ts)
unfolding error_here
error_here-at message P [] e = absurd e
error_here-at message P (_ ∷ _) e = raises

module _ {n : ℕ} {A : Type 0} where
  pub Ends-pure : (a : A) → Ends n (pure a)
  unfolding pure
  Ends-pure a = record { at = λ ts e _. returns (e, omega arith) }

  pub Consumes-error : (message : Message) → Consumes n {A = A} (error_here message)
  Consumes-error message = record { at = λ ts e _. error_here-at message _ ts e }

  pub Consumes-Ends : {p : Parser A} → Consumes n p → Ends n p
  Consumes-Ends h = record {
    at = λ ts e l. Ensures-weaken (λ r (e', l'). (e', omega arith)) (h.at ts e l);
  }

  pub Ends-error : (message : Message) → Ends n {A = A} (error_here message)
  Ends-error message = Consumes-Ends (Consumes-error message)

  pub ConsumesAt-EndsAt : {t : Token} {p : Parser A} → ConsumesAt n t p → EndsAt n t p
  ConsumesAt-EndsAt h = record {
    at = λ x ts q e l. Ensures-weaken (λ r (e', l'). (e', omega arith)) (h.at x ts q e l);
  }

  pub Ends-EndsAt : {t : Token} {p : Parser A} → Ends n p → EndsAt n t p
  Ends-EndsAt h = record { at = λ x ts _. h.at (x ∷ ts) }

  pub Consumes-ConsumesAt : {t : Token} {p : Parser A} → Consumes n p → ConsumesAt n t p
  Consumes-ConsumesAt h = record { at = λ x ts _. h.at (x ∷ ts) }

  pub Ends-if : (b : Bool) (p q : Parser A) → Ends n p → Ends n q → Ends n (if b then p else q)
  Ends-if true p q h k = h
  Ends-if false p q h k = k

  pub Consumes-if :
      (b : Bool) (p q : Parser A) → Consumes n p → Consumes n q → Consumes n (if b then p else q)
  Consumes-if true p q h k = h
  Consumes-if false p q h k = k

  pub EndsAt-if :
      {t : Token} (b : Bool) (p q : Parser A)
      → (b ≡ true → EndsAt n t p)
      → EndsAt n t q
      → EndsAt n t (if b then p else q)
  EndsAt-if true p q h k = h refl
  EndsAt-if false p q h k = k

  pub ConsumesAt-if :
      {t : Token} (b : Bool) (p q : Parser A)
      → (b ≡ true → ConsumesAt n t p)
      → ConsumesAt n t q
      → ConsumesAt n t (if b then p else q)
  ConsumesAt-if true p q h k = h refl
  ConsumesAt-if false p q h k = k

-- A run on no more tokens.
pub Consumes-fewer : {m n : ℕ} {A : Type 0} {p : Parser A} → m ≤ n → Consumes n p → Consumes m p
Consumes-fewer l h = record { at = λ ts e l'. h.at ts e (omega arith) }

-- There is a token to read.
EndsEof-length : (ts : Tokens) → EndsEof ts → 0 < length ts
EndsEof-length [] e = absurd e
EndsEof-length (_ ∷ _) e = omega arith

pub Consumes-nothing : {A : Type 0} (p : Parser A) → Consumes 0 p
Consumes-nothing p = record { at = λ ts e l. absurd (omega (arith, EndsEof-length ts e)) }

module _ {A B : Type 0} {p : Parser A} {f : A → Parser B} where
  pub Ends-bind : {n : ℕ} → Ends n p → ((a : A) → Ends n (f a)) → Ends n (p >>= f)
  unfolding ◌>>=◌
  Ends-bind h k = record {
    at = λ ts e l. h.at ts e l ⟫ λ (a, ts₁) (e₁, l₁).
        Ensures-weaken (λ r (e', l'). (e', omega arith)) ((k a).at ts₁ e₁ (omega arith));
  }

  pub Ends-after : {n : ℕ} → Consumes n p → ((a : A) → Ends n (f a)) → Ends n (p >>= f)
  Ends-after h k = Ends-bind (Consumes-Ends h) k

  pub Consumes-bind : {n : ℕ} → Consumes n p → ((a : A) → Ends n (f a)) → Consumes n (p >>= f)
  unfolding ◌>>=◌
  Consumes-bind h k = record {
    at = λ ts e l. h.at ts e l ⟫ λ (a, ts₁) (e₁, l₁).
        Ensures-weaken (λ r (e', l'). (e', omega arith)) ((k a).at ts₁ e₁ (omega arith));
  }

  pub Consumes-later : {n : ℕ} → Ends n p → ((a : A) → Consumes n (f a)) → Consumes n (p >>= f)
  unfolding ◌>>=◌
  Consumes-later h k = record {
    at = λ ts e l. h.at ts e l ⟫ λ (a, ts₁) (e₁, l₁).
        Ensures-weaken (λ r (e', l'). (e', omega arith)) ((k a).at ts₁ e₁ (omega arith));
  }

  -- What follows a parser that consumes has a token less to read.
  pub Consumes-next :
      {n : ℕ} → Consumes (suc n) p → ((a : A) → Ends n (f a)) → Consumes (suc n) (p >>= f)
  unfolding ◌>>=◌
  Consumes-next h k = record {
    at = λ ts e l. h.at ts e l ⟫ λ (a, ts₁) (e₁, l₁).
        Ensures-weaken (λ r (e', l'). (e', omega arith)) ((k a).at ts₁ e₁ (omega arith));
  }
