-- ===== src/Parser/Yields.antt =====
-- What a parser's results satisfy: rules for each way to build a parser, and for the loops.
use flow_arrow.Prelude
use flow_arrow.Prelude.{
  ℕ, zero, suc, Bool, true, false, ◌≡◌, refl, List, [], ◌∷◌, All, ok, err, panic, out_of_fuel,
  if◌then◌else◌,
}
use flow_arrow.Source.{Token, SourceSpan, Message, Diagnosed}
use flow_arrow.Ast.Formed.{IsCons}
use flow_arrow.Parser.{
  Tokens, Parser, pure, ◌>>=◌, peek, error_here, comma_list, while_eat, until_eat,
}

abbrev pub Results : {A : Type 0} → (A → Type 0) → Diagnosed (A × Tokens) → Type 0
Results P (ok (a, _)) = P a
Results P _ = Unit

pub record Yields {A : Type 0} (P : A → Type 0) (p : Parser A) : Type 0 where
  pub at : (ts : Tokens) → Results P (p ts)

module _ {A : Type 0} {P : A → Type 0} where
  pub Yields-pure : (a : A) → P a → Yields P (pure a)
  unfolding pure
  Yields-pure a h = record { at = λ ts. h }

  pub Yields-error : (message : Message) → Yields P (error_here message)
  unfolding error_here
  Yields-error message = record { at = no_result }
    where
      no_result : (ts : Tokens) → Results P (error_here message ts)
      no_result [] = tt
      no_result (_ ∷ _) = tt

  pub Yields-if :
      (b : Bool) (p q : Parser A) → Yields P p → Yields P q → Yields P (if b then p else q)
  Yields-if true p q h k = h
  Yields-if false p q h k = k

  pub Yields-fuel : Yields P (λ ts. out_of_fuel)
  Yields-fuel = record { at = λ ts. tt }

pub Results-any : {A : Type 0} (r : Diagnosed (A × Tokens)) → Results (λ _. Unit) r
Results-any (ok _) = tt
Results-any (err _) = tt
Results-any panic = tt
Results-any out_of_fuel = tt

pub Yields-any : {A : Type 0} (p : Parser A) → Yields (λ _. Unit) p
Yields-any p = record { at = λ ts. Results-any (p ts) }

module _ {A B : Type 0} (P : A → Type 0) {Q : B → Type 0} {f : A → Parser B} where
  Results-bind :
      (r : Diagnosed (A × Tokens))
      → Results P r
      → ((a : A) → P a → Yields Q (f a))
      → Results Q (Prelude.◌>>=◌ r (λ x. f x.0 x.1))
  Results-bind (ok (a, ts)) h k = (k a h).at ts
  Results-bind (err _) h k = tt
  Results-bind panic h k = tt
  Results-bind out_of_fuel h k = tt

  pub Yields-bind :
      (p : Parser A) → Yields P p → ((a : A) → P a → Yields Q (f a)) → Yields Q (p >>= f)
  unfolding ◌>>=◌
  Yields-bind p h k = record { at = λ ts. Results-bind (p ts) (h.at ts) k }

-- What is read first has no part in the result.
pub Yields-then :
    {A B : Type 0} {Q : B → Type 0} (p : Parser A) (f : A → Parser B)
    → ((a : A) → Yields Q (f a))
    → Yields Q (p >>= f)
Yields-then p f k = Yields-bind (λ _. Unit) p (Yields-any p) (λ a _. k a)

-- What is read depends on the token at the cursor.
pub Yields-peek :
    {A B : Type 0} (P : A → Type 0) {Q : B → Type 0} (k : Token → Parser A) (f : A → Parser B)
    → ((t : Token) (s : SourceSpan) (ts : Tokens)
        → Results P (k t (record { token = t; span = s } ∷ ts)))
    → ((a : A) → P a → Yields Q (f a))
    → Yields Q (peek >>= λ t. k t >>= f)
unfolding ◌>>=◌ peek
Yields-peek P {Q} k f h g = record { at = read }
  where
    read : (ts : Tokens) → Results Q ((peek >>= λ t. k t >>= f) ts)
    read [] = tt
    read (x ∷ ts) = Results-bind P (k x.token (x ∷ ts)) (h x.token x.span ts) g

pub Yields-weaken :
    {A : Type 0} {P Q : A → Type 0} {p : Parser A} → ((a : A) → P a → Q a) → Yields P p → Yields Q p
Yields-weaken {P} {Q} {p} k h = record { at = λ ts. weaken (p ts) (h.at ts) }
  where
    weaken : (r : Diagnosed (_ × Tokens)) → Results P r → Results Q r
    weaken (ok (a, _)) x = k a x
    weaken (err _) x = tt
    weaken panic x = tt
    weaken out_of_fuel x = tt

pub ruleset yields_rules = (Yields-pure, Yields-error, Yields-if, Yields-then)

module _ {A : Type 0} {P : A → Type 0} (item : Parser A) (h : Yields P item) where
  pub comma_list-Yields :
      (g : ℕ) (close : Token) → Yields (λ xs. IsCons xs × All P xs) (comma_list g item close)
  unfolding comma_list
  comma_list-Yields zero close = Yields-fuel
  comma_list-Yields (suc g) close = Yields-bind P item h λ x px.
      let more = comma_list-Yields g close in
      Yields-then _ _ λ continues.
        Yields-if continues _ _
          (Yields-then _ _ λ closed.
            Yields-if closed _ _ (Yields-pure _ (tt, (px, tt)))
              (Yields-bind _ _ more λ xs (_, pxs). Yields-pure _ (tt, (px, pxs))))
          (Yields-then _ _ λ _. Yields-pure _ (tt, (px, tt)))

  pub while_eat-Yields : (g : ℕ) (separator : Token) → Yields (All P) (while_eat g separator item)
  unfolding while_eat
  while_eat-Yields zero separator = Yields-fuel
  while_eat-Yields (suc g) separator = Yields-then _ _ λ continues.
      Yields-if continues _ _
        (Yields-bind P item h
          λ x px. Yields-bind _ _ (while_eat-Yields g separator) λ xs pxs. Yields-pure _ (px, pxs))
        (Yields-pure _ tt)

  pub until_eat-Yields : (g : ℕ) (close : Token) → Yields (All P) (until_eat g close item)
  unfolding until_eat
  until_eat-Yields zero close = Yields-fuel
  until_eat-Yields (suc g) close = Yields-then _ _ λ closed.
      Yields-if closed _ _ (Yields-pure _ tt) (
        Yields-bind P item h
          λ x px. Yields-bind _ _ (until_eat-Yields g close) λ xs pxs. Yields-pure _ (px, pxs))
