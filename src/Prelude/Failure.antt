-- ===== src/Prelude/Failure.antt =====
-- `Result<A, E>` with the `?` operator. `panic` is a Rust panic and `out_of_fuel` has no
-- counterpart in the program: theorems show that neither is reached.
use mathlib.Core.Path.{◌≡◌, refl, subst}
use mathlib.Core.Logic.{◌≢◌}
use mathlib.Core.Bool.{Bool, true, false}
use flow_arrow.Prelude.Tests.{if◌then◌else◌}

pub data Outcome {ℓ κ} (E : Type ℓ) (A : Type κ) : Type (ℓ ⊔ κ) where
  ok : A → Outcome E A
  err : E → Outcome E A
  panic out_of_fuel : Outcome E A

infixl 5 ◌>>=◌ ◌>>◌
abbrev pub ◌>>=◌ {ℓ κ μ} :
    {E : Type ℓ} {A : Type κ} {B : Type μ} → Outcome E A → (A → Outcome E B) → Outcome E B
ok a >>= f = f a
err e >>= f = err e
panic >>= f = panic
out_of_fuel >>= f = out_of_fuel

abbrev pub ◌>>◌ {ℓ κ μ} :
    {E : Type ℓ} {A : Type κ} {B : Type μ} → Outcome E A → Outcome E B → Outcome E B
m >> k = m >>= λ _. k

-- The run ends, with a value that satisfies `P` or with an error of the program.
pub data Ensures {ℓ κ μ} {E : Type ℓ} {A : Type κ} (P : A → Type μ)
    : Outcome E A → Type (ℓ ⊔ κ ⊔ μ) where
  returns : {a : A} → P a → Ensures P (ok a)
  raises : {e : E} → Ensures P (err e)

module _ {ℓ κ μ} {E : Type ℓ} {A : Type κ} {P : A → Type μ} where
  pub Ensures-ok : {r : Outcome E A} {a : A} → Ensures P r → r ≡ ok a → P a
  Ensures-ok (returns h) e = subst P (cc) h
  Ensures-ok raises e = cc

  pub Ensures-out_of_fuel : {r : Outcome E A} → Ensures P r → r ≢ out_of_fuel
  Ensures-out_of_fuel (returns h) = cc
  Ensures-out_of_fuel raises = cc

  pub Ensures-panic : {r : Outcome E A} → Ensures P r → r ≢ panic
  Ensures-panic (returns h) = cc
  Ensures-panic raises = cc

  pub Ensures-if :
      (b : Bool) {x y : Outcome E A}
      → (b ≡ true → Ensures P x)
      → (b ≡ false → Ensures P y)
      → Ensures P (if b then x else y)
  Ensures-if true hx hy = hx refl
  Ensures-if false hx hy = hy refl

  pub Ensures-weaken {ν} :
      {Q : A → Type ν} {r : Outcome E A} → ((a : A) → P a → Q a) → Ensures P r → Ensures Q r
  Ensures-weaken k (returns h) = returns (k _ h)
  Ensures-weaken k raises = raises

  infixl 6 ◌⟫◌
  pub ◌⟫◌ {κ' ν} :
      {B : Type κ'} {Q : B → Type ν} {r : Outcome E A} {f : A → Outcome E B}
      → Ensures P r
      → ((a : A) → P a → Ensures Q (f a))
      → Ensures Q (r >>= f)
  returns h ⟫ k = k _ h
  raises ⟫ k = raises

-- A bind that returns has run both parts.
pub >>=-eq-ok {ℓ κ μ} :
    {E : Type ℓ} {A : Type κ} {B : Type μ} (r : Outcome E A) (f : A → Outcome E B) {b : B}
    → (r >>= f) ≡ ok b
    → (a : A) × (r ≡ ok a) × (f a ≡ ok b)
>>=-eq-ok (ok a) f h = (a, refl, h)
>>=-eq-ok (err e) f h = cc
>>=-eq-ok panic f h = cc
>>=-eq-ok out_of_fuel f h = cc

-- What a run returns, where it returns, satisfies `P`.
pub data Holds {ℓ κ μ} {E : Type ℓ} {A : Type κ} (P : A → Type μ)
    : Outcome E A → Type (ℓ ⊔ κ ⊔ μ) where
  held : {a : A} → P a → Holds P (ok a)
  errs : {e : E} → Holds P (err e)
  panics : Holds P panic
  stops : Holds P out_of_fuel

module _ {ℓ κ μ} {E : Type ℓ} {A : Type κ} {P : A → Type μ} where
  pub Holds-ok : {r : Outcome E A} {a : A} → Holds P r → r ≡ ok a → P a
  Holds-ok (held h) e = subst P (cc) h
  Holds-ok errs e = cc
  Holds-ok panics e = cc
  Holds-ok stops e = cc

  pub Holds-if :
      (b : Bool) {x y : Outcome E A}
      → (b ≡ true → Holds P x)
      → (b ≡ false → Holds P y)
      → Holds P (if b then x else y)
  Holds-if true h k = h refl
  Holds-if false h k = k refl

  pub Holds-weaken {ν} :
      {Q : A → Type ν} {r : Outcome E A} → ((a : A) → P a → Q a) → Holds P r → Holds Q r
  Holds-weaken k (held h) = held (k _ h)
  Holds-weaken k errs = errs
  Holds-weaken k panics = panics
  Holds-weaken k stops = stops

  infixl 6 ◌⨾◌
  pub ◌⨾◌ {κ' ν} :
      {B : Type κ'} {Q : B → Type ν} {r : Outcome E A} {f : A → Outcome E B}
      → Holds P r
      → ((a : A) → P a → Holds Q (f a))
      → Holds Q (r >>= f)
  held h ⨾ k = k _ h
  errs ⨾ k = errs
  panics ⨾ k = panics
  stops ⨾ k = stops

pub Holds-any {ℓ κ} : {E : Type ℓ} {A : Type κ} (r : Outcome E A) → Holds (λ a. r ≡ ok a) r
Holds-any (ok a) = held refl
Holds-any (err e) = errs
Holds-any panic = panics
Holds-any out_of_fuel = stops
