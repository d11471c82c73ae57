-- ===== src/Typecheck/Agree.antt =====
-- Two checks that accept together: rules for each way to build a check.
pub mod Endpoint
pub mod Chain
pub mod Module
use flow_arrow.Prelude.{
  Bool, true, false, ◌≡◌, ◌≢◌, refl, subst, Outcome, ok, err, panic, out_of_fuel, ◌>>=◌, ◌>>◌,
  Holds, Holds-ok, held, errs, panics, stops,
}
use flow_arrow.Typecheck.{CheckError, Check}

abbrev pub Fails : {A : Type 0} → Check A → Type 0
Fails {A} r = (a : A) → r ≢ ok a

pub Fails-bind :
    {A B : Type 0} (r : Check A) (f : A → Check B) → ((a : A) → Fails (f a)) → Fails (r >>= f)
Fails-bind (ok a) f h = h a
Fails-bind (err _) f h = λ a e. cc
Fails-bind panic f h = λ a e. cc
Fails-bind out_of_fuel f h = λ a e. cc

pub Fails-left : {A B : Type 0} (r : Check A) (f : A → Check B) → Fails r → Fails (r >>= f)
Fails-left (ok a) f h = absurd (h a refl)
Fails-left (err _) f h = λ a e. cc
Fails-left panic f h = λ a e. cc
Fails-left out_of_fuel f h = λ a e. cc

pub data Agree {A B : Type 0} (R : A → B → Type 0) (r : Check A) (s : Check B) : Type 0 where
  both : (a : A) (b : B) → r ≡ ok a → s ≡ ok b → R a b → Agree R r s
  neither : Fails r → Fails s → Agree R r s

module _ {A B : Type 0} {R : A → B → Type 0} where
  pub Agree-ok : {a : A} {b : B} → R a b → Agree R (ok a) (ok b)
  Agree-ok {a} {b} h = both a b refl refl h

  pub Agree-err : {e e' : CheckError} → Agree R (err e) (err e')
  Agree-err = neither (λ a h. cc) (λ b h. cc)

  pub Agree-first :
      {r : Check A} {s : Check B} {a : A} → Agree R r s → r ≡ ok a → (b : B) × (s ≡ ok b) × R a b
  Agree-first {a} (both a' b e e' h) k = (b, e', subst (λ x. R x b) (cc) h)
  Agree-first {a} (neither h h') k = absurd (h a k)

  pub Agree-second :
      {r : Check A} {s : Check B} {b : B} → Agree R r s → s ≡ ok b → (a : A) × (r ≡ ok a) × R a b
  Agree-second {b} (both a b' e e' h) k = (a, e, subst (R a) (cc) h)
  Agree-second {b} (neither h h') k = absurd (h' b k)

  module _ {C D : Type 0} {Q : C → D → Type 0} where
    pub Agree-bind :
        (r : Check A) (s : Check B) (f : A → Check C) (g : B → Check D)
        → Agree R r s
        → ((a : A) (b : B) → R a b → Agree Q (f a) (g b))
        → Agree Q (r >>= f) (s >>= g)
    Agree-bind r s f g (both a b e e' h) k = rw (e, e') (k a b h)
    Agree-bind r s f g (neither h h') k = neither (Fails-left r f h) (Fails-left s g h')

-- The same check first in both.
pub Agree-after :
    {A C D : Type 0} {Q : C → D → Type 0} (r : Check A) (f : A → Check C) (g : A → Check D)
    → ((a : A) → Agree Q (f a) (g a))
    → Agree Q (r >>= f) (r >>= g)
Agree-after (ok a) f g k = k a
Agree-after (err _) f g k = neither (λ a e. cc) (λ a e. cc)
Agree-after panic f g k = neither (λ a e. cc) (λ a e. cc)
Agree-after out_of_fuel f g k = neither (λ a e. cc) (λ a e. cc)

-- A value that one of them adds to the result of the other.
pub Agree-map :
    {A C : Type 0} {Q : C → A → Type 0} (r : Check A) (f : A → C)
    → ((a : A) → Q (f a) a)
    → Agree Q (r >>= λ a. ok (f a)) r
Agree-map (ok a) f h = Agree-ok (h a)
Agree-map (err _) f h = Agree-err
Agree-map panic f h = neither (λ a e. cc) (λ a e. cc)
Agree-map out_of_fuel f h = neither (λ a e. cc) (λ a e. cc)

-- Both go on, where the first adds a value at the end.
pub Agree-bind-map :
    {A B C D : Type 0} {R : A → B → Type 0} {Q : C → D → Type 0} (r : Check A) (s : Check B)
    (f : A → C) (g : B → D)
    → Agree R r s
    → ((a : A) (b : B) → R a b → Q (f a) (g b))
    → Agree Q (r >>= λ a. ok (f a)) (s >>= λ b. ok (g b))
Agree-bind-map r s f g h k =
    Agree-bind r s (λ a. ok (f a)) (λ b. ok (g b)) h (λ a b x. Agree-ok (k a b x))

-- The first has a test that the second makes inside.
pub Agree-guarded :
    {A B C D : Type 0} {R : A → B → Type 0} {Q : C → D → Type 0} (t : Check (Unit {0}))
    (r : Check A) (s : Check B) (f : A → Check C) (g : B → Check D)
    → Agree R (t >> r) s
    → ((a : A) (b : B) → R a b → Agree Q (f a) (g b))
    → Agree Q (t >> (r >>= f)) (s >>= g)
Agree-guarded (ok _) r s f g h k = Agree-bind _ s f g h k
Agree-guarded (err e) r s f g h k = Agree-bind (err e) s f g h k
Agree-guarded panic r s f g h k = Agree-bind panic s f g h k
Agree-guarded out_of_fuel r s f g h k = Agree-bind out_of_fuel s f g h k

-- The first goes on with a check that succeeds wherever the second does.
pub Agree-extra :
    {A B C : Type 0} {Q : C → A → Type 0} (r : Check A) (m : Check B) (f : A → B → C)
    → ((a : A) → r ≡ ok a → (b : B) × (m ≡ ok b))
    → ((a : A) (b : B) → Q (f a b) a)
    → Agree Q (r >>= λ a. m >>= λ b. ok (f a b)) r
Agree-extra (ok a) m f h k = let (b, e) = h a refl in rw e (Agree-ok (k a b))
Agree-extra (err _) m f h k = Agree-err
Agree-extra panic m f h k = neither (λ a e. cc) (λ a e. cc)
Agree-extra out_of_fuel m f h k = neither (λ a e. cc) (λ a e. cc)

-- Only the first wraps its result.
pub Agree-last :
    {A B C : Type 0} {R : A → B → Type 0} {Q : C → B → Type 0} (r : Check A) (s : Check B)
    (f : A → C)
    → Agree R r s
    → ((a : A) (b : B) → R a b → Q (f a) b)
    → Agree Q (r >>= λ a. ok (f a)) s
Agree-last r s f (both a b e e' h) k = rw (e, e') (Agree-ok (k a b h))
Agree-last r s f (neither h h') k = neither (Fails-left r _ h) h'

pub Agree-then :
    {A B : Type 0} {R : A → B → Type 0} (test : Check (Unit {0})) {r : Check A} {s : Check B}
    → Agree R r s
    → Agree R (test >> r) (test >> s)
Agree-then (ok _) h = h
Agree-then (err _) h = Agree-err
Agree-then panic h = neither (λ a e. cc) (λ a e. cc)
Agree-then out_of_fuel h = neither (λ a e. cc) (λ a e. cc)

Fails-Holds : {A : Type 0} {Q : A → Type 0} (r : Check A) → Fails r → Holds Q r
Fails-Holds (ok a) f = absurd (f a refl)
Fails-Holds (err _) f = errs
Fails-Holds panic f = panics
Fails-Holds out_of_fuel f = stops

pub Agree-Holds :
    {A B : Type 0} {R : A → B → Type 0} {P : B → Type 0} {Q : A → Type 0} {r : Check A}
    {s : Check B}
    → Agree R r s
    → Holds P s
    → ((a : A) (b : B) → R a b → P b → Q a)
    → Holds Q r
Agree-Holds (both a b e e' h) p k = rw e (held (k a b h (Holds-ok p e')))
Agree-Holds (neither h h') p k = Fails-Holds _ h
