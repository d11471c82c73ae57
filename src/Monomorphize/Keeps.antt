-- ===== src/Monomorphize/Keeps.antt =====
-- What every action of the expansion keeps, one rule for each way to build an action.
use flow_arrow.Prelude
use flow_arrow.Prelude.{
  ℕ, Bool, true, false, ◌≡◌, refl, ap, ◌||◌, ◌&&◌, Bool-cases, inl, inr, and-eq-true, Option, none,
  some, List, [], ◌∷◌, ◌++◌, Text, text_eq, text_eq_iff, All, Outcome, ok, err, panic, out_of_fuel,
  arith, if◌then◌else◌,
}
use flow_arrow.Ast.{Callable}
use flow_arrow.Monomorphize.{key_eq, texts_eq, find_instance, is_active, instance_name}
use flow_arrow.Monomorphize.Rewrite.{
  InstanceKey, Monomorphizer, MonoError, Mono, pure, ◌>>=◌, fail, recursive_instance,
}

abbrev pub IsEntered : List (InstanceKey × Text) → InstanceKey → Type 0
IsEntered instances key = (name : Text) × (find_instance key instances ≡ some name)

abbrev pub IsNamed : InstanceKey × Text → Type 0
IsNamed (key, name) = name ≡ instance_name key.template key.args

-- The callable takes no static nodes.
abbrev pub IsPlain : Callable → Type 0
IsPlain callable = callable.node_params ≡ []

-- Each instance in work is entered, each entry has the name of its key, and no generated node takes
-- static nodes.
abbrev pub IsValid : Monomorphizer → Type 0
IsValid s = All (IsEntered s.instances) s.active × All IsNamed s.instances × All IsPlain s.generated

abbrev pub NotRecursive : MonoError → Type 0
NotRecursive (recursive_instance _) = ⊥
NotRecursive _ = Unit

abbrev pub Kept : {A : Type 0} → (A → Type 0) → Outcome MonoError (A × Monomorphizer) → Type 0
Kept Q (ok (a, s)) = Q a × IsValid s
Kept Q (err e) = NotRecursive e
Kept Q _ = Unit

pub record Keeps {A : Type 0} (Q : A → Type 0) (m : Mono A) : Type 0 where
  pub at : (s : Monomorphizer) → IsValid s → Kept Q (m s)

module _ {A : Type 0} {Q : A → Type 0} where
  pub Keeps-pure : (a : A) → Q a → Keeps Q (pure a)
  unfolding pure
  Keeps-pure a h = record { at = λ s v. (h, v) }

  pub Keeps-fail : (e : MonoError) → NotRecursive e → Keeps Q (fail e)
  unfolding fail
  Keeps-fail e h = record { at = λ s v. h }

  pub Keeps-if :
      (b : Bool) (m n : Mono A)
      → (b ≡ true → Keeps Q m)
      → (b ≡ false → Keeps Q n)
      → Keeps Q (if b then m else n)
  Keeps-if true m n h k = h refl
  Keeps-if false m n h k = k refl

module _ {A B : Type 0} (P : A → Type 0) {Q : B → Type 0} (k : A → Mono B) where
  pub Kept-bind :
      (r : Outcome MonoError (A × Monomorphizer))
      → Kept P r
      → ((a : A) → P a → Keeps Q (k a))
      → Kept Q (Prelude.◌>>=◌ r (λ x. k x.0 x.1))
  Kept-bind (ok (a, s)) h g = (g a h.0).at s h.1
  Kept-bind (err e) h g = h
  Kept-bind panic h g = tt
  Kept-bind out_of_fuel h g = tt

  pub Keeps-bind : (m : Mono A) → Keeps P m → ((a : A) → P a → Keeps Q (k a)) → Keeps Q (m >>= k)
  unfolding ◌>>=◌
  Keeps-bind m h g = record { at = λ s v. Kept-bind (m s) (h.at s v) g }

pub Keeps-weaken :
    {A : Type 0} {P Q : A → Type 0} {m : Mono A} → ((a : A) → P a → Q a) → Keeps P m → Keeps Q m
Keeps-weaken {P} {Q} {m} k h = record { at = λ s v. weaken (m s) (h.at s v) }
  where
    weaken : (r : Outcome MonoError (_ × Monomorphizer)) → Kept P r → Kept Q r
    weaken (ok (a, s)) x = (k a x.0, x.1)
    weaken (err e) x = x
    weaken panic x = tt
    weaken out_of_fuel x = tt

-- A part whose value has no part in the claim.
pub Keeps-then :
    {A B : Type 0} {Q : B → Type 0} (m : Mono A) (k : A → Mono B)
    → Keeps (λ _. Unit) m
    → ((a : A) → Keeps Q (k a))
    → Keeps Q (m >>= k)
Keeps-then m k h g = Keeps-bind (λ _. Unit) k m h (λ a _. g a)

texts_eq→eq : (ss ts : List Text) → texts_eq ss ts ≡ true → ss ≡ ts
unfolding texts_eq
texts_eq→eq [] [] h = refl
texts_eq→eq [] (_ ∷ _) h = cc
texts_eq→eq (_ ∷ _) [] h = cc
texts_eq→eq (s ∷ ss) (t ∷ ts) h =
    let (p, q) = and-eq-true _ _ h in
    let e : s ≡ t = (text_eq_iff s t).0 p in let es : ss ≡ ts = texts_eq→eq ss ts q in cc

key_eq→eq : (k k' : InstanceKey) → key_eq k k' ≡ true → k ≡ k'
unfolding key_eq
key_eq→eq k k' h =
    let (p, q) = and-eq-true _ _ h in
    let e : k.template ≡ k'.template = (text_eq_iff k.template k'.template).0 p in
    let es : k.args ≡ k'.args = texts_eq→eq k.args k'.args q in
    λ i. record { template = e i; args = es i }

pub find_instance-insert :
    (key k : InstanceKey) (name : Text) (instances : List (InstanceKey × Text))
    → IsEntered instances k
    → IsEntered ((key, name) ∷ instances) k
unfolding find_instance
find_instance-insert key k name instances (n, e) = elim (Bool-cases (key_eq key k)) [
  | inl same ↦ (name, rw same refl)
  | inr other ↦ (n, rw other e)
]

-- An instance that is in work has an entry.
pub is_active-IsEntered :
    (key : InstanceKey) (active : List InstanceKey) (instances : List (InstanceKey × Text))
    → All (IsEntered instances) active
    → is_active key active ≡ true
    → IsEntered instances key
unfolding is_active
is_active-IsEntered key [] instances h e = cc
is_active-IsEntered key (k ∷ active) instances (h, hs) e = elim (Bool-cases (key_eq k key)) [
  | inl same ↦ rw (key_eq→eq k key same) at h
  | inr other ↦ is_active-IsEntered key active instances hs (rw other at e)
]

pub key_eq_refl : (k : InstanceKey) → key_eq k k ≡ true
unfolding key_eq texts_eq
key_eq_refl k = rw ((text_eq_iff k.template k.template).1 refl) (go k.args)
  where
    go : (ss : List Text) → texts_eq ss ss ≡ true
    go [] = refl
    go (s ∷ ss) = rw ((text_eq_iff s s).1 refl) (go ss)
