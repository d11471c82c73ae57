-- ===== src/Types/Substitute.antt =====
-- src/types.rs: `substitute` and `substitute_partial`, over the bindings of type variables: a
-- `HashMap`, as an association list whose first entry for a name is the current one.
use mathlib.Core.Option
use flow_arrow.Prelude.{
  ◌≡◌, refl, ap, List, [], ◌∷◌, Text, text_eq, text_eq_iff, Option, none, some, arith,
  if◌then◌else◌,
}
use flow_arrow.Types.{
  Ty, Types, Fields, stream, faultable, seq, tuple, one_of, struct, var, empty_seq, nil, cons, end,
  field,
}

abbrev pub Vars : Type 0
Vars = List (Text × Ty)

unfoldable pub lookup : Text → Vars → Option Ty
lookup name [] = none
lookup name ((n, t) ∷ vars) = if text_eq n name then some t else lookup name vars

-- `?` on the two parts of a result.
abbrev pub map₂ : {A B C : Type 0} → (A → B → C) → Option A → Option B → Option C
map₂ f (some a) (some b) = some (f a b)
map₂ f _ _ = none

unfoldable mutual
  pub substitute : Ty → Vars → Option Ty
  substitute (var name) vars = lookup name vars
  substitute (faultable item) vars = Option.map faultable (substitute item vars)
  substitute (seq item) vars = Option.map seq (substitute item vars)
  substitute (stream item) vars = Option.map stream (substitute item vars)
  substitute (one_of items) vars = Option.map one_of (substitute_items items vars)
  substitute (tuple items) vars = Option.map tuple (substitute_items items vars)
  substitute (struct name fields) vars = Option.map (struct name) (substitute_fields fields vars)
  substitute empty_seq vars = some empty_seq
  substitute other vars = some other

  pub substitute_items : Types → Vars → Option Types
  substitute_items nil vars = some nil
  substitute_items (cons t ts) vars = map₂ cons (substitute t vars) (substitute_items ts vars)

  pub substitute_fields : Fields → Vars → Option Fields
  substitute_fields end vars = some end
  substitute_fields (field name t fs) vars =
      map₂ (field name) (substitute t vars) (substitute_fields fs vars)

-- `Option::unwrap_or_else`
abbrev unwrap_or : Option Ty → Ty → Ty
unwrap_or (some t) _ = t
unwrap_or none t = t

unfoldable mutual
  pub substitute_partial : Ty → Vars → Ty
  substitute_partial (var name) vars = unwrap_or (lookup name vars) (var name)
  substitute_partial (faultable item) vars = faultable (substitute_partial item vars)
  substitute_partial (seq item) vars = seq (substitute_partial item vars)
  substitute_partial (stream item) vars = stream (substitute_partial item vars)
  substitute_partial (one_of items) vars = one_of (partial_items items vars)
  substitute_partial (tuple items) vars = tuple (partial_items items vars)
  substitute_partial (struct name fields) vars = struct name (partial_fields fields vars)
  substitute_partial other vars = other

  pub partial_items : Types → Vars → Types
  partial_items nil vars = nil
  partial_items (cons t ts) vars = cons (substitute_partial t vars) (partial_items ts vars)

  pub partial_fields : Fields → Vars → Fields
  partial_fields end vars = end
  partial_fields (field name t fs) vars =
      field name (substitute_partial t vars) (partial_fields fs vars)

-- Every binding of the first map is a binding of the second.
abbrev pub Extends : Vars → Vars → Type 0
Extends vars vars' = (n : Text) (t : Ty) → lookup n vars ≡ some t → lookup n vars' ≡ some t

pub Extends-refl : (vars : Vars) → Extends vars vars
Extends-refl vars n t h = h

pub Extends-trans : (u v w : Vars) → Extends u v → Extends v w → Extends u w
Extends-trans u v w h k n t e = k n t (h n t e)

pub Extends-insert :
    (name : Text) (t : Ty) (vars : Vars) → lookup name vars ≡ none → Extends vars ((name, t) ∷ vars)
unfolding lookup
Extends-insert name t vars h n u e = ground (arith, text_eq_iff name n)

-- A binding that `σ` has too keeps the map among those of `σ`.
pub insert-Extends :
    (name : Text) (t : Ty) (vars σ : Vars)
    → Extends vars σ
    → lookup name σ ≡ some t
    → Extends ((name, t) ∷ vars) σ
unfolding lookup
insert-Extends name t vars σ x h n u e = ground (arith, text_eq_iff name n, x n u)

pub lookup-insert : (name : Text) (t : Ty) (vars : Vars) → lookup name ((name, t) ∷ vars) ≡ some t
unfolding lookup
lookup-insert name t vars = rw ((text_eq_iff name name).1 refl)

pub map₂-eq-some :
    {A B C : Type 0} (f : A → B → C) (x : Option A) (y : Option B) {c : C}
    → map₂ f x y ≡ some c
    → (a : A) × (b : B) × (x ≡ some a) × (y ≡ some b) × (f a b ≡ c)
map₂-eq-some f (some a) (some b) h = (a, b, refl, refl, ground (arith, h))
map₂-eq-some f none y h = cc
map₂-eq-some f (some a) none h = cc

-- A part is defined and its image known, so the whole is.
pub map-some :
    {A B : Type 0} (f : A → B) (x : Option A) {a : A} → x ≡ some a → Option.map f x ≡ some (f a)
map-some f x h = rw h

pub map₂-some :
    {A B C : Type 0} (f : A → B → C) (x : Option A) (y : Option B) {a : A} {b : B}
    → x ≡ some a
    → y ≡ some b
    → map₂ f x y ≡ some (f a b)
map₂-some f x y h k = rw (h, k)

mutual
  unfolding substitute

  pub substitute-Extends :
      (t : Ty) (u v : Vars) (s : Ty)
      → Extends u v
      → substitute t u ≡ some s
      → substitute t v ≡ some s
  substitute-Extends (var name) u v s h e = h name s e
  substitute-Extends (faultable t) u v s h e =
      let (a, p, q) = (Option.map-eq-some_iff faultable (substitute t u)).0 e in
      rw (substitute-Extends t u v a h p) (ap some q)
  substitute-Extends (seq t) u v s h e =
      let (a, p, q) = (Option.map-eq-some_iff seq (substitute t u)).0 e in
      rw (substitute-Extends t u v a h p) (ap some q)
  substitute-Extends (stream t) u v s h e =
      let (a, p, q) = (Option.map-eq-some_iff stream (substitute t u)).0 e in
      rw (substitute-Extends t u v a h p) (ap some q)
  substitute-Extends (one_of ts) u v s h e =
      let (a, p, q) = (Option.map-eq-some_iff one_of (substitute_items ts u)).0 e in
      rw (substitute_items-Extends ts u v a h p) (ap some q)
  substitute-Extends (tuple ts) u v s h e =
      let (a, p, q) = (Option.map-eq-some_iff tuple (substitute_items ts u)).0 e in
      rw (substitute_items-Extends ts u v a h p) (ap some q)
  substitute-Extends (struct name fs) u v s h e =
      let (a, p, q) = (Option.map-eq-some_iff (struct name) (substitute_fields fs u)).0 e in
      rw (substitute_fields-Extends fs u v a h p) (ap some q)
  substitute-Extends empty_seq u v s h e = e
  substitute-Extends _ u v s h e = e

  pub substitute_items-Extends :
      (ts : Types) (u v : Vars) (s : Types)
      → Extends u v
      → substitute_items ts u ≡ some s
      → substitute_items ts v ≡ some s
  substitute_items-Extends nil u v s h e = e
  substitute_items-Extends (cons t ts) u v s h e =
      let (a, b, p, q, r) = map₂-eq-some cons (substitute t u) (substitute_items ts u) e in
      rw (substitute-Extends t u v a h p, substitute_items-Extends ts u v b h q) (ap some r)

  pub substitute_fields-Extends :
      (fs : Fields) (u v : Vars) (s : Fields)
      → Extends u v
      → substitute_fields fs u ≡ some s
      → substitute_fields fs v ≡ some s
  substitute_fields-Extends end u v s h e = e
  substitute_fields-Extends (field name t fs) u v s h e =
      let (a, b, p, q, r) = map₂-eq-some (field name) (substitute t u) (substitute_fields fs u) e in
      rw (substitute-Extends t u v a h p, substitute_fields-Extends fs u v b h q) (ap some r)
