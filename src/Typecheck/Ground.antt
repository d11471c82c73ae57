-- ===== src/Typecheck/Ground.antt =====
-- Ground types, with no type variable and no union, and what keeps them so.
pub mod Match
pub mod Nodes
pub mod Stages
pub mod Endpoint
pub mod Chain
pub mod Texts
pub mod Library
pub mod Imports
pub mod Declared
pub mod New
use flow_arrow.Prelude.{
  ◌≡◌, ◌||◌, refl, subst, Bool, true, false, List, [], ◌∷◌, Text, Option, none, some, text_eq,
  Bool-cases, inl, inr, or-eq-false, All,
}
use flow_arrow.Types.{
  Ty, Types, Fields, stream, faultable, seq, tuple, one_of, struct, var, nil, cons, end, field,
  strip_faultable, strip_items, strip_fields, inner_faultable, contains_empty_seq,
}
use flow_arrow.Types.Substitute.{
  Vars, lookup, substitute, substitute_items, substitute_fields, map₂-eq-some,
}
use mathlib.Core.Option
use flow_arrow.Types.Match.Plain.{NoUnion, NoUnions, NoFieldUnion}

abbrev mutual
  pub IsGround : Ty → Type 0
  IsGround (var _) = ⊥
  IsGround (one_of _) = ⊥
  IsGround (stream t) = IsGround t
  IsGround (faultable t) = IsGround t
  IsGround (seq t) = IsGround t
  IsGround (tuple ts) = AreGround ts
  IsGround (struct _ fs) = FieldsGround fs
  IsGround _ = Unit

  pub AreGround : Types → Type 0
  AreGround nil = Unit
  AreGround (cons t ts) = IsGround t × AreGround ts

  pub FieldsGround : Fields → Type 0
  FieldsGround end = Unit
  FieldsGround (field _ t fs) = IsGround t × FieldsGround fs

abbrev pub GroundVars : Vars → Type 0
GroundVars [] = Unit
GroundVars ((_, t) ∷ vars) = IsGround t × GroundVars vars

pub lookup-IsGround :
    (name : Text) (vars : Vars) (t : Ty) → GroundVars vars → lookup name vars ≡ some t → IsGround t
unfolding lookup
lookup-IsGround name [] t h e = cc
lookup-IsGround name ((n, u) ∷ vars) t (h, hs) e = elim (Bool-cases (text_eq n name)) [
  | inl same ↦ subst IsGround {x = u} {y = t} (cc (rw same at e)) h
  | inr differ ↦ lookup-IsGround name vars t hs (rw differ at e)
]

pub inner-IsGround : (t : Ty) → IsGround t → IsGround (inner_faultable t)
unfolding inner_faultable
inner-IsGround (faultable t) h = h
inner-IsGround t h = h

mutual
  unfolding strip_faultable

  pub strip-IsGround : (t : Ty) → IsGround t → IsGround (strip_faultable t)
  strip-IsGround (faultable t) h = strip-IsGround t h
  strip-IsGround (seq t) h = strip-IsGround t h
  strip-IsGround (stream t) h = strip-IsGround t h
  strip-IsGround (tuple ts) h = strip-AreGround ts h
  strip-IsGround (struct _ fs) h = strip-FieldsGround fs h
  strip-IsGround (one_of _) h = absurd h
  strip-IsGround (var _) h = absurd h
  strip-IsGround _ h = tt

  strip-AreGround : (ts : Types) → AreGround ts → AreGround (strip_items ts)
  strip-AreGround nil h = tt
  strip-AreGround (cons t ts) (h, hs) = (strip-IsGround t h, strip-AreGround ts hs)

  strip-FieldsGround : (fs : Fields) → FieldsGround fs → FieldsGround (strip_fields fs)
  strip-FieldsGround end h = tt
  strip-FieldsGround (field _ t fs) (h, hs) = (strip-IsGround t h, strip-FieldsGround fs hs)

-- A type without unions is ground once its variables have ground types.
mutual
  unfolding substitute

  pub substitute-IsGround :
      (t : Ty) (v : Vars) (s : Ty) → NoUnion t → GroundVars v → substitute t v ≡ some s → IsGround s
  substitute-IsGround (var name) v s u g e = lookup-IsGround name v s g e
  substitute-IsGround (faultable t) v s u g e =
      let (a, p, q) = (Option.map-eq-some_iff faultable (substitute t v)).0 e in
      subst IsGround q (substitute-IsGround t v a u g p)
  substitute-IsGround (seq t) v s u g e =
      let (a, p, q) = (Option.map-eq-some_iff seq (substitute t v)).0 e in
      subst IsGround q (substitute-IsGround t v a u g p)
  substitute-IsGround (stream t) v s u g e =
      let (a, p, q) = (Option.map-eq-some_iff stream (substitute t v)).0 e in
      subst IsGround q (substitute-IsGround t v a u g p)
  substitute-IsGround (one_of ts) v s u g e = absurd u
  substitute-IsGround (tuple ts) v s u g e =
      let (a, p, q) = (Option.map-eq-some_iff tuple (substitute_items ts v)).0 e in
      subst IsGround q (substitute-AreGround ts v a u g p)
  substitute-IsGround (struct name fs) v s u g e =
      let (a, p, q) = (Option.map-eq-some_iff (struct name) (substitute_fields fs v)).0 e in
      subst IsGround q (substitute-FieldsGround fs v a u g p)
  substitute-IsGround Ty.empty_seq v s u g e = subst IsGround {x = Ty.empty_seq} {y = s} (cc e) tt
  substitute-IsGround t v s u g e = subst IsGround {x = t} {y = s} (cc e) tt

  substitute-AreGround :
      (ts : Types) (v : Vars) (s : Types)
      → NoUnions ts
      → GroundVars v
      → substitute_items ts v ≡ some s
      → AreGround s
  substitute-AreGround nil v s u g e = subst AreGround {x = nil} {y = s} (cc e) tt
  substitute-AreGround (cons t ts) v s (u, us) g e =
      let (a, b, p, q, r) = map₂-eq-some cons (substitute t v) (substitute_items ts v) e in
      subst AreGround r (substitute-IsGround t v a u g p, substitute-AreGround ts v b us g q)

  substitute-FieldsGround :
      (fs : Fields) (v : Vars) (s : Fields)
      → NoFieldUnion fs
      → GroundVars v
      → substitute_fields fs v ≡ some s
      → FieldsGround s
  substitute-FieldsGround end v s u g e = subst FieldsGround {x = end} {y = s} (cc e) tt
  substitute-FieldsGround (field n t fs) v s (u, us) g e =
      let (a, b, p, q, r) = map₂-eq-some (field n) (substitute t v) (substitute_fields fs v) e in
      subst FieldsGround r (substitute-IsGround t v a u g p, substitute-FieldsGround fs v b us g q)
