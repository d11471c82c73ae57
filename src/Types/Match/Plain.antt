-- ===== src/Types/Match/Plain.antt =====
-- Plain types, which are those of values, and what substitution does on them.
use flow_arrow.Prelude.{◌<◌, true, ◌≡◌, refl, some, arith}
use flow_arrow.Types.{
  Ty, Types, Fields, stream, faultable, seq, tuple, one_of, struct, var, empty_seq, nil, cons, end,
  field, ty_eq, ty_eq_iff, size,
}
use flow_arrow.Types.Substitute.{
  Vars, substitute, substitute_items, substitute_fields, Extends, map-some, map₂-some,
}

-- No type variable, no union and no empty sequence literal: a type that values have.
abbrev mutual
  pub IsPlain : Ty → Type 0
  IsPlain (var _) = ⊥
  IsPlain (one_of _) = ⊥
  IsPlain empty_seq = ⊥
  IsPlain (stream t) = IsPlain t
  IsPlain (faultable t) = IsPlain t
  IsPlain (seq t) = IsPlain t
  IsPlain (tuple ts) = ArePlain ts
  IsPlain (struct _ fs) = FieldsPlain fs
  IsPlain _ = Unit

  pub ArePlain : Types → Type 0
  ArePlain nil = Unit
  ArePlain (cons t ts) = IsPlain t × ArePlain ts

  pub FieldsPlain : Fields → Type 0
  FieldsPlain end = Unit
  FieldsPlain (field _ t fs) = IsPlain t × FieldsPlain fs

abbrev mutual
  pub NoUnion : Ty → Type 0
  NoUnion (one_of _) = ⊥
  NoUnion (stream t) = NoUnion t
  NoUnion (faultable t) = NoUnion t
  NoUnion (seq t) = NoUnion t
  NoUnion (tuple ts) = NoUnions ts
  NoUnion (struct _ fs) = NoFieldUnion fs
  NoUnion _ = Unit

  pub NoUnions : Types → Type 0
  NoUnions nil = Unit
  NoUnions (cons t ts) = NoUnion t × NoUnions ts

  pub NoFieldUnion : Fields → Type 0
  NoFieldUnion end = Unit
  NoFieldUnion (field _ t fs) = NoUnion t × NoFieldUnion fs

mutual
  unfolding substitute

  pub substitute-IsPlain : (t : Ty) (v : Vars) → IsPlain t → substitute t v ≡ some t
  substitute-IsPlain (stream t) v h = map-some stream _ (substitute-IsPlain t v h)
  substitute-IsPlain (faultable t) v h = map-some faultable _ (substitute-IsPlain t v h)
  substitute-IsPlain (seq t) v h = map-some seq _ (substitute-IsPlain t v h)
  substitute-IsPlain (tuple ts) v h = map-some tuple _ (substitute-ArePlain ts v h)
  substitute-IsPlain (struct n fs) v h = map-some (struct n) _ (substitute-FieldsPlain fs v h)
  substitute-IsPlain (var _) v h = absurd h
  substitute-IsPlain (one_of _) v h = absurd h
  substitute-IsPlain _ v h = refl

  substitute-ArePlain : (ts : Types) (v : Vars) → ArePlain ts → substitute_items ts v ≡ some ts
  substitute-ArePlain nil v h = refl
  substitute-ArePlain (cons t ts) v (h, hs) =
      map₂-some cons _ _ (substitute-IsPlain t v h) (substitute-ArePlain ts v hs)

  substitute-FieldsPlain :
      (fs : Fields) (v : Vars) → FieldsPlain fs → substitute_fields fs v ≡ some fs
  substitute-FieldsPlain end v h = refl
  substitute-FieldsPlain (field n t fs) v (h, hs) =
      map₂-some (field n) _ _ (substitute-IsPlain t v h) (substitute-FieldsPlain fs v hs)

-- What a successful match of `e` with `a` from `v` gives.
abbrev pub Matched : Ty → Ty → Vars → Vars → Type 0
Matched e a v v' = Extends v v' × (NoUnion e → IsPlain a → substitute e v' ≡ some a)

pub size_pos : (t : Ty) → 0 < size t
size_pos (stream t) = omega arith
size_pos _ = omega arith

pub IsPlain-ne-empty_seq : (a : Ty) → IsPlain a → ¬ (ty_eq a empty_seq ≡ true)
IsPlain-ne-empty_seq a p h = rw ((ty_eq_iff a empty_seq).0 h) at p
