-- ===== src/Types/Match/Handed.antt =====
-- What a value becomes where its faultable parts are handed on, and matching between plain types.
use flow_arrow.Prelude.{
  ℕ, suc, ◌+◌, ◌≤◌, ◌<◌, ◌≡◌, refl, ◌⊎◌, zero, inl, inr, arith, [], ok, err, panic, out_of_fuel,
  Ensures,
}
use flow_arrow.Types.{
  Ty, Types, Fields, TyResult, TypeError, stream, faultable, seq, tuple, one_of, struct, nil, cons,
  end, field, size, size_types,
}
use flow_arrow.Types.Unwrap.{
  component, components, handed_on, HasFaultable, here, inside, later, HoldsFaultable, unwrap_cases,
}
use flow_arrow.Types.Substitute.{Vars, Extends}
use flow_arrow.Types.Match.{match_at, match_types, wrap_faultable}
use flow_arrow.Types.Match.Plain.{
  IsPlain, ArePlain, FieldsPlain, NoUnion, NoUnions, NoFieldUnion, size_pos, substitute-IsPlain,
}
use flow_arrow.Types.Match.Sound.{match_types-Extends, match_types-substitute}
use flow_arrow.Types.Match.Complete.{ty_eq_refl}

mutual
  IsPlain-NoUnion : (t : Ty) → IsPlain t → NoUnion t
  IsPlain-NoUnion (stream t) h = IsPlain-NoUnion t h
  IsPlain-NoUnion (faultable t) h = IsPlain-NoUnion t h
  IsPlain-NoUnion (seq t) h = IsPlain-NoUnion t h
  IsPlain-NoUnion (tuple ts) h = ArePlain-NoUnions ts h
  IsPlain-NoUnion (struct _ fs) h = FieldsPlain-NoFieldUnion fs h
  IsPlain-NoUnion (one_of _) h = absurd h
  IsPlain-NoUnion _ h = tt

  ArePlain-NoUnions : (ts : Types) → ArePlain ts → NoUnions ts
  ArePlain-NoUnions nil h = tt
  ArePlain-NoUnions (cons t ts) (h, hs) = (IsPlain-NoUnion t h, ArePlain-NoUnions ts hs)

  FieldsPlain-NoFieldUnion : (fs : Fields) → FieldsPlain fs → NoFieldUnion fs
  FieldsPlain-NoFieldUnion end h = tt
  FieldsPlain-NoFieldUnion (field _ t fs) (h, hs) =
      (IsPlain-NoUnion t h, FieldsPlain-NoFieldUnion fs hs)

-- Handing on the faults of the components keeps a plain type plain, and makes a type that holds one smaller.
mutual
  size-component : (t : Ty) → size (component t) ≤ size t
  size-component (faultable t) = omega arith
  size-component (tuple ts) = omega (arith, size_types-components ts)
  size-component _ = omega arith

  size_types-components : (ts : Types) → size_types (components ts) ≤ size_types ts
  size_types-components nil = omega arith
  size_types-components (cons t ts) = omega (arith, size-component t, size_types-components ts)

components_smaller : (ts : Types) → HasFaultable ts → size_types (components ts) < size_types ts
components_smaller _ (here t ts) = omega (arith, size_types-components ts)
components_smaller _ (inside ts us h) =
    omega (arith, components_smaller ts h, size_types-components us)
components_smaller _ (later t ts h) = omega (arith, size-component t, components_smaller ts h)

pub handed_on_smaller : (t : Ty) → HoldsFaultable t → size (handed_on t) < size t
handed_on_smaller (tuple ts) h = omega (arith, components_smaller ts h)
handed_on_smaller _ h = absurd h

mutual
  component-IsPlain : (t : Ty) → IsPlain t → IsPlain (component t)
  component-IsPlain (faultable t) h = h
  component-IsPlain (tuple ts) h = components-ArePlain ts h
  component-IsPlain _ h = h

  components-ArePlain : (ts : Types) → ArePlain ts → ArePlain (components ts)
  components-ArePlain nil h = tt
  components-ArePlain (cons t ts) (h, hs) = (component-IsPlain t h, components-ArePlain ts hs)

pub handed_on-IsPlain : (t : Ty) → IsPlain t → IsPlain (handed_on t)
handed_on-IsPlain (tuple ts) h = components-ArePlain ts h
handed_on-IsPlain _ h = h

pub match_at_self : (fuel : ℕ) (t : Ty) → 0 < fuel → match_at fuel t t [] ≡ ok []
unfolding match_at
match_at_self zero t h = absurd (omega arith)
match_at_self (suc fuel) t h = rw (ty_eq_refl t)

pub match_types_self : (t : Ty) → match_types t t [] ≡ ok []
unfolding match_types
match_types_self t = match_at_self (size t + size t) t (omega (arith, size_pos t))

-- Plain types match when they are the same type.
pub match_types-eq :
    (s t : Ty) (v : Vars) → IsPlain s → IsPlain t → match_types s t [] ≡ ok v → s ≡ t
match_types-eq s t v p q h =
    cc (match_types-substitute s t [] v (IsPlain-NoUnion s p) q h, substitute-IsPlain s v p)

pub wrap_faultable-handed_on :
    (inner actual : Ty)
    → wrap_faultable (faultable inner) actual ≡ match_types inner (handed_on actual) []
wrap_faultable-handed_on inner actual = elim (unwrap_cases actual) [
  | inl (nothing, same, _) ↦ rw (wrap_faultable, nothing, same) refl
  | inr (handed, _) ↦ rw (wrap_faultable, handed) refl
]

-- A match from no bindings is a success or an error.
pub match_cases :
    (s t : Ty)
    → ((v : Vars) × (match_types s t [] ≡ ok v)) ⊎ ((e : TypeError) × (match_types s t [] ≡ err e))
match_cases s t = go (match_types s t []) (match_types-Extends s t [])
  where
    go :
        (r : TyResult Vars)
        → Ensures (Extends []) r
        → ((v : Vars) × (r ≡ ok v)) ⊎ ((e : TypeError) × (r ≡ err e))
    go (ok v) h = inl (v, refl)
    go (err e) h = inr (e, refl)
    go panic h = elim h [ ]
    go out_of_fuel h = elim h [ ]
