-- ===== src/Typecheck/Aliases/Missing.antt =====
-- What the resolution of declared types counts, and the runs in it that end.
use flow_arrow.Prelude.{
  ℕ, ◌+◌, ◌≤◌, ◌<◌, Bool, true, false, ◌||◌, ◌≡◌, refl, Bool-cases, inl, inr, Option, none, some,
  List, [], ◌∷◌, Text, text_eq, text_eq_iff, length, arith, ◌>>◌, Ensures, returns, raises,
  Ensures-if, ◌⟫◌,
}
use flow_arrow.Types.{
  Ty, Types, Fields, TyResult, stream, faultable, seq, tuple, one_of, struct, var, nil, cons, end,
  field, ty_eq,
}
use flow_arrow.Types.Substitute.{Vars}
use flow_arrow.Typecheck.{CheckError, Check, get, some_or, map_err, refuse, in_type}
use flow_arrow.Typecheck.Declare.{
  validate_declared_type, validate_items, validate_fields, any_value,
}
use flow_arrow.Typecheck.Aliases.{Raw, on_stack}

-- The names that are not in work.
abbrev gap : Bool → ℕ
gap true = 0
gap false = 1

abbrev pub missing {ℓ} : {A : Type ℓ} → List (Text × A) → List Text → ℕ
missing [] names = 0
missing ((n, _) ∷ entries) names = gap (on_stack n names) + missing entries names

abbrev pub left : Raw → List Text → ℕ
left raw names = missing raw.aliases names + missing raw.structs names

gap-or : (b c : Bool) → gap (b || c) ≤ gap c
gap-or true true = omega arith
gap-or true false = omega arith
gap-or false c = omega arith

pub missing-length {ℓ} :
    {A : Type ℓ} → (entries : List (Text × A)) → missing entries [] ≤ length entries
missing-length [] = omega arith
missing-length (_ ∷ entries) = omega (arith, missing-length entries)

pub missing-push {ℓ} :
    {A : Type ℓ}
    → (name : Text) (entries : List (Text × A)) (names : List Text)
    → missing entries (name ∷ names) ≤ missing entries names
missing-push name [] names = omega arith
missing-push name ((n, _) ∷ entries) names =
    omega (arith, gap-or (text_eq name n) (on_stack n names), missing-push name entries names)

pub missing-get {ℓ} :
    {A : Type ℓ}
    → (name : Text) (entries : List (Text × A)) (names : List Text) (a : A)
    → get name entries ≡ some a
    → on_stack name names ≡ false
    → missing entries (name ∷ names) < missing entries names
unfolding get
missing-get name [] names a h k = cc
missing-get name ((n, b) ∷ entries) names a h k = elim (Bool-cases (text_eq n name)) [
  | inl same ↦
      let e : n ≡ name = (text_eq_iff n name).0 same in
      rw (e, (text_eq_iff name name).1 refl, k) (omega (arith, missing-push name entries names))
  | inr differ ↦ omega (
    arith,
    gap-or (text_eq name n) (on_stack n names),
    missing-get name entries names a (rw differ at h) k,
  )
]

pub some_or-Ensures :
    {A : Type 0} (o : Option A) (e : CheckError) → Ensures (λ a. o ≡ some a) (some_or o e)
some_or-Ensures (some a) e = returns refl
some_or-Ensures none e = raises

pub map_err-Ensures :
    {A : Type 0} {P : A → Type 0} {r : TyResult A} → Ensures P r → Ensures P (map_err in_type r)
map_err-Ensures (returns h) = returns h
map_err-Ensures raises = raises

-- A test that refuses, before what follows.
pub unless :
    {A : Type 0} {P : A → Type 0} (test : Bool) (e : CheckError) {r : Check A}
    → Ensures P r
    → Ensures P (refuse test e >> r)
unfolding refuse
unless true e h = raises
unless false e h = h

module _ (types : Vars) where
  mutual
    unfolding validate_declared_type

    pub validate-Ends : (t : Ty) → Ensures (λ _. Unit {0}) (validate_declared_type types t)
    validate-Ends (faultable t) = validate-Ends t
    validate-Ends (seq t) = validate-Ends t
    validate-Ends (stream t) = unless _ _ (validate-Ends t)
    validate-Ends (one_of ts) = raises
    validate-Ends (tuple ts) = validate_items-Ends ts
    validate-Ends (struct _ fs) = validate_fields-Ends fs
    validate-Ends (var _) = raises
    validate-Ends t = Ensures-if (any_value (ty_eq t) types) (λ _. returns tt) (λ _. raises)

    validate_items-Ends : (ts : Types) → Ensures (λ _. Unit {0}) (validate_items types ts)
    validate_items-Ends nil = returns tt
    validate_items-Ends (cons t ts) = validate-Ends t ⟫ λ _ _. validate_items-Ends ts

    validate_fields-Ends : (fs : Fields) → Ensures (λ _. Unit {0}) (validate_fields types fs)
    validate_fields-Ends end = returns tt
    validate_fields-Ends (field _ t fs) = validate-Ends t ⟫ λ _ _. validate_fields-Ends fs
