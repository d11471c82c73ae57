-- ===== src/Types/Unwrap.antt =====
-- The laws of `unwrap_faultable_tuple_type`, against a description of its result without the flag of the code.
use flow_arrow.Prelude.{
  ◌≡◌, refl, ap, ap₂, ◌⊎◌, inl, inr, ◌||◌, Bool, true, false, none, some, Bool-cases, or-eq-false,
}
use flow_arrow.Types.{
  Ty, Types, faultable, tuple, nil, cons, unwrap_faultable_tuple_type, unwrap_items, unwrap_item,
}

-- What a component of a tuple becomes: a `Faultable` what it holds, and so in the tuples within.
abbrev mutual
  pub component : Ty → Ty
  component (faultable t) = t
  component (tuple ts) = tuple (components ts)
  component t = t

  pub components : Types → Types
  components nil = nil
  components (cons t ts) = cons (component t) (components ts)

-- What a value of type `t` becomes where the faults of its components are handed on.
abbrev pub handed_on : Ty → Ty
handed_on (tuple ts) = tuple (components ts)
handed_on t = t

-- A component is a `Faultable`, or a tuple with such a component.
pub data HasFaultable : Types → Type 0 where
  here : (t : Ty) (ts : Types) → HasFaultable (cons (faultable t) ts)
  inside : (ts us : Types) → HasFaultable ts → HasFaultable (cons (tuple ts) us)
  later : (t : Ty) (ts : Types) → HasFaultable ts → HasFaultable (cons t ts)

abbrev pub HoldsFaultable : Ty → Type 0
HoldsFaultable (tuple ts) = HasFaultable ts
HoldsFaultable _ = ⊥

or-cases : (a b : Bool) → (a || b) ≡ true → (a ≡ true) ⊎ (b ≡ true)
or-cases true b h = inl refl
or-cases false b h = inr h

or-true : (a : Bool) → (a || true) ≡ true
or-true true = refl
or-true false = refl

-- Without a `Faultable` in sight the components stay, and else they are handed on.
mutual
  unfolding unwrap_faultable_tuple_type

  unwrap_item-same : (t : Ty) → (unwrap_item t).0 ≡ false → (unwrap_item t).1 ≡ t
  unwrap_item-same (faultable t) h = cc
  unwrap_item-same (tuple ts) h = rw h refl
  unwrap_item-same t h = refl

  unwrap_items-same : (ts : Types) → (unwrap_items ts).0 ≡ false → (unwrap_items ts).1 ≡ ts
  unwrap_items-same nil h = refl
  unwrap_items-same (cons t ts) h =
      let (a, b) = or-eq-false (unwrap_item t).0 (unwrap_items ts).0 h in
      ap₂ cons (unwrap_item-same t a) (unwrap_items-same ts b)

mutual
  unfolding unwrap_faultable_tuple_type

  unwrap_item-component : (t : Ty) → (unwrap_item t).1 ≡ component t
  unwrap_item-component (faultable t) = refl
  unwrap_item-component (tuple ts) = elim (Bool-cases (unwrap_items ts).0) [
    | inl saw ↦ rw saw (ap tuple (unwrap_items-components ts))
    | inr not_saw ↦
        rw not_saw (ap tuple (cc (unwrap_items-same ts not_saw, unwrap_items-components ts)))
  ]
  unwrap_item-component t = refl

  unwrap_items-components : (ts : Types) → (unwrap_items ts).1 ≡ components ts
  unwrap_items-components nil = refl
  unwrap_items-components (cons t ts) =
      ap₂ cons (unwrap_item-component t) (unwrap_items-components ts)

-- The flag is set exactly where a `Faultable` is held.
mutual
  unfolding unwrap_faultable_tuple_type

  saw-HasFaultable : (ts : Types) → (unwrap_items ts).0 ≡ true → HasFaultable ts
  saw-HasFaultable nil h = cc
  saw-HasFaultable (cons t ts) h = elim (or-cases (unwrap_item t).0 (unwrap_items ts).0 h) [
    | inl a ↦ saw_item-HasFaultable t ts a
    | inr b ↦ later t ts (saw-HasFaultable ts b)
  ]

  saw_item-HasFaultable :
      (t : Ty) (ts : Types) → (unwrap_item t).0 ≡ true → HasFaultable (cons t ts)
  saw_item-HasFaultable (faultable t) ts h = here t ts
  saw_item-HasFaultable (tuple us) ts h = inside us ts (saw-HasFaultable us h)
  saw_item-HasFaultable t ts h = cc

HasFaultable-saw : (ts : Types) → HasFaultable ts → (unwrap_items ts).0 ≡ true
unfolding unwrap_faultable_tuple_type
HasFaultable-saw _ (here t ts) = refl
HasFaultable-saw _ (inside ts us h) = rw (HasFaultable-saw ts h)
HasFaultable-saw _ (later t ts h) = rw (HasFaultable-saw ts h) (or-true (unwrap_item t).0)

-- The result of the code: nothing is handed on, or what is described above.
pub unwrap_cases :
    (t : Ty)
    → ((unwrap_faultable_tuple_type t ≡ none) × (handed_on t ≡ t) × (¬ HoldsFaultable t))
      ⊎ ((unwrap_faultable_tuple_type t ≡ some (handed_on t)) × HoldsFaultable t)
unfolding unwrap_faultable_tuple_type
unwrap_cases (tuple ts) = elim (Bool-cases (unwrap_items ts).0) [
  | inl saw ↦ inr (rw (saw, unwrap_items-components ts) refl, saw-HasFaultable ts saw)
  | inr not_saw ↦ inl (
    rw not_saw refl,
    ap tuple (cc (unwrap_items-same ts not_saw, unwrap_items-components ts)),
    λ h. absurd (cc (not_saw, HasFaultable-saw ts h)),
  )
]
unwrap_cases t = inl (refl, refl, λ h. h)
