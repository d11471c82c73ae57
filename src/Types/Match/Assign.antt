-- ===== src/Types/Match/Assign.antt =====
-- `assignable_type` and `common_assignable_type`.
use flow_arrow.Prelude.{
  ◌≡◌, ◌≢◌, refl, sym, ap, ◌∙◌, ◌↔◌, ◌⊎◌, inl, inr, Text, arith, ◌>>=◌, ok, err, panic, out_of_fuel,
}
use flow_arrow.Types.{Ty, TyResult, faultable, size}
use flow_arrow.Types.Match.{wrap_faultable, assignable_type, common_of, common_assignable_type}
use flow_arrow.Types.Match.Plain.{IsPlain}
use flow_arrow.Types.Unwrap.{handed_on, HoldsFaultable, unwrap_cases}
use flow_arrow.Types.Match.Handed.{
  handed_on_smaller, match_types_self, match_types-eq, handed_on-IsPlain, wrap_faultable-handed_on,
  match_cases,
}

-- The value of `Ok(())`.
abbrev assigned : TyResult (Unit {0})
assigned = ok tt

second_chance :
    (expected actual : Ty)
    → IsPlain expected
    → IsPlain actual
    → (wrap_faultable expected actual >>= λ _. assigned) ≡ assigned
    → expected ≡ faultable (handed_on actual)
second_chance (faultable inner) a p q h = elim (match_cases inner (handed_on a)) [
  | inl (v, m) ↦ ap faultable (match_types-eq inner (handed_on a) v p (handed_on-IsPlain a q) m)
  | inr (x, m) ↦ cc (rw (wrap_faultable-handed_on inner a, m) at h)
]
second_chance e a p q h = cc

assignable-plain :
    (expected actual : Ty)
    → IsPlain expected
    → IsPlain actual
    → assignable_type expected actual ≡ ok tt
    → (expected ≡ actual) ⊎ (expected ≡ faultable (handed_on actual))
unfolding assignable_type
assignable-plain e a p q h = elim (match_cases e a) [
  | inl (v, m) ↦ inl (match_types-eq e a v p q m)
  | inr (x, m) ↦ inr (second_chance e a p q (rw m at h))
]

pub assignable_type_self : (t : Ty) → assignable_type t t ≡ ok tt
unfolding assignable_type
assignable_type_self t = rw (match_types_self t)

assignable-handed_on : (t : Ty) → assignable_type (faultable (handed_on t)) t ≡ ok tt
unfolding assignable_type
assignable-handed_on t = elim (match_cases (faultable (handed_on t)) t) [
  | inl (v, m) ↦ rw m
  | inr (x, m) ↦ rw (m, wrap_faultable-handed_on, match_types_self)
]

-- Between plain types, a value may flow where its own type is expected, and where the `Faultable` of what its type
-- becomes is expected, and nowhere else: a tuple becomes the tuple in which each `Faultable` component, and each
-- within a tuple component, is what it holds, and any other type stays as it is.
pub assignable_type_iff :
    (expected actual : Ty)
    → IsPlain expected
    → IsPlain actual
    → assignable_type expected actual ≡ ok tt
      ↔ (expected ≡ actual) ⊎ (expected ≡ faultable (handed_on actual))
assignable_type_iff e a p q = (assignable-plain e a p q, from)
  where
    from : (e ≡ a) ⊎ (e ≡ faultable (handed_on a)) → assignable_type e a ≡ ok tt
    from (inl same) = rw same (assignable_type_self a)
    from (inr wrapped) = rw wrapped (assignable-handed_on a)

-- A plain type is assignable to its own `Faultable` exactly when it is no tuple that holds a `Faultable` component,
-- directly or in a tuple within it.
pub assignable_type-faultable_iff :
    (t : Ty) → IsPlain t → assignable_type (faultable t) t ≡ ok tt ↔ (¬ HoldsFaultable t)
assignable_type-faultable_iff t p = (to, from)
  where
    to : assignable_type (faultable t) t ≡ ok tt → ¬ HoldsFaultable t
    to h holds = elim (assignable-plain (faultable t) t p p h) [
      | inl same ↦ omega (arith, ap size same)
      | inr wrapped ↦ omega (arith, handed_on_smaller t holds, ap size wrapped)
    ]

    from : (¬ HoldsFaultable t) → assignable_type (faultable t) t ≡ ok tt
    from h = elim (unwrap_cases t) [
      | inl (_, same, _) ↦ rw same at (assignable-handed_on t)
      | inr (_, holds) ↦ absurd (h holds)
    ]

-- The common type that two types get is one of them, and both of them are assignable to it.
pub common_assignable_type-assignable :
    (current next t : Ty) (label : Text)
    → common_assignable_type current next label ≡ ok t
    → ((t ≡ current) ⊎ (t ≡ next))
      × (assignable_type t current ≡ ok tt)
      × (assignable_type t next ≡ ok tt)
unfolding common_assignable_type
common_assignable_type-assignable current next t label h = sound _ _ refl refl h
  where
    sound :
        (r s : TyResult (Unit {0}))
        → assignable_type current next ≡ r
        → assignable_type next current ≡ s
        → common_of r s label current next ≡ ok t
        → ((t ≡ current) ⊎ (t ≡ next))
          × (assignable_type t current ≡ ok tt)
          × (assignable_type t next ≡ ok tt)
    sound (ok _) s h k e =
        let is_current : t ≡ current = cc e in
        (inl is_current, rw is_current (assignable_type_self current), rw is_current h)
    sound (err _) (ok _) h k e =
        let is_next : t ≡ next = cc e in
        (inr is_next, rw is_next k, rw is_next (assignable_type_self next))
    sound panic (ok _) h k e =
        let is_next : t ≡ next = cc e in
        (inr is_next, rw is_next k, rw is_next (assignable_type_self next))
    sound out_of_fuel (ok _) h k e =
        let is_next : t ≡ next = cc e in
        (inr is_next, rw is_next k, rw is_next (assignable_type_self next))
    sound (err _) _ h k e = cc
    sound panic _ h k e = cc
    sound out_of_fuel _ h k e = cc

-- Above a type, the `Faultable` of what it becomes is assigned no further.
only_above :
    (x y u : Ty)
    → IsPlain x
    → IsPlain y
    → IsPlain u
    → x ≢ y
    → assignable_type x y ≡ ok tt
    → assignable_type u x ≡ ok tt
    → assignable_type u y ≡ ok tt
    → u ≡ x
only_above x y u p q r differ h k l = elim (assignable-plain u x r p k) [
  | inl same ↦ same
  | inr wrapped ↦ elim (assignable-plain x y p q h) [
    | inl same ↦ absurd (differ same)
    | inr above ↦
        let twice : u ≡ faultable (faultable (handed_on y)) =
          wrapped ∙ ap (λ t. faultable (handed_on t)) above in
        absurd (elim (assignable-plain u y r q l) [
          | inl same ↦
              let big : y ≡ faultable (faultable (handed_on y)) = sym same ∙ twice in
              omega (arith, ap size big, ap (λ t. size (handed_on t)) big)
          | inr once ↦ omega (arith, ap size twice, ap size once)
        ])
  ]
]

-- Where two plain types that differ get a common type, it is the only plain type to which both are assignable.
pub common_assignable_type_unique :
    (current next t : Ty) (label : Text) (u : Ty)
    → IsPlain current
    → IsPlain next
    → IsPlain u
    → current ≢ next
    → common_assignable_type current next label ≡ ok t
    → ((assignable_type u current ≡ ok tt) × (assignable_type u next ≡ ok tt)) ↔ (u ≡ t)
common_assignable_type_unique current next t label u p q r differ h = (to one, λ e. rw e above)
  where
    one : (t ≡ current) ⊎ (t ≡ next)
    one = (common_assignable_type-assignable current next t label h).0

    above : (assignable_type t current ≡ ok tt) × (assignable_type t next ≡ ok tt)
    above = let (_, k, l) = common_assignable_type-assignable current next t label h in (k, l)

    to :
        (t ≡ current) ⊎ (t ≡ next)
        → (assignable_type u current ≡ ok tt) × (assignable_type u next ≡ ok tt)
        → u ≡ t
    to (inl e) (k, l) = only_above current next u p q r differ (rw e at above.1) k l ∙ sym e
    to (inr e) (k, l) =
        only_above next current u q p r (λ same. differ (sym same)) (rw e at above.0) l k ∙ sym e
