-- ===== src/Types/Match/Sound.antt =====
-- `match_types` ends within its fuel, keeps the bindings that it is given, and on plain types
-- finds an instance.
use flow_arrow.Prelude.{
  ℕ, zero, suc, ◌+◌, ◌≤◌, ◌∙◌, true, ◌||◌, ◌&&◌, ◌==◌, ==→eq, ◌≡◌, refl, ap, Text, text_eq,
  text_eq_iff, Option, none, some, arith, Ensures, Ensures-ok, returns, raises, ok, err, Ensures-if,
  Ensures-weaken, ◌⟫◌, Outcome, panic, out_of_fuel, Bool-cases, inl, inr, and-eq-true,
}
use flow_arrow.Types.{
  Ty, Types, Fields, TypeError, stream, faultable, seq, tuple, one_of, struct, var, empty_seq, nil,
  cons, end, field, ty_eq, ty_eq_iff, size, size_types, size_fields, length_types, length_fields,
}
use flow_arrow.Types.Substitute.{
  Vars, lookup, substitute, substitute_items, substitute_fields, Extends, Extends-refl,
  Extends-trans, Extends-insert, lookup-insert, substitute-Extends, map-some, map₂-some,
}
use flow_arrow.Types.Match.{
  Matcher, is_seq, match_var, match_one_of, match_each, match_items, match_fields, match_other,
  match_arms, match_at, match_types,
}
use flow_arrow.Types.Match.Plain.{
  IsPlain, ArePlain, FieldsPlain, NoUnion, NoUnions, NoFieldUnion, substitute-IsPlain, Matched,
  size_pos, IsPlain-ne-empty_seq,
}

match_var-Matched :
    (name : Text) (a : Ty) (v : Vars) → Ensures (Matched (var name) a v) (match_var name a v)
unfolding match_var substitute
match_var-Matched name a v = go (lookup name v) refl
  where
    same :
        (bound : Ty)
        → (ty_eq bound a || (ty_eq a empty_seq && is_seq bound)) ≡ true
        → IsPlain a
        → bound ≡ a
    same bound h p = elim (Bool-cases (ty_eq bound a)) [
      | inl q ↦ (ty_eq_iff bound a).0 q
      | inr q ↦ absurd (IsPlain-ne-empty_seq a p (and-eq-true _ _ (rw q at h)).0)
    ]

    go : (o : Option Ty) → lookup name v ≡ o → Ensures (Matched (var name) a v) (match_var name a v)
    go (some bound) e =
        rw (e, match_var)
          (Ensures-if (ty_eq bound a || (ty_eq a empty_seq && is_seq bound))
            (λ h. returns (Extends-refl v, λ _ p. e ∙ ap some (same bound h p))) (λ _. raises))
    go none e =
        rw (e, match_var)
          (Ensures-if (ty_eq a empty_seq)
            (λ h. returns (Extends-refl v, λ _ p. absurd (IsPlain-ne-empty_seq a p h)))
            (λ _. returns (Extends-insert name a v e, λ _ _. lookup-insert name a v)))

-- The loops, over a matcher that serves types of at most `n` nodes together.
module _ (rec : Matcher) (n : ℕ)
    (rec-Matched : (e a : Ty) (v : Vars)
      → size e + size a ≤ n
      → Ensures (Matched e a v) (rec e a v)) where
  match_one_of-Extends :
      (es : Types) (a : Ty) (v : Vars) (last : TypeError)
      → size_types es + size a ≤ n
      → Ensures (Extends v) (match_one_of rec es a v last)
  unfolding match_one_of
  match_one_of-Extends nil a v last h = raises
  match_one_of-Extends (cons e es) a v last h =
      go (rec e a v) (rec-Matched e a v (omega arith))
        (λ e'. match_one_of-Extends es a v e' (omega arith))
    where
      go :
          (r : Outcome TypeError Vars)
          → Ensures (Matched e a v) r
          → ((e' : TypeError) → Ensures (Extends v) (match_one_of rec es a v e'))
          → Ensures (Extends v) (elim r [
            | ok v' ↦ ok v'
            | err e' ↦ match_one_of rec es a v e'
            | panic ↦ panic
            | out_of_fuel ↦ out_of_fuel
          ])
      go (ok v') (returns h) k = returns h.0
      go (err e') raises k = k e'
      go panic x k = elim x [ ]
      go out_of_fuel x k = elim x [ ]

  match_each-Extends :
      (e : Ty) (as' : Types) (v : Vars)
      → size e + size_types as' ≤ n
      → Ensures (Extends v) (match_each rec e as' v)
  unfolding match_each
  match_each-Extends e nil v h = returns (Extends-refl v)
  match_each-Extends e (cons a as') v h = rec-Matched e a v (omega arith) ⟫ λ v' m.
      Ensures-weaken (λ v'' x. Extends-trans v v' v'' m.0 x)
        (match_each-Extends e as' v' (omega arith))

  match_items-Matched :
      (es as' : Types) (v : Vars)
      → length_types es ≡ length_types as'
      → size_types es + size_types as' ≤ n
      → Ensures
          (λ v'. Extends v v' × (NoUnions es → ArePlain as' → substitute_items es v' ≡ some as'))
          (match_items rec es as' v)
  unfolding match_items substitute
  match_items-Matched nil nil v l h = returns (Extends-refl v, λ _ _. refl)
  match_items-Matched nil (cons _ _) v l h = absurd (omega arith)
  match_items-Matched (cons _ _) nil v l h = absurd (omega arith)
  match_items-Matched (cons e es) (cons a as') v l h = rec-Matched e a v (omega arith) ⟫ λ v' m.
      Ensures-weaken
        (λ v'' x. (
          Extends-trans v v' v'' m.0 x.0,
          λ (u, us) (p, ps).
              map₂-some cons _ _ (substitute-Extends e v' v'' a x.0 (m.1 u p)) (x.1 us ps),
        ))
        (match_items-Matched es as' v' (omega arith) (omega arith))

  match_fields-Matched :
      (es as' : Fields) (v : Vars)
      → length_fields es ≡ length_fields as'
      → size_fields es + size_fields as' ≤ n
      → Ensures
          (λ v'.
            Extends v v' × (NoFieldUnion es → FieldsPlain as' → substitute_fields es v' ≡ some as'))
          (match_fields rec es as' v)
  unfolding match_fields substitute
  match_fields-Matched end end v l h = returns (Extends-refl v, λ _ _. refl)
  match_fields-Matched end (field _ _ _) v l h = absurd (omega arith)
  match_fields-Matched (field _ _ _) end v l h = absurd (omega arith)
  match_fields-Matched (field en e es) (field an a as') v l h =
      Ensures-if (text_eq en an)
        (λ same. rec-Matched e a v (omega arith) ⟫ λ v' m.
          Ensures-weaken
            (λ v'' x. (
              Extends-trans v v' v'' m.0 x.0,
              λ (u, us) (p, ps).
                  map₂-some (field en) _ _ (substitute-Extends e v' v'' a x.0 (m.1 u p)) (x.1 us ps)
                  ∙ ap (λ k. some (field k a as')) ((text_eq_iff en an).0 same),
            ))
            (match_fields-Matched es as' v' (omega arith) (omega arith)))
        (λ _. raises)

  match_other-Matched :
      (e a : Ty) (v : Vars)
      → size e + size a ≤ suc n
      → Ensures (Matched e a v) (match_other rec e a v)
  unfolding match_other
  match_other-Matched e (one_of as') v h =
      Ensures-weaken (λ v' x. (x, λ _ p. absurd p)) (match_each-Extends e as' v (omega arith))
  match_other-Matched e _ v h = raises

  match_arms-Matched :
      (e a : Ty) (v : Vars)
      → size e + size a ≤ suc n
      → Ensures (Matched e a v) (match_arms rec e a v)
  unfolding match_arms substitute
  match_arms-Matched (seq e) empty_seq v h = returns (Extends-refl v, λ _ p. absurd p)
  match_arms-Matched (var name) a v h = match_var-Matched name a v
  match_arms-Matched (faultable e) (faultable a) v h =
      Ensures-weaken (λ v' m. (m.0, λ u p. map-some faultable _ (m.1 u p)))
        (rec-Matched e a v (omega arith))
  match_arms-Matched (seq e) (seq a) v h =
      Ensures-weaken (λ v' m. (m.0, λ u p. map-some seq _ (m.1 u p)))
        (rec-Matched e a v (omega arith))
  match_arms-Matched (stream e) (stream a) v h =
      Ensures-weaken (λ v' m. (m.0, λ u p. map-some stream _ (m.1 u p)))
        (rec-Matched e a v (omega arith))
  match_arms-Matched (one_of es) a v h =
      Ensures-weaken (λ v' x. (x, λ u. absurd u)) (match_one_of-Extends es a v _ (omega arith))
  match_arms-Matched (tuple es) (tuple as') v h =
      Ensures-if (length_types es == length_types as')
        (λ same.
          Ensures-weaken (λ v' m. (m.0, λ u p. map-some tuple _ (m.1 u p)))
            (match_items-Matched es as' v (==→eq _ _ same) (omega arith)))
        (λ _. raises)
  match_arms-Matched (struct en es) (struct an as') v h =
      Ensures-if (text_eq en an && length_fields es == length_fields as')
        (λ same.
          let (names, lengths) = and-eq-true _ _ same in
          Ensures-weaken
            (λ v' m. (
              m.0,
              λ u p.
                  map-some (struct en) _ (m.1 u p)
                  ∙ ap (λ k. some (struct k as')) ((text_eq_iff en an).0 names),
            ))
            (match_fields-Matched es as' v (==→eq _ _ lengths) (omega arith)))
        (λ _. raises)
  match_arms-Matched e a v h = match_other-Matched e a v h

pub match_at-Matched :
    (fuel : ℕ) (e a : Ty) (v : Vars)
    → size e + size a ≤ fuel
    → Ensures (Matched e a v) (match_at fuel e a v)
unfolding match_at
match_at-Matched zero e a v h = absurd (omega (arith, size_pos e))
match_at-Matched (suc fuel) e a v h =
    Ensures-if (ty_eq e a)
      (λ same.
        returns (Extends-refl v, λ _ p. rw ((ty_eq_iff e a).0 same) (substitute-IsPlain a v p)))
      (λ _. match_arms-Matched (match_at fuel) fuel (match_at-Matched fuel) e a v h)

-- Matching ends, with a map of the variables or with a type error, and a map that it returns keeps
-- every binding of the one it was given.
pub match_types-Extends :
    (expected actual : Ty) (vars : Vars) → Ensures (Extends vars) (match_types expected actual vars)
unfolding match_types
match_types-Extends expected actual vars =
    Ensures-weaken (λ v m. m.0) (match_at-Matched _ expected actual vars (omega arith))

-- Where the expected type has no union and the actual type is plain, a successful match returns
-- bindings under which the expected type is the actual type.
pub match_types-substitute :
    (expected actual : Ty) (vars vars' : Vars)
    → NoUnion expected
    → IsPlain actual
    → match_types expected actual vars ≡ ok vars'
    → substitute expected vars' ≡ some actual
unfolding match_types
match_types-substitute expected actual vars vars' u p h =
    (Ensures-ok (match_at-Matched _ expected actual vars (omega arith)) h).1 u p
