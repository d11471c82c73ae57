-- ===== src/Types/Match/Complete.antt =====
-- `match_types` finds an instance where there is one, and binds no more than it needs.
use mathlib.Core.Option
use flow_arrow.Prelude.{
  ℕ, zero, suc, ◌+◌, ◌≤◌, ◌∙◌, true, false, ==_refl, ◌≡◌, refl, ap, [], ◌∷◌, Text, text_eq_iff,
  Option, none, some, arith, ok, ◌>>=◌, Bool-cases, inl, inr,
}
use flow_arrow.Types.{
  Ty, Types, Fields, TyResult, stream, faultable, seq, tuple, one_of, struct, var, empty_seq, nil,
  cons, end, field, ty_eq, ty_eq_iff, size, size_types, size_fields, length_types, length_fields,
}
use flow_arrow.Types.Substitute.{
  Vars, lookup, substitute, substitute_items, substitute_fields, map₂-eq-some, Extends,
  insert-Extends,
}
use flow_arrow.Types.Match.{
  Matcher, match_var, match_items, match_fields, match_arms, match_at, match_types,
}
use flow_arrow.Types.Match.Plain.{IsPlain, ArePlain, FieldsPlain, size_pos, IsPlain-ne-empty_seq}

-- The run succeeds, with bindings among those of `σ`.
abbrev Within : Vars → TyResult Vars → Type 0
Within σ r = (v : Vars) × (r ≡ ok v) × Extends v σ

Within-bind :
    (σ : Vars) (r : TyResult Vars) (f : Vars → TyResult Vars)
    → Within σ r
    → ((v : Vars) → Extends v σ → Within σ (f v))
    → Within σ (r >>= f)
Within-bind σ r f (v, e, x) k = rw e (k v x)

pub ty_eq_refl : (t : Ty) → ty_eq t t ≡ true
ty_eq_refl t = (ty_eq_iff t t).1 refl

match_var-Within :
    (name : Text) (a : Ty) (v σ : Vars)
    → IsPlain a
    → Extends v σ
    → lookup name σ ≡ some a
    → Within σ (match_var name a v)
unfolding match_var
match_var-Within name a v σ p x s = go (lookup name v) refl
  where
    go : (o : Option Ty) → lookup name v ≡ o → Within σ (match_var name a v)
    go (some bound) e =
        let same : bound ≡ a = cc (x name bound e) in
        rw (e, match_var) (rw (same, ty_eq_refl a) (v, refl, x))
    go none e =
        rw (e, match_var)
          (elim (Bool-cases (ty_eq a empty_seq)) [
            | inl empty ↦ absurd (IsPlain-ne-empty_seq a p empty)
            | inr other ↦ rw other ((name, a) ∷ v, refl, insert-Extends name a v σ x s)
          ])

length-substitute_items :
    (es : Types) (σ : Vars) {as' : Types}
    → substitute_items es σ ≡ some as'
    → length_types es ≡ length_types as'
unfolding substitute
length-substitute_items nil σ h = ground (arith, h)
length-substitute_items (cons e es) σ h =
    let (a, as', p, q, r) = map₂-eq-some cons (substitute e σ) (substitute_items es σ) h in
    ap suc (length-substitute_items es σ q) ∙ ap length_types r

length-substitute_fields :
    (es : Fields) (σ : Vars) {as' : Fields}
    → substitute_fields es σ ≡ some as'
    → length_fields es ≡ length_fields as'
unfolding substitute
length-substitute_fields end σ h = ground (arith, h)
length-substitute_fields (field n e es) σ h =
    let (a, as', p, q, r) = map₂-eq-some (field n) (substitute e σ) (substitute_fields es σ) h in
    ap suc (length-substitute_fields es σ q) ∙ ap length_fields r

-- The loops, over a matcher that serves types of at most `n` nodes together.
module _ (σ : Vars) (rec : Matcher) (n : ℕ)
    (rec-Within : (e a : Ty) (v : Vars)
      → size e + size a ≤ n
      → IsPlain a
      → Extends v σ
      → substitute e σ ≡ some a
      → Within σ (rec e a v)) where
  match_items-Within :
      (es as' : Types) (v : Vars)
      → size_types es + size_types as' ≤ n
      → ArePlain as'
      → Extends v σ
      → substitute_items es σ ≡ some as'
      → Within σ (match_items rec es as' v)
  unfolding match_items substitute
  match_items-Within nil as' v h p x s = (v, refl, x)
  match_items-Within (cons e es) nil v h p x s = (v, refl, x)
  match_items-Within (cons e es) (cons a as') v h (p, ps) x s =
      let (b, bs, q, qs, r) = map₂-eq-some cons (substitute e σ) (substitute_items es σ) s in
      Within-bind σ _ _ (rec-Within e a v (omega arith) p x (q ∙ ap some (cc r)))
        λ v' x'. match_items-Within es as' v' (omega arith) ps x' (qs ∙ ap some (cc r))

  match_fields-Within :
      (es as' : Fields) (v : Vars)
      → size_fields es + size_fields as' ≤ n
      → FieldsPlain as'
      → Extends v σ
      → substitute_fields es σ ≡ some as'
      → Within σ (match_fields rec es as' v)
  unfolding match_fields substitute
  match_fields-Within end as' v h p x s = (v, refl, x)
  match_fields-Within (field _ e es) end v h p x s = (v, refl, x)
  match_fields-Within (field en e es) (field an a as') v h (p, ps) x s =
      let (b, bs, q, qs, r) = map₂-eq-some (field en) (substitute e σ) (substitute_fields es σ) s in
      rw ((text_eq_iff en an).1 (cc r)) (
        Within-bind σ _ _ (rec-Within e a v (omega arith) p x (q ∙ ap some (cc r)))
          λ v' x'. match_fields-Within es as' v' (omega arith) ps x' (qs ∙ ap some (cc r)))

  match_arms-Within :
      (e a : Ty) (v : Vars)
      → size e + size a ≤ suc n
      → IsPlain a
      → Extends v σ
      → ty_eq e a ≡ false
      → substitute e σ ≡ some a
      → Within σ (match_arms rec e a v)
  unfolding match_arms substitute
  match_arms-Within (var name) a v h p x d s = match_var-Within name a v σ p x s
  match_arms-Within (faultable e) (faultable a) v h p x d s =
      let (b, q, r) = (Option.map-eq-some_iff faultable (substitute e σ)).0 s in
      rec-Within e a v (omega arith) p x (q ∙ ap some (cc r))
  match_arms-Within (seq e) empty_seq v h p x d s = absurd p
  match_arms-Within (seq e) (seq a) v h p x d s =
      let (b, q, r) = (Option.map-eq-some_iff seq (substitute e σ)).0 s in
      rec-Within e a v (omega arith) p x (q ∙ ap some (cc r))
  match_arms-Within (stream e) (stream a) v h p x d s =
      let (b, q, r) = (Option.map-eq-some_iff stream (substitute e σ)).0 s in
      rec-Within e a v (omega arith) p x (q ∙ ap some (cc r))
  match_arms-Within (tuple es) (tuple as') v h p x d s =
      let (bs, q, r) = (Option.map-eq-some_iff tuple (substitute_items es σ)).0 s in
      let same : substitute_items es σ ≡ some as' = q ∙ ap some (cc r) in
      rw (length-substitute_items es σ same, ==_refl)
        (match_items-Within es as' v (omega arith) p x same)
  match_arms-Within (struct en es) (struct an as') v h p x d s =
      let (bs, q, r) = (Option.map-eq-some_iff (struct en) (substitute_fields es σ)).0 s in
      let same : substitute_fields es σ ≡ some as' = q ∙ ap some (cc r) in
      rw ((text_eq_iff en an).1 (cc r), length-substitute_fields es σ same, ==_refl)
        (match_fields-Within es as' v (omega arith) p x same)
  match_arms-Within (one_of es) a v h p x d s =
      let (bs, q, r) = (Option.map-eq-some_iff one_of (substitute_items es σ)).0 s in
      absurd (rw (← r) at p)
  match_arms-Within (faultable e) a v h p x d s =
      let (b, q, r) = (Option.map-eq-some_iff faultable (substitute e σ)).0 s in cc r
  match_arms-Within (seq e) a v h p x d s =
      let (b, q, r) = (Option.map-eq-some_iff seq (substitute e σ)).0 s in cc r
  match_arms-Within (stream e) a v h p x d s =
      let (b, q, r) = (Option.map-eq-some_iff stream (substitute e σ)).0 s in cc r
  match_arms-Within (tuple es) a v h p x d s =
      let (b, q, r) = (Option.map-eq-some_iff tuple (substitute_items es σ)).0 s in cc r
  match_arms-Within (struct n es) a v h p x d s =
      let (b, q, r) = (Option.map-eq-some_iff (struct n) (substitute_fields es σ)).0 s in cc r
  match_arms-Within e a v h p x d s = cc (ty_eq_refl a)

match_at-Within :
    (σ : Vars) (fuel : ℕ) (e a : Ty) (v : Vars)
    → size e + size a ≤ fuel
    → IsPlain a
    → Extends v σ
    → substitute e σ ≡ some a
    → Within σ (match_at fuel e a v)
unfolding match_at
match_at-Within σ zero e a v h p x s = absurd (omega (arith, size_pos e))
match_at-Within σ (suc fuel) e a v h p x s = elim (Bool-cases (ty_eq e a)) [
  | inl same ↦ rw same (v, refl, x)
  | inr differ ↦
      rw differ
        (match_arms-Within σ (match_at fuel) fuel (match_at-Within σ fuel) e a v h p x differ s)
]

-- If some bindings of the type variables make the expected type the actual, plain, type, then
-- matching from no bindings succeeds, and what it binds is among those bindings.
pub match_types_complete :
    (expected actual : Ty) (σ : Vars)
    → IsPlain actual
    → substitute expected σ ≡ some actual
    → (vars : Vars) × (match_types expected actual [] ≡ ok vars) × Extends vars σ
unfolding match_types lookup
match_types_complete expected actual σ p s =
    match_at-Within σ _ expected actual [] (omega arith) p (λ n t h. cc) s
