-- ===== src/Typecheck/Ground/Match.antt =====
-- A match with a ground type binds variables to ground types.
use flow_arrow.Prelude.{
  ℕ, zero, suc, ◌≡◌, refl, Option, none, some, Text, text_eq, ◌||◌, ◌&&◌, ◌==◌, ok, err, panic,
  out_of_fuel, Holds, held, errs, panics, stops, ◌⨾◌, Holds-if,
}
use flow_arrow.Types.{
  Ty, Types, Fields, TypeError, TyResult, stream, faultable, seq, tuple, one_of, struct, var,
  empty_seq, nil, cons, end, field, ty_eq, length_types, length_fields,
}
use flow_arrow.Types.Substitute.{Vars, lookup}
use flow_arrow.Types.Match.{
  Matcher, is_seq, match_var, match_one_of, match_items, match_fields, match_other, match_arms,
  match_at, match_types,
}
use flow_arrow.Typecheck.Ground.{IsGround, AreGround, FieldsGround, GroundVars}

match_var-Ground :
    (name : Text) (a : Ty) (v : Vars)
    → IsGround a
    → GroundVars v
    → Holds GroundVars (match_var name a v)
unfolding match_var
match_var-Ground name a v p g = go (lookup name v) refl
  where
    go : (o : Option Ty) → lookup name v ≡ o → Holds GroundVars (match_var name a v)
    go (some bound) e =
        rw (match_var, e)
          (Holds-if (ty_eq bound a || (ty_eq a empty_seq && is_seq bound)) (λ _. held g)
            (λ _. errs))
    go none e = rw (match_var, e) (Holds-if (ty_eq a empty_seq) (λ _. held g) (λ _. held (p, g)))

module _ (rec : Matcher)
    (rec-Ground : (e a : Ty) (v : Vars)
      → IsGround a
      → GroundVars v
      → Holds GroundVars (rec e a v)) where
  match_one_of-Ground :
      (es : Types) (a : Ty) (v : Vars) (last : TypeError)
      → IsGround a
      → GroundVars v
      → Holds GroundVars (match_one_of rec es a v last)
  unfolding match_one_of
  match_one_of-Ground nil a v last p g = errs
  match_one_of-Ground (cons e es) a v last p g =
      go (rec e a v) (rec-Ground e a v p g) (λ e'. match_one_of-Ground es a v e' p g)
    where
      go :
          (r : TyResult Vars)
          → Holds GroundVars r
          → ((e' : TypeError) → Holds GroundVars (match_one_of rec es a v e'))
          → Holds GroundVars (elim r [
            | ok v' ↦ ok v'
            | err e' ↦ match_one_of rec es a v e'
            | panic ↦ panic
            | out_of_fuel ↦ out_of_fuel
          ])
      go (ok v') h k = h
      go (err e') h k = k e'
      go panic h k = panics
      go out_of_fuel h k = stops

  match_items-Ground :
      (es as' : Types) (v : Vars)
      → AreGround as'
      → GroundVars v
      → Holds GroundVars (match_items rec es as' v)
  unfolding match_items
  match_items-Ground nil as' v p g = held g
  match_items-Ground (cons _ _) nil v p g = held g
  match_items-Ground (cons e es) (cons a as') v (p, ps) g =
      rec-Ground e a v p g ⨾ λ v' g'. match_items-Ground es as' v' ps g'

  match_fields-Ground :
      (es as' : Fields) (v : Vars)
      → FieldsGround as'
      → GroundVars v
      → Holds GroundVars (match_fields rec es as' v)
  unfolding match_fields
  match_fields-Ground end as' v p g = held g
  match_fields-Ground (field _ _ _) end v p g = held g
  match_fields-Ground (field en e es) (field an a as') v (p, ps) g =
      Holds-if (text_eq en an)
        (λ _. rec-Ground e a v p g ⨾ λ v' g'. match_fields-Ground es as' v' ps g') (λ _. errs)

  match_other-Ground :
      (e a : Ty) (v : Vars) → IsGround a → GroundVars v → Holds GroundVars (match_other rec e a v)
  unfolding match_other
  match_other-Ground e (one_of _) v p g = absurd p
  match_other-Ground e _ v p g = errs

  match_arms-Ground :
      (e a : Ty) (v : Vars) → IsGround a → GroundVars v → Holds GroundVars (match_arms rec e a v)
  unfolding match_arms
  match_arms-Ground (seq e) empty_seq v p g = held g
  match_arms-Ground (var name) a v p g = match_var-Ground name a v p g
  match_arms-Ground (faultable e) (faultable a) v p g = rec-Ground e a v p g
  match_arms-Ground (seq e) (seq a) v p g = rec-Ground e a v p g
  match_arms-Ground (stream e) (stream a) v p g = rec-Ground e a v p g
  match_arms-Ground (one_of es) a v p g = match_one_of-Ground es a v _ p g
  match_arms-Ground (tuple es) (tuple as') v p g =
      Holds-if (length_types es == length_types as') (λ _. match_items-Ground es as' v p g)
        (λ _. errs)
  match_arms-Ground (struct en es) (struct an as') v p g =
      Holds-if (text_eq en an && length_fields es == length_fields as')
        (λ _. match_fields-Ground es as' v p g) (λ _. errs)
  match_arms-Ground e a v p g = match_other-Ground e a v p g

match_at-Ground :
    (fuel : ℕ) (e a : Ty) (v : Vars)
    → IsGround a
    → GroundVars v
    → Holds GroundVars (match_at fuel e a v)
unfolding match_at
match_at-Ground zero e a v p g = stops
match_at-Ground (suc fuel) e a v p g =
    Holds-if (ty_eq e a) (λ _. held g)
      (λ _. match_arms-Ground (match_at fuel) (match_at-Ground fuel) e a v p g)

pub match_types-Ground :
    (e a : Ty) (v : Vars) → IsGround a → GroundVars v → Holds GroundVars (match_types e a v)
unfolding match_types
match_types-Ground e a v p g = match_at-Ground _ e a v p g
