-- ===== src/Types/Match.antt =====
-- src/types.rs: `match_types` and what is built on it. The variables, a `&mut HashMap`, are an
-- association list that a successful run returns; no caller reads them after an error. `match_types` recurs into either type, so it takes fuel for the sizes of both.
pub mod Plain
pub mod Sound
pub mod Complete
pub mod Handed
pub mod Assign
use flow_arrow.Prelude.{
  ℕ, zero, suc, ◌+◌, Bool, true, false, ◌&&◌, ◌||◌, ◌==◌, [], ◌∷◌, Text, text_eq, none, some, ok,
  err, panic, out_of_fuel, ◌>>=◌, if◌then◌else◌,
}
use flow_arrow.Types.{
  Ty, Types, Fields, TypeError, TyResult, stream, faultable, seq, tuple, one_of, struct, var,
  empty_seq, nil, cons, field, ty_eq, size, length_types, length_fields, mismatch, rebound,
  no_alternative, struct_field, labelled, unwrap_faultable_tuple_type,
}
use flow_arrow.Types.Substitute.{Vars, lookup}

abbrev pub Matcher : Type 0
Matcher = Ty → Ty → Vars → TyResult Vars

abbrev pub is_seq : Ty → Bool
is_seq (seq _) = true
is_seq _ = false

-- The arm `(Type::Var(name), actual)`.
unfoldable pub match_var : Text → Ty → Vars → TyResult Vars
match_var name actual vars = elim (lookup name vars) [
  | some bound ↦
      if ty_eq bound actual || (ty_eq actual empty_seq && is_seq bound)
      then ok vars
      else err (rebound name bound actual)
  | none ↦ if ty_eq actual empty_seq then ok vars else ok ((name, actual) ∷ vars)
]

-- The loops of the arms, over the matcher that they call.
module _ (rec : Matcher) where
  -- `(Type::OneOf(expected), actual)`: the first alternative that matches, on a copy of the
  -- variables; else the last error.
  unfoldable pub match_one_of : Types → Ty → Vars → TypeError → TyResult Vars
  match_one_of nil actual vars last = err last
  match_one_of (cons expected rest) actual vars last =
      let others = λ (e : TypeError). match_one_of rest actual vars e in
      elim (rec expected actual vars) [
        | ok candidate_vars ↦ ok candidate_vars
        | err e ↦ others e
        | panic ↦ panic
        | out_of_fuel ↦ out_of_fuel
      ]

  -- `(expected, Type::OneOf(actual))`: every alternative.
  unfoldable pub match_each : Ty → Types → Vars → TyResult Vars
  match_each expected nil vars = ok vars
  match_each expected (cons actual rest) vars =
      rec expected actual vars >>= match_each expected rest

  -- `(Type::Tuple(expected), Type::Tuple(actual))`, of one length.
  unfoldable pub match_items : Types → Types → Vars → TyResult Vars
  match_items (cons expected es) (cons actual as') vars =
      rec expected actual vars >>= match_items es as'
  match_items _ _ vars = ok vars

  unfoldable pub match_fields : Fields → Fields → Vars → TyResult Vars
  match_fields (field en et es) (field an at' as') vars =
      if text_eq en an then rec et at' vars >>= match_fields es as' else err (struct_field en an)
  match_fields _ _ vars = ok vars

  -- `(expected, Type::OneOf(actual))`, or the error of the last arm.
  unfoldable pub match_other : Ty → Ty → Vars → TyResult Vars
  match_other expected (one_of actual) vars = match_each expected actual vars
  match_other expected actual vars = err (mismatch expected actual)

  -- The arms, for types that differ.
  unfoldable pub match_arms : Ty → Ty → Vars → TyResult Vars
  match_arms (seq expected) empty_seq vars = ok vars
  match_arms (var name) actual vars = match_var name actual vars
  match_arms (faultable expected) (faultable actual) vars = rec expected actual vars
  -- The arm for a sequence of the empty sequence has the same body.
  match_arms (seq expected) (seq actual) vars = rec expected actual vars
  match_arms (stream expected) (stream actual) vars = rec expected actual vars
  match_arms (one_of expected) actual vars =
      match_one_of expected actual vars (no_alternative expected actual)
  match_arms (tuple expected) (tuple actual) vars =
      if length_types expected == length_types actual
      then match_items expected actual vars
      else err (mismatch (tuple expected) (tuple actual))
  match_arms (struct en expected) (struct an actual) vars =
      if text_eq en an && length_fields expected == length_fields actual
      then match_fields expected actual vars
      else err (mismatch (struct en expected) (struct an actual))
  match_arms expected actual vars = match_other expected actual vars

unfoldable pub match_at : ℕ → Matcher
match_at zero expected actual vars = out_of_fuel
match_at (suc fuel) expected actual vars =
    let arms = match_arms (match_at fuel) expected actual vars in
    if ty_eq expected actual then ok vars else arms

unfoldable pub match_types : Matcher
unfolding match_at
match_types expected actual vars = match_at (size expected + size actual) expected actual vars

-- `Result::or_else`
abbrev pub or_else : TyResult Vars → TyResult Vars → TyResult Vars
or_else (err _) other = other
or_else r other = r

abbrev pub wrap_faultable : Ty → Ty → TyResult Vars
wrap_faultable (faultable inner) actual = elim (unwrap_faultable_tuple_type actual) [
  | some unwrapped ↦ match_types inner unwrapped []
  | none ↦ match_types inner actual []
]
wrap_faultable expected actual = err (mismatch expected actual)

unfoldable pub assignable_type : Ty → Ty → TyResult (Unit {0})
assignable_type expected actual =
    or_else (match_types expected actual []) (wrap_faultable expected actual) >>= λ _. ok tt

abbrev pub common_of : TyResult (Unit {0}) → TyResult (Unit {0}) → Text → Ty → Ty → TyResult Ty
common_of (ok _) _ label current next = ok current
common_of _ (ok _) label current next = ok next
common_of _ _ label current next = err (labelled label current next)

unfoldable pub common_assignable_type : Ty → Ty → Text → TyResult Ty
common_assignable_type current next label =
    common_of (assignable_type current next) (assignable_type next current) label current next
