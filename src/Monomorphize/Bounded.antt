-- ===== src/Monomorphize/Bounded.antt =====
-- Actions that end, on states with the given templates and no more than `n` of the keys without an entry.
use flow_arrow.Prelude
use flow_arrow.Prelude.{
  ℕ, suc, ◌≤◌, Bool, true, false, ◌≡◌, refl, List, [], ◌∷◌, Text, All, Outcome, ok, err, panic,
  out_of_fuel, arith, if◌then◌else◌,
}
use flow_arrow.Ast.{
  Endpoint, Endpoints, FieldValues, Stage, Stages, MatchArms, MatchGuard, MatchTarget, Chain,
  Callable, no_fields, field_value, no_stages, stage, no_arms, arm,
}
use flow_arrow.Monomorphize.Rewrite.{
  InstanceKey, Monomorphizer, MonoError, Mono, pure, ◌>>=◌, fail, rewrite_endpoint,
  rewrite_endpoints, rewrite_fields, rewrite_stage, rewrite_stages, rewrite_arms, rewrite_guard,
  rewrite_target, rewrite_chains, rewrite_callable_refs,
}
use flow_arrow.Monomorphize.Keys.{missing}
use flow_arrow.Monomorphize.Covered.{
  EndpointNames, EndpointsNames, FieldsNames, StageNames, StagesNames, ArmsNames, GuardNames,
  MatchTargetNames, ChainNames, CallableNames,
}

module _ (templates : List (Text × Callable)) (keys : List InstanceKey) where
  abbrev pub Within : ℕ → Monomorphizer → Type 0
  Within n s = (s.templates ≡ templates) × (missing keys s.instances ≤ n)

  abbrev pub Ended : {A : Type 0} → ℕ → Outcome MonoError (A × Monomorphizer) → Type 0
  Ended n (ok (a, s)) = Within n s
  Ended n (err e) = Unit
  Ended n panic = ⊥
  Ended n out_of_fuel = ⊥

  pub record Ends (n : ℕ) {A : Type 0} (m : Mono A) : Type 0 where
    pub at : (s : Monomorphizer) → Within n s → Ended n (m s)

  module _ {n : ℕ} {A : Type 0} where
    pub Ends-pure : (a : A) → Ends n (pure a)
    unfolding pure
    Ends-pure a = record { at = λ s w. w }

    pub Ends-fail : (e : MonoError) → Ends n {A = A} (fail e)
    unfolding fail
    Ends-fail e = record { at = λ s w. tt }

    pub Ends-if : (b : Bool) (m k : Mono A) → Ends n m → Ends n k → Ends n (if b then m else k)
    Ends-if true m k h g = h
    Ends-if false m k h g = g

  module _ {n : ℕ} {A B : Type 0} (m : Mono A) (k : A → Mono B) where
    Ended-bind :
        (r : Outcome MonoError (A × Monomorphizer))
        → Ended n r
        → ((a : A) → Ends n (k a))
        → Ended n (Prelude.◌>>=◌ r (λ x. k x.0 x.1))
    Ended-bind (ok (a, s)) h g = (g a).at s h
    Ended-bind (err e) h g = tt
    Ended-bind panic h g = h
    Ended-bind out_of_fuel h g = h

    pub Ends-bind : Ends n m → ((a : A) → Ends n (k a)) → Ends n (m >>= k)
    unfolding ◌>>=◌
    Ends-bind h g = record { at = λ s w. Ended-bind (m s) (h.at s w) g }

  module _ {n : ℕ} (P : Text → Type 0) (rename : Text → Mono Text)
      (h : (t : Text) → P t → Ends n (rename t)) where
    mutual
      unfolding rewrite_endpoint

      rewrite_endpoint-Ends :
          (e : Endpoint) → EndpointNames P e → Ends n (rewrite_endpoint rename e)
      rewrite_endpoint-Ends (Endpoint.name t) p = Ends-bind _ _ (h t p) λ _. Ends-pure _
      rewrite_endpoint-Ends (Endpoint.tuple es) p =
          Ends-bind _ _ (rewrite_endpoints-Ends es p) λ _. Ends-pure _
      rewrite_endpoint-Ends (Endpoint.seq es) p =
          Ends-bind _ _ (rewrite_endpoints-Ends es p) λ _. Ends-pure _
      rewrite_endpoint-Ends (Endpoint.struct t fs) p =
          Ends-bind _ _ (rewrite_fields-Ends fs p) λ _. Ends-pure _
      rewrite_endpoint-Ends (Endpoint.eval e ss) (p, q) =
          Ends-bind _ _ (rewrite_endpoint-Ends e p)
            λ _. Ends-bind _ _ (rewrite_stages-Ends ss q) λ _. Ends-pure _
      rewrite_endpoint-Ends _ p = Ends-pure _

      rewrite_endpoints-Ends :
          (es : Endpoints) → EndpointsNames P es → Ends n (rewrite_endpoints rename es)
      rewrite_endpoints-Ends Endpoints.nil p = Ends-pure _
      rewrite_endpoints-Ends (Endpoints.cons e es) (p, q) =
          Ends-bind _ _ (rewrite_endpoint-Ends e p)
            λ _. Ends-bind _ _ (rewrite_endpoints-Ends es q) λ _. Ends-pure _

      rewrite_fields-Ends :
          (fs : FieldValues) → FieldsNames P fs → Ends n (rewrite_fields rename fs)
      rewrite_fields-Ends no_fields p = Ends-pure _
      rewrite_fields-Ends (field_value t e fs) (p, q) =
          Ends-bind _ _ (rewrite_endpoint-Ends e p)
            λ _. Ends-bind _ _ (rewrite_fields-Ends fs q) λ _. Ends-pure _

      rewrite_stage-Ends : (s : Stage) → StageNames P s → Ends n (rewrite_stage rename s)
      rewrite_stage-Ends (Stage.endpoint e) p =
          Ends-bind _ _ (rewrite_endpoint-Ends e p) λ _. Ends-pure _
      rewrite_stage-Ends (Stage.match_arms arms) p =
          Ends-bind _ _ (rewrite_arms-Ends arms p) λ _. Ends-pure _
      rewrite_stage-Ends (Stage.bind t) p = Ends-pure _
      rewrite_stage-Ends (Stage.field t) p = Ends-pure _
      rewrite_stage-Ends (Stage.map t) p = Ends-bind _ _ (h t p) λ _. Ends-pure _
      rewrite_stage-Ends (Stage.filter t) p = Ends-bind _ _ (h t p) λ _. Ends-pure _
      rewrite_stage-Ends (Stage.reduce t e) p = Ends-bind _ _ (h t p) λ _. Ends-pure _
      rewrite_stage-Ends (Stage.scan t e) p = Ends-bind _ _ (h t p) λ _. Ends-pure _
      rewrite_stage-Ends (Stage.fault_map t a b) p = Ends-bind _ _ (h t p) λ _. Ends-pure _
      rewrite_stage-Ends (Stage.repeat e t) p = Ends-bind _ _ (h t p) λ _. Ends-pure _

      rewrite_stages-Ends : (ss : Stages) → StagesNames P ss → Ends n (rewrite_stages rename ss)
      rewrite_stages-Ends no_stages p = Ends-pure _
      rewrite_stages-Ends (stage s ss) (p, q) =
          Ends-bind _ _ (rewrite_stage-Ends s p)
            λ _. Ends-bind _ _ (rewrite_stages-Ends ss q) λ _. Ends-pure _

      rewrite_arms-Ends : (arms : MatchArms) → ArmsNames P arms → Ends n (rewrite_arms rename arms)
      rewrite_arms-Ends no_arms p = Ends-pure _
      rewrite_arms-Ends (arm g t arms) p = Ends-bind _ _ (rewrite_guard-Ends g p.0) λ _.
          Ends-bind _ _ (rewrite_target-Ends t p.1)
            λ _. Ends-bind _ _ (rewrite_arms-Ends arms p.2) λ _. Ends-pure _

      rewrite_guard-Ends : (g : MatchGuard) → GuardNames P g → Ends n (rewrite_guard rename g)
      rewrite_guard-Ends (MatchGuard.call t es) (p, q) =
          Ends-bind _ _ (h t p) λ _. Ends-bind _ _ (rewrite_endpoints-Ends es q) λ _. Ends-pure _
      rewrite_guard-Ends MatchGuard.fallback p = Ends-pure _

      rewrite_target-Ends :
          (t : MatchTarget) → MatchTargetNames P t → Ends n (rewrite_target rename t)
      rewrite_target-Ends (MatchTarget.node t) p = Ends-bind _ _ (h t p) λ _. Ends-pure _
      rewrite_target-Ends (MatchTarget.value e) p =
          Ends-bind _ _ (rewrite_endpoint-Ends e p) λ _. Ends-pure _

    rewrite_chains-Ends :
        (chains : List Chain) → All (ChainNames P) chains → Ends n (rewrite_chains rename chains)
    unfolding rewrite_chains
    rewrite_chains-Ends [] p = Ends-pure _
    rewrite_chains-Ends (c ∷ cs) (p, q) = Ends-bind _ _ (rewrite_endpoint-Ends c.source p.0) λ _.
        Ends-bind _ _ (rewrite_stages-Ends c.stages p.1)
          λ _. Ends-bind _ _ (rewrite_chains-Ends cs q) λ _. Ends-pure _

    pub rewrite_callable_refs-Ends :
        (callable : Callable)
        → CallableNames P callable
        → Ends n (rewrite_callable_refs rename callable)
    unfolding rewrite_callable_refs
    rewrite_callable_refs-Ends callable p =
        Ends-bind _ _ (rewrite_chains-Ends callable.chains p) λ _. Ends-pure _
