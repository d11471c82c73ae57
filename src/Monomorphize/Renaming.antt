-- ===== src/Monomorphize/Renaming.antt =====
-- The rewriting of node names keeps what the renaming of one keeps.
use flow_arrow.Prelude.{◌≡◌, refl, Option, none, some, List, [], ◌∷◌, Text}
use flow_arrow.Ast.{
  Endpoint, Endpoints, FieldValues, Stage, Stages, MatchArms, MatchGuard, MatchTarget, Chain,
  Callable, no_fields, field_value, no_stages, stage, no_arms, arm,
}
use flow_arrow.Monomorphize.{Bindings, rename_to, rewrite_node_name}
use flow_arrow.Monomorphize.Rewrite.{
  Mono, rewrite_endpoint, rewrite_endpoints, rewrite_fields, rewrite_stage, rewrite_stages,
  rewrite_arms, rewrite_guard, rewrite_target, rewrite_chains, rewrite_callable_refs,
}
use flow_arrow.Monomorphize.Keeps.{Keeps, Keeps-pure, Keeps-fail, Keeps-then}

abbrev pub Any : {A : Type 0} → A → Type 0
Any _ = Unit

module _ (rename : Text → Mono Text) (h : (n : Text) → Keeps Any (rename n)) where
  mutual
    unfolding rewrite_endpoint

    rewrite_endpoint-Keeps : (e : Endpoint) → Keeps Any (rewrite_endpoint rename e)
    rewrite_endpoint-Keeps (Endpoint.name n) = Keeps-then _ _ (h n) λ _. Keeps-pure _ tt
    rewrite_endpoint-Keeps (Endpoint.tuple es) =
        Keeps-then _ _ (rewrite_endpoints-Keeps es) λ _. Keeps-pure _ tt
    rewrite_endpoint-Keeps (Endpoint.seq es) =
        Keeps-then _ _ (rewrite_endpoints-Keeps es) λ _. Keeps-pure _ tt
    rewrite_endpoint-Keeps (Endpoint.struct n fs) =
        Keeps-then _ _ (rewrite_fields-Keeps fs) λ _. Keeps-pure _ tt
    rewrite_endpoint-Keeps (Endpoint.eval e ss) =
        Keeps-then _ _ (rewrite_endpoint-Keeps e)
          λ _. Keeps-then _ _ (rewrite_stages-Keeps ss) λ _. Keeps-pure _ tt
    rewrite_endpoint-Keeps _ = Keeps-pure _ tt

    rewrite_endpoints-Keeps : (es : Endpoints) → Keeps Any (rewrite_endpoints rename es)
    rewrite_endpoints-Keeps Endpoints.nil = Keeps-pure _ tt
    rewrite_endpoints-Keeps (Endpoints.cons e es) =
        Keeps-then _ _ (rewrite_endpoint-Keeps e)
          λ _. Keeps-then _ _ (rewrite_endpoints-Keeps es) λ _. Keeps-pure _ tt

    rewrite_fields-Keeps : (fs : FieldValues) → Keeps Any (rewrite_fields rename fs)
    rewrite_fields-Keeps no_fields = Keeps-pure _ tt
    rewrite_fields-Keeps (field_value n e fs) =
        Keeps-then _ _ (rewrite_endpoint-Keeps e)
          λ _. Keeps-then _ _ (rewrite_fields-Keeps fs) λ _. Keeps-pure _ tt

    rewrite_stage-Keeps : (s : Stage) → Keeps Any (rewrite_stage rename s)
    rewrite_stage-Keeps (Stage.endpoint e) =
        Keeps-then _ _ (rewrite_endpoint-Keeps e) λ _. Keeps-pure _ tt
    rewrite_stage-Keeps (Stage.match_arms arms) =
        Keeps-then _ _ (rewrite_arms-Keeps arms) λ _. Keeps-pure _ tt
    rewrite_stage-Keeps (Stage.bind t) = Keeps-pure _ tt
    rewrite_stage-Keeps (Stage.field n) = Keeps-pure _ tt
    rewrite_stage-Keeps (Stage.map n) = Keeps-then _ _ (h n) λ _. Keeps-pure _ tt
    rewrite_stage-Keeps (Stage.filter n) = Keeps-then _ _ (h n) λ _. Keeps-pure _ tt
    rewrite_stage-Keeps (Stage.reduce n e) = Keeps-then _ _ (h n) λ _. Keeps-pure _ tt
    rewrite_stage-Keeps (Stage.scan n e) = Keeps-then _ _ (h n) λ _. Keeps-pure _ tt
    rewrite_stage-Keeps (Stage.fault_map n a b) = Keeps-then _ _ (h n) λ _. Keeps-pure _ tt
    rewrite_stage-Keeps (Stage.repeat e n) = Keeps-then _ _ (h n) λ _. Keeps-pure _ tt

    rewrite_stages-Keeps : (ss : Stages) → Keeps Any (rewrite_stages rename ss)
    rewrite_stages-Keeps no_stages = Keeps-pure _ tt
    rewrite_stages-Keeps (stage s ss) =
        Keeps-then _ _ (rewrite_stage-Keeps s)
          λ _. Keeps-then _ _ (rewrite_stages-Keeps ss) λ _. Keeps-pure _ tt

    rewrite_arms-Keeps : (arms : MatchArms) → Keeps Any (rewrite_arms rename arms)
    rewrite_arms-Keeps no_arms = Keeps-pure _ tt
    rewrite_arms-Keeps (arm g t arms) = Keeps-then _ _ (rewrite_guard-Keeps g) λ _.
        Keeps-then _ _ (rewrite_target-Keeps t)
          λ _. Keeps-then _ _ (rewrite_arms-Keeps arms) λ _. Keeps-pure _ tt

    rewrite_guard-Keeps : (g : MatchGuard) → Keeps Any (rewrite_guard rename g)
    rewrite_guard-Keeps (MatchGuard.call n es) =
        Keeps-then _ _ (h n) λ _. Keeps-then _ _ (rewrite_endpoints-Keeps es) λ _. Keeps-pure _ tt
    rewrite_guard-Keeps MatchGuard.fallback = Keeps-pure _ tt

    rewrite_target-Keeps : (t : MatchTarget) → Keeps Any (rewrite_target rename t)
    rewrite_target-Keeps (MatchTarget.node n) = Keeps-then _ _ (h n) λ _. Keeps-pure _ tt
    rewrite_target-Keeps (MatchTarget.value e) =
        Keeps-then _ _ (rewrite_endpoint-Keeps e) λ _. Keeps-pure _ tt

  rewrite_chains-Keeps : (chains : List Chain) → Keeps Any (rewrite_chains rename chains)
  unfolding rewrite_chains
  rewrite_chains-Keeps [] = Keeps-pure _ tt
  rewrite_chains-Keeps (c ∷ cs) = Keeps-then _ _ (rewrite_endpoint-Keeps c.source) λ _.
      Keeps-then _ _ (rewrite_stages-Keeps c.stages)
        λ _. Keeps-then _ _ (rewrite_chains-Keeps cs) λ _. Keeps-pure _ tt

  -- Rewriting leaves the parameters of a callable.
  pub rewrite_callable_refs-Keeps :
      (callable : Callable)
      → Keeps (λ c. c.node_params ≡ callable.node_params) (rewrite_callable_refs rename callable)
  unfolding rewrite_callable_refs
  rewrite_callable_refs-Keeps callable =
      Keeps-then _ _ (rewrite_chains-Keeps callable.chains) λ _. Keeps-pure _ refl

module _ (inst : Text → List Text → Mono Text)
    (h : (t : Text) (args : List Text) → Keeps Any (inst t args)) where
  rename_to-Keeps :
      (bindings : Bindings) (o : Option Text) (base : Text) (args : List Text)
      → Keeps Any (rename_to inst bindings o base args)
  rename_to-Keeps bindings (some actual) base [] = Keeps-pure _ tt
  rename_to-Keeps bindings (some actual) base (_ ∷ _) = Keeps-fail _ tt
  rename_to-Keeps bindings none base [] = Keeps-pure _ tt
  rename_to-Keeps bindings none base (_ ∷ _) = h _ _

  pub rewrite_node_name-Keeps :
      (bindings : Bindings) (name : Text) → Keeps Any (rewrite_node_name inst bindings name)
  unfolding rewrite_node_name
  rewrite_node_name-Keeps bindings name = rename_to-Keeps bindings _ _ _
