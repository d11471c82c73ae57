-- ===== src/Monomorphize/Rewrite.antt =====
-- src/monomorphize.rs: the state, and the rewriting of the node names in a callable, over what is done
-- with a name.
use flow_arrow.Prelude
use flow_arrow.Prelude.{ℕ, List, [], ◌∷◌, Text, Outcome, ok, err}
use flow_arrow.Ast.{
  Endpoint, Endpoints, FieldValues, Stage, Stages, MatchArms, MatchGuard, MatchTarget, Chain,
  Callable, no_fields, field_value, no_stages, stage, no_arms, arm,
}

pub record InstanceKey : Type 0 where
  pub template : Text
  pub args : List Text

pub record Monomorphizer : Type 0 where
  pub templates : List (Text × Callable)
  pub instances : List (InstanceKey × Text)
  pub generated : List Callable
  pub active : List InstanceKey

pub data MonoError : Type 0 where
  program_params recursive_instance not_static param_with_args : Text → MonoError
  wrong_count : Text → ℕ → ℕ → MonoError

abbrev pub Mono : Type 0 → Type 0
Mono A = Monomorphizer → Outcome MonoError (A × Monomorphizer)

unfoldable pub pure : {A : Type 0} → A → Mono A
pure a s = ok (a, s)

unfoldable pub fail : {A : Type 0} → MonoError → Mono A
fail e s = err e

infixr 5 ◌>>=◌
unfoldable pub ◌>>=◌ : {A B : Type 0} → Mono A → (A → Mono B) → Mono B
◌>>=◌ m k s = Prelude.◌>>=◌ (m s) (λ r. k r.0 r.1)

-- `rewrite_endpoint` and `rewrite_stage`, over `rewrite_node_name`.
unfoldable mutual
  pub rewrite_endpoint : (Text → Mono Text) → Endpoint → Mono Endpoint
  rewrite_endpoint rename (Endpoint.name n) = rename n >>= λ n'. pure (Endpoint.name n')
  rewrite_endpoint rename (Endpoint.tuple es) =
      rewrite_endpoints rename es >>= λ es'. pure (Endpoint.tuple es')
  rewrite_endpoint rename (Endpoint.seq es) =
      rewrite_endpoints rename es >>= λ es'. pure (Endpoint.seq es')
  rewrite_endpoint rename (Endpoint.struct n fs) =
      rewrite_fields rename fs >>= λ fs'. pure (Endpoint.struct n fs')
  rewrite_endpoint rename (Endpoint.eval source ss) = rewrite_endpoint rename source >>= λ source'.
      rewrite_stages rename ss >>= λ ss'. pure (Endpoint.eval source' ss')
  rewrite_endpoint rename other = pure other

  pub rewrite_endpoints : (Text → Mono Text) → Endpoints → Mono Endpoints
  rewrite_endpoints rename Endpoints.nil = pure Endpoints.nil
  rewrite_endpoints rename (Endpoints.cons e es) = rewrite_endpoint rename e >>= λ e'.
      rewrite_endpoints rename es >>= λ es'. pure (Endpoints.cons e' es')

  pub rewrite_fields : (Text → Mono Text) → FieldValues → Mono FieldValues
  rewrite_fields rename no_fields = pure no_fields
  rewrite_fields rename (field_value n e fs) = rewrite_endpoint rename e >>= λ e'.
      rewrite_fields rename fs >>= λ fs'. pure (field_value n e' fs')

  pub rewrite_stage : (Text → Mono Text) → Stage → Mono Stage
  rewrite_stage rename (Stage.endpoint e) =
      rewrite_endpoint rename e >>= λ e'. pure (Stage.endpoint e')
  rewrite_stage rename (Stage.bind t) = pure (Stage.bind t)
  rewrite_stage rename (Stage.field n) = pure (Stage.field n)
  rewrite_stage rename (Stage.map n) = rename n >>= λ n'. pure (Stage.map n')
  rewrite_stage rename (Stage.filter n) = rename n >>= λ n'. pure (Stage.filter n')
  rewrite_stage rename (Stage.reduce op e) = rename op >>= λ op'. pure (Stage.reduce op' e)
  rewrite_stage rename (Stage.scan op e) = rename op >>= λ op'. pure (Stage.scan op' e)
  rewrite_stage rename (Stage.fault_map n a b) = rename n >>= λ n'. pure (Stage.fault_map n' a b)
  rewrite_stage rename (Stage.repeat e n) = rename n >>= λ n'. pure (Stage.repeat e n')
  rewrite_stage rename (Stage.match_arms arms) =
      rewrite_arms rename arms >>= λ arms'. pure (Stage.match_arms arms')

  pub rewrite_stages : (Text → Mono Text) → Stages → Mono Stages
  rewrite_stages rename no_stages = pure no_stages
  rewrite_stages rename (stage s ss) =
      rewrite_stage rename s >>= λ s'. rewrite_stages rename ss >>= λ ss'. pure (stage s' ss')

  pub rewrite_arms : (Text → Mono Text) → MatchArms → Mono MatchArms
  rewrite_arms rename no_arms = pure no_arms
  rewrite_arms rename (arm g t arms) = rewrite_guard rename g >>= λ g'.
      rewrite_target rename t >>= λ t'. rewrite_arms rename arms >>= λ arms'. pure (arm g' t' arms')

  pub rewrite_guard : (Text → Mono Text) → MatchGuard → Mono MatchGuard
  rewrite_guard rename (MatchGuard.call n es) =
      rename n >>= λ n'. rewrite_endpoints rename es >>= λ es'. pure (MatchGuard.call n' es')
  rewrite_guard rename MatchGuard.fallback = pure MatchGuard.fallback

  pub rewrite_target : (Text → Mono Text) → MatchTarget → Mono MatchTarget
  rewrite_target rename (MatchTarget.node n) = rename n >>= λ n'. pure (MatchTarget.node n')
  rewrite_target rename (MatchTarget.value e) =
      rewrite_endpoint rename e >>= λ e'. pure (MatchTarget.value e')

unfoldable pub rewrite_chains : (Text → Mono Text) → List Chain → Mono (List Chain)
rewrite_chains rename [] = pure []
rewrite_chains rename (chain ∷ chains) = rewrite_endpoint rename chain.source >>= λ source.
    rewrite_stages rename chain.stages >>= λ stages. rewrite_chains rename chains >>= λ rest.
    pure (record { source = source; stages = stages } ∷ rest)

unfoldable pub rewrite_callable_refs : (Text → Mono Text) → Callable → Mono Callable
rewrite_callable_refs rename callable =
    rewrite_chains rename callable.chains >>= λ chains. pure (record callable { chains = chains })
