-- ===== src/Typecheck/Chain.antt =====
-- src/typecheck.rs: `check_chain`, the types of the stages of a chain and the values that it binds.
pub mod Single
use flow_arrow.Prelude.{
  ℕ, suc, Bool, true, false, not, ◌==◌, none, some, List, [], ◌∷◌, ◌++◌, Text, codes, ok, err,
  ◌>>=◌, ◌>>◌, if◌then◌else◌,
}
use flow_arrow.Types.{Ty, Types, i64, faultable, tuple, nil, cons, length_types, contains_empty_seq}
use flow_arrow.Types.Substitute.{Vars, lookup}
use flow_arrow.Ast.{
  BindingTarget, BindingTargets, Endpoint, Stage, Stages, no_stages, Chain, Callable,
}
use flow_arrow.Typecheck.{
  Checker, Check, refuse, bound_twice, no_empty_seq, expected_tuple, tuple_count,
  misplaced_variable, misplaced_endpoint, misplaced_bind, fault_map_last,
}
use flow_arrow.Typecheck.Nodes.{apply_node}
use flow_arrow.Typecheck.Apply.{
  expect_type, apply_field, apply_map, apply_fault_map, apply_filter, apply_repeat, apply_reduce,
  apply_scan,
}
use flow_arrow.Typecheck.Endpoint.{endpoint_type, apply_match}

unfoldable pub faultable_projection_type : Ty → Ty
faultable_projection_type (faultable t) = faultable t
faultable_projection_type t = faultable t

abbrev pub project_all : Types → Types
project_all nil = nil
project_all (cons t ts) = cons (faultable_projection_type t) (project_all ts)

abbrev pub length_targets : BindingTargets → ℕ
length_targets BindingTargets.nil = 0
length_targets (BindingTargets.cons _ items) = suc (length_targets items)

-- The types of the parts of a tuple of `count` targets.
unfoldable pub target_fields : BindingTarget → ℕ → Ty → Check Types
target_fields target count (tuple types) =
    if length_types types == count
    then ok types
    else err (tuple_count target count (length_types types))
target_fields target count (faultable (tuple types)) =
    if length_types types == count
    then ok (project_all types)
    else err (tuple_count target count (length_types types))
target_fields target count t = err (expected_tuple target t)

unfoldable mutual
  pub binding_target_types : BindingTarget → Ty → Check Vars
  binding_target_types BindingTarget.discard t = ok []
  binding_target_types (BindingTarget.variable name) t = ok ((name, t) ∷ [])
  binding_target_types (BindingTarget.tuple items) t =
      target_fields (BindingTarget.tuple items) (length_targets items) t >>= λ types.
      zip_bindings items types

  pub zip_bindings : BindingTargets → Types → Check Vars
  zip_bindings (BindingTargets.cons item items) (cons t types) =
      binding_target_types item t >>= λ first.
      zip_bindings items types >>= λ rest. ok (first ++ rest)
  zip_bindings _ _ = ok []

-- `if env.insert(…).is_some() { return Err(…) }`
unfoldable pub insert_new : Text → Ty → Vars → Check Vars
insert_new name t env = elim (lookup name env) [
  | some _ ↦ err (bound_twice name)
  | none ↦ ok ((name, t) ∷ env)
]

unfoldable pub bind_all : Vars → Vars → Check Vars
bind_all [] env = ok env
bind_all ((name, t) ∷ bindings) env =
    refuse (contains_empty_seq t) no_empty_seq
    >> (insert_new name t env >>= λ env'. bind_all bindings env')

abbrev pub is_last : Stages → Bool
is_last no_stages = true
is_last (Stages.stage _ _) = false

module _ (self : Checker) (callable : Callable) where
  -- The arms of the loop: the type of the value and the values behind the stage. A stage that binds
  -- leaves the type of the value as it is.
  unfoldable pub check_stage : Bool → Ty → Vars → Stage → Check (Ty × Vars)
  check_stage true t env (Stage.bind target) =
      binding_target_types target t >>= λ bindings. bind_all bindings env >>= λ env'. ok (t, env')
  check_stage false t env (Stage.bind _) = err misplaced_bind
  check_stage last t env (Stage.endpoint (Endpoint.name name)) =
      apply_node self callable name t false false >>= λ t'. ok (t', env)
  check_stage last t env (Stage.endpoint (Endpoint.variable _)) = err misplaced_variable
  check_stage last t env (Stage.endpoint _) = err misplaced_endpoint
  check_stage last t env (Stage.map name) = apply_map self callable name t >>= λ t'. ok (t', env)
  check_stage last t env (Stage.fault_map name ok_name fault_name) =
      refuse (not last) fault_map_last
      >> (apply_fault_map self callable name t >>= λ (ok_type, fault_type).
          insert_new ok_name ok_type env >>= λ env'.
          insert_new fault_name fault_type env' >>= λ env''. ok (t, env''))
  check_stage last t env (Stage.filter name) =
      apply_filter self callable name t >>= λ t'. ok (t', env)
  check_stage last t env (Stage.field name) = apply_field name t >>= λ t'. ok (t', env)
  check_stage last t env (Stage.repeat count name) = endpoint_type self env count >>= λ c.
      expect_type (codes "repeat count") c i64
      >> (apply_repeat self callable name t >>= λ t'. ok (t', env))
  check_stage last t env (Stage.reduce op identity) = endpoint_type self env identity >>= λ i.
      apply_reduce self callable op t i >>= λ t'. ok (t', env)
  check_stage last t env (Stage.scan op identity) = endpoint_type self env identity >>= λ i.
      apply_scan self callable op t i >>= λ t'. ok (t', env)
  check_stage last t env (Stage.match_arms arms) =
      apply_match self env callable arms t >>= λ t'. ok (t', env)

  unfoldable pub check_stages : Ty → Vars → Stages → Check Vars
  check_stages t env no_stages = ok env
  check_stages t env (Stages.stage s stages) =
      check_stage (is_last stages) t env s >>= λ (t', env'). check_stages t' env' stages

  unfoldable pub check_chain : Vars → Chain → Check Vars
  check_chain env chain =
      endpoint_type self env chain.source >>= λ t. check_stages t env chain.stages

  unfoldable pub check_chains : Vars → List Chain → Check Vars
  check_chains env [] = ok env
  check_chains env (chain ∷ chains) = check_chain env chain >>= λ env'. check_chains env' chains
