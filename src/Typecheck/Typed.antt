-- ===== src/Typecheck/Typed.antt =====
-- src/typecheck.rs: the typed tree that the checker hands to code generation, and `type_chain`, which
-- builds it. The field `label`, a text for messages, is left out. `names` is the map of the resolved
-- module from the names of its symbols to their numbers.
use flow_arrow.Prelude.{
  ℕ, Bool, true, false, not, Option, none, some, List, [], ◌∷◌, ◌++◌, Text, codes, ok, err, ◌>>=◌,
  ◌>>◌,
}
use flow_arrow.Prelude.Int.{ℤ}
use flow_arrow.Types.{Ty, Types, i64, f64, f32, bytes, nil, cons, contains_empty_seq}
use flow_arrow.Types.Substitute.{Vars, lookup}
use flow_arrow.Ast.{
  BindingTarget, Endpoint, Endpoints, FieldValues, no_fields, field_value, Stage, Stages, no_stages,
  MatchArms, no_arms, arm, MatchGuard, MatchTarget, Chain, Callable,
}
use flow_arrow.NodeRef.{parse_static_node_ref}
use flow_arrow.Typecheck.{
  Checker, Check, get, some_or, refuse, unknown_value, expected_value, inline_bind, inline_endpoint,
  inline_fault_map, fallback_last, no_empty_seq, misplaced_variable, misplaced_endpoint,
  misplaced_bind, fault_map_last,
}
use flow_arrow.Typecheck.Nodes.{apply_node}
use flow_arrow.Typecheck.Apply.{
  expect_type, apply_field, apply_map, apply_fault_map, apply_filter, apply_repeat, apply_reduce,
  apply_scan,
}
use flow_arrow.Typecheck.Endpoint.{
  inline_callable, next_item_type, seq_type, length_values, around_fields, literal_fields,
  around_arms, next_arm_type, guard_node, guard_call, is_empty_arms,
}
use flow_arrow.Typecheck.Chain.{binding_target_types, insert_new, is_last}

pub record TypedPort : Type 0 where
  pub name : Text
  pub ty : Ty

abbrev pub Symbol : Type 0
Symbol = Option ℕ

mutual
  pub data TypedEndpoint : Type 0 where
    typed_endpoint : Ty → TypedEndpointKind → TypedEndpoint

  pub data TypedEndpointKind : Type 0 where
    variable : Text → TypedEndpointKind
    int : ℤ → TypedEndpointKind
    real real_f32 : Text → TypedEndpointKind
    bool : Bool → TypedEndpointKind
    string : Text → TypedEndpointKind
    unit : TypedEndpointKind
    tuple seq : TypedEndpoints → TypedEndpointKind
    struct : Text → Symbol → TypedFields → TypedEndpointKind
    eval : TypedEndpoint → TypedStages → TypedEndpointKind

  pub data TypedEndpoints : Type 0 where
    no_endpoints : TypedEndpoints
    more : TypedEndpoint → TypedEndpoints → TypedEndpoints

  pub data TypedFields : Type 0 where
    end : TypedFields
    field_of : Text → TypedEndpoint → TypedFields → TypedFields

  pub data TypedStage : Type 0 where
    typed_stage : Ty → Ty → Symbol → TypedStageKind → TypedStage

  pub data TypedStageKind : Type 0 where
    call : Text → Symbol → TypedStageKind
    bind : BindingTarget → TypedStageKind
    map filter : Text → Symbol → TypedStageKind
    fault_map : Text → Symbol → Text → Text → TypedStageKind
    field : Text → TypedStageKind
    repeat reduce scan : Text → Symbol → TypedEndpoint → TypedStageKind
    match_arms : TypedArms → TypedStageKind

  pub data TypedStages : Type 0 where
    done : TypedStages
    stage : TypedStage → TypedStages → TypedStages

  pub data TypedArms : Type 0 where
    no_typed_arms : TypedArms
    typed_arm : TypedGuard → TypedTarget → Ty → TypedArms → TypedArms

  pub data TypedGuard : Type 0 where
    guard : Text → Symbol → TypedEndpoints → TypedGuard
    fallback : TypedGuard

  pub data TypedTarget : Type 0 where
    node : Text → Symbol → TypedTarget
    value : TypedEndpoint → TypedTarget

pub record TypedChain : Type 0 where
  pub source : TypedEndpoint
  pub stages : TypedStages

-- The field `ty`, of one endpoint and of each.
abbrev pub type_of : TypedEndpoint → Ty
type_of (typed_endpoint t _) = t

abbrev pub types_of : TypedEndpoints → Types
types_of no_endpoints = nil
types_of (more e es) = cons (type_of e) (types_of es)

-- `stages.last().map(|stage| stage.output.clone()).unwrap_or_else(|| …)`
abbrev pub last_output : Ty → TypedStages → Ty
last_output t done = t
last_output t (stage (typed_stage _ output _ _) stages) = last_output output stages

unfoldable pub fold_item_types : Option Ty → Types → Check (Option Ty)
fold_item_types item nil = ok item
fold_item_types item (cons t types) =
    next_item_type item t >>= λ next. fold_item_types (some next) types

abbrev pub as_ports : Vars → List TypedPort
as_ports [] = []
as_ports ((name, t) ∷ vars) = record { name = name; ty = t } ∷ as_ports vars

-- The match at the head of the loop of `type_inline_stages`.
abbrev pub inline_guard : Stage → Check (Unit {0})
inline_guard (Stage.endpoint (Endpoint.name _)) = ok tt
inline_guard (Stage.endpoint (Endpoint.variable _)) = err inline_bind
inline_guard (Stage.bind _) = err inline_bind
inline_guard (Stage.endpoint _) = err inline_endpoint
inline_guard (Stage.fault_map _ _ _) = err inline_fault_map
inline_guard _ = ok tt

-- What a stage mutates: the types of the values, and the values in their order.
pub record Bound : Type 0 where
  pub env : Vars
  pub variables : List TypedPort

abbrev pub bind_value : Text → Ty → Bound → Check Bound
bind_value name t bound = insert_new name t bound.env >>= λ env.
    ok (record { env = env; variables = bound.variables ++ record { name = name; ty = t } ∷ [] })

unfoldable pub bind_values : Vars → Bound → Check Bound
bind_values [] bound = ok bound
bind_values ((name, t) ∷ bindings) bound =
    refuse (contains_empty_seq t) no_empty_seq
    >> (bind_value name t bound >>= λ bound'. bind_values bindings bound')

module _ (names : List (Text × ℕ)) where
  unfoldable pub callable_symbol_id : Text → Symbol
  callable_symbol_id name = get (parse_static_node_ref name).base names

  module _ (self : Checker) where
    -- A stage with one output type, and the values as they were.
    abbrev pub plain_stage : Ty → Text → TypedStageKind → Bound → Ty → Check (TypedStage × Bound)
    plain_stage t name kind bound t' = ok (typed_stage t t' (callable_symbol_id name) kind, bound)

    unfoldable mutual
      pub type_endpoint : Vars → Endpoint → Check TypedEndpoint
      type_endpoint env (Endpoint.variable name) =
          some_or (lookup name env) (unknown_value name) >>= λ t.
          ok (typed_endpoint t (variable name))
      type_endpoint env (Endpoint.name name) = err (expected_value name)
      type_endpoint env (Endpoint.int n) = ok (typed_endpoint i64 (int n))
      type_endpoint env (Endpoint.real r) = ok (typed_endpoint f64 (real r))
      type_endpoint env (Endpoint.real_f32 r) = ok (typed_endpoint f32 (real_f32 r))
      type_endpoint env (Endpoint.bool b) = ok (typed_endpoint Ty.bool (TypedEndpointKind.bool b))
      type_endpoint env (Endpoint.string s) = ok (typed_endpoint bytes (string s))
      type_endpoint env Endpoint.unit = ok (typed_endpoint Ty.unit TypedEndpointKind.unit)
      type_endpoint env (Endpoint.tuple items) = type_endpoints env items >>= λ es.
          ok (typed_endpoint (Ty.tuple (types_of es)) (TypedEndpointKind.tuple es))
      type_endpoint env (Endpoint.seq items) = type_endpoints env items >>= λ es.
          fold_item_types none (types_of es) >>= λ item.
          ok (typed_endpoint (seq_type item) (seq es))
      type_endpoint env (Endpoint.struct name fields) =
          around_fields self name (length_values fields)
            (λ expected. literal_fields self env name expected [] fields)
          >>= λ t. type_fields env fields >>= λ fs.
              ok (typed_endpoint t (struct name (get name names) fs))
      type_endpoint env (Endpoint.eval source stages) = type_endpoint env source >>= λ e.
          type_inline_stages (record { env = env; variables = [] }) (type_of e) stages >>= λ ss.
          ok (typed_endpoint (last_output (type_of e) ss) (eval e ss))

      pub type_endpoints : Vars → Endpoints → Check TypedEndpoints
      type_endpoints env Endpoints.nil = ok no_endpoints
      type_endpoints env (Endpoints.cons item items) =
          type_endpoint env item >>= λ e. type_endpoints env items >>= λ es. ok (more e es)

      pub type_fields : Vars → FieldValues → Check TypedFields
      type_fields env no_fields = ok end
      type_fields env (field_value name e fields) =
          type_endpoint env e >>= λ e'. type_fields env fields >>= λ fs. ok (field_of name e' fs)

      pub type_inline_stages : Bound → Ty → Stages → Check TypedStages
      type_inline_stages bound t no_stages = ok done
      type_inline_stages bound t (Stages.stage s stages) =
          inline_guard s
          >> (type_stage inline_callable false t bound s >>= λ (s', bound').
              type_inline_stages bound' (last_output t (stage s' done)) stages >>= λ ss.
              ok (stage s' ss))

      pub type_stage : Callable → Bool → Ty → Bound → Stage → Check (TypedStage × Bound)
      type_stage callable true t bound (Stage.bind target) =
          binding_target_types target t >>= λ bindings.
          bind_values bindings bound >>= λ bound'. ok (typed_stage t t none (bind target), bound')
      type_stage callable false t bound (Stage.bind _) = err misplaced_bind
      type_stage callable last t bound (Stage.endpoint (Endpoint.name name)) =
          apply_node self callable name t false false
          >>= plain_stage t name (call name (callable_symbol_id name)) bound
      type_stage callable last t bound (Stage.endpoint (Endpoint.variable _)) =
          err misplaced_variable
      type_stage callable last t bound (Stage.endpoint _) = err misplaced_endpoint
      type_stage callable last t bound (Stage.map name) =
          apply_map self callable name t
          >>= plain_stage t name (map name (callable_symbol_id name)) bound
      type_stage callable last t bound (Stage.fault_map name ok_name fault_name) =
          refuse (not last) fault_map_last
          >> (apply_fault_map self callable name t >>= λ (ok_type, fault_type).
              bind_value ok_name ok_type bound >>= λ bound'.
              bind_value fault_name fault_type bound' >>= λ bound''.
              plain_stage t name (fault_map name (callable_symbol_id name) ok_name fault_name)
                bound'' (Ty.tuple (cons ok_type (cons fault_type nil))))
      type_stage callable last t bound (Stage.filter name) =
          apply_filter self callable name t
          >>= plain_stage t name (filter name (callable_symbol_id name)) bound
      type_stage callable last t bound (Stage.field name) =
          apply_field name t >>= λ t'. ok (typed_stage t t' none (field name), bound)
      type_stage callable last t bound (Stage.repeat count name) =
          type_endpoint bound.env count >>= λ c.
          expect_type (codes "repeat count") (type_of c) i64
          >> (apply_repeat self callable name t
              >>= plain_stage t name (repeat name (callable_symbol_id name) c) bound)
      type_stage callable last t bound (Stage.reduce op identity) =
          type_endpoint bound.env identity >>= λ i.
          apply_reduce self callable op t (type_of i)
          >>= plain_stage t op (reduce op (callable_symbol_id op) i) bound
      type_stage callable last t bound (Stage.scan op identity) =
          type_endpoint bound.env identity >>= λ i.
          apply_scan self callable op t (type_of i)
          >>= plain_stage t op (scan op (callable_symbol_id op) i) bound
      type_stage callable last t bound (Stage.match_arms arms) =
          around_arms arms (type_arms callable bound.env t none arms) >>= λ (arms', t').
          ok (typed_stage t t' none (match_arms arms'), bound)

      pub type_arms : Callable → Vars → Ty → Option Ty → MatchArms → Check (TypedArms × Option Ty)
      type_arms callable env input result no_arms = ok (no_typed_arms, result)
      type_arms callable env input result (arm g target arms) =
          type_guard callable env input (is_empty_arms arms) g >>= λ g'.
          type_target callable env input target >>= λ (target', t).
          next_arm_type result target t >>= λ next.
          type_arms callable env input (some next) arms >>= λ (arms', result').
          ok (typed_arm g' target' t arms', result')

      pub type_guard : Callable → Vars → Ty → Bool → MatchGuard → Check TypedGuard
      type_guard callable env input last MatchGuard.fallback =
          refuse (not last) fallback_last >> ok fallback
      type_guard callable env input last (MatchGuard.call name args) =
          guard_node self name
          >> (type_endpoints env args >>= λ es.
              guard_call self callable name (cons input (types_of es))
              >> ok (guard name (callable_symbol_id name) es))

      pub type_target : Callable → Vars → Ty → MatchTarget → Check (TypedTarget × Ty)
      type_target callable env input (MatchTarget.node name) =
          apply_node self callable name input false false >>= λ t.
          ok (node name (callable_symbol_id name), t)
      type_target callable env input (MatchTarget.value e) =
          type_endpoint env e >>= λ e'. ok (value e', type_of e')

    unfoldable pub type_stages : Callable → Ty → Bound → Stages → Check (TypedStages × Bound)
    type_stages callable t bound no_stages = ok (done, bound)
    type_stages callable t bound (Stages.stage s stages) =
        type_stage callable (is_last stages) t bound s >>= λ (s', bound').
        type_stages callable (last_output t (stage s' done)) bound' stages >>= λ (ss, bound'').
        ok (stage s' ss, bound'')

    unfoldable pub type_chain : Callable → Bound → Chain → Check (TypedChain × Bound)
    type_chain callable bound chain = type_endpoint bound.env chain.source >>= λ e.
        type_stages callable (type_of e) bound chain.stages >>= λ (ss, bound').
        ok (record { source = e; stages = ss }, bound')
