-- ===== src/Typecheck/Ground/Chain.antt =====
-- The values that a callable binds have ground types.
use flow_arrow.Prelude.{
  ℕ, Bool, true, false, Option, none, some, List, [], ◌∷◌, ◌++◌, Text, All, ok, err, ◌>>=◌, Holds,
  held, errs, ◌⨾◌, Holds-any, Holds-if, ◌==◌,
}
use flow_arrow.Types.{Ty, Types, i64, faultable, tuple, nil, cons, length_types}
use flow_arrow.Types.Substitute.{Vars, lookup}
use flow_arrow.Ast.{
  BindingTarget, BindingTargets, Endpoint, Stage, Stages, no_stages, Chain, Callable, Port,
}
use flow_arrow.ModuleResolver.{ResolvedModule}
use flow_arrow.Typecheck.{
  CallableKind, Checker, Check, get, some_or, missing_callable, bound_twice, repeated_input,
  never_bound,
}
use flow_arrow.Typecheck.Apply.{expect_assignable_type}
use flow_arrow.Typecheck.Endpoint.{apply_match}
use flow_arrow.Typecheck.Chain.{
  faultable_projection_type, project_all, target_fields, binding_target_types, zip_bindings,
  insert_new, is_last,
}
use flow_arrow.Typecheck.Typed.{
  TypedStage, TypedStages, TypedStageKind, TypedChain, TypedPort, Bound, bind_value, bind_values,
  type_endpoint, type_stage, type_stages, type_chain, type_of, last_output, done, stage,
  plain_stage,
}
use flow_arrow.Typecheck.Callable.{
  TypedCallable, insert_input, refuse_params, type_inputs, type_chains, type_callable,
  declared_outputs, first_signature,
}
use flow_arrow.Typecheck.Agree.{Agree-Holds}
use flow_arrow.Typecheck.Agree.Endpoint.{endpoint_agrees, arms-Agree, around_arms-Agree}
use flow_arrow.Typecheck.Ground.{IsGround, AreGround, GroundVars}
use flow_arrow.Typecheck.Ground.Nodes.{
  IsSound, after_refuse, apply_node-IsGround, parse_declared_type-IsGround,
}
use flow_arrow.Typecheck.Ground.Stages.{
  apply_field-IsGround, apply_map-IsGround, apply_fault_map-Ground, apply_filter-IsGround,
  apply_repeat-IsGround, apply_reduce-IsGround, apply_scan-IsGround, expecting,
}
use flow_arrow.Typecheck.Ground.Endpoint.{endpoint_type-IsGround, apply_match-IsGround}

abbrev pub GroundPorts : List TypedPort → Type 0
GroundPorts = All (λ p. IsGround p.ty)

pub record GroundBound (bound : Bound) : Type 0 where
  pub env : GroundVars bound.env
  pub variables : GroundPorts bound.variables

GroundPorts-snoc :
    (ps : List TypedPort) (p : TypedPort)
    → GroundPorts ps
    → IsGround p.ty
    → GroundPorts (ps ++ p ∷ [])
GroundPorts-snoc [] p h k = (k, tt)
GroundPorts-snoc (q ∷ ps) p (h, hs) k = (h, GroundPorts-snoc ps p hs k)

projection-IsGround : (t : Ty) → IsGround t → IsGround (faultable_projection_type t)
unfolding faultable_projection_type
projection-IsGround (faultable t) h = h
projection-IsGround t h = h

project_all-Ground : (ts : Types) → AreGround ts → AreGround (project_all ts)
project_all-Ground nil h = tt
project_all-Ground (cons t ts) (h, hs) = (projection-IsGround t h, project_all-Ground ts hs)

target_fields-Ground :
    (target : BindingTarget) (count : ℕ) (t : Ty)
    → IsGround t
    → Holds AreGround (target_fields target count t)
unfolding target_fields
target_fields-Ground target count (tuple ts) h =
    Holds-if (length_types ts == count) (λ _. held h) (λ _. errs)
target_fields-Ground target count (faultable (tuple ts)) h =
    Holds-if (length_types ts == count) (λ _. held (project_all-Ground ts h)) (λ _. errs)
target_fields-Ground target count _ h = errs

GroundVars-append : (u v : Vars) → GroundVars u → GroundVars v → GroundVars (u ++ v)
GroundVars-append [] v h k = k
GroundVars-append ((_, _) ∷ u) v (h, hs) k = (h, GroundVars-append u v hs k)

mutual
  unfolding binding_target_types

  binding-Ground :
      (target : BindingTarget) (t : Ty)
      → IsGround t
      → Holds GroundVars (binding_target_types target t)
  binding-Ground BindingTarget.discard t h = held tt
  binding-Ground (BindingTarget.variable name) t h = held (h, tt)
  binding-Ground (BindingTarget.tuple items) t h =
      target_fields-Ground _ _ t h ⨾ λ ts hs. zip-Ground items ts hs

  zip-Ground :
      (items : BindingTargets) (ts : Types)
      → AreGround ts
      → Holds GroundVars (zip_bindings items ts)
  zip-Ground BindingTargets.nil ts h = held tt
  zip-Ground (BindingTargets.cons item items) nil h = held tt
  zip-Ground (BindingTargets.cons item items) (cons t ts) (h, hs) = binding-Ground item t h ⨾ λ u p.
      zip-Ground items ts hs ⨾ λ v q. held (GroundVars-append u v p q)

insert_new-Ground :
    (name : Text) (t : Ty) (env : Vars)
    → IsGround t
    → GroundVars env
    → Holds GroundVars (insert_new name t env)
unfolding insert_new
insert_new-Ground name t env h g = go (lookup name env)
  where
    go :
        (o : Option Ty)
        → Holds GroundVars
            (elim o [ some _ ↦ err (bound_twice name) | none ↦ ok ((name, t) ∷ env) ])
    go (some _) = errs
    go none = held (h, g)

bind_value-Ground :
    (name : Text) (t : Ty) (bound : Bound)
    → IsGround t
    → GroundBound bound
    → Holds GroundBound (bind_value name t bound)
bind_value-Ground name t bound h g = insert_new-Ground name t bound.env h g.env ⨾ λ env k.
    held (record { env = k; variables = GroundPorts-snoc bound.variables _ g.variables h })

bind_values-Ground :
    (bindings : Vars) (bound : Bound)
    → GroundVars bindings
    → GroundBound bound
    → Holds GroundBound (bind_values bindings bound)
unfolding bind_values
bind_values-Ground [] bound h g = held g
bind_values-Ground ((name, t) ∷ bindings) bound (h, hs) g =
    after_refuse _ _
      (bind_value-Ground name t bound h g ⨾ λ bound' g'. bind_values-Ground bindings bound' hs g')

module _ (names : List (Text × ℕ)) (self : Checker) (sound : IsSound self) where
  abbrev StageGround : Ty → TypedStage × Bound → Type 0
  StageGround t x = IsGround (last_output t (stage x.0 done)) × GroundBound x.1

  typed-IsGround :
      (bound : Bound) (e : Endpoint)
      → GroundBound bound
      → Holds (λ e'. IsGround (type_of e')) (type_endpoint names self bound.env e)
  typed-IsGround bound e g =
      Agree-Holds (endpoint_agrees names self bound.env e)
        (endpoint_type-IsGround self sound bound.env g.env e) λ e' t h k. rw h k

  plain :
      (t : Ty) (bound : Bound) (name : Text) (kind : TypedStageKind) {r : Check Ty}
      → GroundBound bound
      → Holds IsGround r
      → Holds (StageGround t) (r >>= plain_stage names self t name kind bound)
  plain t bound name kind g h = h ⨾ λ t' k. held (k, g)

  stage-Ground :
      (callable : Callable) (last : Bool) (t : Ty) (bound : Bound) (s : Stage)
      → IsGround t
      → GroundBound bound
      → Holds (StageGround t) (type_stage names self callable last t bound s)
  unfolding type_stage apply_match
  stage-Ground callable true t bound (Stage.bind target) h g =
      binding-Ground target t h ⨾ λ bindings k.
      bind_values-Ground bindings bound k g ⨾ λ bound' g'. held (h, g')
  stage-Ground callable false t bound (Stage.bind target) h g = errs
  stage-Ground callable last t bound (Stage.endpoint (Endpoint.name name)) h g =
      plain t bound name _ g (apply_node-IsGround self sound callable name t false false h)
  stage-Ground callable last t bound (Stage.endpoint _) h g = errs
  stage-Ground callable last t bound (Stage.map name) h g =
      plain t bound name _ g (apply_map-IsGround self sound callable name t h)
  stage-Ground callable last t bound (Stage.fault_map name ok_name fault_name) h g =
      after_refuse _ _ (
        apply_fault_map-Ground self sound callable name t h ⨾ λ x k.
        bind_value-Ground ok_name x.0 bound k.0 g ⨾ λ b gb.
        bind_value-Ground fault_name x.1 b k.1 gb ⨾ λ b' gb'. held ((k.0, (k.1, tt)), gb'))
  stage-Ground callable last t bound (Stage.filter name) h g =
      plain t bound name _ g (apply_filter-IsGround self sound callable name t h)
  stage-Ground callable last t bound (Stage.field name) h g =
      apply_field-IsGround name t h ⨾ λ t' k. held (k, g)
  stage-Ground callable last t bound (Stage.repeat count name) h g =
      Holds-any (type_endpoint names self bound.env count) ⨾ λ c _.
      expecting _ (type_of c) i64
        (plain t bound name _ g (apply_repeat-IsGround self sound callable name t h))
  stage-Ground callable last t bound (Stage.reduce op identity) h g =
      Holds-any (type_endpoint names self bound.env identity) ⨾ λ i _.
      plain t bound op _ g (apply_reduce-IsGround self sound callable op t (type_of i) h)
  stage-Ground callable last t bound (Stage.scan op identity) h g =
      Holds-any (type_endpoint names self bound.env identity) ⨾ λ i _.
      plain t bound op _ g (apply_scan-IsGround self sound callable op t (type_of i) h)
  stage-Ground callable last t bound (Stage.match_arms arms) h g =
      Agree-Holds
        (around_arms-Agree arms _ _ (arms-Agree names self callable bound.env t none arms))
        (apply_match-IsGround self sound bound.env g.env callable arms t h) (λ x u e k. rw e k)
      ⨾ λ x k. held (k, g)

  stages-Ground :
      (callable : Callable) (t : Ty) (bound : Bound) (ss : Stages)
      → IsGround t
      → GroundBound bound
      → Holds
          (λ (x : TypedStages × Bound). GroundBound x.1)
          (type_stages names self callable t bound ss)
  unfolding type_stages
  stages-Ground callable t bound no_stages h g = held g
  stages-Ground callable t bound (Stages.stage s ss) h g =
      stage-Ground callable (is_last ss) t bound s h g ⨾ λ x k.
      stages-Ground callable (last_output t (stage x.0 done)) x.1 ss k.0 k.1 ⨾ λ y l. held l

  chain-Ground :
      (callable : Callable) (bound : Bound) (chain : Chain)
      → GroundBound bound
      → Holds
          (λ (x : TypedChain × Bound). GroundBound x.1)
          (type_chain names self callable bound chain)
  unfolding type_chain
  chain-Ground callable bound chain g = typed-IsGround bound chain.source g ⨾ λ e h.
      stages-Ground callable (type_of e) bound chain.stages h g ⨾ λ x k. held k

chains-Ground :
    (self : Checker) (sound : IsSound self) (resolved : ResolvedModule) (callable : Callable)
    (bound : Bound) (chains : List Chain)
    → GroundBound bound
    → Holds
        (λ (x : List TypedChain × Bound). GroundBound x.1)
        (type_chains self resolved callable bound chains)
unfolding type_chains
chains-Ground self sound resolved callable bound [] g = held g
chains-Ground self sound resolved callable bound (chain ∷ chains) g =
    chain-Ground resolved.names self sound callable bound chain g ⨾ λ x k.
    chains-Ground self sound resolved callable x.1 chains k ⨾ λ y l. held l

insert_input-Ground :
    (callable name : Text) (t : Ty) (env : Vars)
    → IsGround t
    → GroundVars env
    → Holds GroundVars (insert_input callable name t env)
insert_input-Ground callable name t env h g = go (lookup name env)
  where
    go :
        (o : Option Ty)
        → Holds GroundVars
            (elim o [ some _ ↦ err (repeated_input callable name) | none ↦ ok ((name, t) ∷ env) ])
    go (some _) = errs
    go none = held (h, g)

type_inputs-Ground :
    (self : Checker) (callable : Text) (ports : List Port) (bound : Bound)
    → GroundBound bound
    → Holds GroundBound (type_inputs self callable ports bound)
unfolding type_inputs
type_inputs-Ground self callable [] bound g = held g
type_inputs-Ground self callable (p ∷ ports) bound g =
    parse_declared_type-IsGround self.types p.ty ⨾ λ t h.
    insert_input-Ground callable p.name t bound.env h g.env ⨾ λ env k.
    type_inputs-Ground self callable ports _
      (record { env = k; variables = GroundPorts-snoc bound.variables _ g.variables h })

outputs-Ground :
    (self : Checker) (callable : Text) (env : Vars) (ports : List Port)
    → Holds GroundPorts (declared_outputs self callable env ports)
unfolding declared_outputs
outputs-Ground self callable env [] = held tt
outputs-Ground self callable env (p ∷ ports) = parse_declared_type-IsGround self.types p.ty ⨾ λ t h.
    Holds-any (some_or (lookup p.name env) (never_bound callable p.name)) ⨾ λ actual _.
    Holds-any (expect_assignable_type p.name actual t) ⨾ λ _ _.
    outputs-Ground self callable env ports ⨾ λ ps hs. held (h, hs)

-- The types of the ports of a typed callable, and of the values that its chains bind.
pub record GroundCallable (c : TypedCallable) : Type 0 where
  pub inputs : GroundPorts c.inputs
  pub outputs : GroundPorts c.outputs
  pub variables : GroundPorts c.variables

pub type_callable-Ground :
    (self : Checker) (resolved : ResolvedModule) (kind : CallableKind) (callable : Callable)
    → IsSound self
    → Holds GroundCallable (type_callable self resolved kind callable)
unfolding type_callable
type_callable-Ground self resolved kind callable sound =
    Holds-any (refuse_params kind callable) ⨾ λ _ _.
    type_inputs-Ground self callable.name callable.inputs _ (record { env = tt; variables = tt })
    ⨾ λ inputs g. chains-Ground self sound resolved callable inputs callable.chains g ⨾ λ x k.
        outputs-Ground self callable.name x.1.env callable.outputs ⨾ λ outputs h.
        Holds-any (some_or (get callable.name self.symbols) (missing_callable callable.name))
        ⨾ λ info _. Holds-any (first_signature callable.name info.signatures) ⨾ λ signature _.
            held (record { inputs = g.variables; outputs = h; variables = k.variables })
