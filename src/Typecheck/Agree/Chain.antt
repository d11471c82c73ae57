-- ===== src/Typecheck/Agree/Chain.antt =====
-- A chain has a typed tree exactly when it passes `check_chain`.
use flow_arrow.Prelude.{
  ℕ, Bool, true, false, ◌≡◌, refl, none, List, [], ◌∷◌, Text, codes, ok, ◌>>=◌,
}
use flow_arrow.Types.{Ty, i64, contains_empty_seq}
use flow_arrow.Types.Substitute.{Vars}
use flow_arrow.Ast.{Endpoint, Stage, Stages, no_stages, Chain, Callable}
use flow_arrow.Typecheck.{Checker, Check, refuse, no_empty_seq}
use flow_arrow.Typecheck.Apply.{
  expect_type, apply_field, apply_fault_map, apply_repeat, apply_reduce, apply_scan,
}
use flow_arrow.Typecheck.Endpoint.{apply_match}
use flow_arrow.Typecheck.Chain.{
  binding_target_types, insert_new, bind_all, is_last, check_stage, check_stages, check_chain,
}
use flow_arrow.Typecheck.Typed.{
  TypedStage, TypedStages, TypedStageKind, TypedChain, Bound, bind_value, bind_values, type_stage,
  type_stages, type_chain, type_of, last_output, done, stage, plain_stage,
}
use flow_arrow.Typecheck.Agree.{
  Agree, Agree-ok, Agree-err, Agree-bind, Agree-after, Agree-map, Agree-bind-map, Agree-last,
  Agree-then,
}
use flow_arrow.Typecheck.Agree.Endpoint.{endpoint_agrees, arms-Agree, around_arms-Agree}

abbrev pub SameEnv : Bound → Vars → Type 0
SameEnv bound env = bound.env ≡ env

bind_value-agrees :
    (name : Text) (t : Ty) (bound : Bound) (env : Vars)
    → SameEnv bound env
    → Agree SameEnv (bind_value name t bound) (insert_new name t env)
bind_value-agrees name t bound env h = rw (← h) (Agree-map _ _ λ env'. refl)

bind_values-Agree :
    (bindings : Vars) (bound : Bound) (env : Vars)
    → SameEnv bound env
    → Agree SameEnv (bind_values bindings bound) (bind_all bindings env)
unfolding bind_values bind_all
bind_values-Agree [] bound env h = Agree-ok h
bind_values-Agree ((name, t) ∷ bindings) bound env h =
    Agree-then (refuse (contains_empty_seq t) no_empty_seq) (
      Agree-bind _ _ _ _ (bind_value-agrees name t bound env h)
        λ bound' env' k. bind_values-Agree bindings bound' env' k)

-- The values agree, and so do the types unless the stage is the last one.
abbrev pub StageAgrees : Bool → Ty → TypedStage × Bound → Ty × Vars → Type 0
StageAgrees last t x y = (x.1.env ≡ y.1) × (last ≡ false → last_output t (stage x.0 done) ≡ y.0)

module _ (names : List (Text × ℕ)) (self : Checker) (callable : Callable) where
  -- A stage that leaves the values as they are.
  plain :
      (last : Bool) (t : Ty) (bound : Bound) (name : Text) (kind : TypedStageKind) (r : Check Ty)
      → Agree
          (StageAgrees last t)
          (r >>= plain_stage names self t name kind bound)
          (r >>= λ t'. ok (t', bound.env))
  plain last t bound name kind r = Agree-after r _ _ λ t'. Agree-ok (refl, (λ _. refl))

  stage_agrees :
      (last : Bool) (t : Ty) (bound : Bound) (s : Stage)
      → Agree
          (StageAgrees last t)
          (type_stage names self callable last t bound s)
          (check_stage self callable last t bound.env s)
  unfolding type_stage check_stage apply_match refuse
  stage_agrees true t bound (Stage.bind target) =
      Agree-after (binding_target_types target t) _ _ λ bindings.
        Agree-bind-map _ _ _ _ (bind_values-Agree bindings bound bound.env refl)
          λ bound' env' h. (h, (λ e. cc))
  stage_agrees false t bound (Stage.bind target) = Agree-err
  stage_agrees last t bound (Stage.endpoint (Endpoint.name name)) = plain last t bound name _ _
  stage_agrees last t bound (Stage.endpoint _) = Agree-err
  stage_agrees last t bound (Stage.map name) = plain last t bound name _ _
  stage_agrees true t bound (Stage.fault_map name ok_name fault_name) =
      Agree-after (apply_fault_map self callable name t) _ _ λ x.
        Agree-bind _ _ _ _ (bind_value-agrees ok_name x.0 bound bound.env refl) λ b e h.
          Agree-bind-map _ _ _ _ (bind_value-agrees fault_name x.1 b e h) λ b' e' k. (k, (λ e. cc))
  stage_agrees false t bound (Stage.fault_map _ _ _) = Agree-err
  stage_agrees last t bound (Stage.filter name) = plain last t bound name _ _
  stage_agrees last t bound (Stage.field name) =
      Agree-after (apply_field name t) _ _ λ t'. Agree-ok (refl, (λ _. refl))
  stage_agrees last t bound (Stage.repeat count name) =
      Agree-bind _ _ _ _ (endpoint_agrees names self bound.env count) λ c u h. rw (← h) (
        Agree-then (expect_type (codes "repeat count") (type_of c) i64)
          (plain last t bound name _ (apply_repeat self callable name t)))
  stage_agrees last t bound (Stage.reduce op identity) =
      Agree-bind _ _ _ _ (endpoint_agrees names self bound.env identity)
        λ i u h. rw (← h) (plain last t bound op _ (apply_reduce self callable op t (type_of i)))
  stage_agrees last t bound (Stage.scan op identity) =
      Agree-bind _ _ _ _ (endpoint_agrees names self bound.env identity)
        λ i u h. rw (← h) (plain last t bound op _ (apply_scan self callable op t (type_of i)))
  stage_agrees last t bound (Stage.match_arms arms) =
      Agree-bind-map _ _ _ _
        (around_arms-Agree arms _ _ (arms-Agree names self callable bound.env t none arms))
        λ x t' h. (refl, (λ _. h))

  abbrev StagesAgree : Ty → Bound → Ty → Vars → Stages → Type 0
  StagesAgree t bound u env ss =
      Agree (λ (x : TypedStages × Bound) (env' : Vars). x.1.env ≡ env')
        (type_stages names self callable t bound ss) (check_stages self callable u env ss)

  -- Behind a stage that agrees: the type matters only where another stage follows.
  rest_agrees :
      (t : Ty) (x : TypedStage × Bound) (y : Ty × Vars) (rs : Stages)
      → StageAgrees (is_last rs) t x y
      → ((u : Ty) (b : Bound) → StagesAgree u b u b.env rs)
      → StagesAgree (last_output t (stage x.0 done)) x.1 y.0 y.1 rs
  unfolding type_stages check_stages
  rest_agrees t x y no_stages h ih = Agree-ok h.0
  rest_agrees t x y (Stages.stage s ss) h ih =
      rw (← h.1 refl, ← h.0) (ih (last_output t (stage x.0 done)) x.1)

  stages_agree : (t : Ty) (bound : Bound) (ss : Stages) → StagesAgree t bound t bound.env ss
  unfolding type_stages check_stages
  stages_agree t bound no_stages = Agree-ok refl
  stages_agree t bound (Stages.stage s ss) =
      Agree-bind _ _ _ _ (stage_agrees (is_last ss) t bound s)
        λ x y h. Agree-last _ _ _ (rest_agrees t x y ss h (λ u b. stages_agree u b ss)) λ z env k. k

  pub chain_agrees :
      (bound : Bound) (chain : Chain)
      → Agree
          (λ (x : TypedChain × Bound) (env : Vars). x.1.env ≡ env)
          (type_chain names self callable bound chain)
          (check_chain self callable bound.env chain)
  unfolding type_chain check_chain
  chain_agrees bound chain =
      Agree-bind _ _ _ _ (endpoint_agrees names self bound.env chain.source) λ e u h.
        rw (← h) (Agree-last _ _ _ (stages_agree (type_of e) bound chain.stages) λ z env k. k)
