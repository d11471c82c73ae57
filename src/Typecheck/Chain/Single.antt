-- ===== src/Typecheck/Chain/Single.antt =====
-- The chains of a callable bind each name once.
use flow_arrow.Prelude.{
  Bool, true, false, ◌≡◌, refl, Option, none, some, List, [], ◌∷◌, ◌++◌, append_assoc, sym, ap, ◌∙◌,
  Text, Holds, held, errs, Holds-any, Holds-ok, Holds-weaken, ◌⨾◌, ok, err, ◌>>=◌,
}
use flow_arrow.Types.{Ty, i64}
use flow_arrow.Types.Substitute.{Vars, lookup}
use flow_arrow.Ast.{Callable, Endpoint, Stage, Stages, no_stages, Chain}
use flow_arrow.Typecheck.{Checker, Check, bound_twice}
use flow_arrow.Typecheck.Nodes.{apply_node}
use flow_arrow.Typecheck.Apply.{
  expect_type, apply_map, apply_fault_map, apply_filter, apply_repeat, apply_reduce, apply_scan,
  apply_field,
}
use flow_arrow.Typecheck.Endpoint.{endpoint_type, apply_match}
use flow_arrow.Typecheck.Chain.{
  insert_new, bind_all, binding_target_types, is_last, check_stage, check_stages, check_chain,
  check_chains,
}
use flow_arrow.Typecheck.Ground.Nodes.{after_refuse}

-- No name is bound twice.
abbrev pub IsDistinct : Vars → Type 0
IsDistinct [] = Unit
IsDistinct ((name, _) ∷ env) = (lookup name env ≡ none) × IsDistinct env

-- The values that a run adds in front, where the names stay distinct.
pub record Extends (env env' : Vars) : Type 0 where
  pub added : Vars
  pub shape : env' ≡ added ++ env
  pub distinct : IsDistinct env'

Extends-refl : (env : Vars) → IsDistinct env → Extends env env
Extends-refl env d = record { added = []; shape = refl; distinct = d }

Extends-trans : {u v w : Vars} → Extends u v → Extends v w → Extends u w
Extends-trans {u} g h = record {
  added = h.added ++ g.added;
  shape = h.shape ∙ ap (λ v. h.added ++ v) g.shape ∙ sym (append_assoc h.added g.added u);
  distinct = h.distinct;
}

-- A run that goes on from `v` extends what `v` extends.
then :
    {A : Type 0} {u v : Vars} {of : A → Vars} {r : Check A}
    → Extends u v
    → Holds (λ a. Extends v (of a)) r
    → Holds (λ a. Extends u (of a)) r
then g h = Holds-weaken (λ a k. Extends-trans g k) h

insert_new-Extends :
    (name : Text) (t : Ty) (env : Vars)
    → IsDistinct env
    → Holds (Extends env) (insert_new name t env)
unfolding insert_new
insert_new-Extends name t env d = go (lookup name env) refl
  where
    go :
        (o : Option Ty)
        → lookup name env ≡ o
        → Holds
            (Extends env)
            (elim o [ some _ ↦ err (bound_twice name) | none ↦ ok ((name, t) ∷ env) ])
    go (some _) e = errs
    go none e = held (record { added = (name, t) ∷ []; shape = refl; distinct = (e, d) })

bind_all-Extends :
    (bindings env : Vars) → IsDistinct env → Holds (Extends env) (bind_all bindings env)
unfolding bind_all
bind_all-Extends [] env d = held (Extends-refl env d)
bind_all-Extends ((name, t) ∷ bindings) env d =
    after_refuse _ _ (
      insert_new-Extends name t env d ⨾ λ env' g.
      then g (bind_all-Extends bindings env' g.distinct))

module _ (self : Checker) (callable : Callable) where
  -- A stage that computes binds nothing.
  computes :
      (env : Vars) (r : Check Ty)
      → IsDistinct env
      → Holds (λ (x : Ty × Vars). Extends env x.1) (r >>= λ t. ok (t, env))
  computes env r d = Holds-any r ⨾ λ t _. held (Extends-refl env d)

  stage-Extends :
      (last : Bool) (t : Ty) (env : Vars) (s : Stage)
      → IsDistinct env
      → Holds (λ (x : Ty × Vars). Extends env x.1) (check_stage self callable last t env s)
  unfolding check_stage
  stage-Extends true t env (Stage.bind target) d =
      Holds-any (binding_target_types target t) ⨾ λ bindings _.
      bind_all-Extends bindings env d ⨾ λ env' g. held g
  stage-Extends false t env (Stage.bind _) d = errs
  stage-Extends last t env (Stage.endpoint (Endpoint.name name)) d =
      computes env (apply_node self callable name t false false) d
  stage-Extends last t env (Stage.endpoint _) d = errs
  stage-Extends last t env (Stage.map name) d = computes env (apply_map self callable name t) d
  stage-Extends last t env (Stage.fault_map name ok_name fault_name) d = after_refuse _ _ (
      Holds-any (apply_fault_map self callable name t) ⨾ λ x _.
      insert_new-Extends ok_name x.0 env d ⨾ λ env' g.
      insert_new-Extends fault_name x.1 env' g.distinct ⨾ λ env'' h. held (Extends-trans g h))
  stage-Extends last t env (Stage.filter name) d =
      computes env (apply_filter self callable name t) d
  stage-Extends last t env (Stage.field name) d = computes env (apply_field name t) d
  stage-Extends last t env (Stage.repeat count name) d =
      Holds-any (endpoint_type self env count) ⨾ λ c _.
      Holds-any (expect_type _ c i64) ⨾ λ _ _. computes env (apply_repeat self callable name t) d
  stage-Extends last t env (Stage.reduce op identity) d =
      Holds-any (endpoint_type self env identity) ⨾ λ i _.
      computes env (apply_reduce self callable op t i) d
  stage-Extends last t env (Stage.scan op identity) d =
      Holds-any (endpoint_type self env identity) ⨾ λ i _.
      computes env (apply_scan self callable op t i) d
  stage-Extends last t env (Stage.match_arms arms) d =
      computes env (apply_match self env callable arms t) d

  stages-Extends :
      (t : Ty) (env : Vars) (ss : Stages)
      → IsDistinct env
      → Holds (Extends env) (check_stages self callable t env ss)
  unfolding check_stages
  stages-Extends t env no_stages d = held (Extends-refl env d)
  stages-Extends t env (Stages.stage s ss) d =
      stage-Extends (is_last ss) t env s d ⨾ λ x g. then g (stages-Extends x.0 x.1 ss g.distinct)

  chain-Extends :
      (env : Vars) (chain : Chain)
      → IsDistinct env
      → Holds (Extends env) (check_chain self callable env chain)
  unfolding check_chain
  chain-Extends env chain d =
      Holds-any (endpoint_type self env chain.source) ⨾ λ t _. stages-Extends t env chain.stages d

  chains-Extends :
      (env : Vars) (chains : List Chain)
      → IsDistinct env
      → Holds (Extends env) (check_chains self callable env chains)
  unfolding check_chains
  chains-Extends env [] d = held (Extends-refl env d)
  chains-Extends env (chain ∷ chains) d =
      chain-Extends env chain d ⨾ λ env' g. then g (chains-Extends env' chains g.distinct)

-- The chains of an accepted callable assign each variable once: where the names of the values before them are
-- distinct, the values behind them are new ones in front of those before, and the names are still distinct.
pub check_chains-single :
    (self : Checker) (callable : Callable) (env : Vars) (chains : List Chain) (env' : Vars)
    → IsDistinct env
    → check_chains self callable env chains ≡ ok env'
    → (added : Vars) × (env' ≡ added ++ env) × IsDistinct env'
check_chains-single self callable env chains env' d e =
    let g = Holds-ok (chains-Extends self callable env chains d) e in (g.added, g.shape, g.distinct)
