-- ===== src/Typecheck/Effects.antt =====
-- src/typecheck.rs: `infer_effects`, which marks the nodes that use a node with an effect.
pub mod Calls
pub mod Marks
pub mod Reaches
use flow_arrow.Prelude.{
  ℕ, zero, suc, Bool, true, false, not, ◌&&◌, ◌||◌, Option, none, some, List, [], ◌∷◌, Text,
  text_eq, length, Outcome, ok, err, out_of_fuel, if◌then◌else◌,
}
use flow_arrow.Ast.{
  Endpoint, Stage, Stages, no_stages, MatchArms, no_arms, arm, MatchTarget, Chain, Callable, Decl,
}
use flow_arrow.Stdlib.{Effect, io, is_io}
use flow_arrow.Typecheck.{CallableInfo, Symbols, Check, get, is_some}

-- `.map(|info| info.effect).unwrap_or(Effect::Pure)`, tested for `Effect::Io`.
abbrev pub effect_io : Option CallableInfo → Bool
effect_io (some info) = is_io info.effect
effect_io none = false

-- `symbol_effect`
unfoldable pub symbol_effect_io : Symbols → Text → Bool
symbol_effect_io symbols name = effect_io (get name symbols)

-- `callable_uses_io`: the names that a stage calls are tested by `uses`.
module _ (uses : Text → Bool) where
  abbrev pub any_arm : MatchArms → Bool
  any_arm no_arms = false
  any_arm (arm _ (MatchTarget.node name) arms) = uses name || any_arm arms
  any_arm (arm _ (MatchTarget.value _) arms) = any_arm arms

  abbrev pub stage_uses : Stage → Bool
  stage_uses (Stage.endpoint (Endpoint.name name)) = uses name
  stage_uses (Stage.map name) = uses name
  stage_uses (Stage.filter name) = uses name
  stage_uses (Stage.reduce op _) = uses op
  stage_uses (Stage.scan op _) = uses op
  stage_uses (Stage.fault_map name _ _) = uses name
  stage_uses (Stage.repeat _ name) = uses name
  stage_uses (Stage.match_arms arms) = any_arm arms
  stage_uses (Stage.bind _) = false
  stage_uses (Stage.field _) = false
  stage_uses (Stage.endpoint _) = false

  abbrev pub any_stage : Stages → Bool
  any_stage no_stages = false
  any_stage (Stages.stage s stages) = stage_uses s || any_stage stages

  abbrev pub any_chain : List Chain → Bool
  any_chain [] = false
  any_chain (chain ∷ chains) = any_stage chain.stages || any_chain chains

unfoldable pub callable_uses_io : Symbols → Callable → Bool
callable_uses_io symbols callable = any_chain (symbol_effect_io symbols) callable.chains

-- `get_mut(…)` and the assignment of `Effect::Io`.
unfoldable pub set_io : Text → Symbols → Symbols
set_io name [] = []
set_io name ((n, info) ∷ symbols) =
    let rest = set_io name symbols in
    if text_eq n name then (n, record info { effect = io }) ∷ symbols else (n, info) ∷ rest

abbrev pub has : Text → Symbols → Bool
has name symbols = is_some (get name symbols)

-- The body of the loop over the declarations, for a callable.
unfoldable pub mark : Callable → Symbols → Bool → Symbols × Bool
mark callable symbols changed =
    if symbol_effect_io symbols callable.name
    then (symbols, changed)
    else if callable_uses_io symbols callable && has callable.name symbols
    then (set_io callable.name symbols, true)
    else (symbols, changed)

unfoldable pub mark_decls : List Decl → Symbols → Bool → Symbols × Bool
mark_decls [] symbols changed = (symbols, changed)
mark_decls (Decl.node_decl c ∷ decls) symbols changed =
    let (symbols', changed') = mark c symbols changed in mark_decls decls symbols' changed'
mark_decls (Decl.program c ∷ decls) symbols changed =
    let (symbols', changed') = mark c symbols changed in mark_decls decls symbols' changed'
mark_decls (_ ∷ decls) symbols changed = mark_decls decls symbols changed

-- The outer loop, until a round changes nothing.
unfoldable pub infer_loop : ℕ → List Decl → Symbols → Check Symbols
infer_loop zero decls symbols = out_of_fuel
infer_loop (suc fuel) decls symbols =
    let (symbols', changed) = mark_decls decls symbols false in
    let again = infer_loop fuel decls symbols' in if changed then again else ok symbols'

-- A round that changes something marks one symbol more, so the symbols bound the rounds.
unfoldable pub infer_effects : List Decl → Symbols → Check Symbols
infer_effects decls symbols = infer_loop (suc (length symbols)) decls symbols
