-- ===== src/Typecheck/Effects/Calls.antt =====
-- The names that a callable calls, against the test of them in `callable_uses_io`.
use flow_arrow.Prelude.{Bool, true, false, ◌||◌, ◌≡◌, ◌⊎◌, inl, inr, refl, List, [], ◌∷◌, Text}
use flow_arrow.Ast.{
  Endpoint, Stage, Stages, no_stages, MatchArms, no_arms, arm, MatchGuard, MatchTarget, Chain,
  Callable,
}
use flow_arrow.Typecheck.Effects.{any_arm, stage_uses, any_stage, any_chain}

-- The node that an arm chooses, and the node that a stage names. A value and the guard of an arm call nothing here.
pub data ArmsCall (m : Text) : MatchArms → Type 0 where
  chosen : (g : MatchGuard) (arms : MatchArms) → ArmsCall m (arm g (MatchTarget.node m) arms)
  other :
      (g : MatchGuard) (t : MatchTarget) (arms : MatchArms)
      → ArmsCall m arms
      → ArmsCall m (arm g t arms)

pub data StageCalls (m : Text) : Stage → Type 0 where
  applied : StageCalls m (Stage.endpoint (Endpoint.name m))
  mapped : StageCalls m (Stage.map m)
  filtered : StageCalls m (Stage.filter m)
  reduced : (identity : Endpoint) → StageCalls m (Stage.reduce m identity)
  scanned : (identity : Endpoint) → StageCalls m (Stage.scan m identity)
  fault_mapped : (ok_name fault_name : Text) → StageCalls m (Stage.fault_map m ok_name fault_name)
  repeated : (count : Endpoint) → StageCalls m (Stage.repeat count m)
  matched : (arms : MatchArms) → ArmsCall m arms → StageCalls m (Stage.match_arms arms)

pub data StagesCall (m : Text) : Stages → Type 0 where
  first : (s : Stage) (ss : Stages) → StageCalls m s → StagesCall m (Stages.stage s ss)
  later : (s : Stage) (ss : Stages) → StagesCall m ss → StagesCall m (Stages.stage s ss)

pub data ChainsCall (m : Text) : List Chain → Type 0 where
  in_first : (c : Chain) (cs : List Chain) → StagesCall m c.stages → ChainsCall m (c ∷ cs)
  in_later : (c : Chain) (cs : List Chain) → ChainsCall m cs → ChainsCall m (c ∷ cs)

-- A stage of the callable names `m` as the node that it calls.
abbrev pub Calls : Callable → Text → Type 0
Calls c m = ChainsCall m c.chains

or-cases : (a b : Bool) → (a || b) ≡ true → (a ≡ true) ⊎ (b ≡ true)
or-cases true b h = inl refl
or-cases false b h = inr h

or-true : (a : Bool) → (a || true) ≡ true
or-true true = refl
or-true false = refl

-- A test that some called name passes is passed by a name that is called, and conversely.
module _ (p : Text → Bool) where
  abbrev Found : (Text → Type 0) → Type 0
  Found Calls = (m : Text) × (p m ≡ true) × Calls m

  arms-found : (arms : MatchArms) → any_arm p arms ≡ true → Found (λ m. ArmsCall m arms)
  arms-found no_arms h = cc
  arms-found (arm g (MatchTarget.node name) arms) h = elim (or-cases (p name) (any_arm p arms) h) [
    | inl a ↦ (name, a, chosen g arms)
    | inr b ↦ let (m, x, y) = arms-found arms b in (m, x, other g _ arms y)
  ]
  arms-found (arm g (MatchTarget.value e) arms) h =
      let (m, x, y) = arms-found arms h in (m, x, other g _ arms y)

  stage-found : (s : Stage) → stage_uses p s ≡ true → Found (λ m. StageCalls m s)
  stage-found (Stage.endpoint (Endpoint.name name)) h = (name, h, applied)
  stage-found (Stage.map name) h = (name, h, mapped)
  stage-found (Stage.filter name) h = (name, h, filtered)
  stage-found (Stage.reduce op identity) h = (op, h, reduced identity)
  stage-found (Stage.scan op identity) h = (op, h, scanned identity)
  stage-found (Stage.fault_map name ok_name fault_name) h =
      (name, h, fault_mapped ok_name fault_name)
  stage-found (Stage.repeat count name) h = (name, h, repeated count)
  stage-found (Stage.match_arms arms) h =
      let (m, x, y) = arms-found arms h in (m, x, matched arms y)
  stage-found (Stage.bind _) h = cc
  stage-found (Stage.field _) h = cc
  stage-found (Stage.endpoint _) h = cc

  stages-found : (ss : Stages) → any_stage p ss ≡ true → Found (λ m. StagesCall m ss)
  stages-found no_stages h = cc
  stages-found (Stages.stage s ss) h = elim (or-cases (stage_uses p s) (any_stage p ss) h) [
    | inl a ↦ let (m, x, y) = stage-found s a in (m, x, first s ss y)
    | inr b ↦ let (m, x, y) = stages-found ss b in (m, x, later s ss y)
  ]

  pub chains-found : (cs : List Chain) → any_chain p cs ≡ true → Found (λ m. ChainsCall m cs)
  chains-found [] h = cc
  chains-found (c ∷ cs) h = elim (or-cases (any_stage p c.stages) (any_chain p cs) h) [
    | inl a ↦ let (m, x, y) = stages-found c.stages a in (m, x, in_first c cs y)
    | inr b ↦ let (m, x, y) = chains-found cs b in (m, x, in_later c cs y)
  ]

  module _ (m : Text) (pm : p m ≡ true) where
    arms-used : (arms : MatchArms) → ArmsCall m arms → any_arm p arms ≡ true
    arms-used _ (chosen g arms) = rw pm refl
    arms-used _ (other g (MatchTarget.node name) arms h) = rw (arms-used arms h) (or-true (p name))
    arms-used _ (other g (MatchTarget.value e) arms h) = arms-used arms h

    stage-used : (s : Stage) → StageCalls m s → stage_uses p s ≡ true
    stage-used _ applied = pm
    stage-used _ mapped = pm
    stage-used _ filtered = pm
    stage-used _ (reduced _) = pm
    stage-used _ (scanned _) = pm
    stage-used _ (fault_mapped _ _) = pm
    stage-used _ (repeated _) = pm
    stage-used _ (matched arms h) = arms-used arms h

    stages-used : (ss : Stages) → StagesCall m ss → any_stage p ss ≡ true
    stages-used _ (first s ss h) = rw (stage-used s h) refl
    stages-used _ (later s ss h) = rw (stages-used ss h) (or-true (stage_uses p s))

    pub chains-used : (cs : List Chain) → ChainsCall m cs → any_chain p cs ≡ true
    chains-used _ (in_first c cs h) = rw (stages-used c.stages h) refl
    chains-used _ (in_later c cs h) = rw (chains-used cs h) (or-true (any_stage p c.stages))
