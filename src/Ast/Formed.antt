-- ===== src/Ast/Formed.antt =====
-- What the syntax of the language says of a syntax tree and its types do not.
use flow_arrow.Prelude.{List, [], ◌∷◌, Text, All}
use flow_arrow.Ast.{
  BindingTarget, BindingTargets, Endpoint, Endpoints, FieldValues, Stage, Stages, MatchArms,
  MatchTarget, MatchGuard, Chain, Callable, Decl, Module, no_fields, field_value, no_stages, stage,
  no_arms, arm, to_targets, to_endpoints, to_fields, to_stages,
}

abbrev pub IsCons {ℓ} : {A : Type ℓ} → List A → Type 0
IsCons [] = ⊥
IsCons (_ ∷ _) = Unit

-- A tuple has two items or more.
abbrev mutual
  pub TargetFormed : BindingTarget → Type 0
  TargetFormed (BindingTarget.tuple (BindingTargets.cons s (BindingTargets.cons t ts))) =
      TargetFormed s × TargetFormed t × TargetsFormed ts
  TargetFormed (BindingTarget.tuple _) = ⊥
  TargetFormed _ = Unit

  pub TargetsFormed : BindingTargets → Type 0
  TargetsFormed BindingTargets.nil = Unit
  TargetsFormed (BindingTargets.cons t ts) = TargetFormed t × TargetsFormed ts

-- A count is a variable or an integer.
abbrev pub IsCount : Endpoint → Type 0
IsCount (Endpoint.variable _) = Unit
IsCount (Endpoint.int _) = Unit
IsCount _ = ⊥

-- An atom is no evaluation and no node.
abbrev pub IsAtom : Endpoint → Type 0
IsAtom (Endpoint.eval _ _) = ⊥
IsAtom (Endpoint.name _) = ⊥
IsAtom _ = Unit

-- A tuple has two items or more, a struct a field, and an evaluation a stage behind an atom; the name of a
-- node is a stage and no value; a `match` has guarded arms and then one fallback, the last arm.
abbrev mutual
  pub EndpointFormed : Endpoint → Type 0
  EndpointFormed (Endpoint.name _) = ⊥
  EndpointFormed (Endpoint.tuple (Endpoints.cons d (Endpoints.cons e es))) =
      EndpointFormed d × EndpointFormed e × EndpointsFormed es
  EndpointFormed (Endpoint.tuple _) = ⊥
  EndpointFormed (Endpoint.seq es) = EndpointsFormed es
  EndpointFormed (Endpoint.struct _ (field_value _ e fs)) = EndpointFormed e × FieldsFormed fs
  EndpointFormed (Endpoint.struct _ no_fields) = ⊥
  EndpointFormed (Endpoint.eval source (stage s ss)) =
      IsAtom source × EndpointFormed source × StageFormed s × StagesFormed ss
  EndpointFormed (Endpoint.eval _ no_stages) = ⊥
  EndpointFormed _ = Unit

  pub EndpointsFormed : Endpoints → Type 0
  EndpointsFormed Endpoints.nil = Unit
  EndpointsFormed (Endpoints.cons e es) = EndpointFormed e × EndpointsFormed es

  pub FieldsFormed : FieldValues → Type 0
  FieldsFormed no_fields = Unit
  FieldsFormed (field_value _ e fs) = EndpointFormed e × FieldsFormed fs

  pub StageFormed : Stage → Type 0
  StageFormed (Stage.endpoint (Endpoint.name _)) = Unit
  StageFormed (Stage.endpoint e) = IsAtom e × EndpointFormed e
  StageFormed (Stage.bind t) = TargetFormed t
  StageFormed (Stage.repeat count _) = IsCount count
  StageFormed (Stage.reduce _ identity) = IsAtom identity × EndpointFormed identity
  StageFormed (Stage.scan _ identity) = IsAtom identity × EndpointFormed identity
  StageFormed (Stage.match_arms arms) = ArmsFormed arms
  StageFormed _ = Unit

  pub StagesFormed : Stages → Type 0
  StagesFormed no_stages = Unit
  StagesFormed (stage s ss) = StageFormed s × StagesFormed ss

  pub ArmsFormed : MatchArms → Type 0
  ArmsFormed no_arms = ⊥
  ArmsFormed (arm MatchGuard.fallback t no_arms) = MatchTargetFormed t
  ArmsFormed (arm MatchGuard.fallback t (arm _ _ _)) = ⊥
  ArmsFormed (arm (MatchGuard.call _ es) t arms) =
      EndpointsFormed es × MatchTargetFormed t × ArmsFormed arms

  pub MatchTargetFormed : MatchTarget → Type 0
  MatchTargetFormed (MatchTarget.node _) = Unit
  MatchTargetFormed (MatchTarget.value e) = EndpointFormed e

abbrev pub GuardFormed : MatchGuard → Type 0
GuardFormed (MatchGuard.call _ es) = EndpointsFormed es
GuardFormed MatchGuard.fallback = Unit

abbrev pub SomeStages : Stages → Type 0
SomeStages no_stages = ⊥
SomeStages (stage s ss) = StageFormed s × StagesFormed ss

-- A chain has a source that is an atom, and a stage.
abbrev pub ChainFormed : Chain → Type 0
ChainFormed c = IsAtom c.source × EndpointFormed c.source × SomeStages c.stages

abbrev pub CallableFormed : Callable → Type 0
CallableFormed c = IsCons c.outputs × All ChainFormed c.chains

-- A struct has a field, a foreign block a node, and a node an output.
abbrev pub DeclFormed : Decl → Type 0
DeclFormed (Decl.struct_decl s) = IsCons s.fields
DeclFormed (Decl.foreign_block b) = IsCons b.nodes × All (λ n. IsCons n.outputs) b.nodes
DeclFormed (Decl.node_decl c) = CallableFormed c
DeclFormed (Decl.program c) = CallableFormed c
DeclFormed _ = Unit

abbrev pub ModuleFormed : Module → Type 0
ModuleFormed m = All DeclFormed m.declarations

pub targets-Formed : (ts : List BindingTarget) → All TargetFormed ts → TargetsFormed (to_targets ts)
targets-Formed [] h = tt
targets-Formed (t ∷ ts) (h, hs) = (h, targets-Formed ts hs)

pub endpoints-Formed :
    (es : List Endpoint) → All EndpointFormed es → EndpointsFormed (to_endpoints es)
endpoints-Formed [] h = tt
endpoints-Formed (e ∷ es) (h, hs) = (h, endpoints-Formed es hs)

pub fields-Formed :
    (fs : List (Text × Endpoint)) → All (λ f. EndpointFormed f.1) fs → FieldsFormed (to_fields fs)
fields-Formed [] h = tt
fields-Formed ((n, e) ∷ fs) (h, hs) = (h, fields-Formed fs hs)

pub stages-Formed : (ss : List Stage) → All StageFormed ss → StagesFormed (to_stages ss)
stages-Formed [] h = tt
stages-Formed (s ∷ ss) (h, hs) = (h, stages-Formed ss hs)
