-- ===== src/Monomorphize/Covered.antt =====
-- The node names of a syntax tree, in the places that the expansion rewrites.
use flow_arrow.Prelude.{Text, All}
use flow_arrow.Ast.{
  Endpoint, Endpoints, FieldValues, Stage, Stages, MatchArms, MatchGuard, MatchTarget, Chain,
  Callable, Decl, Module, no_fields, field_value, no_stages, stage, no_arms, arm,
}

abbrev mutual
  pub EndpointNames : (Text → Type 0) → Endpoint → Type 0
  EndpointNames P (Endpoint.name n) = P n
  EndpointNames P (Endpoint.tuple es) = EndpointsNames P es
  EndpointNames P (Endpoint.seq es) = EndpointsNames P es
  EndpointNames P (Endpoint.struct _ fs) = FieldsNames P fs
  EndpointNames P (Endpoint.eval e ss) = EndpointNames P e × StagesNames P ss
  EndpointNames P _ = Unit

  pub EndpointsNames : (Text → Type 0) → Endpoints → Type 0
  EndpointsNames P Endpoints.nil = Unit
  EndpointsNames P (Endpoints.cons e es) = EndpointNames P e × EndpointsNames P es

  pub FieldsNames : (Text → Type 0) → FieldValues → Type 0
  FieldsNames P no_fields = Unit
  FieldsNames P (field_value _ e fs) = EndpointNames P e × FieldsNames P fs

  pub StageNames : (Text → Type 0) → Stage → Type 0
  StageNames P (Stage.endpoint e) = EndpointNames P e
  StageNames P (Stage.match_arms arms) = ArmsNames P arms
  StageNames P (Stage.map n) = P n
  StageNames P (Stage.filter n) = P n
  StageNames P (Stage.reduce n _) = P n
  StageNames P (Stage.scan n _) = P n
  StageNames P (Stage.fault_map n _ _) = P n
  StageNames P (Stage.repeat _ n) = P n
  StageNames P _ = Unit

  pub StagesNames : (Text → Type 0) → Stages → Type 0
  StagesNames P no_stages = Unit
  StagesNames P (stage s ss) = StageNames P s × StagesNames P ss

  pub ArmsNames : (Text → Type 0) → MatchArms → Type 0
  ArmsNames P no_arms = Unit
  ArmsNames P (arm g t arms) = GuardNames P g × MatchTargetNames P t × ArmsNames P arms

  pub GuardNames : (Text → Type 0) → MatchGuard → Type 0
  GuardNames P (MatchGuard.call n es) = P n × EndpointsNames P es
  GuardNames P MatchGuard.fallback = Unit

  pub MatchTargetNames : (Text → Type 0) → MatchTarget → Type 0
  MatchTargetNames P (MatchTarget.node n) = P n
  MatchTargetNames P (MatchTarget.value e) = EndpointNames P e

abbrev pub ChainNames : (Text → Type 0) → Chain → Type 0
ChainNames P c = EndpointNames P c.source × StagesNames P c.stages

abbrev pub CallableNames : (Text → Type 0) → Callable → Type 0
CallableNames P c = All (ChainNames P) c.chains

abbrev pub DeclNames : (Text → Type 0) → Decl → Type 0
DeclNames P (Decl.node_decl c) = CallableNames P c
DeclNames P (Decl.program c) = CallableNames P c
DeclNames P _ = Unit

abbrev pub ModuleNames : (Text → Type 0) → Module → Type 0
ModuleNames P m = All (DeclNames P) m.declarations
