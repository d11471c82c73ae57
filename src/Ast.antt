-- ===== src/Ast.antt =====
-- src/ast.rs: the syntax tree of a module. A list of endpoints, of named endpoints, of stages, of arms or
-- of targets, which its items hold again, is a type of the mutual block. A real literal keeps its text.
pub mod Formed
use flow_arrow.Prelude.{Bool, Option, List, [], ◌∷◌, Text}
use flow_arrow.Prelude.Int.{ℤ}

pub record Port : Type 0 where
  pub name : Text
  pub ty : Text

pub record NodeParam : Type 0 where
  pub name : Text
  pub input : Text
  pub output : Text

pub record TypeAlias : Type 0 where
  pub name : Text
  pub ty : Text

pub record StructDecl : Type 0 where
  pub name : Text
  pub fields : List Port

pub data ImportSource : Type 0 where
  module_path local : Text → ImportSource

pub record ImportItem : Type 0 where
  pub name : Text
  pub alias : Option Text

pub data ImportClause : Type 0 where
  alias : Text → ImportClause
  items : List ImportItem → ImportClause

pub record Import : Type 0 where
  pub source : ImportSource
  pub clause : ImportClause

pub data ForeignTarget : Type 0 where
  js c : ForeignTarget

pub data ForeignSource : Type 0 where
  module_name global : Text → ForeignSource
  c_header : Text → Option Text → ForeignSource

pub data ForeignEffect : Type 0 where
  pure io : ForeignEffect

pub record ForeignNode : Type 0 where
  pub name : Text
  pub effect : ForeignEffect
  pub inputs : List Port
  pub outputs : List Port
  pub symbol : Text

pub record ForeignBlock : Type 0 where
  pub target : ForeignTarget
  pub source : ForeignSource
  pub nodes : List ForeignNode

mutual
  pub data BindingTarget : Type 0 where
    discard : BindingTarget
    variable : Text → BindingTarget
    tuple : BindingTargets → BindingTarget

  pub data BindingTargets : Type 0 where
    nil : BindingTargets
    cons : BindingTarget → BindingTargets → BindingTargets

mutual
  pub data Endpoint : Type 0 where
    variable name : Text → Endpoint
    int : ℤ → Endpoint
    real real_f32 : Text → Endpoint
    bool : Bool → Endpoint
    string : Text → Endpoint
    unit : Endpoint
    tuple seq : Endpoints → Endpoint
    struct : Text → FieldValues → Endpoint
    eval : Endpoint → Stages → Endpoint

  pub data Endpoints : Type 0 where
    nil : Endpoints
    cons : Endpoint → Endpoints → Endpoints

  pub data FieldValues : Type 0 where
    no_fields : FieldValues
    field_value : Text → Endpoint → FieldValues → FieldValues

  pub data Stage : Type 0 where
    endpoint : Endpoint → Stage
    bind : BindingTarget → Stage
    map filter field : Text → Stage
    fault_map : Text → Text → Text → Stage
    repeat : Endpoint → Text → Stage
    reduce scan : Text → Endpoint → Stage
    match_arms : MatchArms → Stage

  pub data Stages : Type 0 where
    no_stages : Stages
    stage : Stage → Stages → Stages

  pub data MatchArms : Type 0 where
    no_arms : MatchArms
    arm : MatchGuard → MatchTarget → MatchArms → MatchArms

  pub data MatchTarget : Type 0 where
    node : Text → MatchTarget
    value : Endpoint → MatchTarget

  pub data MatchGuard : Type 0 where
    call : Text → Endpoints → MatchGuard
    fallback : MatchGuard

pub record Chain : Type 0 where
  pub source : Endpoint
  pub stages : Stages

pub record Callable : Type 0 where
  pub name : Text
  pub is_extern : Bool
  pub node_params : List NodeParam
  pub inputs : List Port
  pub outputs : List Port
  pub chains : List Chain

pub data Decl : Type 0 where
  type_alias : TypeAlias → Decl
  struct_decl : StructDecl → Decl
  import_decl : Import → Decl
  foreign_block : ForeignBlock → Decl
  node_decl program : Callable → Decl

pub record Module : Type 0 where
  pub declarations : List Decl

-- A `Vec` that the parser has filled, as the list of its kind.
abbrev pub to_targets : List BindingTarget → BindingTargets
to_targets [] = BindingTargets.nil
to_targets (t ∷ ts) = BindingTargets.cons t (to_targets ts)

abbrev pub to_endpoints : List Endpoint → Endpoints
to_endpoints [] = Endpoints.nil
to_endpoints (e ∷ es) = Endpoints.cons e (to_endpoints es)

abbrev pub to_fields : List (Text × Endpoint) → FieldValues
to_fields [] = no_fields
to_fields ((n, e) ∷ fs) = field_value n e (to_fields fs)

abbrev pub to_stages : List Stage → Stages
to_stages [] = no_stages
to_stages (s ∷ ss) = stage s (to_stages ss)

abbrev pub to_arms : List (MatchGuard × MatchTarget) → MatchArms
to_arms [] = no_arms
to_arms ((g, t) ∷ arms) = arm g t (to_arms arms)
