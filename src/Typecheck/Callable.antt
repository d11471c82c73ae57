-- ===== src/Typecheck/Callable.antt =====
-- src/typecheck.rs: the checks of a declaration, and of a module whose declarations were collected.
-- `check` gives a verdict and `typed_module` the typed tree.
use flow_arrow.Prelude.{
  ℕ, Bool, not, ◌&&◌, Option, none, some, List, [], ◌∷◌, ◌++◌, Text, codes, ok, err, ◌>>=◌, ◌>>◌,
}
use flow_arrow.Types.{Ty, Signature, i64, args, faultable, ty_eq}
use flow_arrow.Types.Substitute.{Vars, lookup}
use flow_arrow.Ast.{Port, Callable, Chain, ForeignNode, ForeignBlock, Decl}
use flow_arrow.Stdlib.{Effect, RuntimeSupport}
use flow_arrow.ModuleResolver.{
  ResolvedSymbol, ResolvedSymbolKind, ResolvedSymbolOrigin, ResolvedModule, symbol_id,
}
use flow_arrow.Typecheck.{
  CallableKind, node, program, NodeParamInfo, Checker, Check, get, some_or, refuse, is_program,
  is_nil, program_params, extern_params, repeated_input, never_bound, missing_callable,
  no_signature, missing_main, main_not_program, main_no_signature, main_output,
}
use flow_arrow.Typecheck.Declare.{parse_declared_type, validate_declared_type}
use flow_arrow.Typecheck.Apply.{expect_type, expect_assignable_type}
use flow_arrow.Typecheck.Chain.{check_chains}
use flow_arrow.Typecheck.Typed.{TypedPort, TypedChain, Bound, type_chain}

pub record TypedCallable : Type 0 where
  pub id : Option ℕ
  pub name : Text
  pub kind : CallableKind
  pub is_extern : Bool
  pub signature : Signature
  pub effect : Effect
  pub node_params : List NodeParamInfo
  pub inputs : List TypedPort
  pub outputs : List TypedPort
  pub variables : List TypedPort
  pub chains : List TypedChain

pub record TypedCallableSymbol : Type 0 where
  pub signatures : List Signature
  pub reduce_signatures : List Signature
  pub effect : Effect
  pub runtime : RuntimeSupport
  pub runtime_name : Text
  pub origin : ResolvedSymbolOrigin

pub data TypedSymbolKind : Type 0 where
  type_symbol : Ty → TypedSymbolKind
  callable_symbol : TypedCallableSymbol → TypedSymbolKind

pub record TypedSymbol : Type 0 where
  pub id : ℕ
  pub name : Text
  pub kind : TypedSymbolKind

pub record TypedModule : Type 0 where
  pub resolved : ResolvedModule
  pub symbols : List TypedSymbol
  pub callables : List TypedCallable

pub data CheckMode : Type 0 where
  whole_program library : CheckMode

-- `insert` on a map that has the names of the inputs.
abbrev pub insert_input : Text → Text → Ty → Vars → Check Vars
insert_input callable name t env = elim (lookup name env) [
  | some _ ↦ err (repeated_input callable name)
  | none ↦ ok ((name, t) ∷ env)
]

-- What both checks of a callable refuse first.
unfoldable pub refuse_params : CallableKind → Callable → Check (Unit {0})
refuse_params kind callable =
    refuse (is_program kind && not (is_nil callable.node_params)) (program_params callable.name)
    >> refuse (callable.is_extern && not (is_nil callable.node_params))
        (extern_params callable.name)

abbrev pub first_signature : Text → List Signature → Check Signature
first_signature name [] = err (no_signature name)
first_signature name (s ∷ signatures) = ok s

module _ (self : Checker) where
  unfoldable pub check_inputs : Text → List Port → Vars → Check Vars
  check_inputs callable [] env = ok env
  check_inputs callable (p ∷ ports) env = do
    t ← parse_declared_type self.types p.ty
    env' ← insert_input callable p.name t env
    check_inputs callable ports env'

  -- Each output is bound, to a type that is assignable to the declared one.
  unfoldable pub declared_outputs : Text → Vars → List Port → Check (List TypedPort)
  declared_outputs callable env [] = ok []
  declared_outputs callable env (p ∷ ports) = do
    expected ← parse_declared_type self.types p.ty
    actual ← some_or (lookup p.name env) (never_bound callable p.name)
    expect_assignable_type p.name actual expected
    outputs ← declared_outputs callable env ports
    ok (record { name = p.name; ty = expected } ∷ outputs)

  unfoldable pub check_callable : CallableKind → Callable → Check (Unit {0})
  check_callable kind callable = do
    refuse_params kind callable
    env ← check_inputs callable.name callable.inputs []
    env' ← check_chains self callable env callable.chains
    declared_outputs callable.name env' callable.outputs
    ok tt

  unfoldable pub type_inputs : Text → List Port → Bound → Check Bound
  type_inputs callable [] bound = ok bound
  type_inputs callable (p ∷ ports) bound = do
    t ← parse_declared_type self.types p.ty
    env ← insert_input callable p.name t bound.env
    type_inputs callable ports
        (record { env = env; variables = bound.variables ++ record { name = p.name; ty = t } ∷ [] })

  module _ (resolved : ResolvedModule) where
    unfoldable pub type_chains : Callable → Bound → List Chain → Check (List TypedChain × Bound)
    type_chains callable bound [] = ok ([], bound)
    type_chains callable bound (chain ∷ chains) = do
      (typed, bound') ← type_chain resolved.names self callable bound chain
      (rest, bound'') ← type_chains callable bound' chains
      ok (typed ∷ rest, bound'')

    unfoldable pub type_callable : CallableKind → Callable → Check TypedCallable
    type_callable kind callable = do
      refuse_params kind callable
      inputs ← type_inputs callable.name callable.inputs (record { env = []; variables = [] })
      (chains, bound) ← type_chains callable inputs callable.chains
      outputs ← declared_outputs callable.name bound.env callable.outputs
      info ← some_or (get callable.name self.symbols) (missing_callable callable.name)
      signature ← first_signature callable.name info.signatures
      ok (record {
        id = symbol_id resolved callable.name;
        name = callable.name;
        kind = kind;
        is_extern = callable.is_extern;
        signature = signature;
        effect = info.effect;
        node_params = info.node_params;
        inputs = inputs.variables;
        outputs = outputs;
        variables = bound.variables;
        chains = chains;
      })

  -- The ports of one direction of a foreign node, each of whose types is validated twice.
  unfoldable pub foreign_ports : Text → List Port → Vars → Check (Unit {0})
  foreign_ports callable [] seen = ok tt
  foreign_ports callable (p ∷ ports) seen = do
    t ← parse_declared_type self.types p.ty
    validate_declared_type self.types t
    seen' ← insert_input callable p.name t seen
    foreign_ports callable ports seen'

  unfoldable pub foreign_nodes : List ForeignNode → Check (Unit {0})
  foreign_nodes [] = ok tt
  foreign_nodes (n ∷ nodes) =
      foreign_ports n.name n.inputs [] >> (foreign_ports n.name n.outputs [] >> foreign_nodes nodes)

  unfoldable pub check_foreign : ForeignBlock → Check (Unit {0})
  check_foreign foreign = foreign_nodes foreign.nodes

  unfoldable pub check_decls : List Decl → Check (Unit {0})
  check_decls [] = ok tt
  check_decls (Decl.foreign_block f ∷ decls) = check_foreign f >> check_decls decls
  check_decls (Decl.node_decl c ∷ decls) = check_callable node c >> check_decls decls
  check_decls (Decl.program c ∷ decls) = check_callable program c >> check_decls decls
  check_decls (_ ∷ decls) = check_decls decls

  unfoldable pub check_library : Check (Unit {0})
  check_library = check_decls self.source.declarations

  abbrev pub main_signature : List Signature → Check Signature
  main_signature [] = err main_no_signature
  main_signature (s ∷ signatures) = ok s

  unfoldable pub validate_main : Check (Unit {0})
  validate_main = do
    main ← some_or (get (codes "main") self.symbols) missing_main
    refuse (not (is_program main.kind)) main_not_program
    s ← main_signature main.signatures
    expect_type (codes "program main input") s.input args
    refuse (not (ty_eq s.output i64) && not (ty_eq s.output (faultable i64))) (main_output s.output)

  unfoldable pub check : Check (Unit {0})
  check = validate_main >> check_library

  -- A symbol that the resolver recorded, where the checker has an entry for it.
  abbrev pub typed_symbol : ResolvedSymbol → ResolvedSymbolKind → Option TypedSymbol
  typed_symbol s ResolvedSymbolKind.type = elim (lookup s.internal_name self.types) [
    | some t ↦ some (record { id = s.id; name = s.internal_name; kind = type_symbol t })
    | none ↦ none
  ]
  typed_symbol s ResolvedSymbolKind.callable = elim (get s.internal_name self.symbols) [
    | some info ↦ some (record {
      id = s.id;
      name = s.internal_name;
      kind = callable_symbol (record {
        signatures = info.signatures;
        reduce_signatures = info.reduce_signatures;
        effect = info.effect;
        runtime = info.runtime;
        runtime_name = info.runtime_name;
        origin = s.origin;
      });
    })
    | none ↦ none
  ]

  unfoldable pub typed_symbols : List ResolvedSymbol → List TypedSymbol
  typed_symbols [] = []
  typed_symbols (s ∷ symbols) = elim (typed_symbol s s.kind) [
    | some t ↦ t ∷ typed_symbols symbols
    | none ↦ typed_symbols symbols
  ]

  unfoldable pub type_decls : ResolvedModule → List Decl → Check (List TypedCallable)
  type_decls resolved [] = ok []
  type_decls resolved (Decl.foreign_block f ∷ decls) = check_foreign f >> type_decls resolved decls
  type_decls resolved (Decl.node_decl c ∷ decls) =
      type_callable resolved node c >>= λ t. type_decls resolved decls >>= λ ts. ok (t ∷ ts)
  type_decls resolved (Decl.program c ∷ decls) =
      type_callable resolved program c >>= λ t. type_decls resolved decls >>= λ ts. ok (t ∷ ts)
  type_decls resolved (_ ∷ decls) = type_decls resolved decls

  abbrev pub mode_check : CheckMode → Check (Unit {0})
  mode_check whole_program = validate_main
  mode_check library = ok tt

  unfoldable pub typed_module : ResolvedModule → CheckMode → Check TypedModule
  typed_module resolved mode = do
    mode_check mode
    callables ← type_decls resolved self.source.declarations
    ok (record {
      resolved = resolved;
      symbols = typed_symbols resolved.symbols;
      callables = callables;
    })
