-- ===== src/Typecheck/Ground/Declared.antt =====
-- src/typecheck.rs: what a module declares, with the effects inferred, is sound.
use flow_arrow.Prelude.{
  ℕ, zero, suc, Bool, false, ◌&&◌, List, [], ◌∷◌, Text, text_eq, Bool-cases, inl, inr, Holds, held,
  stops, ◌⨾◌, Holds-any, Holds-if,
}
use flow_arrow.Types.{Ty, Types, nil, cons}
use flow_arrow.Types.Substitute.{Vars}
use flow_arrow.Ast.{Port, ForeignNode, Callable, Decl}
use flow_arrow.Typecheck.{CallableKind, Symbols}
use flow_arrow.Typecheck.Declare.{
  declared_types, port_types, ports_type, callable_signature, node_param_infos,
}
use flow_arrow.Typecheck.Aliases.{
  Resolution, Resolve, resolve_all, collect_raw, collect_type_aliases,
}
use flow_arrow.Typecheck.Effects.{
  symbol_effect_io, callable_uses_io, has, set_io, mark, mark_decls, infer_loop,
}
use flow_arrow.Typecheck.Collect.{
  collect_foreign_nodes, collect_foreigns, collect_callable, collect_callables,
}
use flow_arrow.Typecheck.Ground.{IsGround, AreGround}
use flow_arrow.Typecheck.Ground.Nodes.{
  HasOutput, IsGround-NoUnion, validate-IsGround, parse_declared_type-IsGround,
}
use flow_arrow.Typecheck.Ground.Library.{
  SoundSymbols, SoundTypes, IsGround-StructGround, insert_symbol-Sound,
}

-- The types that the module declares: each is validated before it is kept.
pub resolve_all-Sound :
    (resolve : Vars → Text → Resolution → Resolve Ty) (names : List Text) (types resolved : Vars)
    → SoundTypes types
    → Holds (λ (x : Vars × Vars). SoundTypes x.0) (resolve_all resolve names types resolved)
unfolding resolve_all
resolve_all-Sound resolve [] types resolved h = held h
resolve_all-Sound resolve (name ∷ names) types resolved h =
    Holds-any (resolve types name (record { resolved = resolved; resolving = [] })) ⨾ λ x _.
    validate-IsGround types x.0 ⨾ λ _ k.
    resolve_all-Sound resolve names ((name, x.0) ∷ types) x.1.resolved
      (IsGround-StructGround x.0 k, h)

pub collect_type_aliases-Sound :
    (order : List Text → List Text) (decls : List Decl) (types : Vars)
    → SoundTypes types
    → Holds SoundTypes (collect_type_aliases order decls types)
unfolding collect_type_aliases
collect_type_aliases-Sound order decls types h = Holds-any (collect_raw types decls _) ⨾ λ raw _.
    resolve_all-Sound _ _ types [] h ⨾ λ x k. resolve_all-Sound _ _ x.0 x.1 k ⨾ λ y l. held l

-- The callables that the module declares.
pub declared-AreGround :
    (types : Vars) (ports : List Port) → Holds AreGround (declared_types types ports)
unfolding declared_types
declared-AreGround types [] = held tt
declared-AreGround types (p ∷ ports) = parse_declared_type-IsGround types p.ty ⨾ λ t h.
    declared-AreGround types ports ⨾ λ ts hs. held (h, hs)

pub ports_type-IsGround : (ts : Types) → AreGround ts → IsGround (ports_type ts)
ports_type-IsGround nil h = tt
ports_type-IsGround (cons t nil) (h, _) = h
ports_type-IsGround (cons t (cons u ts)) h = h

pub port_types-IsGround :
    (types : Vars) (ports : List Port) → Holds IsGround (port_types types ports)
unfolding port_types
port_types-IsGround types ports =
    declared-AreGround types ports ⨾ λ ts h. held (ports_type-IsGround ts h)

module _ (types : Vars) where
  pub foreign_nodes-Sound :
      (nodes : List ForeignNode) (u : Symbols)
      → SoundSymbols u
      → Holds SoundSymbols (collect_foreign_nodes types nodes u)
  unfolding collect_foreign_nodes
  foreign_nodes-Sound [] u h = held h
  foreign_nodes-Sound (n ∷ nodes) u h = Holds-any (port_types types n.inputs) ⨾ λ input _.
      port_types-IsGround types n.outputs ⨾ λ output k.
      insert_symbol-Sound n.name _ u ((IsGround-NoUnion output k, tt), tt) h ⨾ λ v l.
      foreign_nodes-Sound nodes v l

  pub foreigns-Sound :
      (decls : List Decl) (u : Symbols)
      → SoundSymbols u
      → Holds SoundSymbols (collect_foreigns types decls u)
  unfolding collect_foreigns
  foreigns-Sound [] u h = held h
  foreigns-Sound (Decl.foreign_block f ∷ decls) u h =
      foreign_nodes-Sound f.nodes u h ⨾ λ v k. foreigns-Sound decls v k
  foreigns-Sound (Decl.node_decl _ ∷ decls) u h = foreigns-Sound decls u h
  foreigns-Sound (Decl.program _ ∷ decls) u h = foreigns-Sound decls u h
  foreigns-Sound (Decl.import_decl _ ∷ decls) u h = foreigns-Sound decls u h
  foreigns-Sound (Decl.type_alias _ ∷ decls) u h = foreigns-Sound decls u h
  foreigns-Sound (Decl.struct_decl _ ∷ decls) u h = foreigns-Sound decls u h

  pub signature-HasOutput :
      (callable : Callable) → Holds HasOutput (callable_signature types callable)
  unfolding callable_signature
  signature-HasOutput callable = Holds-any (port_types types callable.inputs) ⨾ λ input _.
      port_types-IsGround types callable.outputs ⨾ λ output k. held (IsGround-NoUnion output k)

  pub callable-Sound :
      (kind : CallableKind) (callable : Callable) (u : Symbols)
      → SoundSymbols u
      → Holds SoundSymbols (collect_callable types kind callable u)
  unfolding collect_callable
  callable-Sound kind callable u h = signature-HasOutput callable ⨾ λ s k.
      Holds-any (node_param_infos types callable) ⨾ λ params _.
      insert_symbol-Sound callable.name _ u ((k, tt), tt) h

  pub callables-Sound :
      (decls : List Decl) (u : Symbols)
      → SoundSymbols u
      → Holds SoundSymbols (collect_callables types decls u)
  unfolding collect_callables
  callables-Sound [] u h = held h
  callables-Sound (Decl.node_decl c ∷ decls) u h =
      callable-Sound _ c u h ⨾ λ v k. callables-Sound decls v k
  callables-Sound (Decl.program c ∷ decls) u h =
      callable-Sound _ c u h ⨾ λ v k. callables-Sound decls v k
  callables-Sound (Decl.foreign_block _ ∷ decls) u h = callables-Sound decls u h
  callables-Sound (Decl.import_decl _ ∷ decls) u h = callables-Sound decls u h
  callables-Sound (Decl.type_alias _ ∷ decls) u h = callables-Sound decls u h
  callables-Sound (Decl.struct_decl _ ∷ decls) u h = callables-Sound decls u h

-- The inference of effects changes no signature.
pub set_io-Sound : (name : Text) (u : Symbols) → SoundSymbols u → SoundSymbols (set_io name u)
unfolding set_io
set_io-Sound name [] h = tt
set_io-Sound name ((n, info) ∷ u) (h, hs) = elim (Bool-cases (text_eq n name)) [
  | inl same ↦ rw same (h, hs)
  | inr differ ↦ rw differ (h, set_io-Sound name u hs)
]

pub mark-Sound :
    (c : Callable) (u : Symbols) (changed : Bool)
    → SoundSymbols u
    → SoundSymbols (mark c u changed).0
unfolding mark
mark-Sound c u changed h = elim (Bool-cases (symbol_effect_io u c.name)) [
  | inl e ↦ rw e h
  | inr e ↦ elim (Bool-cases (callable_uses_io u c && has c.name u)) [
    | inl f ↦ rw (e, f) (set_io-Sound c.name u h)
    | inr f ↦ rw (e, f) h
  ]
]

pub mark_decls-Sound :
    (decls : List Decl) (u : Symbols) (changed : Bool)
    → SoundSymbols u
    → SoundSymbols (mark_decls decls u changed).0
unfolding mark_decls
mark_decls-Sound [] u changed h = h
mark_decls-Sound (Decl.node_decl c ∷ decls) u changed h =
    mark_decls-Sound decls _ _ (mark-Sound c u changed h)
mark_decls-Sound (Decl.program c ∷ decls) u changed h =
    mark_decls-Sound decls _ _ (mark-Sound c u changed h)
mark_decls-Sound (Decl.foreign_block _ ∷ decls) u changed h = mark_decls-Sound decls u changed h
mark_decls-Sound (Decl.import_decl _ ∷ decls) u changed h = mark_decls-Sound decls u changed h
mark_decls-Sound (Decl.type_alias _ ∷ decls) u changed h = mark_decls-Sound decls u changed h
mark_decls-Sound (Decl.struct_decl _ ∷ decls) u changed h = mark_decls-Sound decls u changed h

pub infer_loop-Sound :
    (fuel : ℕ) (decls : List Decl) (u : Symbols)
    → SoundSymbols u
    → Holds SoundSymbols (infer_loop fuel decls u)
unfolding infer_loop
infer_loop-Sound zero decls u h = stops
infer_loop-Sound (suc fuel) decls u h =
    Holds-if (mark_decls decls u false).1
      (λ _. infer_loop-Sound fuel decls _ (mark_decls-Sound decls u false h))
      (λ _. held (mark_decls-Sound decls u false h))
