-- ===== src/Typecheck/Collect.antt =====
-- src/typecheck.rs: `Checker::new`, which collects the imports and the declarations of a module, and the
-- functions that check a resolved module.
use flow_arrow.Prelude.{
  true, false, Option, none, some, List, [], ◌∷◌, ◌++◌, Text, text_eq, ok, ◌>>=◌, ◌>>◌,
  if◌then◌else◌,
}
use flow_arrow.Types.{Signature}
use flow_arrow.Types.Substitute.{Vars, lookup}
use flow_arrow.Types.Syntax.{parse_type, stdlib_type_symbol, primitive_types}
use flow_arrow.Ast.{
  ImportItem, ImportSource, ImportClause, module_path, local, ForeignEffect, ForeignNode, Callable,
  Decl, Module,
}
use flow_arrow.Stdlib.{
  StdSymbol, SymbolKind, Effect, io, direct_builtin, is_unsupported, module_symbols, find_export,
  intrinsic_module,
}
use flow_arrow.ModuleResolver.{ResolvedModule}
use flow_arrow.Typecheck.{
  CallableKind, node, program, CallableInfo, Symbols, Checker, Check, get, some_or, map_err, refuse,
  is_nil, is_some, in_type, unknown_module, duplicate_symbol, duplicate_type_import,
  intrinsic_import, not_exported, unsupported_symbol, no_input_type, no_output_type,
}
use flow_arrow.Typecheck.Declare.{port_types, callable_signature, node_param_infos}
use flow_arrow.Typecheck.Aliases.{collect_type_aliases}
use flow_arrow.Typecheck.Effects.{infer_effects}
use flow_arrow.Typecheck.Callable.{TypedModule, CheckMode, typed_module}

unfoldable pub insert_symbol : Text → CallableInfo → Symbols → Check Symbols
insert_symbol name info symbols =
    refuse (is_some (get name symbols)) (duplicate_symbol name) >> ok ((name, info) ∷ symbols)

unfoldable pub stdlib_signatures : StdSymbol → Check (List Signature)
stdlib_signatures symbol = do
  input ← some_or symbol.input (no_input_type symbol.name)
  input' ← map_err in_type (parse_type input)
  output ← some_or symbol.output (no_output_type symbol.name)
  output' ← map_err in_type (parse_type output)
  ok (record { input = input'; output = output' } ∷ [])

abbrev pub reduce_signatures_of : Option Text → Option Text → Check (List Signature)
reduce_signatures_of (some input) (some output) = map_err in_type (parse_type input) >>= λ input'.
    map_err in_type (parse_type output) >>= λ output'.
    ok (record { input = input'; output = output' } ∷ [])
reduce_signatures_of _ _ = ok []

unfoldable pub stdlib_reduce_signatures : StdSymbol → Check (List Signature)
stdlib_reduce_signatures symbol = reduce_signatures_of symbol.reduce_input symbol.reduce_output

unfoldable pub std_info : StdSymbol → Check CallableInfo
std_info symbol = do
  signatures ← stdlib_signatures symbol
  reduce ← stdlib_reduce_signatures symbol
  ok (record {
    signatures = signatures;
    reduce_signatures = reduce;
    node_params = [];
    kind = node;
    effect = symbol.effect;
    runtime = symbol.runtime;
    is_stdlib = true;
    runtime_name = symbol.runtime_name;
  })

abbrev pub insert_kind : SymbolKind → Text → StdSymbol → Checker → Check Checker
insert_kind SymbolKind.type name symbol c =
    map_err in_type (stdlib_type_symbol symbol.name) >>= λ t.
    refuse (is_some (lookup name c.types)) (duplicate_type_import name)
    >> ok (record c { types = (name, t) ∷ c.types })
insert_kind SymbolKind.node name symbol c = std_info symbol >>= λ info.
    insert_symbol name info c.symbols >>= λ symbols. ok (record c { symbols = symbols })

unfoldable pub insert_std_symbol : Text → StdSymbol → Checker → Check Checker
insert_std_symbol name symbol c =
    refuse (is_unsupported symbol.runtime) (unsupported_symbol symbol.home symbol.name)
    >> insert_kind symbol.kind name symbol c

unfoldable pub insert_intrinsics : List StdSymbol → Checker → Check Checker
insert_intrinsics [] c = ok c
insert_intrinsics (s ∷ symbols) c =
    insert_std_symbol s.name s c >>= λ c'. insert_intrinsics symbols c'

-- `import … as alias`: the symbols of the module that the compiler implements.
unfoldable pub insert_module : Text → List StdSymbol → Checker → Check Checker
insert_module alias [] c = ok c
insert_module alias (s ∷ symbols) c =
    (if is_unsupported s.runtime then ok c else insert_std_symbol (alias ++ b'.' ∷ s.name) s c)
    >>= λ c'. insert_module alias symbols c'

-- `table` is the table of the standard library.
module _ (table : List StdSymbol) where
  unfoldable pub insert_items : Text → List ImportItem → Checker → Check Checker
  insert_items home [] c = ok c
  insert_items home (item ∷ items) c = do
    symbol ← some_or (find_export table home item.name) (not_exported home item.name)
    c' ← insert_std_symbol (elim item.alias [ some alias ↦ alias | none ↦ item.name ]) symbol c
    insert_items home items c'

  abbrev pub insert_clause : Text → ImportClause → Checker → Check Checker
  insert_clause home (ImportClause.alias alias) c =
      let symbols = module_symbols table home in
      insert_module alias symbols c >>= λ c'. refuse (is_nil symbols) (unknown_module home) >> ok c'
  insert_clause home (ImportClause.items items) c = insert_items home items c

  abbrev pub insert_import : ImportSource → ImportClause → Checker → Check Checker
  insert_import (local _) clause c = ok c
  insert_import (module_path home) clause c =
      refuse (text_eq home intrinsic_module) intrinsic_import >> insert_clause home clause c

  unfoldable pub collect_imports : List Decl → Checker → Check Checker
  collect_imports [] c = ok c
  collect_imports (Decl.import_decl i ∷ decls) c =
      insert_import i.source i.clause c >>= λ c'. collect_imports decls c'
  collect_imports (_ ∷ decls) c = collect_imports decls c

abbrev pub foreign_effect : ForeignEffect → Effect
foreign_effect ForeignEffect.pure = Effect.pure
foreign_effect ForeignEffect.io = io

-- The entry of a declaration of the module.
abbrev pub declared_info : Text → Signature → CallableKind → Effect → CallableInfo
declared_info name signature kind effect = record {
  signatures = signature ∷ [];
  reduce_signatures = [];
  node_params = [];
  kind = kind;
  effect = effect;
  runtime = direct_builtin;
  is_stdlib = false;
  runtime_name = name;
}

-- `types` is the checker's map of types, which is complete here.
module _ (types : Vars) where
  unfoldable pub collect_foreign_nodes : List ForeignNode → Symbols → Check Symbols
  collect_foreign_nodes [] symbols = ok symbols
  collect_foreign_nodes (n ∷ nodes) symbols = do
    input ← port_types types n.inputs
    output ← port_types types n.outputs
    symbols' ←
        insert_symbol n.name
          (declared_info n.name (record { input = input; output = output }) node
            (foreign_effect n.effect))
          symbols
    collect_foreign_nodes nodes symbols'

  unfoldable pub collect_foreigns : List Decl → Symbols → Check Symbols
  collect_foreigns [] symbols = ok symbols
  collect_foreigns (Decl.foreign_block f ∷ decls) symbols =
      collect_foreign_nodes f.nodes symbols >>= λ symbols'. collect_foreigns decls symbols'
  collect_foreigns (_ ∷ decls) symbols = collect_foreigns decls symbols

  unfoldable pub collect_callable : CallableKind → Callable → Symbols → Check Symbols
  collect_callable kind callable symbols = do
    signature ← callable_signature types callable
    params ← node_param_infos types callable
    insert_symbol callable.name
        (record (declared_info callable.name signature kind Effect.pure) { node_params = params })
        symbols

  unfoldable pub collect_callables : List Decl → Symbols → Check Symbols
  collect_callables [] symbols = ok symbols
  collect_callables (Decl.node_decl c ∷ decls) symbols =
      collect_callable node c symbols >>= λ symbols'. collect_callables decls symbols'
  collect_callables (Decl.program c ∷ decls) symbols =
      collect_callable program c symbols >>= λ symbols'. collect_callables decls symbols'
  collect_callables (_ ∷ decls) symbols = collect_callables decls symbols

-- `Checker::new`
unfoldable pub new : List StdSymbol → (List Text → List Text) → Module → Check Checker
new table order source = do
  c ←
      insert_intrinsics (module_symbols table intrinsic_module)
        (record { source = source; symbols = []; types = primitive_types })
  c' ← collect_imports table source.declarations c
  types ← collect_type_aliases order source.declarations c'.types
  foreigns ← collect_foreigns types source.declarations c'.symbols
  callables ← collect_callables types source.declarations foreigns
  symbols ← infer_effects source.declarations callables
  ok (record { source = source; symbols = symbols; types = types })

unfoldable pub typed_resolved_module :
    List StdSymbol → (List Text → List Text) → ResolvedModule → CheckMode → Check TypedModule
typed_resolved_module table order resolved mode =
    new table order resolved.root >>= λ c. typed_module c resolved mode
