-- ===== src/Typecheck/Tests.antt =====
-- A module that reads files is checked, and the theorems on the checker at concrete inputs.
use flow_arrow.Prelude.{
  ◌≢◌, out_of_fuel, panic, Bool, ◌≡◌, ◌↔◌, refl, true, false, none, some, List, [], ◌∷◌, ◌++◌, Text,
  codes, ok, All, held, text_eq,
}
use flow_arrow.Types.{
  bytes, faultable, seq, strip_faultable, contains_faultable, contains_empty_seq, ty_eq,
}
use flow_arrow.Types.Substitute.{Vars, lookup, substitute}
use flow_arrow.Types.Syntax.{
  primitive_types, parse_type, expect, skip_ws, in_brackets, named_type, parse_union_type,
  last_segment, take_name, ident, bracket_of, eat,
}
use flow_arrow.Ast.{
  Callable, Endpoint, Endpoints, Stage, Decl, Module, BindingTarget, stage, no_stages, module_path,
  ImportClause,
}
use flow_arrow.Stdlib.{
  StdSymbol, SymbolKind, Effect, io, direct_builtin, find_export, module_symbols,
}
use flow_arrow.ModuleResolver.{ResolvedModule, symbol_id}
use flow_arrow.Typecheck.Aliases.Ends.{collect_type_aliases_total}
use flow_arrow.Typecheck.{CallableKind, Symbols, Checker, CallableInfo, refuse, get}
use flow_arrow.Typecheck.Nodes.{
  resolve_node, apply_node, takes_faultable, output_of, resolve_symbol, output_type, input_context,
  first_match, find_param, stripped_pass,
}
use flow_arrow.Typecheck.Nodes.Faults.{apply_node-faultable}
use flow_arrow.Typecheck.Apply.{is_faultable, expect_assignable_type}
use flow_arrow.Typecheck.Endpoint.{endpoint_type}
use flow_arrow.Typecheck.Chain.{
  check_chains, check_chain, bind_all, check_stage, binding_target_types, check_stages, insert_new,
}
use flow_arrow.Typecheck.Chain.Single.{IsDistinct, check_chains-single}
use flow_arrow.Typecheck.Typed.{
  TypedEndpoint, TypedEndpointKind, typed_endpoint, TypedStageKind, typed_stage, call, TypedStages,
  done, type_of, type_endpoint, type_stages, callable_symbol_id, bind_values, type_chain,
}
use flow_arrow.Typecheck.Callable.{
  TypedCallable, TypedModule, library, mode_check, check_library, declared_outputs, type_chains,
  type_callable, refuse_params, type_inputs, type_decls, typed_symbols, typed_module,
}
use flow_arrow.Typecheck.Collect.{
  new, typed_resolved_module, insert_intrinsics, std_info, collect_callable, insert_symbol,
  stdlib_signatures, stdlib_reduce_signatures, insert_items, collect_callables, insert_std_symbol,
  collect_foreigns, collect_imports,
}
use flow_arrow.Typecheck.Effects.{
  symbol_effect_io, infer_effects, set_io, infer_loop, mark, mark_decls, callable_uses_io,
}
use flow_arrow.Typecheck.Effects.Marks.{IsEffectful, ReachesIo}
use flow_arrow.Typecheck.Effects.Reaches.{infer_effects_iff}
use flow_arrow.Typecheck.Ground.Library.{HasPlainOutputs}
use flow_arrow.Typecheck.Ground.New.{typed_resolved_module-Ground}
use flow_arrow.Typecheck.Ground.Chain.{GroundCallable}
use flow_arrow.Typecheck.Agree.Endpoint.{type_endpoint_iff}
use flow_arrow.Typecheck.Agree.Module.{typed_resolved_module_iff}
use flow_arrow.Typecheck.Declare.{
  parse_declared_type, node_param_infos, port_types, declared_types, resolve_declared_type,
  callable_signature, validate_declared_type, param_infos,
}
use flow_arrow.Typecheck.Aliases.{resolve_all, collect_type_aliases, collect_raw}
use flow_arrow.Types.Match.{assignable_type, match_types}
use flow_arrow.NodeRef.{parse_static_node_ref}

-- `READ_FILE` and `HAS_FAULTS`
abbrev read_file : StdSymbol
read_file = record {
  home = codes "std.fs";
  name = codes "read_file";
  runtime_name = codes "read_file";
  kind = SymbolKind.node;
  input = some (codes "Bytes");
  output = some (codes "Faultable[Bytes]");
  reduce_input = none;
  reduce_output = none;
  effect = io;
  runtime = direct_builtin;
}

abbrev table : List StdSymbol
table = read_file ∷ []

-- `$path -> name -> $text`
abbrev reader : Text → Text → Callable
reader name called = record {
  name = name;
  is_extern = false;
  node_params = [];
  inputs = record { name = codes "path"; ty = codes "Bytes" } ∷ [];
  outputs = record { name = codes "text"; ty = codes "Faultable[Bytes]" } ∷ [];
  chains =
      record {
        source = Endpoint.variable (codes "path");
        stages =
            stage (Stage.endpoint (Endpoint.name called))
              (stage (Stage.bind (BindingTarget.variable (codes "text"))) no_stages);
      }
      ∷ [];
}

-- `fetch` calls `load`, which reads a file.
abbrev source : Module
source = record {
  declarations =
      Decl.import_decl (record {
        source = module_path (codes "std.fs");
        clause =
            ImportClause.items
              (record { name = codes "read_file"; alias = some (codes "read") } ∷ []);
      })
      ∷ Decl.node_decl (reader (codes "fetch") (codes "load"))
      ∷ Decl.node_decl (reader (codes "load") (codes "read"))
      ∷ [];
}

abbrev resolved : ResolvedModule
resolved = record { root = source; symbols = []; names = [] }

-- The entry of a node that reads, and what the checker collects.
abbrev entry : Bool → Effect → Text → CallableInfo
entry is_stdlib effect runtime_name = record {
  signatures = record { input = bytes; output = faultable bytes } ∷ [];
  reduce_signatures = [];
  node_params = [];
  kind = CallableKind.node;
  effect = effect;
  runtime = direct_builtin;
  is_stdlib = is_stdlib;
  runtime_name = runtime_name;
}

abbrev checked : Checker
checked = record {
  source = source;
  symbols =
      (codes "load", entry false io (codes "load"))
      ∷ (codes "fetch", entry false io (codes "fetch"))
      ∷ (codes "read", entry true io (codes "read_file"))
      ∷ [];
  types = primitive_types;
}

abbrev typed_reader : Text → Text → TypedCallable
typed_reader name called = record {
  id = none;
  name = name;
  kind = CallableKind.node;
  is_extern = false;
  signature = record { input = bytes; output = faultable bytes };
  effect = io;
  node_params = [];
  inputs = record { name = codes "path"; ty = bytes } ∷ [];
  outputs = record { name = codes "text"; ty = faultable bytes } ∷ [];
  variables =
      record { name = codes "path"; ty = bytes }
      ∷ record { name = codes "text"; ty = faultable bytes }
      ∷ [];
  chains =
      record {
        source = typed_endpoint bytes (TypedEndpointKind.variable (codes "path"));
        stages = TypedStages.stage (typed_stage bytes (faultable bytes) none (call called none)) (
            TypedStages.stage
              (typed_stage (faultable bytes) (faultable bytes) none
                (TypedStageKind.bind (BindingTarget.variable (codes "text"))))
              done);
      }
      ∷ [];
}

abbrev typed : TypedModule
typed = record {
  resolved = resolved;
  symbols = [];
  callables =
      typed_reader (codes "fetch") (codes "load") ∷ typed_reader (codes "load") (codes "read") ∷ [];
}

abbrev path_env : Vars
path_env = (codes "path", bytes) ∷ []

abbrev text_env : Vars
text_env = (codes "text", faultable bytes) ∷ path_env

new_run : new table (λ names. names) source ≡ ok checked
unfolding get refuse resolve_declared_type validate_declared_type parse_declared_type declared_types
    port_types callable_signature param_infos node_param_infos collect_raw resolve_all
    collect_type_aliases symbol_effect_io callable_uses_io set_io mark mark_decls infer_loop
    infer_effects insert_symbol stdlib_signatures stdlib_reduce_signatures std_info
    insert_std_symbol insert_intrinsics insert_items collect_imports collect_foreigns
    collect_callable collect_callables new module_symbols find_export ty_eq skip_ws eat expect
    take_name ident last_segment named_type bracket_of in_brackets parse_union_type parse_type
    text_eq
new_run = refl

-- The module is accepted, with the effect of `read` in both nodes.
typed_resolved_module_run : typed_resolved_module table (λ names. names) resolved library ≡ ok typed
unfolding get refuse resolve_declared_type validate_declared_type parse_declared_type declared_types
    port_types callable_signature param_infos node_param_infos find_param input_context output_of
    first_match takes_faultable stripped_pass output_type resolve_symbol resolve_node apply_node
    expect_assignable_type binding_target_types insert_new bind_values callable_symbol_id
    type_endpoint type_stages type_chain refuse_params declared_outputs type_inputs type_chains
    type_callable typed_symbols type_decls typed_module collect_raw resolve_all collect_type_aliases
    symbol_effect_io callable_uses_io set_io mark mark_decls infer_loop infer_effects insert_symbol
    stdlib_signatures stdlib_reduce_signatures std_info insert_std_symbol insert_intrinsics
    insert_items collect_imports collect_foreigns collect_callable collect_callables new
    typed_resolved_module module_symbols find_export symbol_id ty_eq contains_faultable
    strip_faultable contains_empty_seq lookup substitute match_types assignable_type skip_ws eat
    expect take_name ident last_segment named_type bracket_of in_brackets parse_union_type
    parse_type parse_static_node_ref text_eq
typed_resolved_module_run = refl

check_chains_run :
    check_chains checked
      (reader (codes "fetch") (codes "load"))
      path_env
      (reader (codes "fetch") (codes "load")).chains
    ≡ ok text_env
unfolding get refuse find_param input_context output_of first_match takes_faultable stripped_pass
    output_type resolve_symbol resolve_node apply_node endpoint_type binding_target_types insert_new
    bind_all check_stage check_stages check_chain check_chains ty_eq contains_faultable
    strip_faultable contains_empty_seq lookup substitute match_types parse_static_node_ref text_eq
check_chains_run = refl

-- A path that may be a fault is read into a text that may be one.
resolve_node_run :
    resolve_node checked (reader (codes "fetch") (codes "load")) (codes "load")
    ≡ ok (entry false io (codes "load"))
unfolding get refuse find_param resolve_symbol resolve_node parse_static_node_ref text_eq
resolve_node_run = refl

apply_node_run :
    apply_node checked
      (reader (codes "fetch") (codes "load"))
      (codes "load")
      (faultable bytes)
      false
      false
    ≡ ok (faultable bytes)
unfolding get refuse find_param input_context output_of first_match takes_faultable stripped_pass
    output_type resolve_symbol resolve_node apply_node ty_eq contains_faultable strip_faultable
    contains_empty_seq substitute match_types parse_static_node_ref text_eq
apply_node_run = refl

plain : All HasPlainOutputs table
unfolding skip_ws eat expect take_name ident last_segment named_type bracket_of in_brackets
    parse_union_type parse_type text_eq
plain = ((held tt, tt), tt)

typed_resolved_module-Ground_example : All GroundCallable typed.callables
typed_resolved_module-Ground_example =
    typed_resolved_module-Ground table (λ names. names) resolved library typed plain
      typed_resolved_module_run

typed_resolved_module_iff_example :
    ((m : TypedModule) × (typed_resolved_module table (λ names. names) resolved library ≡ ok m)) ↔ (
      (c : Checker) × (new table (λ names. names) resolved.root ≡ ok c)
      × (mode_check c library ≡ ok tt)
      × (check_library c ≡ ok tt))
typed_resolved_module_iff_example =
    typed_resolved_module_iff table (λ names. names) resolved library

-- The symbols before the inference.
abbrev collected : Symbols
collected =
    (codes "load", entry false Effect.pure (codes "load"))
    ∷ (codes "fetch", entry false Effect.pure (codes "fetch"))
    ∷ (codes "read", entry true io (codes "read_file"))
    ∷ []

infer_effects_iff_example :
    (symbols : Symbols) × (infer_effects source.declarations collected ≡ ok symbols)
    × ((n : Text) → IsEffectful symbols n ↔ ReachesIo source.declarations collected n)
infer_effects_iff_example = infer_effects_iff source.declarations collected

-- `[$path, $path]`
abbrev paths : Endpoint
paths = Endpoint.seq (
    Endpoints.cons (Endpoint.variable (codes "path"))
      (Endpoints.cons (Endpoint.variable (codes "path")) Endpoints.nil))

type_endpoint_iff_example :
    ((typed : TypedEndpoint) × (type_endpoint [] checked path_env paths ≡ ok typed)
      × (type_of typed ≡ seq bytes))
    ↔ (endpoint_type checked path_env paths ≡ ok (seq bytes))
type_endpoint_iff_example = type_endpoint_iff [] checked path_env paths (seq bytes)

check_chains-single_example : (added : Vars) × (text_env ≡ added ++ path_env) × IsDistinct text_env
unfolding lookup
check_chains-single_example =
    check_chains-single checked (reader (codes "fetch") (codes "load")) path_env
      (reader (codes "fetch") (codes "load")).chains text_env (refl, tt) check_chains_run

apply_node-faultable_example : is_faultable (faultable bytes) ≡ true
unfolding takes_faultable contains_faultable
apply_node-faultable_example =
    apply_node-faultable checked (reader (codes "fetch") (codes "load")) (codes "load")
      (faultable bytes) false false (entry false io (codes "load")) (faultable bytes)
      resolve_node_run (refl, tt) refl apply_node_run

-- `type A = Seq[B]` and `type B = A`
abbrev cyclic : List Decl
cyclic =
    Decl.type_alias (record { name = codes "A"; ty = codes "Seq[B]" })
    ∷ Decl.type_alias (record { name = codes "B"; ty = codes "A" })
    ∷ []

collect_type_aliases_total_example :
    (collect_type_aliases (λ names. names) cyclic primitive_types ≢ out_of_fuel)
    × (collect_type_aliases (λ names. names) cyclic primitive_types ≢ panic)
collect_type_aliases_total_example =
    collect_type_aliases_total (λ names. names) cyclic primitive_types
