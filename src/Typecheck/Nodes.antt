-- ===== src/Typecheck/Nodes.antt =====
-- src/typecheck.rs: the node that a name stands for, `resolve_node`, and its call, `apply_node`.
pub mod Faults
use flow_arrow.Prelude.{
  Bool, true, false, not, ◌&&◌, ◌||◌, ◌==◌, Option, none, some, List, [], ◌∷◌, Text, codes, text_eq,
  length, ok, err, panic, out_of_fuel, ◌>>=◌, ◌>>◌, if◌then◌else◌,
}
use flow_arrow.Types.{
  Ty, Signature, TypeError, TyResult, faultable, contains_faultable, strip_faultable,
  contains_empty_seq,
}
use flow_arrow.Types.Substitute.{Vars, substitute}
use flow_arrow.Types.Match.{match_types}
use flow_arrow.Ast.{NodeParam, Callable}
use flow_arrow.NodeRef.{StaticNodeRef, parse_static_node_ref}
use flow_arrow.Stdlib.{pure, direct_builtin, is_io, is_reduce_only, supports_higher_order_call}
use flow_arrow.Typecheck.{
  node, NodeParamInfo, CallableInfo, Checker, Check, get, some_or, refuse, is_program, is_nil,
  unknown_node, unknown_static_arg, needs_static_args, no_static_params, static_count,
  nested_static_arg, program_arg, generic_arg, effectful_arg, static_mismatch, program_called,
  not_a_function, only_reduce, empty_seq_context, unresolved_output, input_mismatch,
}
use flow_arrow.Typecheck.Declare.{param_signature}

-- `callable.node_params.iter().find(…)`
unfoldable pub find_param : Text → List NodeParam → Option NodeParam
find_param name [] = none
find_param name (p ∷ params) = if text_eq p.name name then some p else find_param name params

-- `Result::is_ok`
abbrev pub is_ok : {A : Type 0} → TyResult A → Bool
is_ok (ok _) = true
is_ok _ = false

unfoldable pub callable_matches_signature : List Signature → Signature → Bool
callable_matches_signature [] expected = false
callable_matches_signature (s ∷ signatures) expected =
    is_ok (match_types expected.input s.input [] >>= match_types expected.output s.output)
    || callable_matches_signature signatures expected

-- What the loops over the signatures of a node end with: an output type, or the last error.
pub data Search : Type 0 where
  found : Ty → Search
  missed : Option TypeError → Search

-- An input that holds an empty sequence literal must bind every variable of the signature's input.
unfoldable pub input_context : Signature → Ty → Vars → Check (Unit {0})
input_context s input vars =
    if contains_empty_seq input
    then some_or (substitute s.input vars) empty_seq_context >>= (λ _. ok tt)
    else ok tt

-- The body of both loops behind a match of the input.
unfoldable pub output_of : Text → Signature → Ty → Vars → Check Ty
output_of name s input vars =
    input_context s input vars >> some_or (substitute s.output vars) (unresolved_output name)

-- The two loops differ in the signatures that they try.
unfoldable pub first_match :
    Text → (Signature → Bool) → List Signature → Ty → Option TypeError → Check Search
first_match name tries [] input last = ok (missed last)
first_match name tries (s ∷ signatures) input last =
    let others = λ (e : Option TypeError). first_match name tries signatures input e in
    if tries s
    then elim (match_types s.input input []) [
      | ok vars ↦ output_of name s input vars >>= (λ t. ok (found t))
      | err e ↦ others (some e)
      | panic ↦ panic
      | out_of_fuel ↦ out_of_fuel
    ]
    else others last

unfoldable pub takes_faultable : Signature → Bool
takes_faultable s = contains_faultable s.input

-- The output for an input whose `Faultable` parts were stripped.
abbrev pub wrap_output : Bool → Ty → Ty
wrap_output true (faultable t) = faultable t
wrap_output true t = faultable t
wrap_output false t = t

abbrev pub wrap_found : Bool → Search → Search
wrap_found faulty (found t) = found (wrap_output faulty t)
wrap_found faulty (missed last) = missed last

unfoldable pub stripped_pass : Text → CallableInfo → Ty → Search → Check Search
stripped_pass name info input (found t) = ok (found t)
stripped_pass name info input (missed last) =
    if text_eq info.runtime_name (codes "collect")
    then ok (missed last)
    else first_match name (λ _. true) info.signatures (strip_faultable input) last
      >>= (λ r. ok (wrap_found (contains_faultable input) r))

abbrev pub search_result : Text → Ty → Search → Check Ty
search_result name input (found t) = ok t
search_result name input (missed last) = err (input_mismatch name input last)

-- `apply_node`, behind its guards.
unfoldable pub output_type : Text → CallableInfo → Ty → Check Ty
output_type name info input = do
  r ← first_match name takes_faultable info.signatures input none
  r' ← stripped_pass name info input r
  search_result name input r'

unfoldable pub allows_higher_order_call : CallableInfo → Bool
allows_higher_order_call info = not info.is_stdlib || supports_higher_order_call info.runtime_name

module _ (self : Checker) where
  unfoldable pub param_info : NodeParam → Check CallableInfo
  param_info param = param_signature self.types param >>= λ signature. ok (record {
    signatures = signature ∷ [];
    reduce_signatures = [];
    node_params = [];
    kind = node;
    effect = pure;
    runtime = direct_builtin;
    is_stdlib = false;
    runtime_name = param.name;
  })

  unfoldable pub resolve_static_arg : Callable → Text → Text → Check CallableInfo
  resolve_static_arg callable actual base = elim (find_param base callable.node_params) [
    | some param ↦ param_info param
    | none ↦ some_or (get base self.symbols) (unknown_static_arg actual)
  ]

  unfoldable pub validate_static_arg : Callable → NodeParamInfo → Text → Check (Unit {0})
  validate_static_arg callable param actual = do
    let actual_ref = parse_static_node_ref actual
    refuse (not (is_nil actual_ref.args)) (nested_static_arg actual)
    info ← resolve_static_arg callable actual actual_ref.base
    refuse (is_program info.kind) (program_arg actual)
    refuse (not (is_nil info.node_params)) (generic_arg actual)
    refuse (is_io info.effect) (effectful_arg actual)
    refuse (not (callable_matches_signature info.signatures param.signature))
        (static_mismatch actual param)

  unfoldable pub validate_args : Callable → List NodeParamInfo → List Text → Check (Unit {0})
  validate_args callable (param ∷ params) (actual ∷ args) =
      validate_static_arg callable param actual >> validate_args callable params args
  validate_args callable _ _ = ok tt

  unfoldable pub validate_static_node_args :
      Callable → StaticNodeRef → CallableInfo → Check (Unit {0})
  validate_static_node_args callable node_ref template = do
    refuse (is_nil template.node_params) (no_static_params node_ref.base)
    refuse (not (length template.node_params == length node_ref.args))
        (static_count node_ref.base (length template.node_params) (length node_ref.args))
    validate_args callable template.node_params node_ref.args

  -- `self.symbols.get(…)`, and what its entry needs.
  unfoldable pub resolve_symbol : Callable → Text → StaticNodeRef → Check CallableInfo
  resolve_symbol callable name node_ref = do
    info ← some_or (get node_ref.base self.symbols) (unknown_node name)
    if is_nil node_ref.args
        then refuse (not (is_nil info.node_params))
            (needs_static_args node_ref.base (length info.node_params))
          >> ok info
        else validate_static_node_args callable node_ref info
          >> ok (record info { node_params = [] })

  unfoldable pub resolve_node : Callable → Text → Check CallableInfo
  resolve_node callable name =
      let node_ref = parse_static_node_ref name in
      elim (if is_nil node_ref.args then find_param node_ref.base callable.node_params else none) [
        | some param ↦ param_info param
        | none ↦ resolve_symbol callable name node_ref
      ]

  unfoldable pub apply_node : Callable → Text → Ty → Bool → Bool → Check Ty
  apply_node callable name input as_function allow_effectful_function = do
    info ← resolve_node callable name
    refuse (is_program info.kind) (program_called name)
    refuse (as_function && not (allows_higher_order_call info)) (not_a_function name)
    refuse (as_function && (is_io info.effect && not allow_effectful_function))
        (not_a_function name)
    refuse (not as_function && is_reduce_only info.runtime) (only_reduce name)
    output_type name info input
