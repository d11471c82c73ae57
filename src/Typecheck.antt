-- ===== src/Typecheck.antt =====
-- src/typecheck.rs: the checker. Its two maps from names are association lists; `insert` puts an
-- entry in front and the program refuses one whose name has an entry. An error is the data that its
-- message is formatted of.
pub mod Declare
pub mod Nodes
pub mod Apply
pub mod Endpoint
pub mod Chain
pub mod Typed
pub mod Callable
pub mod Collect
pub mod Aliases
pub mod Effects
pub mod Ground
pub mod Entries
pub mod Agree
pub mod Tests
use flow_arrow.Prelude.{
  ℕ, Bool, true, false, Option, none, some, List, [], ◌∷◌, Text, text_eq, Outcome, ok, err, panic,
  out_of_fuel, ◌>>◌, ◌≡◌, refl, if◌then◌else◌,
}
use flow_arrow.Types.{Ty, Types, Signature, TypeError, TyResult}
use flow_arrow.Types.Substitute.{Vars}
use flow_arrow.Ast.{BindingTarget, Module}
use flow_arrow.Stdlib.{Effect, RuntimeSupport}

pub data CallableKind : Type 0 where
  node program : CallableKind

pub record NodeParamInfo : Type 0 where
  pub name : Text
  pub signature : Signature

pub record CallableInfo : Type 0 where
  pub signatures : List Signature
  pub reduce_signatures : List Signature
  pub node_params : List NodeParamInfo
  pub kind : CallableKind
  pub effect : Effect
  pub runtime : RuntimeSupport
  pub is_stdlib : Bool
  pub runtime_name : Text

abbrev pub Symbols : Type 0
Symbols = List (Text × CallableInfo)

pub record Checker : Type 0 where
  pub source : Module
  pub symbols : Symbols
  pub types : Vars

-- One constructor for each message of the checker; `in_type` is an error that types.rs reports.
pub data CheckError : Type 0 where
  in_type : TypeError → CheckError
  unknown_type unknown_value unknown_node unknown_static_arg unknown_struct : Text → CheckError
  unknown_reduce unknown_guard unknown_module expected_value : Text → CheckError
  unknown_declared_type : Ty → CheckError
  no_stream : CheckError
  union_type : Types → CheckError
  repeated_param repeated_input never_bound : Text → Text → CheckError
  program_params extern_params no_signature missing_callable bound_twice : Text → CheckError
  expected_types : Text → Ty → Ty → TypeError → CheckError
  not_assignable : Text → Ty → Ty → TypeError → CheckError
  program_called not_a_function only_reduce : Text → CheckError
  empty_seq_context no_empty_seq : CheckError
  unresolved_output : Text → CheckError
  input_mismatch : Text → Ty → Option TypeError → CheckError
  needs_static_args : Text → ℕ → CheckError
  no_static_params nested_static_arg program_arg generic_arg effectful_arg : Text → CheckError
  static_count : Text → ℕ → ℕ → CheckError
  static_mismatch : Text → NodeParamInfo → CheckError
  expected_seq_or_stream expected_seq : Text → Ty → CheckError
  not_faultable : Text → Ty → CheckError
  no_reduce not_implemented_reduce unresolved_reduce : Text → CheckError
  reduce_mismatch : Text → Ty → Option TypeError → CheckError
  empty_name : CheckError
  field_of_value : Text → Ty → CheckError
  no_field repeated_field : Text → Text → CheckError
  field_count : Text → ℕ → ℕ → CheckError
  item_mismatch : TypeError → CheckError
  misplaced_variable misplaced_endpoint misplaced_bind inline_bind inline_endpoint : CheckError
  inline_fault_map fault_map_last : CheckError
  no_arms no_fallback fallback_last : CheckError
  program_guard effectful_guard : Text → CheckError
  expected_tuple : BindingTarget → Ty → CheckError
  tuple_count : BindingTarget → ℕ → ℕ → CheckError
  missing_main main_not_program main_no_signature : CheckError
  main_output : Ty → CheckError
  duplicate_symbol duplicate_type_import duplicate_type : Text → CheckError
  intrinsic_import : CheckError
  not_exported unsupported_symbol : Text → Text → CheckError
  no_input_type no_output_type : Text → CheckError
  cyclic_alias cyclic_declaration : List Text → CheckError
  unknown_alias : Text → CheckError

abbrev pub Check : Type 0 → Type 0
Check A = Outcome CheckError A

-- `HashMap::get`
unfoldable pub get {ℓ} : {A : Type ℓ} → Text → List (Text × A) → Option A
get name [] = none
get name ((n, a) ∷ entries) = if text_eq n name then some a else get name entries

-- `Option::is_some`
abbrev pub is_some {ℓ} : {A : Type ℓ} → Option A → Bool
is_some (some _) = true
is_some none = false

-- `Option::ok_or_else` and `Result::map_err`, with `?` behind them.
abbrev pub some_or : {A : Type 0} → Option A → CheckError → Check A
some_or (some a) e = ok a
some_or none e = err e

abbrev pub map_err : {A : Type 0} → (TypeError → CheckError) → TyResult A → Check A
map_err f (ok a) = ok a
map_err f (err e) = err (f e)
map_err f panic = panic
map_err f out_of_fuel = out_of_fuel

-- `if test { return Err(…) }`
unfoldable pub refuse : Bool → CheckError → Check (Unit {0})
refuse true e = err e
refuse false e = ok tt

abbrev pub is_program : CallableKind → Bool
is_program program = true
is_program node = false

abbrev pub is_nil : {A : Type 0} → List A → Bool
is_nil [] = true
is_nil (_ ∷ _) = false

pub refuse-eq-ok :
    {B : Type 0} (test : Bool) (e : CheckError) {r : Check B} {b : B}
    → (refuse test e >> r) ≡ ok b
    → (test ≡ false) × (r ≡ ok b)
unfolding refuse
refuse-eq-ok true e h = cc
refuse-eq-ok false e h = (refl, h)
