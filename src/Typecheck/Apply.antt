-- ===== src/Typecheck/Apply.antt =====
-- src/typecheck.rs: the types of the stages that apply a node to the items of a sequence.
use flow_arrow.Prelude.{
  Bool, true, false, ◌||◌, Option, none, some, List, [], ◌∷◌, Text, ok, err, panic, out_of_fuel,
  ◌>>=◌, ◌>>◌, text_eq, if◌then◌else◌,
}
use flow_arrow.Types.{
  Ty, Fields, Signature, TypeError, stream, faultable, seq, tuple, struct, bool, fault, nil, cons,
  end, field, ty_eq, inner_faultable,
}
use flow_arrow.Types.Substitute.{substitute}
use flow_arrow.Types.Match.{match_types, assignable_type}
use flow_arrow.Ast.{Callable}
use flow_arrow.Stdlib.{is_io}
use flow_arrow.Typecheck.{
  Checker, Check, get, some_or, map_err, refuse, is_program, is_nil, expected_types, not_assignable,
  expected_seq_or_stream, expected_seq, not_faultable, unknown_reduce, no_reduce,
  not_implemented_reduce, unresolved_reduce, reduce_mismatch, empty_name, field_of_value, no_field,
}
use flow_arrow.Typecheck.Nodes.{Search, found, missed, apply_node}

unfoldable pub expect_type : Text → Ty → Ty → Check (Unit {0})
expect_type label actual expected =
    map_err (expected_types label expected actual) (match_types expected actual []) >>= λ _. ok tt

unfoldable pub expect_assignable_type : Text → Ty → Ty → Check (Unit {0})
expect_assignable_type label actual expected =
    map_err (not_assignable label expected actual) (assignable_type expected actual)

abbrev pub is_faultable : Ty → Bool
is_faultable (faultable _) = true
is_faultable _ = false

-- `if faulty { Type::Faultable(…) } else { … }`
abbrev pub faultable_if : Bool → Ty → Ty
faultable_if true t = faultable t
faultable_if false t = t

-- `let Type::Seq(item_type) = &unwrapped else { return Err(…) }`
abbrev pub item_of : Text → Ty → Ty → Check Ty
item_of name input (seq item) = ok item
item_of name input _ = err (expected_seq name input)

unfoldable pub field_type : Text → Fields → Option Ty
field_type name end = none
field_type name (field n t fs) = if text_eq n name then some t else field_type name fs

unfoldable pub apply_field : Text → Ty → Check Ty
apply_field name (struct s fields) = some_or (field_type name fields) (no_field s name)
apply_field name input = err (field_of_value name input)

-- The loop of `apply_reduce` over the signatures of the operation.
unfoldable pub first_reduce : Text → List Signature → Ty → Option TypeError → Check Search
first_reduce name [] pair last = ok (missed last)
first_reduce name (s ∷ signatures) pair last =
    let others = λ (e : Option TypeError). first_reduce name signatures pair e in
    elim (match_types s.input pair []) [
      | ok vars ↦
          some_or (substitute s.output vars) (unresolved_reduce name) >>= (λ t. ok (found t))
      | err e ↦ others (some e)
      | panic ↦ panic
      | out_of_fuel ↦ out_of_fuel
    ]

abbrev pub reduce_result : Text → Ty → Search → Check Ty
reduce_result name pair (found t) = ok t
reduce_result name pair (missed last) = err (reduce_mismatch name pair last)

abbrev pub is_faultable_of : Ty → Ty → Bool
is_faultable_of item (faultable inner) = ty_eq inner item
is_faultable_of item _ = false

-- Whether the operation may fault: its output is the item type, or the `Faultable` of it.
unfoldable pub operation_faultable : Text → Ty → Ty → Check Bool
operation_faultable name item output =
    if is_faultable_of item output
    then ok true
    else expect_type name output item >>= (λ _. ok false)

module _ (self : Checker) (callable : Callable) where
  abbrev pub map_items : Text → Ty → Ty → Check Ty
  map_items name input (seq item) = apply_node self callable name item true true >>= λ t. ok (seq t)
  map_items name input (stream item) =
      apply_node self callable name item true true >>= λ t. ok (stream t)
  map_items name input _ = err (expected_seq_or_stream name input)

  unfoldable pub apply_map : Text → Ty → Check Ty
  apply_map name input = do
    output ← map_items name input (inner_faultable input)
    ok (faultable_if (is_faultable input) output)

  abbrev pub fault_map_types : Text → Ty → Check (Ty × Ty)
  fault_map_types name (faultable t) = ok (seq t, seq fault)
  fault_map_types name output = err (not_faultable name output)

  unfoldable pub apply_fault_map : Text → Ty → Check (Ty × Ty)
  apply_fault_map name input = do
    item ← item_of name input (inner_faultable input)
    output ← apply_node self callable name item true true
    fault_map_types name output

  unfoldable pub apply_filter : Text → Ty → Check Ty
  apply_filter name input = do
    item ← item_of name input (inner_faultable input)
    output ← apply_node self callable name item true false
    expect_type name output bool
    ok (faultable_if (is_faultable input) (inner_faultable input))

  unfoldable pub apply_repeat : Text → Ty → Check Ty
  apply_repeat name input = do
    output ← apply_node self callable name input true false
    expect_type name output input
    ok output

  unfoldable pub apply_reduce : Text → Ty → Ty → Check Ty
  apply_reduce name input identity = do
    item ← item_of name input (inner_faultable input)
    info ← some_or (get name self.symbols) (unknown_reduce name)
    refuse (is_program info.kind || is_io info.effect) (no_reduce name)
    refuse (is_nil info.reduce_signatures) (not_implemented_reduce name)
    let plain = inner_faultable item
    let pair = tuple (cons plain (cons plain nil))
    r ← first_reduce name info.reduce_signatures pair none
    output ← reduce_result name pair r
    faulty ← operation_faultable name plain output
    expect_type name identity plain
    refuse (is_nil callable.name) empty_name
    ok (faultable_if (is_faultable input || (is_faultable item || faulty)) plain)

  unfoldable pub apply_scan : Text → Ty → Ty → Check Ty
  apply_scan name input identity = do
    item ← item_of name input (inner_faultable input)
    let plain = inner_faultable item
    expect_type name identity plain
    let pair = tuple (cons plain (cons plain nil))
    result ← apply_node self callable name pair true false
    faulty ← operation_faultable name plain result
    refuse (is_nil callable.name) empty_name
    ok (faultable_if (is_faultable input) (seq (faultable_if (is_faultable item || faulty) plain)))
