-- ===== src/Typecheck/Endpoint.antt =====
-- src/typecheck.rs: the type of a value, `endpoint_type`. A label that an error shows is modelled by the
-- name in it.
use flow_arrow.Prelude.{
  ℕ, suc, Bool, true, false, not, ◌||◌, ◌==◌, Option, none, some, List, [], ◌∷◌, Text, codes,
  text_eq, ok, err, ◌>>=◌, ◌>>◌,
}
use flow_arrow.Types.{
  Ty, Types, Fields, i64, f64, f32, bool, bytes, unit, empty_seq, seq, tuple, struct, nil, cons,
  length_fields, single_or_tuple, sequence_item_type,
}
use flow_arrow.Types.Substitute.{Vars, lookup}
use flow_arrow.Types.Match.{common_assignable_type}
use flow_arrow.Ast.{
  Endpoint, Endpoints, FieldValues, no_fields, field_value, Stage, Stages, no_stages, MatchArms,
  no_arms, arm, MatchGuard, MatchTarget, Callable,
}
use flow_arrow.Stdlib.{is_io}
use flow_arrow.Typecheck
use flow_arrow.Typecheck.{
  CallableInfo, Checker, Check, CheckError, get, some_or, map_err, refuse, is_program, in_type,
  unknown_value, expected_value, unknown_struct, field_count, no_field, repeated_field,
  item_mismatch, inline_bind, inline_endpoint, inline_fault_map, no_fallback, fallback_last,
  unknown_guard, program_guard, effectful_guard,
}
use flow_arrow.Typecheck.Nodes.{apply_node}
use flow_arrow.Typecheck.Apply.{
  expect_type, expect_assignable_type, field_type, apply_field, apply_map, apply_filter,
  apply_repeat, apply_reduce, apply_scan,
}

abbrev pub inline_callable : Callable
inline_callable = record {
  name = codes "<inline>";
  is_extern = false;
  node_params = [];
  inputs = [];
  outputs = [];
  chains = [];
}

-- The type of the items of a sequence literal, behind those that were read.
unfoldable pub next_item_type : Option Ty → Ty → Check Ty
next_item_type none t = ok t
next_item_type (some expected) t = map_err item_mismatch (sequence_item_type expected t)

abbrev pub seq_type : Option Ty → Ty
seq_type (some item) = seq item
seq_type none = empty_seq

abbrev pub length_values : FieldValues → ℕ
length_values no_fields = 0
length_values (field_value _ _ fs) = suc (length_values fs)

abbrev pub seen : Text → List Text → Bool
seen name [] = false
seen name (n ∷ names) = text_eq n name || seen name names

-- `arms.last().map(|arm| &arm.guard)` is a fallback.
abbrev pub ends_in_fallback : MatchArms → Bool
ends_in_fallback no_arms = false
ends_in_fallback (arm MatchGuard.fallback _ no_arms) = true
ends_in_fallback (arm (MatchGuard.call _ _) _ no_arms) = false
ends_in_fallback (arm _ _ (arm g t arms)) = ends_in_fallback (arm g t arms)

abbrev pub is_empty_arms : MatchArms → Bool
is_empty_arms no_arms = true
is_empty_arms (arm _ _ _) = false

abbrev pub target_label : MatchTarget → Text
target_label (MatchTarget.node name) = name
target_label (MatchTarget.value _) = []

-- The type of the arms, behind those that were read.
unfoldable pub next_arm_type : Option Ty → MatchTarget → Ty → Check Ty
next_arm_type none target t = ok t
next_arm_type (some expected) target t =
    map_err in_type (common_assignable_type expected t (target_label target))

-- `result.ok_or_else(…)`
abbrev pub with_result : {A : Type 0} → A × Option Ty → Check (A × Ty)
with_result (a, some t) = ok (a, t)
with_result (a, none) = err Typecheck.no_arms

-- What `apply_match` tests around its loop.
unfoldable pub around_arms : {A : Type 0} → MatchArms → Check (A × Option Ty) → Check (A × Ty)
around_arms arms loop =
    refuse (is_empty_arms arms) Typecheck.no_arms
    >> (refuse (not (ends_in_fallback arms)) no_fallback >> (loop >>= with_result))

-- `let Some(Type::Struct { … }) = self.types.get(name) else { return Err(…) }`
abbrev pub struct_of : Text → Option Ty → Check (Text × Fields)
struct_of name (some (struct s fields)) = ok (s, fields)
struct_of name _ = err (unknown_struct name)

module _ (self : Checker) where
  -- `struct_literal_type`, around its loop over the fields of the literal.
  unfoldable pub around_fields : Text → ℕ → (Fields → Check (Unit {0})) → Check Ty
  around_fields name count loop = do
    (s, expected) ← struct_of name (lookup name self.types)
    refuse (not (count == length_fields expected)) (field_count name (length_fields expected) count)
    loop expected
    ok (struct s expected)

  -- The node of a guard, and its call on the input and the arguments.
  unfoldable pub guard_node : Text → Check (Unit {0})
  guard_node name = do
    info ← some_or (get name self.symbols) (unknown_guard name)
    refuse (is_program info.kind) (program_guard name)
    refuse (is_io info.effect) (effectful_guard name)

  unfoldable pub guard_call : Callable → Text → Types → Check (Unit {0})
  guard_call callable name types = do
    output ← apply_node self callable name (single_or_tuple types) false false
    expect_type name output bool

  -- `callable` is the one that the value stands in; `env` has the values' types.
  module _ (env : Vars) where
    unfoldable mutual
      pub endpoint_type : Endpoint → Check Ty
      endpoint_type (Endpoint.variable name) = some_or (lookup name env) (unknown_value name)
      endpoint_type (Endpoint.name name) = err (expected_value name)
      endpoint_type (Endpoint.int _) = ok i64
      endpoint_type (Endpoint.real _) = ok f64
      endpoint_type (Endpoint.real_f32 _) = ok f32
      endpoint_type (Endpoint.bool _) = ok bool
      endpoint_type (Endpoint.string _) = ok bytes
      endpoint_type Endpoint.unit = ok unit
      endpoint_type (Endpoint.tuple items) = endpoint_types items >>= λ ts. ok (tuple ts)
      endpoint_type (Endpoint.seq items) = item_type none items >>= λ item. ok (seq_type item)
      endpoint_type (Endpoint.struct name fields) =
          around_fields name (length_values fields)
            (λ expected. literal_fields name expected [] fields)
      endpoint_type (Endpoint.eval source stages) =
          endpoint_type source >>= λ t. inline_eval_type t stages

      pub endpoint_types : Endpoints → Check Types
      endpoint_types Endpoints.nil = ok nil
      endpoint_types (Endpoints.cons item items) =
          endpoint_type item >>= λ t. endpoint_types items >>= λ ts. ok (cons t ts)

      pub item_type : Option Ty → Endpoints → Check (Option Ty)
      item_type item Endpoints.nil = ok item
      item_type item (Endpoints.cons e items) =
          endpoint_type e >>= λ t. next_item_type item t >>= λ next. item_type (some next) items

      pub literal_fields : Text → Fields → List Text → FieldValues → Check (Unit {0})
      literal_fields name expected names no_fields = ok tt
      literal_fields name expected names (field_value f e fields) =
          some_or (field_type f expected) (no_field name f) >>= λ t.
          refuse (seen f names) (repeated_field name f)
          >> (endpoint_type e >>= λ actual.
              expect_assignable_type f actual t >> literal_fields name expected (f ∷ names) fields)

      pub inline_eval_type : Ty → Stages → Check Ty
      inline_eval_type t no_stages = ok t
      inline_eval_type t (Stages.stage s stages) =
          inline_stage_type t s >>= λ t'. inline_eval_type t' stages

      pub inline_stage_type : Ty → Stage → Check Ty
      inline_stage_type t (Stage.endpoint (Endpoint.name name)) =
          apply_node self inline_callable name t false false
      inline_stage_type t (Stage.endpoint (Endpoint.variable _)) = err inline_bind
      inline_stage_type t (Stage.bind _) = err inline_bind
      inline_stage_type t (Stage.endpoint _) = err inline_endpoint
      inline_stage_type t (Stage.map name) = apply_map self inline_callable name t
      inline_stage_type t (Stage.fault_map _ _ _) = err inline_fault_map
      inline_stage_type t (Stage.filter name) = apply_filter self inline_callable name t
      inline_stage_type t (Stage.field name) = apply_field name t
      inline_stage_type t (Stage.repeat count name) = endpoint_type count >>= λ c.
          expect_type (codes "repeat count") c i64 >> apply_repeat self inline_callable name t
      inline_stage_type t (Stage.reduce op identity) =
          endpoint_type identity >>= apply_reduce self inline_callable op t
      inline_stage_type t (Stage.scan op identity) =
          endpoint_type identity >>= apply_scan self inline_callable op t
      inline_stage_type t (Stage.match_arms arms) =
          around_arms arms (arms_type inline_callable t none arms >>= λ result. ok (tt {0}, result))
          >>= λ r. ok r.1

      pub arms_type : Callable → Ty → Option Ty → MatchArms → Check (Option Ty)
      arms_type callable input result no_arms = ok result
      arms_type callable input result (arm guard target arms) =
          guard_type callable input (is_empty_arms arms) guard
          >> (target_type callable input target >>= λ t.
              next_arm_type result target t >>= λ next. arms_type callable input (some next) arms)

      pub guard_type : Callable → Ty → Bool → MatchGuard → Check (Unit {0})
      guard_type callable input is_last MatchGuard.fallback = refuse (not is_last) fallback_last
      guard_type callable input is_last (MatchGuard.call name args) =
          guard_node name
          >> (endpoint_types args >>= λ types. guard_call callable name (cons input types))

      pub target_type : Callable → Ty → MatchTarget → Check Ty
      target_type callable input (MatchTarget.node name) =
          apply_node self callable name input false false
      target_type callable input (MatchTarget.value e) = endpoint_type e

    unfoldable pub apply_match : Callable → MatchArms → Ty → Check Ty
    apply_match callable arms input =
        around_arms arms (arms_type callable input none arms >>= λ result. ok (tt {0}, result))
        >>= λ r. ok r.1
