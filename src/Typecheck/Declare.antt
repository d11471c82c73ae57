-- ===== src/Typecheck/Declare.antt =====
-- src/typecheck.rs: the types that a module declares for its ports, `parse_declared_type`.
use flow_arrow.Prelude.{
  Bool, false, not, ◌||◌, List, [], ◌∷◌, ◌++◌, Text, text_eq, ok, err, ◌>>=◌, ◌>>◌, if◌then◌else◌,
}
use flow_arrow.Types.{
  Ty, Types, Fields, Signature, stream, faultable, seq, tuple, one_of, struct, var, nil, cons, end,
  field, unit, ty_eq, is_stream_constructor,
}
use flow_arrow.Types.Substitute.{Vars, lookup}
use flow_arrow.Types.Syntax.{parse_type}
use flow_arrow.Ast.{Port, NodeParam, Callable}
use flow_arrow.Typecheck.{
  NodeParamInfo, Check, in_type, unknown_type, unknown_declared_type, no_stream, union_type,
  repeated_param, some_or, map_err, refuse,
}

-- `self.types.values().any(…)`
abbrev pub any_value : (Ty → Bool) → Vars → Bool
any_value p [] = false
any_value p ((_, t) ∷ types) = p t || any_value p types

abbrev pub ports_type : Types → Ty
ports_type nil = unit
ports_type (cons t nil) = t
ports_type types = tuple types

-- `params.iter().any(…)`
abbrev pub declares : Text → List NodeParamInfo → Bool
declares name [] = false
declares name (p ∷ params) = text_eq p.name name || declares name params

-- `types` is the checker's map of types.
module _ (types : Vars) where
  unfoldable mutual
    pub resolve_declared_type : Ty → Check Ty
    resolve_declared_type (var name) = some_or (lookup name types) (unknown_type name)
    resolve_declared_type (faultable item) = resolve_declared_type item >>= λ t. ok (faultable t)
    resolve_declared_type (seq item) = resolve_declared_type item >>= λ t. ok (seq t)
    resolve_declared_type (stream item) = resolve_declared_type item >>= λ t. ok (stream t)
    resolve_declared_type (one_of items) = resolve_items items >>= λ ts. ok (one_of ts)
    resolve_declared_type (tuple items) = resolve_items items >>= λ ts. ok (tuple ts)
    resolve_declared_type (struct name fields) = resolve_fields fields >>= λ fs. ok (struct name fs)
    resolve_declared_type other = ok other

    pub resolve_items : Types → Check Types
    resolve_items nil = ok nil
    resolve_items (cons t ts) =
        resolve_declared_type t >>= λ t'. resolve_items ts >>= λ ts'. ok (cons t' ts')

    pub resolve_fields : Fields → Check Fields
    resolve_fields end = ok end
    resolve_fields (field name t fs) =
        resolve_declared_type t >>= λ t'. resolve_fields fs >>= λ fs'. ok (field name t' fs')

  unfoldable mutual
    pub validate_declared_type : Ty → Check (Unit {0})
    validate_declared_type (faultable item) = validate_declared_type item
    validate_declared_type (seq item) = validate_declared_type item
    validate_declared_type (stream item) =
        refuse (not (any_value is_stream_constructor types)) no_stream
        >> validate_declared_type item
    validate_declared_type (one_of items) = err (union_type items)
    validate_declared_type (tuple items) = validate_items items
    validate_declared_type (struct name fields) = validate_fields fields
    validate_declared_type (var name) = err (unknown_type name)
    validate_declared_type other =
        if any_value (ty_eq other) types then ok tt else err (unknown_declared_type other)

    pub validate_items : Types → Check (Unit {0})
    validate_items nil = ok tt
    validate_items (cons t ts) = validate_declared_type t >> validate_items ts

    pub validate_fields : Fields → Check (Unit {0})
    validate_fields end = ok tt
    validate_fields (field _ t fs) = validate_declared_type t >> validate_fields fs

  unfoldable pub parse_declared_type : Text → Check Ty
  parse_declared_type text = do
    parsed ← map_err in_type (parse_type text)
    t ← resolve_declared_type parsed
    validate_declared_type t
    ok t

  unfoldable pub declared_types : List Port → Check Types
  declared_types [] = ok nil
  declared_types (p ∷ ports) = do
    t ← parse_declared_type p.ty
    ts ← declared_types ports
    ok (cons t ts)

  unfoldable pub port_types : List Port → Check Ty
  port_types ports = declared_types ports >>= λ ts. ok (ports_type ts)

  unfoldable pub callable_signature : Callable → Check Signature
  callable_signature callable = do
    inputs ← port_types callable.inputs
    outputs ← port_types callable.outputs
    ok (record { input = inputs; output = outputs })

  unfoldable pub param_signature : NodeParam → Check Signature
  param_signature param = do
    input ← parse_declared_type param.input
    output ← parse_declared_type param.output
    ok (record { input = input; output = output })

  -- The loop, behind the parameters that it has pushed.
  unfoldable pub param_infos :
      Text → List NodeParamInfo → List NodeParam → Check (List NodeParamInfo)
  param_infos callable params [] = ok params
  param_infos callable params (p ∷ rest) = do
    refuse (declares p.name params) (repeated_param callable p.name)
    signature ← param_signature p
    param_infos callable (params ++ record { name = p.name; signature = signature } ∷ []) rest

  unfoldable pub node_param_infos : Callable → Check (List NodeParamInfo)
  node_param_infos callable = param_infos callable.name [] callable.node_params
