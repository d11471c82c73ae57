-- ===== src/Typecheck/Aliases.antt =====
-- src/typecheck.rs: `collect_type_aliases`, which resolves the names in the types and structs that a
-- module declares. `resolved` and `resolving` are the source's two mutable arguments.
pub mod Missing
pub mod Ends
use flow_arrow.Prelude.{
  ℕ, zero, suc, ◌+◌, Bool, false, ◌||◌, none, some, List, [], ◌∷◌, Text, text_eq, length, ok, err,
  out_of_fuel, ◌>>=◌, ◌>>◌, if◌then◌else◌,
}
use flow_arrow.Types.{
  Ty, Types, Fields, stream, faultable, seq, tuple, one_of, struct, var, nil, cons, end, field,
}
use flow_arrow.Types.Substitute.{Vars, lookup}
use flow_arrow.Types.Syntax.{parse_type}
use flow_arrow.Ast.{Port, Decl}
use flow_arrow.Typecheck.{
  Check, get, is_some, some_or, map_err, refuse, in_type, unknown_type, unknown_alias,
  unknown_struct, duplicate_type, repeated_field, cyclic_alias, cyclic_declaration,
}
use flow_arrow.Typecheck.Declare.{validate_declared_type}

-- What the module declares: the text of each alias and the fields of each struct.
pub record Raw : Type 0 where
  pub aliases : List (Text × Text)
  pub structs : List (Text × List Port)

pub record Resolution : Type 0 where
  pub resolved : Vars
  pub resolving : List Text

abbrev pub Resolve : Type 0 → Type 0
Resolve A = Check (A × Resolution)

-- `resolving.iter().any(…)`, and `resolving.pop()`: the stack has its last entry in front.
abbrev pub on_stack : Text → List Text → Bool
on_stack name [] = false
on_stack name (n ∷ names) = text_eq n name || on_stack name names

abbrev pub pop_name : List Text → List Text
pop_name [] = []
pop_name (_ ∷ names) = names

abbrev pub push_name : Text → Resolution → Resolution
push_name name s = record s { resolving = name ∷ s.resolving }

-- The end of both: pop the name and keep its type.
abbrev pub keep_type : Text → Ty → Resolution → Ty × Resolution
keep_type name t s =
    (t, record { resolved = (name, t) ∷ s.resolved; resolving = pop_name s.resolving })

abbrev pub has_field : Text → Fields → Bool
has_field name end = false
has_field name (field n _ fs) = text_eq n name || has_field name fs

-- `resolved_fields.push(…)`
abbrev pub push_field : Fields → Text → Ty → Fields
push_field end name t = field name t end
push_field (field n u fs) name t = field n u (push_field fs name t)

module _ (types : Vars) (raw : Raw) where
  -- `alias` and `declared` resolve a name of either kind.
  module _ (alias declared : Text → Resolution → Resolve Ty) where
    unfoldable pub resolve_name : Text → Resolution → Resolve Ty
    resolve_name name s = elim (lookup name types) [
      | some known ↦ ok (known, s)
      | none ↦
          if is_some (get name raw.aliases)
          then alias name s
          else if is_some (get name raw.structs)
          then declared name s
          else err (unknown_type name)
    ]

    unfoldable mutual
      pub resolve_type_alias_type : Ty → Resolution → Resolve Ty
      resolve_type_alias_type (var name) s = resolve_name name s
      resolve_type_alias_type (faultable item) s =
          resolve_type_alias_type item s >>= λ (t, s'). ok (faultable t, s')
      resolve_type_alias_type (seq item) s =
          resolve_type_alias_type item s >>= λ (t, s'). ok (seq t, s')
      resolve_type_alias_type (stream item) s =
          resolve_type_alias_type item s >>= λ (t, s'). ok (stream t, s')
      resolve_type_alias_type (one_of items) s =
          resolve_alias_items items s >>= λ (ts, s'). ok (one_of ts, s')
      resolve_type_alias_type (tuple items) s =
          resolve_alias_items items s >>= λ (ts, s'). ok (tuple ts, s')
      resolve_type_alias_type (struct name fields) s =
          resolve_alias_fields fields s >>= λ (fs, s'). ok (struct name fs, s')
      resolve_type_alias_type other s = ok (other, s)

      pub resolve_alias_items : Types → Resolution → Resolve Types
      resolve_alias_items nil s = ok (nil, s)
      resolve_alias_items (cons t ts) s = resolve_type_alias_type t s >>= λ (t', s').
          resolve_alias_items ts s' >>= λ (ts', s''). ok (cons t' ts', s'')

      pub resolve_alias_fields : Fields → Resolution → Resolve Fields
      resolve_alias_fields end s = ok (end, s)
      resolve_alias_fields (field name t fs) s = resolve_type_alias_type t s >>= λ (t', s').
          resolve_alias_fields fs s' >>= λ (fs', s''). ok (field name t' fs', s'')

    -- `resolve_type_alias`, where the name is neither resolved nor in work.
    unfoldable pub resolve_alias_text : Text → Resolution → Resolve Ty
    resolve_alias_text name s = do
      text ← some_or (get name raw.aliases) (unknown_alias name)
      parsed ← map_err in_type (parse_type text)
      (t, s') ← resolve_type_alias_type parsed (push_name name s)
      ok (keep_type name t s')

    -- The loop of `resolve_struct_type`, behind the fields that it has pushed.
    unfoldable pub resolve_ports : Text → Fields → List Port → Resolution → Resolve Fields
    resolve_ports name done [] s = ok (done, s)
    resolve_ports name done (p ∷ ports) s = do
      refuse (has_field p.name done) (repeated_field name p.name)
      parsed ← map_err in_type (parse_type p.ty)
      (t, s') ← resolve_type_alias_type parsed s
      resolve_ports name (push_field done p.name t) ports s'

    unfoldable pub resolve_struct_ports : Text → Resolution → Resolve Ty
    resolve_struct_ports name s = do
      ports ← some_or (get name raw.structs) (unknown_struct name)
      (fields, s') ← resolve_ports name end ports (push_name name s)
      ok (keep_type name (struct name fields) s')

  -- What both do first: a name that is resolved, and one that is in work.
  abbrev pub memoized :
      (List Text → Check (Ty × Resolution))
      → (Text → Resolution → Resolve Ty)
      → Text
      → Resolution
      → Resolve Ty
  memoized cyclic resolve name s = elim (lookup name s.resolved) [
    | some t ↦ ok (t, s)
    | none ↦ if on_stack name s.resolving then cyclic (name ∷ s.resolving) else resolve name s
  ]

  unfoldable mutual
    pub resolve_type_alias : ℕ → Text → Resolution → Resolve Ty
    resolve_type_alias zero name s = out_of_fuel
    resolve_type_alias (suc fuel) name s =
        memoized (λ names. err (cyclic_alias names))
          (resolve_alias_text (resolve_type_alias fuel) (resolve_struct_type fuel)) name s

    pub resolve_struct_type : ℕ → Text → Resolution → Resolve Ty
    resolve_struct_type zero name s = out_of_fuel
    resolve_struct_type (suc fuel) name s =
        memoized (λ names. err (cyclic_declaration names))
          (resolve_struct_ports (resolve_type_alias fuel) (resolve_struct_type fuel)) name s

-- The first loop, over the declarations; `types` has the imported types and the primitive ones.
unfoldable pub declare_raw : Vars → Raw → Text → Check (Unit {0})
declare_raw types raw name =
    refuse
      (is_some (lookup name types)
        || (is_some (get name raw.aliases) || is_some (get name raw.structs)))
      (duplicate_type name)

unfoldable pub collect_raw : Vars → List Decl → Raw → Check Raw
collect_raw types [] raw = ok raw
collect_raw types (Decl.type_alias a ∷ decls) raw =
    declare_raw types raw a.name
    >> collect_raw types decls (record raw { aliases = (a.name, a.ty) ∷ raw.aliases })
collect_raw types (Decl.struct_decl d ∷ decls) raw =
    declare_raw types raw d.name
    >> collect_raw types decls (record raw { structs = (d.name, d.fields) ∷ raw.structs })
collect_raw types (_ ∷ decls) raw = collect_raw types decls raw

-- The loops over the keys of the two maps, each in any order: the types grow by one at each turn.
module _ (resolve : Vars → Text → Resolution → Resolve Ty) where
  unfoldable pub resolve_all : List Text → Vars → Vars → Check (Vars × Vars)
  resolve_all [] types resolved = ok (types, resolved)
  resolve_all (name ∷ names) types resolved = do
    (t, s) ← resolve types name (record { resolved = resolved; resolving = [] })
    validate_declared_type types t
    resolve_all names ((name, t) ∷ types) s.resolved

abbrev pub keys {ℓ} : {A : Type ℓ} → List (Text × A) → List Text
keys [] = []
keys ((name, _) ∷ entries) = name ∷ keys entries

-- A chain of names in work has no name twice, so the names that are declared bound it.
abbrev pub alias_fuel : Raw → ℕ
alias_fuel raw = suc (length raw.aliases + length raw.structs)

-- `order` is the order in which a hash map lists its keys.
unfoldable pub collect_type_aliases : (List Text → List Text) → List Decl → Vars → Check Vars
collect_type_aliases order decls types = do
  raw ← collect_raw types decls (record { aliases = []; structs = [] })
  (types', resolved) ←
      resolve_all (λ types. resolve_struct_type types raw (alias_fuel raw))
        (order (keys raw.structs)) types []
  (types'', _) ←
      resolve_all (λ types. resolve_type_alias types raw (alias_fuel raw))
        (order (keys raw.aliases)) types' resolved
  ok types''
