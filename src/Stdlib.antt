-- ===== src/Stdlib.antt =====
-- src/stdlib.rs: what the checker asks of the standard library. The table `SYMBOLS` of its types and
-- nodes is an argument, `table`, of what reads it.
use flow_arrow.Prelude.{
  Bool, true, false, ◌&&◌, ◌||◌, Option, none, some, List, [], ◌∷◌, Text, codes, text_eq,
  if◌then◌else◌,
}

pub data SymbolKind : Type 0 where
  type node : SymbolKind

pub data Effect : Type 0 where
  pure io : Effect

pub data RuntimeSupport : Type 0 where
  direct_builtin reduce_only unsupported : RuntimeSupport

pub record StdSymbol : Type 0 where
  pub home : Text
  pub name : Text
  pub runtime_name : Text
  pub kind : SymbolKind
  pub input : Option Text
  pub output : Option Text
  pub reduce_input : Option Text
  pub reduce_output : Option Text
  pub effect : Effect
  pub runtime : RuntimeSupport

-- `==` on the enumerations.
abbrev pub is_io : Effect → Bool
is_io io = true
is_io pure = false

abbrev pub is_unsupported : RuntimeSupport → Bool
is_unsupported unsupported = true
is_unsupported _ = false

abbrev pub is_reduce_only : RuntimeSupport → Bool
is_reduce_only reduce_only = true
is_reduce_only _ = false

abbrev pub intrinsic_module : Text
intrinsic_module = codes "__intrinsic"

unfoldable pub module_symbols : List StdSymbol → Text → List StdSymbol
module_symbols [] name = []
module_symbols (s ∷ table) name =
    let others = module_symbols table name in if text_eq s.home name then s ∷ others else others

unfoldable pub find_export : List StdSymbol → Text → Text → Option StdSymbol
find_export [] home name = none
find_export (s ∷ table) home name =
    let others = find_export table home name in
    if text_eq s.home home && text_eq s.name name then some s else others

abbrev pub any_eq : Text → List Text → Bool
any_eq name [] = false
any_eq name (n ∷ names) = text_eq name n || any_eq name names

unfoldable pub supports_higher_order_call : Text → Bool
supports_higher_order_call name = any_eq name (
    codes "parse_real"
    ∷ codes "parse_int"
    ∷ codes "not_empty"
    ∷ codes "format_int"
    ∷ codes "format_real"
    ∷ codes "from_int"
    ∷ codes "not"
    ∷ codes "trim"
    ∷ codes "ascii_lower"
    ∷ codes "ascii_upper"
    ∷ codes "bytes_to_codes"
    ∷ codes "codes_to_bytes"
    ∷ codes "byte_length"
    ∷ codes "length"
    ∷ codes "length_f32"
    ∷ codes "length_f64"
    ∷ codes "is_empty"
    ∷ codes "inner_length"
    ∷ codes "transpose"
    ∷ codes "flatten"
    ∷ codes "reverse"
    ∷ codes "shift_left"
    ∷ codes "shift_right"
    ∷ codes "take"
    ∷ codes "drop"
    ∷ codes "tail"
    ∷ codes "basename"
    ∷ codes "dirname"
    ∷ codes "join_path"
    ∷ codes "last"
    ∷ codes "at"
    ∷ codes "append"
    ∷ codes "first"
    ∷ codes "second"
    ∷ codes "swap"
    ∷ codes "add"
    ∷ codes "sub"
    ∷ codes "mul"
    ∷ codes "div"
    ∷ codes "rem"
    ∷ codes "neg"
    ∷ codes "abs"
    ∷ codes "sqrt"
    ∷ codes "exp"
    ∷ codes "sin"
    ∷ codes "cos"
    ∷ codes "min"
    ∷ codes "max"
    ∷ codes "eq"
    ∷ codes "lt"
    ∷ codes "gt"
    ∷ codes "le"
    ∷ codes "ge"
    ∷ codes "bit_and"
    ∷ codes "bit_or"
    ∷ codes "bit_xor"
    ∷ codes "bit_shl"
    ∷ codes "bit_shr"
    ∷ codes "collect"
    ∷ codes "column_count"
    ∷ codes "column_name"
    ∷ codes "value_at"
    ∷ codes "value_named"
    ∷ codes "kind"
    ∷ codes "is_null"
    ∷ codes "as_int"
    ∷ codes "as_real"
    ∷ codes "as_text"
    ∷ codes "as_blob"
    ∷ codes "read_file"
    ∷ codes "write_file"
    ∷ codes "exists"
    ∷ codes "is_file"
    ∷ codes "is_dir"
    ∷ codes "file_size"
    ∷ codes "list_dir"
    ∷ codes "walk_files"
    ∷ codes "read_files"
    ∷ codes "open_file"
    ∷ codes "size"
    ∷ codes "read_at"
    ∷ codes "copy_to_file"
    ∷ [])
