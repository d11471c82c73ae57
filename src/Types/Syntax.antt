-- ===== src/Types/Syntax.antt =====
-- src/types.rs: the text of a type. `Display` writes it and `TypeParser` reads it. The parser's
-- state, `chars` and `pos`, is the list of the characters from `pos` on, which is `rest()` too.
pub mod Total
pub mod Names
pub mod Printable
pub mod RoundTrip
use flow_arrow.Prelude.{
  ℕ, zero, suc, ◌+◌, ◌*◌, Bool, true, false, ◌&&◌, ◌||◌, ◌==◌, Option, none, some, ◌≡◌, refl, List,
  [], ◌∷◌, ◌++◌, Text, codes, text_eq, length, is_alphabetic, is_alphanumeric, is_whitespace, ok,
  err, out_of_fuel, ◌>>=◌, if◌then◌else◌,
}
use flow_arrow.Types.{
  Ty, Types, Fields, TyResult, unit, i32, i64, f32, f64, bool, bytes, args, http_server_config,
  http_listener, http_request, http_response, sqlite_connection, sqlite_row, sqlite_value, fault,
  empty_seq, stream, faultable, seq, tuple, one_of, struct, var, nil, cons, end, field,
  single_or_tuple, type_syntax, expected_type, expected_type_name, expected_char,
}

-- `impl fmt::Display for Type`: the items after the first are each written behind a separator.
unfoldable mutual
  pub display : Ty → Text
  display unit = codes "()"
  display i32 = codes "i32"
  display i64 = codes "i64"
  display f32 = codes "f32"
  display f64 = codes "f64"
  display bool = codes "Bool"
  display bytes = codes "Bytes"
  display args = codes "Args"
  display http_server_config = codes "http.ServerConfig"
  display http_listener = codes "http.Listener"
  display http_request = codes "http.Request"
  display http_response = codes "http.Response"
  display sqlite_connection = codes "sqlite.Connection"
  display sqlite_row = codes "sqlite.Row"
  display sqlite_value = codes "sqlite.Value"
  display (stream item) = codes "Stream[" ++ (display item ++ codes "]")
  display fault = codes "Fault"
  display (faultable item) = codes "Faultable[" ++ (display item ++ codes "]")
  display (seq item) = codes "Seq[" ++ (display item ++ codes "]")
  display (one_of items) = display_items b'|' items
  display (tuple items) = b'(' ∷ (display_items b',' items ++ codes ")")
  display (struct name _) = name
  display (var name) = name
  display empty_seq = codes "[]"

  pub display_items : ℕ → Types → Text
  display_items sep nil = []
  display_items sep (cons t ts) = display t ++ display_more sep ts

  pub display_more : ℕ → Types → Text
  display_more sep nil = []
  display_more sep (cons t ts) = sep ∷ (display t ++ display_more sep ts)

abbrev pub TypeParser : Type 0 → Type 0
TypeParser A = Text → TyResult (A × Text)

unfoldable pub skip_ws : Text → Text
skip_ws [] = []
skip_ws (c ∷ s) = if is_whitespace c then skip_ws s else c ∷ s

-- `eat`: whether the character was there, and the state after it. The white space before it is
-- skipped in either case.
abbrev pub eat_here : ℕ → Text → Bool × Text
eat_here expected [] = (false, [])
eat_here expected (c ∷ s) = if c == expected then (true, s) else (false, c ∷ s)

unfoldable pub eat : ℕ → Text → Bool × Text
eat expected s = eat_here expected (skip_ws s)

unfoldable pub expect : ℕ → TypeParser (Unit {0})
expect expected s =
    let (eaten, s') = eat expected s in
    if eaten then ok (tt, s') else err (expected_char expected s')

abbrev pub is_name_char : ℕ → Bool
is_name_char c = is_alphanumeric c || (c == b'_' || c == b'.')

-- The loop of `ident`: the characters of the name, and the state after them.
unfoldable pub take_name : Text → Text × Text
take_name [] = ([], [])
take_name (c ∷ s) =
    let rest = take_name s in if is_name_char c then (c ∷ rest.0, rest.1) else ([], c ∷ s)

abbrev pub named : Text × Text → TyResult (Text × Text)
named ([], s) = err expected_type_name
named (c ∷ name, s) = ok (c ∷ name, s)

unfoldable pub ident : TypeParser Text
ident s = named (take_name (skip_ws s))

-- `seg` with what follows each further dot in its place.
abbrev pub segment_from : Text → Text → Text
segment_from seg [] = seg
segment_from seg (c ∷ s) = segment_from (if c == b'.' then s else seg) s

-- `name.rsplit('.').next()`: what follows the last dot.
unfoldable pub last_segment : Text → Text
last_segment name = segment_from name name

-- The `match name.as_str()` at the end of `parse_atom`.
unfoldable pub named_type : Text → Ty
named_type name =
    if text_eq name (codes "Unit")
    then unit
    else if text_eq name (codes "i32")
    then i32
    else if text_eq name (codes "i64")
    then i64
    else if text_eq name (codes "f32")
    then f32
    else if text_eq name (codes "f64")
    then f64
    else if text_eq name (codes "Bool")
    then bool
    else if text_eq name (codes "Bytes")
    then bytes
    else if text_eq name (codes "Fault")
    then fault
    else if text_eq name (codes "http.ServerConfig")
    then http_server_config
    else if text_eq name (codes "http.Listener")
    then http_listener
    else if text_eq name (codes "http.Request")
    then http_request
    else if text_eq name (codes "http.Response")
    then http_response
    else if text_eq name (codes "sqlite.Connection")
    then sqlite_connection
    else if text_eq name (codes "sqlite.Row")
    then sqlite_row
    else if text_eq name (codes "sqlite.Value")
    then sqlite_value
    else var name

-- The type that a name makes of the type between the brackets behind it: the conditions of the three
-- tests before the `match`, of which at most one holds.
unfoldable pub bracket_of : Text → Option (Ty → Ty)
bracket_of name =
    if text_eq name (codes "Seq")
    then some seq
    else if text_eq name (codes "Faultable")
    then some faultable
    else if text_eq (last_segment name) (codes "Stream")
    then some stream
    else none

abbrev pub starts_name : Text → Bool
starts_name [] = false
starts_name (c ∷ s) = is_alphabetic c || c == b'_'

abbrev pub starts_with : ℕ → Text → Bool
starts_with expected [] = false
starts_with expected (c ∷ s) = c == expected

-- What follows the name `name`, over the parser of the type in brackets.
unfoldable pub in_brackets : Option (Ty → Ty) → TypeParser Ty → Text → TypeParser Ty
in_brackets none union name s = ok (named_type name, s)
in_brackets (some make) union name s =
    let (opened, s₁) = eat b'[' s in
    let item = union s₁ >>= λ (t, s₂). expect b']' s₂ >>= λ (_, s₃). ok (make t, s₃) in
    if opened then item else ok (named_type name, s₁)

abbrev pub after_name : TypeParser Ty → Text → TypeParser Ty
after_name union name s = in_brackets (bracket_of name) union name s

abbrev pub one_or_union : Ty → Types → Ty
one_or_union item nil = item
one_or_union item (cons t ts) = one_of (cons item (cons t ts))

-- Each call costs a unit of fuel. `more_atoms` and `more_types` are the `while self.eat(…)` loops.
unfoldable mutual
  pub parse_union_type : ℕ → TypeParser Ty
  parse_union_type zero s = out_of_fuel
  parse_union_type (suc f) s = parse_atom f s >>= λ (item, s₁).
      more_atoms f s₁ >>= λ (items, s₂). ok (one_or_union item items, s₂)

  pub more_atoms : ℕ → TypeParser Types
  more_atoms zero s = out_of_fuel
  more_atoms (suc f) s =
      let (more, s₁) = eat b'|' s in
      let rest =
        parse_atom f s₁ >>= λ (t, s₂). more_atoms f s₂ >>= λ (ts, s₃). ok (cons t ts, s₃) in
      if more then rest else ok (nil, s₁)

  pub parse_atom : ℕ → TypeParser Ty
  parse_atom zero s = out_of_fuel
  parse_atom (suc f) s =
      let s₀ = skip_ws s in
      let tuple_or_unit = parse_tuple_or_unit f s₀ in
      let name = ident s₀ >>= λ (name, s₁). after_name (parse_union_type f) name s₁ in
      if starts_with b'(' s₀
      then tuple_or_unit
      else if starts_name s₀
      then name
      else err (expected_type s₀)

  pub parse_tuple_or_unit : ℕ → TypeParser Ty
  parse_tuple_or_unit zero s = out_of_fuel
  parse_tuple_or_unit (suc f) s = expect b'(' s >>= λ (_, s₁).
      let (closed, s₂) = eat b')' s₁ in
      let items = parse_union_type f s₂ >>= λ (t, s₃).
      more_types f s₃ >>= λ (ts, s₄). expect b')' s₄ >>= λ (_, s₅). ok (tuple (cons t ts), s₅) in
      if closed then ok (unit, s₂) else items

  pub more_types : ℕ → TypeParser Types
  more_types zero s = out_of_fuel
  more_types (suc f) s =
      let (more, s₁) = eat b',' s in
      let rest =
        parse_union_type f s₁ >>= λ (t, s₂). more_types f s₂ >>= λ (ts, s₃). ok (cons t ts, s₃) in
      if more then rest else ok (nil, s₁)

-- The end of `parse_type`: nothing but white space may be left.
abbrev pub finish : Ty → Text → TyResult Ty
finish t [] = ok t
finish t (c ∷ s) = err (type_syntax (c ∷ s))

unfoldable pub parse_type : Text → TyResult Ty
parse_type text = parse_union_type (3 * length text + 2) text >>= λ (t, s). finish t (skip_ws s)

unfoldable pub stdlib_type_symbol : Text → TyResult Ty
stdlib_type_symbol name =
    if text_eq name (codes "Stream")
    then ok (stream (var (codes "V")))
    else if text_eq name (codes "Args")
    then ok args
    else if text_eq name (codes "Fault")
    then ok fault
    else if text_eq name (codes "ServerConfig")
    then ok http_server_config
    else if text_eq name (codes "Listener")
    then ok http_listener
    else if text_eq name (codes "Request")
    then ok http_request
    else if text_eq name (codes "Response")
    then ok http_response
    else if text_eq name (codes "Connection")
    then ok sqlite_connection
    else if text_eq name (codes "Row")
    then ok sqlite_row
    else if text_eq name (codes "Value")
    then ok sqlite_value
    else parse_type name

-- `primitive_types`, a map from names.
abbrev pub primitive_types : List (Text × Ty)
primitive_types =
    (codes "Unit", unit)
    ∷ (codes "i32", i32)
    ∷ (codes "i64", i64)
    ∷ (codes "f32", f32)
    ∷ (codes "f64", f64)
    ∷ (codes "Bool", bool)
    ∷ (codes "Bytes", bytes)
    ∷ (codes "Fault", fault)
    ∷ []
