-- ===== src/Types.antt =====
-- src/types.rs: the types of the language, and the questions that the checker asks of one type.
-- `Vec<Type>` and the fields of a struct are the lists `Types` and `Fields` of the mutual block.
pub mod Faultable
pub mod Unwrap
pub mod Substitute
pub mod Partial
pub mod Match
pub mod Sequence
pub mod Syntax
pub mod Tests
use flow_arrow.Prelude.{
  ℕ, suc, ◌+◌, Bool, true, false, ◌||◌, ◌≡◌, ◌↔◌, decide, decide_iff, ℕ_discrete, Text, Option,
  none, some, Outcome, ok, err, if◌then◌else◌,
}

mutual
  pub data Ty : Type 0 where
    unit i32 i64 f32 f64 bool bytes args : Ty
    http_server_config http_listener http_request http_response : Ty
    sqlite_connection sqlite_row sqlite_value : Ty
    fault empty_seq : Ty
    stream faultable seq : Ty → Ty
    tuple one_of : Types → Ty
    struct : Text → Fields → Ty
    var : Text → Ty

  pub data Types : Type 0 where
    nil : Types
    cons : Ty → Types → Types

  pub data Fields : Type 0 where
    end : Fields
    field : Text → Ty → Fields → Fields

pub record Signature : Type 0 where
  pub input : Ty
  pub output : Ty

-- `#[derive(PartialEq, Eq)]`
unfoldable pub Ty-discrete : Discrete Ty
unfolding ℕ_discrete
Ty-discrete = hlevel ℕ_discrete

unfoldable pub ty_eq : Ty → Ty → Bool
unfolding decide Ty-discrete
ty_eq s t = decide (Ty-discrete s t)

pub ty_eq_iff : (s t : Ty) → (ty_eq s t ≡ true) ↔ (s ≡ t)
unfolding ty_eq
ty_eq_iff s t = decide_iff (Ty-discrete s t)

-- The nodes of a type: the fuel of the functions that walk two types at once.
abbrev mutual
  pub size : Ty → ℕ
  size (stream t) = suc (size t)
  size (faultable t) = suc (size t)
  size (seq t) = suc (size t)
  size (tuple ts) = suc (size_types ts)
  size (one_of ts) = suc (size_types ts)
  size (struct n fs) = suc (size_fields fs)
  size _ = 1

  pub size_types : Types → ℕ
  size_types nil = 0
  size_types (cons t ts) = size t + size_types ts

  pub size_fields : Fields → ℕ
  size_fields end = 0
  size_fields (field n t fs) = size t + size_fields fs

abbrev pub length_types : Types → ℕ
length_types nil = 0
length_types (cons t ts) = suc (length_types ts)

abbrev pub length_fields : Fields → ℕ
length_fields end = 0
length_fields (field n t fs) = suc (length_fields fs)

-- What the `Err(String)` of this file formats into its text.
pub data TypeError : Type 0 where
  mismatch : Ty → Ty → TypeError
  rebound : Text → Ty → Ty → TypeError
  no_alternative : Types → Ty → TypeError
  struct_field : Text → Text → TypeError
  labelled : Text → Ty → Ty → TypeError
  type_syntax expected_type : Text → TypeError
  expected_type_name : TypeError
  expected_char : ℕ → Text → TypeError

abbrev pub TyResult : Type 0 → Type 0
TyResult A = Outcome TypeError A

unfoldable mutual
  pub contains_faultable : Ty → Bool
  contains_faultable (faultable _) = true
  contains_faultable (seq item) = contains_faultable item
  contains_faultable (stream item) = contains_faultable item
  contains_faultable (tuple items) = any_faultable items
  contains_faultable (struct _ fields) = any_field_faultable fields
  contains_faultable (one_of items) = any_faultable items
  contains_faultable _ = false

  pub any_faultable : Types → Bool
  any_faultable nil = false
  any_faultable (cons t ts) = contains_faultable t || any_faultable ts

  pub any_field_faultable : Fields → Bool
  any_field_faultable end = false
  any_field_faultable (field _ t fs) = contains_faultable t || any_field_faultable fs

unfoldable pub inner_faultable : Ty → Ty
inner_faultable (faultable item) = item
inner_faultable other = other

unfoldable mutual
  pub strip_faultable : Ty → Ty
  strip_faultable (faultable item) = strip_faultable item
  strip_faultable (seq item) = seq (strip_faultable item)
  strip_faultable (stream item) = stream (strip_faultable item)
  strip_faultable (tuple items) = tuple (strip_items items)
  strip_faultable (struct name fields) = struct name (strip_fields fields)
  strip_faultable (one_of items) = one_of (strip_items items)
  strip_faultable other = other

  pub strip_items : Types → Types
  strip_items nil = nil
  strip_items (cons t ts) = cons (strip_faultable t) (strip_items ts)

  pub strip_fields : Fields → Fields
  strip_fields end = end
  strip_fields (field name t fs) = field name (strip_faultable t) (strip_fields fs)

unfoldable mutual
  pub contains_empty_seq : Ty → Bool
  contains_empty_seq empty_seq = true
  contains_empty_seq (faultable item) = contains_empty_seq item
  contains_empty_seq (seq item) = contains_empty_seq item
  contains_empty_seq (stream item) = contains_empty_seq item
  contains_empty_seq (tuple items) = any_empty_seq items
  contains_empty_seq (one_of items) = any_empty_seq items
  contains_empty_seq (struct _ fields) = any_field_empty_seq fields
  contains_empty_seq _ = false

  pub any_empty_seq : Types → Bool
  any_empty_seq nil = false
  any_empty_seq (cons t ts) = contains_empty_seq t || any_empty_seq ts

  pub any_field_empty_seq : Fields → Bool
  any_field_empty_seq end = false
  any_field_empty_seq (field _ t fs) = contains_empty_seq t || any_field_empty_seq fs

unfoldable pub is_stream_constructor : Ty → Bool
is_stream_constructor (stream (var _)) = true
is_stream_constructor _ = false

unfoldable pub single_or_tuple : Types → Ty
single_or_tuple (cons t nil) = t
single_or_tuple items = tuple items

-- `unwrap_faultable_tuple_type`. The closure of the source sets `saw_faultable`; here each item
-- comes back with whether it set the flag.
unfoldable mutual
  pub unwrap_faultable_tuple_type : Ty → Option Ty
  unwrap_faultable_tuple_type (tuple items) =
      let (saw_faultable, unwrapped) = unwrap_items items in
      if saw_faultable then some (tuple unwrapped) else none
  unwrap_faultable_tuple_type _ = none

  pub unwrap_items : Types → Bool × Types
  unwrap_items nil = (false, nil)
  unwrap_items (cons t ts) =
      let (saw, t') = unwrap_item t in
      let (rest, ts') = unwrap_items ts in (saw || rest, cons t' ts')

  pub unwrap_item : Ty → Bool × Ty
  unwrap_item (faultable inner) = (true, inner)
  unwrap_item (tuple items) =
      let (saw_faultable, unwrapped) = unwrap_items items in
      (saw_faultable, if saw_faultable then tuple unwrapped else tuple items)
  unwrap_item other = (false, other)

-- A match on two types: the cases of `sequence_item_type` behind its test of equality, whose
-- or-patterns try their two orders in turn, each with the guard.
unfoldable pub faultable_of : Ty → Ty → Bool
faultable_of (faultable inner) other = ty_eq inner other
faultable_of _ other = false

unfoldable pub sequence_item_type : Ty → Ty → TyResult Ty
sequence_item_type left right =
    if ty_eq left right
    then ok left
    else if ty_eq left empty_seq
    then ok right
    else if ty_eq right empty_seq
    then ok left
    else if faultable_of left right
    then ok left
    else if faultable_of right left
    then ok right
    else err (mismatch left right)
