-- ===== src/Typecheck/Ground/Library.antt =====
-- src/typecheck.rs: the entries that `Checker::new` makes for the symbols of the standard library are sound.
use flow_arrow.Prelude.{
  ◌≡◌, subst, Option, none, some, [], ◌∷◌, Text, text_eq, Bool-cases, inl, inr, All, Holds, held,
  ◌⨾◌, Holds-any,
}
use flow_arrow.Types.{Ty, struct}
use flow_arrow.Types.Substitute.{Vars, lookup}
use flow_arrow.Types.Match.Plain.{NoUnion}
use flow_arrow.Types.Syntax.{parse_type}
use flow_arrow.Stdlib.{StdSymbol, SymbolKind}
use flow_arrow.Typecheck.{
  CallableInfo, Symbols, Checker, get, map_err, in_type, no_input_type, no_output_type,
}
use flow_arrow.Typecheck.Collect.{
  insert_symbol, stdlib_signatures, reduce_signatures_of, stdlib_reduce_signatures, std_info,
  insert_kind, insert_std_symbol,
}
use flow_arrow.Typecheck.Ground.{IsGround, FieldsGround}
use flow_arrow.Typecheck.Ground.Nodes.{
  HasOutput, HasOutputs, IsSound, some_or-Holds, map_err-Holds, after_refuse,
}
use flow_arrow.Typecheck.Ground.Texts.{NotStruct, stdlib_type-NotStruct}

-- A signature text of the standard library stands for a type without unions.
abbrev pub IsPlainText : Option Text → Type 0
IsPlainText none = Unit
IsPlainText (some text) = Holds NoUnion (parse_type text)

-- The outputs of a symbol of the standard library. An input may be a union.
abbrev pub HasPlainOutputs : StdSymbol → Type 0
HasPlainOutputs s = IsPlainText s.output × IsPlainText s.reduce_output

abbrev pub StructGround : Ty → Type 0
StructGround (struct _ fs) = FieldsGround fs
StructGround _ = Unit

abbrev pub SoundSymbols : Symbols → Type 0
SoundSymbols = All (λ e. HasOutputs e.1)

abbrev pub SoundTypes : Vars → Type 0
SoundTypes = All (λ e. StructGround e.1)

pub record Sound (c : Checker) : Type 0 where
  pub symbols : SoundSymbols c.symbols
  pub types : SoundTypes c.types

NotStruct-StructGround : (t : Ty) → NotStruct t → StructGround t
NotStruct-StructGround (struct _ _) h = absurd h
NotStruct-StructGround _ h = tt

pub IsGround-StructGround : (t : Ty) → IsGround t → StructGround t
IsGround-StructGround (struct _ fs) h = h
IsGround-StructGround _ h = tt

get-HasOutputs :
    (u : Symbols) (name : Text) (info : CallableInfo)
    → SoundSymbols u
    → get name u ≡ some info
    → HasOutputs info
unfolding get
get-HasOutputs [] name info h e = cc
get-HasOutputs ((m, i) ∷ u) name info (h, hs) e = elim (Bool-cases (text_eq m name)) [
  | inl same ↦ subst HasOutputs {x = i} {y = info} (cc (rw same at e)) h
  | inr differ ↦ get-HasOutputs u name info hs (rw differ at e)
]

pub lookup-StructGround :
    (v : Vars) (name : Text) (t : Ty) → SoundTypes v → lookup name v ≡ some t → StructGround t
unfolding lookup
lookup-StructGround [] name t h e = cc
lookup-StructGround ((m, u) ∷ v) name t (h, hs) e = elim (Bool-cases (text_eq m name)) [
  | inl same ↦ subst StructGround {x = u} {y = t} (cc (rw same at e)) h
  | inr differ ↦ lookup-StructGround v name t hs (rw differ at e)
]

pub Sound-IsSound : (c : Checker) → Sound c → IsSound c
Sound-IsSound c h = record {
  outputs = λ name info e. get-HasOutputs c.symbols name info h.symbols e;
  structs = λ name s fs e. lookup-StructGround c.types name (struct s fs) h.types e;
}

-- The symbols of the standard library.
pub insert_symbol-Sound :
    (name : Text) (info : CallableInfo) (u : Symbols)
    → HasOutputs info
    → SoundSymbols u
    → Holds SoundSymbols (insert_symbol name info u)
unfolding insert_symbol
insert_symbol-Sound name info u h hs = after_refuse _ _ (held (h, hs))

plain :
    (text : Option Text)
    → IsPlainText text
    → (t : Text) → text ≡ some t
    → Holds NoUnion (map_err in_type (parse_type t))
plain text h t e = map_err-Holds in_type (subst IsPlainText e h)

stdlib_signatures-HasOutput :
    (s : StdSymbol) → HasPlainOutputs s → Holds (All HasOutput) (stdlib_signatures s)
unfolding stdlib_signatures
stdlib_signatures-HasOutput s h = some_or-Holds s.input (no_input_type s.name) ⨾ λ input _.
    Holds-any (map_err in_type (parse_type input)) ⨾ λ input' _.
    some_or-Holds s.output (no_output_type s.name) ⨾ λ output e.
    plain s.output h.0 output e ⨾ λ output' k. held (k, tt)

reduce-HasOutput :
    (input output : Option Text)
    → IsPlainText output
    → Holds (All HasOutput) (reduce_signatures_of input output)
reduce-HasOutput (some input) (some output) h =
    Holds-any (map_err in_type (parse_type input)) ⨾ λ input' _.
    map_err-Holds in_type h ⨾ λ output' k. held (k, tt)
reduce-HasOutput (some input) none h = held tt
reduce-HasOutput none output h = held tt

std_info-HasOutputs : (s : StdSymbol) → HasPlainOutputs s → Holds HasOutputs (std_info s)
unfolding std_info stdlib_reduce_signatures
std_info-HasOutputs s h = stdlib_signatures-HasOutput s h ⨾ λ signatures k.
    reduce-HasOutput s.reduce_input s.reduce_output h.1 ⨾ λ reduce l. held (k, l)

insert_kind-Sound :
    (kind : SymbolKind) (name : Text) (s : StdSymbol) (c : Checker)
    → HasPlainOutputs s
    → Sound c
    → Holds Sound (insert_kind kind name s c)
insert_kind-Sound SymbolKind.type name s c p h =
    map_err-Holds in_type (stdlib_type-NotStruct s.name) ⨾ λ t k.
    after_refuse _ _
      (held (record { symbols = h.symbols; types = (NotStruct-StructGround t k, h.types) }))
insert_kind-Sound SymbolKind.node name s c p h = std_info-HasOutputs s p ⨾ λ info k.
    insert_symbol-Sound name info c.symbols k h.symbols ⨾ λ symbols l.
    held (record { symbols = l; types = h.types })

pub insert_std_symbol-Sound :
    (name : Text) (s : StdSymbol) (c : Checker)
    → HasPlainOutputs s
    → Sound c
    → Holds Sound (insert_std_symbol name s c)
unfolding insert_std_symbol
insert_std_symbol-Sound name s c p h = after_refuse _ _ (insert_kind-Sound s.kind name s c p h)
