-- ===== src/NodeRef.antt =====
-- src/node_ref.rs: a node with static arguments, `base<arg,…>`, and its text.
pub mod RoundTrip
pub mod Tests
use flow_arrow.Prelude.{
  ℕ, Bool, true, false, Option, none, some, ◌==◌, map, List, [], ◌∷◌, ◌++◌, Text, codes,
  is_whitespace, if◌then◌else◌,
}

pub record StaticNodeRef : Type 0 where
  pub base : Text
  pub args : List Text

-- `args.join(",")`, behind the first argument.
abbrev pub join_more : List Text → Text
join_more [] = []
join_more (a ∷ args) = b',' ∷ (a ++ join_more args)

abbrev pub join : List Text → Text
join [] = []
join (a ∷ args) = a ++ join_more args

unfoldable pub format_static_node_ref : Text → List Text → Text
format_static_node_ref base [] = base
format_static_node_ref base (a ∷ args) = base ++ b'<' ∷ (join (a ∷ args) ++ b'>' ∷ [])

-- `text.find('<')`: what stands before the first `<` and behind it.
unfoldable pub split_less : Text → Option (Text × Text)
split_less [] = none
split_less (c ∷ s) =
    let more = split_less s in
    if c == b'<' then some ([], s) else elim more [ none ↦ none | some r ↦ some (c ∷ r.0, r.1) ]

-- `text.ends_with('>')`, with what stands before the last character.
unfoldable pub strip_greater : Text → Option Text
strip_greater [] = none
strip_greater (c ∷ []) = if c == b'>' then some [] else none
strip_greater (c ∷ d ∷ s) = elim (strip_greater (d ∷ s)) [ none ↦ none | some r ↦ some (c ∷ r) ]

-- `str::trim`
unfoldable pub trim_start : Text → Text
trim_start [] = []
trim_start (c ∷ s) = if is_whitespace c then trim_start s else c ∷ s

abbrev pub prepend_trimmed : ℕ → Text → Text
prepend_trimmed c [] = if is_whitespace c then [] else c ∷ []
prepend_trimmed c (d ∷ s) = c ∷ d ∷ s

unfoldable pub trim_end : Text → Text
trim_end [] = []
trim_end (c ∷ s) = prepend_trimmed c (trim_end s)

unfoldable pub trim : Text → Text
unfolding trim_start trim_end
trim s = trim_end (trim_start s)

-- `split(',')`: one piece at least.
abbrev pub onto_first : ℕ → List Text → List Text
onto_first c [] = (c ∷ []) ∷ []
onto_first c (piece ∷ pieces) = (c ∷ piece) ∷ pieces

unfoldable pub split_comma : Text → List Text
split_comma [] = [] ∷ []
split_comma (c ∷ s) =
    let pieces = split_comma s in if c == b',' then [] ∷ pieces else onto_first c pieces

abbrev pub is_empty : Text → Bool
is_empty [] = true
is_empty (c ∷ s) = false

unfoldable pub parse_args : Text → List Text
unfolding trim split_comma
parse_args text = if is_empty (trim text) then [] else map trim (split_comma text)

abbrev pub parse_from : Text → Option (Text × Text) → StaticNodeRef
parse_from text none = record { base = text; args = [] }
parse_from text (some (base, behind)) = elim (strip_greater behind) [
  | none ↦ record { base = text; args = [] }
  | some args ↦ record { base = base; args = parse_args args }
]

-- The text between the first `<` and a `>` at the end is the arguments'; without either, all is base.
unfoldable pub parse_static_node_ref : Text → StaticNodeRef
unfolding split_less strip_greater parse_args
parse_static_node_ref text = parse_from text (split_less text)
