-- ===== src/NodeRef/RoundTrip.antt =====
-- A node reference that is written parses back.
use flow_arrow.Prelude.{
  ℕ, Bool, true, false, ◌≡◌, refl, none, some, ◌==◌, ◌||◌, map, List, [], ◌∷◌, ◌++◌, append-nil,
  Text, All, is_whitespace, is_alphanumeric, arith,
}
use flow_arrow.NodeRef.{
  join, join_more, format_static_node_ref, split_less, strip_greater, trim_end, trim,
  prepend_trimmed, split_comma, parse_args, parse_from, is_empty, parse_static_node_ref,
}

-- The characters of a qualified name.
abbrev pub is_path_char : ℕ → Bool
is_path_char c = is_alphanumeric c || (c == b'_' || c == b'.')

abbrev pub IsPathText : Text → Type 0
IsPathText = All (λ c. is_path_char c ≡ true)

abbrev pub IsPath : Text → Type 0
IsPath [] = ⊥
IsPath (c ∷ s) = IsPathText (c ∷ s)

path_char :
    (c : ℕ)
    → is_path_char c ≡ true
    → (is_whitespace c ≡ false) × ((c == b',') ≡ false) × ((c == b'<') ≡ false)
path_char c h = (ground arith, ground arith, ground arith)

split_less-append : (s r : Text) → IsPathText s → split_less (s ++ b'<' ∷ r) ≡ some (s, r)
unfolding split_less
split_less-append [] r h = refl
split_less-append (c ∷ s) r (h, hs) = rw ((path_char c h).2, split_less-append s r hs)

split_less-none : (s : Text) → IsPathText s → split_less s ≡ none
unfolding split_less
split_less-none [] h = refl
split_less-none (c ∷ s) (h, hs) = rw ((path_char c h).2, split_less-none s hs)

strip_greater-append : (s : Text) → strip_greater (s ++ b'>' ∷ []) ≡ some s
unfolding strip_greater
strip_greater-append [] = refl
strip_greater-append (c ∷ []) = refl
strip_greater-append (c ∷ d ∷ s) = rw (strip_greater-append (d ∷ s))

trim_end-path : (s : Text) → IsPathText s → trim_end s ≡ s
unfolding trim_end
trim_end-path [] h = refl
trim_end-path (c ∷ []) (h, hs) = rw ((path_char c h).0)
trim_end-path (c ∷ d ∷ s) (h, hs) = rw (trim_end-path (d ∷ s) hs)

trim-path : (s : Text) → IsPathText s → trim s ≡ s
unfolding trim
trim-path [] h = refl
trim-path (c ∷ s) h = rw ((path_char c h.0).0) (trim_end-path (c ∷ s) h)

split_comma-path : (s : Text) → IsPathText s → split_comma s ≡ s ∷ []
unfolding split_comma
split_comma-path [] h = refl
split_comma-path (c ∷ s) (h, hs) = rw ((path_char c h).1, split_comma-path s hs)

split_comma-append : (s r : Text) → IsPathText s → split_comma (s ++ b',' ∷ r) ≡ s ∷ split_comma r
unfolding split_comma
split_comma-append [] r h = refl
split_comma-append (c ∷ s) r (h, hs) = rw ((path_char c h).1, split_comma-append s r hs)

IsPath-IsPathText : (s : Text) → IsPath s → IsPathText s
IsPath-IsPathText [] h = tt
IsPath-IsPathText (c ∷ s) h = h

split_comma-join :
    (a : Text) (args : List Text)
    → IsPath a
    → All IsPath args
    → map trim (split_comma (join (a ∷ args))) ≡ a ∷ args
split_comma-join a [] h hs =
    let p = IsPath-IsPathText a h in rw (append-nil, split_comma-path a p, trim-path a p)
split_comma-join a (b ∷ args) h (k, ks) =
    let p = IsPath-IsPathText a h in
    rw (split_comma-append a _ p, trim-path a p, split_comma-join b args k ks)

prepend_trimmed-is_empty :
    (c : ℕ) (s : Text) → is_whitespace c ≡ false → is_empty (prepend_trimmed c s) ≡ false
prepend_trimmed-is_empty c [] h = rw h
prepend_trimmed-is_empty c (d ∷ s) h = refl

trim-is_empty : (a s : Text) → IsPath a → is_empty (trim (a ++ s)) ≡ false
unfolding trim
trim-is_empty [] s h = absurd h
trim-is_empty (c ∷ a) s (h, hs) =
    rw ((path_char c h).0) (prepend_trimmed-is_empty c (trim_end (a ++ s)) (path_char c h).0)

parse_args-join :
    (a : Text) (args : List Text)
    → IsPath a
    → All IsPath args
    → parse_args (join (a ∷ args)) ≡ a ∷ args
unfolding parse_args
parse_args-join a args h hs = rw (trim-is_empty a (join_more args) h) (split_comma-join a args h hs)

-- Where the base and the arguments are qualified names, not empty ones in the case of the arguments,
-- the text of a node reference parses back to its base and its arguments.
pub parse-format_static_node_ref :
    (base : Text) (args : List Text)
    → IsPathText base
    → All IsPath args
    → parse_static_node_ref (format_static_node_ref base args) ≡ record { base = base; args = args }
unfolding parse_static_node_ref format_static_node_ref
parse-format_static_node_ref base [] h hs = rw (split_less-none base h)
parse-format_static_node_ref base (a ∷ args) h (k, ks) = rw (
  split_less-append base (join (a ∷ args) ++ b'>' ∷ []) h,
  parse_from,
  strip_greater-append (join (a ∷ args)),
  parse_args-join a args k ks,
)
