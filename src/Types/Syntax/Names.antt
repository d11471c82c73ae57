-- ===== src/Types/Syntax/Names.antt =====
-- How the parser of types reads a name and what may follow it.
use flow_arrow.Prelude.{
  ℕ, suc, Bool, true, false, ◌||◌, ◌==◌, ◌≡◌, refl, Option, none, some, [], ◌∷◌, ◌++◌, Text, All,
  arith, ok, is_whitespace,
}
use flow_arrow.Types.{Ty, TyResult}
use flow_arrow.Types.Syntax.{
  skip_ws, eat, expect, is_name_char, take_name, ident, named_type, bracket_of, in_brackets,
  starts_name, starts_with, parse_atom, parse_union_type,
}

-- A name as `ident` reads it whole, after `parse_atom` has looked at its first character.
abbrev pub IsName : Text → Type 0
IsName name = (starts_name name ≡ true) × All (λ c. is_name_char c ≡ true) name

-- What may stand behind a type: the end, or one of the characters `),]|`.
abbrev pub is_stop : ℕ → Bool
is_stop c = c == b')' || (c == b',' || (c == b']' || c == b'|'))

abbrev pub Stops : Text → Type 0
Stops [] = Unit
Stops (c ∷ s) = is_stop c ≡ true

abbrev NoNameChar : Text → Type 0
NoNameChar [] = Unit
NoNameChar (c ∷ s) = is_name_char c ≡ false

Stops-NoNameChar : (s : Text) → Stops s → NoNameChar s
Stops-NoNameChar [] h = tt
Stops-NoNameChar (c ∷ s) h = ground arith

Stops-skip_ws : (s : Text) → Stops s → skip_ws s ≡ s
unfolding skip_ws
Stops-skip_ws [] h = refl
Stops-skip_ws (c ∷ s) h = ground arith

pub eat-none :
    (c : ℕ) (d : ℕ) (s : Text)
    → is_whitespace d ≡ false
    → (d == c) ≡ false
    → eat c (d ∷ s) ≡ (false, d ∷ s)
unfolding eat skip_ws
eat-none c d s h k = rw (h, k)

pub eat-some : (c : ℕ) (s : Text) → is_whitespace c ≡ false → eat c (c ∷ s) ≡ (true, s)
unfolding eat skip_ws
eat-some c s h = ground arith

Stops-eat : (s : Text) → Stops s → eat b'[' s ≡ (false, s)
unfolding eat skip_ws
Stops-eat [] h = refl
Stops-eat (c ∷ s) h = ground arith

take_name-append :
    (name s : Text)
    → All (λ c. is_name_char c ≡ true) name
    → NoNameChar s
    → take_name (name ++ s) ≡ (name, s)
unfolding take_name
take_name-append [] [] h k = refl
take_name-append [] (c ∷ s) h k = rw k
take_name-append (c ∷ name) s (h, hs) k = rw (h, take_name-append name s hs k)

-- The first character of a name is neither white space nor a parenthesis.
pub skip_ws-name : (name s : Text) → starts_name name ≡ true → skip_ws (name ++ s) ≡ name ++ s
unfolding skip_ws
skip_ws-name [] s h = cc
skip_ws-name (c ∷ name) s h = ground arith

starts_with-name : (name s : Text) → starts_name name ≡ true → starts_with b'(' (name ++ s) ≡ false
starts_with-name [] s h = cc
starts_with-name (c ∷ name) s h = ground arith

starts_name-append : (name s : Text) → starts_name name ≡ true → starts_name (name ++ s) ≡ true
starts_name-append [] s h = cc
starts_name-append (c ∷ name) s h = h

ident-append : (name s : Text) → IsName name → NoNameChar s → ident (name ++ s) ≡ ok (name, s)
unfolding ident
ident-append [] s h k = cc (h.0)
ident-append (c ∷ name) s h k =
    rw (skip_ws-name (c ∷ name) s h.0, take_name-append (c ∷ name) s h.1 k)

in_brackets-stop :
    (o : Option (Ty → Ty)) (union : Text → TyResult (Ty × Text)) (name s : Text)
    → Stops s
    → in_brackets o union name s ≡ ok (named_type name, s)
unfolding in_brackets
in_brackets-stop none union name s h = refl
in_brackets-stop (some make) union name s h = rw (Stops-eat s h)

module _ (f : ℕ) (name s : Text) (is_name : IsName name) where
  -- A name that stands alone.
  pub parse_atom-name : Stops s → parse_atom (suc f) (name ++ s) ≡ ok (named_type name, s)
  unfolding parse_union_type
  parse_atom-name h =
      rw
        (
          skip_ws-name name s is_name.0,
          starts_with-name name s is_name.0,
          starts_name-append name s is_name.0,
          ident-append name s is_name (Stops-NoNameChar s h),
        )
        (in_brackets-stop (bracket_of name) (parse_union_type f) name s h)

  -- A name with a type in brackets behind it.
  pub parse_atom-brackets :
      (make : Ty → Ty) (t : Ty) (inner : Text)
      → bracket_of name ≡ some make
      → parse_union_type f (inner ++ b']' ∷ s) ≡ ok (t, b']' ∷ s)
      → parse_atom (suc f) (name ++ b'[' ∷ (inner ++ b']' ∷ s)) ≡ ok (make t, s)
  unfolding parse_union_type in_brackets expect
  parse_atom-brackets make t inner b h =
      let after = b'[' ∷ (inner ++ b']' ∷ s) in
      rw (
        skip_ws-name name after is_name.0,
        starts_with-name name after is_name.0,
        starts_name-append name after is_name.0,
        ident-append name after is_name refl,
        b,
        eat-some b'[' (inner ++ b']' ∷ s) refl,
        h,
        eat-some b']' s refl,
      )
