-- ===== src/Lexer.antt =====
-- src/lexer.rs. The state's `chars` and `pos` are the list of the characters from `pos` on. The inner
-- loops recur on that list; the outer one takes fuel, one unit for each character and one more.
pub mod Moves
pub mod Steps
pub mod Tiling
pub mod Tests
use flow_arrow.Prelude.{
  ℕ, zero, suc, ◌+◌, Bool, true, false, not, ◌&&◌, ◌||◌, ◌==◌, Option, none, some, List, [], ◌∷◌,
  ◌++◌, Text, codes, text_eq, length, is_alphabetic, is_alphanumeric, is_digit, Outcome, ok, err,
  out_of_fuel, ◌>>=◌, if◌then◌else◌,
}
use flow_arrow.Prelude.Int.{ℤ, parse_i64}
use flow_arrow.Source.{
  SourcePosition, SourceSpan, SpannedToken, Token, Message, Diagnosed, SourceDiagnostic, origin,
  span, point, next_position, diagnostic, ident, variable, discard, int, real, real_f32, bool,
  string, arrow, l_paren, r_paren, l_brace, r_brace, l_bracket, r_bracket, less, greater, comma,
  colon, equal, pipe, dot, eof, unexpected_character, unterminated_block_comment, expected_digits,
  unsupported_suffix, invalid_integer, unterminated_escape, unsupported_escape, unterminated_string,
  expected_variable_name, expected_variable_name_found,
}

pub record Lexer : Type 0 where
  pub rest : Text
  pub position : SourcePosition
  pub tokens : List SpannedToken

abbrev pub tail : Text → Text
tail [] = []
tail (c ∷ s) = s

-- `peek` and `peek_next`
abbrev pub peek : Text → Option ℕ
peek [] = none
peek (c ∷ s) = some c

abbrev pub peek_next : Text → Option ℕ
peek_next [] = none
peek_next (c ∷ s) = peek s

-- `… == Some(c)`
abbrev pub is_char : ℕ → Option ℕ → Bool
is_char c none = false
is_char c (some d) = d == c

abbrev pub is_some_and : (ℕ → Bool) → Option ℕ → Bool
is_some_and p none = false
is_some_and p (some c) = p c

unfoldable pub advance : ℕ → Lexer → Lexer
advance ch l = record l { rest = tail l.rest; position = next_position ch l.position }

unfoldable pub push : Token → SourcePosition → Lexer → Lexer
push token start l = record l {
  tokens = l.tokens ++ record { token = token; span = span start l.position } ∷ [];
}

-- `error_here`
abbrev pub error_here : Message → Lexer → Diagnosed Lexer
error_here message l = err (diagnostic message (point l.position))

unfoldable pub push_one : ℕ → Token → Lexer → Lexer
push_one ch token l = push token l.position (advance ch l)

-- `while matches!(self.peek(), Some(ch) if p(ch)) { self.advance(ch) }`: the characters taken, those
-- that are left, and the position.
unfoldable pub take_while : (ℕ → Bool) → Text → SourcePosition → Text × Text × SourcePosition
take_while p [] position = ([], [], position)
take_while p (c ∷ s) position =
    let more = take_while p s (next_position c position) in
    if p c then (c ∷ more.0, more.1, more.2) else ([], c ∷ s, position)

abbrev pub is_word_char : ℕ → Bool
is_word_char c = is_alphanumeric c || c == b'_'

abbrev pub starts_word : ℕ → Bool
starts_word c = is_alphabetic c || c == b'_'

unfoldable pub skip_line : Text → SourcePosition → Text × SourcePosition
skip_line [] position = ([], position)
skip_line (c ∷ s) position =
    let more = skip_line s (next_position c position) in
    if c == 0xa then (s, next_position c position) else more

unfoldable pub skip_line_comment : Lexer → Lexer
skip_line_comment l =
    let (rest, position) = skip_line l.rest l.position in
    record l { rest = rest; position = position }

-- The loop of `skip_block_comment`: what follows the end of the comment.
unfoldable pub skip_block : Text → SourcePosition → Option (Text × SourcePosition)
skip_block [] position = none
skip_block (c ∷ []) position = none
skip_block (c ∷ d ∷ s) position =
    let more = skip_block (d ∷ s) (next_position c position) in
    if c == b'*' && d == b'/' then some (s, next_position d (next_position c position)) else more

unfoldable pub skip_block_comment : Lexer → Diagnosed Lexer
skip_block_comment l =
    let opened = advance b'*' (advance b'/' l) in
    elim (skip_block opened.rest opened.position) [
      | some r ↦ ok (record l { rest = r.0; position = r.1 })
      | none ↦ err (diagnostic unterminated_block_comment (point l.position))
    ]

unfoldable pub lex_numeric_suffix : Text → SourcePosition → Option Text × Text × SourcePosition
lex_numeric_suffix s position =
    let (suffix, rest, position') = take_while is_word_char s position in
    if is_some_and is_alphabetic (peek s)
    then (some suffix, rest, position')
    else (none, s, position)

-- The token of a real literal behind its suffix.
unfoldable pub real_token : Text → Option Text → SourceSpan → Diagnosed Token
real_token text none where_at = ok (real text)
real_token text (some suffix) where_at =
    if text_eq suffix (codes "f64")
    then ok (real text)
    else if text_eq suffix (codes "f32")
    then ok (real_f32 text)
    else err (diagnostic (unsupported_suffix suffix) where_at)

unfoldable pub int_token : Bool → Text → Text → SourceSpan → Diagnosed Token
int_token negative digits text where_at = elim (parse_i64 negative digits) [
  | some value ↦ ok (int value)
  | none ↦ err (diagnostic (invalid_integer text) where_at)
]

abbrev pub finish_token : SourcePosition → Text → SourcePosition → List SpannedToken → Token → Lexer
finish_token start rest position tokens token =
    push token start (record { rest = rest; position = position; tokens = tokens })

-- What `lex_number` does behind the sign and the digits, which stand from `start` on.
unfoldable pub lex_after_digits :
    SourcePosition
    → Bool
    → Text
    → Text
    → Text
    → SourcePosition
    → List SpannedToken
    → Diagnosed Lexer
lex_after_digits start negative sign digits rest position tokens =
    let (fraction, rest₁, position₁) =
      take_while is_digit (tail rest) (next_position b'.' position) in
    let (suffix, rest₂, position₂) = lex_numeric_suffix rest₁ position₁ in
    let as_real =
      real_token (sign ++ (digits ++ b'.' ∷ fraction)) suffix (span start position₂) >>= λ token.
      ok (finish_token start rest₂ position₂ tokens token) in
    let as_int = int_token negative digits (sign ++ digits) (span start position) >>= λ token.
    ok (finish_token start rest position tokens token) in
    if is_char b'.' (peek rest) && is_some_and is_digit (peek_next rest) then as_real else as_int

-- Behind the sign there are digits, or an error.
unfoldable pub lex_digits :
    SourcePosition
    → Bool
    → Text
    → Text × Text × SourcePosition
    → List SpannedToken
    → Diagnosed Lexer
lex_digits start negative sign ([], rest, position) tokens =
    err (diagnostic expected_digits (point start))
lex_digits start negative sign (c ∷ digits, rest, position) tokens =
    lex_after_digits start negative sign (c ∷ digits) rest position tokens

unfoldable pub lex_number : Lexer → Diagnosed Lexer
lex_number l =
    let negative = is_char b'-' (peek l.rest) in
    let signed = if negative then advance b'-' l else l in
    lex_digits l.position negative (if negative then b'-' ∷ [] else [])
      (take_while is_digit signed.rest signed.position) l.tokens

-- The character that an escape stands for.
unfoldable pub unescape : ℕ → Option ℕ
unescape c =
    if c == b'"'
    then some b'"'
    else if c == b'\\'
    then some b'\\'
    else if c == b'n'
    then some 0xa
    else if c == b't'
    then some 0x9
    else if c == b'r'
    then some 0xd
    else none

-- The escaped character in front of what the loop goes on to read, or the error.
unfoldable pub with_escape :
    Option ℕ
    → SourceDiagnostic
    → Diagnosed (Text × Text × SourcePosition)
    → Diagnosed (Text × Text × SourcePosition)
with_escape none error more = err error
with_escape (some e) error more = more >>= λ (value, rest, end). ok (e ∷ value, rest, end)

-- The loop of `lex_string`: the value, and what follows the closing quote.
unfoldable pub string_loop :
    SourcePosition → Text → SourcePosition → Diagnosed (Text × Text × SourcePosition)
string_loop start [] position = err (diagnostic unterminated_string (point start))
string_loop start (c ∷ []) position =
    if c == b'"'
    then ok ([], [], next_position c position)
    else if c == b'\\'
    then err (diagnostic unterminated_escape (point (next_position c position)))
    else err (diagnostic unterminated_string (point start))
string_loop start (c ∷ d ∷ s) position =
    let after = next_position c position in
    let plain =
      string_loop start (d ∷ s) after >>= λ (value, rest, end). ok (c ∷ value, rest, end) in
    let escape =
      with_escape (unescape d) (diagnostic (unsupported_escape d) (point (next_position d after)))
        (string_loop start s (next_position d after)) in
    if c == b'"' then ok ([], d ∷ s, after) else if c == b'\\' then escape else plain

unfoldable pub lex_string : Lexer → Diagnosed Lexer
lex_string l =
    let opened = advance b'"' l in
    string_loop l.position opened.rest opened.position >>= λ (value, rest, position).
    ok (finish_token l.position rest position l.tokens (string value))

abbrev pub word_token : Text → Token
word_token text =
    if text_eq text (codes "true")
    then bool true
    else if text_eq text (codes "false")
    then bool false
    else ident text

unfoldable pub lex_ident : Lexer → Lexer
lex_ident l =
    let (text, rest, position) = take_while is_word_char l.rest l.position in
    finish_token l.position rest position l.tokens (word_token text)

-- The characters before which a lone `$` is the discard.
abbrev pub ends_discard : ℕ → Bool
ends_discard c =
    c == 0x20
    || (c == 0x9
        || (c == 0xd || (c == 0xa || (c == b',' || (c == b')' || (c == b'}' || c == b']'))))))

unfoldable pub lex_variable : Lexer → Diagnosed Lexer
lex_variable l =
    let after = advance b'$' l in
    let (name, rest, position) = take_while is_word_char after.rest after.position in
    elim (peek after.rest) [
      | none ↦ error_here expected_variable_name after
      | some c ↦
          if starts_word c
          then ok (finish_token l.position rest position l.tokens (variable name))
          else if ends_discard c || (c == b'-' && is_char b'>' (peek_next after.rest))
          then ok (push discard l.position after)
          else error_here (expected_variable_name_found c) after
    ]

-- The token of a single character.
unfoldable pub punctuation : ℕ → Option Token
punctuation c =
    if c == b'('
    then some l_paren
    else if c == b')'
    then some r_paren
    else if c == b'{'
    then some l_brace
    else if c == b'}'
    then some r_brace
    else if c == b'['
    then some l_bracket
    else if c == b']'
    then some r_bracket
    else if c == b'<'
    then some less
    else if c == b'>'
    then some greater
    else if c == b','
    then some comma
    else if c == b':'
    then some colon
    else if c == b'='
    then some equal
    else if c == b'|'
    then some pipe
    else if c == b'.'
    then some dot
    else none

abbrev pub is_blank : ℕ → Bool
is_blank c = c == 0x20 || (c == 0x9 || (c == 0xd || c == 0xa))

-- The arms of `lex_all` from the punctuation on.
unfoldable pub lex_other : ℕ → Option Token → Lexer → Diagnosed Lexer
lex_other ch (some token) l = ok (push_one ch token l)
lex_other ch none l =
    if starts_word ch then ok (lex_ident l) else error_here (unexpected_character ch) l

-- The body of the loop of `lex_all`, at the character `ch`.
unfoldable pub lex_step : ℕ → Lexer → Diagnosed Lexer
lex_step ch l =
    if is_blank ch
    then ok (advance ch l)
    else if ch == b'#'
    then ok (skip_line_comment l)
    else if ch == b'/' && is_char b'*' (peek_next l.rest)
    then skip_block_comment l
    else if ch == b'-' && is_char b'>' (peek_next l.rest)
    then ok (push arrow l.position (advance b'>' (advance b'-' l)))
    else if ch == b'-' || is_digit ch
    then lex_number l
    else if ch == b'"'
    then lex_string l
    else if ch == b'$'
    then lex_variable l
    else lex_other ch (punctuation ch) l

unfoldable pub lex_all : ℕ → Lexer → Diagnosed Lexer
lex_all zero l = out_of_fuel
lex_all (suc fuel) l = elim (peek l.rest) [
  | none ↦ ok (push eof l.position l)
  | some ch ↦ lex_step ch l >>= lex_all fuel
]

unfoldable pub lex_spanned : Text → Diagnosed (List SpannedToken)
lex_spanned source =
    lex_all (suc (length source)) (record { rest = source; position = origin; tokens = [] })
    >>= λ l. ok l.tokens
