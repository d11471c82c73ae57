-- ===== src/Parser.antt =====
-- src/parser.rs: the cursor over the tokens. The state's `tokens` and `pos` are the list of the tokens
-- from `pos` on; `peek` behind the last token is the panic of an index out of bounds.
pub mod Ends
pub mod Lookahead
pub mod Loops
pub mod Total
pub mod Yields
pub mod Formed
pub mod Tests
pub mod Items
pub mod Body
pub mod Module
use flow_arrow.Prelude
use flow_arrow.Prelude.{
  ℕ, zero, suc, ◌+◌, Bool, true, false, ◌≡◌, Option, none, some, List, [], ◌∷◌, ◌++◌, Text, codes,
  text_eq, Outcome, ok, err, panic, out_of_fuel, decide, if◌then◌else◌,
}
use flow_arrow.Source.{
  SpannedToken, SourceDiagnostic, Token, Token-discrete, Message, Diagnosed, diagnostic, ident,
  variable, string, dot, less, greater, comma, expected_keyword, expected_identifier,
  expected_string, missing_prefix, expected_variable, expected_token, empty_node_args,
}
use flow_arrow.NodeRef.{format_static_node_ref}

abbrev pub Tokens : Type 0
Tokens = List SpannedToken

abbrev pub Parser : Type 0 → Type 0
Parser A = Tokens → Diagnosed (A × Tokens)

unfoldable pub pure : {A : Type 0} → A → Parser A
pure a ts = ok (a, ts)

infixr 5 ◌>>=◌ ◌>>◌
unfoldable pub ◌>>=◌ : {A B : Type 0} → Parser A → (A → Parser B) → Parser B
◌>>=◌ p f ts = Prelude.◌>>=◌ (p ts) (λ r. f r.0 r.1)

abbrev pub ◌>>◌ : {A B : Type 0} → Parser A → Parser B → Parser B
p >> q = p >>= λ _. q

unfoldable pub peek : Parser Token
peek [] = panic
peek (t ∷ ts) = ok (t.token, t ∷ ts)

unfoldable pub error_here : {A : Type 0} → Message → Parser A
error_here message [] = panic
error_here message (t ∷ ts) = err (diagnostic message t.span)

unfoldable pub bump : Parser (Unit {0})
bump [] = ok (tt, [])
bump (t ∷ ts) = ok (tt, ts)

unfoldable pub token_eq : Token → Token → Bool
unfolding decide Token-discrete
token_eq s t = decide (Token-discrete s t)

unfoldable pub eat : Token → Parser Bool
eat expected = do token ← peek; if token_eq token expected then bump >> pure true else pure false

unfoldable pub expect : Token → Parser (Unit {0})
expect expected = do
  eaten ← eat expected
  if eaten then pure tt else (peek >>= λ token. error_here (expected_token expected token))

abbrev pub ident_of : Token → Option Text
ident_of (ident name) = some name
ident_of _ = none

unfoldable pub peek_ident : Parser (Option Text)
peek_ident = do token ← peek; pure (ident_of token)

unfoldable pub is_keyword : Text → Option Text → Bool
is_keyword keyword none = false
is_keyword keyword (some found) = text_eq found keyword

unfoldable pub expect_keyword : Text → Parser (Unit {0})
expect_keyword keyword = do
  token ← peek
  if is_keyword keyword (ident_of token) then bump else error_here (expected_keyword keyword token)

unfoldable pub expect_ident_of : Token → Parser Text
expect_ident_of (ident name) = bump >> pure name
expect_ident_of other = error_here (expected_identifier other)

unfoldable pub expect_ident : Parser Text
expect_ident = peek >>= expect_ident_of

unfoldable pub expect_string_of : Token → Parser Text
expect_string_of (string value) = bump >> pure value
expect_string_of other = error_here (expected_string other)

unfoldable pub expect_string : Parser Text
expect_string = peek >>= expect_string_of

unfoldable pub expect_variable_of : Token → Parser Text
expect_variable_of (variable name) = bump >> pure name
expect_variable_of (ident name) = error_here (missing_prefix name)
expect_variable_of other = error_here (expected_variable other)

unfoldable pub expect_variable : Parser Text
expect_variable = peek >>= expect_variable_of

-- The loops of the parser, each over the parser of an item. A turn of a loop costs a unit of fuel.

-- `loop { items.push(item?); if eat(Comma) { if eat(close) { break } } else { expect(close)?; break } }`
unfoldable pub comma_list : {A : Type 0} → ℕ → Parser A → Token → Parser (List A)
comma_list zero item close = λ ts. out_of_fuel
comma_list {A} (suc f) item close =
    let more : Parser (List A) = comma_list f item close in
    item >>= λ x. eat comma >>= λ continues.
    if continues
    then (eat close >>= λ closed. if closed then pure (x ∷ []) else (more >>= λ xs. pure (x ∷ xs)))
    else (expect close >> pure (x ∷ []))

-- `while self.eat(separator) { items.push(item?) }`
unfoldable pub while_eat : {A : Type 0} → ℕ → Token → Parser A → Parser (List A)
while_eat zero separator item = λ ts. out_of_fuel
while_eat {A} (suc f) separator item =
    let more : Parser (List A) = while_eat f separator item in
    eat separator >>= λ continues.
    if continues then (item >>= λ x. more >>= λ xs. pure (x ∷ xs)) else pure []

-- `while !self.eat(close) { items.push(item?) }`
unfoldable pub until_eat : {A : Type 0} → ℕ → Token → Parser A → Parser (List A)
until_eat zero close item = λ ts. out_of_fuel
until_eat {A} (suc f) close item =
    let more : Parser (List A) = until_eat f close item in
    eat close >>= λ closed. if closed then pure [] else (item >>= λ x. more >>= λ xs. pure (x ∷ xs))

-- A name and the names that follow it, each behind a dot, as one text.
abbrev pub dotted : Text → List Text → Text
dotted name [] = name
dotted name (more ∷ rest) = dotted (name ++ b'.' ∷ more) rest

unfoldable pub parse_qualified_ident : ℕ → Parser Text
parse_qualified_ident f = do
  name ← expect_ident
  more ← while_eat f dot expect_ident
  pure (dotted name more)

unfoldable pub parse_node_ref_text : ℕ → Parser Text
parse_node_ref_text f = do
  base ← parse_qualified_ident f
  has_args ← eat less
  if has_args
      then (eat greater >>= λ closed.
          if closed
          then error_here empty_node_args
          else (comma_list f (parse_qualified_ident f) greater >>= λ args.
              pure (format_static_node_ref base args)))
      else pure base
