-- ===== src/Parser/Module.antt =====
-- src/parser.rs: declarations and modules, and `parse_diagnostic`.
use flow_arrow.Prelude
use flow_arrow.Prelude.{
  ℕ, zero, suc, ◌+◌, Bool, true, false, List, [], ◌∷◌, Text, codes, text_eq, length, out_of_fuel,
  if◌then◌else◌,
}
use flow_arrow.Source.{
  Token, ident, arrow, eof, Diagnosed, expected_declaration, expected_node_after_extern,
}
use flow_arrow.Ast.{Callable, Decl, Module}
use flow_arrow.Lexer.{lex_spanned}
use flow_arrow.Parser.{
  Parser, pure, ◌>>=◌, ◌>>◌, peek, error_here, bump, token_eq, expect, peek_ident, is_keyword,
  expect_ident,
}
use flow_arrow.Parser.Items.{
  parse_port_or_list, parse_inputs, parse_type_alias, parse_struct_decl, parse_import,
  parse_foreign, parse_node_params,
}
use flow_arrow.Parser.Body.{parse_block}

unfoldable pub parse_callable : ℕ → Bool → Parser Callable
parse_callable f is_extern = do
  name ← expect_ident
  node_params ← parse_node_params f
  inputs ← parse_inputs f
  expect arrow
  outputs ← parse_port_or_list f
  chains ← parse_block f
  pure (record {
    name = name;
    is_extern = is_extern;
    node_params = node_params;
    inputs = inputs;
    outputs = outputs;
    chains = chains;
  })

-- Behind `extern`.
unfoldable pub parse_extern : ℕ → Parser Decl
parse_extern f = do
  next ← peek_ident
  if is_keyword (codes "node") next
      then (bump >> parse_callable f true >>= λ node. pure (Decl.node_decl node))
      else error_here expected_node_after_extern

-- The declaration that starts with an identifier, the token at the cursor.
unfoldable pub decl_of : ℕ → Text → Parser Decl
decl_of f name =
    if text_eq name (codes "type")
    then (bump >> parse_type_alias f >>= λ alias. pure (Decl.type_alias alias))
    else if text_eq name (codes "struct")
    then (bump >> parse_struct_decl f >>= λ struct. pure (Decl.struct_decl struct))
    else if text_eq name (codes "import")
    then (bump >> parse_import f >>= λ import. pure (Decl.import_decl import))
    else if text_eq name (codes "foreign")
    then (bump >> parse_foreign f >>= λ block. pure (Decl.foreign_block block))
    else if text_eq name (codes "extern")
    then (bump >> parse_extern f)
    else if text_eq name (codes "node")
    then (bump >> parse_callable f false >>= λ node. pure (Decl.node_decl node))
    else if text_eq name (codes "program")
    then (bump >> parse_callable f false >>= λ program. pure (Decl.program program))
    else error_here (expected_declaration (ident name))

unfoldable pub decl_at : ℕ → Token → Parser Decl
decl_at f (ident name) = decl_of f name
decl_at f other = error_here (expected_declaration other)

unfoldable pub parse_decl : ℕ → Parser Decl
parse_decl f = peek >>= decl_at f

-- `while !self.at_eof() { declarations.push(self.parse_decl()?) }`, over `parse_decl`.
unfoldable pub until_eof : ℕ → Parser Decl → Parser (List Decl)
until_eof zero decl = λ ts. out_of_fuel
until_eof (suc f) decl =
    let more : Parser (List Decl) = until_eof f decl in
    peek >>= λ token.
    if token_eq token eof then pure [] else (decl >>= λ d. more >>= λ ds. pure (d ∷ ds))

unfoldable pub parse_module : ℕ → Parser Module
parse_module f = do
  declarations ← until_eof f (parse_decl f)
  pure (record { declarations = declarations })

-- `parse_diagnostic`, whose parser starts at the first token. The fuel is one unit for each token.
unfoldable pub parse_diagnostic : Text → Diagnosed Module
parse_diagnostic source = Prelude.◌>>=◌ (lex_spanned source) λ tokens.
    Prelude.◌>>=◌ (parse_module (length tokens) tokens) λ (result, rest). Prelude.ok result
