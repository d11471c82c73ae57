-- ===== src/Parser/Items.antt =====
-- src/parser.rs: types, ports, imports, foreign blocks and the other declarations that hold no chain.
use flow_arrow.Prelude.{
  ℕ, zero, suc, ◌+◌, ◌-◌, Bool, true, false, not, ◌&&◌, ◌||◌, ◌==◌, Option, none, some, List, [],
  ◌∷◌, ◌++◌, Text, codes, text_eq, out_of_fuel, if◌then◌else◌,
}
use flow_arrow.Prelude.Int.{display_i64}
use flow_arrow.Source.{
  Token, Message, ident, int, string, arrow, l_paren, r_paren, l_brace, r_brace, l_bracket,
  r_bracket, less, greater, comma, colon, equal, pipe, dot, eof, expected_import_source,
  expected_type, unexpected_in_type, unterminated_type, unsupported_target, expected_js_kind,
  expected_c_kind, expected_effect, empty_struct, empty_foreign, empty_node_params,
}
use flow_arrow.Ast.{
  Port, NodeParam, TypeAlias, StructDecl, ImportSource, ImportItem, ImportClause, Import,
  ForeignTarget, ForeignSource, ForeignEffect, ForeignNode, ForeignBlock, js, c,
}
use flow_arrow.Parser.{
  Parser, pure, ◌>>=◌, ◌>>◌, peek, error_here, bump, eat, expect, peek_ident, is_keyword,
  expect_keyword, expect_ident, expect_string, comma_list, while_eat, until_eat,
  parse_qualified_ident,
}

unfoldable pub is_declaration_keyword : Text → Bool
is_declaration_keyword name =
    text_eq name (codes "type")
    || (text_eq name (codes "struct")
        || (text_eq name (codes "import")
            || (text_eq name (codes "foreign")
                || (text_eq name (codes "extern")
                    || (text_eq name (codes "node") || text_eq name (codes "program"))))))

-- What the loop of `parse_type_name` does at a token: it takes it, with the text and the depth that
-- this gives, or it ends, or it fails.
pub data TypeStep : Type 0 where
  take : Text → ℕ → TypeStep
  stop : TypeStep
  fail : Message → TypeStep

abbrev pub is_empty : Text → Bool
is_empty [] = true
is_empty (_ ∷ _) = false

-- The last arms: the tokens that may end a type, `break` under their guard, and the errors.
abbrev pub other_token : Bool → Text → ℕ → Token → TypeStep
other_token ends text depth token =
    if ends && (not (is_empty text) && depth == 0)
    then stop
    else if is_empty text
    then fail (expected_type token)
    else fail (unexpected_in_type text token)

unfoldable pub type_step : Text → ℕ → Token → TypeStep
type_step text depth (ident name) =
    if not (is_empty text) && (depth == 0 && is_declaration_keyword name)
    then stop
    else take (text ++ name) depth
type_step text depth (int value) = take (text ++ display_i64 value) depth
type_step text depth l_paren = take (text ++ codes "(") (depth + 1)
type_step text depth r_paren =
    if depth == 0 then other_token true text depth r_paren else take (text ++ codes ")") (depth - 1)
type_step text depth l_bracket = take (text ++ codes "[") (depth + 1)
type_step text depth r_bracket =
    if depth == 0
    then other_token false text depth r_bracket
    else take (text ++ codes "]") (depth - 1)
type_step text depth comma =
    if depth == 0 then other_token true text depth comma else take (text ++ codes ",") depth
type_step text depth pipe = take (text ++ codes "|") depth
type_step text depth dot = take (text ++ codes ".") depth
type_step text depth equal = other_token true text depth equal
type_step text depth l_brace = other_token true text depth l_brace
type_step text depth r_brace = other_token true text depth r_brace
type_step text depth greater = other_token true text depth greater
type_step text depth eof = other_token true text depth eof
type_step text depth token = other_token false text depth token

-- What follows the loop: `depth` must be 0.
abbrev pub end_type : Text → ℕ → Parser Text
end_type text depth = if depth == 0 then pure text else error_here (unterminated_type text)

-- A turn of the loop, over the loop from the turn on.
unfoldable pub type_turn : (Text → ℕ → Parser Text) → Text → ℕ → TypeStep → Parser Text
type_turn loop text depth (take text' depth') = bump >> loop text' depth'
type_turn loop text depth stop = end_type text depth
type_turn loop text depth (fail message) = error_here message

unfoldable pub type_loop : ℕ → Text → ℕ → Parser Text
type_loop zero text depth = λ ts. out_of_fuel
type_loop (suc f) text depth =
    peek >>= λ token. type_turn (type_loop f) text depth (type_step text depth token)

unfoldable pub parse_type_name : ℕ → Parser Text
parse_type_name f = type_loop f [] 0

unfoldable pub parse_port : ℕ → Parser Port
parse_port f = do
  name ← expect_ident
  expect colon
  ty ← parse_type_name f
  pure (record { name = name; ty = ty })

unfoldable pub parse_port_list : ℕ → Parser (List Port)
parse_port_list f = do
  port ← parse_port f
  ports ← while_eat f comma (parse_port f)
  pure (port ∷ ports)

unfoldable pub parse_port_or_list : ℕ → Parser (List Port)
parse_port_or_list f = do
  opened ← eat l_paren
  if opened
      then (parse_port_list f >>= λ ports. expect r_paren >> pure ports)
      else (parse_port f >>= λ port. pure (port ∷ []))

-- The inputs of a node, in parentheses.
unfoldable pub parse_inputs : ℕ → Parser (List Port)
parse_inputs f = do
  expect l_paren
  closed ← eat r_paren
  if closed then pure [] else (parse_port_list f >>= λ ports. expect r_paren >> pure ports)

unfoldable pub parse_type_alias : ℕ → Parser TypeAlias
parse_type_alias f = do
  name ← expect_ident
  expect equal
  ty ← parse_type_name f
  pure (record { name = name; ty = ty })

unfoldable pub parse_struct_decl : ℕ → Parser StructDecl
parse_struct_decl f = do
  name ← expect_ident
  expect l_brace
  closed ← eat r_brace
  if closed
      then error_here empty_struct
      else (comma_list f (parse_port f) r_brace >>= λ fields.
          pure (record { name = name; fields = fields }))

unfoldable pub import_source : ℕ → Token → Parser ImportSource
import_source f (string path) = bump >> pure (ImportSource.local path)
import_source f (ident _) = parse_qualified_ident f >>= λ name. pure (ImportSource.module_path name)
import_source f other = error_here (expected_import_source other)

unfoldable pub import_item : Parser ImportItem
import_item = do
  name ← expect_ident
  next ← peek_ident
  if is_keyword (codes "as") next
      then (bump >> expect_ident >>= λ alias. pure (record { name = name; alias = some alias }))
      else pure (record { name = name; alias = none })

unfoldable pub import_clause : ℕ → Parser ImportClause
import_clause f = do
  next ← peek_ident
  if is_keyword (codes "as") next
      then (bump >> expect_ident >>= λ alias. pure (ImportClause.alias alias))
      else (expect l_brace >> comma_list f import_item r_brace >>= λ items.
          pure (ImportClause.items items))

unfoldable pub parse_import : ℕ → Parser Import
parse_import f = do
  token ← peek
  source ← import_source f token
  clause ← import_clause f
  pure (record { source = source; clause = clause })

unfoldable pub foreign_target : Text → Parser ForeignTarget
foreign_target name =
    if text_eq name (codes "js")
    then pure js
    else if text_eq name (codes "c")
    then pure c
    else error_here (unsupported_target name)

-- The optional `source "…"` behind a header.
unfoldable pub header_source : Parser (Option Text)
header_source = do
  next ← peek_ident
  if is_keyword (codes "source") next
      then (bump >> expect_string >>= λ source. pure (some source))
      else pure none

unfoldable pub foreign_source : ForeignTarget → Text → Parser ForeignSource
foreign_source js kind =
    if text_eq kind (codes "module")
    then (expect_string >>= λ name. pure (ForeignSource.module_name name))
    else if text_eq kind (codes "global")
    then (expect_string >>= λ name. pure (ForeignSource.global name))
    else error_here (expected_js_kind kind)
foreign_source c kind =
    if text_eq kind (codes "header")
    then (expect_string >>= λ header.
        header_source >>= λ source. pure (ForeignSource.c_header header source))
    else error_here (expected_c_kind kind)

unfoldable pub foreign_effect : Text → Parser ForeignEffect
foreign_effect name =
    if text_eq name (codes "pure")
    then pure ForeignEffect.pure
    else if text_eq name (codes "io")
    then pure ForeignEffect.io
    else error_here (expected_effect name)

unfoldable pub parse_foreign_node : ℕ → Parser ForeignNode
parse_foreign_node f = do
  word ← expect_ident
  effect ← foreign_effect word
  expect_keyword (codes "node")
  name ← expect_ident
  inputs ← parse_inputs f
  expect arrow
  outputs ← parse_port_or_list f
  expect equal
  symbol ← parse_qualified_ident f
  pure
      (record { name = name; effect = effect; inputs = inputs; outputs = outputs; symbol = symbol })

-- The block, unless it holds no node.
abbrev pub foreign_block : ForeignTarget → ForeignSource → List ForeignNode → Parser ForeignBlock
foreign_block target source [] = error_here empty_foreign
foreign_block target source (node ∷ nodes) =
    pure (record { target = target; source = source; nodes = node ∷ nodes })

unfoldable pub parse_foreign : ℕ → Parser ForeignBlock
parse_foreign f = do
  word ← expect_ident
  target ← foreign_target word
  kind ← expect_ident
  source ← foreign_source target kind
  expect l_brace
  nodes ← until_eat f r_brace (parse_foreign_node f)
  foreign_block target source nodes

-- The type in the parentheses of a node parameter.
unfoldable pub param_input : ℕ → Parser Text
param_input f = do
  closed ← eat r_paren
  if closed
      then pure (codes "()")
      else (parse_type_name f >>= λ input. expect r_paren >> pure input)

unfoldable pub node_param : ℕ → Parser NodeParam
node_param f = do
  name ← expect_ident
  expect colon
  expect_keyword (codes "node")
  expect l_paren
  input ← param_input f
  expect arrow
  output ← parse_type_name f
  pure (record { name = name; input = input; output = output })

unfoldable pub parse_node_params : ℕ → Parser (List NodeParam)
parse_node_params f = do
  opened ← eat less
  if opened
      then (eat greater >>= λ closed.
          if closed then error_here empty_node_params else comma_list f (node_param f) greater)
      else pure []
