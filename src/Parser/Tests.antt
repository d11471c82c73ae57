-- ===== src/Parser/Tests.antt =====
-- Runs of the parser, and the theorem on it at a concrete input.
use flow_arrow.Prelude.{
  ◌≡◌, refl, ok, text_eq, Text-discrete, decide, ℕ_discrete, [], ◌∷◌, ◌≢◌, Text, codes, panic,
  out_of_fuel,
}
use flow_arrow.Ast.{Decl}
use flow_arrow.Source.{next_position, Token-discrete}
use flow_arrow.Lexer.{
  lex_spanned, lex_all, lex_step, lex_other, punctuation, advance, push, push_one, take_while,
  lex_ident, lex_number, lex_digits, lex_after_digits, int_token,
}
use flow_arrow.Parser
use flow_arrow.Parser.{token_eq, expect_ident, expect_ident_of}
use flow_arrow.Parser.Items.{
  parse_type_alias, parse_type_name, type_loop, type_turn, type_step, is_declaration_keyword,
}
use flow_arrow.Parser.Module.{
  parse_diagnostic, parse_module, until_eof, parse_decl, decl_at, decl_of,
}
use flow_arrow.Parser.Total.{parse_diagnostic_total}

abbrev source : Text
source = codes "program main(args: Seq[i32]) -> out: i32 { $args -> map f<g, h> -> $out }"

parse_diagnostic_total_example :
    (parse_diagnostic source ≢ panic) × (parse_diagnostic source ≢ out_of_fuel)
parse_diagnostic_total_example = parse_diagnostic_total source

-- A type that a declaration keyword ends.
parse_diagnostic_run :
    parse_diagnostic (codes "type A = Seq[i32] type B = A")
    ≡ ok (record {
      declarations =
          Decl.type_alias (record { name = codes "A"; ty = codes "Seq[i32]" })
          ∷ Decl.type_alias (record { name = codes "B"; ty = codes "A" })
          ∷ [];
    })
unfolding parse_diagnostic parse_module until_eof parse_decl decl_at decl_of parse_type_alias
    parse_type_name type_loop type_turn type_step is_declaration_keyword Parser.◌>>=◌ Parser.pure
    Parser.peek Parser.error_here Parser.bump token_eq Parser.eat Parser.expect expect_ident
    expect_ident_of lex_spanned lex_all lex_step lex_other punctuation advance push push_one
    take_while lex_ident lex_number lex_digits lex_after_digits int_token next_position text_eq
    Text-discrete Token-discrete decide ℕ_discrete
parse_diagnostic_run = refl
