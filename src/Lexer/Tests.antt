-- ===== src/Lexer/Tests.antt =====
-- Runs of the lexer, and the theorem on it at a concrete input.
use flow_arrow.Prelude.{
  ℕ, ◌≡◌, refl, [], ◌∷◌, codes, text_eq, Text-discrete, decide, ℕ_discrete, Ensures, ok, err,
}
use flow_arrow.Source.{
  SourcePosition, SpannedToken, next_position, span, origin, point, diagnostic, variable, arrow,
  ident, eof, Token, unterminated_string,
}
use flow_arrow.Lexer.{
  advance, push, push_one, take_while, skip_line, skip_line_comment, string_loop, lex_string,
  lex_ident, lex_variable, punctuation, lex_other, lex_step, lex_all, lex_spanned,
}
use flow_arrow.Lexer.Tiling.{Tiles, lex_spanned-Tiles}

abbrev at : ℕ → ℕ → SourcePosition
at line character = record { line = line; character = character }

abbrev token : Token → SourcePosition → SourcePosition → SpannedToken
token t start end = record { token = t; span = span start end }

lex_spanned_run :
    lex_spanned (codes "$xs -> # c\nf")
    ≡ ok (
        token (variable (codes "xs")) (at 0 0) (at 0 3)
        ∷ token arrow (at 0 4) (at 0 6)
        ∷ token (ident (codes "f")) (at 1 0) (at 1 1)
        ∷ token eof (at 1 1) (at 1 1)
        ∷ [])
unfolding lex_spanned lex_all lex_step lex_other punctuation advance push push_one take_while
    skip_line skip_line_comment lex_ident lex_variable next_position text_eq Text-discrete decide
    ℕ_discrete
lex_spanned_run = refl

lex_string_run : lex_spanned (codes "\"a") ≡ err (diagnostic unterminated_string (point (at 0 0)))
unfolding lex_spanned lex_all lex_step lex_string string_loop advance next_position
lex_string_run = refl

lex_spanned-Tiles_example :
    Ensures (Tiles (codes "$xs -> f /* c */ 12") origin) (lex_spanned (codes "$xs -> f /* c */ 12"))
lex_spanned-Tiles_example = lex_spanned-Tiles (codes "$xs -> f /* c */ 12")
