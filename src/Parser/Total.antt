-- ===== src/Parser/Total.antt =====
-- The parser ends on the tokens of every source.
mod Items
mod Body
use flow_arrow.Prelude.{
  ℕ, zero, suc, ◌≤◌, Bool, false, ◌≡◌, ◌≢◌, refl, ap, ◌∙◌, List, [], ◌∷◌, Text, length, arith,
  Outcome, Ensures, returns, panic, out_of_fuel, Ensures-panic, Ensures-out_of_fuel, ◌⟫◌,
  if◌then◌else◌,
}
use flow_arrow.Source.{SourcePosition, SpannedToken, span, Token, ident, eof}
use flow_arrow.Ast.{Decl, Module}
use flow_arrow.Lexer.{lex_spanned}
use flow_arrow.Lexer.Tiling.{Tiles, done, skipped, lexed, lex_spanned-Tiles}
use flow_arrow.Parser.{Parser, Tokens, pure, ◌>>=◌, bump, token_eq, ident_of}
use flow_arrow.Parser.Module.{
  parse_callable, parse_extern, decl_of, decl_at, parse_decl, until_eof, parse_module,
  parse_diagnostic,
}
use flow_arrow.Parser.Ends.{
  is_end, EndsEof, EndsEof-cons, Ends, Consumes, EndsAt, ConsumesAt, Ends-pure, Consumes-error,
  Consumes-nothing, Consumes-Ends, ConsumesAt-EndsAt, Consumes-ConsumesAt, Ends-EndsAt, Ends-if,
  Consumes-fewer, Consumes-next, Ends-bind, Consumes-bind,
}
use flow_arrow.Parser.Lookahead.{Ends-peek, Consumes-peek}
use flow_arrow.Parser.Loops.{ends_rules, at_rules}
use flow_arrow.Parser.Total.Items.{
  parse_port_or_list-Consumes, parse_inputs-Consumes, parse_type_alias-Consumes,
  parse_struct_decl-Consumes, parse_import-Consumes, parse_foreign-Consumes, parse_node_params-Ends,
}
use flow_arrow.Parser.Total.Body.{parse_block-Consumes}

module _ {n : ℕ} (f : ℕ) (l : n ≤ f) where
  parse_callable-Consumes : (is_extern : Bool) → Consumes n (parse_callable f is_extern)
  unfolding parse_callable
  parse_callable-Consumes is_extern =
      search
        (
          parse_node_params-Ends, parse_inputs-Consumes, parse_port_or_list-Consumes,
          parse_block-Consumes, ends_rules,
        )
        depth 25

  parse_extern-Ends : Ends n (parse_extern f)
  unfolding parse_extern
  parse_extern-Ends = search (parse_callable-Consumes, ends_rules) depth 25

  decl_of-at : (name : Text) (t : Token) → is_end t ≡ false → ConsumesAt n t (decl_of f name)
  unfolding decl_of
  decl_of-at name t ne =
      search
        (
          at_rules, parse_type_alias-Consumes, parse_struct_decl-Consumes, parse_import-Consumes,
          parse_foreign-Consumes, parse_extern-Ends, parse_callable-Consumes, ends_rules,
        )
        depth 40

  decl_at-at : (t : Token) → ConsumesAt n t (decl_at f t)
  unfolding decl_at
  decl_at-at (ident name) = decl_of-at name (ident name) refl
  decl_at-at _ = Consumes-ConsumesAt (Consumes-error _)

  parse_decl-Consumes : Consumes n (parse_decl f)
  unfolding parse_decl
  parse_decl-Consumes = Consumes-peek _ decl_at-at

until_eof-Ends :
    {n : ℕ} (g : ℕ) (decl : Parser Decl) → n ≤ g → Consumes n decl → Ends n (until_eof g decl)
unfolding until_eof
until_eof-Ends {n = zero} g decl l h = Consumes-Ends (Consumes-nothing _)
until_eof-Ends {n = suc n} zero decl l h = absurd (omega arith)
until_eof-Ends {n = suc n} (suc g) decl l h = Ends-peek _ λ t. Ends-EndsAt (
    Ends-if (token_eq t eof) _ _ (Ends-pure _) (
      Consumes-Ends (
        Consumes-next h λ d.
          Ends-bind (until_eof-Ends g decl (omega arith) (Consumes-fewer (omega arith) h))
            λ ds. Ends-pure _)))

parse_module-Ends : {n : ℕ} (f : ℕ) → n ≤ f → Ends n (parse_module f)
unfolding parse_module
parse_module-Ends f l = Ends-bind (until_eof-Ends f _ l (parse_decl-Consumes f l)) λ _. Ends-pure _

Tiles-EndsEof : {s : Text} {p : SourcePosition} {ts : Tokens} → Tiles s p ts → EndsEof ts
Tiles-EndsEof done = refl
Tiles-EndsEof (skipped m rest) = Tiles-EndsEof rest
Tiles-EndsEof (lexed {p = p} {p' = p'} {t = t} {ts = ts} m ne rest) =
    EndsEof-cons (record { token = t; span = span p p' }) ts (Tiles-EndsEof rest)

pub parse_diagnostic-Ensures : (source : Text) → Ensures (λ _. Unit {0}) (parse_diagnostic source)
unfolding parse_diagnostic
parse_diagnostic-Ensures source = lex_spanned-Tiles source ⟫ λ tokens tiles.
    (parse_module-Ends {n = length tokens} (length tokens) (omega arith)).at tokens
      (Tiles-EndsEof tiles) (omega arith)
    ⟫ λ _ _. returns tt

-- Lexing and parsing end on every source, with the module or with a diagnostic: no token is read behind
-- the last one, and a unit of fuel for each token is enough.
pub parse_diagnostic_total :
    (source : Text) → (parse_diagnostic source ≢ panic) × (parse_diagnostic source ≢ out_of_fuel)
parse_diagnostic_total source = (
  Ensures-panic (parse_diagnostic-Ensures source),
  Ensures-out_of_fuel (parse_diagnostic-Ensures source),
)
