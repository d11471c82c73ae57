-- ===== src/Lexer/Tiling.antt =====
-- The lexer ends on every source, and its tokens tile the source.
use flow_arrow.Prelude.{
  ℕ, zero, suc, ◌<◌, ◌≡◌, ◌≢◌, refl, ap, ◌∙◌, inl, inr, List, [], ◌∷◌, ◌++◌, append_assoc, Text,
  length, arith, Ensures, returns, Ensures-weaken, ◌⟫◌,
}
use flow_arrow.Source.{SourcePosition, SpannedToken, Token, origin, span, eof}
use flow_arrow.Lexer.{Lexer, push, lex_all, lex_spanned}
use flow_arrow.Lexer.Moves.{MovesOn}
use flow_arrow.Lexer.Steps.{state, Stepped, lex_step-Steps}

-- The tokens of `s` from the position `p` on: each spans a stretch of one character or more, the
-- stretches follow one another with skipped stretches between them, and the last token, alone, is
-- `eof`, at the end.
pub data Tiles : Text → SourcePosition → List SpannedToken → Type 0 where
  done : {p : SourcePosition} → Tiles [] p (record { token = eof; span = span p p } ∷ [])
  skipped :
      {s s' : Text} {p p' : SourcePosition} {ts : List SpannedToken}
      → MovesOn s p s' p'
      → Tiles s' p' ts
      → Tiles s p ts
  lexed :
      {s s' : Text} {p p' : SourcePosition} {t : Token} {ts : List SpannedToken}
      → MovesOn s p s' p'
      → t ≢ eof
      → Tiles s' p' ts
      → Tiles s p (record { token = t; span = span p p' } ∷ ts)

-- The tokens that a run adds to those there are.
abbrev Adds : Lexer → Lexer → Type 0
Adds l l' = (new : List SpannedToken) × Tiles l.rest l.position new × (l'.tokens ≡ l.tokens ++ new)

Adds-Stepped : (l l' l'' : Lexer) → Stepped l l' → Adds l' l'' → Adds l l''
Adds-Stepped l l' l'' (m, inl same) (new, tiles, e) =
    (new, skipped m tiles, e ∙ ap (λ ts. ts ++ new) same)
Adds-Stepped l l' l'' (m, inr (t, n, one)) (new, tiles, e) =
    let here : SpannedToken = record { token = t; span = span l.position l'.position } in
    (
      here ∷ new,
      lexed m n tiles,
      e ∙ (ap (λ ts. ts ++ new) one ∙ append_assoc l.tokens (here ∷ []) new),
    )

lex_all-Adds :
    (fuel : ℕ) (s : Text) (p : SourcePosition) (ts : List SpannedToken)
    → length s < fuel
    → Ensures (Adds (state s p ts)) (lex_all fuel (state s p ts))
unfolding lex_all push
lex_all-Adds zero s p ts h = absurd (omega arith)
lex_all-Adds (suc fuel) [] p ts h = returns (_, done, refl)
lex_all-Adds (suc fuel) (ch ∷ s) p ts h = lex_step-Steps ch s p ts ⟫ λ l' stepped.
    Ensures-weaken (λ l''. Adds-Stepped (state (ch ∷ s) p ts) l' l'' stepped)
      (lex_all-Adds fuel l'.rest l'.position l'.tokens (omega (arith, stepped.0.0)))

-- Lexing ends on every source, with a diagnostic or with tokens that tile it: each token spans a
-- stretch of the source of one character or more, from the line and character where it begins to those
-- behind it, the stretches follow one another in the source's order, and the last token, and no
-- other, is `eof`, at the source's end.
pub lex_spanned-Tiles : (source : Text) → Ensures (Tiles source origin) (lex_spanned source)
unfolding lex_spanned
lex_spanned-Tiles source =
    lex_all-Adds (suc (length source)) source origin [] (omega arith) ⟫ λ l (new, tiles, e).
    returns (rw e tiles)
