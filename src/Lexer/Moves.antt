-- ===== src/Lexer/Moves.antt =====
-- What the lexer's loops read: each moves on in the text, and the position with it.
use flow_arrow.Prelude.{
  ℕ, ◌<◌, ◌≤◌, Bool, true, ◌≡◌, refl, sym, ap, ◌∙◌, inl, inr, Option, none, some, [], ◌∷◌, ◌++◌,
  append_assoc, Text, length, length-append, arith, Ensures, returns, raises, Ensures-if, ◌⟫◌,
  Bool-cases, ◌==◌, ◌&&◌,
}
use flow_arrow.Source.{SourcePosition, Diagnosed, SourceDiagnostic, next_position}
use flow_arrow.Lexer.{take_while, skip_line, skip_block, unescape, string_loop, with_escape}

-- The position behind a text that stands at a position.
abbrev pub move : Text → SourcePosition → SourcePosition
move [] p = p
move (c ∷ s) p = move s (next_position c p)

-- A text is read from `s` at `p`, and `s'` at `p'` is left.
abbrev pub Moves : Text → SourcePosition → Text → SourcePosition → Type 0
Moves s p s' p' = (cs : Text) × (s ≡ cs ++ s') × (p' ≡ move cs p)

-- One character or more.
abbrev pub MovesOn : Text → SourcePosition → Text → SourcePosition → Type 0
MovesOn s p s' p' = (length s' < length s) × Moves s p s' p'

pub move-append : (a b : Text) (p : SourcePosition) → move (a ++ b) p ≡ move b (move a p)
move-append [] b p = refl
move-append (c ∷ a) b p = move-append a b (next_position c p)

pub Moves-refl : (s : Text) (p : SourcePosition) → Moves s p s p
Moves-refl s p = ([], refl, refl)

pub Moves-trans :
    (s s' s'' : Text) (p p' p'' : SourcePosition)
    → Moves s p s' p'
    → Moves s' p' s'' p''
    → Moves s p s'' p''
Moves-trans s s' s'' p p' p'' (a, e, f) (b, g, h) = (
  a ++ b,
  e ∙ (ap (λ t. a ++ t) g ∙ sym (append_assoc a b s'')),
  h ∙ (ap (move b) f ∙ sym (move-append a b p)),
)

pub Moves-length : (s s' : Text) (p p' : SourcePosition) → Moves s p s' p' → length s' ≤ length s
Moves-length s s' p p' (cs, e, _) = omega (arith, ap length e, length-append cs s')

pub take_while-Moves :
    (q : ℕ → Bool) (s : Text) (p : SourcePosition)
    → Moves s p (take_while q s p).1 (take_while q s p).2
unfolding take_while
take_while-Moves q [] p = ([], refl, refl)
take_while-Moves q (c ∷ s) p = elim (Bool-cases (q c)) [
  | inl more ↦
      let (cs, e, f) = take_while-Moves q s (next_position c p) in
      rw more (c ∷ cs, ap (λ t. c ∷ t) e, f)
  | inr stop ↦ rw stop ([], refl, refl)
]

pub MovesOn-cons :
    (c : ℕ) (s s' : Text) (p p' : SourcePosition)
    → Moves s (next_position c p) s' p'
    → MovesOn (c ∷ s) p s' p'
MovesOn-cons c s s' p p' m =
    (omega (arith, Moves-length s s' (next_position c p) p' m), (c ∷ m.0, ap (λ t. c ∷ t) m.1, m.2))

pub take_while-MovesOn :
    (q : ℕ → Bool) (c : ℕ) (s : Text) (p : SourcePosition)
    → q c ≡ true
    → MovesOn (c ∷ s) p (take_while q (c ∷ s) p).1 (take_while q (c ∷ s) p).2
unfolding take_while
take_while-MovesOn q c s p h =
    rw h (MovesOn-cons c s _ p _ (take_while-Moves q s (next_position c p)))

pub skip_line-Moves :
    (s : Text) (p : SourcePosition) → Moves s p (skip_line s p).0 (skip_line s p).1
unfolding skip_line
skip_line-Moves [] p = Moves-refl [] p
skip_line-Moves (c ∷ s) p = elim (Bool-cases (c == 0xa)) [
  | inl stop ↦ rw stop (c ∷ [], refl, refl)
  | inr more ↦
      let (cs, e, f) = skip_line-Moves s (next_position c p) in
      rw more (c ∷ cs, ap (λ t. c ∷ t) e, f)
]

pub skip_line-MovesOn :
    (c : ℕ) (s : Text) (p : SourcePosition)
    → MovesOn (c ∷ s) p (skip_line (c ∷ s) p).0 (skip_line (c ∷ s) p).1
unfolding skip_line
skip_line-MovesOn c s p = elim (Bool-cases (c == 0xa)) [
  | inl stop ↦ rw stop (MovesOn-cons c s s p (next_position c p) (Moves-refl s (next_position c p)))
  | inr more ↦ rw more (MovesOn-cons c s _ p _ (skip_line-Moves s (next_position c p)))
]

abbrev pub MovesIf : Text → SourcePosition → Option (Text × SourcePosition) → Type 0
MovesIf s p none = Unit
MovesIf s p (some (s', p')) = Moves s p s' p'

pub MovesIf-cons :
    (c : ℕ) (s : Text) (p : SourcePosition) (o : Option (Text × SourcePosition))
    → MovesIf s (next_position c p) o
    → MovesIf (c ∷ s) p o
MovesIf-cons c s p none m = tt
MovesIf-cons c s p (some (s', p')) m = (c ∷ m.0, ap (λ t. c ∷ t) m.1, m.2)

pub skip_block-Moves : (s : Text) (p : SourcePosition) → MovesIf s p (skip_block s p)
unfolding skip_block
skip_block-Moves [] p = tt
skip_block-Moves (c ∷ []) p = tt
skip_block-Moves (c ∷ d ∷ s) p = elim (Bool-cases (c == b'*' && d == b'/')) [
  | inl stop ↦ rw stop (c ∷ d ∷ [], refl, refl)
  | inr more ↦ rw more (MovesIf-cons c (d ∷ s) p _ (skip_block-Moves (d ∷ s) (next_position c p)))
]

pub with_escape-Moves :
    (o : Option ℕ) (error : SourceDiagnostic) (more : Diagnosed (Text × Text × SourcePosition))
    (c d : ℕ) (s : Text) (p : SourcePosition)
    → Ensures (λ r. Moves s (next_position d (next_position c p)) r.1 r.2) more
    → Ensures (λ r. Moves (c ∷ d ∷ s) p r.1 r.2) (with_escape o error more)
unfolding with_escape
with_escape-Moves none error more c d s p h = raises
with_escape-Moves (some x) error more c d s p h =
    h ⟫ λ (v, s', p') (cs, e, f). returns (c ∷ d ∷ cs, ap (λ t. c ∷ d ∷ t) e, f)

pub string_loop-Moves :
    (start : SourcePosition) (s : Text) (p : SourcePosition)
    → Ensures (λ r. Moves s p r.1 r.2) (string_loop start s p)
unfolding string_loop
string_loop-Moves start [] p = raises
string_loop-Moves start (c ∷ []) p =
    Ensures-if (c == b'"') (λ _. returns (c ∷ [], refl, refl))
      (λ _. Ensures-if (c == b'\\') (λ _. raises) (λ _. raises))
string_loop-Moves start (c ∷ d ∷ s) p =
    let after = next_position c p in
    Ensures-if (c == b'"') (λ _. returns (c ∷ [], refl, refl))
      (λ _.
        Ensures-if (c == b'\\')
          (λ _.
            with_escape-Moves (unescape d) _ _ c d s p
              (string_loop-Moves start s (next_position d after)))
          (λ _. string_loop-Moves start (d ∷ s) after ⟫ λ (v, s', p') (cs, e, f).
            returns (c ∷ cs, ap (λ t. c ∷ t) e, f)))
