-- ===== src/Lexer/Steps.antt =====
-- Every turn of the lexer's loop reads on, and pushes no token or the token of what it read.
use flow_arrow.Prelude.{
  ℕ, Bool, true, false, ◌≡◌, ◌≢◌, refl, ap, ◌∙◌, ◌⊎◌, inl, inr, Option, none, some, List, [], ◌∷◌,
  ◌++◌, Text, length, length-append, arith, Ensures, returns, raises, ok, err, Ensures-if, ◌⟫◌,
  Bool-cases, ◌==◌, ◌||◌, ◌&&◌, is_digit, is_alphabetic, text_eq, codes, and-eq-true, ==→eq,
}
use flow_arrow.Prelude.Int.{ℤ, parse_i64}
use flow_arrow.Source.{
  diagnostic, invalid_integer, unterminated_block_comment, point, SourcePosition, SourceSpan,
  SpannedToken, Token, Diagnosed, span, next_position, eof, discard, int, string, arrow,
}
use flow_arrow.Lexer.{
  Lexer, peek, is_char, is_some_and, advance, push, push_one, take_while, is_word_char, starts_word,
  skip_line_comment, skip_block, skip_block_comment, lex_numeric_suffix, real_token, int_token,
  finish_token, lex_after_digits, lex_digits, lex_number, lex_string, word_token, lex_ident,
  lex_variable, punctuation, is_blank, ends_discard, lex_other, lex_step,
}
use flow_arrow.Lexer.Moves.{
  move, Moves, MovesOn, Moves-refl, Moves-trans, Moves-length, MovesOn-cons, take_while-Moves,
  take_while-MovesOn, skip_line-MovesOn, MovesIf, skip_block-Moves, string_loop-Moves,
}

abbrev pub state : Text → SourcePosition → List SpannedToken → Lexer
state s p ts = record { rest = s; position = p; tokens = ts }

-- What one turn of the loop does: it reads on, and pushes nothing or one token for what it read.
abbrev pub Stepped : Lexer → Lexer → Type 0
Stepped l l' =
    MovesOn l.rest l.position l'.rest l'.position
    × ((l'.tokens ≡ l.tokens)
        ⊎ ((t : Token) × (t ≢ eof)
            × (l'.tokens
                ≡ l.tokens ++ record { token = t; span = span l.position l'.position } ∷ [])))

abbrev pub Steps : Lexer → Diagnosed Lexer → Type 0
Steps l = Ensures (Stepped l)

-- A token that is pushed for what was read.
pub pushed :
    (s s' : Text) (p p' : SourcePosition) (ts : List SpannedToken) (t : Token)
    → t ≢ eof
    → MovesOn s p s' p'
    → Stepped (state s p ts) (finish_token p s' p' ts t)
unfolding push
pushed s s' p p' ts t n m = (m, inr (t, n, refl))

pub real_token-ne-eof :
    (text : Text) (suffix : Option Text) (at' : SourceSpan)
    → Ensures (λ t. t ≢ eof) (real_token text suffix at')
unfolding real_token
real_token-ne-eof text none at' = returns (λ e. cc)
real_token-ne-eof text (some suffix) at' =
    Ensures-if (text_eq suffix (codes "f64")) (λ _. returns (λ e. cc))
      (λ _. Ensures-if (text_eq suffix (codes "f32")) (λ _. returns (λ e. cc)) (λ _. raises))

pub int_token-ne-eof :
    (negative : Bool) (digits text : Text) (at' : SourceSpan)
    → Ensures (λ t. t ≢ eof) (int_token negative digits text at')
unfolding int_token
int_token-ne-eof negative digits text at' = go (parse_i64 negative digits)
  where
    go :
        (o : Option ℤ)
        → Ensures
            (λ t. t ≢ eof)
            (elim o [
              | some value ↦ ok (int value)
              | none ↦ err (diagnostic (invalid_integer text) at')
            ])
    go none = raises
    go (some value) = returns (λ e. cc)

pub lex_numeric_suffix-Moves :
    (s : Text) (p : SourcePosition)
    → Moves s p (lex_numeric_suffix s p).1 (lex_numeric_suffix s p).2
unfolding lex_numeric_suffix
lex_numeric_suffix-Moves s p = elim (Bool-cases (is_some_and is_alphabetic (peek s))) [
  | inl more ↦ rw more (take_while-Moves is_word_char s p)
  | inr none' ↦ rw none' (Moves-refl s p)
]

pub MovesOn-trans :
    (s s' s'' : Text) (p p' p'' : SourcePosition)
    → MovesOn s p s' p'
    → Moves s' p' s'' p''
    → MovesOn s p s'' p''
MovesOn-trans s s' s'' p p' p'' (h, m) n =
    (omega (arith, Moves-length s' s'' p' p'' n), Moves-trans s s' s'' p p' p'' m n)

-- A fraction and its suffix, behind the dot.
pub fraction-Moves :
    (c : ℕ) (s : Text) (p : SourcePosition)
    → c ≡ b'.'
    → let fraction = take_while is_digit s (next_position b'.' p) in
      let suffix = lex_numeric_suffix fraction.1 fraction.2 in Moves (c ∷ s) p suffix.1 suffix.2
fraction-Moves c s p e =
    let fraction = take_while is_digit s (next_position b'.' p) in
    let suffix = lex_numeric_suffix fraction.1 fraction.2 in
    rw e
      (MovesOn-cons b'.' s suffix.1 p suffix.2 (
        Moves-trans s fraction.1 suffix.1 _ fraction.2 suffix.2
          (take_while-Moves is_digit s (next_position b'.' p))
          (lex_numeric_suffix-Moves fraction.1 fraction.2))).1

pub lex_after_digits-Steps :
    (s : Text) (start : SourcePosition) (negative : Bool) (sign digits rest : Text)
    (position : SourcePosition) (ts : List SpannedToken)
    → MovesOn s start rest position
    → Steps (state s start ts) (lex_after_digits start negative sign digits rest position ts)
unfolding lex_after_digits
lex_after_digits-Steps s start negative sign digits [] position ts m =
    int_token-ne-eof negative digits _ _ ⟫ λ t n. returns (pushed s [] start position ts t n m)
lex_after_digits-Steps s start negative sign digits (c ∷ r) position ts m =
    Ensures-if (c == b'.' && is_some_and is_digit (peek r))
      (λ e. real_token-ne-eof _ _ _ ⟫ λ t n. returns (
        pushed s _ start _ ts t n (
          MovesOn-trans s (c ∷ r) _ start position _ m
            (fraction-Moves c r position (==→eq c b'.' (and-eq-true _ _ e).0)))))
      (λ _. int_token-ne-eof negative digits _ _ ⟫ λ t n.
        returns (pushed s (c ∷ r) start position ts t n m))

pub lex_digits-Steps :
    (s : Text) (start : SourcePosition) (negative : Bool) (sign : Text)
    (taken : Text × Text × SourcePosition) (ts : List SpannedToken)
    → MovesOn s start taken.1 taken.2
    → Steps (state s start ts) (lex_digits start negative sign taken ts)
unfolding lex_digits
lex_digits-Steps s start negative sign ([], rest, position) ts m = raises
lex_digits-Steps s start negative sign (c ∷ digits, rest, position) ts m =
    lex_after_digits-Steps s start negative sign (c ∷ digits) rest position ts m

pub lex_number-Steps :
    (ch : ℕ) (s : Text) (p : SourcePosition) (ts : List SpannedToken)
    → (ch == b'-' || is_digit ch) ≡ true
    → Steps (state (ch ∷ s) p ts) (lex_number (state (ch ∷ s) p ts))
unfolding lex_number advance
lex_number-Steps ch s p ts h = elim (Bool-cases (ch == b'-')) [
  | inl minus ↦
      let after = next_position b'-' p in
      rw minus (
        lex_digits-Steps (ch ∷ s) p true (b'-' ∷ []) (take_while is_digit s after) ts (
          rw (==→eq ch b'-' minus) (MovesOn-cons b'-' s _ p _ (take_while-Moves is_digit s after))))
  | inr digit ↦ rw digit (
      lex_digits-Steps (ch ∷ s) p false [] (take_while is_digit (ch ∷ s) p) ts
        (take_while-MovesOn is_digit ch s p (rw digit at h)))
]

pub skipped_block :
    (s : Text) (p p' : SourcePosition) (c d : ℕ) (ts : List SpannedToken)
    (o : Option (Text × SourcePosition))
    → p' ≡ next_position d (next_position c p)
    → MovesIf s p' o
    → Steps (state (c ∷ d ∷ s) p ts) (elim o [
      | some r ↦ ok (state r.0 r.1 ts)
      | none ↦ err (diagnostic unterminated_block_comment (point p))
    ])
skipped_block s p p' c d ts none e m = raises
skipped_block s p p' c d ts (some (s', q)) e (cs, f, g) = returns (
  (
    omega (arith, ap length f, length-append cs s'),
    (c ∷ d ∷ cs, ap (λ t. c ∷ d ∷ t) f, g ∙ ap (move cs) e),
  ),
  inl refl,
)

pub skip_block_comment-Steps :
    (ch : ℕ) (s : Text) (p : SourcePosition) (ts : List SpannedToken)
    → (ch == b'/' && is_char b'*' (peek s)) ≡ true
    → Steps (state (ch ∷ s) p ts) (skip_block_comment (state (ch ∷ s) p ts))
unfolding skip_block_comment advance
skip_block_comment-Steps ch [] p ts h = cc ((and-eq-true (ch == b'/') false h).1)
skip_block_comment-Steps ch (d ∷ s) p ts h =
    let (slash, star) = and-eq-true (ch == b'/') (d == b'*') h in
    let p' = next_position b'*' (next_position b'/' p) in
    skipped_block s p p' ch d ts (skip_block s p') (rw (==→eq ch b'/' slash, ==→eq d b'*' star))
      (skip_block-Moves s p')

pub arrow-Steps :
    (ch : ℕ) (s : Text) (p : SourcePosition) (ts : List SpannedToken)
    → (ch == b'-' && is_char b'>' (peek s)) ≡ true
    → Stepped
        (state (ch ∷ s) p ts)
        (push arrow p (advance b'>' (advance b'-' (state (ch ∷ s) p ts))))
unfolding push advance
arrow-Steps ch [] p ts h = cc ((and-eq-true (ch == b'-') false h).1)
arrow-Steps ch (d ∷ s) p ts h =
    let (minus, greater_than) = and-eq-true (ch == b'-') (d == b'>') h in
    rw (==→eq ch b'-' minus, ==→eq d b'>' greater_than)
      (pushed _ _ p _ ts arrow (λ e. cc) (omega arith, (b'-' ∷ b'>' ∷ [], refl, refl)))

pub lex_string-Steps :
    (ch : ℕ) (s : Text) (p : SourcePosition) (ts : List SpannedToken)
    → ch ≡ b'"'
    → Steps (state (ch ∷ s) p ts) (lex_string (state (ch ∷ s) p ts))
unfolding lex_string advance
lex_string-Steps ch s p ts h = string_loop-Moves p s (next_position b'"' p) ⟫ λ (v, s', p') m.
    returns (pushed (ch ∷ s) s' p p' ts (string v) (λ e. cc) (rw h (MovesOn-cons b'"' s s' p p' m)))

pub word_token-ne-eof : (text : Text) → word_token text ≢ eof
word_token-ne-eof text = ground arith

pub starts_word-is_word_char : (c : ℕ) → starts_word c ≡ true → is_word_char c ≡ true
starts_word-is_word_char c h = ground arith

pub lex_ident-Steps :
    (ch : ℕ) (s : Text) (p : SourcePosition) (ts : List SpannedToken)
    → starts_word ch ≡ true
    → Stepped (state (ch ∷ s) p ts) (lex_ident (state (ch ∷ s) p ts))
unfolding lex_ident
lex_ident-Steps ch s p ts h =
    pushed (ch ∷ s) _ p _ ts _ (word_token-ne-eof _)
      (take_while-MovesOn is_word_char ch s p (starts_word-is_word_char ch h))

pub lex_variable-Steps :
    (ch : ℕ) (s : Text) (p : SourcePosition) (ts : List SpannedToken)
    → ch ≡ b'$'
    → Steps (state (ch ∷ s) p ts) (lex_variable (state (ch ∷ s) p ts))
unfolding lex_variable advance push
lex_variable-Steps ch [] p ts h = raises
lex_variable-Steps ch (c ∷ s) p ts h =
    Ensures-if (starts_word c)
      (λ _. returns (
        pushed (ch ∷ c ∷ s) _ p _ ts _ (λ e. cc)
          (rw h (MovesOn-cons b'$' (c ∷ s) _ p _ (take_while-Moves is_word_char (c ∷ s) _)))))
      (λ _.
        Ensures-if (ends_discard c || (c == b'-' && is_char b'>' (peek s)))
          (λ _. returns (
            pushed (ch ∷ c ∷ s) (c ∷ s) p _ ts discard (λ e. cc)
              (rw h (MovesOn-cons b'$' (c ∷ s) (c ∷ s) p _ (Moves-refl (c ∷ s) _)))))
          (λ _. raises))

pub lex_other-Steps :
    (ch : ℕ) (s : Text) (p : SourcePosition) (ts : List SpannedToken) (o : Option Token)
    → (o ≢ some eof)
    → Steps (state (ch ∷ s) p ts) (lex_other ch o (state (ch ∷ s) p ts))
unfolding lex_other push_one advance
lex_other-Steps ch s p ts (some t) n =
    returns
      (pushed (ch ∷ s) s p _ ts t (λ e. n (ap some e)) (MovesOn-cons ch s s p _ (Moves-refl s _)))
lex_other-Steps ch s p ts none n =
    Ensures-if (starts_word ch) (λ h. returns (lex_ident-Steps ch s p ts h)) (λ _. raises)

pub punctuation-ne-eof : (c : ℕ) → punctuation c ≢ some eof
unfolding punctuation
punctuation-ne-eof c = ground arith

pub lex_step-Steps :
    (ch : ℕ) (s : Text) (p : SourcePosition) (ts : List SpannedToken)
    → Steps (state (ch ∷ s) p ts) (lex_step ch (state (ch ∷ s) p ts))
unfolding lex_step advance skip_line_comment
lex_step-Steps ch s p ts =
    let l = state (ch ∷ s) p ts in
    Ensures-if (is_blank ch) (λ _. returns (MovesOn-cons ch s s p _ (Moves-refl s _), inl refl))
      (λ _.
        Ensures-if (ch == b'#') (λ _. returns (skip_line-MovesOn ch s p, inl refl))
          (λ _.
            Ensures-if (ch == b'/' && is_char b'*' (peek s)) (skip_block_comment-Steps ch s p ts)
              (λ _.
                Ensures-if (ch == b'-' && is_char b'>' (peek s))
                  (λ h. returns (arrow-Steps ch s p ts h))
                  (λ _. Ensures-if (ch == b'-' || is_digit ch) (lex_number-Steps ch s p ts) (λ _.
                    Ensures-if (ch == b'"') (λ h. lex_string-Steps ch s p ts (==→eq ch b'"' h))
                      (λ _.
                        Ensures-if (ch == b'$')
                          (λ h. lex_variable-Steps ch s p ts (==→eq ch b'$' h))
                          (λ _.
                            lex_other-Steps ch s p ts (punctuation ch)
                              (punctuation-ne-eof ch))))))))
