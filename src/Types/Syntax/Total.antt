-- ===== src/Types/Syntax/Total.antt =====
-- `parse_type` ends on every text.
use flow_arrow.Prelude.{
  ℕ, zero, suc, ◌+◌, ◌*◌, ◌≤◌, ◌<◌, Bool, true, false, ◌≡◌, Option, none, some, [], ◌∷◌, Text,
  length, arith, Ensures, returns, raises, Ensures-if, Ensures-weaken, ◌⟫◌,
}
use flow_arrow.Types.{Ty, TyResult}
use flow_arrow.Types.Syntax.{
  TypeParser, skip_ws, eat, eat_here, named, expect, take_name, ident, bracket_of, in_brackets,
  finish, starts_with, starts_name, parse_union_type, more_atoms, parse_atom, parse_tuple_or_unit,
  more_types, parse_type,
}

length-skip_ws : (s : Text) → length (skip_ws s) ≤ length s
unfolding skip_ws
length-skip_ws [] = omega arith
length-skip_ws (c ∷ s) = ground (arith, length-skip_ws s)

abbrev spent : Bool → ℕ
spent true = 1
spent false = 0

-- What `eat` consumes.
pub length-eat : (c : ℕ) (s : Text) → spent (eat c s).0 + length (eat c s).1 ≤ length s
unfolding eat
length-eat c s = go (skip_ws s) (length-skip_ws s)
  where
    go :
        (s' : Text)
        → length s' ≤ length s
        → spent (eat_here c s').0 + length (eat_here c s').1 ≤ length s
    go [] h = omega arith
    go (d ∷ s') h = ground arith

length-take_name : (s : Text) → length (take_name s).1 ≤ length s
unfolding take_name
length-take_name [] = omega arith
length-take_name (c ∷ s) = ground (arith, length-take_name s)

-- The run ends, and leaves no more text than it was given.
abbrev Shorter : {A : Type 0} → Text → TyResult (A × Text) → Type 0
Shorter s = Ensures (λ r. length r.1 ≤ length s)

expect-Shorter : (c : ℕ) (s : Text) → Ensures (λ r. length r.1 < length s) (expect c s)
unfolding expect
expect-Shorter c s =
    Ensures-if (eat c s).0 (λ h. returns (omega (arith, rw h at (length-eat c s)))) (λ _. raises)

ident-Shorter : (s : Text) → Shorter s (ident s)
unfolding ident
ident-Shorter s =
    go (take_name (skip_ws s)) (omega (arith, length-take_name (skip_ws s), length-skip_ws s))
  where
    go : (r : Text × Text) → length r.1 ≤ length s → Shorter s (named r)
    go ([], s') h = raises
    go (c ∷ name, s') h = returns h

in_brackets-Shorter :
    (o : Option (Ty → Ty)) (union : TypeParser Ty) (name s : Text)
    → ((s' : Text) → length s' < length s → Shorter s' (union s'))
    → Shorter s (in_brackets o union name s)
unfolding in_brackets
in_brackets-Shorter none union name s p = returns (omega arith)
in_brackets-Shorter (some make) union name s p =
    Ensures-if (eat b'[' s).0
      (λ e.
        let shorter = rw e at (length-eat b'[' s) in
        p (eat b'[' s).1 (omega (arith, shorter)) ⟫ λ (t, s₂) h.
        expect-Shorter b']' s₂ ⟫ λ (_, s₃) k. returns (omega (arith, shorter)))
      (λ e. returns (omega (arith, length-eat b'[' s)))

starts_with_pos : (c : ℕ) (s : Text) → starts_with c s ≡ true → 0 < length s
starts_with_pos c [] h = cc
starts_with_pos c (d ∷ s) h = omega arith

mutual
  unfolding parse_union_type

  parse_union_type-Shorter :
      (f : ℕ) (s : Text) → 3 * length s + 1 < f → Shorter s (parse_union_type f s)
  parse_union_type-Shorter zero s h = absurd (omega arith)
  parse_union_type-Shorter (suc f) s h = parse_atom-Shorter f s (omega arith) ⟫ λ (t, s₁) h₁.
      more_atoms-Shorter f s₁ (omega arith) ⟫ λ (ts, s₂) h₂. returns (omega arith)

  more_atoms-Shorter : (f : ℕ) (s : Text) → 3 * length s < f → Shorter s (more_atoms f s)
  more_atoms-Shorter zero s h = absurd (omega arith)
  more_atoms-Shorter (suc f) s h =
      Ensures-if (eat b'|' s).0
        (λ e.
          let shorter = rw e at (length-eat b'|' s) in
          parse_atom-Shorter f (eat b'|' s).1 (omega (arith, shorter)) ⟫ λ (t, s₂) h₂.
          more_atoms-Shorter f s₂ (omega (arith, shorter)) ⟫ λ (ts, s₃) h₃.
          returns (omega (arith, shorter)))
        (λ e. returns (omega (arith, length-eat b'|' s)))

  parse_atom-Shorter : (f : ℕ) (s : Text) → 3 * length s < f → Shorter s (parse_atom f s)
  parse_atom-Shorter zero s h = absurd (omega arith)
  parse_atom-Shorter (suc f) s h =
      let skipped = length-skip_ws s in
      Ensures-if (starts_with b'(' (skip_ws s))
        (λ e.
          Ensures-weaken (λ r k. omega (arith, skipped))
            (parse_tuple_or_unit-Shorter f (skip_ws s) (starts_with_pos b'(' (skip_ws s) e)
              (omega (arith, skipped))))
        (λ _.
          Ensures-if (starts_name (skip_ws s))
            (λ _. ident-Shorter (skip_ws s) ⟫ λ (name, s₁) h₁.
              Ensures-weaken (λ r k. omega (arith, skipped))
                (in_brackets-Shorter (bracket_of name) (parse_union_type f) name s₁
                  (λ s' k. parse_union_type-Shorter f s' (omega (arith, skipped)))))
            (λ _. raises))

  parse_tuple_or_unit-Shorter :
      (f : ℕ) (s : Text) → 0 < length s → 3 * length s ≤ f → Shorter s (parse_tuple_or_unit f s)
  parse_tuple_or_unit-Shorter zero s p h = absurd (omega arith)
  parse_tuple_or_unit-Shorter (suc f) s p h = expect-Shorter b'(' s ⟫ λ (_, s₁) h₁.
      Ensures-if (eat b')' s₁).0 (λ _. returns (omega (arith, length-eat b')' s₁)))
        (λ _.
          let shorter = length-eat b')' s₁ in
          parse_union_type-Shorter f (eat b')' s₁).1 (omega (arith, shorter)) ⟫ λ (t, s₃) h₃.
          more_types-Shorter f s₃ (omega (arith, shorter)) ⟫ λ (ts, s₄) h₄.
          expect-Shorter b')' s₄ ⟫ λ (_, s₅) h₅. returns (omega (arith, shorter)))

  more_types-Shorter : (f : ℕ) (s : Text) → 3 * length s < f → Shorter s (more_types f s)
  more_types-Shorter zero s h = absurd (omega arith)
  more_types-Shorter (suc f) s h =
      Ensures-if (eat b',' s).0
        (λ e.
          let shorter = rw e at (length-eat b',' s) in
          parse_union_type-Shorter f (eat b',' s).1 (omega (arith, shorter)) ⟫ λ (t, s₂) h₂.
          more_types-Shorter f s₂ (omega (arith, shorter)) ⟫ λ (ts, s₃) h₃.
          returns (omega (arith, shorter)))
        (λ e. returns (omega (arith, length-eat b',' s)))

finish-Ends : (t : Ty) (s : Text) → Ensures (λ _. Unit {0}) (finish t s)
finish-Ends t [] = returns tt
finish-Ends t (c ∷ s) = raises

-- Parsing ends on every text, with a type or with an error: it neither fails to return nor panics.
pub parse_type_total : (text : Text) → Ensures (λ _. Unit {0}) (parse_type text)
unfolding parse_type
parse_type_total text =
    parse_union_type-Shorter (3 * length text + 2) text (omega arith) ⟫ λ (t, s) h.
    finish-Ends t (skip_ws s)
