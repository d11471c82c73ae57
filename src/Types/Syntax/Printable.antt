-- ===== src/Types/Syntax/Printable.antt =====
-- The types that a text can be read back to, and what the parser does on each kind of text.
use flow_arrow.Prelude.{
  ℕ, zero, suc, ◌+◌, ◌*◌, ◌<◌, true, false, ◌≡◌, refl, ap, ◌∙◌, some, [], ◌∷◌, ◌++◌, append_assoc,
  Text, codes, length, length-append, arith, ok, ◌==◌,
}
use flow_arrow.Types.{
  Ty, Types, unit, args, empty_seq, stream, faultable, seq, tuple, one_of, struct, var, nil, cons,
}
use flow_arrow.Types.Syntax.{
  display, display_more, skip_ws, eat, named_type, starts_name, bracket_of, parse_atom,
  parse_union_type, more_atoms, more_types, expect,
}
use flow_arrow.Types.Syntax.Names.{
  IsName, Stops, is_stop, eat-none, eat-some, parse_atom-name, parse_atom-brackets,
}

abbrev pub IsAtom : Ty → Type 0
IsAtom (one_of _) = ⊥
IsAtom _ = Unit

abbrev pub TwoOrMore : Types → Type 0
TwoOrMore (cons _ (cons _ _)) = Unit
TwoOrMore _ = ⊥

abbrev pub OneOrMore : Types → Type 0
OneOrMore nil = ⊥
OneOrMore _ = Unit

-- The types that have a text of their own: no struct, `Args` or empty sequence, which print like a
-- variable or like nothing that parses; variables whose name is one, and no keyword; tuples of one or
-- more; unions of two or more that are no unions.
abbrev mutual
  pub IsPrintable : Ty → Type 0
  IsPrintable args = ⊥
  IsPrintable empty_seq = ⊥
  IsPrintable (struct _ _) = ⊥
  IsPrintable (var name) = IsName name × (named_type name ≡ var name)
  IsPrintable (stream t) = IsPrintable t
  IsPrintable (faultable t) = IsPrintable t
  IsPrintable (seq t) = IsPrintable t
  IsPrintable (tuple ts) = OneOrMore ts × ArePrintable ts
  IsPrintable (one_of ts) = TwoOrMore ts × AtomsPrintable ts
  IsPrintable _ = Unit

  pub ArePrintable : Types → Type 0
  ArePrintable nil = Unit
  ArePrintable (cons t ts) = IsPrintable t × ArePrintable ts

  pub AtomsPrintable : Types → Type 0
  AtomsPrintable nil = Unit
  AtomsPrintable (cons t ts) = IsAtom t × IsPrintable t × AtomsPrintable ts

-- What may stand behind a union: what may stand behind a type, but no further alternative.
abbrev pub StopsUnion : Text → Type 0
StopsUnion [] = Unit
StopsUnion (c ∷ s) = (is_stop c ≡ true) × ((c == b'|') ≡ false)

pub StopsUnion-Stops : (s : Text) → StopsUnion s → Stops s
StopsUnion-Stops [] h = tt
StopsUnion-Stops (c ∷ s) h = h.0

abbrev pub ReadsAtom : Ty → Type 0
ReadsAtom t =
    (f : ℕ) (s : Text)
    → 3 * length (display t) < f
    → Stops s
    → parse_atom f (display t ++ s) ≡ ok (t, s)

abbrev pub ReadsUnion : Ty → Type 0
ReadsUnion t =
    (f : ℕ) (s : Text)
    → 3 * length (display t) + 1 < f
    → StopsUnion s
    → parse_union_type f (display t ++ s) ≡ ok (t, s)

abbrev pub Reads : Ty → Type 0
Reads (one_of ts) = ReadsUnion (one_of ts)
Reads t = ReadsAtom t

pub to_atom : (t : Ty) → IsAtom t → Reads t → ReadsAtom t
to_atom (one_of ts) a r = absurd a
to_atom _ a r = r

pub more_atoms-end : (f : ℕ) (s : Text) → StopsUnion s → more_atoms (suc f) s ≡ ok (nil, s)
unfolding parse_union_type eat skip_ws
more_atoms-end f [] h = refl
more_atoms-end f (c ∷ s) h = ground arith

pub union-of-atom : (t : Ty) → ReadsAtom t → ReadsUnion t
unfolding parse_union_type
union-of-atom t r zero s h k = absurd (omega arith)
union-of-atom t r (suc zero) s h k = absurd (omega arith)
union-of-atom t r (suc (suc f)) s h k =
    rw (r (suc f) s (omega arith) (StopsUnion-Stops s k), more_atoms-end f s k)

pub to_union : (t : Ty) → Reads t → ReadsUnion t
to_union (one_of ts) r = r
to_union t r = union-of-atom t r

pub name-reads :
    (t : Ty) (name : Text) → display t ≡ name → IsName name → named_type name ≡ t → ReadsAtom t
name-reads t name d n k zero s h st = absurd (omega arith)
name-reads t name d n k (suc f) s h st =
    rw d (parse_atom-name f name s n st ∙ ap (λ u. ok (u, s)) k)

pub brackets-reads :
    (make : Ty → Ty) (t : Ty) (name : Text)
    → display (make t) ≡ name ++ b'[' ∷ (display t ++ b']' ∷ [])
    → IsName name
    → bracket_of name ≡ some make
    → ReadsUnion t
    → ReadsAtom (make t)
brackets-reads make t name d n b r zero s h st = absurd (omega arith)
brackets-reads make t name d n b r (suc f) s h st =
    let e : display (make t) ++ s ≡ name ++ b'[' ∷ (display t ++ b']' ∷ s) =
      rw d (simp append_assoc) in
    let size : length (display (make t)) ≡ length name + suc (length (display t) + 1) =
      rw d (rw length-append (rw length-append refl)) in
    rw e (
      parse_atom-brackets f name s n make t (display t) b
        (r f (b']' ∷ s) (omega (arith, size)) (refl, refl)))

-- The loops stop at what stands behind them, or read an item behind its separator.
pub more_atoms-more :
    (f : ℕ) (t : Ty) (ts : Types) (s₁ s₂ s₃ : Text)
    → parse_atom f s₁ ≡ ok (t, s₂)
    → more_atoms f s₂ ≡ ok (ts, s₃)
    → more_atoms (suc f) (b'|' ∷ s₁) ≡ ok (cons t ts, s₃)
unfolding parse_union_type
more_atoms-more f t ts s₁ s₂ s₃ h k = rw (eat-some b'|' s₁ refl, h, k)

pub more_types-more :
    (f : ℕ) (t : Ty) (ts : Types) (s₁ s₂ s₃ : Text)
    → parse_union_type f s₁ ≡ ok (t, s₂)
    → more_types f s₂ ≡ ok (ts, s₃)
    → more_types (suc f) (b',' ∷ s₁) ≡ ok (cons t ts, s₃)
unfolding parse_union_type
more_types-more f t ts s₁ s₂ s₃ h k = rw (eat-some b',' s₁ refl, h, k)

pub more_types-end : (f : ℕ) (s : Text) → more_types (suc f) (b')' ∷ s) ≡ ok (nil, b')' ∷ s)
unfolding parse_union_type
more_types-end f s = rw (eat-none b',' b')' s refl refl)

-- No printed type begins with a parenthesis that closes.
pub eat-name : (name s : Text) → starts_name name ≡ true → eat b')' (name ++ s) ≡ (false, name ++ s)
eat-name [] s h = cc
eat-name (c ∷ name) s h = eat-none b')' c (name ++ s) (ground arith) (ground arith)

pub display-first-atom :
    (t : Ty) (s : Text)
    → IsAtom t
    → IsPrintable t
    → eat b')' (display t ++ s) ≡ (false, display t ++ s)
unfolding display
display-first-atom (var name) s a p = eat-name name s p.0.0
display-first-atom (one_of _) s a p = absurd a
display-first-atom args s a p = absurd p
display-first-atom empty_seq s a p = absurd p
display-first-atom (struct _ _) s a p = absurd p
display-first-atom _ s a p = eat-none b')' _ _ refl refl

pub display-first :
    (t : Ty) (s : Text) → IsPrintable t → eat b')' (display t ++ s) ≡ (false, display t ++ s)
unfolding display
display-first (one_of nil) s p = absurd p.0
display-first (one_of (cons t ts)) s p =
    rw append_assoc (display-first-atom t (display_more b'|' ts ++ s) p.1.0 p.1.1)
display-first t s p = display-first-atom t s tt p

pub parse_atom-tuple :
    (f : ℕ) (t : Ty) (ts : Types) (s s₁ : Text)
    → IsPrintable t
    → parse_union_type f (display t ++ s₁) ≡ ok (t, s₁)
    → more_types f s₁ ≡ ok (ts, b')' ∷ s)
    → parse_atom (suc (suc f)) (b'(' ∷ (display t ++ s₁)) ≡ ok (tuple (cons t ts), s)
unfolding parse_union_type skip_ws expect
parse_atom-tuple f t ts s s₁ p h k =
    rw (eat-some b'(' (display t ++ s₁) refl, display-first t s₁ p, h, k, eat-some b')' s refl)

pub parse_atom-unit : (f : ℕ) (s : Text) → parse_atom (suc (suc f)) (codes "()" ++ s) ≡ ok (unit, s)
unfolding parse_union_type skip_ws expect
parse_atom-unit f s = rw (eat-some b'(' (b')' ∷ s) refl, eat-some b')' s refl)
