-- ===== src/Types/Syntax/RoundTrip.antt =====
-- A type that is written parses back.
use flow_arrow.Prelude.{
  ℕ, zero, suc, ◌+◌, ◌*◌, ◌<◌, Bool, true, ◌≡◌, refl, [], ◌∷◌, ◌++◌, append_assoc, append-nil, Text,
  codes, ◌&&◌, and-eq-true, length, length-append, All, text_eq, arith, ok,
}
use flow_arrow.Types.{
  Ty, Types, unit, args, empty_seq, stream, faultable, seq, tuple, one_of, struct, var, nil, cons,
}
use flow_arrow.Types.Syntax.{
  display, display_more, skip_ws, named_type, starts_name, is_name_char, bracket_of, last_segment,
  parse_union_type, more_atoms, more_types, parse_type,
}
use flow_arrow.Types.Syntax.Names.{IsName, Stops}
use flow_arrow.Types.Syntax.Printable.{
  TwoOrMore, IsPrintable, ArePrintable, AtomsPrintable, StopsUnion, StopsUnion-Stops, ReadsAtom,
  ReadsUnion, Reads, to_atom, more_atoms-end, to_union, name-reads, brackets-reads, more_atoms-more,
  more_types-more, more_types-end, parse_atom-tuple, parse_atom-unit,
}

-- A printed list behind its separators, with enough fuel.
abbrev ReadsAtoms : Types → Type 0
ReadsAtoms ts =
    (f : ℕ) (s : Text)
    → 3 * length (display_more b'|' ts) < f
    → StopsUnion s
    → more_atoms f (display_more b'|' ts ++ s) ≡ ok (ts, s)

abbrev ReadsTypes : Types → Type 0
ReadsTypes ts =
    (f : ℕ) (s : Text)
    → 3 * length (display_more b',' ts) < f
    → more_types f (display_more b',' ts ++ b')' ∷ s) ≡ ok (ts, b')' ∷ s)

display_more-Stops : (ts : Types) (s : Text) → StopsUnion s → Stops (display_more b'|' ts ++ s)
unfolding display
display_more-Stops nil s h = StopsUnion-Stops s h
display_more-Stops (cons t ts) s h = refl

one_of-reads :
    (t : Ty) (ts : Types)
    → TwoOrMore (cons t ts)
    → ReadsAtom t
    → ReadsAtoms ts
    → ReadsUnion (one_of (cons t ts))
unfolding parse_union_type display
one_of-reads t nil two r rs f s h k = absurd two
one_of-reads t (cons u us) two r rs zero s h k = absurd (omega arith)
one_of-reads t (cons u us) two r rs (suc f) s h k =
    let lengths = length-append (display t) (display_more b'|' (cons u us)) in
    rw (
      append_assoc,
      r f (display_more b'|' (cons u us) ++ s) (omega (arith, lengths)) refl,
      rs f s (omega (arith, lengths)) k,
    )

more_atoms-reads : (t : Ty) (ts : Types) → ReadsAtom t → ReadsAtoms ts → ReadsAtoms (cons t ts)
unfolding display
more_atoms-reads t ts r rs zero s h k = absurd (omega arith)
more_atoms-reads t ts r rs (suc f) s h k =
    let lengths = length-append (display t) (display_more b'|' ts) in
    rw append_assoc (
      more_atoms-more f t ts _ _ _
        (r f (display_more b'|' ts ++ s) (omega (arith, lengths)) (display_more-Stops ts s k))
        (rs f s (omega (arith, lengths)) k))

display_more-StopsUnion : (ts : Types) (s : Text) → StopsUnion (display_more b',' ts ++ b')' ∷ s)
unfolding display
display_more-StopsUnion nil s = (refl, refl)
display_more-StopsUnion (cons t ts) s = (refl, refl)

more_types-reads : (t : Ty) (ts : Types) → ReadsUnion t → ReadsTypes ts → ReadsTypes (cons t ts)
unfolding display
more_types-reads t ts r rs zero s h = absurd (omega arith)
more_types-reads t ts r rs (suc f) s h =
    let lengths = length-append (display t) (display_more b',' ts) in
    rw append_assoc (
      more_types-more f t ts _ _ _
        (r f (display_more b',' ts ++ b')' ∷ s) (omega (arith, lengths))
          (display_more-StopsUnion ts s))
        (rs f s (omega (arith, lengths))))

tuple-reads :
    (t : Ty) (ts : Types)
    → IsPrintable t
    → ReadsUnion t
    → ReadsTypes ts
    → ReadsAtom (tuple (cons t ts))
unfolding display
tuple-reads t ts p r rs zero s h k = absurd (omega arith)
tuple-reads t ts p r rs (suc zero) s h k = absurd (omega arith)
tuple-reads t ts p r rs (suc (suc f)) s h k =
    let lengths = length-append (display t) (display_more b',' ts) in
    let whole = length-append (display t ++ display_more b',' ts) (codes ")") in
    simp append_assoc (
      parse_atom-tuple f t ts s (display_more b',' ts ++ b')' ∷ s) p
        (r f (display_more b',' ts ++ b')' ∷ s) (omega (arith, lengths, whole))
          (display_more-StopsUnion ts s))
        (rs f s (omega (arith, lengths, whole))))

unit-reads : ReadsAtom unit
unfolding display
unit-reads zero s h k = absurd (omega arith)
unit-reads (suc zero) s h k = absurd (omega arith)
unit-reads (suc (suc f)) s h k = parse_atom-unit f s

types_end-reads : ReadsTypes nil
unfolding display
types_end-reads zero s h = absurd (omega arith)
types_end-reads (suc f) s h = more_types-end f s

atoms_end-reads : ReadsAtoms nil
unfolding display
atoms_end-reads zero s h k = absurd (omega arith)
atoms_end-reads (suc f) s h k = more_atoms-end f s k

-- The same test as `IsName`, to be run on a keyword.
abbrev is_name : Text → Bool
is_name [] = true
is_name (c ∷ s) = is_name_char c && is_name s

IsName-of : (name : Text) → (starts_name name && is_name name) ≡ true → IsName name
IsName-of name h = ((and-eq-true _ _ h).0, chars name (and-eq-true _ _ h).1)
  where
    chars : (s : Text) → is_name s ≡ true → All (λ c. is_name_char c ≡ true) s
    chars [] k = tt
    chars (c ∷ s) k = let (k₀, k₁) = and-eq-true (is_name_char c) (is_name s) k in (k₀, chars s k₁)

mutual
  unfolding display named_type bracket_of last_segment text_eq

  reads : (t : Ty) → IsPrintable t → Reads t
  reads unit p = unit-reads
  reads args p = absurd p
  reads empty_seq p = absurd p
  reads (struct _ _) p = absurd p
  reads (var name) p = name-reads (var name) name refl p.0 p.1
  reads (stream t) p =
      brackets-reads stream t (codes "Stream") refl (IsName-of (codes "Stream") refl) refl
        (to_union t (reads t p))
  reads (faultable t) p =
      brackets-reads faultable t (codes "Faultable") refl (IsName-of (codes "Faultable") refl) refl
        (to_union t (reads t p))
  reads (seq t) p =
      brackets-reads seq t (codes "Seq") refl (IsName-of (codes "Seq") refl) refl
        (to_union t (reads t p))
  reads (tuple nil) p = absurd p.0
  reads (tuple (cons t ts)) p =
      tuple-reads t ts p.1.0 (to_union t (reads t p.1.0)) (reads_types ts p.1.1)
  reads (one_of nil) p = absurd p.0
  reads (one_of (cons t ts)) p =
      one_of-reads t ts p.0 (to_atom t p.1.0 (reads t p.1.1)) (reads_atoms ts p.1.2)
  reads t p = name-reads t (display t) refl (IsName-of (display t) refl) refl

  reads_types : (ts : Types) → ArePrintable ts → ReadsTypes ts
  reads_types nil p = types_end-reads
  reads_types (cons t ts) p = more_types-reads t ts (to_union t (reads t p.0)) (reads_types ts p.1)

  reads_atoms : (ts : Types) → AtomsPrintable ts → ReadsAtoms ts
  reads_atoms nil p = atoms_end-reads
  reads_atoms (cons t ts) p =
      more_atoms-reads t ts (to_atom t p.0 (reads t p.1)) (reads_atoms ts p.2)

-- The parser reads the text of a printable type back as that type.
pub parse_type-display : (t : Ty) → IsPrintable t → parse_type (display t) ≡ ok t
unfolding parse_type skip_ws
parse_type-display t p =
    let whole = to_union t (reads t p) (3 * length (display t) + 2) [] (omega arith) tt in
    rw (rw append-nil at whole)
