-- ===== src/Typecheck/Ground/Texts.antt =====
-- No type that `parse_type` reads from a text is a struct: only a declaration makes one.
use flow_arrow.Prelude.{
  ℕ, zero, suc, Bool, true, false, Option, none, some, [], ◌∷◌, Text, codes, text_eq, Bool-cases,
  inl, inr, Holds, held, errs, stops, ◌⨾◌, Holds-any, Holds-if, if◌then◌else◌,
}
use flow_arrow.Types.{Ty, Types, struct, nil, cons, TyResult}
use flow_arrow.Types.Syntax.{
  parse_type, parse_union_type, parse_atom, parse_tuple_or_unit, more_atoms, more_types, named_type,
  bracket_of, in_brackets, ident, skip_ws, one_or_union, finish, stdlib_type_symbol, last_segment,
  expect, eat, starts_with, starts_name,
}

abbrev pub NotStruct : Ty → Type 0
NotStruct (struct _ _) = ⊥
NotStruct _ = Unit

NotStruct-if : (b : Bool) (s t : Ty) → NotStruct s → NotStruct t → NotStruct (if b then s else t)
NotStruct-if true s t h k = h
NotStruct-if false s t h k = k

named_type-NotStruct : (name : Text) → NotStruct (named_type name)
unfolding named_type
named_type-NotStruct name = search (NotStruct-if, tt) depth 40

one_or_union-NotStruct : (t : Ty) (ts : Types) → NotStruct t → NotStruct (one_or_union t ts)
one_or_union-NotStruct t nil h = h
one_or_union-NotStruct t (cons _ _) h = tt

abbrev FirstNotStruct : Ty × Text → Type 0
FirstNotStruct (t, _) = NotStruct t

tuple-NotStruct : (f : ℕ) (s : Text) → Holds FirstNotStruct (parse_tuple_or_unit f s)
unfolding parse_tuple_or_unit
tuple-NotStruct zero s = stops
tuple-NotStruct (suc f) s = Holds-any (expect b'(' s) ⨾ λ x _.
    Holds-if (eat b')' x.1).0 (λ _. held tt)
      λ _. Holds-any (parse_union_type f (eat b')' x.1).1) ⨾ λ y _.
        Holds-any (more_types f y.1) ⨾ λ z _. Holds-any (expect b')' z.1) ⨾ λ _ _. held tt

-- A way to make a type of the type in brackets.
abbrev MakesNotStruct : Option (Ty → Ty) → Type 0
MakesNotStruct none = Unit
MakesNotStruct (some make) = (t : Ty) → NotStruct (make t)

bracket_of-NotStruct : (name : Text) → MakesNotStruct (bracket_of name)
unfolding bracket_of
bracket_of-NotStruct name = elim (Bool-cases (text_eq name (codes "Seq"))) [
  | inl e ↦ rw e (λ _. tt)
  | inr e ↦ rw e (elim (Bool-cases (text_eq name (codes "Faultable"))) [
    | inl f ↦ rw f (λ _. tt)
    | inr f ↦ rw f (elim (Bool-cases (text_eq (last_segment name) (codes "Stream"))) [
      | inl g ↦ rw g (λ _. tt)
      | inr g ↦ rw g tt
    ])
  ])
]

in_brackets-NotStruct :
    (make : Option (Ty → Ty)) (name : Text) (union : Text → TyResult (Ty × Text)) (s : Text)
    → MakesNotStruct make
    → Holds FirstNotStruct (in_brackets make union name s)
unfolding in_brackets
in_brackets-NotStruct none name union s h = held (named_type-NotStruct name)
in_brackets-NotStruct (some make) name union s h =
    Holds-if (eat b'[' s).0
      (λ _.
        Holds-any (union (eat b'[' s).1) ⨾ λ x _. Holds-any (expect b']' x.1) ⨾ λ _ _. held (h x.0))
      (λ _. held (named_type-NotStruct name))

atom-NotStruct : (f : ℕ) (s : Text) → Holds FirstNotStruct (parse_atom f s)
unfolding parse_atom
atom-NotStruct zero s = stops
atom-NotStruct (suc f) s =
    Holds-if (starts_with b'(' (skip_ws s)) (λ _. tuple-NotStruct f (skip_ws s))
      λ _.
        Holds-if (starts_name (skip_ws s))
          (λ _. Holds-any (ident (skip_ws s)) ⨾ λ x _.
            in_brackets-NotStruct (bracket_of x.0) x.0 (parse_union_type f) x.1
              (bracket_of-NotStruct x.0))
          (λ _. errs)

union-NotStruct : (f : ℕ) (s : Text) → Holds FirstNotStruct (parse_union_type f s)
unfolding parse_union_type
union-NotStruct zero s = stops
union-NotStruct (suc f) s = atom-NotStruct f s ⨾ λ x h.
    Holds-any (more_atoms f x.1) ⨾ λ y _. held (one_or_union-NotStruct x.0 y.0 h)

finish-NotStruct : (t : Ty) (s : Text) → NotStruct t → Holds NotStruct (finish t s)
finish-NotStruct t [] h = held h
finish-NotStruct t (_ ∷ _) h = errs

-- No text is a struct: only a declaration makes one.
parse_type-NotStruct : (text : Text) → Holds NotStruct (parse_type text)
unfolding parse_type
parse_type-NotStruct text = union-NotStruct _ text ⨾ λ x h. finish-NotStruct x.0 (skip_ws x.1) h

pub stdlib_type-NotStruct : (name : Text) → Holds NotStruct (stdlib_type_symbol name)
unfolding stdlib_type_symbol
stdlib_type-NotStruct name =
    Holds-if (text_eq name (codes "Stream")) (λ _. held tt)
      λ _.
        Holds-if (text_eq name (codes "Args")) (λ _. held tt)
          λ _.
            Holds-if (text_eq name (codes "Fault")) (λ _. held tt)
              λ _.
                Holds-if (text_eq name (codes "ServerConfig")) (λ _. held tt)
                  λ _.
                    Holds-if (text_eq name (codes "Listener")) (λ _. held tt)
                      λ _.
                        Holds-if (text_eq name (codes "Request")) (λ _. held tt)
                          λ _.
                            Holds-if (text_eq name (codes "Response")) (λ _. held tt)
                              λ _.
                                Holds-if (text_eq name (codes "Connection")) (λ _. held tt)
                                  λ _.
                                    Holds-if (text_eq name (codes "Row")) (λ _. held tt)
                                      λ _.
                                        Holds-if (text_eq name (codes "Value")) (λ _. held tt)
                                          λ _. parse_type-NotStruct name
