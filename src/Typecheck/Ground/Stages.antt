-- ===== src/Typecheck/Ground/Stages.antt =====
-- The stages that apply a node to the items of a sequence keep types ground.
use flow_arrow.Prelude.{
  Bool, true, false, ◌||◌, ◌≡◌, Option, none, some, List, [], ◌∷◌, Text, text_eq, All, Bool-cases,
  inl, inr, ok, err, panic, out_of_fuel, ◌>>=◌, ◌>>◌, Holds, held, errs, panics, stops, ◌⨾◌,
  Holds-any, Holds-weaken, subst,
}
use flow_arrow.Types.{
  Ty, Fields, Signature, TypeError, TyResult, stream, faultable, seq, tuple, struct, bool, nil,
  cons, end, field, inner_faultable,
}
use flow_arrow.Types.Substitute.{Vars, substitute}
use flow_arrow.Types.Match.{match_types}
use flow_arrow.Ast.{Callable}
use flow_arrow.Typecheck.{Checker, Check, get, some_or, unresolved_reduce}
use flow_arrow.Typecheck.Nodes.{found, apply_node}
use flow_arrow.Typecheck.Apply.{
  expect_type, is_faultable, faultable_if, item_of, field_type, apply_field, first_reduce,
  reduce_result, operation_faultable, map_items, apply_map, fault_map_types, apply_fault_map,
  apply_filter, apply_repeat, apply_reduce, apply_scan,
}
use flow_arrow.Typecheck.Ground.{
  IsGround, FieldsGround, GroundVars, inner-IsGround, substitute-IsGround,
}
use flow_arrow.Typecheck.Ground.Match.{match_types-Ground}
use flow_arrow.Typecheck.Ground.Nodes.{
  HasOutput, FoundGround, IsSound, some_or-Holds, after_refuse, apply_node-IsGround,
}

faultable_if-IsGround : (faulty : Bool) (t : Ty) → IsGround t → IsGround (faultable_if faulty t)
faultable_if-IsGround true t h = h
faultable_if-IsGround false t h = h

item_of-IsGround : (name : Text) (input t : Ty) → IsGround t → Holds IsGround (item_of name input t)
item_of-IsGround name input (seq item) h = held h
item_of-IsGround name input _ h = errs

field_type-IsGround :
    (name : Text) (fs : Fields) (t : Ty)
    → FieldsGround fs
    → field_type name fs ≡ some t
    → IsGround t
unfolding field_type
field_type-IsGround name end t h e = cc
field_type-IsGround name (field n u fs) t (h, hs) e = elim (Bool-cases (text_eq n name)) [
  | inl same ↦ subst IsGround {x = u} {y = t} (cc (rw same at e)) h
  | inr differ ↦ field_type-IsGround name fs t hs (rw differ at e)
]

pub apply_field-IsGround : (name : Text) (t : Ty) → IsGround t → Holds IsGround (apply_field name t)
unfolding apply_field
apply_field-IsGround name (struct s fs) h =
    Holds-weaken (λ t e. field_type-IsGround name fs t h e) (some_or-Holds _ _)
apply_field-IsGround name _ h = errs

first_reduce-Ground :
    (name : Text) (signatures : List Signature) (pair : Ty) (last : Option TypeError)
    → All HasOutput signatures
    → IsGround pair
    → Holds FoundGround (first_reduce name signatures pair last)
unfolding first_reduce
first_reduce-Ground name [] pair last u p = held tt
first_reduce-Ground name (s ∷ signatures) pair last (u, us) p =
    go (match_types s.input pair []) (match_types-Ground s.input pair [] p tt)
      (λ e. first_reduce-Ground name signatures pair e us p)
  where
    go :
        (r : TyResult Vars)
        → Holds GroundVars r
        → ((e : Option TypeError) → Holds FoundGround (first_reduce name signatures pair e))
        → Holds FoundGround (elim r [
          | ok vars ↦
              some_or (substitute s.output vars) (unresolved_reduce name) >>= (λ t. ok (found t))
          | err e ↦ first_reduce name signatures pair (some e)
          | panic ↦ panic
          | out_of_fuel ↦ out_of_fuel
        ])
    go (ok vars) (held g) k = some_or-Holds (substitute s.output vars) _ ⨾ λ t e.
        held (substitute-IsGround s.output vars t u g e)
    go (err e) g k = k (some e)
    go panic g k = panics
    go out_of_fuel g k = stops

pub expecting :
    {A : Type 0} {P : A → Type 0} (label : Text) (actual expected : Ty) {r : Check A}
    → Holds P r
    → Holds P (expect_type label actual expected >> r)
expecting label actual expected h = Holds-any (expect_type label actual expected) ⨾ λ _ _. h

module _ (self : Checker) (sound : IsSound self) (callable : Callable) where
  map_items-IsGround :
      (name : Text) (input t : Ty)
      → IsGround t
      → Holds IsGround (map_items self callable name input t)
  map_items-IsGround name input (seq item) h =
      apply_node-IsGround self sound callable name item true true h ⨾ λ t k. held k
  map_items-IsGround name input (stream item) h =
      apply_node-IsGround self sound callable name item true true h ⨾ λ t k. held k
  map_items-IsGround name input _ h = errs

  pub apply_map-IsGround :
      (name : Text) (input : Ty)
      → IsGround input
      → Holds IsGround (apply_map self callable name input)
  unfolding apply_map
  apply_map-IsGround name input h =
      map_items-IsGround name input (inner_faultable input) (inner-IsGround input h) ⨾ λ t k.
      held (faultable_if-IsGround (is_faultable input) t k)

  abbrev pub BothGround : Ty × Ty → Type 0
  BothGround (s, t) = IsGround s × IsGround t

  fault_map_types-Ground :
      (name : Text) (output : Ty)
      → IsGround output
      → Holds BothGround (fault_map_types self callable name output)
  fault_map_types-Ground name (faultable t) h = held (h, tt)
  fault_map_types-Ground name _ h = errs

  pub apply_fault_map-Ground :
      (name : Text) (input : Ty)
      → IsGround input
      → Holds BothGround (apply_fault_map self callable name input)
  unfolding apply_fault_map
  apply_fault_map-Ground name input h =
      item_of-IsGround name input (inner_faultable input) (inner-IsGround input h) ⨾ λ item k.
      apply_node-IsGround self sound callable name item true true k ⨾ λ output g.
      fault_map_types-Ground name output g

  pub apply_filter-IsGround :
      (name : Text) (input : Ty)
      → IsGround input
      → Holds IsGround (apply_filter self callable name input)
  unfolding apply_filter
  apply_filter-IsGround name input h =
      Holds-any (item_of name input (inner_faultable input)) ⨾ λ item _.
      Holds-any (apply_node self callable name item true false) ⨾ λ output _.
      expecting name output bool
        (held (faultable_if-IsGround (is_faultable input) _ (inner-IsGround input h)))

  pub apply_repeat-IsGround :
      (name : Text) (input : Ty)
      → IsGround input
      → Holds IsGround (apply_repeat self callable name input)
  unfolding apply_repeat
  apply_repeat-IsGround name input h =
      apply_node-IsGround self sound callable name input true false h ⨾ λ output g.
      expecting name output input (held g)

  pub apply_reduce-IsGround :
      (name : Text) (input identity : Ty)
      → IsGround input
      → Holds IsGround (apply_reduce self callable name input identity)
  unfolding apply_reduce
  apply_reduce-IsGround name input identity h =
      item_of-IsGround name input (inner_faultable input) (inner-IsGround input h) ⨾ λ item k.
      some_or-Holds (get name self.symbols) _ ⨾ λ info e. after_refuse _ _ (
        after_refuse _ _ (
          Holds-any (first_reduce name info.reduce_signatures (pair item) none) ⨾ λ r _.
          Holds-any (reduce_result name (pair item) r) ⨾ λ output _.
          Holds-any (operation_faultable name (inner_faultable item) output) ⨾ λ faulty _.
          expecting name identity (inner_faultable item) (
            after_refuse _ _
              (held (faultable_if-IsGround _ (inner_faultable item) (inner-IsGround item k))))))
    where
      pair : Ty → Ty
      pair item = tuple (cons (inner_faultable item) (cons (inner_faultable item) nil))

  pub apply_scan-IsGround :
      (name : Text) (input identity : Ty)
      → IsGround input
      → Holds IsGround (apply_scan self callable name input identity)
  unfolding apply_scan
  apply_scan-IsGround name input identity h =
      item_of-IsGround name input (inner_faultable input) (inner-IsGround input h) ⨾ λ item k.
      expecting name identity (inner_faultable item) (
        Holds-any (apply_node self callable name (pair item) true false) ⨾ λ result _.
        Holds-any (operation_faultable name (inner_faultable item) result) ⨾ λ faulty _.
        after_refuse _ _ (
          held (
            faultable_if-IsGround (is_faultable input)
              (seq (faultable_if (is_faultable item || faulty) (inner_faultable item)))
              (faultable_if-IsGround (is_faultable item || faulty) (inner_faultable item)
                (inner-IsGround item k)))))
    where
      pair : Ty → Ty
      pair item = tuple (cons (inner_faultable item) (cons (inner_faultable item) nil))
