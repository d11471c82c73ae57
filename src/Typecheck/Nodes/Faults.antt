-- ===== src/Typecheck/Nodes/Faults.antt =====
-- `Faultable` values in the input of a node that does not ask for them.
use flow_arrow.Prelude.{
  Bool, true, false, ◌≡◌, refl, Option, none, List, [], ◌∷◌, Text, codes, text_eq, All, Holds, held,
  errs, Holds-any, Holds-ok, Holds-if, ◌⨾◌, ok,
}
use flow_arrow.Types.{Ty, Signature, TypeError, faultable, contains_faultable, strip_faultable}
use flow_arrow.Ast.{Callable}
use flow_arrow.Typecheck.{CallableInfo, Checker}
use flow_arrow.Typecheck.Nodes.{
  Search, found, missed, first_match, takes_faultable, wrap_output, wrap_found, stripped_pass,
  search_result, output_type, resolve_node, apply_node,
}
use flow_arrow.Typecheck.Apply.{is_faultable}
use flow_arrow.Typecheck.Ground.Nodes.{after_refuse}

-- No signature has a `Faultable` type in its input.
abbrev pub IsPlainNode : CallableInfo → Type 0
IsPlainNode info = All (λ s. takes_faultable s ≡ false) info.signatures

abbrev Faulty : Search → Type 0
Faulty (found t) = is_faultable t ≡ true
Faulty (missed _) = Unit

first_match-none :
    (name : Text) (signatures : List Signature) (input : Ty) (last : Option TypeError)
    → All (λ s. takes_faultable s ≡ false) signatures
    → first_match name takes_faultable signatures input last ≡ ok (missed last)
unfolding first_match
first_match-none name [] input last h = refl
first_match-none name (s ∷ signatures) input last (h, hs) =
    rw h (first_match-none name signatures input last hs)

wrap_output-faultable : (t : Ty) → is_faultable (wrap_output true t) ≡ true
wrap_output-faultable (faultable _) = refl
wrap_output-faultable t = refl

wrap_found-Faulty : (r : Search) → Faulty (wrap_found true r)
wrap_found-Faulty (found t) = wrap_output-faultable t
wrap_found-Faulty (missed _) = tt

search_result-faultable :
    (name : Text) (input : Ty) (r : Search)
    → Faulty r
    → Holds (λ t. is_faultable t ≡ true) (search_result name input r)
search_result-faultable name input (found t) h = held h
search_result-faultable name input (missed _) h = errs

stripped_pass-Faulty :
    (name : Text) (info : CallableInfo) (input : Ty) (last : Option TypeError)
    → contains_faultable input ≡ true
    → Holds Faulty (stripped_pass name info input (missed last))
unfolding stripped_pass
stripped_pass-Faulty name info input last h =
    Holds-if (text_eq info.runtime_name (codes "collect")) (λ _. held tt)
      λ _.
        Holds-any (first_match name (λ _. true) info.signatures (strip_faultable input) last)
        ⨾ λ r _. held (rw h (wrap_found-Faulty r))

output_type-faultable :
    (name : Text) (info : CallableInfo) (input : Ty)
    → IsPlainNode info
    → contains_faultable input ≡ true
    → Holds (λ t. is_faultable t ≡ true) (output_type name info input)
unfolding output_type
output_type-faultable name info input h f =
    rw (first_match-none name info.signatures input none h)
      (stripped_pass-Faulty name info input none f ⨾ λ r k. search_result-faultable name input r k)

-- A fault is never lost: where a node none of whose signatures has a `Faultable` in its input is applied to a
-- type that has one somewhere, the output is `Faultable`.
pub apply_node-faultable :
    (self : Checker) (callable : Callable) (name : Text) (input : Ty) (as_function allows : Bool)
    (info : CallableInfo) (t : Ty)
    → resolve_node self callable name ≡ ok info
    → IsPlainNode info
    → contains_faultable input ≡ true
    → apply_node self callable name input as_function allows ≡ ok t
    → is_faultable t ≡ true
unfolding apply_node
apply_node-faultable self callable name input as_function allows info t e h f a = Holds-ok applied a
  where
    applied :
        Holds (λ t. is_faultable t ≡ true) (apply_node self callable name input as_function allows)
    applied = rw e (
        after_refuse _ _ (
          after_refuse _ _
            (after_refuse _ _ (after_refuse _ _ (output_type-faultable name info input h f)))))
