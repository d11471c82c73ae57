-- ===== src/Typecheck/Ground/Nodes.antt =====
-- The types that declared ports have, and that the nodes give to ground types, are ground.
use flow_arrow.Prelude.{
  Bool, true, false, ◌≡◌, refl, Option, none, some, List, [], ◌∷◌, Text, text_eq, All, ok, err,
  panic, out_of_fuel, ◌>>=◌, ◌>>◌, Holds, held, errs, panics, stops, ◌⨾◌, Holds-if, Holds-any,
  Holds-weaken, codes, if◌then◌else◌,
}
use flow_arrow.Types.{
  Ty, Types, Fields, Signature, TypeError, TyResult, stream, faultable, seq, tuple, one_of, struct,
  var, nil, cons, end, field, contains_faultable, strip_faultable,
}
use flow_arrow.Types.Substitute.{Vars, lookup}
use flow_arrow.Types.Syntax.{parse_type}
use flow_arrow.Types.Match.{match_types}
use flow_arrow.Types.Match.Plain.{NoUnion, NoUnions, NoFieldUnion}
use flow_arrow.Ast.{NodeParam, Callable}
use flow_arrow.NodeRef.{StaticNodeRef, parse_static_node_ref}
use flow_arrow.Typecheck.{
  CheckError, in_type, CallableInfo, Checker, Check, get, some_or, map_err, refuse, is_nil,
}
use flow_arrow.Typecheck.Declare.{
  any_value, resolve_declared_type, validate_declared_type, validate_items, validate_fields,
  parse_declared_type, param_signature,
}
use flow_arrow.Typecheck.Nodes.{
  Search, found, missed, input_context, output_of, first_match, takes_faultable, wrap_output,
  wrap_found, stripped_pass, search_result, output_type, find_param, param_info, resolve_symbol,
  resolve_node, apply_node, validate_static_node_args,
}
use flow_arrow.Typecheck.Ground.{
  IsGround, AreGround, FieldsGround, GroundVars, strip-IsGround, substitute-IsGround,
}
use flow_arrow.Typecheck.Ground.Match.{match_types-Ground}

mutual
  pub IsGround-NoUnion : (t : Ty) → IsGround t → NoUnion t
  IsGround-NoUnion (stream t) h = IsGround-NoUnion t h
  IsGround-NoUnion (faultable t) h = IsGround-NoUnion t h
  IsGround-NoUnion (seq t) h = IsGround-NoUnion t h
  IsGround-NoUnion (tuple ts) h = AreGround-NoUnions ts h
  IsGround-NoUnion (struct _ fs) h = FieldsGround-NoFieldUnion fs h
  IsGround-NoUnion (one_of _) h = absurd h
  IsGround-NoUnion _ h = tt

  AreGround-NoUnions : (ts : Types) → AreGround ts → NoUnions ts
  AreGround-NoUnions nil h = tt
  AreGround-NoUnions (cons t ts) (h, hs) = (IsGround-NoUnion t h, AreGround-NoUnions ts hs)

  FieldsGround-NoFieldUnion : (fs : Fields) → FieldsGround fs → NoFieldUnion fs
  FieldsGround-NoFieldUnion end h = tt
  FieldsGround-NoFieldUnion (field _ t fs) (h, hs) =
      (IsGround-NoUnion t h, FieldsGround-NoFieldUnion fs hs)

pub some_or-Holds :
    {A : Type 0} (o : Option A) (e : CheckError) → Holds (λ a. o ≡ some a) (some_or o e)
some_or-Holds (some a) e = held refl
some_or-Holds none e = errs

pub map_err-Holds :
    {A : Type 0} {P : A → Type 0} (f : TypeError → CheckError) {r : TyResult A}
    → Holds P r
    → Holds P (map_err f r)
map_err-Holds f (held h) = held h
map_err-Holds f errs = errs
map_err-Holds f panics = panics
map_err-Holds f stops = stops

pub refuse-Holds :
    (test : Bool) (e : CheckError) → Holds (λ (_ : Unit {0}). test ≡ false) (refuse test e)
unfolding refuse
refuse-Holds true e = errs
refuse-Holds false e = held refl

pub after_refuse :
    {A : Type 0} {P : A → Type 0} (test : Bool) (e : CheckError) {r : Check A}
    → Holds P r
    → Holds P (refuse test e >> r)
unfolding refuse
after_refuse true e h = errs
after_refuse false e h = h

-- A type that is accepted as the type of a port is ground.
module _ (types : Vars) where
  mutual
    unfolding validate_declared_type

    pub validate-IsGround : (t : Ty) → Holds (λ _. IsGround t) (validate_declared_type types t)
    validate-IsGround (faultable t) = validate-IsGround t
    validate-IsGround (seq t) = validate-IsGround t
    validate-IsGround (stream t) = after_refuse _ _ (validate-IsGround t)
    validate-IsGround (one_of ts) = errs
    validate-IsGround (tuple ts) = validate-AreGround ts
    validate-IsGround (struct _ fs) = validate-FieldsGround fs
    validate-IsGround (var _) = errs
    validate-IsGround t = Holds-if (any_value _ types) (λ _. held tt) (λ _. errs)

    validate-AreGround : (ts : Types) → Holds (λ _. AreGround ts) (validate_items types ts)
    validate-AreGround nil = held tt
    validate-AreGround (cons t ts) =
        validate-IsGround t ⨾ λ _ h. Holds-weaken (λ _ k. (h, k)) (validate-AreGround ts)

    validate-FieldsGround : (fs : Fields) → Holds (λ _. FieldsGround fs) (validate_fields types fs)
    validate-FieldsGround end = held tt
    validate-FieldsGround (field _ t fs) =
        validate-IsGround t ⨾ λ _ h. Holds-weaken (λ _ k. (h, k)) (validate-FieldsGround fs)

  validated :
      (t : Ty) (r : Check (Unit {0})) → Holds (λ _. IsGround t) r → Holds IsGround (r >> ok t)
  validated t (ok _) (held h) = held h
  validated t (err _) h = errs
  validated t panic h = panics
  validated t out_of_fuel h = stops

  pub parse_declared_type-IsGround : (text : Text) → Holds IsGround (parse_declared_type types text)
  unfolding parse_declared_type
  parse_declared_type-IsGround text = Holds-any (map_err in_type (parse_type text)) ⨾ λ parsed _.
      Holds-any (resolve_declared_type types parsed) ⨾ λ t _.
      validated t (validate_declared_type types t) (validate-IsGround t)

abbrev pub HasOutput : Signature → Type 0
HasOutput s = NoUnion s.output

abbrev pub FoundGround : Search → Type 0
FoundGround (found t) = IsGround t
FoundGround (missed _) = Unit

output_of-IsGround :
    (name : Text) (s : Signature) (input : Ty) (vars : Vars)
    → HasOutput s
    → GroundVars vars
    → Holds IsGround (output_of name s input vars)
unfolding output_of
output_of-IsGround name s input vars u g = Holds-any (input_context s input vars) ⨾ λ _ _.
    Holds-weaken (λ t e. substitute-IsGround s.output vars t u g e) (some_or-Holds _ _)

first_match-Ground :
    (name : Text) (tries : Signature → Bool) (signatures : List Signature) (input : Ty)
    (last : Option TypeError)
    → All HasOutput signatures
    → IsGround input
    → Holds FoundGround (first_match name tries signatures input last)
unfolding first_match
first_match-Ground name tries [] input last u p = held tt
first_match-Ground name tries (s ∷ signatures) input last (u, us) p =
    Holds-if (tries s)
      (λ _.
        go (match_types s.input input []) (match_types-Ground s.input input [] p tt)
          (λ e. first_match-Ground name tries signatures input e us p))
      (λ _. first_match-Ground name tries signatures input last us p)
  where
    go :
        (r : TyResult Vars)
        → Holds GroundVars r
        → ((e : Option TypeError) → Holds FoundGround (first_match name tries signatures input e))
        → Holds FoundGround (elim r [
          | ok vars ↦ output_of name s input vars >>= (λ t. ok (found t))
          | err e ↦ first_match name tries signatures input (some e)
          | panic ↦ panic
          | out_of_fuel ↦ out_of_fuel
        ])
    go (ok vars) (held g) k = output_of-IsGround name s input vars u g ⨾ λ t h. held h
    go (err e) g k = k (some e)
    go panic g k = panics
    go out_of_fuel g k = stops

wrap_output-IsGround : (faulty : Bool) (t : Ty) → IsGround t → IsGround (wrap_output faulty t)
wrap_output-IsGround true (faultable t) h = h
wrap_output-IsGround true t h = h
wrap_output-IsGround false t h = h

wrap_found-Ground : (faulty : Bool) (r : Search) → FoundGround r → FoundGround (wrap_found faulty r)
wrap_found-Ground faulty (found t) h = wrap_output-IsGround faulty t h
wrap_found-Ground faulty (missed _) h = tt

stripped_pass-Ground :
    (name : Text) (info : CallableInfo) (input : Ty) (r : Search)
    → All HasOutput info.signatures
    → IsGround input
    → FoundGround r
    → Holds FoundGround (stripped_pass name info input r)
unfolding stripped_pass
stripped_pass-Ground name info input (found t) u p g = held g
stripped_pass-Ground name info input (missed last) u p g =
    Holds-if (text_eq info.runtime_name (codes "collect")) (λ _. held tt)
      (λ _.
        first_match-Ground name (λ _. true) info.signatures (strip_faultable input) last u
          (strip-IsGround input p)
        ⨾ λ r h. held (wrap_found-Ground (contains_faultable input) r h))

search_result-IsGround :
    (name : Text) (input : Ty) (r : Search)
    → FoundGround r
    → Holds IsGround (search_result name input r)
search_result-IsGround name input (found t) g = held g
search_result-IsGround name input (missed _) g = errs

pub output_type-IsGround :
    (name : Text) (info : CallableInfo) (input : Ty)
    → All HasOutput info.signatures
    → IsGround input
    → Holds IsGround (output_type name info input)
unfolding output_type
output_type-IsGround name info input u p =
    first_match-Ground name takes_faultable info.signatures input none u p ⨾ λ r g.
    stripped_pass-Ground name info input r u p g ⨾ λ r' g'. search_result-IsGround name input r' g'

-- What the checker knows of its symbols and types: no output is a union, and the fields of a struct
-- have ground types.
abbrev pub HasOutputs : CallableInfo → Type 0
HasOutputs info = All HasOutput info.signatures × All HasOutput info.reduce_signatures

pub record IsSound (self : Checker) : Type 0 where
  pub outputs :
      (name : Text) (info : CallableInfo) → get name self.symbols ≡ some info → HasOutputs info
  pub structs :
      (name s : Text) (fs : Fields) → lookup name self.types ≡ some (struct s fs) → FieldsGround fs

module _ (self : Checker) (sound : IsSound self) where
  signature-HasOutput : (param : NodeParam) → Holds HasOutput (param_signature self.types param)
  unfolding param_signature
  signature-HasOutput param = Holds-any (parse_declared_type self.types param.input) ⨾ λ i _.
      parse_declared_type-IsGround self.types param.output ⨾ λ o h. held (IsGround-NoUnion o h)

  param_info-HasOutputs : (param : NodeParam) → Holds HasOutputs (param_info self param)
  unfolding param_info
  param_info-HasOutputs param = signature-HasOutput param ⨾ λ s h. held ((h, tt), tt)

  resolve_symbol-HasOutputs :
      (callable : Callable) (name : Text) (node_ref : StaticNodeRef)
      → Holds HasOutputs (resolve_symbol self callable name node_ref)
  unfolding resolve_symbol
  resolve_symbol-HasOutputs callable name node_ref =
      some_or-Holds (get node_ref.base self.symbols) _ ⨾ λ info e.
      Holds-if (is_nil node_ref.args)
        (λ _. after_refuse _ _ (held (sound.outputs node_ref.base info e)))
        (λ _. Holds-any (validate_static_node_args self callable node_ref info) ⨾ λ _ _.
          held (sound.outputs node_ref.base info e))

  resolve_node-HasOutputs :
      (callable : Callable) (name : Text) → Holds HasOutputs (resolve_node self callable name)
  unfolding resolve_node
  resolve_node-HasOutputs callable name = go (
      if is_nil (parse_static_node_ref name).args
      then find_param (parse_static_node_ref name).base callable.node_params
      else none)
    where
      go :
          (o : Option NodeParam)
          → Holds HasOutputs (elim o [
            | some param ↦ param_info self param
            | none ↦ resolve_symbol self callable name (parse_static_node_ref name)
          ])
      go (some param) = param_info-HasOutputs param
      go none = resolve_symbol-HasOutputs callable name (parse_static_node_ref name)

  -- The output of a node for a ground input is ground.
  pub apply_node-IsGround :
      (callable : Callable) (name : Text) (input : Ty) (as_function allows : Bool)
      → IsGround input
      → Holds IsGround (apply_node self callable name input as_function allows)
  unfolding apply_node
  apply_node-IsGround callable name input as_function allows p =
      resolve_node-HasOutputs callable name ⨾ λ info u. after_refuse _ _ (
        after_refuse _ _
          (after_refuse _ _ (after_refuse _ _ (output_type-IsGround name info input u.0 p))))
