-- ===== src/Typecheck/Ground/Endpoint.antt =====
-- The type of a value is ground.
use flow_arrow.Prelude.{
  ℕ, false, ◌≡◌, refl, Option, none, some, Text, ok, err, panic, out_of_fuel, ◌>>=◌, ◌>>◌, Holds,
  held, errs, panics, stops, ◌⨾◌, Holds-if, Holds-any, Holds-weaken,
}
use flow_arrow.Types.{
  Ty, Fields, TyResult, i64, struct, empty_seq, ty_eq, faultable_of, sequence_item_type,
}
use flow_arrow.Types.Substitute.{Vars, lookup}
use flow_arrow.Types.Match.{common_of, common_assignable_type, assignable_type}
use flow_arrow.Ast.{
  Endpoint, Endpoints, Stage, Stages, no_stages, MatchArms, no_arms, arm, MatchTarget, Callable,
}
use flow_arrow.Typecheck.{Checker, Check, in_type, item_mismatch}
use flow_arrow.Typecheck.Endpoint.{
  endpoint_type, endpoint_types, item_type, inline_eval_type, inline_stage_type, arms_type,
  guard_type, target_type, next_item_type, next_arm_type, seq_type, around_fields, around_arms,
  with_result, inline_callable, struct_of, is_empty_arms, apply_match,
}
use flow_arrow.Typecheck.Ground.{IsGround, AreGround, FieldsGround, GroundVars, lookup-IsGround}
use flow_arrow.Typecheck.Ground.Nodes.{
  IsSound, some_or-Holds, map_err-Holds, after_refuse, apply_node-IsGround,
}
use flow_arrow.Typecheck.Ground.Stages.{
  apply_field-IsGround, apply_map-IsGround, apply_filter-IsGround, apply_repeat-IsGround,
  apply_reduce-IsGround, apply_scan-IsGround, expecting,
}

abbrev pub MaybeGround : Option Ty → Type 0
MaybeGround none = Unit
MaybeGround (some t) = IsGround t

sequence_item-IsGround :
    (l r : Ty) → IsGround l → IsGround r → Holds IsGround (sequence_item_type l r)
unfolding sequence_item_type
sequence_item-IsGround l r hl hr =
    Holds-if (ty_eq l r) (λ _. held hl)
      λ _.
        Holds-if (ty_eq l empty_seq) (λ _. held hr)
          λ _.
            Holds-if (ty_eq r empty_seq) (λ _. held hl)
              λ _.
                Holds-if (faultable_of l r) (λ _. held hl)
                  λ _. Holds-if (faultable_of r l) (λ _. held hr) λ _. errs

next_item-IsGround :
    (item : Option Ty) (t : Ty)
    → MaybeGround item
    → IsGround t
    → Holds IsGround (next_item_type item t)
unfolding next_item_type
next_item-IsGround none t g h = held h
next_item-IsGround (some u) t g h = map_err-Holds item_mismatch (sequence_item-IsGround u t g h)

seq_type-IsGround : (item : Option Ty) → MaybeGround item → IsGround (seq_type item)
seq_type-IsGround none h = tt
seq_type-IsGround (some t) h = h

common-IsGround :
    (r s : TyResult (Unit {0})) (label : Text) (current next : Ty)
    → IsGround current
    → IsGround next
    → Holds IsGround (common_of r s label current next)
common-IsGround (ok _) s label c n hc hn = held hc
common-IsGround (err _) (ok _) label c n hc hn = held hn
common-IsGround (err _) (err _) label c n hc hn = errs
common-IsGround (err _) panic label c n hc hn = errs
common-IsGround (err _) out_of_fuel label c n hc hn = errs
common-IsGround panic (ok _) label c n hc hn = held hn
common-IsGround panic (err _) label c n hc hn = errs
common-IsGround panic panic label c n hc hn = errs
common-IsGround panic out_of_fuel label c n hc hn = errs
common-IsGround out_of_fuel (ok _) label c n hc hn = held hn
common-IsGround out_of_fuel (err _) label c n hc hn = errs
common-IsGround out_of_fuel panic label c n hc hn = errs
common-IsGround out_of_fuel out_of_fuel label c n hc hn = errs

next_arm-IsGround :
    (result : Option Ty) (target : MatchTarget) (t : Ty)
    → MaybeGround result
    → IsGround t
    → Holds IsGround (next_arm_type result target t)
unfolding next_arm_type common_assignable_type
next_arm-IsGround none target t g h = held h
next_arm-IsGround (some u) target t g h =
    map_err-Holds in_type (common-IsGround (assignable_type u t) (assignable_type t u) _ u t g h)

pub around_arms-IsGround :
    (arms : MatchArms) (r : Check (Option Ty))
    → Holds MaybeGround r
    → Holds IsGround (around_arms arms (r >>= λ result. ok (tt {0}, result)) >>= λ x. ok x.1)
unfolding around_arms
around_arms-IsGround arms r h =
    around (r >>= λ result. ok (tt {0}, result)) (h ⨾ λ o k. held k) ⨾ λ x k. held k
  where
    present :
        (x : Unit {0} × Option Ty)
        → MaybeGround x.1
        → Holds (λ (x : Unit {0} × Ty). IsGround x.1) (with_result x)
    present (u, some t) g = held g
    present (u, none) g = errs

    around :
        (s : Check (Unit {0} × Option Ty))
        → Holds (λ (x : Unit {0} × Option Ty). MaybeGround x.1) s
        → Holds (λ (x : Unit {0} × Ty). IsGround x.1) (around_arms arms s)
    around s k = after_refuse _ _ (after_refuse _ _ (k ⨾ λ x g. present x g))

after_guard :
    {A : Type 0} {P : A → Type 0} (r : Check (Unit {0})) {s : Check A}
    → Holds P s
    → Holds P (r >> s)
after_guard r h = Holds-any r ⨾ λ _ _. h

module _ (self : Checker) (sound : IsSound self) where
  struct_of-Ground :
      (name : Text)
      → Holds (λ (x : Text × Fields). FieldsGround x.1) (struct_of name (lookup name self.types))
  struct_of-Ground name = go (lookup name self.types) refl
    where
      go :
          (o : Option Ty)
          → lookup name self.types ≡ o
          → Holds (λ (x : Text × Fields). FieldsGround x.1) (struct_of name o)
      go (some (struct s fs)) e = held (sound.structs name s fs e)
      go _ e = errs

  around_fields-IsGround :
      (name : Text) (count : ℕ) (loop : Fields → Check (Unit {0}))
      → Holds IsGround (around_fields self name count loop)
  unfolding around_fields
  around_fields-IsGround name count loop =
      struct_of-Ground name ⨾ λ x g. after_refuse _ _ (finish (loop x.1) x g)
    where
      finish :
          (r : Check (Unit {0})) (x : Text × Fields)
          → FieldsGround x.1
          → Holds IsGround (r >> ok (struct x.0 x.1))
      finish (ok _) x g = held g
      finish (err _) x g = errs
      finish panic x g = panics
      finish out_of_fuel x g = stops

  module _ (env : Vars) (g : GroundVars env) where
    mutual
      unfolding endpoint_type

      pub endpoint_type-IsGround : (e : Endpoint) → Holds IsGround (endpoint_type self env e)
      endpoint_type-IsGround (Endpoint.variable name) =
          Holds-weaken (λ t e. lookup-IsGround name env t g e) (some_or-Holds (lookup name env) _)
      endpoint_type-IsGround (Endpoint.name name) = errs
      endpoint_type-IsGround (Endpoint.int n) = held tt
      endpoint_type-IsGround (Endpoint.real r) = held tt
      endpoint_type-IsGround (Endpoint.real_f32 r) = held tt
      endpoint_type-IsGround (Endpoint.bool b) = held tt
      endpoint_type-IsGround (Endpoint.string s) = held tt
      endpoint_type-IsGround Endpoint.unit = held tt
      endpoint_type-IsGround (Endpoint.tuple items) = endpoint_types-Ground items ⨾ λ ts h. held h
      endpoint_type-IsGround (Endpoint.seq items) =
          item_type-Ground none items tt ⨾ λ o h. held (seq_type-IsGround o h)
      endpoint_type-IsGround (Endpoint.struct name fs) = around_fields-IsGround name _ _
      endpoint_type-IsGround (Endpoint.eval source ss) =
          endpoint_type-IsGround source ⨾ λ t h. inline_eval-IsGround t ss h

      endpoint_types-Ground : (items : Endpoints) → Holds AreGround (endpoint_types self env items)
      endpoint_types-Ground Endpoints.nil = held tt
      endpoint_types-Ground (Endpoints.cons e items) =
          endpoint_type-IsGround e ⨾ λ t h. endpoint_types-Ground items ⨾ λ ts hs. held (h, hs)

      item_type-Ground :
          (item : Option Ty) (items : Endpoints)
          → MaybeGround item
          → Holds MaybeGround (item_type self env item items)
      item_type-Ground item Endpoints.nil h = held h
      item_type-Ground item (Endpoints.cons e items) h = endpoint_type-IsGround e ⨾ λ t k.
          next_item-IsGround item t h k ⨾ λ next n. item_type-Ground (some next) items n

      inline_eval-IsGround :
          (t : Ty) (ss : Stages) → IsGround t → Holds IsGround (inline_eval_type self env t ss)
      inline_eval-IsGround t no_stages h = held h
      inline_eval-IsGround t (Stages.stage s ss) h =
          inline_stage-IsGround t s h ⨾ λ t' k. inline_eval-IsGround t' ss k

      inline_stage-IsGround :
          (t : Ty) (s : Stage) → IsGround t → Holds IsGround (inline_stage_type self env t s)
      inline_stage-IsGround t (Stage.endpoint (Endpoint.name name)) h =
          apply_node-IsGround self sound inline_callable name t false false h
      inline_stage-IsGround t (Stage.endpoint _) h = errs
      inline_stage-IsGround t (Stage.bind _) h = errs
      inline_stage-IsGround t (Stage.map name) h =
          apply_map-IsGround self sound inline_callable name t h
      inline_stage-IsGround t (Stage.fault_map _ _ _) h = errs
      inline_stage-IsGround t (Stage.filter name) h =
          apply_filter-IsGround self sound inline_callable name t h
      inline_stage-IsGround t (Stage.field name) h = apply_field-IsGround name t h
      inline_stage-IsGround t (Stage.repeat count name) h = endpoint_type-IsGround count ⨾ λ c _.
          expecting _ c i64 (apply_repeat-IsGround self sound inline_callable name t h)
      inline_stage-IsGround t (Stage.reduce op identity) h =
          endpoint_type-IsGround identity ⨾ λ i _.
          apply_reduce-IsGround self sound inline_callable op t i h
      inline_stage-IsGround t (Stage.scan op identity) h = endpoint_type-IsGround identity ⨾ λ i _.
          apply_scan-IsGround self sound inline_callable op t i h
      inline_stage-IsGround t (Stage.match_arms arms) h =
          around_arms-IsGround arms _ (arms_type-Ground inline_callable t none arms h tt)

      arms_type-Ground :
          (callable : Callable) (input : Ty) (result : Option Ty) (arms : MatchArms)
          → IsGround input
          → MaybeGround result
          → Holds MaybeGround (arms_type self env callable input result arms)
      arms_type-Ground callable input result no_arms h k = held k
      arms_type-Ground callable input result (arm guard target arms) h k =
          after_guard (guard_type self env callable input (is_empty_arms arms) guard) (
            target_type-IsGround callable input target h ⨾ λ t p.
            next_arm-IsGround result target t k p ⨾ λ next n.
            arms_type-Ground callable input (some next) arms h n)

      target_type-IsGround :
          (callable : Callable) (input : Ty) (target : MatchTarget)
          → IsGround input
          → Holds IsGround (target_type self env callable input target)
      target_type-IsGround callable input (MatchTarget.node name) h =
          apply_node-IsGround self sound callable name input false false h
      target_type-IsGround callable input (MatchTarget.value e) h = endpoint_type-IsGround e

    pub apply_match-IsGround :
        (callable : Callable) (arms : MatchArms) (input : Ty)
        → IsGround input
        → Holds IsGround (apply_match self env callable arms input)
    unfolding apply_match
    apply_match-IsGround callable arms input h =
        around_arms-IsGround arms _ (arms_type-Ground callable input none arms h tt)
