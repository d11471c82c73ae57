-- ===== src/Typecheck/Agree/Endpoint.antt =====
-- A value has a typed tree exactly when it has a type.
use flow_arrow.Prelude.{
  ℕ, ◌==◌, not, Bool, false, ◌≡◌, ◌↔◌, ◌∙◌, refl, ◌∷◌, ap, ap₂, subst, Option, none, some, List, [],
  Text, codes, ok, err, panic, out_of_fuel, ◌>>=◌, ◌>>◌, >>=-eq-ok, Bool-cases, inl, inr,
}
use flow_arrow.Types.{Ty, Types, Fields, cons, i64, length_fields}
use flow_arrow.Types.Substitute.{Vars, lookup}
use flow_arrow.Ast.{
  Endpoint, Endpoints, FieldValues, no_fields, field_value, Stage, Stages, no_stages, MatchArms,
  no_arms, arm, MatchGuard, MatchTarget, Callable,
}
use flow_arrow.Typecheck.{Checker, Check, refuse, refuse-eq-ok, some_or, no_field, repeated_field}
use flow_arrow.Typecheck.Apply.{field_type, expect_type, expect_assignable_type, apply_repeat}
use flow_arrow.Typecheck.Endpoint.{
  endpoint_type, endpoint_types, item_type, literal_fields, inline_eval_type, inline_stage_type,
  arms_type, guard_type, target_type, next_item_type, seq_type, around_fields, around_arms,
  length_values, inline_callable, struct_of, is_empty_arms, ends_in_fallback, seen, with_result,
}
use flow_arrow.Typecheck.Typed.{
  TypedEndpoint, TypedEndpoints, TypedFields, TypedStages, TypedStage, Bound, type_endpoint,
  type_endpoints, type_fields, type_inline_stages, type_stage, type_arms, type_guard, type_target,
  type_of, types_of, last_output, fold_item_types, field_of, seq, done, stage, more, inline_guard,
  TypedTarget, typed_stage, typed_endpoint, eval, end,
}
use flow_arrow.Typecheck.Agree.{
  Agree, both, neither, Fails, Fails-left, Agree-ok, Agree-err, Agree-first, Agree-second,
  Agree-bind, Agree-after, Agree-map, Agree-bind-map, Agree-guarded, Agree-extra, Agree-last,
  Agree-then,
}

abbrev pub HasType : TypedEndpoint → Ty → Type 0
HasType e t = type_of e ≡ t

abbrev pub HaveTypes : TypedEndpoints → Types → Type 0
HaveTypes es ts = types_of es ≡ ts

-- The output of a stage that leaves the values as they are.
abbrev pub Outputs : Ty → Bound → TypedStage × Bound → Ty → Type 0
Outputs t bound (s, bound') t' = (last_output t (stage s done) ≡ t') × (bound' ≡ bound)

abbrev pub Ends : Ty → TypedStages → Ty → Type 0
Ends t ss t' = last_output t ss ≡ t'

abbrev pub SameResult : {A : Type 0} → A × Option Ty → Option Ty → Type 0
SameResult r result = r.1 ≡ result

last_output_stage :
    (t : Ty) (s : TypedStage) (ss : TypedStages)
    → last_output t (stage s ss) ≡ last_output (last_output t (stage s done)) ss
last_output_stage t (typed_stage _ _ _ _) ss = refl

-- The items of a sequence, of which the first is typed and the next item type is known.
module _ {C : Type 0} (first : TypedEndpoint) (item : Option Ty)
    (f : TypedEndpoints → Option Ty → C) where
  abbrev Folded : Check TypedEndpoints → Check C
  Folded es = (es >>= λ es. ok (more first es)) >>= λ es.
      fold_item_types item (types_of es) >>= λ it. ok (f es it)

  no_next :
      (es : Check TypedEndpoints) (n : Check Ty)
      → next_item_type item (type_of first) ≡ n
      → Fails n
      → Fails (Folded es)
  unfolding fold_item_types
  no_next (ok es) n e h = rw e (Fails-left _ _ (Fails-left n _ h))
  no_next (err _) n e h = λ c k. cc
  no_next panic n e h = λ c k. cc
  no_next out_of_fuel n e h = λ c k. cc

  module _ {D : Type 0} {Q : C → D → Type 0} (g : Option Ty → D)
      (next : Ty → Check (Option Ty)) where
    items_step :
        (es : Check TypedEndpoints) (n : Check Ty)
        → next_item_type item (type_of first) ≡ n
        → ((t : Ty)
            → Agree Q
                (es >>= λ es.
                  fold_item_types (some t) (types_of es) >>= λ it. ok (f (more first es) it))
                (next t >>= λ it. ok (g it)))
        → Agree Q (Folded es) ((n >>= next) >>= λ it. ok (g it))
    unfolding fold_item_types
    items_step (ok es) (ok t) e k = rw e (k t)
    items_step (err _) (ok t) e k = k t
    items_step panic (ok t) e k = k t
    items_step out_of_fuel (ok t) e k = k t
    items_step es (err x) e k = neither (no_next es (err x) e (λ a h. cc)) (λ c h. cc)
    items_step es panic e k = neither (no_next es panic e (λ a h. cc)) (λ c h. cc)
    items_step es out_of_fuel e k = neither (no_next es out_of_fuel e (λ a h. cc)) (λ c h. cc)

items_after :
    {C D : Type 0} {Q : C → D → Type 0} (item : Option Ty) (f : TypedEndpoints → Option Ty → C)
    (g : Option Ty → D) (next : Ty → Check (Option Ty)) (e : Check TypedEndpoint) (t : Check Ty)
    (es : Check TypedEndpoints)
    → Agree HasType e t
    → ((a : TypedEndpoint) (u : Ty)
        → Agree Q
            (es >>= λ es. fold_item_types (some u) (types_of es) >>= λ it. ok (f (more a es) it))
            (next u >>= λ it. ok (g it)))
    → Agree Q
        ((e >>= λ a. es >>= λ es. ok (more a es)) >>= λ es.
          fold_item_types item (types_of es) >>= λ it. ok (f es it))
        ((t >>= λ u. next_item_type item u >>= next) >>= λ it. ok (g it))
items_after item f g next e t es (both a b p p' h) k =
    rw (p, p', ← h) (items_step a item f g next es (next_item_type item (type_of a)) refl (k a))
items_after item f g next e t es (neither h h') k =
    neither (Fails-left _ _ (Fails-left e _ h)) (Fails-left _ _ (Fails-left t _ h'))

around_fields-ok :
    (self : Checker) (name : Text) (count : ℕ) (loop : Fields → Check (Unit {0})) (t : Ty)
    → around_fields self name count loop ≡ ok t
    → (expected : Fields) × (loop expected ≡ ok tt)
unfolding around_fields
around_fields-ok self name count loop t h =
    let (s, _, h1) = >>=-eq-ok (struct_of name (lookup name self.types)) _ h in
    let (_, h2) = refuse-eq-ok (not (count == length_fields s.1)) _ h1 in
    let (u, e, _) = >>=-eq-ok (loop s.1) (λ _. ok (Ty.struct s.0 s.1)) h2 in (s.1, e)

result_agrees :
    {A : Type 0} (r : Check (A × Option Ty)) (s : Check (Option Ty))
    → Agree SameResult r s
    → Agree
        (λ (x : A × Ty) (t : Ty). x.1 ≡ t)
        (r >>= with_result)
        (((s >>= λ result. ok (tt {0}, result)) >>= with_result) >>= λ x. ok x.1)
result_agrees r s (both (a, none) none e e' h) = rw (e, e') Agree-err
result_agrees r s (both (a, some t) (some t') e e' h) = rw (e, e') (Agree-ok (cc h))
result_agrees r s (both (a, none) (some t') e e' h) = cc h
result_agrees r s (both (a, some t) none e e' h) = cc h
result_agrees r s (neither h h') =
    neither (Fails-left r _ h) (Fails-left _ _ (Fails-left _ _ (Fails-left s _ h')))

pub around_arms-Agree :
    {A : Type 0} (arms : MatchArms) (r : Check (A × Option Ty)) (s : Check (Option Ty))
    → Agree SameResult r s
    → Agree
        (λ (x : A × Ty) (t : Ty). x.1 ≡ t)
        (around_arms arms r)
        (around_arms arms (s >>= λ result. ok (tt {0}, result)) >>= λ r. ok r.1)
unfolding around_arms refuse
around_arms-Agree arms r s h = elim (Bool-cases (is_empty_arms arms)) [
  | inl e ↦ rw e Agree-err
  | inr e ↦ elim (Bool-cases (ends_in_fallback arms)) [
    | inl f ↦ rw (e, f) (result_agrees r s h)
    | inr f ↦ rw (e, f) Agree-err
  ]
]

fields_ok :
    (f : Text) {m : Check TypedEndpoint} {r : Check TypedFields} {e : TypedEndpoint}
    {fs : TypedFields}
    → m ≡ ok e
    → r ≡ ok fs
    → (m >>= λ e. r >>= λ fs. ok (field_of f e fs)) ≡ ok (field_of f e fs)
fields_ok f h k = rw (h, k) refl

module _ (names : List (Text × ℕ)) (self : Checker) where
  -- The stages behind one that leaves the values as they are.
  rest_agrees :
      (bound : Bound) (t : Ty) (ss : Stages)
      → ((b : Bound) (u : Ty)
          → Agree
              (Ends u)
              (type_inline_stages names self b u ss)
              (inline_eval_type self b.env u ss))
      → (x : TypedStage × Bound) (t' : Ty) → Outputs t bound x t'
      → Agree
          (Ends t)
          (type_inline_stages names self x.1 (last_output t (stage x.0 done)) ss >>= λ ss'.
            ok (stage x.0 ss'))
          (inline_eval_type self bound.env t' ss)
  rest_agrees bound t ss ih (s, bound') t' (e, eb) =
      rw (← e, ← eb)
        (Agree-last _ _ _ (ih bound' (last_output t (stage s done)))
          λ ss' u k. last_output_stage t s ss' ∙ k)

  mutual
    unfolding type_endpoint endpoint_type fold_item_types

    pub endpoint_agrees :
        (env : Vars) (e : Endpoint)
        → Agree HasType (type_endpoint names self env e) (endpoint_type self env e)
    endpoint_agrees env (Endpoint.variable name) = Agree-map _ _ λ t. refl
    endpoint_agrees env (Endpoint.name name) = Agree-err
    endpoint_agrees env (Endpoint.int n) = Agree-ok refl
    endpoint_agrees env (Endpoint.real r) = Agree-ok refl
    endpoint_agrees env (Endpoint.real_f32 r) = Agree-ok refl
    endpoint_agrees env (Endpoint.bool b) = Agree-ok refl
    endpoint_agrees env (Endpoint.string s) = Agree-ok refl
    endpoint_agrees env Endpoint.unit = Agree-ok refl
    endpoint_agrees env (Endpoint.tuple items) =
        Agree-bind-map _ _ _ _ (endpoints-Agree env items) λ es ts h. ap Ty.tuple h
    endpoint_agrees env (Endpoint.seq items) = items-Agree env none items (λ es. es)
    endpoint_agrees env (Endpoint.struct name fs) =
        Agree-extra _ _ _
          (λ t h.
            let (expected, k) = around_fields-ok self name (length_values fs) _ t h in
            fields_typed env name expected [] fs k)
          (λ t fs'. refl)
    endpoint_agrees env (Endpoint.eval source ss) =
        Agree-bind _ _ _ _ (endpoint_agrees env source) λ e t h.
          subst
            (λ t.
              Agree HasType
                (type_inline_stages names self (record { env = env; variables = [] }) (type_of e) ss
                  >>= λ ss'. ok (typed_endpoint (last_output (type_of e) ss') (eval e ss')))
                (inline_eval_type self env t ss))
            h
            (Agree-last _ _ _ (inline_agrees (record { env = env; variables = [] }) (type_of e) ss)
              λ ss' t' k. k)

    endpoints-Agree :
        (env : Vars) (items : Endpoints)
        → Agree HaveTypes (type_endpoints names self env items) (endpoint_types self env items)
    endpoints-Agree env Endpoints.nil = Agree-ok refl
    endpoints-Agree env (Endpoints.cons item items) =
        Agree-bind _ _ _ _ (endpoint_agrees env item)
          λ e t h. Agree-bind-map _ _ _ _ (endpoints-Agree env items) λ es ts k. ap₂ cons h k

    -- `read` puts the items that were read in front.
    items-Agree :
        (env : Vars) (item : Option Ty) (items : Endpoints) (read : TypedEndpoints → TypedEndpoints)
        → Agree HasType
            (type_endpoints names self env items >>= λ es.
              fold_item_types item (types_of es) >>= λ it.
              ok (typed_endpoint (seq_type it) (seq (read es))))
            (item_type self env item items >>= λ it. ok (seq_type it))
    items-Agree env item Endpoints.nil read = Agree-ok refl
    items-Agree env item (Endpoints.cons e items) read =
        items_after item _ _ (λ n. item_type self env (some n) items) _ _ _ (endpoint_agrees env e)
          λ a u. items-Agree env (some u) items (λ es. read (more a es))

    fields_typed :
        (env : Vars) (name : Text) (expected : Fields) (read : List Text) (fs : FieldValues)
        → literal_fields self env name expected read fs ≡ ok tt
        → (fs' : TypedFields) × (type_fields names self env fs ≡ ok fs')
    fields_typed env name expected read no_fields h = (end, refl)
    fields_typed env name expected read (field_value f e fs) h =
        let (t, _, h1) = >>=-eq-ok (some_or (field_type f expected) (no_field name f)) _ h in
        let (_, h2) = refuse-eq-ok (seen f read) (repeated_field name f) h1 in
        let (u, e1, h3) = >>=-eq-ok (endpoint_type self env e) _ h2 in
        let (_, _, h4) = >>=-eq-ok (expect_assignable_type f u t) _ h3 in
        let (e', e2, _) = Agree-second (endpoint_agrees env e) e1 in
        let (fs', e3) = fields_typed env name expected (f ∷ read) fs h4 in
        (field_of f e' fs', fields_ok f e2 e3)

    inline_agrees :
        (bound : Bound) (t : Ty) (ss : Stages)
        → Agree
            (Ends t)
            (type_inline_stages names self bound t ss)
            (inline_eval_type self bound.env t ss)
    inline_agrees bound t no_stages = Agree-ok refl
    inline_agrees bound t (Stages.stage s ss) =
        Agree-guarded (inline_guard s) _ _ _ _ (inline_stage_agrees bound t s)
          λ x t' h. rest_agrees bound t ss (λ b u. inline_agrees b u ss) x t' h

    inline_stage_agrees :
        (bound : Bound) (t : Ty) (s : Stage)
        → Agree
            (Outputs t bound)
            (inline_guard s >> type_stage names self inline_callable false t bound s)
            (inline_stage_type self bound.env t s)
    inline_stage_agrees bound t (Stage.endpoint (Endpoint.name name)) =
        Agree-map _ _ λ t'. (refl, refl)
    inline_stage_agrees bound t (Stage.endpoint _) = Agree-err
    inline_stage_agrees bound t (Stage.bind _) = Agree-err
    inline_stage_agrees bound t (Stage.map name) = Agree-map _ _ λ t'. (refl, refl)
    inline_stage_agrees bound t (Stage.fault_map _ _ _) = Agree-err
    inline_stage_agrees bound t (Stage.filter name) = Agree-map _ _ λ t'. (refl, refl)
    inline_stage_agrees bound t (Stage.field name) = Agree-map _ _ λ t'. (refl, refl)
    inline_stage_agrees bound t (Stage.repeat count name) =
        Agree-bind _ _ _ _ (endpoint_agrees bound.env count) λ c u h. rw (← h) (
          Agree-then (expect_type (codes "repeat count") (type_of c) i64)
            (Agree-map (apply_repeat self inline_callable name t) _ λ t'. (refl, refl)))
    inline_stage_agrees bound t (Stage.reduce op identity) =
        Agree-bind _ _ _ _ (endpoint_agrees bound.env identity)
          λ i u h. rw (← h) (Agree-map _ _ λ t'. (refl, refl))
    inline_stage_agrees bound t (Stage.scan op identity) =
        Agree-bind _ _ _ _ (endpoint_agrees bound.env identity)
          λ i u h. rw (← h) (Agree-map _ _ λ t'. (refl, refl))
    inline_stage_agrees bound t (Stage.match_arms arms) =
        Agree-last _ _ _
          (around_arms-Agree arms _ _ (arms-Agree inline_callable bound.env t none arms))
          λ x t' h. (h, refl)

    pub arms-Agree :
        (callable : Callable) (env : Vars) (input : Ty) (result : Option Ty) (arms : MatchArms)
        → Agree SameResult
            (type_arms names self callable env input result arms)
            (arms_type self env callable input result arms)
    arms-Agree callable env input result no_arms = Agree-ok refl
    arms-Agree callable env input result (arm g target arms) =
        Agree-bind _ _ _ _ (guard_agrees callable env input (is_empty_arms arms) g) λ g' _ _.
          Agree-bind _ _ _ _ (target_agrees callable env input target) λ x t h. rw (← h) (
            Agree-after _ _ _
              λ next. Agree-last _ _ _ (arms-Agree callable env input (some next) arms) λ y r k. k)

    guard_agrees :
        (callable : Callable) (env : Vars) (input : Ty) (last : Bool) (g : MatchGuard)
        → Agree
            (λ _ _. Unit {0})
            (type_guard names self callable env input last g)
            (guard_type self env callable input last g)
    guard_agrees callable env input last MatchGuard.fallback = Agree-map _ _ λ _. tt
    guard_agrees callable env input last (MatchGuard.call name args) = Agree-after _ _ _ λ _.
        Agree-bind _ _ _ _ (endpoints-Agree env args) λ es ts h. rw (← h) (Agree-map _ _ λ _. tt)

    target_agrees :
        (callable : Callable) (env : Vars) (input : Ty) (target : MatchTarget)
        → Agree
            (λ (x : TypedTarget × Ty) (t : Ty). x.1 ≡ t)
            (type_target names self callable env input target)
            (target_type self env callable input target)
    target_agrees callable env input (MatchTarget.node name) = Agree-map _ _ λ t. refl
    target_agrees callable env input (MatchTarget.value e) =
        Agree-last _ _ _ (endpoint_agrees env e) λ e' t h. h

-- A value has a typed tree of a type exactly when `endpoint_type` gives it the type: the two passes over a
-- value, of which the check of a struct literal runs both, accept the same values and agree on their types.
pub type_endpoint_iff :
    (names : List (Text × ℕ)) (self : Checker) (env : Vars) (e : Endpoint) (t : Ty)
    → ((typed : TypedEndpoint) × (type_endpoint names self env e ≡ ok typed) × (type_of typed ≡ t))
      ↔ (endpoint_type self env e ≡ ok t)
type_endpoint_iff names self env e t = (
  (λ (typed, h, k).
      let (u, h', k') = Agree-first (endpoint_agrees names self env e) h in rw (← k, k') h'),
  Agree-second (endpoint_agrees names self env e),
)
