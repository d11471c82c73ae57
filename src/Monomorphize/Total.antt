-- ===== src/Monomorphize/Total.antt =====
-- The expansion of a module ends: each instance in work takes one more of the keys that there are.
use flow_arrow.Prelude
use flow_arrow.Prelude.{
  ℕ, zero, suc, ◌+◌, ◌≤◌, ◌<◌, ◌==◌, ==→eq, not, Bool, true, false, ◌≡◌, ◌≢◌, refl, sym, ap, ◌∙◌,
  Bool-cases, inl, inr, Option, none, some, List, [], ◌∷◌, ◌++◌, Text, text_eq, length, All,
  Outcome, ok, err, panic, out_of_fuel, arith, if◌then◌else◌,
}
use flow_arrow.Ast.{NodeParam, Callable, Decl, Module}
use flow_arrow.NodeRef.{parse_static_node_ref}
use flow_arrow.Monomorphize.{
  find, find_instance, is_active, instance_name, Bindings, bind_params, bound_or, bound_args,
  rename_to, rewrite_node_name, enter, leave, create, checked, instance_of, instantiate,
  is_template, collect_templates, new, expand_loop, expand_module,
}
use flow_arrow.Monomorphize.Rewrite.{
  InstanceKey, Monomorphizer, MonoError, Mono, fail, rewrite_callable_refs,
}
use flow_arrow.Monomorphize.Keys.{In, keys_of, In-keys_of, missing, missing-insert}
use flow_arrow.Monomorphize.Covered.{CallableNames, DeclNames, ModuleNames}
use flow_arrow.Monomorphize.Bounded.{
  Within, Ended, Ends, Ends-pure, Ends-fail, Ends-if, Ends-bind, rewrite_callable_refs-Ends,
}

-- The arguments of a node reference are among the texts.
abbrev pub ArgsIn : List Text → Text → Type 0
ArgsIn texts name = All (λ a. In a texts) (parse_static_node_ref name).args

abbrev AllBound : List Text → Bindings → Type 0
AllBound texts bindings = All (λ b. In b.1 texts) bindings

find-In :
    (texts : List Text) (name a : Text) (bindings : Bindings)
    → AllBound texts bindings
    → find name bindings ≡ some a
    → In a texts
unfolding find
find-In texts name a [] h e = cc
find-In texts name a ((n, b) ∷ bindings) (h, hs) e = elim (Bool-cases (text_eq n name)) [
  | inl same ↦
      let found : some b ≡ some a = rw same at e in let chosen : b ≡ a = cc found in rw chosen at h
  | inr other ↦ find-In texts name a bindings hs (rw other at e)
]

bound_args-In :
    (texts : List Text) (bindings : Bindings) (args : List Text)
    → AllBound texts bindings
    → All (λ a. In a texts) args
    → All (λ a. In a texts) (bound_args bindings args)
bound_args-In texts bindings [] b h = tt
bound_args-In texts bindings (arg ∷ args) b (h, hs) =
    (bound (find arg bindings) refl, bound_args-In texts bindings args b hs)
  where
    bound : (o : Option Text) → find arg bindings ≡ o → In (bound_or o arg) texts
    bound (some a) e = find-In texts arg a bindings b e
    bound none e = h

bind_params-In :
    (texts : List Text) (params : List NodeParam) (args : List Text) (bindings : Bindings)
    → All (λ a. In a texts) args
    → AllBound texts bindings
    → AllBound texts (bind_params params args bindings)
bind_params-In texts [] args bindings h b = b
bind_params-In texts (p ∷ params) [] bindings h b = b
bind_params-In texts (p ∷ params) (a ∷ args) bindings (h, hs) b =
    bind_params-In texts params args ((p.name, a) ∷ bindings) hs (h, b)

find-Names :
    (P : Text → Type 0) (templates : List (Text × Callable)) (name : Text) (c : Callable)
    → All (λ t. CallableNames P t.1) templates
    → find name templates ≡ some c
    → CallableNames P c
unfolding find
find-Names P [] name c h e = cc
find-Names P ((n, d) ∷ templates) name c (h, hs) e = elim (Bool-cases (text_eq n name)) [
  | inl same ↦
      let found : some d ≡ some c = rw same at e in let chosen : d ≡ c = cc found in rw chosen at h
  | inr other ↦ find-Names P templates name c hs (rw other at e)
]

module _ (texts : List Text) (templates : List (Text × Callable))
    (covered : All (λ t. CallableNames (ArgsIn texts) t.1) templates) where
  abbrev Ending : {A : Type 0} → ℕ → Mono A → Type 0
  Ending n m = Ends templates (keys_of texts templates) n m

  abbrev Instantiates : ℕ → (Text → List Text → Mono Text) → Type 0
  Instantiates n inst =
      (t : Text) (args : List Text) → All (λ a. In a texts) args → Ending n (inst t args)

  rename_to-Ends :
      {n : ℕ} (inst : Text → List Text → Mono Text) (bindings : Bindings) (o : Option Text)
      (base : Text) (args : List Text)
      → Instantiates n inst
      → AllBound texts bindings
      → All (λ a. In a texts) args
      → Ending n (rename_to inst bindings o base args)
  rename_to-Ends inst bindings (some actual) base [] h b as' = Ends-pure _ _ _
  rename_to-Ends inst bindings (some actual) base (_ ∷ _) h b as' = Ends-fail _ _ _
  rename_to-Ends inst bindings none base [] h b as' = Ends-pure _ _ _
  rename_to-Ends inst bindings none base (a ∷ args) h b as' =
      h _ _ (bound_args-In texts bindings (a ∷ args) b as')

  rewrite-Ends :
      {n : ℕ} (inst : Text → List Text → Mono Text) (bindings : Bindings) (c : Callable)
      → Instantiates n inst
      → AllBound texts bindings
      → CallableNames (ArgsIn texts) c
      → Ending n (rewrite_callable_refs (rewrite_node_name inst bindings) c)
  unfolding rewrite_node_name
  rewrite-Ends inst bindings c h b p =
      rewrite_callable_refs-Ends templates (keys_of texts templates) (ArgsIn texts)
        (rewrite_node_name inst bindings) (λ t q. rename_to-Ends inst bindings _ _ _ h b q) c p

  left-Ended :
      {m n : ℕ} (name : Text) (r : Outcome MonoError (Callable × Monomorphizer))
      → m ≤ n
      → Ended templates (keys_of texts templates) m r
      → Ended templates
          (keys_of texts templates)
          n
          (Prelude.◌>>=◌ r (λ x. ok (name, leave x.0 x.1)))
  left-Ended name (ok (c, s)) l (same, few) = (same, omega arith)
  left-Ended name (err e) l h = tt
  left-Ended name panic l h = h
  left-Ended name out_of_fuel l h = h

  -- The body of a new instance is rewritten with a key less to enter.
  create-Ended :
      (n : ℕ) (inst : Text → List Text → Mono Text) (key : InstanceKey) (s : Monomorphizer)
      (c : Callable)
      → ((m : ℕ) → m < n → Instantiates m inst)
      → All (λ a. In a texts) key.args
      → find key.template templates ≡ some c
      → length c.node_params ≡ length key.args
      → find_instance key s.instances ≡ none
      → Within templates (keys_of texts templates) n s
      → Ended templates (keys_of texts templates) n (create inst key c s)
  create-Ended n inst key s c h as' f l e w =
      let keys : List InstanceKey = keys_of texts templates in
      let name : Text = instance_name key.template key.args in
      let fewer : missing keys ((key, name) ∷ s.instances) < missing keys s.instances =
        missing-insert key name keys s.instances
          (In-keys_of texts templates key.template key.args c f l as') e in
      let inner : Instantiates (missing keys ((key, name) ∷ s.instances)) inst =
        h _ (omega (arith, fewer, w.1)) in
      let bindings : Bindings = bind_params c.node_params key.args [] in
      let callable : Callable = record c { name = name; is_extern = false; node_params = [] } in
      left-Ended name _ (omega (arith, fewer, w.1)) (
        (rewrite-Ends inst bindings callable inner
            (bind_params-In texts c.node_params key.args [] as' tt)
            (find-Names (ArgsIn texts) templates key.template c covered f)).at
          (enter key name s) (w.0, omega arith))

  checked-Ended :
      (n : ℕ) (inst : Text → List Text → Mono Text) (key : InstanceKey) (s : Monomorphizer)
      (o : Option Callable)
      → ((m : ℕ) → m < n → Instantiates m inst)
      → All (λ a. In a texts) key.args
      → find key.template templates ≡ o
      → find_instance key s.instances ≡ none
      → Within templates (keys_of texts templates) n s
      → Ended templates (keys_of texts templates) n (checked inst key o s)
  unfolding fail
  checked-Ended n inst key s none h as' f e w = tt
  checked-Ended n inst key s (some c) h as' f e w =
      elim (Bool-cases (length c.node_params == length key.args)) [
        | inl same ↦ rw same (create-Ended n inst key s c h as' f (==→eq _ _ same) e w)
        | inr other ↦ rw other tt
      ]

  instance_of-Ended :
      (n : ℕ) (inst : Text → List Text → Mono Text) (key : InstanceKey) (s : Monomorphizer)
      (o : Option Text)
      → ((m : ℕ) → m < n → Instantiates m inst)
      → All (λ a. In a texts) key.args
      → find_instance key s.instances ≡ o
      → Within templates (keys_of texts templates) n s
      → Ended templates (keys_of texts templates) n (instance_of inst key o s)
  instance_of-Ended n inst key s (some name) h as' e w = w
  instance_of-Ended n inst key s none h as' e w = elim (Bool-cases (is_active key s.active)) [
    | inl busy ↦ rw busy tt
    | inr idle ↦ rw idle (
        checked-Ended n inst key s (find key.template s.templates) h as'
          (ap (λ ts. find key.template ts) (sym w.0)) e w)
  ]

  instantiate-Ends : (f n : ℕ) → n < f → Instantiates n (instantiate f)
  unfolding instantiate
  instantiate-Ends zero n l t args h = absurd (omega arith)
  instantiate-Ends (suc f) n l t args h = record {
    at = λ s w.
        instance_of-Ended n (instantiate f) (record { template = t; args = args }) s _
          (λ m lower. instantiate-Ends f m (omega arith)) h refl w;
  }

  expand_loop-Ends :
      (f n : ℕ) (ds : List Decl)
      → n < f
      → All (DeclNames (ArgsIn texts)) ds
      → Ending n (expand_loop f ds)
  unfolding expand_loop
  expand_loop-Ends f n [] l p = Ends-pure _ _ _
  expand_loop-Ends f n (Decl.node_decl c ∷ ds) l (p, ps) =
      Ends-if _ _ (is_template c) _ _ (expand_loop-Ends f n ds l ps) (
        Ends-bind _ _ _ _ (rewrite-Ends (instantiate f) [] c (instantiate-Ends f n l) tt p)
          λ _. Ends-bind _ _ _ _ (expand_loop-Ends f n ds l ps) λ _. Ends-pure _ _ _)
  expand_loop-Ends f n (Decl.program c ∷ ds) l (p, ps) =
      Ends-if _ _ (is_template c) _ _ (Ends-fail _ _ _) (
        Ends-bind _ _ _ _ (rewrite-Ends (instantiate f) [] c (instantiate-Ends f n l) tt p)
          λ _. Ends-bind _ _ _ _ (expand_loop-Ends f n ds l ps) λ _. Ends-pure _ _ _)
  expand_loop-Ends f n (d ∷ ds) l (p, ps) =
      Ends-bind _ _ _ _ (expand_loop-Ends f n ds l ps) λ _. Ends-pure _ _ _

collect_templates-Names :
    (P : Text → Type 0) (ds : List Decl) (templates : List (Text × Callable))
    → All (DeclNames P) ds
    → All (λ t. CallableNames P t.1) templates
    → All (λ t. CallableNames P t.1) (collect_templates ds templates)
unfolding collect_templates
collect_templates-Names P [] templates h k = k
collect_templates-Names P (Decl.node_decl c ∷ ds) templates (h, hs) k =
    collect_templates-Names P ds _ hs (taken (is_template c))
  where
    taken :
        (b : Bool)
        → All (λ t. CallableNames P t.1) (if b then (c.name, c) ∷ templates else templates)
    taken true = (h, k)
    taken false = k
collect_templates-Names P (_ ∷ ds) templates (h, hs) k = collect_templates-Names P ds templates hs k

-- The number of keys that instances of the module's templates can have, with arguments among the texts.
abbrev pub key_count : List Text → Module → ℕ
key_count texts m = missing (keys_of texts (collect_templates m.declarations [])) []

Ended-run :
    (templates : List (Text × Callable)) (keys : List InstanceKey) (n : ℕ)
    (r : Outcome MonoError (List Decl × Monomorphizer)) (make : List Decl → Monomorphizer → Module)
    → Ended templates keys n r
    → (Prelude.◌>>=◌ r (λ x. ok (make x.0 x.1)) ≢ panic)
      × (Prelude.◌>>=◌ r (λ x. ok (make x.0 x.1)) ≢ out_of_fuel)
Ended-run templates keys n (ok (ds, s)) make h = ((λ e. cc), λ e. cc)
Ended-run templates keys n (err e) make h = ((λ e'. cc), λ e'. cc)
Ended-run templates keys n panic make h = absurd h
Ended-run templates keys n out_of_fuel make h = absurd h

-- Where the texts hold every argument of a node reference that the expansion of the module rewrites, the
-- expansion ends, with a module or with an error, on one unit of fuel more than there are pairs of a
-- template of the module and as many of the texts as it has parameters.
pub expand_module_total :
    (m : Module) (texts : List Text)
    → ModuleNames (ArgsIn texts) m
    → (expand_module (suc (key_count texts m)) m ≢ panic)
      × (expand_module (suc (key_count texts m)) m ≢ out_of_fuel)
unfolding expand_module new
expand_module_total m texts h =
    let templates = collect_templates m.declarations [] in
    let keys = keys_of texts templates in
    Ended-run templates keys (key_count texts m) _ _ (
      (expand_loop-Ends texts templates
          (collect_templates-Names (ArgsIn texts) m.declarations [] h tt) (suc (key_count texts m))
          (key_count texts m) m.declarations (omega arith) h).at
        (new m) (refl, omega arith))
