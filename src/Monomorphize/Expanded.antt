-- ===== src/Monomorphize/Expanded.antt =====
-- The expansion of a module leaves no node with static parameters, and never meets an instance in work.
use flow_arrow.Prelude
use flow_arrow.Prelude.{
  ℕ, zero, suc, ◌==◌, ==→eq, Bool, true, false, not, ◌≡◌, ◌≢◌, refl, ap, ◌∙◌, Bool-cases, inl, inr,
  Option, none, some, List, [], ◌∷◌, ◌++◌, Text, text_eq, text_eq_iff, length, All, Outcome, ok,
  err, panic, out_of_fuel, arith, if◌then◌else◌,
}
use flow_arrow.Ast.{NodeParam, Callable, Decl, Module}
use flow_arrow.Monomorphize.{
  find, find_instance, is_active, instance_name, Bindings, bind_params, rewrite_node_name, enter,
  pop, leave, create, checked, instance_of, instantiate, is_template, new, rewritten, expand_loop,
  as_nodes, expand_module,
}
use flow_arrow.Monomorphize.Rewrite.{
  InstanceKey, Monomorphizer, MonoError, Mono, fail, rewrite_callable_refs, recursive_instance,
  wrong_count,
}
use flow_arrow.Monomorphize.Keeps.{
  IsEntered, IsPlain, IsValid, NotRecursive, Kept, Keeps, Keeps-pure, Keeps-fail, Keeps-if,
  Keeps-bind, Keeps-weaken, find_instance-insert, is_active-IsEntered, key_eq_refl,
}
use flow_arrow.Monomorphize.Renaming.{Any, rewrite_callable_refs-Keeps, rewrite_node_name-Keeps}

enter-IsValid :
    (key : InstanceKey) (s : Monomorphizer)
    → IsValid s
    → IsValid (enter key (instance_name key.template key.args) s)
unfolding find_instance
enter-IsValid key s (active, named, plain) = (
  ((instance_name key.template key.args, rw (key_eq_refl key) refl), still s.active active),
  (refl, named),
  plain,
)
  where
    still :
        (keys : List InstanceKey)
        → All (IsEntered s.instances) keys
        → All (IsEntered ((key, instance_name key.template key.args) ∷ s.instances)) keys
    still [] h = tt
    still (k ∷ keys) (h, hs) = (
      find_instance-insert key k (instance_name key.template key.args) s.instances h,
      still keys hs,
    )

All-snoc :
    {A : Type 0} (P : A → Type 0) (xs : List A) (x : A) → All P xs → P x → All P (xs ++ x ∷ [])
All-snoc P [] x h k = (k, tt)
All-snoc P (y ∷ ys) x (h, hs) k = (h, All-snoc P ys x hs k)

leave-IsValid :
    (callable : Callable) (s : Monomorphizer)
    → IsPlain callable
    → IsValid s
    → IsValid (leave callable s)
leave-IsValid callable s p (active, named, plain) =
    (popped s.active active, named, All-snoc IsPlain s.generated callable plain p)
  where
    popped :
        (keys : List InstanceKey)
        → All (IsEntered s.instances) keys
        → All (IsEntered s.instances) (pop keys)
    popped [] h = tt
    popped (_ ∷ keys) (h, hs) = hs

module _ (inst : Text → List Text → Mono Text)
    (h : (t : Text) (args : List Text) → Keeps Any (inst t args)) where
  create-Keeps : (key : InstanceKey) (template : Callable) → Keeps Any (create inst key template)
  create-Keeps key template = record {
    at = λ s v. made _ (body.at (enter key name s) (enter-IsValid key s v));
  }
    where
      name : Text
      name = instance_name key.template key.args

      callable : Callable
      callable = record template { name = name; is_extern = false; node_params = [] }

      bindings : Bindings
      bindings = bind_params template.node_params key.args []

      body :
          Keeps
            (λ c. c.node_params ≡ [])
            (rewrite_callable_refs (rewrite_node_name inst bindings) callable)
      body = rewrite_callable_refs-Keeps _ (rewrite_node_name-Keeps inst h bindings) callable

      made :
          (r : Outcome MonoError (Callable × Monomorphizer))
          → Kept IsPlain r
          → Kept Any (Prelude.◌>>=◌ r (λ x. ok (name, leave x.0 x.1)))
      made (ok (c, s)) k = (tt, leave-IsValid c s k.0 k.1)
      made (err e) k = k
      made panic k = tt
      made out_of_fuel k = tt

  checked-Keeps : (key : InstanceKey) (o : Option Callable) → Keeps Any (checked inst key o)
  checked-Keeps key none = Keeps-fail _ tt
  checked-Keeps key (some template) =
      Keeps-if (not (length template.node_params == length key.args))
        (fail (wrong_count key.template (length template.node_params) (length key.args)))
        (create inst key template) (λ _. Keeps-fail _ tt) (λ _. create-Keeps key template)

  -- An instance in work has been entered, so one that has not is not in work.
  instance_of-Kept :
      (key : InstanceKey) (s : Monomorphizer) (o : Option Text)
      → find_instance key s.instances ≡ o
      → IsValid s
      → Kept Any (instance_of inst key o s)
  instance_of-Kept key s (some name) e v = (tt, v)
  instance_of-Kept key s none e v = elim (Bool-cases (is_active key s.active)) [
    | inl busy ↦ let (name, f) = is_active-IsEntered key s.active s.instances v.0 busy in cc
    | inr idle ↦ rw idle ((checked-Keeps key (find key.template s.templates)).at s v)
  ]

instantiate-Keeps :
    (f : ℕ) (template : Text) (args : List Text) → Keeps Any (instantiate f template args)
unfolding instantiate
instantiate-Keeps zero template args = record { at = λ s v. tt }
instantiate-Keeps (suc f) template args = record {
  at = λ s v.
      instance_of-Kept (instantiate f) (instantiate-Keeps f)
        (record { template = template; args = args }) s _ refl v;
}

-- A declaration takes no static nodes.
abbrev pub IsExpanded : Decl → Type 0
IsExpanded (Decl.node_decl c) = IsPlain c
IsExpanded (Decl.program c) = IsPlain c
IsExpanded _ = Unit

not_template : (c : Callable) → is_template c ≡ false → IsPlain c
not_template c h = empty c.node_params h
  where
    empty : (ps : List NodeParam) → not (length ps == 0) ≡ false → ps ≡ []
    empty [] k = refl
    empty (_ ∷ ps) k = absurd (ground (arith, k))

rewritten-Keeps : (f : ℕ) (c : Callable) → is_template c ≡ false → Keeps IsPlain (rewritten f c)
rewritten-Keeps f c h =
    Keeps-weaken (λ c' e. e ∙ not_template c h)
      (rewrite_callable_refs-Keeps _
        (rewrite_node_name-Keeps (instantiate f) (instantiate-Keeps f) []) c)

expand_loop-Keeps : (f : ℕ) (ds : List Decl) → Keeps (All IsExpanded) (expand_loop f ds)
unfolding expand_loop
expand_loop-Keeps f [] = Keeps-pure _ tt
expand_loop-Keeps f (Decl.node_decl c ∷ ds) =
    Keeps-if (is_template c) _ _ (λ _. expand_loop-Keeps f ds)
      λ plain.
        Keeps-bind _ _ _ (rewritten-Keeps f c plain)
          λ c' p. Keeps-bind _ _ _ (expand_loop-Keeps f ds) λ ds' ps. Keeps-pure _ (p, ps)
expand_loop-Keeps f (Decl.program c ∷ ds) =
    Keeps-if (is_template c) _ _ (λ _. Keeps-fail _ tt)
      λ plain.
        Keeps-bind _ _ _ (rewritten-Keeps f c plain)
          λ c' p. Keeps-bind _ _ _ (expand_loop-Keeps f ds) λ ds' ps. Keeps-pure _ (p, ps)
expand_loop-Keeps f (d ∷ ds) =
    Keeps-bind _ _ _ (expand_loop-Keeps f ds) λ ds' h. Keeps-pure _ (tt, h)

as_nodes-IsExpanded : (cs : List Callable) → All IsPlain cs → All IsExpanded (as_nodes cs)
as_nodes-IsExpanded [] h = tt
as_nodes-IsExpanded (c ∷ cs) (h, hs) = (h, as_nodes-IsExpanded cs hs)

All-append : {A : Type 0} (P : A → Type 0) (xs ys : List A) → All P xs → All P ys → All P (xs ++ ys)
All-append P [] ys h k = k
All-append P (x ∷ xs) ys (h, hs) k = (h, All-append P xs ys hs k)

-- What holds of the result of an expansion.
abbrev Expanded : Outcome MonoError Module → Type 0
Expanded (ok m) = All IsExpanded m.declarations
Expanded (err e) = NotRecursive e
Expanded _ = Unit

expand_module-Expanded : (f : ℕ) (m : Module) → Expanded (expand_module f m)
unfolding expand_module new
expand_module-Expanded f m = from _ ((expand_loop-Keeps f m.declarations).at (new m) (tt, tt, tt))
  where
    from :
        (r : Outcome MonoError (List Decl × Monomorphizer))
        → Kept (All IsExpanded) r
        → Expanded
            (Prelude.◌>>=◌ r λ (ds, s). ok (record { declarations = ds ++ as_nodes s.generated }))
    from (ok (ds, s)) k =
        All-append IsExpanded ds (as_nodes s.generated) k.0 (as_nodes-IsExpanded s.generated k.1.2)
    from (err e) k = k
    from panic k = tt
    from out_of_fuel k = tt

-- Whatever the fuel, no declaration of an expanded module takes static nodes: the templates are gone, and
-- what is made from them takes none.
pub expand_module-IsExpanded :
    (f : ℕ) (m m' : Module) → expand_module f m ≡ ok m' → All IsExpanded m'.declarations
expand_module-IsExpanded f m m' e = rw e at (expand_module-Expanded f m)

-- Whatever the fuel, the expansion never fails with a recursive instantiation: an instance has its entry
-- before its body is rewritten, so that the entry answers for it.
pub expand_module_not_recursive :
    (f : ℕ) (m : Module) (name : Text) → expand_module f m ≢ err (recursive_instance name)
expand_module_not_recursive f m name e = rw e at (expand_module-Expanded f m)
