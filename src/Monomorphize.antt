-- ===== src/Monomorphize.antt =====
-- src/monomorphize.rs. The maps are association lists whose first entry for a key is the current one, and
-- `active` is a stack. `instantiate` reaches itself through the callables that it rewrites, on fuel.
pub mod Rewrite
pub mod Keeps
pub mod Renaming
pub mod Keys
pub mod Covered
pub mod Bounded
pub mod Total
pub mod Expanded
pub mod Names
pub mod Tests
use flow_arrow.Prelude
use flow_arrow.Prelude.{
  ℕ, zero, suc, ◌==◌, ◌||◌, ◌&&◌, Bool, true, false, not, Option, none, some, List, [], ◌∷◌, ◌++◌,
  Text, codes, text_eq, Text-discrete, length, Outcome, ok, err, panic, out_of_fuel, decide,
  is_alphanumeric, if◌then◌else◌,
}
use flow_arrow.Ast.{NodeParam, Callable, Decl, Module}
use flow_arrow.NodeRef.{StaticNodeRef, format_static_node_ref, parse_static_node_ref}
use flow_arrow.Monomorphize.Rewrite.{
  InstanceKey, Monomorphizer, MonoError, Mono, pure, ◌>>=◌, fail, rewrite_callable_refs,
  program_params, recursive_instance, not_static, wrong_count, param_with_args,
}

abbrev sanitize_char : ℕ → ℕ
sanitize_char ch = if is_alphanumeric ch || ch == b'_' then ch else b'_'

unfoldable pub sanitize_name : Text → Text
sanitize_name [] = []
sanitize_name (ch ∷ name) = sanitize_char ch ∷ sanitize_name name

abbrev pub sanitize_args : List Text → Text
sanitize_args [] = []
sanitize_args (arg ∷ args) = b'_' ∷ (sanitize_name arg ++ sanitize_args args)

unfoldable pub instance_name : Text → List Text → Text
instance_name template args = codes "__flow_inst_" ++ sanitize_name template ++ sanitize_args args

unfoldable pub find {ℓ} : {A : Type ℓ} → Text → List (Text × A) → Option A
find name [] = none
find name ((n, a) ∷ entries) = if text_eq n name then some a else find name entries

unfoldable pub texts_eq : List Text → List Text → Bool
texts_eq [] [] = true
texts_eq (s ∷ ss) (t ∷ ts) = text_eq s t && texts_eq ss ts
texts_eq _ _ = false

unfoldable pub key_eq : InstanceKey → InstanceKey → Bool
key_eq k k' = text_eq k.template k'.template && texts_eq k.args k'.args

unfoldable pub find_instance : InstanceKey → List (InstanceKey × Text) → Option Text
find_instance key [] = none
find_instance key ((k, name) ∷ instances) =
    if key_eq k key then some name else find_instance key instances

unfoldable pub is_active : InstanceKey → List InstanceKey → Bool
is_active key [] = false
is_active key (k ∷ active) = key_eq k key || is_active key active

abbrev pub Bindings : Type 0
Bindings = List (Text × Text)

-- The parameters zipped with the arguments and collected.
abbrev pub bind_params : List NodeParam → List Text → Bindings → Bindings
bind_params (param ∷ params) (arg ∷ args) bindings =
    bind_params params args ((param.name, arg) ∷ bindings)
bind_params _ _ bindings = bindings

abbrev pub bound_or : Option Text → Text → Text
bound_or (some actual) _ = actual
bound_or none arg = arg

abbrev pub bound_args : Bindings → List Text → List Text
bound_args bindings [] = []
bound_args bindings (arg ∷ args) = bound_or (find arg bindings) arg ∷ bound_args bindings args

-- The rest of `rewrite_node_name`, where the base is a parameter or not.
abbrev rename_to :
    (Text → List Text → Mono Text) → Bindings → Option Text → Text → List Text → Mono Text
rename_to instantiate bindings (some actual) base [] = pure actual
rename_to instantiate bindings (some actual) base (_ ∷ _) = fail (param_with_args base)
rename_to instantiate bindings none base [] = pure base
rename_to instantiate bindings none base (arg ∷ args) =
    instantiate base (bound_args bindings (arg ∷ args))

unfoldable pub rewrite_node_name : (Text → List Text → Mono Text) → Bindings → Text → Mono Text
rewrite_node_name instantiate bindings name =
    let node_ref : StaticNodeRef = parse_static_node_ref name in
    rename_to instantiate bindings (find node_ref.base bindings) node_ref.base node_ref.args

-- The state in which the body of an instance is rewritten: it is entered and on the stack.
abbrev pub enter : InstanceKey → Text → Monomorphizer → Monomorphizer
enter key name s = record s { instances = (key, name) ∷ s.instances; active = key ∷ s.active }

abbrev pub pop : List InstanceKey → List InstanceKey
pop [] = []
pop (_ ∷ active) = active

abbrev pub leave : Callable → Monomorphizer → Monomorphizer
leave callable s = record s { generated = s.generated ++ callable ∷ []; active = pop s.active }

-- The new instance of a template.
abbrev pub create : (Text → List Text → Mono Text) → InstanceKey → Callable → Mono Text
create instantiate key template s =
    let name : Text = instance_name key.template key.args in
    let bindings : Bindings = bind_params template.node_params key.args [] in
    let callable : Callable = record template {
      name = name;
      is_extern = false;
      node_params = [];
    } in
    Prelude.◌>>=◌
      (rewrite_callable_refs (rewrite_node_name instantiate bindings) callable (enter key name s))
      (λ (rewritten, s'). ok (name, leave rewritten s'))

abbrev pub checked : (Text → List Text → Mono Text) → InstanceKey → Option Callable → Mono Text
checked instantiate key none = fail (not_static key.template)
checked instantiate key (some template) =
    if not (length template.node_params == length key.args)
    then fail (wrong_count key.template (length template.node_params) (length key.args))
    else create instantiate key template

abbrev pub instance_of : (Text → List Text → Mono Text) → InstanceKey → Option Text → Mono Text
instance_of instantiate key (some name) s = ok (name, s)
instance_of instantiate key none s =
    if is_active key s.active
    then err (recursive_instance (format_static_node_ref key.template key.args))
    else checked instantiate key (find key.template s.templates) s

unfoldable pub instantiate : ℕ → Text → List Text → Mono Text
instantiate zero template args = λ s. out_of_fuel
instantiate (suc f) template args =
    let key : InstanceKey = record { template = template; args = args } in
    λ s. instance_of (instantiate f) key (find_instance key s.instances) s

abbrev pub is_template : Callable → Bool
is_template callable = not (length callable.node_params == 0)

-- `Monomorphizer::new`
unfoldable pub collect_templates : List Decl → List (Text × Callable) → List (Text × Callable)
collect_templates [] templates = templates
collect_templates (Decl.node_decl callable ∷ declarations) templates =
    collect_templates declarations
      (if is_template callable then (callable.name, callable) ∷ templates else templates)
collect_templates (_ ∷ declarations) templates = collect_templates declarations templates

unfoldable pub new : Module → Monomorphizer
new m = record {
  templates = collect_templates m.declarations [];
  instances = [];
  generated = [];
  active = [];
}

-- The loop of `expand`.
module _ (f : ℕ) where
  abbrev rewritten : Callable → Mono Callable
  rewritten callable = rewrite_callable_refs (rewrite_node_name (instantiate f) []) callable

  unfoldable pub expand_loop : List Decl → Mono (List Decl)
  expand_loop [] = pure []
  expand_loop (Decl.node_decl callable ∷ declarations) =
      let rest : Mono (List Decl) = expand_loop declarations in
      if is_template callable
      then rest
      else (rewritten callable >>= λ c. rest >>= λ ds. pure (Decl.node_decl c ∷ ds))
  expand_loop (Decl.program callable ∷ declarations) =
      let rest : Mono (List Decl) = expand_loop declarations in
      if is_template callable
      then fail (program_params callable.name)
      else (rewritten callable >>= λ c. rest >>= λ ds. pure (Decl.program c ∷ ds))
  expand_loop (decl ∷ declarations) = expand_loop declarations >>= λ ds. pure (decl ∷ ds)

abbrev pub as_nodes : List Callable → List Decl
as_nodes [] = []
as_nodes (c ∷ cs) = Decl.node_decl c ∷ as_nodes cs

unfoldable pub expand_module : ℕ → Module → Outcome MonoError Module
expand_module f m =
    Prelude.◌>>=◌ (expand_loop f m.declarations (new m))
      λ (ds, s). ok (record { declarations = ds ++ as_nodes s.generated })
