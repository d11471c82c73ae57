-- ===== src/Typecheck/Agree/Module.antt =====
-- `typed_module` accepts what `check` accepts.
use flow_arrow.Prelude.{◌≡◌, ◌↔◌, refl, List, [], ◌∷◌, Text, All, ok, ◌>>◌, >>=-eq-ok}
use flow_arrow.Types.Substitute.{Vars}
use flow_arrow.Ast.{Port, Chain, Callable, Decl}
use flow_arrow.ModuleResolver.{ResolvedModule}
use flow_arrow.Typecheck.{CallableKind, node, program, Checker}
use flow_arrow.Typecheck.Declare.{parse_declared_type}
use flow_arrow.Typecheck.Chain.{check_chains}
use flow_arrow.Typecheck.Typed.{TypedChain, Bound}
use flow_arrow.Typecheck.Callable.{
  TypedCallable, TypedModule, CheckMode, insert_input, refuse_params, check_inputs, type_inputs,
  check_callable, type_callable, type_chains, declared_outputs, check_foreign, check_decls,
  check_library, type_decls, mode_check, typed_module,
}
use flow_arrow.Stdlib.{StdSymbol}
use flow_arrow.Typecheck.Collect.{new, typed_resolved_module}
use flow_arrow.Typecheck.Entries.{HasEntry, HasEntries, new-HasEntries}
use flow_arrow.Typecheck.Agree.{
  Agree, Agree-ok, Agree-bind, Agree-after, Agree-last, Agree-then, Agree-first, Agree-second,
}
use flow_arrow.Typecheck.Agree.Chain.{SameEnv, chain_agrees}

module _ (self : Checker) (resolved : ResolvedModule) where
  inputs-Agree :
      (name : Text) (ports : List Port) (bound : Bound)
      → Agree SameEnv (type_inputs self name ports bound) (check_inputs self name ports bound.env)
  unfolding type_inputs check_inputs
  inputs-Agree name [] bound = Agree-ok refl
  inputs-Agree name (p ∷ ports) bound =
      Agree-after (parse_declared_type self.types p.ty) _ _
        λ t. Agree-after (insert_input name p.name t bound.env) _ _ λ env. inputs-Agree name ports _

  chains-Agree :
      (callable : Callable) (bound : Bound) (chains : List Chain)
      → Agree
          (λ (x : List TypedChain × Bound) (env : Vars). x.1.env ≡ env)
          (type_chains self resolved callable bound chains)
          (check_chains self callable bound.env chains)
  unfolding type_chains check_chains
  chains-Agree callable bound [] = Agree-ok refl
  chains-Agree callable bound (chain ∷ chains) =
      Agree-bind _ _ _ _ (chain_agrees resolved.names self callable bound chain)
        λ x env h. rw (← h) (Agree-last _ _ _ (chains-Agree callable x.1 chains) λ y env' k. k)

  callable_agrees :
      (kind : CallableKind) (callable : Callable)
      → HasEntry self.symbols callable
      → Agree
          (λ (x : TypedCallable) (y : Unit {0}). Unit {0})
          (type_callable self resolved kind callable)
          (check_callable self kind callable)
  unfolding type_callable check_callable
  callable_agrees kind callable (info, s, rest, e, q) = Agree-then (refuse_params kind callable) (
      Agree-bind _ _ _ _ (inputs-Agree callable.name callable.inputs _) λ bound env h. rw (← h) (
        Agree-bind _ _ _ _ (chains-Agree callable bound callable.chains) λ x env' k. rw (← k) (
          Agree-after (declared_outputs self callable.name x.1.env callable.outputs) _ _
            λ outputs. rw (e, q) (Agree-ok tt))))

  abbrev Accepted : {A : Type 0} → A → Unit {0} → Type 0
  Accepted _ _ = Unit {0}

  decls-Agree :
      (decls : List Decl)
      → All (HasEntries self.symbols) decls
      → Agree Accepted (type_decls self resolved decls) (check_decls self decls)
  unfolding type_decls check_decls
  decls-Agree [] h = Agree-ok tt
  decls-Agree (Decl.node_decl c ∷ decls) (h, hs) =
      Agree-bind _ _ _ _ (callable_agrees node c h)
        λ t _ _. Agree-last _ _ _ (decls-Agree decls hs) λ ts _ _. tt
  decls-Agree (Decl.program c ∷ decls) (h, hs) =
      Agree-bind _ _ _ _ (callable_agrees program c h)
        λ t _ _. Agree-last _ _ _ (decls-Agree decls hs) λ ts _ _. tt
  decls-Agree (Decl.foreign_block f ∷ decls) (_, hs) =
      Agree-then (check_foreign self f) (decls-Agree decls hs)
  decls-Agree (Decl.type_alias _ ∷ decls) (_, hs) = decls-Agree decls hs
  decls-Agree (Decl.struct_decl _ ∷ decls) (_, hs) = decls-Agree decls hs
  decls-Agree (Decl.import_decl _ ∷ decls) (_, hs) = decls-Agree decls hs

  module_agrees :
      (mode : CheckMode)
      → All (HasEntries self.symbols) self.source.declarations
      → Agree Accepted
          (typed_module self resolved mode)
          (mode_check self mode >> check_library self)
  unfolding typed_module check_library
  module_agrees mode h =
      Agree-then (mode_check self mode)
        (Agree-last _ _ _ (decls-Agree self.source.declarations h) λ ts _ _. tt)

-- A module is accepted, and its typed tree built, exactly when its declarations are collected and pass the
-- checks of `check_library`, and in the mode of a whole program those of `validate_main` too.
pub typed_resolved_module_iff :
    (table : List StdSymbol) (order : List Text → List Text) (resolved : ResolvedModule)
    (mode : CheckMode)
    → ((m : TypedModule) × (typed_resolved_module table order resolved mode ≡ ok m)) ↔ (
        (c : Checker) × (new table order resolved.root ≡ ok c)
        × (mode_check c mode ≡ ok tt)
        × (check_library c ≡ ok tt))
unfolding typed_resolved_module
typed_resolved_module_iff table order resolved mode = (to, from)
  where
    to :
        ((m : TypedModule) × (typed_resolved_module table order resolved mode ≡ ok m))
        → (c : Checker) × (new table order resolved.root ≡ ok c)
          × (mode_check c mode ≡ ok tt)
          × (check_library c ≡ ok tt)
    to (m, h) =
        let (c, e, h1) = >>=-eq-ok (new table order resolved.root) _ h in
        let (_, h2, _) =
          Agree-first (module_agrees c resolved mode (new-HasEntries _ _ _ _ e)) h1 in
        let (_, h3, h4) = >>=-eq-ok (mode_check c mode) (λ _. check_library c) h2 in (c, e, h3, h4)

    from :
        ((c : Checker) × (new table order resolved.root ≡ ok c)
          × (mode_check c mode ≡ ok tt)
          × (check_library c ≡ ok tt))
        → (m : TypedModule) × (typed_resolved_module table order resolved mode ≡ ok m)
    from (c, e, h, k) =
        let (m, h', _) =
          Agree-second (module_agrees c resolved mode (new-HasEntries _ _ _ _ e))
            (rw (h, k) refl) in
        (m, rw e h')
