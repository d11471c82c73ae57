-- ===== src/Typecheck/Entries.antt =====
-- The entries that `Checker::new` makes for the callables of a module, and that nothing takes away.
use flow_arrow.Prelude.{
  ℕ, zero, suc, Bool, false, ◌≡◌, refl, sym, ap, subst, ◌∙◌, ◌&&◌, Option, none, some, List, [],
  ◌∷◌, Text, text_eq, text_eq_iff, Bool-cases, inl, inr, All, ok, >>=-eq-ok,
}
use flow_arrow.Types.{Signature}
use flow_arrow.Types.Substitute.{Vars}
use flow_arrow.Types.Syntax.{primitive_types}
use flow_arrow.Ast.{Callable, Decl, Module}
use flow_arrow.Stdlib.{StdSymbol, Effect, io, module_symbols, intrinsic_module}
use flow_arrow.Typecheck.{
  CallableKind, node, program, CallableInfo, Symbols, Checker, get, is_some, refuse-eq-ok,
  duplicate_symbol,
}
use flow_arrow.Typecheck.Declare.{callable_signature, node_param_infos}
use flow_arrow.Typecheck.Aliases.{collect_type_aliases}
use flow_arrow.Typecheck.Effects.{
  callable_uses_io, symbol_effect_io, has, set_io, mark, mark_decls, infer_loop, infer_effects,
}
use flow_arrow.Typecheck.Collect.{
  insert_symbol, collect_callable, collect_callables, collect_foreigns, collect_imports,
  insert_intrinsics, new, declared_info,
}

-- The entry of a callable, with a signature.
abbrev pub HasEntry : Symbols → Callable → Type 0
HasEntry symbols callable =
    (info : CallableInfo) × (s : Signature) × (rest : List Signature) × (get callable.name symbols
      ≡ some info)
    × (info.signatures ≡ s ∷ rest)

abbrev pub HasEntries : Symbols → Decl → Type 0
HasEntries symbols (Decl.node_decl c) = HasEntry symbols c
HasEntries symbols (Decl.program c) = HasEntry symbols c
HasEntries symbols _ = Unit

-- Every entry stays, and so do its signatures.
abbrev pub Grows : Symbols → Symbols → Type 0
Grows u v =
    (n : Text) (info : CallableInfo)
    → get n u ≡ some info
    → (info' : CallableInfo) × (get n v ≡ some info') × (info'.signatures ≡ info.signatures)

pub Grows-refl : (u : Symbols) → Grows u u
Grows-refl u n info h = (info, h, refl)

pub Grows-trans : (u v w : Symbols) → Grows u v → Grows v w → Grows u w
Grows-trans u v w g k n info h = let (i, e, p) = g n info h in let (j, f, q) = k n i e in (j, f, cc)

insert-Grows :
    (name : Text) (info : CallableInfo) (u : Symbols)
    → is_some (get name u) ≡ false
    → Grows u ((name, info) ∷ u)
unfolding get
insert-Grows name info u h n i e = elim (Bool-cases (text_eq name n)) [
  | inl same ↦ absurd (cc (h, e, (text_eq_iff name n).0 same))
  | inr differ ↦ (i, rw differ e, refl)
]

-- An entry is marked, and the entries of the other names stay.
pub get-set_io :
    (name : Text) (u : Symbols) (info : CallableInfo)
    → get name u ≡ some info
    → get name (set_io name u) ≡ some (record info { effect = io })
unfolding get set_io
get-set_io name [] info h = cc
get-set_io name ((m, i) ∷ u) info h = elim (Bool-cases (text_eq m name)) [
  | inl same ↦
      let e : some i ≡ some info = rw same at h in
      rw (same) (
        rw same (
          ap
            (λ (o : Option CallableInfo). elim o [
              | some j ↦ some (record j { effect = io })
              | none ↦ none
            ])
            e))
  | inr differ ↦ rw (differ) (rw differ (get-set_io name u info (rw differ at h)))
]

pub get-set_io_other :
    (name n : Text) (u : Symbols) → text_eq name n ≡ false → get n (set_io name u) ≡ get n u
unfolding get set_io
get-set_io_other name n [] h = refl
get-set_io_other name n ((m, i) ∷ u) h = elim (Bool-cases (text_eq m name)) [
  | inl same ↦ rw (same, (text_eq_iff m name).0 same, h) refl
  | inr differ ↦ rw (differ, get-set_io_other name n u h) refl
]

pub set_io-Grows : (name : Text) (u : Symbols) → Grows u (set_io name u)
set_io-Grows name u n info h = elim (Bool-cases (text_eq name n)) [
  | inl same ↦
      let e : name ≡ n = (text_eq_iff name n).0 same in
      (record info { effect = io }, rw (← e) (get-set_io name u info (rw (← e) at h)), refl)
  | inr differ ↦ (info, rw (get-set_io_other name n u differ) h, refl)
]

mark-Grows : (c : Callable) (u : Symbols) (changed : Bool) → Grows u (mark c u changed).0
unfolding mark
mark-Grows c u changed = elim (Bool-cases (symbol_effect_io u c.name)) [
  | inl e ↦ rw e (Grows-refl u)
  | inr e ↦ elim (Bool-cases (callable_uses_io u c && has c.name u)) [
    | inl f ↦ rw (e, f) (set_io-Grows c.name u)
    | inr f ↦ rw (e, f) (Grows-refl u)
  ]
]

mark_decls-Grows :
    (ds : List Decl) (u : Symbols) (changed : Bool) → Grows u (mark_decls ds u changed).0
unfolding mark_decls
mark_decls-Grows [] u changed = Grows-refl u
mark_decls-Grows (Decl.node_decl c ∷ ds) u changed =
    Grows-trans _ _ _ (mark-Grows c u changed) (mark_decls-Grows ds _ _)
mark_decls-Grows (Decl.program c ∷ ds) u changed =
    Grows-trans _ _ _ (mark-Grows c u changed) (mark_decls-Grows ds _ _)
mark_decls-Grows (Decl.foreign_block _ ∷ ds) u changed = mark_decls-Grows ds u changed
mark_decls-Grows (Decl.type_alias _ ∷ ds) u changed = mark_decls-Grows ds u changed
mark_decls-Grows (Decl.struct_decl _ ∷ ds) u changed = mark_decls-Grows ds u changed
mark_decls-Grows (Decl.import_decl _ ∷ ds) u changed = mark_decls-Grows ds u changed

infer_loop-Grows : (f : ℕ) (ds : List Decl) (u v : Symbols) → infer_loop f ds u ≡ ok v → Grows u v
unfolding infer_loop
infer_loop-Grows zero ds u v h = cc
infer_loop-Grows (suc f) ds u v h = elim (Bool-cases (mark_decls ds u false).1) [
  | inl e ↦ Grows-trans _ _ _ (mark_decls-Grows ds u false) (infer_loop-Grows f ds _ v (rw e at h))
  | inr e ↦
      let g : (mark_decls ds u false).0 ≡ v = cc (rw e at h) in
      subst (Grows u) g (mark_decls-Grows ds u false)
]

get_head :
    (name : Text) (info : CallableInfo) (u : Symbols) → get name ((name, info) ∷ u) ≡ some info
unfolding get
get_head name info u = rw ((text_eq_iff name name).1 refl)

insert_symbol-Grows :
    (name : Text) (info : CallableInfo) (u v : Symbols)
    → insert_symbol name info u ≡ ok v
    → Grows u v × (v ≡ (name, info) ∷ u)
unfolding insert_symbol
insert_symbol-Grows name info u v h =
    let (new, e) = refuse-eq-ok (is_some (get name u)) (duplicate_symbol name) h in
    let g : (name, info) ∷ u ≡ v = cc e in (subst (Grows u) g (insert-Grows name info u new), sym g)

-- The entry of one callable.
collect_callable-HasEntry :
    (types : Vars) (kind : CallableKind) (c : Callable) (u v : Symbols)
    → collect_callable types kind c u ≡ ok v
    → Grows u v × HasEntry v c
unfolding collect_callable get
collect_callable-HasEntry types kind c u v h =
    let (s, _, h1) = >>=-eq-ok (callable_signature types c) _ h in
    let (params, _, h2) = >>=-eq-ok (node_param_infos types c) _ h1 in
    let (g, e) = insert_symbol-Grows c.name _ u v h2 in
    let info : CallableInfo = record (declared_info c.name s kind Effect.pure) {
      node_params = params;
    } in
    (g, (info, s, [], subst (λ w. get c.name w ≡ some info) (sym e) (get_head c.name info u), refl))

HasEntry-Grows : (c : Callable) (u v : Symbols) → Grows u v → HasEntry u c → HasEntry v c
HasEntry-Grows c u v g (info, s, rest, h, k) =
    let (info', e, p) = g c.name info h in (info', s, rest, e, p ∙ k)

HasEntries-Grows :
    (u v : Symbols) → Grows u v → (ds : List Decl) → All (HasEntries u) ds → All (HasEntries v) ds
HasEntries-Grows u v g [] h = tt
HasEntries-Grows u v g (Decl.node_decl c ∷ ds) (h, hs) =
    (HasEntry-Grows c u v g h, HasEntries-Grows u v g ds hs)
HasEntries-Grows u v g (Decl.program c ∷ ds) (h, hs) =
    (HasEntry-Grows c u v g h, HasEntries-Grows u v g ds hs)
HasEntries-Grows u v g (Decl.foreign_block _ ∷ ds) (h, hs) = (tt, HasEntries-Grows u v g ds hs)
HasEntries-Grows u v g (Decl.type_alias _ ∷ ds) (h, hs) = (tt, HasEntries-Grows u v g ds hs)
HasEntries-Grows u v g (Decl.struct_decl _ ∷ ds) (h, hs) = (tt, HasEntries-Grows u v g ds hs)
HasEntries-Grows u v g (Decl.import_decl _ ∷ ds) (h, hs) = (tt, HasEntries-Grows u v g ds hs)

collect_callables-HasEntries :
    (types : Vars) (ds : List Decl) (u v : Symbols)
    → collect_callables types ds u ≡ ok v
    → Grows u v × All (HasEntries v) ds
unfolding collect_callables
collect_callables-HasEntries types [] u v h = (subst (Grows u) (cc) (Grows-refl u), tt)
collect_callables-HasEntries types (Decl.node_decl c ∷ ds) u v h =
    let (w, e, h1) = >>=-eq-ok (collect_callable types node c u) _ h in
    let (g, x) = collect_callable-HasEntry types node c u w e in
    let (k, xs) = collect_callables-HasEntries types ds w v h1 in
    (Grows-trans u w v g k, (HasEntry-Grows c w v k x, xs))
collect_callables-HasEntries types (Decl.program c ∷ ds) u v h =
    let (w, e, h1) = >>=-eq-ok (collect_callable types program c u) _ h in
    let (g, x) = collect_callable-HasEntry types program c u w e in
    let (k, xs) = collect_callables-HasEntries types ds w v h1 in
    (Grows-trans u w v g k, (HasEntry-Grows c w v k x, xs))
collect_callables-HasEntries types (Decl.foreign_block _ ∷ ds) u v h =
    let (g, xs) = collect_callables-HasEntries types ds u v h in (g, (tt, xs))
collect_callables-HasEntries types (Decl.type_alias _ ∷ ds) u v h =
    let (g, xs) = collect_callables-HasEntries types ds u v h in (g, (tt, xs))
collect_callables-HasEntries types (Decl.struct_decl _ ∷ ds) u v h =
    let (g, xs) = collect_callables-HasEntries types ds u v h in (g, (tt, xs))
collect_callables-HasEntries types (Decl.import_decl _ ∷ ds) u v h =
    let (g, xs) = collect_callables-HasEntries types ds u v h in (g, (tt, xs))

-- What `Checker::new` returns has an entry for each callable of the module.
pub new-HasEntries :
    (table : List StdSymbol) (order : List Text → List Text) (source : Module) (c : Checker)
    → new table order source ≡ ok c
    → All (HasEntries c.symbols) c.source.declarations
unfolding new infer_effects
new-HasEntries table order source c h =
    let (c1, _, h1) =
      >>=-eq-ok
        (insert_intrinsics (module_symbols table intrinsic_module)
          (record { source = source; symbols = []; types = primitive_types }))
        _ h in
    let (c2, _, h2) = >>=-eq-ok (collect_imports table source.declarations c1) _ h1 in
    let (types, _, h3) = >>=-eq-ok (collect_type_aliases order source.declarations c2.types) _ h2 in
    let (foreigns, _, h4) =
      >>=-eq-ok (collect_foreigns types source.declarations c2.symbols) _ h3 in
    let (callables, e, h5) =
      >>=-eq-ok (collect_callables types source.declarations foreigns) _ h4 in
    let (symbols, f, h6) =
      >>=-eq-ok (infer_loop _ source.declarations callables)
        (λ symbols. ok (record { source = source; symbols = symbols; types = types })) h5 in
    let (_, xs) = collect_callables-HasEntries types source.declarations foreigns callables e in
    let g = infer_loop-Grows _ source.declarations callables symbols f in
    let k : record { source = source; symbols = symbols; types = types } ≡ c = cc h6 in
    subst (λ (c : Checker). All (HasEntries c.symbols) c.source.declarations) k
      (HasEntries-Grows callables symbols g source.declarations xs)
