-- ===== src/Typecheck/Aliases/Ends.antt =====
-- `collect_type_aliases` ends.
use flow_arrow.Prelude.{
  ℕ, zero, suc, ◌<◌, false, ◌≡◌, ◌≢◌, refl, ap, ◌∙◌, Option, none, some, List, [], ◌∷◌, Text, arith,
  ok, err, panic, out_of_fuel, if◌then◌else◌, Ensures, returns, raises, Ensures-if,
  Ensures-out_of_fuel, Ensures-panic, ◌⟫◌,
}
use flow_arrow.Types.{
  Ty, Types, Fields, stream, faultable, seq, tuple, one_of, struct, var, nil, cons, end, field,
}
use flow_arrow.Types.Substitute.{Vars, lookup}
use flow_arrow.Types.Syntax.Total.{parse_type_total}
use flow_arrow.Ast.{Port, Decl}
use flow_arrow.Typecheck.{
  CheckError, Check, get, is_some, unknown_type, unknown_alias, unknown_struct, cyclic_alias,
  cyclic_declaration,
}
use flow_arrow.Typecheck.Aliases.{
  Raw, Resolution, Resolve, on_stack, pop_name, push_name, resolve_name, resolve_type_alias_type,
  resolve_alias_items, resolve_alias_fields, resolve_alias_text, resolve_ports,
  resolve_struct_ports, memoized, resolve_type_alias, resolve_struct_type, declare_raw, collect_raw,
  resolve_all, alias_fuel, collect_type_aliases,
}
use flow_arrow.Typecheck.Aliases.Missing.{
  left, missing-length, missing-push, missing-get, some_or-Ensures, map_err-Ensures, unless,
  validate-Ends,
}

-- A run gives back the stack of the names in work.
abbrev Restores : {A : Type 0} → Resolution → A × Resolution → Type 0
Restores s x = x.1.resolving ≡ s.resolving

abbrev Ends : {A : Type 0} → Resolution → Check (A × Resolution) → Type 0
Ends s r = Ensures (Restores s) r

module _ (types : Vars) (raw : Raw) where
  -- With `fuel` a name is resolved beside any stack that leaves fewer names.
  abbrev Resolves : ℕ → (Text → Resolution → Resolve Ty) → Type 0
  Resolves fuel resolve =
      (name : Text) (s : Resolution) → left raw s.resolving < fuel → Ends s (resolve name s)

  module _ (fuel : ℕ) (alias declared : Text → Resolution → Resolve Ty) (h : Resolves fuel alias)
      (k : Resolves fuel declared) where
    name-Ends :
        (name : Text) (s : Resolution)
        → left raw s.resolving < fuel
        → Ends s (resolve_name types raw alias declared name s)
    unfolding resolve_name
    name-Ends name s l = go (lookup name types)
      where
        go :
            (o : Option Ty)
            → Ends s (elim o [
              | some known ↦ ok (known, s)
              | none ↦
                  if is_some (get name raw.aliases)
                  then alias name s
                  else if is_some (get name raw.structs)
                  then declared name s
                  else err (unknown_type name)
            ])
        go (some t) = returns refl
        go none =
            Ensures-if (is_some (get name raw.aliases)) (λ _. h name s l)
              λ _. Ensures-if (is_some (get name raw.structs)) (λ _. k name s l) (λ _. raises)

    -- A run that goes on from a state with the same stack.
    go_on :
        (s : Resolution) {A B : Type 0} (x : A × Resolution) {r : Check (B × Resolution)}
        → Restores s x
        → Ends x.1 r
        → Ends s r
    go_on s x e (returns f) = returns (f ∙ e)
    go_on s x e raises = raises

    still :
        (s : Resolution) {A : Type 0} (x : A × Resolution)
        → Restores s x
        → left raw s.resolving < fuel
        → left raw x.1.resolving < fuel
    still s x e l = rw e l

    mutual
      unfolding resolve_type_alias_type

      type-Ends :
          (t : Ty) (s : Resolution)
          → left raw s.resolving < fuel
          → Ends s (resolve_type_alias_type types raw alias declared t s)
      type-Ends (var name) s l = name-Ends name s l
      type-Ends (faultable t) s l = type-Ends t s l ⟫ λ x e. returns e
      type-Ends (seq t) s l = type-Ends t s l ⟫ λ x e. returns e
      type-Ends (stream t) s l = type-Ends t s l ⟫ λ x e. returns e
      type-Ends (one_of ts) s l = items-Ends ts s l ⟫ λ x e. returns e
      type-Ends (tuple ts) s l = items-Ends ts s l ⟫ λ x e. returns e
      type-Ends (struct _ fs) s l = fields-Ends fs s l ⟫ λ x e. returns e
      type-Ends t s l = returns refl

      items-Ends :
          (ts : Types) (s : Resolution)
          → left raw s.resolving < fuel
          → Ends s (resolve_alias_items types raw alias declared ts s)
      items-Ends nil s l = returns refl
      items-Ends (cons t ts) s l = type-Ends t s l ⟫ λ x e.
          go_on s x e (items-Ends ts x.1 (still s x e l) ⟫ λ y f. returns f)

      fields-Ends :
          (fs : Fields) (s : Resolution)
          → left raw s.resolving < fuel
          → Ends s (resolve_alias_fields types raw alias declared fs s)
      fields-Ends end s l = returns refl
      fields-Ends (field _ t fs) s l = type-Ends t s l ⟫ λ x e.
          go_on s x e (fields-Ends fs x.1 (still s x e l) ⟫ λ y f. returns f)

    ports-Ends :
        (name : Text) (done : Fields) (ports : List Port) (s : Resolution)
        → left raw s.resolving < fuel
        → Ends s (resolve_ports types raw alias declared name done ports s)
    unfolding resolve_ports
    ports-Ends name done [] s l = returns refl
    ports-Ends name done (p ∷ ports) s l = unless _ _ (
        map_err-Ensures (parse_type_total p.ty) ⟫ λ parsed _.
        type-Ends parsed s l ⟫ λ x e. go_on s x e (ports-Ends name _ ports x.1 (still s x e l)))

    -- The name goes on the stack, and one name less is left.
    alias_text-Ends :
        (name : Text) (s : Resolution)
        → on_stack name s.resolving ≡ false
        → left raw s.resolving < suc fuel
        → Ends s (resolve_alias_text types raw alias declared name s)
    unfolding resolve_alias_text
    alias_text-Ends name s free l =
        some_or-Ensures (get name raw.aliases) (unknown_alias name) ⟫ λ text g.
        map_err-Ensures (parse_type_total text) ⟫ λ parsed _.
        type-Ends parsed (push_name name s) (
          omega (
            arith,
            missing-get name raw.aliases s.resolving text g free,
            missing-push name raw.structs s.resolving,
          ))
        ⟫ λ x e. returns (ap pop_name e)

    struct_ports-Ends :
        (name : Text) (s : Resolution)
        → on_stack name s.resolving ≡ false
        → left raw s.resolving < suc fuel
        → Ends s (resolve_struct_ports types raw alias declared name s)
    unfolding resolve_struct_ports
    struct_ports-Ends name s free l =
        some_or-Ensures (get name raw.structs) (unknown_struct name) ⟫ λ ports g.
        ports-Ends name end ports (push_name name s) (
          omega (
            arith,
            missing-get name raw.structs s.resolving ports g free,
            missing-push name raw.aliases s.resolving,
          ))
        ⟫ λ x e. returns (ap pop_name e)

  memoized-Ends :
      (cyclic : List Text → CheckError) (resolve : Text → Resolution → Resolve Ty) (name : Text)
      (s : Resolution)
      → (on_stack name s.resolving ≡ false → Ends s (resolve name s))
      → Ends s (memoized types raw (λ names. err (cyclic names)) resolve name s)
  memoized-Ends cyclic resolve name s h = go (lookup name s.resolved)
    where
      go :
          (o : Option Ty)
          → Ends s (elim o [
            | some t ↦ ok (t, s)
            | none ↦
                if on_stack name s.resolving
                then err (cyclic (name ∷ s.resolving))
                else resolve name s
          ])
      go (some t) = returns refl
      go none = Ensures-if (on_stack name s.resolving) (λ _. raises) h

  mutual
    unfolding resolve_type_alias

    alias-Resolves : (fuel : ℕ) → Resolves fuel (resolve_type_alias types raw fuel)
    alias-Resolves zero name s l = absurd (omega (arith, l))
    alias-Resolves (suc fuel) name s l =
        memoized-Ends cyclic_alias
          (resolve_alias_text types raw (resolve_type_alias types raw fuel)
            (resolve_struct_type types raw fuel))
          name s
          λ free.
            alias_text-Ends fuel (resolve_type_alias types raw fuel)
              (resolve_struct_type types raw fuel) (alias-Resolves fuel) (struct-Resolves fuel) name
              s free l

    struct-Resolves : (fuel : ℕ) → Resolves fuel (resolve_struct_type types raw fuel)
    struct-Resolves zero name s l = absurd (omega (arith, l))
    struct-Resolves (suc fuel) name s l =
        memoized-Ends cyclic_declaration
          (resolve_struct_ports types raw (resolve_type_alias types raw fuel)
            (resolve_struct_type types raw fuel))
          name s
          λ free.
            struct_ports-Ends fuel (resolve_type_alias types raw fuel)
              (resolve_struct_type types raw fuel) (alias-Resolves fuel) (struct-Resolves fuel) name
              s free l

resolve_all-Ends :
    (raw : Raw) (resolve : Vars → Text → Resolution → Resolve Ty)
    → ((types : Vars) → Resolves types raw (alias_fuel raw) (resolve types))
    → (names : List Text) (types resolved : Vars)
    → Ensures (λ _. Unit {0}) (resolve_all resolve names types resolved)
unfolding resolve_all
resolve_all-Ends raw resolve h [] types resolved = returns tt
resolve_all-Ends raw resolve h (name ∷ names) types resolved =
    h types name (record { resolved = resolved; resolving = [] })
      (omega (arith, missing-length raw.aliases, missing-length raw.structs))
    ⟫ λ x _. validate-Ends types x.0 ⟫ λ _ _. resolve_all-Ends raw resolve h names _ x.1.resolved

collect_raw-Ends :
    (types : Vars) (decls : List Decl) (raw : Raw)
    → Ensures (λ _. Unit {0}) (collect_raw types decls raw)
unfolding collect_raw declare_raw
collect_raw-Ends types [] raw = returns tt
collect_raw-Ends types (Decl.type_alias a ∷ decls) raw = unless _ _ (collect_raw-Ends types decls _)
collect_raw-Ends types (Decl.struct_decl d ∷ decls) raw =
    unless _ _ (collect_raw-Ends types decls _)
collect_raw-Ends types (Decl.import_decl _ ∷ decls) raw = collect_raw-Ends types decls raw
collect_raw-Ends types (Decl.node_decl _ ∷ decls) raw = collect_raw-Ends types decls raw
collect_raw-Ends types (Decl.program _ ∷ decls) raw = collect_raw-Ends types decls raw
collect_raw-Ends types (Decl.foreign_block _ ∷ decls) raw = collect_raw-Ends types decls raw

-- The types that a module declares are resolved or refused: with one unit of fuel for each declared name and one
-- more no run is cut off, whatever names refer to each other, and none panics.
pub collect_type_aliases_total :
    (order : List Text → List Text) (decls : List Decl) (types : Vars)
    → (collect_type_aliases order decls types ≢ out_of_fuel)
      × (collect_type_aliases order decls types ≢ panic)
unfolding collect_type_aliases
collect_type_aliases_total order decls types = (Ensures-out_of_fuel ends, Ensures-panic ends)
  where
    ends : Ensures (λ _. Unit {0}) (collect_type_aliases order decls types)
    ends = collect_raw-Ends types decls _ ⟫ λ raw _.
        resolve_all-Ends raw _ (λ types. struct-Resolves types raw (alias_fuel raw)) _ types []
        ⟫ λ x _.
            resolve_all-Ends raw _ (λ types. alias-Resolves types raw (alias_fuel raw)) _ x.0 x.1
            ⟫ λ _ _. returns tt
