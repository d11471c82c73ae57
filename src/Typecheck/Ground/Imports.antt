-- ===== src/Typecheck/Ground/Imports.antt =====
-- src/typecheck.rs: what `collect_imports` adds to the checker is sound.
use flow_arrow.Prelude.{
  ◌&&◌, ◌≡◌, subst, some, List, [], ◌∷◌, ◌++◌, Text, text_eq, Bool-cases, inl, inr, All, Holds,
  held, ◌⨾◌, Holds-if,
}
use flow_arrow.Ast.{ImportItem, ImportSource, ImportClause, module_path, local, Decl}
use flow_arrow.Stdlib.{StdSymbol, is_unsupported, module_symbols, find_export}
use flow_arrow.Typecheck.{Checker}
use flow_arrow.Typecheck.Collect.{
  insert_intrinsics, insert_module, insert_items, insert_clause, insert_import, collect_imports,
}
use flow_arrow.Typecheck.Ground.Nodes.{some_or-Holds, after_refuse}
use flow_arrow.Typecheck.Ground.Library.{HasPlainOutputs, Sound, insert_std_symbol-Sound}

pub intrinsics-Sound :
    (symbols : List StdSymbol) (c : Checker)
    → All HasPlainOutputs symbols
    → Sound c
    → Holds Sound (insert_intrinsics symbols c)
unfolding insert_intrinsics
intrinsics-Sound [] c p h = held h
intrinsics-Sound (s ∷ symbols) c (p, ps) h =
    insert_std_symbol-Sound s.name s c p h ⨾ λ c' k. intrinsics-Sound symbols c' ps k

pub module_symbols-Plain :
    (table : List StdSymbol) (home : Text)
    → All HasPlainOutputs table
    → All HasPlainOutputs (module_symbols table home)
unfolding module_symbols
module_symbols-Plain [] home h = tt
module_symbols-Plain (s ∷ table) home (h, hs) = elim (Bool-cases (text_eq s.home home)) [
  | inl same ↦ rw same (h, module_symbols-Plain table home hs)
  | inr differ ↦ rw differ (module_symbols-Plain table home hs)
]

pub find_export-Plain :
    (table : List StdSymbol) (home name : Text) (s : StdSymbol)
    → All HasPlainOutputs table
    → find_export table home name ≡ some s
    → HasPlainOutputs s
unfolding find_export
find_export-Plain [] home name s h e = cc
find_export-Plain (t ∷ table) home name s (h, hs) e =
    elim (Bool-cases (text_eq t.home home && text_eq t.name name)) [
      | inl same ↦ subst HasPlainOutputs {x = t} {y = s} (cc (rw same at e)) h
      | inr differ ↦ find_export-Plain table home name s hs (rw differ at e)
    ]

pub insert_module-Sound :
    (alias : Text) (symbols : List StdSymbol) (c : Checker)
    → All HasPlainOutputs symbols
    → Sound c
    → Holds Sound (insert_module alias symbols c)
unfolding insert_module
insert_module-Sound alias [] c p h = held h
insert_module-Sound alias (s ∷ symbols) c (p, ps) h =
    Holds-if (is_unsupported s.runtime) (λ _. held h)
      (λ _. insert_std_symbol-Sound (alias ++ b'.' ∷ s.name) s c p h)
    ⨾ λ c' k. insert_module-Sound alias symbols c' ps k

module _ (table : List StdSymbol) (plain : All HasPlainOutputs table) where
  pub insert_items-Sound :
      (home : Text) (items : List ImportItem) (c : Checker)
      → Sound c
      → Holds Sound (insert_items table home items c)
  unfolding insert_items
  insert_items-Sound home [] c h = held h
  insert_items-Sound home (item ∷ items) c h =
      some_or-Holds (find_export table home item.name) _ ⨾ λ s e.
      insert_std_symbol-Sound _ s c (find_export-Plain table home item.name s plain e) h ⨾ λ c' k.
      insert_items-Sound home items c' k

  pub insert_clause-Sound :
      (home : Text) (clause : ImportClause) (c : Checker)
      → Sound c
      → Holds Sound (insert_clause table home clause c)
  insert_clause-Sound home (ImportClause.alias alias) c h =
      insert_module-Sound alias (module_symbols table home) c
        (module_symbols-Plain table home plain) h
      ⨾ λ c' k. after_refuse _ _ (held k)
  insert_clause-Sound home (ImportClause.items items) c h = insert_items-Sound home items c h

  pub insert_import-Sound :
      (source : ImportSource) (clause : ImportClause) (c : Checker)
      → Sound c
      → Holds Sound (insert_import table source clause c)
  insert_import-Sound (local _) clause c h = held h
  insert_import-Sound (module_path home) clause c h =
      after_refuse _ _ (insert_clause-Sound home clause c h)

  pub collect_imports-Sound :
      (decls : List Decl) (c : Checker) → Sound c → Holds Sound (collect_imports table decls c)
  unfolding collect_imports
  collect_imports-Sound [] c h = held h
  collect_imports-Sound (Decl.import_decl i ∷ decls) c h =
      insert_import-Sound i.source i.clause c h ⨾ λ c' k. collect_imports-Sound decls c' k
  collect_imports-Sound (Decl.node_decl _ ∷ decls) c h = collect_imports-Sound decls c h
  collect_imports-Sound (Decl.program _ ∷ decls) c h = collect_imports-Sound decls c h
  collect_imports-Sound (Decl.foreign_block _ ∷ decls) c h = collect_imports-Sound decls c h
  collect_imports-Sound (Decl.type_alias _ ∷ decls) c h = collect_imports-Sound decls c h
  collect_imports-Sound (Decl.struct_decl _ ∷ decls) c h = collect_imports-Sound decls c h
