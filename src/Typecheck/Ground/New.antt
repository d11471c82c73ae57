-- ===== src/Typecheck/Ground/New.antt =====
-- src/typecheck.rs: what `Checker::new` collects is sound, so every value of a typed module has a ground
-- type.
use flow_arrow.Prelude.{◌≡◌, List, [], ◌∷◌, Text, All, ok, Holds, held, ◌⨾◌, Holds-any, Holds-ok}
use flow_arrow.Ast.{Decl, Module}
use flow_arrow.Stdlib.{StdSymbol, module_symbols, intrinsic_module}
use flow_arrow.ModuleResolver.{ResolvedModule}
use flow_arrow.Typecheck.{Checker}
use flow_arrow.Typecheck.Effects.{infer_effects}
use flow_arrow.Typecheck.Collect.{new, typed_resolved_module}
use flow_arrow.Typecheck.Callable.{
  TypedModule, CheckMode, mode_check, type_decls, typed_module, check_foreign,
}
use flow_arrow.Typecheck.Ground.Nodes.{IsSound}
use flow_arrow.Typecheck.Ground.Chain.{GroundCallable, type_callable-Ground}
use flow_arrow.Typecheck.Ground.Library.{HasPlainOutputs, Sound-IsSound}
use flow_arrow.Typecheck.Ground.Imports.{
  intrinsics-Sound, module_symbols-Plain, collect_imports-Sound,
}
use flow_arrow.Typecheck.Ground.Declared.{
  collect_type_aliases-Sound, foreigns-Sound, callables-Sound, infer_loop-Sound,
}

-- All of `Checker::new`.
new-IsSound :
    (table : List StdSymbol) (order : List Text → List Text) (source : Module)
    → All HasPlainOutputs table
    → Holds IsSound (new table order source)
unfolding new infer_effects
new-IsSound table order source plain =
    intrinsics-Sound (module_symbols table intrinsic_module) _
      (module_symbols-Plain table intrinsic_module plain)
      (record { symbols = tt; types = ((tt, (tt, (tt, (tt, (tt, (tt, (tt, (tt, tt))))))))) })
    ⨾ λ c h. collect_imports-Sound table plain source.declarations c h ⨾ λ c' k.
        collect_type_aliases-Sound order source.declarations c'.types k.types ⨾ λ types g.
        foreigns-Sound types source.declarations c'.symbols k.symbols ⨾ λ foreigns u.
        callables-Sound types source.declarations foreigns u ⨾ λ callables v.
        infer_loop-Sound _ source.declarations callables v ⨾ λ symbols w.
        held (Sound-IsSound _ (record { symbols = w; types = g }))

type_decls-Ground :
    (self : Checker) (resolved : ResolvedModule) (decls : List Decl)
    → IsSound self
    → Holds (All GroundCallable) (type_decls self resolved decls)
unfolding type_decls
type_decls-Ground self resolved [] sound = held tt
type_decls-Ground self resolved (Decl.foreign_block f ∷ decls) sound =
    Holds-any (check_foreign self f) ⨾ λ _ _. type_decls-Ground self resolved decls sound
type_decls-Ground self resolved (Decl.node_decl c ∷ decls) sound =
    type_callable-Ground self resolved _ c sound ⨾ λ t h.
    type_decls-Ground self resolved decls sound ⨾ λ ts hs. held (h, hs)
type_decls-Ground self resolved (Decl.program c ∷ decls) sound =
    type_callable-Ground self resolved _ c sound ⨾ λ t h.
    type_decls-Ground self resolved decls sound ⨾ λ ts hs. held (h, hs)
type_decls-Ground self resolved (Decl.import_decl _ ∷ decls) sound =
    type_decls-Ground self resolved decls sound
type_decls-Ground self resolved (Decl.type_alias _ ∷ decls) sound =
    type_decls-Ground self resolved decls sound
type_decls-Ground self resolved (Decl.struct_decl _ ∷ decls) sound =
    type_decls-Ground self resolved decls sound

-- Where no output in the table of the standard library has a union, the type of every port of an accepted module
-- and of every value that its chains bind is ground: no type variable and no union is left in it.
pub typed_resolved_module-Ground :
    (table : List StdSymbol) (order : List Text → List Text) (resolved : ResolvedModule)
    (mode : CheckMode) (m : TypedModule)
    → All HasPlainOutputs table
    → typed_resolved_module table order resolved mode ≡ ok m
    → All GroundCallable m.callables
unfolding typed_resolved_module typed_module
typed_resolved_module-Ground table order resolved mode m plain e = Holds-ok typed e
  where
    typed :
        Holds
          (λ (m : TypedModule). All GroundCallable m.callables)
          (typed_resolved_module table order resolved mode)
    typed = new-IsSound table order resolved.root plain ⨾ λ c sound.
        Holds-any (mode_check c mode) ⨾ λ _ _.
        type_decls-Ground c resolved c.source.declarations sound ⨾ λ ts h. held h
