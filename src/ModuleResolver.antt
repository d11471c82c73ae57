-- ===== src/ModuleResolver.antt =====
-- src/module_resolver.rs: the symbols of a resolved module, which the checker reads.
use flow_arrow.Prelude.{ℕ, Option, List, Text}
use flow_arrow.Ast.{Module}
use flow_arrow.Typecheck.{get}

pub data ResolvedSymbolKind : Type 0 where
  type callable : ResolvedSymbolKind

pub data ResolvedSymbolOrigin : Type 0 where
  source stdlib_builtin foreign : ResolvedSymbolOrigin

pub record ResolvedSymbol : Type 0 where
  pub id : ℕ
  pub module_id : ℕ
  pub public_name : Text
  pub internal_name : Text
  pub kind : ResolvedSymbolKind
  pub origin : ResolvedSymbolOrigin

-- The field `modules`, the names of the source modules, is left out.
pub record ResolvedModule : Type 0 where
  pub root : Module
  pub symbols : List ResolvedSymbol
  pub names : List (Text × ℕ)

unfoldable pub symbol_id : ResolvedModule → Text → Option ℕ
symbol_id resolved name = get name resolved.names
