-- ===== src/Parser/Formed.antt =====
-- What the parser returns is formed as the syntax of the language says.
mod Body
use flow_arrow.Prelude
use flow_arrow.Prelude.{◌≡◌, refl, Outcome, if◌then◌else◌}
use flow_arrow.Source.{comma}
use flow_arrow.Ast.{Port, StructDecl, ForeignBlock, Callable, Module}
use flow_arrow.Parser.{Parser}
use flow_arrow.Parser.Yields.{Yields}
