-- ===== src/Lib.antt =====
-- FlowArrow's front end: lexer, parser, syntax tree, node references, the expansion of static nodes, the types
-- of the checker, and the type checker.
--
-- The compiler reads a source text (src/lexer.rs), parses the tokens into a module (src/parser.rs, whose
-- result is src/ast.rs), expands the nodes with static parameters (src/monomorphize.rs, which reads the
-- node references of src/node_ref.rs), and checks the module (src/typecheck.rs) with the operations on types
-- of src/types.rs, the symbols of src/stdlib.rs and the names that src/module_resolver.rs resolved.
--
-- - Prelude: tests, lists, the result type `Outcome` with its rules, characters as code points, and
--   64-bit integers. `Outcome.err` is an `Err` of the program, `panic` is a Rust panic, and `out_of_fuel`
--   has no counterpart in it.
-- - Source: positions, spans and diagnostics of src/diagnostic.rs, and the tokens of src/lexer.rs.
-- - Lexer: src/lexer.rs. `chars` from `pos` on is the list `rest`. Lexer.Moves says how the position
--   follows the characters, Lexer.Steps what a turn of the loop does, Lexer.Tiling what the tokens are.
--   The loop takes one unit of fuel for each character and one more.
-- - Ast: src/ast.rs.
-- - Parser: src/parser.rs. The state is the list of the tokens from `pos` on. Parser holds the cursor and
--   the shapes of the loops, Parser.Items the declarations without chains, Parser.Body the bodies and
--   Parser.Module the rest, with `parse_diagnostic`. The functions that reach `parse_inline_endpoint` take
--   it as an argument, which it fills with itself on less fuel. Fuel is one unit for each token. Parser.Ends,
--   Parser.Lookahead, Parser.Loops and Parser.Total are the proof that the parser ends; Parser.Yields and
--   Parser.Formed are about what it returns, in the terms of Ast.Formed.
-- - NodeRef: src/node_ref.rs.
-- - Monomorphize: src/monomorphize.rs. Monomorphize.Rewrite holds the state, which actions pass on, and the
--   rewriting of node names over the function that renames one. `instantiate` takes fuel for the depth of
--   instances within instances: each takes a key that has no entry, so one unit more than there are keys
--   is enough. Monomorphize.Keys counts them, Monomorphize.Bounded and Monomorphize.Total use the count;
--   Monomorphize.Keeps, Monomorphize.Renaming and Monomorphize.Expanded are about what the state keeps.
-- - Types: src/types.rs. Types.Match is `match_types`, `assignable_type` and `common_assignable_type`,
--   with fuel for the nodes of both types; Types.Substitute the two substitutions; Types.Syntax the text
--   of a type and the parser of it, with fuel for three calls on each character. Type variables are
--   bound in an association list in place of a `HashMap`, of which the code only looks up and inserts.
--   Types.Unwrap describes what a type becomes where faults are handed on, for Types.Match.Assign.
-- - Stdlib: what src/typecheck.rs asks of src/stdlib.rs. The table of symbols is an argument, `table`.
-- - ModuleResolver: the resolved module of src/module_resolver.rs, which the checker labels its tree with.
-- - Typecheck: src/typecheck.rs, with the checker's two maps as association lists. Typecheck.Collect is
--   `Checker::new`, with the declared types in Typecheck.Aliases and the effects in Typecheck.Effects.
--   Typecheck.Declare reads the types of ports, Typecheck.Nodes resolves and applies a node, Typecheck.Apply
--   the stages over nodes, Typecheck.Endpoint types values and matches, Typecheck.Chain checks a chain,
--   Typecheck.Typed builds the typed tree and Typecheck.Callable checks and types the declarations.
--   `collect_type_aliases` takes one unit of fuel for each declared type and one more, since a name in work
--   is not entered again. `infer_effects` takes one for each symbol and one more, since a round that goes on
--   marks a symbol. The order in which a hash map lists its keys is an argument, `order`.
--   Typecheck.Aliases.Missing counts the names that are not in work, for Typecheck.Aliases.Ends.
--   Typecheck.Agree relates the check and the typed tree, Typecheck.Entries follows the entries of the
--   callables, Typecheck.Effects.Calls, Typecheck.Effects.Marks and Typecheck.Effects.Reaches are about
--   the effects,
--   Typecheck.Nodes.Faults about faults, Typecheck.Chain.Single about the bindings of chains, and
--   Typecheck.Ground with its children about the types in the typed tree.
--
-- Lines and characters of a position are numbers, where the program has a `u32`: they agree below 2^32.
-- Texts are lists of code points, and white space is what Unicode calls so, as for `char::is_whitespace`.
-- A real literal keeps its text: the value that `parse` reads from it is not modelled.
-- Messages are constructors that hold what the program formats into the text.
--
-- Not modelled: in the type checker, the free functions that call the module resolver (`check_module`,
-- `typed_module`, `typed_library_module` and those that take a base directory), the look-ups in a typed module,
-- and the labels of the typed tree; the formatter; the module resolver, which reads files; the generation
-- of code, the language server, the native build, and the tables of the standard library with their C text.
pub mod Prelude
pub mod Source
pub mod Lexer
pub mod Ast
pub mod NodeRef
pub mod Parser
pub mod Monomorphize
pub mod Types
pub mod Stdlib
pub mod ModuleResolver
pub mod Typecheck
