-- ===== src/Parser/Total/Items.antt =====
-- The parsers of the declarations that hold no chain end.
use flow_arrow.Prelude.{
  ℕ, zero, suc, ◌≤◌, Bool, true, false, ◌≡◌, ◌≢◌, refl, List, [], ◌∷◌, Text, arith, if◌then◌else◌,
}
use flow_arrow.Source.{Token, Message, ident, string, eof}
use flow_arrow.Ast.{ForeignTarget, ForeignSource, ForeignNode, js, c}
use flow_arrow.Parser.{Parser}
use flow_arrow.Parser.Items.{
  TypeStep, take, stop, fail, type_step, type_turn, type_loop, parse_type_name, parse_port,
  parse_port_list, parse_port_or_list, parse_inputs, parse_type_alias, parse_struct_decl,
  import_source, import_item, import_clause, parse_import, foreign_target, header_source,
  foreign_source, foreign_effect, parse_foreign_node, foreign_block, parse_foreign, param_input,
  node_param, parse_node_params,
}
use flow_arrow.Parser.Ends.{
  is_end, Ends, Consumes, EndsAt, ConsumesAt, Ends-pure, Consumes-error, Consumes-nothing,
  Consumes-Ends, ConsumesAt-EndsAt, Consumes-ConsumesAt, Ends-EndsAt, Consumes-if, Consumes-later,
}
use flow_arrow.Parser.Lookahead.{
  ConsumesAt-bind, eat-Ends, EndsAt-bump, EndsAt-bump-next, Ends-peek, Consumes-peek,
}
use flow_arrow.Parser.Loops.{
  ends_rules, comma_list-Consumes, while_eat-Ends, until_eat-Ends, parse_qualified_ident-Consumes,
}

ends_or_fails :
    (b c : Bool) (m m' : Message) {text' : Text} {depth' : ℕ}
    → (if b then stop else if c then fail m else fail m') ≢ take text' depth'
ends_or_fails true _ _ _ = cc
ends_or_fails false true _ _ = cc
ends_or_fails false false _ _ = cc

type_step-is_end :
    (text : Text) (depth : ℕ) (t : Token) {text' : Text} {depth' : ℕ}
    → type_step text depth t ≡ take text' depth'
    → is_end t ≡ false
unfolding type_step
type_step-is_end text depth eof e = absurd (ends_or_fails _ _ _ _ e)
type_step-is_end text depth _ e = refl

type_turn-Ends :
    {n : ℕ} (loop : Text → ℕ → Parser Text) (text : Text) (depth : ℕ) (t : Token) (s : TypeStep)
    → ((text' : Text) (depth' : ℕ) → s ≡ take text' depth' → is_end t ≡ false)
    → ((text' : Text) (depth' : ℕ) → Ends n (loop text' depth'))
    → EndsAt (suc n) t (type_turn loop text depth s)
unfolding type_turn
type_turn-Ends loop text depth t (take text' depth') ne k =
    ConsumesAt-EndsAt (EndsAt-bump-next (ne text' depth' refl) (λ _. k text' depth'))
type_turn-Ends loop text depth t stop ne k = Ends-EndsAt (search ends_rules)
type_turn-Ends loop text depth t (fail message) ne k = Ends-EndsAt (search ends_rules)

type_loop-Ends : (n f : ℕ) → n ≤ f → (text : Text) (depth : ℕ) → Ends n (type_loop f text depth)
unfolding type_loop
type_loop-Ends zero f l text depth = Consumes-Ends (Consumes-nothing _)
type_loop-Ends (suc n) zero l text depth = absurd (omega arith)
type_loop-Ends (suc n) (suc f) l text depth = Ends-peek _ λ t.
    type_turn-Ends (type_loop f) text depth t (type_step text depth t)
      (λ _ _. type_step-is_end text depth t) (type_loop-Ends n f (omega arith))

import_item-Consumes : {n : ℕ} → Consumes n import_item
unfolding import_item
import_item-Consumes = search ends_rules depth 25

header_source-Ends : {n : ℕ} → Ends n header_source
unfolding header_source
header_source-Ends = search ends_rules depth 25

foreign_target-Ends : {n : ℕ} (name : Text) → Ends n (foreign_target name)
unfolding foreign_target
foreign_target-Ends name = search ends_rules depth 25

foreign_source-Ends :
    {n : ℕ} (target : ForeignTarget) (kind : Text) → Ends n (foreign_source target kind)
unfolding foreign_source
foreign_source-Ends js kind = search ends_rules depth 25
foreign_source-Ends c kind = search (header_source-Ends, ends_rules) depth 25

foreign_effect-Ends : {n : ℕ} (name : Text) → Ends n (foreign_effect name)
unfolding foreign_effect
foreign_effect-Ends name = search ends_rules depth 25

foreign_block-Ends :
    {n : ℕ} (target : ForeignTarget) (source : ForeignSource) (nodes : List ForeignNode)
    → Ends n (foreign_block target source nodes)
foreign_block-Ends target source [] = search ends_rules
foreign_block-Ends target source (_ ∷ _) = search ends_rules

module _ {n : ℕ} (f : ℕ) (l : n ≤ f) where
  parse_type_name-Ends : Ends n (parse_type_name f)
  unfolding parse_type_name
  parse_type_name-Ends = type_loop-Ends n f l [] 0

  parse_port-Consumes : Consumes n (parse_port f)
  unfolding parse_port
  parse_port-Consumes = search (parse_type_name-Ends, ends_rules) depth 25

  parse_port_list-Consumes : Consumes n (parse_port_list f)
  unfolding parse_port_list
  parse_port_list-Consumes = search (while_eat-Ends, parse_port-Consumes, ends_rules) depth 25

  pub parse_port_or_list-Consumes : Consumes n (parse_port_or_list f)
  unfolding parse_port_or_list
  parse_port_or_list-Consumes = Consumes-later (eat-Ends _ refl) λ opened.
      Consumes-if opened _ _ (search (parse_port_list-Consumes, ends_rules) depth 25)
        (search (parse_port-Consumes, ends_rules) depth 25)

  pub parse_inputs-Consumes : Consumes n (parse_inputs f)
  unfolding parse_inputs
  parse_inputs-Consumes = search (parse_port_list-Consumes, ends_rules) depth 25

  pub parse_type_alias-Consumes : Consumes n (parse_type_alias f)
  unfolding parse_type_alias
  parse_type_alias-Consumes = search (parse_type_name-Ends, ends_rules) depth 25

  pub parse_struct_decl-Consumes : Consumes n (parse_struct_decl f)
  unfolding parse_struct_decl
  parse_struct_decl-Consumes =
      search (comma_list-Consumes, parse_port-Consumes, ends_rules) depth 25

  import_source-at : (t : Token) → ConsumesAt n t (import_source f t)
  unfolding import_source
  import_source-at (string path) = EndsAt-bump refl (λ _. Ends-pure _)
  import_source-at (ident name) =
      Consumes-ConsumesAt (search (parse_qualified_ident-Consumes, ends_rules) depth 25)
  import_source-at _ = Consumes-ConsumesAt (Consumes-error _)

  import_clause-Ends : Ends n (import_clause f)
  unfolding import_clause
  import_clause-Ends =
      search (comma_list-Consumes, Consumes-Ends, import_item-Consumes, ends_rules) depth 25

  pub parse_import-Consumes : Consumes n (parse_import f)
  unfolding parse_import
  parse_import-Consumes = Consumes-peek _ λ t.
      ConsumesAt-bind (import_source-at t)
        λ source. search (import_clause-Ends, ends_rules) depth 25

  parse_foreign_node-Consumes : Consumes n (parse_foreign_node f)
  unfolding parse_foreign_node
  parse_foreign_node-Consumes =
      search
        (
          foreign_effect-Ends, parse_inputs-Consumes, parse_port_or_list-Consumes,
          parse_qualified_ident-Consumes, ends_rules,
        )
        depth 25

  pub parse_foreign-Consumes : Consumes n (parse_foreign f)
  unfolding parse_foreign
  parse_foreign-Consumes =
      search
        (
          foreign_target-Ends, foreign_source-Ends, until_eat-Ends, parse_foreign_node-Consumes,
          foreign_block-Ends, ends_rules,
        )
        depth 25

  param_input-Ends : Ends n (param_input f)
  unfolding param_input
  param_input-Ends = search (parse_type_name-Ends, ends_rules) depth 25

  node_param-Consumes : Consumes n (node_param f)
  unfolding node_param
  node_param-Consumes = search (param_input-Ends, parse_type_name-Ends, ends_rules) depth 25

  pub parse_node_params-Ends : Ends n (parse_node_params f)
  unfolding parse_node_params
  parse_node_params-Ends =
      search (comma_list-Consumes, Consumes-Ends, node_param-Consumes, ends_rules) depth 25
