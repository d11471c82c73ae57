-- ===== src/Parser/Total/Body.antt =====
-- The parsers of a callable's body end: where they reach themselves, they have read a token.
use flow_arrow.Prelude.{ℕ, zero, suc, ◌≤◌, Bool, false, ◌≡◌, refl, List, [], ◌∷◌, Text, arith}
use flow_arrow.Source.{
  Token, ident, variable, discard, int, real, real_f32, bool, string, arrow, l_paren, l_brace,
  r_brace, l_bracket,
}
use flow_arrow.Ast.{Endpoint, BindingTarget, Stage, MatchGuard, MatchTarget}
use flow_arrow.Parser.{Parser, ◌>>=◌, pure, ident_of, while_eat}
use flow_arrow.Parser.Body.{
  parse_binding_tuple, binding_target, parse_binding_target, struct_field, parse_struct_literal,
  parse_tuple_or_unit, parse_seq, endpoint_atom, parse_endpoint_atom, match_target, match_args,
  match_guard, match_arm, match_loop, match_stage, parse_match_stage, parse_fault_map, repeat_count,
  parse_repeat, parse_fold, stage_of, stage_at, parse_stage, inline_step, chain, chain_step,
  parse_inline_endpoint, parse_chain, parse_block,
}
use flow_arrow.Parser.Ends.{
  is_end, Ends, Consumes, ConsumesAt, Ends-pure, Ends-error, Consumes-error, Consumes-nothing,
  Consumes-Ends, ConsumesAt-EndsAt, Consumes-ConsumesAt, Ends-EndsAt, Ends-if, Consumes-fewer,
  Ends-bind, Ends-after, Consumes-bind, Consumes-next,
}
use flow_arrow.Parser.Lookahead.{
  ConsumesAt-bind, ConsumesAt-keyword, EndsAt-bump, EndsAt-bump-next, Ends-peek, Consumes-peek,
  Consumes-peek_ident, eat-Ends, expect-Consumes, expect_keyword-Consumes,
}
use flow_arrow.Parser.Loops.{
  ends_rules, at_rules, comma_list-Consumes, while_eat-Ends, until_eat-Ends,
  parse_node_ref_text-Consumes,
}

module _ {n : ℕ} (f : ℕ) (l : n ≤ f) (target : Parser BindingTarget) (h : Consumes n target) where
  parse_binding_tuple-Consumes : Consumes (suc n) (parse_binding_tuple f target)
  unfolding parse_binding_tuple
  parse_binding_tuple-Consumes =
      Consumes-next (expect-Consumes l_paren refl) λ _. search (while_eat-Ends, ends_rules) depth 25

binding_target-at :
    {n : ℕ} (tuple : Parser BindingTarget) (t : Token)
    → Consumes n tuple
    → ConsumesAt n t (binding_target tuple t)
unfolding binding_target
binding_target-at tuple discard h = EndsAt-bump refl (λ _. Ends-pure _)
binding_target-at tuple (variable name) h = EndsAt-bump refl (λ _. Ends-pure _)
binding_target-at tuple l_paren h = Consumes-ConsumesAt h
binding_target-at tuple (ident name) h = Consumes-ConsumesAt (Consumes-error _)
binding_target-at tuple _ h = Consumes-ConsumesAt (Consumes-error _)

parse_binding_target-Consumes : (n f : ℕ) → n ≤ f → Consumes n (parse_binding_target f)
unfolding parse_binding_target
parse_binding_target-Consumes zero f l = Consumes-nothing _
parse_binding_target-Consumes (suc n) zero l = absurd (omega arith)
parse_binding_target-Consumes (suc n) (suc f) l = Consumes-peek _ λ t. binding_target-at _ t (
    parse_binding_tuple-Consumes (suc f) (omega arith) (parse_binding_target f)
      (parse_binding_target-Consumes n f (omega arith)))

module _ {n : ℕ} (f : ℕ) (l : suc n ≤ f) (inline : Parser Endpoint) (h : Consumes n inline) where
  struct_field-Consumes : Consumes n (struct_field f inline)
  unfolding struct_field
  struct_field-Consumes = search ends_rules depth 25

  below : n ≤ f
  below = omega arith

  parse_struct_literal-Ends : (name : Text) → Ends n (parse_struct_literal f inline name)
  unfolding parse_struct_literal
  parse_struct_literal-Ends name =
      search (comma_list-Consumes, struct_field-Consumes, below, ends_rules) depth 25

  parse_tuple_or_unit-Consumes : Consumes (suc n) (parse_tuple_or_unit f inline)
  unfolding parse_tuple_or_unit
  parse_tuple_or_unit-Consumes =
      Consumes-next (expect-Consumes l_paren refl)
        λ _. search (while_eat-Ends, below, ends_rules) depth 25

  parse_seq-Consumes : Consumes (suc n) (parse_seq f inline)
  unfolding parse_seq
  parse_seq-Consumes =
      Consumes-next (expect-Consumes l_bracket refl)
        λ _. search (comma_list-Consumes, below, ends_rules) depth 25

  endpoint_atom-at : (t : Token) → ConsumesAt (suc n) t (endpoint_atom f inline t)
  unfolding endpoint_atom
  endpoint_atom-at (variable _) = EndsAt-bump refl (λ _. Ends-pure _)
  endpoint_atom-at (int _) = EndsAt-bump refl (λ _. Ends-pure _)
  endpoint_atom-at (real _) = EndsAt-bump refl (λ _. Ends-pure _)
  endpoint_atom-at (real_f32 _) = EndsAt-bump refl (λ _. Ends-pure _)
  endpoint_atom-at (bool _) = EndsAt-bump refl (λ _. Ends-pure _)
  endpoint_atom-at (string _) = EndsAt-bump refl (λ _. Ends-pure _)
  endpoint_atom-at l_paren = Consumes-ConsumesAt parse_tuple_or_unit-Consumes
  endpoint_atom-at l_bracket = Consumes-ConsumesAt parse_seq-Consumes
  endpoint_atom-at (ident name) =
      EndsAt-bump-next refl λ _.
        Ends-peek _ λ next. Ends-EndsAt (search (parse_struct_literal-Ends, ends_rules) depth 25)
  endpoint_atom-at discard = Consumes-ConsumesAt (Consumes-error _)
  endpoint_atom-at _ = Consumes-ConsumesAt (Consumes-error _)

  parse_endpoint_atom-Consumes : Consumes (suc n) (parse_endpoint_atom f inline)
  unfolding parse_endpoint_atom
  parse_endpoint_atom-Consumes = Consumes-peek _ endpoint_atom-at

  match_target-at : (t : Token) → ConsumesAt n t (match_target f inline t)
  unfolding match_target
  match_target-at (ident _) =
      Consumes-ConsumesAt (search (parse_node_ref_text-Consumes, below, ends_rules) depth 25)
  match_target-at _ = Consumes-ConsumesAt (search ends_rules depth 25)

  match_args-Ends : Ends n (match_args f inline)
  unfolding match_args
  match_args-Ends = search (comma_list-Consumes, Consumes-Ends, below, ends_rules) depth 25

  match_guard-at : (t : Token) → ConsumesAt n t (match_guard f inline (ident_of t))
  unfolding match_guard
  match_guard-at t =
      ConsumesAt-keyword _ (λ _. Ends-pure _)
        (search (parse_node_ref_text-Consumes, match_args-Ends, below, ends_rules) depth 25)

  match_arm-Consumes : Consumes n (match_arm f inline)
  unfolding match_arm
  match_arm-Consumes = Consumes-peek_ident _ λ t. ConsumesAt-bind (match_guard-at t) λ guard.
      Ends-after (expect-Consumes arrow refl) λ _.
        Ends-peek _ λ t'. ConsumesAt-EndsAt (ConsumesAt-bind (match_target-at t') λ _. Ends-pure _)

  match_loop-Ends :
      {m : ℕ} (g : ℕ)
      → m ≤ g
      → Consumes m (match_arm f inline)
      → (saw : Bool) → Ends m (match_loop f inline g saw)
  unfolding match_loop
  match_loop-Ends {m = zero} g l' h' saw = Consumes-Ends (Consumes-nothing _)
  match_loop-Ends {m = suc m} zero l' h' saw = absurd (omega arith)
  match_loop-Ends {m = suc m} (suc g) l' h' saw = Ends-bind (eat-Ends r_brace refl) λ closed.
      Ends-if closed _ _ (Ends-pure _) (
        Ends-if saw _ _ (Ends-error _) (
          Consumes-Ends (
            Consumes-next h' λ arm.
              Ends-bind (match_loop-Ends g (omega arith) (Consumes-fewer (omega arith) h') _)
                λ _. Ends-pure _)))

  match_stage-Ends :
      {m : ℕ} (arms : List (MatchGuard × MatchTarget)) (saw : Bool) → Ends m (match_stage arms saw)
  unfolding match_stage
  match_stage-Ends [] saw = Ends-error _
  match_stage-Ends (_ ∷ _) saw = search ends_rules

  parse_match_stage-Consumes : Consumes (suc n) (parse_match_stage f inline)
  unfolding parse_match_stage
  parse_match_stage-Consumes = Consumes-next (expect_keyword-Consumes _) λ _.
      Ends-after (expect-Consumes l_brace refl) λ _.
        Ends-bind (match_loop-Ends f below match_arm-Consumes false)
          λ (arms, saw). match_stage-Ends arms saw

  parse_fault_map-Ends : Ends (suc n) (parse_fault_map f inline)
  unfolding parse_fault_map
  parse_fault_map-Ends = search (parse_node_ref_text-Consumes, ends_rules) depth 40

  repeat_count-Ends : (t : Token) → Ends (suc n) (repeat_count f inline t)
  unfolding repeat_count
  repeat_count-Ends (variable _) = Consumes-Ends parse_endpoint_atom-Consumes
  repeat_count-Ends (int _) = Consumes-Ends parse_endpoint_atom-Consumes
  repeat_count-Ends _ = Ends-error _

  parse_repeat-Ends : Ends (suc n) (parse_repeat f inline)
  unfolding parse_repeat
  parse_repeat-Ends = Ends-after (expect-Consumes _ refl) λ _. Ends-peek _ λ t.
      Ends-EndsAt (search (repeat_count-Ends, parse_node_ref_text-Consumes, ends_rules) depth 25)

  parse_fold-Ends : (make : Text → Endpoint → Stage) → Ends (suc n) (parse_fold f inline make)
  unfolding parse_fold
  parse_fold-Ends make =
      search (parse_node_ref_text-Consumes, parse_endpoint_atom-Consumes, ends_rules) depth 25

  -- A stage that starts with an identifier, on the token `t`, an identifier too.
  stage_of-at :
      (name : Text) (t : Token) → is_end t ≡ false → ConsumesAt (suc n) t (stage_of f inline name)
  unfolding stage_of
  stage_of-at name t ne =
      search
        (
          at_rules, parse_node_ref_text-Consumes, parse_fault_map-Ends, parse_repeat-Ends,
          parse_fold-Ends, parse_match_stage-Consumes, ends_rules,
        )
        depth 40

  bind-Consumes : Consumes (suc n) (parse_binding_target f >>= λ target. pure (Stage.bind target))
  bind-Consumes = Consumes-bind (parse_binding_target-Consumes (suc n) f l) λ _. Ends-pure _

  stage_at-at : (t : Token) → ConsumesAt (suc n) t (stage_at f inline t)
  unfolding stage_at
  stage_at-at (ident name) = stage_of-at name (ident name) refl
  stage_at-at (variable _) = Consumes-ConsumesAt bind-Consumes
  stage_at-at discard = Consumes-ConsumesAt bind-Consumes
  stage_at-at l_paren = Consumes-ConsumesAt bind-Consumes
  stage_at-at _ = Consumes-ConsumesAt (Consumes-bind parse_endpoint_atom-Consumes λ _. Ends-pure _)

  parse_stage-Consumes : Consumes (suc n) (parse_stage f inline)
  unfolding parse_stage
  parse_stage-Consumes = Consumes-peek _ stage_at-at

  stages-Ends : Ends (suc n) (while_eat f arrow (parse_stage f inline))
  stages-Ends = while_eat-Ends f arrow refl l parse_stage-Consumes

  inline_step-Consumes : Consumes (suc n) (inline_step f inline)
  unfolding inline_step
  inline_step-Consumes = search (parse_endpoint_atom-Consumes, stages-Ends, ends_rules) depth 25

  chain-Ends : (source : Endpoint) (stages : List Stage) → Ends (suc n) (chain source stages)
  chain-Ends source [] = Ends-error _
  chain-Ends source (_ ∷ _) = Ends-pure _

  chain_step-Consumes : Consumes (suc n) (chain_step f inline)
  unfolding chain_step
  chain_step-Consumes =
      search (parse_endpoint_atom-Consumes, stages-Ends, chain-Ends, ends_rules) depth 25

parse_inline_endpoint-Consumes : (n f : ℕ) → n ≤ f → Consumes n (parse_inline_endpoint f)
unfolding parse_inline_endpoint
parse_inline_endpoint-Consumes zero f l = Consumes-nothing _
parse_inline_endpoint-Consumes (suc n) zero l = absurd (omega arith)
parse_inline_endpoint-Consumes (suc n) (suc f) l =
    inline_step-Consumes (suc f) l (parse_inline_endpoint f)
      (parse_inline_endpoint-Consumes n f (omega arith))

parse_chain-Consumes : (n f : ℕ) → n ≤ f → Consumes n (parse_chain f)
unfolding parse_chain
parse_chain-Consumes zero f l = Consumes-nothing _
parse_chain-Consumes (suc n) f l =
    chain_step-Consumes f l (parse_inline_endpoint f)
      (parse_inline_endpoint-Consumes n f (omega arith))

pub parse_block-Consumes : (n f : ℕ) → n ≤ f → Consumes n (parse_block f)
unfolding parse_block
parse_block-Consumes n f l = search (until_eat-Ends, parse_chain-Consumes, ends_rules) depth 25
