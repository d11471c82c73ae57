-- ===== src/Parser/Body.antt =====
-- src/parser.rs: the body of a callable. A parser that the code reaches through `parse_inline_endpoint`
-- takes it as an argument, and the fuel of its loops as the argument before.
use flow_arrow.Prelude.{
  ℕ, zero, suc, Bool, true, false, Option, List, [], ◌∷◌, Text, codes, text_eq, out_of_fuel,
  if◌then◌else◌,
}
use flow_arrow.Source.{
  Token, ident, variable, discard, int, real, real_f32, bool, string, arrow, l_paren, r_paren,
  l_brace, r_brace, l_bracket, r_bracket, less, greater, comma, colon, expected_repeat_count,
  expected_binding_target, expected_endpoint, missing_prefix_binding, missing_prefix_value,
  empty_literal, no_stage, fallback_not_last, no_arm, no_fallback, discard_as_value,
}
use flow_arrow.Ast.{
  BindingTarget, Endpoint, Stage, MatchTarget, MatchGuard, Chain, to_targets, to_endpoints,
  to_fields, to_stages, to_arms,
}
use flow_arrow.Parser.{
  Parser, pure, ◌>>=◌, ◌>>◌, peek, error_here, bump, token_eq, eat, expect, peek_ident, is_keyword,
  expect_keyword, expect_ident, expect_variable, comma_list, while_eat, until_eat,
  parse_node_ref_text,
}

-- `parse_binding_tuple`, over `parse_binding_target`.
unfoldable pub parse_binding_tuple : ℕ → Parser BindingTarget → Parser BindingTarget
parse_binding_tuple f target = do
  expect l_paren
  first ← target
  expect comma
  second ← target
  more ← while_eat f comma target
  expect r_paren
  pure (BindingTarget.tuple (to_targets (first ∷ second ∷ more)))

unfoldable pub binding_target : Parser BindingTarget → Token → Parser BindingTarget
binding_target tuple discard = bump >> pure BindingTarget.discard
binding_target tuple (variable name) = bump >> pure (BindingTarget.variable name)
binding_target tuple l_paren = tuple
binding_target tuple (ident name) = error_here (missing_prefix_binding name)
binding_target tuple other = error_here (expected_binding_target other)

unfoldable pub parse_binding_target : ℕ → Parser BindingTarget
parse_binding_target zero = λ ts. out_of_fuel
parse_binding_target (suc f) =
    let target : Parser BindingTarget = parse_binding_target f in
    peek >>= binding_target (parse_binding_tuple (suc f) target)

abbrev pub is_fallback : MatchGuard → Bool
is_fallback MatchGuard.fallback = true
is_fallback (MatchGuard.call _ _) = false

-- The checks behind the loop.
unfoldable pub match_stage : List (MatchGuard × MatchTarget) → Bool → Parser Stage
match_stage [] saw_fallback = error_here no_arm
match_stage (arm ∷ arms) saw_fallback =
    if saw_fallback then pure (Stage.match_arms (to_arms (arm ∷ arms))) else error_here no_fallback

abbrev pub inline_endpoint : Endpoint → List Stage → Endpoint
inline_endpoint source [] = source
inline_endpoint source (stage ∷ stages) = Endpoint.eval source (to_stages (stage ∷ stages))

abbrev pub chain : Endpoint → List Stage → Parser Chain
chain source [] = error_here no_stage
chain source (stage ∷ stages) =
    pure (record { source = source; stages = to_stages (stage ∷ stages) })

module _ (f : ℕ) (inline : Parser Endpoint) where
  unfoldable pub struct_field : Parser (Text × Endpoint)
  struct_field = do field ← expect_ident; expect colon; value ← inline; pure (field, value)

  unfoldable pub parse_struct_literal : Text → Parser Endpoint
  parse_struct_literal name = do
    expect l_brace
    closed ← eat r_brace
    if closed
        then error_here empty_literal
        else (comma_list f struct_field r_brace >>= λ fields.
            pure (Endpoint.struct name (to_fields fields)))

  unfoldable pub parse_tuple_or_unit : Parser Endpoint
  parse_tuple_or_unit = do
    expect l_paren
    closed ← eat r_paren
    if closed then pure Endpoint.unit else (do
      first ← inline
      expect comma
      second ← inline
      more ← while_eat f comma inline
      expect r_paren
      pure (Endpoint.tuple (to_endpoints (first ∷ second ∷ more))))

  unfoldable pub parse_seq : Parser Endpoint
  parse_seq = do
    expect l_bracket
    closed ← eat r_bracket
    if closed
        then pure (Endpoint.seq (to_endpoints []))
        else (comma_list f inline r_bracket >>= λ items. pure (Endpoint.seq (to_endpoints items)))

  unfoldable pub endpoint_atom : Token → Parser Endpoint
  endpoint_atom (variable name) = bump >> pure (Endpoint.variable name)
  endpoint_atom discard = error_here discard_as_value
  endpoint_atom (int value) = bump >> pure (Endpoint.int value)
  endpoint_atom (real value) = bump >> pure (Endpoint.real value)
  endpoint_atom (real_f32 value) = bump >> pure (Endpoint.real_f32 value)
  endpoint_atom (bool value) = bump >> pure (Endpoint.bool value)
  endpoint_atom (string value) = bump >> pure (Endpoint.string value)
  endpoint_atom l_paren = parse_tuple_or_unit
  endpoint_atom l_bracket = parse_seq
  endpoint_atom (ident name) = do
    bump
    next ← peek
    if token_eq next l_brace
        then parse_struct_literal name
        else error_here (missing_prefix_value name)
  endpoint_atom other = error_here (expected_endpoint other)

  unfoldable pub parse_endpoint_atom : Parser Endpoint
  parse_endpoint_atom = peek >>= endpoint_atom

  abbrev pub parse_endpoint : Parser Endpoint
  parse_endpoint = parse_endpoint_atom

  -- `parse_match_target`
  unfoldable pub match_target : Token → Parser MatchTarget
  match_target (ident _) = parse_node_ref_text f >>= λ node. pure (MatchTarget.node node)
  match_target _ = inline >>= λ value. pure (MatchTarget.value value)

  unfoldable pub match_args : Parser (List Endpoint)
  match_args = do closed ← eat r_paren; if closed then pure [] else comma_list f inline r_paren

  -- The guard of an arm, the fallback or a call, told by the identifier at which the arm starts.
  unfoldable pub match_guard : Option Text → Parser MatchGuard
  match_guard next = if is_keyword (codes "_") next then (bump >> pure MatchGuard.fallback) else (do
    node ← parse_node_ref_text f
    expect l_paren
    args ← match_args
    pure (MatchGuard.call node (to_endpoints args)))

  unfoldable pub match_arm : Parser (MatchGuard × MatchTarget)
  match_arm = do
    next ← peek_ident
    guard ← match_guard next
    expect arrow
    token ← peek
    target ← match_target token
    pure (guard, target)

  -- The loop over the arms, and whether the fallback was seen at its end.
  unfoldable pub match_loop : ℕ → Bool → Parser (List (MatchGuard × MatchTarget) × Bool)
  match_loop zero saw_fallback = λ ts. out_of_fuel
  match_loop (suc g) saw_fallback = do
    closed ← eat r_brace
    if closed
        then pure ([], saw_fallback)
        else if saw_fallback
        then error_here fallback_not_last
        else (match_arm >>= λ arm.
            match_loop g (is_fallback arm.0) >>= λ (arms, saw). pure (arm ∷ arms, saw))

  unfoldable pub parse_match_stage : Parser Stage
  parse_match_stage = do
    expect_keyword (codes "match")
    expect l_brace
    (arms, saw) ← match_loop f false
    match_stage arms saw

  unfoldable pub parse_fault_map : Parser Stage
  parse_fault_map = do
    expect_keyword (codes "map")
    node ← parse_node_ref_text f
    expect l_brace
    expect_keyword (codes "ok")
    expect arrow
    ok ← expect_variable
    expect comma
    expect_keyword (codes "fault")
    expect arrow
    fault ← expect_variable
    expect r_brace
    pure (Stage.fault_map node ok fault)

  unfoldable pub repeat_count : Token → Parser Endpoint
  repeat_count (variable _) = parse_endpoint
  repeat_count (int _) = parse_endpoint
  repeat_count other = error_here (expected_repeat_count other)

  unfoldable pub parse_repeat : Parser Stage
  parse_repeat = do
    expect less
    token ← peek
    count ← repeat_count token
    expect greater
    node ← parse_node_ref_text f
    pure (Stage.repeat count node)

  -- What follows `reduce` and `scan`.
  unfoldable pub parse_fold : (Text → Endpoint → Stage) → Parser Stage
  parse_fold stage = do
    op ← parse_node_ref_text f
    expect l_paren
    expect_keyword (codes "identity")
    expect colon
    identity ← parse_endpoint
    expect r_paren
    pure (stage op identity)

  -- The stage that starts with an identifier.
  unfoldable pub stage_of : Text → Parser Stage
  stage_of name =
      if text_eq name (codes "map")
      then (bump >> parse_node_ref_text f >>= λ node. pure (Stage.map node))
      else if text_eq name (codes "fault")
      then (bump >> parse_fault_map)
      else if text_eq name (codes "filter")
      then (bump >> parse_node_ref_text f >>= λ node. pure (Stage.filter node))
      else if text_eq name (codes "field")
      then (bump >> expect_ident >>= λ field. pure (Stage.field field))
      else if text_eq name (codes "repeat")
      then (bump >> parse_repeat)
      else if text_eq name (codes "reduce")
      then (bump >> parse_fold Stage.reduce)
      else if text_eq name (codes "scan")
      then (bump >> parse_fold Stage.scan)
      else if text_eq name (codes "match")
      then parse_match_stage
      else (parse_node_ref_text f >>= λ node. pure (Stage.endpoint (Endpoint.name node)))

  unfoldable pub stage_at : Token → Parser Stage
  stage_at (ident name) = stage_of name
  stage_at (variable _) = parse_binding_target f >>= λ target. pure (Stage.bind target)
  stage_at discard = parse_binding_target f >>= λ target. pure (Stage.bind target)
  stage_at l_paren = parse_binding_target f >>= λ target. pure (Stage.bind target)
  stage_at _ = parse_endpoint >>= λ endpoint. pure (Stage.endpoint endpoint)

  unfoldable pub parse_stage : Parser Stage
  parse_stage = peek >>= stage_at

  -- `parse_inline_endpoint`, over itself.
  unfoldable pub inline_step : Parser Endpoint
  inline_step = do
    source ← parse_endpoint_atom
    stages ← while_eat f arrow parse_stage
    pure (inline_endpoint source stages)

  unfoldable pub chain_step : Parser Chain
  chain_step = do
    source ← parse_endpoint
    stages ← while_eat f arrow parse_stage
    chain source stages

unfoldable pub parse_inline_endpoint : ℕ → Parser Endpoint
parse_inline_endpoint zero = λ ts. out_of_fuel
parse_inline_endpoint (suc f) = inline_step (suc f) (parse_inline_endpoint f)

unfoldable pub parse_chain : ℕ → Parser Chain
parse_chain f = chain_step f (parse_inline_endpoint f)

unfoldable pub parse_block : ℕ → Parser (List Chain)
parse_block f = do expect l_brace; until_eat f r_brace (parse_chain f)
