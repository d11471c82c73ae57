-- ===== src/Parser/Formed/Body.antt =====
-- The parsers of a callable's body return what the syntax allows, where the parser that they reach does.
use flow_arrow.Prelude.{
  ℕ, zero, suc, Bool, true, false, ◌≡◌, refl, List, [], ◌∷◌, Text, All, Option, codes, text_eq,
  if◌then◌else◌,
}
use flow_arrow.Source.{
  SourceSpan, Token, ident, variable, discard, int, real, real_f32, bool, string, arrow, l_paren,
  r_paren, r_brace, l_bracket, r_bracket, comma, fallback_not_last,
}
use flow_arrow.Ast.{Endpoint, BindingTarget, Stage, MatchGuard, MatchTarget, to_arms, to_fields}
use flow_arrow.Ast.Formed.{
  IsCons, TargetFormed, IsCount, IsAtom, EndpointFormed, StageFormed, ArmsFormed, MatchTargetFormed,
  GuardFormed, ChainFormed, targets-Formed, endpoints-Formed, fields-Formed, stages-Formed,
}
use flow_arrow.Parser.{Tokens, Parser, pure, ◌>>=◌, peek, bump, error_here, while_eat}
use flow_arrow.Parser.Body.{
  parse_binding_tuple, binding_target, parse_binding_target, struct_field, parse_struct_literal,
  parse_tuple_or_unit, parse_seq, endpoint_atom, parse_endpoint_atom, match_target, match_args,
  match_guard, match_arm, is_fallback, match_loop, match_stage, parse_match_stage, parse_fault_map,
  repeat_count, parse_repeat, parse_fold, stage_of, stage_at, parse_stage, inline_endpoint,
  inline_step, chain, chain_step, parse_inline_endpoint, parse_chain, parse_block,
}
use flow_arrow.Parser.Yields.{
  Results, Yields, Yields-peek, Yields-pure, Yields-error, Yields-if, Yields-fuel, Yields-bind,
  Yields-then, Yields-weaken, yields_rules, comma_list-Yields, while_eat-Yields, until_eat-Yields,
}

module _ (f : ℕ) (target : Parser BindingTarget) (h : Yields TargetFormed target) where
  parse_binding_tuple-Yields : Yields TargetFormed (parse_binding_tuple f target)
  unfolding parse_binding_tuple
  parse_binding_tuple-Yields = Yields-then _ _ λ _. Yields-bind _ target h λ s ps.
      Yields-then _ _ λ _. Yields-bind _ target h λ t pt.
        Yields-bind _ _ (while_eat-Yields target h f comma)
          λ ts pts. Yields-then _ _ λ _. Yields-pure _ (ps, pt, targets-Formed ts pts)

binding_target-Yields :
    (tuple : Parser BindingTarget) (t : Token)
    → Yields TargetFormed tuple
    → Yields TargetFormed (binding_target tuple t)
unfolding binding_target
binding_target-Yields tuple discard h = Yields-then _ _ λ _. Yields-pure _ tt
binding_target-Yields tuple (variable name) h = Yields-then _ _ λ _. Yields-pure _ tt
binding_target-Yields tuple l_paren h = h
binding_target-Yields tuple (ident name) h = Yields-error _
binding_target-Yields tuple _ h = Yields-error _

parse_binding_target-Yields : (f : ℕ) → Yields TargetFormed (parse_binding_target f)
unfolding parse_binding_target
parse_binding_target-Yields zero = Yields-fuel
parse_binding_target-Yields (suc f) = Yields-then _ _ λ t.
    binding_target-Yields _ t
      (parse_binding_tuple-Yields (suc f) (parse_binding_target f) (parse_binding_target-Yields f))

-- What the loop over the arms returns, with the sight of a fallback before and after: calls, and a
-- fallback at the end if it saw one.
abbrev ArmsFrom : Bool → List (MatchGuard × MatchTarget) → Bool → Type 0
ArmsFrom before [] after = after ≡ before
ArmsFrom true (_ ∷ _) after = ⊥
ArmsFrom false (a ∷ arms) after =
    GuardFormed a.0 × MatchTargetFormed a.1 × ArmsFrom (is_fallback a.0) arms after

arms-Formed :
    (arms : List (MatchGuard × MatchTarget)) → ArmsFrom false arms true → ArmsFormed (to_arms arms)
arms-Formed [] h = cc
arms-Formed ((MatchGuard.fallback, t) ∷ []) h = h.1
arms-Formed ((MatchGuard.fallback, t) ∷ (_ ∷ _)) h = absurd h.2
arms-Formed ((MatchGuard.call _ es, t) ∷ arms) h = (h.0, h.1, arms-Formed arms h.2)

abbrev AtomFormed : Endpoint → Type 0
AtomFormed e = IsAtom e × EndpointFormed e

struct-Formed :
    (name : Text) (fields : List (Text × Endpoint))
    → IsCons fields
    → All (λ x. EndpointFormed x.1) fields
    → EndpointFormed (Endpoint.struct name (to_fields fields))
struct-Formed name [] c h = absurd c
struct-Formed name (x ∷ xs) c h = (h.0, fields-Formed xs h.1)

inline-Formed :
    (source : Endpoint) (ss : List Stage)
    → AtomFormed source
    → All StageFormed ss
    → EndpointFormed (inline_endpoint source ss)
inline-Formed source [] h hs = h.1
inline-Formed source (s ∷ ss) h hs = (h.0, h.1, hs.0, stages-Formed ss hs.1)

chain-Yields :
    (source : Endpoint) (ss : List Stage)
    → AtomFormed source
    → All StageFormed ss
    → Yields ChainFormed (chain source ss)
chain-Yields source [] h hs = Yields-error _
chain-Yields source (s ∷ ss) h hs = Yields-pure _ (h.0, h.1, (hs.0, stages-Formed ss hs.1))

atom-Formed : (e : Endpoint) → AtomFormed e → StageFormed (Stage.endpoint e)
atom-Formed (Endpoint.name _) h = absurd h.0
atom-Formed e h = h

module _ (f : ℕ) (inline : Parser Endpoint) (h : Yields EndpointFormed inline) where
  struct_field-Yields : Yields (λ x. EndpointFormed x.1) (struct_field f inline)
  unfolding struct_field
  struct_field-Yields =
      Yields-then _ _ λ n. Yields-then _ _ λ _. Yields-bind _ inline h λ e pe. Yields-pure _ pe

  parse_struct_literal-Yields :
      (name : Text) → Yields AtomFormed (parse_struct_literal f inline name)
  unfolding parse_struct_literal
  parse_struct_literal-Yields name = Yields-then _ _ λ _. Yields-then _ _ λ closed.
      Yields-if closed _ _ (Yields-error _) (
        Yields-bind _ _ (comma_list-Yields _ struct_field-Yields f r_brace)
          λ fields p. Yields-pure _ (tt, struct-Formed name fields p.0 p.1))

  parse_tuple_or_unit-Yields : Yields AtomFormed (parse_tuple_or_unit f inline)
  unfolding parse_tuple_or_unit
  parse_tuple_or_unit-Yields = Yields-then _ _ λ _. Yields-then _ _ λ closed.
      Yields-if closed _ _ (Yields-pure _ (tt, tt)) (
        Yields-bind _ inline h λ s ps. Yields-then _ _ λ _. Yields-bind _ inline h λ t pt.
          Yields-bind _ _ (while_eat-Yields inline h f comma)
            λ ts pts. Yields-then _ _ λ _. Yields-pure _ (tt, (ps, pt, endpoints-Formed ts pts)))

  parse_seq-Yields : Yields AtomFormed (parse_seq f inline)
  unfolding parse_seq
  parse_seq-Yields = Yields-then _ _ λ _. Yields-then _ _ λ closed.
      Yields-if closed _ _ (Yields-pure _ (tt, tt)) (
        Yields-bind _ _ (comma_list-Yields inline h f r_bracket)
          λ ts pts. Yields-pure _ (tt, endpoints-Formed ts pts.1))

  endpoint_atom-Yields : (t : Token) → Yields AtomFormed (endpoint_atom f inline t)
  unfolding endpoint_atom
  endpoint_atom-Yields (variable _) = Yields-then _ _ λ _. Yields-pure _ (tt, tt)
  endpoint_atom-Yields (int _) = Yields-then _ _ λ _. Yields-pure _ (tt, tt)
  endpoint_atom-Yields (real _) = Yields-then _ _ λ _. Yields-pure _ (tt, tt)
  endpoint_atom-Yields (real_f32 _) = Yields-then _ _ λ _. Yields-pure _ (tt, tt)
  endpoint_atom-Yields (bool _) = Yields-then _ _ λ _. Yields-pure _ (tt, tt)
  endpoint_atom-Yields (string _) = Yields-then _ _ λ _. Yields-pure _ (tt, tt)
  endpoint_atom-Yields l_paren = parse_tuple_or_unit-Yields
  endpoint_atom-Yields l_bracket = parse_seq-Yields
  endpoint_atom-Yields (ident name) = Yields-then _ _ λ _.
      Yields-then _ _ λ next. Yields-if _ _ _ (parse_struct_literal-Yields name) (Yields-error _)
  endpoint_atom-Yields discard = Yields-error _
  endpoint_atom-Yields _ = Yields-error _

  parse_endpoint_atom-Yields : Yields AtomFormed (parse_endpoint_atom f inline)
  unfolding parse_endpoint_atom
  parse_endpoint_atom-Yields = Yields-then _ _ endpoint_atom-Yields

  match_target-Yields : (t : Token) → Yields MatchTargetFormed (match_target f inline t)
  unfolding match_target
  match_target-Yields (ident _) = Yields-then _ _ λ _. Yields-pure _ tt
  match_target-Yields _ = Yields-bind _ inline h λ e pe. Yields-pure _ pe

  match_args-Yields : Yields (All EndpointFormed) (match_args f inline)
  unfolding match_args
  match_args-Yields = Yields-then _ _ λ closed.
      Yields-if closed _ _ (Yields-pure _ tt)
        (Yields-weaken (λ _ p. p.1) (comma_list-Yields inline h f r_paren))

  match_guard-Yields : (next : Option Text) → Yields GuardFormed (match_guard f inline next)
  unfolding match_guard
  match_guard-Yields next = Yields-if _ _ _ (Yields-then _ _ λ _. Yields-pure _ tt) (
      Yields-then _ _ λ node.
        Yields-then _ _
          λ _. Yields-bind _ _ match_args-Yields λ es pes. Yields-pure _ (endpoints-Formed es pes))

  match_arm-Yields : Yields (λ a. GuardFormed a.0 × MatchTargetFormed a.1) (match_arm f inline)
  unfolding match_arm
  match_arm-Yields = Yields-then _ _ λ next. Yields-bind _ _ (match_guard-Yields next) λ g pg.
      Yields-then _ _ λ _.
        Yields-then _ _ λ t. Yields-bind _ _ (match_target-Yields t) λ u pu. Yields-pure _ (pg, pu)

  match_loop-Yields :
      (g : ℕ) (saw : Bool) → Yields (λ r. ArmsFrom saw r.0 r.1) (match_loop f inline g saw)
  unfolding match_loop
  match_loop-Yields zero saw = Yields-fuel
  match_loop-Yields (suc g) saw =
      Yields-then _ _
        λ closed. Yields-if closed _ _ (Yields-pure _ refl) (turn saw (match_loop-Yields g))
    where
      turn :
          (saw' : Bool)
          → ((b : Bool)
              → Yields {A = List (MatchGuard × MatchTarget) × Bool}
                  (λ r. ArmsFrom b r.0 r.1)
                  (match_loop f inline g b))
          → Yields {A = List (MatchGuard × MatchTarget) × Bool}
              (λ r. ArmsFrom saw' r.0 r.1)
              (if saw'
                then error_here fallback_not_last
                else (match_arm f inline >>= λ arm.
                    match_loop f inline g (is_fallback arm.0) >>= λ r. pure (arm ∷ r.0, r.1)))
      turn true more = Yields-error _
      turn false more = Yields-bind _ _ match_arm-Yields λ arm pa.
          Yields-bind _ _ (more (is_fallback arm.0)) λ r pr. Yields-pure _ (pa.0, pa.1, pr)

  match_stage-Yields :
      (arms : List (MatchGuard × MatchTarget)) (saw : Bool)
      → ArmsFrom false arms saw
      → Yields StageFormed (match_stage arms saw)
  unfolding match_stage
  match_stage-Yields [] saw p = Yields-error _
  match_stage-Yields (a ∷ arms) true p = Yields-pure _ (arms-Formed (a ∷ arms) p)
  match_stage-Yields (a ∷ arms) false p = Yields-error _

  parse_match_stage-Yields : Yields StageFormed (parse_match_stage f inline)
  unfolding parse_match_stage
  parse_match_stage-Yields = Yields-then _ _ λ _. Yields-then _ _ λ _.
      Yields-bind _ _ (match_loop-Yields f false) λ (arms, saw) p. match_stage-Yields arms saw p

  parse_fault_map-Yields : Yields StageFormed (parse_fault_map f inline)
  unfolding parse_fault_map
  parse_fault_map-Yields = search yields_rules depth 40

  repeat_count-at :
      (t : Token) (s : SourceSpan) (ts : Tokens)
      → Results IsCount (repeat_count f inline t (record { token = t; span = s } ∷ ts))
  unfolding repeat_count parse_endpoint_atom endpoint_atom ◌>>=◌ peek bump pure error_here
  repeat_count-at (variable n) s ts = tt
  repeat_count-at (int n) s ts = tt
  repeat_count-at _ s ts = tt

  parse_repeat-Yields : Yields StageFormed (parse_repeat f inline)
  unfolding parse_repeat
  parse_repeat-Yields = Yields-then _ _ λ _.
      Yields-peek IsCount (repeat_count f inline) _ repeat_count-at
        λ e pe. Yields-then _ _ λ _. Yields-then _ _ λ _. Yields-pure _ pe

  parse_fold-Yields :
      (make : Text → Endpoint → Stage)
      → ((op : Text) (e : Endpoint) → AtomFormed e → StageFormed (make op e))
      → Yields StageFormed (parse_fold f inline make)
  unfolding parse_fold
  parse_fold-Yields make k = Yields-then _ _ λ op. Yields-then _ _ λ _. Yields-then _ _ λ _.
      Yields-then _ _ λ _.
        Yields-bind _ _ parse_endpoint_atom-Yields
          λ e pe. Yields-then _ _ λ _. Yields-pure _ (k op e pe)

  stage_of-Yields : (name : Text) → Yields StageFormed (stage_of f inline name)
  unfolding stage_of
  stage_of-Yields name = Yields-if (text_eq name (codes "map")) _ _ (search yields_rules) (
      Yields-if (text_eq name (codes "fault")) _ _ (Yields-then _ _ λ _. parse_fault_map-Yields) (
        Yields-if (text_eq name (codes "filter")) _ _ (search yields_rules) (
          Yields-if (text_eq name (codes "field")) _ _ (search yields_rules) (
            Yields-if (text_eq name (codes "repeat")) _ _ (Yields-then _ _ λ _. parse_repeat-Yields)
              (Yields-if (text_eq name (codes "reduce")) _ _
                (Yields-then _ _ λ _. parse_fold-Yields Stage.reduce (λ _ _ p. p))
                (Yields-if (text_eq name (codes "scan")) _ _
                  (Yields-then _ _ λ _. parse_fold-Yields Stage.scan (λ _ _ p. p))
                  (Yields-if (text_eq name (codes "match")) _ _ parse_match_stage-Yields
                    (search yields_rules))))))))

  bind-Yields : Yields StageFormed (parse_binding_target f >>= λ target. pure (Stage.bind target))
  bind-Yields = Yields-bind _ _ (parse_binding_target-Yields f) λ t pt. Yields-pure _ pt

  stage_at-Yields : (t : Token) → Yields StageFormed (stage_at f inline t)
  unfolding stage_at
  stage_at-Yields (ident name) = stage_of-Yields name
  stage_at-Yields (variable _) = bind-Yields
  stage_at-Yields discard = bind-Yields
  stage_at-Yields l_paren = bind-Yields
  stage_at-Yields _ =
      Yields-bind _ _ parse_endpoint_atom-Yields λ e pe. Yields-pure _ (atom-Formed e pe)

  parse_stage-Yields : Yields StageFormed (parse_stage f inline)
  unfolding parse_stage
  parse_stage-Yields = Yields-then _ _ stage_at-Yields

  stages-Yields : Yields (All StageFormed) (while_eat f arrow (parse_stage f inline))
  stages-Yields = while_eat-Yields _ parse_stage-Yields f arrow

  inline_step-Yields : Yields EndpointFormed (inline_step f inline)
  unfolding inline_step
  inline_step-Yields =
      Yields-bind _ _ parse_endpoint_atom-Yields
        λ e pe. Yields-bind _ _ stages-Yields λ ss pss. Yields-pure _ (inline-Formed e ss pe pss)

  chain_step-Yields : Yields ChainFormed (chain_step f inline)
  unfolding chain_step
  chain_step-Yields =
      Yields-bind _ _ parse_endpoint_atom-Yields
        λ e pe. Yields-bind _ _ stages-Yields λ ss pss. chain-Yields e ss pe pss

parse_inline_endpoint-Yields : (f : ℕ) → Yields EndpointFormed (parse_inline_endpoint f)
unfolding parse_inline_endpoint
parse_inline_endpoint-Yields zero = Yields-fuel
parse_inline_endpoint-Yields (suc f) =
    inline_step-Yields (suc f) (parse_inline_endpoint f) (parse_inline_endpoint-Yields f)

pub parse_block-Yields : (f : ℕ) → Yields (All ChainFormed) (parse_block f)
unfolding parse_block parse_chain
parse_block-Yields f = Yields-then _ _ λ _.
    until_eat-Yields _
      (chain_step-Yields f (parse_inline_endpoint f) (parse_inline_endpoint-Yields f)) f r_brace
