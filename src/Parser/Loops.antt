-- ===== src/Parser/Loops.antt =====
-- The parser's loops end: a turn takes a token, so a unit of fuel for each token is enough.
use flow_arrow.Prelude.{
  ℕ, zero, suc, ◌+◌, ◌<◌, ◌≤◌, Bool, true, false, ◌≡◌, refl, List, [], ◌∷◌, Text, arith,
  if◌then◌else◌,
}
use flow_arrow.Source.{Token, comma}
use flow_arrow.Parser.{
  Parser, comma_list, while_eat, until_eat, parse_qualified_ident, parse_node_ref_text,
}
use flow_arrow.Parser.Ends.{
  is_end, Ends, Consumes, Ends-pure, Consumes-error, Ends-error, Consumes-Ends, Consumes-ConsumesAt,
  Ends-EndsAt, ConsumesAt-if, Ends-if, Consumes-if, Consumes-fewer, Consumes-nothing, Ends-bind,
  Ends-after, Consumes-bind, Consumes-later, Consumes-next, ConsumesAt-EndsAt,
}
use flow_arrow.Parser.Lookahead.{
  EndsAt-bump, EndsAt-keyword, Ends-peek, Ends-peek_ident, Consumes-peek, Consumes-peek_ident,
  eat-Ends, expect-Consumes, expect_ident-Consumes, expect_string-Consumes,
  expect_variable-Consumes, expect_keyword-Consumes,
}

pub ruleset ends_rules = (
  Ends-pure, Ends-error, Consumes-error, Ends-if, Ends-peek_ident, EndsAt-keyword, Consumes-bind,
  Consumes-later, Ends-after, Ends-bind, eat-Ends, expect-Consumes, expect_ident-Consumes,
  expect_string-Consumes, expect_variable-Consumes, expect_keyword-Consumes, refl,
)

-- Where the cursor is at a token that a test has told.
pub ruleset at_rules = (ConsumesAt-if, EndsAt-bump, Consumes-ConsumesAt)

module _ {A : Type 0} {item : Parser A} where
  pub comma_list-Consumes :
      {n : ℕ} (g : ℕ) (close : Token)
      → is_end close ≡ false
      → n ≤ g
      → Consumes n item
      → Consumes n (comma_list g item close)
  unfolding comma_list
  comma_list-Consumes {n = zero} g close ne l h = Consumes-nothing _
  comma_list-Consumes {n = suc n} zero close ne l h = absurd (omega arith)
  comma_list-Consumes {n = suc n} (suc g) close ne l h =
      let more : Consumes n (comma_list g item close) =
        comma_list-Consumes g close ne (omega arith) (Consumes-fewer (omega arith) h) in
      Consumes-next h λ x. Ends-bind (eat-Ends comma refl) λ continues.
        Ends-if continues _ _
          (Ends-bind (eat-Ends close ne)
            λ closed. Ends-if closed _ _ (Ends-pure _) (Ends-after more λ xs. Ends-pure _))
          (Ends-after (expect-Consumes close ne) λ _. Ends-pure _)

  pub while_eat-Ends :
      {n : ℕ} (g : ℕ) (separator : Token)
      → is_end separator ≡ false
      → n ≤ g
      → Consumes n item
      → Ends n (while_eat g separator item)
  unfolding while_eat
  while_eat-Ends {n = zero} g separator ne l h = Consumes-Ends (Consumes-nothing _)
  while_eat-Ends {n = suc n} zero separator ne l h = absurd (omega arith)
  while_eat-Ends {n = suc n} (suc g) separator ne l h =
      let more : Ends n (while_eat g separator item) =
        while_eat-Ends g separator ne (omega arith) (Consumes-fewer (omega arith) h) in
      Ends-bind (eat-Ends separator ne) λ continues.
        Ends-if continues _ _
          (Consumes-Ends (Consumes-next h λ x. Ends-bind more λ xs. Ends-pure _)) (Ends-pure _)

  pub until_eat-Ends :
      {n : ℕ} (g : ℕ) (close : Token)
      → is_end close ≡ false
      → n ≤ g
      → Consumes n item
      → Ends n (until_eat g close item)
  unfolding until_eat
  until_eat-Ends {n = zero} g close ne l h = Consumes-Ends (Consumes-nothing _)
  until_eat-Ends {n = suc n} zero close ne l h = absurd (omega arith)
  until_eat-Ends {n = suc n} (suc g) close ne l h =
      let more : Ends n (until_eat g close item) =
        until_eat-Ends g close ne (omega arith) (Consumes-fewer (omega arith) h) in
      Ends-bind (eat-Ends close ne) λ closed.
        Ends-if closed _ _ (Ends-pure _)
          (Consumes-Ends (Consumes-next h λ x. Ends-bind more λ xs. Ends-pure _))

module _ {n : ℕ} (f : ℕ) (l : n ≤ f) where
  pub parse_qualified_ident-Consumes : Consumes n (parse_qualified_ident f)
  unfolding parse_qualified_ident
  parse_qualified_ident-Consumes = search (while_eat-Ends, ends_rules) depth 25

  pub parse_node_ref_text-Consumes : Consumes n (parse_node_ref_text f)
  unfolding parse_node_ref_text
  parse_node_ref_text-Consumes =
      search (comma_list-Consumes, Consumes-Ends, parse_qualified_ident-Consumes, ends_rules) depth
        25
