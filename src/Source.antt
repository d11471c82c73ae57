-- ===== src/Source.antt =====
-- src/diagnostic.rs and the tokens of src/lexer.rs: positions and spans in a source text, tokens, and
-- the diagnostics of the lexer and of the parser. Lines and characters, `u32` in the program, are
-- numbers: a source has fewer than 2 ^ 32 of either.
use flow_arrow.Prelude.{ℕ, ◌+◌, ◌==◌, Bool, Text, if◌then◌else◌, Outcome, ℕ_discrete}
use flow_arrow.Prelude.Int.{ℤ}

pub record SourcePosition : Type 0 where
  pub line : ℕ
  pub character : ℕ

pub record SourceSpan : Type 0 where
  pub start : SourcePosition
  pub end : SourcePosition

abbrev pub origin : SourcePosition
origin = record { line = 0; character = 0 }

abbrev pub span : SourcePosition → SourcePosition → SourceSpan
span start end = record { start = start; end = end }

-- `SourceSpan::point`
abbrev pub point : SourcePosition → SourceSpan
point position = span position (record position { character = position.character + 1 })

-- The position part of `Lexer::advance`.
unfoldable pub next_position : ℕ → SourcePosition → SourcePosition
next_position ch p =
    if ch == 0xa
    then record { line = p.line + 1; character = 0 }
    else record p { character = p.character + 1 }

-- A real literal keeps its text, digits with one dot among them, which `parse::<f64>` and
-- `parse::<f32>` read without an error: the value is a function of it.
pub data Token : Type 0 where
  ident : Text → Token
  variable : Text → Token
  discard : Token
  int : ℤ → Token
  real : Text → Token
  real_f32 : Text → Token
  bool : Bool → Token
  string : Text → Token
  arrow : Token
  l_paren r_paren l_brace r_brace l_bracket r_bracket : Token
  less greater comma colon equal pipe dot : Token
  eof : Token

-- `#[derive(PartialEq)]`
unfoldable pub Token-discrete : Discrete Token
unfolding ℕ_discrete
Token-discrete = hlevel ℕ_discrete

pub record SpannedToken : Type 0 where
  pub token : Token
  pub span : SourceSpan

-- The messages, with what each formats into its text.
pub data Message : Type 0 where
  unexpected_character : ℕ → Message
  unterminated_block_comment : Message
  expected_digits : Message
  unsupported_suffix : Text → Message
  invalid_integer : Text → Message
  unterminated_escape : Message
  unsupported_escape : ℕ → Message
  unterminated_string : Message
  expected_variable_name : Message
  expected_variable_name_found : ℕ → Message
  expected_node_after_extern : Message
  expected_declaration expected_import_source expected_identifier expected_string : Token → Message
  expected_variable expected_type expected_repeat_count : Token → Message
  expected_binding_target expected_endpoint : Token → Message
  expected_token : Token → Token → Message
  expected_keyword : Text → Token → Message
  unexpected_in_type : Text → Token → Message
  unterminated_type : Text → Message
  unsupported_target : Text → Message
  expected_js_kind expected_c_kind expected_effect : Text → Message
  missing_prefix missing_prefix_binding missing_prefix_value : Text → Message
  empty_struct empty_foreign empty_node_params empty_node_args empty_literal : Message
  no_stage fallback_not_last no_arm no_fallback discard_as_value : Message

pub record SourceDiagnostic : Type 0 where
  pub message : Message
  pub span : SourceSpan

abbrev pub diagnostic : Message → SourceSpan → SourceDiagnostic
diagnostic message span = record { message = message; span = span }

abbrev pub Diagnosed : Type 0 → Type 0
Diagnosed A = Outcome SourceDiagnostic A
