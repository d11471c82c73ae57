-- ===== src/Typecheck/Effects/Marks.antt =====
-- What it is to have an effect and to reach one, and what marking an entry changes.
use flow_arrow.Prelude.{
  ℕ, suc, ◌+◌, ◌≤◌, true, false, ◌≡◌, ◌↔◌, ◌⊎◌, inl, inr, refl, Option, none, some, List, [], ◌∷◌,
  Text, text_eq, text_eq_iff, Bool-cases, length, arith, if◌then◌else◌,
}
use flow_arrow.Ast.{Callable, Decl}
use flow_arrow.Stdlib.{Effect, io, is_io}
use flow_arrow.Typecheck.{CallableInfo, Symbols, get}
use flow_arrow.Typecheck.Effects.{effect_io, symbol_effect_io, has, set_io}
use flow_arrow.Typecheck.Effects.Calls.{Calls}
use flow_arrow.Typecheck.Entries.{get-set_io, get-set_io_other}

abbrev pub IsDeclared : Callable → List Decl → Type 0
IsDeclared c [] = ⊥
IsDeclared c (Decl.node_decl d ∷ ds) = (c ≡ d) ⊎ IsDeclared c ds
IsDeclared c (Decl.program d ∷ ds) = (c ≡ d) ⊎ IsDeclared c ds
IsDeclared c (_ ∷ ds) = IsDeclared c ds

-- The entry of the symbol has the effect.
abbrev pub IsEffectful : Symbols → Text → Type 0
IsEffectful symbols n = (info : CallableInfo) × (get n symbols ≡ some info) × (info.effect ≡ io)

pub symbol_effect_io-IsEffectful :
    (symbols : Symbols) (n : Text) → (symbol_effect_io symbols n ≡ true) ↔ IsEffectful symbols n
unfolding symbol_effect_io
symbol_effect_io-IsEffectful symbols n = (to (get n symbols), λ (info, e, f). rw (e, f) refl)
  where
    is_io-io : (effect : Effect) → is_io effect ≡ true → effect ≡ io
    is_io-io io h = refl
    is_io-io Effect.pure h = cc

    to :
        (o : Option CallableInfo)
        → effect_io o ≡ true
        → (info : CallableInfo) × (o ≡ some info) × (info.effect ≡ io)
    to (some info) h = (info, refl, is_io-io info.effect h)
    to none h = cc

-- A symbol with an effect, or a callable with an entry that calls such a symbol.
pub data ReachesIo (ds : List Decl) (symbols : Symbols) : Text → Type 0 where
  effectful : (n : Text) → IsEffectful symbols n → ReachesIo ds symbols n
  calls :
      (n : Text) (c : Callable) (m : Text)
      → IsDeclared c ds
      → c.name ≡ n
      → has n symbols ≡ true
      → Calls c m
      → ReachesIo ds symbols m
      → ReachesIo ds symbols n

-- The entries with no effect.
abbrev pub count_pure : Symbols → ℕ
count_pure [] = 0
count_pure ((_, info) ∷ symbols) = (if is_io info.effect then 0 else 1) + count_pure symbols

pub count_pure-length : (u : Symbols) → count_pure u ≤ length u
count_pure-length [] = omega arith
count_pure-length ((_, info) ∷ u) = ground (arith, count_pure-length u)

pub has-some :
    (name : Text) (u : Symbols)
    → has name u ≡ true
    → (info : CallableInfo) × (get name u ≡ some info)
has-some name u h = go (get name u) refl
  where
    go :
        (o : Option CallableInfo)
        → get name u ≡ o
        → (info : CallableInfo) × (get name u ≡ some info)
    go (some info) e = (info, e)
    go none e = cc (rw e at h)

-- Marking an entry that has no effect leaves one less without.
pub set_io-count_pure :
    (name : Text) (u : Symbols) (info : CallableInfo)
    → get name u ≡ some info
    → is_io info.effect ≡ false
    → suc (count_pure (set_io name u)) ≡ count_pure u
unfolding set_io get
set_io-count_pure name [] info h k = cc
set_io-count_pure name ((n, i) ∷ u) info h k = elim (Bool-cases (text_eq n name)) [
  | inl same ↦
      let e : some i ≡ some info = rw same at h in
      let f : is_io i.effect ≡ false = cc (e, k) in rw (same, f) (omega arith)
  | inr differ ↦ rw differ (omega (arith, set_io-count_pure name u info (rw differ at h) k))
]

-- The two tests after a mark, by the name that was marked.
module _ (name : Text) (u : Symbols) (h : has name u ≡ true) where
  pub marked : symbol_effect_io (set_io name u) name ≡ true
  unfolding symbol_effect_io
  marked = let (info, e) = has-some name u h in rw (get-set_io name u info e) refl

  pub has-set_io : (n : Text) → has n (set_io name u) ≡ has n u
  has-set_io n = elim (Bool-cases (text_eq name n)) [
    | inl same ↦
        let (info, e) = has-some name u h in
        rw (← (text_eq_iff name n).0 same, get-set_io name u info e, e) refl
    | inr differ ↦ rw (get-set_io_other name n u differ) refl
  ]

  -- Only the marked name gains an effect.
  pub effect-set_io :
      (n : Text)
      → symbol_effect_io (set_io name u) n ≡ true
      → (name ≡ n) ⊎ (symbol_effect_io u n ≡ true)
  unfolding symbol_effect_io
  effect-set_io n e = elim (Bool-cases (text_eq name n)) [
    | inl same ↦ inl ((text_eq_iff name n).0 same)
    | inr differ ↦ inr (rw (get-set_io_other name n u differ) at e)
  ]

  pub set_io-effect :
      (n : Text) → symbol_effect_io u n ≡ true → symbol_effect_io (set_io name u) n ≡ true
  unfolding symbol_effect_io
  set_io-effect n e = elim (Bool-cases (text_eq name n)) [
    | inl same ↦ rw (← (text_eq_iff name n).0 same) marked
    | inr differ ↦ rw (get-set_io_other name n u differ) e
  ]
