-- ===== src/Typecheck/Effects/Reaches.antt =====
-- `infer_effects` ends, and what it marks: the nodes from which calls lead to an effect.
use flow_arrow.Prelude.{
  ℕ, zero, suc, ◌<◌, Bool, true, false, ◌≡◌, ◌↔◌, ◌⊎◌, inl, inr, refl, ◌∙◌, List, [], ◌∷◌, Text,
  Bool-cases, length, ok, arith,
}
use flow_arrow.Ast.{Callable, Decl}
use flow_arrow.Typecheck.{Symbols}
use flow_arrow.Typecheck.Effects.{
  callable_uses_io, symbol_effect_io, has, set_io, mark, mark_decls, infer_loop, infer_effects,
}
use flow_arrow.Typecheck.Effects.Calls.{chains-found, chains-used}
use flow_arrow.Typecheck.Effects.Marks.{
  IsDeclared, IsEffectful, symbol_effect_io-IsEffectful, ReachesIo, count_pure, count_pure-length,
  has-some, set_io-count_pure, has-set_io, effect-set_io, set_io-effect, effectful, calls,
}

-- What a round keeps, from the symbols `s` that the loop began with.
module _ (ds : List Decl) (s : Symbols) where
  pub record Between (u : Symbols) : Type 0 where
    pub sound : (n : Text) → symbol_effect_io u n ≡ true → ReachesIo ds s n
    pub grown : (n : Text) → symbol_effect_io s n ≡ true → symbol_effect_io u n ≡ true
    pub same : (n : Text) → has n u ≡ has n s

  Between-start : Between s
  Between-start = record {
    sound = λ n h. effectful n ((symbol_effect_io-IsEffectful s n).0 h);
    grown = λ n h. h;
    same = λ n. refl;
  }

  set_io-Between :
      (c : Callable) (u : Symbols)
      → IsDeclared c ds
      → callable_uses_io u c ≡ true
      → has c.name u ≡ true
      → Between u
      → Between (set_io c.name u)
  unfolding callable_uses_io
  set_io-Between c u d uses h b = record {
    sound = λ n e. elim (effect-set_io c.name u h n e) [
      | inl same ↦
          let (m, effect, called) = chains-found (symbol_effect_io u) c.chains uses in
          calls n c m d same (rw (← same, ← b.same c.name) h) called (b.sound m effect)
      | inr old ↦ b.sound n old
    ];
    grown = λ n e. set_io-effect c.name u h n (b.grown n e);
    same = λ n. has-set_io c.name u h n ∙ b.same n;
  }

  -- What one step does: nothing and the callable is closed, or it marks one more entry.
  data Step (c : Callable) (u : Symbols) (changed : Bool) : Symbols × Bool → Type 0 where
    closed :
        (symbol_effect_io u c.name ≡ false → has c.name s ≡ true → callable_uses_io u c ≡ false)
        → Step c u changed (u, changed)
    set : {v : Symbols} → Between v → suc (count_pure v) ≡ count_pure u → Step c u changed (v, true)

  mark-Step :
      (c : Callable) (u : Symbols) (changed : Bool)
      → IsDeclared c ds
      → Between u
      → Step c u changed (mark c u changed)
  unfolding mark symbol_effect_io
  mark-Step c u changed d b = elim (Bool-cases (symbol_effect_io u c.name)) [
    | inl e ↦ rw e (closed (λ f. cc))
    | inr e ↦ elim (Bool-cases (callable_uses_io u c)) [
      | inr f ↦ rw (e, f) (closed (λ _ _. f))
      | inl f ↦ elim (Bool-cases (has c.name u)) [
        | inl g ↦
            rw (e, f, g)
              (set (set_io-Between c u d f g b) (
                let (info, i) = has-some c.name u g in
                set_io-count_pure c.name u info i (rw (symbol_effect_io, i) at e)))
        | inr g ↦ rw (e, f, g) (closed (λ _ k. absurd (cc (g, b.same c.name, k))))
      ]
    ]
  ]

  -- What a round does: it marks something, or every callable is closed.
  abbrev Closed : Symbols → List Decl → Type 0
  Closed u rest =
      (c : Callable)
      → IsDeclared c rest
      → symbol_effect_io u c.name ≡ false
      → has c.name s ≡ true
      → callable_uses_io u c ≡ false

  abbrev Round : List Decl → Symbols → Bool → Symbols × Bool → Type 0
  Round rest u changed r =
      ((r ≡ (u, changed)) × Closed u rest)
      ⊎ ((v : Symbols) × (r ≡ (v, true)) × Between v × (count_pure v < count_pure u))

  mark-then :
      (c : Callable) (rest : List Decl) (u : Symbols) (changed : Bool) (x : Symbols × Bool)
      → Step c u changed x
      → ((v : Symbols) (changed : Bool)
          → Between v
          → Round rest v changed (mark_decls rest v changed))
      → Between u
      → ((mark_decls rest x.0 x.1 ≡ (u, changed))
          × Closed u rest
          × (symbol_effect_io u c.name ≡ false
              → has c.name s ≡ true
              → callable_uses_io u c ≡ false))
        ⊎ ((v : Symbols) × (mark_decls rest x.0 x.1 ≡ (v, true))
            × Between v
            × (count_pure v < count_pure u))
  mark-then c rest u changed x (closed k) ih b = elim (ih u changed b) [
    | inl (e, h) ↦ inl (e, h, k)
    | inr m ↦ inr m
  ]
  mark-then c rest u changed x (set {v} b' less) ih b = elim (ih v true b') [
    | inl (e, h) ↦ inr (v, e, b', omega arith)
    | inr (w, e, b'', fewer) ↦ inr (w, e, b'', omega arith)
  ]

  callable-Round :
      (c : Callable) (rest : List Decl) (u : Symbols) (changed : Bool)
      → IsDeclared c ds
      → ((v : Symbols) (changed : Bool)
          → Between v
          → Round rest v changed (mark_decls rest v changed))
      → Between u
      → ((mark_decls rest (mark c u changed).0 (mark c u changed).1 ≡ (u, changed))
          × ((d : Callable)
              → (d ≡ c) ⊎ IsDeclared d rest
              → symbol_effect_io u d.name ≡ false
              → has d.name s ≡ true
              → callable_uses_io u d ≡ false))
        ⊎ ((v : Symbols) × (mark_decls rest (mark c u changed).0 (mark c u changed).1 ≡ (v, true))
            × Between v
            × (count_pure v < count_pure u))
  callable-Round c rest u changed d ih b =
      elim (mark-then c rest u changed _ (mark-Step c u changed d b) ih b) [
        | inl (e, h, k) ↦ inl (e, one_more h k)
        | inr m ↦ inr m
      ]
    where
      one_more :
          Closed u rest
          → (symbol_effect_io u c.name ≡ false → has c.name s ≡ true → callable_uses_io u c ≡ false)
          → (d : Callable) → (d ≡ c) ⊎ IsDeclared d rest
          → symbol_effect_io u d.name ≡ false
          → has d.name s ≡ true
          → callable_uses_io u d ≡ false
      one_more h k d (inl e) = rw e k
      one_more h k d (inr i) = h d i

  mark_decls-Round :
      (rest : List Decl) (u : Symbols) (changed : Bool)
      → ((c : Callable) → IsDeclared c rest → IsDeclared c ds)
      → Between u
      → Round rest u changed (mark_decls rest u changed)
  unfolding mark_decls
  mark_decls-Round [] u changed w b = inl (refl, (λ c d. absurd d))
  mark_decls-Round (Decl.node_decl c ∷ rest) u changed w b =
      callable-Round c rest u changed (w c (inl refl))
        (λ v ch. mark_decls-Round rest v ch (λ d i. w d (inr i))) b
  mark_decls-Round (Decl.program c ∷ rest) u changed w b =
      callable-Round c rest u changed (w c (inl refl))
        (λ v ch. mark_decls-Round rest v ch (λ d i. w d (inr i))) b
  mark_decls-Round (Decl.foreign_block _ ∷ rest) u changed w b = mark_decls-Round rest u changed w b
  mark_decls-Round (Decl.type_alias _ ∷ rest) u changed w b = mark_decls-Round rest u changed w b
  mark_decls-Round (Decl.struct_decl _ ∷ rest) u changed w b = mark_decls-Round rest u changed w b
  mark_decls-Round (Decl.import_decl _ ∷ rest) u changed w b = mark_decls-Round rest u changed w b

  infer_loop-Closed :
      (f : ℕ) (u : Symbols)
      → count_pure u < f
      → Between u
      → (v : Symbols) × (infer_loop f ds u ≡ ok v) × Between v × Closed v ds
  unfolding infer_loop
  infer_loop-Closed zero u h b = absurd (omega arith)
  infer_loop-Closed (suc f) u h b = elim (mark_decls-Round ds u false (λ c d. d) b) [
    | inl (e, k) ↦ (u, rw e refl, b, k)
    | inr (v, e, b', fewer) ↦
        let (w, e', b'', k) = infer_loop-Closed f v (omega arith) b' in (w, rw e e', b'', k)
  ]

  reached :
      (v : Symbols)
      → Between v
      → Closed v ds
      → {n : Text} → ReachesIo ds s n
      → symbol_effect_io v n ≡ true
  unfolding callable_uses_io
  reached v b k (effectful n h) = b.grown n ((symbol_effect_io-IsEffectful s n).1 h)
  reached v b k (calls n c m d same h called r) =
      let uses : callable_uses_io v c ≡ true =
        chains-used (symbol_effect_io v) m (reached v b k r) c.chains called in
      elim (Bool-cases (symbol_effect_io v c.name)) [
        | inl e ↦ rw (← same) e
        | inr e ↦ absurd (cc (uses, k c d e (rw same h)))
      ]

-- The inference ends, and a symbol has an effect in its result exactly when the symbol was declared with one or is
-- a callable of the module from which calls lead to such a symbol. What calls is a stage that applies, maps,
-- filters, reduces, scans, fault-maps or repeats a node, or a match with an arm to it; a node in a value or in the
-- guard of an arm is no call.
pub infer_effects_iff :
    (ds : List Decl) (symbols : Symbols)
    → (symbols' : Symbols) × (infer_effects ds symbols ≡ ok symbols')
      × ((n : Text) → IsEffectful symbols' n ↔ ReachesIo ds symbols n)
unfolding infer_effects
infer_effects_iff ds symbols =
    let (v, e, b, k) =
      infer_loop-Closed ds symbols (suc (length symbols)) symbols
        (omega (arith, count_pure-length symbols)) (Between-start ds symbols) in
    (
      v,
      e,
      λ n. (
        (λ h. b.sound n ((symbol_effect_io-IsEffectful v n).1 h)),
        (λ r. (symbol_effect_io-IsEffectful v n).0 (reached ds symbols v b k r)),
      ),
    )
