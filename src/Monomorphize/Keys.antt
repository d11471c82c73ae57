-- ===== src/Monomorphize/Keys.antt =====
-- The keys that instances of the templates can have, and how many of them have no entry.
use flow_arrow.Prelude.{
  ℕ, zero, suc, ◌+◌, ◌≤◌, ◌<◌, ◌≡◌, refl, sym, ap, ◌∙◌, ◌⊎◌, inl, inr, Bool-cases, Option, none,
  some, List, [], ◌∷◌, ◌++◌, Text, text_eq, text_eq_iff, length, All, arith,
}
use flow_arrow.Ast.{Callable}
use flow_arrow.Monomorphize.{find, key_eq, find_instance}
use flow_arrow.Monomorphize.Rewrite.{InstanceKey}
use flow_arrow.Monomorphize.Keeps.{key_eq_refl}

abbrev pub In : {A : Type 0} → A → List A → Type 0
In x [] = ⊥
In x (y ∷ ys) = (x ≡ y) ⊎ In x ys

In-append-left : {A : Type 0} (x : A) (xs ys : List A) → In x xs → In x (xs ++ ys)
In-append-left x [] ys h = absurd h
In-append-left x (y ∷ xs) ys (inl e) = inl e
In-append-left x (y ∷ xs) ys (inr h) = inr (In-append-left x xs ys h)

In-append-right : {A : Type 0} (x : A) (xs ys : List A) → In x ys → In x (xs ++ ys)
In-append-right x [] ys h = h
In-append-right x (y ∷ xs) ys h = inr (In-append-right x xs ys h)

abbrev with_first : Text → List (List Text) → List (List Text)
with_first a [] = []
with_first a (args ∷ lists) = (a ∷ args) ∷ with_first a lists

abbrev with_firsts : List Text → List (List Text) → List (List Text)
with_firsts [] lists = []
with_firsts (a ∷ more) lists = with_first a lists ++ with_firsts more lists

-- The lists of `n` of the texts.
abbrev pub lists_of : List Text → ℕ → List (List Text)
lists_of texts zero = [] ∷ []
lists_of texts (suc n) = with_firsts texts (lists_of texts n)

In-with_first :
    (a : Text) (args : List Text) (lists : List (List Text))
    → In args lists
    → In (a ∷ args) (with_first a lists)
In-with_first a args [] h = absurd h
In-with_first a args (l ∷ lists) (inl e) = inl (ap (λ x. a ∷ x) e)
In-with_first a args (l ∷ lists) (inr h) = inr (In-with_first a args lists h)

In-with_firsts :
    (a : Text) (args more : List Text) (lists : List (List Text))
    → In a more
    → In args lists
    → In (a ∷ args) (with_firsts more lists)
In-with_firsts a args [] lists h k = absurd h
In-with_firsts a args (b ∷ more) lists (inl e) k =
    In-append-left _ (with_first b lists) _ (rw (sym e) (In-with_first a args lists k))
In-with_firsts a args (b ∷ more) lists (inr h) k =
    In-append-right _ (with_first b lists) _ (In-with_firsts a args more lists h k)

In-lists_of :
    (texts args : List Text) → All (λ a. In a texts) args → In args (lists_of texts (length args))
In-lists_of texts [] h = inl refl
In-lists_of texts (a ∷ args) (h, hs) = In-with_firsts a args texts _ h (In-lists_of texts args hs)

abbrev keys_for : Text → List (List Text) → List InstanceKey
keys_for template [] = []
keys_for template (args ∷ lists) =
    record { template = template; args = args } ∷ keys_for template lists

-- The keys of the templates, with arguments among the texts.
abbrev pub keys_of : List Text → List (Text × Callable) → List InstanceKey
keys_of texts [] = []
keys_of texts ((template, callable) ∷ templates) =
    keys_for template (lists_of texts (length callable.node_params)) ++ keys_of texts templates

In-keys_for :
    (template : Text) (args : List Text) (lists : List (List Text))
    → In args lists
    → In (record { template = template; args = args }) (keys_for template lists)
In-keys_for template args [] h = absurd h
In-keys_for template args (l ∷ lists) (inl e) =
    inl (λ i. record { template = template; args = e i })
In-keys_for template args (l ∷ lists) (inr h) = inr (In-keys_for template args lists h)

pub In-keys_of :
    (texts : List Text) (templates : List (Text × Callable)) (template : Text) (args : List Text)
    (c : Callable)
    → find template templates ≡ some c
    → length c.node_params ≡ length args
    → All (λ a. In a texts) args
    → In (record { template = template; args = args }) (keys_of texts templates)
unfolding find
In-keys_of texts [] template args c f l h = cc
In-keys_of texts ((t, d) ∷ templates) template args c f l h =
    elim (Bool-cases (text_eq t template)) [
      | inl same ↦
          let found : some d ≡ some c = rw same at f in
          let chosen : d ≡ c = cc found in
          let params : length d.node_params ≡ length args =
            ap (λ (x : Callable). length x.node_params) chosen ∙ l in
          In-append-left _ (keys_for t (lists_of texts (length d.node_params))) _ (
            rw params (
              rw ((text_eq_iff t template).0 same)
                (In-keys_for template args _ (In-lists_of texts args h))))
      | inr other ↦
          In-append-right _ (keys_for t (lists_of texts (length d.node_params))) _
            (In-keys_of texts templates template args c (rw other at f) l h)
    ]

abbrev gap : Option Text → ℕ
gap none = 1
gap (some _) = 0

-- How many of the keys have no entry.
abbrev pub missing : List InstanceKey → List (InstanceKey × Text) → ℕ
missing [] instances = 0
missing (k ∷ keys) instances = gap (find_instance k instances) + missing keys instances

gap-insert :
    (key k : InstanceKey) (name : Text) (instances : List (InstanceKey × Text))
    → gap (find_instance k ((key, name) ∷ instances)) ≤ gap (find_instance k instances)
unfolding find_instance
gap-insert key k name instances = elim (Bool-cases (key_eq key k)) [
  | inl same ↦ rw same (omega arith)
  | inr other ↦ rw other (omega arith)
]

new_gap :
    (key k : InstanceKey) (name : Text) (instances : List (InstanceKey × Text))
    → key ≡ k
    → gap (find_instance k ((key, name) ∷ instances)) ≡ 0
unfolding find_instance
new_gap key k name instances same = rw (sym same) (rw (key_eq_refl key) refl)

missing-insert-le :
    (key : InstanceKey) (name : Text) (keys : List InstanceKey)
    (instances : List (InstanceKey × Text))
    → missing keys ((key, name) ∷ instances) ≤ missing keys instances
missing-insert-le key name [] instances = omega arith
missing-insert-le key name (k ∷ keys) instances =
    omega (arith, gap-insert key k name instances, missing-insert-le key name keys instances)

-- A new entry for one of the keys.
pub missing-insert :
    (key : InstanceKey) (name : Text) (keys : List InstanceKey)
    (instances : List (InstanceKey × Text))
    → In key keys
    → find_instance key instances ≡ none
    → missing keys ((key, name) ∷ instances) < missing keys instances
missing-insert key name [] instances h e = absurd h
missing-insert key name (k ∷ keys) instances (inl same) e =
    let old : gap (find_instance k instances) ≡ 1 = rw (sym same) (rw e refl) in
    let new : gap (find_instance k ((key, name) ∷ instances)) ≡ 0 =
      new_gap key k name instances same in
    omega (arith, old, new, missing-insert-le key name keys instances)
missing-insert key name (k ∷ keys) instances (inr h) e =
    omega (arith, gap-insert key k name instances, missing-insert key name keys instances h e)
