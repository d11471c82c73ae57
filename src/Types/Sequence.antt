-- ===== src/Types/Sequence.antt =====
-- `sequence_item_type`, the type of the items of a sequence literal.
use flow_arrow.Prelude.{
  ℕ, zero, suc, ◌<◌, ◌≡◌, ◌≢◌, ◌⊎◌, ap, refl, ◌↔◌, false, true, arith, [], ok, err, Bool-cases, inl,
  inr,
}
use flow_arrow.Types.{
  Ty, TypeError, faultable, seq, empty_seq, one_of, var, ty_eq, ty_eq_iff, faultable_of,
  sequence_item_type, inner_faultable, size, mismatch, unwrap_faultable_tuple_type,
}
use flow_arrow.Types.Match.{
  is_seq, Matcher, match_types, match_at, match_arms, match_other, assignable_type, wrap_faultable,
}
use flow_arrow.Types.Match.Plain.{IsPlain, IsPlain-ne-empty_seq}

faultable_of-size : (l r : Ty) → faultable_of l r ≡ true → size l ≡ suc (size r)
unfolding faultable_of
faultable_of-size (faultable t) r h = rw ((ty_eq_iff t r).0 h)
faultable_of-size l r h = cc

faultable_of_asym : (l r : Ty) → faultable_of l r ≡ true → faultable_of r l ≡ false
faultable_of_asym l r h = elim (Bool-cases (faultable_of r l)) [
  | inl k ↦ absurd (omega (arith, faultable_of-size l r h, faultable_of-size r l k))
  | inr k ↦ k
]

sequence_item_type-swap :
    (l r t : Ty) → sequence_item_type l r ≡ ok t → sequence_item_type r l ≡ ok t
unfolding sequence_item_type
sequence_item_type-swap l r t h = ground (
  arith,
  ty_eq_iff l r,
  ty_eq_iff r l,
  ty_eq_iff l empty_seq,
  ty_eq_iff r empty_seq,
  faultable_of_asym l r,
  faultable_of_asym r l,
)

faultable_of-eq : (l r : Ty) → faultable_of l r ≡ true → l ≡ faultable r
unfolding faultable_of
faultable_of-eq (faultable t) r h = ap faultable ((ty_eq_iff t r).0 h)
faultable_of-eq l r h = cc

-- The order of the two items does not change the type that they share.
pub sequence_item_type_comm :
    (left right t : Ty)
    → sequence_item_type left right ≡ ok t ↔ sequence_item_type right left ≡ ok t
sequence_item_type_comm left right t =
    (sequence_item_type-swap left right t, sequence_item_type-swap right left t)

-- The item type of two types, neither of them the empty sequence literal, is one of them, and the other is
-- it or what its `Faultable` holds.
pub sequence_item_type_upper :
    (left right t : Ty)
    → ty_eq left empty_seq ≡ false
    → ty_eq right empty_seq ≡ false
    → sequence_item_type left right ≡ ok t
    → ((t ≡ left) × ((right ≡ t) ⊎ (t ≡ faultable right)))
      ⊎ ((t ≡ right) × ((left ≡ t) ⊎ (t ≡ faultable left)))
unfolding sequence_item_type
sequence_item_type_upper l r t p q h =
    ground (arith, ty_eq_iff l r, faultable_of-eq l r, faultable_of-eq r l)

empty_seq-arms :
    (rec : Matcher) (t : Ty)
    → IsPlain t
    → is_seq t ≡ false
    → (e : TypeError) × (match_arms rec t empty_seq [] ≡ err e)
unfolding match_arms match_other
empty_seq-arms rec (seq t) p h = cc
empty_seq-arms rec (one_of ts) p h = absurd p
empty_seq-arms rec (var name) p h = absurd p
empty_seq-arms rec empty_seq p h = absurd p
empty_seq-arms rec t p h = (mismatch t empty_seq, refl)

empty_seq-match_at :
    (fuel : ℕ) (t : Ty)
    → 0 < fuel
    → IsPlain t
    → is_seq t ≡ false
    → (e : TypeError) × (match_at fuel t empty_seq [] ≡ err e)
unfolding match_at
empty_seq-match_at zero t f p h = absurd (omega arith)
empty_seq-match_at (suc fuel) t f p h = elim (Bool-cases (ty_eq t empty_seq)) [
  | inl same ↦ absurd (IsPlain-ne-empty_seq t p same)
  | inr differ ↦ rw differ (empty_seq-arms (match_at fuel) t p h)
]

empty_seq-match_types :
    (t : Ty) → IsPlain t → is_seq t ≡ false → (e : TypeError) × (match_types t empty_seq [] ≡ err e)
unfolding match_types
empty_seq-match_types t p h = empty_seq-match_at _ t (omega arith) p h

empty_seq-wrap :
    (t : Ty)
    → IsPlain t
    → is_seq (inner_faultable t) ≡ false
    → (e : TypeError) × (wrap_faultable t empty_seq ≡ err e)
unfolding inner_faultable unwrap_faultable_tuple_type
empty_seq-wrap (faultable t) p h = empty_seq-match_types t p h
empty_seq-wrap t p h = (mismatch t empty_seq, refl)

is_seq-inner : (t : Ty) → is_seq (inner_faultable t) ≡ false → is_seq t ≡ false
unfolding inner_faultable
is_seq-inner (faultable t) h = refl
is_seq-inner t h = h

-- The item type does not bound the items: an empty sequence literal beside a value of a plain type
-- `t`, which is no sequence and no `Faultable` of one, gets the item type `t`, to which it is not
-- assignable.
pub sequence_item_type_unsound :
    (t : Ty)
    → IsPlain t
    → is_seq (inner_faultable t) ≡ false
    → (sequence_item_type empty_seq t ≡ ok t)
      × (sequence_item_type t empty_seq ≡ ok t)
      × (assignable_type t empty_seq ≢ ok tt)
unfolding sequence_item_type assignable_type
sequence_item_type_unsound t p h =
    let (e, first) = empty_seq-match_types t p (is_seq-inner t h) in
    let (e', second) = empty_seq-wrap t p h in
    (
      ground (arith, ty_eq_iff empty_seq t, (ty_eq_iff empty_seq empty_seq).1 refl),
      ground (arith, ty_eq_iff t empty_seq, (ty_eq_iff empty_seq empty_seq).1 refl),
      λ k. cc (rw (first, second) at k),
    )
