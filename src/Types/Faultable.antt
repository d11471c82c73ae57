-- ===== src/Types/Faultable.antt =====
-- The laws of `strip_faultable`.
use flow_arrow.Prelude.{false, ◌≡◌, refl, ◌↔◌, or-eq-false}
use flow_arrow.Types.{
  Ty, Types, Fields, stream, faultable, seq, tuple, one_of, struct, nil, cons, end, field,
  contains_faultable, any_faultable, any_field_faultable, strip_faultable, strip_items,
  strip_fields,
}

mutual
  unfolding contains_faultable strip_faultable

  strip-clean : (t : Ty) → contains_faultable (strip_faultable t) ≡ false
  strip-clean (faultable t) = strip-clean t
  strip-clean (seq t) = strip-clean t
  strip-clean (stream t) = strip-clean t
  strip-clean (tuple ts) = strip_items-clean ts
  strip-clean (one_of ts) = strip_items-clean ts
  strip-clean (struct n fs) = strip_fields-clean fs
  strip-clean _ = refl

  strip_items-clean : (ts : Types) → any_faultable (strip_items ts) ≡ false
  strip_items-clean nil = refl
  strip_items-clean (cons t ts) = rw (strip-clean t) (strip_items-clean ts)

  strip_fields-clean : (fs : Fields) → any_field_faultable (strip_fields fs) ≡ false
  strip_fields-clean end = refl
  strip_fields-clean (field n t fs) = rw (strip-clean t) (strip_fields-clean fs)

mutual
  unfolding contains_faultable strip_faultable

  strip-same : (t : Ty) → contains_faultable t ≡ false → strip_faultable t ≡ t
  strip-same (faultable t) h = cc
  strip-same (seq t) h = cc (strip-same t h)
  strip-same (stream t) h = cc (strip-same t h)
  strip-same (tuple ts) h = cc (strip_items-same ts h)
  strip-same (one_of ts) h = cc (strip_items-same ts h)
  strip-same (struct n fs) h = cc (strip_fields-same fs h)
  strip-same _ h = refl

  strip_items-same : (ts : Types) → any_faultable ts ≡ false → strip_items ts ≡ ts
  strip_items-same nil h = refl
  strip_items-same (cons t ts) h =
      let (ht, hts) = or-eq-false (contains_faultable t) (any_faultable ts) h in
      cc (strip-same t ht, strip_items-same ts hts)

  strip_fields-same : (fs : Fields) → any_field_faultable fs ≡ false → strip_fields fs ≡ fs
  strip_fields-same end h = refl
  strip_fields-same (field n t fs) h =
      let (ht, hfs) = or-eq-false (contains_faultable t) (any_field_faultable fs) h in
      cc (strip-same t ht, strip_fields-same fs hfs)

-- Stripping leaves no `Faultable` at any depth, and it changes a type exactly when the type
-- contains one; so it is idempotent.
pub strip_faultable_laws :
    (t : Ty)
    → (contains_faultable (strip_faultable t) ≡ false)
      × (strip_faultable t ≡ t ↔ contains_faultable t ≡ false)
      × (strip_faultable (strip_faultable t) ≡ strip_faultable t)
strip_faultable_laws t = (
  strip-clean t,
  ((λ e. rw e at (strip-clean t)), strip-same t),
  strip-same (strip_faultable t) (strip-clean t),
)
