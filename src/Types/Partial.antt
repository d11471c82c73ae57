-- ===== src/Types/Partial.antt =====
-- `substitute_partial` against `substitute`.
use flow_arrow.Prelude.{◌≡◌, refl, some}
use flow_arrow.Types.{
  Ty, Types, Fields, stream, faultable, seq, tuple, one_of, struct, var, empty_seq, nil, cons, end,
  field,
}
use mathlib.Core.Option
use flow_arrow.Types.Substitute.{
  Vars, substitute, substitute_items, substitute_fields, substitute_partial, partial_items,
  partial_fields, map₂-eq-some,
}

mutual
  unfolding substitute substitute_partial

  partial-eq :
      (t : Ty) (vars : Vars) (s : Ty) → substitute t vars ≡ some s → substitute_partial t vars ≡ s
  partial-eq (var name) v s e = rw e refl
  partial-eq (faultable t) v s e =
      let (a, p, q) = (Option.map-eq-some_iff faultable (substitute t v)).0 e in
      rw (partial-eq t v a p) q
  partial-eq (seq t) v s e =
      let (a, p, q) = (Option.map-eq-some_iff seq (substitute t v)).0 e in rw (partial-eq t v a p) q
  partial-eq (stream t) v s e =
      let (a, p, q) = (Option.map-eq-some_iff stream (substitute t v)).0 e in
      rw (partial-eq t v a p) q
  partial-eq (one_of ts) v s e =
      let (a, p, q) = (Option.map-eq-some_iff one_of (substitute_items ts v)).0 e in
      rw (partial_items-eq ts v a p) q
  partial-eq (tuple ts) v s e =
      let (a, p, q) = (Option.map-eq-some_iff tuple (substitute_items ts v)).0 e in
      rw (partial_items-eq ts v a p) q
  partial-eq (struct name fs) v s e =
      let (a, p, q) = (Option.map-eq-some_iff (struct name) (substitute_fields fs v)).0 e in
      rw (partial_fields-eq fs v a p) q
  partial-eq empty_seq v s e = cc
  partial-eq _ v s e = cc

  partial_items-eq :
      (ts : Types) (v : Vars) (s : Types) → substitute_items ts v ≡ some s → partial_items ts v ≡ s
  partial_items-eq nil v s e = cc
  partial_items-eq (cons t ts) v s e =
      let (a, b, p, q, r) = map₂-eq-some cons (substitute t v) (substitute_items ts v) e in
      rw (partial-eq t v a p, partial_items-eq ts v b q) r

  partial_fields-eq :
      (fs : Fields) (v : Vars) (s : Fields)
      → substitute_fields fs v ≡ some s
      → partial_fields fs v ≡ s
  partial_fields-eq end v s e = cc
  partial_fields-eq (field name t fs) v s e =
      let (a, b, p, q, r) = map₂-eq-some (field name) (substitute t v) (substitute_fields fs v) e in
      rw (partial-eq t v a p, partial_fields-eq fs v b q) r

-- Where every variable of a type is bound, substituting those that are bound is substituting.
pub substitute_partial_lem :
    (t : Ty) (vars : Vars) (s : Ty) → substitute t vars ≡ some s → substitute_partial t vars ≡ s
substitute_partial_lem = partial-eq
