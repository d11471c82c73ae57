-- ===== src/Types/Tests.antt =====
-- Runs of the operations on types, and the theorems at concrete inputs.
use flow_arrow.Prelude.{
  ◌≡◌, ◌≢◌, refl, ap, arith, ◌⊎◌, ◌↔◌, false, [], ◌∷◌, codes, text_eq, Text-discrete, some, ok,
  Ensures, decide, ℕ_discrete,
}
use flow_arrow.Types.{
  Ty, unit, i32, bool, seq, faultable, tuple, one_of, var, empty_seq, nil, cons, ty_eq, Ty-discrete,
  contains_faultable, strip_faultable, inner_faultable, unwrap_faultable_tuple_type,
  sequence_item_type, faultable_of, size,
}
use flow_arrow.Types.Faultable.{strip_faultable_laws}
use flow_arrow.Types.Substitute.{Vars, lookup, substitute, substitute_partial, Extends}
use flow_arrow.Types.Partial.{substitute_partial_lem}
use flow_arrow.Types.Match.{
  match_var, match_at, match_types, match_arms, match_other, match_items, assignable_type,
  common_assignable_type,
}
use flow_arrow.Types.Match.Sound.{match_types-Extends, match_types-substitute}
use flow_arrow.Types.Match.Complete.{match_types_complete}
use flow_arrow.Types.Unwrap.{handed_on, HoldsFaultable}
use flow_arrow.Types.Match.Assign.{
  assignable_type_iff, assignable_type-faultable_iff, common_assignable_type-assignable,
  common_assignable_type_unique,
}
use flow_arrow.Types.Sequence.{
  sequence_item_type_comm, sequence_item_type_upper, sequence_item_type_unsound,
}
use flow_arrow.Types.Syntax.{display, parse_type}
use flow_arrow.Types.Syntax.Total.{parse_type_total}
use flow_arrow.Types.Syntax.RoundTrip.{parse_type-display}

abbrev pair : Ty → Ty → Ty
pair s t = tuple (cons s (cons t nil))

-- `(T,Seq[T])`
abbrev pattern_type : Ty
pattern_type = pair (var (codes "T")) (seq (var (codes "T")))

abbrev i32_type : Ty
i32_type = pair i32 (seq i32)

abbrev i32_vars : Vars
i32_vars = (codes "T", i32) ∷ []

-- `(Faultable[i32],Bool)`
abbrev half_faultable : Ty
half_faultable = pair (faultable i32) bool

match_types_run : match_types pattern_type i32_type [] ≡ ok i32_vars
unfolding match_types match_at match_arms match_other match_items match_var lookup ty_eq text_eq
    Text-discrete Ty-discrete decide ℕ_discrete
match_types_run = refl

match_types-substitute_example : substitute pattern_type i32_vars ≡ some i32_type
match_types-substitute_example =
    match_types-substitute pattern_type i32_type [] i32_vars (tt, (tt, tt)) (tt, (tt, tt))
      match_types_run

substitute_run : substitute pattern_type i32_vars ≡ some i32_type
unfolding substitute lookup text_eq Text-discrete decide ℕ_discrete
substitute_run = refl

match_types_complete_example :
    (vars : Vars) × (match_types pattern_type i32_type [] ≡ ok vars) × Extends vars i32_vars
match_types_complete_example =
    match_types_complete pattern_type i32_type i32_vars (tt, (tt, tt)) substitute_run

match_types-Extends_example :
    Ensures (Extends i32_vars) (match_types pattern_type i32_type i32_vars)
match_types-Extends_example = match_types-Extends pattern_type i32_type i32_vars

substitute_partial_lem_example : substitute_partial pattern_type i32_vars ≡ i32_type
substitute_partial_lem_example =
    substitute_partial_lem pattern_type i32_vars i32_type substitute_run

assignable_type_iff_example :
    assignable_type (faultable (pair i32 bool)) half_faultable ≡ ok tt
    ↔ (faultable (pair i32 bool) ≡ half_faultable)
      ⊎ (faultable (pair i32 bool) ≡ faultable (handed_on half_faultable))
assignable_type_iff_example =
    assignable_type_iff (faultable (pair i32 bool)) half_faultable (tt, (tt, tt)) (tt, (tt, tt))

assignable_type-faultable_iff_example :
    assignable_type (faultable half_faultable) half_faultable ≡ ok tt
    ↔ (¬ HoldsFaultable half_faultable)
assignable_type-faultable_iff_example = assignable_type-faultable_iff half_faultable (tt, (tt, tt))

assignable_type_run : assignable_type (faultable i32) i32 ≡ ok tt
unfolding assignable_type match_types match_at match_arms match_other unwrap_faultable_tuple_type
    ty_eq Ty-discrete decide ℕ_discrete
assignable_type_run = refl

common_assignable_type_run :
    common_assignable_type i32 (faultable i32) (codes "branch") ≡ ok (faultable i32)
unfolding common_assignable_type assignable_type match_types match_at match_arms match_other
    unwrap_faultable_tuple_type ty_eq Ty-discrete decide ℕ_discrete
common_assignable_type_run = refl

common_assignable_type-assignable_example :
    ((faultable i32 ≡ i32) ⊎ (faultable i32 ≡ faultable i32))
    × (assignable_type (faultable i32) i32 ≡ ok tt)
    × (assignable_type (faultable i32) (faultable i32) ≡ ok tt)
common_assignable_type-assignable_example =
    common_assignable_type-assignable i32 (faultable i32) (faultable i32) (codes "branch")
      common_assignable_type_run

i32_alone : i32 ≢ faultable i32
i32_alone e = absurd (omega (arith, ap size e))

common_assignable_type_unique_example :
    ((assignable_type (faultable (faultable i32)) i32 ≡ ok tt)
      × (assignable_type (faultable (faultable i32)) (faultable i32) ≡ ok tt))
    ↔ (faultable (faultable i32) ≡ faultable i32)
common_assignable_type_unique_example =
    common_assignable_type_unique i32 (faultable i32) (faultable i32) (codes "branch")
      (faultable (faultable i32)) tt tt tt i32_alone common_assignable_type_run

strip_faultable_laws_example :
    (contains_faultable (strip_faultable half_faultable) ≡ false)
    × (strip_faultable half_faultable ≡ half_faultable ↔ contains_faultable half_faultable ≡ false)
    × (strip_faultable (strip_faultable half_faultable) ≡ strip_faultable half_faultable)
strip_faultable_laws_example = strip_faultable_laws half_faultable

sequence_item_type_unsound_example :
    (sequence_item_type empty_seq i32 ≡ ok i32)
    × (sequence_item_type i32 empty_seq ≡ ok i32)
    × (assignable_type i32 empty_seq ≢ ok tt)
unfolding inner_faultable
sequence_item_type_unsound_example = sequence_item_type_unsound i32 tt refl

sequence_item_type_run : sequence_item_type i32 (faultable i32) ≡ ok (faultable i32)
unfolding sequence_item_type faultable_of ty_eq Ty-discrete decide ℕ_discrete
sequence_item_type_run = refl

sequence_item_type_upper_example :
    ((faultable i32 ≡ i32)
      × ((faultable i32 ≡ faultable i32) ⊎ (faultable i32 ≡ faultable (faultable i32))))
    ⊎ ((faultable i32 ≡ faultable i32) × ((i32 ≡ faultable i32) ⊎ (faultable i32 ≡ faultable i32)))
unfolding ty_eq Ty-discrete decide ℕ_discrete
sequence_item_type_upper_example =
    sequence_item_type_upper i32 (faultable i32) (faultable i32) refl refl sequence_item_type_run

sequence_item_type_comm_example :
    sequence_item_type i32 (faultable i32) ≡ ok (faultable i32)
    ↔ sequence_item_type (faultable i32) i32 ≡ ok (faultable i32)
sequence_item_type_comm_example = sequence_item_type_comm i32 (faultable i32) (faultable i32)

-- `Seq[i32|()]`
abbrev union_seq : Ty
union_seq = seq (one_of (cons i32 (cons unit nil)))

parse_type-display_example : parse_type (display union_seq) ≡ ok union_seq
parse_type-display_example = parse_type-display union_seq (tt, (tt, tt, (tt, tt, tt)))

parse_type_total_example : Ensures (λ _. Unit {0}) (parse_type (codes "Seq[i32"))
parse_type_total_example = parse_type_total (codes "Seq[i32")
