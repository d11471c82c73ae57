-- ===== src/Prelude/Int.antt =====
-- `i64` values, and their decimal text.
use Prim.Native.Nat.{ℕ, zero, suc, ◌+◌, ◌-◌, ◌*◌, ◌/◌, ◌%◌, ◌^◌}
use mathlib.Core.Bool.{Bool}
use mathlib.Core.Option.{Option, none, some}
use mathlib.Core.List.{[], ◌∷◌}
use flow_arrow.Prelude.Tests.{ltb, leb, if◌then◌else◌}
use flow_arrow.Prelude.Chars.{Text}

-- `negsuc n` is -(n + 1).
pub data ℤ : Type 0 where
  pos : ℕ → ℤ
  negsuc : ℕ → ℤ

-- The number that a list of digits denotes, behind the digits of `n`.
unfoldable pub digits_value : ℕ → Text → ℕ
digits_value n [] = n
digits_value n (c ∷ s) = digits_value (10 * n + (c - b'0')) s

abbrev pub negated : ℕ → ℤ
negated zero = pos 0
negated (suc n) = negsuc n

-- `str::parse::<i64>` on an optional sign and one digit or more: the value, unless it is out of range.
unfoldable pub parse_i64 : Bool → Text → Option ℤ
parse_i64 negative digits =
    let n = digits_value 0 digits in
    if negative
    then (if leb n (2 ^ 63) then some (negated n) else none)
    else (if ltb n (2 ^ 63) then some (pos n) else none)

-- `to_string` of a number: its digits before those of `s`. A number has at most as many digits as it
-- counts, and one at least, so `suc n` is fuel enough.
unfoldable pub decimal_at : ℕ → ℕ → Text → Text
decimal_at zero n s = s
decimal_at (suc fuel) n s =
    let more = decimal_at fuel (n / 10) ((b'0' + n % 10) ∷ s) in
    if ltb n 10 then (b'0' + n) ∷ s else more

unfoldable pub decimal : ℕ → Text
decimal n = decimal_at (suc n) n []

unfoldable pub display_i64 : ℤ → Text
display_i64 (pos n) = decimal n
display_i64 (negsuc n) = b'-' ∷ decimal (suc n)
