-- ===== src/Settings/Durations.antt =====
-- The duration fields of web/src/views/SettingsView.tsx: how the text of a duration is read, shown as
-- an amount of a unit, and written back.
pub mod Written
use Prim.Native.Nat.{◌^◌}
use Prim.Native.String
use Prim.Native.Char.{Char, code}
use relay_lifeline.Prelude.{
  ℕ, suc, ◌+◌, ◌-◌, ◌*◌, ◌/◌, ◌%◌, Bool, true, false, not, ◌&&◌, ◌||◌, Option, none, some, String,
  if◌then◌else◌, ltb, leb, nat_eq, show, ◌<>◌,
}
use relay_lifeline.Numbers.{
  Number, nan, infinite, ratio, whole, num_mul, num_le, num_lt, num_eq, num_add, div_whole,
  is_multiple, num_max_zero,
}

pub data DurationUnit : Type 0 where
  in_milliseconds : DurationUnit
  in_seconds : DurationUnit
  in_minutes : DurationUnit
  in_hours : DurationUnit

unfoldable pub unit_text : DurationUnit → String
unit_text in_milliseconds = "ms"
unit_text in_seconds = "s"
unit_text in_minutes = "m"
unit_text in_hours = "h"

-- Where a match of the pattern stands: in the digits of its amount (with whether there is one yet), in
-- the decimals (with how many there are), or behind an `m` that an `s` may follow.
pub data Phase : Type 0 where
  digits : ℕ → Bool → Phase
  decimals : ℕ → ℕ → Phase
  minutes : Number → Phase

abbrev pub begin : Phase
begin = digits 0 false

-- The amount that has been read, where a unit may follow it.
unfoldable pub amount_of : Phase → Option Number
amount_of (digits n any) = if any then some (whole n) else none
amount_of (decimals p count) =
    if nat_eq count 0 then none else some (ratio false p (10 ^ count - 1))
amount_of (minutes amount) = none

unfoldable pub take_digit : ℕ → Phase → Phase
take_digit d (digits n any) = digits (n * 10 + d) true
take_digit d (decimals p count) = decimals (p * 10 + d) (suc count)
take_digit d (minutes amount) = digits d true

unfoldable pub take_point : Phase → Option Phase
take_point (digits n true) = some (decimals n 0)
take_point _ = none

abbrev pub is_digit : ℕ → Bool
is_digit c = leb b'0' c && leb c b'9'

-- `plus` adds two numbers, and `factor` reads an amount and multiplies it by the number that its unit
-- stands for, both as the doubles of the language do.
module _ (plus : Number → Number → Number) (factor : DurationUnit → Number → Number) where
  -- The minutes that are still to be counted.
  unfoldable pub counted : Number → Phase → Number
  counted total (minutes amount) = plus total (factor in_minutes amount)
  counted total _ = total

  unfoldable pub end_match : DurationUnit → Number → Option Number → Option (Number × Phase)
  end_match unit total none = none
  end_match unit total (some amount) = some (plus total (factor unit amount), begin)

  unfoldable pub hold_minutes : Number → Option Number → Option (Number × Phase)
  hold_minutes total none = none
  hold_minutes total (some amount) = some (total, minutes amount)

  unfoldable pub take_s : Number → Phase → Option (Number × Phase)
  unfolding end_match amount_of
  take_s total (minutes amount) = end_match in_milliseconds total (some amount)
  take_s total phase = end_match in_seconds total (amount_of phase)

  -- One character of a text that the matches fill without a gap.
  unfoldable pub advance : ℕ → Number → Phase → Option (Number × Phase)
  unfolding counted end_match hold_minutes take_s amount_of take_digit take_point
  advance c total phase =
      if is_digit c
      then some (counted total phase, take_digit (c - b'0') phase)
      else if nat_eq c b'.'
      then (elim (take_point phase) [ none ↦ none | some next ↦ some (total, next) ])
      else if nat_eq c b'h'
      then end_match in_hours total (amount_of phase)
      else if nat_eq c b'm'
      then hold_minutes total (amount_of phase)
      else if nat_eq c b's'
      then take_s total phase
      else none

  -- A text that ends within a match is not filled.
  unfoldable pub finish : Number → Phase → Option Number
  finish total (digits n any) = if any then none else some total
  finish total (decimals p count) = none
  finish total (minutes amount) = some (counted total (minutes amount))

  -- The sum of the matches, if they fill the text.
  unfoldable pub sum_matches : Number → Phase → String → Option Number
  unfolding advance finish
  sum_matches total phase String.[] = finish total phase
  sum_matches total phase (String.◌∷◌ c rest) = elim (advance (code c) total phase) [
    | none ↦ none
    | some (total', phase') ↦ sum_matches total' phase' rest
  ]

-- `fraction_text` is the text of a number that is not whole, or is 10 ^ 21 or more.
module _ (fraction_text : Number → String) where
  -- The text of a number that is not negative.
  unfoldable pub amount_text : Number → String
  amount_text (ratio false p q) =
      if nat_eq (p % suc q) 0 && ltb (p / suc q) (10 ^ 21)
      then show (p / suc q)
      else fraction_text (ratio false p q)
  amount_text n = fraction_text n

  -- What the field hands over: `update(nextAmount, nextUnit)`.
  unfoldable pub duration_text : Number → DurationUnit → String
  unfolding amount_text unit_text
  duration_text amount unit = amount_text (num_max_zero amount) <> unit_text unit

-- `round` is the double that is nearest to a number.
module _ (round : Number → Number) where
  unfoldable pub double_sum : Number → Number → Number
  double_sum a b = round (num_add a b)

  unfoldable pub duration_factor : DurationUnit → Number → Number
  duration_factor in_milliseconds amount =
      round (num_mul (round amount) (round (ratio false 1 999)))
  duration_factor in_seconds amount = round amount
  duration_factor in_minutes amount = round (num_mul (round amount) (whole 60))
  duration_factor in_hours amount = round (num_mul (round amount) (whole 3600))

  abbrev or_zero : Option Number → Number
  or_zero none = whole 0
  or_zero (some n) = n

  -- `raw` is `none` where it is not a text.
  unfoldable pub duration_seconds : Option String → Number
  unfolding sum_matches duration_factor double_sum
  duration_seconds none = whole 0
  duration_seconds (some raw) = or_zero (sum_matches double_sum duration_factor (whole 0) begin raw)

  unfoldable pub parts_of : Number → Number × DurationUnit
  parts_of seconds =
      if num_le (whole 3600) seconds && is_multiple 3600 seconds
      then (round (div_whole seconds 3600), in_hours)
      else if num_le (whole 60) seconds && is_multiple 60 seconds
      then (round (div_whole seconds 60), in_minutes)
      else if num_le (whole 1) seconds
      then (seconds, in_seconds)
      else (round (num_mul seconds (whole 1000)), in_milliseconds)

  unfoldable pub duration_parts : Option String → Number × DurationUnit
  unfolding duration_seconds parts_of
  duration_parts raw = parts_of (duration_seconds raw)
