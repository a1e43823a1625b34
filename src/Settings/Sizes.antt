-- ===== src/Settings/Sizes.antt =====
-- The byte sizes of web/src/views/SettingsView.tsx: how the text of a size is read, shown as an amount of
-- a unit, and written back.
pub mod Kept
use Prim.Native.String
use Prim.Native.Char.{Char, code}
use relay_lifeline.Prelude.{
  ℕ, ◌+◌, ◌-◌, ◌*◌, Bool, true, false, not, ◌&&◌, ◌||◌, List, [], ◌∷◌, Option, none, some, String,
  if◌then◌else◌, leb, nat_eq, ◌<>◌,
}
use relay_lifeline.Numbers.{Number, whole, num_mul, num_le, is_multiple, div_whole, num_max_zero}
use relay_lifeline.Settings.Durations.{
  Phase, begin, amount_of, take_digit, take_point, is_digit, amount_text,
}

pub data ByteUnit : Type 0 where
  bytes : ByteUnit
  kib : ByteUnit
  mib : ByteUnit
  gib : ByteUnit

unfoldable pub byte_factor : ByteUnit → ℕ
byte_factor bytes = 1
byte_factor kib = 1024
byte_factor mib = 1048576
byte_factor gib = 1073741824

unfoldable pub byte_unit_text : ByteUnit → String
byte_unit_text bytes = "B"
byte_unit_text kib = "KiB"
byte_unit_text mib = "MiB"
byte_unit_text gib = "GiB"

-- Letters of the English alphabet are the same in either case.
abbrev small_letter : ℕ → ℕ
small_letter c = if leb b'A' c && leb c b'Z' then c + 32 else c

unfoldable pub same_letters : String → String → Bool
same_letters String.[] String.[] = true
same_letters (String.◌∷◌ c s) (String.◌∷◌ d t) =
    nat_eq (small_letter (code c)) (small_letter (code d)) && same_letters s t
same_letters _ _ = false

unfoldable pub unit_from : List ByteUnit → String → Option ByteUnit
unfolding same_letters byte_unit_text
unit_from [] text = none
unit_from (unit ∷ rest) text =
    if same_letters (byte_unit_text unit) text then some unit else unit_from rest text

-- `round` is the double that is nearest to a number.
module _ (round : Number → Number) where
  unfoldable pub with_unit : Option Number → String → Option Number
  unfolding unit_from byte_factor
  with_unit none text = none
  with_unit (some amount) text = elim (unit_from (bytes ∷ kib ∷ mib ∷ gib ∷ []) text) [
    | none ↦ none
    | some unit ↦ some (round (num_mul (round amount) (whole (byte_factor unit))))
  ]

  -- The size of a text that the pattern matches as a whole.
  unfoldable pub byte_size : Phase → String → Option Number
  unfolding with_unit amount_of take_digit take_point
  byte_size phase String.[] = none
  byte_size phase (String.◌∷◌ c rest) =
      if is_digit (code c)
      then byte_size (take_digit (code c - b'0') phase) rest
      else if nat_eq (code c) b'.'
      then (elim (take_point phase) [ none ↦ none | some next ↦ byte_size next rest ])
      else with_unit (amount_of phase) (String.◌∷◌ c rest)

  -- The largest unit that divides the size.
  unfoldable pub largest_unit : List ByteUnit → Number → Number × ByteUnit
  unfolding byte_factor
  largest_unit [] size = (size, bytes)
  largest_unit (unit ∷ rest) size =
      if num_le (whole (byte_factor unit)) size && is_multiple (byte_factor unit) size
      then (round (div_whole size (byte_factor unit)), unit)
      else largest_unit rest size

-- `trim` is the language's function on texts, `fraction_text` the text of a number that is not whole.
module _ (round : Number → Number) (trim : String → String) (fraction_text : Number → String) where
  unfoldable pub byte_parts : String → Number × ByteUnit
  unfolding byte_size largest_unit
  byte_parts raw = elim (byte_size round begin (trim raw)) [
    | none ↦ (whole 0, mib)
    | some size ↦ largest_unit round (gib ∷ mib ∷ kib ∷ bytes ∷ []) size
  ]

  -- What the field hands over: `update(nextAmount, nextUnit)`.
  unfoldable pub byte_text : Number × ByteUnit → String
  unfolding amount_text byte_unit_text
  byte_text (amount, unit) = amount_text fraction_text (num_max_zero amount) <> byte_unit_text unit
