-- ===== src/Retry/Whole.antt =====
-- The numbers that the retry policy form takes from its choices and its custom fields.
use relay_lifeline.Prelude.{
  ℕ, ◌≡◌, refl, true, false, arith, String, ◌||◌, Bool-cases, inl, inr, List, [], ◌∷◌, has, All,
  All-has, ◌==◌, String_keys, if◌then◌else◌, Bool, not, eq_iff, read_digits,
}
use relay_lifeline.Numbers.{
  Number, nan, infinite, ratio, whole, num_eq, num_lt, num_le, num_mul, round, number_of,
  number_of_option, is_finite,
}
use relay_lifeline.Retry.Building.{chosen, chosen_range, duration_value, split_choice}

-- A whole number.
abbrev pub IsWhole : Number → Type 0
IsWhole n = (k : ℕ) × (n ≡ whole k)

-- The units that the custom fields offer.
abbrev pub units : List String
units = "1000" ∷ "60000" ∷ "3600000" ∷ []

abbrev pub duration_choices : List String
duration_choices = "300000" ∷ "900000" ∷ "1800000" ∷ "3600000" ∷ "21600000" ∷ "86400000" ∷ []

pub units-IsWhole : All (λ unit. IsWhole (number_of unit)) units
unfolding number_of read_digits
units-IsWhole = ((1_000, refl), ((60_000, refl), ((3_600_000, refl), tt)))

if-IsWhole : (b : Bool) {m n : Number} → IsWhole m → IsWhole n → IsWhole (if b then m else n)
if-IsWhole true h k = h
if-IsWhole false h k = k

scaled-IsWhole :
    (parsed : Number) (u : ℕ)
    → IsWhole (
        if not (is_finite parsed) || num_le parsed (whole 0)
        then whole 0
        else round (num_mul parsed (whole u)))
unfolding num_lt num_eq num_mul round
scaled-IsWhole nan u = (0, refl)
scaled-IsWhole (infinite minus) u = (0, refl)
scaled-IsWhole (ratio true p q) u = (0, ground arith)
scaled-IsWhole (ratio false p q) u =
    if-IsWhole (num_le (ratio false p q) (whole 0)) (0, refl) (_, refl)

duration_value-IsWhole :
    (value unit : String) → has unit units ≡ true → IsWhole (duration_value value unit)
unfolding duration_value
duration_value-IsWhole value unit offered =
    let (u, e) = All-has (λ unit. IsWhole (number_of unit)) unit units offered units-IsWhole in
    rw e (scaled-IsWhole (number_of value) u)

pub chosen-IsWhole :
    (choice value unit : String) (choices : List String)
    → All (λ c. IsWhole (number_of c)) choices
    → has choice ("custom" ∷ choices) ≡ true
    → has unit units ≡ true
    → IsWhole (chosen choice value unit)
unfolding chosen
chosen-IsWhole choice value unit choices numerals offered in_units =
    elim (Bool-cases (choice == "custom")) [
      | inl is_custom ↦ rw is_custom (duration_value-IsWhole value unit in_units)
      | inr other ↦ rw other (
          All-has (λ c. IsWhole (number_of c)) choice choices
            (ground (arith, eq_iff choice "custom", eq_iff "custom" choice)) numerals)
    ]

-- Both ends of a range are whole.
abbrev pub AreWhole : Number × Number → Type 0
AreWhole (low, high) = IsWhole low × IsWhole high

abbrev pub ends : String → Number × Number
ends choice = let parts = split_choice choice in (number_of parts.0, number_of_option parts.1)

pub chosen_range-AreWhole :
    (choice low high unit : String) (choices : List String)
    → All (λ c. AreWhole (ends c)) choices
    → has choice ("custom" ∷ choices) ≡ true
    → has unit units ≡ true
    → AreWhole (chosen_range choice low high unit)
unfolding chosen_range
chosen_range-AreWhole choice low high unit choices ranges offered in_units =
    elim (Bool-cases (choice == "custom")) [
      | inl is_custom ↦
          rw is_custom
            ((duration_value-IsWhole low unit in_units, duration_value-IsWhole high unit in_units))
      | inr other ↦ rw other (
          All-has (λ c. AreWhole (ends c)) choice choices
            (ground (arith, eq_iff choice "custom", eq_iff "custom" choice)) ranges)
    ]
