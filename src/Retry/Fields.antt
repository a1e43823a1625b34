-- ===== src/Retry/Fields.antt =====
-- The texts that the retry policy form opens with, and the numbers that they are read as.
use Prim.Native.Char.{Char, code}
use relay_lifeline.Prelude.{
  ℕ, zero, suc, ◌*◌, ◌/◌, ◌%◌, ◌<◌, ◌≤◌, ◌≡◌, refl, true, false, arith, String, Bool-cases, inl,
  inr, some, none, List, any, String_keys, ℕ_keys, if◌then◌else◌, ◌==◌, Bool, ◌&&◌, nat_eq, leb,
  read_digits, read_digits-show, show, ◌<>◌, sym, ap, ◌∙◌, ◌-◌, ◌+◌, eq_iff,
}
use relay_lifeline.Numbers.{whole, number_of, number_of_option}
use relay_lifeline.Numbers.Laws.{number_of-show, round-mul-whole, num_le-whole}
use relay_lifeline.Retry.{hour, minute, second}
use relay_lifeline.Retry.Building.{chosen, chosen_range, duration_value, split_choice, split_at}
use relay_lifeline.Retry.Defaults.{
  divides, pair_text, pair_choice, unit_for, quotient, from_milliseconds, range_from_milliseconds,
}
use native.Mathlib.Nat.{mod-eq-sub-div-mul, div-mul-le_self}
use text.Mathlib.TextLemmas.{nil-append, cons-append}

-- Whole seconds, more than none.
abbrev pub IsSeconds : ℕ → Type 0
IsSeconds n = (0 < n) × (n % 1_000 ≡ 0)

colon-append : (t : String) → ":" <> t ≡ String.◌∷◌ ":" t
colon-append t = cons-append ":" String.[] t ∙ ap (String.◌∷◌ ":") (nil-append t)

read_digits-cons :
    (acc n : ℕ) (c : Char) (s : String)
    → read_digits acc (String.◌∷◌ c s) ≡ some n
    → (nat_eq (code c) b':' ≡ false) × (read_digits (acc * 10 + (code c - b'0')) s ≡ some n)
unfolding read_digits
read_digits-cons acc n c s h = elim (Bool-cases (leb b'0' (code c) && leb (code c) b'9')) [
  | inl digit ↦ (ground arith, ground (arith, h))
  | inr other ↦ absurd (ground (arith, h))
]

split_at-append :
    (acc n : ℕ) (s t : String)
    → read_digits acc s ≡ some n
    → split_at (s <> (":" <> t)) ≡ some (s, t)
unfolding split_at
split_at-append acc n String.[] t h = rw (nil-append (":" <> t), colon-append t) (refl)
split_at-append acc n (String.◌∷◌ c s) t h =
    let (other, rest) = read_digits-cons acc n c s h in
    rw (cons-append c s (":" <> t), other, split_at-append (acc * 10 + (code c - b'0')) n s t rest)
      (refl)

split_at-digits : (acc n : ℕ) (s : String) → read_digits acc s ≡ some n → split_at s ≡ none
unfolding split_at
split_at-digits acc n String.[] h = refl
split_at-digits acc n (String.◌∷◌ c s) h =
    let (other, rest) = read_digits-cons acc n c s h in
    rw (other, split_at-digits (acc * 10 + (code c - b'0')) n s rest) (refl)

split_choice-pair_text :
    (low high : ℕ) → split_choice (pair_text low high) ≡ (show low, some (show high))
unfolding split_choice pair_text
split_choice-pair_text low high =
    rw
      (
        split_at-append 0 low (show low) (show high) (read_digits-show low),
        split_at-digits 0 high (show high) (read_digits-show high),
        split_choice,
      )
      (refl)

-- A text that starts with a number or is one is not `custom`.
pub show-custom : (n : ℕ) → show n == "custom" ≡ false
unfolding read_digits
show-custom n = elim (Bool-cases (show n == "custom")) [
  | inl same ↦ absurd (
      let read =
        ap (read_digits 0) (sym ((eq_iff (show n) "custom").0 same)) ∙ read_digits-show n in
      cc read)
  | inr other ↦ other
]

pair_text-custom : (low high : ℕ) → pair_text low high == "custom" ≡ false
unfolding split_at pair_text
pair_text-custom low high = elim (Bool-cases (pair_text low high == "custom")) [
  | inl same ↦ absurd (
      let parted =
        ap split_at (sym ((eq_iff (pair_text low high) "custom").0 same))
        ∙ split_at-append 0 low (show low) (show high) (read_digits-show low) in
      cc parted)
  | inr other ↦ other
]

zero_lt-leb : (k : ℕ) → 0 < k → leb k 0 ≡ false
zero_lt-leb k h = ground arith

duration_value-show : (k unit : ℕ) → 0 < k → duration_value (show k) (show unit) ≡ whole (k * unit)
unfolding duration_value
duration_value-show k unit h =
    rw (number_of-show k, number_of-show unit, num_le-whole k 0)
      (rw (zero_lt-leb k h) (round-mul-whole k unit))

unit_for-divides :
    (fits : ℕ → Bool) (fallback : ℕ)
    → fits second ≡ true
    → (fits (unit_for fits fallback) ≡ true) × (second ≤ unit_for fits fallback)
unfolding unit_for
unit_for-divides fits fallback h = elim (Bool-cases (fits hour)) [
  | inl at_hour ↦ rw (at_hour, unit_for) ((at_hour, omega arith))
  | inr below ↦
      rw (below, unit_for)
        (elim (Bool-cases (fits minute)) [
          | inl at_minute ↦ rw (at_minute, unit_for) ((at_minute, omega arith))
          | inr lowest ↦ rw (lowest, h, unit_for) ((h, omega arith))
        ])
]

div-mul_of_divides : (n unit : ℕ) → 0 < unit → divides unit n ≡ true → n / unit * unit ≡ n
unfolding divides
div-mul_of_divides n unit h d = ground (arith, d, mod-eq-sub-div-mul n unit, div-mul-le_self n unit)

factor-pos : (q unit n : ℕ) → q * unit ≡ n → 0 < n → 0 < q
factor-pos zero unit n h some_time = omega arith
factor-pos (suc q) unit n h some_time = omega arith

divides-second : (n : ℕ) → n % 1_000 ≡ 0 → divides second n ≡ true
unfolding divides
divides-second n h = ground arith

both : (a b : Bool) → a && b ≡ true → (a ≡ true) × (b ≡ true)
both true b h = (refl, h)
both false b h = cc

module _ (quotient_text : ℕ → ℕ → String) where
  duration_value-quotient :
      (n unit : ℕ)
      → 0 < n
      → second ≤ unit
      → divides unit n ≡ true
      → duration_value (quotient quotient_text n unit) (show unit) ≡ whole n
  unfolding quotient
  duration_value-quotient n unit some_time large d =
      let product = div-mul_of_divides n unit (omega arith) d in
      rw (d, quotient)
        (duration_value-show (n / unit) unit (factor-pos (n / unit) unit n product some_time)
          ∙ ap whole product)

  -- A choice that shows the number or is `custom`.
  pub chosen-shown :
      (listed : Bool) (n fallback : ℕ)
      → IsSeconds n
      → chosen
          (if listed then show n else "custom")
          (from_milliseconds quotient_text n fallback).0
          (from_milliseconds quotient_text n fallback).1
        ≡ whole n
  unfolding chosen from_milliseconds
  chosen-shown true n fallback h = rw (show-custom n) (number_of-show n)
  chosen-shown false n fallback (some_time, seconds) =
      let (d, large) =
        unit_for-divides (λ candidate. divides candidate n) fallback (divides-second n seconds) in
      duration_value-quotient n _ some_time large d

  pub chosen_range-pair_choice :
      (low high : ℕ) (choices : List String)
      → IsSeconds low
      → IsSeconds high
      → chosen_range
          (pair_choice low high choices)
          (range_from_milliseconds quotient_text low high).0
          (range_from_milliseconds quotient_text low high).1
          (range_from_milliseconds quotient_text low high).2
        ≡ (whole low, whole high)
  unfolding chosen_range pair_choice range_from_milliseconds number_of number_of_option
  chosen_range-pair_choice low high choices (h, m) (k, o) =
      elim (Bool-cases (any (λ candidate. candidate == pair_text low high) choices)) [
        | inl listed ↦ rw (listed) (
            rw (pair_text-custom low high, split_choice-pair_text low high)
              (λ i. (number_of-show low i, number_of-show high i)))
        | inr other ↦ rw other (
            let (d, large) =
              unit_for-divides (λ candidate. divides candidate low && divides candidate high) second
                (rw (divides-second low m) (divides-second high o)) in
            let (e, f) = both _ _ d in
            λ i. (
              duration_value-quotient low _ h large e i,
              duration_value-quotient high _ k large f i,
            ))
      ]
