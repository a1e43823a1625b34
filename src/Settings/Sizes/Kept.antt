-- ===== src/Settings/Sizes/Kept.antt =====
-- What a size field of web/src/views/SettingsView.tsx shows and writes back.
use Prim.Native.Nat.{◌^◌}
use Prim.Native.Char.{code}
use native.Mathlib.Nat.{mul-le-mul_left}
use text.Mathlib.TextLemmas.{nil-append, cons-append}
use relay_lifeline.Prelude.{
  if-P, and_right, ℕ, suc, ◌+◌, ◌-◌, ◌*◌, ◌/◌, ◌≤◌, ◌≡◌, refl, sym, subst, ap, ◌∙◌, inl, inr, Bool,
  true, false, ◌&&◌, ◌||◌, List, [], ◌∷◌, none, some, String, ltb, show, read_digits,
  read_digits-show, ◌<>◌, Bool-cases, arith,
}
use relay_lifeline.Numbers.Scaled.{
  div_whole-scaled, multiple_exact, num_eq-scaled, scaled_exact, scaled_quotient,
}
use relay_lifeline.Numbers.{Number, ratio, whole, num_eq, num_le, is_multiple, num_max_zero}
use relay_lifeline.Settings.Durations.{
  digits, begin, amount_of, take_digit, take_point, is_digit, amount_text,
}
use relay_lifeline.Settings.Durations.Written.{
  exact_up_to, times_whole, filled, show-filled, or_true, or_false,
}
use relay_lifeline.Settings.Sizes.{
  ByteUnit, bytes, kib, mib, gib, byte_factor, byte_unit_text, same_letters, unit_from, with_unit,
  byte_size, largest_unit, byte_parts, byte_text,
}

module _ (round : Number → Number)
    (round_whole : (n : ℕ) → n ≤ exact_up_to → round (whole n) ≡ whole n) where
  size_digits :
      (acc k : ℕ) (any : Bool) (text rest : String)
      → read_digits acc text ≡ some k
      → byte_size round (digits acc any) (text <> rest)
        ≡ byte_size round (digits k (any || filled text)) rest
  unfolding byte_size take_digit read_digits
  size_digits acc k any String.[] rest e =
      let same : acc ≡ k = cc in rw (nil-append rest, or_false any, same) (refl)
  size_digits acc k any (String.◌∷◌ c text) rest e = elim (Bool-cases (is_digit (code c))) [
    | inl numeral ↦
        let e' : read_digits (acc * 10 + (code c - b'0')) text ≡ some k = rw numeral at e in
        rw (cons-append c text rest, or_true any)
          (rw (numeral, byte_size) (size_digits (acc * 10 + (code c - b'0')) k true text rest e'))
    | inr other ↦ let e' : none ≡ some k = rw other at e in absurd (let no : ⊥ = cc in no)
  ]

  size_show :
      (n : ℕ) (rest : String)
      → byte_size round begin (show n <> rest) ≡ byte_size round (digits n true) rest
  size_show n rest =
      size_digits 0 n false (show n) rest (read_digits-show n) ∙ rw (show-filled n) (refl)

  byte_size-unit :
      (k : ℕ) (unit : ByteUnit)
      → k * byte_factor unit ≤ exact_up_to
      → byte_size round (digits k true) (byte_unit_text unit) ≡ some (whole (k * byte_factor unit))
  unfolding byte_size byte_unit_text byte_factor with_unit unit_from same_letters amount_of
      take_point
  byte_size-unit k bytes small =
      ap some (times_whole round round_whole k 1 (omega (arith, small)) small)
  byte_size-unit k kib small =
      ap some (times_whole round round_whole k 1024 (omega (arith, small)) small)
  byte_size-unit k mib small =
      ap some (times_whole round round_whole k 1048576 (omega (arith, small)) small)
  byte_size-unit k gib small =
      ap some (times_whole round round_whole k 1073741824 (omega (arith, small)) small)

  byte_size-show :
      (k : ℕ) (unit : ByteUnit)
      → k * byte_factor unit ≤ exact_up_to
      → byte_size round begin (show k <> byte_unit_text unit) ≡ some (whole (k * byte_factor unit))
  byte_size-show k unit small = size_show k (byte_unit_text unit) ∙ byte_size-unit k unit small

in_bytes : (n : ℕ) → n * byte_factor bytes ≡ n
unfolding byte_factor
in_bytes n = omega arith

factor_positive : (unit : ByteUnit) → 1 ≤ byte_factor unit
unfolding byte_factor
factor_positive bytes = omega arith
factor_positive kib = omega arith
factor_positive mib = omega arith
factor_positive gib = omega arith

factor_below :
    (k n : ℕ) (unit : ByteUnit) → n ≤ exact_up_to → k * byte_factor unit ≡ n → k ≤ exact_up_to
factor_below k n unit small e =
    let times : k * 1 ≤ k * byte_factor unit = mul-le-mul_left k (factor_positive unit) in
    ground (arith, times, e, small)

module _ (round : Number → Number) (trim : String → String) (fraction_text : Number → String)
    (round_whole : (n : ℕ) → n ≤ exact_up_to → round (whole n) ≡ whole n)
    (trim-show : (k : ℕ) (unit : ByteUnit)
      → trim (show k <> byte_unit_text unit) ≡ show k <> byte_unit_text unit) where
  byte_text-scaled :
      (q k : ℕ) (unit : ByteUnit)
      → k ≤ exact_up_to
      → byte_text round trim fraction_text (ratio false (suc q * k) q, unit)
        ≡ show k <> byte_unit_text unit
  unfolding byte_text amount_text num_max_zero
  byte_text-scaled q k unit small =
      let short : ltb k (10 ^ 21) ≡ true = ground (arith, small) in
      rw (scaled_exact q k, scaled_quotient q k) (rw short (refl))

  -- A size that is shown reads back.
  abbrev Keeps : ℕ → Number × ByteUnit → Type 0
  Keeps n parts =
      byte_size round begin (trim (byte_text round trim fraction_text parts)) ≡ some (whole n)

  Keeps-unit :
      (q k n : ℕ) (unit : ByteUnit)
      → n ≤ exact_up_to
      → k * byte_factor unit ≡ n
      → Keeps n (ratio false (suc q * k) q, unit)
  Keeps-unit q k n unit small e =
      rw (byte_text-scaled q k unit (factor_below k n unit small e), trim-show k unit)
        (byte_size-show round round_whole k unit (rw e small) ∙ ap (λ t. some (whole t)) e)

  Keeps-whole :
      (k n : ℕ) (unit : ByteUnit)
      → n ≤ exact_up_to
      → k * byte_factor unit ≡ n
      → Keeps n (round (whole k), unit)
  Keeps-whole k n unit small e =
      rw (round_whole k (factor_below k n unit small e))
        (subst (λ t. Keeps n (ratio false t 0, unit)) (omega arith) (Keeps-unit 0 k n unit small e))

  largest_unit-Keeps :
      (q n : ℕ) (units : List ByteUnit)
      → n ≤ exact_up_to
      → Keeps n (largest_unit round units (ratio false (suc q * n) q))
  unfolding largest_unit
  largest_unit-Keeps q n [] small = Keeps-unit q n n bytes small (in_bytes n)
  largest_unit-Keeps q n (unit ∷ rest) small =
      let x = ratio false (suc q * n) q in
      if-P (Keeps n) (num_le (whole (byte_factor unit)) x && is_multiple (byte_factor unit) x)
        (λ divides.
          let exact =
            and_right (num_le (whole (byte_factor unit)) x) (is_multiple (byte_factor unit) x)
              divides in
          rw (div_whole-scaled q n (byte_factor unit) exact) (
            Keeps-whole (n / byte_factor unit) n unit small
              (multiple_exact q n (byte_factor unit) exact)))
        (λ _. largest_unit-Keeps q n rest small)

  -- What a size field shows of a text that stands for a whole number of bytes, one or more and at
  -- most 2 ^ 53, is an amount
  -- and a unit that, written to the field's text without a change, stand for the same number, provided
  -- that rounding to a double keeps the whole numbers up to there and trimming leaves a text alone that is a numeral and a unit.
  pub byte_parts-byte_size :
      (raw : String) (size : Number) (n : ℕ)
      → byte_size round begin (trim raw) ≡ some size
      → num_eq size (whole n) ≡ true
      → 1 ≤ n
      → n ≤ exact_up_to
      → byte_size round begin
          (trim (byte_text round trim fraction_text (byte_parts round trim fraction_text raw)))
        ≡ some (whole n)
  unfolding byte_parts
  byte_parts-byte_size raw size n read e positive small =
      let (q, shape) = num_eq-scaled size n e positive in
      rw (read, byte_parts)
        (subst (λ x. Keeps n (largest_unit round (gib ∷ mib ∷ kib ∷ bytes ∷ []) x)) (sym shape)
          (largest_unit-Keeps q n (gib ∷ mib ∷ kib ∷ bytes ∷ []) small))
