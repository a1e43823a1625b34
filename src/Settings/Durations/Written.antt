-- ===== src/Settings/Durations/Written.antt =====
-- What a duration field of web/src/views/SettingsView.tsx shows and writes back.

use Prim.Native.Nat.{◌^◌}
use Prim.Native.Char.{code}
use text.Mathlib.TextLemmas.{nil-append, cons-append}
use relay_lifeline.Prelude.{
  if-P, and_right, ℕ, zero, suc, ◌+◌, ◌-◌, ◌*◌, ◌/◌, ◌%◌, ◌≤◌, ◌≡◌, refl, sym, subst, ap, ◌∙◌, inl,
  inr, Bool, true, false, ◌&&◌, ◌||◌, Option, none, some, String, ltb, show, show_from, digit,
  read_digits, read_digits-show, ◌<>◌, Bool-cases, arith,
}
use relay_lifeline.Numbers.Scaled.{
  div_whole-scaled, multiple_exact, num_eq-scaled, one-le-scaled, scaled_exact, scaled_quotient,
}
use relay_lifeline.Numbers.{
  Number, ratio, whole, num_eq, num_mul, num_add, num_le, is_multiple, num_max_zero,
}
use relay_lifeline.Settings.Durations.{
  DurationUnit, in_seconds, in_minutes, in_hours, unit_text, digits, begin, amount_of, take_digit,
  is_digit, duration_factor, double_sum, counted, end_match, hold_minutes, take_s, advance, finish,
  sum_matches, duration_seconds, parts_of, duration_parts, amount_text, duration_text,
}

abbrev pub filled : String → Bool
filled String.[] = false
filled (String.◌∷◌ c rest) = true

digit-filled : (d : ℕ) → filled (digit d) ≡ true
unfolding digit
digit-filled zero = refl
digit-filled (suc zero) = refl
digit-filled (suc (suc zero)) = refl
digit-filled (suc (suc (suc zero))) = refl
digit-filled (suc (suc (suc (suc zero)))) = refl
digit-filled (suc (suc (suc (suc (suc zero))))) = refl
digit-filled (suc (suc (suc (suc (suc (suc zero)))))) = refl
digit-filled (suc (suc (suc (suc (suc (suc (suc zero))))))) = refl
digit-filled (suc (suc (suc (suc (suc (suc (suc (suc zero)))))))) = refl
digit-filled (suc (suc (suc (suc (suc (suc (suc (suc (suc n))))))))) = refl

filled-append : (a b : String) → filled a ≡ true → filled (a <> b) ≡ true
filled-append String.[] b e = absurd (let no : ⊥ = cc in no)
filled-append (String.◌∷◌ c a) b e = rw (cons-append c a b)

show_from-filled : (fuel k : ℕ) → filled (show_from fuel k) ≡ true
unfolding show_from
show_from-filled zero k = digit-filled k
show_from-filled (suc fuel) k = elim (Bool-cases (ltb k 10)) [
  | inl small ↦ rw small (digit-filled k)
  | inr large ↦
      rw large
        (filled-append (show_from fuel (k / 10)) (digit (k % 10)) (show_from-filled fuel (k / 10)))
]

pub show-filled : (n : ℕ) → filled (show n) ≡ true
unfolding show
show-filled n = show_from-filled n n

pub or_true : (b : Bool) → (b || true) ≡ true
or_true true = refl
or_true false = refl

pub or_false : (b : Bool) → (b || false) ≡ b
or_false true = refl
or_false false = refl

module _ (plus : Number → Number → Number) (factor : DurationUnit → Number → Number) where
  sum_digits :
      (total : Number) (acc k : ℕ) (any : Bool) (text rest : String)
      → read_digits acc text ≡ some k
      → sum_matches plus factor total (digits acc any) (text <> rest)
        ≡ sum_matches plus factor total (digits k (any || filled text)) rest
  unfolding sum_matches advance counted take_digit read_digits
  sum_digits total acc k any String.[] rest e =
      let same : acc ≡ k = cc in rw (nil-append rest, or_false any, same) (refl)
  sum_digits total acc k any (String.◌∷◌ c text) rest e = elim (Bool-cases (is_digit (code c))) [
    | inl numeral ↦
        let e' : read_digits (acc * 10 + (code c - b'0')) text ≡ some k = rw numeral at e in
        rw (cons-append c text rest, or_true any)
          (rw (numeral, sum_matches)
            (sum_digits total (acc * 10 + (code c - b'0')) k true text rest e'))
    | inr other ↦ let e' : none ≡ some k = rw other at e in absurd (let no : ⊥ = cc in no)
  ]

  sum_show :
      (total : Number) (n : ℕ) (rest : String)
      → sum_matches plus factor total begin (show n <> rest)
        ≡ sum_matches plus factor total (digits n true) rest
  sum_show total n rest =
      sum_digits total 0 n false (show n) rest (read_digits-show n) ∙ rw (show-filled n) (refl)

-- The whole numbers up to which each is a double of the language, `Number.MAX_SAFE_INTEGER + 1`.
abbrev pub exact_up_to : ℕ
exact_up_to = 9007199254740992

-- `round` is the double that is nearest to a number.
module _ (round : Number → Number)
    (round_whole : (n : ℕ) → n ≤ exact_up_to → round (whole n) ≡ whole n) where
  pub times_whole :
      (k f : ℕ)
      → k ≤ exact_up_to
      → k * f ≤ exact_up_to
      → round (num_mul (round (whole k)) (whole f)) ≡ whole (k * f)
  unfolding num_mul
  times_whole k f small result = rw (round_whole k small) (round_whole (k * f) result)

  from_zero : (n : ℕ) → n ≤ exact_up_to → round (num_add (whole 0) (whole n)) ≡ whole n
  unfolding num_add
  from_zero n small =
      ap (λ m. round (whole m)) (let e : 0 * 1 + n * 1 ≡ n = omega arith in e) ∙ round_whole n small

  duration_seconds-show_h :
      (k : ℕ)
      → k * 3600 ≤ exact_up_to
      → duration_seconds round (some (show k <> "h")) ≡ whole (k * 3600)
  unfolding duration_seconds sum_matches advance finish end_match duration_factor amount_of
      double_sum
  duration_seconds-show_h k small =
      let small' : k ≤ exact_up_to = omega (arith, small) in
      rw (sum_show (double_sum round) (duration_factor round) (whole 0) k "h", duration_seconds)
        (rw (times_whole k 3600 small' small) (from_zero (k * 3600) small))

  duration_seconds-show_m :
      (k : ℕ)
      → k * 60 ≤ exact_up_to
      → duration_seconds round (some (show k <> "m")) ≡ whole (k * 60)
  unfolding duration_seconds sum_matches advance finish hold_minutes counted duration_factor
      amount_of double_sum
  duration_seconds-show_m k small =
      let small' : k ≤ exact_up_to = omega (arith, small) in
      rw (sum_show (double_sum round) (duration_factor round) (whole 0) k "m", duration_seconds)
        (rw (times_whole k 60 small' small) (from_zero (k * 60) small))

  duration_seconds-show_s :
      (n : ℕ) → n ≤ exact_up_to → duration_seconds round (some (show n <> "s")) ≡ whole n
  unfolding duration_seconds sum_matches advance finish take_s end_match duration_factor amount_of
      double_sum
  duration_seconds-show_s n small =
      rw (sum_show (double_sum round) (duration_factor round) (whole 0) n "s", duration_seconds)
        (rw (round_whole n small) (from_zero n small))

module _ (fraction_text : Number → String) where
  abbrev pub written : Number × DurationUnit → String
  written (amount, unit) = duration_text fraction_text amount unit

  duration_text-scaled :
      (q k : ℕ) (unit : DurationUnit)
      → k ≤ exact_up_to
      → written (ratio false (suc q * k) q, unit) ≡ show k <> unit_text unit
  unfolding duration_text amount_text num_max_zero
  duration_text-scaled q k unit small =
      let short : ltb k (10 ^ 21) ≡ true = ground (arith, small) in
      rw (scaled_exact q k, scaled_quotient q k) (rw short (refl))

  duration_text-whole :
      (k : ℕ) (unit : DurationUnit)
      → k ≤ exact_up_to
      → written (whole k, unit) ≡ show k <> unit_text unit
  duration_text-whole k unit small =
      ap (λ t. written (ratio false t 0, unit)) (omega arith) ∙ duration_text-scaled 0 k unit small

module _ (round : Number → Number) (fraction_text : Number → String)
    (round_whole : (n : ℕ) → n ≤ exact_up_to → round (whole n) ≡ whole n) where
  -- Reading back an amount that the field shows.
  abbrev Reads : ℕ → Number × DurationUnit → Type 0
  Reads n parts = duration_seconds round (some (written fraction_text parts)) ≡ whole n

  Reads-hours : (n k : ℕ) → n ≤ exact_up_to → k * 3600 ≡ n → Reads n (round (whole k), in_hours)
  unfolding unit_text
  Reads-hours n k small e =
      let below : k * 3600 ≤ exact_up_to = omega (arith, small, e) in
      let few : k ≤ exact_up_to = omega (arith, below) in
      rw (round_whole k few, duration_text-whole fraction_text k in_hours few)
        (duration_seconds-show_h round round_whole k below ∙ ap whole e)

  Reads-minutes : (n k : ℕ) → n ≤ exact_up_to → k * 60 ≡ n → Reads n (round (whole k), in_minutes)
  unfolding unit_text
  Reads-minutes n k small e =
      let below : k * 60 ≤ exact_up_to = omega (arith, small, e) in
      let few : k ≤ exact_up_to = omega (arith, below) in
      rw (round_whole k few, duration_text-whole fraction_text k in_minutes few)
        (duration_seconds-show_m round round_whole k below ∙ ap whole e)

  Reads-seconds : (q n : ℕ) → n ≤ exact_up_to → Reads n (ratio false (suc q * n) q, in_seconds)
  unfolding unit_text
  Reads-seconds q n small =
      rw (duration_text-scaled fraction_text q n in_seconds small)
        (duration_seconds-show_s round round_whole n small)

  parts_of-Reads :
      (q n : ℕ) → 1 ≤ n → n ≤ exact_up_to → Reads n (parts_of round (ratio false (suc q * n) q))
  unfolding parts_of
  parts_of-Reads q n positive small =
      let x = ratio false (suc q * n) q in
      if-P (Reads n) (num_le (whole 3600) x && is_multiple 3600 x)
        (λ hours.
          let exact = and_right (num_le (whole 3600) x) (is_multiple 3600 x) hours in
          rw (div_whole-scaled q n 3600 exact)
            (Reads-hours n (n / 3600) small (multiple_exact q n 3600 exact)))
        (λ _.
          if-P (Reads n) (num_le (whole 60) x && is_multiple 60 x)
            (λ mins.
              let exact = and_right (num_le (whole 60) x) (is_multiple 60 x) mins in
              rw (div_whole-scaled q n 60 exact)
                (Reads-minutes n (n / 60) small (multiple_exact q n 60 exact)))
            (λ _.
              if-P (Reads n) (num_le (whole 1) x) (λ _. Reads-seconds q n small)
                (λ less.
                  absurd (let no : ⊥ = ground (arith, one-le-scaled q n positive, less) in no))))

  -- Where `round` keeps the whole numbers up to 2 ^ 53, as the rounding to a double does, what a
  -- duration field shows of a text that stands for a whole number of seconds, one or more and at most
  -- 2 ^ 53, is an amount and a unit that, written to the field's text without a change, stand for the
  -- same number.
  pub duration_parts-duration_seconds :
      (raw : Option String) (n : ℕ)
      → num_eq (duration_seconds round raw) (whole n) ≡ true
      → 1 ≤ n
      → n ≤ exact_up_to
      → duration_seconds round (some (written fraction_text (duration_parts round raw))) ≡ whole n
  unfolding duration_parts
  duration_parts-duration_seconds raw n e positive small =
      let (q, shape) = num_eq-scaled (duration_seconds round raw) n e positive in
      subst (λ x. Reads n (parts_of round x)) (sym shape) (parts_of-Reads q n positive small)
