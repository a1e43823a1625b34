-- ===== src/Captures/Minutes.antt =====
-- The timeout that a capture is offered with: durationMinutes of web/src/views/CapturesView.tsx.

use Prim.Native.Char.{code}
use relay_lifeline.Prelude.{
  if-P, ℕ, suc, ◌+◌, ◌-◌, ◌/◌, ◌≤◌, ◌≡◌, refl, subst, true, false, Option, none, some, String,
  nat_eq, arith,
}
use relay_lifeline.Numbers.{Number, nan, infinite, ratio, whole, num_lt}
use relay_lifeline.Numbers.Laws.{num_lt-whole}
use relay_lifeline.Settings.Durations.{
  DurationUnit, in_milliseconds, in_seconds, in_minutes, in_hours, Phase, digits, decimals, minutes,
  begin, amount_of, take_digit, take_point, is_digit, counted, end_match, hold_minutes, take_s,
  advance, finish, sum_matches,
}
use relay_lifeline.Captures.{num_ceil, clamp_minutes, duration_minutes}

-- A number that is finite and not negative.
abbrev pub IsAmount : Number → Type 0
IsAmount (ratio false p q) = Unit
IsAmount _ = ⊥

abbrev AmountPhase : Phase → Type 0
AmountPhase (minutes amount) = IsAmount amount
AmountPhase _ = Unit

abbrev AmountOption : Option Number → Type 0
AmountOption none = Unit
AmountOption (some n) = IsAmount n

abbrev AmountStep : Option (Number × Phase) → Type 0
AmountStep none = Unit
AmountStep (some (total, phase)) = IsAmount total × AmountPhase phase

amount_of-IsAmount : (phase : Phase) → AmountOption (amount_of phase)
unfolding amount_of
amount_of-IsAmount (digits n any) = if-P AmountOption any (λ _. tt) (λ _. tt)
amount_of-IsAmount (decimals p count) = if-P AmountOption (nat_eq count 0) (λ _. tt) (λ _. tt)
amount_of-IsAmount (minutes amount) = tt

take_digit-IsAmount : (d : ℕ) (phase : Phase) → AmountPhase (take_digit d phase)
unfolding take_digit
take_digit-IsAmount d (digits n any) = tt
take_digit-IsAmount d (decimals p count) = tt
take_digit-IsAmount d (minutes amount) = tt

module _ (plus : Number → Number → Number) (factor : DurationUnit → Number → Number)
    (sums : (a b : Number) → IsAmount a → IsAmount b → IsAmount (plus a b))
    (amounts : (unit : DurationUnit) (n : Number) → IsAmount n → IsAmount (factor unit n)) where
  counted-IsAmount :
      (total : Number) (phase : Phase)
      → IsAmount total
      → AmountPhase phase
      → IsAmount (counted plus factor total phase)
  unfolding counted
  counted-IsAmount total (digits n any) h k = h
  counted-IsAmount total (decimals p count) h k = h
  counted-IsAmount total (minutes amount) h k =
      sums total (factor in_minutes amount) h (amounts in_minutes amount k)

  end_match-IsAmount :
      (unit : DurationUnit) (total : Number) (amount : Option Number)
      → IsAmount total
      → AmountOption amount
      → AmountStep (end_match plus factor unit total amount)
  unfolding end_match
  end_match-IsAmount unit total none h k = tt
  end_match-IsAmount unit total (some amount) h k =
      (sums total (factor unit amount) h (amounts unit amount k), tt)

  hold-IsAmount :
      (total : Number) (amount : Option Number)
      → IsAmount total
      → AmountOption amount
      → AmountStep (hold_minutes plus factor total amount)
  unfolding hold_minutes
  hold-IsAmount total none h k = tt
  hold-IsAmount total (some amount) h k = (h, k)

  take_s-IsAmount :
      (total : Number) (phase : Phase)
      → IsAmount total
      → AmountPhase phase
      → AmountStep (take_s plus factor total phase)
  unfolding take_s
  take_s-IsAmount total (digits n any) h k =
      end_match-IsAmount in_seconds total (amount_of (digits n any)) h
        (amount_of-IsAmount (digits n any))
  take_s-IsAmount total (decimals p count) h k =
      end_match-IsAmount in_seconds total (amount_of (decimals p count)) h
        (amount_of-IsAmount (decimals p count))
  take_s-IsAmount total (minutes amount) h k =
      end_match-IsAmount in_milliseconds total (some amount) h k

  point-IsAmount :
      (total : Number) (next : Option Phase)
      → IsAmount total
      → ((phase : Phase) → next ≡ some phase → AmountPhase phase)
      → AmountStep (elim next [ none ↦ none | some phase ↦ some (total, phase) ])
  point-IsAmount total none h k = tt
  point-IsAmount total (some phase) h k = (h, k phase refl)

  take_point-IsAmount : (phase next : Phase) → take_point phase ≡ some next → AmountPhase next
  unfolding take_point
  take_point-IsAmount (digits n true) next e =
      let same : decimals n 0 ≡ next = cc in subst AmountPhase same tt
  take_point-IsAmount (digits n false) next e = absurd (let no : ⊥ = cc in no)
  take_point-IsAmount (decimals p count) next e = absurd (let no : ⊥ = cc in no)
  take_point-IsAmount (minutes amount) next e = absurd (let no : ⊥ = cc in no)

  advance-IsAmount :
      (c : ℕ) (total : Number) (phase : Phase)
      → IsAmount total
      → AmountPhase phase
      → AmountStep (advance plus factor c total phase)
  unfolding advance
  advance-IsAmount c total phase h k =
      if-P AmountStep (is_digit c)
        (λ _. (counted-IsAmount total phase h k, take_digit-IsAmount (c - b'0') phase))
        (λ _.
          if-P AmountStep (nat_eq c b'.')
            (λ _. point-IsAmount total (take_point phase) h (take_point-IsAmount phase))
            (λ _.
              if-P AmountStep (nat_eq c b'h')
                (λ _.
                  end_match-IsAmount in_hours total (amount_of phase) h (amount_of-IsAmount phase))
                (λ _.
                  if-P AmountStep (nat_eq c b'm')
                    (λ _. hold-IsAmount total (amount_of phase) h (amount_of-IsAmount phase))
                    (λ _.
                      if-P AmountStep (nat_eq c b's') (λ _. take_s-IsAmount total phase h k)
                        (λ _. tt)))))

  step-IsAmount :
      (rest : String) (next : Option (Number × Phase))
      → AmountStep next
      → ((total : Number) (phase : Phase)
          → IsAmount total
          → AmountPhase phase
          → AmountOption (sum_matches plus factor total phase rest))
      → AmountOption (elim next [
        | none ↦ none
        | some (total, phase) ↦ sum_matches plus factor total phase rest
      ])
  step-IsAmount rest none h k = tt
  step-IsAmount rest (some (total, phase)) h k = k total phase h.0 h.1

  finish-IsAmount :
      (total : Number) (phase : Phase)
      → IsAmount total
      → AmountPhase phase
      → AmountOption (finish plus factor total phase)
  unfolding finish
  finish-IsAmount total (digits n any) h k = if-P AmountOption any (λ _. tt) (λ _. h)
  finish-IsAmount total (decimals p count) h k = tt
  finish-IsAmount total (minutes amount) h k = counted-IsAmount total (minutes amount) h k

  sum_matches-IsAmount :
      (text : String) (total : Number) (phase : Phase)
      → IsAmount total
      → AmountPhase phase
      → AmountOption (sum_matches plus factor total phase text)
  unfolding sum_matches
  sum_matches-IsAmount String.[] total phase h k = finish-IsAmount total phase h k
  sum_matches-IsAmount (String.◌∷◌ c rest) total phase h k =
      step-IsAmount rest (advance plus factor (code c) total phase)
        (advance-IsAmount (code c) total phase h k) (sum_matches-IsAmount rest)

  -- A whole number from 1 to 60.
  abbrev pub IsTimeout : Number → Type 0
  IsTimeout n = (k : ℕ) × (n ≡ whole k) × (1 ≤ k) × (k ≤ 60)

  clamp-IsTimeout : (k : ℕ) → IsTimeout (clamp_minutes (whole k))
  unfolding clamp_minutes
  clamp-IsTimeout k =
      if-P IsTimeout (num_lt (whole k) (whole 1)) (λ _. (1, refl, omega arith, omega arith))
        (λ low.
          if-P IsTimeout (num_lt (whole 60) (whole k)) (λ _. (60, refl, omega arith, omega arith))
            (λ high.
              (k, refl, ground (arith, num_lt-whole k 1), ground (arith, num_lt-whole 60 k))))

  rounded-IsTimeout : (n : Number) → IsAmount n → IsTimeout (clamp_minutes (num_ceil n))
  unfolding num_ceil
  rounded-IsTimeout (ratio false p q) h = clamp-IsTimeout ((p + q) / suc q)
  rounded-IsTimeout (ratio true p q) h = absurd h
  rounded-IsTimeout nan h = absurd h
  rounded-IsTimeout (infinite sign) h = absurd h

  offered-IsTimeout :
      (sum : Option Number)
      → AmountOption sum
      → IsTimeout (elim sum [ none ↦ whole 10 | some n ↦ clamp_minutes (num_ceil n) ])
  offered-IsTimeout none h = (10, refl, omega arith, omega arith)
  offered-IsTimeout (some n) h = rounded-IsTimeout n h

  -- Whatever text the settings have for the activation timeout of captures, the timeout that is offered
  -- is a whole number of minutes from 1 to 60, provided that no unit makes an amount negative, infinite
  -- or no number, and no sum of two amounts is.
  pub duration_minutes-IsTimeout : (raw : String) → IsTimeout (duration_minutes plus factor raw)
  unfolding duration_minutes
  duration_minutes-IsTimeout raw =
      offered-IsTimeout (sum_matches plus factor (whole 0) begin raw)
        (sum_matches-IsAmount raw (whole 0) begin tt tt)
