-- ===== src/Retry/Policy.antt =====
-- The policies that the retry policy form builds, for every form whose choices are offered ones.
use relay_lifeline.Prelude.{
  ℕ, suc, ◌≡◌, refl, true, false, arith, ok, Bool-cases, inl, inr, Option, some, none, ◌≤◌, ◌<◌,
  bind-eq-ok, nat_eq, All, String_keys, if◌then◌else◌, ◌≢◌, ◌%◌, subst, ◌>>=◌, sym, ◌∙◌,
}
use native.Mathlib.Nat.{mod-eq_of_lt}
use relay_lifeline.Numbers.{
  Number, nan, infinite, ratio, whole, num_eq, num_lt, num_le, number_of, is_integer, is_nonzero,
}
use relay_lifeline.Numbers.Laws.{num_lt-whole}
use relay_lifeline.Retry.Scheduled.{
  IsOffered, IsSchedule, if-eq-ok, ok-injective, numerals, build_schedule-IsSchedule,
}
use relay_lifeline.Retry.{FormState, RetryScheduleInfo, RetryPolicyInput, RetryScheduleMode, day}
use relay_lifeline.Retry.Building.{
  build_schedule, bad_attempts, is_immediate, chosen, build_policy, bad_duration, attempts_error,
  duration_error, attempted, with_attempts, chosen_attempts,
}
use relay_lifeline.Retry.Whole.{IsWhole, duration_choices, chosen-IsWhole}

-- At least one attempt and at most as many as the mode allows; where the mode is not immediate the
-- limit may be absent.
abbrev pub IsLimit : RetryScheduleMode → Option Number → Type 0
IsLimit mode none = is_immediate mode ≡ false
IsLimit mode (some attempts) =
    (is_integer attempts ≡ true)
    × (num_le (whole 1) attempts ≡ true)
    × (num_le attempts (whole (if is_immediate mode then 20 else 1_000)) ≡ true)

positive : (p q : ℕ) → p % suc q ≡ 0 → p ≢ 0 → suc q ≤ p
positive p q divides other = ground (arith, λ (h : p < suc q). mod-eq_of_lt h)

bad_attempts-IsLimit :
    (mode : RetryScheduleMode) (attempts : Number)
    → bad_attempts mode attempts ≡ false
    → IsLimit mode (if is_nonzero attempts then some attempts else none)
unfolding bad_attempts num_lt num_eq
bad_attempts-IsLimit mode nan h = cc
bad_attempts-IsLimit mode (infinite minus) h = cc
bad_attempts-IsLimit mode (ratio true p q) h = elim (Bool-cases (nat_eq p 0)) [
  | inl zero ↦ rw zero (ground arith)
  | inr other ↦ absurd (ground arith)
]
bad_attempts-IsLimit mode (ratio false p q) h = elim (Bool-cases (nat_eq p 0)) [
  | inl zero ↦ rw zero (ground arith)
  | inr other ↦ rw other (
      let least = positive p q in
      elim (Bool-cases (is_immediate mode)) [
        | inl at_once ↦ rw at_once ((ground arith, ground arith, ground arith))
        | inr later ↦ rw later ((ground arith, ground arith, ground arith))
      ])
]

-- What the builder promises of a policy of the mode.
pub record IsPolicy (mode : RetryScheduleMode) (policy : RetryPolicyInput) : Type 0 where
  pub milliseconds : ℕ
  pub duration : policy.duration_milliseconds ≡ whole milliseconds
  pub least : 5_000 ≤ milliseconds
  pub most : milliseconds ≤ day
  pub schedule : IsSchedule mode milliseconds policy.schedule
  pub limit : IsLimit mode policy.max_additional_attempts

duration_choices-IsWhole : All (λ c. IsWhole (number_of c)) duration_choices
unfolding numerals
duration_choices-IsWhole =
    ((_, refl), ((_, refl), ((_, refl), ((_, refl), ((_, refl), ((_, refl), tt))))))

bad_duration-le : (n : ℕ) → bad_duration (whole n) ≡ false → (5_000 ≤ n) × (n ≤ day)
unfolding bad_duration
bad_duration-le n h = ground (arith, num_lt-whole n 5_000, num_lt-whole day n)

with_attempts-eq_ok :
    (form : FormState) (length : Number) (schedule : RetryScheduleInfo Number)
    (policy : RetryPolicyInput)
    → with_attempts form length schedule ≡ ok policy
    → (policy.duration_milliseconds ≡ length)
      × (policy.schedule ≡ schedule)
      × IsLimit form.mode policy.max_additional_attempts
      × (policy.honor_retry_after ≡ form.honor_retry_after)
unfolding with_attempts
with_attempts-eq_ok form length schedule policy h =
    let (good, same) =
      if-eq-ok (bad_attempts form.mode (chosen_attempts form)) attempts_error
        (ok (attempted form length schedule)) h in
    subst
      (λ (p : RetryPolicyInput).
        (p.duration_milliseconds ≡ length)
        × (p.schedule ≡ schedule)
        × IsLimit form.mode p.max_additional_attempts
        × (p.honor_retry_after ≡ form.honor_retry_after))
      (ok-injective same)
      (refl, refl, bad_attempts-IsLimit form.mode (chosen_attempts form) good, refl)

-- A form whose choices are offered ones builds only policies of its mode that last at least five
-- seconds and at most a day, wait at least five seconds and less than they last, and allow as many
-- attempts as the mode may: at most a thousand, or between one and twenty if it is immediate.
pub build_policy-IsPolicy :
    (form : FormState)
    → IsOffered form
    → (policy : RetryPolicyInput) → build_policy form ≡ ok policy
    → IsPolicy form.mode policy × (policy.honor_retry_after ≡ form.honor_retry_after)
unfolding build_policy
build_policy-IsPolicy form offered policy h =
    let length = chosen form.duration_choice form.custom_duration_value form.custom_duration_unit in
    let (n, e) =
      chosen-IsWhole form.duration_choice form.custom_duration_value form.custom_duration_unit
        duration_choices duration_choices-IsWhole offered.duration offered.duration_unit in
    let (good, rest) =
      if-eq-ok (bad_duration length) duration_error
        (build_schedule form.mode form length >>= with_attempts form length) h in
    let (schedule, built, done) =
      bind-eq-ok (build_schedule form.mode form length) (with_attempts form length) rest in
    let (lasting, scheduled, limit, honored) =
      with_attempts-eq_ok form length schedule policy done in
    let (least, most) = bad_duration-le n (subst (λ l. bad_duration l ≡ false) e good) in
    (
      record {
        milliseconds = n;
        duration = lasting ∙ e;
        least = least;
        most = most;
        limit = limit;
        schedule = subst (IsSchedule form.mode n) (sym scheduled) (
            build_schedule-IsSchedule form.mode form n schedule offered
              (subst (λ l. build_schedule form.mode form l ≡ ok schedule) e built));
      },
      honored,
    )
