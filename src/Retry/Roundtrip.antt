-- ===== src/Retry/Roundtrip.antt =====
-- The form that opens on a policy of the server, and the policy that it builds.
use relay_lifeline.Prelude.{
  ℕ, ◌≤◌, ◌≡◌, ◌*◌, refl, String, ok, Option, some, List, has, any, String_keys, ℕ_keys,
  if◌then◌else◌, Bool, show, ◌∙◌,
}
use relay_lifeline.Numbers.{whole, num_eq, number_of}
use relay_lifeline.Retry.Reported.{
  IsReportedSchedule, IsReportedLimit, IsReported, as_input, good_duration, good_interval,
  good_range, reported-or_else, good_attempts, limit_of, choice-attempts,
}
use relay_lifeline.Retry.{
  FormState, RetryPolicyInfo, RetryScheduleMode, inherit, immediate, fixed, random, exponential,
  fixed_choices, random_choices, exponential_choices, day, hour, minute, second, durations,
}
use relay_lifeline.Retry.Building.{
  build_schedule, chosen, chosen_range, fixed_schedule, random_schedule, exponential_schedule,
  build_policy, with_attempts, chosen_attempts,
}
use relay_lifeline.Retry.Scheduled.{Fits}
use relay_lifeline.Retry.Defaults.{
  policy_defaults, choice_for, pair_choice, range_from_milliseconds, or_else, duration_choice_for,
  from_milliseconds,
}
use relay_lifeline.Retry.Fields.{IsSeconds, chosen-shown, chosen_range-pair_choice}

build-fixed :
    (form : FormState) (length n : ℕ)
    → chosen form.fixed_choice form.custom_fixed_value form.custom_fixed_unit ≡ whole n
    → length ≤ day
    → Fits length n
    → build_schedule fixed form (whole length) ≡ ok (fixed_schedule (whole n))
unfolding build_schedule
build-fixed form length n e most fits = rw (e, good_interval length n most fits) (refl)

build-random :
    (form : FormState) (length low high : ℕ)
    → chosen_range form.random_choice form.custom_random_min form.custom_random_max
        form.custom_random_unit
      ≡ (whole low, whole high)
    → length ≤ day
    → Fits length low
    → Fits length high
    → low ≤ high
    → build_schedule random form (whole length) ≡ ok (random_schedule (whole low, whole high))
unfolding build_schedule
build-random form length low high e most f g order =
    rw (e, good_range length low high most f g order) (refl)

build-exponential :
    (form : FormState) (length low high : ℕ)
    → chosen_range form.exponential_choice form.custom_exponential_base form.custom_exponential_max
        form.custom_exponential_unit
      ≡ (whole low, whole high)
    → length ≤ day
    → Fits length low
    → Fits length high
    → low ≤ high
    → build_schedule exponential form (whole length)
      ≡ ok (exponential_schedule (whole low, whole high))
unfolding build_schedule
build-exponential form length low high e most f g order =
    rw (e, good_range length low high most f g order) (refl)

with_attempts-reported :
    (form : FormState) (policy : RetryPolicyInfo)
    → form.mode ≡ policy.schedule.mode
    → form.honor_retry_after ≡ policy.honor_retry_after
    → chosen_attempts form ≡ whole (or_else policy.max_additional_attempts 0)
    → IsReportedLimit policy.schedule.mode policy.max_additional_attempts
    → with_attempts form (whole policy.duration_milliseconds) (as_input policy).schedule
      ≡ ok (as_input policy)
unfolding with_attempts
with_attempts-reported form policy same honored e limit =
    rw
      (
        e,
        same,
        good_attempts policy.schedule.mode policy.max_additional_attempts limit,
        honored,
        limit_of policy.schedule.mode policy.max_additional_attempts limit,
      )
      (refl)

build_policy-reported :
    (form : FormState) (policy : RetryPolicyInfo)
    → form.mode ≡ policy.schedule.mode
    → form.honor_retry_after ≡ policy.honor_retry_after
    → chosen form.duration_choice form.custom_duration_value form.custom_duration_unit
      ≡ whole policy.duration_milliseconds
    → build_schedule form.mode form (whole policy.duration_milliseconds)
      ≡ ok (as_input policy).schedule
    → chosen_attempts form ≡ whole (or_else policy.max_additional_attempts 0)
    → IsReported policy
    → build_policy form ≡ ok (as_input policy)
unfolding build_policy
build_policy-reported form policy same honored lasting built attempts h =
    rw (lasting, good_duration _ h.least h.most, built)
      (with_attempts-reported form policy same honored attempts h.limit)

module _ (quotient_text : ℕ → ℕ → String) where
  -- The fields of the form for an interval that is reported, and for a range.
  chosen_of :
      (listed : ℕ → Bool) (field : Option ℕ) (n fallback unit : ℕ)
      → field ≡ some n
      → IsSeconds n
      → chosen
          (if listed (or_else field fallback) then show (or_else field fallback) else "custom")
          (from_milliseconds quotient_text (or_else field fallback) unit).0
          (from_milliseconds quotient_text (or_else field fallback) unit).1
        ≡ whole n
  chosen_of listed field n fallback unit e h =
      rw (reported-or_else field n fallback e h) (chosen-shown quotient_text (listed n) n unit h)

  range_of :
      (field limit : Option ℕ) (low high fallback maximum : ℕ) (choices : List String)
      → field ≡ some low
      → limit ≡ some high
      → IsSeconds low
      → IsSeconds high
      → chosen_range
          (pair_choice (or_else field fallback) (or_else limit maximum) choices)
          (range_from_milliseconds quotient_text (or_else field fallback) (or_else limit maximum)).0
          (range_from_milliseconds quotient_text (or_else field fallback) (or_else limit maximum)).1
          (range_from_milliseconds quotient_text (or_else field fallback) (or_else limit maximum)).2
        ≡ (whole low, whole high)
  range_of field limit low high fallback maximum choices e f h k =
      rw (reported-or_else field low fallback e h, reported-or_else limit high maximum f k)
        (chosen_range-pair_choice quotient_text low high choices h k)

  build_schedule-defaults :
      (mode : RetryScheduleMode) (policy : RetryPolicyInfo)
      → policy.duration_milliseconds ≤ day
      → policy.schedule.mode ≡ mode
      → IsReportedSchedule mode policy.duration_milliseconds policy.schedule
      → build_schedule mode
          (policy_defaults quotient_text (some policy))
          (whole policy.duration_milliseconds)
        ≡ ok (as_input policy).schedule
  unfolding policy_defaults build_schedule choice_for
  build_schedule-defaults inherit policy most same (a, b, c, d) = rw (a, b, c, d, same) (refl)
  build_schedule-defaults immediate policy most same (a, b, c, d) = rw (a, b, c, d, same) (refl)
  build_schedule-defaults fixed policy most same (n, (e, seconds, fits), b, c, d) =
      build-fixed (policy_defaults quotient_text (some policy)) _ n
        (chosen_of (λ x. any (λ c. num_eq (number_of c) (whole x)) fixed_choices) _ n 15_000 second
          e seconds)
        most fits
      ∙ rw (e, b, c, d, same) (refl)
  build_schedule-defaults random policy most same (low, high, (e, s, f), (g, t, k), order, c, d) =
      build-random (policy_defaults quotient_text (some policy)) _ low high
        (range_of _ _ low high minute (2 * minute) random_choices e g s t) most f k order
      ∙ rw (e, g, c, d, same) (refl)
  build_schedule-defaults exponential policy most same
        (low, high, (e, s, f), (g, t, k), order, c, d) =
      build-exponential (policy_defaults quotient_text (some policy)) _ low high
        (range_of _ _ low high minute (15 * minute) exponential_choices e g s t) most f k order
      ∙ rw (e, g, c, d, same) (refl)

  -- For a policy of whole seconds within the bounds of the form, the form that opens on it builds the
  -- same policy.
  pub build_policy-policy_defaults :
      (policy : RetryPolicyInfo)
      → IsReported policy
      → build_policy (policy_defaults quotient_text (some policy)) ≡ ok (as_input policy)
  unfolding policy_defaults duration_choice_for chosen_attempts
  build_policy-policy_defaults policy h =
      build_policy-reported (policy_defaults quotient_text (some policy)) policy refl refl
        (chosen_of (λ x. has x durations) (some policy.duration_milliseconds) _ hour minute refl
          h.seconds)
        (build_schedule-defaults policy.schedule.mode policy h.most refl h.schedule)
        (choice-attempts (or_else policy.max_additional_attempts 0) _ refl) h
