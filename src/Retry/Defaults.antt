-- ===== src/Retry/Defaults.antt =====
-- The form that web/src/components/RetryPolicyDialog.tsx opens with, from the policy that the
-- request has, if any.
use relay_lifeline.Prelude.{
  ℕ, ◌%◌, ◌/◌, ◌*◌, Bool, true, false, ◌&&◌, List, [], ◌∷◌, Option, none, some, String, nat_eq, ltb,
  if◌then◌else◌, ◌==◌, String_keys, ℕ_keys, show, ◌<>◌, any, find, has,
}
use relay_lifeline.Numbers.{number_of, num_eq, whole}
use relay_lifeline.Retry.{
  second, minute, hour, standard, custom, RetryScheduleMode, random, RetryScheduleInfo,
  RetryPolicyInfo, FormState, fixed_choices, random_choices, exponential_choices, durations,
}

-- `value || fallback` on a number that may be missing.
abbrev pub or_else : Option ℕ → ℕ → ℕ
or_else none fallback = fallback
or_else (some n) fallback = if nat_eq n 0 then fallback else n

unfoldable pub divides : ℕ → ℕ → Bool
divides unit n = nat_eq (n % unit) 0

unfoldable pub choice_for : ℕ → List String → String
choice_for value choices =
    if any (λ candidate. num_eq (number_of candidate) (whole value)) choices
    then show value
    else "custom"

unfoldable pub pair_text : ℕ → ℕ → String
pair_text low high = show low <> (":" <> show high)

unfoldable pub pair_choice : ℕ → ℕ → List String → String
pair_choice low high choices =
    let value = pair_text low high in
    if any (λ candidate. candidate == value) choices then value else "custom"

unfoldable pub duration_choice_for : ℕ → String
duration_choice_for length = if has length durations then show length else "custom"

unfoldable pub attempts_choice_for : ℕ → String
attempts_choice_for attempts =
    if has attempts (3 ∷ 5 ∷ 10 ∷ 20 ∷ [])
    then show attempts
    else if ltb 0 attempts
    then "custom"
    else "0"

-- The first unit that fits the test, from hours down.
unfoldable pub unit_for : (ℕ → Bool) → ℕ → ℕ
unit_for fits fallback = elim (find fits (hour ∷ minute ∷ second ∷ [])) [
  | none ↦ fallback
  | some unit ↦ unit
]

abbrev pub mode_of : Option RetryPolicyInfo → RetryScheduleMode
mode_of none = random
mode_of (some policy) = policy.schedule.mode

abbrev pub schedule_number : (RetryScheduleInfo ℕ → Option ℕ) → Option RetryPolicyInfo → ℕ → ℕ
schedule_number field none fallback = fallback
schedule_number field (some policy) fallback = or_else (field policy.schedule) fallback

-- `quotient_text n unit` is the language's decimal text of n / unit where that is no whole number.
module _ (quotient_text : ℕ → ℕ → String) where
  unfoldable pub quotient : ℕ → ℕ → String
  quotient n unit = if divides unit n then show (n / unit) else quotient_text n unit

  -- The value and the unit of the custom fields.
  unfoldable pub from_milliseconds : ℕ → ℕ → String × String
  from_milliseconds milliseconds fallback =
      let unit = unit_for (λ candidate. divides candidate milliseconds) fallback in
      (quotient milliseconds unit, show unit)

  unfoldable pub range_from_milliseconds : ℕ → ℕ → String × String × String
  range_from_milliseconds low high =
      let unit = unit_for (λ candidate. divides candidate low && divides candidate high) second in
      (quotient low unit, quotient high unit, show unit)

  unfoldable pub policy_defaults : Option RetryPolicyInfo → FormState
  policy_defaults policy =
      let length : ℕ = elim policy [
        | none ↦ hour
        | some p ↦ or_else (some p.duration_milliseconds) hour
      ] in
      let interval = schedule_number (λ s. s.interval_milliseconds) policy 15_000 in
      let random_min = schedule_number (λ s. s.minimum_interval_milliseconds) policy minute in
      let random_max = schedule_number (λ s. s.maximum_interval_milliseconds) policy (2 * minute) in
      let base = schedule_number (λ s. s.base_interval_milliseconds) policy minute in
      let base_max = schedule_number (λ s. s.maximum_interval_milliseconds) policy (15 * minute) in
      let attempts : ℕ = elim policy [ none ↦ 0 | some p ↦ or_else p.max_additional_attempts 0 ] in
      record {
        preset = elim policy [ none ↦ standard | some _ ↦ custom ];
        duration_choice = duration_choice_for length;
        custom_duration_value = (from_milliseconds length minute).0;
        custom_duration_unit = (from_milliseconds length minute).1;
        mode = mode_of policy;
        fixed_choice = choice_for interval fixed_choices;
        custom_fixed_value = (from_milliseconds interval second).0;
        custom_fixed_unit = (from_milliseconds interval second).1;
        random_choice = pair_choice random_min random_max random_choices;
        custom_random_min = (range_from_milliseconds random_min random_max).0;
        custom_random_max = (range_from_milliseconds random_min random_max).1;
        custom_random_unit = (range_from_milliseconds random_min random_max).2;
        exponential_choice = pair_choice base base_max exponential_choices;
        custom_exponential_base = (range_from_milliseconds base base_max).0;
        custom_exponential_max = (range_from_milliseconds base base_max).1;
        custom_exponential_unit = (range_from_milliseconds base base_max).2;
        max_attempts_choice = attempts_choice_for attempts;
        custom_max_attempts = show (or_else (some attempts) 3);
        honor_retry_after = elim policy [ none ↦ true | some p ↦ p.honor_retry_after ];
        overwrite = true;
        retry_waiting_now = false;
      }
