-- ===== src/Retry/Tests.antt =====
-- The retry policy form on concrete texts, and its theorems at them.
use relay_lifeline.Prelude.{
  ◌≡◌, refl, true, false, some, none, ok, throw, read_digits, arith, String_keys,
}
use relay_lifeline.Numbers.{whole, number_of, num_lt, num_eq, num_mul, round, floor_div}
use relay_lifeline.Retry.{
  FormState, RetryPolicyInfo, RetryPolicyInput, custom, immediate, fixed, random,
}
use relay_lifeline.Retry.Building.{
  apply_preset, build_policy, bad_duration, build_schedule, bad_interval, bad_range, with_attempts,
  bad_attempts, chosen_attempts, chosen, chosen_range, duration_value, split_choice, split_at,
  estimate_attempts, fixed_schedule, interval_error, attempts_error,
}
use relay_lifeline.Retry.Policy.{IsPolicy, build_policy-IsPolicy}
use relay_lifeline.Retry.Defaults.{policy_defaults}
use relay_lifeline.Retry.Reported.{as_input}
use relay_lifeline.Retry.Roundtrip.{build_policy-policy_defaults}

unfoldable pub form : Unit {0}
unfolding build_policy bad_duration build_schedule bad_interval bad_range with_attempts bad_attempts
    chosen_attempts chosen chosen_range duration_value split_choice split_at estimate_attempts
    number_of read_digits num_lt num_eq num_mul round floor_div apply_preset
form = tt

abbrev pub opened : FormState
opened = record {
  preset = custom;
  duration_choice = "custom";
  custom_duration_value = "2.5";
  custom_duration_unit = "60000";
  mode = fixed;
  fixed_choice = "15000";
  custom_fixed_value = "15";
  custom_fixed_unit = "1000";
  random_choice = "60000:120000";
  custom_random_min = "1";
  custom_random_max = "2";
  custom_random_unit = "60000";
  exponential_choice = "60000:900000";
  custom_exponential_base = "1";
  custom_exponential_max = "15";
  custom_exponential_unit = "60000";
  max_attempts_choice = "0";
  custom_max_attempts = "3";
  honor_retry_after = true;
  overwrite = true;
  retry_waiting_now = false;
}

abbrev pub built : RetryPolicyInput
built = record {
  duration_milliseconds = whole 150_000;
  schedule = fixed_schedule (whole 15_000);
  max_additional_attempts = none;
  honor_retry_after = true;
}

opened_builds : build_policy opened ≡ ok built
unfolding form
opened_builds = refl

ten_attempts : estimate_attempts built ≡ whole 10
unfolding form
ten_attempts = refl

short_interval :
    build_policy (record opened { fixed_choice = "custom"; custom_fixed_value = "4.9" })
    ≡ throw interval_error
unfolding form
short_interval = refl

endless_immediate : build_policy (record opened { mode = immediate }) ≡ throw attempts_error
unfolding form
endless_immediate = refl

build_policy-IsPolicy_example : IsPolicy fixed built × (true ≡ true)
unfolding form
build_policy-IsPolicy_example =
    build_policy-IsPolicy opened
      (record {
        duration = refl;
        duration_unit = refl;
        fixed_interval = refl;
        fixed_unit = refl;
        random_range = refl;
        random_unit = refl;
        exponential_range = refl;
        exponential_unit = refl;
      })
      built opened_builds

abbrev reported : RetryPolicyInfo
reported = record {
  duration_milliseconds = 90_000;
  schedule = record {
    mode = random;
    interval_milliseconds = none;
    minimum_interval_milliseconds = some 7_000;
    maximum_interval_milliseconds = some 60_000;
    base_interval_milliseconds = none;
  };
  max_additional_attempts = some 7;
  honor_retry_after = false;
}

build_policy-policy_defaults_example :
    build_policy (policy_defaults (λ _ _. "") (some reported)) ≡ ok (as_input reported)
build_policy-policy_defaults_example =
    build_policy-policy_defaults (λ _ _. "") reported
      (record {
        seconds = (omega arith, refl);
        least = omega arith;
        most = omega arith;
        schedule = (
          7_000,
          60_000,
          (refl, (omega arith, refl), (omega arith, omega arith)),
          (refl, (omega arith, refl), (omega arith, omega arith)),
          omega arith,
          refl,
          refl,
        );
        limit = (omega arith, omega arith);
      })
