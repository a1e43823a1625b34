-- ===== src/Requests/Presets.antt =====
-- The quick policies of web/src/views/RequestsView.tsx and the presets of
-- web/src/components/RetryPolicyDialog.tsx.
use relay_lifeline.Prelude.{◌≡◌, some, ok, read_digits, String_keys}
use relay_lifeline.Numbers.{number_of, number_of_option, num_lt, num_eq}
use relay_lifeline.Retry.{FormState, Preset, standard, fast, conservative, custom, RetryPolicyInput}
use relay_lifeline.Retry.Building.{
  apply_preset, build_policy, bad_duration, build_schedule, bad_interval, bad_range, with_attempts,
  bad_attempts, chosen_attempts, chosen, chosen_range, split_choice, split_at,
}
use relay_lifeline.Requests.{quick_policies}

-- From whatever the form holds, a preset builds the quick policy of its name.
pub build_policy-apply_preset :
    (preset : Preset) (form : FormState) (policy : RetryPolicyInput)
    → quick_policies preset ≡ some policy
    → build_policy (apply_preset preset form) ≡ ok policy
unfolding quick_policies build_policy bad_duration build_schedule bad_interval bad_range
    with_attempts bad_attempts chosen_attempts chosen chosen_range split_choice split_at number_of
    number_of_option read_digits num_lt num_eq apply_preset
build_policy-apply_preset standard form policy h = cc
build_policy-apply_preset fast form policy h = cc
build_policy-apply_preset conservative form policy h = cc
build_policy-apply_preset custom form policy h = cc
