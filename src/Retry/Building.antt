-- ===== src/Retry/Building.antt =====
-- The policy that the form of web/src/components/RetryPolicyDialog.tsx builds, the estimate of its
-- attempts, and the changes of the form.

use Prim.Native.Char.{code}
use relay_lifeline.Prelude.{
  ◌*◌, Bool, true, false, not, ◌&&◌, ◌||◌, Option, none, some, String, Outcome, ok, throw, ◌>>=◌,
  nat_eq, if◌then◌else◌, ◌==◌, String_keys, ℕ_keys,
}
use relay_lifeline.Numbers.{
  Number, whole, num_lt, num_le, num_mul, round, is_finite, is_integer, is_nonzero, number_of,
  number_of_option, floor_div,
}
use relay_lifeline.Retry.{
  second, day, Preset, standard, fast, conservative, custom, RetryScheduleMode, inherit, immediate,
  fixed, random, exponential, RetryScheduleInfo, RetryPolicyInput, FormState,
}

unfoldable pub duration_value : String → String → Number
duration_value value unit =
    let parsed = number_of value in
    if not (is_finite parsed) || num_le parsed (whole 0)
    then whole 0
    else round (num_mul parsed (number_of unit))

-- `const [minimum, maximum] = value.split(":")`: the text before the first colon and the one between
-- the first two.
unfoldable pub split_at : String → Option (String × String)
split_at String.[] = none
split_at (String.◌∷◌ c s) =
    let rest = split_at s in
    if nat_eq (code c) b':'
    then some ("", s)
    else elim rest [ none ↦ none | some (front, back) ↦ some (String.◌∷◌ c front, back) ]

unfoldable pub split_choice : String → String × Option String
unfolding split_at
split_choice value = elim (split_at value) [
  | none ↦ (value, none)
  | some (minimum, rest) ↦
      (minimum, elim (split_at rest) [ none ↦ some rest | some (maximum, _) ↦ some maximum ])
]

pub data BuildError : Type 0 where
  duration_error : BuildError
  interval_error : BuildError
  attempts_error : BuildError

-- A choice of the form as a number, from the custom fields if the choice is `custom`.
unfoldable pub chosen : String → String → String → Number
chosen choice value unit =
    if choice == "custom" then duration_value value unit else number_of choice

-- The two ends of a range: from the custom fields, or from the choice that names both.
unfoldable pub chosen_range : String → String → String → String → Number × Number
chosen_range choice minimum maximum unit =
    if choice == "custom"
    then (duration_value minimum unit, duration_value maximum unit)
    else (let parts = split_choice choice in (number_of parts.0, number_of_option parts.1))

abbrev pub only : RetryScheduleMode → RetryScheduleInfo Number
only mode = record {
  mode = mode;
  interval_milliseconds = none;
  minimum_interval_milliseconds = none;
  maximum_interval_milliseconds = none;
  base_interval_milliseconds = none;
}

abbrev pub fixed_schedule : Number → RetryScheduleInfo Number
fixed_schedule interval = record (only fixed) { interval_milliseconds = some interval }

abbrev pub random_schedule : Number × Number → RetryScheduleInfo Number
random_schedule (low, high) = record (only random) {
  minimum_interval_milliseconds = some low;
  maximum_interval_milliseconds = some high;
}

abbrev pub exponential_schedule : Number × Number → RetryScheduleInfo Number
exponential_schedule (low, high) = record (only exponential) {
  base_interval_milliseconds = some low;
  maximum_interval_milliseconds = some high;
}

unfoldable pub bad_interval : Number → Number → Bool
bad_interval length interval =
    num_lt interval (whole (5 * second)) || num_le length interval || num_lt (whole day) interval

unfoldable pub bad_range : Number → Number × Number → Bool
bad_range length (low, high) =
    num_lt low (whole (5 * second))
    || num_lt high low
    || num_le length high
    || num_lt (whole day) high

-- The schedule of a form of the given mode, for a policy of the given duration.
unfoldable pub build_schedule :
    RetryScheduleMode → FormState → Number → Outcome BuildError (RetryScheduleInfo Number)
build_schedule inherit form length = ok (only inherit)
build_schedule immediate form length = ok (only immediate)
build_schedule fixed form length =
    let interval = chosen form.fixed_choice form.custom_fixed_value form.custom_fixed_unit in
    if bad_interval length interval then throw interval_error else ok (fixed_schedule interval)
build_schedule random form length =
    let range =
      chosen_range form.random_choice form.custom_random_min form.custom_random_max
        form.custom_random_unit in
    if bad_range length range then throw interval_error else ok (random_schedule range)
build_schedule exponential form length =
    let range =
      chosen_range form.exponential_choice form.custom_exponential_base form.custom_exponential_max
        form.custom_exponential_unit in
    if bad_range length range then throw interval_error else ok (exponential_schedule range)

abbrev pub is_immediate : RetryScheduleMode → Bool
is_immediate immediate = true
is_immediate _ = false

unfoldable pub bad_attempts : RetryScheduleMode → Number → Bool
bad_attempts mode attempts =
    not (is_integer attempts)
    || num_lt attempts (whole 0)
    || num_lt (whole 1_000) attempts
    || is_immediate mode && (num_lt attempts (whole 1) || num_lt (whole 20) attempts)

unfoldable pub chosen_attempts : FormState → Number
chosen_attempts form =
    if form.max_attempts_choice == "custom"
    then number_of form.custom_max_attempts
    else number_of form.max_attempts_choice

unfoldable pub bad_duration : Number → Bool
bad_duration length = num_lt length (whole (5 * second)) || num_lt (whole day) length

abbrev pub attempted : FormState → Number → RetryScheduleInfo Number → RetryPolicyInput
attempted form length schedule =
    let attempts = chosen_attempts form in
    record {
      duration_milliseconds = length;
      schedule = schedule;
      max_additional_attempts = if is_nonzero attempts then some attempts else none;
      honor_retry_after = form.honor_retry_after;
    }

-- The policy of a form whose duration and schedule are accepted.
unfoldable pub with_attempts :
    FormState → Number → RetryScheduleInfo Number → Outcome BuildError RetryPolicyInput
with_attempts form length schedule =
    let attempts = chosen_attempts form in
    if bad_attempts form.mode attempts
    then throw attempts_error
    else ok (attempted form length schedule)

unfoldable pub build_policy : FormState → Outcome BuildError RetryPolicyInput
build_policy form =
    let length = chosen form.duration_choice form.custom_duration_value form.custom_duration_unit in
    if bad_duration length
    then throw duration_error
    else (build_schedule form.mode form length >>= with_attempts form length)

-- An absent or zero number is no attempt limit and no interval.
abbrev given : Option Number → Bool
given none = false
given (some n) = is_nonzero n

divided : Number → Option Number → Number
divided length none = whole 0
divided length (some interval) = if is_nonzero interval then floor_div length interval else whole 0

scheduled_attempts : Number → RetryScheduleInfo Number → Number
unfolding divided
scheduled_attempts length schedule = elim schedule.mode [
  | fixed ↦ divided length schedule.interval_milliseconds
  | random ↦ divided length schedule.minimum_interval_milliseconds
  | exponential ↦ divided length schedule.base_interval_milliseconds
  | inherit ↦ whole 0
  | immediate ↦ whole 0
]

unfoldable pub estimate_attempts : RetryPolicyInput → Number
unfolding scheduled_attempts
estimate_attempts policy = elim policy.max_additional_attempts [
  | none ↦ scheduled_attempts policy.duration_milliseconds policy.schedule
  | some attempts ↦
      if is_nonzero attempts
      then attempts
      else scheduled_attempts policy.duration_milliseconds policy.schedule
]

-- A change of a field, and then the form is of no preset.
abbrev pub update : (FormState → FormState) → FormState → FormState
update changes form = record (changes form) { preset = custom }

-- The choice of a mode.
unfoldable pub choose_mode : RetryScheduleMode → FormState → FormState
choose_mode mode form =
    update
      (λ current. record current {
        mode = mode;
        max_attempts_choice =
            if is_immediate mode && current.max_attempts_choice == "0"
            then "3"
            else current.max_attempts_choice;
      })
      form

unfoldable pub apply_preset : Preset → FormState → FormState
apply_preset standard form = record form {
  preset = standard;
  duration_choice = "3600000";
  mode = random;
  random_choice = "60000:120000";
  max_attempts_choice = "0";
  honor_retry_after = true;
}
apply_preset fast form = record form {
  preset = fast;
  duration_choice = "900000";
  mode = fixed;
  fixed_choice = "15000";
  max_attempts_choice = "20";
  honor_retry_after = true;
}
apply_preset conservative form = record form {
  preset = conservative;
  duration_choice = "21600000";
  mode = exponential;
  exponential_choice = "60000:900000";
  max_attempts_choice = "0";
  honor_retry_after = true;
}
apply_preset custom form = form
