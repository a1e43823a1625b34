-- ===== src/Retry.antt =====
-- The retry policy form of web/src/components/RetryPolicyDialog.tsx: its state, the defaults it
-- takes from the policy of a request, the policy it builds, and the estimate of the attempts.
pub mod Building
pub mod Whole
pub mod Scheduled
pub mod Policy
pub mod Defaults
pub mod Fields
pub mod Reported
pub mod Roundtrip
pub mod Tests
use Prim.Native.Char.{code}
use relay_lifeline.Prelude.{
  ℕ, ◌*◌, Bool, true, false, not, ◌&&◌, ◌||◌, List, [], ◌∷◌, Option, none, some, String, Outcome,
  ok, throw, ◌>>=◌, nat_eq, if◌then◌else◌, ◌==◌, String_keys, ℕ_keys,
}
use relay_lifeline.Numbers.{
  Number, whole, num_lt, num_le, num_mul, round, is_finite, is_integer, is_nonzero, number_of,
  number_of_option, floor_div,
}

abbrev pub second : ℕ
second = 1_000

abbrev pub minute : ℕ
minute = 60 * second

abbrev pub hour : ℕ
hour = 60 * minute

abbrev pub day : ℕ
day = 24 * hour

pub data Preset : Type 0 where
  standard : Preset
  fast : Preset
  conservative : Preset
  custom : Preset

pub data RetryScheduleMode : Type 0 where
  inherit : RetryScheduleMode
  immediate : RetryScheduleMode
  fixed : RetryScheduleMode
  random : RetryScheduleMode
  exponential : RetryScheduleMode

-- A schedule, over the numbers that it holds: whole milliseconds where the server reports it, any
-- number where the form builds it.
pub record RetryScheduleInfo (N : Type 0) : Type 0 where
  pub mode : RetryScheduleMode
  pub interval_milliseconds : Option N
  pub minimum_interval_milliseconds : Option N
  pub maximum_interval_milliseconds : Option N
  pub base_interval_milliseconds : Option N

-- The fields of a reported policy that the form reads.
pub record RetryPolicyInfo : Type 0 where
  pub duration_milliseconds : ℕ
  pub schedule : RetryScheduleInfo ℕ
  pub max_additional_attempts : Option ℕ
  pub honor_retry_after : Bool

pub record RetryPolicyInput : Type 0 where
  pub duration_milliseconds : Number
  pub schedule : RetryScheduleInfo Number
  pub max_additional_attempts : Option Number
  pub honor_retry_after : Bool

pub record FormState : Type 0 where
  pub preset : Preset
  pub duration_choice : String
  pub custom_duration_value : String
  pub custom_duration_unit : String
  pub mode : RetryScheduleMode
  pub fixed_choice : String
  pub custom_fixed_value : String
  pub custom_fixed_unit : String
  pub random_choice : String
  pub custom_random_min : String
  pub custom_random_max : String
  pub custom_random_unit : String
  pub exponential_choice : String
  pub custom_exponential_base : String
  pub custom_exponential_max : String
  pub custom_exponential_unit : String
  pub max_attempts_choice : String
  pub custom_max_attempts : String
  pub honor_retry_after : Bool
  pub overwrite : Bool
  pub retry_waiting_now : Bool

-- The values of the choices; their labels are text of the page.
abbrev pub fixed_choices : List String
fixed_choices = "5000" ∷ "15000" ∷ "30000" ∷ "60000" ∷ "300000" ∷ "900000" ∷ []

abbrev pub random_choices : List String
random_choices = "5000:15000" ∷ "15000:60000" ∷ "60000:120000" ∷ "60000:300000" ∷ []

abbrev pub exponential_choices : List String
exponential_choices = "5000:60000" ∷ "15000:300000" ∷ "60000:900000" ∷ []

-- The durations that the form offers.
abbrev pub durations : List ℕ
durations = 300_000 ∷ 900_000 ∷ 1_800_000 ∷ hour ∷ 6 * hour ∷ day ∷ []
