-- ===== src/Retry/Reported.antt =====
-- The policies of the server that the retry policy form can hold, and what the form's checks say of
-- their numbers.
use relay_lifeline.Prelude.{
  ℕ, ◌<◌, ◌≤◌, ◌≡◌, refl, false, arith, String, Bool-cases, inl, inr, Option, some, none, [], ◌∷◌,
  has, String_keys, ℕ_keys, if◌then◌else◌, ◌==◌, ltb, show, ap, ◌∙◌, read_digits,
}
use relay_lifeline.Numbers.{Number, whole, number_of, is_nonzero}
use relay_lifeline.Numbers.Laws.{number_of-show, num_le-whole, num_lt-whole}
use relay_lifeline.Retry.{
  RetryScheduleInfo, RetryPolicyInfo, RetryPolicyInput, RetryScheduleMode, fixed, random,
  exponential, day,
}
use relay_lifeline.Retry.Building.{
  bad_attempts, is_immediate, bad_interval, bad_range, bad_duration,
}
use relay_lifeline.Retry.Scheduled.{Fits}
use relay_lifeline.Retry.Defaults.{or_else, attempts_choice_for}
use relay_lifeline.Retry.Fields.{IsSeconds, show-custom}

-- A reported interval: whole seconds that fit the duration.
abbrev pub Reports : ℕ → Option ℕ → ℕ → Type 0
Reports length field n = (field ≡ some n) × IsSeconds n × Fits length n

-- The intervals of the schedule's mode are reported; the other fields are absent.
abbrev pub IsReportedSchedule : RetryScheduleMode → ℕ → RetryScheduleInfo ℕ → Type 0
IsReportedSchedule fixed length s =
    (n : ℕ) × Reports length s.interval_milliseconds n
    × (s.minimum_interval_milliseconds ≡ none)
    × (s.maximum_interval_milliseconds ≡ none)
    × (s.base_interval_milliseconds ≡ none)
IsReportedSchedule random length s =
    (low : ℕ) × (high : ℕ) × Reports length s.minimum_interval_milliseconds low
    × Reports length s.maximum_interval_milliseconds high
    × (low ≤ high)
    × (s.interval_milliseconds ≡ none)
    × (s.base_interval_milliseconds ≡ none)
IsReportedSchedule exponential length s =
    (low : ℕ) × (high : ℕ) × Reports length s.base_interval_milliseconds low
    × Reports length s.maximum_interval_milliseconds high
    × (low ≤ high)
    × (s.interval_milliseconds ≡ none)
    × (s.minimum_interval_milliseconds ≡ none)
IsReportedSchedule _ length s =
    (s.interval_milliseconds ≡ none)
    × (s.minimum_interval_milliseconds ≡ none)
    × (s.maximum_interval_milliseconds ≡ none)
    × (s.base_interval_milliseconds ≡ none)

abbrev pub IsReportedLimit : RetryScheduleMode → Option ℕ → Type 0
IsReportedLimit mode none = is_immediate mode ≡ false
IsReportedLimit mode (some n) = (0 < n) × (n ≤ (if is_immediate mode then 20 else 1_000))

-- A policy of whole seconds within the bounds of the form.
pub record IsReported (policy : RetryPolicyInfo) : Type 0 where
  pub seconds : IsSeconds policy.duration_milliseconds
  pub least : 5_000 ≤ policy.duration_milliseconds
  pub most : policy.duration_milliseconds ≤ day
  pub schedule :
      IsReportedSchedule policy.schedule.mode policy.duration_milliseconds policy.schedule
  pub limit : IsReportedLimit policy.schedule.mode policy.max_additional_attempts

abbrev pub as_number : Option ℕ → Option Number
as_number none = none
as_number (some n) = some (whole n)

-- The policy as the form sends it.
abbrev pub as_input : RetryPolicyInfo → RetryPolicyInput
as_input policy = record {
  duration_milliseconds = whole policy.duration_milliseconds;
  schedule = record {
    mode = policy.schedule.mode;
    interval_milliseconds = as_number policy.schedule.interval_milliseconds;
    minimum_interval_milliseconds = as_number policy.schedule.minimum_interval_milliseconds;
    maximum_interval_milliseconds = as_number policy.schedule.maximum_interval_milliseconds;
    base_interval_milliseconds = as_number policy.schedule.base_interval_milliseconds;
  };
  max_additional_attempts = as_number policy.max_additional_attempts;
  honor_retry_after = policy.honor_retry_after;
}

pub good_duration : (n : ℕ) → 5_000 ≤ n → n ≤ day → bad_duration (whole n) ≡ false
unfolding bad_duration
good_duration n h k = ground (arith, num_lt-whole n 5_000, num_lt-whole day n)

pub good_interval :
    (length n : ℕ) → length ≤ day → Fits length n → bad_interval (whole length) (whole n) ≡ false
unfolding bad_interval
good_interval length n most h =
    ground (arith, num_lt-whole n 5_000, num_le-whole length n, num_lt-whole day n)

pub good_range :
    (length low high : ℕ)
    → length ≤ day
    → Fits length low
    → Fits length high
    → low ≤ high
    → bad_range (whole length) (whole low, whole high) ≡ false
unfolding bad_range
good_range length low high most h k order = ground (
  arith,
  num_lt-whole low 5_000,
  num_lt-whole high low,
  num_le-whole length high,
  num_lt-whole day high,
)

pub or_else-pos : (n fallback : ℕ) → 0 < n → or_else (some n) fallback ≡ n
or_else-pos n fallback h = ground arith

pub reported-or_else :
    (field : Option ℕ) (n fallback : ℕ) → field ≡ some n → IsSeconds n → or_else field fallback ≡ n
reported-or_else field n fallback e h = ap (λ f. or_else f fallback) e ∙ or_else-pos n fallback h.0

pub good_attempts :
    (mode : RetryScheduleMode) (limit : Option ℕ)
    → IsReportedLimit mode limit
    → bad_attempts mode (whole (or_else limit 0)) ≡ false
unfolding bad_attempts
good_attempts mode none h = rw h (ground (arith, num_lt-whole 0 0, num_lt-whole 1_000 0))
good_attempts mode (some n) h = rw (or_else-pos n 0 h.0) (elim (Bool-cases (is_immediate mode)) [
  | inl at_once ↦
      ground (
        arith,
        h.0,
        h.1,
        num_lt-whole n 0,
        num_lt-whole 1_000 n,
        num_lt-whole n 1,
        num_lt-whole 20 n,
      )
  | inr later ↦ ground (arith, h.0, h.1, num_lt-whole n 0, num_lt-whole 1_000 n)
])

-- The limit that the form sends.
pub limit_of :
    (mode : RetryScheduleMode) (limit : Option ℕ)
    → IsReportedLimit mode limit
    → (if is_nonzero (whole (or_else limit 0)) then some (whole (or_else limit 0)) else none)
      ≡ as_number limit
limit_of mode none h = refl
limit_of mode (some n) h = ground (arith, h.0)

pub choice-attempts :
    (n : ℕ) (custom_value : String)
    → custom_value ≡ show (or_else (some n) 3)
    → (if attempts_choice_for n == "custom"
        then number_of custom_value
        else number_of (attempts_choice_for n))
      ≡ whole n
unfolding attempts_choice_for number_of read_digits
choice-attempts n custom_value h = elim (Bool-cases (has n (3 ∷ 5 ∷ 10 ∷ 20 ∷ []))) [
  | inl listed ↦ rw listed (rw (show-custom n) (number_of-show n))
  | inr other ↦ rw other (elim (Bool-cases (ltb 0 n)) [
    | inl positive ↦
        rw positive (
          ap number_of (h ∙ ap show (or_else-pos n 3 (ground (arith, positive))))
          ∙ number_of-show n)
    | inr zero ↦ rw zero (ap whole (ground (arith, zero)))
  ])
]
