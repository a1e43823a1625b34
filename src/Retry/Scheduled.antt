-- ===== src/Retry/Scheduled.antt =====
-- The schedules that the retry policy form builds, for every form whose choices are offered ones.
use relay_lifeline.Prelude.{
  ℕ, ◌≡◌, refl, true, false, arith, ok, throw, ◌≤◌, ◌<◌, ◌∷◌, has, All, String_keys, if◌then◌else◌,
  Bool, read_digits, subst, Outcome, sym, ap, ◌∙◌,
}
use relay_lifeline.Numbers.{Number, whole, number_of, number_of_option}
use relay_lifeline.Numbers.Laws.{num_lt-whole, num_le-whole}
use relay_lifeline.Retry.{
  FormState, RetryScheduleInfo, RetryScheduleMode, inherit, immediate, fixed, random, exponential,
  fixed_choices, random_choices, exponential_choices,
}
use relay_lifeline.Retry.Building.{
  only, build_schedule, bad_interval, bad_range, fixed_schedule, random_schedule,
  exponential_schedule, split_choice, interval_error,
}
use relay_lifeline.Retry.Whole.{
  IsWhole, units, duration_choices, chosen-IsWhole, chosen_range-AreWhole, AreWhole, ends,
}

-- Every choice of the form is one of those that it offers; the texts of the custom fields are any.
pub record IsOffered (form : FormState) : Type 0 where
  pub duration : has form.duration_choice ("custom" ∷ duration_choices) ≡ true
  pub duration_unit : has form.custom_duration_unit units ≡ true
  pub fixed_interval : has form.fixed_choice ("custom" ∷ fixed_choices) ≡ true
  pub fixed_unit : has form.custom_fixed_unit units ≡ true
  pub random_range : has form.random_choice ("custom" ∷ random_choices) ≡ true
  pub random_unit : has form.custom_random_unit units ≡ true
  pub exponential_range : has form.exponential_choice ("custom" ∷ exponential_choices) ≡ true
  pub exponential_unit : has form.custom_exponential_unit units ≡ true

-- An interval that a policy of `length` milliseconds can wait.
abbrev pub Fits : ℕ → ℕ → Type 0
Fits length interval = (5_000 ≤ interval) × (interval < length)

-- The schedule has the intervals of its mode and no others, whole and fitting the duration.
abbrev pub IsSchedule : RetryScheduleMode → ℕ → RetryScheduleInfo Number → Type 0
IsSchedule inherit length schedule = schedule ≡ only inherit
IsSchedule immediate length schedule = schedule ≡ only immediate
IsSchedule fixed length schedule = (n : ℕ) × Fits length n × (schedule ≡ fixed_schedule (whole n))
IsSchedule random length schedule =
    (low : ℕ) × (high : ℕ) × Fits length low
    × Fits length high
    × (low ≤ high)
    × (schedule ≡ random_schedule (whole low, whole high))
IsSchedule exponential length schedule =
    (low : ℕ) × (high : ℕ) × Fits length low
    × Fits length high
    × (low ≤ high)
    × (schedule ≡ exponential_schedule (whole low, whole high))

pub if-eq-ok :
    (b : Bool) {E X : Type 0} (e : E) (run : Outcome E X) {y : X}
    → (if b then throw e else run) ≡ ok y
    → (b ≡ false) × (run ≡ ok y)
if-eq-ok true e run h = cc
if-eq-ok false e run h = (refl, h)

pub ok-injective : {E X : Type 0} {x y : X} → Path (Outcome E X) (ok x) (ok y) → x ≡ y
ok-injective h = cc

pub bad_interval-Fits :
    (length interval : ℕ)
    → bad_interval (whole length) (whole interval) ≡ false
    → Fits length interval
unfolding bad_interval
bad_interval-Fits length interval h =
    ground (arith, num_lt-whole interval 5_000, num_le-whole length interval)

pub bad_range-Fits :
    (length low high : ℕ)
    → bad_range (whole length) (whole low, whole high) ≡ false
    → Fits length low × Fits length high × (low ≤ high)
unfolding bad_range
bad_range-Fits length low high h =
    ground (arith, num_lt-whole low 5_000, num_lt-whole high low, num_le-whole length high)

unfoldable pub numerals : Unit {0}
unfolding number_of number_of_option read_digits split_choice
numerals = tt

pub fixed_choices-IsWhole : All (λ c. IsWhole (number_of c)) fixed_choices
unfolding numerals
fixed_choices-IsWhole =
    ((_, refl), ((_, refl), ((_, refl), ((_, refl), ((_, refl), ((_, refl), tt))))))

pub random_choices-AreWhole : All (λ c. AreWhole (ends c)) random_choices
unfolding numerals
random_choices-AreWhole = (
  ((_, refl), (_, refl)),
  (((_, refl), (_, refl)), (((_, refl), (_, refl)), (((_, refl), (_, refl)), tt))),
)

pub exponential_choices-AreWhole : All (λ c. AreWhole (ends c)) exponential_choices
unfolding numerals
exponential_choices-AreWhole =
    (((_, refl), (_, refl)), (((_, refl), (_, refl)), (((_, refl), (_, refl)), tt)))

pub range-IsSchedule :
    (schedule_of : Number × Number → RetryScheduleInfo Number) (n : ℕ)
    (schedule : RetryScheduleInfo Number) {range : Number × Number}
    → AreWhole range
    → (if bad_range (whole n) range then throw interval_error else ok (schedule_of range))
      ≡ ok schedule
    → (low : ℕ) × (high : ℕ) × Fits n low
      × Fits n high
      × (low ≤ high)
      × (schedule ≡ schedule_of (whole low, whole high))
range-IsSchedule schedule_of n schedule {range} ((low, e), (high, f)) h =
    let (fits, same) =
      if-eq-ok (bad_range (whole n) range) interval_error (ok (schedule_of range)) h in
    let both : range ≡ (whole low, whole high) = λ i. (e i, f i) in
    let (a, b, c) =
      bad_range-Fits n low high (subst (λ r. bad_range (whole n) r ≡ false) both fits) in
    (low, high, a, b, c, sym (ok-injective same) ∙ ap schedule_of both)

pub build_schedule-IsSchedule :
    (mode : RetryScheduleMode) (form : FormState) (n : ℕ) (schedule : RetryScheduleInfo Number)
    → IsOffered form
    → build_schedule mode form (whole n) ≡ ok schedule
    → IsSchedule mode n schedule
unfolding build_schedule
build_schedule-IsSchedule inherit form n schedule offered h = cc
build_schedule-IsSchedule immediate form n schedule offered h = cc
build_schedule-IsSchedule fixed form n schedule offered h =
    let (i, e) =
      chosen-IsWhole form.fixed_choice form.custom_fixed_value form.custom_fixed_unit fixed_choices
        fixed_choices-IsWhole offered.fixed_interval offered.fixed_unit in
    let (fits, same) = if-eq-ok _ _ _ h in
    (
      i,
      bad_interval-Fits n i (subst (λ x. bad_interval (whole n) x ≡ false) e fits),
      sym (ok-injective same) ∙ ap fixed_schedule e,
    )
build_schedule-IsSchedule random form n schedule offered h =
    range-IsSchedule random_schedule n schedule
      (chosen_range-AreWhole form.random_choice form.custom_random_min form.custom_random_max
        form.custom_random_unit random_choices random_choices-AreWhole offered.random_range
        offered.random_unit)
      h
build_schedule-IsSchedule exponential form n schedule offered h =
    range-IsSchedule exponential_schedule n schedule
      (chosen_range-AreWhole form.exponential_choice form.custom_exponential_base
        form.custom_exponential_max form.custom_exponential_unit exponential_choices
        exponential_choices-AreWhole offered.exponential_range offered.exponential_unit)
      h
