-- ===== src/Repeating.antt =====
-- The dialog that makes a request repeat: web/src/components/RepeatTaskDialog.tsx.
pub mod Agreed
pub mod Panel
mod Tests
use relay_lifeline.Prelude.{
  ℕ, Bool, true, false, ◌||◌, List, [], ◌∷◌, Option, none, some, String, Outcome, ok, throw,
  if◌then◌else◌,
}
use relay_lifeline.Json.{Thrown}
use relay_lifeline.Numbers.{Number, whole}

pub data Idempotency : Type 0 where
  preserve : Idempotency
  regenerate : Idempotency

pub record RepeatForm : Type 0 where
  pub interval : String
  pub duration : String
  pub idempotency : Idempotency
  pub forever : Bool
  pub max_executions : Number
  pub max_failures : Number
  pub failure_threshold : Number
  pub max_tokens : Number

abbrev pub initial_form : RepeatForm
initial_form = record {
  interval = "60s";
  duration = "1h";
  idempotency = preserve;
  forever = false;
  max_executions = whole 100;
  max_failures = whole 20;
  failure_threshold = whole 5;
  max_tokens = whole 100000;
}

-- The body of the call that creates the task.
pub record RepeatOptions : Type 0 where
  pub interval : String
  pub duration : String
  pub idempotency : Idempotency
  pub confirm_forever : Bool
  pub max_executions : Number
  pub max_failures : Number
  pub failure_threshold : Number
  pub max_tokens : Number

unfoldable pub repeat_options : RepeatForm → RepeatOptions
repeat_options form = record {
  interval = form.interval;
  duration = if form.forever then "" else form.duration;
  idempotency = form.idempotency;
  confirm_forever = form.forever;
  max_executions = form.max_executions;
  max_failures = form.max_failures;
  failure_threshold = form.failure_threshold;
  max_tokens = form.max_tokens;
}

-- The question, with whether it is shown as dangerous, the creation, and the refresh.
pub data RepeatCall : Type 0 where
  ask_repeat : Bool → RepeatCall
  create_repeat_task : String → RepeatOptions → RepeatCall
  refresh_tasks : RepeatCall

-- The answers to the question, to the creation and to the refresh.
pub record RepeatWorld : Type 0 where
  pub agreed : Bool
  pub created : String → RepeatOptions → Outcome Thrown (Unit {0})
  pub refreshed : Outcome Thrown (Unit {0})

pub record RepeatRun : Type 0 where
  pub calls : List RepeatCall
  pub failure : Option Thrown
  pub closed : Bool

abbrev pub is_regenerate : Idempotency → Bool
is_regenerate preserve = false
is_regenerate regenerate = true

unfoldable pub is_dangerous : RepeatForm → Bool
is_dangerous form = form.forever || is_regenerate form.idempotency

unfoldable pub create_task : RepeatWorld → RepeatCall → String → RepeatOptions → RepeatRun
create_task world asked id options = elim (world.created id options) [
  | throw reason ↦ record {
    calls = asked ∷ create_repeat_task id options ∷ [];
    failure = some reason;
    closed = false;
  }
  | ok _ ↦ elim world.refreshed [
    | throw reason ↦ record {
      calls = asked ∷ create_repeat_task id options ∷ refresh_tasks ∷ [];
      failure = some reason;
      closed = false;
    }
    | ok _ ↦ record {
      calls = asked ∷ create_repeat_task id options ∷ refresh_tasks ∷ [];
      failure = none;
      closed = true;
    }
  ]
]

unfoldable pub submit_repeat : RepeatWorld → String → RepeatForm → RepeatRun
unfolding repeat_options is_dangerous create_task
submit_repeat world id form =
    if world.agreed
    then create_task world (ask_repeat (is_dangerous form)) id (repeat_options form)
    else record { calls = ask_repeat (is_dangerous form) ∷ []; failure = none; closed = false }
