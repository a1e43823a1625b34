-- ===== src/Requests/Dialog.antt =====
-- The targets of web/src/components/RetryPolicyDialog.tsx, and what its two buttons send.
use relay_lifeline.Prelude.{
  ℕ, Bool, true, false, ◌||◌, List, [], ◌∷◌, ◌++◌, map, none, some, String, Outcome, ok, throw,
  if◌then◌else◌, ◌==◌, String_keys, length, filter, has, nat_eq,
}
use relay_lifeline.Json.{Thrown}
use relay_lifeline.Numbers.{whole, num_lt, num_mul}
use relay_lifeline.Retry.{FormState, RetryPolicyInput}
use relay_lifeline.Retry.Building.{BuildError, build_policy, estimate_attempts, is_immediate}
use relay_lifeline.Requests.{RequestInfo}

pub data TargetAction : Type 0 where
  retry_action : TargetAction
  policy_action : TargetAction

unfoldable pub action_for : TargetAction → RequestInfo → Bool
action_for retry_action request = elim request.actions [
  | none ↦ request.state == "waiting" || request.state == "uncertain"
  | some actions ↦ actions.can_retry_now
]
action_for policy_action request = elim request.actions [
  | none ↦ has request.state ("queued" ∷ "requesting" ∷ "waiting" ∷ "uncertain" ∷ [])
  | some actions ↦ actions.can_set_retry_policy
]

unfoldable pub eligible_targets : List RequestInfo → List RequestInfo
unfolding action_for
eligible_targets targets = filter (action_for policy_action) targets

-- A call of the dialog, or its question. A policy is sent with `overwrite`, to a batch also with
-- `retryWaitingNow`.
pub data DialogCall : Type 0 where
  ask_apply : DialogCall
  set_policy : String → RetryPolicyInput → Bool → DialogCall
  batch_policy : List String → RetryPolicyInput → Bool → Bool → DialogCall
  clear_policy : String → DialogCall
  batch_clear : List String → DialogCall
  refresh_all : DialogCall

pub data DialogNotice : Type 0 where
  invalid : BuildError → DialogNotice
  no_eligible : DialogNotice
  done : ℕ → ℕ → DialogNotice
  call_failed : Thrown → DialogNotice

-- The answers to the call that is sent, with how many requests accepted it, to the refresh after it,
-- and to the question.
pub record DialogWorld : Type 0 where
  pub sent : DialogCall → Outcome Thrown ℕ
  pub refreshed : Outcome Thrown (Unit {0})
  pub confirmed : Bool

pub record DialogRun : Type 0 where
  pub calls : List DialogCall
  pub notices : List DialogNotice
  pub closed : Bool

abbrev pub told : DialogNotice → DialogRun
told notice = record { calls = []; notices = notice ∷ []; closed = false }

-- The call, the refresh, the notice and the end of the dialog; `accepted` is 1 for a single request.
unfoldable pub conclude : DialogWorld → List DialogCall → DialogCall → Bool → ℕ → DialogRun
conclude world before call single total = elim (world.sent call) [
  | throw reason ↦ record {
    calls = before ++ call ∷ [];
    notices = call_failed reason ∷ [];
    closed = false;
  }
  | ok accepted ↦ elim world.refreshed [
    | throw reason ↦ record {
      calls = before ++ call ∷ refresh_all ∷ [];
      notices = call_failed reason ∷ [];
      closed = false;
    }
    | ok _ ↦ record {
      calls = before ++ call ∷ refresh_all ∷ [];
      notices = done (if single then 1 else accepted) total ∷ [];
      closed = true;
    }
  ]
]

unfoldable pub apply_call : FormState → RetryPolicyInput → List RequestInfo → DialogCall × Bool
apply_call form policy (request ∷ []) = (set_policy request.id policy form.overwrite, true)
apply_call form policy eligible =
    (batch_policy (map (λ r. r.id) eligible) policy form.overwrite form.retry_waiting_now, false)

-- An immediate policy is asked about, and one of more than 100 estimated attempts.
unfoldable pub must_ask : RetryPolicyInput → ℕ → Bool
must_ask policy count =
    is_immediate policy.schedule.mode
    || num_lt (whole 100) (num_mul (estimate_attempts policy) (whole count))

unfoldable pub submit_policy :
    DialogWorld → FormState → RetryPolicyInput → List RequestInfo → DialogRun
unfolding conclude apply_call
submit_policy world form policy eligible =
    let (call, single) = apply_call form policy eligible in
    if must_ask policy (length eligible)
    then (if world.confirmed
        then conclude world (ask_apply ∷ []) call single (length eligible)
        else record { calls = ask_apply ∷ []; notices = []; closed = false })
    else conclude world [] call single (length eligible)

unfoldable pub submit_built :
    DialogWorld → FormState → Outcome BuildError RetryPolicyInput → List RequestInfo → DialogRun
unfolding submit_policy
submit_built world form (throw why) eligible = told (invalid why)
submit_built world form (ok policy) eligible =
    if nat_eq (length eligible) 0
    then told no_eligible
    else submit_policy world form policy eligible

unfoldable pub submit : DialogWorld → FormState → List RequestInfo → DialogRun
unfolding submit_built
submit world form targets = submit_built world form (build_policy form) (eligible_targets targets)

unfoldable pub clear_call : List RequestInfo → DialogCall × Bool
clear_call (request ∷ []) = (clear_policy request.id, true)
clear_call eligible = (batch_clear (map (λ r. r.id) eligible), false)

unfoldable pub reset_dialog : DialogWorld → List RequestInfo → DialogRun
unfolding conclude clear_call eligible_targets
reset_dialog world targets =
    let eligible = eligible_targets targets in
    let (call, single) = clear_call eligible in
    if nat_eq (length eligible) 0
    then record { calls = []; notices = []; closed = false }
    else conclude world [] call single (length eligible)
