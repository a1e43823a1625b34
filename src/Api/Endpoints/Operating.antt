-- ===== src/Api/Endpoints/Operating.antt =====
-- The methods of ApiClient that act on the relay, on its requests and on its repeat tasks.
use relay_lifeline.Prelude.{
  Bool, true, List, [], ◌∷◌, Option, none, some, String, ◌<>◌, if◌then◌else◌, Outcome, ok, ◌>>=◌,
}
use relay_lifeline.Json.{
  Value, obj, arr, str, num, bool, Items, nil, cons, Fields, end, field, Thrown,
}
use relay_lifeline.Numbers.{Number}
use relay_lifeline.Retry.{
  RetryPolicyInput, RetryScheduleInfo, RetryScheduleMode, inherit, immediate, fixed, random,
  exponential,
}
use relay_lifeline.Uncertain.{ResolutionAction, confirm_success, abandon, request_compensation}
use relay_lifeline.Api.{expect_uncertain_preview}
use relay_lifeline.Api.Endpoints.{
  Method, Encoder, unchecked, object_of, arrays_of, post, post_body, del,
}

-- What `batchRetryPolicy` is given.
pub record BatchPolicyInput : Type 0 where
  pub policy : Option RetryPolicyInput
  pub reset : Option Bool
  pub overwrite : Option Bool
  pub retry_waiting_now : Option Bool

-- An action on a repeat task.
pub data TaskAction : Type 0 where
  pause_task : TaskAction
  resume_task : TaskAction
  run_task : TaskAction

-- The methods. An input that is only passed on is the value that is sent.
pub data Operation : Type 0 where
  pause : Operation
  resume : Operation
  drain : Operation
  maintenance : Operation
  preview_uncertain : String → ResolutionAction → Operation
  resolve_uncertain : String → ResolutionAction → String → String → Operation
  retry : String → Bool → Operation
  batch_retry : List String → Bool → Operation
  set_retry_policy : String → RetryPolicyInput → Bool → Operation
  clear_retry_policy : String → Operation
  batch_retry_policy : List String → BatchPolicyInput → Operation
  create_repeat_task : String → Value → Operation
  repeat_task_action : String → TaskAction → Operation
  stop_repeat_task : String → Operation
  cancel : String → Operation

unfoldable pub check_uncertain : Option Value → Outcome Thrown (Option Value)
check_uncertain value =
    expect_uncertain_preview value "uncertainPreview" >>= λ preview. ok (some (obj preview))

abbrev task_action : TaskAction → String
task_action pause_task = "pause"
task_action resume_task = "resume"
task_action run_task = "run"

abbrev action_name : ResolutionAction → String
action_name confirm_success = "confirm_success"
action_name abandon = "abandon"
action_name request_compensation = "request_compensation"

abbrev mode_name : RetryScheduleMode → String
mode_name inherit = "inherit"
mode_name immediate = "immediate"
mode_name fixed = "fixed"
mode_name random = "random"
mode_name exponential = "exponential"

-- A property that JSON.stringify leaves out where it is undefined.
abbrev given : String → Option Value → Fields → Fields
given key none rest = rest
given key (some value) rest = field key value rest

abbrev number : Option Number → Option Value
number none = none
number (some n) = some (num n)

abbrev flag : Option Bool → Option Value
flag none = none
flag (some b) = some (bool b)

abbrev texts : List String → Items
texts [] = nil
texts (text ∷ rest) = cons (str text) (texts rest)

schedule_value : RetryScheduleInfo Number → Value
schedule_value s = obj (
    field "mode" (str (mode_name s.mode)) (
      given "intervalMilliseconds" (number s.interval_milliseconds) (
        given "minimumIntervalMilliseconds" (number s.minimum_interval_milliseconds) (
          given "maximumIntervalMilliseconds" (number s.maximum_interval_milliseconds)
            (given "baseIntervalMilliseconds" (number s.base_interval_milliseconds) end)))))

-- The properties of a policy, before those that follow.
policy_fields : RetryPolicyInput → Fields → Fields
unfolding schedule_value
policy_fields p rest = field "durationMilliseconds" (num p.duration_milliseconds) (
    field "schedule" (schedule_value p.schedule) (
      given "maxAdditionalAttempts" (number p.max_additional_attempts)
        (field "honorRetryAfter" (bool p.honor_retry_after) rest)))

abbrev policy_value : Option RetryPolicyInput → Option Value
policy_value none = none
policy_value (some p) = some (obj (policy_fields p end))

module _ (encoder : Encoder) where
  abbrev request_path : String → String → String
  request_path id rest = "/requests/" <> encoder.component id <> rest

  unfoldable pub operate_call : Operation → Method
  unfolding policy_fields check_uncertain
  operate_call pause = post "/control/pause" unchecked
  operate_call resume = post "/control/resume" unchecked
  operate_call drain = post "/control/drain" unchecked
  operate_call maintenance = post "/control/maintenance" unchecked
  operate_call (preview_uncertain id action) =
      post_body (request_path id "/uncertain/preview")
        (obj (field "action" (str (action_name action)) end)) check_uncertain
  operate_call (resolve_uncertain id action token reason) =
      post_body (request_path id "/uncertain/resolve")
        (obj (
          field "action" (str (action_name action))
            (field "confirmationToken" (str token) (field "reason" (str reason) end))))
        (object_of "uncertainResolution")
  operate_call (retry id allow_uncertain) =
      if allow_uncertain
      then post_body (request_path id "/retry") (obj (field "allowUncertain" (bool true) end))
          unchecked
      else post (request_path id "/retry") unchecked
  operate_call (batch_retry ids allow_uncertain) =
      post_body "/requests/batch/retry"
        (obj (
          field "requestIds" (arr (texts ids)) (field "allowUncertain" (bool allow_uncertain) end)))
        (arrays_of "batchRetry" ("results" ∷ []))
  operate_call (set_retry_policy id policy overwrite) =
      post_body (request_path id "/retry-policy")
        (obj (policy_fields policy (field "overwrite" (bool overwrite) end))) unchecked
  operate_call (clear_retry_policy id) = del (request_path id "/retry-policy") unchecked
  operate_call (batch_retry_policy ids input) =
      post_body "/requests/batch/retry-policy"
        (obj (
          field "requestIds" (arr (texts ids)) (
            given "policy" (policy_value input.policy) (
              given "reset" (flag input.reset) (
                given "overwrite" (flag input.overwrite)
                  (given "retryWaitingNow" (flag input.retry_waiting_now) end))))))
        (arrays_of "batchRetryPolicy" ("results" ∷ []))
  operate_call (create_repeat_task id input) =
      post_body (request_path id "/repeat") input (object_of "repeatTask")
  operate_call (repeat_task_action id action) =
      post ("/repeat-tasks/" <> encoder.component id <> "/" <> task_action action)
        (object_of "repeatTask")
  operate_call (stop_repeat_task id) =
      del ("/repeat-tasks/" <> encoder.component id) (object_of "repeatTask")
  operate_call (cancel id) = del (request_path id "") unchecked
