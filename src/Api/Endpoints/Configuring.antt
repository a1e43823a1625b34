-- ===== src/Api/Endpoints/Configuring.antt =====
-- The methods of ApiClient that change the settings, the traffic policy, the captures and the session.
use relay_lifeline.Prelude.{ℕ, Bool, List, [], ◌∷◌, String, ◌<>◌, if◌then◌else◌}
use relay_lifeline.Json.{Value, obj, str, num, end, field}
use relay_lifeline.Numbers.{whole}
use relay_lifeline.Api.Endpoints.{
  Method, Encoder, unchecked, object_of, arrays_of, post, post_body, put_body, del,
}

-- The methods. An input that is only passed on is the value that is sent.
pub data Change : Type 0 where
  logout : Change
  test_notification : Change
  rewrap_capture_keys : Change
  start_capture : ℕ → String → Change
  stop_capture : Change
  delete_capture : String → Change
  delete_expired_captures : Change
  run_diagnostics : Change
  validate_config : Value → Change
  rollback_config : String → String → Bool → Change
  save_policy_draft : Value → String → Change
  publish_policy : Value → Change
  rollback_policy : String → String → Change
  simulate_policy : Value → Bool → Change
  replay_policy : Value → Change
  save_config : Value → Bool → Change
  reload_config : Change

-- A method that names what the user has confirmed.
abbrev pub confirming : String → Method → Method
confirming reason method = record method {
  init = record method.init { headers = ("X-Relay-Lifeline-Confirm", str reason) ∷ [] };
}

abbrev plan_lists : List String
plan_lists = "changedSections" ∷ "hotReloadSections" ∷ "restartSections" ∷ []

module _ (encoder : Encoder) where
  unfoldable pub change_call : Change → Method
  change_call logout = post "/session/logout" unchecked
  change_call test_notification = post "/notifications/test" (object_of "notificationTest")
  change_call rewrap_capture_keys = post "/capture/keys/rewrap" (object_of "captureKeyRewrap")
  change_call (start_capture request_limit activation_timeout) =
      post_body "/capture/start"
        (obj (
          field "requestLimit" (num (whole request_limit))
            (field "activationTimeout" (str activation_timeout) end)))
        (object_of "captureStart")
  change_call stop_capture = post "/capture/stop" (object_of "captureStop")
  change_call (delete_capture id) = del ("/captures/" <> encoder.component id) unchecked
  change_call delete_expired_captures = del "/captures/expired" unchecked
  change_call run_diagnostics = post "/diagnostics/run" unchecked
  change_call (validate_config config) =
      post_body "/config/validate" config (arrays_of "configPlan" plan_lists)
  change_call (rollback_config name sha authentication) =
      confirming (if authentication then "rollback-config-auth" else "rollback-config") (
        post_body ("/config/backups/" <> encoder.component name <> "/rollback")
          (obj (field "sha256" (str sha) end)) (object_of "configRollback"))
  change_call (save_policy_draft policy revision) =
      put_body "/policies/draft"
        (obj (field "policy" policy (field "draftRevision" (str revision) end)))
        (object_of "policyDraft")
  change_call (publish_policy input) =
      post_body "/policies/publish" input (object_of "policyPublish")
  change_call (rollback_policy config_revision policy_revision) =
      post_body "/policies/rollback"
        (obj (
          field "configRevision" (str config_revision)
            (field "policyRevision" (str policy_revision) end)))
        (object_of "policyRollback")
  change_call (simulate_policy input of_draft) =
      post_body ("/policies/simulate" <> (if of_draft then "?source=draft" else "")) input
        (object_of "policyDecision")
  change_call (replay_policy input) = post_body "/policies/replay" input (object_of "policyReplay")
  change_call (save_config config confirm_authentication) =
      if confirm_authentication
      then confirming "change-management-auth"
          (put_body "/config" config (arrays_of "configSave" plan_lists))
      else put_body "/config" config (arrays_of "configSave" plan_lists)
  change_call reload_config = post "/config/reload" unchecked
