-- ===== src/Api/Endpoints/Guarded.antt =====
-- Which methods of ApiClient carry the CSRF token, and the language.
use relay_lifeline.Prelude.{
  ◌≡◌, refl, Bool, true, false, [], ◌∷◌, String, none, some, if◌then◌else◌, String_keys, subst,
}
use relay_lifeline.Json.{str}
use relay_lifeline.Api.{Client, Platform, login_init, build_request, writes}
use relay_lifeline.Api.Headers.{get_header, build_request-headers}
use relay_lifeline.Api.Endpoints.{Method, Encoder, get, arrays_of}
use relay_lifeline.Api.Endpoints.Reading.{
  Read, read_call, runtime_info, status, health_summary, slo, config, login_options, alerts,
  notification_status, notification_deliveries, incidents, incident, history, metrics,
  metric_errors, events, runtime_logs, capture_status, capture_key_status, captures,
  capture_preview, timeline, config_state, config_versions, upstream_status, governance_status,
  telemetry_status, policy_status, policy_releases, repeat_tasks,
}
use relay_lifeline.Api.Endpoints.Operating.{
  Operation, operate_call, pause, resume, drain, maintenance, preview_uncertain, resolve_uncertain,
  retry, batch_retry, set_retry_policy, clear_retry_policy, batch_retry_policy, create_repeat_task,
  repeat_task_action, stop_repeat_task, cancel,
}
use relay_lifeline.Api.Endpoints.Configuring.{
  Change, change_call, logout, test_notification, rewrap_capture_keys, start_capture, stop_capture,
  delete_capture, delete_expired_captures, run_diagnostics, validate_config, rollback_config,
  save_policy_draft, publish_policy, rollback_policy, simulate_policy, replay_policy, save_config,
  reload_config,
}

-- The methods of the client that use `request`.
pub data ClientMethod : Type 0 where
  session : ClientMethod
  login : String → ClientMethod
  reading : Read → ClientMethod
  operating : Operation → ClientMethod
  changing : Change → ClientMethod

-- The login and the methods of Operating and Configuring; not the read of the session, nor the methods
-- of Reading.
abbrev pub carries_token : ClientMethod → Bool
carries_token session = false
carries_token (reading _) = false
carries_token _ = true

-- A method that sets neither the token nor the language itself, and is sent as a change or as a read.
abbrev IsPlain : Bool → Method → Type 0
IsPlain change method =
    (get_header "X-CSRF-Token" method.init.headers ≡ none)
    × (get_header "Accept-Language" method.init.headers ≡ none)
    × (writes method.init.method ≡ change)

module _ (platform : Platform) (encoder : Encoder) where
  abbrev pub call : ClientMethod → Method
  call session = get "/session" (arrays_of "session" ("capabilities" ∷ []))
  call (login key) = record {
    path = "/session/login";
    init = login_init key;
    check = arrays_of "session" ("capabilities" ∷ []);
  }
  call (reading r) = read_call platform encoder r
  call (operating o) = operate_call encoder o
  call (changing c) = change_call encoder c

  read_call-IsPlain : (r : Read) → IsPlain false (read_call platform encoder r)
  unfolding read_call get_header
  read_call-IsPlain runtime_info = (refl, refl, refl)
  read_call-IsPlain status = (refl, refl, refl)
  read_call-IsPlain health_summary = (refl, refl, refl)
  read_call-IsPlain slo = (refl, refl, refl)
  read_call-IsPlain config = (refl, refl, refl)
  read_call-IsPlain login_options = (refl, refl, refl)
  read_call-IsPlain alerts = (refl, refl, refl)
  read_call-IsPlain notification_status = (refl, refl, refl)
  read_call-IsPlain (notification_deliveries _) = (refl, refl, refl)
  read_call-IsPlain (incidents _) = (refl, refl, refl)
  read_call-IsPlain (incident _) = (refl, refl, refl)
  read_call-IsPlain (history _) = (refl, refl, refl)
  read_call-IsPlain (metrics _) = (refl, refl, refl)
  read_call-IsPlain (metric_errors _) = (refl, refl, refl)
  read_call-IsPlain (events _ _) = (refl, refl, refl)
  read_call-IsPlain (runtime_logs _) = (refl, refl, refl)
  read_call-IsPlain capture_status = (refl, refl, refl)
  read_call-IsPlain capture_key_status = (refl, refl, refl)
  read_call-IsPlain captures = (refl, refl, refl)
  read_call-IsPlain (capture_preview _) = (refl, refl, refl)
  read_call-IsPlain (timeline _) = (refl, refl, refl)
  read_call-IsPlain config_state = (refl, refl, refl)
  read_call-IsPlain config_versions = (refl, refl, refl)
  read_call-IsPlain upstream_status = (refl, refl, refl)
  read_call-IsPlain governance_status = (refl, refl, refl)
  read_call-IsPlain telemetry_status = (refl, refl, refl)
  read_call-IsPlain (policy_status _) = (refl, refl, refl)
  read_call-IsPlain policy_releases = (refl, refl, refl)
  read_call-IsPlain repeat_tasks = (refl, refl, refl)

  operate_call-IsPlain : (o : Operation) → IsPlain true (operate_call encoder o)
  unfolding operate_call get_header
  operate_call-IsPlain pause = (refl, refl, refl)
  operate_call-IsPlain resume = (refl, refl, refl)
  operate_call-IsPlain drain = (refl, refl, refl)
  operate_call-IsPlain maintenance = (refl, refl, refl)
  operate_call-IsPlain (preview_uncertain _ _) = (refl, refl, refl)
  operate_call-IsPlain (resolve_uncertain _ _ _ _) = (refl, refl, refl)
  operate_call-IsPlain (retry _ true) = (refl, refl, refl)
  operate_call-IsPlain (retry _ false) = (refl, refl, refl)
  operate_call-IsPlain (batch_retry _ _) = (refl, refl, refl)
  operate_call-IsPlain (set_retry_policy _ _ _) = (refl, refl, refl)
  operate_call-IsPlain (clear_retry_policy _) = (refl, refl, refl)
  operate_call-IsPlain (batch_retry_policy _ _) = (refl, refl, refl)
  operate_call-IsPlain (create_repeat_task _ _) = (refl, refl, refl)
  operate_call-IsPlain (repeat_task_action _ _) = (refl, refl, refl)
  operate_call-IsPlain (stop_repeat_task _) = (refl, refl, refl)
  operate_call-IsPlain (cancel _) = (refl, refl, refl)

  change_call-IsPlain : (c : Change) → IsPlain true (change_call encoder c)
  unfolding change_call get_header
  change_call-IsPlain logout = (refl, refl, refl)
  change_call-IsPlain test_notification = (refl, refl, refl)
  change_call-IsPlain rewrap_capture_keys = (refl, refl, refl)
  change_call-IsPlain (start_capture _ _) = (refl, refl, refl)
  change_call-IsPlain stop_capture = (refl, refl, refl)
  change_call-IsPlain (delete_capture _) = (refl, refl, refl)
  change_call-IsPlain delete_expired_captures = (refl, refl, refl)
  change_call-IsPlain run_diagnostics = (refl, refl, refl)
  change_call-IsPlain (validate_config _) = (refl, refl, refl)
  change_call-IsPlain (rollback_config _ _ _) = (refl, refl, refl)
  change_call-IsPlain (save_policy_draft _ _) = (refl, refl, refl)
  change_call-IsPlain (publish_policy _) = (refl, refl, refl)
  change_call-IsPlain (rollback_policy _ _) = (refl, refl, refl)
  change_call-IsPlain (simulate_policy _ _) = (refl, refl, refl)
  change_call-IsPlain (replay_policy _) = (refl, refl, refl)
  change_call-IsPlain (save_config _ true) = (refl, refl, refl)
  change_call-IsPlain (save_config _ false) = (refl, refl, refl)
  change_call-IsPlain reload_config = (refl, refl, refl)

  call-IsPlain : (m : ClientMethod) → IsPlain (carries_token m) (call m)
  unfolding get_header
  call-IsPlain session = (refl, refl, refl)
  call-IsPlain (login key) = (refl, refl, refl)
  call-IsPlain (reading r) = read_call-IsPlain r
  call-IsPlain (operating o) = operate_call-IsPlain o
  call-IsPlain (changing c) = change_call-IsPlain c

  -- The login, every method of Operating and every one of Configuring, those that only validate,
  -- simulate, replay or diagnose included, is sent with the CSRF token; the read of the session and every
  -- method of Reading is sent without; and all of them are sent in the client's language.
  pub call-csrf :
      (client : Client) (m : ClientMethod)
      → let sent = (build_request client (call m).path (call m).init).headers in
        (get_header "X-CSRF-Token" sent
          ≡ (if carries_token m then some client.csrf_token else none))
        × (get_header "Accept-Language" sent ≡ some (str client.locale))
  call-csrf client m =
      let (csrf, locale, writing) = call-IsPlain m in
      subst
        (λ b.
          (get_header "X-CSRF-Token" (build_request client (call m).path (call m).init).headers
            ≡ (if b then some client.csrf_token else none))
          × (get_header "Accept-Language" (build_request client (call m).path (call m).init).headers
              ≡ some (str client.locale)))
        writing (build_request-headers client (call m).path (call m).init csrf locale)
