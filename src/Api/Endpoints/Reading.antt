-- ===== src/Api/Endpoints/Reading.antt =====
-- The methods of ApiClient that read.
use relay_lifeline.Prelude.{
  ℕ, suc, List, [], ◌∷◌, Option, some, String, Outcome, ok, ◌>>=◌, ◌>>◌, ◌<>◌, show,
}
use relay_lifeline.Json.{Value, obj, arr, Items, nil, cons, lookup, Thrown}
use relay_lifeline.Api.{expect_object, expect_array, expect_capture_record, check_config, Platform}
use relay_lifeline.Api.Endpoints.{
  Method, Encoder, present, unchecked, object_of, list_of, arrays_of, get,
}

-- The filters of `history`, `incidents` and `runtimeLogs`, each key with its text if it is given.
abbrev pub Filters : Type 0
Filters = List (String × Option String)

pub data Read : Type 0 where
  runtime_info : Read
  status : Read
  health_summary : Read
  slo : Read
  config : Read
  login_options : Read
  alerts : Read
  notification_status : Read
  notification_deliveries : ℕ → Read
  incidents : Filters → Read
  incident : String → Read
  history : Filters → Read
  metrics : String → Read
  metric_errors : String → Read
  events : ℕ → ℕ → Read
  runtime_logs : Filters → Read
  capture_status : Read
  capture_key_status : Read
  captures : Read
  capture_preview : String → Read
  timeline : String → Read
  config_state : Read
  config_versions : Read
  upstream_status : Read
  governance_status : Read
  telemetry_status : Read
  policy_status : ℕ → Read
  policy_releases : Read
  repeat_tasks : Read

-- `.map((record, index) => expectCaptureRecord(record, …))`.
unfoldable pub check_records : ℕ → Items → Outcome Thrown (Unit {0})
check_records index nil = ok tt
check_records index (cons value rest) =
    expect_capture_record (some value) ("captures[" <> show index <> "]") >>= λ _.
    check_records (suc index) rest

unfoldable pub check_captures : Option Value → Outcome Thrown (Option Value)
unfolding check_records
check_captures value =
    expect_array value "captures" >>= λ items. check_records 0 items >> ok (some (arr items))

unfoldable pub check_preview : Option Value → Outcome Thrown (Option Value)
check_preview value = expect_object value "capturePreview" >>= λ preview.
    expect_capture_record (lookup "record" preview) "capturePreview.record" >>= λ _.
    expect_array (lookup "parts" preview) "capturePreview.parts" >>= λ _. ok (some (obj preview))

module _ (platform : Platform) (encoder : Encoder) where
  unfoldable pub read_call : Read → Method
  unfolding check_captures check_preview present
  read_call runtime_info = get "/meta" (object_of "meta")
  read_call status = get "/status" (arrays_of "status" ("requests" ∷ []))
  read_call health_summary = get "/health/summary" (arrays_of "healthSummary" ("components" ∷ []))
  read_call slo = get "/slo" (object_of "slo")
  read_call config =
      get "/config" (λ value. check_config platform value >>= λ fields. ok (some (obj fields)))
  read_call login_options = get "/session/login-options" (object_of "loginOptions")
  read_call alerts = get "/alerts" (list_of "alerts")
  read_call notification_status = get "/notifications/status" (object_of "notificationStatus")
  read_call (notification_deliveries limit) =
      get ("/notifications/deliveries?limit=" <> show limit) (list_of "notificationDeliveries")
  read_call (incidents filters) =
      get ("/incidents?" <> encoder.query (present filters)) (arrays_of "incidents" ("items" ∷ []))
  read_call (incident id) =
      get ("/incidents/" <> encoder.component id)
        (arrays_of "incidentDetail" ("requests" ∷ "timeline" ∷ []))
  read_call (history filters) =
      get ("/history?" <> encoder.query (present filters)) (arrays_of "history" ("items" ∷ []))
  read_call (metrics window) =
      get ("/metrics?window=" <> window) (arrays_of "metrics" ("series" ∷ []))
  read_call (metric_errors window) =
      get ("/metrics/errors?window=" <> window) (arrays_of "metricErrors" ("categories" ∷ []))
  read_call (events after limit) =
      get ("/events?after=" <> show after <> "&limit=" <> show limit)
        (arrays_of "events" ("events" ∷ []))
  read_call (runtime_logs filters) =
      get ("/runtime-logs?" <> encoder.query (present filters))
        (arrays_of "runtimeLogs" ("entries" ∷ []))
  read_call capture_status = get "/capture/status" (object_of "captureStatus")
  read_call capture_key_status = get "/capture/keys" (arrays_of "captureKeys" ("configured" ∷ []))
  read_call captures = get "/captures" check_captures
  read_call (capture_preview id) =
      get ("/captures/" <> encoder.component id <> "/preview") check_preview
  read_call (timeline id) = get ("/requests/" <> encoder.component id <> "/timeline") unchecked
  read_call config_state = get "/config/state" (object_of "configState")
  read_call config_versions = get "/config/backups" (arrays_of "configVersions" ("items" ∷ []))
  read_call upstream_status = get "/upstreams/status" (arrays_of "upstreamStatus" ("targets" ∷ []))
  read_call governance_status =
      get "/governance/status" (arrays_of "governanceStatus" ("entries" ∷ []))
  read_call telemetry_status = get "/telemetry/status" (object_of "telemetryStatus")
  read_call (policy_status limit) =
      get ("/policies/status?limit=" <> show limit) (arrays_of "policyStatus" ("recent" ∷ []))
  read_call policy_releases = get "/policies/releases" (arrays_of "policyReleases" ("history" ∷ []))
  read_call repeat_tasks = get "/repeat-tasks" (list_of "repeatTasks")
