-- ===== src/Console/Control.antt =====
-- What the console reads and the controls of the relay in web/src/App.tsx: refresh, refreshMonitoring,
-- togglePause, setControlMode, reload, and the start and the end of a session; and which controls
-- web/src/components/WorkspaceHeader.tsx offers.
pub mod Controlled
pub mod Refreshed
mod Tests
use relay_lifeline.Prelude.{
  Bool, true, false, not, ◌&&◌, ◌||◌, List, [], ◌∷◌, ◌++◌, Option, none, some, String, Outcome, ok,
  throw, if◌then◌else◌, ◌==◌, String_keys,
}
use relay_lifeline.Json.{Value, str, obj, Fields, lookup, truthy, Thrown}
use relay_lifeline.Feed.{MonitoringEventBatch, merge_monitoring_events, monitoring_event_capacity}
use relay_lifeline.Paging.{Page, Fetch}
use relay_lifeline.Console.Address.{no_filters}
use relay_lifeline.Console.{
  AuthReason, SessionInfo, Console, Promised, settled, ticket, request_confirmation,
  finish_confirmation, reset_authentication, can_operate,
}

-- What seven of the eight reads of `refresh` give if all succeed. The eighth is a page of incidents.
pub record Overall : Type 0 where
  pub status : Value
  pub health : Value
  pub alerts : List Value
  pub repeat_tasks : List Value
  pub upstreams : Value
  pub governance : Value
  pub telemetry : Value

-- How the reads of `refreshMonitoring` settle: with the metrics, their errors, the runtime information
-- and the batch of events; or with the first failure, and the batch if it was read all the same.
pub data MonitoringReads : Type 0 where
  all_read : Value → Value → Value → MonitoringEventBatch → MonitoringReads
  not_all : Thrown → Option MonitoringEventBatch → MonitoringReads

pub data ControlMode : Type 0 where
  drain : ControlMode
  maintenance : ControlMode

pub data ControlCall : Type 0 where
  resume : ControlCall
  pause : ControlCall
  change_mode : ControlMode → ControlCall
  ask_mode : ControlMode → ControlCall
  read_all : ControlCall
  read_monitoring : ControlCall
  reload_config : ControlCall
  read_config : ControlCall

-- The answers of the server and of the user, and the texts of the language. `incidents_first` tells
-- whether the read of the incidents fails before another that fails.
pub record ControlWorld : Type 0 where
  pub agreed : Bool
  pub controlled : ControlCall → Outcome Thrown (Unit {0})
  pub overall : Outcome Thrown Overall
  pub incidents : Fetch Value
  pub incidents_first : Bool
  pub monitoring : MonitoringReads
  pub policy : Outcome Thrown Value
  pub reloaded : Outcome Thrown (Unit {0})
  pub config_read : Outcome Thrown (Value × Value)
  pub error_message : Thrown → String
  pub reload_message : Thrown → String
  pub mode_title : ControlMode → String
  pub reloaded_text : String

abbrev pub ControlRun : Type 0
ControlRun = List ControlCall × Console

unfoldable pub take_all : Overall → Page Value → Console → Console
take_all all page s = record s {
  status = some all.status;
  alerts = all.alerts;
  incident_list = page.items;
  incident_results = record s.incident_results {
    cursor = page.next_cursor;
    have_more = page.has_more;
  };
  repeat_tasks = all.repeat_tasks;
  health_summary = some all.health;
  upstream_status = some all.upstreams;
  governance_status = some all.governance;
  telemetry_status = some all.telemetry;
}

-- All reads must succeed; the first failure is the failure of all.
unfoldable pub take_refresh :
    Bool
    → Outcome Thrown Overall
    → Outcome Thrown (Page Value)
    → Console
    → Outcome Thrown (Unit {0}) × Console
unfolding take_all
take_refresh incidents_first (ok all) (ok page) s = (ok tt, take_all all page s)
take_refresh incidents_first (throw why) (ok page) s = (throw why, s)
take_refresh incidents_first (ok all) (throw why) s = (throw why, s)
take_refresh incidents_first (throw why) (throw other) s =
    (throw (if incidents_first then other else why), s)

-- The incidents are asked for without a filter or a cursor.
unfoldable pub refresh : ControlWorld → Console → Outcome Thrown (Unit {0}) × Console
unfolding take_refresh
refresh world s =
    take_refresh world.incidents_first world.overall (world.incidents no_filters none 100) s

unfoldable pub take_events : MonitoringEventBatch → Console → Console
take_events batch s = record s {
  event_cursor = batch.next_after;
  events = merge_monitoring_events s.events batch.events batch.reset monitoring_event_capacity;
}

abbrev pub or_null : Outcome Thrown Value → Option Value
or_null (throw why) = none
or_null (ok value) = some value

unfoldable pub take_monitoring :
    MonitoringReads → Outcome Thrown Value → Console → Outcome Thrown (Unit {0}) × Console
unfolding take_events
take_monitoring (all_read metrics errors info batch) policy s = (
  ok tt,
  record (take_events batch s) {
    metrics = some metrics;
    metric_errors = some errors;
    runtime_info = some info;
    policy_status = or_null policy;
  },
)
take_monitoring (not_all why none) policy s = (throw why, s)
take_monitoring (not_all why (some batch)) policy s = (throw why, take_events batch s)

unfoldable pub refresh_monitoring : ControlWorld → Console → Outcome Thrown (Unit {0}) × Console
unfolding take_monitoring
refresh_monitoring world s = take_monitoring world.monitoring world.policy s

-- The end of a handler that shows the error which it caught.
unfoldable pub reported : (Thrown → String) → Outcome Thrown (Unit {0}) × Console → Console
reported error_message (throw why, s) = record s { message = error_message why }
reported error_message (ok _, s) = s

unfoldable pub then_monitoring : ControlWorld → Outcome Thrown (Unit {0}) × Console → ControlRun
unfolding reported refresh_monitoring
then_monitoring world (throw why, s) = ([], reported world.error_message (throw why, s))
then_monitoring world (ok _, s) =
    (read_monitoring ∷ [], reported world.error_message (refresh_monitoring world s))

-- A control of the relay, and the reads after it.
unfoldable pub control : ControlWorld → ControlCall → Console → ControlRun
unfolding reported refresh then_monitoring
control world call s = elim (world.controlled call) [
  | throw why ↦ (call ∷ [], reported world.error_message (throw why, s))
  | ok _ ↦
      let (calls, s') = then_monitoring world (refresh world s) in (call ∷ read_all ∷ calls, s')
]

abbrev pub is_text : String → Option Value → Bool
is_text text (some (str s)) = s == text
is_text text _ = false

-- Whether the relay drains or is in maintenance.
unfoldable pub in_mode : Option Value → Bool
in_mode (some (obj fields)) =
    is_text "draining" (lookup "mode" fields) || is_text "maintenance" (lookup "mode" fields)
in_mode _ = false

unfoldable pub is_paused : Option Value → Bool
is_paused (some (obj fields)) = truthy (lookup "paused" fields)
is_paused _ = false

abbrev pub is_held : Option Value → Bool
is_held status = in_mode status || is_paused status

unfoldable pub toggle_pause : ControlWorld → Console → ControlRun
unfolding control
toggle_pause world s = control world (if is_held s.status then resume else pause) s

-- The question has been asked, unless another waits for its answer.
unfoldable pub after_question : ControlWorld → ControlMode → Promised × Console → ControlRun
unfolding control finish_confirmation
after_question world mode (settled answer, s) =
    if answer then control world (change_mode mode) s else ([], s)
after_question world mode (ticket number, s) =
    if world.agreed
    then (let (calls, s') = control world (change_mode mode) (finish_confirmation true s) in
        (ask_mode mode ∷ calls, s'))
    else (ask_mode mode ∷ [], finish_confirmation false s)

unfoldable pub set_control_mode : ControlWorld → ControlMode → Console → ControlRun
unfolding request_confirmation after_question
set_control_mode world mode s =
    after_question world mode (request_confirmation (world.mode_title mode) s)

-- The form and what it is compared with become the settings of the server.
unfoldable pub take_config : ControlWorld → Value × Value → Console → ControlRun
unfolding reported refresh_monitoring
take_config world (value, state) s =
    let s' = record s {
      config = some value;
      saved_config = some value;
      config_state = some state;
      message = world.reloaded_text;
    } in
    (read_monitoring ∷ [], reported world.reload_message (refresh_monitoring world s'))

unfoldable pub reload : ControlWorld → Console → ControlRun
unfolding reported take_config
reload world s = elim world.reloaded [
  | throw why ↦ (reload_config ∷ [], reported world.reload_message (throw why, s))
  | ok _ ↦ elim world.config_read [
    | throw why ↦ (reload_config ∷ read_config ∷ [], reported world.reload_message (throw why, s))
    | ok read ↦
        let (calls, s') = take_config world read s in (reload_config ∷ read_config ∷ calls, s')
  ]
]

unfoldable pub open_timeline : (Thrown → String) → Outcome Thrown Value → Console → Console
open_timeline error_message (throw why) s = record s { message = error_message why }
open_timeline error_message (ok timeline) s = record s { timeline = some timeline }

-- A login that fails changes nothing; its error goes to the form.
unfoldable pub login : Outcome Thrown SessionInfo → Console → Outcome Thrown (Unit {0}) × Console
login (throw why) s = (throw why, s)
login (ok session) s =
    (ok tt, record s { auth_reason = none; session = some session; authenticated = true })

-- `notice` is the reason if the client takes the answer for unauthorized, whatever else it is.
unfoldable pub logout : Option AuthReason → Console → Console
unfolding reset_authentication
logout none s = reset_authentication none s
logout (some reason) s = reset_authentication none (reset_authentication (some reason) s)

pub data ControlButton : Type 0 where
  pause_toggle : ControlButton
  drain_button : ControlButton
  maintenance_button : ControlButton

unfoldable pub offers_control : Console → ControlButton → Bool
offers_control s pause_toggle = can_operate s
offers_control s drain_button = can_operate s && not (in_mode s.status)
offers_control s maintenance_button = can_operate s && not (in_mode s.status)

unfoldable pub press_control : ControlWorld → ControlButton → Console → ControlRun
unfolding offers_control toggle_pause set_control_mode
press_control world button s =
    if offers_control s button
    then (elim button [
      | pause_toggle ↦ toggle_pause world s
      | drain_button ↦ set_control_mode world drain s
      | maintenance_button ↦ set_control_mode world maintenance s
    ])
    else ([], s)
