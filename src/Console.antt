-- ===== src/Console.antt =====
-- The state of the console, which web/src/App.tsx keeps, the end of a session, its one confirmation
-- dialog, and the change between its views.
pub mod Tickets
pub mod Navigation
pub mod Saving
pub mod Address
pub mod Control
pub mod Startup
pub mod Payload
pub mod Policy
pub mod Tests
use relay_lifeline.Prelude.{
  ℕ, suc, ◌+◌, Bool, true, false, not, ◌&&◌, ◌||◌, List, [], ◌∷◌, Option, none, some, String,
  if◌then◌else◌, ◌==◌, String_keys, has,
}
use relay_lifeline.Json.{Value}
use relay_lifeline.Feed.{MonitoringEvent}
use relay_lifeline.Paging.{Loaded}

pub data View : Type 0 where
  overview : View
  requests : View
  history : View
  incidents : View
  logs : View
  captures : View
  diagnostics : View
  settings : View

pub data AuthReason : Type 0 where
  required : AuthReason
  expired : AuthReason

pub record SessionInfo : Type 0 where
  pub capabilities : List String

-- A question, and the number of the promise that its answer settles.
pub record Confirmation : Type 0 where
  pub title : String
  pub ticket : ℕ

-- A promise that has been settled, and to what.
pub record Answer : Type 0 where
  pub ticket : ℕ
  pub result : Bool

-- The state of the console. What the views only show stays a value of the server.
pub record Console : Type 0 where
  pub authenticated : Bool
  pub auth_reason : Option AuthReason
  pub session : Option SessionInfo
  pub view : View
  pub hash : View
  pub status : Option Value
  pub health_summary : Option Value
  pub config : Option Value
  pub saved_config : Option Value
  pub config_state : Option Value
  pub upstream_status : Option Value
  pub governance_status : Option Value
  pub policy_status : Option Value
  pub telemetry_status : Option Value
  pub runtime_info : Option Value
  pub alerts : List Value
  pub history_list : Loaded Value
  pub incident_list : List Value
  pub incident_results : Loaded Value
  pub repeat_tasks : List Value
  pub timeline : Option Value
  pub diagnostic_report : Option Value
  pub metrics : Option Value
  pub metric_errors : Option Value
  pub events : List MonitoringEvent
  pub event_cursor : ℕ
  pub message : String
  pub bootstrap_error : String
  pub search_target : Option Value
  pub mobile_tools : Bool
  pub confirmation : Option Confirmation
  pub confirmation_pending : Bool
  pub next_ticket : ℕ
  pub answers : List Answer

-- `current?.resolve(result)`: the promise of the open question is settled.
unfoldable pub resolve : Option Confirmation → Bool → List Answer → List Answer
resolve none result answers = answers
resolve (some question) result answers =
    record { ticket = question.ticket; result = result } ∷ answers

-- What a loaded list is without its records; its filters stay.
abbrev pub emptied : Loaded Value → Loaded Value
emptied list = record list { shown = []; cursor = none; have_more = false }

unfoldable pub reset_authentication : Option AuthReason → Console → Console
reset_authentication reason s = record s {
  authenticated = false;
  auth_reason = reason;
  session = none;
  status = none;
  health_summary = none;
  config = none;
  saved_config = none;
  config_state = none;
  upstream_status = none;
  governance_status = none;
  policy_status = none;
  telemetry_status = none;
  runtime_info = none;
  alerts = [];
  history_list = emptied s.history_list;
  incident_list = [];
  incident_results = emptied s.incident_results;
  repeat_tasks = [];
  timeline = none;
  diagnostic_report = none;
  metrics = none;
  metric_errors = none;
  events = [];
  event_cursor = 0;
  message = "";
  bootstrap_error = "";
  search_target = none;
  mobile_tools = false;
  confirmation = none;
  confirmation_pending = false;
  answers = resolve s.confirmation false s.answers;
}

-- The promise that a question gives: one that is settled already, or one with a number.
pub data Promised : Type 0 where
  settled : Bool → Promised
  ticket : ℕ → Promised

unfoldable pub request_confirmation : String → Console → Promised × Console
request_confirmation title s = if s.confirmation_pending then (settled false, s) else (
  ticket s.next_ticket,
  record s {
    confirmation_pending = true;
    confirmation = some (record { title = title; ticket = s.next_ticket });
    next_ticket = suc s.next_ticket;
  },
)

unfoldable pub finish_confirmation : Bool → Console → Console
finish_confirmation result s = record s {
  confirmation_pending = false;
  confirmation = none;
  answers = resolve s.confirmation result s.answers;
}

abbrev has_capability : String → Option SessionInfo → Bool
has_capability name none = false
has_capability name (some session) = has name session.capabilities

abbrev pub can_operate : Console → Bool
can_operate s = has_capability "operate" s.session

abbrev pub is_settings : View → Bool
is_settings settings = true
is_settings _ = false

unfoldable pub same_view : View → View → Bool
same_view overview overview = true
same_view requests requests = true
same_view history history = true
same_view incidents incidents = true
same_view logs logs = true
same_view captures captures = true
same_view diagnostics diagnostics = true
same_view settings settings = true
same_view _ _ = false

-- The address bar, where the browser has changed it already, goes back to the view.
abbrev pub stay : Bool → Console → Console
stay update_hash s = if update_hash then s else record s { hash = s.view }

abbrev pub enter : View → Bool → Console → Console
enter next update_hash s =
    let moved = record s { view = next; mobile_tools = false; timeline = none } in
    if update_hash then record moved { hash = next } else moved

abbrev pub leave : View → Bool → Bool × Console → Console
leave next update_hash (true, s) = enter next update_hash s
leave next update_hash (false, s) = stay update_hash s

-- `stringify` is the language's text of a value.
module _ (stringify : Value → String) where
  unfoldable pub edited : Option Value → Option Value → Bool
  edited (some config) (some saved) = not (stringify config == stringify saved)
  edited _ _ = false

  unfoldable pub dirty : Console → Bool
  dirty s = edited s.config s.saved_config

  -- What the user answers counts only if the question can be asked. The edits are then dropped.
  unfoldable pub confirm_settings_leave : Bool → Console → Bool × Console
  confirm_settings_leave answer s =
      if not (dirty s)
      then (true, s)
      else if not s.confirmation_pending && answer
      then (true, record s { config = s.saved_config })
      else (false, s)

  -- `answer` is what the user answers if the unsaved settings are asked about. The pages that the list
  -- views load on entry are loaded after the change.
  unfoldable pub select_view : Bool → View → Bool → Console → Console
  select_view answer next update_hash s =
      if is_settings next && not (can_operate s)
      then stay update_hash s
      else if same_view next s.view
      then record s { mobile_tools = false }
      else if is_settings s.view
      then leave next update_hash (confirm_settings_leave answer s)
      else enter next update_hash s

-- A user who may no longer operate is taken out of the settings.
unfoldable pub eject : Console → Console
eject s = elim s.session [
  | none ↦ s
  | some _ ↦
      if not (can_operate s) && is_settings s.view
      then record s { view = overview; hash = overview }
      else s
]
