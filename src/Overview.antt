-- ===== src/Overview.antt =====
-- What the overview puts first: the choice of web/src/components/OverviewPriorityPanel.tsx.
pub mod Priority
mod Tests
use relay_lifeline.Prelude.{
  Bool, true, false, not, ◌&&◌, ◌||◌, List, [], ◌∷◌, Option, none, some, String, if◌then◌else◌,
  ◌==◌, String_keys, filter, find, take,
}

-- The fields that the choice reads.
pub record Request : Type 0 where
  pub id : String
  pub state : String

pub record OpenIncident : Type 0 where
  pub id : String
  pub state : String

pub record ShownAlert : Type 0 where
  pub id : String
  pub resolved_at : Option String

pub record Panel : Type 0 where
  pub alerts : List ShownAlert
  pub incidents : List OpenIncident
  pub requests : List Request
  pub paused : Bool
  pub selected_id : Option String

pub data PriorityState : Type 0 where
  request_state : PriorityState
  paused_state : PriorityState
  incident_state : PriorityState
  waiting_state : PriorityState
  alert_state : PriorityState
  stable_state : PriorityState

unfoldable pub open_incident : Panel → Option OpenIncident
open_incident p = find (λ i. not (i.state == "resolved")) p.incidents

unfoldable pub selected_by : Option String → List Request → Option Request
selected_by none requests = none
selected_by (some id) requests = if id == "" then none else find (λ r. r.id == id) requests

abbrev is_open_alert : ShownAlert → Bool
is_open_alert a = elim a.resolved_at [ none ↦ true | some time ↦ time == "" ]

unfoldable pub active_alerts : Panel → List ShownAlert
active_alerts p = take 2 (filter is_open_alert p.alerts)

abbrev pub waits : Request → Bool
waits r = r.state == "waiting" || r.state == "queued"

unfoldable pub waiting_request : Panel → Option Request
waiting_request p = find waits p.requests

abbrev pub first : {A : Type 0} → List A → Option A
first [] = none
first (x ∷ xs) = some x

abbrev pub or_other : {A : Type 0} → Option A → Option A → Option A
or_other none other = other
or_other (some a) other = some a

-- The request that is shown.
unfoldable pub shown_request : Panel → Option Request
unfolding selected_by waiting_request
shown_request p =
    or_other (selected_by p.selected_id p.requests)
      (or_other (waiting_request p) (first p.requests))

abbrev pub is_there : {A : Type 0} → Option A → Bool
is_there none = false
is_there (some _) = true

unfoldable pub priority_state : Panel → PriorityState
unfolding open_incident selected_by active_alerts waiting_request shown_request
priority_state p =
    if is_there (selected_by p.selected_id p.requests)
    then request_state
    else if p.paused
    then paused_state
    else if is_there (open_incident p)
    then incident_state
    else if is_there (waiting_request p)
    then waiting_state
    else if is_there (shown_request p)
    then request_state
    else if is_there (first (active_alerts p))
    then alert_state
    else stable_state
