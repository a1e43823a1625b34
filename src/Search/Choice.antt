-- ===== src/Search/Choice.antt =====
-- Where a result of the search leads, and the result that the arrow keys choose.
use relay_lifeline.Prelude.{
  ℕ, ◌+◌, ◌-◌, ◌%◌, Bool, false, not, ◌&&◌, List, Option, none, some, String, if◌then◌else◌, ◌==◌,
  String_keys, nat_eq, any, find, ◌<>◌,
}
use relay_lifeline.Console.{View, incidents, logs, captures, settings, diagnostics}
use relay_lifeline.Search.{
  Kind, request, history, incident, alert, log, capture, upstream, SearchResult, SearchTarget,
  Incident, Alert,
}

abbrev pub is_unresolved : Incident → Bool
is_unresolved i = not (i.state == "resolved")

abbrev pub id_of : Option Incident → Option String
id_of none = none
id_of (some i) = some i.incident_id

-- The first incident that is not resolved and counts failures of the type of the alert.
unfoldable pub by_category : Alert → List Incident → Option String
by_category a all =
    id_of (
      find (λ i. is_unresolved i && any (λ (category, _). category == a.type_name) i.categories)
        all)

unfoldable pub related_to : Option String → Alert → List Incident → Option String
related_to none a all = by_category a all
related_to (some explicit) a all =
    if any (λ i. i.incident_id == explicit && is_unresolved i) all
    then some explicit
    else by_category a all

unfoldable pub related_incident : Alert → List Incident → Option String
unfolding related_to by_category
related_incident a all = related_to a.incident_id_detail a all

-- What a selection does.
pub data Selected : Type 0 where
  opens : String → Selected
  navigates : View → SearchTarget → Selected

abbrev target_of : SearchResult → SearchTarget
target_of r = record { kind = r.kind; target_id = r.result_id; detail = some r.detail }

abbrev with_request : Option String → Bool
with_request none = false
with_request (some text) = not (text == "")

-- An alert without a request: to the incident that it belongs to, or else to its entries in the log.
unfoldable pub select_incident : Alert → Option String → Selected
select_incident a none =
    navigates logs (record { kind = log; target_id = ""; detail = some a.type_name })
select_incident a (some incident_id) =
    if incident_id == ""
    then navigates logs (record { kind = log; target_id = ""; detail = some a.type_name })
    else navigates incidents (record { kind = incident; target_id = incident_id; detail = none })

unfoldable pub select_alert : Option Alert → List Incident → SearchResult → Selected
unfolding select_incident related_incident
select_alert none all r =
    navigates logs (record { kind = log; target_id = ""; detail = some r.detail })
select_alert (some a) all r = elim a.request_id [
  | none ↦ select_incident a (related_incident a all)
  | some request_id ↦
      if request_id == "" then select_incident a (related_incident a all) else opens request_id
]

unfoldable pub select_kind : Kind → Bool → List Alert → List Incident → SearchResult → Selected
unfolding select_alert
select_kind incident can_operate alerts all r = navigates incidents (target_of r)
select_kind log can_operate alerts all r = navigates logs (target_of r)
select_kind capture can_operate alerts all r = navigates captures (target_of r)
select_kind upstream can_operate alerts all r =
    navigates (if can_operate then settings else diagnostics) (target_of r)
select_kind alert can_operate alerts all r =
    select_alert (find (λ a. "alert-" <> a.alert_id == r.key) alerts) all r
select_kind request can_operate alerts all r = opens r.result_id
select_kind history can_operate alerts all r = opens r.result_id

unfoldable pub select : Bool → List Alert → List Incident → SearchResult → Selected
unfolding select_kind
select can_operate alerts all r = select_kind r.kind can_operate alerts all r

-- The index of the chosen result, `none` for -1, after an arrow key over `n` results.
unfoldable pub arrow : Bool → ℕ → Option ℕ → Option ℕ
arrow down n current = if nat_eq n 0 then current else elim current [
  | none ↦ some ((if down then n else n - 2) % n)
  | some i ↦ some ((if down then i + 1 + n else i + n - 1) % n)
]

-- The index after the results have changed.
unfoldable pub first_index : ℕ → Option ℕ
first_index n = if nat_eq n 0 then none else some 0
