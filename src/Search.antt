-- ===== src/Search.antt =====
-- The search over all lists, web/src/components/GlobalSearch.tsx: its results, where a result leads,
-- and the choice by the arrow keys.
pub mod Found
pub mod Choice
pub mod Loading
pub mod Leading
pub mod Tests
use relay_lifeline.Prelude.{
  ℕ, suc, ◌+◌, ◌-◌, ◌%◌, Bool, true, false, not, ◌&&◌, ◌||◌, List, [], ◌∷◌, ◌++◌, map, Option, none,
  some, String, if◌then◌else◌, ◌==◌, String_keys, nat_eq, length, take, any, find, get_elem?, has,
  show, ◌<>◌,
}
use relay_lifeline.Json.{Value}
use relay_lifeline.Console.{View, incidents, logs, captures, settings, diagnostics}
use relay_lifeline.Paging.{Listed, id}

pub data Kind : Type 0 where
  request : Kind
  history : Kind
  incident : Kind
  alert : Kind
  log : Kind
  capture : Kind
  upstream : Kind

pub record SearchResult : Type 0 where
  pub key : String
  pub kind : Kind
  pub result_id : String
  pub title : String
  pub detail : String

pub record SearchTarget : Type 0 where
  pub kind : Kind
  pub target_id : String
  pub detail : Option String

-- The fields of a request or of a finished one that the search reads.
pub record HistoryRecord : Type 0 where
  pub record_id : String
  pub client_id : Option String
  pub task_id : Option String
  pub method : String
  pub path : String
  pub state : String
  pub last_error_code : Option String

pub record Incident : Type 0 where
  pub incident_id : String
  pub state : String
  pub affected_requests : List String
  pub categories : List (String × ℕ)

-- `incident_id_detail` is `messageDetails.incidentId` where that is a text.
pub record Alert : Type 0 where
  pub alert_id : String
  pub type_name : String
  pub request_id : Option String
  pub message : String
  pub incident_id_detail : Option String

pub record RuntimeLogEntry : Type 0 where
  pub entry_id : ℕ
  pub level : String
  pub event : String
  pub message : String
  pub request_id : Option String
  pub client_id : Option String
  pub task_id : Option String
  pub fields_text : String

pub record CaptureRecord : Type 0 where
  pub capture_id : String
  pub request_id : String
  pub method : String
  pub path : String
  pub state : String

instance abbrev pub by_record : Listed HistoryRecord
by_record = record { id_of = λ r. r.record_id }

instance abbrev pub by_incident : Listed Incident
by_incident = record { id_of = λ i. i.incident_id }

-- The first item of each identifier: `all.findIndex((item) => item.id === record.id) === index`.
module _ {A : Type 0} ⦃listed : Listed A⦄ where
  unfoldable pub first_of_each : List String → List A → List A
  first_of_each earlier [] = []
  first_of_each earlier (item ∷ rest) =
      let later = first_of_each (id item ∷ earlier) rest in
      if has (id item) earlier then later else item ∷ later

abbrev gather : {A : Type 0} → (A → Bool) → (A → SearchResult) → List A → List SearchResult
gather matching result [] = []
gather matching result (item ∷ rest) =
    if matching item then result item ∷ gather matching result rest else gather matching result rest

abbrev or_text : Option String → String → String
or_text none fallback = fallback
or_text (some text) fallback = if text == "" then fallback else text

-- What the lists hold that are searched, and what the server has found.
pub record Lists : Type 0 where
  pub requests : List HistoryRecord
  pub finished : List HistoryRecord
  pub remote_history : List HistoryRecord
  pub incident_list : List Incident
  pub remote_incidents : List Incident
  pub alerts : List Alert
  pub log_entries : List RuntimeLogEntry
  pub capture_records : List CaptureRecord
  pub upstream_name : String

-- `lower` and `includes` are the language's functions on texts; the titles are texts of the page.
module _ (lower : String → String) (includes : String → String → Bool)
    (incident_title upstream_title : String) where
  abbrev includes_one : String → Option String → Bool
  includes_one query none = false
  includes_one query (some value) = includes (lower value) query

  unfoldable pub includes_query : List (Option String) → String → Bool
  includes_query values query = any (includes_one query) values

  abbrev record_texts : HistoryRecord → List (Option String)
  record_texts r =
      some r.record_id
      ∷ r.client_id
      ∷ r.task_id
      ∷ some r.method
      ∷ some r.path
      ∷ some r.state
      ∷ r.last_error_code
      ∷ []

  abbrev record_result : String → Kind → HistoryRecord → SearchResult
  record_result prefix kind r = record {
    key = prefix <> r.record_id;
    kind = kind;
    result_id = r.record_id;
    title = r.method <> " " <> r.path;
    detail = r.record_id;
  }

  abbrev request_results : String → List HistoryRecord → List SearchResult
  request_results query =
      gather (λ r. includes_query (record_texts r) query) (record_result "request-" request)

  abbrev history_results : String → List HistoryRecord → List SearchResult
  history_results query =
      gather (λ r. includes_query (record_texts r) query) (record_result "history-" history)

  abbrev incident_results : String → List Incident → List SearchResult
  incident_results query =
      gather
        (λ i.
          includes_query
            (some i.incident_id ∷ some i.state ∷ map some i.affected_requests
              ++ map (λ (category, _). some category) i.categories)
            query)
        (λ i. record {
          key = "incident-" <> i.incident_id;
          kind = incident;
          result_id = i.incident_id;
          title = incident_title;
          detail = i.incident_id;
        })

  abbrev alert_results : String → List Alert → List SearchResult
  alert_results query =
      gather
        (λ a.
          includes_query (some a.alert_id ∷ a.request_id ∷ some a.type_name ∷ some a.message ∷ [])
            query)
        (λ a. record {
          key = "alert-" <> a.alert_id;
          kind = alert;
          result_id = or_text a.request_id a.alert_id;
          title = a.message;
          detail = or_text a.request_id a.type_name;
        })

  abbrev log_results : String → List RuntimeLogEntry → List SearchResult
  log_results query =
      gather
        (λ e.
          includes_query
            (some (show e.entry_id)
              ∷ some e.event
              ∷ some e.message
              ∷ e.request_id
              ∷ e.client_id
              ∷ e.task_id
              ∷ some e.level
              ∷ some e.fields_text
              ∷ [])
            query)
        (λ e. record {
          key = "log-" <> show e.entry_id;
          kind = log;
          result_id = or_text e.request_id "";
          title = e.message;
          detail = e.event;
        })

  abbrev capture_results : String → List CaptureRecord → List SearchResult
  capture_results query =
      gather
        (λ c.
          includes_query
            (some c.capture_id
              ∷ some c.request_id
              ∷ some c.method
              ∷ some c.path
              ∷ some c.state
              ∷ [])
            query)
        (λ c. record {
          key = "capture-" <> c.capture_id;
          kind = capture;
          result_id = c.capture_id;
          title = c.method <> " " <> c.path;
          detail = c.request_id;
        })

  unfoldable pub all_results : Lists → String → List SearchResult
  unfolding includes_query
  all_results lists query =
      request_results query lists.requests
      ++ history_results query (first_of_each [] (lists.finished ++ lists.remote_history))
      ++ incident_results query (first_of_each [] (lists.incident_list ++ lists.remote_incidents))
      ++ alert_results query lists.alerts
      ++ log_results query lists.log_entries
      ++ capture_results query lists.capture_records
      ++ gather (λ name. includes_query (some name ∷ []) query)
          (λ name. record {
            key = "upstream";
            kind = upstream;
            result_id = name;
            title = upstream_title;
            detail = name;
          })
          (lists.upstream_name ∷ [])

  -- `query` is the text of the field, trimmed and lowered.
  unfoldable pub results : Lists → String → List SearchResult
  results lists query = if query == "" then [] else take 8 (all_results lists query)
