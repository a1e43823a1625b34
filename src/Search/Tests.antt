-- ===== src/Search/Tests.antt =====
-- The search on concrete lists, and its theorems at them.
use relay_lifeline.Prelude.{
  ◌≡◌, ◌⊎◌, refl, Bool, true, not, ◌||◌, List, ok, throw, [], ◌∷◌, none, some, String, ◌==◌,
  String_keys, map,
}
use relay_lifeline.Paging.{ids}
use relay_lifeline.Search.{
  HistoryRecord, Incident, Alert, Lists, by_record, first_of_each, results, all_results,
  includes_query, SearchResult,
}
use relay_lifeline.Json.{type_error}
use relay_lifeline.Search.Loading.{
  LoadResults, nothing_loaded, take_results, answer_load, fire, restart, SearchEvent, changed,
  elapsed, loaded, on_search, on_searches,
}
use relay_lifeline.Search.Loading.Overtaken.{SameRecords, on_searches-current}
use relay_lifeline.Search.Choice.{related_incident, related_to, by_category, arrow}

searching : Unit {0}
unfolding first_of_each ids results all_results includes_query related_incident related_to
    by_category arrow
searching = tt

abbrev finished : String → String → HistoryRecord
finished record_id state = record {
  record_id = record_id;
  client_id = none;
  task_id = none;
  method = "POST";
  path = "/v1/responses";
  state = state;
  last_error_code = none;
}

abbrev lists : Lists
lists = record {
  requests = [];
  finished = finished "h1" "failed" ∷ [];
  remote_history = finished "h1" "canceled" ∷ finished "h2" "failed" ∷ [];
  incident_list = [];
  remote_incidents = [];
  alerts = [];
  log_entries = [];
  capture_records = [];
  upstream_name = "cpa";
}

found_failed :
    map (λ (r : SearchResult). r.key) (results (λ s. s) (λ a b. a == b) "" "" lists "failed")
    ≡ "history-h1" ∷ "history-h2" ∷ []
unfolding searching
found_failed = refl

abbrev outage : Incident
outage = record {
  incident_id = "i1";
  state = "active";
  affected_requests = [];
  categories = ("timeout", 4) ∷ [];
}

abbrev timeouts : Alert
timeouts = record {
  alert_id = "a1";
  type_name = "timeout";
  request_id = none;
  message = "timeouts";
  incident_id_detail = some "gone";
}

related : related_incident timeouts (outage ∷ []) ≡ some "i1"
unfolding searching
related = refl

abbrev long_enough : String → Bool
long_enough query = not (query == "" || query == "a")

abbrev typed : List (SearchEvent long_enough)
typed = changed "ab" true ∷ elapsed ∷ changed "abc" true ∷ elapsed ∷ []

abbrev answers : LoadResults
answers = record {
  logs = throw type_error;
  captures = ok [];
  history = ok (finished "h3" "failed" ∷ []);
  incidents = ok [];
}

-- The answer to the load for the earlier query changes nothing.
overtaken_answer :
    (on_search long_enough
      (on_searches long_enough nothing_loaded typed)
      (loaded 0 answers)).remote_history
    ≡ []
unfolding on_search on_searches nothing_loaded restart fire answer_load take_results
overtaken_answer = refl

on_searches-current_example :
    SameRecords
      (on_searches long_enough nothing_loaded typed)
      (on_search long_enough (on_searches long_enough nothing_loaded typed) (loaded 1 answers))
    ⊎ (("abc" ≡ (on_searches long_enough nothing_loaded typed).query)
        × ((on_searches long_enough nothing_loaded typed).effect ≡ some 1))
unfolding on_search on_searches nothing_loaded restart fire answer_load take_results
on_searches-current_example =
    on_searches-current long_enough typed 1 answers (record { number = 1; query = "abc" }) refl
