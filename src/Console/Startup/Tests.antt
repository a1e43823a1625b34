-- ===== src/Console/Startup/Tests.antt =====
-- The start of the console on concrete events, and its theorems at them.
use relay_lifeline.Prelude.{
  ◌≡◌, ◌⊎◌, refl, List, [], ◌∷◌, none, some, String, ok, throw, ℕ_keys, String_keys,
}
use relay_lifeline.Json.{str, Thrown, type_error}
use relay_lifeline.Paging.{ListFilters}
use relay_lifeline.Console.{SessionInfo, expired, reset_authentication, settings}
use relay_lifeline.Console.Tests.{signed_in, text}
use relay_lifeline.Console.Control.{take_all, login}
use relay_lifeline.Console.Startup.{
  Startup, config_answer, take_answer, run_effect, end_session, sign_in, filter_history, fail_run,
  take_session, take_read, StartEvent, ended, signed_in as signs_in, session_answered,
  read_answered, on_start, on_starts,
}
use relay_lifeline.Console.Startup.Current.{IsCurrent, on_starts-live}
use relay_lifeline.Console.Startup.Late.{ended-late}

starting : Unit {0}
unfolding take_answer run_effect end_session sign_in filter_history fail_run take_session take_read
    on_start on_starts reset_authentication login take_all
starting = tt

abbrev opened : Startup
opened = record {
  console = record signed_in { session = none };
  effect = none;
  asking = [];
  reading = [];
  failed = [];
  next_number = 0;
  leaving = none;
}

abbrev failed_text : Thrown → String
failed_text why = "failed"

abbrev operator : SessionInfo
operator = record { capabilities = "operate" ∷ [] }

abbrev reader : SessionInfo
reader = record { capabilities = "view" ∷ [] }

abbrev handed_over : List StartEvent
handed_over = session_answered 0 (ok operator) ∷ ended (some expired) ∷ signs_in reader ∷ []

-- The session's answer to the run before is dropped.
not_taken :
    (on_starts failed_text text "leave?"
      (run_effect opened)
      (ended none ∷ signs_in reader ∷ session_answered 0 (ok operator) ∷ [])).console.session
    ≡ some reader
unfolding starting
not_taken = refl

-- The failure of a read is shown once.
shown_failure :
    (on_starts failed_text text "leave?" (run_effect opened) (
      session_answered 0 (ok operator)
      ∷ read_answered 0 (throw type_error)
      ∷ [])).console.bootstrap_error
    ≡ "failed"
unfolding starting
shown_failure = refl

on_starts-live_example :
    IsCurrent (on_starts failed_text text "leave?" (run_effect opened) handed_over)
    × (((take_session failed_text 0
            (ok operator)
            (on_starts failed_text text "leave?" (run_effect opened) handed_over)).console
          ≡ (on_starts failed_text text "leave?" (run_effect opened) handed_over).console)
        ⊎ ((on_starts failed_text text "leave?" (run_effect opened) handed_over).effect ≡ some 0))
on_starts-live_example =
    on_starts-live failed_text text "leave?" opened handed_over 0 (ok operator) refl refl

abbrev reading_settings : Startup
reading_settings = record {
  console = signed_in;
  effect = some 0;
  asking = [];
  reading = 0 ∷ [];
  failed = [];
  next_number = 1;
  leaving = none;
}

ended-late_example :
    let t =
      on_starts failed_text text "leave?" reading_settings
        (ended none ∷ signs_in reader ∷ read_answered 0 (ok (config_answer (str "secret"))) ∷ []) in
    (t.console.session ≡ some reader)
    × (t.console.config ≡ some (str "secret"))
    × (t.console.saved_config ≡ some (str "secret"))
ended-late_example =
    ended-late failed_text text "leave?" reading_settings 0 none reader (str "secret") refl

abbrev failures : ListFilters
failures = record { q = ""; state = "failed"; from = ""; to = "" }

abbrev editing : Startup
editing = record reading_settings {
  console = record signed_in {
    view = settings;
    hash = settings;
    config = some (str "edited");
    saved_config = some (str "saved");
  };
}
