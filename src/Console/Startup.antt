-- ===== src/Console/Startup.antt =====
-- The effect of web/src/App.tsx that starts the console: it asks for the session, then for what the
-- console shows, and runs again when the user signs in or a list is filtered. Answers come in any order.
-- A step back in the browser to the history filters it, and asks about settings that are not saved. The
-- reads of a list's own page, and those that entering a view makes, are not among the events.
pub mod Owned
pub mod Current
pub mod Late
mod Tests
use relay_lifeline.Prelude.{
  ℕ, suc, Bool, true, false, not, ◌&&◌, List, [], ◌∷◌, Option, none, some, String, Outcome, ok,
  throw, if◌then◌else◌, ◌==◌, find, filter, has, nat_eq, ℕ_keys,
}
use relay_lifeline.Json.{Value, Thrown}
use relay_lifeline.Paging.{Page, ListFilters, Loaded, turned}
use relay_lifeline.Console.{
  AuthReason, SessionInfo, Console, reset_authentication, history, is_settings, same_view, dirty,
  stay, enter, Promised, settled, ticket, request_confirmation, finish_confirmation,
}
use relay_lifeline.Console.Control.{Overall, take_all, login}

-- What the effect reads once it has the session, and the answers.
pub data StartAnswer : Type 0 where
  overall_answer : Overall → Page Value → StartAnswer
  config_answer : Value → StartAnswer
  state_answer : Value → StartAnswer
  history_answer : Page Value → StartAnswer
  incidents_answer : Page Value → StartAnswer
  runtime_answer : Value → StartAnswer

unfoldable pub take_answer : StartAnswer → Console → Console
unfolding take_all
take_answer (overall_answer all page) s = take_all all page s
take_answer (config_answer value) s = record s { config = some value; saved_config = some value }
take_answer (state_answer value) s = record s { config_state = some value }
take_answer (history_answer page) s = record s {
  history_list = turned page page.items s.history_list;
}
take_answer (incidents_answer page) s = record s {
  incident_results = turned page page.items s.incident_results;
}
take_answer (runtime_answer value) s = record s { runtime_info = some value }

-- A question about unsaved settings: its number, and what was saved when it was asked.
pub record Leaving : Type 0 where
  pub ticket : ℕ
  pub saved : Option Value

-- `effect` is the number of the run that is not disposed. A run waits for its session while it is among
-- `asking`, has begun to read once it is among `reading`, and has told its `catch` of a failure if it is
-- among `failed`.
-- `leaving` is the question about the unsaved settings that a step back has asked, while it is open.
pub record Startup : Type 0 where
  pub console : Console
  pub effect : Option ℕ
  pub asking : List ℕ
  pub reading : List ℕ
  pub failed : List ℕ
  pub next_number : ℕ
  pub leaving : Option Leaving

abbrev pub is_run : ℕ → Option ℕ → Bool
is_run number none = false
is_run number (some current) = nat_eq current number

abbrev pub others : ℕ → List ℕ → List ℕ
others number numbers = filter (λ n. not (nat_eq n number)) numbers

-- The effect runs: the run before it is disposed.
unfoldable pub run_effect : Startup → Startup
run_effect s =
    if s.console.authenticated
    then record s {
      console = record s.console {
        bootstrap_error = "";
        timeline = none;
        diagnostic_report = none;
      };
      effect = some s.next_number;
      asking = s.next_number ∷ s.asking;
      next_number = suc s.next_number;
    }
    else record s { effect = none }

-- The end of a session answers the open question with a no: a step back is taken back.
unfoldable pub end_session : Option AuthReason → Startup → Startup
unfolding reset_authentication run_effect
end_session reason s =
    let ended = reset_authentication reason s.console in
    run_effect (record s {
      console = record ended { hash = elim s.leaving [ none ↦ ended.hash | some _ ↦ ended.view ] };
      leaving = none;
    })

unfoldable pub sign_in : SessionInfo → Startup → Startup
unfolding login run_effect
sign_in session s = run_effect (record s { console = (login (ok session) s.console).1 })

-- New filters make a new `loadHistory` or `loadIncidents`, on which the effect depends.
unfoldable pub filter_history : ListFilters → Startup → Startup
unfolding run_effect
filter_history filters s = run_effect (record s {
  console = record s.console { history_list = record s.console.history_list { filters = filters } };
})

unfoldable pub filter_incidents : ListFilters → Startup → Startup
unfolding run_effect
filter_incidents filters s = run_effect (record s {
  console = record s.console {
    incident_results = record s.console.incident_results { filters = filters };
  };
})

-- What `selectView("history", false)` does once the question is answered.
unfoldable pub left : Option Value → Bool → Console → Console
left saved false c = stay false c
left none true c = enter history false c
left (some value) true c = enter history false (record c { config = some value })

unfoldable pub await_leave : Startup → Promised × Console → Startup
unfolding left
await_leave s (settled answer, c) = record s { console = left c.saved_config answer c }
await_leave s (ticket number, c) = record s {
  console = c;
  leaving = some (record { ticket = number; saved = c.saved_config });
}

unfoldable pub conclude_leave : Bool → Startup → Option Leaving → Startup
unfolding left finish_confirmation
conclude_leave result s none = s
conclude_leave result s (some question) = record s {
  console = left question.saved result (finish_confirmation result s.console);
  leaving = none;
}

unfoldable pub answer_leave : Bool → Startup → Startup
unfolding conclude_leave
answer_leave result s = conclude_leave result s s.leaving

-- `stringify` is the language's text of a value, `title` that of the question about unsaved settings.
module _ (stringify : Value → String) (title : String) where
  unfoldable pub open_history : Startup → Startup
  unfolding same_view dirty request_confirmation await_leave
  open_history s =
      if same_view history s.console.view
      then s
      else if is_settings s.console.view && dirty stringify s.console
      then await_leave s (request_confirmation title s.console)
      else record s { console = enter history false s.console }

  -- The browser has gone back to the history, to the address that has these filters.
  unfoldable pub step_back : ListFilters → Startup → Startup
  unfolding filter_history open_history
  step_back filters s =
      open_history
        (filter_history filters (record s { console = record s.console { hash = history } }))

-- The `catch` of a run: it asks whether the run is disposed.
unfoldable pub fail_run : String → ℕ → Startup → Startup
fail_run message number s = if has number s.failed then s else record s {
  console =
      (if is_run number s.effect
        then record s.console { bootstrap_error = message }
        else s.console);
  failed = number ∷ s.failed;
}

-- The session's answer counts only for a run that is not disposed.
unfoldable pub take_session : (Thrown → String) → ℕ → Outcome Thrown SessionInfo → Startup → Startup
unfolding fail_run
take_session error_message number (throw why) s =
    if has number s.asking
    then fail_run (error_message why) number (record s { asking = others number s.asking })
    else s
take_session error_message number (ok session) s =
    if not (has number s.asking)
    then s
    else if is_run number s.effect
    then record s {
      console = record s.console { session = some session };
      asking = others number s.asking;
      reading = number ∷ s.reading;
    }
    else record s { asking = others number s.asking }

-- The answer of a read of a run, disposed or not.
unfoldable pub take_read : (Thrown → String) → ℕ → Outcome Thrown StartAnswer → Startup → Startup
unfolding fail_run take_answer
take_read error_message number (throw why) s =
    if has number s.reading then fail_run (error_message why) number s else s
take_read error_message number (ok answer) s =
    if has number s.reading then record s { console = take_answer answer s.console } else s

pub data StartEvent : Type 0 where
  ended : Option AuthReason → StartEvent
  signed_in : SessionInfo → StartEvent
  history_filtered : ListFilters → StartEvent
  incidents_filtered : ListFilters → StartEvent
  stepped_back : ListFilters → StartEvent
  leave_answered : Bool → StartEvent
  session_answered : ℕ → Outcome Thrown SessionInfo → StartEvent
  read_answered : ℕ → Outcome Thrown StartAnswer → StartEvent

module _ (error_message : Thrown → String) (stringify : Value → String) (title : String) where
  unfoldable pub on_start : Startup → StartEvent → Startup
  unfolding end_session sign_in filter_history filter_incidents step_back answer_leave take_session
      take_read
  on_start s (ended reason) = end_session reason s
  on_start s (signed_in session) = sign_in session s
  on_start s (history_filtered filters) = filter_history filters s
  on_start s (incidents_filtered filters) = filter_incidents filters s
  on_start s (stepped_back filters) = step_back stringify title filters s
  on_start s (leave_answered result) = answer_leave result s
  on_start s (session_answered number outcome) = take_session error_message number outcome s
  on_start s (read_answered number outcome) = take_read error_message number outcome s

  unfoldable pub on_starts : Startup → List StartEvent → Startup
  unfolding on_start
  on_starts s [] = s
  on_starts s (event ∷ rest) = on_starts (on_start s event) rest
