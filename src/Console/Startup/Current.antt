-- ===== src/Console/Startup/Current.antt =====
-- Whose session the console has.
use relay_lifeline.Prelude.{
  ◌≡◌, refl, ◌⊎◌, inl, inr, ℕ, Bool, true, false, not, ◌&&◌, List, [], ◌∷◌, Option, none, some,
  String, Outcome, ok, throw, if-P, has, ℕ_keys, Bool-cases,
}
use relay_lifeline.Json.{Value, Thrown}
use relay_lifeline.Paging.{ListFilters}
use relay_lifeline.Console.{
  SessionInfo, Console, reset_authentication, Promised, finish_confirmation, is_settings, same_view,
  dirty, history,
}
use relay_lifeline.Console.Control.{login}
use relay_lifeline.Console.Startup.{
  StartAnswer, Startup, is_run, others, run_effect, end_session, sign_in, filter_history,
  filter_incidents, fail_run, take_session, take_read, StartEvent, ended, signed_in,
  history_filtered, incidents_filtered, stepped_back, leave_answered, Leaving, await_leave,
  open_history, step_back, conclude_leave, answer_leave, session_answered, read_answered, on_start,
  on_starts,
}
use relay_lifeline.Console.Startup.Owned.{
  IsOwned, owned, signed_out, without_session, kept, run_of, take_answer-IsOwned, left-IsOwned,
}

-- A session is there only while the user is signed in, and a run of the effect is not disposed just
-- while the user is.
abbrev pub IsCurrent : Startup → Type 0
IsCurrent s = IsOwned s.console.authenticated s.console.session s.effect

run_effect-IsCurrent :
    (s : Startup)
    → (s.console.authenticated ≡ false → s.console.session ≡ none)
    → IsCurrent (run_effect s)
unfolding run_effect
run_effect-IsCurrent s h =
    if-P IsCurrent s.console.authenticated
      (λ e. owned s.console.authenticated s.console.session s.next_number e)
      (λ e. without_session s.console.authenticated s.console.session e (h e))

fail_run-IsCurrent :
    (message : String) (number : ℕ) (s : Startup)
    → IsCurrent s
    → IsCurrent (fail_run message number s)
unfolding fail_run
fail_run-IsCurrent message number s h =
    if-P IsCurrent (has number s.failed) (λ _. h)
      (λ _.
        if-P (λ (c : Console). IsOwned c.authenticated c.session s.effect) (is_run number s.effect)
          (λ _. h) (λ _. h))

conclude_leave-IsCurrent :
    (result : Bool) (s : Startup) (asked : Option Leaving)
    → IsCurrent s
    → IsCurrent (conclude_leave result s asked)
unfolding conclude_leave finish_confirmation
conclude_leave-IsCurrent result s none h = h
conclude_leave-IsCurrent result s (some question) h =
    left-IsOwned question.saved result (finish_confirmation result s.console) s.effect h

filter_history-IsCurrent :
    (filters : ListFilters) (s : Startup) → IsCurrent s → IsCurrent (filter_history filters s)
unfolding filter_history
filter_history-IsCurrent filters s h =
    run_effect-IsCurrent
      (record s {
        console = record s.console {
          history_list = record s.console.history_list { filters = filters };
        };
      })
      (signed_out s.console.authenticated s.console.session s.effect h)

module _ (stringify : Value → String) (title : String) where
  open_history-IsCurrent : (s : Startup) → IsCurrent s → IsCurrent (open_history stringify title s)
  unfolding open_history
  open_history-IsCurrent s h =
      if-P IsCurrent (same_view history s.console.view) (λ _. h)
        (λ _.
          if-P IsCurrent (is_settings s.console.view && dirty stringify s.console)
            (λ _.
              if-P (λ (asked : Promised × Console). IsCurrent (await_leave s asked))
                s.console.confirmation_pending (λ _. h) (λ _. h))
            (λ _. h))

module _ (error_message : Thrown → String) where
  take_session-IsCurrent :
      (number : ℕ) (outcome : Outcome Thrown SessionInfo) (s : Startup)
      → IsCurrent s
      → IsCurrent (take_session error_message number outcome s)
  unfolding take_session
  take_session-IsCurrent number (throw why) s h =
      if-P IsCurrent (has number s.asking)
        (λ _.
          fail_run-IsCurrent (error_message why) number
            (record s { asking = others number s.asking }) h)
        (λ _. h)
  take_session-IsCurrent number (ok session) s h =
      if-P IsCurrent (not (has number s.asking)) (λ _. h)
        (λ _.
          if-P IsCurrent (is_run number s.effect)
            (λ live. kept s.console.authenticated s.console.session session number s.effect live h)
            (λ _. h))

  take_read-IsCurrent :
      (number : ℕ) (outcome : Outcome Thrown StartAnswer) (s : Startup)
      → IsCurrent s
      → IsCurrent (take_read error_message number outcome s)
  unfolding take_read
  take_read-IsCurrent number (throw why) s h =
      if-P IsCurrent (has number s.reading) (λ _. fail_run-IsCurrent (error_message why) number s h)
        (λ _. h)
  take_read-IsCurrent number (ok answer) s h =
      if-P IsCurrent (has number s.reading) (λ _. take_answer-IsOwned answer s.console s.effect h)
        (λ _. h)

  quiet_failure :
      (message : String) (number : ℕ) (s : Startup)
      → is_run number s.effect ≡ false
      → (fail_run message number s).console ≡ s.console
  unfolding fail_run
  quiet_failure message number s over =
      if-P (λ (t : Startup). t.console ≡ s.console) (has number s.failed) (λ _. refl)
        (λ _. rw over (refl))

  ignored :
      (number : ℕ) (outcome : Outcome Thrown SessionInfo) (s : Startup)
      → is_run number s.effect ≡ false
      → (take_session error_message number outcome s).console ≡ s.console
  unfolding take_session
  ignored number (throw why) s over =
      if-P (λ (t : Startup). t.console ≡ s.console) (has number s.asking)
        (λ _.
          quiet_failure (error_message why) number (record s { asking = others number s.asking })
            over)
        (λ _. refl)
  ignored number (ok session) s over =
      if-P (λ (t : Startup). t.console ≡ s.console) (not (has number s.asking)) (λ _. refl)
        (λ _. rw over (refl))

module _ (error_message : Thrown → String) (stringify : Value → String) (title : String) where
  on_start-IsCurrent :
      (s : Startup) (event : StartEvent)
      → IsCurrent s
      → IsCurrent (on_start error_message stringify title s event)
  unfolding on_start end_session reset_authentication sign_in login filter_history filter_incidents
      step_back answer_leave
  on_start-IsCurrent s (ended reason) h =
      let ended : Console = reset_authentication reason s.console in
      run_effect-IsCurrent
        (record s {
          console = record ended {
            hash = elim s.leaving [ none ↦ ended.hash | some _ ↦ ended.view ];
          };
          leaving = none;
        })
        (λ _. refl)
  on_start-IsCurrent s (signed_in session) h =
      run_effect-IsCurrent (record s { console = (login (ok session) s.console).1 })
        (λ e. let no : true ≡ false = e in absurd (let never : ⊥ = cc in never))
  on_start-IsCurrent s (history_filtered filters) h = filter_history-IsCurrent filters s h
  on_start-IsCurrent s (incidents_filtered filters) h =
      run_effect-IsCurrent
        (record s {
          console = record s.console {
            incident_results = record s.console.incident_results { filters = filters };
          };
        })
        (signed_out s.console.authenticated s.console.session s.effect h)
  on_start-IsCurrent s (stepped_back filters) h = open_history-IsCurrent stringify title _ (
      filter_history-IsCurrent filters (record s { console = record s.console { hash = history } })
        h)
  on_start-IsCurrent s (leave_answered result) h = conclude_leave-IsCurrent result s s.leaving h
  on_start-IsCurrent s (session_answered number outcome) h =
      take_session-IsCurrent error_message number outcome s h
  on_start-IsCurrent s (read_answered number outcome) h =
      take_read-IsCurrent error_message number outcome s h

  on_starts-IsCurrent :
      (s : Startup) (events : List StartEvent)
      → IsCurrent s
      → IsCurrent (on_starts error_message stringify title s events)
  unfolding on_starts
  on_starts-IsCurrent s [] h = h
  on_starts-IsCurrent s (event ∷ rest) h =
      on_starts-IsCurrent (on_start error_message stringify title s event) rest
        (on_start-IsCurrent s event h)

  -- Whatever the user does and whatever answers come in whatever order after the console opens: it has
  -- a session only while the user is signed in, it has a run of the effect that is not disposed just
  -- while the user is, and the answer to a session's read, or its failure, changes nothing of the console
  -- unless it is that run's.
  pub on_starts-live :
      (s : Startup) (events : List StartEvent) (number : ℕ) (outcome : Outcome Thrown SessionInfo)
      → s.console.authenticated ≡ true
      → s.console.session ≡ none
      → let t = on_starts error_message stringify title (run_effect s) events in
        IsCurrent t
        × (((take_session error_message number outcome t).console ≡ t.console)
            ⊎ (t.effect ≡ some number))
  on_starts-live s events number outcome authenticated no_session =
      let t = on_starts error_message stringify title (run_effect s) events in
      let h : IsCurrent t =
        on_starts-IsCurrent (run_effect s) events (run_effect-IsCurrent s (λ _. no_session)) in
      (
        h,
        elim (Bool-cases (is_run number t.effect)) [
          | inl live ↦ inr (run_of number t.effect live)
          | inr over ↦ inl (ignored error_message number outcome t over)
        ],
      )
