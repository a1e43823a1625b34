-- ===== src/Overview/Tests.antt =====
-- Runs of the overview's choice.
use relay_lifeline.Prelude.{◌≡◌, refl, true, false, [], ◌∷◌, none, some}
use relay_lifeline.Overview.{
  Panel, request_state, waiting_state, alert_state, stable_state, priority_state,
}

abbrev calm : Panel
calm = record {
  alerts = record { id = "a"; resolved_at = some "09:00" } ∷ [];
  incidents = record { id = "i"; state = "resolved" } ∷ [];
  requests = [];
  paused = false;
  selected_id = some "r";
}

calm_is_stable : priority_state calm ≡ stable_state
unfolding priority_state
calm_is_stable = refl

busy_waits :
    priority_state (record calm { requests = record { id = "q"; state = "queued" } ∷ [] })
    ≡ waiting_state
unfolding priority_state
busy_waits = refl

selection_wins :
    priority_state
      (record calm { requests = record { id = "r"; state = "queued" } ∷ []; paused = true })
    ≡ request_state
unfolding priority_state
selection_wins = refl

cut_shows_alert :
    priority_state (record calm { alerts = record { id = "a"; resolved_at = none } ∷ [] })
    ≡ alert_state
unfolding priority_state
cut_shows_alert = refl
