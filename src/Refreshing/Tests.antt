-- ===== src/Refreshing/Tests.antt =====
-- Loads of the event feed, one after another and across sessions.
use relay_lifeline.Prelude.{ℕ, ◌≡◌, refl, false, List, [], ◌∷◌, none, some, ok, throw}
use relay_lifeline.Feed.{
  MonitoringEvent, MonitoringEventBatch, cursor_did_not_advance, merge_monitoring_events,
  monitoring_event_capacity,
}
use relay_lifeline.Refreshing.{
  EventState, no_events, FeedEvent, refresh, answered, resumed, react, react_all, refresh_events,
  end_session, land,
}
use relay_lifeline.Refreshing.Single.{
  IsSingle, react_all-IsSingle, rest_of, Starts, react_all-Starts,
}
use relay_lifeline.Refreshing.Stale.{end_session-stale}

abbrev noted : ℕ → MonitoringEvent
noted id = record {
  id = id;
  time = "t";
  code = "c";
  category = none;
  request_id = none;
  status_code = none;
  attempt = none;
}

abbrev one_event : MonitoringEventBatch
one_event = record { events = noted 7 ∷ []; next_after = 7; reset = false }

-- The second refresh joins the first.
abbrev joined : List FeedEvent
joined = refresh ∷ refresh ∷ []

joined_runs : (react_all no_events joined).running ≡ record { number = 0; from = 0 } ∷ []
unfolding react_all react no_events refresh_events
joined_runs = refl

goes_on_from_cursor :
    (react_all no_events (refresh ∷ answered 0 (ok one_event) ∷ resumed 0 ∷ refresh ∷ [])).running
    ≡ record { number = 1; from = 7 } ∷ []
unfolding react_all react no_events merge_monitoring_events
goes_on_from_cursor = refl

react_all-IsSingle_example : IsSingle (react_all no_events joined)
react_all-IsSingle_example = react_all-IsSingle joined

react_all-Starts_example : Starts (
    react_all
      (react_all no_events joined)
      (rest_of (throw cursor_did_not_advance) (react_all no_events joined).slot))
react_all-Starts_example = react_all-Starts joined (throw cursor_did_not_advance)

abbrev reading : EventState
reading = record {
  cursor = 3;
  events = [];
  slot = some 0;
  running = record { number = 0; from = 3 } ∷ [];
  landed = [];
  next_number = 1;
}

end_session-stale_example :
    (refresh_events (end_session reading) ≡ end_session reading)
    × ((land 0 (ok one_event) (end_session reading)).cursor ≡ 7)
    × ((land 0 (ok one_event) (end_session reading)).events
        ≡ merge_monitoring_events [] (noted 7 ∷ []) false monitoring_event_capacity)
end_session-stale_example =
    end_session-stale reading (record { number = 0; from = 3 }) one_event refl refl
