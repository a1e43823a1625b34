-- ===== src/Refreshing/Stale.antt =====
-- A session that ends while the event feed is read.
use relay_lifeline.Prelude.{ℕ, ◌≡◌, refl, [], ◌∷◌, Option, none, some, ok, arith}
use relay_lifeline.Feed.{MonitoringEventBatch, merge_monitoring_events, monitoring_event_capacity}
use relay_lifeline.Refreshing.{
  Load, EventState, take_batch, land, end_session, refresh_from, refresh_events,
}

joined :
    (slot : Option ℕ) (s : EventState) (number : ℕ) → slot ≡ some number → refresh_from slot s ≡ s
unfolding refresh_from
joined none s number e = cc
joined (some k) s number e = refl

-- If a session ends while the only load runs, then the refreshes of the next session start no load of
-- their own before it is answered; and its batch, of the session that ended, becomes the events that are
-- shown and moves the cursor.
pub end_session-stale :
    (s : EventState) (l : Load) (batch : MonitoringEventBatch)
    → s.slot ≡ some l.number
    → s.running ≡ l ∷ []
    → (refresh_events (end_session s) ≡ end_session s)
      × ((land l.number (ok batch) (end_session s)).cursor ≡ batch.next_after)
      × ((land l.number (ok batch) (end_session s)).events
          ≡ merge_monitoring_events [] batch.events batch.reset monitoring_event_capacity)
unfolding refresh_events end_session land take_batch
end_session-stale s l batch slot running =
    (joined s.slot (record s { cursor = 0; events = [] }) l.number slot, ground arith, ground arith)
