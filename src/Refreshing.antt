-- ===== src/Refreshing.antt =====
-- The loads of the event feed in web/src/App.tsx: refreshEvents, which joins a load that is under way,
-- and the end of a session while one is.
pub mod Single
pub mod Stale
mod Tests
use relay_lifeline.Prelude.{
  ℕ, suc, Bool, true, false, not, List, [], ◌∷◌, Option, none, some, Outcome, ok, throw,
  if◌then◌else◌, filter, find, has, nat_eq, ℕ_keys,
}
use relay_lifeline.Feed.{
  MonitoringEvent, MonitoringEventBatch, ReadError, merge_monitoring_events,
  monitoring_event_capacity,
}

-- A read of the feed that waits for its server, and the cursor that it started from.
pub record Load : Type 0 where
  pub number : ℕ
  pub from : ℕ

-- `slot` is `eventLoad.current`, as the number of the promise. A promise is `running` until its read
-- is answered, then `landed` until the caller that waits for it goes on.
pub record EventState : Type 0 where
  pub cursor : ℕ
  pub events : List MonitoringEvent
  pub slot : Option ℕ
  pub running : List Load
  pub landed : List ℕ
  pub next_number : ℕ

unfoldable pub no_events : EventState
no_events = record {
  cursor = 0;
  events = [];
  slot = none;
  running = [];
  landed = [];
  next_number = 0;
}

unfoldable pub refresh_from : Option ℕ → EventState → EventState
refresh_from (some number) s = s
refresh_from none s = record s {
  slot = some s.next_number;
  running = record { number = s.next_number; from = s.cursor } ∷ s.running;
  next_number = suc s.next_number;
}

unfoldable pub refresh_events : EventState → EventState
unfolding refresh_from
refresh_events s = refresh_from s.slot s

-- What the read does to the cursor and the events before its promise settles.
unfoldable pub take_batch : Outcome ReadError MonitoringEventBatch → EventState → EventState
take_batch (throw reason) s = s
take_batch (ok batch) s = record s {
  cursor = batch.next_after;
  events = merge_monitoring_events s.events batch.events batch.reset monitoring_event_capacity;
}

abbrev pub is_load : ℕ → Load → Bool
is_load number l = nat_eq l.number number

unfoldable pub land : ℕ → Outcome ReadError MonitoringEventBatch → EventState → EventState
unfolding take_batch
land number outcome s = elim (find (is_load number) s.running) [
  | none ↦ s
  | some _ ↦ record (take_batch outcome s) {
    running = filter (λ l. not (is_load number l)) s.running;
    landed = number ∷ s.landed;
  }
]

abbrev pub cleared : ℕ → Option ℕ → Option ℕ
cleared number none = none
cleared number (some current) = if nat_eq current number then none else some current

-- The `finally` of the caller that started the load.
unfoldable pub go_on : ℕ → EventState → EventState
go_on number s =
    if has number s.landed
    then record s {
      slot = cleared number s.slot;
      landed = filter (λ n. not (nat_eq n number)) s.landed;
    }
    else s

-- What resetAuthentication does here: the slot stays.
unfoldable pub end_session : EventState → EventState
end_session s = record s { cursor = 0; events = [] }

pub data FeedEvent : Type 0 where
  refresh : FeedEvent
  answered : ℕ → Outcome ReadError MonitoringEventBatch → FeedEvent
  resumed : ℕ → FeedEvent
  ended : FeedEvent

unfoldable pub react : EventState → FeedEvent → EventState
unfolding refresh_events land go_on end_session
react s refresh = refresh_events s
react s (answered number outcome) = land number outcome s
react s (resumed number) = go_on number s
react s ended = end_session s

unfoldable pub react_all : EventState → List FeedEvent → EventState
react_all s [] = s
react_all s (event ∷ rest) = react_all (react s event) rest
