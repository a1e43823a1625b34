-- ===== src/Feed.antt =====
-- The monitoring event feed of the console: web/src/eventFeed.ts, and the event types of
-- web/src/types.ts that it reads.
pub mod Dedup
pub mod Trace
pub mod Reading
pub mod Order
pub mod Merging
mod Tests
use relay_lifeline.Prelude.{
  ℕ, zero, suc, ◌-◌, ◌≤◌, Bool, true, false, ◌&&◌, List, [], ◌∷◌, ◌++◌, Option, none, some, String,
  Outcome, ok, throw, length, drop, leb, nat_eq, if◌then◌else◌, has, ℕ_keys,
}

pub record MonitoringEvent : Type 0 where
  pub id : ℕ
  pub time : String
  pub code : String
  pub category : Option String
  pub request_id : Option String
  pub status_code : Option ℕ
  pub attempt : Option ℕ

-- One answer of `/events`. An absent `hasGap` counts as false.
pub record MonitoringEvents : Type 0 where
  pub events : List MonitoringEvent
  pub next_after : ℕ
  pub oldest_after : Option ℕ
  pub has_more : Bool
  pub has_gap : Option Bool

pub record MonitoringEventBatch : Type 0 where
  pub events : List MonitoringEvent
  pub next_after : ℕ
  pub reset : Bool

-- What `readMonitoringEvents` rejects with: the rejection of `fetchPage`, or its own error.
pub data ReadError : Type 0 where
  fetch_failed : String → ReadError
  cursor_did_not_advance : ReadError

abbrev pub truthy : Option Bool → Bool
truthy none = false
truthy (some b) = b

abbrev pub monitoring_event_capacity : ℕ
monitoring_event_capacity = 1000

-- The loop variables `cursor`, `reset`, `events` and `seen`.
pub record Reader : Type 0 where
  pub cursor : ℕ
  pub reset : Bool
  pub events : List MonitoringEvent
  pub seen : List ℕ

-- `if (!seen.has(event.id))`.
unfoldable pub note_event : MonitoringEvent → Reader → Reader
note_event event r =
    if has event.id r.seen
    then r
    else record r { seen = r.seen ++ event.id ∷ []; events = r.events ++ event ∷ [] }

-- `for (const event of page.events)`.
unfoldable pub collect : List MonitoringEvent → Reader → Reader
collect [] r = r
collect (event ∷ rest) r = collect rest (note_event event r)

-- `if (page.hasGap)`.
unfoldable pub forget : MonitoringEvents → Reader → Reader
forget page r = if truthy page.has_gap then record r { reset = true; events = []; seen = [] } else r

-- The body of the loop after the page has arrived, up to the assignment of `cursor`.
unfoldable pub absorb : MonitoringEvents → Reader → Reader
unfolding collect forget
absorb page r = record (collect page.events (forget page r)) { cursor = page.next_after }

unfoldable pub is_stuck : MonitoringEvents → ℕ → Bool
is_stuck page cursor = leb page.next_after cursor && page.has_more

-- `fetch n after limit` is what the n-th call of `fetchPage` settles to, so that a server may
-- answer the same question differently later.
abbrev pub Fetch : Type 0
Fetch = ℕ → ℕ → ℕ → Outcome String MonitoringEvents

abbrev pub batch_of : Reader → MonitoringEventBatch
batch_of r = record { events = r.events; next_after = r.cursor; reset = r.reset }

module _ (fetch : Fetch) (limit : ℕ) where
  -- The loop, on fuel: `none` means that it is still running.
  unfoldable pub read_loop : ℕ → ℕ → Reader → Option (Outcome ReadError MonitoringEventBatch)
  unfolding absorb is_stuck
  read_loop zero round r = none
  read_loop (suc fuel) round r = elim (fetch round r.cursor limit) [
    | throw reason ↦ some (throw (fetch_failed reason))
    | ok page ↦
        let next = read_loop fuel (suc round) (absorb page r) in
        if is_stuck page r.cursor
        then some (throw cursor_did_not_advance)
        else if page.has_more
        then next
        else some (ok (batch_of (absorb page r)))
  ]

  unfoldable pub read_monitoring_events : ℕ → ℕ → Option (Outcome ReadError MonitoringEventBatch)
  unfolding read_loop
  read_monitoring_events fuel after =
      read_loop fuel 0 (record { cursor = after; reset = false; events = []; seen = [] })

-- `Map.prototype.set`: a key that is there keeps its place.
unfoldable pub set : MonitoringEvent → List MonitoringEvent → List MonitoringEvent
set event [] = event ∷ []
set event (x ∷ by_id) = if nat_eq x.id event.id then event ∷ by_id else x ∷ set event by_id

unfoldable pub set_all : List MonitoringEvent → List MonitoringEvent → List MonitoringEvent
unfolding set
set_all [] by_id = by_id
set_all (event ∷ rest) by_id = set_all rest (set event by_id)

-- `Array.prototype.sort` by the comparison `left.id - right.id`, which is stable.
unfoldable pub insert : MonitoringEvent → List MonitoringEvent → List MonitoringEvent
insert event [] = event ∷ []
insert event (x ∷ sorted) =
    if leb event.id x.id then event ∷ x ∷ sorted else x ∷ insert event sorted

unfoldable pub sort : List MonitoringEvent → List MonitoringEvent
unfolding insert
sort [] = []
sort (event ∷ rest) = insert event (sort rest)

-- `slice(-capacity)`: `slice(-0)` is the whole array.
unfoldable pub slice_last : ℕ → List MonitoringEvent → List MonitoringEvent
slice_last capacity l = if nat_eq capacity 0 then l else drop (length l - capacity) l

unfoldable pub merge_monitoring_events :
    List MonitoringEvent → List MonitoringEvent → Bool → ℕ → List MonitoringEvent
merge_monitoring_events current incoming reset capacity =
    slice_last capacity (sort (set_all incoming (if reset then [] else set_all current [])))
