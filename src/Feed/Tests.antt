-- ===== src/Feed/Tests.antt =====
-- The event feed on the inputs of web/src/test/event-feed.test.ts, and its theorems at them.
use relay_lifeline.Prelude.{
  ℕ, ◌≤◌, ◌<◌, ◌≡◌, refl, ◌≢◌, ◌⊎◌, Bool, true, false, List, [], ◌∷◌, Option, none, some, arith, ok,
  throw, All, length, nat_eq, if◌then◌else◌,
}
use relay_lifeline.Feed.{
  MonitoringEvent, MonitoringEvents, MonitoringEventBatch, Fetch, cursor_did_not_advance,
  note_event, read_monitoring_events, set, merge_monitoring_events, set_all, sort, slice_last,
}
use relay_lifeline.Feed.Trace.{Reads, last, next, batch_since}
use relay_lifeline.Feed.Reading.{read-batch, read_of_Reads, read_total, Fails, read-Fails}
use relay_lifeline.Feed.Order.{get, Ascending}
use relay_lifeline.Feed.Merging.{known, merge-Ascending, get-merge}

abbrev event : ℕ → MonitoringEvent
event n = record {
  id = n;
  time = "";
  code = "";
  category = none;
  request_id = none;
  status_code = none;
  attempt = none;
}

abbrev page : List MonitoringEvent → ℕ → Bool → Option Bool → MonitoringEvents
page es after more gap = record {
  events = es;
  next_after = after;
  oldest_after = none;
  has_more = more;
  has_gap = gap;
}

abbrev first_page : MonitoringEvents
first_page = page (event 1 ∷ event 2 ∷ []) 2 true none

abbrev second_page : MonitoringEvents
second_page = page (event 2 ∷ event 3 ∷ []) 3 false none

-- Two pages, of which the second repeats an event.
abbrev paged : Fetch
paged n after limit = if nat_eq n 0 then ok first_page else ok second_page

abbrev stuck : Fetch
stuck n after limit = ok (page [] 5 true none)

abbrev whole : MonitoringEventBatch
whole = record { events = event 1 ∷ event 2 ∷ event 3 ∷ []; next_after = 3; reset = false }

feed : Unit {0}
unfolding read_monitoring_events note_event merge_monitoring_events set_all set sort slice_last
feed = tt

follows_every_page : read_monitoring_events paged 2 2 0 ≡ some (ok whole)
unfolding feed
follows_every_page = refl

rejects_stuck : read_monitoring_events stuck 200 1 5 ≡ some (throw cursor_did_not_advance)
unfolding feed
rejects_stuck = refl

keeps_tail :
    merge_monitoring_events (event 1 ∷ event 101 ∷ []) (event 102 ∷ event 101 ∷ []) true 2
    ≡ event 101 ∷ event 102 ∷ []
unfolding feed
keeps_tail = refl

paged-Reads : Reads paged 2 0 0 (first_page ∷ second_page ∷ [])
paged-Reads = next first_page refl refl (omega arith) (last second_page refl refl)

read-batch_example :
    (ps : List MonitoringEvents) × Reads paged 2 0 0 ps × (whole ≡ batch_since 0 ps)
read-batch_example = read-batch paged 2 2 0 whole follows_every_page

read_of_Reads_example :
    read_monitoring_events paged 2 2 0 ≡ some (ok (batch_since 0 (first_page ∷ second_page ∷ [])))
read_of_Reads_example =
    read_of_Reads paged 2 2 0 (first_page ∷ second_page ∷ []) paged-Reads (omega arith)

paged_bound : (n c : ℕ) (p : MonitoringEvents) → paged n c 2 ≡ ok p → p.next_after ≤ 3
paged_bound n c p e = ground arith

read_total_example : read_monitoring_events paged 2 5 0 ≢ none
read_total_example = read_total paged 2 3 5 0 paged_bound (omega arith) (omega arith)

read-Fails_example : Fails stuck 200 5 cursor_did_not_advance
read-Fails_example = read-Fails stuck 200 1 5 cursor_did_not_advance rejects_stuck

merge-Ascending_example :
    Ascending (merge_monitoring_events (event 7 ∷ event 1 ∷ []) (event 5 ∷ []) false 2)
merge-Ascending_example = (merge-Ascending (event 7 ∷ event 1 ∷ []) (event 5 ∷ []) false 2).0

get-merge_example :
    let merged = merge_monitoring_events (event 7 ∷ event 1 ∷ []) (event 5 ∷ []) false 2 in
    (get 1 merged ≡ known 1 (event 7 ∷ event 1 ∷ []) (event 5 ∷ []) false)
    ⊎ ((get 1 merged ≡ none) × All (λ e. 1 < e.id) merged × (length merged ≡ 2))
get-merge_example = get-merge 1 (event 7 ∷ event 1 ∷ []) (event 5 ∷ []) false 2
