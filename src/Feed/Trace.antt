-- ===== src/Feed/Trace.antt =====
-- What a run of readMonitoringEvents (web/src/eventFeed.ts) has read: the pages that a chain of
-- calls answered, and the batch that they stand for, said without the loop's variables.
use relay_lifeline.Prelude.{
  ℕ, suc, ◌<◌, ◌≡◌, refl, sym, Bool, true, false, List, [], ◌∷◌, ◌++◌, arith, if◌then◌else◌,
  Bool-cases, inl, inr, ◌||◌, ok,
}
use relay_lifeline.Feed.{
  MonitoringEvent, MonitoringEvents, MonitoringEventBatch, Reader, Fetch, truthy, collect, forget,
  absorb,
}
use relay_lifeline.Feed.Dedup.{
  ids, first_occurrences, first_occurrences-append, collect_events, collect_seen, collect_rest,
}

module _ (fetch : Fetch) (limit : ℕ) where
  -- The n-th call, at the cursor, answered the first page; each page but the last promised more and
  -- moved the cursor up, and the call after it was made at that cursor.
  pub data Reads : ℕ → ℕ → List MonitoringEvents → Type 0 where
    last :
        {n cursor : ℕ} (page : MonitoringEvents)
        → fetch n cursor limit ≡ ok page
        → page.has_more ≡ false
        → Reads n cursor (page ∷ [])
    next :
        {n cursor : ℕ} (page : MonitoringEvents) {pages : List MonitoringEvents}
        → fetch n cursor limit ≡ ok page
        → page.has_more ≡ true
        → cursor < page.next_after
        → Reads (suc n) page.next_after pages
        → Reads n cursor (page ∷ pages)

-- The events after the last gap, `acc` being those that came before the pages.
unfoldable pub since_gap : List MonitoringEvent → List MonitoringEvents → List MonitoringEvent
since_gap acc [] = acc
since_gap acc (p ∷ ps) = since_gap (if truthy p.has_gap then p.events else acc ++ p.events) ps

unfoldable pub any_gap : List MonitoringEvents → Bool
any_gap [] = false
any_gap (p ∷ ps) = truthy p.has_gap || any_gap ps

unfoldable pub final_cursor : ℕ → List MonitoringEvents → ℕ
final_cursor c [] = c
final_cursor c (p ∷ ps) = final_cursor p.next_after ps

-- The batch that a list of pages stands for.
unfoldable pub batch_since : ℕ → List MonitoringEvents → MonitoringEventBatch
batch_since after pages = record {
  events = first_occurrences [] (since_gap [] pages);
  next_after = final_cursor after pages;
  reset = any_gap pages;
}

unfoldable pub absorb_all : List MonitoringEvents → Reader → Reader
absorb_all [] r = r
absorb_all (p ∷ ps) r = absorb_all ps (absorb p r)

-- The reader has seen exactly the first occurrences in `acc`.
pub record Holds (acc : List MonitoringEvent) (r : Reader) : Type 0 where
  pub events : r.events ≡ first_occurrences [] acc
  pub seen : r.seen ≡ ids r.events

collect-Holds :
    (acc es : List MonitoringEvent) (r : Reader) → Holds acc r → Holds (acc ++ es) (collect es r)
collect-Holds acc es r h = record {
  events = rw (collect_events es r, h.seen, h.events) (sym (first_occurrences-append [] acc es));
  seen = collect_seen es r h.seen;
}

absorb-Holds :
    (acc : List MonitoringEvent) (p : MonitoringEvents) (r : Reader)
    → Holds acc r
    → Holds (if truthy p.has_gap then p.events else acc ++ p.events) (absorb p r)
unfolding absorb forget first_occurrences
absorb-Holds acc p r h = elim (Bool-cases (truthy p.has_gap)) [
  | inl gap ↦ rw gap (keep (collect-Holds [] p.events _ fresh))
  | inr whole ↦ rw whole (keep (collect-Holds acc p.events r h))
]
  where
    fresh : Holds [] (record r { reset = true; events = []; seen = [] })
    fresh = record { events = refl; seen = refl }

    keep :
        {es : List MonitoringEvent} {s : Reader}
        → Holds es s
        → Holds es (record s { cursor = p.next_after })
    keep k = record { events = k.events; seen = k.seen }

pub absorb_all-Holds :
    (acc : List MonitoringEvent) (ps : List MonitoringEvents) (r : Reader)
    → Holds acc r
    → Holds (since_gap acc ps) (absorb_all ps r)
unfolding absorb_all since_gap
absorb_all-Holds acc [] r h = h
absorb_all-Holds acc (p ∷ ps) r h = absorb_all-Holds _ ps (absorb p r) (absorb-Holds acc p r h)

absorb_rest :
    (p : MonitoringEvents) (r : Reader)
    → ((absorb p r).reset ≡ (r.reset || truthy p.has_gap)) × ((absorb p r).cursor ≡ p.next_after)
unfolding absorb forget
absorb_rest p r = ground (arith, (collect_rest p.events (forget p r)).0)

pub absorb_all_rest :
    (ps : List MonitoringEvents) (r : Reader)
    → ((absorb_all ps r).reset ≡ (r.reset || any_gap ps))
      × ((absorb_all ps r).cursor ≡ final_cursor r.cursor ps)
unfolding absorb_all any_gap final_cursor
absorb_all_rest [] r = ground arith
absorb_all_rest (p ∷ ps) r = ground (arith, absorb_rest p r, absorb_all_rest ps (absorb p r))
