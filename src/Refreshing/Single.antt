-- ===== src/Refreshing/Single.antt =====
-- The loads of the event feed that are under way, and the slot of refreshEvents in web/src/App.tsx.
use relay_lifeline.Prelude.{
  ℕ, ◌≡◌, refl, List, [], ◌∷◌, Option, none, some, Outcome, ok, throw, ℕ_keys, arith,
}
use relay_lifeline.Feed.{MonitoringEvent, MonitoringEventBatch, ReadError}
use relay_lifeline.Refreshing.{
  Load, EventState, no_events, refresh_from, refresh_events, take_batch, land, go_on, end_session,
  FeedEvent, refresh, answered, resumed, ended, react, react_all,
}

-- The slot holds the one promise that is running or has landed, and is empty if there is none.
abbrev pub OneLoad : Option ℕ → List Load → List ℕ → Type 0
OneLoad none [] [] = Unit
OneLoad (some number) (l ∷ []) [] = l.number ≡ number
OneLoad (some number) [] (n ∷ []) = n ≡ number
OneLoad _ _ _ = ⊥

abbrev pub IsSingle : EventState → Type 0
IsSingle s = OneLoad s.slot s.running s.landed

-- The state from its parts.
abbrev state_of : ℕ → List MonitoringEvent → Option ℕ → List Load → List ℕ → ℕ → EventState
state_of cursor events slot running landed next_number = record {
  cursor = cursor;
  events = events;
  slot = slot;
  running = running;
  landed = landed;
  next_number = next_number;
}

module _ (c : ℕ) (es : List MonitoringEvent) (n : ℕ) where
  refresh-OneLoad :
      (slot : Option ℕ) (running : List Load) (landed : List ℕ)
      → OneLoad slot running landed
      → IsSingle (refresh_from slot (state_of c es slot running landed n))
  unfolding refresh_from
  refresh-OneLoad none [] [] h = refl
  refresh-OneLoad none [] (x ∷ xs) h = absurd h
  refresh-OneLoad none (x ∷ xs) landed h = absurd h
  refresh-OneLoad (some number) running landed h = h

  land-OneLoad :
      (number : ℕ) (outcome : Outcome ReadError MonitoringEventBatch) (slot : Option ℕ)
      (running : List Load) (landed : List ℕ)
      → OneLoad slot running landed
      → IsSingle (land number outcome (state_of c es slot running landed n))
  unfolding land take_batch
  land-OneLoad number outcome none [] [] h = h
  land-OneLoad number outcome none [] (x ∷ xs) h = absurd h
  land-OneLoad number outcome none (x ∷ xs) landed h = absurd h
  land-OneLoad number outcome (some k) [] landed h = h
  land-OneLoad number outcome (some k) (l ∷ []) (x ∷ xs) h = absurd h
  land-OneLoad number outcome (some k) (l ∷ m ∷ ls) landed h = absurd h
  land-OneLoad number (throw why) (some k) (l ∷ []) [] h = ground arith
  land-OneLoad number (ok batch) (some k) (l ∷ []) [] h = ground arith

  go_on-OneLoad :
      (number : ℕ) (slot : Option ℕ) (running : List Load) (landed : List ℕ)
      → OneLoad slot running landed
      → IsSingle (go_on number (state_of c es slot running landed n))
  unfolding go_on
  go_on-OneLoad number none [] [] h = h
  go_on-OneLoad number none [] (x ∷ xs) h = absurd h
  go_on-OneLoad number none (x ∷ xs) landed h = absurd h
  go_on-OneLoad number (some k) (l ∷ []) [] h = h
  go_on-OneLoad number (some k) (l ∷ []) (x ∷ xs) h = absurd h
  go_on-OneLoad number (some k) (l ∷ m ∷ ls) landed h = absurd h
  go_on-OneLoad number (some k) [] [] h = absurd h
  go_on-OneLoad number (some k) [] (x ∷ y ∷ ys) h = absurd h
  go_on-OneLoad number (some k) [] (x ∷ []) h = ground arith

react-IsSingle : (s : EventState) (event : FeedEvent) → IsSingle s → IsSingle (react s event)
unfolding react refresh_events end_session
react-IsSingle s refresh h =
    refresh-OneLoad s.cursor s.events s.next_number s.slot s.running s.landed h
react-IsSingle s (answered number outcome) h =
    land-OneLoad s.cursor s.events s.next_number number outcome s.slot s.running s.landed h
react-IsSingle s (resumed number) h =
    go_on-OneLoad s.cursor s.events s.next_number number s.slot s.running s.landed h
react-IsSingle s ended h = h

all-IsSingle :
    (s : EventState) (events : List FeedEvent) → IsSingle s → IsSingle (react_all s events)
unfolding react_all
all-IsSingle s [] h = h
all-IsSingle s (event ∷ rest) h = all-IsSingle (react s event) rest (react-IsSingle s event h)

-- Whatever refreshes, answers and ends of sessions come in whatever order, at most one load of the
-- event feed is under way, and the slot holds that one, or none if there is none.
pub react_all-IsSingle : (events : List FeedEvent) → IsSingle (react_all no_events events)
unfolding no_events
react_all-IsSingle events = all-IsSingle no_events events tt

-- What the load that holds the slot still needs.
abbrev pub rest_of : Outcome ReadError MonitoringEventBatch → Option ℕ → List FeedEvent
rest_of outcome none = []
rest_of outcome (some number) = answered number outcome ∷ resumed number ∷ []

-- A refresh starts a load from the cursor, and nothing else is under way.
abbrev pub Starts : EventState → Type 0
Starts s = (refresh_events s).running ≡ record { number = s.next_number; from = s.cursor } ∷ []

free-OneLoad :
    (c : ℕ) (es : List MonitoringEvent) (n : ℕ) (outcome : Outcome ReadError MonitoringEventBatch)
    (slot : Option ℕ) (running : List Load) (landed : List ℕ)
    → OneLoad slot running landed
    → Starts (react_all (state_of c es slot running landed n) (rest_of outcome slot))
unfolding react_all react land take_batch go_on refresh_events refresh_from
free-OneLoad c es n outcome none [] [] h = refl
free-OneLoad c es n outcome none [] (x ∷ xs) h = absurd h
free-OneLoad c es n outcome none (x ∷ xs) landed h = absurd h
free-OneLoad c es n outcome (some k) (l ∷ []) (x ∷ xs) h = absurd h
free-OneLoad c es n outcome (some k) (l ∷ m ∷ ls) landed h = absurd h
free-OneLoad c es n outcome (some k) [] [] h = absurd h
free-OneLoad c es n outcome (some k) [] (x ∷ y ∷ ys) h = absurd h
free-OneLoad c es n (throw why) (some k) [] (x ∷ []) h = ground arith
free-OneLoad c es n (ok batch) (some k) [] (x ∷ []) h = ground arith
free-OneLoad c es n (throw why) (some k) (l ∷ []) [] h = ground arith
free-OneLoad c es n (ok batch) (some k) (l ∷ []) [] h = ground arith

-- Whatever has happened, the feed is not stuck: once the load that is under way, if there is one, is
-- answered, by a batch or an error, and its caller has gone on, the next refresh starts a new load from
-- the cursor, and no other is under way.
pub react_all-Starts :
    (events : List FeedEvent) (outcome : Outcome ReadError MonitoringEventBatch)
    → Starts
        (react_all (react_all no_events events) (rest_of outcome (react_all no_events events).slot))
react_all-Starts events outcome =
    let s = react_all no_events events in
    free-OneLoad s.cursor s.events s.next_number outcome s.slot s.running s.landed
      (react_all-IsSingle events)
