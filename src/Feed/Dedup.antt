-- ===== src/Feed/Dedup.antt =====
-- The inner loop of readMonitoringEvents (web/src/eventFeed.ts) against the first occurrences of
-- the identifiers in a list of events.
use mathlib.Core.List.{append_assoc, append-nil, map-append}
use relay_lifeline.Prelude.{
  ℕ, ◌≡◌, refl, ◌≢◌, true, false, List, [], ◌∷◌, ◌++◌, map, arith, if◌then◌else◌, has, ℕ_keys, All,
  Bool-cases, inl, inr, ◌⊎◌, subst,
}
use relay_lifeline.Feed.{MonitoringEvent, Reader, note_event, collect}

abbrev pub ids : List MonitoringEvent → List ℕ
ids = map (λ e. e.id)

-- Drops each event whose identifier stands in `seen` or earlier in the list.
unfoldable pub first_occurrences : List ℕ → List MonitoringEvent → List MonitoringEvent
first_occurrences seen [] = []
first_occurrences seen (e ∷ es) =
    if has e.id seen
    then first_occurrences seen es
    else e ∷ first_occurrences (seen ++ e.id ∷ []) es

pub first_occurrences-append :
    (seen : List ℕ) (xs ys : List MonitoringEvent)
    → first_occurrences seen (xs ++ ys)
      ≡ first_occurrences seen xs ++ first_occurrences (seen ++ ids (first_occurrences seen xs)) ys
unfolding first_occurrences
first_occurrences-append seen [] ys = rw (append-nil seen)
first_occurrences-append seen (x ∷ xs) ys = elim (Bool-cases (has x.id seen)) [
  | inl old ↦ rw old (first_occurrences-append seen xs ys)
  | inr new ↦ rw new (rw (first_occurrences-append (seen ++ x.id ∷ []) xs ys) (simp (append_assoc)))
]

-- One event: unseen, it goes to the end of both lists.
note_event-cases :
    (e : MonitoringEvent) (r : Reader)
    → ((has e.id r.seen ≡ true) × (note_event e r ≡ r))
      ⊎ ((has e.id r.seen ≡ false)
          × (note_event e r ≡ record r { seen = r.seen ++ e.id ∷ []; events = r.events ++ e ∷ [] }))
unfolding note_event
note_event-cases e r = elim (Bool-cases (has e.id r.seen)) [
  | inl old ↦ inl (old, rw old)
  | inr new ↦ inr (new, rw new)
]

pub collect_events :
    (es : List MonitoringEvent) (r : Reader)
    → (collect es r).events ≡ r.events ++ first_occurrences r.seen es
unfolding collect first_occurrences
collect_events [] r = rw (append-nil r.events)
collect_events (e ∷ es) r = elim (note_event-cases e r) [
  | inl (old, same) ↦ rw (same, collect) (rw old (collect_events es r))
  | inr (new, grown) ↦
      rw (collect_events es (note_event e r)) (rw (grown, new) (append_assoc r.events (e ∷ []) _))
]

-- `seen` holds the identifiers of `events`, in their order.
pub collect_seen :
    (es : List MonitoringEvent) (r : Reader)
    → r.seen ≡ ids r.events
    → (collect es r).seen ≡ ids (collect es r).events
unfolding collect
collect_seen [] r h = h
collect_seen (e ∷ es) r h = elim (note_event-cases e r) [
  | inl (old, same) ↦ rw (same, collect) (collect_seen es r h)
  | inr (new, grown) ↦
      collect_seen es (note_event e r)
        (rw grown (rw (h, map-append (λ (x : MonitoringEvent). x.id) r.events (e ∷ []))))
]

-- Neither the cursor nor the reset flag depends on the events of a page.
pub collect_rest :
    (es : List MonitoringEvent) (r : Reader)
    → ((collect es r).reset ≡ r.reset) × ((collect es r).cursor ≡ r.cursor)
unfolding collect
collect_rest [] r = (refl, refl)
collect_rest (e ∷ es) r = elim (note_event-cases e r) [
  | inl (old, same) ↦ rw (same, collect) (collect_rest es r)
  | inr (new, grown) ↦ rw (grown, collect) (collect_rest es _)
]

-- No identifier occurs twice.
abbrev pub Distinct : List MonitoringEvent → Type 0
Distinct [] = Unit
Distinct (e ∷ es) = All (λ y. e.id ≢ y.id) es × Distinct es

has-append_self : (k : ℕ) (seen : List ℕ) → has k (seen ++ k ∷ []) ≡ true
has-append_self k [] = ground arith
has-append_self k (x ∷ xs) = ground (arith, has-append_self k xs)

has-append_left : (k j : ℕ) (seen : List ℕ) → has k seen ≡ true → has k (seen ++ j ∷ []) ≡ true
has-append_left k j [] h = cc
has-append_left k j (x ∷ xs) h = ground (arith, has-append_left k j xs)

first_occurrences-ne :
    (k : ℕ) (seen : List ℕ) (es : List MonitoringEvent)
    → has k seen ≡ true
    → All (λ y. k ≢ y.id) (first_occurrences seen es)
unfolding first_occurrences
first_occurrences-ne k seen [] h = tt
first_occurrences-ne k seen (e ∷ es) h = elim (Bool-cases (has e.id seen)) [
  | inl old ↦ rw old (first_occurrences-ne k seen es h)
  | inr new ↦ rw new (
    (λ p. cc (subst (λ i. has i seen ≡ true) p h)),
    first_occurrences-ne k (seen ++ e.id ∷ []) es (has-append_left k e.id seen h),
  )
]

pub first_occurrences-Distinct :
    (seen : List ℕ) (es : List MonitoringEvent) → Distinct (first_occurrences seen es)
unfolding first_occurrences
first_occurrences-Distinct seen [] = tt
first_occurrences-Distinct seen (e ∷ es) = elim (Bool-cases (has e.id seen)) [
  | inl old ↦ rw old (first_occurrences-Distinct seen es)
  | inr new ↦ rw new (
    first_occurrences-ne e.id (seen ++ e.id ∷ []) es (has-append_self e.id seen),
    first_occurrences-Distinct (seen ++ e.id ∷ []) es,
  )
]
