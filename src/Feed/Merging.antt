-- ===== src/Feed/Merging.antt =====
-- mergeMonitoringEvents (web/src/eventFeed.ts): the bound, the order and the contents of the list
-- that the console keeps.
use relay_lifeline.Prelude.{
  ℕ, ◌-◌, ◌≤◌, ◌<◌, ◌≡◌, refl, Bool, true, false, List, [], Option, none, arith, nat_eq, leb, ◌∙◌,
  if◌then◌else◌, Bool-cases, inl, inr, ◌⊎◌, All, length, length-drop,
}
use relay_lifeline.Feed.{MonitoringEvent, set_all, slice_last, merge_monitoring_events}
use relay_lifeline.Feed.Dedup.{Distinct}
use relay_lifeline.Feed.Order.{
  get, or_else, latest, Ascending, set_all-Distinct, get-set_all, sort-Ascending, get-sort,
  get-drop, drop-Ascending,
}

slice_last-Ascending :
    (n : ℕ) (l : List MonitoringEvent)
    → Ascending l
    → Ascending (slice_last n l) × (0 < n → length (slice_last n l) ≤ n)
unfolding slice_last
slice_last-Ascending n l up = elim (Bool-cases (nat_eq n 0)) [
  | inl zero_n ↦ rw zero_n (up, λ h. absurd (ground arith))
  | inr some_n ↦
      rw some_n
        (drop-Ascending (length l - n) l up, λ h. omega (arith, length-drop (length l - n) l))
]

-- An identifier is found as before the slice, or the slice is full of newer ones.
get-slice_last :
    (k n : ℕ) (l : List MonitoringEvent)
    → Ascending l
    → (get k (slice_last n l) ≡ get k l)
      ⊎ ((get k (slice_last n l) ≡ none)
          × All (λ e. k < e.id) (slice_last n l)
          × (length (slice_last n l) ≡ n))
unfolding slice_last
get-slice_last k n l up = elim (Bool-cases (nat_eq n 0)) [
  | inl zero_n ↦ rw zero_n (inl refl)
  | inr some_n ↦ rw some_n (elim (Bool-cases (leb (length l) n)) [
    | inl short ↦ let none_cut : length l - n ≡ 0 = ground arith in inl (rw none_cut refl)
    | inr long ↦ elim (get-drop k (length l - n) l up) [
      | inl same ↦ inl same
      | inr (gone, newer) ↦ inr (gone, newer, ground (arith, length-drop (length l - n) l))
    ]
  ])
]

-- The list before the slice.
abbrev everything : List MonitoringEvent → List MonitoringEvent → Bool → List MonitoringEvent
everything current incoming reset = set_all incoming (if reset then [] else set_all current [])

everything-Distinct :
    (current incoming : List MonitoringEvent) (reset : Bool)
    → Distinct (everything current incoming reset)
everything-Distinct current incoming true = set_all-Distinct incoming [] tt
everything-Distinct current incoming false =
    set_all-Distinct incoming _ (set_all-Distinct current [] tt)

-- What is known of an identifier: the latest incoming event, else the latest current one unless
-- the feed was reset.
abbrev pub known : ℕ → List MonitoringEvent → List MonitoringEvent → Bool → Option MonitoringEvent
known k current incoming reset =
    or_else (latest k incoming) (if reset then none else latest k current)

get-everything :
    (k : ℕ) (current incoming : List MonitoringEvent) (reset : Bool)
    → get k (everything current incoming reset) ≡ known k current incoming reset
get-everything k current incoming true = get-set_all k incoming []
get-everything k current incoming false =
    ground (arith, get-set_all k incoming (set_all current []), get-set_all k current [])

-- The merged list is strictly ascending by identifier, whatever the lists hold, and has no more
-- events than a capacity that is not zero.
pub merge-Ascending :
    (current incoming : List MonitoringEvent) (reset : Bool) (capacity : ℕ)
    → Ascending (merge_monitoring_events current incoming reset capacity)
      × (0 < capacity → length (merge_monitoring_events current incoming reset capacity) ≤ capacity)
unfolding merge_monitoring_events
merge-Ascending current incoming reset capacity =
    slice_last-Ascending capacity _ (sort-Ascending _ (everything-Distinct current incoming reset))

-- For every identifier the merged list holds what is known of it, or nothing: then the list is
-- full, and all its events are newer.
pub get-merge :
    (k : ℕ) (current incoming : List MonitoringEvent) (reset : Bool) (capacity : ℕ)
    → let merged = merge_monitoring_events current incoming reset capacity in
      (get k merged ≡ known k current incoming reset)
      ⊎ ((get k merged ≡ none) × All (λ e. k < e.id) merged × (length merged ≡ capacity))
unfolding merge_monitoring_events
get-merge k current incoming reset capacity =
    let d = everything-Distinct current incoming reset in
    let same = get-sort k _ d ∙ get-everything k current incoming reset in
    elim (get-slice_last k capacity _ (sort-Ascending _ d)) [
      | inl kept ↦ inl (kept ∙ same)
      | inr cut ↦ inr cut
    ]
