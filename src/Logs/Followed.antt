-- ===== src/Logs/Followed.antt =====
-- What the log view shows, and the bound on the filters that it remembers.
use relay_lifeline.Prelude.{
  if-P, ℕ, zero, suc, ◌≤◌, ◌≡◌, refl, sym, ap, subst, ◌∙◌, ◌++◌, Bool, false, not, List, [], ◌∷◌,
  ok, throw, length, filter, take, arith, length-take,
}
use mathlib.Core.List.{append_assoc}
use relay_lifeline.Search.{RuntimeLogEntry}
use relay_lifeline.Logs.{
  is_new, SavedLogFilter, RuntimeLogPage, Logs, opened, is_blank, same_filter, load_page, load,
  toggle_paused, save_filter, without, remove_filter, LogEvent, answered, toggled, edited, saved,
  removed, follow, follow_all,
}

-- The entries of the last page that arrived, and whether the pause has been pressed an odd number of
-- times.
abbrev pub last_page : List RuntimeLogEntry → List LogEvent → List RuntimeLogEntry
last_page now [] = now
last_page now (answered (ok page) ∷ rest) = last_page page.entries rest
last_page now (_ ∷ rest) = last_page now rest

abbrev pub pressed : Bool → List LogEvent → Bool
pressed now [] = now
pressed now (toggled ∷ rest) = pressed (not now) rest
pressed now (_ ∷ rest) = pressed now rest

-- With `page` as the last page: the rendered pause is the one that the load reads; the rendered entries
-- are those that new ones are counted against, and those of the last page unless the view is paused;
-- the count is of the entries of the last page that are not among them; and at most six filters are
-- remembered.
abbrev pub IsFollowed : List RuntimeLogEntry → Bool → Logs → Type 0
IsFollowed page paused s =
    (s.paused ≡ paused)
    × (s.paused_ref ≡ s.paused)
    × (s.entries ≡ s.displayed)
    × (s.pending ≡ page)
    × (s.paused ≡ false → s.entries ≡ page)
    × (s.new_count ≡ length (filter (is_new s.entries) page))
    × (length s.saved_filters ≤ 6)

-- No entry of a list is new to it.
old_in : (xs ys : List RuntimeLogEntry) (y : RuntimeLogEntry) → is_new (xs ++ y ∷ ys) y ≡ false
old_in [] ys y = ground arith
old_in (x ∷ xs) ys y = ground (arith, old_in xs ys y)

none_new : (before xs : List RuntimeLogEntry) → filter (is_new (before ++ xs)) xs ≡ []
none_new before [] = refl
none_new before (x ∷ xs) = rw (old_in before xs x) (
    subst (λ zs. filter (is_new zs) xs ≡ []) (append_assoc before (x ∷ []) xs)
      (none_new (before ++ x ∷ []) xs))

count_none : (page xs : List RuntimeLogEntry) → xs ≡ page → 0 ≡ length (filter (is_new xs) page)
count_none page xs e =
    subst (λ zs. 0 ≡ length (filter (is_new zs) page)) (sym e) (rw (none_new [] page) (refl))

length-without : {A : Type 0} (index : ℕ) (xs : List A) → length (without index xs) ≤ length xs
length-without index [] = omega arith
length-without zero (x ∷ xs) = omega arith
length-without (suc index) (x ∷ xs) = omega (arith, length-without index xs)

take_six : {A : Type 0} (xs : List A) → length (take 6 xs) ≤ 6
take_six xs = omega (arith, length-take 6 xs)

load_page-IsFollowed :
    (now : List RuntimeLogEntry) (paused : Bool) (page : RuntimeLogPage) (s : Logs)
    → IsFollowed now paused s
    → IsFollowed page.entries paused (load_page page s)
unfolding load_page
load_page-IsFollowed now paused page s (held, same, shown, last, latest, count, few) =
    if-P (IsFollowed page.entries paused) s.paused_ref
      (λ e. (
        held,
        same,
        shown,
        refl,
        (λ f. let no : ⊥ = cc in absurd no),
        subst
            (λ zs.
              length (filter (is_new s.displayed) page.entries)
              ≡ length (filter (is_new zs) page.entries))
            (sym shown) refl,
        few,
      ))
      (λ e. (held, same, refl, refl, (λ f. refl), count_none page.entries page.entries refl, few))

toggle_paused-IsFollowed :
    (now : List RuntimeLogEntry) (paused : Bool) (s : Logs)
    → IsFollowed now paused s
    → IsFollowed now (not paused) (toggle_paused s)
unfolding toggle_paused
toggle_paused-IsFollowed now paused s (held, same, shown, last, latest, count, few) =
    if-P (IsFollowed now (not paused)) s.paused
      (λ e.
        (ap not (sym e ∙ held), refl, refl, last, (λ f. last), count_none now s.pending last, few))
      (λ e.
        (ap not (sym e ∙ held), refl, shown, last, (λ f. let no : ⊥ = cc in absurd no), count, few))

save_filter-IsFollowed :
    (now : List RuntimeLogEntry) (paused : Bool) (s : Logs)
    → IsFollowed now paused s
    → IsFollowed now paused (save_filter s)
unfolding save_filter
save_filter-IsFollowed now paused s (held, same, shown, last, latest, count, few) =
    if-P (IsFollowed now paused) (is_blank s.current)
      (λ e. (held, same, shown, last, latest, count, few))
      (λ e. (
        held,
        same,
        shown,
        last,
        latest,
        count,
        take_six (s.current ∷ filter (λ f. not (same_filter f s.current)) s.saved_filters),
      ))

all-IsFollowed :
    (now : List RuntimeLogEntry) (paused : Bool) (s : Logs) (events : List LogEvent)
    → IsFollowed now paused s
    → IsFollowed (last_page now events) (pressed paused events) (follow_all s events)
unfolding follow_all follow load remove_filter
all-IsFollowed now paused s [] h = h
all-IsFollowed now paused s (answered (ok page) ∷ rest) h =
    all-IsFollowed page.entries paused (load_page page s) rest
      (load_page-IsFollowed now paused page s h)
all-IsFollowed now paused s (answered (throw reason) ∷ rest) h =
    all-IsFollowed now paused (record s { errors = reason ∷ s.errors }) rest h
all-IsFollowed now paused s (toggled ∷ rest) h =
    all-IsFollowed now (not paused) (toggle_paused s) rest (toggle_paused-IsFollowed now paused s h)
all-IsFollowed now paused s (edited f ∷ rest) h =
    all-IsFollowed now paused (record s { current = f }) rest h
all-IsFollowed now paused s (saved ∷ rest) h =
    all-IsFollowed now paused (save_filter s) rest (save_filter-IsFollowed now paused s h)
all-IsFollowed now paused s (removed index ∷ rest) (held, same, shown, last, latest, count, few) =
    all-IsFollowed now paused (remove_filter index s) rest (
      held,
      same,
      shown,
      last,
      latest,
      count,
      omega (arith, few, length-without index s.saved_filters),
    )

-- Whatever happens in the log view after it is opened: it is paused just if the pause was pressed an odd
-- number of times, and that is what a load reads; unless it is paused it shows the entries of the last
-- page that arrived; the number of new entries is that of the entries of the last page that are not among
-- those it shows; and at most six filters are remembered.
pub follow_all-IsFollowed :
    (initial : SavedLogFilter) (stored : List SavedLogFilter) (events : List LogEvent)
    → IsFollowed
        (last_page [] events)
        (pressed false events)
        (follow_all (opened initial stored) events)
unfolding opened
follow_all-IsFollowed initial stored events =
    all-IsFollowed [] false (opened initial stored) events
      (refl, refl, refl, refl, (λ _. refl), refl, take_six stored)
