-- ===== src/Search/Loading/Overtaken.antt =====
-- Which answers the search takes.
use relay_lifeline.Prelude.{
  if-P, ℕ, suc, ◌<◌, ◌≡◌, ◌⊎◌, refl, sym, subst, ap, ◌∙◌, inl, inr, Bool, true, not, ◌&&◌, List, [],
  ◌∷◌, Option, none, some, String, find, filter, ◌==◌, String_keys, All, All-filter, Bool-cases,
  Option-cases, arith,
}
use relay_lifeline.Search.Loading.{
  LoadResults, SentLoad, SearchLoads, nothing_loaded, take_results, has_number, is_effect,
  answer_load, same_flag, fire, restart, SearchEvent, changed, elapsed, loaded, on_search,
  on_searches,
}

-- A load that was sent has a number that was given out, and the query of the search if its effect is not
-- disposed.
abbrev pub IsCurrent : String → Option ℕ → ℕ → SentLoad → Type 0
IsCurrent query effect next s = (s.number < next) × (effect ≡ some s.number → s.query ≡ query)

abbrev EffectBelow : Option ℕ → ℕ → Type 0
EffectBelow none next = Unit
EffectBelow (some number) next = number < next

abbrev pub AreCurrent : SearchLoads → Type 0
AreCurrent l =
    All (IsCurrent l.query l.effect l.next_number) l.sent × EffectBelow l.effect l.next_number

-- The records that a search shows beyond those that it was given.
abbrev pub SameRecords : SearchLoads → SearchLoads → Type 0
SameRecords l t =
    (t.logs ≡ l.logs)
    × (t.captures ≡ l.captures)
    × (t.remote_history ≡ l.remote_history)
    × (t.remote_incidents ≡ l.remote_incidents)

restarted-All :
    (query : String) (next : ℕ) (query' : String) (effect : Option ℕ) (sent : List SentLoad)
    → All (IsCurrent query' effect next) sent
    → All (IsCurrent query (some next) (suc next)) sent
restarted-All query next query' effect [] h = tt
restarted-All query next query' effect (s ∷ rest) h = (
  (omega (arith, h.0), (λ e. let same : next ≡ s.number = cc in absurd (omega (arith, h.0, same)))),
  restarted-All query next query' effect rest h.1,
)

disposed-All :
    (query : String) (next : ℕ) (query' : String) (effect : Option ℕ) (sent : List SentLoad)
    → All (IsCurrent query' effect next) sent
    → All (IsCurrent query none next) sent
disposed-All query next query' effect [] h = tt
disposed-All query next query' effect (s ∷ rest) h =
    ((h.0.0, (λ e. let no : ⊥ = cc in absurd no)), disposed-All query next query' effect rest h.1)

find-All :
    (P : SentLoad → Type 0) (p : SentLoad → Bool) (xs : List SentLoad) (s : SentLoad)
    → find p xs ≡ some s
    → All P xs
    → P s × (p s ≡ true)
find-All P p [] s e h = cc
find-All P p (x ∷ xs) s e h = elim (Bool-cases (p x)) [
  | inl found ↦
      let e' : some x ≡ some s = rw found at e in
      let same : x ≡ s = cc in subst (λ y. P y × (p y ≡ true)) same (h.0, found)
  | inr other ↦ let e' : find p xs ≡ some s = rw other at e in find-All P p xs s e' h.1
]

effect_of : (number : ℕ) (effect : Option ℕ) → is_effect number effect ≡ true → effect ≡ some number
effect_of number none e = cc
effect_of number (some current) e = ground (arith, e)

module _ (long_enough : String → Bool) where
  restart-AreCurrent :
      (query : String) (is_open : Bool) (l : SearchLoads)
      → AreCurrent l
      → AreCurrent (restart long_enough query is_open l)
  unfolding restart
  restart-AreCurrent query is_open l h =
      if-P AreCurrent (is_open && long_enough query)
        (λ _. (restarted-All query l.next_number l.query l.effect l.sent h.0, omega arith))
        (λ _. (disposed-All query l.next_number l.query l.effect l.sent h.0, tt))

  fire-AreCurrent :
      (effect : Option ℕ) (l : SearchLoads)
      → l.effect ≡ effect
      → AreCurrent l
      → AreCurrent (fire effect l)
  unfolding fire
  fire-AreCurrent none l e h = h
  fire-AreCurrent (some number) l e h =
      if-P AreCurrent l.timer
        (λ _. (((subst (λ o. EffectBelow o l.next_number) e h.1, (λ _. refl)), h.0), h.1)) (λ _. h)

  answer-AreCurrent :
      (number : ℕ) (results : LoadResults) (l : SearchLoads)
      → AreCurrent l
      → AreCurrent (answer_load number results l)
  unfolding answer_load take_results
  answer-AreCurrent number results l h =
      let left : All (IsCurrent l.query l.effect l.next_number)
          (filter (λ (s : SentLoad). not (has_number number s)) l.sent) =
        All-filter (IsCurrent l.query l.effect l.next_number)
          (λ (s : SentLoad). not (has_number number s)) l.sent h.0 in
      elim (Option-cases (find (has_number number) l.sent)) [
        | inl e ↦ rw (e, answer_load) h
        | inr (s, e) ↦
            rw (e, answer_load)
              (if-P AreCurrent (is_effect number l.effect) (λ _. (left, h.1)) (λ _. (left, h.1)))
      ]

  on_searches-AreCurrent :
      (l : SearchLoads) (events : List (SearchEvent long_enough))
      → AreCurrent l
      → AreCurrent (on_searches long_enough l events)
  unfolding on_searches on_search
  on_searches-AreCurrent l [] h = h
  on_searches-AreCurrent l (changed query is_open ∷ rest) h =
      on_searches-AreCurrent (on_search long_enough l (changed query is_open)) rest (
        if-P AreCurrent (l.query == query && same_flag l.is_open is_open) (λ _. h)
          (λ _. restart-AreCurrent query is_open l h))
  on_searches-AreCurrent l (elapsed ∷ rest) h =
      on_searches-AreCurrent (fire l.effect l) rest (fire-AreCurrent l.effect l refl h)
  on_searches-AreCurrent l (loaded number results ∷ rest) h =
      on_searches-AreCurrent (answer_load number results l) rest
        (answer-AreCurrent number results l h)

  answered_current :
      (l : SearchLoads) (number : ℕ) (results : LoadResults) (s : SentLoad)
      → AreCurrent l
      → find (has_number number) l.sent ≡ some s
      → SameRecords l (answer_load number results l)
        ⊎ ((s.query ≡ l.query) × (l.effect ≡ some number))
  unfolding answer_load
  answered_current l number results s h e = elim (Bool-cases (is_effect number l.effect)) [
    | inl live ↦
        let (current, mine) =
          find-All (IsCurrent l.query l.effect l.next_number) (has_number number) l.sent s e h.0 in
        let same : s.number ≡ number = ground (arith, mine) in
        let held : l.effect ≡ some number = effect_of number l.effect live in
        inr (current.1 (held ∙ ap some (sym same)), held)
    | inr over ↦ inl (rw (e, over, answer_load) (refl, refl, refl, refl))
  ]

  -- Whatever the user types and whatever answers arrive, in whatever order: an answer changes what the
  -- search has loaded only if it is to a load for the query that is shown, of the last change; all
  -- others are dropped.
  pub on_searches-current :
      (events : List (SearchEvent long_enough)) (number : ℕ) (results : LoadResults) (s : SentLoad)
      → find (has_number number) (on_searches long_enough nothing_loaded events).sent ≡ some s
      → let l = on_searches long_enough nothing_loaded events in
        SameRecords l (on_search long_enough l (loaded number results))
        ⊎ ((s.query ≡ l.query) × (l.effect ≡ some number))
  unfolding on_search nothing_loaded
  on_searches-current events number results s e =
      answered_current (on_searches long_enough nothing_loaded events) number results s
        (on_searches-AreCurrent nothing_loaded events (tt, tt)) e
