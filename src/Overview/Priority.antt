-- ===== src/Overview/Priority.antt =====
-- When the overview calls the relay stable.
use relay_lifeline.Prelude.{
  ◌≡◌, ◌↔◌, inl, inr, refl, sym, ◌∙◌, ap, Bool, true, false, not, List, [], ◌∷◌, Option, none, some,
  String, if◌then◌else◌, ◌==◌, String_keys, filter, find, take, Bool-cases, every,
}
use relay_lifeline.Overview.{
  Request, OpenIncident, ShownAlert, Panel, PriorityState, request_state, paused_state,
  incident_state, waiting_state, alert_state, stable_state, selected_by, is_open_alert, waits,
  first, or_other, is_there, priority_state,
}

-- Nothing is paused, no request is listed, and every incident and every alert is resolved.
abbrev pub IsQuiet : Panel → Type 0
IsQuiet p =
    (p.paused ≡ false)
    × (p.requests ≡ [])
    × (every (λ i. i.state == "resolved") p.incidents ≡ true)
    × (every (λ a. not (is_open_alert a)) p.alerts ≡ true)

no_incident :
    (all : List OpenIncident)
    → is_there (find (λ i. not (i.state == "resolved")) all)
      ≡ not (every (λ i. i.state == "resolved") all)
no_incident [] = refl
no_incident (i ∷ rest) = elim (Bool-cases (i.state == "resolved")) [
  | inl done ↦ rw done (no_incident rest)
  | inr other ↦ rw other (refl)
]

no_alert :
    (all : List ShownAlert)
    → is_there (first (take 2 (filter is_open_alert all)))
      ≡ not (every (λ a. not (is_open_alert a)) all)
no_alert [] = refl
no_alert (a ∷ rest) = elim (Bool-cases (is_open_alert a)) [
  | inl shown ↦ rw shown (refl)
  | inr done ↦ rw done (no_alert rest)
]

no_selection : (id : Option String) → selected_by id [] ≡ none
unfolding selected_by
no_selection none = refl
no_selection (some id) = elim (Bool-cases (id == "")) [ inl e ↦ rw e (refl) | inr e ↦ rw e (refl) ]

abbrev pub chosen : Bool → Bool → Bool → Bool → Bool → Bool → PriorityState
chosen s p i w r a =
    if s
    then request_state
    else if p
    then paused_state
    else if i
    then incident_state
    else if w
    then waiting_state
    else if r
    then request_state
    else if a
    then alert_state
    else stable_state

AllFalse : Bool → Bool → Bool → Bool → Bool → Bool → Type 0
AllFalse s p i w r a = (p ≡ false) × (i ≡ false) × (r ≡ false) × (a ≡ false)

chosen-AllFalse : (s p i w r a : Bool) → chosen s p i w r a ≡ stable_state → AllFalse s p i w r a
unfolding AllFalse
chosen-AllFalse true p i w r a e = absurd (let no : ⊥ = cc in no)
chosen-AllFalse false true i w r a e = absurd (let no : ⊥ = cc in no)
chosen-AllFalse false false true w r a e = absurd (let no : ⊥ = cc in no)
chosen-AllFalse false false false true r a e = absurd (let no : ⊥ = cc in no)
chosen-AllFalse false false false false true a e = absurd (let no : ⊥ = cc in no)
chosen-AllFalse false false false false false true e = absurd (let no : ⊥ = cc in no)
chosen-AllFalse false false false false false false e = (refl, refl, refl, refl)

none_shown :
    (s w : Option Request) (all : List Request)
    → is_there (or_other s (or_other w (first all))) ≡ false
    → all ≡ []
none_shown s w [] e = refl
none_shown (some x) w (r ∷ all) e = absurd (let no : ⊥ = cc in no)
none_shown none (some x) (r ∷ all) e = absurd (let no : ⊥ = cc in no)
none_shown none none (r ∷ all) e = absurd (let no : ⊥ = cc in no)

true_of_not : (b : Bool) → not b ≡ false → b ≡ true
true_of_not true e = refl
true_of_not false e = sym e

chosen-stable :
    {s p i w r a : Bool}
    → s ≡ false
    → p ≡ false
    → i ≡ false
    → w ≡ false
    → r ≡ false
    → a ≡ false
    → chosen s p i w r a ≡ stable_state
chosen-stable es ep ei ew er ea = rw (es, ep, ei, ew, er, ea) (refl)

unselected : (id : Option String) → is_there (selected_by id []) ≡ false
unselected id = ap is_there (no_selection id)

unshown :
    (id : Option String) → is_there (or_other (selected_by id []) (or_other none none)) ≡ false
unshown id =
    ap (λ chosen_one. is_there (or_other chosen_one (or_other none none))) (no_selection id)

-- The overview is stable exactly if nothing is paused, no request is listed, and no incident and no
-- alert is open.
pub priority_state-IsQuiet_iff : (p : Panel) → (priority_state p ≡ stable_state) ↔ IsQuiet p
unfolding priority_state AllFalse
priority_state-IsQuiet_iff p = (
  (λ e.
      let (not_paused, incidents, requests, alerts) =
        chosen-AllFalse (is_there (selected_by p.selected_id p.requests)) _ _
          (is_there (find waits p.requests)) _ _ e in
      (
        not_paused,
        none_shown (selected_by p.selected_id p.requests) (find waits p.requests) p.requests
            requests,
        true_of_not _ (sym (no_incident p.incidents) ∙ incidents),
        true_of_not _ (sym (no_alert p.alerts) ∙ alerts),
      )),
  (λ (not_paused, none_listed, incidents, alerts).
      chosen-stable
        (ap (λ all. is_there (selected_by p.selected_id all)) none_listed
          ∙ unselected p.selected_id)
        not_paused (no_incident p.incidents ∙ ap not incidents)
        (ap (λ all. is_there (find waits all)) none_listed)
        (ap
            (λ all.
              is_there
                (or_other (selected_by p.selected_id all) (or_other (find waits all) (first all))))
            none_listed
          ∙ unshown p.selected_id)
        (no_alert p.alerts ∙ ap not alerts)),
)
