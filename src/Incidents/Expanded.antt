-- ===== src/Incidents/Expanded.antt =====
-- What the view renders below an incident.
use relay_lifeline.Prelude.{
  suc, ◌≡◌, sym, ap, ◌∙◌, inl, inr, true, false, not, ◌∷◌, Option, none, some, String, ok,
  if◌then◌else◌, ◌==◌, String_keys, filter, Bool-cases, eq_iff,
}
use relay_lifeline.Incidents.{
  IncidentDetail, DetailRead, IncidentView, is_expanded, has_number, toggle_detail, take_detail,
  shown_detail,
}

detail_of :
    (id : String) (detail : Option IncidentDetail) (d : IncidentDetail)
    → (elim detail [ none ↦ none | some x ↦ if x.id == id then some x else none ]) ≡ some d
    → d.id ≡ id
detail_of id none d e = cc
detail_of id (some x) d e = elim (Bool-cases (x.id == id)) [
  | inl same ↦
      let e' : some x ≡ some d = rw same at e in
      let own : x ≡ d = cc in ap (λ (y : IncidentDetail). y.id) (sym own) ∙ (eq_iff x.id id).0 same
  | inr other ↦ let e' : none ≡ some d = rw other at e in cc
]

expanded_of :
    (id : String) (expanded : Option String) → is_expanded id expanded ≡ true → expanded ≡ some id
expanded_of id none e = cc
expanded_of id (some current) e = ap some ((eq_iff current id).0 e)

-- A detail that is rendered below an incident is the detail of that incident, whichever read it came from.
pub shown_detail-id :
    (id : String) (v : IncidentView) (d : IncidentDetail)
    → shown_detail id v ≡ some d
    → (d.id ≡ id) × (v.expanded_id ≡ some id)
unfolding shown_detail
shown_detail-id id v d e = elim (Bool-cases (is_expanded id v.expanded_id)) [
  | inl open_one ↦
      let e' : (elim v.detail [ none ↦ none | some x ↦ if x.id == id then some x else none ])
          ≡ some d =
        rw open_one at e in
      (detail_of id v.detail d e', expanded_of id v.expanded_id open_one)
  | inr shut ↦ let e' : none ≡ some d = rw shut at e in absurd (let no : ⊥ = cc in no)
]

-- An incident that was not expanded, and now is.
abbrev opened : String → IncidentView → IncidentView
opened id v = record v {
  expanded_id = some id;
  load_error = none;
  reads = record { number = v.next_number; id = id } ∷ v.reads;
  next_number = suc v.next_number;
}

-- The user expands `first`, then `second`, whose detail arrives first.
abbrev pub second_arrived : String → String → IncidentDetail → IncidentView → IncidentView
second_arrived first second d v =
    take_detail (suc v.next_number) (ok d) (toggle_detail second (toggle_detail first v))

module _ (v : IncidentView) (first second : String) (d : IncidentDetail)
    (shut : is_expanded first v.expanded_id ≡ false) (apart : first == second ≡ false)
    (own : d.id ≡ second) where
  -- The view then: the second is expanded, its detail has arrived, and the first is still being read.
  abbrev shown_second : IncidentView
  shown_second = record v {
    expanded_id = some second;
    detail = some d;
    load_error = none;
    reads =
        record { number = v.next_number; id = first }
        ∷ filter (λ (r : DetailRead). not (has_number (suc v.next_number) r)) v.reads;
    next_number = suc (suc v.next_number);
  }
