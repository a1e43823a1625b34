-- ===== src/Search/Leading.antt =====
-- Where the results of the search lead.
use relay_lifeline.Prelude.{
  ◌≡◌, ◌⊎◌, inl, inr, sym, ap, ◌∙◌, subst, Bool, true, ◌&&◌, List, [], ◌∷◌, Option, none, some,
  String, ◌==◌, String_keys, any, find, Bool-cases, Option-cases, arith, eq_iff,
}
use relay_lifeline.Search.{Incident, Alert}
use relay_lifeline.Search.Choice.{is_unresolved, id_of, by_category, related_to, related_incident}

-- The identifier is that of a listed incident which is not resolved.
abbrev pub IsUnresolved : List Incident → String → Type 0
IsUnresolved [] id = ⊥
IsUnresolved (i ∷ rest) id =
    ((i.incident_id ≡ id) × (is_unresolved i ≡ true)) ⊎ IsUnresolved rest id

any-IsUnresolved :
    (id : String) (all : List Incident)
    → any (λ i. i.incident_id == id && is_unresolved i) all ≡ true
    → IsUnresolved all id
any-IsUnresolved id [] h = cc
any-IsUnresolved id (i ∷ rest) h = elim (Bool-cases (i.incident_id == id && is_unresolved i)) [
  | inl here ↦ inl (ground (arith, here, eq_iff i.incident_id id), ground (arith, here))
  | inr other ↦ inr (any-IsUnresolved id rest (ground (arith, h, other)))
]

find-IsUnresolved :
    (p : Incident → Bool) (all : List Incident) (found : Incident)
    → find (λ i. is_unresolved i && p i) all ≡ some found
    → IsUnresolved all found.incident_id
find-IsUnresolved p [] found h = cc
find-IsUnresolved p (i ∷ rest) found h = elim (Bool-cases (is_unresolved i && p i)) [
  | inl here ↦
      let e = rw here at h in
      let same : i ≡ found = cc e in
      inl (ap (λ (x : Incident). x.incident_id) same, ground (arith, here))
  | inr other ↦ inr (find-IsUnresolved p rest found (ground (arith, h, other)))
]

by_category-IsUnresolved :
    (a : Alert) (all : List Incident) (id : String)
    → by_category a all ≡ some id
    → IsUnresolved all id
unfolding by_category
by_category-IsUnresolved a all id h =
    let of_type : Incident → Bool =
      λ i. any (λ (category, _). category == a.type_name) i.categories in
    elim (Option-cases (find (λ i. is_unresolved i && of_type i) all)) [
      | inl missing ↦ absurd (let e = sym h ∙ ap id_of missing in cc e)
      | inr (i, found) ↦
          let e = sym h ∙ ap id_of found in
          let same : id ≡ i.incident_id = cc e in
          subst (IsUnresolved all) (sym same) (find-IsUnresolved of_type all i found)
    ]

related_to-IsUnresolved :
    (explicit : Option String) (a : Alert) (all : List Incident) (id : String)
    → related_to explicit a all ≡ some id
    → IsUnresolved all id
unfolding related_to
related_to-IsUnresolved none a all id h = by_category-IsUnresolved a all id h
related_to-IsUnresolved (some explicit) a all id h =
    elim (Bool-cases (any (λ i. i.incident_id == explicit && is_unresolved i) all)) [
      | inl listed ↦
          let e = rw listed at h in
          let same : explicit ≡ id = cc e in
          subst (IsUnresolved all) same (any-IsUnresolved explicit all listed)
      | inr other ↦ by_category-IsUnresolved a all id (ground (arith, h, other))
    ]

-- The incident that an alert leads to is listed and not resolved.
pub related_incident-IsUnresolved :
    (a : Alert) (all : List Incident) (id : String)
    → related_incident a all ≡ some id
    → IsUnresolved all id
unfolding related_incident
related_incident-IsUnresolved a all id h = related_to-IsUnresolved a.incident_id_detail a all id h
