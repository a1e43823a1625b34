-- ===== src/Realtime/Updates.antt =====
-- What an update of the server's stream changes in web/src/App.tsx.
use relay_lifeline.Prelude.{
  ◌≡◌, refl, subst, inl, inr, true, Option, String, if◌then◌else◌, ◌==◌, String_keys, Bool-cases,
  arith, eq_iff,
}
use relay_lifeline.Json.{Value}
use relay_lifeline.Realtime.{Board, take_update}

-- Each part is the data of the update if the update has its name, and else what it was.
abbrev pub IsUpdate : String → Option Value → Board → Board → Type 0
IsUpdate kind payload before after =
    (after.status ≡ (if kind == "status" then payload else before.status))
    × (after.alerts ≡ (if kind == "alerts" then payload else before.alerts))
    × (after.incidents ≡ (if kind == "incidents" then payload else before.incidents))
    × (after.metrics ≡ (if kind == "metrics" then payload else before.metrics))
    × (after.repeat_tasks ≡ (if kind == "repeat_tasks" then payload else before.repeat_tasks))

named : (kind name : String) → (kind == name) ≡ true → name ≡ kind
named kind name e = ground (arith, eq_iff kind name)

-- An update gives its data to the part that it names, and leaves every other part, and all of them if
-- it names none, as it was.
pub take_update-IsUpdate :
    (kind : String) (payload : Option Value) (b : Board)
    → IsUpdate kind payload b (take_update kind payload b)
unfolding take_update
take_update-IsUpdate kind payload b = elim (Bool-cases (kind == "status")) [
  | inl e ↦
      subst (λ k. IsUpdate k payload b (take_update k payload b)) (named kind "status" e)
        (refl, refl, refl, refl, refl)
  | inr e1 ↦ elim (Bool-cases (kind == "alerts")) [
    | inl e ↦
        subst (λ k. IsUpdate k payload b (take_update k payload b)) (named kind "alerts" e)
          (refl, refl, refl, refl, refl)
    | inr e2 ↦ elim (Bool-cases (kind == "incidents")) [
      | inl e ↦
          subst (λ k. IsUpdate k payload b (take_update k payload b)) (named kind "incidents" e)
            (refl, refl, refl, refl, refl)
      | inr e3 ↦ elim (Bool-cases (kind == "metrics")) [
        | inl e ↦
            subst (λ k. IsUpdate k payload b (take_update k payload b)) (named kind "metrics" e)
              (refl, refl, refl, refl, refl)
        | inr e4 ↦ elim (Bool-cases (kind == "repeat_tasks")) [
          | inl e ↦
              subst (λ k. IsUpdate k payload b (take_update k payload b))
                (named kind "repeat_tasks" e) (refl, refl, refl, refl, refl)
          | inr e5 ↦ rw (e1, e2, e3, e4, e5) (refl, refl, refl, refl, refl)
        ]
      ]
    ]
  ]
]
