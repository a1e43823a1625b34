-- ===== src/Requests/Uncertain.antt =====
-- Which requests the retry, policy, reset and cancel buttons of the view act on. The button that resolves
-- an uncertain request is not among them: its dialog is Uncertain.
use relay_lifeline.Prelude.{
  ℕ, ◌≡◌, ◌⊎◌, inl, inr, refl, sym, subst, Bool, true, false, ◌||◌, List, [], ◌∷◌, Option, String,
  ◌==◌, String_keys, filter, Bool-cases, All, arith,
}
use relay_lifeline.Retry.{RetryPolicyInput}
use relay_lifeline.Requests.{RequestInfo, can_retry, can_set_policy, has_retry_policy}
use relay_lifeline.Requests.Actions.{
  named, World, Run, retry_targets, apply_quick_policy, reset_policies, cancel_request, cancel,
}
use relay_lifeline.Requests.Safety.{
  Acts, ids_of, sent, retry_targets-Acts, apply_quick_policy-Acts, reset_policies-Acts, sent-settle,
  quiet,
}

-- The identifier is that of a request of the list whose state is another than uncertain.
abbrev pub IsCertainIn : List RequestInfo → String → Type 0
IsCertainIn [] id = ⊥
IsCertainIn (r ∷ rest) id = ((r.id ≡ id) × (r.state == "uncertain" ≡ false)) ⊎ IsCertainIn rest id

All-IsCertainIn_cons :
    (r : RequestInfo) (rest : List RequestInfo) (ids : List String)
    → All (IsCertainIn rest) ids
    → All (IsCertainIn (r ∷ rest)) ids
All-IsCertainIn_cons r rest [] h = tt
All-IsCertainIn_cons r rest (id ∷ ids) h = (inr h.0, All-IsCertainIn_cons r rest ids h.1)

filtered :
    (p : RequestInfo → Bool)
    (certain : (r : RequestInfo) → p r ≡ true → r.state == "uncertain" ≡ false)
    (targets : List RequestInfo)
    → All (IsCertainIn targets) (ids_of (filter p targets))
filtered p certain [] = tt
filtered p certain (r ∷ rest) = elim (Bool-cases (p r)) [
  | inl e ↦ rw e (inl (refl, certain r e), All-IsCertainIn_cons r rest _ (filtered p certain rest))
  | inr e ↦ rw e (All-IsCertainIn_cons r rest _ (filtered p certain rest))
]

can_retry-certain : (r : RequestInfo) → can_retry r ≡ true → r.state == "uncertain" ≡ false
unfolding can_retry
can_retry-certain r h = elim (Bool-cases (r.state == "uncertain")) [
  | inl e ↦ absurd (ground (arith, h, e))
  | inr e ↦ e
]

can_set_policy-certain :
    (r : RequestInfo) → can_set_policy r ≡ true → r.state == "uncertain" ≡ false
unfolding can_set_policy
can_set_policy-certain r h = elim (Bool-cases (r.state == "uncertain")) [
  | inl e ↦ absurd (ground (arith, h, e))
  | inr e ↦ e
]

-- The buttons of the view.
pub data Button : Type 0 where
  retry_button : Button
  quick_button : RetryPolicyInput → Button
  reset_button : Button
  cancel_button : RequestInfo → Button

-- A button pressed while some requests are in scope. The retry button of a row has only its request
-- in scope.
abbrev pub press : (String → Option ℕ) → World → Bool → List RequestInfo → Button → Run
press utc_year world busy scope retry_button = retry_targets world busy scope
press utc_year world busy scope (quick_button policy) =
    apply_quick_policy world busy (filter can_set_policy scope) policy
press utc_year world busy scope reset_button =
    reset_policies utc_year world busy (filter can_set_policy scope)
press utc_year world busy scope (cancel_button request) = cancel_request world busy request

abbrev pub in_reach : List RequestInfo → Button → List RequestInfo
in_reach scope (cancel_button request) = request ∷ []
in_reach scope _ = scope

narrowed :
    (P : String → Type 0) (q : RequestInfo → Bool) (targets : List RequestInfo)
    → All P (ids_of targets)
    → All P (ids_of (filter q targets))
narrowed P q [] h = tt
narrowed P q (r ∷ rest) h = elim (Bool-cases (q r)) [
  | inl e ↦ rw e (h.0, narrowed P q rest h.1)
  | inr e ↦ rw e (narrowed P q rest h.1)
]

acted :
    (P : String → Type 0) {busy confirmed : Bool} (eligible : List RequestInfo) (run : Run)
    → Acts busy confirmed eligible run
    → All P (ids_of eligible)
    → All P (sent run.calls)
acted P eligible run acts h = elim acts.all_or_none [
  | inl all ↦ subst (All P) (sym all) h
  | inr empty ↦ subst (All P) (sym empty) tt
]

-- Whatever the server and the user answer, a button names only requests that it acts on and whose
-- state is not uncertain.
pub press-IsCertain :
    (utc_year : String → Option ℕ) (world : World) (busy : Bool) (scope : List RequestInfo)
    (button : Button)
    → All
        (IsCertainIn (in_reach scope button))
        (sent (press utc_year world busy scope button).calls)
unfolding cancel_request sent named
press-IsCertain utc_year world busy scope retry_button =
    acted (IsCertainIn scope) _ _ (retry_targets-Acts world busy scope)
      (filtered can_retry can_retry-certain scope)
press-IsCertain utc_year world busy scope (quick_button policy) =
    acted (IsCertainIn scope) _ _
      (apply_quick_policy-Acts world busy (filter can_set_policy scope) policy)
      (filtered can_set_policy can_set_policy-certain scope)
press-IsCertain utc_year world busy scope reset_button =
    acted (IsCertainIn scope) _ _
      (reset_policies-Acts utc_year world busy (filter can_set_policy scope))
      (narrowed (IsCertainIn scope) (has_retry_policy utc_year) _
        (filtered can_set_policy can_set_policy-certain scope))
press-IsCertain utc_year world busy scope (cancel_button request) =
    elim (Bool-cases (busy || request.state == "uncertain")) [
      | inl idle ↦ rw (idle, cancel_request) tt
      | inr going ↦
          rw (going, cancel_request)
            (subst (All (IsCertainIn (request ∷ [])))
              (sym (
                sent-settle [] (cancel request.id) (world.one (cancel request.id)) world.refreshed _
                  quiet))
              (inl (refl, ground (arith, going)), tt))
    ]
