-- ===== src/Requests/Asked.antt =====
-- What web/src/components/RetryPolicyDialog.tsx sends and when it asks.
use relay_lifeline.Prelude.{
  if-P, ℕ, ◌≡◌, ◌⊎◌, inl, inr, refl, Bool, true, false, List, [], ◌∷◌, ◌++◌, Outcome, ok, throw,
  length, nat_eq, All, Outcome-cases,
}
use relay_lifeline.Retry.{FormState, RetryPolicyInput}
use relay_lifeline.Retry.Building.{BuildError, build_policy}
use relay_lifeline.Requests.{RequestInfo}
use relay_lifeline.Requests.Dialog.{
  DialogCall, ask_apply, set_policy, batch_policy, clear_policy, batch_clear, refresh_all,
  DialogWorld, DialogRun, conclude, apply_call, must_ask, submit_policy, submit_built, submit,
  eligible_targets,
}

-- A policy that is sent is the one that the form builds, and one that must be asked about for so many
-- requests was confirmed.
abbrev pub MaySend : FormState → Bool → ℕ → RetryPolicyInput → Type 0
MaySend form confirmed count policy =
    (build_policy form ≡ ok policy) × ((must_ask policy count ≡ false) ⊎ (confirmed ≡ true))

abbrev pub IsSent : FormState → Bool → ℕ → DialogCall → Type 0
IsSent form confirmed count (set_policy _ policy _) = MaySend form confirmed count policy
IsSent form confirmed count (batch_policy _ policy _ _) = MaySend form confirmed count policy
IsSent form confirmed count (clear_policy _) = ⊥
IsSent form confirmed count (batch_clear _) = ⊥
IsSent form confirmed count _ = Unit

conclude-IsSent :
    (P : DialogCall → Type 0) (world : DialogWorld) (before : List DialogCall) (call : DialogCall)
    (single : Bool) (total : ℕ)
    → All P (before ++ call ∷ [])
    → All P (before ++ call ∷ refresh_all ∷ [])
    → All P (conclude world before call single total).calls
unfolding conclude
conclude-IsSent P world before call single total h k = elim (Outcome-cases (world.sent call)) [
  | inl (why, e) ↦ rw (e, conclude) h
  | inr (accepted, e) ↦ elim (Outcome-cases world.refreshed) [
    | inl (why, f) ↦ rw (e, f, conclude) k
    | inr (_, f) ↦ rw (e, f, conclude) k
  ]
]

apply_call-IsSent :
    (form : FormState) (confirmed : Bool) (count : ℕ) (policy : RetryPolicyInput)
    (eligible : List RequestInfo)
    → MaySend form confirmed count policy
    → IsSent form confirmed count (apply_call form policy eligible).0
unfolding apply_call
apply_call-IsSent form confirmed count policy [] h = h
apply_call-IsSent form confirmed count policy (r ∷ []) h = h
apply_call-IsSent form confirmed count policy (r ∷ s ∷ rest) h = h

submit_built-IsSent :
    (world : DialogWorld) (form : FormState) (built : Outcome BuildError RetryPolicyInput)
    (eligible : List RequestInfo)
    → build_policy form ≡ built
    → All
        (IsSent form world.confirmed (length eligible))
        (submit_built world form built eligible).calls
unfolding submit_built submit_policy
submit_built-IsSent world form (throw why) eligible e = tt
submit_built-IsSent world form (ok policy) eligible e =
    let P = IsSent form world.confirmed (length eligible) in
    let send : MaySend form world.confirmed (length eligible) policy
        → P (apply_call form policy eligible).0 =
      apply_call-IsSent form world.confirmed (length eligible) policy eligible in
    if-P (λ (run : DialogRun). All P run.calls) (nat_eq (length eligible) 0) (λ _. tt)
      (λ _.
        if-P (λ (run : DialogRun). All P run.calls) (must_ask policy (length eligible))
          (λ _.
            if-P (λ (run : DialogRun). All P run.calls) world.confirmed
              (λ sure.
                conclude-IsSent P world (ask_apply ∷ []) _ _ _ (tt, (send (e, inr sure), tt))
                  (tt, (send (e, inr sure), (tt, tt))))
              (λ _. (tt, tt)))
          (λ light.
            conclude-IsSent P world [] _ _ _ (send (e, inl light), tt)
              (send (e, inl light), (tt, tt))))

-- The dialog sends no policy but the one that its form builds, and none that is immediate or estimated
-- at more than 100 attempts over its targets unless the user has confirmed it.
pub submit-IsSent :
    (world : DialogWorld) (form : FormState) (targets : List RequestInfo)
    → All
        (IsSent form world.confirmed (length (eligible_targets targets)))
        (submit world form targets).calls
unfolding submit
submit-IsSent world form targets =
    submit_built-IsSent world form (build_policy form) (eligible_targets targets) refl
