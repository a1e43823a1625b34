-- ===== src/Uncertain/Tests.antt =====
-- The dialog for uncertain requests on concrete events, and its theorems at them.
use relay_lifeline.Prelude.{◌≡◌, refl, true, List, [], ◌∷◌, String, ok, String_keys}
use relay_lifeline.Uncertain.{
  confirm_success, abandon, request_compensation, asked, issued, resolved, succeeded,
  reason_required, opened, Event, choose, submit_preview, preview_done, type_reason, submit_resolve,
  resolve_done, take_preview, take_resolution, preview_action, send_resolution, resolve_with,
  control, answer, step, run,
}
use relay_lifeline.Uncertain.Sourced.{AreSourced, run-AreSourced}
use relay_lifeline.Uncertain.Calm.{AreMatched, run-AreMatched}
use relay_lifeline.Uncertain.Overtaken.{run-overtaken, overtaken}

events : Unit {0}
unfolding run step answer control resolve_with send_resolution preview_action take_preview
    take_resolution
events = tt

abbrev same : String → String
same text = text

abbrev settled : List Event
settled =
    choose abandon
    ∷ submit_preview
    ∷ preview_done (ok (record { confirmation_token = "t1" }))
    ∷ submit_resolve
    ∷ type_reason "checked"
    ∷ submit_resolve
    ∷ resolve_done (ok tt)
    ∷ []

settled_log :
    (run same true settled opened).log
    ≡ succeeded abandon
      ∷ resolved abandon "t1" "checked"
      ∷ reason_required
      ∷ issued abandon "t1"
      ∷ asked abandon
      ∷ []
unfolding events
settled_log = refl

run-AreSourced_example :
    AreSourced same true
      (resolved abandon "t1" "x" ∷ issued confirm_success "t1" ∷ asked confirm_success ∷ [])
unfolding events
run-AreSourced_example = run-AreSourced same true (overtaken [] abandon "t1" "x")

run-AreMatched_example : AreMatched (
    succeeded abandon
    ∷ resolved abandon "t1" "checked"
    ∷ reason_required
    ∷ issued abandon "t1"
    ∷ asked abandon
    ∷ [])
unfolding events
run-AreMatched_example =
    run-AreMatched same true settled (refl, (refl, (refl, (refl, (refl, (refl, (refl, tt)))))))

run-overtaken_example :
    (run same true (overtaken (request_compensation ∷ []) abandon "t1" "x") opened).log
    ≡ resolved abandon "t1" "x" ∷ issued confirm_success "t1" ∷ asked confirm_success ∷ []
run-overtaken_example =
    run-overtaken same opened (request_compensation ∷ []) abandon "t1" "x" refl refl refl refl refl
