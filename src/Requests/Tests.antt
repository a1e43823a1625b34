-- ===== src/Requests/Tests.antt =====
-- The request list on concrete requests, and its theorems at them.
use relay_lifeline.Prelude.{
  ◌≡◌, refl, true, false, List, [], ◌∷◌, none, some, String, ok, All, String_keys, has,
}
use relay_lifeline.Requests.{
  RequestInfo, can_retry, can_set_policy, has_retry_policy, deadline_set, delete, add, toggle,
  delete_all, add_all, toggle_all, prune, visible_selected, scope_requests, quick_policies,
}
use relay_lifeline.Requests.Actions.{
  World, batch_retry, refresh, named, dispatch, send_retry, retry_targets, apply_quick_policy,
  reset_policies, cancel_request,
}
use relay_lifeline.Requests.Safety.{Acts, sent, retry_targets-Acts}
use relay_lifeline.Requests.Uncertain.{IsCertainIn, retry_button, press-IsCertain}
use relay_lifeline.Requests.Selected.{has-prune}
use relay_lifeline.Requests.Dialog.{
  DialogWorld, action_for, eligible_targets, conclude, apply_call, must_ask, submit_policy,
  submit_built, submit,
}

dialog : Unit {0}
unfolding action_for eligible_targets conclude apply_call must_ask submit_policy submit_built submit
dialog = tt

list : Unit {0}
unfolding can_retry can_set_policy has_retry_policy deadline_set delete add toggle delete_all
    add_all toggle_all prune visible_selected scope_requests quick_policies named dispatch
    send_retry retry_targets apply_quick_policy reset_policies cancel_request sent
list = tt

abbrev request : String → String → RequestInfo
request id state = record {
  id = id;
  client_id = none;
  task_id = none;
  path = "/v1/responses";
  state = state;
  retry_deadline = some "2026-01-01T00:00:00Z";
  retry_interval_milliseconds = none;
  retry_policy = none;
  actions = none;
}

abbrev listed : List RequestInfo
listed = request "a" "waiting" ∷ request "b" "uncertain" ∷ request "c" "waiting" ∷ []

abbrev world : World
world = record { one = λ _. ok true; batch = λ _. ok (2, 0); refreshed = ok tt; confirmed = true }

batch_of_two :
    (retry_targets world false listed).calls ≡ batch_retry ("a" ∷ "c" ∷ []) ∷ refresh ∷ []
unfolding list
batch_of_two = refl

toggled_back : toggle_all listed (toggle_all listed ("d" ∷ [])) ≡ "d" ∷ []
unfolding list
toggled_back = refl

retry_targets-Acts_example :
    Acts false true
      (request "a" "waiting" ∷ request "c" "waiting" ∷ [])
      (retry_targets world false listed)
unfolding list
retry_targets-Acts_example = retry_targets-Acts world false listed

press-IsCertain_example : All (IsCertainIn listed) ("a" ∷ "c" ∷ [])
unfolding list
press-IsCertain_example = press-IsCertain (λ _. none) world false listed retry_button

has-prune_example : has "d" (prune listed ("b" ∷ "d" ∷ [])) ≡ false
has-prune_example = has-prune listed "d" ("b" ∷ "d" ∷ [])

abbrev dialog_world : DialogWorld
dialog_world = record { sent = λ _. ok 2; refreshed = ok tt; confirmed = false }
