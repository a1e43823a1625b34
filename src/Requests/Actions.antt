-- ===== src/Requests/Actions.antt =====
-- The handlers of the buttons of web/src/views/RequestsView.tsx: what each of them sends to the
-- management API, tells the user, and leaves in `busy`.
use relay_lifeline.Prelude.{
  ℕ, Bool, false, not, ◌||◌, List, [], ◌∷◌, ◌++◌, map, Option, none, some, String, Outcome, ok,
  throw, ltb, nat_eq, if◌then◌else◌, ◌==◌, String_keys, length, filter,
}
use relay_lifeline.Json.{Thrown}
use relay_lifeline.Retry.{RetryPolicyInput}
use relay_lifeline.Requests.{RequestInfo, can_retry, has_retry_policy}

-- A call of the management API, or the question that a dialog asks.
pub data Call : Type 0 where
  ask : Call
  retry : String → Call
  batch_retry : List String → Call
  set_retry_policy : String → RetryPolicyInput → Call
  batch_retry_policy : List String → RetryPolicyInput → Call
  clear_retry_policy : String → Call
  batch_clear_policy : List String → Call
  cancel : String → Call
  refresh : Call

-- The requests that a call names.
unfoldable pub named : Call → List String
named ask = []
named (retry id) = id ∷ []
named (batch_retry ids) = ids
named (set_retry_policy id _) = id ∷ []
named (batch_retry_policy ids _) = ids
named (clear_retry_policy id) = id ∷ []
named (batch_clear_policy ids) = ids
named (cancel id) = id ∷ []
named refresh = []

pub data Notice : Type 0 where
  retry_result : ℕ → ℕ → Notice
  applied : ℕ → ℕ → Notice
  cleared : ℕ → ℕ → Notice
  failed : Thrown → Notice

-- What the server answers to a call on one request, to a batch, and to the refresh; and what the
-- user answers to the dialog.
pub record World : Type 0 where
  pub one : Call → Outcome Thrown Bool
  pub batch : Call → Outcome Thrown (ℕ × ℕ)
  pub refreshed : Outcome Thrown (Unit {0})
  pub confirmed : Bool

-- What a handler has done.
pub record Run : Type 0 where
  pub calls : List Call
  pub notice : Option Notice
  pub busy : Bool

-- A handler that returns at once leaves `busy` as it is.
abbrev pub nothing : Bool → Run
nothing busy = record { calls = []; notice = none; busy = busy }

abbrev pub declined : Bool → Run
declined busy = record { calls = ask ∷ []; notice = none; busy = busy }

-- A call and the refresh after it, with the notice of their success.
abbrev pub settle {ℓ} :
    {A : Type ℓ}
    → List Call
    → Call
    → Outcome Thrown A
    → Outcome Thrown (Unit {0})
    → (A → Option Notice)
    → Run
settle before call (throw reason) refreshed done = record {
  calls = before ++ call ∷ [];
  notice = some (failed reason);
  busy = false;
}
settle before call (ok a) (throw reason) done = record {
  calls = before ++ call ∷ refresh ∷ [];
  notice = some (failed reason);
  busy = false;
}
settle before call (ok a) (ok _) done = record {
  calls = before ++ call ∷ refresh ∷ [];
  notice = done a;
  busy = false;
}

-- One request is sent by itself, more as a batch.
unfoldable pub dispatch :
    World
    → List Call
    → (String → Call)
    → (List String → Call)
    → (Bool → Notice)
    → (ℕ × ℕ → Notice)
    → List RequestInfo
    → Run
dispatch world before single many one_done many_done (request ∷ []) =
    settle before (single request.id) (world.one (single request.id)) world.refreshed
      (λ accepted. some (one_done accepted))
dispatch world before single many one_done many_done targets =
    let call = many (map (λ request. request.id) targets) in
    settle before call (world.batch call) world.refreshed (λ counts. some (many_done counts))

abbrev count_of : Bool → ℕ
count_of accepted = if accepted then 1 else 0

unfoldable pub send_retry : World → List Call → List RequestInfo → Run
unfolding dispatch
send_retry world before =
    dispatch world before retry batch_retry
      (λ accepted. retry_result (count_of accepted) (count_of (not accepted)))
      (λ (accepted, skipped). retry_result accepted skipped)

unfoldable pub retry_targets : World → Bool → List RequestInfo → Run
unfolding send_retry
retry_targets world busy targets =
    let eligible = filter can_retry targets in
    if nat_eq (length eligible) 0 || busy
    then nothing busy
    else if ltb 20 (length eligible)
    then (if world.confirmed then send_retry world (ask ∷ []) eligible else declined busy)
    else send_retry world [] eligible

-- `capable` are the requests in scope that may have a policy.
unfoldable pub apply_quick_policy : World → Bool → List RequestInfo → RetryPolicyInput → Run
apply_quick_policy world busy capable policy =
    if nat_eq (length capable) 0 || busy
    then nothing busy
    else if world.confirmed
    then dispatch world (ask ∷ []) (λ id. set_retry_policy id policy)
        (λ ids. batch_retry_policy ids policy)
        (λ accepted. applied (count_of accepted) (length capable))
        (λ (accepted, _). applied accepted (length capable)) capable
    else declined busy

unfoldable pub reset_policies : (String → Option ℕ) → World → Bool → List RequestInfo → Run
reset_policies utc_year world busy capable =
    let targets = filter (has_retry_policy utc_year) capable in
    if nat_eq (length targets) 0 || busy
    then nothing busy
    else dispatch world [] clear_retry_policy batch_clear_policy
        (λ accepted. cleared (count_of accepted) (length targets))
        (λ (accepted, _). cleared accepted (length targets)) targets

unfoldable pub cancel_request : World → Bool → RequestInfo → Run
cancel_request world busy request =
    if busy || request.state == "uncertain"
    then nothing busy
    else settle [] (cancel request.id) (world.one (cancel request.id)) world.refreshed (λ _. none)
