-- ===== src/Requests/Safety.antt =====
-- What the handlers of web/src/views/RequestsView.tsx send, and for which requests.
use relay_lifeline.Prelude.{
  ℕ, suc, ◌≡◌, ◌⊎◌, inl, inr, refl, ◌∙◌, Bool, true, false, not, ◌||◌, List, [], ◌∷◌, ◌++◌, map,
  Option, String, Outcome, ok, throw, ltb, nat_eq, if◌then◌else◌, String_keys, length, filter,
  arith, Bool-cases,
}
use mathlib.Core.List.{append-nil}
use relay_lifeline.Json.{Thrown}
use relay_lifeline.Retry.{RetryPolicyInput}
use relay_lifeline.Requests.{RequestInfo, can_retry, has_retry_policy}
use relay_lifeline.Requests.Actions.{
  Call, ask, named, Notice, World, Run, settle, dispatch, retry, batch_retry, set_retry_policy,
  batch_retry_policy, clear_retry_policy, batch_clear_policy, refresh, nothing, declined,
  send_retry, retry_targets, apply_quick_policy, reset_policies,
}

abbrev pub ids_of : List RequestInfo → List String
ids_of = map (λ request. request.id)

-- The requests that calls name, in the order of the calls.
unfoldable pub sent : List Call → List String
unfolding named
sent [] = []
sent (call ∷ rest) = named call ++ sent rest

parts_empty : (xs ys : List String) → xs ++ ys ≡ [] → (xs ≡ []) × (ys ≡ [])
parts_empty [] ys h = (refl, h)
parts_empty (x ∷ xs) ys h = cc

sent-before :
    (before : List Call) (call : Call) (rest : List Call)
    → sent before ≡ []
    → sent rest ≡ []
    → sent (before ++ call ∷ rest) ≡ named call
unfolding sent
sent-before [] call rest h k = rw k (append-nil (named call))
sent-before (first ∷ before) call rest h k =
    let (e, f) = parts_empty (named first) (sent before) h in
    rw e (sent-before before call rest f k)

pub sent-settle :
    {A : Type 0} (before : List Call) (call : Call) (answer : Outcome Thrown A)
    (refreshed : Outcome Thrown (Unit {0})) (done : A → Option Notice)
    → sent before ≡ []
    → sent (settle before call answer refreshed done).calls ≡ named call
unfolding sent
sent-settle before call (throw reason) refreshed done h = sent-before before call [] h refl
sent-settle before call (ok a) (throw reason) done h = sent-before before call (refresh ∷ []) h refl
sent-settle before call (ok a) (ok _) done h = sent-before before call (refresh ∷ []) h refl

module _ (world : World) (before : List Call) (single : String → Call) (many : List String → Call)
    (one_done : Bool → Notice) (many_done : ℕ × ℕ → Notice) (quiet : sent before ≡ [])
    (names_one : (id : String) → named (single id) ≡ id ∷ [])
    (names_all : (ids : List String) → named (many ids) ≡ ids) where
  sent-dispatch :
      (targets : List RequestInfo)
      → sent (dispatch world before single many one_done many_done targets).calls ≡ ids_of targets
  unfolding dispatch
  sent-dispatch [] = sent-settle before (many []) _ world.refreshed _ quiet ∙ names_all []
  sent-dispatch (r ∷ []) =
      sent-settle before (single r.id) _ world.refreshed _ quiet ∙ names_one r.id
  sent-dispatch (r ∷ s ∷ rest) =
      sent-settle before (many (ids_of (r ∷ s ∷ rest))) _ world.refreshed _ quiet ∙ names_all _

-- A handler on requests of which some are eligible: where it is not busy and its question, if any, is
-- confirmed, it names all eligible ones; if it is busy or its question is declined, it names none. It asks nothing while it is busy,
-- and it leaves `busy` as it was.
pub record Acts (busy confirmed : Bool) (eligible : List RequestInfo) (run : Run) : Type 0 where
  pub sends : busy ≡ false → confirmed ≡ true → sent run.calls ≡ ids_of eligible
  pub refuses : confirmed ≡ false → sent run.calls ≡ []
  pub all_or_none : (sent run.calls ≡ ids_of eligible) ⊎ (sent run.calls ≡ [])
  pub waits : busy ≡ true → run.calls ≡ []
  pub releases : run.busy ≡ busy

busy-settle :
    {A : Type 0} (before : List Call) (call : Call) (answer : Outcome Thrown A)
    (refreshed : Outcome Thrown (Unit {0})) (done : A → Option Notice)
    → (settle before call answer refreshed done).busy ≡ false
busy-settle before call (throw reason) refreshed done = refl
busy-settle before call (ok a) (throw reason) done = refl
busy-settle before call (ok a) (ok _) done = refl

busy-dispatch :
    (world : World) (before : List Call) (single : String → Call) (many : List String → Call)
    (one_done : Bool → Notice) (many_done : ℕ × ℕ → Notice) (targets : List RequestInfo)
    → (dispatch world before single many one_done many_done targets).busy ≡ false
unfolding dispatch
busy-dispatch world before single many one_done many_done [] =
    busy-settle before (many []) _ world.refreshed _
busy-dispatch world before single many one_done many_done (r ∷ []) =
    busy-settle before (single r.id) _ world.refreshed _
busy-dispatch world before single many one_done many_done (r ∷ s ∷ rest) =
    busy-settle before (many (ids_of (r ∷ s ∷ rest))) _ world.refreshed _

asked_quiet : sent (ask ∷ []) ≡ []
unfolding sent
asked_quiet = refl

pub quiet : sent [] ≡ []
unfolding sent
quiet = refl

-- The part of a handler after its guard.
record Proceeds (busy confirmed : Bool) (eligible : List RequestInfo) (run : Run) : Type 0 where
  confirms : confirmed ≡ true → sent run.calls ≡ ids_of eligible
  refuses : confirmed ≡ false → sent run.calls ≡ []
  frees : busy ≡ false → run.busy ≡ false

straight :
    (busy : Bool) (eligible : List RequestInfo) (run : Run)
    → sent run.calls ≡ ids_of eligible
    → run.busy ≡ false
    → Proceeds busy true eligible run
straight busy eligible run h k = record { confirms = λ _. h; refuses = λ e. cc; frees = λ _. k }

asks :
    (busy confirmed : Bool) (eligible : List RequestInfo) (run : Run)
    → sent run.calls ≡ ids_of eligible
    → run.busy ≡ false
    → Proceeds busy confirmed eligible (if confirmed then run else declined busy)
asks busy true eligible run h k = straight busy eligible run h k
asks busy false eligible run h k = record {
  confirms = λ e. cc;
  refuses = λ _. asked_quiet;
  frees = λ e. e;
}

asks_if :
    (many busy confirmed : Bool) (eligible : List RequestInfo) (run direct : Run)
    → sent run.calls ≡ ids_of eligible
    → run.busy ≡ false
    → sent direct.calls ≡ ids_of eligible
    → direct.busy ≡ false
    → Proceeds busy
        (not many || confirmed)
        eligible
        (if many then (if confirmed then run else declined busy) else direct)
asks_if true busy confirmed eligible run direct h k f g = asks busy confirmed eligible run h k
asks_if false busy confirmed eligible run direct h k f g = straight busy eligible direct f g

some_left : (n : ℕ) → nat_eq (suc n) 0 ≡ false
some_left n = ground arith

guarded-Acts :
    (busy confirmed : Bool) (eligible : List RequestInfo) (run : Run)
    → Proceeds busy confirmed eligible run
    → Acts busy confirmed eligible
        (if nat_eq (length eligible) 0 || busy then nothing busy else run)
guarded-Acts busy confirmed [] run h = record {
  sends = λ _ _. quiet;
  refuses = λ _. quiet;
  all_or_none = inl quiet;
  waits = λ _. refl;
  releases = refl;
}
guarded-Acts true confirmed (r ∷ rest) run h = rw (some_left (length rest)) (record {
  sends = λ e _. cc;
  refuses = λ _. quiet;
  all_or_none = inr quiet;
  waits = λ _. refl;
  releases = refl;
})
guarded-Acts false confirmed (r ∷ rest) run h = rw (some_left (length rest)) (record {
  sends = λ _. h.confirms;
  refuses = h.refuses;
  all_or_none = elim (Bool-cases confirmed) [
    | inl e ↦ inl (h.confirms e)
    | inr e ↦ inr (h.refuses e)
  ];
  waits = λ e. cc;
  releases = h.frees refl;
})

retry-sent :
    (world : World) (before : List Call) (targets : List RequestInfo)
    → sent before ≡ []
    → sent (send_retry world before targets).calls ≡ ids_of targets
unfolding send_retry named
retry-sent world before targets silent =
    sent-dispatch world before retry batch_retry _ _ silent (λ _. refl) (λ _. refl) targets

retry-busy :
    (world : World) (before : List Call) (targets : List RequestInfo)
    → (send_retry world before targets).busy ≡ false
unfolding send_retry
retry-busy world before targets = busy-dispatch world before retry batch_retry _ _ targets

-- The retry button names the requests that may be retried, up to twenty of them without a question.
pub retry_targets-Acts :
    (world : World) (busy : Bool) (targets : List RequestInfo)
    → Acts busy
        (not (ltb 20 (length (filter can_retry targets))) || world.confirmed)
        (filter can_retry targets)
        (retry_targets world busy targets)
unfolding retry_targets
retry_targets-Acts world busy targets =
    let eligible = filter can_retry targets in
    guarded-Acts busy _ eligible _ (
      asks_if (ltb 20 (length eligible)) busy world.confirmed eligible _ _
        (retry-sent world (ask ∷ []) eligible asked_quiet) (retry-busy world (ask ∷ []) eligible)
        (retry-sent world [] eligible quiet) (retry-busy world [] eligible))

pub apply_quick_policy-Acts :
    (world : World) (busy : Bool) (capable : List RequestInfo) (policy : RetryPolicyInput)
    → Acts busy world.confirmed capable (apply_quick_policy world busy capable policy)
unfolding apply_quick_policy named
apply_quick_policy-Acts world busy capable policy = guarded-Acts busy _ capable _ (
    asks busy world.confirmed capable _
      (sent-dispatch world (ask ∷ []) (λ id. set_retry_policy id policy)
        (λ ids. batch_retry_policy ids policy) _ _ asked_quiet (λ _. refl) (λ _. refl) capable)
      (busy-dispatch world (ask ∷ []) (λ id. set_retry_policy id policy)
        (λ ids. batch_retry_policy ids policy) _ _ capable))

pub reset_policies-Acts :
    (utc_year : String → Option ℕ) (world : World) (busy : Bool) (capable : List RequestInfo)
    → Acts busy true
        (filter (has_retry_policy utc_year) capable)
        (reset_policies utc_year world busy capable)
unfolding reset_policies named
reset_policies-Acts utc_year world busy capable =
    let targets = filter (has_retry_policy utc_year) capable in
    guarded-Acts busy true targets _ (
      straight busy targets _
        (sent-dispatch world [] clear_retry_policy batch_clear_policy _ _ quiet (λ _. refl)
          (λ _. refl) targets)
        (busy-dispatch world [] clear_retry_policy batch_clear_policy _ _ targets))
