-- ===== src/Requests.antt =====
-- The request list of web/src/views/RequestsView.tsx: which requests may be acted on, the search and
-- the selection, and the handlers of its buttons.
pub mod Actions
pub mod Dialog
pub mod Asked
pub mod Safety
pub mod Uncertain
pub mod Selected
pub mod Presets
pub mod Tests
use relay_lifeline.Prelude.{
  ℕ, Bool, true, false, not, ◌&&◌, ◌||◌, List, [], ◌∷◌, ◌++◌, map, Option, none, some, String,
  Outcome, ok, throw, ltb, nat_eq, if◌then◌else◌, ◌==◌, String_keys, length, filter, find, any,
  every, has,
}
use relay_lifeline.Json.{Thrown}
use relay_lifeline.Numbers.{whole}
use relay_lifeline.Retry.{
  Preset, standard, fast, conservative, custom, RetryPolicyInfo, RetryPolicyInput, minute, hour,
}
use relay_lifeline.Retry.Building.{fixed_schedule, random_schedule, exponential_schedule}

pub record RequestActions : Type 0 where
  pub can_retry_now : Bool
  pub can_set_retry_policy : Bool
  pub retry_requires_confirmation : Bool
  pub can_cancel : Bool
  pub can_repeat : Bool

-- The fields of a request that the view reads.
pub record RequestInfo : Type 0 where
  pub id : String
  pub client_id : Option String
  pub task_id : Option String
  pub path : String
  pub state : String
  pub retry_deadline : Option String
  pub retry_interval_milliseconds : Option ℕ
  pub retry_policy : Option RetryPolicyInfo
  pub actions : Option RequestActions

-- The policies of the quick buttons; there is none called custom.
unfoldable pub quick_policies : Preset → Option RetryPolicyInput
quick_policies standard = some record {
  duration_milliseconds = whole hour;
  schedule = random_schedule (whole minute, whole 120_000);
  max_additional_attempts = none;
  honor_retry_after = true;
}
quick_policies fast = some record {
  duration_milliseconds = whole 900_000;
  schedule = fixed_schedule (whole 15_000);
  max_additional_attempts = some (whole 20);
  honor_retry_after = true;
}
quick_policies conservative = some record {
  duration_milliseconds = whole 21_600_000;
  schedule = exponential_schedule (whole minute, whole 900_000);
  max_additional_attempts = none;
  honor_retry_after = true;
}
quick_policies custom = none

unfoldable pub can_retry : RequestInfo → Bool
can_retry request = not (request.state == "uncertain") && elim request.actions [
  | none ↦ request.state == "waiting"
  | some actions ↦ actions.can_retry_now
]

unfoldable pub can_set_policy : RequestInfo → Bool
can_set_policy request = not (request.state == "uncertain") && elim request.actions [
  | none ↦ has request.state ("queued" ∷ "requesting" ∷ "waiting" ∷ [])
  | some actions ↦ actions.can_set_retry_policy
]

abbrev has_interval : Option ℕ → Bool
has_interval none = false
has_interval (some n) = ltb 0 n

abbrev is_given : Option RetryPolicyInfo → Bool
is_given none = false
is_given (some _) = true

-- `utc_year` is the language's reading of a date: its year, 0 for those before the first, or `none`
-- for what is no date.
module _ (utc_year : String → Option ℕ) where
  unfoldable pub deadline_set : Option String → Bool
  deadline_set none = false
  deadline_set (some deadline) =
      not (deadline == "") && elim (utc_year deadline) [ none ↦ false | some year ↦ ltb 1 year ]

  unfoldable pub has_retry_policy : RequestInfo → Bool
  has_retry_policy request =
      is_given request.retry_policy
      || has_interval request.retry_interval_milliseconds
      || deadline_set request.retry_deadline

-- `trim`, `lower` and `includes` are the language's functions of these names on texts.
module _ (trim lower : String → String) (includes : String → String → Bool) where
  abbrev contains : String → Option String → Bool
  contains needle none = false
  contains needle (some value) = includes (lower value) needle

  unfoldable pub matches : String → String → RequestInfo → Bool
  matches query state request =
      let needle = lower (trim query) in
      (state == "all" || request.state == state)
      && (needle == ""
          || any (contains needle)
              (some request.id ∷ some request.path ∷ request.client_id ∷ request.task_id ∷ []))

  unfoldable pub visible : String → String → List RequestInfo → List RequestInfo
  unfolding matches
  visible query state requests = filter (matches query state) requests

-- A selection, the identifiers in the order of their insertion.
abbrev pub Selection : Type 0
Selection = List String

unfoldable pub delete : String → Selection → Selection
delete id selected = filter (λ other. not (other == id)) selected

unfoldable pub add : String → Selection → Selection
add id selected = if has id selected then selected else selected ++ id ∷ []

unfoldable pub toggle : String → Selection → Selection
toggle id selected = if has id selected then delete id selected else add id selected

unfoldable pub delete_all : List RequestInfo → Selection → Selection
unfolding delete
delete_all [] selected = selected
delete_all (request ∷ rest) selected = delete_all rest (delete request.id selected)

unfoldable pub add_all : List RequestInfo → Selection → Selection
unfolding add
add_all [] selected = selected
add_all (request ∷ rest) selected = add_all rest (add request.id selected)

-- The visible requests are all unselected if all of them are selected, and else all selected.
unfoldable pub toggle_all : List RequestInfo → Selection → Selection
toggle_all requests selected =
    if every (λ request. has request.id selected) requests
    then delete_all requests selected
    else add_all requests selected

-- The selection after an update of the requests.
unfoldable pub prune : List RequestInfo → Selection → Selection
prune live selected = filter (λ id. has id (map (λ request. request.id) live)) selected

unfoldable pub visible_selected : List RequestInfo → List RequestInfo → Selection → List RequestInfo
visible_selected requests shown selected =
    filter (λ request. any (λ other. other.id == request.id) shown)
      (filter (λ request. has request.id selected) requests)

-- The requests that the buttons act on: the visible selected ones, or else all visible ones.
unfoldable pub scope_requests : List RequestInfo → List RequestInfo → Selection → List RequestInfo
scope_requests requests shown selected =
    let chosen = visible_selected requests shown selected in
    if nat_eq (length chosen) 0 then shown else chosen
