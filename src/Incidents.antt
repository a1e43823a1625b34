-- ===== src/Incidents.antt =====
-- The incidents view, web/src/views/IncidentsView.tsx: the incident that is expanded, and its detail,
-- which is read while others may be expanded.
pub mod Expanded
mod Tests
use relay_lifeline.Prelude.{
  ℕ, suc, Bool, true, false, not, ◌&&◌, List, [], ◌∷◌, Option, none, some, String, Outcome, ok,
  throw, if◌then◌else◌, ◌==◌, String_keys, find, filter, nat_eq,
}
use relay_lifeline.Json.{Value, Thrown}

-- `id` is that of the incident of the detail.
pub record IncidentDetail : Type 0 where
  pub id : String
  pub requests : List Value
  pub affected_requests_truncated : Bool
  pub timeline : List Value

-- A read of a detail that is under way.
pub record DetailRead : Type 0 where
  pub number : ℕ
  pub id : String

pub record IncidentView : Type 0 where
  pub expanded_id : Option String
  pub detail : Option IncidentDetail
  pub load_error : Option Thrown
  pub reads : List DetailRead
  pub next_number : ℕ

unfoldable pub folded : IncidentView
folded = record {
  expanded_id = none;
  detail = none;
  load_error = none;
  reads = [];
  next_number = 0;
}

abbrev pub is_expanded : String → Option String → Bool
is_expanded id none = false
is_expanded id (some current) = current == id

unfoldable pub toggle_detail : String → IncidentView → IncidentView
toggle_detail id v =
    if is_expanded id v.expanded_id then record v { expanded_id = none } else record v {
      expanded_id = some id;
      load_error = none;
      reads = record { number = v.next_number; id = id } ∷ v.reads;
      next_number = suc v.next_number;
    }

abbrev pub has_number : ℕ → DetailRead → Bool
has_number number r = nat_eq r.number number

-- The answer to a read, whatever is expanded by then.
unfoldable pub take_detail : ℕ → Outcome Thrown IncidentDetail → IncidentView → IncidentView
take_detail number outcome v = elim (find (has_number number) v.reads) [
  | none ↦ v
  | some _ ↦ elim outcome [
    | throw reason ↦ record v {
      detail = none;
      load_error = some reason;
      reads = filter (λ r. not (has_number number r)) v.reads;
    }
    | ok detail ↦ record v {
      detail = some detail;
      reads = filter (λ r. not (has_number number r)) v.reads;
    }
  ]
]

-- The detail that is rendered below an incident: it must be expanded, and the detail must be its own.
unfoldable pub shown_detail : String → IncidentView → Option IncidentDetail
shown_detail id v =
    if is_expanded id v.expanded_id
    then (elim v.detail [
      | none ↦ none
      | some detail ↦ if detail.id == id then some detail else none
    ])
    else none

unfoldable pub shown_error : String → IncidentView → Option Thrown
shown_error id v = if is_expanded id v.expanded_id then v.load_error else none

-- The note that not all requests are listed, which does not ask whose detail it is.
unfoldable pub shows_truncated : String → IncidentView → Bool
shows_truncated id v =
    is_expanded id v.expanded_id
    && (elim v.detail [ none ↦ false | some detail ↦ detail.affected_requests_truncated ])
