-- ===== src/Search/Loading.antt =====
-- What web/src/components/GlobalSearch.tsx loads while the user types: each query that is long enough
-- starts a timer, and then four reads; a later query makes the answers of an earlier one void.
pub mod Overtaken
use relay_lifeline.Prelude.{
  ℕ, suc, Bool, true, false, not, ◌&&◌, ◌||◌, List, [], ◌∷◌, Option, none, some, String, Outcome,
  ok, throw, if◌then◌else◌, find, filter, nat_eq, ◌==◌, String_keys,
}
use relay_lifeline.Json.{Thrown}
use relay_lifeline.Search.{HistoryRecord, Incident, RuntimeLogEntry, CaptureRecord}

-- How the four reads of a load settle.
pub record LoadResults : Type 0 where
  pub logs : Outcome Thrown (List RuntimeLogEntry)
  pub captures : Outcome Thrown (List CaptureRecord)
  pub history : Outcome Thrown (List HistoryRecord)
  pub incidents : Outcome Thrown (List Incident)

-- Four reads under way for a query, with the number of the effect that sent them.
pub record SentLoad : Type 0 where
  pub number : ℕ
  pub query : String

-- `effect` is the number of the effect that is not disposed, `timer` whether its timer runs.
pub record SearchLoads : Type 0 where
  pub query : String
  pub is_open : Bool
  pub effect : Option ℕ
  pub timer : Bool
  pub sent : List SentLoad
  pub next_number : ℕ
  pub logs : List RuntimeLogEntry
  pub captures : List CaptureRecord
  pub remote_history : List HistoryRecord
  pub remote_incidents : List Incident

unfoldable pub nothing_loaded : SearchLoads
nothing_loaded = record {
  query = "";
  is_open = false;
  effect = none;
  timer = false;
  sent = [];
  next_number = 0;
  logs = [];
  captures = [];
  remote_history = [];
  remote_incidents = [];
}

-- `fulfilled` keeps its value; a read that was rejected leaves what there was.
abbrev pub settled_or {ℓ} : {A : Type ℓ} → Outcome Thrown A → A → A
settled_or (throw reason) before = before
settled_or (ok value) before = value

unfoldable pub take_results : LoadResults → SearchLoads → SearchLoads
take_results results l = record l {
  logs = settled_or results.logs l.logs;
  captures = settled_or results.captures l.captures;
  remote_history = settled_or results.history l.remote_history;
  remote_incidents = settled_or results.incidents l.remote_incidents;
}

abbrev pub has_number : ℕ → SentLoad → Bool
has_number number s = nat_eq s.number number

abbrev pub is_effect : ℕ → Option ℕ → Bool
is_effect number none = false
is_effect number (some current) = nat_eq current number

unfoldable pub answer_load : ℕ → LoadResults → SearchLoads → SearchLoads
unfolding take_results
answer_load number results l = elim (find (has_number number) l.sent) [
  | none ↦ l
  | some _ ↦
      let received = record l { sent = filter (λ s. not (has_number number s)) l.sent } in
      if is_effect number l.effect then take_results results received else received
]

abbrev pub same_flag : Bool → Bool → Bool
same_flag true b = b
same_flag false b = not b

unfoldable pub fire : Option ℕ → SearchLoads → SearchLoads
fire none l = l
fire (some number) l =
    if l.timer
    then record l { timer = false; sent = record { number = number; query = l.query } ∷ l.sent }
    else l

-- `long_enough` is `normalized.length >= 2`, in the units that the language counts texts by.
module _ (long_enough : String → Bool) where
  -- The effect after a change of the query or of whether the search is open: the one before it is
  -- disposed, and its timer cleared.
  unfoldable pub restart : String → Bool → SearchLoads → SearchLoads
  restart query is_open l =
      if is_open && long_enough query
      then record l {
        query = query;
        is_open = is_open;
        effect = some l.next_number;
        timer = true;
        next_number = suc l.next_number;
      }
      else record l { query = query; is_open = is_open; effect = none; timer = false }

  -- A change of the query or of whether the search is open, the end of the timer, or an answer. The
  -- effect runs again only where one of the two has changed.
  pub data SearchEvent : Type 0 where
    changed : String → Bool → SearchEvent
    elapsed : SearchEvent
    loaded : ℕ → LoadResults → SearchEvent

  unfoldable pub on_search : SearchLoads → SearchEvent → SearchLoads
  unfolding restart fire answer_load
  on_search l (changed query is_open) =
      if l.query == query && same_flag l.is_open is_open then l else restart query is_open l
  on_search l elapsed = fire l.effect l
  on_search l (loaded number results) = answer_load number results l

  unfoldable pub on_searches : SearchLoads → List SearchEvent → SearchLoads
  on_searches l [] = l
  on_searches l (event ∷ rest) = on_searches (on_search l event) rest
