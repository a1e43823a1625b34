-- ===== src/Logs.antt =====
-- The log view, web/src/views/LogsView.tsx: its pages, the pause, and the filters it remembers.
pub mod Followed
mod Tests
use relay_lifeline.Prelude.{
  ℕ, zero, suc, Bool, true, false, not, ◌&&◌, ◌||◌, List, [], ◌∷◌, Option, none, some, String,
  Outcome, ok, throw, if◌then◌else◌, ◌==◌, String_keys, filter, take, map, length, nat_eq, every,
}
use relay_lifeline.Json.{Thrown}
use relay_lifeline.Search.{RuntimeLogEntry}

-- A range is the text of its choice, the empty one for no range.
pub record SavedLogFilter : Type 0 where
  pub level : String
  pub event : String
  pub request_id : String
  pub text : String
  pub range : String

pub record RuntimeLogPage : Type 0 where
  pub entries : List RuntimeLogEntry
  pub has_more : Bool
  pub has_gap : Bool

-- What is rendered, and the three references that the load and the pause share.
pub record Logs : Type 0 where
  pub entries : List RuntimeLogEntry
  pub paused : Bool
  pub current : SavedLogFilter
  pub saved_filters : List SavedLogFilter
  pub truncated : Bool
  pub new_count : ℕ
  pub displayed : List RuntimeLogEntry
  pub pending : List RuntimeLogEntry
  pub paused_ref : Bool
  pub errors : List Thrown

-- Given what is stored; a stored list is cut to its first six.
unfoldable pub opened : SavedLogFilter → List SavedLogFilter → Logs
opened initial stored = record {
  entries = [];
  paused = false;
  current = initial;
  saved_filters = take 6 stored;
  truncated = false;
  new_count = 0;
  displayed = [];
  pending = [];
  paused_ref = false;
  errors = [];
}

-- The entry is not among those displayed.
abbrev pub is_new : List RuntimeLogEntry → RuntimeLogEntry → Bool
is_new shown entry = every (λ s. not (nat_eq s.entry_id entry.entry_id)) shown

unfoldable pub load_page : RuntimeLogPage → Logs → Logs
load_page page s =
    if s.paused_ref
    then record s {
      pending = page.entries;
      new_count = length (filter (is_new s.displayed) page.entries);
      truncated = page.has_gap || page.has_more;
    }
    else record s {
      pending = page.entries;
      displayed = page.entries;
      entries = page.entries;
      new_count = 0;
      truncated = page.has_gap || page.has_more;
    }

unfoldable pub load : Outcome Thrown RuntimeLogPage → Logs → Logs
unfolding load_page
load (ok page) s = load_page page s
load (throw reason) s = record s { errors = reason ∷ s.errors }

unfoldable pub toggle_paused : Logs → Logs
toggle_paused s =
    if s.paused
    then record s {
      displayed = s.pending;
      entries = s.pending;
      new_count = 0;
      paused_ref = false;
      paused = false;
    }
    else record s { paused_ref = true; paused = true }

abbrev pub is_blank : SavedLogFilter → Bool
is_blank f =
    f.level == "" && (f.event == "" && (f.request_id == "" && (f.text == "" && f.range == "")))

-- The two filters have the same JSON text.
abbrev pub same_filter : SavedLogFilter → SavedLogFilter → Bool
same_filter f g =
    f.level == g.level
    && (f.event == g.event
        && (f.request_id == g.request_id && (f.text == g.text && f.range == g.range)))

unfoldable pub save_filter : Logs → Logs
save_filter s = if is_blank s.current then s else record s {
  saved_filters = take 6 (s.current ∷ filter (λ f. not (same_filter f s.current)) s.saved_filters);
}

abbrev pub without : {A : Type 0} → ℕ → List A → List A
without index [] = []
without zero (x ∷ xs) = xs
without (suc index) (x ∷ xs) = x ∷ without index xs

unfoldable pub remove_filter : ℕ → Logs → Logs
remove_filter index s = record s { saved_filters = without index s.saved_filters }

-- What happens in the view. `edited` sets the fields of the filter, one of them or, from a saved
-- filter, all.
pub data LogEvent : Type 0 where
  answered : Outcome Thrown RuntimeLogPage → LogEvent
  toggled : LogEvent
  edited : SavedLogFilter → LogEvent
  saved : LogEvent
  removed : ℕ → LogEvent

unfoldable pub follow : Logs → LogEvent → Logs
unfolding load toggle_paused save_filter remove_filter
follow s (answered answer) = load answer s
follow s toggled = toggle_paused s
follow s (edited f) = record s { current = f }
follow s saved = save_filter s
follow s (removed index) = remove_filter index s

unfoldable pub follow_all : Logs → List LogEvent → Logs
follow_all s [] = s
follow_all s (event ∷ rest) = follow_all (follow s event) rest
