-- ===== src/Logs/Tests.antt =====
-- Runs of the log view.
use relay_lifeline.Prelude.{ℕ, ◌≡◌, refl, true, false, List, [], ◌∷◌, none, ok, length}
use relay_lifeline.Search.{RuntimeLogEntry}
use relay_lifeline.Logs.{
  SavedLogFilter, opened, LogEvent, answered, toggled, edited, saved, follow, follow_all,
}
use relay_lifeline.Logs.Followed.{IsFollowed, follow_all-IsFollowed}

abbrev blank : SavedLogFilter
blank = record { level = ""; event = ""; request_id = ""; text = ""; range = "" }

abbrev line : ℕ → RuntimeLogEntry
line id = record {
  entry_id = id;
  level = "info";
  event = "e";
  message = "m";
  request_id = none;
  client_id = none;
  task_id = none;
  fields_text = "";
}

abbrev page : List RuntimeLogEntry → LogEvent
page lines = answered (ok (record { entries = lines; has_more = false; has_gap = false }))

-- Paused at line 1, two new lines arrive; the pause ends.
abbrev watched : List LogEvent
watched =
    page (line 1 ∷ [])
    ∷ toggled
    ∷ page (line 1 ∷ line 2 ∷ line 3 ∷ [])
    ∷ edited (record blank { level = "warn" })
    ∷ saved
    ∷ saved
    ∷ []

counts_new : (follow_all (opened blank []) watched).new_count ≡ 2
unfolding follow_all follow opened
counts_new = refl

saves_once : length (follow_all (opened blank []) watched).saved_filters ≡ 1
unfolding follow_all follow opened
saves_once = refl

resumes :
    follow_all (opened blank []) (page (line 1 ∷ []) ∷ toggled ∷ page (line 2 ∷ []) ∷ toggled ∷ [])
    ≡ follow_all (opened blank []) (page (line 2 ∷ []) ∷ [])
unfolding follow_all follow opened
resumes = refl

follow_all-IsFollowed_example :
    IsFollowed (line 1 ∷ line 2 ∷ line 3 ∷ []) true (follow_all (opened blank []) watched)
follow_all-IsFollowed_example = follow_all-IsFollowed blank [] watched
