-- ===== src/Incidents/Tests.antt =====
-- Runs of the incidents view, and its theorems at them.
use relay_lifeline.Prelude.{◌≡◌, refl, Bool, true, false, [], none, some, String, ok, String_keys}
use relay_lifeline.Incidents.{
  IncidentDetail, IncidentView, folded, toggle_detail, take_detail, shown_detail, shown_error,
  shows_truncated,
}

rendering : Unit {0}
unfolding folded toggle_detail take_detail shown_detail shown_error shows_truncated
rendering = tt

abbrev detail_of : String → Bool → IncidentDetail
detail_of id truncated = record {
  id = id;
  requests = [];
  affected_requests_truncated = truncated;
  timeline = [];
}

-- The first incident is expanded, then the second, whose detail arrives first.
abbrev second_shown : IncidentView
second_shown =
    take_detail 1 (ok (detail_of "b" false)) (toggle_detail "b" (toggle_detail "a" folded))

shown_second : shown_detail "b" second_shown ≡ some (detail_of "b" false)
unfolding rendering
shown_second = refl

-- The detail of another incident is not rendered, but its note is.
other_note :
    shows_truncated "b"
      (toggle_detail "b" (take_detail 0 (ok (detail_of "a" true)) (toggle_detail "a" folded)))
    ≡ true
unfolding rendering
other_note = refl

no_other_detail :
    shown_detail "b"
      (toggle_detail "b" (take_detail 0 (ok (detail_of "a" true)) (toggle_detail "a" folded)))
    ≡ none
unfolding rendering
no_other_detail = refl
