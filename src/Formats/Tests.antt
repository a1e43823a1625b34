-- ===== src/Formats/Tests.antt =====
-- Spans that the console shows.
use relay_lifeline.Prelude.{◌≡◌, refl}
use relay_lifeline.Formats.{hours_minutes_text, seconds_text, format_seconds, format_duration}

shows_hours : format_seconds 7325 ≡ hours_minutes_text 2 2
unfolding format_seconds
shows_hours = refl

shows_nothing_negative : format_duration 9000 1000 ≡ seconds_text 0
unfolding format_duration format_seconds
shows_nothing_negative = refl
