-- ===== src/Formats.antt =====
-- Spans of time as the console shows them: web/src/format.ts. The times are those of dates that are
-- valid, in milliseconds since 1970.
pub mod Spans
mod Tests
use relay_lifeline.Prelude.{ℕ, ◌-◌, ◌/◌, ◌%◌, Bool, if◌then◌else◌, ltb}

-- The text that is chosen, with its numbers.
pub data SpanText : Type 0 where
  seconds_text : ℕ → SpanText
  minutes_text : ℕ → SpanText
  hours_minutes_text : ℕ → ℕ → SpanText

unfoldable pub format_seconds : ℕ → SpanText
format_seconds seconds =
    if ltb seconds 60
    then seconds_text seconds
    else (if ltb (seconds / 60) 60
        then minutes_text (seconds / 60)
        else hours_minutes_text ((seconds / 60) / 60) ((seconds / 60) % 60))

-- Up to `end`, or to now where there is none. A span that ends before it starts is 0: the difference
-- of the natural numbers is.
unfoldable pub format_duration : ℕ → ℕ → SpanText
format_duration start end_time = format_seconds ((end_time - start) / 1000)
