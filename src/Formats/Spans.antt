-- ===== src/Formats/Spans.antt =====
-- What the text of a span shows: web/src/format.ts.
use relay_lifeline.Prelude.{if-P, ℕ, ◌+◌, ◌*◌, ◌/◌, ◌≤◌, ◌<◌, ◌≡◌, refl, ltb, arith}
use relay_lifeline.Formats.{
  SpanText, seconds_text, minutes_text, hours_minutes_text, format_seconds,
}

-- The text stands for the seconds: exactly below a minute, up to the minute from there on, with hours
-- from one hour on.
abbrev pub IsSpan : ℕ → SpanText → Type 0
IsSpan seconds (seconds_text n) = (n < 60) × (seconds ≡ n)
IsSpan seconds (minutes_text n) = (0 < n) × (n < 60) × (n * 60 ≤ seconds) × (seconds < n * 60 + 60)
IsSpan seconds (hours_minutes_text h n) =
    (0 < h) × (n < 60) × (h * 3600 + n * 60 ≤ seconds) × (seconds < h * 3600 + n * 60 + 60)

-- The seconds that are shown are below 60 and exact; the minutes are below 60 and the last full minute;
-- where hours are shown there is at least one.
pub format_seconds-IsSpan : (seconds : ℕ) → IsSpan seconds (format_seconds seconds)
unfolding format_seconds
format_seconds-IsSpan seconds =
    if-P (IsSpan seconds) (ltb seconds 60) (λ e. (ground arith, refl))
      (λ e.
        if-P (IsSpan seconds) (ltb (seconds / 60) 60)
          (λ f. (ground arith, ground arith, ground arith, ground arith))
          (λ f. (ground arith, ground arith, ground arith, ground arith)))
