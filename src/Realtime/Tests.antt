-- ===== src/Realtime/Tests.antt =====
-- Events of the stream.
use relay_lifeline.Prelude.{
  ◌≡◌, refl, none, some, String, Outcome, ok, throw, if◌then◌else◌, ◌==◌, String_keys,
}
use relay_lifeline.Numbers.{whole}
use relay_lifeline.Json.{
  Value, Fields, field, num, Thrown, get_prop, truthy, or_value, arr, nil, str, obj, end,
  type_error,
}
use relay_lifeline.Realtime.{Board, on_event}

abbrev bare : Board
bare = record {
  status = none;
  alerts = none;
  incidents = none;
  repeat_tasks = none;
  metrics = none;
}

empty_snapshot :
    on_event "sync" (some (obj end)) bare ≡ ok (record bare { repeat_tasks = some (arr nil) })
unfolding on_event get_prop truthy or_value
empty_snapshot = refl

no_snapshot : on_event "reset" none bare ≡ throw type_error
unfolding on_event get_prop truthy or_value
no_snapshot = refl

abbrev alert_event : Fields
alert_event =
    field "version" (num (whole 1))
      (field "sequence" (num (whole 7)) (field "type" (str "alerts") (field "data" (str "a") end)))

-- A parser that knows this one text.
abbrev parse_one : String → Outcome Thrown Value
parse_one text = if text == "alerts" then ok (obj alert_event) else throw type_error
