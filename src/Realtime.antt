-- ===== src/Realtime.antt =====
-- The events of the server's stream in web/src/App.tsx: what the console's lists become.
pub mod Updates
pub mod Receiving
mod Tests
use relay_lifeline.Prelude.{
  Bool, true, false, ◌||◌, Option, none, some, String, Outcome, ok, throw, if◌then◌else◌, ◌==◌,
  String_keys, ◌>>=◌,
}
use relay_lifeline.Json.{Value, arr, nil, Thrown, get_prop, truthy, or_value}

-- What is shown of the relay. The data of an event is taken as it came.
pub record Board : Type 0 where
  pub status : Option Value
  pub alerts : Option Value
  pub incidents : Option Value
  pub repeat_tasks : Option Value
  pub metrics : Option Value

-- Only the first property can throw, so that a snapshot is taken whole or not at all.
unfoldable pub take_snapshot : Option Value → Board → Outcome Thrown Board
take_snapshot payload b = do
  status ← get_prop payload "status"
  alerts ← get_prop payload "alerts"
  incidents ← get_prop payload "incidents"
  repeat_tasks ← get_prop payload "repeatTasks"
  metrics ← get_prop payload "metrics"
  ok (record {
    status = status;
    alerts = alerts;
    incidents = incidents;
    repeat_tasks = some (or_value repeat_tasks (arr nil));
    metrics = if truthy metrics then metrics else b.metrics;
  })

unfoldable pub take_update : String → Option Value → Board → Board
take_update kind payload b =
    if kind == "status"
    then record b { status = payload }
    else if kind == "alerts"
    then record b { alerts = payload }
    else if kind == "incidents"
    then record b { incidents = payload }
    else if kind == "metrics"
    then record b { metrics = payload }
    else if kind == "repeat_tasks"
    then record b { repeat_tasks = payload }
    else b

unfoldable pub on_event : String → Option Value → Board → Outcome Thrown Board
unfolding take_snapshot take_update
on_event kind payload b =
    if kind == "sync" || kind == "reset"
    then take_snapshot payload b
    else ok (take_update kind payload b)
