-- ===== src/Realtime/Receiving/Checked.antt =====
-- What a message of the stream does to the console.
use relay_lifeline.Prelude.{
  ◌≡◌, true, ◌||◌, Option, some, String, Outcome, ok, if◌then◌else◌, ◌==◌, String_keys,
}
use relay_lifeline.Json.{Value, str, obj, Fields, lookup, Thrown}
use relay_lifeline.Realtime.{Board, take_snapshot}
use relay_lifeline.Realtime.Updates.{IsUpdate}
use relay_lifeline.Realtime.Receiving.{is_safe_integer, is_one}

-- The version is 1, the sequence number is a safe integer, and the type is this text.
abbrev pub IsEvent : Fields → String → Type 0
IsEvent event kind =
    (is_one (lookup "version" event) ≡ true)
    × (is_safe_integer (lookup "sequence" event) ≡ true)
    × (lookup "type" event ≡ some (str kind))

-- The board is that of the snapshot, or one part is that of the update.
abbrev pub IsTaken : String → Option Value → Board → Board → Type 0
IsTaken kind payload before after =
    if kind == "sync" || kind == "reset"
    then (take_snapshot payload before ≡ ok after)
    else IsUpdate kind payload before after

module _ (parse : String → Outcome Thrown Value) where
  -- A message that the console accepts is an object that passes the three checks.
  abbrev pub IsAccepted : String → Board → Board → Type 0
  IsAccepted text before after =
      (event : Fields) × (kind : String) × (parse text ≡ ok (obj event))
      × IsEvent event kind
      × IsTaken kind (lookup "data" event) before after
