-- ===== src/Realtime/Receiving.antt =====
-- A message of the server's stream: `receive` in the subscription of web/src/api.ts, with the handlers
-- that web/src/App.tsx gives it.
pub mod Checked
use relay_lifeline.Prelude.{
  ◌*◌, ◌-◌, Bool, true, false, not, ◌&&◌, ◌||◌, Option, none, some, String, Outcome, ok, throw,
  ◌>>=◌, ◌>>◌, if◌then◌else◌,
}
use relay_lifeline.Numbers.{Number, ratio, whole, num_eq, num_le, is_integer}
use relay_lifeline.Json.{Value, num, str, Fields, lookup, Thrown}
use relay_lifeline.Api.{expect_object, invalid_response}
use relay_lifeline.Realtime.{Board, on_event}

abbrev pub size_of : Number → Number
size_of (ratio sign p q) = ratio false p q
size_of n = n

-- `Number.isSafeInteger`.
unfoldable pub is_safe_integer : Option Value → Bool
is_safe_integer (some (num n)) = is_integer n && num_le (size_of n) (whole 9007199254740991)
is_safe_integer _ = false

-- `value === 1`.
unfoldable pub is_one : Option Value → Bool
is_one (some (num n)) = num_eq n (whole 1)
is_one _ = false

-- The type of an event, if it is a text.
unfoldable pub kind_of : Option Value → Option String
kind_of (some (str kind)) = some kind
kind_of _ = none

-- The three checks, and the type.
unfoldable pub check_event : Fields → Outcome Thrown String
unfolding is_one is_safe_integer kind_of
check_event event =
    if is_one (lookup "version" event) && is_safe_integer (lookup "sequence" event)
    then (elim (kind_of (lookup "type" event)) [
      | none ↦ throw (invalid_response "Invalid realtime event")
      | some kind ↦ ok kind
    ])
    else throw (invalid_response "Invalid realtime event")

-- `parse` is the language's JSON.parse.
module _ (parse : String → Outcome Thrown Value) where
  unfoldable pub handle_message : String → Board → Outcome Thrown Board
  unfolding check_event
  handle_message text b = do
    value ← parse text
    event ← expect_object (some value) "realtimeEvent"
    kind ← check_event event
    on_event kind (lookup "data" event) b

  -- The board after a message, and whether everything is then refreshed.
  unfoldable pub receive : String → Board → Board × Bool
  unfolding handle_message
  receive text b = elim (handle_message text b) [ throw reason ↦ (b, true) | ok b' ↦ (b', false) ]
