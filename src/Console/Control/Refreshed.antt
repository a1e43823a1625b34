-- ===== src/Console/Control/Refreshed.antt =====
-- What the reads of the console do to the settings.
use relay_lifeline.Prelude.{◌≡◌, false, some, String, Outcome, ok, String_keys}
use relay_lifeline.Json.{Value, Thrown}
use relay_lifeline.Console.{Console, dirty}

-- The settings of the form, what they are compared with and the state of the server's.
abbrev pub SameSettings : Console → Console → Type 0
SameSettings s t =
    (t.config ≡ s.config) × (t.saved_config ≡ s.saved_config) × (t.config_state ≡ s.config_state)

module _ (stringify : Value → String) where
  -- The settings are those that the server gave, and there is nothing to save.
  abbrev pub IsFresh : Outcome Thrown (Value × Value) → Console → Type 0
  IsFresh config_read t =
      (value : Value) × (state : Value) × (config_read ≡ ok (value, state))
      × (t.config ≡ some value)
      × (t.saved_config ≡ some value)
      × (t.config_state ≡ some state)
      × (dirty stringify t ≡ false)
