-- ===== src/Console/Startup/Late.antt =====
-- What reads of the start do after the console has moved on.
use relay_lifeline.Prelude.{
  ◌≡◌, refl, ℕ, suc, true, [], ◌∷◌, Option, none, some, String, ok, String_keys, has, ℕ_keys,
}
use relay_lifeline.Json.{Value, Thrown}
use relay_lifeline.Paging.{ListFilters}
use relay_lifeline.Console.{AuthReason, SessionInfo, reset_authentication, history}
use relay_lifeline.Console.Control.{login}
use relay_lifeline.Console.Startup.{
  config_answer, take_answer, Startup, others, run_effect, end_session, sign_in, take_read, ended,
  signed_in, read_answered, on_start, on_starts,
}

-- The run of a signed-in user, the answer to its session, and an answer to a read.
abbrev begun : Startup → Startup
begun s = record s {
  console = record s.console { bootstrap_error = ""; timeline = none; diagnostic_report = none };
  effect = some s.next_number;
  asking = s.next_number ∷ s.asking;
  next_number = suc s.next_number;
}

abbrev answered : ℕ → SessionInfo → Startup → Startup
answered number session s = record s {
  console = record s.console { session = some session };
  asking = others number s.asking;
  reading = number ∷ s.reading;
}

-- The history has been filtered, in a session.
abbrev filtered : ListFilters → Startup → Startup
filtered filters s = begun (record s {
  console = record s.console {
    hash = history;
    history_list = record s.console.history_list { filters = filters };
  };
})

-- The question about unsaved settings has been asked.
abbrev awaiting : String → Startup → Startup
awaiting title s = record s {
  console = record s.console {
    confirmation_pending = true;
    confirmation = some (record { title = title; ticket = s.console.next_ticket });
    next_ticket = suc s.console.next_ticket;
  };
  leaving = some (record { ticket = s.console.next_ticket; saved = s.console.saved_config });
}

module _ (error_message : Thrown → String) (stringify : Value → String) (title : String) where
  -- If a session ends while its settings are read, and another begins, and only then the settings
  -- arrive, then the console has them, as the ones that are saved and the ones of the form, in the other
  -- session.
  pub ended-late :
      (s : Startup) (number : ℕ) (reason : Option AuthReason) (next : SessionInfo) (value : Value)
      → has number s.reading ≡ true
      → let t =
          on_starts error_message stringify title s (
            ended reason ∷ signed_in next ∷ read_answered number (ok (config_answer value)) ∷ []) in
        (t.console.session ≡ some next)
        × (t.console.config ≡ some value)
        × (t.console.saved_config ≡ some value)
  unfolding on_starts on_start end_session reset_authentication sign_in login run_effect take_read
      take_answer
  ended-late s number reason next value reads = rw reads (refl, refl, refl)
