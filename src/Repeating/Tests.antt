-- ===== src/Repeating/Tests.antt =====
-- Runs of the repeat dialog.
use relay_lifeline.Prelude.{◌≡◌, refl, true, false, [], ◌∷◌, ok}
use relay_lifeline.Repeating.{RepeatForm, initial_form, ask_repeat, RepeatWorld, submit_repeat}

abbrev willing : RepeatWorld
willing = record { agreed = true; created = λ id options. ok tt; refreshed = ok tt }

abbrev endless : RepeatForm
endless = record initial_form { forever = true }

closes : (submit_repeat willing "r" endless).closed ≡ true
unfolding submit_repeat
closes = refl

asks_only :
    (submit_repeat (record willing { agreed = false }) "r" endless).calls ≡ ask_repeat true ∷ []
unfolding submit_repeat
asks_only = refl
