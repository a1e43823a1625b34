-- ===== src/Captures/Tests.antt =====
-- Runs of the captures' buttons.
use relay_lifeline.Prelude.{
  ℕ, ◌≡◌, refl, ◌*◌, suc, ◌-◌, true, false, [], ◌∷◌, none, some, ok, throw, All,
}
use relay_lifeline.Json.{null, type_error}
use relay_lifeline.Numbers.{Number, ratio, whole, num_add, num_lt}
use relay_lifeline.Settings.Durations.{
  sum_matches, DurationUnit, in_milliseconds, in_seconds, in_minutes, in_hours,
}
use relay_lifeline.Captures.{
  ask_delete, delete_capture, read_all, CaptureWorld, CaptureView, delete_button, raw_button,
  Rights, press_capture, duration_minutes,
}
use relay_lifeline.Captures.Permitted.{IsPermitted, press_capture-IsPermitted}

abbrev answering : CaptureWorld
answering = record {
  agreed = true;
  switched = λ call. throw type_error;
  done = λ call. ok tt;
  loaded = ok (record { available = true; active = false }, [], null);
  previewed = λ id. throw type_error;
}

abbrev looking : CaptureView
looking = record {
  status = none;
  records = "a" ∷ [];
  keys = none;
  preview = some (record { id = "a"; parts = null });
  request_limit = whole 5;
  timeout_text = "10";
  busy = false;
  errors = [];
}

abbrev operator : Rights
operator = record { can_operate = true; can_sensitive = false }

deletes :
    (press_capture answering operator (delete_button "a") looking).0
    ≡ ask_delete ∷ delete_capture "a" ∷ read_all ∷ []
unfolding press_capture
deletes = refl

closes_preview : (press_capture answering operator (delete_button "a") looking).1.preview ≡ none
unfolding press_capture
closes_preview = refl

hides_raw : (press_capture answering operator (raw_button "a") looking).0 ≡ []
unfolding press_capture
hides_raw = refl

press_capture-IsPermitted_example :
    All
      (IsPermitted operator answering)
      (press_capture answering operator (delete_button "a") looking).0
press_capture-IsPermitted_example =
    press_capture-IsPermitted answering operator (delete_button "a") looking

divided : ℕ → Number → Number
divided k (ratio sign p q) = ratio sign p (suc q * k - 1)
divided k n = n

times : ℕ → Number → Number
times k (ratio sign p q) = ratio sign (p * k) q
times k n = n

abbrev exact : DurationUnit → Number → Number
exact in_milliseconds n = divided 60000 n
exact in_seconds n = divided 60 n
exact in_minutes n = n
exact in_hours n = times 60 n

rounds_up : duration_minutes num_add exact "90s" ≡ whole 2
unfolding duration_minutes num_add num_lt divided sum_matches
rounds_up = refl
