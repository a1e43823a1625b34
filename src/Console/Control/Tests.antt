-- ===== src/Console/Control/Tests.antt =====
-- The controls on concrete answers, and their theorems at them.
use relay_lifeline.Prelude.{◌≡◌, refl, true, false, [], ◌∷◌, some, ok, throw, All, String_keys}
use relay_lifeline.Json.{str, obj, field, end, lookup, type_error}
use relay_lifeline.Console.{request_confirmation, finish_confirmation}
use relay_lifeline.Console.Tests.{signed_in}
use relay_lifeline.Console.Control.{
  drain, resume, change_mode, ask_mode, read_all, read_monitoring, ControlWorld, Overall, all_read,
  take_all, take_refresh, refresh, take_events, take_monitoring, refresh_monitoring, reported,
  then_monitoring, control, in_mode, is_paused, toggle_pause, after_question, set_control_mode,
  take_config, reload, offers_control, press_control, drain_button, pause_toggle,
}
use relay_lifeline.Console.Control.Controlled.{IsControlled, press_control-IsControlled}

controls : Unit {0}
unfolding take_all take_refresh refresh take_events take_monitoring refresh_monitoring reported
    then_monitoring control in_mode is_paused toggle_pause after_question set_control_mode
    take_config reload offers_control press_control request_confirmation finish_confirmation lookup
controls = tt

abbrev overall : Overall
overall = record {
  status = obj (field "mode" (str "draining") end);
  health = str "healthy";
  alerts = [];
  repeat_tasks = [];
  upstreams = str "up";
  governance = str "observe";
  telemetry = str "off";
}

abbrev world : ControlWorld
world = record {
  agreed = true;
  controlled = λ call. ok tt;
  overall = ok overall;
  incidents = λ filters cursor limit.
      ok (record { items = str "i1" ∷ []; next_cursor = some "c2"; has_more = true });
  incidents_first = false;
  monitoring =
      all_read (str "m") (str "e") (str "r")
        (record { events = []; next_after = 5; reset = false });
  policy = throw type_error;
  reloaded = ok tt;
  config_read = ok (str "released", str "state");
  error_message = λ why. "failed";
  reload_message = λ why. "not reloaded";
  mode_title = λ mode. "drain";
  reloaded_text = "reloaded";
}

drained :
    (press_control world drain_button signed_in).0
    ≡ ask_mode drain ∷ change_mode drain ∷ read_all ∷ read_monitoring ∷ []
unfolding controls
drained = refl

then_resumed :
    (press_control world pause_toggle (press_control world drain_button signed_in).1).0
    ≡ resume ∷ read_all ∷ read_monitoring ∷ []
unfolding controls
then_resumed = refl

press_control-IsControlled_example :
    All (IsControlled world signed_in) (press_control world drain_button signed_in).0
press_control-IsControlled_example = press_control-IsControlled world drain_button signed_in

-- A refresh leaves the incidents that are listed, but has their list go on from the end of another page.
goes_on_elsewhere :
    (refresh world signed_in).1.incident_results
    ≡ record signed_in.incident_results { cursor = some "c2"; have_more = true }
unfolding controls
goes_on_elsewhere = refl
