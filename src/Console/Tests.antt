-- ===== src/Console/Tests.antt =====
-- The console on concrete happenings, and its theorems at them.
use relay_lifeline.Prelude.{
  ◌≡◌, refl, true, false, List, [], ◌∷◌, none, some, String, ok, String_keys, arith,
}
use relay_lifeline.Json.{Value, str, Fields, end, field, lookup, put, truthy}
use relay_lifeline.Paging.{Loaded}
use relay_lifeline.Console.{
  Console, requests, settings, request_confirmation, finish_confirmation, reset_authentication,
  resolve, expired, edited, dirty, confirm_settings_leave, select_view, same_view,
}
use relay_lifeline.Console.Tickets.{
  IsTidy, Happening, ask, finish, reset, all_happen, all_happen-IsTidy,
}
use relay_lifeline.Console.Navigation.{IsAllowed, select_view-IsAllowed}
use relay_lifeline.Console.Saving.{
  Settings, SaveWorld, save, save_from, review, store, finish_save, config_for_global_save, either,
  ordinary_dirty,
}
use relay_lifeline.Console.Payload.{IsPayload}
use relay_lifeline.Console.Policy.{IsSaving, save-IsSaving}

console : Unit {0}
unfolding request_confirmation finish_confirmation reset_authentication resolve edited dirty
    confirm_settings_leave select_view same_view save save_from review store finish_save
    config_for_global_save either ordinary_dirty lookup put truthy
console = tt

abbrev nothing_loaded : Loaded Value
nothing_loaded = record {
  shown = [];
  filters = record { q = ""; state = ""; from = ""; to = "" };
  cursor = none;
  have_more = false;
}

abbrev pub signed_in : Console
signed_in = record {
  authenticated = true;
  auth_reason = none;
  session = some (record { capabilities = "view" ∷ "operate" ∷ [] });
  view = settings;
  hash = settings;
  status = none;
  health_summary = none;
  config = some (str "edited");
  saved_config = some (str "saved");
  config_state = none;
  upstream_status = none;
  governance_status = none;
  policy_status = none;
  telemetry_status = none;
  runtime_info = none;
  alerts = [];
  history_list = nothing_loaded;
  incident_list = [];
  incident_results = nothing_loaded;
  repeat_tasks = [];
  timeline = none;
  diagnostic_report = none;
  metrics = none;
  metric_errors = none;
  events = [];
  event_cursor = 0;
  message = "";
  bootstrap_error = "";
  search_target = none;
  mobile_tools = false;
  confirmation = none;
  confirmation_pending = false;
  next_ticket = 0;
  answers = [];
}

abbrev happenings : List Happening
happenings = ask "drain" ∷ ask "save" ∷ finish true ∷ ask "leave" ∷ reset (some expired) ∷ []

two_settled :
    (all_happen happenings signed_in).answers
    ≡ record { ticket = 1; result = false } ∷ record { ticket = 0; result = true } ∷ []
unfolding console
two_settled = refl

all_happen-IsTidy_example : IsTidy (all_happen happenings signed_in)
all_happen-IsTidy_example = all_happen-IsTidy happenings signed_in (record {
  refuses = refl;
  awaited = tt;
  once = tt;
  known = λ t e. absurd (cc e);
  covered = λ t e. absurd (omega (arith, e));
})

abbrev pub text : Value → String
text (str s) = s
text _ = ""

select_view-IsAllowed_example :
    IsAllowed text true requests signed_in (select_view text true requests true signed_in)
select_view-IsAllowed_example = select_view-IsAllowed text true requests true signed_in

abbrev edited_settings : Fields
edited_settings = field "retry" (str "new") (field "trafficPolicy" (str "draft") end)

abbrev saved_settings : Fields
saved_settings = field "retry" (str "old") (field "trafficPolicy" (str "released") end)

abbrev open_settings : Settings
open_settings = record {
  config = some edited_settings;
  saved_config = some saved_settings;
  config_state = none;
  saving = false;
  calls = [];
  notices = [];
}

abbrev agreeing : SaveWorld
agreeing = record {
  validated = λ _. ok (record { fields = [] });
  confirmed = true;
  stored = λ _ _. ok tt;
  state = ok (str "active");
  refreshed = ok tt;
}

sends_released :
    (save text agreeing open_settings).saved_config
    ≡ some (field "retry" (str "new") (field "trafficPolicy" (str "released") end))
unfolding console
sends_released = refl

save-IsSaving_example :
    (payload : Fields) × IsPayload (some saved_settings) edited_settings payload
    × IsSaving payload agreeing open_settings (save text agreeing open_settings)
    × ((save text agreeing open_settings).saving ≡ false)
save-IsSaving_example = save-IsSaving text agreeing open_settings edited_settings refl refl
