-- ===== src/Settings/Tests.antt =====
-- Fields of the settings.
use relay_lifeline.Prelude.{
  ℕ, ◌≡◌, refl, true, false, none, some, String, List, [], ◌∷◌, ok, throw, String_keys, All, arith,
}
use relay_lifeline.Json.{
  obj, str, num, bool, null, Fields, end, field, put, lookup, spread, type_error,
}
use relay_lifeline.Numbers.{Number, whole, num_eq, num_add, num_mul, num_lt, is_multiple, div_whole}
use relay_lifeline.Settings.Sizes.{kib, mib, byte_factor, byte_size, largest_unit, byte_parts}
use relay_lifeline.Settings.Durations.{in_minutes, duration_seconds, duration_parts}
use relay_lifeline.Settings.Edits.{patch, GovernanceEntry, governance_totals, changed_sections}
use relay_lifeline.Settings.Edits.Scoped.{setting, setting-patch}
use relay_lifeline.Settings.Releases.{
  canary, full, ask_publish, publish, reload_settings, read_policy, ReleaseWorld, Releases,
  publish_policy,
}
use relay_lifeline.Settings.Releases.Agreed.{IsPublishing, publish_policy-IsPublishing}
use relay_lifeline.Settings.Upkeep.{
  ConfigVersion, authentication_path, ask_restore, rollback_version, reload_config, list_versions,
  UpkeepWorld, Upkeep, rollback_config,
}
use relay_lifeline.Settings.Upkeep.Restored.{IsRestoring, rollback_config-IsRestoring}
use relay_lifeline.Settings.Durations.Written.{written, duration_parts-duration_seconds}

-- The numbers of these tests are doubles, so that rounding leaves them.
abbrev by_halves : Number → Number
by_halves n = n

abbrev in_full : Number → String
in_full n = "?"

hour_and_a_half : num_eq (duration_seconds by_halves (some "1.5h")) (whole 5400) ≡ true
unfolding duration_seconds num_add num_mul num_eq
hour_and_a_half = refl

shown_as_minutes : duration_parts by_halves (some "1h30m") ≡ (whole 90, in_minutes)
unfolding duration_parts num_lt num_add num_mul is_multiple div_whole
shown_as_minutes = refl

a_gap : duration_seconds by_halves (some "1h 30m") ≡ whole 0
unfolding duration_seconds num_add num_mul
a_gap = refl

duration_parts-duration_seconds_example :
    duration_seconds by_halves (some (written in_full (duration_parts by_halves (some "1.5h"))))
    ≡ whole 5400
duration_parts-duration_seconds_example =
    duration_parts-duration_seconds by_halves in_full (λ n small. refl) (some "1.5h") 5400
      hour_and_a_half (omega arith) (omega arith)

abbrev retry_settings : Fields
retry_settings =
    field "retry" (obj (field "enabled" (bool true) (field "mode" (str "all-errors") end)))
      (field "queue" (obj (field "maxActive" (num (whole 4)) end)) end)

abbrev switched_off : Fields
switched_off = field "enabled" (bool false) end

switches_off :
    patch "retry" switched_off retry_settings
    ≡ field "retry"
        (obj (field "enabled" (bool false) (field "mode" (str "all-errors") end)))
        (field "queue" (obj (field "maxActive" (num (whole 4)) end)) end)
unfolding patch put lookup spread
switches_off = refl

setting-patch_example :
    setting "queue" "maxActive" (patch "retry" switched_off retry_settings) ≡ some (num (whole 4))
unfolding lookup spread
setting-patch_example = setting-patch "queue" "maxActive" "retry" switched_off retry_settings

abbrev used_by : String → ℕ → GovernanceEntry
used_by scope n = record {
  scope = some scope;
  active = n;
  requests = n;
  tokens = n;
  cost_micros = n;
  unknown_usage = 0;
}

abbrev used : List GovernanceEntry
used = used_by "principal" 3 ∷ used_by "tenant" 3 ∷ []

counts_once : (governance_totals used).active ≡ 3
unfolding governance_totals
counts_once = refl

changed_one :
    changed_sections
      (λ v. elim v [ obj fields ↦ "o" | _ ↦ "" ])
      (field "slo" (obj end) end)
      (field "slo" null end)
    ≡ "policy" ∷ []
unfolding changed_sections lookup
changed_one = refl

abbrev draft_saved : Releases
draft_saved = record {
  traffic_policy = null;
  desired_revision = some "7";
  policy_status = none;
  policy_releases = some (record { current_revision = "p1"; draft_revision = some "d2" });
  policy_decision = none;
  policy_error = none;
  policy_busy = "";
  canary_percent = whole 10;
  simulator = record {
    method = "POST";
    path = "/v1/responses";
    model = "";
    principal = "anonymous";
  };
}

abbrev agreeing : ReleaseWorld
agreeing = record {
  agreed = true;
  changed = λ call. ok tt;
  read = ok (null, record { current_revision = "d2"; draft_revision = none });
  decided = throw type_error;
  status_read = throw type_error;
}

publishes_draft :
    (publish_policy agreeing canary draft_saved).0
    ≡ ask_publish canary (whole 10) false
      ∷ publish (record {
        config_revision = "7";
        draft_revision = some "d2";
        stage = canary;
        canary_percent = whole 10;
        policy = none;
      })
      ∷ reload_settings
      ∷ read_policy
      ∷ []
unfolding publish_policy
publishes_draft = refl

publish_policy-IsPublishing_example :
    All (IsPublishing agreeing full draft_saved) (publish_policy agreeing full draft_saved).0
publish_policy-IsPublishing_example = publish_policy-IsPublishing agreeing full draft_saved

abbrev before_change : ConfigVersion
before_change = record { name = "v1"; sha256 = none; fields = some (authentication_path ∷ []) }

abbrev careful : UpkeepWorld
careful = record {
  agreed = true;
  changed = λ call. ok tt;
  versions = ok [];
  notifications = throw type_error;
}

abbrev kept : Upkeep
kept = record {
  config_versions = before_change ∷ [];
  config_history_error = none;
  rollback_busy = "";
  notification_status = none;
  notification_deliveries = [];
  notification_error = none;
  notification_busy = false;
}

rollback_config-IsRestoring_example :
    All (IsRestoring careful before_change) (rollback_config careful before_change kept).0
rollback_config-IsRestoring_example = rollback_config-IsRestoring careful before_change kept

restores :
    (rollback_config careful before_change kept).0
    ≡ ask_restore "v1" true
      ∷ rollback_version before_change true
      ∷ reload_config
      ∷ list_versions
      ∷ []
unfolding rollback_config
restores = refl

abbrev no_spaces : String → String
no_spaces text = text

half_a_mib : byte_parts by_halves no_spaces in_full "1.5mib" ≡ (whole 1536, kib)
unfolding byte_parts byte_size largest_unit byte_factor num_lt num_eq num_mul is_multiple div_whole
half_a_mib = refl

no_size : byte_parts by_halves no_spaces in_full "1.MiB" ≡ (whole 0, mib)
unfolding byte_parts byte_size
no_size = refl
