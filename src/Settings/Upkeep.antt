-- ===== src/Settings/Upkeep.antt =====
-- The versions of the settings and the notifications in web/src/views/SettingsView.tsx: what is called,
-- in order, and what is shown after it.
pub mod Restored
use relay_lifeline.Prelude.{
  Bool, true, false, not, List, [], ◌∷◌, ◌++◌, Option, none, some, String, Outcome, ok, throw,
  if◌then◌else◌, ◌==◌, String_keys, any,
}
use relay_lifeline.Json.{Value, Thrown}

-- `fields` are the paths of the plan that applies the version; a plan of an older server has none.
pub record ConfigVersion : Type 0 where
  pub name : String
  pub sha256 : Option String
  pub fields : Option (List String)

-- The question of a rollback, with whether it warns of a change of the authentication.
pub data UpkeepCall : Type 0 where
  ask_restore : String → Bool → UpkeepCall
  rollback_version : ConfigVersion → Bool → UpkeepCall
  reload_config : UpkeepCall
  list_versions : UpkeepCall
  read_notifications : UpkeepCall
  test_notification : UpkeepCall

-- The answers: to the question, to a change, to the list of versions, and to the status and the
-- deliveries of the notifications, which are read at once.
pub record UpkeepWorld : Type 0 where
  pub agreed : Bool
  pub changed : UpkeepCall → Outcome Thrown (Unit {0})
  pub versions : Outcome Thrown (List ConfigVersion)
  pub notifications : Outcome Thrown (Value × List Value)

pub record Upkeep : Type 0 where
  pub config_versions : List ConfigVersion
  pub config_history_error : Option Thrown
  pub rollback_busy : String
  pub notification_status : Option Value
  pub notification_deliveries : List Value
  pub notification_error : Option Thrown
  pub notification_busy : Bool

abbrev pub UpkeepRun : Type 0
UpkeepRun = List UpkeepCall × Upkeep

unfoldable pub refresh_config_versions : UpkeepWorld → Upkeep → Upkeep
refresh_config_versions world u = elim world.versions [
  | throw reason ↦ record u { config_history_error = some reason }
  | ok versions ↦ record u { config_versions = versions; config_history_error = none }
]

abbrev pub authentication_path : String
authentication_path = "management-security.authentication"

unfoldable pub changes_authentication : ConfigVersion → Bool
changes_authentication version = elim version.fields [
  | none ↦ false
  | some fields ↦ any (λ path. path == authentication_path) fields
]

-- The rollback, the reload of the settings, which does not throw, and the list of versions.
unfoldable pub restore : UpkeepWorld → UpkeepCall → ConfigVersion → Upkeep → UpkeepRun
unfolding refresh_config_versions changes_authentication
restore world asked version u =
    let call = rollback_version version (changes_authentication version) in
    let calm = record u { config_history_error = none; rollback_busy = "" } in
    elim (world.changed call) [
      | throw reason ↦ (asked ∷ call ∷ [], record calm { config_history_error = some reason })
      | ok _ ↦
          (asked ∷ call ∷ reload_config ∷ list_versions ∷ [], refresh_config_versions world calm)
    ]

unfoldable pub rollback_config : UpkeepWorld → ConfigVersion → Upkeep → UpkeepRun
unfolding restore changes_authentication
rollback_config world version u =
    let asked = ask_restore version.name (changes_authentication version) in
    if world.agreed then restore world asked version u else (asked ∷ [], u)

unfoldable pub refresh_notifications : UpkeepWorld → Upkeep → Upkeep
refresh_notifications world u = elim world.notifications [
  | throw reason ↦ record u { notification_error = some reason }
  | ok (status, deliveries) ↦ record u {
    notification_status = some status;
    notification_deliveries = deliveries;
    notification_error = none;
  }
]

-- The refresh reports its failure itself, so that it ends the handler like a success.
unfoldable pub send_test_notification : UpkeepWorld → Upkeep → UpkeepRun
unfolding refresh_notifications
send_test_notification world u =
    let calm = record u { notification_busy = false } in
    elim (world.changed test_notification) [
      | throw reason ↦ (test_notification ∷ [], record calm { notification_error = some reason })
      | ok _ ↦ (test_notification ∷ read_notifications ∷ [], refresh_notifications world calm)
    ]
