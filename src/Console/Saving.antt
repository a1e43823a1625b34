-- ===== src/Console/Saving.antt =====
-- The save of the settings in web/src/App.tsx: what it sends, and what it takes for saved.
use relay_lifeline.Prelude.{
  Bool, true, false, not, ◌&&◌, ◌||◌, List, ◌∷◌, Option, none, some, String, Outcome, ok, throw,
  any, if◌then◌else◌, ◌==◌, String_keys,
}
use relay_lifeline.Json.{Value, Fields, end, field, lookup, put, truthy, Thrown}

-- Of a plan: the paths of the changed fields.
pub record ConfigChangePlan : Type 0 where
  pub fields : List String

pub data SaveCall : Type 0 where
  validate_config : Fields → SaveCall
  ask_review : ConfigChangePlan → SaveCall
  save_config : Fields → Bool → SaveCall

pub data SaveNotice : Type 0 where
  unsaved_hint : SaveNotice
  settings_saved : SaveNotice
  failed : Thrown → SaveNotice

-- The answers of the server, and of the user if the review can be asked for.
pub record SaveWorld : Type 0 where
  pub validated : Fields → Outcome Thrown ConfigChangePlan
  pub confirmed : Bool
  pub stored : Fields → Bool → Outcome Thrown (Unit {0})
  pub state : Outcome Thrown Value
  pub refreshed : Outcome Thrown (Unit {0})

pub record Settings : Type 0 where
  pub config : Option Fields
  pub saved_config : Option Fields
  pub config_state : Option Value
  pub saving : Bool
  pub calls : List SaveCall
  pub notices : List SaveNotice

-- `a || b` where either may be missing.
unfoldable pub either : Option Value → Option Value → Option Value
either a b = if truthy a then a else b

abbrev pub property : String → Option Fields → Option Value
property key none = none
property key (some fields) = lookup key fields

abbrev pub with_property : String → Option Value → Fields → Fields
with_property key none fields = fields
with_property key (some value) fields = put key value fields

-- The settings to save, with the traffic policy that is saved already.
unfoldable pub config_for_global_save : Option Fields → Fields → Fields
unfolding either
config_for_global_save saved_config config =
    with_property "trafficPolicy"
      (either (property "trafficPolicy" saved_config) (lookup "trafficPolicy" config)) config

-- `stringify` is the language's text of a value.
module _ (stringify : Value → String) where
  abbrev differs : Option Value → Option Value → Bool
  differs none none = false
  differs (some a) (some b) = not (stringify a == stringify b)
  differs _ _ = true

  changed : Fields → Fields → Bool
  changed end saved = false
  changed (field key value rest) saved =
      not (key == "trafficPolicy") && differs (some value) (lookup key saved) || changed rest saved

  unfoldable pub ordinary_dirty : Option Fields → Fields → Bool
  unfolding changed
  ordinary_dirty none config = false
  ordinary_dirty (some saved) config = changed config saved

abbrev pub told : SaveNotice → Settings → Settings
told notice s = record s { notices = notice ∷ s.notices }

abbrev pub called : SaveCall → Settings → Settings
called call s = record s { calls = call ∷ s.calls }

-- After the settings are stored.
unfoldable pub finish_save : SaveWorld → Fields → Settings → Settings
finish_save world payload s =
    let stored = record s { saved_config = some payload } in
    elim world.state [
      | throw reason ↦ told (failed reason) stored
      | ok state ↦ elim world.refreshed [
        | throw reason ↦
            told (failed reason) (told settings_saved (record stored { config_state = some state }))
        | ok _ ↦ told settings_saved (record stored { config_state = some state })
      ]
    ]

unfoldable pub store : SaveWorld → Fields → ConfigChangePlan → Settings → Settings
unfolding finish_save
store world payload plan s =
    let authentication = any (λ path. path == "management-security.authentication") plan.fields in
    let sent = called (save_config payload authentication) s in
    elim (world.stored payload authentication) [
      | throw reason ↦ told (failed reason) sent
      | ok _ ↦ finish_save world payload sent
    ]

unfoldable pub review : SaveWorld → Fields → Settings → Settings
unfolding store
review world payload s =
    let sent = called (validate_config payload) s in
    elim (world.validated payload) [
      | throw reason ↦ told (failed reason) sent
      | ok plan ↦
          if world.confirmed
          then store world payload plan (called (ask_review plan) sent)
          else called (ask_review plan) sent
    ]

-- `saving` is set while the calls run and cleared after them, however they end.
unfoldable pub save_from : (Value → String) → SaveWorld → Option Fields → Settings → Settings
unfolding review config_for_global_save
save_from stringify world none s = s
save_from stringify world (some config) s =
    if s.saving
    then s
    else if not (ordinary_dirty stringify s.saved_config config)
    then told unsaved_hint s
    else record (review world (config_for_global_save s.saved_config config)
        (record s { saving = true })) { saving = false }

unfoldable pub save : (Value → String) → SaveWorld → Settings → Settings
unfolding save_from
save stringify world s = save_from stringify world s.config s
