-- ===== src/Console/Payload.antt =====
-- The settings that a save sends.
use relay_lifeline.Prelude.{
  ◌≡◌, ◌≢◌, inl, inr, refl, Option, none, some, String, String_keys, arith, eq_iff, Bool-cases,
}
use relay_lifeline.Json.{Value, Fields, lookup, truthy}
use relay_lifeline.Json.Laws.{lookup-put}
use relay_lifeline.Console.Saving.{either, property, with_property, config_for_global_save}

-- The settings that are sent for `config`: its own properties, but the traffic policy that is saved, if
-- there is a truthy one.
abbrev pub IsPayload : Option Fields → Fields → Fields → Type 0
IsPayload saved_config config payload =
    (lookup "trafficPolicy" payload
      ≡ either (property "trafficPolicy" saved_config) (lookup "trafficPolicy" config))
    × ((key : String) → key ≢ "trafficPolicy" → lookup key payload ≡ lookup key config)

with_property-lookup :
    (value : Option Value) (config : Fields)
    → (value ≡ none → lookup "trafficPolicy" config ≡ none)
    → (lookup "trafficPolicy" (with_property "trafficPolicy" value config) ≡ value)
      × ((key : String)
          → key ≢ "trafficPolicy"
          → lookup key (with_property "trafficPolicy" value config) ≡ lookup key config)
with_property-lookup none config h = (h refl, λ key e. refl)
with_property-lookup (some value) config h = (
  lookup-put "trafficPolicy" "trafficPolicy" value config,
  λ key e.
      ground (arith, e, lookup-put key "trafficPolicy" value config, eq_iff "trafficPolicy" key),
)

either-none : (a b : Option Value) → either a b ≡ none → b ≡ none
unfolding either truthy
either-none none b h = h
either-none (some v) b h = elim (Bool-cases (truthy (some v))) [
  | inl there ↦ absurd (let e = rw there at h in cc)
  | inr other ↦ ground (arith, h, other)
]

pub config_for_global_save-IsPayload :
    (saved_config : Option Fields) (config : Fields)
    → IsPayload saved_config config (config_for_global_save saved_config config)
unfolding config_for_global_save
config_for_global_save-IsPayload saved_config config =
    with_property-lookup _ config
      (either-none (property "trafficPolicy" saved_config) (lookup "trafficPolicy" config))
