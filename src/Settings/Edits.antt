-- ===== src/Settings/Edits.antt =====
-- The edits of web/src/views/SettingsView.tsx: the changes of a section of the settings and of the
-- entries of its lists, which sections are changed, and the totals of the governance entries.
pub mod Scoped
pub mod Measured
use relay_lifeline.Prelude.{
  is_empty, ℕ, zero, suc, ◌+◌, Bool, true, false, not, ◌&&◌, ◌||◌, List, [], ◌∷◌, ◌++◌, map, Option,
  none, some, String, if◌then◌else◌, ◌==◌, String_keys, filter, has, Keyed,
}
use relay_lifeline.Json.{
  Value, obj, arr, str, num, Fields, end, field, Items, nil, cons, lookup, put, spread,
}
use relay_lifeline.Numbers.{whole}

-- `{ ...base, ...changes }`.
unfoldable pub put_all : Fields → Fields → Fields
put_all end base = base
put_all (field key value rest) base = put_all rest (put key value base)

-- `{ ...config, [key]: { ...config[key], ...changes } }`.
unfoldable pub patch : String → Fields → Fields → Fields
unfolding put_all
patch key changes config = put key (obj (put_all changes (spread (lookup key config)))) config

-- The object with changes in one of its objects: patchOIDC, for the sign-on of the management.
unfoldable pub patch_oidc : Fields → Fields → Fields
unfolding patch put_all
patch_oidc changes config =
    patch "managementSecurity"
      (field "oidc"
        (obj
          (put_all changes (spread (lookup "oidc" (spread (lookup "managementSecurity" config))))))
        end)
      config

-- `list.map((entry, i) => i === index ? { ...entry, ...changes } : entry)`.
unfoldable pub patch_entry : ℕ → Fields → Items → Items
unfolding put_all
patch_entry index changes nil = nil
patch_entry zero changes (cons entry rest) = cons (obj (put_all changes (spread (some entry)))) rest
patch_entry (suc index) changes (cons entry rest) = cons entry (patch_entry index changes rest)

-- The list that a property holds.
abbrev pub items_of : Option Value → Items
items_of (some (arr items)) = items
items_of _ = nil

abbrev pub list_at : String → String → Fields → Items
list_at key name config = items_of (lookup name (spread (lookup key config)))

-- patchTarget, patchRule and patchGovernanceBudget are this, each at its list.
unfoldable pub patch_list : String → String → ℕ → Fields → Fields → Fields
unfolding patch patch_entry
patch_list key name index changes config =
    patch key (field name (arr (patch_entry index changes (list_at key name config))) end) config

abbrev pub append_entry : Items → Value → Items
append_entry nil entry = cons entry nil
append_entry (cons x rest) entry = cons x (append_entry rest entry)

abbrev zero_value : Value
zero_value = num (whole 0)

unfoldable pub add_governance_budget : Fields → Fields
unfolding patch
add_governance_budget config =
    patch "governance"
      (field "budgets"
        (arr (
          append_entry (list_at "governance" "budgets" config) (
            obj (
              field "scope" (str "tenant") (
                field "key" (str "") (
                  field "maxConcurrent" zero_value (
                    field "requestsPerMinute" zero_value (
                      field "tokenLimit" zero_value (field "costLimitMicros" zero_value end)))))))))
        end)
      config

-- `Array.from(new Set(list))`, after what is there already.
module _ {A : Type 0} ⦃keys : Keyed A⦄ where
  unfoldable pub distinct_after : List A → List A → List A
  distinct_after seen [] = seen
  distinct_after seen (x ∷ rest) = distinct_after (if has x seen then seen else seen ++ x ∷ []) rest

-- The event types that are notified of.
unfoldable pub toggle_event : String → Bool → List String → List String
unfolding distinct_after
toggle_event event_type enabled event_types =
    if enabled
    then distinct_after [] (event_types ++ event_type ∷ [])
    else filter (λ value. not (value == event_type)) event_types

-- The tab of each section.
abbrev pub config_tabs : List (String × String)
config_tabs =
    ("server", "general")
    ∷ ("upstream", "general")
    ∷ ("upstreams", "general")
    ∷ ("localization", "general")
    ∷ ("retry", "retry")
    ∷ ("stream", "retry")
    ∷ ("queue", "traffic")
    ∷ ("history", "traffic")
    ∷ ("observability", "safety")
    ∷ ("risk", "safety")
    ∷ ("capture", "capture")
    ∷ ("notifications", "notifications")
    ∷ ("logging", "logging")
    ∷ ("persistence", "continuity")
    ∷ ("incidents", "continuity")
    ∷ ("lifecycle", "continuity")
    ∷ ("managementSecurity", "continuity")
    ∷ ("metricsExport", "continuity")
    ∷ ("governance", "traffic")
    ∷ ("egress", "safety")
    ∷ ("slo", "policy")
    ∷ ("trafficPolicy", "policy")
    ∷ []

-- `stringify` is the language's text of a value.
module _ (stringify : Value → String) where
  unfoldable pub section_differs : Option Value → Option Value → Bool
  section_differs none none = false
  section_differs (some a) (some b) = not (stringify a == stringify b)
  section_differs _ _ = true

  unfoldable pub changed_tabs : List (String × String) → Fields → Fields → List String
  unfolding section_differs
  changed_tabs [] config baseline = []
  changed_tabs ((key, tab) ∷ rest) config baseline =
      let later = changed_tabs rest config baseline in
      if section_differs (lookup key config) (lookup key baseline) then tab ∷ later else later

  unfoldable pub changed_sections : Fields → Fields → List String
  unfolding changed_tabs distinct_after
  changed_sections config baseline = distinct_after [] (changed_tabs config_tabs config baseline)

-- An entry of the governance status; a count that is missing is 0.
pub record GovernanceEntry : Type 0 where
  pub scope : Option String
  pub active : ℕ
  pub requests : ℕ
  pub tokens : ℕ
  pub cost_micros : ℕ
  pub unknown_usage : ℕ

pub record Totals : Type 0 where
  pub active : ℕ
  pub requests : ℕ
  pub tokens : ℕ
  pub cost_micros : ℕ
  pub unknown_usage : ℕ

abbrev pub no_usage : Totals
no_usage = record { active = 0; requests = 0; tokens = 0; cost_micros = 0; unknown_usage = 0 }

unfoldable pub add_entry : Totals → GovernanceEntry → Totals
add_entry result entry = record {
  active = result.active + entry.active;
  requests = result.requests + entry.requests;
  tokens = result.tokens + entry.tokens;
  cost_micros = result.cost_micros + entry.cost_micros;
  unknown_usage = result.unknown_usage + entry.unknown_usage;
}

unfoldable pub add_entries : Totals → List GovernanceEntry → Totals
unfolding add_entry
add_entries result [] = result
add_entries result (entry ∷ rest) = add_entries (add_entry result entry) rest

-- `!entry.scope || entry.scope === "principal"`.
abbrev pub is_measured : GovernanceEntry → Bool
is_measured entry = elim entry.scope [
  | none ↦ true
  | some scope ↦ scope == "" || scope == "principal"
]

-- The entries of single scopes count only where there is none of a principal.
unfoldable pub governance_totals : List GovernanceEntry → Totals
unfolding add_entries
governance_totals entries =
    let measured = filter is_measured entries in
    add_entries no_usage (if is_empty measured then entries else measured)
