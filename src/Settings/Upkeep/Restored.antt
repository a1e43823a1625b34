-- ===== src/Settings/Upkeep/Restored.antt =====
-- What a return to an earlier version of the settings calls.
use relay_lifeline.Prelude.{
  if-P, ◌≡◌, ◌↔◌, refl, inl, inr, true, List, [], ◌∷◌, Option, none, some, String, ◌==◌,
  String_keys, All, any, has, Outcome-cases, arith,
}
use relay_lifeline.Settings.Upkeep.{
  ConfigVersion, UpkeepCall, ask_restore, rollback_version, reload_config, list_versions,
  UpkeepWorld, Upkeep, UpkeepRun, authentication_path, changes_authentication, restore,
  rollback_config,
}

-- The version is known to change the authentication.
abbrev pub NamesAuthentication : ConfigVersion → Type 0
NamesAuthentication version =
    (fields : List String) × (version.fields ≡ some fields)
    × (has authentication_path fields ≡ true)

abbrev pub IsRestoring : UpkeepWorld → ConfigVersion → UpkeepCall → Type 0
IsRestoring world version (ask_restore name warns) =
    (name ≡ version.name) × ((warns ≡ true) ↔ NamesAuthentication version)
IsRestoring world version (rollback_version v changes) =
    (world.agreed ≡ true) × (v ≡ version) × ((changes ≡ true) ↔ NamesAuthentication version)
IsRestoring world version reload_config = world.agreed ≡ true
IsRestoring world version list_versions = world.agreed ≡ true
IsRestoring world version _ = ⊥

any-has :
    (fields : List String)
    → any (λ path. path == authentication_path) fields ≡ has authentication_path fields
any-has [] = refl
any-has (x ∷ rest) = ground (arith, any-has rest)

changes-Names :
    (name : String) (sha : Option String) (fields : Option (List String))
    → let version : ConfigVersion = record { name = name; sha256 = sha; fields = fields } in
      (changes_authentication version ≡ true) ↔ NamesAuthentication version
unfolding changes_authentication
changes-Names name sha none =
    ((λ e. absurd (let no : ⊥ = cc in no)), (λ (fields, e, _). absurd (let no : ⊥ = cc in no)))
changes-Names name sha (some paths) = (
  (λ e. (paths, refl, ground (arith, any-has paths))),
  (λ (fields, e, h). let same : paths ≡ fields = cc in ground (arith, any-has paths)),
)

restore-IsRestoring :
    (world : UpkeepWorld) (asked : UpkeepCall) (version : ConfigVersion) (u : Upkeep)
    → world.agreed ≡ true
    → IsRestoring world version asked
    → All (IsRestoring world version) (restore world asked version u).0
unfolding restore
restore-IsRestoring world asked version u agreed h =
    let call = rollback_version version (changes_authentication version) in
    let sent : IsRestoring world version call =
      (agreed, refl, changes-Names version.name version.sha256 version.fields) in
    elim (Outcome-cases (world.changed call)) [
      | inl (why, e) ↦ rw (e, restore) (h, (sent, tt))
      | inr (_, e) ↦ rw (e, restore) (h, (sent, (agreed, (agreed, tt))))
    ]

-- A rollback of the settings calls nothing but: the question, for that version, with the warning of a
-- change of the authentication exactly if the plan of the version names it; and, only if the user agrees,
-- the rollback to that version, sent as such a change exactly then; and the reads after it.
pub rollback_config-IsRestoring :
    (world : UpkeepWorld) (version : ConfigVersion) (u : Upkeep)
    → All (IsRestoring world version) (rollback_config world version u).0
unfolding rollback_config
rollback_config-IsRestoring world version u =
    let asked = ask_restore version.name (changes_authentication version) in
    let h : IsRestoring world version asked =
      (refl, changes-Names version.name version.sha256 version.fields) in
    if-P (λ (run : UpkeepRun). All (IsRestoring world version) run.0) world.agreed
      (λ agreed. restore-IsRestoring world asked version u agreed h) (λ _. (h, tt))
