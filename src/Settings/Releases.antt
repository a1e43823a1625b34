-- ===== src/Settings/Releases.antt =====
-- The releases of the traffic policy in web/src/views/SettingsView.tsx: what the buttons call, in order.
pub mod Agreed
use relay_lifeline.Prelude.{
  ℕ, Bool, true, false, not, List, [], ◌∷◌, ◌++◌, Option, none, some, String, Outcome, ok, throw,
  if◌then◌else◌, ◌==◌, String_keys,
}
use relay_lifeline.Json.{Value, Thrown}
use relay_lifeline.Numbers.{Number, whole}

pub data PolicyStage : Type 0 where
  shadow : PolicyStage
  canary : PolicyStage
  full : PolicyStage

-- The body of a publication.
pub record Publication : Type 0 where
  pub config_revision : String
  pub draft_revision : Option String
  pub stage : PolicyStage
  pub canary_percent : Number
  pub policy : Option Value

pub record PolicyReleaseStatus : Type 0 where
  pub current_revision : String
  pub draft_revision : Option String

pub record PolicyReleaseRecord : Type 0 where
  pub revision : String
  pub created_at : String

-- The form of the simulator.
pub record Simulator : Type 0 where
  pub method : String
  pub path : String
  pub model : String
  pub principal : String

-- The question of a publication tells the stage, the percentage and whether it is shown as dangerous.
-- `simulate_policy` is sent with whether the draft is meant.
pub data ReleaseCall : Type 0 where
  ask_publish : PolicyStage → Number → Bool → ReleaseCall
  ask_rollback : String → ReleaseCall
  save_draft : Value → Option String → ReleaseCall
  publish : Publication → ReleaseCall
  rollback : String → String → ReleaseCall
  reload_settings : ReleaseCall
  read_policy : ReleaseCall
  simulate : Simulator → Bool → ReleaseCall
  read_status : ReleaseCall

-- The answers: to the question, to a call that changes the policy, to the reads after it, of the status
-- and the releases at once, and to the simulation and the read after it.
pub record ReleaseWorld : Type 0 where
  pub agreed : Bool
  pub changed : ReleaseCall → Outcome Thrown (Unit {0})
  pub read : Outcome Thrown (Value × PolicyReleaseStatus)
  pub decided : Outcome Thrown Value
  pub status_read : Outcome Thrown Value

pub record Releases : Type 0 where
  pub traffic_policy : Value
  pub desired_revision : Option String
  pub policy_status : Option Value
  pub policy_releases : Option PolicyReleaseStatus
  pub policy_decision : Option Value
  pub policy_error : Option Thrown
  pub policy_busy : String
  pub canary_percent : Number
  pub simulator : Simulator

-- The calls of a handler, in order, and the state after it.
abbrev pub Run : Type 0
Run = List ReleaseCall × Releases

unfoldable pub draft_of : Option PolicyReleaseStatus → Option String
draft_of none = none
draft_of (some status) = status.draft_revision

-- `draftRevision ? … : …`.
abbrev pub has_draft : Option String → Bool
has_draft none = false
has_draft (some revision) = not (revision == "")

abbrev pub failing : Thrown → Releases → Releases
failing reason r = record r { policy_error = some reason }

-- What is called after a change that succeeded, in front of the reads.
abbrev pub after_change : Bool → List ReleaseCall
after_change reloads = if reloads then reload_settings ∷ read_policy ∷ [] else read_policy ∷ []

unfoldable pub refresh_policy : ReleaseWorld → Releases → Releases
refresh_policy world r = elim world.read [
  | throw reason ↦ failing reason r
  | ok (status, releases) ↦ record r {
    policy_status = some status;
    policy_releases = some releases;
  }
]

-- A change under `busy`. The settings' own reload reports its failure itself, and does not throw.
unfoldable pub change_policy : ReleaseWorld → List ReleaseCall → ReleaseCall → Bool → Releases → Run
unfolding refresh_policy
change_policy world before call reloads r =
    let calm = record r { policy_error = none; policy_busy = "" } in
    elim (world.changed call) [
      | throw reason ↦ (before ++ call ∷ [], failing reason calm)
      | ok _ ↦ (before ++ call ∷ after_change reloads, refresh_policy world calm)
    ]

unfoldable pub save_policy_draft : ReleaseWorld → Releases → Run
unfolding change_policy draft_of
save_policy_draft world r =
    change_policy world [] (save_draft r.traffic_policy (draft_of r.policy_releases)) false r

unfoldable pub is_full : PolicyStage → Bool
is_full full = true
is_full _ = false

unfoldable pub percent_for : PolicyStage → Number → Number
percent_for canary percent = percent
percent_for _ percent = whole 100

unfoldable pub publication : String → PolicyStage → Releases → Publication
unfolding draft_of percent_for
publication revision stage r = record {
  config_revision = revision;
  draft_revision = draft_of r.policy_releases;
  stage = stage;
  canary_percent = percent_for stage r.canary_percent;
  policy = if has_draft (draft_of r.policy_releases) then none else some r.traffic_policy;
}

unfoldable pub publish_at : ReleaseWorld → PolicyStage → Option String → Releases → Run
unfolding change_policy publication is_full
publish_at world stage none r = ([], r)
publish_at world stage (some revision) r =
    let asked = ask_publish stage r.canary_percent (is_full stage) in
    if world.agreed
    then change_policy world (asked ∷ []) (publish (publication revision stage r)) true r
    else (asked ∷ [], r)

unfoldable pub publish_policy : ReleaseWorld → PolicyStage → Releases → Run
unfolding publish_at
publish_policy world stage r = publish_at world stage r.desired_revision r

unfoldable pub rollback_at : ReleaseWorld → PolicyReleaseRecord → Option String → Releases → Run
unfolding change_policy
rollback_at world release none r = ([], r)
rollback_at world release (some revision) r =
    let asked = ask_rollback release.revision in
    if world.agreed
    then change_policy world (asked ∷ []) (rollback revision release.revision) true r
    else (asked ∷ [], r)

unfoldable pub rollback_policy_release : ReleaseWorld → PolicyReleaseRecord → Releases → Run
unfolding rollback_at
rollback_policy_release world release r = rollback_at world release r.desired_revision r

-- A simulation whose decision has arrived keeps it, also if the status cannot be read.
unfoldable pub simulate_policy : ReleaseWorld → Releases → Run
unfolding draft_of
simulate_policy world r =
    let calm = record r { policy_error = none } in
    let call = simulate r.simulator (has_draft (draft_of r.policy_releases)) in
    elim world.decided [
      | throw reason ↦ (call ∷ [], failing reason calm)
      | ok decision ↦ (
        call ∷ read_status ∷ [],
        elim world.status_read [
          | throw reason ↦ failing reason (record calm { policy_decision = some decision })
          | ok status ↦ record calm { policy_decision = some decision; policy_status = some status }
        ],
      )
    ]
