-- ===== src/Settings/Releases/Agreed.antt =====
-- What a publication and a return to an earlier release of the traffic policy send.
use relay_lifeline.Prelude.{
  if-P, ◌≡◌, ◌≢◌, refl, inl, inr, true, false, [], ◌∷◌, Option, none, some, String, All,
  Outcome-cases,
}
use relay_lifeline.Numbers.{Number, whole}
use relay_lifeline.Settings.Releases.{
  PolicyStage, shadow, canary, full, ReleaseCall, ask_publish, publish, reload_settings,
  read_policy, ReleaseWorld, Releases, Run, draft_of, has_draft, change_policy, is_full,
  percent_for, publication, publish_at, publish_policy,
}

-- What may be sent for a publication at a stage: the question about it, marked dangerous if the stage is
-- the full one; and, if the user agrees, the publication for the revision of the settings that is wanted
-- and the draft, with the percentage of the form at the canary stage and 100 at the others, and with the
-- policy of the form exactly if there is no draft; then the reads.
abbrev pub IsPublishing : ReleaseWorld → PolicyStage → Releases → ReleaseCall → Type 0
IsPublishing world stage r (ask_publish asked percent danger) =
    (asked ≡ stage) × (percent ≡ r.canary_percent) × (danger ≡ is_full stage)
IsPublishing world stage r (publish p) =
    (world.agreed ≡ true)
    × (p.stage ≡ stage)
    × (r.desired_revision ≡ some p.config_revision)
    × (p.draft_revision ≡ draft_of r.policy_releases)
    × (stage ≡ canary → p.canary_percent ≡ r.canary_percent)
    × (stage ≢ canary → p.canary_percent ≡ whole 100)
    × (has_draft p.draft_revision ≡ true → p.policy ≡ none)
    × (has_draft p.draft_revision ≡ false → p.policy ≡ some r.traffic_policy)
IsPublishing world stage r reload_settings = world.agreed ≡ true
IsPublishing world stage r read_policy = world.agreed ≡ true
IsPublishing world stage r _ = ⊥

change_policy-All :
    (P : ReleaseCall → Type 0) (world : ReleaseWorld) (asked call : ReleaseCall) (r : Releases)
    → P asked
    → P call
    → P reload_settings
    → P read_policy
    → All P (change_policy world (asked ∷ []) call true r).0
unfolding change_policy
change_policy-All P world asked call r a c l d = elim (Outcome-cases (world.changed call)) [
  | inl (why, e) ↦ rw (e, change_policy) (a, (c, tt))
  | inr (_, e) ↦ rw (e, change_policy) (a, (c, (l, (d, tt))))
]

percent-canary :
    (stage : PolicyStage) (percent : Number) → stage ≡ canary → percent_for stage percent ≡ percent
unfolding percent_for
percent-canary shadow percent e = absurd (let no : ⊥ = cc in no)
percent-canary canary percent e = refl
percent-canary full percent e = absurd (let no : ⊥ = cc in no)

percent-other :
    (stage : PolicyStage) (percent : Number)
    → stage ≢ canary
    → percent_for stage percent ≡ whole 100
unfolding percent_for
percent-other shadow percent e = refl
percent-other canary percent e = absurd (e refl)
percent-other full percent e = refl

publication-IsPublishing :
    (world : ReleaseWorld) (stage : PolicyStage) (revision : String) (r : Releases)
    → r.desired_revision ≡ some revision
    → world.agreed ≡ true
    → IsPublishing world stage r (publish (publication revision stage r))
unfolding publication
publication-IsPublishing world stage revision r wanted agreed = (
  agreed,
  refl,
  wanted,
  refl,
  percent-canary stage r.canary_percent,
  percent-other stage r.canary_percent,
  (λ e. rw e (refl)),
  (λ e. rw e (refl)),
)

publish_at-IsPublishing :
    (world : ReleaseWorld) (stage : PolicyStage) (revision : Option String) (r : Releases)
    → r.desired_revision ≡ revision
    → All (IsPublishing world stage r) (publish_at world stage revision r).0
unfolding publish_at
publish_at-IsPublishing world stage none r e = tt
publish_at-IsPublishing world stage (some revision) r e =
    if-P (λ (run : Run). All (IsPublishing world stage r) run.0) world.agreed
      (λ agreed.
        change_policy-All (IsPublishing world stage r) world
          (ask_publish stage r.canary_percent (is_full stage))
          (publish (publication revision stage r)) r (refl, refl, refl)
          (publication-IsPublishing world stage revision r e agreed) agreed agreed)
      (λ _. ((refl, refl, refl), tt))

-- A publication of the traffic policy calls nothing but: the question about it, marked dangerous exactly
-- at the full stage; and, only if the user agrees, the publication at the stage, for the revision of the
-- settings that is wanted and the current draft, with the percentage of the form at the canary stage and
-- 100 at the others, and with the policy of the form exactly if there is no draft; and then the reads.
pub publish_policy-IsPublishing :
    (world : ReleaseWorld) (stage : PolicyStage) (r : Releases)
    → All (IsPublishing world stage r) (publish_policy world stage r).0
unfolding publish_policy
publish_policy-IsPublishing world stage r =
    publish_at-IsPublishing world stage r.desired_revision r refl
