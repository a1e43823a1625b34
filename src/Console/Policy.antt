-- ===== src/Console/Policy.antt =====
-- What a save of the settings sends, in which order, and what it takes for saved.
use relay_lifeline.Prelude.{
  if-P, if◌then◌else◌, ◌≡◌, ◌⊎◌, inl, inr, refl, sym, subst, ap, ok, List, ◌∷◌, true, not, [], some,
  String, ◌==◌, String_keys, All, any, Outcome-cases,
}
use relay_lifeline.Json.{Value, Fields}
use relay_lifeline.Console.Saving.{
  ConfigChangePlan, SaveCall, validate_config, ask_review, save_config, SaveWorld, Settings,
  config_for_global_save, ordinary_dirty, finish_save, store, review, save, save_from, called,
}
use relay_lifeline.Console.Payload.{IsPayload, config_for_global_save-IsPayload}

abbrev pub Sends : Fields → SaveCall → Type 0
Sends payload (validate_config sent) = sent ≡ payload
Sends payload (ask_review _) = Unit
Sends payload (save_config sent _) = sent ≡ payload

-- The calls of a save, the last one first: the validation; after it the question about the plan that
-- the server answered; and after that, only if the user confirmed, the settings, sent as a change of the
-- authentication exactly if the plan names it.
abbrev pub IsReviewed : Fields → SaveWorld → List SaveCall → Type 0
IsReviewed payload world [] = Unit
IsReviewed payload world (validate_config _ ∷ rest) = rest ≡ []
IsReviewed payload world (ask_review plan ∷ rest) =
    (world.validated payload ≡ ok plan) × (rest ≡ validate_config payload ∷ [])
IsReviewed payload world (save_config _ authentication ∷ rest) =
    (world.confirmed ≡ true)
    × ((plan : ConfigChangePlan) × (world.validated payload ≡ ok plan)
        × (authentication ≡ any (λ path. path == "management-security.authentication") plan.fields)
        × (rest ≡ ask_review plan ∷ validate_config payload ∷ []))

-- What a save may come to.
pub record IsSaving (payload : Fields) (world : SaveWorld) (before after : Settings) : Type 0 where
  pub ordered : IsReviewed payload world after.calls
  pub sends : All (Sends payload) after.calls
  pub reviewed :
      (after.saved_config ≡ before.saved_config)
      ⊎ ((after.saved_config ≡ some payload) × (world.confirmed ≡ true))
  pub edits : after.config ≡ before.config

reviewed_by :
    (world : SaveWorld) (payload : Fields) (plan : ConfigChangePlan) (s : Settings)
    → world.validated payload ≡ ok plan
    → review world payload s ≡ (
        let asked = called (ask_review plan) (called (validate_config payload) s) in
        if world.confirmed then store world payload plan asked else asked)
unfolding review
reviewed_by world payload plan s e = rw (e, review) (refl)

module _ (payload : Fields) (world : SaveWorld) (before : Settings) where
  finish_save-IsSaving :
      (s : Settings)
      → world.confirmed ≡ true
      → IsSaving payload world before s
      → IsSaving payload world before (finish_save world payload s)
  unfolding finish_save
  finish_save-IsSaving s sure h = elim (Outcome-cases world.state) [
    | inl (why, e) ↦
        rw (e, finish_save)
          (record {
            ordered = h.ordered;
            sends = h.sends;
            reviewed = inr (refl, sure);
            edits = h.edits;
          })
    | inr (state, e) ↦ elim (Outcome-cases world.refreshed) [
      | inl (why, f) ↦
          rw (e, f, finish_save)
            (record {
              ordered = h.ordered;
              sends = h.sends;
              reviewed = inr (refl, sure);
              edits = h.edits;
            })
      | inr (_, f) ↦
          rw (e, f, finish_save)
            (record {
              ordered = h.ordered;
              sends = h.sends;
              reviewed = inr (refl, sure);
              edits = h.edits;
            })
    ]
  ]

  store-IsSaving :
      (plan : ConfigChangePlan) (s : Settings)
      → world.confirmed ≡ true
      → world.validated payload ≡ ok plan
      → s.calls ≡ ask_review plan ∷ validate_config payload ∷ []
      → IsSaving payload world before s
      → IsSaving payload world before (store world payload plan s)
  unfolding store
  store-IsSaving plan s sure answered so_far h =
      let authentication = any (λ path. path == "management-security.authentication") plan.fields in
      let sent : IsSaving payload world before (called (save_config payload authentication) s) =
        record {
          ordered = (sure, (plan, answered, refl, so_far));
          sends = (refl, h.sends);
          reviewed = h.reviewed;
          edits = h.edits;
        } in
      elim (Outcome-cases (world.stored payload authentication)) [
        | inl (why, e) ↦
            rw (e, store)
              (record {
                ordered = sent.ordered;
                sends = sent.sends;
                reviewed = h.reviewed;
                edits = h.edits;
              })
        | inr (_, e) ↦
            rw (e, store)
              (finish_save-IsSaving (called (save_config payload authentication) s) sure sent)
      ]

  review-IsSaving :
      (s : Settings)
      → s.calls ≡ []
      → IsSaving payload world before s
      → IsSaving payload world before (review world payload s)
  unfolding review
  review-IsSaving s quiet h = elim (Outcome-cases (world.validated payload)) [
    | inl (why, e) ↦
        rw (e, review)
          (record {
            ordered = quiet;
            sends = (refl, h.sends);
            reviewed = h.reviewed;
            edits = h.edits;
          })
    | inr (plan, e) ↦
        let asked = called (ask_review plan) (called (validate_config payload) s) in
        let one : asked.calls ≡ ask_review plan ∷ validate_config payload ∷ [] =
          ap (λ calls. ask_review plan ∷ validate_config payload ∷ calls) quiet in
        let kept : IsSaving payload world before asked = record {
          ordered = (e, ap (λ calls. validate_config payload ∷ calls) quiet);
          sends = (tt, (refl, h.sends));
          reviewed = h.reviewed;
          edits = h.edits;
        } in
        subst (λ t. IsSaving payload world before t) (sym (reviewed_by world payload plan s e))
          (if-P (IsSaving payload world before) world.confirmed
            (λ sure. store-IsSaving plan asked sure e one kept) (λ _. kept))
  ]

save_from-IsSaving :
    (stringify : Value → String) (world : SaveWorld) (s : Settings) (config : Fields)
    → s.calls ≡ []
    → IsSaving
        (config_for_global_save s.saved_config config)
        world
        s
        (save_from stringify world (some config) s)
      × ((save_from stringify world (some config) s).saving ≡ s.saving)
unfolding save_from
save_from-IsSaving stringify world s config quiet =
    let payload = config_for_global_save s.saved_config config in
    let none_sent : All (Sends payload) s.calls = subst (All (Sends payload)) (sym quiet) tt in
    let nothing_sent : IsReviewed payload world s.calls =
      subst (IsReviewed payload world) (sym quiet) tt in
    let idle : IsSaving payload world s s = record {
      ordered = nothing_sent;
      sends = none_sent;
      reviewed = inl refl;
      edits = refl;
    } in
    if-P (λ t. IsSaving payload world s t × (t.saving ≡ s.saving)) s.saving (λ _. (idle, refl))
      (λ free.
        if-P (λ t. IsSaving payload world s t × (t.saving ≡ s.saving))
          (not (ordinary_dirty stringify s.saved_config config))
          (λ _. (
            record { ordered = nothing_sent; sends = none_sent; reviewed = inl refl; edits = refl },
            refl,
          ))
          (λ _.
            let done =
              review-IsSaving payload world s (record s { saving = true }) quiet
                (record {
                  ordered = nothing_sent;
                  sends = none_sent;
                  reviewed = inl refl;
                  edits = refl;
                }) in
            (
              record {
                ordered = done.ordered;
                sends = done.sends;
                reviewed = done.reviewed;
                edits = done.edits;
              },
              sym free,
            )))

-- Where settings are loaded and nothing has been sent yet, a save sends only the edited settings with
-- the traffic policy that is saved, if there is a truthy one; it validates them, then asks about the plan
-- that the server answered, and stores them only after that and only if the user confirmed, as a change
-- of the authentication exactly if the plan names it; it takes nothing else for saved, and that only if
-- the user confirmed; and it leaves the edits and whether a save is running as they were.
pub save-IsSaving :
    (stringify : Value → String) (world : SaveWorld) (s : Settings) (config : Fields)
    → s.config ≡ some config
    → s.calls ≡ []
    → (payload : Fields) × IsPayload s.saved_config config payload
      × IsSaving payload world s (save stringify world s)
      × ((save stringify world s).saving ≡ s.saving)
unfolding save
save-IsSaving stringify world s config e quiet =
    let (kept, same) =
      subst
        (λ c.
          IsSaving (config_for_global_save s.saved_config config) world s
            (save_from stringify world c s)
          × ((save_from stringify world c s).saving ≡ s.saving))
        (sym e) (save_from-IsSaving stringify world s config quiet) in
    (
      config_for_global_save s.saved_config config,
      config_for_global_save-IsPayload s.saved_config config,
      kept,
      same,
    )
