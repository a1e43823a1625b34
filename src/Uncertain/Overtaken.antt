-- ===== src/Uncertain/Overtaken.antt =====
-- What the dialog for uncertain requests resolves with if an action is chosen while a preview is
-- awaited.
use relay_lifeline.Prelude.{
  ◌≡◌, refl, ap, ◌∙◌, map, ◌++◌, true, false, List, [], ◌∷◌, String, ok, ◌==◌, String_keys,
}
use relay_lifeline.Uncertain.{
  ResolutionAction, Dialog, action_stage, previewing, idle, asked, issued, resolved, Event, choose,
  submit_preview, preview_done, type_reason, submit_resolve, take_preview, preview_action,
  send_resolution, resolve_with, control, answer, step, run,
}

-- A preview, choices before its answer, of which the last is `action`, and a resolution.
abbrev pub overtaken : List ResolutionAction → ResolutionAction → String → String → List Event
overtaken choices action token reason =
    submit_preview
    ∷ (map choose choices
        ++ choose action
          ∷ preview_done (ok (record { confirmation_token = token }))
          ∷ type_reason reason
          ∷ submit_resolve
          ∷ [])

module _ (trim : String → String) where
  -- The dialog while the preview is awaited, and some action is chosen.
  abbrev awaiting : Dialog → ResolutionAction → Dialog
  awaiting d chosen = record d {
    action = chosen;
    stage = action_stage;
    busy = true;
    pending = previewing d.action;
    closed = false;
    log = asked d.action ∷ d.log;
  }

  choices-run :
      (d : Dialog) (chosen : ResolutionAction) (choices : List ResolutionAction) (rest : List Event)
      → (action : ResolutionAction)
      → run trim true (map choose choices ++ choose action ∷ rest) (awaiting d chosen)
        ≡ run trim true rest (awaiting d action)
  unfolding run step answer control
  choices-run d chosen [] rest action = refl
  choices-run d chosen (choice ∷ choices) rest action = choices-run d choice choices rest action

  resolves :
      (d : Dialog) (action : ResolutionAction) (token reason : String)
      → trim reason == "" ≡ false
      → (run trim true
          (preview_done (ok (record { confirmation_token = token }))
            ∷ type_reason reason
            ∷ submit_resolve
            ∷ [])
          (awaiting d action)).log
        ≡ resolved action token (trim reason) ∷ issued d.action token ∷ asked d.action ∷ d.log
  unfolding run step answer control resolve_with send_resolution take_preview
  resolves d action token reason h = rw h (refl)

  -- In a dialog that is open, at the choice of an action, not busy and not waiting for an answer,
  -- whatever happened in it before: if a user who may operate asks for a preview, of whatever action,
  -- and chooses others before its answer, then, with a reason that is not blank, what is resolved is
  -- the action that was chosen last, with the token that the server issued for the one that was asked
  -- for.
  pub run-overtaken :
      (d : Dialog) (choices : List ResolutionAction) (action : ResolutionAction)
      (token reason : String)
      → d.closed ≡ false
      → d.busy ≡ false
      → d.pending ≡ idle
      → d.stage ≡ action_stage
      → trim reason == "" ≡ false
      → (run trim true (overtaken choices action token reason) d).log
        ≡ resolved action token (trim reason) ∷ issued d.action token ∷ asked d.action ∷ d.log
  unfolding run step answer control resolve_with send_resolution preview_action take_preview
  run-overtaken d choices action token reason present free waiting at_action h =
      let calm : d
          ≡ record d { stage = action_stage; busy = false; pending = idle; closed = false } =
        (λ i. record d {
          stage = at_action i;
          busy = free i;
          pending = waiting i;
          closed = present i;
        }) in
      ap (λ (x : Dialog). (run trim true (overtaken choices action token reason) x).log) calm
      ∙ ap (λ (x : Dialog). x.log)
          (choices-run d d.action choices
            (preview_done (ok (record { confirmation_token = token }))
              ∷ type_reason reason
              ∷ submit_resolve
              ∷ [])
            action)
      ∙ resolves d action token reason h
