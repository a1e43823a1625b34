-- ===== src/Uncertain/Calm.antt =====
-- The dialog for uncertain requests where no action is chosen while an answer is awaited.
use relay_lifeline.Prelude.{
  ◌≡◌, inl, inr, refl, subst, Bool, true, false, not, ◌||◌, List, [], ◌∷◌, Option, none, some,
  String, Outcome, ok, throw, ◌==◌, String_keys, arith,
}
use relay_lifeline.Json.{Thrown}
use relay_lifeline.Uncertain.{
  ResolutionAction, Stage, action_stage, confirm_stage, Preview, Entry, asked, resolved, failed,
  reason_required, succeeded, Pending, idle, previewing, resolving, Dialog, opened, Event, choose,
  submit_preview, preview_done, back, type_reason, submit_resolve, resolve_done, close,
  take_preview, take_resolution, preview_action, send_resolution, resolve_with, control, answer,
  step, run,
}
use relay_lifeline.Uncertain.Sourced.{IsIssued, if-cases}

-- Every resolution has a token that was issued for its action.
abbrev pub AreMatched : List Entry → Type 0
AreMatched [] = Unit
AreMatched (resolved action token _ ∷ older) = IsIssued action token older × AreMatched older
AreMatched (_ ∷ older) = AreMatched older

-- No action is chosen while a call is running.
abbrev pub calm : Event → Dialog → Bool
calm (choose _) d = not d.busy
calm _ d = true

abbrev pub IsCalm : (String → String) → Bool → List Event → Dialog → Type 0
IsCalm trim can_operate [] d = Unit
IsCalm trim can_operate (event ∷ rest) d =
    (calm event d ≡ true) × IsCalm trim can_operate rest (step trim can_operate event d)

abbrev Matches : Option Preview → ResolutionAction → List Entry → Type 0
Matches none action log = Unit
Matches (some preview) action log = IsIssued action preview.confirmation_token log

Matches-of_cons :
    (preview : Option Preview) (action : ResolutionAction) (entry : Entry) (log : List Entry)
    → Matches preview action log
    → Matches preview action (entry ∷ log)
Matches-of_cons none action entry log h = tt
Matches-of_cons (some preview) action entry log h = inr h

-- A preview is awaited for the action that is chosen, at the stage of the actions.
abbrev Flight : Pending → Bool → ResolutionAction → Stage → Type 0
Flight (previewing action) busy chosen stage =
    (busy ≡ true) × (chosen ≡ action) × (stage ≡ action_stage)
Flight _ busy chosen stage = Unit

Flight-of_free :
    (pending : Pending) (busy : Bool) (chosen other : ResolutionAction) (stage : Stage)
    → Flight pending busy chosen stage
    → busy ≡ false
    → Flight pending busy other stage
Flight-of_free (previewing action) busy chosen other stage h e = absurd (let f = h.0 in cc)
Flight-of_free idle busy chosen other stage h e = tt
Flight-of_free (resolving action) busy chosen other stage h e = tt

Flight-of_back :
    (pending : Pending) (busy : Bool) (chosen : ResolutionAction) (stage other : Stage)
    → Flight pending busy chosen stage
    → stage ≡ confirm_stage
    → Flight pending busy chosen other
Flight-of_back (previewing action) busy chosen stage other h e = absurd (let f = h.2 in cc)
Flight-of_back idle busy chosen stage other h e = tt
Flight-of_back (resolving action) busy chosen stage other h e = tt

record IsReady (d : Dialog) : Type 0 where
  flight : Flight d.pending d.busy d.action d.stage
  token : d.stage ≡ confirm_stage → Matches d.preview d.action d.log
  log : AreMatched d.log

take_preview-IsReady :
    (action : ResolutionAction) (outcome : Outcome Thrown Preview) (d : Dialog)
    → d.action ≡ action
    → IsReady d
    → IsReady (take_preview action outcome d)
unfolding take_preview
take_preview-IsReady action (throw reason) d e h = record {
  flight = tt;
  token = λ s. Matches-of_cons d.preview d.action (failed reason) d.log (h.token s);
  log = h.log;
}
take_preview-IsReady action (ok preview) d e h = record {
  flight = tt;
  token = λ _. inl (rw e (refl));
  log = h.log;
}

take_resolution-IsReady :
    (action : ResolutionAction) (outcome : Outcome Thrown (Unit {0})) (d : Dialog)
    → IsReady d
    → IsReady (take_resolution action outcome d)
unfolding take_resolution
take_resolution-IsReady action (throw reason) d h = record {
  flight = tt;
  token = λ s. Matches-of_cons d.preview d.action (failed reason) d.log (h.token s);
  log = h.log;
}
take_resolution-IsReady action (ok _) d h = record {
  flight = tt;
  token = λ s. Matches-of_cons d.preview d.action (succeeded action) d.log (h.token s);
  log = h.log;
}

preview_action-IsReady :
    (can_operate : Bool) (d : Dialog)
    → d.stage ≡ action_stage
    → IsReady d
    → IsReady (preview_action can_operate d)
unfolding preview_action
preview_action-IsReady can_operate d e h =
    if-cases IsReady (not can_operate || d.busy) (λ _. h)
      (λ _. record {
        flight = (refl, refl, e);
        token = λ s. Matches-of_cons d.preview d.action (asked d.action) d.log (h.token s);
        log = h.log;
      })

module _ (trim : String → String) (can_operate : Bool) where
  refused-IsReady : (d : Dialog) → IsReady d → IsReady (record d { log = reason_required ∷ d.log })
  refused-IsReady d h = record {
    flight = h.flight;
    token = λ s. Matches-of_cons d.preview d.action reason_required d.log (h.token s);
    log = h.log;
  }

  resolve_with-IsReady :
      (preview : Option Preview) (d : Dialog)
      → d.preview ≡ preview
      → d.stage ≡ confirm_stage
      → IsReady d
      → IsReady (resolve_with trim can_operate preview d)
  unfolding resolve_with send_resolution
  resolve_with-IsReady none d e s h =
      if-cases IsReady (trim d.reason == "") (λ _. refused-IsReady d h) (λ _. h)
  resolve_with-IsReady (some preview) d e s h =
      if-cases IsReady (trim d.reason == "") (λ _. refused-IsReady d h)
        (λ filled.
          if-cases IsReady (not can_operate || d.busy) (λ _. h)
            (λ free. record {
              flight = tt;
              token = λ _.
                  Matches-of_cons d.preview d.action
                    (resolved d.action preview.confirmation_token (trim d.reason)) d.log
                    (h.token s);
              log = (subst (λ p. Matches p d.action d.log) e (h.token s), h.log);
            }))

  control-IsReady :
      (stage : Stage) (event : Event) (d : Dialog)
      → d.stage ≡ stage
      → calm event d ≡ true
      → IsReady d
      → IsReady (control trim can_operate stage event d)
  unfolding control
  control-IsReady action_stage (choose action) d e c h = record {
    flight = Flight-of_free d.pending d.busy d.action action d.stage h.flight (ground (arith, c));
    token = λ s. absurd (cc);
    log = h.log;
  }
  control-IsReady action_stage submit_preview d e c h = preview_action-IsReady can_operate d e h
  control-IsReady confirm_stage back d e c h = record {
    flight = Flight-of_back d.pending d.busy d.action d.stage action_stage h.flight e;
    token = λ s. absurd (cc);
    log = h.log;
  }
  control-IsReady confirm_stage (type_reason text) d e c h = record {
    flight = h.flight;
    token = h.token;
    log = h.log;
  }
  control-IsReady confirm_stage submit_resolve d e c h = resolve_with-IsReady d.preview d refl e h
  control-IsReady _ _ d e c h = h

  answer-IsReady :
      (pending : Pending) (event : Event) (d : Dialog)
      → d.pending ≡ pending
      → calm event d ≡ true
      → IsReady d
      → IsReady (answer trim can_operate pending event d)
  unfolding answer
  answer-IsReady (previewing action) (preview_done outcome) d e c h =
      take_preview-IsReady action outcome d
        (subst (λ p. Flight p d.busy d.action d.stage) e h.flight).1 h
  answer-IsReady (resolving action) (resolve_done outcome) d e c h =
      take_resolution-IsReady action outcome d h
  answer-IsReady _ (preview_done _) d e c h = h
  answer-IsReady _ (resolve_done _) d e c h = h
  answer-IsReady _ close d e c h = record { flight = h.flight; token = h.token; log = h.log }
  answer-IsReady _ event d e c h =
      if-cases IsReady can_operate (λ _. control-IsReady d.stage event d refl c h) (λ _. h)

  run-IsReady :
      (events : List Event) (d : Dialog)
      → IsCalm trim can_operate events d
      → IsReady d
      → IsReady (run trim can_operate events d)
  unfolding run step
  run-IsReady [] d c h = h
  run-IsReady (event ∷ rest) d c h =
      run-IsReady rest _ c.1
        (if-cases IsReady d.closed (λ _. h) (λ _. answer-IsReady d.pending event d refl c.0 h))

  -- If no action is chosen while a call is running, every resolution carries a token that the server
  -- issued for the action that it resolves with.
  pub run-AreMatched :
      (events : List Event)
      → IsCalm trim can_operate events opened
      → AreMatched (run trim can_operate events opened).log
  run-AreMatched events c =
      (run-IsReady events opened c (record { flight = tt; token = λ s. tt; log = tt })).log
