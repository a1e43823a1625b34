-- ===== src/Uncertain/Sourced.antt =====
-- What every resolution of an uncertain request carries, however the events of the dialog interleave.
use relay_lifeline.Prelude.{
  ◌≡◌, ◌⊎◌, inl, inr, refl, Bool, true, false, not, ◌||◌, List, [], ◌∷◌, Option, none, some, String,
  Outcome, ok, throw, if◌then◌else◌, ◌==◌, String_keys, arith, subst,
}
use relay_lifeline.Json.{Thrown}
use relay_lifeline.Uncertain.{
  ResolutionAction, Stage, action_stage, confirm_stage, Preview, Entry, asked, issued, resolved,
  failed, reason_required, succeeded, Pending, previewing, resolving, Dialog, opened, Event, choose,
  submit_preview, preview_done, back, type_reason, submit_resolve, resolve_done, close,
  take_preview, take_resolution, preview_action, send_resolution, resolve_with, control, answer,
  step, run,
}

-- The server has issued the token for the action.
abbrev pub IsIssued : ResolutionAction → String → List Entry → Type 0
IsIssued action token [] = ⊥
IsIssued action token (entry ∷ older) = (entry ≡ issued action token) ⊎ IsIssued action token older

module _ (trim : String → String) (can_operate : Bool) where
  -- What a resolution must carry: a reason that is not blank, a token that the server issued, and the
  -- right to operate.
  abbrev pub AreSourced : List Entry → Type 0
  AreSourced [] = Unit
  AreSourced (resolved action token reason ∷ older) =
      ((issued_for : ResolutionAction) × IsIssued issued_for token older
        × (reason == "" ≡ false)
        × (can_operate ≡ true))
      × AreSourced older
  AreSourced (_ ∷ older) = AreSourced older

abbrev HasToken : Option Preview → List Entry → Type 0
HasToken none log = Unit
HasToken (some preview) log =
    (action : ResolutionAction) × IsIssued action preview.confirmation_token log

HasToken-of_cons :
    (preview : Option Preview) (entry : Entry) (log : List Entry)
    → HasToken preview log
    → HasToken preview (entry ∷ log)
HasToken-of_cons none entry log h = tt
HasToken-of_cons (some preview) entry log (action, h) = (action, inr h)

pub if-cases :
    (P : Dialog → Type 0) (b : Bool) {x y : Dialog}
    → (b ≡ true → P x)
    → (b ≡ false → P y)
    → P (if b then x else y)
if-cases P true h k = h refl
if-cases P false h k = k refl

module _ (trim : String → String) (can_operate : Bool) where
  record IsSourced (d : Dialog) : Type 0 where
    token : HasToken d.preview d.log
    log : AreSourced trim can_operate d.log

  take_preview-IsSourced :
      (action : ResolutionAction) (outcome : Outcome Thrown Preview) (d : Dialog)
      → IsSourced d
      → IsSourced (take_preview action outcome d)
  unfolding take_preview
  take_preview-IsSourced action (throw reason) d h = record {
    token = HasToken-of_cons d.preview (failed reason) d.log h.token;
    log = h.log;
  }
  take_preview-IsSourced action (ok preview) d h = record {
    token = (action, inl refl);
    log = h.log;
  }

  take_resolution-IsSourced :
      (action : ResolutionAction) (outcome : Outcome Thrown (Unit {0})) (d : Dialog)
      → IsSourced d
      → IsSourced (take_resolution action outcome d)
  unfolding take_resolution
  take_resolution-IsSourced action (throw reason) d h = record {
    token = HasToken-of_cons d.preview (failed reason) d.log h.token;
    log = h.log;
  }
  take_resolution-IsSourced action (ok _) d h = record {
    token = HasToken-of_cons d.preview (succeeded action) d.log h.token;
    log = h.log;
  }

  preview_action-IsSourced : (d : Dialog) → IsSourced d → IsSourced (preview_action can_operate d)
  unfolding preview_action
  preview_action-IsSourced d h =
      if-cases IsSourced (not can_operate || d.busy) (λ _. h)
        (λ _. record {
          token = HasToken-of_cons d.preview (asked d.action) d.log h.token;
          log = h.log;
        })

  resolve_with-IsSourced :
      (preview : Option Preview) (d : Dialog)
      → d.preview ≡ preview
      → IsSourced d
      → IsSourced (resolve_with trim can_operate preview d)
  unfolding resolve_with send_resolution
  resolve_with-IsSourced none d e h =
      if-cases IsSourced (trim d.reason == "")
        (λ _. record {
          token = HasToken-of_cons d.preview reason_required d.log h.token;
          log = h.log;
        })
        (λ _. h)
  resolve_with-IsSourced (some preview) d e h =
      if-cases IsSourced (trim d.reason == "")
        (λ _. record {
          token = HasToken-of_cons d.preview reason_required d.log h.token;
          log = h.log;
        })
        (λ filled.
          if-cases IsSourced (not can_operate || d.busy) (λ _. h)
            (λ free.
              let (action, sourced) = subst (λ p. HasToken p d.log) e h.token in
              record {
                token =
                    HasToken-of_cons d.preview
                      (resolved d.action preview.confirmation_token (trim d.reason)) d.log h.token;
                log = ((action, sourced, filled, ground (arith, free)), h.log);
              }))

  control-IsSourced :
      (stage : Stage) (event : Event) (d : Dialog)
      → IsSourced d
      → IsSourced (control trim can_operate stage event d)
  unfolding control
  control-IsSourced action_stage (choose action) d h = record { token = h.token; log = h.log }
  control-IsSourced action_stage submit_preview d h = preview_action-IsSourced d h
  control-IsSourced confirm_stage back d h = record { token = h.token; log = h.log }
  control-IsSourced confirm_stage (type_reason text) d h = record { token = h.token; log = h.log }
  control-IsSourced confirm_stage submit_resolve d h = resolve_with-IsSourced d.preview d refl h
  control-IsSourced _ _ d h = h

  guarded :
      (P : Dialog → Type 0) (event : Event) (d : Dialog)
      → P d
      → (can_operate ≡ true → P (control trim can_operate d.stage event d))
      → P (if can_operate then control trim can_operate d.stage event d else d)
  guarded P event d h k = if-cases P can_operate k (λ _. h)

  answer-IsSourced :
      (pending : Pending) (event : Event) (d : Dialog)
      → IsSourced d
      → IsSourced (answer trim can_operate pending event d)
  unfolding answer
  answer-IsSourced (previewing action) (preview_done outcome) d h =
      take_preview-IsSourced action outcome d h
  answer-IsSourced (resolving action) (resolve_done outcome) d h =
      take_resolution-IsSourced action outcome d h
  answer-IsSourced _ (preview_done _) d h = h
  answer-IsSourced _ (resolve_done _) d h = h
  answer-IsSourced _ close d h = record { token = h.token; log = h.log }
  answer-IsSourced _ event d h =
      guarded IsSourced event d h (λ _. control-IsSourced d.stage event d h)

  run-IsSourced :
      (events : List Event) (d : Dialog) → IsSourced d → IsSourced (run trim can_operate events d)
  unfolding run step
  run-IsSourced [] d h = h
  run-IsSourced (event ∷ rest) d h =
      run-IsSourced rest _
        (if-cases IsSourced d.closed (λ _. h) (λ _. answer-IsSourced d.pending event d h))

  -- Whatever happens to a dialog, in whatever order, every resolution that it sends has a reason that is
  -- not blank and a token that the server issued to it before, and comes from a user who may operate.
  pub run-AreSourced :
      (events : List Event) → AreSourced trim can_operate (run trim can_operate events opened).log
  run-AreSourced events = (run-IsSourced events opened (record { token = tt; log = tt })).log
