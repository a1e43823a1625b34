-- ===== src/Console/Control/Controlled.antt =====
-- What the controls of the relay may call.
use relay_lifeline.Prelude.{
  ◌≡◌, refl, Bool, true, false, not, ◌&&◌, Outcome, ok, throw, if◌then◌else◌, All, if-P, and_left,
  and_right, Outcome-cases, inl, inr,
}
use relay_lifeline.Console.{Console, Promised, request_confirmation, can_operate}
use relay_lifeline.Console.Control.{
  ControlMode, drain, maintenance, ControlCall, resume, pause, change_mode, ask_mode, read_all,
  read_monitoring, reload_config, read_config, ControlWorld, ControlRun, refresh, then_monitoring,
  control, in_mode, is_held, toggle_pause, after_question, set_control_mode, ControlButton,
  pause_toggle, drain_button, maintenance_button, offers_control, press_control,
}

-- What must hold of the console `s` where a control makes this call.
abbrev pub IsControlled : ControlWorld → Console → ControlCall → Type 0
IsControlled world s resume = (can_operate s ≡ true) × (is_held s.status ≡ true)
IsControlled world s pause = (can_operate s ≡ true) × (is_held s.status ≡ false)
IsControlled world s (change_mode mode) =
    (can_operate s ≡ true)
    × (in_mode s.status ≡ false)
    × (s.confirmation_pending ≡ false)
    × (world.agreed ≡ true)
IsControlled world s (ask_mode mode) =
    (can_operate s ≡ true) × (in_mode s.status ≡ false) × (s.confirmation_pending ≡ false)
IsControlled world s read_all = Unit
IsControlled world s read_monitoring = Unit
IsControlled world s reload_config = ⊥
IsControlled world s read_config = ⊥

module _ (world : ControlWorld) (s : Console) where
  then-All :
      (o : Outcome _ (Unit {0})) (t : Console)
      → All (IsControlled world s) (then_monitoring world (o, t)).0
  unfolding then_monitoring
  then-All (throw why) t = tt
  then-All (ok _) t = (tt, tt)

  control-All :
      (call : ControlCall) (t : Console)
      → IsControlled world s call
      → All (IsControlled world s) (control world call t).0
  unfolding control
  control-All call t h = elim (Outcome-cases (world.controlled call)) [
    | inl (why, e) ↦ rw (e, control) (h, tt)
    | inr (_, e) ↦ rw (e, control) (h, (tt, then-All (refresh world t).0 (refresh world t).1))
  ]

  toggle-All : can_operate s ≡ true → All (IsControlled world s) (toggle_pause world s).0
  unfolding toggle_pause
  toggle-All allowed = control-All (if is_held s.status then resume else pause) s (
      if-P (IsControlled world s) (is_held s.status) (λ held. (allowed, held))
        (λ free. (allowed, free)))

  question-All :
      (mode : ControlMode)
      → can_operate s ≡ true
      → in_mode s.status ≡ false
      → All (IsControlled world s) (set_control_mode world mode s).0
  unfolding set_control_mode request_confirmation after_question
  question-All mode allowed open_relay =
      if-P
        (λ (asked : Promised × Console).
          All (IsControlled world s) (after_question world mode asked).0)
        s.confirmation_pending (λ _. tt)
        (λ free.
          if-P (λ (run : ControlRun). All (IsControlled world s) run.0) world.agreed
            (λ agreed. (
              (allowed, open_relay, free),
              control-All (change_mode mode) _ (allowed, open_relay, free, agreed),
            ))
            (λ _. ((allowed, open_relay, free), tt)))

not-true : (b : Bool) → not b ≡ true → b ≡ false
not-true true e = cc
not-true false e = refl

-- Whatever control is pressed: the relay is resumed only where it is paused, drained or in maintenance,
-- and paused only where it is none of these; it is drained or put into maintenance only where it is
-- neither, and only if no other question was open and the user agreed; all of it only by users who may
-- operate; and nothing else is called but the reads after it.
pub press_control-IsControlled :
    (world : ControlWorld) (button : ControlButton) (s : Console)
    → All (IsControlled world s) (press_control world button s).0
unfolding press_control offers_control
press_control-IsControlled world pause_toggle s =
    if-P (λ (run : ControlRun). All (IsControlled world s) run.0) (can_operate s)
      (toggle-All world s) (λ _. tt)
press_control-IsControlled world drain_button s =
    if-P (λ (run : ControlRun). All (IsControlled world s) run.0)
      (can_operate s && not (in_mode s.status))
      (λ e.
        question-All world s drain (and_left (can_operate s) _ e)
          (not-true _ (and_right (can_operate s) _ e)))
      (λ _. tt)
press_control-IsControlled world maintenance_button s =
    if-P (λ (run : ControlRun). All (IsControlled world s) run.0)
      (can_operate s && not (in_mode s.status))
      (λ e.
        question-All world s maintenance (and_left (can_operate s) _ e)
          (not-true _ (and_right (can_operate s) _ e)))
      (λ _. tt)
