-- ===== src/Uncertain.antt =====
-- The dialog of web/src/components/UncertainResolutionDialog.tsx that settles a request whose delivery
-- is unknown: its state, and its events. A call to the server is two events, the one that sends it and
-- the one that brings its answer, so that other events can come between them.
pub mod Sourced
pub mod Calm
pub mod Overtaken
pub mod Tests
use relay_lifeline.Prelude.{
  Bool, true, false, not, ◌&&◌, ◌||◌, List, [], ◌∷◌, Option, none, some, String, Outcome, ok, throw,
  if◌then◌else◌, ◌==◌, String_keys,
}
use relay_lifeline.Json.{Thrown}

pub data ResolutionAction : Type 0 where
  confirm_success : ResolutionAction
  abandon : ResolutionAction
  request_compensation : ResolutionAction

pub data Stage : Type 0 where
  action_stage : Stage
  confirm_stage : Stage

-- What a preview answers: the token that a resolution must carry. The evidence is only shown.
pub record Preview : Type 0 where
  pub confirmation_token : String

-- What the dialog has exchanged with the server, and told its owner.
pub data Entry : Type 0 where
  asked : ResolutionAction → Entry
  issued : ResolutionAction → String → Entry
  resolved : ResolutionAction → String → String → Entry
  failed : Thrown → Entry
  reason_required : Entry
  succeeded : ResolutionAction → Entry

-- The call whose answer is awaited, with the action that it was made for.
pub data Pending : Type 0 where
  idle : Pending
  previewing : ResolutionAction → Pending
  resolving : ResolutionAction → Pending

pub record Dialog : Type 0 where
  pub stage : Stage
  pub action : ResolutionAction
  pub preview : Option Preview
  pub reason : String
  pub busy : Bool
  pub pending : Pending
  pub log : List Entry
  pub closed : Bool

abbrev pub opened : Dialog
opened = record {
  stage = action_stage;
  action = confirm_success;
  preview = none;
  reason = "";
  busy = false;
  pending = idle;
  log = [];
  closed = false;
}

pub data Event : Type 0 where
  choose : ResolutionAction → Event
  submit_preview : Event
  preview_done : Outcome Thrown Preview → Event
  back : Event
  type_reason : String → Event
  submit_resolve : Event
  resolve_done : Outcome Thrown (Unit {0}) → Event
  close : Event

-- The answer to a preview that was asked for an action.
unfoldable pub take_preview : ResolutionAction → Outcome Thrown Preview → Dialog → Dialog
take_preview action (throw reason) d = record d {
  busy = false;
  pending = idle;
  log = failed reason ∷ d.log;
}
take_preview action (ok preview) d = record d {
  preview = some preview;
  stage = confirm_stage;
  busy = false;
  pending = idle;
  log = issued action preview.confirmation_token ∷ d.log;
}

-- The answer to a resolution and to the refresh that follows it.
unfoldable pub take_resolution : ResolutionAction → Outcome Thrown (Unit {0}) → Dialog → Dialog
take_resolution action (throw reason) d = record d {
  busy = false;
  pending = idle;
  log = failed reason ∷ d.log;
}
take_resolution action (ok _) d = record d {
  busy = false;
  pending = idle;
  closed = true;
  log = succeeded action ∷ d.log;
}

unfoldable pub preview_action : Bool → Dialog → Dialog
preview_action can_operate d =
    if not can_operate || d.busy
    then d
    else record d { busy = true; pending = previewing d.action; log = asked d.action ∷ d.log }

-- `trim` is the language's function of this name on texts.
module _ (trim : String → String) (can_operate : Bool) where
  unfoldable pub send_resolution : Preview → Dialog → Dialog
  send_resolution preview d =
      if trim d.reason == ""
      then record d { log = reason_required ∷ d.log }
      else if not can_operate || d.busy
      then d
      else record d {
        busy = true;
        pending = resolving d.action;
        log = resolved d.action preview.confirmation_token (trim d.reason) ∷ d.log;
      }

  unfoldable pub resolve_with : Option Preview → Dialog → Dialog
  unfolding send_resolution
  resolve_with none d =
      if trim d.reason == "" then record d { log = reason_required ∷ d.log } else d
  resolve_with (some preview) d = send_resolution preview d

  -- The controls of a stage exist in it only, and only for those who may operate.
  unfoldable pub control : Stage → Event → Dialog → Dialog
  control action_stage (choose action) d = record d { action = action }
  control action_stage submit_preview d = preview_action can_operate d
  control confirm_stage back d = record d { stage = action_stage }
  control confirm_stage (type_reason text) d = record d { reason = text }
  control confirm_stage submit_resolve d = resolve_with d.preview d
  control _ _ d = d

  unfoldable pub answer : Pending → Event → Dialog → Dialog
  answer (previewing action) (preview_done outcome) d = take_preview action outcome d
  answer (resolving action) (resolve_done outcome) d = take_resolution action outcome d
  answer _ (preview_done _) d = d
  answer _ (resolve_done _) d = d
  answer _ close d = record d { closed = true }
  answer _ event d = if can_operate then control d.stage event d else d

  -- A closed dialog is gone, and with it its state.
  unfoldable pub step : Event → Dialog → Dialog
  step event d = if d.closed then d else answer d.pending event d

  unfoldable pub run : List Event → Dialog → Dialog
  unfolding step
  run [] d = d
  run (event ∷ rest) d = run rest (step event d)
