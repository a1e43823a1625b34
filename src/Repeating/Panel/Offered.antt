-- ===== src/Repeating/Panel/Offered.antt =====
-- Which buttons the panel offers, and what they call.
use relay_lifeline.Prelude.{
  ◌≡◌, refl, ◌⊎◌, inl, inr, Bool, true, String, ◌&&◌, ◌||◌, [], ◌∷◌, none, some, Outcome, ok, throw,
  Bool-cases, Outcome-cases, and_left, and_right,
}
use relay_lifeline.Json.{Thrown}
use relay_lifeline.Repeating.Panel.{
  TaskState, running, paused, Task, runs, pauses, is_active, TaskButton, pause_button,
  resume_button, run_button, stop_button, PanelCall, pause_task, resume_task, run_task, stop_task,
  refresh_panel, task_call, offers_task, PanelRun, act, press_task,
}

-- Who may press a button of a task, and when.
abbrev pub MayPress : Bool → Task → TaskButton → Type 0
MayPress can_operate task pause_button = (can_operate ≡ true) × (task.state ≡ running)
MayPress can_operate task resume_button = (can_operate ≡ true) × (task.state ≡ paused)
MayPress can_operate task run_button =
    (can_operate ≡ true) × ((task.state ≡ running) ⊎ (task.state ≡ paused))
MayPress can_operate task stop_button =
    (can_operate ≡ true) × ((task.state ≡ running) ⊎ (task.state ≡ paused))

-- The call that a button of the task with this identifier is for.
abbrev pub IsFor : TaskButton → String → PanelCall → Type 0
IsFor pause_button id call = call ≡ pause_task id
IsFor resume_button id call = call ≡ resume_task id
IsFor run_button id call = call ≡ run_task id
IsFor stop_button id call = call ≡ stop_task id

runs-running : (state : TaskState) → runs state ≡ true → state ≡ running
runs-running running e = refl
runs-running _ e = cc

pauses-paused : (state : TaskState) → pauses state ≡ true → state ≡ paused
pauses-paused paused e = refl
pauses-paused _ e = cc

active :
    (state : TaskState) → (runs state || pauses state) ≡ true → (state ≡ running) ⊎ (state ≡ paused)
active running e = inl refl
active paused e = inr refl
active _ e = absurd (let no : ⊥ = cc in no)

offered-MayPress :
    (can_operate : Bool) (task : Task) (button : TaskButton)
    → offers_task can_operate task button ≡ true
    → MayPress can_operate task button
unfolding offers_task is_active
offered-MayPress can_operate task pause_button e =
    (and_left can_operate _ e, runs-running task.state (and_right can_operate _ e))
offered-MayPress can_operate task resume_button e =
    (and_left can_operate _ e, pauses-paused task.state (and_right can_operate _ e))
offered-MayPress can_operate task run_button e =
    (and_left can_operate _ e, active task.state (and_right can_operate _ e))
offered-MayPress can_operate task stop_button e =
    (and_left can_operate _ e, active task.state (and_right can_operate _ e))

active-offered :
    (can_operate : Bool) (task : Task)
    → can_operate ≡ true
    → (task.state ≡ running) ⊎ (task.state ≡ paused)
    → (can_operate && is_active task) ≡ true
unfolding is_active
active-offered can_operate task e (inl runs_now) = rw (e, runs_now) (refl)
active-offered can_operate task e (inr waits) = rw (e, waits) (refl)

MayPress-offered :
    (can_operate : Bool) (task : Task) (button : TaskButton)
    → MayPress can_operate task button
    → offers_task can_operate task button ≡ true
unfolding offers_task
MayPress-offered can_operate task pause_button (e, state) = rw (e, state) (refl)
MayPress-offered can_operate task resume_button (e, state) = rw (e, state) (refl)
MayPress-offered can_operate task run_button (e, state) = active-offered can_operate task e state
MayPress-offered can_operate task stop_button (e, state) = active-offered can_operate task e state

task_call-IsFor : (button : TaskButton) (id : String) → IsFor button id (task_call button id)
unfolding task_call
task_call-IsFor pause_button id = refl
task_call-IsFor resume_button id = refl
task_call-IsFor run_button id = refl
task_call-IsFor stop_button id = refl

-- A call, then the refresh if it succeeded; and the error of the first that failed.
abbrev pub IsReported : (PanelCall → Outcome Thrown (Unit {0})) → PanelCall → PanelRun → Type 0
IsReported answer call run =
    ((why : Thrown) × (answer call ≡ throw why) × (run ≡ (call ∷ [], some why)))
    ⊎ ((answer call ≡ ok tt)
        × (run.0 ≡ call ∷ refresh_panel ∷ [])
        × (((why : Thrown) × (answer refresh_panel ≡ throw why) × (run.1 ≡ some why))
            ⊎ ((answer refresh_panel ≡ ok tt) × (run.1 ≡ none))))

act-IsReported :
    (answer : PanelCall → Outcome Thrown (Unit {0})) (call : PanelCall)
    → IsReported answer call (act answer call)
unfolding act
act-IsReported answer call = elim (Outcome-cases (answer call)) [
  | inl (why, e) ↦ inl (why, e, rw (e, act) (refl))
  | inr (_, e) ↦ elim (Outcome-cases (answer refresh_panel)) [
    | inl (why, f) ↦ inr (e, rw (e, act) (refl), inl (why, f, rw (e, f, act) (refl)))
    | inr (_, f) ↦ inr (e, rw (e, act) (refl), inr (f, rw (e, f, act) (refl)))
  ]
]

-- A button of a repeated request does nothing, unless the user may operate and, to pause, the task runs,
-- to resume, it is paused, and to run it now or to stop it, it is one of these. Otherwise the button makes
-- the call that it is for, for the task that it stands at, then refreshes if the call succeeded, and shows
-- the error of the first of the two that failed.
pub press_task-MayPress :
    (answer : PanelCall → Outcome Thrown (Unit {0})) (can_operate : Bool) (button : TaskButton)
    (task : Task)
    → (¬ MayPress can_operate task button
        × (press_task answer can_operate button task ≡ ([], none)))
      ⊎ (MayPress can_operate task button
          × ((call : PanelCall) × IsFor button task.id call
              × IsReported answer call (press_task answer can_operate button task)))
unfolding press_task
press_task-MayPress answer can_operate button task =
    elim (Bool-cases (offers_task can_operate task button)) [
      | inl offered ↦ inr (
        offered-MayPress can_operate task button offered,
        (
          task_call button task.id,
          task_call-IsFor button task.id,
          rw (offered, press_task) (act-IsReported answer (task_call button task.id)),
        ),
      )
      | inr hidden ↦ inl (
        (λ may.
            let there = MayPress-offered can_operate task button may in
            absurd (let no : ⊥ = cc in no)),
        rw (hidden, press_task) (refl),
      )
    ]
