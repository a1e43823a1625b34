-- ===== src/Repeating/Panel.antt =====
-- The panel of the repeated requests, web/src/components/RepeatTasksPanel.tsx: the tables, the buttons
-- of a task, and what they call.
pub mod Offered
mod Tests
use relay_lifeline.Prelude.{
  ℕ, suc, Bool, true, false, not, ◌&&◌, ◌||◌, List, [], ◌∷◌, Option, none, some, String, Outcome,
  ok, throw, if◌then◌else◌, filter,
}
use relay_lifeline.Json.{Thrown}

pub data TaskState : Type 0 where
  running : TaskState
  paused : TaskState
  stopped : TaskState
  expired : TaskState
  interrupted : TaskState

pub record Task : Type 0 where
  pub id : String
  pub state : TaskState

abbrev pub runs : TaskState → Bool
runs running = true
runs _ = false

abbrev pub pauses : TaskState → Bool
pauses paused = true
pauses _ = false

abbrev pub is_running : Task → Bool
is_running task = runs task.state

abbrev pub is_paused : Task → Bool
is_paused task = pauses task.state

unfoldable pub is_active : Task → Bool
is_active task = is_running task || is_paused task

unfoldable pub active_tasks : List Task → List Task
active_tasks tasks = filter is_active tasks

unfoldable pub ended_tasks : List Task → List Task
ended_tasks tasks = filter (λ task. not (is_running task) && not (is_paused task)) tasks

pub data TaskButton : Type 0 where
  pause_button : TaskButton
  resume_button : TaskButton
  run_button : TaskButton
  stop_button : TaskButton

pub data PanelCall : Type 0 where
  pause_task : String → PanelCall
  resume_task : String → PanelCall
  run_task : String → PanelCall
  stop_task : String → PanelCall
  refresh_panel : PanelCall

unfoldable pub task_call : TaskButton → String → PanelCall
task_call pause_button id = pause_task id
task_call resume_button id = resume_task id
task_call run_button id = run_task id
task_call stop_button id = stop_task id

unfoldable pub offers_task : Bool → Task → TaskButton → Bool
unfolding is_active
offers_task can_operate task pause_button = can_operate && is_running task
offers_task can_operate task resume_button = can_operate && is_paused task
offers_task can_operate task run_button = can_operate && is_active task
offers_task can_operate task stop_button = can_operate && is_active task

-- The calls, in order, and the error that is shown.
abbrev pub PanelRun : Type 0
PanelRun = List PanelCall × Option Thrown

unfoldable pub act : (PanelCall → Outcome Thrown (Unit {0})) → PanelCall → PanelRun
act answer call = elim (answer call) [
  | throw why ↦ (call ∷ [], some why)
  | ok _ ↦ (
    call ∷ refresh_panel ∷ [],
    (elim (answer refresh_panel) [ throw why ↦ some why | ok _ ↦ none ]),
  )
]

unfoldable pub press_task :
    (PanelCall → Outcome Thrown (Unit {0})) → Bool → TaskButton → Task → PanelRun
unfolding offers_task act task_call
press_task answer can_operate button task =
    if offers_task can_operate task button
    then act answer (task_call button task.id)
    else ([], none)
