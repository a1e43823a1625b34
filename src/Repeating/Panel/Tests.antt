-- ===== src/Repeating/Panel/Tests.antt =====
-- The panel on concrete tasks.
use relay_lifeline.Prelude.{◌≡◌, ◌⊎◌, refl, true, [], ◌∷◌, none, some, Outcome, ok, throw}
use relay_lifeline.Json.{Thrown, type_error}
use relay_lifeline.Repeating.Panel.{
  running, interrupted, Task, ended_tasks, pause_button, resume_button, PanelCall, pause_task,
  refresh_panel, task_call, offers_task, act, press_task,
}
use relay_lifeline.Repeating.Panel.Offered.{MayPress, IsFor, IsReported, press_task-MayPress}

abbrev hourly : Task
hourly = record { id = "t1"; state = running }

abbrev lost : Task
lost = record { id = "t2"; state = interrupted }

abbrev no_refresh : PanelCall → Outcome Thrown (Unit {0})
no_refresh refresh_panel = throw type_error
no_refresh _ = ok tt

ended_only : ended_tasks (hourly ∷ lost ∷ []) ≡ lost ∷ []
unfolding ended_tasks
ended_only = refl

paused_once :
    press_task no_refresh true pause_button hourly
    ≡ (pause_task "t1" ∷ refresh_panel ∷ [], some type_error)
unfolding press_task offers_task act task_call
paused_once = refl

not_resumed : press_task no_refresh true resume_button hourly ≡ ([], none)
unfolding press_task offers_task
not_resumed = refl

press_task-MayPress_example :
    (¬ MayPress true hourly pause_button
      × (press_task no_refresh true pause_button hourly ≡ ([], none)))
    ⊎ (MayPress true hourly pause_button
        × ((call : PanelCall) × IsFor pause_button "t1" call
            × IsReported no_refresh call (press_task no_refresh true pause_button hourly)))
press_task-MayPress_example = press_task-MayPress no_refresh true pause_button hourly
