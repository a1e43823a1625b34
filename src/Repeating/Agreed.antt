-- ===== src/Repeating/Agreed.antt =====
-- When web/src/components/RepeatTaskDialog.tsx makes a request repeat, and for how long.
use relay_lifeline.Prelude.{
  if-P, ◌≡◌, ◌∙◌, ◌||◌, inl, inr, ap, refl, Bool, true, false, String, All, Outcome-cases,
}
use relay_lifeline.Repeating.{
  regenerate, RepeatForm, RepeatOptions, repeat_options, RepeatCall, ask_repeat, create_repeat_task,
  refresh_tasks, RepeatWorld, RepeatRun, is_dangerous, is_regenerate, create_task, submit_repeat,
}

-- A question about a task without an end, or with new keys, is dangerous. A task is created for the
-- request that the dialog is about and after the user agreed; it has no duration if the form says that
-- it has no end, and else the duration of the form.
abbrev pub IsAgreed : RepeatWorld → String → RepeatForm → RepeatCall → Type 0
IsAgreed world id form (ask_repeat danger) =
    (form.forever ≡ true → danger ≡ true) × (form.idempotency ≡ regenerate → danger ≡ true)
IsAgreed world id form (create_repeat_task request options) =
    (request ≡ id)
    × (world.agreed ≡ true)
    × (options.confirm_forever ≡ form.forever)
    × (form.forever ≡ true → options.duration ≡ "")
    × (form.forever ≡ false → options.duration ≡ form.duration)
IsAgreed world id form refresh_tasks = world.agreed ≡ true

or_true : (b : Bool) → (b || true) ≡ true
or_true true = refl
or_true false = refl

asked-IsAgreed :
    (world : RepeatWorld) (id : String) (form : RepeatForm)
    → IsAgreed world id form (ask_repeat (is_dangerous form))
unfolding is_dangerous
asked-IsAgreed world id form = (
  (λ e. ap (λ b. b || is_regenerate form.idempotency) e),
  (λ e. ap (λ i. form.forever || is_regenerate i) e ∙ or_true form.forever),
)

created-IsAgreed :
    (world : RepeatWorld) (id : String) (form : RepeatForm)
    → world.agreed ≡ true
    → IsAgreed world id form (create_repeat_task id (repeat_options form))
unfolding repeat_options
created-IsAgreed world id form yes_said =
    (refl, yes_said, refl, (λ e. rw e (refl)), (λ e. rw e (refl)))

create_task-IsAgreed :
    (P : RepeatCall → Type 0) (world : RepeatWorld) (asked : RepeatCall) (id : String)
    (options : RepeatOptions)
    → P asked
    → P (create_repeat_task id options)
    → P refresh_tasks
    → All P (create_task world asked id options).calls
unfolding create_task
create_task-IsAgreed P world asked id options h k l =
    elim (Outcome-cases (world.created id options)) [
      | inl (why, e) ↦ rw (e, create_task) (h, (k, tt))
      | inr (_, e) ↦ elim (Outcome-cases world.refreshed) [
        | inl (why, f) ↦ rw (e, f, create_task) (h, (k, (l, tt)))
        | inr (_, f) ↦ rw (e, f, create_task) (h, (k, (l, tt)))
      ]
    ]

-- Submitting the dialog creates a task only for its request and only after the user agreed, without a
-- duration exactly where the form asks for no end, and the question is marked dangerous if there is
-- no end or the keys are regenerated.
pub submit_repeat-IsAgreed :
    (world : RepeatWorld) (id : String) (form : RepeatForm)
    → All (IsAgreed world id form) (submit_repeat world id form).calls
unfolding submit_repeat
submit_repeat-IsAgreed world id form =
    if-P (λ (run : RepeatRun). All (IsAgreed world id form) run.calls) world.agreed
      (λ e.
        create_task-IsAgreed (IsAgreed world id form) world _ id _ (asked-IsAgreed world id form)
          (created-IsAgreed world id form e) e)
      (λ e. (asked-IsAgreed world id form, tt))
