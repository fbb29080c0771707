-- ===== src/Tasks/Recorded.antt =====
-- What `notify` records of a task, and where the task is found then.
use devit.Prelude.{
  ℕ, ◌≡◌, refl, ap, ◌∙◌, true, false, none, some, Bool-cases, inl, inr, if◌then◌else◌, [], ◌∷◌,
  ◌++◌,
}
use devit.Text.{Text, text, eq_ignore_ascii_case}
use devit.Tasks.{
  DelegatedTask, OrchestrationState, Message, get, remove, insert, is_finished, status_of, notified,
  put_back, notify, get_task, ok,
}
use devit.Tasks.Maps.{get-remove, get-insert}

module _ {Value : Type 0} where
  put_back_finished :
      (task_id : Text) (task : DelegatedTask Value) (state : OrchestrationState Value)
      → is_finished task.status ≡ true
      → put_back task_id task state
        ≡ record state { completed_tasks = insert task_id task state.completed_tasks }
  unfolding put_back
  put_back_finished task_id task state ended = rw ended refl

  put_back_open :
      (task_id : Text) (task : DelegatedTask Value) (state : OrchestrationState Value)
      → is_finished task.status ≡ false
      → put_back task_id task state
        ≡ record state { active_tasks = insert task_id task state.active_tasks }
  unfolding put_back
  put_back_open task_id task state still = rw still refl

  get_task_completed :
      (task_id : Text) (task : DelegatedTask Value) (state : OrchestrationState Value)
      → get task_id state.active_tasks ≡ none
      → get task_id state.completed_tasks ≡ some task
      → get_task task_id state ≡ some task
  unfolding get_task
  get_task_completed task_id task state gone there = rw (gone, get_task) there

  get_task_active :
      (task_id : Text) (task : DelegatedTask Value) (state : OrchestrationState Value)
      → get task_id state.active_tasks ≡ some task
      → get_task task_id state ≡ some task
  unfolding get_task
  get_task_active task_id task state there = rw (there, get_task) refl

  get_task-put_back :
      (task_id : Text) (task : DelegatedTask Value) (state : OrchestrationState Value)
      → get task_id state.active_tasks ≡ none
      → get_task task_id (put_back task_id task state) ≡ some task
  get_task-put_back task_id task state gone = elim (Bool-cases (is_finished task.status)) [
    | inl ended ↦
        ap (get_task task_id) (put_back_finished task_id task state ended)
        ∙ get_task_completed task_id task _ gone (get-insert task_id task state.completed_tasks)
    | inr still ↦
        ap (get_task task_id) (put_back_open task_id task state still)
        ∙ get_task_active task_id task _ (get-insert task_id task state.active_tasks)
  ]

  notify_found :
      (now : ℕ) (task_id : Text) (m : Message Value) (state : OrchestrationState Value)
      (task : DelegatedTask Value)
      → eq_ignore_ascii_case m.status (text "ack") ≡ false
      → get task_id state.active_tasks ≡ some task
      → notify now task_id m state ≡ (
        ok tt,
        put_back task_id
            (notified now m task)
            (record state { active_tasks = remove task_id state.active_tasks }),
      )
  unfolding notify
  notify_found now task_id m state task other found = rw (other, found) refl

  get_active-put_back :
      (task_id : Text) (task : DelegatedTask Value) (state : OrchestrationState Value)
      → get task_id state.active_tasks ≡ none
      → get task_id (put_back task_id task state).active_tasks
        ≡ (if is_finished task.status then none else some task)
  get_active-put_back task_id task state gone = elim (Bool-cases (is_finished task.status)) [
    | inl ended ↦ rw (put_back_finished task_id task state ended, ended) gone
    | inr still ↦
        rw (put_back_open task_id task state still, still)
          (get-insert task_id task state.active_tasks)
  ]

  -- A notification that is no acknowledgement and names an active task is recorded: the task is then
  -- found as it was, save that the notification stands behind the earlier ones, with its text and the
  -- time, that the last activity is now, and that the status is the one that the notification reports.
  -- It is still among the active tasks exactly when that status does not end it.
  pub get_task-notify :
      (now : ℕ) (task_id : Text) (m : Message Value) (state : OrchestrationState Value)
      (task : DelegatedTask Value)
      → eq_ignore_ascii_case m.status (text "ack") ≡ false
      → get task_id state.active_tasks ≡ some task
      → let after = (notify now task_id m state).1 in
        let recorded : DelegatedTask Value = record task {
          notifications =
              task.notifications
              ++ record {
                received_at = now;
                status = m.status;
                summary = m.summary;
                details = m.details;
                evidence = m.evidence;
                auto_generated = false;
                metadata = none;
              }
                ∷ [];
          last_activity = now;
          status = status_of m.status;
        } in
        (get_task task_id after ≡ some recorded)
        × (get task_id after.active_tasks
            ≡ (if is_finished (status_of m.status) then none else some recorded))
  unfolding notified
  get_task-notify now task_id m state task other found =
      let rest : OrchestrationState Value = record state {
        active_tasks = remove task_id state.active_tasks;
      } in
      let gone = get-remove task_id state.active_tasks in
      rw (notify_found now task_id m state task other found) (
        get_task-put_back task_id (notified now m task) rest gone,
        get_active-put_back task_id (notified now m task) rest gone,
      )
