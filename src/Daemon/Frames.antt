-- ===== src/Daemon/Frames.antt =====
-- What the daemon's shared steps leave alone: the end of a task and the notifications about it change the
-- completed tasks, the queues and the journal, and nothing else.
use devit.Prelude.{
  ◌≡◌, refl, ap, ◌∙◌, true, Option, Bool-cases, List, Option-cases, inl, inr, leb, length,
}
use devit.Text.{Text, text_eq}
use devit.Tasks.{DelegatedTask, get, remove, insert, is_finished, unwrap_or}
use devit.Journal.{Request}
use devit.Daemon.{Platform, Env, State, Msg, TaskDetails, max_completed_tasks}
use devit.Daemon.Signing.{sign_msg}
use devit.Daemon.Store.{prune_completed, finalize_task, add_notification}
use devit.Daemon.Outgoing.{
  notify_signed, queue_failure_notification, record_immediate_failure, failed_task,
}
use devit.Daemon.Delegate.{fail_both}
use devit.Daemon.Cleanup.{take_task}
use devit.Tasks.Keys.{remove_missing}

module _ {Value Worker : Type 0} where
  -- The second state is the first one but for the three fields.
  abbrev pub Framed : State Value Worker → State Value Worker → Type 0
  Framed s t = t ≡ record s {
    tasks_completed = t.tasks_completed;
    pending_notifications = t.pending_notifications;
    journal = t.journal;
  }

  pub Framed-trans : (s t u : State Value Worker) → Framed s t → Framed t u → Framed s u
  Framed-trans s t u st tu =
      tu
      ∙ ap
          (λ (x : State Value Worker). record x {
            tasks_completed = u.tasks_completed;
            pending_notifications = u.pending_notifications;
            journal = u.journal;
          })
          st

  pub journal-Framed :
      (s t : State Value Worker) (j : List (Request Value))
      → Framed s t
      → Framed s (record t { journal = j })
  journal-Framed s t j framed =
      ap
        (λ (x : State Value Worker). record x {
          tasks_completed = t.tasks_completed;
          pending_notifications = t.pending_notifications;
          journal = j;
        })
        framed

  pub prune_completed-Framed : (state : State Value Worker) → Framed state (prune_completed state)
  unfolding prune_completed
  prune_completed-Framed state =
      elim (Bool-cases (leb (length state.tasks_completed) max_completed_tasks)) [
        | inl few ↦ rw (few, prune_completed) refl
        | inr many ↦ rw (many, prune_completed) refl
      ]

  pub finalize_task-Framed :
      (task : DelegatedTask Value) (state : State Value Worker)
      → is_finished task.status ≡ true
      → Framed state (finalize_task task state)
  unfolding finalize_task
  finalize_task-Framed task state ended =
      rw (ended, finalize_task)
        (prune_completed-Framed
          (record state { tasks_completed = insert task.id task state.tasks_completed }))

  pub take_task-Framed :
      (task_id : Text) (state : State Value Worker)
      → Framed
          (record state { tasks_active = remove task_id state.tasks_active })
          (take_task task_id state).1
  unfolding take_task
  take_task-Framed task_id state = elim (Option-cases (get task_id state.tasks_active)) [
    | inl gone ↦ rw (gone, take_task) (rw (remove_missing task_id state.tasks_active gone) refl)
    | inr (task, found) ↦ rw (found, take_task) refl
  ]

module _ {Value Worker : Type 0} (p : Platform Value) where
  pub notify_signed-Framed :
      (target : Text) (msg : Msg Value) (state : State Value Worker)
      → Framed state (notify_signed p target msg state)
  unfolding notify_signed add_notification
  notify_signed-Framed target msg state = elim (Option-cases (sign_msg p msg state.secret)) [
    | inl unsigned ↦ rw (unsigned, notify_signed) refl
    | inr (signed, found) ↦ rw (found, notify_signed) refl
  ]

  record_immediate_failure-Framed :
      (env : Env) (target task_id worker : Text) (artifacts : Value) (details : TaskDetails Value)
      (state : State Value Worker)
      → Framed state (record_immediate_failure p env target task_id worker artifacts details state)
  unfolding record_immediate_failure queue_failure_notification failed_task
  record_immediate_failure-Framed env target task_id worker artifacts details state =
      Framed-trans state _ _ (notify_signed-Framed target _ state) (finalize_task-Framed _ _ refl)

  pub fail_both-Framed :
      (env : Env) (from : Text) (return_to : Option Text) (task_id worker : Text)
      (artifacts : Value) (details : TaskDetails Value) (state : State Value Worker)
      → Framed state (fail_both p env from return_to task_id worker artifacts details state)
  unfolding fail_both queue_failure_notification
  fail_both-Framed env from return_to task_id worker artifacts details state =
      let target = unwrap_or from return_to in
      let recorded =
        record_immediate_failure-Framed env target task_id worker artifacts details state in
      elim (Bool-cases (text_eq target from)) [
        | inl same ↦ rw (same, fail_both) recorded
        | inr other ↦
            rw (other, fail_both) (Framed-trans state _ _ recorded (notify_signed-Framed from _ _))
      ]
