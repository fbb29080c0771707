-- ===== src/Tasks/Life.antt =====
-- What holds in every state that the backend can reach.
use devit.Prelude.{
  ℕ, suc, ◌+◌, ◌*◌, ◌≤◌, ◌≡◌, refl, ap, true, not, ltb, leb, length, all, arith, Bool-cases,
  Option-cases, inl, inr,
}
use devit.Text.{Text, text, eq_ignore_ascii_case}
use devit.Tasks.{
  DelegatedTask, OrchestrationConfig, OrchestrationState, Delegation, Message, get, remove, insert,
  is_finished, empty_state, new_task, delegate, notified, put_back, notify, remove_inactive_tasks,
  two_hours, second,
}
use devit.Tasks.Maps.{all-remove, all-insert, all-retain, length-remove, length-remove_found}

module _ {Value : Type 0} where
  abbrev pub IsValid : OrchestrationConfig → OrchestrationState Value → Type 0
  IsValid config state =
      (all (λ (k, task). not (is_finished task.status)) state.active_tasks ≡ true)
      × (all (λ (k, task). is_finished task.status) state.completed_tasks ≡ true)
      × (length state.active_tasks ≤ config.max_concurrent_tasks)

  delegate-IsValid :
      (config : OrchestrationConfig) (task_id : Text) (now : ℕ) (d : Delegation Value)
      (state : OrchestrationState Value)
      → IsValid config state
      → IsValid config (delegate config task_id now d state).1
  unfolding delegate insert
  delegate-IsValid config task_id now d state (open_ones, finished, bounded) =
      elim (Bool-cases (leb config.max_concurrent_tasks (length state.active_tasks))) [
        | inl full ↦ rw full (open_ones, finished, bounded)
        | inr room ↦ rw room (
          unfold new_task in
              all-remove (λ task. not (is_finished task.status)) task_id state.active_tasks
                open_ones,
          finished,
          ground (arith, room, length-remove task_id state.active_tasks),
        )
      ]

  put_back-IsValid :
      (config : OrchestrationConfig) (task_id : Text) (task : DelegatedTask Value)
      (state : OrchestrationState Value)
      → IsValid config state
      → suc (length state.active_tasks) ≤ config.max_concurrent_tasks
      → IsValid config (put_back task_id task state)
  unfolding put_back
  put_back-IsValid config task_id task state (open_ones, finished, bounded) room =
      elim (Bool-cases (is_finished task.status)) [
        | inl ended ↦ rw ended (
          open_ones,
          all-insert (λ t. is_finished t.status) task_id task state.completed_tasks ended finished,
          bounded,
        )
        | inr still ↦ rw still (
          all-insert (λ t. not (is_finished t.status)) task_id task state.active_tasks
              (ap not still) open_ones,
          finished,
          unfold insert in omega (arith, length-remove task_id state.active_tasks),
        )
      ]

  notify-IsValid :
      (config : OrchestrationConfig) (now : ℕ) (task_id : Text) (m : Message Value)
      (state : OrchestrationState Value)
      → IsValid config state
      → IsValid config (notify now task_id m state).1
  unfolding notify
  notify-IsValid config now task_id m state (open_ones, finished, bounded) =
      elim (Bool-cases (eq_ignore_ascii_case m.status (text "ack"))) [
        | inl acknowledged ↦ rw acknowledged (open_ones, finished, bounded)
        | inr other ↦ elim (Option-cases (get task_id state.active_tasks)) [
          | inl missing ↦ rw (other, missing) (open_ones, finished, bounded)
          | inr (task, found) ↦
              rw (other, found)
                (put_back-IsValid config task_id (notified now m task)
                  (record state { active_tasks = remove task_id state.active_tasks })
                  (
                    all-remove (λ t. not (is_finished t.status)) task_id state.active_tasks
                        open_ones,
                    finished,
                    omega (arith, length-remove task_id state.active_tasks),
                  )
                  (omega (arith, length-remove_found task_id state.active_tasks task found)))
        ]
      ]

  cleanup-IsValid :
      (config : OrchestrationConfig) (instant now : ℕ) (state : OrchestrationState Value)
      → IsValid config state
      → IsValid config (remove_inactive_tasks instant now state)
  unfolding remove_inactive_tasks
  cleanup-IsValid config instant now state (open_ones, finished, bounded) =
      let kept =
        all-retain (λ t. is_finished t.status) (λ task. ltb now (task.last_activity + two_hours))
          state.completed_tasks finished in
      elim (Option-cases state.last_cleanup) [
        | inl never ↦ rw never (open_ones, kept, bounded)
        | inr (last, found) ↦ elim (Bool-cases (ltb instant (last + 30 * second))) [
          | inl recent ↦ rw (found, recent) (open_ones, finished, bounded)
          | inr old ↦ rw (found, old) (open_ones, kept, bounded)
        ]
      ]

  -- The states of a backend that starts with no task: any calls in any order, at any times.
  pub data Reaches (config : OrchestrationConfig) : OrchestrationState Value → Type 0 where
    start : Reaches config empty_state
    delegated :
        {state : OrchestrationState Value} (task_id : Text) (now : ℕ) (d : Delegation Value)
        → Reaches config state
        → Reaches config (delegate config task_id now d state).1
    notification :
        {state : OrchestrationState Value} (now : ℕ) (task_id : Text) (m : Message Value)
        → Reaches config state
        → Reaches config (notify now task_id m state).1
    cleanup :
        {state : OrchestrationState Value} (instant now : ℕ)
        → Reaches config state
        → Reaches config (remove_inactive_tasks instant now state)

  -- In every state that the backend can reach no active task has a final status, every completed task
  -- has one, and there are no more active tasks than the configuration allows.
  pub Reaches-IsValid :
      (config : OrchestrationConfig) (state : OrchestrationState Value)
      → Reaches config state
      → IsValid config state
  Reaches-IsValid config _ start = (refl, refl, omega arith)
  Reaches-IsValid config _ (delegated {state} task_id now d r) =
      delegate-IsValid config task_id now d state (Reaches-IsValid config state r)
  Reaches-IsValid config _ (notification {state} now task_id m r) =
      notify-IsValid config now task_id m state (Reaches-IsValid config state r)
  Reaches-IsValid config _ (cleanup {state} instant now r) =
      cleanup-IsValid config instant now state (Reaches-IsValid config state r)
