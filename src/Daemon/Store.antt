-- ===== src/Daemon/Store.antt =====
-- The operations of the daemon's State in devitd/src/main.rs, less the clean-up. The order of a map is
-- that of its association list.
use devit.Prelude.{
  ℕ, zero, suc, ◌+◌, ◌-◌, Bool, true, false, not, ◌||◌, Option, none, some, List, [], ◌∷◌, ◌++◌,
  ltb, leb, length, map, any, if◌then◌else◌,
}
use devit.Text.{Text}
use devit.Tasks.{
  TaskStatus, completed, failed, DelegatedTask, get, remove, insert, is_finished, unwrap_or,
}
use devit.Daemon.{State, Client, Msg, heartbeat_timeout, max_completed_tasks}

-- map.values()
abbrev pub values {ℓ} : {A : Type ℓ} → List (Text × A) → List A
values m = map (λ (k, a). a) m

abbrev pub is_empty {ℓ} : {A : Type ℓ} → List A → Bool
is_empty [] = true
is_empty (a ∷ rest) = false

-- client.last_heartbeat.elapsed() < HEARTBEAT_TIMEOUT
abbrev pub is_live : (instant : ℕ) → Client → Bool
is_live instant client = ltb (instant - client.last_heartbeat) heartbeat_timeout

-- The insertion that keeps equal keys in their order, and the stable sort by the key.
unfoldable pub insert_by_key : Text × ℕ → List (Text × ℕ) → List (Text × ℕ)
insert_by_key t [] = t ∷ []
insert_by_key (id, ts) ((id', ts') ∷ rest) =
    let later = insert_by_key (id, ts) rest in
    if leb ts ts' then (id, ts) ∷ (id', ts') ∷ rest else (id', ts') ∷ later

unfoldable pub sort_by_key : List (Text × ℕ) → List (Text × ℕ)
sort_by_key [] = []
sort_by_key (t ∷ ts) = insert_by_key t (sort_by_key ts)

module _ {A : Type 0} where
  -- for (task_id, _) in tasks.take(n): map.remove(task_id)
  unfoldable pub remove_first : ℕ → List (Text × ℕ) → List (Text × A) → List (Text × A)
  remove_first zero tasks m = m
  remove_first (suc n) [] m = m
  remove_first (suc n) ((task_id, ts) ∷ tasks) m = remove_first n tasks (remove task_id m)

-- tasks.iter().min_by_key(|task| task.created_at), the first of several
unfoldable pub oldest : {Value : Type 0} → List (DelegatedTask Value) → Option (DelegatedTask Value)
oldest [] = none
oldest (task ∷ tasks) = elim (oldest tasks) [
  | none ↦ some task
  | some other ↦ if leb task.created_at other.created_at then some task else some other
]

pub record OrchestrationSummary : Type 0 where
  pub total_active : ℕ
  pub total_completed : ℕ
  pub total_failed : ℕ
  pub oldest_active_task : Option Text

pub record OrchestrationStatus (Value : Type 0) : Type 0 where
  pub active_tasks : List (DelegatedTask Value)
  pub completed_tasks : List (DelegatedTask Value)
  pub summary : OrchestrationSummary

-- iter().filter(|task| p(task.status)).count()
unfoldable pub count_status :
    {Value : Type 0} → (TaskStatus → Bool) → List (DelegatedTask Value) → ℕ
count_status p [] = 0
count_status p (task ∷ tasks) =
    if p task.status then 1 + count_status p tasks else count_status p tasks

abbrev pub is_completed : TaskStatus → Bool
is_completed completed = true
is_completed _ = false

abbrev pub is_failed : TaskStatus → Bool
is_failed failed = true
is_failed _ = false

abbrev pub ages : {Value : Type 0} → List (Text × DelegatedTask Value) → List (Text × ℕ)
ages tasks = map (λ task. (task.id, task.last_activity)) (values tasks)

module _ {Value Worker : Type 0} where
  unfoldable pub has_live_clients : (instant : ℕ) → State Value Worker → Bool
  has_live_clients instant state = any (is_live instant) (values state.clients)

  unfoldable pub has_inflight_work : State Value Worker → Bool
  has_inflight_work state =
      not (is_empty state.tasks_active)
      || not (is_empty state.leases)
      || not (is_empty state.pending_approvals)

  unfoldable pub is_client_alive : (instant : ℕ) (ident : Text) → State Value Worker → Bool
  is_client_alive instant ident state = elim (get ident state.clients) [
    | none ↦ false
    | some c ↦ is_live instant c
  ]

  unfoldable pub add_notification : Text → Msg Value → State Value Worker → State Value Worker
  add_notification client_id msg state = record state {
    pending_notifications =
        insert client_id (unwrap_or [] (get client_id state.pending_notifications) ++ (msg ∷ []))
          state.pending_notifications;
  }

  unfoldable pub get_notifications :
      Text → State Value Worker → List (Msg Value) × State Value Worker
  get_notifications client_id state = (
    unwrap_or [] (get client_id state.pending_notifications),
    record state { pending_notifications = remove client_id state.pending_notifications },
  )

  unfoldable pub insert_active_task : DelegatedTask Value → State Value Worker → State Value Worker
  insert_active_task task state = record state {
    tasks_active = insert task.id task state.tasks_active;
  }

  unfoldable pub prune_completed : State Value Worker → State Value Worker
  prune_completed state =
      if leb (length state.tasks_completed) max_completed_tasks then state else record state {
        tasks_completed =
            remove_first (length state.tasks_completed - max_completed_tasks)
              (sort_by_key (ages state.tasks_completed)) state.tasks_completed;
      }

  unfoldable pub finalize_task : DelegatedTask Value → State Value Worker → State Value Worker
  finalize_task task state =
      if is_finished task.status
      then prune_completed
          (record state { tasks_completed = insert task.id task state.tasks_completed })
      else record state { tasks_active = insert task.id task state.tasks_active }

  unfoldable pub build_snapshot : State Value Worker → OrchestrationStatus Value
  build_snapshot state = record {
    active_tasks = values state.tasks_active;
    completed_tasks = values state.tasks_completed;
    summary = record {
      total_active = length (values state.tasks_active);
      total_completed = count_status is_completed (values state.tasks_completed);
      total_failed = count_status is_failed (values state.tasks_completed);
      oldest_active_task = elim (oldest (values state.tasks_active)) [
        | none ↦ none
        | some task ↦ some task.id
      ];
    };
  }
