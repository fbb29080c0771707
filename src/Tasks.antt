-- ===== src/Tasks.antt =====
-- LocalBackend, crates/orchestration/src/local.rs: the tasks that were delegated and their states. The
-- two maps are association lists, times are counted in nanoseconds, and the id of a new task, both clocks
-- and the type of JSON values are given from outside.
use devit.Prelude.{
  ℕ, ◌+◌, ◌*◌, Bool, true, false, Option, none, some, List, [], ◌∷◌, ◌++◌, ltb, leb, length,
  if◌then◌else◌,
}
use devit.Text.{Text, text, text_eq, eq_ignore_ascii_case}
use devit.Paths.{PathBuf}
pub mod Maps
pub mod Keys
pub mod Life
pub mod Recorded
mod Examples

pub data TaskStatus : Type 0 where
  pending in_progress completed failed cancelled : TaskStatus

pub record TaskNotification (Value : Type 0) : Type 0 where
  pub received_at : ℕ
  pub status : Text
  pub summary : Text
  pub details : Option Value
  pub evidence : Option Value
  pub auto_generated : Bool
  pub metadata : Option Value

pub record DelegatedTask (Value : Type 0) : Type 0 where
  pub id : Text
  pub goal : Text
  pub delegated_to : Text
  pub created_at : ℕ
  pub timeout_secs : ℕ
  pub status : TaskStatus
  pub context : Option Value
  pub watch_patterns : List Text
  pub last_activity : ℕ
  pub notifications : List (TaskNotification Value)
  pub working_dir : Option PathBuf
  pub response_format : Option Text
  pub model : Option Text
  pub model_resolved : Option Text

-- The fields that the backend reads.
pub record OrchestrationConfig : Type 0 where
  pub max_concurrent_tasks : ℕ
  pub default_timeout_secs : ℕ
  pub default_watch_patterns : List Text

pub record OrchestrationState (Value : Type 0) : Type 0 where
  pub active_tasks : List (Text × DelegatedTask Value)
  pub completed_tasks : List (Text × DelegatedTask Value)
  pub last_cleanup : Option ℕ

pub data TaskError : Type 0 where
  max_tasks_reached : TaskError
  unknown_task : Text → TaskError

pub data Result {ℓ} (A : Type ℓ) : Type ℓ where
  ok : A → Result A
  err : TaskError → Result A

-- The arguments of `delegate`.
pub record Delegation (Value : Type 0) : Type 0 where
  pub goal : Text
  pub delegated_to : Text
  pub model : Option Text
  pub timeout : Option ℕ
  pub watch_patterns : Option (List Text)
  pub context : Option Value
  pub working_dir : Option PathBuf
  pub response_format : Option Text

-- The arguments of `notify` behind the task id.
pub record Message (Value : Type 0) : Type 0 where
  pub status : Text
  pub summary : Text
  pub details : Option Value
  pub evidence : Option Value

abbrev pub unwrap_or {ℓ} : {A : Type ℓ} → A → Option A → A
unwrap_or d none = d
unwrap_or d (some a) = a

module _ {A : Type 0} where
  -- map.get(k)
  unfoldable pub get : Text → List (Text × A) → Option A
  get k [] = none
  get k ((j, a) ∷ m) = if text_eq j k then some a else get k m

  -- map.remove(k), less its result
  unfoldable pub remove : Text → List (Text × A) → List (Text × A)
  remove k [] = []
  remove k ((j, a) ∷ m) = if text_eq j k then remove k m else (j, a) ∷ remove k m

  -- map.insert(k, a)
  unfoldable pub insert : Text → A → List (Text × A) → List (Text × A)
  unfolding remove
  insert k a m = (k, a) ∷ remove k m

  -- map.retain(|_, a| p(a))
  unfoldable pub retain : (A → Bool) → List (Text × A) → List (Text × A)
  retain p [] = []
  retain p ((j, a) ∷ m) = if p a then (j, a) ∷ retain p m else retain p m

-- matches!(task.status, Completed | Failed | Cancelled)
abbrev pub is_finished : TaskStatus → Bool
is_finished pending = false
is_finished in_progress = false
is_finished completed = true
is_finished failed = true
is_finished cancelled = true

unfoldable pub status_of : Text → TaskStatus
status_of status =
    if text_eq status (text "completed")
    then completed
    else if text_eq status (text "failed")
    then failed
    else if text_eq status (text "cancelled")
    then cancelled
    else in_progress

abbrev pub second : ℕ
second = 1000000000

abbrev pub two_hours : ℕ
two_hours = 2 * 60 * 60 * second

module _ {Value : Type 0} where
  abbrev pub empty_state : OrchestrationState Value
  empty_state = record { active_tasks = []; completed_tasks = []; last_cleanup = none }

  unfoldable pub new_task :
      OrchestrationConfig → (task_id : Text) (now : ℕ) → Delegation Value → DelegatedTask Value
  new_task config task_id now d = record {
    id = task_id;
    goal = d.goal;
    delegated_to = d.delegated_to;
    created_at = now;
    timeout_secs = unwrap_or config.default_timeout_secs d.timeout;
    status = pending;
    context = d.context;
    watch_patterns = unwrap_or config.default_watch_patterns d.watch_patterns;
    last_activity = now;
    notifications = [];
    working_dir = d.working_dir;
    response_format = d.response_format;
    model = d.model;
    model_resolved = none;
  }

  -- The result is the id with the timeout in seconds.
  unfoldable pub delegate :
      OrchestrationConfig
      → (task_id : Text) (now : ℕ) → Delegation Value
      → OrchestrationState Value
      → Result (Text × ℕ) × OrchestrationState Value
  unfolding new_task insert
  delegate config task_id now d state =
      if leb config.max_concurrent_tasks (length state.active_tasks)
      then (err max_tasks_reached, state)
      else (
        ok (task_id, unwrap_or config.default_timeout_secs d.timeout),
        record state {
          active_tasks = insert task_id (new_task config task_id now d) state.active_tasks;
        },
      )

  unfoldable pub notified : ℕ → Message Value → DelegatedTask Value → DelegatedTask Value
  unfolding status_of
  notified now m task = record task {
    notifications =
        task.notifications
        ++ record {
          received_at = now;
          status = m.status;
          summary = m.summary;
          details = m.details;
          evidence = m.evidence;
          auto_generated = false;
          metadata = none;
        }
          ∷ [];
    last_activity = now;
    status = status_of m.status;
  }

  -- The task goes to the map that its new status asks for.
  unfoldable pub put_back :
      Text → DelegatedTask Value → OrchestrationState Value → OrchestrationState Value
  unfolding insert
  put_back task_id task state =
      if is_finished task.status
      then record state { completed_tasks = insert task_id task state.completed_tasks }
      else record state { active_tasks = insert task_id task state.active_tasks }

  unfoldable pub notify :
      ℕ
      → Text
      → Message Value
      → OrchestrationState Value
      → Result (Unit {0}) × OrchestrationState Value
  unfolding get remove put_back notified
  notify now task_id m state =
      if eq_ignore_ascii_case m.status (text "ack")
      then (ok tt, state)
      else elim (get task_id state.active_tasks) [
        | none ↦ (err (unknown_task task_id), state)
        | some task ↦ (
          ok tt,
          put_back task_id (notified now m task)
              (record state { active_tasks = remove task_id state.active_tasks }),
        )
      ]

  -- `instant` and `now` are the monotonic and the wall clock; a cleanup within thirty seconds of the
  -- last one does nothing.
  unfoldable pub remove_inactive_tasks :
      (instant now : ℕ) → OrchestrationState Value → OrchestrationState Value
  unfolding retain
  remove_inactive_tasks instant now state =
      let cleaned : OrchestrationState Value = record state {
        completed_tasks =
            retain (λ task. ltb now (task.last_activity + two_hours)) state.completed_tasks;
        last_cleanup = some instant;
      } in
      elim state.last_cleanup [
        | none ↦ cleaned
        | some last_cleanup ↦ if ltb instant (last_cleanup + 30 * second) then state else cleaned
      ]

  unfoldable pub get_task : Text → OrchestrationState Value → Option (DelegatedTask Value)
  unfolding get
  get_task task_id state = elim (get task_id state.active_tasks) [
    | some task ↦ some task
    | none ↦ get task_id state.completed_tasks
  ]
