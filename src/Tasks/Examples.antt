-- ===== src/Tasks/Examples.antt =====
-- A task that is delegated and then fails.
use devit.Prelude.{◌≡◌, refl, false, none, some, [], ◌∷◌}
use devit.Text.{Text, text}
use devit.Tasks.{
  OrchestrationConfig, OrchestrationState, DelegatedTask, failed, status_of, Delegation, Message,
  get, empty_state, new_task, delegate, notify, get_task,
}
use devit.Tasks.Life.{IsValid, start, delegated, notification, Reaches-IsValid}
use devit.Tasks.Recorded.{get_task-notify}

abbrev config : OrchestrationConfig
config = record {
  max_concurrent_tasks = 1;
  default_timeout_secs = 1800;
  default_watch_patterns = text "*.rs" ∷ [];
}

abbrev goal : Delegation Text
goal = record {
  goal = text "refactor";
  delegated_to = text "codex";
  model = none;
  timeout = none;
  watch_patterns = none;
  context = none;
  working_dir = none;
  response_format = none;
}

abbrev message : Message Text
message = record {
  status = text "failed";
  summary = text "no such file";
  details = none;
  evidence = none;
}

abbrev task_id : Text
task_id = text "t1"

abbrev one_task : OrchestrationState Text
one_task = (delegate config task_id 5 goal empty_state).1

Reaches-IsValid_example : IsValid config (notify 9 task_id message one_task).1
Reaches-IsValid_example =
    Reaches-IsValid config (notify 9 task_id message one_task).1
      (notification 9 task_id message (delegated task_id 5 goal start))

task_found : get task_id one_task.active_tasks ≡ some (new_task config task_id 5 goal)
unfolding get delegate
task_found = refl

abbrev recorded : DelegatedTask Text
recorded = record (new_task config task_id 5 goal) {
  notifications =
      record {
        received_at = 9;
        status = text "failed";
        summary = text "no such file";
        details = none;
        evidence = none;
        auto_generated = false;
        metadata = none;
      }
      ∷ [];
  last_activity = 9;
  status = failed;
}

get_task-notify_example :
    (get_task task_id (notify 9 task_id message one_task).1 ≡ some recorded)
    × (get task_id (notify 9 task_id message one_task).1.active_tasks ≡ none)
get_task-notify_example =
    unfold status_of new_task in
    get_task-notify 9 task_id message one_task (new_task config task_id 5 goal) refl task_found
