-- ===== src/Daemon/Grant.antt =====
-- What devitd/src/main.rs does to hand a task to a worker, proceed_with_delegation: the lease, the active
-- task, the message to a worker that polls, and the entry of the journal.
use devit.Prelude.{◌+◌, Bool, Option, none, [], ◌∷◌, ◌++◌, if◌then◌else◌}
use devit.Text.{Text, text}
use devit.Tasks.{pending, in_progress, DelegatedTask, insert}
use devit.Journal.{Request}
use devit.Daemon.{Platform, Env, State, Lease, Msg, TaskDetails, lease_ttl, lease_ttl_secs}
use devit.Daemon.Policy.{str_of}
use devit.Daemon.Store.{insert_active_task, add_notification}
use devit.Daemon.Outgoing.{new_msg}
use devit.Daemon.Clients.{or_null, string_or_null}

module _ {Value : Type 0} where
  abbrev pub entry_of : Env → (event msg_id from to : Text) (meta : Value) → Request Value
  entry_of env event msg_id from to meta = record {
    ts = env.ts;
    event = event;
    msg_id = msg_id;
    from = from;
    to = to;
    meta = meta;
  }

  unfoldable pub delegated_task :
      Env → (task_id worker : Text) (notify_worker : Bool) → TaskDetails Value → DelegatedTask Value
  delegated_task env task_id worker notify_worker details = record {
    id = task_id;
    goal = details.goal;
    delegated_to = worker;
    created_at = env.utc;
    timeout_secs = details.timeout_secs;
    status = if notify_worker then pending else in_progress;
    context = details.context;
    watch_patterns = details.watch_patterns;
    last_activity = env.utc;
    notifications = [];
    working_dir = details.working_dir;
    response_format = details.response_format;
    model = details.model;
    model_resolved = none;
  }

  unfoldable pub new_lease :
      Env → Msg Value → (task_id worker : Text) → Option Text → TaskDetails Value → Lease
  new_lease env msg task_id worker return_to details = record {
    task_id = task_id;
    assigned_to = worker;
    original_from = msg.from;
    deadline = env.instant + lease_ttl;
    return_to = return_to;
    working_dir = details.working_dir;
    response_format = details.response_format;
    model = details.model;
    model_resolved = none;
  }

module _ {Value : Type 0} (p : Platform Value) where
  abbrev pub return_to_of : Msg Value → Option Text
  return_to_of msg = str_of p (p.get (text "return_to") msg.payload)

  -- The fields of journal_payload; that of a task for a subprocess has one more.
  unfoldable pub delegation_meta :
      Msg Value → Option Text → (tool : Text) (notify_worker : Bool) → TaskDetails Value → Value
  delegation_meta msg return_to tool notify_worker details = p.object (
      (text "original_msg_id", p.string msg.msg_id)
      ∷ (text "return_to", string_or_null p return_to)
      ∷ (text "lease_ttl", p.number lease_ttl_secs)
      ∷ (text "task", or_null p (p.get (text "task") msg.payload))
      ∷ (text "tool", p.string tool)
      ∷ (text "working_dir", string_or_null p details.working_dir)
      ∷ (text "format", string_or_null p details.response_format)
      ∷ (text "model", string_or_null p details.model)
      ∷ (text "policy_decision", p.string (text "allow"))
      ∷ (if notify_worker then [] else (text "delivery", p.string (text "subprocess")) ∷ []))

module _ {Value Worker : Type 0} where
  -- journal.append(…), whose result the daemon ignores
  abbrev pub journalled : Request Value → State Value Worker → State Value Worker
  journalled r state = record state { journal = state.journal ++ (r ∷ []) }

module _ {Value Worker : Type 0} (p : Platform Value) where
  unfoldable pub proceed_with_delegation :
      Env
      → Msg Value
      → (task_id worker : Text) → Option Text
      → (tool : Text) (notify_worker : Bool) → TaskDetails Value
      → State Value Worker
      → State Value Worker
  proceed_with_delegation env msg task_id worker return_to tool notify_worker details state =
      let leased =
        insert_active_task (delegated_task env task_id worker notify_worker details) (record state {
          leases = insert task_id (new_lease env msg task_id worker return_to details) state.leases;
        }) in
      let task_msg =
        record (new_msg env 0 (text "DELEGATE") (text "orchestrator") worker msg.payload) {
          msg_id = task_id;
        } in
      journalled
        (entry_of env (text "DELEGATE") task_id msg.from worker
          (delegation_meta p msg return_to tool notify_worker details))
        (if notify_worker then add_notification worker task_msg leased else leased)
