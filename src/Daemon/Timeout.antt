-- ===== src/Daemon/Timeout.antt =====
-- What State::cleanup_expired of devitd/src/main.rs writes about a lease that has run out: the task, the
-- notification, and the entry of the journal.
use devit.Prelude.{ℕ, true, Option, none, some, [], ◌∷◌, ◌++◌}
use devit.Text.{Text, text}
use devit.Tasks.{TaskNotification, failed, DelegatedTask}
use devit.Journal.{Request}
use devit.Daemon.{Platform, Env, Lease, lease_ttl_secs, task_timeout_secs}
use devit.Daemon.Details.{or_else}

module _ {Value : Type 0} (p : Platform Value) where
  unfoldable pub timeout_summary : Text
  timeout_summary =
      text "Task lease expired after " ++ (p.show lease_ttl_secs ++ text "s without completion")

  -- json!({"reason": "lease_timeout", …})
  unfoldable pub timeout_details : (utc : ℕ) → Lease → Value
  timeout_details utc lease = p.object (
      (text "reason", p.string (text "lease_timeout"))
      ∷ (text "timeout_secs", p.number lease_ttl_secs)
      ∷ (text "expired_at", p.string (p.rfc3339 utc))
      ∷ (text "worker", p.string lease.assigned_to)
      ∷ [])

  unfoldable pub timeout_metadata : (utc : ℕ) → Lease → Value
  timeout_metadata utc lease = p.object ((text "failure", timeout_details utc lease) ∷ [])

  unfoldable pub timeout_record : (utc : ℕ) → Lease → TaskNotification Value
  timeout_record utc lease = record {
    received_at = utc;
    status = text "failed";
    summary = timeout_summary;
    details = some (timeout_details utc lease);
    evidence = none;
    auto_generated = true;
    metadata = some (timeout_metadata utc lease);
  }

  -- The task as the end of its lease leaves it.
  unfoldable pub timed_out :
      (utc : ℕ) (task_id : Text) → Lease → Option (DelegatedTask Value) → DelegatedTask Value
  timed_out utc task_id lease (some existing) = record existing {
    status = failed;
    last_activity = utc;
    notifications = existing.notifications ++ (timeout_record utc lease ∷ []);
    working_dir = or_else lease.working_dir existing.working_dir;
    response_format = or_else existing.response_format lease.response_format;
    model = or_else existing.model lease.model;
    model_resolved = or_else existing.model_resolved lease.model_resolved;
  }
  timed_out utc task_id lease none = record {
    id = task_id;
    goal = timeout_summary;
    delegated_to = lease.assigned_to;
    created_at = utc;
    timeout_secs = task_timeout_secs;
    status = failed;
    context = none;
    watch_patterns = [];
    last_activity = utc;
    notifications = timeout_record utc lease ∷ [];
    working_dir = lease.working_dir;
    response_format = lease.response_format;
    model = lease.model;
    model_resolved = lease.model_resolved;
  }

  unfoldable pub timeout_payload : (utc : ℕ) (task_id return_target : Text) → Lease → Value
  timeout_payload utc task_id return_target lease = p.object (
      (text "task_id", p.string task_id)
      ∷ (text "status", p.string (text "failed"))
      ∷ (
        text "artifacts",
        p.object (
            (text "summary", p.string timeout_summary)
            ∷ (text "details", timeout_details utc lease)
            ∷ (text "reported_at", p.string (p.rfc3339 utc))
            ∷ []),
      )
      ∷ (text "metadata", timeout_metadata utc lease)
      ∷ (text "return_to", p.string return_target)
      ∷ [])

  unfoldable pub timeout_entry : Env → (task_id return_target : Text) → Lease → Request Value
  timeout_entry env task_id return_target lease = record {
    ts = env.ts;
    event = text "NOTIFY";
    msg_id = task_id;
    from = lease.assigned_to;
    to = return_target;
    meta = p.object (
        (text "status", p.string (text "failed"))
        ∷ (text "summary", p.string timeout_summary)
        ∷ (text "details", timeout_details env.utc lease)
        ∷ (text "metadata", timeout_metadata env.utc lease)
        ∷ (text "reason", p.string (text "lease_timeout"))
        ∷ []);
  }
