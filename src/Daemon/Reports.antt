-- ===== src/Daemon/Reports.antt =====
-- What handle_notify of devitd/src/main.rs reads from a report, and the task and the entry that it makes
-- of it.
use devit.Prelude.{ℕ, Bool, true, false, Option, none, some, [], ◌∷◌, ◌++◌}
use devit.Text.{Text, text, eq_ignore_ascii_case}
use devit.Tasks.{TaskNotification, DelegatedTask, unwrap_or}
use devit.Daemon.{Platform, Lease, Msg, task_timeout_secs}
use devit.Daemon.Policy.{str_of}
use devit.Daemon.Details.{NotificationParts, extract_notification_parts, map_status, or_else}
use devit.Daemon.Clients.{or_null}

module _ {Value : Type 0} (p : Platform Value) where
  abbrev pub task_id_of : Msg Value → Text
  task_id_of msg = unwrap_or msg.msg_id (str_of p (p.get (text "task_id") msg.payload))

  abbrev pub status_text : Msg Value → Text
  status_text msg = unwrap_or (text "completed") (str_of p (p.get (text "status") msg.payload))

  unfoldable pub is_ack : Msg Value → Bool
  is_ack msg = elim (str_of p (p.get (text "status") msg.payload)) [
    | none ↦ false
    | some s ↦ eq_ignore_ascii_case s (text "ack")
  ]

  abbrev pub parts_of : Msg Value → NotificationParts Value
  parts_of msg =
      extract_notification_parts p (unwrap_or p.null (p.get (text "artifacts") msg.payload))

  unfoldable pub reported : (utc : ℕ) → Msg Value → TaskNotification Value
  reported utc msg = record {
    received_at = utc;
    status = status_text msg;
    summary = (parts_of msg).summary;
    details = (parts_of msg).details;
    evidence = (parts_of msg).evidence;
    auto_generated = true;
    metadata = (parts_of msg).metadata;
  }

  -- metadata_obj.get(key).as_str()
  abbrev pub metadata_text : Text → Msg Value → Option Text
  metadata_text key msg = elim (parts_of msg).metadata [
    | none ↦ none
    | some meta ↦ elim (p.as_object meta) [ none ↦ none | some fields ↦ str_of p (p.get key meta) ]
  ]

  -- The task behind a report on it under a lease.
  unfoldable pub leased_task :
      (utc : ℕ) (task_id : Text)
      → Lease
      → Msg Value
      → Option (DelegatedTask Value)
      → DelegatedTask Value
  leased_task utc task_id lease msg (some existing) = record existing {
    status = map_status (status_text msg);
    last_activity = utc;
    notifications = existing.notifications ++ (reported utc msg ∷ []);
    working_dir = or_else lease.working_dir existing.working_dir;
    response_format = or_else existing.response_format lease.response_format;
    model =
        or_else existing.model (or_else (metadata_text (text "model_requested") msg) lease.model);
    model_resolved = or_else (metadata_text (text "model_used") msg) existing.model_resolved;
  }
  leased_task utc task_id lease msg none = record {
    id = task_id;
    goal = (parts_of msg).summary;
    delegated_to = lease.assigned_to;
    created_at = utc;
    timeout_secs = task_timeout_secs;
    status = map_status (status_text msg);
    context = none;
    watch_patterns = [];
    last_activity = utc;
    notifications = reported utc msg ∷ [];
    working_dir = lease.working_dir;
    response_format = lease.response_format;
    model = or_else (metadata_text (text "model_requested") msg) lease.model;
    model_resolved = metadata_text (text "model_used") msg;
  }

  -- The task behind a report on it without a lease.
  unfoldable pub late_task :
      (utc : ℕ) (task_id : Text) → Msg Value → Option (DelegatedTask Value) → DelegatedTask Value
  late_task utc task_id msg (some existing) = record existing {
    status = map_status (status_text msg);
    last_activity = utc;
    notifications = existing.notifications ++ (reported utc msg ∷ []);
  }
  late_task utc task_id msg none = record {
    id = task_id;
    goal = (parts_of msg).summary;
    delegated_to = msg.from;
    created_at = utc;
    timeout_secs = task_timeout_secs;
    status = map_status (status_text msg);
    context = none;
    watch_patterns = [];
    last_activity = utc;
    notifications = reported utc msg ∷ [];
    working_dir = none;
    response_format = none;
    model = none;
    model_resolved = none;
  }

  -- The fields of the journal's entry; a report under a lease names the worker, a late one says so.
  unfoldable pub report_meta : Option Lease → Msg Value → Value
  report_meta lease msg = p.object (
      (text "status", p.string (status_text msg))
      ∷ (text "summary", p.string (parts_of msg).summary)
      ∷ (text "details", or_null p (parts_of msg).details)
      ∷ (text "evidence", or_null p (parts_of msg).evidence)
      ∷ (text "metadata", or_null p (parts_of msg).metadata)
      ∷ elim lease [
        | some l ↦ (text "completed_by", p.string l.assigned_to) ∷ []
        | none ↦ (text "note", p.string (text "late_notification")) ∷ []
      ])
