-- ===== src/Daemon/Details.antt =====
-- What devitd/src/main.rs reads from the payload of a message: the details of a task, the parts of a
-- notification, and the status that it reports.
use devit.Prelude.{Option, none, some, List, [], ◌∷◌, ◌++◌, if◌then◌else◌}
use devit.Text.{Text, text, text_eq, trim}
use devit.Tasks.{TaskStatus, pending, in_progress, completed, failed, cancelled, insert, unwrap_or}
use devit.Daemon.{Platform, TaskDetails, task_timeout_secs}
use devit.Daemon.Policy.{field, str_of, u64_of}

-- o.map(|s| s.trim().to_string()).filter(|s| !s.is_empty())
unfoldable pub trimmed : Option Text → Option Text
trimmed none = none
trimmed (some s) = elim (trim s) [ [] ↦ none | c ∷ cs ↦ some (c ∷ cs) ]

-- o.or_else(|| other)
abbrev pub or_else {ℓ} : {A : Type ℓ} → Option A → Option A → Option A
or_else none other = other
or_else (some a) other = some a

unfoldable pub map_status : Text → TaskStatus
map_status status =
    if text_eq status (text "completed")
    then completed
    else if text_eq status (text "failed")
    then failed
    else if text_eq status (text "cancelled")
    then cancelled
    else if text_eq status (text "pending")
    then pending
    else in_progress

pub record NotificationParts (Value : Type 0) : Type 0 where
  pub summary : Text
  pub details : Option Value
  pub evidence : Option Value
  pub metadata : Option Value

module _ {Value : Type 0} (p : Platform Value) where
  -- arr.iter().filter_map(|v| v.as_str())
  abbrev pub texts : List Value → List Text
  texts [] = []
  texts (v ∷ vs) = let rest = texts vs in elim (p.as_str v) [ none ↦ rest | some s ↦ s ∷ rest ]

  -- o.and_then(|v| v.as_array()).map(…).unwrap_or_default()
  abbrev pub texts_of : Option Value → List Text
  texts_of none = []
  texts_of (some v) = elim (p.as_array v) [ none ↦ [] | some vs ↦ texts vs ]

  unfoldable pub parse_task_details : Option Value → Text → TaskDetails Value
  parse_task_details task fallback_id = record {
    goal =
        unwrap_or (text "Task " ++ (fallback_id ++ text " delegated"))
          (trimmed (str_of p (field p (text "goal") task)));
    timeout_secs = unwrap_or task_timeout_secs (u64_of p (field p (text "timeout") task));
    context = field p (text "context") task;
    watch_patterns = texts_of (field p (text "watch_patterns") task);
    working_dir = str_of p (field p (text "working_dir") task);
    response_format = str_of p (field p (text "format") task);
    model = trimmed (str_of p (field p (text "model") task));
  }

  -- The object that the two marks of a cut are put in.
  unfoldable pub merged_details : Option Value → List (Text × Value)
  merged_details none = []
  merged_details (some v) = elim (p.as_object v) [
    | none ↦ (text "payload", v) ∷ []
    | some fields ↦ fields
  ]

  abbrev pub put : Text → Option Value → List (Text × Value) → List (Text × Value)
  put key none fields = fields
  put key (some v) fields = insert key v fields

  unfoldable pub details_of : Value → Option Value
  details_of map =
      let merged = put (text "original_size") (p.get (text "original_size") map) (
        put (text "truncated") (p.get (text "truncated") map)
          (merged_details (p.get (text "details") map))) in
      elim (or_else (p.get (text "truncated") map) (p.get (text "original_size") map)) [
        | none ↦ p.get (text "details") map
        | some flag ↦ some (p.object merged)
      ]

  unfoldable pub extract_notification_parts : Value → NotificationParts Value
  extract_notification_parts artifacts = elim (p.as_object artifacts) [
    | none ↦ record {
      summary = p.display artifacts;
      details = none;
      evidence = none;
      metadata = none;
    }
    | some fields ↦ record {
      summary =
          unwrap_or (text "daemon notification") (str_of p (p.get (text "summary") artifacts));
      details = details_of artifacts;
      evidence = p.get (text "evidence") artifacts;
      metadata = p.get (text "metadata") artifacts;
    }
  ]
