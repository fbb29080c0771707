-- ===== src/Daemon/Policy.antt =====
-- devitd/src/policy.rs: which tasks are allowed, denied, or wait for an approval.
use devit.Prelude.{ℕ, Bool, false, ◌||◌, Option, none, some, List, [], ◌∷◌, ltb, if◌then◌else◌}
use devit.Text.{Text, text, text_eq, starts_with, contains}
use devit.Daemon.{Platform}

pub data Decision : Type 0 where
  allow deny need_approval : Decision

unfoldable pub is_forbidden : Text → Bool
is_forbidden path =
    starts_with path (text "/etc")
    || starts_with path (text "/var")
    || starts_with path (text "/home")
    || starts_with path (text "/root")
    || starts_with path (text "/sys")
    || starts_with path (text "/proc")

unfoldable pub is_trusted : Text → Bool
is_trusted path =
    starts_with path (text "/workdir/src")
    || starts_with path (text "/workdir/tests")
    || starts_with path (text "/tmp/devit")

unfoldable pub is_sensitive : Text → Bool
is_sensitive path =
    contains path (text "password")
    || contains path (text "secret")
    || contains path (text "key")
    || starts_with path (text "/etc/shadow")
    || starts_with path (text "/root/.ssh")

abbrev pub dangerous_patterns : List Text
dangerous_patterns =
    text "rm -rf"
    ∷ text "sudo"
    ∷ text "chmod +x"
    ∷ text "curl"
    ∷ text "wget"
    ∷ text "network"
    ∷ text "docker"
    ∷ []

unfoldable pub contains_any : Text → List Text → Bool
contains_any s [] = false
contains_any s (p ∷ ps) = contains s p || contains_any s ps

module _ {Value : Type 0} (p : Platform Value) where
  -- o.and_then(|v| v.get(key))
  abbrev pub field : Text → Option Value → Option Value
  field key none = none
  field key (some v) = p.get key v

  abbrev pub str_of : Option Value → Option Text
  str_of none = none
  str_of (some v) = p.as_str v

  abbrev pub u64_of : Option Value → Option ℕ
  u64_of none = none
  u64_of (some v) = p.as_u64 v

  -- payload.get("task").and_then(|t| t.get(key))
  abbrev pub task_field : Text → Value → Option Value
  task_field key payload = field key (p.get (text "task") payload)

  unfoldable pub eval_patch_apply : Value → Decision
  eval_patch_apply payload = elim (str_of (task_field (text "path") payload)) [
    | none ↦ need_approval
    | some path ↦
        if is_forbidden path then deny else if is_trusted path then allow else need_approval
  ]

  unfoldable pub eval_file_read : Value → Decision
  eval_file_read payload = elim (str_of (task_field (text "path") payload)) [
    | none ↦ allow
    | some path ↦
        if is_sensitive path then deny else elim (u64_of (task_field (text "max_bytes") payload)) [
          | none ↦ allow
          | some size ↦ if ltb 1048576 size then need_approval else allow
        ]
  ]

  -- The look for dangerous operations.
  unfoldable pub eval_command : Value → Decision
  eval_command payload = elim (str_of (task_field (text "command") payload)) [
    | none ↦ allow
    | some command ↦ if contains_any command dangerous_patterns then need_approval else allow
  ]

  unfoldable pub eval_test_run : Value → Decision
  eval_test_run payload = elim (u64_of (task_field (text "timeout_secs") payload)) [
    | none ↦ eval_command payload
    | some timeout ↦ if ltb 120 timeout then need_approval else eval_command payload
  ]

  unfoldable pub eval : Text → Value → Decision
  eval tool payload =
      if text_eq tool (text "devit_patch_apply")
      then eval_patch_apply payload
      else if text_eq tool (text "devit_file_read")
      then eval_file_read payload
      else if text_eq tool (text "devit_test_run")
      then eval_test_run payload
      else allow

  unfoldable pub assess_risk_level : Text → Value → Text
  assess_risk_level tool details =
      if text_eq tool (text "devit_patch_apply")
      then elim (str_of (task_field (text "path") details)) [
        | none ↦ text "low"
        | some path ↦
            if contains path (text "main.rs") || contains path (text "lib.rs")
            then text "medium"
            else text "low"
      ]
      else if text_eq tool (text "devit_test_run")
      then elim (u64_of (task_field (text "timeout_secs") details)) [
        | none ↦ text "low"
        | some timeout ↦ if ltb 60 timeout then text "medium" else text "low"
      ]
      else text "low"

  -- `now` is the time of day.
  unfoldable pub create_approval_request :
      (now : ℕ) (task_id tool original_msg_id : Text) (details : Value) → Value
  create_approval_request now task_id tool original_msg_id details = p.object (
      (text "reason", p.string (text "on_request"))
      ∷ (text "tool", p.string tool)
      ∷ (text "task_id", p.string task_id)
      ∷ (text "original_msg_id", p.string original_msg_id)
      ∷ (text "details", details)
      ∷ (text "timestamp", p.string (p.to_rfc3339 now))
      ∷ (text "risk_level", p.string (assess_risk_level tool details))
      ∷ [])
