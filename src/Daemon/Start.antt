-- ===== src/Daemon/Start.antt =====
-- The state that the daemon of devitd/src/main.rs starts with, State::new and ScreenshotControl::new.
use devit.Prelude.{Bool, ◌&&◌, Option, none, some, List, [], ◌∷◌}
use devit.Text.{Text, text, trim}
use devit.Paths.{PathBuf, join}
use devit.Daemon.{State, NotifyHook, ScreenshotBackend, ScreenshotControl, CapabilityRateLimit}
use devit.Daemon.Screenshot.{fallback_screenshot_directory}

pub record ScreenshotSettings : Type 0 where
  pub enabled : Bool
  pub backend : ScreenshotBackend
  pub format : Text
  pub output_dir : Option PathBuf

-- The fields of the settings that the state keeps; those of a capability stand for themselves.
pub record WorkerSettings (Worker : Type 0) : Type 0 where
  pub configs : List (Text × Worker)
  pub workspace_root : Option PathBuf
  pub expected_worker_version : Option Text
  pub capability_enabled : Bool
  pub rate_limit : CapabilityRateLimit
  pub screenshot : ScreenshotSettings
  pub approval_target : Text

unfoldable pub default_screenshot_directory : (temp_dir : PathBuf) → Option PathBuf → PathBuf
default_screenshot_directory temp_dir none = fallback_screenshot_directory temp_dir
default_screenshot_directory temp_dir (some root) =
    join (join root (text ".devit")) (text "screenshots")

-- `to_lowercase` is that of str.
unfoldable pub new_control :
    (to_lowercase : Text → Text) (temp_dir : PathBuf)
    → ScreenshotSettings
    → CapabilityRateLimit
    → (capability_enabled : Bool) → Option PathBuf
    → ScreenshotControl
new_control to_lowercase temp_dir settings rate_limit capability_enabled workspace_root = record {
  enabled = settings.enabled && capability_enabled;
  backend = settings.backend;
  format = elim (trim settings.format) [ [] ↦ text "png" | c ∷ cs ↦ to_lowercase settings.format ];
  output_dir = elim settings.output_dir [
    | none ↦ default_screenshot_directory temp_dir workspace_root
    | some dir ↦ dir
  ];
  rate_limit = rate_limit;
  history = [];
  workspace_root = workspace_root;
}

module _ {Value Worker : Type 0} where
  unfoldable pub new_state :
      (to_lowercase : Text → Text) (temp_dir : PathBuf) (secret daemon_version : Text)
      → WorkerSettings Worker
      → Option NotifyHook
      → State Value Worker
  new_state to_lowercase temp_dir secret daemon_version workers notify_hook = record {
    clients = [];
    leases = [];
    expired_leases = [];
    pending_notifications = [];
    pending_approvals = [];
    ack_markers = [];
    ack_sockets = [];
    ack_writers = [];
    secret = secret;
    journal = [];
    worker_configs = workers.configs;
    workspace_root = workers.workspace_root;
    tasks_active = [];
    tasks_completed = [];
    notify_hook = notify_hook;
    daemon_version = daemon_version;
    expected_worker_version = workers.expected_worker_version;
    screenshot =
        new_control to_lowercase temp_dir workers.screenshot workers.rate_limit
          workers.capability_enabled workers.workspace_root;
    approver_target = elim (trim workers.approval_target) [
      | [] ↦ text "client:approver"
      | c ∷ cs ↦ workers.approval_target
    ];
  }
