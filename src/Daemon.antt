-- ===== src/Daemon.antt =====
-- The orchestration daemon, devitd/src/main.rs: its messages, leases, clients and its state. The maps are
-- association lists, and both clocks are counted in nanoseconds. JSON values with their operations, the
-- HMAC, the base64 encoding and the printing of numbers and times are parameters (Platform), and so is the
-- configuration of a worker; what a step reads from the machine is its Env.
use devit.Prelude.{ℕ, ◌*◌, Bool, Option, List}
use devit.Text.{Text}
use devit.Paths.{PathBuf}
use devit.Tasks.{DelegatedTask, second}
use devit.Journal.{Request}
pub mod Policy
pub mod Details
pub mod Signing
pub mod Store
pub mod Completed
pub mod Screenshot
pub mod Outgoing
pub mod Timeout
pub mod Cleanup
pub mod Clients
pub mod Grant
pub mod Delegate
pub mod Acks
pub mod Reports
pub mod Notify
pub mod Approvals
pub mod Workers
pub mod Handle
pub mod Start
pub mod Hooks
pub mod Frames
pub mod Dispatch
pub mod WellFormed
pub mod Kept
pub mod Invariant
pub mod Expiry
pub mod Authority
pub mod Shots
pub mod Queues
pub mod Requests
pub mod Samples
mod Examples

-- serde_json's values, hmac with sha2, base64, and the printing of numbers and times.
pub record Platform (Value : Type 0) : Type 0 where
  -- v.get(key)
  pub get : Text → Value → Option Value
  pub as_str : Value → Option Text
  pub as_u64 : Value → Option ℕ
  pub as_array : Value → Option (List Value)
  pub as_object : Value → Option (List (Text × Value))
  pub null : Value
  pub string : Text → Value
  pub number : ℕ → Value
  pub boolean : Bool → Value
  pub object : List (Text × Value) → Value
  pub array : List Value → Value
  -- serde_json::to_string, and Display
  pub to_string : Value → Option Text
  pub display : Value → Text
  -- HmacSha256 with a key, over a text; none where the key is refused
  pub mac : Text → Text → Option (List ℕ)
  pub encode : List ℕ → Text
  pub decode : Text → Option (List ℕ)
  -- format!("{}", n), to_rfc3339_opts(Millis, true), to_rfc3339, and the time in the name of a screenshot
  pub show : ℕ → Text
  pub rfc3339 : ℕ → Text
  pub to_rfc3339 : ℕ → Text
  pub file_time : ℕ → Text

-- The clocks, the new ids, whether an acknowledgement could be written to a
-- socket, and the error where the directory of the screenshots could not be created.
pub record Env : Type 0 where
  pub instant : ℕ
  pub utc : ℕ
  pub ts : ℕ
  pub uuid : ℕ → Text
  pub socket_written : Bool
  pub directory_error : Option Text

pub record Msg (Value : Type 0) : Type 0 where
  pub msg_type : Text
  pub msg_id : Text
  pub from : Text
  pub to : Text
  pub ts : ℕ
  pub nonce : Text
  pub hmac : Text
  pub payload : Value

pub record Client : Type 0 where
  pub ident : Text
  pub last_heartbeat : ℕ
  pub capabilities : List Text
  pub version : Option Text

pub record Lease : Type 0 where
  pub task_id : Text
  pub assigned_to : Text
  pub original_from : Text
  pub deadline : ℕ
  pub return_to : Option Text
  pub working_dir : Option Text
  pub response_format : Option Text
  pub model : Option Text
  pub model_resolved : Option Text

pub record TaskDetails (Value : Type 0) : Type 0 where
  pub goal : Text
  pub timeout_secs : ℕ
  pub context : Option Value
  pub watch_patterns : List Text
  pub working_dir : Option Text
  pub response_format : Option Text
  pub model : Option Text

pub record PendingApproval (Value : Type 0) : Type 0 where
  pub task_id : Text
  pub original_msg : Msg Value
  pub tool : Text
  pub requested_at : ℕ

pub record NotifyHook : Type 0 where
  pub command : Text

pub record NotificationHookContext (Value : Type 0) : Type 0 where
  pub task_id : Text
  pub status : Text
  pub worker : Text
  pub return_to : Text
  pub summary : Text
  pub working_dir : Option Text
  pub details : Option Value
  pub evidence : Option Value
  pub timestamp : Text
  pub metadata : Option Value

pub data ScreenshotBackend : Type 0 where
  scrot imagemagick native : ScreenshotBackend

-- The number of actions, and the seconds in which they are counted.
pub record CapabilityRateLimit : Type 0 where
  pub max_actions : ℕ
  pub per_seconds : ℕ

pub record ScreenshotControl : Type 0 where
  pub enabled : Bool
  pub backend : ScreenshotBackend
  pub format : Text
  pub output_dir : PathBuf
  pub rate_limit : CapabilityRateLimit
  pub history : List ℕ
  pub workspace_root : Option PathBuf

-- The fields that a Unix build has. An acknowledgement's writer is a file descriptor, and the journal
-- the list of the entries that were asked of it.
pub record State (Value Worker : Type 0) : Type 0 where
  pub clients : List (Text × Client)
  pub leases : List (Text × Lease)
  pub expired_leases : List (Text × Lease)
  pub pending_notifications : List (Text × List (Msg Value))
  pub pending_approvals : List (Text × PendingApproval Value)
  pub ack_markers : List (Text × PathBuf)
  pub ack_sockets : List (Text × PathBuf)
  pub ack_writers : List (Text × ℕ)
  pub secret : Text
  pub journal : List (Request Value)
  pub worker_configs : List (Text × Worker)
  pub workspace_root : Option PathBuf
  pub tasks_active : List (Text × DelegatedTask Value)
  pub tasks_completed : List (Text × DelegatedTask Value)
  pub notify_hook : Option NotifyHook
  pub daemon_version : Text
  pub expected_worker_version : Option Text
  pub screenshot : ScreenshotControl
  pub approver_target : Text

pub record WorkerTask (Value : Type 0) : Type 0 where
  pub id : Text
  pub goal : Text
  pub delegated_to : Text
  pub working_dir : Option Text
  pub timeout_secs : Option ℕ
  pub return_to : Option Text
  pub response_format : Option Text
  pub time_queued : ℕ
  pub model : Option Text
  pub context : Option Value

-- What a handler leaves to be done outside: a worker or a hook that is started, and the files of an
-- acknowledgement.
pub data Effect (Value Worker : Type 0) : Type 0 where
  run_worker : Worker → WorkerTask Value → Effect Value Worker
  run_hook : NotifyHook → NotificationHookContext Value → Effect Value Worker
  remove_file : PathBuf → Effect Value Worker
  write_marker : PathBuf → Effect Value Worker

-- Err, Ok(None) and Ok(Some(msg)).
pub data Answer (Value : Type 0) : Type 0 where
  error silent : Answer Value
  reply : Msg Value → Answer Value

pub record Outcome (Value Worker : Type 0) : Type 0 where
  pub answer : Answer Value
  pub effects : List (Effect Value Worker)
  pub state : State Value Worker

abbrev pub lease_ttl_secs : ℕ
lease_ttl_secs = 900

abbrev pub lease_ttl : ℕ
lease_ttl = lease_ttl_secs * second

abbrev pub heartbeat_timeout : ℕ
heartbeat_timeout = 30 * second

abbrev pub max_completed_tasks : ℕ
max_completed_tasks = 1000

abbrev pub task_timeout_secs : ℕ
task_timeout_secs = 30 * 60
