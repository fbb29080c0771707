-- ===== src/Policy/Types.antt =====
-- The data of policy.rs: contexts, file changes, configuration, decisions and errors. The texts of
-- reasons are data that carry what the format strings are given.
use devit.Prelude.{ℕ, ◌*◌, Bool, true, false, Option, none, some, List, [], ◌∷◌}
use devit.Text.{Text, text}
use devit.Paths.{PathBuf}
use devit.Approval.{ApprovalLevel, SandboxProfile, FileChangeKind}

pub record FileChange : Type 0 where
  pub path : PathBuf
  pub kind : FileChangeKind
  pub is_binary : Bool
  pub adds_exec_bit : Bool
  pub lines_added : ℕ
  pub lines_deleted : ℕ
  pub is_symlink : Bool
  pub symlink_target_abs : Option PathBuf
  pub touches_protected : Bool
  pub touches_submodule : Bool
  pub touches_gitmodules : Bool
  pub file_size_bytes : Option ℕ

pub record PolicyEngineConfig : Type 0 where
  pub max_files_moderate : ℕ
  pub max_lines_moderate : ℕ
  pub small_binary_whitelist : List Text
  pub small_binary_max_size : ℕ

-- PolicyEngineConfig::default()
abbrev pub default_config : PolicyEngineConfig
default_config = record {
  max_files_moderate = 10;
  max_lines_moderate = 400;
  small_binary_whitelist =
      text "png" ∷ text "jpg" ∷ text "jpeg" ∷ text "ico" ∷ text "woff" ∷ text "woff2" ∷ [];
  small_binary_max_size = 1024 * 1024;
}

pub record PolicyContext : Type 0 where
  pub file_changes : List FileChange
  pub requested_approval_level : ApprovalLevel
  pub protected_paths : List PathBuf
  pub config : PolicyEngineConfig

-- One constructor for each message of the evaluation.
pub data Reason : Type 0 where
  untrusted_needs_confirmation : ℕ → Reason
  exec_bit_needs_confirmation simple_change needs_confirmation : Reason
  too_many_files too_many_lines : ℕ → ℕ → Reason
  protected_path_needs_ask exec_bit_needs_ask binary_needs_ask submodule_needs_ask : Reason
  gitmodules_restricted allowed_moderate exec_bit_ask_confirmation : Reason
  unauthorized_binary : PathBuf → Reason
  sensitive_path allowed_trusted : Reason
  path_not_allowed : PathBuf → Reason
  allowed_privileged dot_env_forbidden gitmodules_reserved : Reason
  dangerous_symlink : PathBuf → Reason

pub record PolicyDecision : Type 0 where
  pub allow : Bool
  pub requires_confirmation : Bool
  pub reason : Reason
  pub downgraded_to : Option ApprovalLevel

-- PolicyDecision::allow
abbrev pub allowed : Reason → PolicyDecision
allowed reason = record {
  allow = true;
  requires_confirmation = false;
  reason = reason;
  downgraded_to = none;
}

abbrev pub allow_with_confirmation : Reason → PolicyDecision
allow_with_confirmation reason = record {
  allow = true;
  requires_confirmation = true;
  reason = reason;
  downgraded_to = none;
}

abbrev pub deny : Reason → PolicyDecision
deny reason = record {
  allow = false;
  requires_confirmation = false;
  reason = reason;
  downgraded_to = none;
}

abbrev pub downgrade : Reason → ApprovalLevel → Bool → PolicyDecision
downgrade reason level requires_confirmation = record {
  allow = true;
  requires_confirmation = requires_confirmation;
  reason = reason;
  downgraded_to = some level;
}

pub data SandboxCapability : Type 0 where
  network_access file_system_write process_spawn environment_access system_calls : SandboxCapability

-- Why a path is refused.
pub data PathReason : Type 0 where
  parent_traversal : PathReason
  outside_root : PathBuf → PathBuf → PathReason

pub data PolicyError : Type 0 where
  evaluation_failed : Text → Text → PolicyError
  insufficient_approval : ApprovalLevel → ApprovalLevel → PolicyError
  sandbox_violation : SandboxCapability → SandboxProfile → PolicyError
  path_access_denied : PathBuf → PathReason → PolicyError
  custom : Text → PolicyError

pub data Result {ℓ} (A : Type ℓ) : Type ℓ where
  ok : A → Result A
  err : PolicyError → Result A

pub data PatternType : Type 0 where
  glob regex exact : PatternType

pub data PolicyAction : Type 0 where
  allow_it deny_it log_and_allow : PolicyAction
  require_approval : ApprovalLevel → PolicyAction
  require_sandbox : SandboxProfile → PolicyAction

pub record PolicyRule : Type 0 where
  pub id : Text
  pub name : Text
  pub pattern : Text
  pub pattern_type : PatternType
  pub action : PolicyAction
  pub priority : ℕ

pub data OperationType : Type 0 where
  file_read file_write file_create file_delete process_execute : OperationType
  network_access system_config test_execution : OperationType

-- The duration of an operation is left out: nothing reads it.
pub record OperationContext : Type 0 where
  pub actor : Text
  pub operation : OperationType
  pub paths : List PathBuf
  pub data_size : Option ℕ
  pub metadata : Text → Option Text
