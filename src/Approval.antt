-- ===== src/Approval.antt =====
-- ApprovalLevel, SandboxProfile and FileChangeKind of crates/common/src/lib.rs.
pub mod Order
mod Examples
use devit.Prelude.{ℕ, ◌≡◌, Bool, true, false, ◌||◌, List, any, all, leb}
use devit.Paths.{PathBuf, starts_with, path_eq}

pub data ApprovalLevel : Type 0 where
  untrusted ask moderate trusted : ApprovalLevel
  privileged : List PathBuf → ApprovalLevel

pub data SandboxProfile : Type 0 where
  strict permissive : SandboxProfile

pub data FileChangeKind : Type 0 where
  add mod_ del modify create delete rename copy : FileChangeKind

-- path.starts_with(allowed) || path == allowed
unfoldable pub lies_under : PathBuf → PathBuf → Bool
lies_under path allowed = starts_with path allowed || path_eq path allowed

unfoldable pub can_access_path : ApprovalLevel → PathBuf → Bool
unfolding lies_under
can_access_path (privileged allowed_paths) path = any (lies_under path) allowed_paths
can_access_path _ path = true

unfoldable pub requires_approval : ApprovalLevel → Bool
requires_approval untrusted = true
requires_approval ask = true
requires_approval _ = false

unfoldable pub security_rank : ApprovalLevel → ℕ
security_rank untrusted = 0
security_rank ask = 1
security_rank moderate = 2
security_rank trusted = 3
security_rank (privileged allowed_paths) = 4

-- self.satisfies(required)
unfoldable pub satisfies : ApprovalLevel → ApprovalLevel → Bool
unfolding lies_under security_rank
satisfies (privileged our_paths) (privileged req_paths) =
    all (λ req_path. any (λ our_path. lies_under req_path our_path) our_paths) req_paths
satisfies (privileged our_paths) required = true
satisfies self required = leb (security_rank required) (security_rank self)
