-- ===== src/Policy/Sandbox.antt =====
-- PolicyEngine::evaluate_sandbox. `canonicalize` stands for std::fs::canonicalize, with `none` where
-- it fails; the log messages are left out.
use devit.Prelude.{not, ◌&&◌, Option, none, some, List, [], ◌∷◌, if◌then◌else◌}
use devit.Text.{text, is_empty}
use devit.Paths.{PathBuf, is_absolute, has_parent_dir, starts_with, join}
use devit.Approval.{SandboxProfile}
use devit.Policy.Types.{
  OperationContext, Result, ok, err, path_access_denied, parent_traversal, outside_root,
}
use devit.Policy.Engine.{PolicyEngine}

unfoldable pub candidate : PathBuf → PathBuf → PathBuf
candidate root path = if is_absolute path then path else join root path

-- The loop over the paths.
unfoldable pub check_paths : PathBuf → SandboxProfile → List PathBuf → Result SandboxProfile
unfolding candidate
check_paths root profile [] = ok profile
check_paths root profile (path ∷ paths) =
    let rest = check_paths root profile paths in
    if not (is_absolute path) && has_parent_dir path
    then err (path_access_denied path parent_traversal)
    else if not (starts_with (candidate root path) root)
    then err (path_access_denied path (outside_root (candidate root path) root))
    else rest

-- The metadata entry, unless it is empty.
unfoldable pub sandbox_root : OperationContext → Option PathBuf
sandbox_root context = elim (context.metadata (text "sandbox_root")) [
  | none ↦ none
  | some path ↦ if is_empty path then none else some path
]

module _ (canonicalize : PathBuf → Option PathBuf) where
  unfoldable pub evaluate_sandbox : PolicyEngine → OperationContext → Result SandboxProfile
  unfolding sandbox_root
  evaluate_sandbox engine context = elim (sandbox_root context) [
    | none ↦ ok engine.default_sandbox_profile
    | some root ↦ elim (canonicalize root) [
      | none ↦ ok engine.default_sandbox_profile
      | some canonical_root ↦
          check_paths canonical_root engine.default_sandbox_profile context.paths
    ]
  ]
