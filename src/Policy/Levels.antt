-- ===== src/Policy/Levels.antt =====
-- evaluate_untrusted, evaluate_ask, evaluate_moderate, evaluate_trusted, evaluate_privileged.
use devit.Prelude.{true, not, Option, none, some, List, [], ◌∷◌, ltb, if◌then◌else◌, any, length}
use devit.Text.{Text}
use devit.Paths.{PathBuf, starts_with}
use devit.Approval.{ask}
use devit.Policy.Types.{
  FileChange, PolicyContext, PolicyEngineConfig, PolicyDecision, allowed, allow_with_confirmation,
  deny, downgrade, untrusted_needs_confirmation, exec_bit_needs_confirmation, simple_change,
  needs_confirmation, too_many_files, too_many_lines, protected_path_needs_ask, exec_bit_needs_ask,
  binary_needs_ask, submodule_needs_ask, gitmodules_restricted, allowed_moderate,
  exec_bit_ask_confirmation, unauthorized_binary, sensitive_path, allowed_trusted, path_not_allowed,
  allowed_privileged,
}
use devit.Policy.Checks.{
  check_common_restrictions, standard, for_privileged, is_simple_change, is_protected_path,
  total_lines_changed, is_whitelisted_binary,
}

-- `if let Some(decision) = found { return Ok(decision); }`
abbrev pub or_else : Option PolicyDecision → PolicyDecision → PolicyDecision
or_else (some decision) rest = decision
or_else none rest = rest

unfoldable pub evaluate_untrusted : PolicyContext → PolicyDecision
evaluate_untrusted context =
    or_else (check_common_restrictions context.file_changes standard)
      (allow_with_confirmation (untrusted_needs_confirmation (length context.file_changes)))

unfoldable pub evaluate_ask : PolicyContext → PolicyDecision
evaluate_ask context = or_else (check_common_restrictions context.file_changes standard) (
    if any (λ fc. fc.adds_exec_bit) context.file_changes
    then allow_with_confirmation exec_bit_needs_confirmation
    else if is_simple_change context
    then allowed simple_change
    else allow_with_confirmation needs_confirmation)

unfoldable pub evaluate_moderate : PolicyContext → PolicyDecision
evaluate_moderate context = or_else (check_common_restrictions changes standard) (
    if ltb config.max_files_moderate (length changes)
    then downgrade (too_many_files (length changes) config.max_files_moderate) ask true
    else if ltb config.max_lines_moderate (total_lines_changed context)
    then downgrade (too_many_lines (total_lines_changed context) config.max_lines_moderate) ask true
    else if any (λ fc. is_protected_path fc context) changes
    then downgrade protected_path_needs_ask ask true
    else if any (λ fc. fc.adds_exec_bit) changes
    then downgrade exec_bit_needs_ask ask true
    else if any (λ fc. fc.is_binary) changes
    then downgrade binary_needs_ask ask true
    else if any (λ fc. fc.touches_gitmodules) changes
    then deny gitmodules_restricted
    else if any (λ fc. fc.touches_submodule) changes
    then downgrade submodule_needs_ask ask true
    else allowed allowed_moderate)
  where
    open context use {file_changes as changes, config}

-- The loop of evaluate_privileged, from the first path on.
unfoldable pub check_allowed_paths : List PathBuf → List FileChange → PolicyDecision
check_allowed_paths allowed_paths [] = allowed allowed_privileged
check_allowed_paths allowed_paths (fc ∷ fcs) =
    let rest = check_allowed_paths allowed_paths fcs in
    if not (any (λ allowed_path. starts_with fc.path allowed_path) allowed_paths)
    then deny (path_not_allowed fc.path)
    else rest

unfoldable pub evaluate_privileged : PolicyContext → List PathBuf → PolicyDecision
unfolding check_allowed_paths
evaluate_privileged context allowed_paths =
    or_else (check_common_restrictions context.file_changes for_privileged)
      (check_allowed_paths allowed_paths context.file_changes)

module _ (to_lowercase : Text → Text) where
  -- The loop of evaluate_trusted: the first binary that is not on the list.
  unfoldable pub check_binaries : PolicyEngineConfig → List FileChange → Option PolicyDecision
  check_binaries config [] = none
  check_binaries config (fc ∷ fcs) =
      let rest = check_binaries config fcs in
      if fc.is_binary
      then if not (is_whitelisted_binary to_lowercase fc config)
        then some (downgrade (unauthorized_binary fc.path) ask true)
        else rest
      else rest

  unfoldable pub evaluate_trusted : PolicyContext → PolicyDecision
  unfolding check_binaries
  evaluate_trusted context = or_else (check_common_restrictions changes standard) (
      if any (λ fc. fc.touches_gitmodules) changes
      then deny gitmodules_restricted
      else if any (λ fc. fc.adds_exec_bit) changes
      then downgrade exec_bit_ask_confirmation ask true
      else or_else (check_binaries context.config changes) (
          if any (λ fc. is_protected_path fc context) changes
          then allow_with_confirmation sensitive_path
          else allowed allowed_trusted))
    where
      open context use {file_changes as changes}
