-- ===== src/Policy/Decisions.antt =====
-- The five levels beside Policy.Spec.
use devit.Prelude.{
  ◌%◌, ◌^◌, ◌≡◌, refl, sym, Bool, false, ◌&&◌, List, arith, leb, all, length, inl, inr,
  Option-cases,
}
use devit.Text.{Text}
use devit.Paths.{PathBuf}
use devit.Approval.{ApprovalLevel, untrusted, ask, moderate, trusted, privileged}
use devit.Policy.Types.{PolicyContext, PolicyDecision, ok}
use devit.Policy.Checks.{is_simple_change}
use devit.Policy.Levels.{
  evaluate_untrusted, evaluate_ask, evaluate_moderate, evaluate_trusted, evaluate_privileged,
  check_binaries,
}
use devit.Policy.Engine.{PolicyEngine, evaluate_at, evaluate_changes, effective_level}
use devit.Policy.Spec.{
  is_silent, is_clean, is_under, line_count, is_small, is_moderate, is_trusted, permitted,
  automatic,
}
use devit.Policy.Files.{
  check_standard, check_for_privileged, all-is_moderate, any-touches_gitmodules, simple_clean,
  all-is_small, total_lines_changed_lem, all-is_under, all-is_under-split,
  check_allowed_paths-silent, check_binaries-none, check_binaries-asks, all-is_trusted,
}

abbrev pub Decides : PolicyContext → Bool → Bool → PolicyDecision → Type 0
Decides context permits silent d = (d.allow ≡ permits) × (is_silent d ≡ silent)

untrusted-Decides :
    (context : PolicyContext)
    → Decides context (all is_clean context.file_changes) false (evaluate_untrusted context)
unfolding evaluate_untrusted
untrusted-Decides context = ground (arith, check_standard context.file_changes)

ask-Decides :
    (context : PolicyContext)
    → Decides context
        (all is_clean context.file_changes)
        (leb (length context.file_changes) 2 && all (is_small context) context.file_changes)
        (evaluate_ask context)
unfolding evaluate_ask is_simple_change
ask-Decides context =
    rw (sym (all-is_small context context.file_changes)) (
      ground
        (arith, check_standard context.file_changes, simple_clean context context.file_changes))

moderate-Decides :
    (context : PolicyContext)
    → Decides context
        (all is_clean context.file_changes)
        (leb (length context.file_changes) context.config.max_files_moderate
          && leb (line_count context.file_changes % 2 ^ 64) context.config.max_lines_moderate
          && all (is_moderate context) context.file_changes)
        (evaluate_moderate context)
unfolding evaluate_moderate
moderate-Decides context = ground (
  arith,
  total_lines_changed_lem context,
  check_standard context.file_changes,
  all-is_moderate context context.file_changes,
  any-touches_gitmodules context.file_changes,
)

privileged-Decides :
    (context : PolicyContext) (allowed_paths : List PathBuf)
    → Decides context
        (all (is_under allowed_paths) context.file_changes)
        (all (is_under allowed_paths) context.file_changes)
        (evaluate_privileged context allowed_paths)
unfolding evaluate_privileged
privileged-Decides context allowed_paths =
    rw (all-is_under-split allowed_paths context.file_changes) (
      ground (
        arith,
        check_for_privileged context.file_changes,
        all-is_under allowed_paths context.file_changes,
        check_allowed_paths-silent allowed_paths context.file_changes,
      ))

module _ (to_lowercase : Text → Text) where
  trusted-Decides :
      (context : PolicyContext)
      → Decides context
          (all is_clean context.file_changes)
          (all (is_trusted to_lowercase context) context.file_changes)
          (evaluate_trusted to_lowercase context)
  unfolding evaluate_trusted
  trusted-Decides context =
      elim (Option-cases (check_binaries to_lowercase context.config context.file_changes)) [
        | inl pass ↦ ground (
          arith,
          check_standard context.file_changes,
          any-touches_gitmodules context.file_changes,
          check_binaries-none to_lowercase context.config context.file_changes,
          all-is_trusted to_lowercase context context.file_changes,
        )
        | inr (d, found) ↦ ground (
          arith,
          check_standard context.file_changes,
          any-touches_gitmodules context.file_changes,
          check_binaries-none to_lowercase context.config context.file_changes,
          check_binaries-asks to_lowercase context.config context.file_changes d,
          all-is_trusted to_lowercase context context.file_changes,
        )
      ]

  pub evaluate_at-Decides :
      (context : PolicyContext) (level : ApprovalLevel)
      → Decides context
          (permitted context level)
          (automatic to_lowercase context level)
          (evaluate_at to_lowercase context level)
  unfolding evaluate_at
  evaluate_at-Decides context untrusted = untrusted-Decides context
  evaluate_at-Decides context ask = ask-Decides context
  evaluate_at-Decides context moderate = moderate-Decides context
  evaluate_at-Decides context trusted = trusted-Decides context
  evaluate_at-Decides context (privileged allowed_paths) = privileged-Decides context allowed_paths

  -- For every engine and context `evaluate_changes` returns a decision, and at the effective level it
  -- permits the changes exactly when the specification does, and permits them with no confirmation
  -- exactly when the specification does so. Below privileged the specification permits a change of a
  -- protected path as it permits any other, but never with no confirmation.
  pub evaluate_changes-decides :
      (engine : PolicyEngine) (context : PolicyContext)
      → let level =
          effective_level context.requested_approval_level engine.default_approval_level in
        (d : PolicyDecision) × (evaluate_changes to_lowercase engine context ≡ ok d)
        × (d.allow ≡ permitted context level)
        × (is_silent d ≡ automatic to_lowercase context level)
  unfolding evaluate_changes
  evaluate_changes-decides engine context =
      let level = effective_level context.requested_approval_level engine.default_approval_level in
      let decided = evaluate_at-Decides context level in
      (evaluate_at to_lowercase context level, refl, decided.0, decided.1)
