-- ===== src/Policy/Safety.antt =====
-- What no engine lets through, the effective level, and the settings that decide nothing.
use devit.Prelude.{
  ◌≡◌, refl, Bool, true, false, arith, Mem, all-mem, Bool-cases, inl, inr, ◌∙◌, if◌then◌else◌, min,
}
use devit.Text.{Text}
use devit.Paths.{PathBuf}
use devit.Approval.{
  ApprovalLevel, untrusted, ask, moderate, trusted, privileged, security_rank, satisfies,
}
use devit.Policy.Types.{FileChange, PolicyContext, PolicyDecision, PolicyRule, ok}
use devit.Policy.Checks.{is_dot_env}
use devit.Policy.Engine.{
  PolicyEngine, evaluate_changes, effective_level, add_path_override, add_custom_rule,
}
use devit.Policy.Spec.{is_clean, is_under, permitted}
use devit.Policy.Decisions.{evaluate_changes-decides}

permitted_dot_env :
    (context : PolicyContext) (level : ApprovalLevel) (fc : FileChange)
    → Mem fc context.file_changes
    → is_dot_env fc.path ≡ true
    → permitted context level ≡ false
permitted_dot_env context level fc m e = elim (Bool-cases (permitted context level)) [
  | inl yes' ↦ absurd (contradiction level yes')
  | inr no' ↦ no'
]
  where
    contradiction : (level : ApprovalLevel) → permitted context level ≡ true → ⊥
    contradiction untrusted h = ground (arith, all-mem is_clean fc context.file_changes m h)
    contradiction ask h = ground (arith, all-mem is_clean fc context.file_changes m h)
    contradiction moderate h = ground (arith, all-mem is_clean fc context.file_changes m h)
    contradiction trusted h = ground (arith, all-mem is_clean fc context.file_changes m h)
    contradiction (privileged ps) h =
        ground (arith, all-mem (is_under ps) fc context.file_changes m h)

module _ (to_lowercase : Text → Text) (engine : PolicyEngine) (context : PolicyContext) where
  -- A set of changes that contains a file named `.env`, in any case of its letters, is denied at
  -- every approval level.
  pub evaluate_changes-dot_env :
      (fc : FileChange)
      → Mem fc context.file_changes
      → is_dot_env fc.path ≡ true
      → (d : PolicyDecision) × (evaluate_changes to_lowercase engine context ≡ ok d)
        × (d.allow ≡ false)
  evaluate_changes-dot_env fc m e =
      let decided = evaluate_changes-decides to_lowercase engine context in
      (decided.0, decided.1, decided.2 ∙ permitted_dot_env context _ fc m e)

-- The effective level has the lower rank of the requested and the default level.
pub security_rank-effective_level :
    (requested default : ApprovalLevel)
    → security_rank (effective_level requested default)
      ≡ min (security_rank requested) (security_rank default)
unfolding effective_level
security_rank-effective_level untrusted d = ground arith
security_rank-effective_level ask d = ground arith
security_rank-effective_level moderate d = ground arith
security_rank-effective_level trusted d = ground arith
security_rank-effective_level (privileged ps) d = ground arith

abbrev pub both_privileged : ApprovalLevel → ApprovalLevel → Bool
both_privileged (privileged ps) (privileged qs) = true
both_privileged _ _ = false

-- The default level of the engine satisfies the effective level, save where both levels are
-- privileged: there it does exactly when it satisfies the requested level.
pub satisfies-effective_level :
    (requested default : ApprovalLevel)
    → satisfies default (effective_level requested default)
      ≡ (if both_privileged requested default then satisfies default requested else true)
unfolding effective_level satisfies
satisfies-effective_level untrusted d = ground arith
satisfies-effective_level ask d = ground arith
satisfies-effective_level moderate d = ground arith
satisfies-effective_level trusted d = ground arith
satisfies-effective_level (privileged ps) d = ground arith

-- Path overrides and custom rules have no effect on any decision.
pub evaluate_changes_overrides :
    (to_lowercase : Text → Text) (engine : PolicyEngine) (context : PolicyContext) (path : PathBuf)
    (level : ApprovalLevel) (rule : PolicyRule)
    → evaluate_changes to_lowercase
        (add_custom_rule (add_path_override engine path level) rule)
        context
      ≡ evaluate_changes to_lowercase engine context
unfolding evaluate_changes add_path_override add_custom_rule
evaluate_changes_overrides to_lowercase engine context path level rule = refl
