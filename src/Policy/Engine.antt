-- ===== src/Policy/Engine.antt =====
-- PolicyEngine: its state, `evaluate_changes`, and the methods that change it.
use devit.Prelude.{List, [], ◌∷◌, ◌++◌, ltb, if◌then◌else◌}
use devit.Text.{Text}
use devit.Paths.{PathBuf, path_eq}
use devit.Approval.{
  ApprovalLevel, SandboxProfile, untrusted, ask, moderate, trusted, privileged, security_rank,
}
use devit.Policy.Types.{
  PolicyContext, PolicyEngineConfig, PolicyDecision, PolicyRule, Result, ok, default_config,
}
use devit.Policy.Levels.{
  evaluate_untrusted, evaluate_ask, evaluate_moderate, evaluate_trusted, evaluate_privileged,
}

pub record PolicyEngine : Type 0 where
  pub config : PolicyEngineConfig
  pub default_approval_level : ApprovalLevel
  pub default_sandbox_profile : SandboxProfile
  pub path_overrides : List (PathBuf × ApprovalLevel)
  pub custom_rules : List PolicyRule

-- PolicyEngine::new, and PolicyEngine::with_defaults, which has the same body
unfoldable pub new : ApprovalLevel → SandboxProfile → PolicyEngine
new level profile = record {
  config = default_config;
  default_approval_level = level;
  default_sandbox_profile = profile;
  path_overrides = [];
  custom_rules = [];
}

-- HashMap::insert
abbrev pub insert_override :
    PathBuf → ApprovalLevel → List (PathBuf × ApprovalLevel) → List (PathBuf × ApprovalLevel)
insert_override path level [] = (path, level) ∷ []
insert_override path level ((p, l) ∷ rest) =
    if path_eq p path then (p, level) ∷ rest else (p, l) ∷ insert_override path level rest

unfoldable pub add_path_override : PolicyEngine → PathBuf → ApprovalLevel → PolicyEngine
add_path_override engine path level = record engine {
  path_overrides = insert_override path level engine.path_overrides;
}

unfoldable pub add_custom_rule : PolicyEngine → PolicyRule → PolicyEngine
add_custom_rule engine rule = record engine { custom_rules = engine.custom_rules ++ rule ∷ [] }

-- The second arm of the match: the requested level, unless its rank is above the default's.
abbrev pub lower_level : ApprovalLevel → ApprovalLevel → ApprovalLevel
lower_level requested default =
    if ltb (security_rank default) (security_rank requested) then default else requested

unfoldable pub effective_level : ApprovalLevel → ApprovalLevel → ApprovalLevel
unfolding security_rank
effective_level (privileged requested) (privileged default) = privileged requested
effective_level requested default = lower_level requested default

module _ (to_lowercase : Text → Text) where
  unfoldable pub evaluate_at : PolicyContext → ApprovalLevel → PolicyDecision
  evaluate_at context untrusted = evaluate_untrusted context
  evaluate_at context ask = evaluate_ask context
  evaluate_at context moderate = evaluate_moderate context
  evaluate_at context trusted = evaluate_trusted to_lowercase context
  evaluate_at context (privileged allowed_paths) = evaluate_privileged context allowed_paths

  unfoldable pub evaluate_changes : PolicyEngine → PolicyContext → Result PolicyDecision
  unfolding evaluate_at
  evaluate_changes engine context = ok (
      evaluate_at context
        (effective_level context.requested_approval_level engine.default_approval_level))
