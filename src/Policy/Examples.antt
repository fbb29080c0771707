-- ===== src/Policy/Examples.antt =====
-- The policy engine on concrete inputs, after the tests of policy.rs.
use mathlib.Core.List.{mem-cons_self, mem-cons_of_mem}
use mathlib.Core.List.Perm
use devit.Prelude.{
  ◌≡◌, refl, true, false, ◌&&◌, Option, none, some, List, [], ◌∷◌, map, if◌then◌else◌,
}
use devit.Text.{Text, text, text_eq, ascii_lower}
use devit.Paths.{PathBuf, join, has_parent_dir}
use devit.Approval.{ApprovalLevel, ask, trusted, privileged, strict, modify, satisfies}
use devit.Policy.Types.{
  FileChange, PolicyContext, PolicyDecision, PolicyRule, OperationContext, ok, glob, deny_it,
  file_read, default_config,
}
use devit.Policy.Checks.{is_dot_env, is_dangerous_symlink}
use devit.Policy.Engine.{PolicyEngine, new, evaluate_at, evaluate_changes, effective_level}
use devit.Policy.Sandbox.{sandbox_root, evaluate_sandbox}
use devit.Policy.Spec.{is_silent, permitted, automatic}
use devit.Policy.Decisions.{evaluate_changes-decides}
use devit.Policy.Safety.{evaluate_changes-dot_env, satisfies-effective_level, both_privileged}
use devit.Policy.Symlinks.{is_dangerous_symlink_lem, climbs_or_absolute}
use devit.Policy.Compare.{evaluate_at-perm, with_changes}
use devit.Policy.Roots.{evaluate_sandbox-Verdict, evaluate_sandbox-climb, Verdict}

abbrev lower : Text → Text
lower = map ascii_lower

-- create_simple_file_change
abbrev simple : PathBuf → FileChange
simple path = record {
  path = path;
  kind = modify;
  is_binary = false;
  adds_exec_bit = false;
  lines_added = 5;
  lines_deleted = 2;
  is_symlink = false;
  symlink_target_abs = none;
  touches_protected = false;
  touches_submodule = false;
  touches_gitmodules = false;
  file_size_bytes = none;
}

abbrev main_rs : FileChange
main_rs = simple (text "src/main.rs")

abbrev dot_env : FileChange
dot_env = simple (text "config/.ENV")

abbrev context_of : List FileChange → ApprovalLevel → PolicyContext
context_of fcs level = record {
  file_changes = fcs;
  requested_approval_level = level;
  protected_paths = text "Cargo.toml" ∷ text ".git" ∷ [];
  config = default_config;
}

-- create_test_engine
abbrev engine : PolicyEngine
engine = record {
  config = default_config;
  default_approval_level = privileged (text "/" ∷ []);
  default_sandbox_profile = strict;
  path_overrides = [];
  custom_rules = [];
}

abbrev both : PolicyContext
both = context_of (main_rs ∷ dot_env ∷ []) trusted

engine_made : new (privileged (text "/" ∷ [])) strict ≡ engine
unfolding new
engine_made = refl

dot_env_found : is_dot_env (text "config/.ENV") ≡ true
unfolding is_dot_env devit.Paths.file_name
dot_env_found = refl

evaluate_changes-decides_example :
    (d : PolicyDecision) × (evaluate_changes lower engine both ≡ ok d)
    × (d.allow ≡ permitted both (effective_level trusted engine.default_approval_level))
    × (is_silent d ≡ automatic lower both (effective_level trusted engine.default_approval_level))
evaluate_changes-decides_example = evaluate_changes-decides lower engine both

evaluate_changes-dot_env_example :
    (d : PolicyDecision) × (evaluate_changes lower engine both ≡ ok d) × (d.allow ≡ false)
evaluate_changes-dot_env_example =
    evaluate_changes-dot_env lower engine both dot_env (mem-cons_of_mem main_rs mem-cons_self)
      dot_env_found

satisfies-effective_level_example :
    satisfies ask (effective_level trusted ask)
    ≡ (if both_privileged trusted ask then satisfies ask trusted else true)
satisfies-effective_level_example = satisfies-effective_level trusted ask

abbrev rule : PolicyRule
rule = record {
  id = text "r1";
  name = text "no secrets";
  pattern = text "secrets/*";
  pattern_type = glob;
  action = deny_it;
  priority = 1;
}

abbrev link : FileChange
link = record main_rs { is_symlink = true; symlink_target_abs = some (text "../../etc") }

is_dangerous_symlink_lem_example :
    is_dangerous_symlink link ≡ (true && climbs_or_absolute (some (text "../../etc")))
is_dangerous_symlink_lem_example = is_dangerous_symlink_lem link

evaluate_at-perm_example :
    ((evaluate_at lower (with_changes both (main_rs ∷ dot_env ∷ [])) trusted).allow
      ≡ (evaluate_at lower (with_changes both (dot_env ∷ main_rs ∷ [])) trusted).allow)
    × (is_silent (evaluate_at lower (with_changes both (main_rs ∷ dot_env ∷ [])) trusted)
        ≡ is_silent (evaluate_at lower (with_changes both (dot_env ∷ main_rs ∷ [])) trusted))
evaluate_at-perm_example =
    evaluate_at-perm lower both trusted (main_rs ∷ dot_env ∷ []) (dot_env ∷ main_rs ∷ [])
      (Perm.swap dot_env main_rs [])

abbrev single : PolicyContext
single = context_of (main_rs ∷ []) ask

single_silent : is_silent (evaluate_at lower single ask) ≡ true
unfolding evaluate_at devit.Policy.Levels.evaluate_ask devit.Policy.Checks.check_common_restrictions
    devit.Policy.Checks.restriction is_dot_env devit.Paths.file_name is_dangerous_symlink
    devit.Policy.Checks.is_simple_change devit.Policy.Checks.is_protected_path
    devit.Paths.starts_with
single_silent = refl

abbrev canonicalize : PathBuf → Option PathBuf
canonicalize path = some path

abbrev metadata : Text → Option Text
metadata key = if text_eq key (text "sandbox_root") then some (text "/box") else none

abbrev request : List PathBuf → OperationContext
request paths = record {
  actor = text "tester";
  operation = file_read;
  paths = paths;
  data_size = none;
  metadata = metadata;
}

root_given : (paths : List PathBuf) → sandbox_root (request paths) ≡ some (text "/box")
unfolding sandbox_root
root_given paths = refl

root_absolute : devit.Paths.is_absolute (text "/box") ≡ true
unfolding devit.Paths.is_absolute
root_absolute = refl

evaluate_sandbox-Verdict_example :
    Verdict
      (text "/box")
      strict
      (text "a" ∷ text "../b" ∷ [])
      (evaluate_sandbox canonicalize engine (request (text "a" ∷ text "../b" ∷ [])))
evaluate_sandbox-Verdict_example =
    evaluate_sandbox-Verdict canonicalize engine (request (text "a" ∷ text "../b" ∷ []))
      (text "/box") (text "/box") (root_given _) refl root_absolute

abbrev climbing : PathBuf
climbing = text "/box/../etc/passwd"

climbing_joined : climbing ≡ join (text "/box") (text "../etc/passwd")
unfolding join
climbing_joined = refl

evaluate_sandbox-climb_example :
    (has_parent_dir (join (text "/box") (text "../etc/passwd")) ≡ true)
    × (evaluate_sandbox canonicalize engine (request (climbing ∷ [])) ≡ ok strict)
unfolding join
evaluate_sandbox-climb_example =
    evaluate_sandbox-climb canonicalize engine (request (climbing ∷ [])) (text "/box") (text "/box")
      (text "etc/passwd") (root_given _) refl root_absolute refl
