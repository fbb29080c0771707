-- ===== src/Policy/Roots.antt =====
-- Which paths `evaluate_sandbox` accepts under a root.
use devit.Prelude.{
  ◌≡◌, refl, ap, Bool, true, false, not, Option, some, List, [], ◌∷◌, ◌++◌, arith, all, Bool-cases,
  inl, inr, ◌⊎◌, if◌then◌else◌, subst,
}
use devit.Paths.{PathBuf, is_absolute, has_parent_dir, starts_with, join}
use devit.Paths.Join.{join-starts_with, is_absolute-join, has_parent_dir-join_climb}
use devit.Approval.{SandboxProfile}
use devit.Policy.Types.{
  OperationContext, Result, ok, err, PathReason, path_access_denied, parent_traversal, outside_root,
}
use devit.Policy.Engine.{PolicyEngine}
use devit.Policy.Sandbox.{check_paths, sandbox_root, evaluate_sandbox}

-- An absolute path must begin with the root; a relative one must have no parent component.
abbrev pub is_acceptable : PathBuf → PathBuf → Bool
is_acceptable root path =
    if is_absolute path then starts_with path root else not (has_parent_dir path)

-- All paths are accepted, or the first one that is not is named.
abbrev pub Verdict : PathBuf → SandboxProfile → List PathBuf → Result SandboxProfile → Type 0
Verdict root profile paths result =
    ((all (is_acceptable root) paths ≡ true) × (result ≡ ok profile))
    ⊎ ((before : List PathBuf) × (path : PathBuf) × (after : List PathBuf) × (reason : PathReason)
        × (paths ≡ before ++ path ∷ after)
        × (all (is_acceptable root) before ≡ true)
        × (is_acceptable root path ≡ false)
        × (result ≡ err (path_access_denied path reason)))

climb_acceptable :
    (root p : PathBuf)
    → is_absolute root ≡ true
    → is_acceptable root (join root (b'.' ∷ b'.' ∷ b'/' ∷ p)) ≡ true
climb_acceptable root p h =
    rw (is_absolute-join root (b'.' ∷ b'.' ∷ b'/' ∷ p) h)
      (join-starts_with root (b'.' ∷ b'.' ∷ b'/' ∷ p) h (unfold is_absolute in refl))

check_paths_nil :
    (root : PathBuf) (profile : SandboxProfile) → check_paths root profile [] ≡ ok profile
unfolding check_paths
check_paths_nil root profile = refl

module _ (root : PathBuf) (profile : SandboxProfile) (absolute : is_absolute root ≡ true) where
  Verdict-cons :
      (path : PathBuf) (paths : List PathBuf) (result : Result SandboxProfile)
      → is_acceptable root path ≡ true
      → Verdict root profile paths result
      → Verdict root profile (path ∷ paths) result
  Verdict-cons path paths result good (inl (all_good, e)) = inl (ground arith, e)
  Verdict-cons path paths result good (inr (before, p, after, reason, cut, fine, bad, e)) =
      inr (path ∷ before, p, after, reason, ap (◌∷◌ path) cut, ground arith, bad, e)

  check_paths-good :
      (path : PathBuf) (paths : List PathBuf)
      → is_acceptable root path ≡ true
      → check_paths root profile (path ∷ paths) ≡ check_paths root profile paths
  unfolding check_paths
  check_paths-good path paths good = ground (arith, join-starts_with root path absolute)

  check_paths-absolute :
      (path : PathBuf) (paths : List PathBuf)
      → is_absolute path ≡ true
      → starts_with path root ≡ false
      → check_paths root profile (path ∷ paths)
        ≡ err (path_access_denied path (outside_root path root))
  unfolding check_paths
  check_paths-absolute path paths abs outside = rw (abs, outside)

  check_paths-relative :
      (path : PathBuf) (paths : List PathBuf)
      → is_absolute path ≡ false
      → has_parent_dir path ≡ true
      → check_paths root profile (path ∷ paths) ≡ err (path_access_denied path parent_traversal)
  unfolding check_paths
  check_paths-relative path paths rel climbs = rw (rel, climbs)

  check_paths-bad :
      (path : PathBuf) (paths : List PathBuf)
      → is_acceptable root path ≡ false
      → (reason : PathReason) × (check_paths root profile (path ∷ paths)
          ≡ err (path_access_denied path reason))
  check_paths-bad path paths bad = elim (Bool-cases (is_absolute path)) [
    | inl abs ↦ (outside_root path root, check_paths-absolute path paths abs (ground arith))
    | inr rel ↦ (parent_traversal, check_paths-relative path paths rel (ground arith))
  ]

  check_paths-Verdict :
      (paths : List PathBuf) → Verdict root profile paths (check_paths root profile paths)
  check_paths-Verdict [] = unfold check_paths in inl (refl, refl)
  check_paths-Verdict (path ∷ paths) = elim (Bool-cases (is_acceptable root path)) [
    | inl good ↦
        rw (check_paths-good path paths good)
          (Verdict-cons path paths _ good (check_paths-Verdict paths))
    | inr bad ↦
        let found = check_paths-bad path paths bad in
        inr ([], path, paths, found.0, refl, refl, bad, found.1)
  ]

module _ (canonicalize : PathBuf → Option PathBuf) (engine : PolicyEngine)
    (context : OperationContext) where
  -- With a sandbox root that canonicalizes to an absolute path, the default profile is returned
  -- exactly when every absolute path begins with the components of that root, `..` behind them not
  -- excluded, and no relative path has a parent component; else the error names the first path that
  -- fails.
  pub evaluate_sandbox-Verdict :
      (given root : PathBuf)
      → sandbox_root context ≡ some given
      → canonicalize given ≡ some root
      → is_absolute root ≡ true
      → Verdict root engine.default_sandbox_profile context.paths
          (evaluate_sandbox canonicalize engine context)
  unfolding evaluate_sandbox
  evaluate_sandbox-Verdict given root g c absolute =
      subst (Verdict root engine.default_sandbox_profile context.paths) (ground arith)
        (check_paths-Verdict root engine.default_sandbox_profile absolute context.paths)

  -- An absolute path that leaves the sandbox root by `..` is accepted: for every tail `p`, a request
  -- for the root joined with `../p` alone is granted the default profile.
  pub evaluate_sandbox-climb :
      (given root p : PathBuf)
      → sandbox_root context ≡ some given
      → canonicalize given ≡ some root
      → is_absolute root ≡ true
      → let path = join root (b'.' ∷ b'.' ∷ b'/' ∷ p) in
        context.paths ≡ path ∷ []
        → (has_parent_dir path ≡ true)
          × (evaluate_sandbox canonicalize engine context ≡ ok engine.default_sandbox_profile)
  unfolding evaluate_sandbox
  evaluate_sandbox-climb given root p g c absolute only = (
    has_parent_dir-join_climb root p absolute,
    ground (
      arith,
      check_paths-good root engine.default_sandbox_profile absolute
          (join root (b'.' ∷ b'.' ∷ b'/' ∷ p)) [] (climb_acceptable root p absolute),
      check_paths_nil root engine.default_sandbox_profile,
    ),
  )
