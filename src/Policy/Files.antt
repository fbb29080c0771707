-- ===== src/Policy/Files.antt =====
-- The tests of a level over all files, as tests of each file.
use devit.Prelude.{
  ◌%◌, ◌^◌, map, ◌≡◌, refl, Bool, true, false, not, ◌&&◌, ◌||◌, Option, none, some, List, [], ◌∷◌,
  arith, any, all, ◌⊎◌, inl, inr, Option-cases,
}
use devit.Text.{Text}
use devit.Paths.{PathBuf, starts_with}
use devit.Policy.Types.{FileChange, PolicyContext, PolicyDecision, PolicyEngineConfig}
use devit.Policy.Checks.{
  total_lines_changed, lines_changed, sum_usize, CommonCheckOptions, standard, for_privileged,
  restriction, check_common_restrictions, is_dot_env, is_dangerous_symlink, is_protected_path,
  is_simple_file, is_whitelisted_binary,
}
use devit.Policy.Levels.{check_allowed_paths, check_binaries}
use devit.Policy.Spec.{
  line_count, is_silent, is_clean, is_under, is_moderate, is_trusted, is_protected, is_small,
  is_small_binary_type,
}
use devit.Paths.{extension}

-- The common checks either pass every file or deny.
abbrev pub Checked : Bool → Option PolicyDecision → Type 0
Checked passes found =
    ((found ≡ none) × (passes ≡ true))
    ⊎ ((d : PolicyDecision) × (found ≡ some d)
        × (d.allow ≡ false)
        × (d.downgraded_to ≡ none)
        × (passes ≡ false))

abbrev pub is_none : Option PolicyDecision → Bool
is_none none = true
is_none (some d) = false

pub check_standard-none :
    (fcs : List FileChange) → is_none (check_common_restrictions fcs standard) ≡ all is_clean fcs
unfolding check_common_restrictions restriction
check_standard-none [] = refl
check_standard-none (fc ∷ fcs) = ground (arith, check_standard-none fcs)

pub check_privileged-none :
    (fcs : List FileChange)
    → is_none (check_common_restrictions fcs for_privileged)
      ≡ all (λ fc. not (is_dot_env fc.path)) fcs
unfolding check_common_restrictions restriction
check_privileged-none [] = refl
check_privileged-none (fc ∷ fcs) = ground (arith, check_privileged-none fcs)

-- A restriction that is found denies.
restriction-denies :
    (opts : CommonCheckOptions) (fc : FileChange) (d : PolicyDecision)
    → restriction opts fc ≡ some d
    → (d.allow ≡ false) × (d.downgraded_to ≡ none)
unfolding restriction
restriction-denies opts fc d h = ground arith

check-denies :
    (opts : CommonCheckOptions) (fcs : List FileChange) (d : PolicyDecision)
    → check_common_restrictions fcs opts ≡ some d
    → (d.allow ≡ false) × (d.downgraded_to ≡ none)
unfolding check_common_restrictions
check-denies opts [] d h = cc
check-denies opts (fc ∷ fcs) d h = elim (Option-cases (restriction opts fc)) [
  | inl pass ↦ check-denies opts fcs d (rw (pass, check_common_restrictions) at h)
  | inr (e, found) ↦ ground (arith, restriction-denies opts fc e)
]

to_Checked :
    (passes : Bool) (opts : CommonCheckOptions) (fcs : List FileChange)
    → is_none (check_common_restrictions fcs opts) ≡ passes
    → Checked passes (check_common_restrictions fcs opts)
to_Checked passes opts fcs h = elim (Option-cases (check_common_restrictions fcs opts)) [
  | inl pass ↦ inl (pass, ground arith)
  | inr (d, found) ↦
      inr (
        d,
        found,
        (check-denies opts fcs d found).0,
        (check-denies opts fcs d found).1,
        ground arith,
      )
]

pub check_standard :
    (fcs : List FileChange) → Checked (all is_clean fcs) (check_common_restrictions fcs standard)
check_standard fcs = to_Checked _ standard fcs (check_standard-none fcs)

pub check_for_privileged :
    (fcs : List FileChange)
    → Checked
        (all (λ fc. not (is_dot_env fc.path)) fcs)
        (check_common_restrictions fcs for_privileged)
check_for_privileged fcs = to_Checked _ for_privileged fcs (check_privileged-none fcs)

protected_eq :
    (context : PolicyContext) (fc : FileChange)
    → is_protected_path fc context ≡ is_protected context fc
unfolding is_protected_path
protected_eq context fc = ground arith

pub all-is_small :
    (context : PolicyContext) (fcs : List FileChange)
    → all (is_simple_file context) fcs ≡ all (is_small context) fcs
unfolding is_simple_file is_dangerous_symlink
all-is_small context [] = refl
all-is_small context (fc ∷ fcs) = ground (arith, protected_eq context fc, all-is_small context fcs)

pub total_lines_changed_lem :
    (context : PolicyContext)
    → total_lines_changed context ≡ line_count context.file_changes % 2 ^ 64
unfolding total_lines_changed lines_changed line_count
total_lines_changed_lem context = total context.file_changes
  where
    total : (fcs : List FileChange) → sum_usize (map lines_changed fcs) ≡ line_count fcs % 2 ^ 64
    total [] = refl
    total (fc ∷ fcs) = omega (arith, total fcs)

pub all-is_moderate :
    (context : PolicyContext) (fcs : List FileChange)
    → all (is_moderate context) fcs ≡ (
        all is_clean fcs
        && not (any (λ fc. is_protected_path fc context) fcs)
        && not (any (λ fc. fc.adds_exec_bit) fcs)
        && not (any (λ fc. fc.is_binary) fcs)
        && not (any (λ fc. fc.touches_submodule) fcs))
all-is_moderate context [] = refl
all-is_moderate context (fc ∷ fcs) =
    ground (arith, protected_eq context fc, all-is_moderate context fcs)

pub any-touches_gitmodules :
    (fcs : List FileChange)
    → all is_clean fcs ≡ true
    → any (λ fc. fc.touches_gitmodules) fcs ≡ false
any-touches_gitmodules [] h = refl
any-touches_gitmodules (fc ∷ fcs) h = ground (arith, any-touches_gitmodules fcs)

pub simple_clean :
    (context : PolicyContext) (fcs : List FileChange)
    → all (is_simple_file context) fcs ≡ true
    → (all is_clean fcs ≡ true) × (any (λ fc. fc.adds_exec_bit) fcs ≡ false)
unfolding is_simple_file is_dangerous_symlink
simple_clean context [] h = (refl, refl)
simple_clean context (fc ∷ fcs) h = ground (arith, simple_clean context fcs)

pub all-is_under :
    (allowed_paths : List PathBuf) (fcs : List FileChange)
    → (check_allowed_paths allowed_paths fcs).allow
      ≡ all (λ fc. any (λ allowed_path. starts_with fc.path allowed_path) allowed_paths) fcs
unfolding check_allowed_paths
all-is_under allowed_paths [] = refl
all-is_under allowed_paths (fc ∷ fcs) = ground (arith, all-is_under allowed_paths fcs)

pub all-is_under-split :
    (allowed_paths : List PathBuf) (fcs : List FileChange)
    → all (is_under allowed_paths) fcs ≡ (
        all (λ fc. not (is_dot_env fc.path)) fcs
        && all (λ fc. any (λ allowed_path. starts_with fc.path allowed_path) allowed_paths) fcs)
all-is_under-split allowed_paths [] = refl
all-is_under-split allowed_paths (fc ∷ fcs) = ground (arith, all-is_under-split allowed_paths fcs)

pub check_allowed_paths-silent :
    (allowed_paths : List PathBuf) (fcs : List FileChange)
    → is_silent (check_allowed_paths allowed_paths fcs)
      ≡ (check_allowed_paths allowed_paths fcs).allow
unfolding check_allowed_paths
check_allowed_paths-silent allowed_paths [] = refl
check_allowed_paths-silent allowed_paths (fc ∷ fcs) =
    ground (arith, check_allowed_paths-silent allowed_paths fcs)

module _ (to_lowercase : Text → Text) where
  pub check_binaries-none :
      (config : PolicyEngineConfig) (fcs : List FileChange)
      → is_none (check_binaries to_lowercase config fcs)
        ≡ all (λ fc. is_whitelisted_binary to_lowercase fc config) fcs
  unfolding check_binaries is_whitelisted_binary
  check_binaries-none config [] = refl
  check_binaries-none config (fc ∷ fcs) = ground (arith, check_binaries-none config fcs)

  pub check_binaries-asks :
      (config : PolicyEngineConfig) (fcs : List FileChange) (d : PolicyDecision)
      → check_binaries to_lowercase config fcs ≡ some d
      → (d.allow ≡ true) × (d.requires_confirmation ≡ true)
  unfolding check_binaries
  check_binaries-asks config [] d h = cc
  check_binaries-asks config (fc ∷ fcs) d h = ground (arith, check_binaries-asks config fcs d)

  whitelisted_eq :
      (context : PolicyContext) (fc : FileChange)
      → is_whitelisted_binary to_lowercase fc context.config
        ≡ (not fc.is_binary || is_small_binary_type to_lowercase context fc)
  unfolding is_whitelisted_binary
  whitelisted_eq context fc = elim (Option-cases (extension fc.path)) [
    | inl missing ↦ rw missing (ground arith)
    | inr (ext, found) ↦ rw found (ground arith)
  ]

  pub all-is_trusted :
      (context : PolicyContext) (fcs : List FileChange)
      → all (is_trusted to_lowercase context) fcs ≡ (
          all is_clean fcs
          && not (any (λ fc. is_protected_path fc context) fcs)
          && not (any (λ fc. fc.adds_exec_bit) fcs)
          && all (λ fc. is_whitelisted_binary to_lowercase fc context.config) fcs)
  all-is_trusted context [] = refl
  all-is_trusted context (fc ∷ fcs) =
      ground (arith, protected_eq context fc, whitelisted_eq context fc, all-is_trusted context fcs)
