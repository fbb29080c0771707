-- ===== src/Policy/Checks.antt =====
-- The tests on file changes that the levels share: private methods of `PolicyEngine`.
use devit.Prelude.{
  ℕ, ◌+◌, ◌%◌, ◌^◌, Bool, true, false, not, ◌&&◌, Option, none, some, List, [], ◌∷◌, leb,
  if◌then◌else◌, any, all, length, map,
}
use devit.Text.{Text, text, text_eq, eq_ignore_ascii_case}
use devit.Paths.{PathBuf, starts_with, is_absolute, has_parent_dir, file_name, extension}
use devit.Policy.Types.{
  FileChange, PolicyContext, PolicyEngineConfig, PolicyDecision, deny, dot_env_forbidden,
  gitmodules_reserved, dangerous_symlink,
}

-- usize + usize on a target of 64 bits, in a release build
abbrev pub add_usize : ℕ → ℕ → ℕ
add_usize a b = (a + b) % 2 ^ 64

unfoldable pub is_dot_env : PathBuf → Bool
is_dot_env path = elim (file_name path) [
  | none ↦ false
  | some name ↦ eq_ignore_ascii_case name (text ".env")
]

abbrev pub dangerous_paths : List PathBuf
dangerous_paths =
    text "/etc"
    ∷ text "/usr"
    ∷ text "/bin"
    ∷ text "/sbin"
    ∷ text "/sys"
    ∷ text "/proc"
    ∷ text "/dev"
    ∷ []

unfoldable pub is_dangerous_target : PathBuf → Bool
is_dangerous_target target =
    if is_absolute target
    then true
    else if has_parent_dir target
    then true
    else any (λ dangerous. starts_with target dangerous) dangerous_paths

unfoldable pub is_dangerous_symlink : FileChange → Bool
is_dangerous_symlink fc =
    if not fc.is_symlink
    then false
    else elim fc.symlink_target_abs [ some target ↦ is_dangerous_target target | none ↦ false ]

unfoldable pub is_protected_path : FileChange → PolicyContext → Bool
is_protected_path fc context =
    if fc.touches_protected
    then true
    else any (λ protected. starts_with fc.path protected) context.protected_paths

unfoldable pub lines_changed : FileChange → ℕ
lines_changed fc = add_usize fc.lines_added fc.lines_deleted

abbrev pub sum_usize : List ℕ → ℕ
sum_usize [] = 0
sum_usize (n ∷ ns) = add_usize n (sum_usize ns)

unfoldable pub total_lines_changed : PolicyContext → ℕ
unfolding lines_changed
total_lines_changed context = sum_usize (map lines_changed context.file_changes)

unfoldable pub is_simple_file : PolicyContext → FileChange → Bool
unfolding lines_changed
is_simple_file context fc =
    not fc.is_binary
    && not fc.adds_exec_bit
    && not (is_protected_path fc context)
    && not fc.touches_submodule
    && not fc.touches_gitmodules
    && not fc.is_symlink
    && not (is_dot_env fc.path)
    && leb (lines_changed fc) 20

unfoldable pub is_simple_change : PolicyContext → Bool
unfolding is_simple_file
is_simple_change context =
    leb (length context.file_changes) 2 && all (is_simple_file context) context.file_changes

pub record CommonCheckOptions : Type 0 where
  pub allow_privileged_symlinks : Bool
  pub allow_gitmodules : Bool

-- CommonCheckOptions::standard()
abbrev pub standard : CommonCheckOptions
standard = record { allow_privileged_symlinks = false; allow_gitmodules = false }

abbrev pub for_privileged : CommonCheckOptions
for_privileged = record { allow_privileged_symlinks = true; allow_gitmodules = true }

-- One round of the loop of `check_common_restrictions`: what a file change is refused for.
unfoldable pub restriction : CommonCheckOptions → FileChange → Option PolicyDecision
restriction opts fc =
    if is_dot_env fc.path
    then some (deny dot_env_forbidden)
    else if not opts.allow_gitmodules && fc.touches_gitmodules
    then some (deny gitmodules_reserved)
    else if not opts.allow_privileged_symlinks && is_dangerous_symlink fc
    then some (deny (dangerous_symlink fc.path))
    else none

unfoldable pub check_common_restrictions :
    List FileChange → CommonCheckOptions → Option PolicyDecision
check_common_restrictions [] opts = none
check_common_restrictions (fc ∷ fcs) opts = elim (restriction opts fc) [
  | some decision ↦ some decision
  | none ↦ check_common_restrictions fcs opts
]

-- `to_lowercase` is the Unicode mapping of the standard library.
module _ (to_lowercase : Text → Text) where
  unfoldable pub is_small_binary : FileChange → PolicyEngineConfig → Text → Bool
  is_small_binary fc config ext =
      if any (λ w. text_eq w (to_lowercase ext)) config.small_binary_whitelist
      then elim fc.file_size_bytes [
        | some size ↦ leb size config.small_binary_max_size
        | none ↦ false
      ]
      else false

  unfoldable pub is_whitelisted_binary : FileChange → PolicyEngineConfig → Bool
  unfolding is_small_binary
  is_whitelisted_binary fc config =
      if not fc.is_binary
      then true
      else elim (extension fc.path) [ some ext ↦ is_small_binary fc config ext | none ↦ false ]
