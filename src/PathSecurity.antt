-- ===== src/PathSecurity.antt =====
-- The checks of paths against the repository's root, crates/cli/src/core/path_security.rs. The calls of
-- std::fs and path_clean are an interface, and a refusal is the rule that it names.
use devit.Prelude.{
  ℕ, ◌+◌, Bool, true, false, not, ◌&&◌, ◌||◌, ◌==◌, Option, none, some, List, [], ◌∷◌, ltb, leb,
  any, if◌then◌else◌,
}
use devit.Text.{Text, text, contains}
use devit.Paths.{
  PathBuf, Component, root_dir, cur_dir, parent_dir, normal, is_absolute, components, starts_with,
  path_eq, file_name, join,
}
use devit.Paths.Names.{parent}
pub mod Below
mod Examples

pub record PathSecurityContext : Type 0 where
  pub repo_root : PathBuf
  pub allow_internal_symlinks : Bool

-- The state of the files as the checks read it, and path_clean's clean.
pub record Files : Type 0 where
  pub exists : PathBuf → Bool
  pub is_symlink : PathBuf → Bool
  pub canonicalize : PathBuf → Option PathBuf
  pub read_link : PathBuf → Option PathBuf
  pub clean : PathBuf → PathBuf

pub data Rule : Type 0 where
  no_absolute repo_boundary link_no_absolute link_repo_boundary link_policy_disabled : Rule
  traversal null_byte control_chars length_limit resolution_escape : Rule

pub data Checked (A : Type 0) : Type 0 where
  ok : A → Checked A
  blocked : Rule → Checked A
  io_error : PathBuf → Checked A

infixr 20 ◌then_◌
abbrev pub ◌then_◌ : {A B : Type 0} → Checked A → (A → Checked B) → Checked B
ok a then_ f = f a
blocked rule then_ f = blocked rule
io_error path then_ f = io_error path

abbrev pub dev_null : PathBuf
dev_null = text "/dev/null"

-- char::is_control
abbrev pub is_control : ℕ → Bool
is_control c = ltb c 32 || leb 127 c && leb c 159

-- char::len_utf8
abbrev pub len_utf8 : ℕ → ℕ
len_utf8 c = if ltb c 0x80 then 1 else if ltb c 0x800 then 2 else if ltb c 0x10000 then 3 else 4

-- s.len()
unfoldable pub byte_length : Text → ℕ
byte_length [] = 0
byte_length (c ∷ s) = len_utf8 c + byte_length s

unfoldable pub validate_basic_path : PathBuf → Checked (Unit {0})
validate_basic_path path =
    if contains path (text "../") || contains path (text "..\\")
    then blocked traversal
    else if any (λ c. c == 0) path
    then blocked null_byte
    else if any (λ c. is_control c && not (c == 9) && not (c == 10)) path
    then blocked control_chars
    else if ltb 4096 (byte_length path)
    then blocked length_limit
    else ok tt

abbrev pub found_or_error : PathBuf → Option PathBuf → Checked PathBuf
found_or_error path none = io_error path
found_or_error path (some q) = ok q

unfoldable pub new_context :
    (fs : Files) (repo_root : PathBuf) (allow_internal_symlinks : Bool)
    → Checked PathSecurityContext
new_context fs repo_root allow_internal_symlinks =
    found_or_error repo_root (fs.canonicalize repo_root) then_ λ root.
    ok (record { repo_root = root; allow_internal_symlinks = allow_internal_symlinks })

module _ (fs : Files) (self : PathSecurityContext) where
  -- The loop over the components of a relative path.
  unfoldable pub resolve : (resolved : PathBuf) → List Component → Checked PathBuf
  resolve resolved [] = ok resolved
  resolve resolved (normal name ∷ cs) = resolve (join resolved name) cs
  resolve resolved (parent_dir ∷ cs) = elim (parent resolved) [
    | none ↦ blocked resolution_escape
    | some up ↦ if starts_with up self.repo_root then resolve up cs else blocked resolution_escape
  ]
  resolve resolved (cur_dir ∷ cs) = resolve resolved cs
  resolve resolved (root_dir ∷ cs) = resolve resolved cs

  unfoldable pub manual_path_resolution : PathBuf → Checked PathBuf
  manual_path_resolution path =
      if is_absolute path then ok (fs.clean path) else resolve self.repo_root (components path)

  -- A path that does not exist, in a directory that does.
  unfoldable pub beside : (path dir : PathBuf) → Checked PathBuf
  beside path dir = found_or_error dir (fs.canonicalize dir) then_ λ canonical_parent.
      elim (file_name path) [
        | none ↦ manual_path_resolution path
        | some name ↦ ok (join canonical_parent name)
      ]

  unfoldable pub safe_canonicalize : PathBuf → Checked PathBuf
  safe_canonicalize path =
      if fs.exists path then found_or_error path (fs.canonicalize path) else elim (parent path) [
        | none ↦ manual_path_resolution path
        | some dir ↦ if fs.exists dir then beside path dir else manual_path_resolution path
      ]

  unfoldable pub validate_patch_path : PathBuf → Checked PathBuf
  validate_patch_path path =
      if path_eq path dev_null
      then ok dev_null
      else (validate_basic_path path then_ λ u.
          if is_absolute path
          then blocked no_absolute
          else (safe_canonicalize (join self.repo_root path) then_ λ canonical_path.
              if starts_with canonical_path self.repo_root
              then ok canonical_path
              else blocked repo_boundary))

  unfoldable pub validate_symlink : (symlink_path target : PathBuf) → Checked (Unit {0})
  validate_symlink symlink_path target = validate_patch_path symlink_path then_ λ canonical_symlink.
      if is_absolute target
      then blocked link_no_absolute
      else (safe_canonicalize (
            join (elim (parent canonical_symlink) [ none ↦ self.repo_root | some dir ↦ dir ])
              target)
          then_ λ canonical_target.
              if not (starts_with canonical_target self.repo_root)
              then blocked link_repo_boundary
              else if not self.allow_internal_symlinks
              then blocked link_policy_disabled
              else ok tt)

  unfoldable pub recheck_link : (canonical_path : PathBuf) → Checked (Unit {0})
  recheck_link canonical_path =
      if fs.exists canonical_path && fs.is_symlink canonical_path
      then (found_or_error canonical_path (fs.read_link canonical_path) then_ λ target.
          validate_symlink canonical_path target)
      else ok tt

  unfoldable pub pre_commit_validation : List PathBuf → Checked (Unit {0})
  pre_commit_validation [] = ok tt
  pre_commit_validation (path ∷ paths) =
      let rest = pre_commit_validation paths in
      validate_patch_path path then_ λ canonical_path. recheck_link canonical_path then_ λ u. rest
