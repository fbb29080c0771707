-- ===== src/PathSecurity/Examples.antt =====
-- The path checks in a repository with one file and one link.
use devit.Prelude.{◌≡◌, refl, Bool, true, if◌then◌else◌, ◌||◌, ◌++◌, List, some, [], ◌∷◌}
use devit.Text.{text, contains}
use devit.Paths.{PathBuf, path_eq, is_absolute, starts_with, join, file_name, components}
use devit.Paths.Names.{parent}
use devit.PathSecurity.{
  PathSecurityContext, Files, ok, blocked, no_absolute, resolution_escape, validate_patch_path,
  new_context, pre_commit_validation, manual_path_resolution, validate_basic_path, byte_length,
  safe_canonicalize, beside, recheck_link, validate_symlink, resolve,
}
use devit.PathSecurity.Below.{AllSafe, pre_commit_validation-AllSafe}

abbrev file : PathBuf
file = text "src/a.rs"

abbrev link : PathBuf
link = text "src/b"

abbrev full : PathBuf → PathBuf
full p = text "/w/" ++ p

abbrev found : PathBuf → Bool
found p = path_eq p (full file) || path_eq p (full link) || path_eq p (text "/w/src")

abbrev resolved : PathBuf → PathBuf
resolved p = if path_eq p (full link) then full file else p

abbrev is_link : PathBuf → Bool
is_link p = path_eq p (full link)

abbrev files : Files
files = record {
  exists = found;
  is_symlink = is_link;
  canonicalize = λ p. some (resolved p);
  read_link = λ p. some (text "a.rs");
  clean = λ p. p;
}

-- The file has become a link after it was resolved.
abbrev raced : Files
raced = record files { is_symlink = λ p. path_eq p (full file) }

abbrev context : PathSecurityContext
context = record { repo_root = text "/w"; allow_internal_symlinks = true }

made : new_context files (text "/w") true ≡ ok context
unfolding new_context path_eq
made = refl

validated : validate_patch_path files context file ≡ ok (full file)
unfolding validate_patch_path validate_basic_path byte_length contains safe_canonicalize beside
    is_absolute starts_with path_eq join file_name parent
validated = refl

-- A path that has become a link is refused as absolute, although the context allows links inside.
link_refused : pre_commit_validation raced context (file ∷ []) ≡ blocked no_absolute
unfolding pre_commit_validation recheck_link validate_symlink validate_patch_path
    validate_basic_path byte_length contains safe_canonicalize beside is_absolute starts_with
    path_eq join file_name parent
link_refused = refl

escape : manual_path_resolution files context (text "a/../../b") ≡ blocked resolution_escape
unfolding manual_path_resolution resolve is_absolute components parent join starts_with
escape = refl

abbrev patched : List PathBuf
patched = file ∷ link ∷ text "src/new.rs" ∷ text "/dev/null" ∷ []

accepted : pre_commit_validation files context patched ≡ ok tt
unfolding pre_commit_validation recheck_link validate_symlink validate_patch_path
    validate_basic_path byte_length contains safe_canonicalize beside is_absolute starts_with
    path_eq join file_name parent
accepted = refl

pre_commit_validation-AllSafe_example : AllSafe files context patched
pre_commit_validation-AllSafe_example =
    pre_commit_validation-AllSafe files context patched (unfold is_absolute in refl) accepted
