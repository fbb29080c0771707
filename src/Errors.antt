-- ===== src/Errors.antt =====
-- The errors of crates/cli/src/core/errors.rs that the patch code raises, and the results of fallible
-- code. Messages are data that carry what the format strings are given.
use devit.Prelude.{ℕ, Option, none, some}
use devit.Text.{Text}
use devit.Paths.{PathBuf}

-- The reasons of `DevItError::InvalidDiff`.
pub data DiffReason : Type 0 where
  invalid_hunk_header invalid_range invalid_range_start invalid_range_count : Text → DiffReason
  empty_hunk : ℕ → DiffReason
  invalid_file_mode : Text → DiffReason
  starts_past_end consumes_too_much : ℕ → ℕ → DiffReason
  deleted_without_path created_without_path modified_without_path : DiffReason

-- The protection rules of `DevItError::ProtectedPath`.
pub data ProtectionRule : Type 0 where
  no_absolute_paths no_path_traversal no_symlinks : ProtectionRule

-- The operations that `DevItError::io` names.
pub data IoOperation : Type 0 where
  symlink_metadata delete_file create_parent_directories read_file : IoOperation
  create_temp_file write_to_temp_file sync_temp_file atomic_rename : IoOperation

pub data ConflictType : Type 0 where
  context_mismatch remove_mismatch : ConflictType

pub data DevItError : Type 0 where
  invalid_diff : DiffReason → Option ℕ → DevItError
  -- the line, the kind, the expected and the found line
  vcs_conflict : ℕ → ConflictType → Text → Text → DevItError
  protected_path : PathBuf → ProtectionRule → DevItError
  io : PathBuf → IoOperation → DevItError

-- `panicked` is a Rust panic; `no_fuel` is for loops of the model only.
pub data Outcome {ℓ} (A : Type ℓ) : Type ℓ where
  ok : A → Outcome A
  err : DevItError → Outcome A
  panicked : Outcome A
  no_fuel : Outcome A

infixl 5 ◌>>=◌
abbrev pub ◌>>=◌ {ℓ κ} : {A : Type ℓ} {B : Type κ} → Outcome A → (A → Outcome B) → Outcome B
ok a >>= f = f a
err e >>= f = err e
panicked >>= f = panicked
no_fuel >>= f = no_fuel

-- option.ok_or(e)?
abbrev pub ok_or {ℓ} : {A : Type ℓ} → Option A → DevItError → Outcome A
ok_or none e = err e
ok_or (some a) e = ok a

-- A slice that panics where it is out of bounds or cuts a character.
abbrev pub or_panic {ℓ} : {A : Type ℓ} → Option A → Outcome A
or_panic none = panicked
or_panic (some a) = ok a
