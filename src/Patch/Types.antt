-- ===== src/Patch/Types.antt =====
-- The data of patch_parser.rs.
use devit.Prelude.{ℕ, Bool, Option, List}
use devit.Text.{Text}
use devit.Paths.{PathBuf}

pub data PatchLine : Type 0 where
  context add remove : Text → PatchLine

pub record PatchHunk : Type 0 where
  pub old_start : ℕ
  pub old_count : ℕ
  pub new_start : ℕ
  pub new_count : ℕ
  pub lines : List PatchLine
  pub no_trailing_newline : Bool

pub record FilePatch : Type 0 where
  pub old_path : Option PathBuf
  pub new_path : Option PathBuf
  pub hunks : List PatchHunk
  pub is_new_file : Bool
  pub is_deleted_file : Bool
  pub old_mode : Option ℕ
  pub new_mode : Option ℕ
  pub adds_exec_bit : Bool
  pub is_binary : Bool
  pub no_trailing_newline : Bool

-- matches!(l, Context(_) | Remove(_))
abbrev pub is_old : PatchLine → Bool
is_old (context t) = Bool.true
is_old (add t) = Bool.false
is_old (remove t) = Bool.true

-- matches!(l, Context(_) | Add(_))
abbrev pub is_new : PatchLine → Bool
is_new (context t) = Bool.true
is_new (add t) = Bool.true
is_new (remove t) = Bool.false
