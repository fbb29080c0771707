-- ===== src/Edits/Types.antt =====
-- StructuredEdit and EditOperation of crates/context-engine/src/types.rs, EditHunk, and parse_edit.
use devit.Prelude.{ℕ, ◌+◌, ◌-◌, Option, none, some, List, [], ◌∷◌}
use devit.Text.{Text}
use devit.Text.Number.{usize_limit}

pub data EditOperation : Type 0 where
  replace : (start_line end_line : ℕ) → Text → EditOperation
  insert_after : (after_line : ℕ) → Text → EditOperation
  delete : (start_line end_line : ℕ) → EditOperation
  replace_file : Text → EditOperation

pub record StructuredEdit : Type 0 where
  pub file : Text
  pub edits : List EditOperation

pub data HunkStatus : Type 0 where
  pending accepted rejected applied : HunkStatus

-- The descriptions that are shown, as data.
pub data Description : Type 0 where
  replace_lines delete_lines : ℕ → ℕ → Description
  insert_after_line : ℕ → Description
  replace_entire_file : Description

-- The id is the file with the index of the edit; the code joins them with a dash.
pub record EditHunk : Type 0 where
  pub id : Text × ℕ
  pub file_path : Text
  pub start_line : ℕ
  pub end_line : ℕ
  pub original : Text
  pub replacement : Text
  pub description : Description
  pub status : HunkStatus

-- usize::MAX
abbrev pub usize_max : ℕ
usize_max = usize_limit - 1

abbrev pending_hunk : Text → ℕ → ℕ → ℕ → Text → Description → EditHunk
pending_hunk file idx start_line end_line replacement description = record {
  id = (file, idx);
  file_path = file;
  start_line = start_line;
  end_line = end_line;
  original = [];
  replacement = replacement;
  description = description;
  status = pending;
}

-- The `match` in the loop of parse_edit.
unfoldable pub hunk_of : Text → ℕ → EditOperation → EditHunk
hunk_of file idx (replace start_line end_line content) =
    pending_hunk file idx start_line end_line content (replace_lines start_line end_line)
hunk_of file idx (insert_after after_line content) =
    pending_hunk file idx after_line after_line content (insert_after_line after_line)
hunk_of file idx (delete start_line end_line) =
    pending_hunk file idx start_line end_line [] (delete_lines start_line end_line)
hunk_of file idx (replace_file content) =
    pending_hunk file idx 1 usize_max content replace_entire_file

unfoldable pub hunks_of : Text → ℕ → List EditOperation → List EditHunk
unfolding hunk_of
hunks_of file idx [] = []
hunks_of file idx (op ∷ ops) = hunk_of file idx op ∷ hunks_of file (idx + 1) ops

-- `from_str` is serde_json::from_str; `none` stands for ContextError::Diff.
unfoldable pub parse_edit : (Text → Option StructuredEdit) → Text → Option (List EditHunk)
unfolding hunks_of
parse_edit from_str json_str = elim (from_str json_str) [
  | none ↦ none
  | some edit ↦ some (hunks_of edit.file 0 edit.edits)
]
