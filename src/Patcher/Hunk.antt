-- ===== src/Patcher/Hunk.antt =====
-- apply_hunk_to_lines.
use devit.Prelude.{
  ℕ, ◌+◌, ◌-◌, not, none, some, List, [], ◌∷◌, ◌++◌, ltb, min, if◌then◌else◌, length, get_elem?,
  take, drop,
}
use devit.Text.{Text, text_eq}
use devit.Errors.{
  Outcome, ok, err, ◌>>=◌, invalid_diff, starts_past_end, consumes_too_much, vcs_conflict,
  ConflictType, context_mismatch, remove_mismatch,
}
use devit.Patch.Types.{PatchLine, context, add, remove, PatchHunk}

abbrev pub start_index : PatchHunk → ℕ
start_index hunk = if ltb 0 hunk.old_start then hunk.old_start - 1 else 0

-- `old_idx < lines.len() && &lines[old_idx] != expected`: a line past the end passes here.
unfoldable pub check_line : List Text → ℕ → ConflictType → Text → Outcome (Unit {0})
check_line lines old_idx kind expected = elim (get_elem? lines old_idx) [
  | none ↦ ok tt
  | some found ↦
      if not (text_eq found expected)
      then err (vcs_conflict (old_idx + 1) kind expected found)
      else ok tt
]

-- The loop that validates the hunk's lines.
unfoldable pub validate : List Text → ℕ → List PatchLine → Outcome (Unit {0})
validate lines old_idx [] = ok tt
validate lines old_idx (context l ∷ ls) =
    check_line lines old_idx context_mismatch l >>= λ _. validate lines (old_idx + 1) ls
validate lines old_idx (remove l ∷ ls) =
    check_line lines old_idx remove_mismatch l >>= λ _. validate lines (old_idx + 1) ls
validate lines old_idx (add l ∷ ls) = validate lines old_idx ls

-- The loop that applies the changes: the new lines so far, and the index in the old ones.
unfoldable pub rebuild : List Text → ℕ → List PatchLine → List Text × ℕ
rebuild new_lines old_idx [] = (new_lines, old_idx)
rebuild new_lines old_idx (context l ∷ ls) = rebuild (new_lines ++ l ∷ []) (old_idx + 1) ls
rebuild new_lines old_idx (remove l ∷ ls) = rebuild new_lines (old_idx + 1) ls
rebuild new_lines old_idx (add l ∷ ls) = rebuild (new_lines ++ l ∷ []) old_idx ls

abbrev pub copy_rest : List Text → List Text × ℕ → Outcome (List Text)
copy_rest lines (new_lines, old_idx) =
    if ltb (length lines) old_idx
    then err (invalid_diff (consumes_too_much (old_idx + 1) (length lines)) (some (old_idx + 1)))
    else ok (new_lines ++ drop old_idx lines)

unfoldable pub apply_hunk_to_lines : List Text → PatchHunk → Outcome (List Text)
apply_hunk_to_lines lines hunk =
    let start_idx = start_index hunk in
    if ltb (length lines) start_idx
    then err (invalid_diff (starts_past_end hunk.old_start (length lines)) (some hunk.old_start))
    else (validate lines start_idx hunk.lines >>= λ _.
        copy_rest lines (rebuild (take (min start_idx (length lines)) lines) start_idx hunk.lines))
