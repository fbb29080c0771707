-- ===== src/Patcher/Content.antt =====
-- build_new_content and read_file_lines, less the reading itself.
use devit.Prelude.{Bool, not, ◌&&◌, List, [], ◌∷◌, ◌++◌, if◌then◌else◌}
use devit.Text.{Text, is_empty}
use devit.Text.Lines.{lines, join_lines, ends_with_newline}
use devit.Errors.{Outcome, ok, ◌>>=◌}
use devit.Patch.Types.{PatchHunk}
use devit.Patcher.Hunk.{apply_hunk_to_lines}

-- `for hunk in hunks.iter().rev()`: the last hunk is applied first.
unfoldable pub apply_hunks : List PatchHunk → List Text → Outcome (List Text)
apply_hunks [] result_lines = ok result_lines
apply_hunks (hunk ∷ hunks) result_lines =
    apply_hunks hunks result_lines >>= λ later. apply_hunk_to_lines later hunk

unfoldable pub content_of : Bool → List Text → Text
unfolding join_lines
content_of trailing_newline result_lines =
    let result = join_lines result_lines in
    if trailing_newline && not (is_empty result) then result ++ b'\n' ∷ [] else result

unfoldable pub build_new_content : List PatchHunk → List Text → Bool → Outcome Text
unfolding apply_hunks content_of
build_new_content hunks original_lines trailing_newline =
    apply_hunks hunks original_lines >>= λ result_lines.
    ok (content_of trailing_newline result_lines)

-- read_file_lines, on the text that was read
unfoldable pub split_content : Text → List Text × Bool
unfolding lines ends_with_newline
split_content raw = (lines raw, ends_with_newline raw)
