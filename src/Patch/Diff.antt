-- ===== src/Patch/Diff.antt =====
-- from_diff and parse_plain_unified.
use devit.Prelude.{ℕ, zero, suc, ◌+◌, Bool, true, false, ◌&&◌, List, [], ◌∷◌, length}
use devit.Text.{Text, text, starts_with}
use devit.Text.Lines.{lines}
use devit.Errors.{Outcome, ok, no_fuel, ◌>>=◌}
use devit.Patch.Types.{FilePatch}
use devit.Patch.Hunk.{next_starts_with}
use devit.Patch.File.{parse_file_patch}

-- Where a file begins: `diff --git`, or `---` and `+++` in a plain diff.
unfoldable pub git_start : Text → List Text → Bool
git_start line rest = starts_with line (text "diff --git ")

unfoldable pub plain_start : Text → List Text → Bool
plain_start line rest = starts_with line (text "--- ") && next_starts_with rest (text "+++ ")

-- The loop of from_diff and of parse_plain_unified, which differ in the test; on fuel.
unfoldable pub file_loop : (Text → List Text → Bool) → ℕ → ℕ → List Text → Outcome (List FilePatch)
file_loop begins fuel i [] = ok []
file_loop begins zero i (line ∷ rest) = no_fuel
file_loop begins (suc fuel) i (line ∷ rest) = elim (begins line rest) [
  | false ↦ file_loop begins fuel (i + 1) rest
  | true ↦ do
    file ← parse_file_patch i (line ∷ rest)
    files ← file_loop begins fuel file.next_index file.rest
    ok (file.value ∷ files)
]

unfoldable pub parse_plain_unified : List Text → Outcome (List FilePatch)
parse_plain_unified ls = file_loop plain_start (length ls) 0 ls

abbrev pub or_plain : List Text → List FilePatch → Outcome (List FilePatch)
or_plain ls [] = parse_plain_unified ls
or_plain ls (f ∷ fs) = ok (f ∷ fs)

-- from_diff on the lines of the text: plain diffs are tried where no git header is found.
unfoldable pub from_lines : List Text → Outcome (List FilePatch)
from_lines ls = file_loop git_start (length ls) 0 ls >>= or_plain ls

unfoldable pub from_diff : Text → Outcome (List FilePatch)
from_diff diff_content = from_lines (lines diff_content)
