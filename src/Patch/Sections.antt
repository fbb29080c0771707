-- ===== src/Patch/Sections.antt =====
-- A section of a git diff with no hunk, as the header loop of parse_file_patch reads it.
use devit.Patch.Headers.{header_path-prefixed}
use devit.Prelude.{
  ℕ, ◌+◌, ◌≡◌, refl, ap, ◌∙◌, Bool, true, false, not, ◌&&◌, some, List, ◌∷◌, ◌++◌, arith, length,
}
use devit.Text.{Text, text, starts_with, before, contains, strip_prefix, trim}
use devit.Text.Number.{from_str_radix}
use devit.Errors.{ok}
use devit.Patch.File.{
  Header, next, header_loop, header_line, path_line, parse_mode, empty_header, at_position,
  hunk_loop, parse_file_patch, file_patch, mode_adds_exec, last_no_newline,
}
use devit.Patch.Types.{PatchHunk}
use devit.Patch.Hunk.{Parsed}

-- A path with no tab that does not begin with the prefix of a side again.
abbrev pub IsPlain : Text → Type 0
IsPlain y =
    (before b'\t' y ≡ y) × (starts_with y (text "a/") ≡ false) × (starts_with y (text "b/") ≡ false)

-- The line says neither that a file is new nor that it is deleted.
abbrev pub is_quiet : Text → Bool
is_quiet line =
    not (contains line (text "new file mode")) && not (contains line (text "deleted file mode"))

git_line :
    (i : ℕ) (h : Header) (x : Text)
    → is_quiet (text "diff --git " ++ x) ≡ true
    → header_line i h (text "diff --git " ++ x) ≡ ok (next h)
unfolding header_line path_line strip_prefix starts_with
git_line i h x quiet = ground arith

old_path_line :
    (i : ℕ) (h : Header) (y : Text)
    → IsPlain y
    → header_line i h (text "--- a/" ++ y) ≡ ok (next (record h { old_path = some y }))
unfolding header_line path_line strip_prefix
old_path_line i h y (plain, once, other) =
    rw (header_path-prefixed b'a' y (ground arith) (ground arith) plain once) refl

new_path_line :
    (i : ℕ) (h : Header) (y : Text)
    → IsPlain y
    → header_line i h (text "+++ b/" ++ y) ≡ ok (next (record h { new_path = some y }))
unfolding header_line path_line strip_prefix
new_path_line i h y (plain, other, once) =
    rw (header_path-prefixed b'b' y (ground arith) (ground arith) plain once) refl

old_mode_line :
    (i : ℕ) (h : Header)
    → header_line i h (text "old mode 100644") ≡ ok (next (record h { old_mode = some 0o100644 }))
unfolding header_line strip_prefix parse_mode trim from_str_radix
old_mode_line i h = refl

new_mode_line :
    (i : ℕ) (h : Header)
    → header_line i h (text "new mode 100755") ≡ ok (next (record h { new_mode = some 0o100755 }))
unfolding header_line strip_prefix parse_mode trim from_str_radix
new_mode_line i h = refl

header_loop_step :
    (i : ℕ) (l : Text) (rest : List Text) (h g : Header)
    → starts_with l (text "@@") ≡ false
    → header_line i h l ≡ ok (next g)
    → header_loop i (l ∷ rest) h ≡ header_loop (i + 1) rest g
unfolding header_loop
header_loop_step i l rest h g other e = rw (other, e, header_loop)

header_loop_stop :
    (i : ℕ) (l : Text) (rest : List Text) (h : Header)
    → starts_with l (text "@@") ≡ true
    → header_loop i (l ∷ rest) h ≡ ok (at_position h i (l ∷ rest))
unfolding header_loop
header_loop_stop i l rest h found = rw (found, header_loop)

-- A section that makes the file of its first line executable and changes nothing else, then the header
-- of the section that changes `y`.
abbrev pub two_sections : (first second y : Text) → List Text → List Text
two_sections first second y hunks =
    (text "diff --git " ++ first)
    ∷ text "old mode 100644"
    ∷ text "new mode 100755"
    ∷ (text "diff --git " ++ second)
    ∷ (text "--- a/" ++ y)
    ∷ (text "+++ b/" ++ y)
    ∷ hunks

-- The header that they are read as.
abbrev both_sections : Text → Header
both_sections y = record {
  old_path = some y;
  new_path = some y;
  is_new_file = false;
  is_deleted_file = false;
  old_mode = some 0o100644;
  new_mode = some 0o100755;
  is_binary = false;
}

header_loop-two_sections :
    (i : ℕ) (first second y line : Text) (rest : List Text)
    → is_quiet (text "diff --git " ++ first) ≡ true
    → is_quiet (text "diff --git " ++ second) ≡ true
    → IsPlain y
    → starts_with line (text "@@") ≡ true
    → header_loop i (two_sections first second y (line ∷ rest)) empty_header
      ≡ ok (at_position (both_sections y) (i + 6) (line ∷ rest))
unfolding starts_with
header_loop-two_sections i first second y line rest quiet also_quiet plain hunk =
    header_loop_step i _ _ empty_header _ refl (git_line i _ first quiet)
    ∙ header_loop_step (i + 1) _ _ _ _ refl (old_mode_line (i + 1) _)
    ∙ header_loop_step (i + 1 + 1) _ _ _ _ refl (new_mode_line (i + 1 + 1) _)
    ∙ header_loop_step (i + 1 + 1 + 1) _ _ _ _ refl (git_line (i + 1 + 1 + 1) _ second also_quiet)
    ∙ header_loop_step (i + 1 + 1 + 1 + 1) _ _ _ _ refl
        (old_path_line (i + 1 + 1 + 1 + 1) _ y plain)
    ∙ header_loop_step (i + 1 + 1 + 1 + 1 + 1) _ _ _ _ refl
        (new_path_line (i + 1 + 1 + 1 + 1 + 1) _ y plain)
    ∙ header_loop_stop (i + 1 + 1 + 1 + 1 + 1 + 1) line rest (both_sections y) hunk
    ∙ ap (λ n. ok (at_position (both_sections y) n (line ∷ rest))) (omega arith)

-- A section with no hunk is merged into the next one. In a git diff, let a section that only makes a
-- file executable be followed by the section of another file `y`, with hunks that parse; let neither
-- `diff --git` line contain the words new file mode or deleted file mode, and let `y` hold no tab and
-- not begin with `a/` or `b/`. Then the two are read as one file patch, which names `y` alone, has its
-- hunks, and has the modes and the added executable bit of the first file.
pub parse_file_patch-two_sections :
    (start : ℕ) (first second y line : Text) (rest : List Text) (hunks : Parsed (List PatchHunk))
    → is_quiet (text "diff --git " ++ first) ≡ true
    → is_quiet (text "diff --git " ++ second) ≡ true
    → IsPlain y
    → starts_with line (text "@@") ≡ true
    → hunk_loop (length (line ∷ rest)) (start + 6) (line ∷ rest) ≡ ok hunks
    → parse_file_patch start (two_sections first second y (line ∷ rest))
      ≡ ok (record {
        value = record {
          old_path = some y;
          new_path = some y;
          hunks = hunks.value;
          is_new_file = false;
          is_deleted_file = false;
          old_mode = some 0o100644;
          new_mode = some 0o100755;
          adds_exec_bit = true;
          is_binary = false;
          no_trailing_newline = last_no_newline hunks.value;
        };
        next_index = hunks.next_index;
        rest = hunks.rest;
      })
unfolding parse_file_patch file_patch mode_adds_exec
parse_file_patch-two_sections start first second y line rest hunks quiet also_quiet plain hunk
      parsed =
    rw (header_loop-two_sections start first second y line rest quiet also_quiet plain hunk, parsed)
      refl
