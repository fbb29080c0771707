-- ===== src/Patch/Examples.antt =====
-- The inputs of the tests of patch_parser.rs.
use devit.Prelude.{◌≡◌, ◌≢◌, refl, map, true, false, none, some, List, [], ◌∷◌, ◌++◌}
use devit.Text.{Text, text, text_eq, before, starts_with, strip_prefix, split_whitespace}
use devit.Text.Lines.{lines}
use devit.Errors.{ok, no_fuel}
use devit.Patch.Types.{PatchLine, context, add, remove, is_old, is_new, FilePatch, PatchHunk}
use devit.Patch.Hunk.{parse_hunk, parse_ranges, hunk_content, collect, count}
use devit.Patch.File.{hunk_loop, parse_file_patch}
use devit.Patch.Hunk.{parse_range, marker, is_boundary}
use devit.Text.{split_once, before_last_pair, contains}
use devit.Patch.Diff.{from_lines, from_diff}
use devit.Patch.Termination.{from_diff-terminates}
use devit.Patch.Render.{
  render_line, render_body, render_tail, ends_hunk, read_back, is_unambiguous,
  parse_hunk-render_body, collect-removed_rule,
}
use devit.Patch.Sections.{IsPlain, is_quiet, two_sections, parse_file_patch-two_sections}

abbrev plain : List Text
plain =
    text "--- /dev/null"
    ∷ text "+++ b/new_file.txt"
    ∷ text "@@ -0,0 +1,2 @@"
    ∷ text "+hello"
    ∷ text "+world"
    ∷ []

abbrev new_file : FilePatch
new_file = record {
  old_path = none;
  new_path = some (text "new_file.txt");
  hunks =
      record {
        old_start = 0;
        old_count = 0;
        new_start = 1;
        new_count = 2;
        lines = add (text "hello") ∷ add (text "world") ∷ [];
        no_trailing_newline = false;
      }
      ∷ [];
  is_new_file = true;
  is_deleted_file = false;
  old_mode = none;
  new_mode = none;
  adds_exec_bit = false;
  is_binary = false;
  no_trailing_newline = false;
}

plain_read : from_lines plain ≡ ok (new_file ∷ [])
unfolding from_lines devit.Patch.Diff.file_loop devit.Patch.Diff.git_start devit.Text.starts_with
    devit.Patch.Diff.parse_plain_unified devit.Patch.Diff.plain_start
    devit.Patch.File.parse_file_patch devit.Patch.File.header_loop devit.Patch.File.header_line
    devit.Text.strip_prefix devit.Patch.File.hunk_loop devit.Patch.Hunk.parse_hunk
    devit.Patch.Hunk.parse_ranges devit.Text.split_whitespace devit.Patch.Hunk.hunk_content
    devit.Text.before_last_pair devit.Patch.Hunk.parse_range devit.Text.split_once
    devit.Patch.File.file_patch devit.Patch.File.header_path devit.Patch.File.mode_adds_exec
    devit.Patch.File.parse_mode devit.Patch.File.path_line devit.Patch.Hunk.collect
    devit.Patch.Hunk.is_boundary devit.Patch.Hunk.marker devit.Text.Number.digit
    devit.Text.Number.digits devit.Text.Number.from_str_radix devit.Text.Number.parse_usize
    devit.Text.before devit.Text.contains devit.Text.is_whitespace devit.Text.spaced devit.Text.trim
    devit.Text.trim_end devit.Text.trim_start devit.Text.trim_start_pair
plain_read = refl

random_text : from_diff (text "this is not a patch\njust random text\n") ≡ ok []
unfolding from_diff from_lines devit.Patch.Diff.file_loop lines devit.Patch.Diff.git_start
    devit.Text.starts_with devit.Patch.Diff.parse_plain_unified devit.Patch.Diff.plain_start
random_text = refl

crlf : lines (text "a\r\nb\n\nc\r") ≡ text "a" ∷ text "b" ∷ [] ∷ text "c\r" ∷ []
unfolding lines
crlf = refl

from_diff-terminates_example : from_diff (text "diff --git a/x b/x\n@@ -1,1 +1,1 @@\n") ≢ no_fuel
from_diff-terminates_example = from_diff-terminates (text "diff --git a/x b/x\n@@ -1,1 +1,1 @@\n")

abbrev range_header : Text
range_header = text "@@ -3,2 +3,2 @@ fn main()"

ranges_parsed :
    parse_ranges 4 range_header (split_whitespace (hunk_content range_header))
    ≡ ok (record { old = (3, 2); new = (3, 2) })
unfolding parse_ranges devit.Patch.Diff.file_loop devit.Patch.Diff.git_start devit.Text.starts_with
    devit.Patch.Diff.parse_plain_unified devit.Patch.Diff.plain_start
    devit.Patch.File.parse_file_patch devit.Patch.File.header_loop devit.Patch.File.header_line
    devit.Text.strip_prefix devit.Patch.File.hunk_loop devit.Patch.Hunk.parse_hunk
    devit.Text.split_whitespace devit.Patch.Hunk.hunk_content devit.Text.before_last_pair
    devit.Patch.Hunk.parse_range devit.Text.split_once devit.Patch.File.file_patch
    devit.Patch.File.header_path devit.Patch.File.mode_adds_exec devit.Patch.File.parse_mode
    devit.Patch.File.path_line devit.Patch.Hunk.collect devit.Patch.Hunk.is_boundary
    devit.Patch.Hunk.marker devit.Text.Number.digit devit.Text.Number.digits
    devit.Text.Number.from_str_radix devit.Text.Number.parse_usize devit.Text.before
    devit.Text.contains devit.Text.is_whitespace devit.Text.spaced devit.Text.trim
    devit.Text.trim_end devit.Text.trim_start devit.Text.trim_start_pair
ranges_parsed = refl

abbrev body_lines : List PatchLine
body_lines = context (text "a") ∷ remove (text "-- b") ∷ add (text "c") ∷ []

abbrev after_hunk : List Text
after_hunk = text "@@ -9,1 +9,1 @@" ∷ []

body_unambiguous : is_unambiguous body_lines (render_tail true after_hunk) ≡ true
unfolding starts_with render_line
body_unambiguous = refl

after_ends : ends_hunk after_hunk ≡ true
unfolding devit.Patch.Hunk.is_boundary devit.Patch.Hunk.marker starts_with
after_ends = refl

parse_hunk-render_body_example :
    parse_hunk 4 range_header (render_body body_lines true after_hunk)
    ≡ ok (record {
      value = record {
        old_start = 3;
        old_count = count is_old body_lines;
        new_start = 3;
        new_count = count is_new body_lines;
        lines = body_lines;
        no_trailing_newline = true;
      };
      next_index = 9;
      rest = after_hunk;
    })
parse_hunk-render_body_example =
    parse_hunk-render_body 4 range_header (record { old = (3, 2); new = (3, 2) })
      (context (text "a")) (remove (text "-- b") ∷ add (text "c") ∷ []) true after_hunk
      ranges_parsed body_unambiguous after_ends

clear_before :
    is_unambiguous (context (text "a") ∷ []) (
      render_line (remove (text "-- " ++ text "old"))
      ∷ render_line (add (text "++ " ++ text "new"))
      ∷ [])
    ≡ true
clear_before = refl

collect-removed_rule_example :
    collect 0 (
      map render_line (context (text "a") ∷ [])
      ++ (render_line (remove (text "-- " ++ text "old"))
          ∷ render_line (add (text "++ " ++ text "new"))
          ∷ []))
    ≡ read_back (context (text "a") ∷ []) false 1 (
        render_line (remove (text "-- " ++ text "old"))
        ∷ render_line (add (text "++ " ++ text "new"))
        ∷ [])
collect-removed_rule_example =
    collect-removed_rule 0 (context (text "a") ∷ []) (text "old") (text "new") [] clear_before

not_null : text_eq (before b'\t' (text "a/x.rs")) (text "/dev/null") ≡ false
unfolding before
not_null = refl

abbrev script_and_readme : List Text
script_and_readme =
    two_sections (text "a/run.sh b/run.sh") (text "a/README b/README") (text "README")
      (text "@@ -1 +1 @@" ∷ text "-old" ∷ text "+new" ∷ [])

abbrev readme_hunk : PatchHunk
readme_hunk = record {
  old_start = 1;
  old_count = 1;
  new_start = 1;
  new_count = 1;
  lines = remove (text "old") ∷ add (text "new") ∷ [];
  no_trailing_newline = false;
}

hunk_parsed :
    hunk_loop 3 6 (text "@@ -1 +1 @@" ∷ text "-old" ∷ text "+new" ∷ [])
    ≡ ok (record { value = readme_hunk ∷ []; next_index = 9; rest = [] })
unfolding hunk_loop parse_hunk parse_ranges hunk_content collect parse_range marker is_boundary
    starts_with strip_prefix split_whitespace split_once before_last_pair
    devit.Text.Number.parse_usize
hunk_parsed = refl

quiet_script : is_quiet (text "diff --git a/run.sh b/run.sh") ≡ true
unfolding contains
quiet_script = refl

quiet_readme : is_quiet (text "diff --git a/README b/README") ≡ true
unfolding contains
quiet_readme = refl

hunk_begins : starts_with (text "@@ -1 +1 @@") (text "@@") ≡ true
unfolding starts_with
hunk_begins = refl

readme-IsPlain : IsPlain (text "README")
unfolding before starts_with
readme-IsPlain = (refl, refl, refl)

parse_file_patch-two_sections_example :
    parse_file_patch 0 script_and_readme
    ≡ ok (record {
      value = record {
        old_path = some (text "README");
        new_path = some (text "README");
        hunks = readme_hunk ∷ [];
        is_new_file = false;
        is_deleted_file = false;
        old_mode = some 0o100644;
        new_mode = some 0o100755;
        adds_exec_bit = true;
        is_binary = false;
        no_trailing_newline = false;
      };
      next_index = 9;
      rest = [];
    })
parse_file_patch-two_sections_example =
    parse_file_patch-two_sections 0 (text "a/run.sh b/run.sh") (text "a/README b/README")
      (text "README") (text "@@ -1 +1 @@") (text "-old" ∷ text "+new" ∷ [])
      (record { value = readme_hunk ∷ []; next_index = 9; rest = [] }) quiet_script quiet_readme
      readme-IsPlain hunk_begins hunk_parsed
