-- ===== src/Patcher/Examples.antt =====
-- Applying patches on concrete inputs.
use devit.Prelude.{◌≡◌, refl, ◌↔◌, Bool, true, false, none, some, List, [], ◌∷◌, all}
use devit.Text.{Text, text, text_eq}
use devit.Text.Lines.{lines}
use devit.Paths.{PathBuf, is_absolute, has_parent_dir}
use devit.Errors.{ok, err, DevItError}
use devit.Patch.Types.{add, remove, PatchHunk, FilePatch}
use devit.Patch.Diff.{from_diff, from_lines}
use devit.Patcher.Hunk.{start_index, apply_hunk_to_lines}
use devit.Patcher.Content.{build_new_content, content_of}
use devit.Patcher.Files.{FileSystem, AtomicPatcher, apply_patch}
use devit.Patcher.Rejection.{names_inside, apply_patch-outside}
use devit.Patcher.Confinement.{apply_patch-dry_run, apply_patch-Confines}
use devit.Patcher.Splice.{Splice, apply_hunk_to_lines-Splice}
use devit.Patcher.Sequence.{
  reverse_hunk, apply_hunk_to_lines-reverse_hunk, Splices, done, splice, build_new_content-Splices,
}
use devit.Patcher.Touched.{noting, all_below, below_Confines, apply_patch-below}

-- One file is there, and every call succeeds.
abbrev one_file : FileSystem
one_file = record {
  State = Text;
  exists = λ path s. text_eq path (text "/work/a");
  is_symlink = λ path s. some false;
  read_to_string = λ path s. some s;
  remove_file = λ path s. (true, []);
  create_dir_all = λ path s. (true, s);
  open_truncated = λ path s. (true, s);
  write_all = λ path content s. (true, content);
  sync_all = λ path s. (true, s);
  rename = λ source target s. (true, s);
}

abbrev patcher : Bool → AtomicPatcher
patcher dry = record { working_dir = text "/work"; dry_run = dry }

abbrev diff : Text
diff = text "--- a/a\n+++ b/a\n@@ -2,1 +2,1 @@\n-two\n+2\n"

abbrev content : Text
content = text "one\ntwo\nthree\n"

abbrev replace_two : PatchHunk
replace_two = record {
  old_start = 2;
  old_count = 1;
  new_start = 2;
  new_count = 1;
  lines = remove (text "two") ∷ add (text "2") ∷ [];
  no_trailing_newline = false;
}

abbrev drop_three : PatchHunk
drop_three = record {
  old_start = 3;
  old_count = 1;
  new_start = 3;
  new_count = 0;
  lines = remove (text "three") ∷ [];
  no_trailing_newline = false;
}

abbrev original : List Text
original = text "one" ∷ text "two" ∷ text "three" ∷ []

abbrev replaced : List Text
replaced = text "one" ∷ text "2" ∷ text "three" ∷ []

apply_hunk_to_lines-Splice_example :
    (apply_hunk_to_lines original replace_two ≡ ok replaced)
    ↔ Splice (start_index replace_two) replace_two.lines original replaced
apply_hunk_to_lines-Splice_example = apply_hunk_to_lines-Splice original replace_two replaced

two_Splice : Splice (start_index replace_two) replace_two.lines original replaced
two_Splice = (text "one" ∷ [], text "three" ∷ [], refl, refl, refl)

apply_hunk_to_lines-reverse_hunk_example :
    apply_hunk_to_lines replaced (reverse_hunk replace_two) ≡ ok original
apply_hunk_to_lines-reverse_hunk_example =
    apply_hunk_to_lines-reverse_hunk original replaced replace_two
      (apply_hunk_to_lines-Splice_example.1 two_Splice)

two_Splices : Splices 0 (replace_two ∷ drop_three ∷ []) original (text "one" ∷ text "2" ∷ [])
two_Splices =
    splice (text "one" ∷ []) (text "three" ∷ []) [] refl refl refl refl
      (splice [] [] [] refl refl refl refl done)

build_new_content-Splices_example :
    build_new_content (replace_two ∷ drop_three ∷ []) original true
    ≡ ok (content_of true (text "one" ∷ text "2" ∷ []))
build_new_content-Splices_example =
    build_new_content-Splices (replace_two ∷ drop_three ∷ []) original (text "one" ∷ text "2" ∷ [])
      true two_Splices

apply_patch-dry_run_example : (apply_patch one_file (patcher true) diff content).1 ≡ content
apply_patch-dry_run_example = apply_patch-dry_run one_file (patcher true) diff content refl

work_absolute : is_absolute (text "/work") ≡ true
unfolding is_absolute
work_absolute = refl

apply_patch-below_example :
    all_below (text "/work") (apply_patch (noting one_file) (patcher false) diff (content, [])).1.1
    ≡ true
apply_patch-below_example = apply_patch-below one_file (patcher false) diff content work_absolute

apply_patch-Confines_example :
    all_below (text "/work") (apply_patch (noting one_file) (patcher false) diff (content, [])).1.1
    ≡ true
apply_patch-Confines_example =
    apply_patch-Confines (noting one_file) (patcher false)
      (λ t. all_below (text "/work") t.1 ≡ true)
      (below_Confines one_file (patcher false) work_absolute) diff (content, []) refl

-- The diff that is applied above changes the file.
diff_applied : (apply_patch one_file (patcher false) diff content).1 ≡ text "one\n2\nthree\n"
unfolding apply_patch from_diff from_lines lines devit.Patch.Diff.file_loop
    devit.Patch.Diff.git_start devit.Text.starts_with devit.Patch.Diff.parse_plain_unified
    devit.Patch.Diff.plain_start devit.Patch.File.parse_file_patch devit.Patch.File.header_loop
    devit.Patch.File.header_line devit.Text.strip_prefix devit.Patch.File.hunk_loop
    devit.Patch.Hunk.parse_hunk devit.Patch.Hunk.parse_ranges devit.Text.split_whitespace
    devit.Patch.Hunk.hunk_content devit.Text.before_last_pair devit.Patch.Hunk.parse_range
    devit.Text.split_once devit.Patch.File.file_patch devit.Patch.File.header_path
    devit.Patch.File.mode_adds_exec devit.Patch.File.parse_mode devit.Patch.File.path_line
    devit.Patch.Hunk.collect devit.Patch.Hunk.is_boundary devit.Patch.Hunk.marker
    devit.Text.Number.digit devit.Text.Number.digits devit.Text.Number.from_str_radix
    devit.Text.Number.parse_usize devit.Text.before devit.Text.contains devit.Text.is_whitespace
    devit.Text.spaced devit.Text.trim devit.Text.trim_end devit.Text.trim_start
    devit.Text.trim_start_pair devit.Patcher.Files.◌>>=◌ devit.Patcher.Files.pure
    devit.Patcher.Files.lift devit.Patcher.Files.inspect devit.Patcher.Files.or_io
    devit.Patcher.Files.unless devit.Patcher.Files.validate_security
    devit.Patcher.Files.validate_path devit.Patcher.Files.check_symlink
    devit.Patcher.Files.apply_files devit.Patcher.Files.apply_file_patch
    devit.Patcher.Files.modify_at devit.Patcher.Files.original_lines
    devit.Patcher.Files.read_file_lines devit.Patcher.Files.write_file_atomically
    devit.Patcher.Content.split_content build_new_content devit.Patcher.Content.apply_hunks
    content_of apply_hunk_to_lines devit.Patcher.Hunk.validate devit.Patcher.Hunk.check_line
    devit.Patcher.Hunk.rebuild is_absolute has_parent_dir devit.Paths.join
    devit.Paths.Names.with_extension
diff_applied = refl

abbrev climbing_diff : Text
climbing_diff = text "--- /dev/null\n+++ b/../x\n@@ -0,0 +1,1 @@\n+x\n"

abbrev climbing : List FilePatch
climbing =
    record {
      old_path = none;
      new_path = some (text "../x");
      hunks =
          record {
            old_start = 0;
            old_count = 0;
            new_start = 1;
            new_count = 1;
            lines = add (text "x") ∷ [];
            no_trailing_newline = false;
          }
          ∷ [];
      is_new_file = true;
      is_deleted_file = false;
      old_mode = none;
      new_mode = none;
      adds_exec_bit = false;
      is_binary = false;
      no_trailing_newline = false;
    }
    ∷ []

climbing_parsed : from_diff climbing_diff ≡ ok climbing
unfolding from_diff from_lines lines devit.Patch.Diff.file_loop devit.Patch.Diff.git_start
    devit.Text.starts_with devit.Patch.Diff.parse_plain_unified devit.Patch.Diff.plain_start
    devit.Patch.File.parse_file_patch devit.Patch.File.header_loop devit.Patch.File.header_line
    devit.Text.strip_prefix devit.Patch.File.hunk_loop devit.Patch.Hunk.parse_hunk
    devit.Patch.Hunk.parse_ranges devit.Text.split_whitespace devit.Patch.Hunk.hunk_content
    devit.Text.before_last_pair devit.Patch.Hunk.parse_range devit.Text.split_once
    devit.Patch.File.file_patch devit.Patch.File.header_path devit.Patch.File.mode_adds_exec
    devit.Patch.File.parse_mode devit.Patch.File.path_line devit.Patch.Hunk.collect
    devit.Patch.Hunk.is_boundary devit.Patch.Hunk.marker devit.Text.Number.digit
    devit.Text.Number.digits devit.Text.Number.from_str_radix devit.Text.Number.parse_usize
    devit.Text.before devit.Text.contains devit.Text.is_whitespace devit.Text.spaced devit.Text.trim
    devit.Text.trim_end devit.Text.trim_start devit.Text.trim_start_pair
climbing_parsed = refl

climbing_outside : all names_inside climbing ≡ false
unfolding is_absolute has_parent_dir
climbing_outside = refl

apply_patch-outside_example :
    (e : DevItError) × (apply_patch one_file (patcher false) climbing_diff content
      ≡ (err e, content))
apply_patch-outside_example =
    apply_patch-outside one_file (patcher false) climbing_diff climbing content climbing_parsed
      climbing_outside
