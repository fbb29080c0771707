-- ===== src/Edits/Examples.antt =====
-- Structured edits on concrete inputs.
use mathlib.Core.List.{Permᴰ}
use devit.Prelude.{◌≡◌, refl, true, [], ◌∷◌, ◌++◌, arith, length, ◌<◌, if◌then◌else◌}
use devit.Text.{Text, text, is_empty}
use devit.Text.Lines.{lines, join_lines}
use devit.Edits.Types.{
  EditHunk, insert_after, delete, replace_file, hunk_of, delete_lines, insert_after_line, accepted,
  usize_max,
}
use devit.Edits.Apply.{ok, apply_hunks, fill_original_content}
use devit.Edits.Order.{starts_apart, apply_hunks-perm}
use devit.Edits.Place.{Places, done, range, insertion, apply_hunks-Places}
use devit.Edits.Filled.{accept, fill-insert_after, fill-replace_file}

abbrev file_name : Text
file_name = text "a.rs"

abbrev content : Text
content = text "one\ntwo\nthree\n"

-- The first two lines are deleted, and a line is inserted behind the third.
abbrev delete_two : EditHunk
delete_two = record {
  id = (file_name, 0);
  file_path = file_name;
  start_line = 1;
  end_line = 2;
  original = [];
  replacement = [];
  description = delete_lines 1 2;
  status = accepted;
}

abbrev insert_four : EditHunk
insert_four = record {
  id = (file_name, 1);
  file_path = file_name;
  start_line = 3;
  end_line = 3;
  original = [];
  replacement = text "four";
  description = insert_after_line 3;
  status = accepted;
}

read_delete : accept (hunk_of file_name 0 (delete 1 2)) ≡ delete_two
unfolding hunk_of
read_delete = refl

read_insert : accept (hunk_of file_name 1 (insert_after 3 (text "four"))) ≡ insert_four
unfolding hunk_of
read_insert = refl

both_Places :
    Places 0 0 (delete_two ∷ insert_four ∷ []) (lines content) (text "three" ∷ text "four" ∷ [])
unfolding lines
both_Places =
    range [] (text "one" ∷ text "two" ∷ []) (text "three" ∷ []) (text "three" ∷ text "four" ∷ [])
      refl refl (omega arith) (omega arith) refl refl refl refl refl
      (insertion (text "three" ∷ []) [] [] refl refl (omega arith) refl refl refl refl done)

apply_hunks-Places_example :
    apply_hunks content (delete_two ∷ insert_four ∷ [])
    ≡ ok (join_lines (text "three" ∷ text "four" ∷ []))
apply_hunks-Places_example =
    apply_hunks-Places content delete_two (insert_four ∷ []) (text "three" ∷ text "four" ∷ [])
      both_Places

-- A list of two hunks that start at different lines.
two_apart : starts_apart (delete_two ∷ insert_four ∷ []) ≡ true
two_apart = refl

apply_hunks-perm_example :
    apply_hunks content (delete_two ∷ insert_four ∷ [])
    ≡ apply_hunks content (insert_four ∷ delete_two ∷ [])
apply_hunks-perm_example =
    apply_hunks-perm content (delete_two ∷ insert_four ∷ []) (insert_four ∷ delete_two ∷ [])
      (Permᴰ.swap refl refl) two_apart

content_lines : lines content ≡ (text "one" ∷ []) ++ (text "two" ∷ text "three" ∷ [])
unfolding lines
content_lines = refl

content_small : length (lines content) < usize_max
unfolding lines
content_small = omega arith

fill-insert_after_example :
    (filled : EditHunk) × (fill_original_content
        (hunk_of file_name 0 (insert_after 2 (text "new")) ∷ [])
        content
      ≡ ok (filled ∷ []))
    × (apply_hunks content (accept filled ∷ [])
        ≡ ok (join_lines ((text "one" ∷ []) ++ (lines (text "new") ++ (text "three" ∷ [])))))
fill-insert_after_example =
    fill-insert_after file_name 0 content (text "new") (text "two") (text "one" ∷ [])
      (text "three" ∷ []) content_lines refl content_small

fill-replace_file_example :
    (filled : EditHunk) × (fill_original_content
        (hunk_of file_name 0 (replace_file (text "new")) ∷ [])
        content
      ≡ ok (filled ∷ []))
    × (apply_hunks content (accept filled ∷ [])
        ≡ ok (if is_empty content then [] else join_lines (lines (text "new"))))
fill-replace_file_example = fill-replace_file file_name 0 content (text "new")
