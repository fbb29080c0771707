-- ===== src/Edits/Filled.antt =====
-- An edit from its reading to its application: filled with the original lines, accepted, applied.
use devit.Prelude.{
  ℕ, zero, suc, ◌+◌, ◌-◌, ◌≤◌, ◌<◌, ◌≡◌, refl, sym, ap, ap₂, ◌∙◌, Bool, true, false, List, [], ◌∷◌,
  ◌++◌, ltb, ◌==◌, min, arith, length, take, drop, length-append, drop-append, append-nil,
  if◌then◌else◌, Bool-cases, inl, inr, map,
}
use devit.Text.{Text, is_empty}
use devit.Text.Lines.{lines, join_lines, segments, line_of, cons_segment}
use devit.Edits.Types.{EditHunk, insert_after, replace_file, hunk_of, accepted, usize_max}
use devit.Edits.Apply.{
  ok, ◌>>=◌, slice, fill_hunk, fill_original_content, apply_hunks, apply_sorted, apply_each,
  apply_hunk, sort_hunks, insert_sorted, keep_accepted,
}
use devit.Edits.Place.{range, done, apply_hunks-Places}

abbrev pub accept : EditHunk → EditHunk
accept hunk = record hunk { status = accepted }

fill_one :
    (hunk filled : EditHunk) (content : Text)
    → fill_hunk content hunk ≡ ok filled
    → fill_original_content (hunk ∷ []) content ≡ ok (filled ∷ [])
unfolding fill_original_content
fill_one hunk filled content e = rw e refl

abbrev filled_insert : Text → ℕ → ℕ → Text → Text → EditHunk
filled_insert file idx after_line text l =
    record (hunk_of file idx (insert_after after_line text)) { original = l }

slice_one :
    (before after : List Text) (l : Text) (start end : ℕ)
    → length before ≡ start
    → end ≡ start + 1
    → slice (before ++ (l ∷ after)) start end ≡ ok (l ∷ [])
unfolding slice
slice_one before after l start end e f =
    let ordered : ltb end start ≡ false = ground arith in
    rw ordered (
      ap ok (
        ap₂ take {y = suc zero} (omega arith)
          (ap (λ n. drop n (before ++ (l ∷ after))) (sym e) ∙ drop-append before (l ∷ after))))

fill_insert :
    (file : Text) (idx : ℕ) (content text l : Text) (before after : List Text)
    → lines content ≡ before ++ (l ∷ after)
    → length (lines content) < usize_max
    → fill_hunk content (hunk_of file idx (insert_after (length before + 1) text))
      ≡ ok (filled_insert file idx (length before + 1) text l)
unfolding fill_hunk hunk_of
fill_insert file idx content text l before after e small =
    let size : length (lines content) ≡ length before + suc (length after) =
      ap length e ∙ length-append before (l ∷ after) in
    let marker : (length before + 1 == usize_max) ≡ false = ground (arith, size, small) in
    let inside : ltb (length before + 1 - 1) (length (lines content)) ≡ true =
      ground (arith, size) in
    rw (marker, inside)
      (ap
        (λ r. r >>= λ found. ok (record (hunk_of file idx (insert_after (length before + 1) text)) {
          original = join_lines found;
        }))
        (ap
            (λ ls.
              slice ls (length before + 1 - 1) (min (length before + 1) (length (lines content))))
            e
          ∙ slice_one before after l _ _ (omega arith) (omega (arith, size))))

-- An edit that inserts behind a line that is not empty, filled with the original content, accepted and
-- applied, takes the place of that line: the line is gone from the result.
pub fill-insert_after :
    (file : Text) (idx : ℕ) (content text l : Text) (before after : List Text)
    → lines content ≡ before ++ (l ∷ after)
    → is_empty l ≡ false
    → length (lines content) < usize_max
    → (filled : EditHunk) × (fill_original_content
          (hunk_of file idx (insert_after (length before + 1) text) ∷ [])
          content
        ≡ ok (filled ∷ []))
      × (apply_hunks content (accept filled ∷ [])
          ≡ ok (join_lines (before ++ (lines text ++ after))))
fill-insert_after file idx content text l before after e full small = (
  filled_insert file idx (length before + 1) text l,
  fill_one _ _ content (fill_insert file idx content text l before after e small),
  apply_hunks-Places content (accept (filled_insert file idx (length before + 1) text l)) [] _ (
      unfold hunk_of in
      range {b = 0} {n = 0} {hunk = accept (filled_insert file idx (length before + 1) text l)}
        before (l ∷ []) after after refl (ground (arith, full)) (omega arith) (omega arith)
        (omega arith) (omega arith) refl e refl done),
)

abbrev filled_file : Text → ℕ → Text → Text → EditHunk
filled_file file idx content text = record (hunk_of file idx (replace_file text)) {
  original = content;
  end_line = length (lines content);
}

fill_file :
    (file : Text) (idx : ℕ) (content text : Text)
    → fill_hunk content (hunk_of file idx (replace_file text))
      ≡ ok (filled_file file idx content text)
unfolding fill_hunk hunk_of
fill_file file idx content text = refl

lines-cons : (c : ℕ) (s : Text) → suc zero ≤ length (lines (c ∷ s))
unfolding lines segments
lines-cons c s = elim (Bool-cases (c == b'\n')) [
  | inl newline ↦ rw newline (omega arith)
  | inr other ↦ rw other (first (segments s))
]
  where
    first : (rest : List (Text × Bool)) → suc zero ≤ length (map line_of (cons_segment c rest))
    first [] = omega arith
    first (r ∷ rest) = omega arith

apply_file :
    (file : Text) (idx : ℕ) (content text : Text)
    → apply_hunks content (accept (filled_file file idx content text) ∷ [])
      ≡ ok (if is_empty content then [] else join_lines (lines text))
apply_file file idx [] [] =
    unfold apply_hunks apply_sorted keep_accepted sort_hunks insert_sorted apply_each apply_hunk
      hunk_of lines segments join_lines in
    refl
apply_file file idx [] (d ∷ t) =
    unfold apply_hunks apply_sorted keep_accepted sort_hunks insert_sorted apply_each apply_hunk
      hunk_of lines segments join_lines in
    refl
apply_file file idx (c ∷ s) text =
    apply_hunks-Places (c ∷ s) (accept (filled_file file idx (c ∷ s) text)) [] (lines text) (
      unfold hunk_of in
      range {b = 0} {n = 0} {hunk = accept (filled_file file idx (c ∷ s) text)} [] (lines (c ∷ s))
        [] [] refl (ground arith) (lines-cons c s) (omega arith) refl (omega arith) refl
        (sym (append-nil (lines (c ∷ s)))) (sym (append-nil (lines text))) done)

-- An edit that replaces the file, filled, accepted and applied, gives the lines of the new content,
-- except where the original content is empty: there the file stays empty.
pub fill-replace_file :
    (file : Text) (idx : ℕ) (content text : Text)
    → (filled : EditHunk) × (fill_original_content
          (hunk_of file idx (replace_file text) ∷ [])
          content
        ≡ ok (filled ∷ []))
      × (apply_hunks content (accept filled ∷ [])
          ≡ ok (if is_empty content then [] else join_lines (lines text)))
fill-replace_file file idx content text = (
  filled_file file idx content text,
  fill_one _ _ content (fill_file file idx content text),
  apply_file file idx content text,
)
