-- ===== src/Edits/Ranges.antt =====
-- What one hunk does to the lines that it names.
use devit.Prelude.{
  ℕ, zero, suc, ◌+◌, ◌≤◌, ◌≡◌, refl, sym, ap, ap₂, ◌∙◌, Bool, true, false, not, ◌&&◌, List, [], ◌∷◌,
  ◌++◌, ltb, ◌==◌, min, arith, length, take, drop, length-append, take-append, drop-append,
  append_assoc, Bool-cases, inl, inr,
}
use devit.Text.{Text, is_empty}
use devit.Text.Lines.{lines}
use devit.Edits.Types.{EditHunk}
use devit.Edits.Apply.{ok, start_idx, end_idx, splice, insert_each, apply_hunk}

-- The calls of `insert` put the new lines side by side.
insert_each_lem :
    (before new_lines after : List Text) (at : ℕ)
    → length before ≡ at
    → insert_each (before ++ after) at new_lines ≡ before ++ (new_lines ++ after)
unfolding insert_each
insert_each_lem before [] after at e = refl
insert_each_lem before (l ∷ ls) after at e =
    ap (λ x. insert_each x (at + 1) ls)
      (ap₂ (λ a b. a ++ (l ∷ b))
          (ap (λ n. take n (before ++ after)) (sym e) ∙ take-append before after)
          (ap (λ n. drop n (before ++ after)) (sym e) ∙ drop-append before after)
        ∙ sym (append_assoc before (l ∷ []) after))
    ∙ insert_each_lem (before ++ l ∷ []) ls after (at + 1)
        (length-append before (l ∷ []) ∙ omega (arith, e))
    ∙ append_assoc before (l ∷ []) (ls ++ after)

-- A range between two parts is replaced.
splice_lem :
    (before old new_lines after : List Text) (start end : ℕ)
    → length before ≡ start
    → start + length old ≡ end
    → splice (before ++ (old ++ after)) start end new_lines ≡ ok (before ++ (new_lines ++ after))
unfolding splice
splice_lem before old new_lines after start end e f =
    let ordered : ltb end start ≡ false = ground (arith, f) in
    rw ordered (
      ap ok (
        ap₂ (λ a b. a ++ (new_lines ++ b))
          (ap (λ n. take n (before ++ (old ++ after))) (sym e) ∙ take-append before (old ++ after))
          (ap₂ drop (sym f ∙ ap (λ n. n + length old) (sym e) ∙ sym (length-append before old))
              (sym (append_assoc before old after))
            ∙ drop-append (before ++ old) after)))

-- An insertion, rather than a replacement or a deletion.
abbrev pub inserts : EditHunk → Bool
inserts hunk =
    not (is_empty hunk.replacement)
    && (is_empty hunk.original && (hunk.start_line == hunk.end_line))

lines_nil : lines [] ≡ []
unfolding lines
lines_nil = refl

empty_lines : (t : Text) → is_empty t ≡ true → lines t ≡ []
empty_lines [] e = lines_nil
empty_lines (c ∷ t) e = cc

-- A hunk that names a range of lines replaces it.
pub apply_hunk-range :
    (before old after : List Text) (hunk : EditHunk)
    → inserts hunk ≡ false
    → suc zero ≤ length old
    → hunk.start_line ≡ length before + 1
    → hunk.end_line ≡ length before + length old
    → apply_hunk (before ++ (old ++ after)) hunk ≡ ok (before ++ (lines hunk.replacement ++ after))
unfolding apply_hunk
apply_hunk-range before old after hunk i some_line e f =
    elim (Bool-cases (is_empty hunk.replacement)) [
      | inl empty ↦
          rw (empty, inside, empty_lines hunk.replacement empty)
            (splice_lem before old [] after (start_idx hunk) (end_idx ls hunk) (omega (arith, e))
              ends)
      | inr full ↦
          let apart : (is_empty hunk.original && (hunk.start_line == hunk.end_line)) ≡ false =
            ground (arith, i, full) in
          rw (full, apart, inside)
            (splice_lem before old (lines hunk.replacement) after (start_idx hunk) (end_idx ls hunk)
              (omega (arith, e)) ends)
    ]
  where
    ls : List Text
    ls = before ++ (old ++ after)

    size : length ls ≡ length before + (length old + length after)
    size =
        length-append before (old ++ after) ∙ ap (λ n. length before + n) (length-append old after)

    inside : ltb (start_idx hunk) (length ls) ≡ true
    inside = ground (arith, size, e, some_line)

    ends : start_idx hunk + length old ≡ end_idx ls hunk
    ends = omega (arith, size, e, f)

-- A hunk that inserts puts its lines behind the line that it names.
pub apply_hunk-insertion :
    (before after : List Text) (hunk : EditHunk)
    → inserts hunk ≡ true
    → hunk.start_line ≡ length before
    → apply_hunk (before ++ after) hunk ≡ ok (before ++ (lines hunk.replacement ++ after))
unfolding apply_hunk
apply_hunk-insertion before after hunk i e =
    let full : is_empty hunk.replacement ≡ false = ground (arith, i) in
    let same : (is_empty hunk.original && (hunk.start_line == hunk.end_line)) ≡ true =
      ground (arith, i) in
    rw (full, same)
      (ap ok (
        insert_each_lem before (lines hunk.replacement) after
          (min hunk.start_line (length (before ++ after)))
          (omega (arith, e, length-append before after))))
