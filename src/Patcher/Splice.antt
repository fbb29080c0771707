-- ===== src/Patcher/Splice.antt =====
-- What applying a hunk means for the lines.
use devit.Prelude.{
  ℕ, ◌+◌, ◌≤◌, ◌≡◌, sym, ap, ap₂, ◌∙◌, ◌↔◌, true, false, List, [], ◌∷◌, ◌++◌, arith, ltb, min,
  length, take, drop, length-append, take-append-drop, length-take, take-append, drop-append,
  append_assoc, append-nil, Bool-cases, inl, inr, drop-drop,
}
use devit.Text.{Text}
use devit.Errors.{ok}
use devit.Patch.Types.{PatchLine, context, add, remove, PatchHunk}
use devit.Patcher.Hunk.{start_index, validate, rebuild, copy_rest, apply_hunk_to_lines}
use devit.Patcher.Sides.{old_side, new_side, bind-eq-ok, validate-finds, validate-accepts}

rebuild_lem :
    (acc : List Text) (i : ℕ) (ls : List PatchLine)
    → rebuild acc i ls ≡ (acc ++ new_side ls, i + length (old_side ls))
unfolding rebuild
rebuild_lem acc i [] = ap₂ (λ a n. (a, n)) (sym (append-nil acc)) (omega arith)
rebuild_lem acc i (context l ∷ ls) =
    rebuild_lem (acc ++ l ∷ []) (i + 1) ls
    ∙ ap₂ (λ a n. (a, n)) (append_assoc acc (l ∷ []) (new_side ls)) (omega arith)
rebuild_lem acc i (remove l ∷ ls) =
    rebuild_lem acc (i + 1) ls ∙ ap (λ n. (acc ++ new_side ls, n)) (omega arith)
rebuild_lem acc i (add l ∷ ls) =
    rebuild_lem (acc ++ l ∷ []) i ls
    ∙ ap (λ a. (a, i + length (old_side ls))) (append_assoc acc (l ∷ []) (new_side ls))

-- `result` is `lines` with the old side at index `n` replaced by the new side.
abbrev pub Splice : ℕ → List PatchLine → List Text → List Text → Type 0
Splice n ls lines result =
    (before : List Text) × (after : List Text) × (length before ≡ n)
    × (lines ≡ before ++ (old_side ls ++ after))
    × (result ≡ before ++ (new_side ls ++ after))

copy_rest-ok :
    (lines new_lines : List Text) (i : ℕ) (result : List Text)
    → copy_rest lines (new_lines, i) ≡ ok result
    → (i ≤ length lines) × (result ≡ new_lines ++ drop i lines)
copy_rest-ok lines new_lines i result h = (ground arith, ground arith)

apply-Splice :
    (lines : List Text) (hunk : PatchHunk) (result : List Text)
    → apply_hunk_to_lines lines hunk ≡ ok result
    → Splice (start_index hunk) hunk.lines lines result
unfolding apply_hunk_to_lines
apply-Splice lines hunk result h = elim (Bool-cases (ltb (length lines) (start_index hunk))) [
  | inl past ↦ absurd (failed past)
  | inr inside ↦ found inside
]
  where
    start : ℕ
    start = start_index hunk

    side : List Text
    side = old_side hunk.lines

    failed : ltb (length lines) start ≡ true → ⊥
    failed past = cc (rw past at h)

    found : ltb (length lines) start ≡ false → Splice start hunk.lines lines result
    found inside =
        let fits : start ≤ length lines = ground arith in
        let both = bind-eq-ok (validate lines start hunk.lines) _ (rw inside at h) in
        let copied =
          copy_rest-ok lines (take (min start (length lines)) lines ++ new_side hunk.lines)
            (start + length side) result
            (sym (
                ap (copy_rest lines)
                  (rebuild_lem (take (min start (length lines)) lines) start hunk.lines))
              ∙ both.1) in
        (
          take start lines,
          drop (start + length side) lines,
          length-take start lines fits,
          sym (take-append-drop start lines)
              ∙ ap (◌++◌ (take start lines))
                  (validate-finds lines start hunk.lines copied.0 both.0),
          copied.1
              ∙ ap (λ n. (take n lines ++ new_side hunk.lines) ++ drop (start + length side) lines)
                  {y = start} (omega arith)
              ∙ append_assoc (take start lines) (new_side hunk.lines)
                  (drop (start + length side) lines),
        )

Splice-apply :
    (before after : List Text) (hunk : PatchHunk)
    → length before ≡ start_index hunk
    → apply_hunk_to_lines (before ++ (old_side hunk.lines ++ after)) hunk
      ≡ ok (before ++ (new_side hunk.lines ++ after))
unfolding apply_hunk_to_lines
Splice-apply before after hunk e = rw (inside, valid, rebuilt) (rw fits (ap ok tail))
  where
    side : List Text
    side = old_side hunk.lines

    lines : List Text
    lines = before ++ (side ++ after)

    size : length lines ≡ length before + (length side + length after)
    size =
        length-append before (side ++ after)
        ∙ ap (λ n. length before + n) (length-append side after)

    inside : ltb (length lines) (start_index hunk) ≡ false
    inside = ground (arith, size)

    valid : validate lines (start_index hunk) hunk.lines ≡ ok tt
    valid =
        validate-accepts lines (start_index hunk) hunk.lines after
          (ap (λ n. drop n lines) (sym e) ∙ drop-append before (side ++ after))

    rebuilt :
        rebuild (take (min (start_index hunk) (length lines)) lines) (start_index hunk) hunk.lines
        ≡ (before ++ new_side hunk.lines, start_index hunk + length side)
    rebuilt =
        rebuild_lem (take (min (start_index hunk) (length lines)) lines) (start_index hunk)
          hunk.lines
        ∙ ap (λ b. (b ++ new_side hunk.lines, start_index hunk + length side))
            (ap (λ n. take n lines) {y = length before} (omega (arith, size))
              ∙ take-append before (side ++ after))

    fits : ltb (length lines) (start_index hunk + length side) ≡ false
    fits = ground (arith, size)

    tail :
        (before ++ new_side hunk.lines) ++ drop (start_index hunk + length side) lines
        ≡ before ++ (new_side hunk.lines ++ after)
    tail =
        ap (◌++◌ (before ++ new_side hunk.lines)) (
          ap (λ n. drop (n + length side) lines) (sym e)
          ∙ sym (drop-drop (length before) (length side) lines)
          ∙ ap (drop (length side)) (drop-append before (side ++ after))
          ∙ drop-append side after)
        ∙ append_assoc before (new_side hunk.lines) after

-- Applying a hunk succeeds exactly where the lines hold the old side of the hunk at its start, and the
-- result is then the lines with the new side in its place.
pub apply_hunk_to_lines-Splice :
    (lines : List Text) (hunk : PatchHunk) (result : List Text)
    → (apply_hunk_to_lines lines hunk ≡ ok result)
      ↔ Splice (start_index hunk) hunk.lines lines result
apply_hunk_to_lines-Splice lines hunk result = (
  apply-Splice lines hunk result,
  (λ (before, after, e, old, new).
      ap (λ ls. apply_hunk_to_lines ls hunk) old
      ∙ Splice-apply before after hunk e
      ∙ ap ok (sym new)),
)
