-- ===== src/Patcher/Sequence.antt =====
-- Several hunks, and hunks taken back.
use devit.Prelude.{
  ℕ, ◌+◌, ◌≡◌, refl, sym, ap, ◌∙◌, Bool, List, [], ◌∷◌, ◌++◌, map, arith, length, length-append,
  append_assoc,
}
use devit.Text.{Text}
use devit.Errors.{ok}
use devit.Patch.Types.{PatchLine, context, add, remove, PatchHunk}
use devit.Patcher.Hunk.{start_index, apply_hunk_to_lines}
use devit.Patcher.Content.{apply_hunks, build_new_content, content_of}
use devit.Patcher.Sides.{old_side, new_side}
use devit.Patcher.Splice.{apply_hunk_to_lines-Splice}

-- The other way round.
abbrev pub swap_line : PatchLine → PatchLine
swap_line (context l) = context l
swap_line (add l) = remove l
swap_line (remove l) = add l

abbrev pub reverse_hunk : PatchHunk → PatchHunk
reverse_hunk hunk = record hunk { lines = map swap_line hunk.lines }

old_side-swap : (ls : List PatchLine) → old_side (map swap_line ls) ≡ new_side ls
old_side-swap [] = refl
old_side-swap (context l ∷ ls) = ap (◌∷◌ l) (old_side-swap ls)
old_side-swap (add l ∷ ls) = ap (◌∷◌ l) (old_side-swap ls)
old_side-swap (remove l ∷ ls) = old_side-swap ls

new_side-swap : (ls : List PatchLine) → new_side (map swap_line ls) ≡ old_side ls
new_side-swap [] = refl
new_side-swap (context l ∷ ls) = ap (◌∷◌ l) (new_side-swap ls)
new_side-swap (add l ∷ ls) = new_side-swap ls
new_side-swap (remove l ∷ ls) = ap (◌∷◌ l) (new_side-swap ls)

-- A hunk that applies can be taken back: the hunk with added and removed lines exchanged applies to
-- the result, and gives the old lines.
pub apply_hunk_to_lines-reverse_hunk :
    (lines result : List Text) (hunk : PatchHunk)
    → apply_hunk_to_lines lines hunk ≡ ok result
    → apply_hunk_to_lines result (reverse_hunk hunk) ≡ ok lines
apply_hunk_to_lines-reverse_hunk lines result hunk h =
    let (before, after, size, old, new) = (apply_hunk_to_lines-Splice lines hunk result).0 h in
    (apply_hunk_to_lines-Splice result (reverse_hunk hunk) lines).1 (
      before,
      after,
      size,
      new ∙ ap (λ side. before ++ (side ++ after)) (sym (old_side-swap hunk.lines)),
      old ∙ ap (λ side. before ++ (side ++ after)) (sym (new_side-swap hunk.lines)),
    )

-- From line `n` on, each hunk finds its old side at the place in the original lines that its start
-- names, in order and with no overlap; the result has every old side replaced.
pub data Splices : ℕ → List PatchHunk → List Text → List Text → Type 0 where
  done : {n : ℕ} {lines : List Text} → Splices n [] lines lines
  splice :
      {n m : ℕ} {hunk : PatchHunk} {hunks : List PatchHunk} {lines result : List Text}
      (keep rest rest' : List Text)
      → start_index hunk ≡ n + length keep
      → m ≡ n + length keep + length (old_side hunk.lines)
      → lines ≡ keep ++ (old_side hunk.lines ++ rest)
      → result ≡ keep ++ (new_side hunk.lines ++ rest')
      → Splices m hunks rest rest'
      → Splices n (hunk ∷ hunks) lines result

regroup :
    (before keep side rest : List Text)
    → before ++ (keep ++ (side ++ rest)) ≡ (before ++ (keep ++ side)) ++ rest
regroup before keep side rest = simp append_assoc

regroup_hunk :
    (before keep side rest : List Text)
    → (before ++ (keep ++ side)) ++ rest ≡ (before ++ keep) ++ (side ++ rest)
regroup_hunk before keep side rest = simp append_assoc

apply_hunks_cons :
    (hunk : PatchHunk) (hunks : List PatchHunk) (lines later result : List Text)
    → apply_hunks hunks lines ≡ ok later
    → apply_hunk_to_lines later hunk ≡ ok result
    → apply_hunks (hunk ∷ hunks) lines ≡ ok result
unfolding apply_hunks
apply_hunks_cons hunk hunks lines later result all here = rw all here

apply_hunks_from :
    {n : ℕ} {hunks : List PatchHunk} {lines result : List Text}
    → Splices n hunks lines result
    → (before : List Text) → length before ≡ n
    → apply_hunks hunks (before ++ lines) ≡ ok (before ++ result)
apply_hunks_from done before e = unfold apply_hunks in refl
apply_hunks_from
      (splice {n} {m} {hunk} {hunks} {lines} {result} keep rest rest' start next old new later)
      before e =
    combine (
      apply_hunks_from later (before ++ (keep ++ old_side hunk.lines)) (
        length-append before (keep ++ old_side hunk.lines)
        ∙ omega (arith, length-append keep (old_side hunk.lines))))
  where
    side : List Text
    side = old_side hunk.lines

    here :
        apply_hunk_to_lines ((before ++ (keep ++ side)) ++ rest') hunk
        ≡ ok ((before ++ keep) ++ (new_side hunk.lines ++ rest'))
    here = (apply_hunk_to_lines-Splice _ hunk _).1 (
      before ++ keep,
      rest',
      length-append before keep ∙ omega arith,
      regroup_hunk before keep side rest',
      refl,
    )

    combine :
        apply_hunks hunks ((before ++ (keep ++ side)) ++ rest)
          ≡ ok ((before ++ (keep ++ side)) ++ rest')
        → apply_hunks (hunk ∷ hunks) (before ++ lines) ≡ ok (before ++ result)
    combine all =
        ap (λ ls. apply_hunks (hunk ∷ hunks) (before ++ ls)) old
        ∙ ap (apply_hunks (hunk ∷ hunks)) (regroup before keep side rest)
        ∙ apply_hunks_cons hunk hunks _ _ _ all here
        ∙ ap ok
            (append_assoc before keep (new_side hunk.lines ++ rest') ∙ ap (◌++◌ before) (sym new))

-- Hunks whose starts refer to the original lines are all applied at their places, though the code
-- applies the last one first: the content is that of the lines with every old side replaced.
pub build_new_content-Splices :
    (hunks : List PatchHunk) (lines result : List Text) (trailing_newline : Bool)
    → Splices 0 hunks lines result
    → build_new_content hunks lines trailing_newline ≡ ok (content_of trailing_newline result)
build_new_content-Splices hunks lines result trailing_newline s =
    unfold build_new_content in rw (apply_hunks_from s [] refl) refl
