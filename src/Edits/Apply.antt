-- ===== src/Edits/Apply.antt =====
-- fill_original_content and apply_hunks.
use devit.Prelude.{
  ℕ, ◌+◌, ◌-◌, Bool, true, false, ◌&&◌, List, [], ◌∷◌, ◌++◌, ltb, ◌==◌, min, if◌then◌else◌, length,
  take, drop,
}
use devit.Text.{Text, is_empty}
use devit.Text.Lines.{lines, join_lines}
use devit.Edits.Types.{EditHunk, pending, accepted, rejected, applied, usize_max}

-- `panicked` is the panic of a slice, `drain` or `splice` whose range ends before it starts.
pub data Outcome {ℓ} (A : Type ℓ) : Type ℓ where
  ok : A → Outcome A
  panicked : Outcome A

infixl 5 ◌>>=◌
abbrev pub ◌>>=◌ {ℓ κ} : {A : Type ℓ} {B : Type κ} → Outcome A → (A → Outcome B) → Outcome B
ok a >>= f = f a
panicked >>= f = panicked

-- lines[start..end], where `end` is at most the number of lines
unfoldable pub slice : List Text → ℕ → ℕ → Outcome (List Text)
slice ls start end = if ltb end start then panicked else ok (take (end - start) (drop start ls))

-- lines.splice(start..end, new_lines), and lines.drain(start..end) where there are no new lines
unfoldable pub splice : List Text → ℕ → ℕ → List Text → Outcome (List Text)
splice ls start end new_lines =
    if ltb end start then panicked else ok (take start ls ++ (new_lines ++ drop end ls))

-- lines.insert(at + i, line) for each line
unfoldable pub insert_each : List Text → ℕ → List Text → List Text
insert_each ls at [] = ls
insert_each ls at (l ∷ new_lines) = insert_each (take at ls ++ (l ∷ drop at ls)) (at + 1) new_lines

abbrev pub start_idx : EditHunk → ℕ
start_idx hunk = hunk.start_line - 1

abbrev pub end_idx : List Text → EditHunk → ℕ
end_idx ls hunk = min hunk.end_line (length ls)

unfoldable pub fill_hunk : Text → EditHunk → Outcome EditHunk
unfolding slice lines join_lines
fill_hunk file_content hunk =
    let ls = lines file_content in
    if hunk.end_line == usize_max
    then ok (record hunk { original = file_content; end_line = length ls })
    else if ltb (start_idx hunk) (length ls)
    then (slice ls (start_idx hunk) (end_idx ls hunk) >>= λ found.
        ok (record hunk { original = join_lines found }))
    else ok hunk

unfoldable pub fill_original_content : List EditHunk → Text → Outcome (List EditHunk)
unfolding fill_hunk
fill_original_content [] file_content = ok []
fill_original_content (hunk ∷ hunks) file_content = fill_hunk file_content hunk >>= λ filled.
    fill_original_content hunks file_content >>= λ rest. ok (filled ∷ rest)

abbrev pub is_accepted : EditHunk → Bool
is_accepted hunk = elim hunk.status [
  | pending ↦ false
  | accepted ↦ true
  | rejected ↦ false
  | applied ↦ false
]

unfoldable pub keep_accepted : List EditHunk → List EditHunk
keep_accepted [] = []
keep_accepted (h ∷ hs) = if is_accepted h then h ∷ keep_accepted hs else keep_accepted hs

-- Behind the hunks that start later or at the same line, so that the sort is stable.
unfoldable pub insert_sorted : EditHunk → List EditHunk → List EditHunk
insert_sorted h [] = h ∷ []
insert_sorted h (g ∷ gs) =
    if ltb h.start_line g.start_line then g ∷ insert_sorted h gs else h ∷ g ∷ gs

-- sort_by(|a, b| b.start_line.cmp(&a.start_line))
unfoldable pub sort_hunks : List EditHunk → List EditHunk
unfolding insert_sorted
sort_hunks [] = []
sort_hunks (h ∷ hs) = insert_sorted h (sort_hunks hs)

-- The body of the loop over the sorted hunks.
unfoldable pub apply_hunk : List Text → EditHunk → Outcome (List Text)
unfolding splice insert_each lines
apply_hunk ls hunk =
    if is_empty hunk.replacement
    then if ltb (start_idx hunk) (length ls)
      then splice ls (start_idx hunk) (end_idx ls hunk) []
      else ok ls
    else if is_empty hunk.original && (hunk.start_line == hunk.end_line)
    then ok (insert_each ls (min hunk.start_line (length ls)) (lines hunk.replacement))
    else if ltb (start_idx hunk) (length ls)
    then splice ls (start_idx hunk) (end_idx ls hunk) (lines hunk.replacement)
    else ok ls

unfoldable pub apply_each : List Text → List EditHunk → Outcome (List Text)
unfolding apply_hunk
apply_each ls [] = ok ls
apply_each ls (h ∷ hs) = apply_hunk ls h >>= λ ls'. apply_each ls' hs

unfoldable pub apply_sorted : Text → List EditHunk → Outcome Text
unfolding lines join_lines sort_hunks apply_each
apply_sorted original_content [] = ok original_content
apply_sorted original_content (h ∷ hs) =
    apply_each (lines original_content) (sort_hunks (h ∷ hs)) >>= λ ls. ok (join_lines ls)

unfoldable pub apply_hunks : Text → List EditHunk → Outcome Text
unfolding keep_accepted apply_sorted
apply_hunks original_content hunks = apply_sorted original_content (keep_accepted hunks)
