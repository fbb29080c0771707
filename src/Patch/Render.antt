-- ===== src/Patch/Render.antt =====
-- Hunks written out and read back.
use devit.Prelude.{
  ℕ, suc, ◌+◌, ◌≡◌, refl, ap, ◌∙◌, Bool, true, false, not, ◌&&◌, ◌||◌, List, [], ◌∷◌, ◌++◌, map,
  arith, length, Bool-cases, inl, inr,
}
use devit.Text.{Text, text, starts_with, split_whitespace}
use devit.Errors.{ok}
use devit.Patch.Types.{PatchLine, context, add, remove, is_old, is_new}
use devit.Patch.Hunk.{
  Collected, Marker, body, no_newline, stop, collect, collect_line, stopped, marker, count,
  is_boundary, parse_hunk, parse_ranges, next_starts_with, hunk_content,
}

-- A line of a hunk as it stands in a diff.
unfoldable pub render_line : PatchLine → Text
render_line (context t) = b' ' ∷ t
render_line (add t) = b'+' ∷ t
render_line (remove t) = b'-' ∷ t

abbrev pub no_newline_line : Text
no_newline_line = text "\\ No newline at end of file"

-- The lines of a hunk, with the marker of a missing newline behind them or not.
abbrev pub render_tail : Bool → List Text → List Text
render_tail true rest = no_newline_line ∷ rest
render_tail false rest = rest

abbrev pub render_body : List PatchLine → Bool → List Text → List Text
render_body ls flag rest = map render_line ls ++ render_tail flag rest

-- A removed line that reads like `--- `.
abbrev pub is_removed_rule : PatchLine → Bool
is_removed_rule (context t) = false
is_removed_rule (add t) = false
is_removed_rule (remove t) = starts_with t (text "-- ")

-- No removed line that reads like `--- ` stands before a line that reads like `+++ `.
abbrev pub is_unambiguous : List PatchLine → List Text → Bool
is_unambiguous [] rest = true
is_unambiguous (l ∷ ls) rest =
    not (is_removed_rule l && next_starts_with (map render_line ls ++ rest) (text "+++ "))
    && is_unambiguous ls rest

abbrev is_stop : Marker → Bool
is_stop (body l) = false
is_stop no_newline = false
is_stop stop = true

-- No more line of the hunk can stand here.
abbrev pub ends_hunk : List Text → Bool
ends_hunk [] = true
ends_hunk (line ∷ rest) = is_boundary line rest || is_stop (marker line)

marker-render_line : (l : PatchLine) → marker (render_line l) ≡ body l
unfolding marker render_line
marker-render_line (context t) = refl
marker-render_line (add t) = refl
marker-render_line (remove t) = refl

is_boundary-render_line :
    (l : PatchLine) (rest : List Text)
    → is_boundary (render_line l) rest ≡ (is_removed_rule l && next_starts_with rest (text "+++ "))
unfolding is_boundary render_line starts_with
is_boundary-render_line (context t) rest = refl
is_boundary-render_line (add t) rest = refl
is_boundary-render_line (remove t) rest = refl

abbrev pub read_back : List PatchLine → Bool → ℕ → List Text → Collected
read_back ls flag i rest = record {
  hunk_lines = ls;
  no_trailing_newline = flag;
  next_index = i;
  rest = rest;
}

collect_end :
    (i : ℕ) (rest : List Text) → ends_hunk rest ≡ true → collect i rest ≡ read_back [] false i rest
unfolding collect
collect_end i [] h = refl
collect_end i (line ∷ rest) h = elim (Bool-cases (is_boundary line rest)) [
  | inl boundary ↦ rw boundary
  | inr other ↦ rw other (stops (marker line) (rw other at h))
]
  where
    stops :
        (m : Marker)
        → (false || is_stop m) ≡ true
        → collect_line m (stopped i (line ∷ rest)) (collect (i + 1) rest) ≡ stopped i (line ∷ rest)
    stops (body l) e = cc
    stops no_newline e = cc
    stops stop e = refl

abbrev marked : Bool → ℕ
marked true = 1
marked false = 0

collect_tail :
    (i : ℕ) (flag : Bool) (rest : List Text)
    → ends_hunk rest ≡ true
    → collect i (render_tail flag rest) ≡ read_back [] flag (i + marked flag) rest
collect_tail i true rest h =
    unfold collect is_boundary marker starts_with in
    ap (λ (c : Collected). record c { no_trailing_newline = true }) (collect_end (i + 1) rest h)
collect_tail i false rest h =
    collect_end i rest h ∙ ap (λ n. read_back [] false n rest) (omega arith)

collect_step :
    (i : ℕ) (l : PatchLine) (tail : List Text) (c : Collected)
    → (is_removed_rule l && next_starts_with tail (text "+++ ")) ≡ false
    → collect (i + 1) tail ≡ c
    → collect i (render_line l ∷ tail) ≡ record c { hunk_lines = l ∷ c.hunk_lines }
unfolding collect
collect_step i l tail c clear later =
    rw (is_boundary-render_line l tail, clear, marker-render_line l)
      (ap (λ (found : Collected). record found { hunk_lines = l ∷ found.hunk_lines }) later)

-- The collecting loop reads back every line of a hunk that was written out, and the marker of a
-- missing newline, and stops where the hunk ends, provided no two lines of it read like the `---` and
-- `+++` of another file.
pub collect-render_body :
    (i : ℕ) (ls : List PatchLine) (flag : Bool) (rest : List Text)
    → is_unambiguous ls (render_tail flag rest) ≡ true
    → ends_hunk rest ≡ true
    → collect i (render_body ls flag rest) ≡ read_back ls flag (i + length ls + marked flag) rest
collect-render_body i [] flag rest u h =
    collect_tail i flag rest h ∙ ap (λ n. read_back [] flag n rest) (omega arith)
collect-render_body i (l ∷ ls) flag rest u h =
    collect_step i l (render_body ls flag rest)
      (read_back ls flag (i + suc (length ls) + marked flag) rest) (ground arith)
      (collect-render_body (i + 1) ls flag rest (ground arith) h
        ∙ ap (λ n. read_back ls flag n rest) (omega arith))

-- A hunk with at least one line that is written out behind a header whose ranges parse is read back,
-- on two conditions: no removed line that reads like `--- ` stands before a line that reads like
-- `+++ `, and what follows is empty or starts with a line that ends a hunk. Then its starts are those
-- of the header, its counts those of its lines, and the rest of the input is what stood behind it.
pub parse_hunk-render_body :
    (i : ℕ) (header : Text) (ranges : record { old : ℕ × ℕ; new : ℕ × ℕ }) (l : PatchLine)
    (ls : List PatchLine) (flag : Bool) (rest : List Text)
    → parse_ranges i header (split_whitespace (hunk_content header)) ≡ ok ranges
    → is_unambiguous (l ∷ ls) (render_tail flag rest) ≡ true
    → ends_hunk rest ≡ true
    → parse_hunk i header (render_body (l ∷ ls) flag rest)
      ≡ ok (record {
        value = record {
          old_start = ranges.old.0;
          old_count = count is_old (l ∷ ls);
          new_start = ranges.new.0;
          new_count = count is_new (l ∷ ls);
          lines = l ∷ ls;
          no_trailing_newline = flag;
        };
        next_index = i + 1 + length (l ∷ ls) + marked flag;
        rest = rest;
      })
unfolding parse_hunk
parse_hunk-render_body i header ranges l ls flag rest e u h =
    rw (e, collect-render_body (i + 1) (l ∷ ls) flag rest u h) refl

-- A removed line that reads like `--- ` before an added one that reads like `+++ ` ends the hunk: the
-- loop keeps only the lines before the two, and leaves the two and all behind them unread.
pub collect-removed_rule :
    (i : ℕ) (ls : List PatchLine) (a b : Text) (rest : List Text)
    → let pair =
        render_line (remove (text "-- " ++ a)) ∷ render_line (add (text "++ " ++ b)) ∷ rest in
      is_unambiguous ls pair ≡ true
      → collect i (map render_line ls ++ pair) ≡ read_back ls false (i + length ls + 0) pair
collect-removed_rule i ls a b rest u =
    collect-render_body i ls false
      (render_line (remove (text "-- " ++ a)) ∷ render_line (add (text "++ " ++ b)) ∷ rest) u
      (unfold is_boundary render_line starts_with in refl)
