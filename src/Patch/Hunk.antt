-- ===== src/Patch/Hunk.antt =====
-- parse_hunk and parse_range. A position in the input is the index of its line, for the messages, and
-- the lines from there on.
use devit.Prelude.{
  ℕ, suc, ◌+◌, Bool, true, false, ◌&&◌, ◌||◌, Option, none, some, List, [], ◌∷◌, ltb, ◌==◌,
  if◌then◌else◌,
}
use devit.Text.{Text, text, starts_with, before_last_pair, split_whitespace, split_once, is_empty}
use devit.Text.Number.{parse_usize}
use devit.Errors.{
  Outcome, ok, err, ok_or, or_panic, ◌>>=◌, invalid_diff, invalid_hunk_header, invalid_range,
  invalid_range_start, invalid_range_count, empty_hunk,
}
use devit.Patch.Types.{PatchLine, context, add, remove, PatchHunk, is_old, is_new}

unfoldable pub parse_range : Text → Outcome (ℕ × ℕ)
parse_range range = elim (split_once b',' range) [
  | some (left, right) ↦ do
    start ← ok_or (parse_usize left) (invalid_diff (invalid_range_start range) none)
    count ← ok_or (parse_usize right) (invalid_diff (invalid_range_count range) none)
    ok (start, count)
  | none ↦ do
    start ← ok_or (parse_usize range) (invalid_diff (invalid_range range) none)
    ok (start, 1)
]

-- &s[1..], which panics unless the first character takes one byte
abbrev pub slice_from_1 : Text → Option Text
slice_from_1 [] = none
slice_from_1 (c ∷ s) = if ltb c 128 then some s else none

-- The text of the header up to the last `@@`.
unfoldable pub hunk_content : Text → Text
hunk_content header = elim (before_last_pair b'@' b'@' header) [
  | some before ↦ before
  | none ↦ header
]

-- The two ranges of a hunk header that stands at index `start`.
unfoldable pub parse_ranges : ℕ → Text → List Text → Outcome (record { old : ℕ × ℕ; new : ℕ × ℕ })
parse_ranges start header (at ∷ old_part ∷ new_part ∷ more) = do
  old_range ← or_panic (slice_from_1 old_part)
  new_range ← or_panic (slice_from_1 new_part)
  old ← parse_range old_range
  new ← parse_range new_range
  ok (record { old = old; new = new })
parse_ranges start header _ = err (invalid_diff (invalid_hunk_header header) (some (start + 1)))

abbrev pub next_starts_with : List Text → Text → Bool
next_starts_with [] p = false
next_starts_with (line ∷ rest) p = starts_with line p

-- The next hunk, the next file, or the next file of a plain diff.
unfoldable pub is_boundary : Text → List Text → Bool
is_boundary line rest =
    starts_with line (text "@@")
    || starts_with line (text "diff --git")
    || (starts_with line (text "--- ") && next_starts_with rest (text "+++ "))

-- What the first character of a line of a hunk says.
pub data Marker : Type 0 where
  body : PatchLine → Marker
  no_newline stop : Marker

unfoldable pub marker : Text → Marker
marker [] = stop
marker (c ∷ s) =
    if c == b' '
    then body (context s)
    else if c == b'+'
    then body (add s)
    else if c == b'-'
    then body (remove s)
    else if c == b'\\'
    then no_newline
    else stop

pub record Collected : Type 0 where
  pub hunk_lines : List PatchLine
  pub no_trailing_newline : Bool
  pub next_index : ℕ
  pub rest : List Text

abbrev pub stopped : ℕ → List Text → Collected
stopped i rest = record {
  hunk_lines = [];
  no_trailing_newline = false;
  next_index = i;
  rest = rest;
}

-- What a line adds to what is collected from the lines behind it.
abbrev pub collect_line : Marker → Collected → Collected → Collected
collect_line (body l) here later = record later { hunk_lines = l ∷ later.hunk_lines }
collect_line no_newline here later = record later { no_trailing_newline = true }
collect_line stop here later = here

-- The loop that collects the lines of a hunk.
unfoldable pub collect : ℕ → List Text → Collected
collect i [] = stopped i []
collect i (line ∷ rest) =
    let later = collect (i + 1) rest in
    let here = stopped i (line ∷ rest) in
    if is_boundary line rest then here else collect_line (marker line) here later

-- iter().filter(p).count()
abbrev pub count : (PatchLine → Bool) → List PatchLine → ℕ
count p [] = 0
count p (l ∷ ls) = if p l then suc (count p ls) else count p ls

pub record Parsed {ℓ} (A : Type ℓ) : Type ℓ where
  pub value : A
  pub next_index : ℕ
  pub rest : List Text

-- The header's counts only give rise to warnings: the actual counts are kept.
unfoldable pub parse_hunk : ℕ → Text → List Text → Outcome (Parsed PatchHunk)
parse_hunk start header rest = do
  ranges ← parse_ranges start header (split_whitespace (hunk_content header))
  let found = collect (start + 1) rest
  if is_empty found.hunk_lines
      then err (invalid_diff (empty_hunk (start + 1)) (some (start + 1)))
      else ok (record {
        value = record {
          old_start = ranges.old.0;
          old_count = count is_old found.hunk_lines;
          new_start = ranges.new.0;
          new_count = count is_new found.hunk_lines;
          lines = found.hunk_lines;
          no_trailing_newline = found.no_trailing_newline;
        };
        next_index = found.next_index;
        rest = found.rest;
      })
