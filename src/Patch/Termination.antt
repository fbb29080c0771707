-- ===== src/Patch/Termination.antt =====
-- The loops of the parser and the lines that they take.
use devit.Prelude.{
  ℕ, zero, suc, ◌+◌, ◌≤◌, ◌≡◌, ◌≢◌, refl, Bool, true, false, Option, none, some, List, [], ◌∷◌,
  arith, length, Bool-cases, Option-cases, inl, inr, subst,
}
use devit.Text.{Text, text, trim, starts_with, strip_prefix, split_once, split_whitespace}
use devit.Text.Lines.{lines}
use devit.Errors.{Outcome, ok, err, panicked, no_fuel, ok_or, or_panic, ◌>>=◌, DevItError}
use devit.Patch.Hunk.{
  Parsed, collect, parse_hunk, parse_ranges, parse_range, slice_from_1, hunk_content,
}
use devit.Patch.File.{
  Header, next, leave, header_loop, header_line, hunk_loop, parse_file_patch, empty_header,
  parse_mode,
}
use devit.Patch.Diff.{file_loop, git_start, plain_start, from_lines, from_diff, parse_plain_unified}

-- The code came to an end, and what it left fits.
abbrev pub Ends {ℓ} : {A : Type ℓ} → (A → Type 0) → Outcome A → Type 0
Ends P (ok a) = P a
Ends P (err e) = Unit
Ends P panicked = Unit
Ends P no_fuel = ⊥

Ends-bind {ℓ κ} :
    {A : Type ℓ} {B : Type κ} (P : A → Type 0) (Q : B → Type 0) (m : Outcome A) (f : A → Outcome B)
    → Ends P m
    → ((a : A) → P a → Ends Q (f a))
    → Ends Q (m >>= f)
Ends-bind P Q (ok a) f h k = k a h
Ends-bind P Q (err e) f h k = tt
Ends-bind P Q panicked f h k = tt
Ends-bind P Q no_fuel f h k = elim h [ ]

-- Nothing is asked of the result.
abbrev Any {ℓ} : {A : Type ℓ} → A → Type 0
Any a = Unit {0}

Ends-ok_or {ℓ} : {A : Type ℓ} (o : Option A) (e : DevItError) → Ends Any (ok_or o e)
Ends-ok_or none e = tt
Ends-ok_or (some a) e = tt

Ends-or_panic {ℓ} : {A : Type ℓ} (o : Option A) → Ends Any (or_panic o)
Ends-or_panic none = tt
Ends-or_panic (some a) = tt

parse_range-Ends : (range : Text) → Ends Any (parse_range range)
unfolding parse_range
parse_range-Ends range = ground (arith, Option-cases (split_once b',' range))

parse_ranges-Ends :
    (start : ℕ) (header : Text) (parts : List Text) → Ends Any (parse_ranges start header parts)
unfolding parse_ranges
parse_ranges-Ends start header [] = tt
parse_ranges-Ends start header (at ∷ []) = tt
parse_ranges-Ends start header (at ∷ old_part ∷ []) = tt
parse_ranges-Ends start header (at ∷ old_part ∷ new_part ∷ more) =
    Ends-bind Any Any (or_panic (slice_from_1 old_part)) _ (Ends-or_panic (slice_from_1 old_part))
      λ old_range _.
        Ends-bind Any Any (or_panic (slice_from_1 new_part)) _
          (Ends-or_panic (slice_from_1 new_part))
          λ new_range _.
            Ends-bind Any Any (parse_range old_range) _ (parse_range-Ends old_range) λ old _.
              Ends-bind Any Any (parse_range new_range) _ (parse_range-Ends new_range) λ new _. tt

-- What a step leaves is no longer than `n` lines.
abbrev pub Leaves {ℓ} : {A : Type ℓ} → ℕ → Parsed A → Type 0
Leaves n p = length p.rest ≤ n

collect-rest : (i : ℕ) (rest : List Text) → length (collect i rest).rest ≤ length rest
unfolding collect
collect-rest i [] = omega arith
collect-rest i (line ∷ rest) = ground (arith, collect-rest (i + 1) rest)

parse_hunk-Ends :
    (start : ℕ) (header : Text) (rest : List Text)
    → Ends (Leaves (length rest)) (parse_hunk start header rest)
unfolding parse_hunk
parse_hunk-Ends start header rest =
    Ends-bind Any (Leaves (length rest))
      (parse_ranges start header (split_whitespace (hunk_content header))) _
      (parse_ranges-Ends start header (split_whitespace (hunk_content header)))
      λ ranges _. ground (arith, collect-rest (start + 1) rest)

Leaves-mono {ℓ} :
    {A : Type ℓ} (m n : ℕ) (o : Outcome (Parsed A)) → m ≤ n → Ends (Leaves m) o → Ends (Leaves n) o
Leaves-mono m n (ok p) h e = omega arith
Leaves-mono m n (err x) h e = tt
Leaves-mono m n panicked h e = tt
Leaves-mono m n no_fuel h e = elim e [ ]

hunk_loop-Ends :
    (fuel i : ℕ) (rest : List Text)
    → length rest ≤ fuel
    → Ends (Leaves (length rest)) (hunk_loop fuel i rest)
unfolding hunk_loop
hunk_loop-Ends fuel i [] h = omega arith
hunk_loop-Ends zero i (line ∷ rest) h = omega arith
hunk_loop-Ends (suc fuel) i (line ∷ rest) h = elim (Bool-cases (starts_with line (text "@@"))) [
  | inr other ↦ rw (other, hunk_loop) (omega arith)
  | inl hunk ↦
      rw (hunk, hunk_loop)
        (Ends-bind (Leaves (length rest)) (Leaves (suc (length rest))) (parse_hunk i line rest) _
          (parse_hunk-Ends i line rest)
          λ p shorter.
            Ends-bind (Leaves (length p.rest)) (Leaves (suc (length rest)))
              (hunk_loop fuel p.next_index p.rest) _
              (hunk_loop-Ends fuel p.next_index p.rest (omega arith)) λ q left. omega arith)
]

parse_mode-Ends : (value : Text) (i : ℕ) → Ends Any (parse_mode value i)
unfolding parse_mode
parse_mode-Ends value i = ground arith

header_line-Ends : (i : ℕ) (h : Header) (line : Text) → Ends Any (header_line i h line)
unfolding header_line
header_line-Ends i h line = elim (Option-cases (strip_prefix line (text "old mode "))) [
  | inr (rest, e) ↦
      rw (e, header_line)
        (Ends-bind Any Any (parse_mode (trim rest) (i + 1)) _ (parse_mode-Ends (trim rest) (i + 1))
          λ mode _. tt)
  | inl e ↦ elim (Option-cases (strip_prefix line (text "new mode "))) [
    | inr (rest, f) ↦
        rw (e, f, header_line)
          (Ends-bind Any Any (parse_mode (trim rest) (i + 1)) _
            (parse_mode-Ends (trim rest) (i + 1)) λ mode _. tt)
    | inl f ↦ rw (e, f, header_line) tt
  ]
]

header_loop-Ends :
    (i : ℕ) (rest : List Text) (h : Header) → Ends (Leaves (length rest)) (header_loop i rest h)
unfolding header_loop
header_loop-Ends i [] h = omega arith
header_loop-Ends i (line ∷ rest) h = elim (Bool-cases (starts_with line (text "@@"))) [
  | inl hunk ↦ rw (hunk, header_loop) (omega arith)
  | inr other ↦
      rw (other, header_loop)
        (Ends-bind Any (Leaves (suc (length rest))) (header_line i h line) _
          (header_line-Ends i h line)
          (elim [
            | next h' ↦ λ _.
                Leaves-mono (length rest) (suc (length rest)) (header_loop (i + 1) rest h')
                  (omega arith) (header_loop-Ends (i + 1) rest h')
            | leave h' ↦ λ _. omega arith
          ]))
]

-- A header that does not begin with a hunk takes its first line.
header_loop-takes :
    (i : ℕ) (line : Text) (rest : List Text) (h : Header)
    → starts_with line (text "@@") ≡ false
    → Ends (Leaves (length rest)) (header_loop i (line ∷ rest) h)
unfolding header_loop
header_loop-takes i line rest h other =
    rw (other, header_loop)
      (Ends-bind Any (Leaves (length rest)) (header_line i h line) _ (header_line-Ends i h line)
        (elim [ next h' ↦ λ _. header_loop-Ends (i + 1) rest h' | leave h' ↦ λ _. omega arith ]))

parse_file_patch-Ends :
    (i : ℕ) (line : Text) (rest : List Text)
    → starts_with line (text "@@") ≡ false
    → Ends (Leaves (length rest)) (parse_file_patch i (line ∷ rest))
unfolding parse_file_patch
parse_file_patch-Ends i line rest other =
    Ends-bind (Leaves (length rest)) (Leaves (length rest))
      (header_loop i (line ∷ rest) empty_header) _
      (header_loop-takes i line rest empty_header other)
      λ header shorter.
        Ends-bind (Leaves (length header.rest)) (Leaves (length rest))
          (hunk_loop (length header.rest) header.next_index header.rest) _
          (hunk_loop-Ends (length header.rest) header.next_index header.rest (omega arith))
          λ hunks left. omega arith

file_loop-Ends :
    (begins : Text → List Text → Bool)
    → ((line : Text) (rest : List Text)
        → begins line rest ≡ true
        → starts_with line (text "@@") ≡ false)
    → (fuel i : ℕ) (rest : List Text) → length rest ≤ fuel
    → Ends Any (file_loop begins fuel i rest)
unfolding file_loop
file_loop-Ends begins apart fuel i [] h = tt
file_loop-Ends begins apart zero i (line ∷ rest) h = omega arith
file_loop-Ends begins apart (suc fuel) i (line ∷ rest) h = elim (Bool-cases (begins line rest)) [
  | inr skip ↦ rw (skip, file_loop) (file_loop-Ends begins apart fuel (i + 1) rest (omega arith))
  | inl file ↦
      rw (file, file_loop)
        (Ends-bind (Leaves (length rest)) Any (parse_file_patch i (line ∷ rest)) _
          (parse_file_patch-Ends i line rest (apart line rest file))
          λ p shorter.
            Ends-bind Any Any (file_loop begins fuel p.next_index p.rest) _
              (file_loop-Ends begins apart fuel p.next_index p.rest (omega arith)) λ files _. tt)
]

git_apart :
    (line : Text) (rest : List Text)
    → git_start line rest ≡ true
    → starts_with line (text "@@") ≡ false
unfolding git_start starts_with
git_apart [] rest h = refl
git_apart (c ∷ s) rest h = ground arith

plain_apart :
    (line : Text) (rest : List Text)
    → plain_start line rest ≡ true
    → starts_with line (text "@@") ≡ false
unfolding plain_start starts_with
plain_apart [] rest h = refl
plain_apart (c ∷ s) rest h = ground arith

from_lines-Ends : (ls : List Text) → Ends Any (from_lines ls)
unfolding from_lines parse_plain_unified
from_lines-Ends ls =
    Ends-bind Any Any (file_loop git_start (length ls) 0 ls) _
      (file_loop-Ends git_start git_apart (length ls) 0 ls (omega arith))
      (elim [
        | [] ↦ λ _. file_loop-Ends plain_start plain_apart (length ls) 0 ls (omega arith)
        | f ∷ fs ↦ λ _. tt
      ])

-- Parsing a diff comes to an end for every text: the loops never run out of their fuel, which is the
-- number of lines that are left.
pub from_diff-terminates : (diff_content : Text) → from_diff diff_content ≢ no_fuel
unfolding from_diff
from_diff-terminates diff_content e = subst (Ends Any) e (from_lines-Ends (lines diff_content))
