-- ===== src/Patch/File.antt =====
-- parse_file_patch, parse_mode and mode_adds_exec.
use Prim.Native.Nat.{bit_and}
use devit.Prelude.{
  ℕ, zero, suc, ◌+◌, Bool, true, false, not, ◌&&◌, Option, none, some, List, [], ◌∷◌, ◌==◌,
  if◌then◌else◌, length,
}
use devit.Text.{
  Text, text, text_eq, starts_with, strip_prefix, contains, before, trim_start_pair, trim, is_empty,
}
use devit.Text.Number.{from_str_radix, u32_limit}
use devit.Paths.{PathBuf}
use devit.Errors.{Outcome, ok, no_fuel, ok_or, ◌>>=◌, invalid_diff, invalid_file_mode}
use devit.Patch.Types.{PatchHunk, FilePatch}
use devit.Patch.Hunk.{Parsed, parse_hunk}

unfoldable pub parse_mode : Text → ℕ → Outcome (Option ℕ)
parse_mode value line_number = if is_empty value then ok none else do
  mode ←
      ok_or (from_str_radix 8 u32_limit value)
        (invalid_diff (invalid_file_mode value) (some line_number))
  ok (some mode)

abbrev pub exec_mask : ℕ
exec_mask = 0o111

abbrev pub has_exec : ℕ → Bool
has_exec mode = not (bit_and mode exec_mask == 0)

unfoldable pub mode_adds_exec : Option ℕ → Option ℕ → Bool
mode_adds_exec (some old) (some new) = has_exec new && not (has_exec old)
mode_adds_exec none (some new) = has_exec new
mode_adds_exec old none = false

-- What parse_file_patch has read so far.
pub record Header : Type 0 where
  pub old_path : Option PathBuf
  pub new_path : Option PathBuf
  pub is_new_file : Bool
  pub is_deleted_file : Bool
  pub old_mode : Option ℕ
  pub new_mode : Option ℕ
  pub is_binary : Bool

abbrev pub empty_header : Header
empty_header = record {
  old_path = none;
  new_path = none;
  is_new_file = false;
  is_deleted_file = false;
  old_mode = none;
  new_mode = none;
  is_binary = false;
}

-- The path of a `---` or `+++` line, whose side is `a` or `b`: `none` leaves the path as it is.
unfoldable pub header_path : ℕ → Text → Option PathBuf
header_path side line =
    let path_str = before b'\t' line in
    if text_eq path_str (text "/dev/null") then none else some (trim_start_pair side b'/' path_str)

abbrev pub or_keep {ℓ} : {A : Type ℓ} → Option A → Option A → Option A
or_keep none old = old
or_keep (some a) old = some a

-- The loop goes on with a header, or leaves by `break`.
pub data HeaderStep : Type 0 where
  next leave : Header → HeaderStep

abbrev pub set_old_mode : Header → Text → ℕ → Outcome HeaderStep
set_old_mode h value i = do
  mode ← parse_mode (trim value) (i + 1)
  ok (next (record h { old_mode = mode }))

abbrev pub set_new_mode : Header → Text → ℕ → Outcome HeaderStep
set_new_mode h value i = do
  mode ← parse_mode (trim value) (i + 1)
  ok (next (record h { new_mode = mode }))

-- The tests behind those for the modes.
unfoldable pub path_line : Header → Text → HeaderStep
unfolding header_path
path_line h line = elim (strip_prefix line (text "--- ")) [
  | some rest ↦ next (record h { old_path = or_keep (header_path b'a' rest) h.old_path })
  | none ↦ elim (strip_prefix line (text "+++ ")) [
    | some rest ↦ next (record h { new_path = or_keep (header_path b'b' rest) h.new_path })
    | none ↦
        if contains line (text "new file mode")
        then next (record h { is_new_file = true })
        else if contains line (text "deleted file mode")
        then next (record h { is_deleted_file = true })
        else if starts_with line (text "Binary files ")
        then leave (record h { is_binary = true })
        else next h
  ]
]

unfoldable pub header_line : ℕ → Header → Text → Outcome HeaderStep
unfolding path_line parse_mode
header_line i h line = elim (strip_prefix line (text "old mode ")) [
  | some rest ↦ set_old_mode h rest i
  | none ↦ elim (strip_prefix line (text "new mode ")) [
    | some rest ↦ set_new_mode h rest i
    | none ↦ ok (path_line h line)
  ]
]

abbrev pub at_position {ℓ} : {A : Type ℓ} → A → ℕ → List Text → Parsed A
at_position a i rest = record { value = a; next_index = i; rest = rest }

-- The loop over the header lines.
unfoldable pub header_loop : ℕ → List Text → Header → Outcome (Parsed Header)
header_loop i [] h = ok (at_position h i [])
header_loop i (line ∷ rest) h = elim (starts_with line (text "@@")) [
  | true ↦ ok (at_position h i (line ∷ rest))
  | false ↦ header_line i h line >>= elim [
    | next h' ↦ header_loop (i + 1) rest h'
    | leave h' ↦ ok (at_position h' (i + 1) rest)
  ]
]

-- The loop over the hunks, on fuel.
unfoldable pub hunk_loop : ℕ → ℕ → List Text → Outcome (Parsed (List PatchHunk))
hunk_loop fuel i [] = ok (at_position [] i [])
hunk_loop zero i (line ∷ rest) = no_fuel
hunk_loop (suc fuel) i (line ∷ rest) = elim (starts_with line (text "@@")) [
  | false ↦ ok (at_position [] i (line ∷ rest))
  | true ↦ do
    hunk ← parse_hunk i line rest
    later ← hunk_loop fuel hunk.next_index hunk.rest
    ok (record later { value = hunk.value ∷ later.value })
]

-- hunks.last().map_or(false, |h| h.no_trailing_newline)
abbrev pub last_no_newline : List PatchHunk → Bool
last_no_newline [] = false
last_no_newline (h ∷ []) = h.no_trailing_newline
last_no_newline (h ∷ g ∷ hs) = last_no_newline (g ∷ hs)

abbrev pub is_none {ℓ} : {A : Type ℓ} → Option A → Bool
is_none none = true
is_none (some a) = false

abbrev pub is_some {ℓ} : {A : Type ℓ} → Option A → Bool
is_some none = false
is_some (some a) = true

-- The file patch of a header and its hunks; a missing path infers a new or a deleted file.
unfoldable pub file_patch : Header → List PatchHunk → FilePatch
unfolding mode_adds_exec
file_patch h hunks = record {
  old_path = h.old_path;
  new_path = h.new_path;
  hunks = hunks;
  is_new_file =
      if is_none h.old_path && is_some h.new_path && not h.is_new_file then true else h.is_new_file;
  is_deleted_file =
      if is_none h.new_path && is_some h.old_path && not h.is_deleted_file
      then true
      else h.is_deleted_file;
  old_mode = h.old_mode;
  new_mode = h.new_mode;
  adds_exec_bit = mode_adds_exec h.old_mode h.new_mode;
  is_binary = h.is_binary;
  no_trailing_newline = last_no_newline hunks;
}

-- The fuel of the hunk loop is the number of lines that are left.
unfoldable pub parse_file_patch : ℕ → List Text → Outcome (Parsed FilePatch)
parse_file_patch start rest = do
  header ← header_loop start rest empty_header
  hunks ← hunk_loop (length header.rest) header.next_index header.rest
  ok (at_position (file_patch header.value hunks.value) hunks.next_index hunks.rest)
