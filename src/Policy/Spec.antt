-- ===== src/Policy/Spec.antt =====
-- What the levels promise, file by file, with no order of tests: when a set of changes is permitted,
-- and when it is permitted with no question to the user.
use devit.Prelude.{
  ℕ, [], ◌∷◌, ◌+◌, ◌%◌, ◌^◌, Bool, false, not, ◌&&◌, ◌||◌, none, some, List, leb, any, all, length,
}
use devit.Text.{Text, text_eq}
use devit.Paths.{PathBuf, starts_with, extension}
use devit.Approval.{ApprovalLevel, untrusted, ask, moderate, trusted, privileged}
use devit.Policy.Types.{FileChange, PolicyContext, PolicyDecision}
use devit.Policy.Checks.{is_dot_env, is_dangerous_symlink}

-- Allowed, and with no confirmation.
abbrev pub is_silent : PolicyDecision → Bool
is_silent d = d.allow && not d.requires_confirmation

-- No level below privileged touches such a file.
abbrev pub is_clean : FileChange → Bool
is_clean fc = not (is_dot_env fc.path) && not fc.touches_gitmodules && not (is_dangerous_symlink fc)

abbrev pub is_under : List PathBuf → FileChange → Bool
is_under allowed_paths fc =
    not (is_dot_env fc.path) && any (λ allowed_path. starts_with fc.path allowed_path) allowed_paths

-- The lines that the changes add and delete together.
unfoldable pub line_count : List FileChange → ℕ
line_count [] = 0
line_count (fc ∷ fcs) = fc.lines_added + fc.lines_deleted + line_count fcs

-- The file is reported as protected, or lies below a protected path.
abbrev pub is_protected : PolicyContext → FileChange → Bool
is_protected context fc =
    fc.touches_protected || any (λ path. starts_with fc.path path) context.protected_paths

-- A text file, no link, that is changed in at most twenty lines; the sum is taken in 64 bits.
abbrev pub is_small : PolicyContext → FileChange → Bool
is_small context fc =
    is_clean fc
    && not (is_protected context fc)
    && not fc.adds_exec_bit
    && not fc.is_binary
    && not fc.touches_submodule
    && not fc.is_symlink
    && leb ((fc.lines_added + fc.lines_deleted) % 2 ^ 64) 20

abbrev pub is_moderate : PolicyContext → FileChange → Bool
is_moderate context fc =
    is_clean fc
    && not (is_protected context fc)
    && not fc.adds_exec_bit
    && not fc.is_binary
    && not fc.touches_submodule

abbrev pub permitted : PolicyContext → ApprovalLevel → Bool
permitted context (privileged allowed_paths) = all (is_under allowed_paths) context.file_changes
permitted context _ = all is_clean context.file_changes

module _ (to_lowercase : Text → Text) where
  -- A file of a listed type and of a known size within the limit.
  abbrev pub is_small_binary_type : PolicyContext → FileChange → Bool
  is_small_binary_type context fc =
      elim (extension fc.path) [
        | none ↦ false
        | some ext ↦
            any (λ listed. text_eq listed (to_lowercase ext)) context.config.small_binary_whitelist
      ]
      && elim fc.file_size_bytes [
        | none ↦ false
        | some size ↦ leb size context.config.small_binary_max_size
      ]

  abbrev pub is_trusted : PolicyContext → FileChange → Bool
  is_trusted context fc =
      is_clean fc
      && not (is_protected context fc)
      && not fc.adds_exec_bit
      && (not fc.is_binary || is_small_binary_type context fc)

  abbrev pub automatic : PolicyContext → ApprovalLevel → Bool
  automatic context untrusted = false
  automatic context ask =
      leb (length context.file_changes) 2 && all (is_small context) context.file_changes
  automatic context moderate =
      leb (length context.file_changes) context.config.max_files_moderate
      && leb (line_count context.file_changes % 2 ^ 64) context.config.max_lines_moderate
      && all (is_moderate context) context.file_changes
  automatic context trusted = all (is_trusted context) context.file_changes
  automatic context (privileged allowed_paths) = all (is_under allowed_paths) context.file_changes
