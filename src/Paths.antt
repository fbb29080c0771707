-- ===== src/Paths.antt =====
-- std::path on Unix: the methods of `Path` and `PathBuf` that the program calls. A path is the text
-- of its characters.
pub mod Prefix
pub mod Join
pub mod Names
mod Examples
use devit.Prelude.{
  ℕ, ◌≡◌, refl, Bool, true, false, not, ◌&&◌, ◌||◌, Option, none, some, List, [], ◌∷◌, ◌++◌, arith,
  ◌==◌, if◌then◌else◌, any, Bool-cases, ◌↔◌,
}
use devit.Text.{Text, text_eq, text_eq_iff, is_empty}

abbrev pub PathBuf : Type 0
PathBuf = Text

-- std::path::Component, less the prefixes of Windows
pub data Component : Type 0 where
  root_dir : Component
  cur_dir : Component
  parent_dir : Component
  normal : Text → Component

-- Adds a character to the piece that is being read.
abbrev pub cons_piece : ℕ → List Text → List Text
cons_piece c [] = (c ∷ []) ∷ []
cons_piece c (w ∷ ws) = (c ∷ w) ∷ ws

-- The pieces between slashes.
unfoldable pub pieces : Text → List Text
pieces [] = [] ∷ []
pieces (c ∷ s) = let rest = pieces s in if c == b'/' then [] ∷ rest else cons_piece c rest

abbrev pub dot : Text
dot = b'.' ∷ []

abbrev pub dot_dot : Text
dot_dot = b'.' ∷ b'.' ∷ []

-- The component of a piece; an empty one and `.` are skipped.
unfoldable pub component_of : Text → Option Component
component_of piece =
    if is_empty piece
    then none
    else if text_eq piece dot
    then none
    else if text_eq piece dot_dot
    then some parent_dir
    else some (normal piece)

abbrev pub cons_some {ℓ} : {A : Type ℓ} → Option A → List A → List A
cons_some none xs = xs
cons_some (some x) xs = x ∷ xs

unfoldable pub body : List Text → List Component
unfolding component_of
body [] = []
body (w ∷ ws) = cons_some (component_of w) (body ws)

-- path.is_absolute()
unfoldable pub is_absolute : PathBuf → Bool
is_absolute [] = false
is_absolute (c ∷ s) = c == b'/'

-- A leading `.` of a relative path is kept.
unfoldable pub leading : PathBuf → List Component
leading [] = []
leading (c ∷ []) = if c == b'/' then root_dir ∷ [] else if c == b'.' then cur_dir ∷ [] else []
leading (c ∷ d ∷ s) =
    if c == b'/' then root_dir ∷ [] else if c == b'.' && d == b'/' then cur_dir ∷ [] else []

-- path.components()
unfoldable pub components : PathBuf → List Component
unfolding leading body pieces
components p = leading p ++ body (pieces p)

unfoldable pub component_eq : Component → Component → Bool
component_eq root_dir root_dir = true
component_eq cur_dir cur_dir = true
component_eq parent_dir parent_dir = true
component_eq (normal a) (normal b) = text_eq a b
component_eq _ _ = false

-- The second list begins the first.
unfoldable pub begins_with : List Component → List Component → Bool
unfolding component_eq
begins_with cs [] = true
begins_with [] (d ∷ ds) = false
begins_with (c ∷ cs) (d ∷ ds) = component_eq c d && begins_with cs ds

-- path.starts_with(base): by whole components
unfoldable pub starts_with : PathBuf → PathBuf → Bool
unfolding components begins_with
starts_with p base = begins_with (components p) (components base)

unfoldable pub same_components : List Component → List Component → Bool
unfolding component_eq
same_components [] [] = true
same_components (c ∷ cs) (d ∷ ds) = component_eq c d && same_components cs ds
same_components _ _ = false

-- p == q
unfoldable pub path_eq : PathBuf → PathBuf → Bool
unfolding components same_components
path_eq p q = same_components (components p) (components q)

-- matches!(c, Component::ParentDir)
abbrev pub is_parent_dir : Component → Bool
is_parent_dir parent_dir = true
is_parent_dir _ = false

-- path.components().any(|c| matches!(c, Component::ParentDir))
unfoldable pub has_parent_dir : PathBuf → Bool
unfolding components
has_parent_dir p = any is_parent_dir (components p)

abbrev name_of_last : List Component → Option Text
name_of_last [] = none
name_of_last (normal a ∷ []) = some a
name_of_last (c ∷ []) = none
name_of_last (c ∷ d ∷ cs) = name_of_last (d ∷ cs)

-- path.file_name()
unfoldable pub file_name : PathBuf → Option Text
unfolding components
file_name p = name_of_last (components p)

-- What stands behind the last dot, and whether anything stands before it.
unfoldable pub after_last_dot : Text → Option (Bool × Text)
after_last_dot [] = none
after_last_dot (c ∷ s) = elim (after_last_dot s) [
  | some (some_before, ext) ↦ some (true, ext)
  | none ↦ if c == b'.' then some (false, s) else none
]

-- path.extension(): a name that only begins with a dot has none
unfoldable pub extension : PathBuf → Option Text
unfolding file_name after_last_dot
extension p = elim (file_name p) [
  | none ↦ none
  | some name ↦ elim (after_last_dot name) [
    | none ↦ none
    | some (some_before, ext) ↦ if some_before then some ext else none
  ]
]

unfoldable pub ends_with_slash : Text → Bool
ends_with_slash [] = false
ends_with_slash (c ∷ []) = c == b'/'
ends_with_slash (c ∷ d ∷ s) = ends_with_slash (d ∷ s)

-- base.join(path)
unfoldable pub join : PathBuf → PathBuf → PathBuf
unfolding is_absolute ends_with_slash
join base p =
    if is_absolute p
    then p
    else if is_empty base || ends_with_slash base
    then base ++ p
    else base ++ (b'/' ∷ p)
