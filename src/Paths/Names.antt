-- ===== src/Paths/Names.antt =====
-- Path::parent and Path::with_extension, on the reversed text of a path.
use mathlib.Core.List.{reverse}
use devit.Prelude.{Option, none, some, [], ◌∷◌, ◌++◌, ◌==◌, if◌then◌else◌}
use devit.Text.{Text, text}
use devit.Paths.{PathBuf, is_absolute, file_name}

-- Slashes, and `.` behind a slash, do not count at the end of a path.
unfoldable pub trim_end : Text → Text
trim_end [] = []
trim_end (c ∷ []) = if c == b'/' then [] else c ∷ []
trim_end (c ∷ d ∷ s) =
    let slash = trim_end (d ∷ s) in
    let dot = trim_end s in
    if c == b'/'
    then slash
    else if c == b'.'
    then (if d == b'/' then dot else c ∷ d ∷ s)
    else c ∷ d ∷ s

-- What stands before the last component, reversed, with the slash that ends it.
unfoldable pub before_name : Text → Text
before_name [] = []
before_name (c ∷ s) = if c == b'/' then c ∷ s else before_name s

abbrev parent_text : PathBuf → Text → PathBuf
parent_text path [] = if is_absolute path then text "/" else []
parent_text path (c ∷ s) = reverse (c ∷ s)

abbrev parent_of : PathBuf → Text → Option PathBuf
parent_of path [] = none
parent_of path (c ∷ s) = some (parent_text path (trim_end (before_name (c ∷ s))))

-- path.parent()
unfoldable pub parent : PathBuf → Option PathBuf
unfolding trim_end before_name
parent path = parent_of path (trim_end (reverse path))

-- The name without what stands behind its last dot; a name that only begins with a dot stays.
unfoldable pub stem : Text → Text
stem [] = []
stem (c ∷ s) = elim (stem_after s) [ none ↦ c ∷ s | some t ↦ c ∷ t ]
  where
    stem_after : Text → Option Text
    stem_after [] = none
    stem_after (d ∷ t) = elim (stem_after t) [
      | some u ↦ some (d ∷ u)
      | none ↦ if d == b'.' then some [] else none
    ]

-- path.with_extension(extension), for an extension that is not empty
unfoldable pub with_extension : PathBuf → Text → PathBuf
unfolding trim_end before_name stem
with_extension path extension = elim (file_name path) [
  | none ↦ path
  | some name ↦ reverse (before_name (trim_end (reverse path))) ++ (stem name ++ (b'.' ∷ extension))
]
