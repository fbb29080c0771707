-- ===== src/Text/Lines.antt =====
-- str::lines and [String]::join("\n").
use devit.Prelude.{ℕ, Bool, true, false, List, [], ◌∷◌, ◌++◌, ◌==◌, if◌then◌else◌, map}
use devit.Text.{Text}

-- Adds a character to the segment that is being read.
abbrev pub cons_segment : ℕ → List (Text × Bool) → List (Text × Bool)
cons_segment c [] = (c ∷ [], false) ∷ []
cons_segment c ((s, ended) ∷ rest) = (c ∷ s, ended) ∷ rest

-- The text cut behind each newline; `true` marks a segment that a newline ended.
unfoldable pub segments : Text → List (Text × Bool)
segments [] = []
segments (c ∷ s) =
    let rest = segments s in if c == b'\n' then ([], true) ∷ rest else cons_segment c rest

-- s.strip_suffix('\r').unwrap_or(s)
unfoldable pub strip_cr : Text → Text
strip_cr [] = []
strip_cr (c ∷ []) = if c == b'\r' then [] else c ∷ []
strip_cr (c ∷ d ∷ s) = c ∷ strip_cr (d ∷ s)

unfoldable pub line_of : Text × Bool → Text
unfolding strip_cr
line_of (s, true) = strip_cr s
line_of (s, false) = s

-- s.lines()
unfoldable pub lines : Text → List Text
unfolding segments line_of
lines s = map line_of (segments s)

-- ls.join("\n")
unfoldable pub join_lines : List Text → Text
join_lines [] = []
join_lines (l ∷ []) = l
join_lines (l ∷ m ∷ ls) = l ++ (b'\n' ∷ join_lines (m ∷ ls))

-- s.ends_with('\n')
unfoldable pub ends_with_newline : Text → Bool
ends_with_newline [] = false
ends_with_newline (c ∷ []) = c == b'\n'
ends_with_newline (c ∷ d ∷ s) = ends_with_newline (d ∷ s)
