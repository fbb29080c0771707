-- ===== src/Paths/Examples.antt =====
-- Paths on concrete inputs.
use devit.Prelude.{◌≡◌, refl, none, some, []}
use devit.Text.{text}
use devit.Paths.{is_absolute, file_name}
use devit.Paths.Names.{parent, with_extension}

parents :
    (parent (text "/a/b/") ≡ some (text "/a"))
    × (parent (text "/a") ≡ some (text "/"))
    × (parent (text "/.") ≡ none)
    × (parent (text "a") ≡ some [])
    × (parent (text "./a") ≡ some (text "."))
unfolding parent is_absolute
parents = (refl, refl, refl, refl, refl)

extensions :
    (with_extension (text "/w/src/lib.rs") (text "devit.tmp") ≡ text "/w/src/lib.devit.tmp")
    × (with_extension (text "/w/.env") (text "devit.tmp") ≡ text "/w/.env.devit.tmp")
    × (with_extension (text "/w/a.b.c") (text "devit.tmp") ≡ text "/w/a.b.devit.tmp")
unfolding with_extension file_name
extensions = (refl, refl, refl)
