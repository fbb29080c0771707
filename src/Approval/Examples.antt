-- ===== src/Approval/Examples.antt =====
-- Approval levels on concrete inputs.
use devit.Prelude.{◌≡◌, refl, true, List, [], ◌∷◌}
use devit.Text.{text}
use devit.Paths.{PathBuf}
use devit.Approval.{trusted, privileged, satisfies, can_access_path}
use devit.Approval.Order.{satisfies_trans}

abbrev repository : List PathBuf
repository = text "/repo" ∷ []

abbrev sources : List PathBuf
sources = text "/repo/src" ∷ []

repository-satisfies : satisfies (privileged repository) (privileged sources) ≡ true
unfolding satisfies devit.Paths.starts_with
repository-satisfies = refl

sources-satisfies : satisfies (privileged sources) trusted ≡ true
unfolding satisfies
sources-satisfies = refl

main_accessible : can_access_path (privileged sources) (text "/repo/src/main.rs") ≡ true
unfolding can_access_path devit.Paths.starts_with
main_accessible = refl

satisfies_trans_example : satisfies (privileged repository) trusted ≡ true
satisfies_trans_example =
    satisfies_trans (privileged repository) (privileged sources) trusted repository-satisfies
      sources-satisfies
