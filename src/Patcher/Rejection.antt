-- ===== src/Patcher/Rejection.antt =====
-- Patches that name a path outside the working directory.
use devit.Prelude.{
  ◌≡◌, refl, Bool, true, false, not, ◌&&◌, Option, none, some, List, [], ◌∷◌, arith, all,
  Bool-cases, inl, inr, if◌then◌else◌, Option-cases,
}
use devit.Text.{Text}
use devit.Paths.{PathBuf, is_absolute, has_parent_dir}
use devit.Errors.{
  Outcome, ok, err, panicked, no_fuel, DevItError, protected_path, no_absolute_paths,
  no_path_traversal, no_symlinks,
}
use devit.Patch.Types.{FilePatch}
use devit.Patch.Diff.{from_diff}
use devit.Patcher.Files.{
  FileSystem, AtomicPatcher, ◌>>=◌, validate_path, validate_option, validate_security, and_also,
  apply_patch, full_path, check_symlink,
}

-- A path that is missing, or relative with no parent component.
abbrev pub is_inside : Option PathBuf → Bool
is_inside none = true
is_inside (some path) = not (is_absolute path) && not (has_parent_dir path)

abbrev pub names_inside : FilePatch → Bool
names_inside f = is_inside f.old_path && is_inside f.new_path

-- Checks succeed or fail with an error.
abbrev Decided : Outcome (Unit {0}) → Type 0
Decided (ok a) = Unit
Decided (err e) = Unit
Decided panicked = ⊥
Decided no_fuel = ⊥

abbrev Fails : Outcome (Unit {0}) → Type 0
Fails r = (e : DevItError) × (r ≡ err e)

module _ (fs : FileSystem) (self : AtomicPatcher) where
  open fs use {State}

  check_symlink-Decided : (path : PathBuf) (s : State) → Decided (check_symlink fs self path s)
  unfolding check_symlink
  check_symlink-Decided path s = elim (Bool-cases (fs.exists (full_path fs self path) s)) [
    | inr missing ↦ rw missing tt
    | inl there ↦ elim (Option-cases (fs.is_symlink (full_path fs self path) s)) [
      | inl failed ↦ rw (there, failed, check_symlink) tt
      | inr (link, found) ↦ rw (there, found, check_symlink) (decided link)
    ]
  ]
    where
      decided :
          (link : Bool) → Decided (if link then err (protected_path path no_symlinks) else ok tt)
      decided true = tt
      decided false = tt

  validate_option-Decided : (o : Option PathBuf) (s : State) → Decided (validate_option fs self o s)
  unfolding validate_path
  validate_option-Decided none s = tt
  validate_option-Decided (some path) s = ground (arith, check_symlink-Decided path s)

  validate_option-Fails :
      (o : Option PathBuf) (s : State) → is_inside o ≡ false → Fails (validate_option fs self o s)
  unfolding validate_path
  validate_option-Fails none s h = cc
  validate_option-Fails (some path) s h = elim (Bool-cases (is_absolute path)) [
    | inl absolute ↦ (protected_path path no_absolute_paths, rw absolute)
    | inr relative ↦ (protected_path path no_path_traversal, ground arith)
  ]

  and_also-Fails :
      (r later : Outcome (Unit {0})) → Decided r → Fails later → Fails (and_also fs self r later)
  and_also-Fails (ok a) later d f = f
  and_also-Fails (err e) later d f = (e, refl)
  and_also-Fails panicked later d f = elim d [ ]
  and_also-Fails no_fuel later d f = elim d [ ]

  and_also-Fails_first : (r later : Outcome (Unit {0})) → Fails r → Fails (and_also fs self r later)
  and_also-Fails_first r later (e, h) = (e, rw h)

  validate_security-Fails :
      (files : List FilePatch) (s : State)
      → all names_inside files ≡ false
      → Fails (validate_security fs self files s)
  unfolding validate_security
  validate_security-Fails [] s h = cc
  validate_security-Fails (f ∷ files) s h = elim (Bool-cases (is_inside f.old_path)) [
    | inr outside ↦ and_also-Fails_first _ _ (validate_option-Fails f.old_path s outside)
    | inl old ↦
        and_also-Fails _ _ (validate_option-Decided f.old_path s)
          (elim (Bool-cases (is_inside f.new_path)) [
            | inr outside ↦ and_also-Fails_first _ _ (validate_option-Fails f.new_path s outside)
            | inl new ↦
                and_also-Fails _ _ (validate_option-Decided f.new_path s)
                  (validate_security-Fails files s (ground arith))
          ])
  ]

  -- Where any file of the parsed patch names an absolute path or one with a parent component, the
  -- patch is refused with an error and the file system is as before, whatever the other files are.
  pub apply_patch-outside :
      (diff : Text) (files : List FilePatch) (s : State)
      → from_diff diff ≡ ok files
      → all names_inside files ≡ false
      → (e : DevItError) × (apply_patch fs self diff s ≡ (err e, s))
  unfolding apply_patch ◌>>=◌
  apply_patch-outside diff files s parsed outside =
      let (e, refused) = validate_security-Fails files s outside in (e, rw (parsed, refused))
