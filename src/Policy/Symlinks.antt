-- ===== src/Policy/Symlinks.antt =====
-- Which symbolic links are dangerous.
use devit.Prelude.{
  ◌≡◌, refl, Bool, true, false, ◌&&◌, ◌||◌, Option, none, some, List, [], ◌∷◌, arith, any, all,
  Bool-cases, inl, inr, Option-cases,
}
use devit.Paths.{PathBuf, is_absolute, has_parent_dir, starts_with}
use devit.Paths.Join.{starts_with_relative}
use devit.Policy.Types.{FileChange}
use devit.Policy.Checks.{is_dangerous_symlink, is_dangerous_target, dangerous_paths}

any_absolute :
    (target : PathBuf) (bases : List PathBuf)
    → is_absolute target ≡ false
    → all is_absolute bases ≡ true
    → any (λ base. starts_with target base) bases ≡ false
any_absolute target [] h k = refl
any_absolute target (b ∷ bs) h k =
    ground (arith, starts_with_relative target b h, any_absolute target bs h)

dangerous_paths_absolute : all is_absolute dangerous_paths ≡ true
unfolding is_absolute
dangerous_paths_absolute = refl

is_dangerous_target_lem :
    (target : PathBuf) → is_dangerous_target target ≡ (is_absolute target || has_parent_dir target)
unfolding is_dangerous_target
is_dangerous_target_lem target = elim (Bool-cases (is_absolute target)) [
  | inl absolute ↦ rw absolute
  | inr relative ↦
      rw (relative, any_absolute target dangerous_paths relative dangerous_paths_absolute)
        (ground arith)
]

abbrev pub climbs_or_absolute : Option PathBuf → Bool
climbs_or_absolute none = false
climbs_or_absolute (some target) = is_absolute target || has_parent_dir target

-- A file change is a dangerous symbolic link exactly when it is a link whose target is known and is
-- absolute or has a parent component: the list of system directories adds nothing.
pub is_dangerous_symlink_lem :
    (fc : FileChange)
    → is_dangerous_symlink fc ≡ (fc.is_symlink && climbs_or_absolute fc.symlink_target_abs)
unfolding is_dangerous_symlink
is_dangerous_symlink_lem fc = elim (Option-cases fc.symlink_target_abs) [
  | inl missing ↦ ground arith
  | inr (target, known) ↦ ground (arith, is_dangerous_target_lem target)
]
