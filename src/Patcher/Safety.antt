-- ===== src/Patcher/Safety.antt =====
-- What the steps of a patch keep, as long as they touch validated paths only.
use devit.Prelude.{
  ◌≡◌, refl, Bool, true, false, Option, none, some, List, [], ◌∷◌, arith, Bool-cases, Option-cases,
  inl, inr, if◌then◌else◌,
}
use devit.Text.{Text}
use devit.Paths.{PathBuf, is_absolute, has_parent_dir}
use devit.Paths.Names.{parent}
use devit.Errors.{Outcome, ok, err, panicked, no_fuel, DevItError}
use devit.Patch.Types.{FilePatch}
use devit.Patcher.Files.{
  FileSystem, AtomicPatcher, PatchStats, Io, ◌>>=◌, inspect, and_then, pure, lift, unless,
  full_path, validate_path, validate_option, validate_security, and_also, write_file_atomically,
  remove_existing, delete_at, create_parent, create_at, original_lines, read_file_lines, modify_at,
  apply_file_patch, apply_files, apply_patch, either, or_missing, no_stats,
}

-- The paths that pass the textual checks of validate_path.
abbrev pub IsInside : PathBuf → Type 0
IsInside path = (is_absolute path ≡ false) × (has_parent_dir path ≡ false)

abbrev InsideOption : Option PathBuf → Type 0
InsideOption none = Unit
InsideOption (some path) = IsInside path

abbrev AllInside : List FilePatch → Type 0
AllInside [] = Unit
AllInside (f ∷ files) = InsideOption f.old_path × InsideOption f.new_path × AllInside files

module _ (fs : FileSystem) where
  open fs use {State}

  -- `m` keeps `P`, whether it returns or fails.
  pub record Keeps {A : Type 0} (P : State → Type 0) (m : Io fs A) : Type 0 where
    pub at : (s : State) → P s → P (m s).1

  module _ {A : Type 0} {P : State → Type 0} where
    pub Keeps-pure : (a : A) → Keeps P (pure fs a)
    unfolding pure
    Keeps-pure a = record { at = λ s h. h }

    Keeps-lift : (r : Outcome A) → Keeps P (lift fs r)
    unfolding lift
    Keeps-lift r = record { at = λ s h. h }

  module _ {A B : Type 0} {P : State → Type 0} where
    Keeps-and_then :
        (f : A → Io fs B) (r : Outcome A)
        → ((a : A) → r ≡ ok a → Keeps P (f a))
        → Keeps P (and_then fs f r)
    Keeps-and_then f (ok a) k = k a refl
    Keeps-and_then f (err e) k = record { at = λ s h. h }
    Keeps-and_then f panicked k = record { at = λ s h. h }
    Keeps-and_then f no_fuel k = record { at = λ s h. h }

    pub Keeps-bind :
        (m : Io fs A) (f : A → Io fs B)
        → Keeps P m
        → ((a : A) → Keeps P (f a))
        → Keeps P (◌>>=◌ fs m f)
    unfolding ◌>>=◌
    Keeps-bind m f k l = record {
      at = λ s h. (Keeps-and_then f (m s).0 (λ a _. l a)).at (m s).1 (k.at s h);
    }

  Keeps-if :
      {A : Type 0} {P : State → Type 0} (b : Bool) (m n : Io fs A)
      → Keeps P m
      → Keeps P n
      → Keeps P (if b then m else n)
  Keeps-if true m n k l = k
  Keeps-if false m n k l = l

  ruleset keeps_rules = (Keeps-pure, Keeps-lift, Keeps-bind)

  module _ (self : AtomicPatcher) (P : State → Type 0) where
    -- What a file patch may do at a path keeps `P`.
    pub record Preserves (path : PathBuf) : Type 0 where
      pub removes :
          Keeps P (unless fs self.dry_run (remove_existing fs self (full_path fs self path)))
      pub makes : Keeps P (create_parent fs self (parent (full_path fs self path)))
      pub writes :
          (content : Text)
          → Keeps P (
              unless fs self.dry_run
                (write_file_atomically fs self (full_path fs self path) content))

    delete_at-Keeps :
        (path : PathBuf) (stats : PatchStats)
        → Preserves path
        → Keeps P (delete_at fs self path stats)
    unfolding delete_at
    delete_at-Keeps path stats p = search (keeps_rules, p.removes)

    create_at-Keeps :
        (path : PathBuf) (f : FilePatch) (stats : PatchStats)
        → Preserves path
        → Keeps P (create_at fs self path f stats)
    unfolding create_at
    create_at-Keeps path f stats p = Keeps-bind _ _ p.makes λ _.
        Keeps-bind _ _ (Keeps-lift _)
          λ content. Keeps-bind _ _ (p.writes content) (λ _. Keeps-pure _)

    read_file_lines-Keeps : (path : PathBuf) → Keeps P (read_file_lines fs self path)
    unfolding read_file_lines
    read_file_lines-Keeps path = record {
      at = λ s h. elim (Option-cases (fs.read_to_string path s)) [
        | inl failed ↦ rw (failed, read_file_lines) h
        | inr (raw, found) ↦ rw (found, read_file_lines) h
      ];
    }

    original_lines-Keeps : (path : PathBuf) → Keeps P (original_lines fs self path)
    unfolding original_lines
    original_lines-Keeps path = record {
      at = λ s h. elim (Bool-cases (fs.exists path s)) [
        | inl there ↦ rw there ((read_file_lines-Keeps path).at s h)
        | inr missing ↦ rw missing h
      ];
    }

    modify_at-Keeps :
        (path : PathBuf) (f : FilePatch) (stats : PatchStats)
        → Preserves path
        → Keeps P (modify_at fs self path f stats)
    unfolding modify_at
    modify_at-Keeps path f stats p = search (keeps_rules, original_lines-Keeps, p.writes)

    abbrev PreservesOption : Option PathBuf → Type 0
    PreservesOption none = Unit
    PreservesOption (some path) = Preserves path

    or_missing-Keeps :
        (o : Option PathBuf) (e : DevItError) (act : PathBuf → Io fs PatchStats)
        → PreservesOption o
        → ((path : PathBuf) → Preserves path → Keeps P (act path))
        → Keeps P (or_missing fs self o e act)
    or_missing-Keeps none e act p k = record { at = λ s h. h }
    or_missing-Keeps (some path) e act p k = k path p

    either-Preserves :
        (a b : Option PathBuf)
        → PreservesOption a
        → PreservesOption b
        → PreservesOption (either fs self a b)
    either-Preserves none b p q = q
    either-Preserves (some a) b p q = p

    apply_file_patch-Keeps :
        (f : FilePatch) (stats : PatchStats)
        → PreservesOption f.old_path
        → PreservesOption f.new_path
        → Keeps P (apply_file_patch fs self f stats)
    unfolding apply_file_patch
    apply_file_patch-Keeps f stats old new =
        Keeps-if f.is_deleted_file _ _
          (or_missing-Keeps f.old_path _ _ old (λ path p. delete_at-Keeps path stats p))
          (Keeps-if f.is_new_file _ _
            (or_missing-Keeps f.new_path _ _ new (λ path p. create_at-Keeps path f stats p))
            (or_missing-Keeps (either fs self f.new_path f.old_path) _ _
              (either-Preserves f.new_path f.old_path new old)
              (λ path p. modify_at-Keeps path f stats p)))

    preserves_option :
        (o : Option PathBuf)
        → ((path : PathBuf) → IsInside path → Preserves path)
        → InsideOption o
        → PreservesOption o
    preserves_option none k h = tt
    preserves_option (some path) k h = k path h

    apply_files-Keeps :
        (files : List FilePatch) (stats : PatchStats)
        → ((path : PathBuf) → IsInside path → Preserves path)
        → AllInside files
        → Keeps P (apply_files fs self files stats)
    unfolding apply_files
    apply_files-Keeps [] stats k h = Keeps-pure _
    apply_files-Keeps (f ∷ files) stats k h =
        Keeps-bind _ _
          (apply_file_patch-Keeps f stats (preserves_option f.old_path k h.0)
            (preserves_option f.new_path k h.1))
          (λ stats'. apply_files-Keeps files stats' k h.2)

    validate_option-Inside :
        (o : Option PathBuf) (s : State) → validate_option fs self o s ≡ ok tt → InsideOption o
    unfolding validate_path
    validate_option-Inside none s h = tt
    validate_option-Inside (some path) s h = ground arith

    and_also-eq-ok :
        (r later : Outcome (Unit {0}))
        → and_also fs self r later ≡ ok tt
        → (r ≡ ok tt) × (later ≡ ok tt)
    and_also-eq-ok (ok tt) later h = (refl, h)
    and_also-eq-ok (err e) later h = cc
    and_also-eq-ok panicked later h = cc
    and_also-eq-ok no_fuel later h = cc

    -- What the validation lets through names only inside paths.
    validate_security-Inside :
        (files : List FilePatch) (s : State)
        → validate_security fs self files s ≡ ok tt
        → AllInside files
    unfolding validate_security
    validate_security-Inside [] s h = tt
    validate_security-Inside (f ∷ files) s h =
        let first = and_also-eq-ok _ _ h in
        let second = and_also-eq-ok _ _ first.1 in
        (
          validate_option-Inside f.old_path s first.0,
          validate_option-Inside f.new_path s second.0,
          validate_security-Inside files s second.1,
        )

    checked_files :
        (files : List FilePatch)
        → ((path : PathBuf) → IsInside path → Preserves path)
        → Keeps P (
            ◌>>=◌ fs
              (inspect fs (validate_security fs self files))
              (λ _. apply_files fs self files no_stats))
    unfolding ◌>>=◌
    checked_files files k = record {
      at = λ s h.
          (Keeps-and_then (λ _. apply_files fs self files no_stats)
              (validate_security fs self files s)
              (λ _ passed.
                apply_files-Keeps files no_stats k (validate_security-Inside files s passed))).at
            s h;
    }

    pub apply_patch-Keeps :
        (diff : Text)
        → ((path : PathBuf) → IsInside path → Preserves path)
        → Keeps P (apply_patch fs self diff)
    unfolding apply_patch
    apply_patch-Keeps diff k = Keeps-bind _ _ (Keeps-lift _) (λ files. checked_files files k)
