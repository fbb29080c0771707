-- ===== src/Patcher/Confinement.antt =====
-- What a patch may change in the file system.
use devit.Prelude.{◌≡◌, refl, Bool, true, false, Option, none, some, Bool-cases, inl, inr}
use devit.Text.{Text, text}
use devit.Paths.{PathBuf}
use devit.Paths.Names.{parent, with_extension}
use devit.Errors.{IoOperation}
use devit.Patcher.Files.{
  FileSystem, AtomicPatcher, Io, or_io, unless, full_path, write_file_atomically, remove_existing,
  create_parent, apply_patch,
}
use devit.Patcher.Safety.{IsInside, Keeps, Keeps-bind, Keeps-pure, apply_patch-Keeps}

module _ (fs : FileSystem) where
  open fs use {State}

  module _ {P : State → Type 0} where
    Keeps-unless_dry : (dry : Bool) (m : Io fs Unit) → dry ≡ true → Keeps fs P (unless fs dry m)
    unfolding unless
    Keeps-unless_dry true m h = record { at = λ s k. k }
    Keeps-unless_dry false m h = cc

    Keeps-unless : (dry : Bool) (m : Io fs Unit) → Keeps fs P m → Keeps fs P (unless fs dry m)
    unfolding unless
    Keeps-unless true m k = record { at = λ s h. h }
    Keeps-unless false m k = record { at = k.at }

    Keeps-or_io :
        (path : PathBuf) (operation : IoOperation) (act : State → Bool × State)
        → ((s : State) → P s → P (act s).1)
        → Keeps fs P (or_io fs path operation act)
    unfolding or_io
    Keeps-or_io path operation act k = record { at = k }

  module _ (self : AtomicPatcher) where
    dry_parent :
        {P : State → Type 0} (dir : Option PathBuf)
        → self.dry_run ≡ true
        → Keeps fs P (create_parent fs self dir)
    unfolding create_parent
    dry_parent none dry = Keeps-pure fs tt
    dry_parent (some dir) dry = Keeps-unless_dry self.dry_run _ dry

    -- A dry run leaves the file system as it was, for every text, whether the patch would apply or not.
    pub apply_patch-dry_run :
        (diff : Text) (s : State) → self.dry_run ≡ true → (apply_patch fs self diff s).1 ≡ s
    apply_patch-dry_run diff s dry =
        (apply_patch-Keeps fs self (λ t. t ≡ s) diff
            (λ path _. record {
              removes = Keeps-unless_dry self.dry_run _ dry;
              makes = dry_parent (parent (full_path fs self path)) dry;
              writes = λ content. Keeps-unless_dry self.dry_run _ dry;
            })).at
          s refl

    -- `P` survives every change of the file system at an inside path below the working directory, at
    -- the parent directory of such a path, and at the temporary file beside it.
    pub record Confines (P : State → Type 0) : Type 0 where
      pub removes :
          (path : PathBuf)
          → IsInside path
          → (s : State) → P s
          → P (fs.remove_file (full_path fs self path) s).1
      pub makes :
          (path dir : PathBuf)
          → IsInside path
          → parent (full_path fs self path) ≡ some dir
          → (s : State) → P s
          → P (fs.create_dir_all dir s).1
      pub opens :
          (path : PathBuf)
          → IsInside path
          → (s : State) → P s
          → P (fs.open_truncated (with_extension (full_path fs self path) (text "devit.tmp")) s).1
      pub fills :
          (path : PathBuf) (content : Text)
          → IsInside path
          → (s : State) → P s
          → P
              (fs.write_all
                (with_extension (full_path fs self path) (text "devit.tmp"))
                content
                s).1
      pub syncs :
          (path : PathBuf)
          → IsInside path
          → (s : State) → P s
          → P (fs.sync_all (with_extension (full_path fs self path) (text "devit.tmp")) s).1
      pub renames :
          (path : PathBuf)
          → IsInside path
          → (s : State) → P s
          → P
              (fs.rename
                (with_extension (full_path fs self path) (text "devit.tmp"))
                (full_path fs self path)
                s).1

    module _ (P : State → Type 0) (c : Confines P) where
      remove_existing-Keeps :
          (path : PathBuf)
          → IsInside path
          → Keeps fs P (remove_existing fs self (full_path fs self path))
      unfolding remove_existing
      remove_existing-Keeps path inside = record {
        at = λ s h. elim (Bool-cases (fs.exists (full_path fs self path) s)) [
          | inl there ↦ rw there ((Keeps-or_io _ _ _ (c.removes path inside)).at s h)
          | inr missing ↦ rw missing h
        ];
      }

      create_parent-Keeps :
          (path : PathBuf) (dir : Option PathBuf)
          → IsInside path
          → parent (full_path fs self path) ≡ dir
          → Keeps fs P (create_parent fs self dir)
      unfolding create_parent
      create_parent-Keeps path none inside e = Keeps-pure fs tt
      create_parent-Keeps path (some dir) inside e =
          Keeps-unless self.dry_run _ (Keeps-or_io _ _ _ (c.makes path dir inside e))

      write-Keeps :
          (path : PathBuf) (content : Text)
          → IsInside path
          → Keeps fs P (write_file_atomically fs self (full_path fs self path) content)
      unfolding write_file_atomically
      write-Keeps path content inside =
          Keeps-bind fs _ _ (Keeps-or_io _ _ _ (c.opens path inside)) λ _.
            Keeps-bind fs _ _ (Keeps-or_io _ _ _ (c.fills path content inside)) λ _.
              Keeps-bind fs _ _ (Keeps-or_io _ _ _ (c.syncs path inside))
                (λ _. Keeps-or_io _ _ _ (c.renames path inside))

      -- Whatever text is applied, and whether that succeeds or fails on the way, a property of the file
      -- system still holds that survives these changes for each relative path with no parent component,
      -- joined to the working directory: the removal of the joined path, the creation of its parent
      -- directory, the writing of the file beside it with the extension devit.tmp, and the renaming of
      -- that file to it. For an empty path that directory and that file are not within the working
      -- directory, unless it is the root.
      pub apply_patch-Confines : (diff : Text) (s : State) → P s → P (apply_patch fs self diff s).1
      apply_patch-Confines diff =
          (apply_patch-Keeps fs self P diff (λ path inside. record {
            removes = Keeps-unless self.dry_run _ (remove_existing-Keeps path inside);
            makes = create_parent-Keeps path _ inside refl;
            writes = λ content. Keeps-unless self.dry_run _ (write-Keeps path content inside);
          })).at
