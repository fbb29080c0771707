-- ===== src/Patcher/Files.antt =====
-- AtomicPatcher: the methods that touch files. The file system is an interface: each operation returns
-- whether it succeeded, with the state that it left.
use devit.Prelude.{
  ℕ, ◌+◌, Bool, true, false, not, Option, none, some, List, [], ◌∷◌, if◌then◌else◌, length,
}
use devit.Text.{Text, text}
use devit.Paths.{PathBuf, is_absolute, has_parent_dir, join}
use devit.Paths.Names.{parent, with_extension}
use devit.Errors.{
  Outcome, ok, err, panicked, no_fuel, DevItError, io, protected_path, no_absolute_paths,
  no_path_traversal, no_symlinks, IoOperation, symlink_metadata, delete_file,
  create_parent_directories, read_file, create_temp_file, write_to_temp_file, sync_temp_file,
  atomic_rename, invalid_diff, deleted_without_path, created_without_path, modified_without_path,
}
use devit.Patch.Types.{PatchLine, context, add, remove, PatchHunk, FilePatch}
use devit.Patch.Diff.{from_diff}
use devit.Patcher.Content.{build_new_content, split_content}

-- The calls of std::fs.
pub record FileSystem : Type 1 where
  pub State : Type 0
  pub exists : PathBuf → State → Bool
  -- whether the path is a symbolic link
  pub is_symlink : PathBuf → State → Option Bool
  pub read_to_string : PathBuf → State → Option Text
  pub remove_file : PathBuf → State → Bool × State
  pub create_dir_all : PathBuf → State → Bool × State
  -- opened for writing, created or truncated
  pub open_truncated : PathBuf → State → Bool × State
  pub write_all : PathBuf → Text → State → Bool × State
  pub sync_all : PathBuf → State → Bool × State
  pub rename : PathBuf → PathBuf → State → Bool × State

pub record AtomicPatcher : Type 0 where
  pub working_dir : PathBuf
  pub dry_run : Bool

pub record PatchStats : Type 0 where
  pub files_modified : ℕ
  pub hunks_applied : ℕ
  pub lines_added : ℕ
  pub lines_removed : ℕ
  pub files_created : ℕ
  pub files_deleted : ℕ

abbrev pub no_stats : PatchStats
no_stats = record {
  files_modified = 0;
  hunks_applied = 0;
  lines_added = 0;
  lines_removed = 0;
  files_created = 0;
  files_deleted = 0;
}

unfoldable pub count_line : PatchStats → PatchLine → PatchStats
count_line stats (add l) = record stats { lines_added = stats.lines_added + 1 }
count_line stats (remove l) = record stats { lines_removed = stats.lines_removed + 1 }
count_line stats (context l) = stats

unfoldable pub count_lines : PatchStats → List PatchLine → PatchStats
unfolding count_line
count_lines stats [] = stats
count_lines stats (l ∷ ls) = count_lines (count_line stats l) ls

unfoldable pub count_hunks : PatchStats → List PatchHunk → PatchStats
unfolding count_lines
count_hunks stats [] = stats
count_hunks stats (h ∷ hs) = count_hunks (count_lines stats h.lines) hs

unfoldable pub update_stats_from_hunks : List PatchHunk → PatchStats → PatchStats
unfolding count_hunks
update_stats_from_hunks hunks stats =
    count_hunks (record stats { hunks_applied = stats.hunks_applied + length hunks }) hunks

module _ (fs : FileSystem) where
  open fs use {State}

  -- What is written before an error stays written.
  abbrev pub Io : Type 0 → Type 0
  Io A = State → Outcome A × State

  abbrev pub and_then : {A B : Type 0} → (A → Io B) → Outcome A → Io B
  and_then f (ok a) s = f a s
  and_then f (err e) s = (err e, s)
  and_then f panicked s = (panicked, s)
  and_then f no_fuel s = (no_fuel, s)

  unfoldable pub pure : {A : Type 0} → A → Io A
  pure a s = (ok a, s)

  unfoldable pub lift : {A : Type 0} → Outcome A → Io A
  lift r s = (r, s)

  -- A check that reads the state.
  unfoldable pub inspect : {A : Type 0} → (State → Outcome A) → Io A
  inspect f s = (f s, s)

  infixl 5 ◌>>=◌ ◌>>◌
  unfoldable pub ◌>>=◌ : {A B : Type 0} → Io A → (A → Io B) → Io B
  unfolding pure lift inspect
  ◌>>=◌ m f s = let (r, s') = m s in and_then f r s'

  abbrev pub ◌>>◌ : {B : Type 0} → Io Unit → Io B → Io B
  m >> n = m >>= λ _. n

  -- `.map_err(|e| DevItError::io(…))?`
  unfoldable pub or_io : PathBuf → IoOperation → (State → Bool × State) → Io Unit
  or_io path operation act s =
      let (done, s') = act s in (if done then ok tt else err (io path operation), s')

  -- `if !self.dry_run { … }`
  unfoldable pub unless : Bool → Io Unit → Io Unit
  unless true m s = (ok tt, s)
  unless false m s = m s

  module _ (self : AtomicPatcher) where
    abbrev pub full_path : PathBuf → PathBuf
    full_path path = join self.working_dir path

    unfoldable pub check_symlink : PathBuf → State → Outcome (Unit {0})
    check_symlink path s =
        if fs.exists (full_path path) s
        then elim (fs.is_symlink (full_path path) s) [
          | none ↦ err (io (full_path path) symlink_metadata)
          | some link ↦ if link then err (protected_path path no_symlinks) else ok tt
        ]
        else ok tt

    unfoldable pub validate_path : PathBuf → State → Outcome (Unit {0})
    unfolding check_symlink
    validate_path path s =
        if is_absolute path
        then err (protected_path path no_absolute_paths)
        else if has_parent_dir path
        then err (protected_path path no_path_traversal)
        else check_symlink path s

    abbrev pub validate_option : Option PathBuf → State → Outcome (Unit {0})
    validate_option none s = ok tt
    validate_option (some path) s = validate_path path s

    abbrev pub and_also : Outcome (Unit {0}) → Outcome (Unit {0}) → Outcome (Unit {0})
    and_also (ok a) later = later
    and_also (err e) later = err e
    and_also panicked later = panicked
    and_also no_fuel later = no_fuel

    unfoldable pub validate_security : List FilePatch → State → Outcome (Unit {0})
    validate_security [] s = ok tt
    validate_security (f ∷ files) s =
        and_also (validate_option f.old_path s)
          (and_also (validate_option f.new_path s) (validate_security files s))

    unfoldable pub write_file_atomically : PathBuf → Text → Io Unit
    write_file_atomically path content =
        let temp_path = with_extension path (text "devit.tmp") in
        or_io temp_path create_temp_file (fs.open_truncated temp_path)
        >> (or_io temp_path write_to_temp_file (fs.write_all temp_path content)
            >> (or_io temp_path sync_temp_file (fs.sync_all temp_path)
                >> or_io path atomic_rename (fs.rename temp_path path)))

    unfoldable pub remove_existing : PathBuf → Io Unit
    remove_existing path s =
        if fs.exists path s then or_io path delete_file (fs.remove_file path) s else (ok tt, s)

    unfoldable pub delete_at : PathBuf → PatchStats → Io PatchStats
    delete_at path stats = do
      unless self.dry_run (remove_existing (full_path path))
      pure (record stats { files_deleted = stats.files_deleted + 1 })

    unfoldable pub create_parent : Option PathBuf → Io Unit
    create_parent none = pure tt
    create_parent (some dir) =
        unless self.dry_run (or_io dir create_parent_directories (fs.create_dir_all dir))

    unfoldable pub create_at : PathBuf → FilePatch → PatchStats → Io PatchStats
    create_at path f stats = do
      create_parent (parent (full_path path))
      content ← lift (build_new_content f.hunks [] (not f.no_trailing_newline))
      unless self.dry_run (write_file_atomically (full_path path) content)
      pure (
          update_stats_from_hunks f.hunks
            (record stats { files_created = stats.files_created + 1 }))

    unfoldable pub read_file_lines : PathBuf → Io (List Text × Bool)
    read_file_lines path s = elim (fs.read_to_string path s) [
      | none ↦ (err (io path read_file), s)
      | some raw ↦ (ok (split_content raw), s)
    ]

    -- A file that is not there counts as empty.
    unfoldable pub original_lines : PathBuf → Io (List Text × Bool)
    unfolding read_file_lines
    original_lines path s = if fs.exists path s then read_file_lines path s else (ok ([], true), s)

    unfoldable pub modify_at : PathBuf → FilePatch → PatchStats → Io PatchStats
    modify_at path f stats = do
      original ← original_lines (full_path path)
      content ← lift (
          build_new_content f.hunks original.0
            (if f.no_trailing_newline then false else original.1))
      unless self.dry_run (write_file_atomically (full_path path) content)
      pure (
          update_stats_from_hunks f.hunks
            (record stats { files_modified = stats.files_modified + 1 }))

    abbrev pub or_missing : Option PathBuf → DevItError → (PathBuf → Io PatchStats) → Io PatchStats
    or_missing none e act s = (err e, s)
    or_missing (some path) e act s = act path s

    -- a.or(b)
    abbrev pub either : Option PathBuf → Option PathBuf → Option PathBuf
    either none b = b
    either (some a) b = some a

    unfoldable pub apply_file_patch : FilePatch → PatchStats → Io PatchStats
    apply_file_patch f stats =
        if f.is_deleted_file
        then or_missing f.old_path (invalid_diff deleted_without_path none) (λ p. delete_at p stats)
        else if f.is_new_file
        then or_missing f.new_path (invalid_diff created_without_path none)
            (λ p. create_at p f stats)
        else or_missing (either f.new_path f.old_path) (invalid_diff modified_without_path none)
            (λ p. modify_at p f stats)

    unfoldable pub apply_files : List FilePatch → PatchStats → Io PatchStats
    apply_files [] stats = pure stats
    apply_files (f ∷ files) stats = do stats' ← apply_file_patch f stats; apply_files files stats'

    unfoldable pub apply_patch : Text → Io PatchStats
    apply_patch patch_content = do
      files ← lift (from_diff patch_content)
      inspect (validate_security files)
      apply_files files no_stats
