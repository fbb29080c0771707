-- ===== src/Patcher/Touched.antt =====
-- The files that a patch replaces or removes, in a file system that notes them down.
use devit.Prelude.{◌≡◌, refl, Bool, true, List, [], ◌∷◌, all}
use devit.Text.{Text}
use devit.Paths.{PathBuf, is_absolute}
use devit.Paths.Join.{is_beneath, join-is_beneath}
use devit.Patcher.Files.{FileSystem, AtomicPatcher, apply_patch}
use devit.Patcher.Confinement.{Confines, apply_patch-Confines}

-- The same file system with the list of the paths that were removed or renamed to.
abbrev pub noting : FileSystem → FileSystem
noting fs = record {
  State = fs.State × List PathBuf;
  exists = λ path s. fs.exists path s.0;
  is_symlink = λ path s. fs.is_symlink path s.0;
  read_to_string = λ path s. fs.read_to_string path s.0;
  remove_file = λ path s. let r = fs.remove_file path s.0 in (r.0, (r.1, path ∷ s.1));
  create_dir_all = λ path s. let r = fs.create_dir_all path s.0 in (r.0, (r.1, s.1));
  open_truncated = λ path s. let r = fs.open_truncated path s.0 in (r.0, (r.1, s.1));
  write_all = λ path content s. let r = fs.write_all path content s.0 in (r.0, (r.1, s.1));
  sync_all = λ path s. let r = fs.sync_all path s.0 in (r.0, (r.1, s.1));
  rename = λ source target s. let r = fs.rename source target s.0 in (r.0, (r.1, target ∷ s.1));
}

abbrev pub all_below : PathBuf → List PathBuf → Bool
all_below dir paths = all (λ path. is_beneath path dir) paths

pub below_Confines :
    (fs : FileSystem) (self : AtomicPatcher)
    → is_absolute self.working_dir ≡ true
    → Confines (noting fs) self (λ s. all_below self.working_dir s.1 ≡ true)
below_Confines fs self rooted = record {
  removes =
      λ path inside s h. rw (join-is_beneath self.working_dir path rooted inside.0 inside.1) h;
  makes = λ path dir inside e s h. h;
  opens = λ path inside s h. h;
  fills = λ path content inside s h. h;
  syncs = λ path inside s h. h;
  renames =
      λ path inside s h. rw (join-is_beneath self.working_dir path rooted inside.0 inside.1) h;
}

-- Where the working directory is an absolute path, every path that applying a patch removes, or renames
-- its new content to, begins with the components of that directory and has no parent component behind
-- them, whatever the text and whatever fails on the way.
pub apply_patch-below :
    (fs : FileSystem) (self : AtomicPatcher) (diff : Text) (s : fs.State)
    → is_absolute self.working_dir ≡ true
    → all_below self.working_dir (apply_patch (noting fs) self diff (s, [])).1.1 ≡ true
apply_patch-below fs self diff s rooted =
    apply_patch-Confines (noting fs) self (λ t. all_below self.working_dir t.1 ≡ true)
      (below_Confines fs self rooted) diff (s, []) refl
