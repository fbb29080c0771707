-- ===== src/PathSecurity/Below.antt =====
-- The check of pre_commit_validation: where the paths lie that it lets pass, and what it says of links.
use devit.Prelude.{
  ◌≡◌, refl, sym, ap, ◌∙◌, subst, ◌⊎◌, Bool, true, false, ◌&&◌, List, [], ◌∷◌, Bool-cases, inl, inr,
  if◌then◌else◌,
}
use devit.Paths.{PathBuf, starts_with, path_eq, is_absolute}
use devit.Paths.Join.{starts_with_relative}
use devit.PathSecurity.{
  PathSecurityContext, Files, Rule, Checked, ok, blocked, io_error, ◌then_◌, found_or_error,
  dev_null, validate_basic_path, safe_canonicalize, validate_patch_path, validate_symlink,
  recheck_link, pre_commit_validation,
}

-- A path below an absolute one is absolute.
starts_with-is_absolute :
    (p base : PathBuf) → is_absolute base ≡ true → starts_with p base ≡ true → is_absolute p ≡ true
starts_with-is_absolute p base h k = elim (Bool-cases (is_absolute p)) [
  | inl rooted ↦ rooted
  | inr relative ↦ let outside = starts_with_relative p base relative h in cc
]

then-ok :
    {A B : Type 0} (r : Checked A) (f : A → Checked B) (b : B)
    → r then_ f ≡ ok b
    → (a : A) × (r ≡ ok a) × (f a ≡ ok b)
then-ok (ok a) f b h = (a, refl, h)
then-ok (blocked rule) f b h = cc
then-ok (io_error path) f b h = cc

if-ok_right :
    {A : Type 0} (b : Bool) (rule : Rule) (m : Checked A) (a : A)
    → (if b then blocked rule else m) ≡ ok a
    → (b ≡ false) × (m ≡ ok a)
if-ok_right true rule m a h = cc
if-ok_right false rule m a h = (refl, h)

if-ok_left :
    {A : Type 0} (b : Bool) (rule : Rule) (m : Checked A) (a : A)
    → (if b then m else blocked rule) ≡ ok a
    → (b ≡ true) × (m ≡ ok a)
if-ok_left true rule m a h = (refl, h)
if-ok_left false rule m a h = cc

pub ok_inj : {A : Type 0} {a b : A} → Path (Checked A) (ok a) (ok b) → a ≡ b
ok_inj h = cc

dev_null_eq : path_eq dev_null dev_null ≡ true
unfolding path_eq
dev_null_eq = refl

module _ (fs : Files) (self : PathSecurityContext) where
  -- What the check of a path says of it: `/dev/null`, or a relative path that leads below the root.
  abbrev pub IsBelow : (path canonical : PathBuf) → Type 0
  IsBelow path canonical =
      (canonical ≡ dev_null)
      ⊎ ((is_absolute path ≡ false) × (starts_with canonical self.repo_root ≡ true))

  pub validate_patch_path-IsBelow :
      (path canonical : PathBuf)
      → validate_patch_path fs self path ≡ ok canonical
      → IsBelow path canonical
  unfolding validate_patch_path
  validate_patch_path-IsBelow path canonical h = elim (Bool-cases (path_eq path dev_null)) [
    | inl null ↦ inl (sym (ok_inj (rw (null, validate_patch_path) at h)))
    | inr other ↦
        let basic =
          then-ok (validate_basic_path path) _ canonical (rw (other, validate_patch_path) at h) in
        let relative = if-ok_right (is_absolute path) _ _ canonical basic.2 in
        let found = then-ok (safe_canonicalize fs self _) _ canonical relative.1 in
        let below = if-ok_left (starts_with found.0 self.repo_root) _ _ canonical found.2 in
        inr (relative.0, subst (λ c. starts_with c self.repo_root ≡ true) (ok_inj below.1) below.0)
  ]

  refused_absolute :
      (c target : PathBuf)
      → is_absolute c ≡ true
      → path_eq c dev_null ≡ false
      → validate_symlink fs self c target ≡ ok tt
      → ⊥
  unfolding validate_symlink validate_patch_path
  refused_absolute c target h k r =
      let checked = then-ok (validate_patch_path fs self c) _ tt r in
      let basic =
        then-ok (validate_basic_path c) _ checked.0 (rw (k, validate_patch_path) at (checked.1)) in
      let relative = if-ok_right (is_absolute c) _ _ checked.0 basic.2 in cc

  recheck_link-plain :
      (c : PathBuf)
      → is_absolute c ≡ true
      → path_eq c dev_null ≡ false
      → recheck_link fs self c ≡ ok tt
      → (fs.exists c && fs.is_symlink c) ≡ false
  unfolding recheck_link
  recheck_link-plain c h k r = elim (Bool-cases (fs.exists c && fs.is_symlink c)) [
    | inr plain ↦ plain
    | inl link ↦
        let linked =
          then-ok (found_or_error c (fs.read_link c)) _ tt (rw (link, recheck_link) at r) in
        absurd (refused_absolute c linked.0 h k linked.2)
  ]

  -- What holds of a path that the check lets pass: the canonical path equals `/dev/null`, or it lies
  -- below the root and is no link that exists.
  abbrev pub IsSafe : PathBuf → Type 0
  IsSafe path =
      (canonical : PathBuf) × (validate_patch_path fs self path ≡ ok canonical)
      × ((path_eq canonical dev_null ≡ true)
          ⊎ ((is_absolute path ≡ false)
              × (starts_with canonical self.repo_root ≡ true)
              × ((fs.exists canonical && fs.is_symlink canonical) ≡ false)))

  abbrev pub AllSafe : List PathBuf → Type 0
  AllSafe [] = Unit
  AllSafe (path ∷ paths) = IsSafe path × AllSafe paths

  checked-IsSafe :
      (path canonical : PathBuf)
      → is_absolute self.repo_root ≡ true
      → validate_patch_path fs self path ≡ ok canonical
      → recheck_link fs self canonical ≡ ok tt
      → IsSafe path
  checked-IsSafe path c root h r = elim (Bool-cases (path_eq c dev_null)) [
    | inl null ↦ (c, h, inl null)
    | inr other ↦ elim (validate_patch_path-IsBelow path c h) [
      | inl null ↦ (c, h, inl (ap (λ p. path_eq p dev_null) null ∙ dev_null_eq))
      | inr (relative, below) ↦
          let rooted = starts_with-is_absolute c self.repo_root root below in
          (c, h, inr (relative, below, recheck_link-plain c rooted other r))
    ]
  ]

  -- Let the root be absolute. Where pre_commit_validation accepts a list of paths, validate_patch_path
  -- accepts each of them and gives a canonical path that equals `/dev/null`, or else lies below the
  -- root and is not both existing and a link, whatever allow_internal_symlinks says; in the second
  -- case the path of the list is relative.
  pub pre_commit_validation-AllSafe :
      (paths : List PathBuf)
      → is_absolute self.repo_root ≡ true
      → pre_commit_validation fs self paths ≡ ok tt
      → AllSafe paths
  unfolding pre_commit_validation
  pre_commit_validation-AllSafe [] root h = tt
  pre_commit_validation-AllSafe (path ∷ paths) root h =
      let found = then-ok (validate_patch_path fs self path) _ tt h in
      let link = then-ok (recheck_link fs self found.0) _ tt found.2 in
      let plain : recheck_link fs self found.0 ≡ ok tt = link.1 in
      (
        checked-IsSafe path found.0 root found.1 plain,
        pre_commit_validation-AllSafe paths root link.2,
      )
