-- ===== src/Paths/Join.antt =====
-- A joined path: its components, and where it lies.
use devit.Prelude.{
  drop, drop-append, length, ◌&&◌, not, ◌≡◌, refl, sym, ap, ◌∙◌, Bool, true, false, ◌||◌, List, [],
  ◌∷◌, ◌++◌, arith, ◌==◌, any, Bool-cases, inl, inr, append-nil, append_assoc,
}
use devit.Text.{Text}
use devit.Paths.{
  PathBuf, Component, root_dir, pieces, body, component_of, leading, components, component_eq,
  begins_with, starts_with, join, is_absolute, ends_with_slash, is_parent_dir, has_parent_dir,
}
use devit.Paths.Prefix.{begins_with-append}

pieces_cons : (s : Text) → (w : Text) × (ws : List Text) × (pieces s ≡ w ∷ ws)
unfolding pieces
pieces_cons [] = ([], [], refl)
pieces_cons (c ∷ s) = elim (Bool-cases (c == b'/')) [
  | inl slash ↦ ([], pieces s, rw slash)
  | inr other ↦ let below = pieces_cons s in (c ∷ below.0, below.1, rw (other, below.2))
]

-- Cutting at a slash is cutting the two sides.
pieces-append : (s t : Text) → pieces (s ++ b'/' ∷ t) ≡ pieces s ++ pieces t
unfolding pieces
pieces-append [] t = refl
pieces-append (c ∷ s) t = elim (Bool-cases (c == b'/')) [
  | inl slash ↦ rw (slash, pieces-append s t)
  | inr other ↦ let below = pieces_cons s in rw (other, pieces-append s t, below.2)
]

body-append : (ws vs : List Text) → body (ws ++ vs) ≡ body ws ++ body vs
unfolding body
body-append [] vs = refl
body-append (w ∷ ws) vs = ground (arith, body-append ws vs)

leading_absolute : (p : PathBuf) → is_absolute p ≡ true → leading p ≡ root_dir ∷ []
unfolding is_absolute leading
leading_absolute [] h = cc
leading_absolute (c ∷ []) h = rw h
leading_absolute (c ∷ d ∷ s) h = rw h

ends_with_slash-split : (s : Text) → ends_with_slash s ≡ true → (t : Text) × (s ≡ t ++ b'/' ∷ [])
unfolding ends_with_slash
ends_with_slash-split [] h = cc
ends_with_slash-split (c ∷ []) h = ([], ground arith)
ends_with_slash-split (c ∷ d ∷ s) h =
    let below = ends_with_slash-split (d ∷ s) h in (c ∷ below.0, ap (◌∷◌ c) below.1)

is_absolute-append : (p s : PathBuf) → is_absolute p ≡ true → is_absolute (p ++ s) ≡ true
unfolding is_absolute
is_absolute-append [] s h = cc
is_absolute-append (c ∷ p) s h = h

components_absolute :
    (p : PathBuf) → is_absolute p ≡ true → components p ≡ root_dir ∷ body (pieces p)
unfolding components
components_absolute p h = rw (leading_absolute p h)

body_last_empty : (ws : List Text) → body (ws ++ [] ∷ []) ≡ body ws
unfolding body
body_last_empty ws = body-append ws ([] ∷ []) ∙ append-nil (body ws)

-- The components of a joined path are those of the base, then those that the path adds.
pub components-join :
    (base p : PathBuf)
    → is_absolute base ≡ true
    → is_absolute p ≡ false
    → components (join base p) ≡ components base ++ body (pieces p)
unfolding join
components-join [] p h k = unfold is_absolute in cc
components-join (c ∷ b) p h k = elim (Bool-cases (ends_with_slash (c ∷ b))) [
  | inl slash ↦
      let cut = ends_with_slash-split (c ∷ b) slash in
      rw (k, slash)
        (components_absolute ((c ∷ b) ++ p) (is_absolute-append (c ∷ b) p h)
          ∙ ap (λ ps. root_dir ∷ body ps)
              (ap (λ s. pieces (s ++ p)) cut.1
                ∙ ap pieces (append_assoc cut.0 (b'/' ∷ []) p)
                ∙ pieces-append cut.0 p)
          ∙ ap (◌∷◌ root_dir) (body-append (pieces cut.0) (pieces p))
          ∙ ap (λ bs. root_dir ∷ bs ++ body (pieces p))
              (sym (body_last_empty (pieces cut.0))
                ∙ ap body (sym (pieces_with_slash cut.0) ∙ ap pieces (sym cut.1)))
          ∙ ap (λ cs. cs ++ body (pieces p)) (sym (components_absolute (c ∷ b) h)))
  | inr plain ↦
      rw (k, plain)
        (components_absolute ((c ∷ b) ++ b'/' ∷ p) (is_absolute-append (c ∷ b) (b'/' ∷ p) h)
          ∙ ap (λ ps. root_dir ∷ body ps) (pieces-append (c ∷ b) p)
          ∙ ap (◌∷◌ root_dir) (body-append (pieces (c ∷ b)) (pieces p))
          ∙ ap (λ cs. cs ++ body (pieces p)) (sym (components_absolute (c ∷ b) h)))
]
  where
    pieces_with_slash : (s : Text) → pieces (s ++ b'/' ∷ []) ≡ pieces s ++ [] ∷ []
    pieces_with_slash s = pieces-append s [] ∙ unfold pieces in refl

-- A relative path that is joined to an absolute base stays below it, as `starts_with` sees it.
pub join-starts_with :
    (base p : PathBuf)
    → is_absolute base ≡ true
    → is_absolute p ≡ false
    → starts_with (join base p) base ≡ true
unfolding starts_with
join-starts_with base p h k =
    rw (components-join base p h k) (begins_with-append (components base) (body (pieces p)))

-- Only the leading component can be the root.
abbrev is_root : Component → Bool
is_root root_dir = true
is_root _ = false

any_root-body : (ws : List Text) → any is_root (body ws) ≡ false
unfolding body component_of
any_root-body [] = refl
any_root-body (w ∷ ws) = ground (arith, any_root-body ws)

any_root-leading : (p : PathBuf) → is_absolute p ≡ false → any is_root (leading p) ≡ false
unfolding is_absolute leading
any_root-leading [] h = refl
any_root-leading (c ∷ []) h = ground arith
any_root-leading (c ∷ d ∷ s) h = ground arith

any-append :
    (f : Component → Bool) (cs ds : List Component) → any f (cs ++ ds) ≡ (any f cs || any f ds)
any-append f [] ds = refl
any-append f (c ∷ cs) ds = ground (arith, any-append f cs ds)

any_root_relative : (p : PathBuf) → is_absolute p ≡ false → any is_root (components p) ≡ false
unfolding components
any_root_relative p h =
    any-append is_root (leading p) (body (pieces p))
    ∙ rw (any_root-leading p h, any_root-body (pieces p)) refl

begins_with_root :
    (cs ds : List Component) → any is_root cs ≡ false → begins_with cs (root_dir ∷ ds) ≡ false
unfolding begins_with component_eq
begins_with_root [] ds h = refl
begins_with_root (root_dir ∷ cs) ds h = cc
begins_with_root (c ∷ cs) ds h = refl

-- A relative path starts with no absolute base.
pub starts_with_relative :
    (p base : PathBuf)
    → is_absolute p ≡ false
    → is_absolute base ≡ true
    → starts_with p base ≡ false
unfolding starts_with
starts_with_relative p base h k =
    rw (components_absolute base k)
      (begins_with_root (components p) (body (pieces base)) (any_root_relative p h))

-- The parent components of a joined path are those of its two parts.
pub has_parent_dir-join :
    (base p : PathBuf)
    → is_absolute base ≡ true
    → is_absolute p ≡ false
    → has_parent_dir p ≡ false
    → has_parent_dir (join base p) ≡ has_parent_dir base
unfolding has_parent_dir components
has_parent_dir-join base p h k q =
    ap (any is_parent_dir) (components-join base p h k)
    ∙ any-append is_parent_dir (leading base ++ body (pieces base)) (body (pieces p))
    ∙ ground (arith, any-append is_parent_dir (leading p) (body (pieces p)))

-- The path has the components of the directory in front, and climbs nowhere behind them.
abbrev pub is_beneath : (path dir : PathBuf) → Bool
is_beneath path dir =
    starts_with path dir
    && not (any is_parent_dir (drop (length (components dir)) (components path)))

-- A relative path with no parent component stays beneath an absolute base that it is joined to.
pub join-is_beneath :
    (base p : PathBuf)
    → is_absolute base ≡ true
    → is_absolute p ≡ false
    → has_parent_dir p ≡ false
    → is_beneath (join base p) base ≡ true
unfolding has_parent_dir components
join-is_beneath base p h k q =
    let above : any is_parent_dir (body (pieces p)) ≡ false =
      ground (arith, any-append is_parent_dir (leading p) (body (pieces p))) in
    let behind =
      ap (drop (length (components base))) (components-join base p h k)
      ∙ drop-append (components base) (body (pieces p)) in
    rw (join-starts_with base p h k, behind, above) refl

pub is_absolute-join :
    (base p : PathBuf) → is_absolute base ≡ true → is_absolute (join base p) ≡ true
unfolding join
is_absolute-join base p h = elim (Bool-cases (is_absolute p)) [
  | inl absolute ↦ rw absolute absolute
  | inr relative ↦
      rw relative
        (ground (arith, is_absolute-append base p h, is_absolute-append base (b'/' ∷ p) h))
]

-- A path that is joined by way of `..` has a parent component.
pub has_parent_dir-join_climb :
    (base p : PathBuf)
    → is_absolute base ≡ true
    → has_parent_dir (join base (b'.' ∷ b'.' ∷ b'/' ∷ p)) ≡ true
unfolding has_parent_dir
has_parent_dir-join_climb base p h =
    rw (components-join base (b'.' ∷ b'.' ∷ b'/' ∷ p) h (unfold is_absolute in refl)) (
      any-append is_parent_dir (components base) (body (pieces (b'.' ∷ b'.' ∷ b'/' ∷ p)))
      ∙ unfold body component_of pieces in ground arith)
