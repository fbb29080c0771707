-- ===== src/Approval/Order.antt =====
-- How approval levels compare, and what they may access.
use devit.Prelude.{◌≡◌, refl, Bool, true, List, [], ◌∷◌, arith, any, all}
use devit.Paths.{PathBuf, Component, starts_with, path_eq, begins_with, same_components, components}
use devit.Paths.Prefix.{starts_with_refl, starts_with_trans}
use devit.Approval.{
  ApprovalLevel, untrusted, ask, moderate, trusted, privileged, lies_under, can_access_path,
  satisfies,
}

begins_with-same_components :
    (cs ds : List Component) → same_components cs ds ≡ true → begins_with cs ds ≡ true
unfolding same_components begins_with
begins_with-same_components [] [] h = refl
begins_with-same_components [] (d ∷ ds) h = cc
begins_with-same_components (c ∷ cs) [] h = refl
begins_with-same_components (c ∷ cs) (d ∷ ds) h = ground (arith, begins_with-same_components cs ds)

-- The test for equal paths adds nothing to the test for a prefix.
pub lies_under-eq-starts_with : (p a : PathBuf) → lies_under p a ≡ starts_with p a
unfolding lies_under starts_with path_eq
lies_under-eq-starts_with p a =
    ground (arith, begins_with-same_components (components p) (components a))

lies_under_refl : (p : PathBuf) → lies_under p p ≡ true
lies_under_refl p = rw lies_under-eq-starts_with (starts_with_refl p)

lies_under_trans :
    (p q r : PathBuf) → lies_under p q ≡ true → lies_under q r ≡ true → lies_under p r ≡ true
lies_under_trans p q r h k = rw lies_under-eq-starts_with (
    starts_with_trans p q r (rw lies_under-eq-starts_with at h) (rw lies_under-eq-starts_with at k))

-- What lies under a path lies under each of the directories that the path lies under.
any-lies_under_trans :
    (p q : PathBuf) (allowed : List PathBuf)
    → lies_under p q ≡ true
    → any (lies_under q) allowed ≡ true
    → any (lies_under p) allowed ≡ true
any-lies_under_trans p q [] h k = k
any-lies_under_trans p q (a ∷ as') h k =
    ground (arith, lies_under_trans p q a, any-lies_under_trans p q as' h)

abbrev covered : List PathBuf → PathBuf → Bool
covered allowed p = any (lies_under p) allowed

any-covered :
    (p : PathBuf) (bs as' : List PathBuf)
    → any (lies_under p) bs ≡ true
    → all (covered as') bs ≡ true
    → any (lies_under p) as' ≡ true
any-covered p [] as' h k = cc
any-covered p (b ∷ bs) as' h k = ground (arith, any-lies_under_trans p b as', any-covered p bs as')

all-covered_trans :
    (cs bs as' : List PathBuf)
    → all (covered bs) cs ≡ true
    → all (covered as') bs ≡ true
    → all (covered as') cs ≡ true
all-covered_trans [] bs as' h k = refl
all-covered_trans (c ∷ cs) bs as' h k =
    ground (arith, any-covered c bs as', all-covered_trans cs bs as')

covered_weaken :
    (p a : PathBuf) (as' : List PathBuf) → covered as' p ≡ true → covered (a ∷ as') p ≡ true
covered_weaken p a as' h = ground arith

all-covered_weaken :
    (ps : List PathBuf) (a : PathBuf) (as' : List PathBuf)
    → all (covered as') ps ≡ true
    → all (covered (a ∷ as')) ps ≡ true
all-covered_weaken [] a as' h = refl
all-covered_weaken (p ∷ ps) a as' h =
    ground (arith, covered_weaken p a as', all-covered_weaken ps a as')

all-covered_refl : (ps : List PathBuf) → all (covered ps) ps ≡ true
all-covered_refl [] = refl
all-covered_refl (p ∷ ps) =
    ground (arith, lies_under_refl p, all-covered_weaken ps p ps (all-covered_refl ps))

-- Every approval level satisfies itself.
pub satisfies_refl : (a : ApprovalLevel) → satisfies a a ≡ true
unfolding satisfies
satisfies_refl untrusted = refl
satisfies_refl ask = refl
satisfies_refl moderate = refl
satisfies_refl trusted = refl
satisfies_refl (privileged ps) = all-covered_refl ps

-- If one level satisfies a second and that one a third, the first satisfies the third, privileged
-- levels with their lists of paths included.
pub satisfies_trans :
    (a b c : ApprovalLevel) → satisfies a b ≡ true → satisfies b c ≡ true → satisfies a c ≡ true
unfolding satisfies
satisfies_trans (privileged xs) (privileged ys) (privileged zs) h k = all-covered_trans zs ys xs k h
satisfies_trans (privileged xs) (privileged ys) untrusted h k = refl
satisfies_trans (privileged xs) (privileged ys) ask h k = refl
satisfies_trans (privileged xs) (privileged ys) moderate h k = refl
satisfies_trans (privileged xs) (privileged ys) trusted h k = refl
satisfies_trans (privileged xs) b c h k = ground arith
satisfies_trans a b c h k = ground arith

-- A privileged level that satisfies another privileged level may access every path that the other
-- one may access.
pub can_access_path-satisfies :
    (ours required : List PathBuf) (p : PathBuf)
    → satisfies (privileged ours) (privileged required) ≡ true
    → can_access_path (privileged required) p ≡ true
    → can_access_path (privileged ours) p ≡ true
unfolding satisfies can_access_path
can_access_path-satisfies ours required p h k = any-covered p required ours k h
