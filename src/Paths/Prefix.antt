-- ===== src/Paths/Prefix.antt =====
-- `starts_with` is an order on paths.
use devit.Prelude.{
  ◌≡◌, refl, sym, ap, ◌∙◌, true, List, [], ◌∷◌, ◌++◌, arith, append-nil, append_assoc,
}
use devit.Text.{text_eq_iff, text_eq_refl}
use devit.Paths.{
  PathBuf, Component, root_dir, cur_dir, parent_dir, normal, components, component_eq, begins_with,
  starts_with,
}

pub component_eq_refl : (c : Component) → component_eq c c ≡ true
unfolding component_eq
component_eq_refl root_dir = refl
component_eq_refl cur_dir = refl
component_eq_refl parent_dir = refl
component_eq_refl (normal a) = text_eq_refl a

pub begins_with-append : (cs ds : List Component) → begins_with (cs ++ ds) cs ≡ true
unfolding begins_with
begins_with-append [] ds = refl
begins_with-append (c ∷ cs) ds = ground (arith, component_eq_refl c, begins_with-append cs ds)

-- Every path starts with itself.
pub starts_with_refl : (p : PathBuf) → starts_with p p ≡ true
unfolding starts_with
starts_with_refl p =
    ap (λ cs. begins_with cs (components p)) (sym (append-nil (components p)))
    ∙ begins_with-append (components p) []

pub component_eq-eq : (c d : Component) → component_eq c d ≡ true → c ≡ d
unfolding component_eq
component_eq-eq root_dir root_dir h = refl
component_eq-eq cur_dir cur_dir h = refl
component_eq-eq parent_dir parent_dir h = refl
component_eq-eq (normal a) (normal b) h = ap normal ((text_eq_iff a b).0 h)
component_eq-eq _ _ h = cc

-- The test says that the second list is a prefix of the first.
pub begins_with-split :
    (cs ds : List Component)
    → begins_with cs ds ≡ true
    → (rest : List Component) × (cs ≡ ds ++ rest)
unfolding begins_with
begins_with-split cs [] h = (cs, refl)
begins_with-split [] (d ∷ ds) h = cc
begins_with-split (c ∷ cs) (d ∷ ds) h =
    let below = begins_with-split cs ds (ground arith) in
    (below.0, ground (arith, component_eq-eq c d, below.1))

pub begins_with_trans :
    (bs cs ds : List Component)
    → begins_with bs cs ≡ true
    → begins_with cs ds ≡ true
    → begins_with bs ds ≡ true
begins_with_trans bs cs ds h k =
    let upper = begins_with-split bs cs h in
    let lower = begins_with-split cs ds k in
    rw (upper.1, lower.1, append_assoc ds lower.0 upper.0) (begins_with-append ds _)

pub starts_with_trans :
    (p q r : PathBuf) → starts_with p q ≡ true → starts_with q r ≡ true → starts_with p r ≡ true
unfolding starts_with
starts_with_trans p q r = begins_with_trans (components p) (components q) (components r)
