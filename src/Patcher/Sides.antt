-- ===== src/Patcher/Sides.antt =====
-- The two sides of a hunk, and when it validates.
use devit.Prelude.{
  ℕ, zero, suc, ◌+◌, ◌≤◌, ◌≡◌, refl, ap, ap₂, ◌∙◌, some, List, [], ◌∷◌, ◌++◌, arith, length,
  get_elem?, drop,
}
use devit.Text.{Text, text_eq_iff, text_eq_refl}
use devit.Errors.{
  Outcome, ok, err, panicked, no_fuel, ◌>>=◌, ConflictType, context_mismatch, remove_mismatch,
}
use devit.Patch.Types.{PatchLine, context, add, remove}
use devit.Patcher.Hunk.{check_line, validate}

-- The lines that a hunk expects, and those that it leaves.
abbrev pub old_side : List PatchLine → List Text
old_side [] = []
old_side (context l ∷ ls) = l ∷ old_side ls
old_side (remove l ∷ ls) = l ∷ old_side ls
old_side (add l ∷ ls) = old_side ls

abbrev pub new_side : List PatchLine → List Text
new_side [] = []
new_side (context l ∷ ls) = l ∷ new_side ls
new_side (remove l ∷ ls) = new_side ls
new_side (add l ∷ ls) = l ∷ new_side ls

-- The lines from `i` on, where there is one at `i`.
get_elem?-drop :
    (i : ℕ) (xs : List Text) (x : Text) → get_elem? xs i ≡ some x → drop i xs ≡ x ∷ drop (suc i) xs
get_elem?-drop i [] x h = cc
get_elem?-drop zero (y ∷ ys) x h = ground arith
get_elem?-drop (suc i) (y ∷ ys) x h = get_elem?-drop i ys x h

get_elem?-some :
    (i : ℕ) (xs : List Text) → suc i ≤ length xs → (x : Text) × (get_elem? xs i ≡ some x)
get_elem?-some i [] h = absurd (omega arith)
get_elem?-some zero (y ∷ ys) h = (y, refl)
get_elem?-some (suc i) (y ∷ ys) h = get_elem?-some i ys (omega arith)

check_line-some :
    (lines : List Text) (i : ℕ) (kind : ConflictType) (l x : Text)
    → get_elem? lines i ≡ some x
    → check_line lines i kind l ≡ ok tt
    → x ≡ l
unfolding check_line
check_line-some lines i kind l x e h = (text_eq_iff x l).0 (ground arith)

pub bind-eq-ok {ℓ} :
    {B : Type ℓ} (m : Outcome (Unit {0})) (k : Outcome B) {b : B}
    → (m >>= λ _. k) ≡ ok b
    → (m ≡ ok tt) × (k ≡ ok b)
bind-eq-ok (ok tt) k h = (refl, h)
bind-eq-ok (err e) k h = cc
bind-eq-ok panicked k h = cc
bind-eq-ok no_fuel k h = cc

finds_step :
    (lines : List Text) (i : ℕ) (kind : ConflictType) (l : Text) (tail : List Text)
    → suc i ≤ length lines
    → check_line lines i kind l ≡ ok tt
    → drop (i + 1) lines ≡ tail
    → drop i lines ≡ l ∷ tail
finds_step lines i kind l tail h c e =
    let there = get_elem?-some i lines h in
    get_elem?-drop i lines there.0 there.1
    ∙ ap₂ ◌∷◌ (check_line-some lines i kind l there.0 there.1 c)
        (ap (λ n. drop n lines) {x = suc i} (omega arith) ∙ e)

-- Where the lines do not run out, a hunk that validates finds its old side.
pub validate-finds :
    (lines : List Text) (i : ℕ) (ls : List PatchLine)
    → i + length (old_side ls) ≤ length lines
    → validate lines i ls ≡ ok tt
    → drop i lines ≡ old_side ls ++ drop (i + length (old_side ls)) lines
unfolding validate
validate-finds lines i [] h v = ap (λ n. drop n lines) (omega arith)
validate-finds lines i (add l ∷ ls) h v = validate-finds lines i ls h v
validate-finds lines i (context l ∷ ls) h v =
    let both = bind-eq-ok (check_line lines i context_mismatch l) (validate lines (i + 1) ls) v in
    finds_step lines i context_mismatch l _ (omega arith) both.0 (
      validate-finds lines (i + 1) ls (omega arith) both.1
      ∙ ap (λ n. old_side ls ++ drop n lines) (omega arith))
validate-finds lines i (remove l ∷ ls) h v =
    let both = bind-eq-ok (check_line lines i remove_mismatch l) (validate lines (i + 1) ls) v in
    finds_step lines i remove_mismatch l _ (omega arith) both.0 (
      validate-finds lines (i + 1) ls (omega arith) both.1
      ∙ ap (λ n. old_side ls ++ drop n lines) (omega arith))

drop-get_elem? :
    (i : ℕ) (xs : List Text) (x : Text) (t : List Text)
    → drop i xs ≡ x ∷ t
    → (get_elem? xs i ≡ some x) × (drop (suc i) xs ≡ t)
drop-get_elem? zero [] x t h = cc
drop-get_elem? zero (y ∷ ys) x t h = (ground arith, ground arith)
drop-get_elem? (suc i) [] x t h = cc
drop-get_elem? (suc i) (y ∷ ys) x t h = drop-get_elem? i ys x t h

check_line_same :
    (lines : List Text) (i : ℕ) (kind : ConflictType) (l : Text)
    → get_elem? lines i ≡ some l
    → check_line lines i kind l ≡ ok tt
unfolding check_line
check_line_same lines i kind l e = rw (e, check_line, text_eq_refl l) refl

accepts_step :
    (lines : List Text) (i : ℕ) (kind : ConflictType) (l : Text) (tail : List Text)
    → drop i lines ≡ l ∷ tail
    → (check_line lines i kind l ≡ ok tt) × (drop (i + 1) lines ≡ tail)
accepts_step lines i kind l tail e =
    let there = drop-get_elem? i lines l tail e in
    (
      check_line_same lines i kind l there.0,
      ap (λ n. drop n lines) {y = suc i} (omega arith) ∙ there.1,
    )

-- Where the old side stands, the hunk validates.
pub validate-accepts :
    (lines : List Text) (i : ℕ) (ls : List PatchLine) (after : List Text)
    → drop i lines ≡ old_side ls ++ after
    → validate lines i ls ≡ ok tt
unfolding validate
validate-accepts lines i [] after e = refl
validate-accepts lines i (add l ∷ ls) after e = validate-accepts lines i ls after e
validate-accepts lines i (context l ∷ ls) after e =
    let step = accepts_step lines i context_mismatch l (old_side ls ++ after) e in
    rw step.0 (validate-accepts lines (i + 1) ls after step.1)
validate-accepts lines i (remove l ∷ ls) after e =
    let step = accepts_step lines i remove_mismatch l (old_side ls ++ after) e in
    rw step.0 (validate-accepts lines (i + 1) ls after step.1)
