-- ===== src/Policy/Compare.antt =====
-- The levels compared, and changes in another order.
use devit.Prelude.{
  ◌%◌, ◌^◌, ◌≤◌, ◌≡◌, refl, sym, ap, ap₂, Bool, true, ◌&&◌, List, [], ◌∷◌, arith, leb, all, length,
  ◌∙◌,
}
use devit.Text.{Text}
use devit.Approval.{ApprovalLevel, untrusted, ask, moderate, trusted, privileged}
use devit.Policy.Types.{FileChange, PolicyContext}
use devit.Policy.Checks.{is_whitelisted_binary}
use devit.Policy.Spec.{
  line_count, is_silent, is_clean, is_under, is_small, is_moderate, is_trusted, permitted,
  automatic,
}
use mathlib.Core.Logic.{∥∥₁_elim}
use mathlib.Core.List.{Perm, Permᴰ}
use devit.Prelude.{Bool-set, suc}
use mathlib.Core.HLevel.{×_prop}
use devit.Policy.Engine.{evaluate_at}
use devit.Policy.Decisions.{evaluate_at-Decides}

small_moderate :
    (context : PolicyContext) (fcs : List FileChange)
    → all (is_small context) fcs ≡ true
    → all (is_moderate context) fcs ≡ true
small_moderate context [] h = refl
small_moderate context (fc ∷ fcs) h = ground (arith, small_moderate context fcs)

small_lines :
    (context : PolicyContext) (fcs : List FileChange)
    → length fcs ≤ 2
    → all (is_small context) fcs ≡ true
    → line_count fcs % 2 ^ 64 ≤ 40
unfolding line_count
small_lines context [] l h = omega arith
small_lines context (a ∷ []) l h = ground arith
small_lines context (a ∷ b ∷ []) l h = ground arith
small_lines context (a ∷ b ∷ c ∷ rest) l h = omega arith

moderate_trusted :
    (to_lowercase : Text → Text) (context : PolicyContext) (fcs : List FileChange)
    → all (is_moderate context) fcs ≡ true
    → all (is_trusted to_lowercase context) fcs ≡ true
unfolding is_whitelisted_binary
moderate_trusted to_lowercase context [] h = refl
moderate_trusted to_lowercase context (fc ∷ fcs) h =
    ground (arith, moderate_trusted to_lowercase context fcs)

-- With a configuration that lets two files and forty lines pass at the moderate level, changes that
-- the ask level permits with no confirmation are so permitted at the moderate and the trusted level.
pub evaluate_at-ask_moderate_trusted :
    (to_lowercase : Text → Text) (context : PolicyContext)
    → 2 ≤ context.config.max_files_moderate
    → 40 ≤ context.config.max_lines_moderate
    → is_silent (evaluate_at to_lowercase context ask) ≡ true
    → (is_silent (evaluate_at to_lowercase context moderate) ≡ true)
      × (is_silent (evaluate_at to_lowercase context trusted) ≡ true)
evaluate_at-ask_moderate_trusted to_lowercase context f l h = ground (
  arith,
  evaluate_at-Decides to_lowercase context ask,
  evaluate_at-Decides to_lowercase context moderate,
  evaluate_at-Decides to_lowercase context trusted,
  small_moderate context context.file_changes,
  small_lines context context.file_changes,
  moderate_trusted to_lowercase context context.file_changes,
)

-- Changes that the moderate level permits with no confirmation are so permitted at the trusted level.
pub evaluate_at-moderate_trusted :
    (to_lowercase : Text → Text) (context : PolicyContext)
    → is_silent (evaluate_at to_lowercase context moderate) ≡ true
    → is_silent (evaluate_at to_lowercase context trusted) ≡ true
evaluate_at-moderate_trusted to_lowercase context h = ground (
  arith,
  evaluate_at-Decides to_lowercase context moderate,
  evaluate_at-Decides to_lowercase context trusted,
  moderate_trusted to_lowercase context context.file_changes,
)

all-perm : (p : FileChange → Bool) {xs ys : List FileChange} → Permᴰ xs ys → all p xs ≡ all p ys
all-perm p Permᴰ.nil = refl
all-perm p (Permᴰ.cons e r) = cc (ap p e, all-perm p r)
all-perm p (Permᴰ.swap e f) = ground (arith, ap p e, ap p f)
all-perm p (Permᴰ.trans r s) = all-perm p r ∙ all-perm p s

length-perm : {xs ys : List FileChange} → Permᴰ xs ys → length xs ≡ length ys
length-perm Permᴰ.nil = refl
length-perm (Permᴰ.cons e r) = ap suc (length-perm r)
length-perm (Permᴰ.swap e f) = refl
length-perm (Permᴰ.trans r s) = length-perm r ∙ length-perm s

line_count-perm : {xs ys : List FileChange} → Permᴰ xs ys → line_count xs ≡ line_count ys
unfolding line_count
line_count-perm Permᴰ.nil = refl
line_count-perm (Permᴰ.cons e r) = omega (
  arith,
  ap (λ (fc : FileChange). fc.lines_added) e,
  ap (λ (fc : FileChange). fc.lines_deleted) e,
  line_count-perm r,
)
line_count-perm (Permᴰ.swap e f) = omega (
  arith,
  ap (λ (fc : FileChange). fc.lines_added) e,
  ap (λ (fc : FileChange). fc.lines_deleted) e,
  ap (λ (fc : FileChange). fc.lines_added) f,
  ap (λ (fc : FileChange). fc.lines_deleted) f,
)
line_count-perm (Permᴰ.trans r s) = line_count-perm r ∙ line_count-perm s

abbrev pub with_changes : PolicyContext → List FileChange → PolicyContext
with_changes context fcs = record context { file_changes = fcs }

permitted-perm :
    (context : PolicyContext) (level : ApprovalLevel) {xs ys : List FileChange}
    → Permᴰ xs ys
    → permitted (with_changes context xs) level ≡ permitted (with_changes context ys) level
permitted-perm context untrusted r = all-perm is_clean r
permitted-perm context ask r = all-perm is_clean r
permitted-perm context moderate r = all-perm is_clean r
permitted-perm context trusted r = all-perm is_clean r
permitted-perm context (privileged ps) r = all-perm (is_under ps) r

automatic-perm :
    (to_lowercase : Text → Text) (context : PolicyContext) (level : ApprovalLevel)
    {xs ys : List FileChange}
    → Permᴰ xs ys
    → automatic to_lowercase (with_changes context xs) level
      ≡ automatic to_lowercase (with_changes context ys) level
automatic-perm to_lowercase context untrusted r = refl
automatic-perm to_lowercase context ask r =
    ap₂ (λ n b. leb n 2 && b) (length-perm r) (all-perm (is_small context) r)
automatic-perm to_lowercase context moderate r =
    ground (arith, length-perm r, line_count-perm r, all-perm (is_moderate context) r)
automatic-perm to_lowercase context trusted r = all-perm (is_trusted to_lowercase context) r
automatic-perm to_lowercase context (privileged ps) r = all-perm (is_under ps) r

-- The order in which the file changes are listed changes neither whether they are permitted nor
-- whether they are permitted with no confirmation, at any level.
pub evaluate_at-perm :
    (to_lowercase : Text → Text) (context : PolicyContext) (level : ApprovalLevel)
    (xs ys : List FileChange)
    → Perm xs ys
    → ((evaluate_at to_lowercase (with_changes context xs) level).allow
        ≡ (evaluate_at to_lowercase (with_changes context ys) level).allow)
      × (is_silent (evaluate_at to_lowercase (with_changes context xs) level)
          ≡ is_silent (evaluate_at to_lowercase (with_changes context ys) level))
evaluate_at-perm to_lowercase context level xs ys p =
    let before = evaluate_at-Decides to_lowercase (with_changes context xs) level in
    let after = evaluate_at-Decides to_lowercase (with_changes context ys) level in
    ∥∥₁_elim p (×_prop (Bool-set _ _) (Bool-set _ _)) λ r. (
      before.0 ∙ permitted-perm context level r ∙ sym after.0,
      before.1 ∙ automatic-perm to_lowercase context level r ∙ sym after.1,
    )
