-- ===== src/Edits/Order.antt =====
-- The order in which hunks are listed.
use mathlib.Core.List.{Permᴰ}
use devit.Prelude.{
  ◌≡◌, refl, sym, ap, ap₂, ◌∙◌, Bool, true, false, not, ◌&&◌, List, [], ◌∷◌, ltb, ◌==◌, arith, all,
  if◌then◌else◌, Bool-cases, inl, inr, subst,
}
use devit.Text.{Text}
use devit.Text.Lines.{lines, join_lines}
use devit.Edits.Types.{EditHunk}
use devit.Edits.Apply.{
  Outcome, ok, ◌>>=◌, is_accepted, keep_accepted, insert_sorted, sort_hunks, apply_each,
  apply_sorted, apply_hunks,
}

insert_sorted_before :
    (h g : EditHunk) (hs : List EditHunk)
    → ltb h.start_line g.start_line ≡ false
    → insert_sorted h (g ∷ hs) ≡ h ∷ g ∷ hs
unfolding insert_sorted
insert_sorted_before h g hs e = rw e

insert_sorted_behind :
    (h g : EditHunk) (hs : List EditHunk)
    → ltb h.start_line g.start_line ≡ true
    → insert_sorted h (g ∷ hs) ≡ g ∷ insert_sorted h hs
unfolding insert_sorted
insert_sorted_behind h g hs e = rw (e, insert_sorted)

insert_sorted_nil : (h : EditHunk) → insert_sorted h [] ≡ h ∷ []
unfolding insert_sorted
insert_sorted_nil h = refl

-- Two hunks where the first starts earlier.
swap_less :
    (h g : EditHunk) (hs : List EditHunk)
    → ltb h.start_line g.start_line ≡ true
    → insert_sorted h (insert_sorted g hs) ≡ insert_sorted g (insert_sorted h hs)
swap_less h g [] e =
    let other : ltb g.start_line h.start_line ≡ false = ground (arith, e) in
    rw
      (
        insert_sorted_nil g,
        insert_sorted_nil h,
        insert_sorted_behind h g [] e,
        insert_sorted_before g h [] other,
        insert_sorted_nil h,
      )
      refl
swap_less h g (k ∷ ks) e = elim (Bool-cases (ltb g.start_line k.start_line)) [
  | inl behind ↦
      let hk : ltb h.start_line k.start_line ≡ true = ground (arith, e, behind) in
      rw
        (
          insert_sorted_behind g k ks behind,
          insert_sorted_behind h k _ hk,
          insert_sorted_behind h k ks hk,
          insert_sorted_behind g k _ behind,
        )
        (ap (◌∷◌ k) (swap_less h g ks e))
  | inr here ↦ elim (Bool-cases (ltb h.start_line k.start_line)) [
    | inl hk ↦
        rw
          (
            insert_sorted_before g k ks here,
            insert_sorted_behind h g _ e,
            insert_sorted_behind h k ks hk,
            insert_sorted_before g k _ here,
          )
          refl
    | inr hk ↦
        let other : ltb g.start_line h.start_line ≡ false = ground (arith, e) in
        rw
          (
            insert_sorted_before g k ks here,
            insert_sorted_behind h g _ e,
            insert_sorted_before h k ks hk,
            insert_sorted_before g h _ other,
          )
          refl
  ]
]

insert_sorted_comm :
    (h g : EditHunk) (hs : List EditHunk)
    → (h.start_line ≡ g.start_line → h ≡ g)
    → insert_sorted h (insert_sorted g hs) ≡ insert_sorted g (insert_sorted h hs)
insert_sorted_comm h g hs same = elim (Bool-cases (ltb h.start_line g.start_line)) [
  | inl less ↦ swap_less h g hs less
  | inr other ↦ elim (Bool-cases (ltb g.start_line h.start_line)) [
    | inl more ↦ sym (swap_less g h hs more)
    | inr equal ↦
        let e : h ≡ g = same (ground (arith, other, equal)) in
        subst (λ k. insert_sorted h (insert_sorted k hs) ≡ insert_sorted k (insert_sorted h hs)) e
          refl
  ]
]

-- Both are accepted and start at the same line.
abbrev clash : EditHunk → EditHunk → Bool
clash h g = is_accepted h && (is_accepted g && (h.start_line == g.start_line))

-- No two accepted hunks start at the same line.
abbrev pub starts_apart : List EditHunk → Bool
starts_apart [] = true
starts_apart (h ∷ hs) = all (λ g. not (clash h g)) hs && starts_apart hs

clash_sym : (h g : EditHunk) → clash h g ≡ clash g h
clash_sym h g = ground arith

all-perm : (p : EditHunk → Bool) {hs ks : List EditHunk} → Permᴰ hs ks → all p hs ≡ all p ks
all-perm p Permᴰ.nil = refl
all-perm p (Permᴰ.cons e r) = cc (ap p e, all-perm p r)
all-perm p (Permᴰ.swap e f) = ground (arith, ap p e, ap p f)
all-perm p (Permᴰ.trans r s) = all-perm p r ∙ all-perm p s

starts_apart-perm : {hs ks : List EditHunk} → Permᴰ hs ks → starts_apart hs ≡ starts_apart ks
starts_apart-perm Permᴰ.nil = refl
starts_apart-perm (Permᴰ.cons {a} {b} {l₁} {l₂} e r) =
    ap₂ ◌&&◌ (ap (λ k. all (λ g. not (clash k g)) l₁) e ∙ all-perm (λ g. not (clash b g)) r)
      (starts_apart-perm r)
starts_apart-perm (Permᴰ.swap {a} {b} {a' = a'} {b' = b'} {l} e f) =
    swapped ∙ ap₂ (λ x y. starts_apart (x ∷ y ∷ l)) f e
  where
    swapped : starts_apart (a ∷ b ∷ l) ≡ starts_apart (b ∷ a ∷ l)
    swapped = ground (arith, clash_sym a b)
starts_apart-perm (Permᴰ.trans r s) = starts_apart-perm r ∙ starts_apart-perm s

abbrev sorted : List EditHunk → List EditHunk
sorted hs = sort_hunks (keep_accepted hs)

sorted_cons :
    (h : EditHunk) (hs : List EditHunk)
    → sorted (h ∷ hs) ≡ (if is_accepted h then insert_sorted h (sorted hs) else sorted hs)
unfolding keep_accepted sort_hunks
sorted_cons h hs = elim (Bool-cases (is_accepted h)) [
  | inl kept ↦ rw (kept, keep_accepted, sort_hunks) refl
  | inr left ↦ rw (left, keep_accepted, sort_hunks) refl
]

sorted_swap :
    (h g : EditHunk) (hs : List EditHunk)
    → (is_accepted h ≡ true → is_accepted g ≡ true → h.start_line ≡ g.start_line → h ≡ g)
    → sorted (h ∷ g ∷ hs) ≡ sorted (g ∷ h ∷ hs)
sorted_swap h g hs same =
    sorted_cons h (g ∷ hs)
    ∙ ap (λ s. if is_accepted h then insert_sorted h s else s) (sorted_cons g hs)
    ∙ by_status (is_accepted h) (is_accepted g) refl refl
    ∙ sym (
        sorted_cons g (h ∷ hs)
        ∙ ap (λ s. if is_accepted g then insert_sorted g s else s) (sorted_cons h hs))
  where
    by_status :
        (a b : Bool)
        → is_accepted h ≡ a
        → is_accepted g ≡ b
        → (if a
            then insert_sorted h (if b then insert_sorted g (sorted hs) else sorted hs)
            else if b
            then insert_sorted g (sorted hs)
            else sorted hs)
          ≡ (if b
              then insert_sorted g (if a then insert_sorted h (sorted hs) else sorted hs)
              else if a
              then insert_sorted h (sorted hs)
              else sorted hs)
    by_status true true x y = insert_sorted_comm h g (sorted hs) (same x y)
    by_status true false x y = refl
    by_status false true x y = refl
    by_status false false x y = refl

sorted-perm : {hs ks : List EditHunk} → Permᴰ hs ks → starts_apart hs ≡ true → sorted hs ≡ sorted ks
sorted-perm Permᴰ.nil apart = refl
sorted-perm (Permᴰ.cons {a} {b} {l₁} {l₂} e r) apart =
    sorted_cons a l₁
    ∙ ap₂ (λ k s. if is_accepted k then insert_sorted k s else s) e
        (sorted-perm r (ground (arith, apart)))
    ∙ sym (sorted_cons b l₂)
sorted-perm (Permᴰ.swap {a} {b} {a' = a'} {b' = b'} {l} e f) apart =
    sorted_swap a b l (λ x y same. absurd (ground (arith, apart, x, y, same)))
    ∙ ap₂ (λ x y. sorted (x ∷ y ∷ l)) f e
sorted-perm (Permᴰ.trans r s) apart =
    sorted-perm r apart ∙ sorted-perm s (sym (starts_apart-perm r) ∙ apart)

abbrev from_sorted : Text → List EditHunk → Outcome Text
from_sorted content [] = ok content
from_sorted content (h ∷ hs) = apply_each (lines content) (h ∷ hs) >>= λ ls. ok (join_lines ls)

insert_sorted_from :
    (content : Text) (h : EditHunk) (hs : List EditHunk)
    → from_sorted content (insert_sorted h hs)
      ≡ (apply_each (lines content) (insert_sorted h hs) >>= λ ls. ok (join_lines ls))
unfolding insert_sorted
insert_sorted_from content h [] = refl
insert_sorted_from content h (g ∷ gs) = elim (Bool-cases (ltb h.start_line g.start_line)) [
  | inl less ↦ rw (less, insert_sorted) refl
  | inr other ↦ rw (other, insert_sorted) refl
]

apply_sorted-sort :
    (content : Text) (hs : List EditHunk)
    → apply_sorted content hs ≡ from_sorted content (sort_hunks hs)
unfolding apply_sorted sort_hunks
apply_sorted-sort content [] = refl
apply_sorted-sort content (h ∷ hs) = sym (insert_sorted_from content h (sort_hunks hs))

-- Where no two accepted hunks start at the same line, the order in which the hunks are listed does
-- not change what is applied.
pub apply_hunks-perm :
    (content : Text) (hs ks : List EditHunk)
    → Permᴰ hs ks
    → starts_apart hs ≡ true
    → apply_hunks content hs ≡ apply_hunks content ks
unfolding apply_hunks
apply_hunks-perm content hs ks r apart =
    apply_sorted-sort content (keep_accepted hs)
    ∙ ap (from_sorted content) (sorted-perm r apart)
    ∙ sym (apply_sorted-sort content (keep_accepted ks))
