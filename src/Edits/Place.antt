-- ===== src/Edits/Place.antt =====
-- Where hunks take effect.
use devit.Prelude.{
  ℕ, zero, suc, ◌+◌, ◌≤◌, ◌≡◌, refl, sym, ap, ◌∙◌, Bool, true, false, List, [], ◌∷◌, ◌++◌, ltb,
  arith, all, length, length-append, append_assoc, Bool-cases, inl, inr,
}
use devit.Text.{Text}
use devit.Text.Lines.{lines, join_lines}
use devit.Edits.Types.{EditHunk}
use devit.Edits.Apply.{
  Outcome, ok, panicked, ◌>>=◌, is_accepted, keep_accepted, insert_sorted, sort_hunks, apply_hunk,
  apply_each, apply_sorted, apply_hunks,
}
use devit.Edits.Ranges.{inserts, apply_hunk-range, apply_hunk-insertion}

-- From line `n` on, each hunk names a range of at least one line, or a line to insert behind, in order
-- and with no overlap; the hunks start at `b` or later, each later than the one before. `result` has
-- the replacements in place.
pub data Places : ℕ → ℕ → List EditHunk → List Text → List Text → Type 0 where
  done : {b n : ℕ} {ls : List Text} → Places b n [] ls ls
  range :
      {b n m : ℕ} {hunk : EditHunk} {hunks : List EditHunk} {ls result : List Text}
      (keep old rest rest' : List Text)
      → is_accepted hunk ≡ true
      → inserts hunk ≡ false
      → suc zero ≤ length old
      → b ≤ hunk.start_line
      → hunk.start_line ≡ n + length keep + 1
      → hunk.end_line ≡ n + length keep + length old
      → m ≡ n + length keep + length old
      → ls ≡ keep ++ (old ++ rest)
      → result ≡ keep ++ (lines hunk.replacement ++ rest')
      → Places (hunk.start_line + 1) m hunks rest rest'
      → Places b n (hunk ∷ hunks) ls result
  insertion :
      {b n m : ℕ} {hunk : EditHunk} {hunks : List EditHunk} {ls result : List Text}
      (keep rest rest' : List Text)
      → is_accepted hunk ≡ true
      → inserts hunk ≡ true
      → b ≤ hunk.start_line
      → hunk.start_line ≡ n + length keep
      → m ≡ n + length keep
      → ls ≡ keep ++ rest
      → result ≡ keep ++ (lines hunk.replacement ++ rest')
      → Places (hunk.start_line + 1) m hunks rest rest'
      → Places b n (hunk ∷ hunks) ls result

abbrev starts_from : ℕ → List EditHunk → Bool
starts_from b hs = all (λ h. ltb b (h.start_line + 1)) hs

starts_from-insert_sorted :
    (b : ℕ) (h : EditHunk) (hs : List EditHunk)
    → b ≤ h.start_line
    → starts_from b hs ≡ true
    → starts_from b (insert_sorted h hs) ≡ true
unfolding insert_sorted
starts_from-insert_sorted b h [] e k = ground arith
starts_from-insert_sorted b h (g ∷ gs) e k = elim (Bool-cases (ltb h.start_line g.start_line)) [
  | inl less ↦
      let later = starts_from-insert_sorted b h gs e (ground arith) in
      rw (less, insert_sorted) (ground (arith, later))
  | inr other ↦ rw (other, insert_sorted) (ground arith)
]

-- A hunk that starts before all others goes to the end.
insert_sorted-last :
    (h : EditHunk) (hs : List EditHunk)
    → starts_from (h.start_line + 1) hs ≡ true
    → insert_sorted h hs ≡ hs ++ h ∷ []
unfolding insert_sorted
insert_sorted-last h [] k = refl
insert_sorted-last h (g ∷ gs) k =
    let less : ltb h.start_line g.start_line ≡ true = ground (arith, k) in
    rw (less, insert_sorted) (ap (◌∷◌ g) (insert_sorted-last h gs (ground (arith, k))))

starts_from_mono :
    (b c : ℕ) (hs : List EditHunk) → b ≤ c → starts_from c hs ≡ true → starts_from b hs ≡ true
starts_from_mono b c [] e k = refl
starts_from_mono b c (h ∷ hs) e k = ground (arith, starts_from_mono b c hs e)

Places-starts_from :
    {b n : ℕ} {hs : List EditHunk} {ls result : List Text}
    → Places b n hs ls result
    → starts_from b (sort_hunks hs) ≡ true
unfolding sort_hunks
Places-starts_from done = refl
Places-starts_from (range {b} {hunk = hunk} {hunks} keep old rest rest' a i l from s e m x y p) =
    starts_from-insert_sorted b hunk (sort_hunks hunks) from (
      starts_from_mono b (hunk.start_line + 1) (sort_hunks hunks) (omega arith)
        (Places-starts_from p))
Places-starts_from (insertion {b} {hunk = hunk} {hunks} keep rest rest' a i from s m x y p) =
    starts_from-insert_sorted b hunk (sort_hunks hunks) from (
      starts_from_mono b (hunk.start_line + 1) (sort_hunks hunks) (omega arith)
        (Places-starts_from p))

apply_each-append :
    (ls : List Text) (hs : List EditHunk) (h : EditHunk)
    → apply_each ls (hs ++ h ∷ []) ≡ (apply_each ls hs >>= λ ls'. apply_hunk ls' h)
unfolding apply_each
apply_each-append ls [] h = last (apply_hunk ls h)
  where
    last : (r : Outcome (List Text)) → (r >>= λ ls'. ok ls') ≡ r
    last (ok ls') = refl
    last panicked = refl
apply_each-append ls (g ∷ gs) h = step (apply_hunk ls g) (λ ls'. apply_each-append ls' gs h)
  where
    step :
        (r : Outcome (List Text))
        → ((ls' : List Text)
            → apply_each ls' (gs ++ h ∷ []) ≡ (apply_each ls' gs >>= λ x. apply_hunk x h))
        → (r >>= λ ls'. apply_each ls' (gs ++ h ∷ []))
          ≡ ((r >>= λ ls'. apply_each ls' gs) >>= λ ls'. apply_hunk ls' h)
    step (ok ls') k = k ls'
    step panicked k = refl

-- The first hunk is the last one to be applied.
sort_hunks_first :
    (ls later result : List Text) (h : EditHunk) (hs : List EditHunk)
    → starts_from (h.start_line + 1) (sort_hunks hs) ≡ true
    → apply_each ls (sort_hunks hs) ≡ ok later
    → apply_hunk later h ≡ ok result
    → apply_each ls (sort_hunks (h ∷ hs)) ≡ ok result
unfolding sort_hunks
sort_hunks_first ls later result h hs k e f =
    ap (apply_each ls) (insert_sorted-last h (sort_hunks hs) k)
    ∙ apply_each-append ls (sort_hunks hs) h
    ∙ ap (λ r. r >>= λ ls'. apply_hunk ls' h) e
    ∙ f

split_lines :
    (before keep old rest : List Text)
    → before ++ (keep ++ (old ++ rest)) ≡ (before ++ (keep ++ old)) ++ rest
split_lines before keep old rest = simp append_assoc

join_parts :
    (before keep old rest : List Text)
    → (before ++ (keep ++ old)) ++ rest ≡ (before ++ keep) ++ (old ++ rest)
join_parts before keep old rest = simp append_assoc

apply_each-Places :
    {b n : ℕ} {hs : List EditHunk} {ls result : List Text}
    → Places b n hs ls result
    → (before : List Text) → length before ≡ n
    → apply_each (before ++ ls) (sort_hunks hs) ≡ ok (before ++ result)
apply_each-Places done before e = unfold sort_hunks apply_each in refl
apply_each-Places
      (range {n = n} {hunk = hunk} {hunks} {ls} {result} keep old rest rest' a i l from s f m x y p)
      before e =
    ap (λ t. apply_each (before ++ t) (sort_hunks (hunk ∷ hunks))) x
    ∙ ap (λ t. apply_each t (sort_hunks (hunk ∷ hunks))) (split_lines before keep old rest)
    ∙ sort_hunks_first _ _ _ hunk hunks (Places-starts_from p)
        (apply_each-Places p (before ++ (keep ++ old))
          (omega (arith, length-append before (keep ++ old), length-append keep old)))
        (ap (λ t. apply_hunk t hunk) (join_parts before keep old rest')
          ∙ apply_hunk-range (before ++ keep) old rest' hunk i l
              (omega (arith, length-append before keep)) (omega (arith, length-append before keep)))
    ∙ ap ok (append_assoc before keep (lines hunk.replacement ++ rest') ∙ ap (◌++◌ before) (sym y))
apply_each-Places
      (insertion {n = n} {hunk = hunk} {hunks} {ls} {result} keep rest rest' a i from s m x y p)
      before e =
    ap (λ t. apply_each (before ++ t) (sort_hunks (hunk ∷ hunks))) x
    ∙ ap (λ t. apply_each t (sort_hunks (hunk ∷ hunks))) (sym (append_assoc before keep rest))
    ∙ sort_hunks_first _ _ _ hunk hunks (Places-starts_from p)
        (apply_each-Places p (before ++ keep) (omega (arith, length-append before keep)))
        (apply_hunk-insertion (before ++ keep) rest' hunk i
          (omega (arith, length-append before keep)))
    ∙ ap ok (append_assoc before keep (lines hunk.replacement ++ rest') ∙ ap (◌++◌ before) (sym y))

keep_accepted-Places :
    {b n : ℕ} {hs : List EditHunk} {ls result : List Text}
    → Places b n hs ls result
    → keep_accepted hs ≡ hs
unfolding keep_accepted
keep_accepted-Places done = refl
keep_accepted-Places (range {hunk = hunk} keep old rest rest' a i l from s e m x y p) =
    rw (a, keep_accepted) (ap (◌∷◌ hunk) (keep_accepted-Places p))
keep_accepted-Places (insertion {hunk = hunk} keep rest rest' a i from s m x y p) =
    rw (a, keep_accepted) (ap (◌∷◌ hunk) (keep_accepted-Places p))

-- Accepted hunks whose lines refer to the original content all take effect at their places: the
-- result has each named range replaced and each insertion behind its line, provided that there is a
-- hunk, that the ranges do not overlap and that each hunk starts later than the one before.
pub apply_hunks-Places :
    (content : Text) (hunk : EditHunk) (hunks : List EditHunk) (result : List Text)
    → Places 0 0 (hunk ∷ hunks) (lines content) result
    → apply_hunks content (hunk ∷ hunks) ≡ ok (join_lines result)
unfolding apply_hunks apply_sorted
apply_hunks-Places content hunk hunks result p =
    ap (apply_sorted content) (keep_accepted-Places p)
    ∙ ap (λ r. r >>= λ ls. ok (join_lines ls)) (apply_each-Places p [] refl)
