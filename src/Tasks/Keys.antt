-- ===== src/Tasks/Keys.antt =====
-- Which keys the association lists that stand for maps hold, and the tests that all their entries pass.
use devit.Prelude.{
  ◌≡◌, refl, ap, ◌∙◌, subst, Bool, true, false, not, ◌&&◌, ◌||◌, Option, none, some, List, [], ◌∷◌,
  all, arith, Bool-cases, inl, inr,
}
use devit.Text.{Text, text_eq, text_eq_iff}
use devit.Tasks.{get, remove, insert}
use devit.Tasks.Maps.{get-remove}

abbrev pub is_some {ℓ} : {A : Type ℓ} → Option A → Bool
is_some none = false
is_some (some a) = true

module _ {A : Type 0} where
  abbrev pub has : Text → List (Text × A) → Bool
  has k m = is_some (get k m)

  pub get-remove_other :
      (j k : Text) (m : List (Text × A)) → text_eq k j ≡ false → get j (remove k m) ≡ get j m
  unfolding get remove
  get-remove_other j k [] h = refl
  get-remove_other j k ((i, a) ∷ m) h =
      let later = get-remove_other j k m h in
      elim (Bool-cases (text_eq i k)) [
        | inl same ↦
            rw (same, remove) (rw (ap (λ t. text_eq t j) ((text_eq_iff i k).0 same) ∙ h) later)
        | inr other ↦
            rw (other, remove)
              (elim (Bool-cases (text_eq i j)) [ inl hit ↦ rw hit refl | inr miss ↦ rw miss later ])
      ]

  pub get-remove_same :
      (j k : Text) (m : List (Text × A)) → text_eq k j ≡ true → get j (remove k m) ≡ none
  get-remove_same j k m same =
      subst (λ t. get t (remove k m) ≡ none) ((text_eq_iff k j).0 same) (get-remove k m)

  pub has-remove :
      (j k : Text) (m : List (Text × A)) → has j (remove k m) ≡ (not (text_eq k j) && has j m)
  has-remove j k m = elim (Bool-cases (text_eq k j)) [
    | inl same ↦ rw same (ap is_some (get-remove_same j k m same))
    | inr other ↦ rw other (ap is_some (get-remove_other j k m other))
  ]

  pub has-insert :
      (j k : Text) (a : A) (m : List (Text × A)) → has j (insert k a m) ≡ (text_eq k j || has j m)
  unfolding insert get
  has-insert j k a m = elim (Bool-cases (text_eq k j)) [
    | inl same ↦ rw same refl
    | inr other ↦ rw other (ap is_some (get-remove_other j k m other))
  ]

  pub remove_missing : (k : Text) (m : List (Text × A)) → get k m ≡ none → remove k m ≡ m
  unfolding get remove
  remove_missing k [] h = refl
  remove_missing k ((i, a) ∷ m) h = elim (Bool-cases (text_eq i k)) [
    | inl same ↦ cc (rw (same, get) at h)
    | inr other ↦
        rw (other, remove) (ap (λ rest. (i, a) ∷ rest) (remove_missing k m (rw (other, get) at h)))
  ]

  module _ (p : Text × A → Bool) where
    pub all_pairs-remove :
        (k : Text) (m : List (Text × A)) → all p m ≡ true → all p (remove k m) ≡ true
    unfolding remove
    all_pairs-remove k [] h = refl
    all_pairs-remove k ((i, a) ∷ m) h = ground (arith, all_pairs-remove k m)

    pub all_pairs-insert :
        (k : Text) (a : A) (m : List (Text × A))
        → p (k, a) ≡ true
        → all p m ≡ true
        → all p (insert k a m) ≡ true
    unfolding insert
    all_pairs-insert k a m e h = ground (arith, all_pairs-remove k m h)
