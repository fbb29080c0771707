-- ===== src/Tasks/Maps.antt =====
-- The association lists that stand for the maps of tasks.
use devit.Prelude.{
  suc, ◌≤◌, ◌≡◌, refl, Bool, true, none, some, List, [], ◌∷◌, length, all, arith, Bool-cases, inl,
  inr,
}
use devit.Text.{Text, text_eq, text_eq_refl}
use devit.Tasks.{get, remove, insert, retain}

module _ {A : Type 0} (p : A → Bool) where
  abbrev on_value : Text × A → Bool
  on_value (k, a) = p a

  pub all-remove :
      (k : Text) (m : List (Text × A)) → all on_value m ≡ true → all on_value (remove k m) ≡ true
  unfolding remove
  all-remove k [] h = refl
  all-remove k ((j, a) ∷ m) h = ground (arith, all-remove k m)

  pub all-insert :
      (k : Text) (a : A) (m : List (Text × A))
      → p a ≡ true
      → all on_value m ≡ true
      → all on_value (insert k a m) ≡ true
  unfolding insert
  all-insert k a m e h = ground (arith, all-remove k m h)

  pub all-retain :
      (q : A → Bool) (m : List (Text × A))
      → all on_value m ≡ true
      → all on_value (retain q m) ≡ true
  unfolding retain
  all-retain q [] h = refl
  all-retain q ((j, a) ∷ m) h = ground (arith, all-retain q m)

module _ {A : Type 0} where
  pub length-remove : (k : Text) (m : List (Text × A)) → length (remove k m) ≤ length m
  unfolding remove
  length-remove k [] = omega arith
  length-remove k ((j, a) ∷ m) = ground (arith, length-remove k m)

  pub length-remove_found :
      (k : Text) (m : List (Text × A)) (a : A)
      → get k m ≡ some a
      → suc (length (remove k m)) ≤ length m
  unfolding get remove
  length-remove_found k [] a e = cc
  length-remove_found k ((j, b) ∷ m) a e = elim (Bool-cases (text_eq j k)) [
    | inl same ↦ rw (same, remove) (omega (arith, length-remove k m))
    | inr other ↦ rw (other, remove) (omega (arith, length-remove_found k m a (rw other at e)))
  ]

  pub get-remove : (k : Text) (m : List (Text × A)) → get k (remove k m) ≡ none
  unfolding get remove
  get-remove k [] = refl
  get-remove k ((j, a) ∷ m) = elim (Bool-cases (text_eq j k)) [
    | inl same ↦ rw (same, remove) (get-remove k m)
    | inr other ↦ rw (other, remove) (rw other (get-remove k m))
  ]

  pub get-insert : (k : Text) (a : A) (m : List (Text × A)) → get k (insert k a m) ≡ some a
  unfolding get insert
  get-insert k a m = rw (text_eq_refl k) refl
