-- ===== src/Snapshots/Recency.antt =====
-- What the cache promises: a list of keys and snapshots, the least recently used one first. And what holds
-- of lists whose keys are distinct.
use devit.Prelude.{
  ℕ, suc, ◌≡◌, refl, ap, ◌∙◌, sym, subst, Bool, true, false, not, ◌&&◌, none, some, List, [], ◌∷◌,
  ◌++◌, ltb, length, map, arith, if◌then◌else◌, Bool-cases, Option-cases, inl, inr, &&-eq-true,
}
use devit.Text.{Text, text_eq, text_eq_iff, text_eq_refl}
use devit.Tasks.{get, remove}
use devit.Tasks.Keys.{has, is_some, has-remove, remove_missing}
use devit.Snapshots.{remove_from_order}

abbrev pub keys {ℓ} : {A : Type ℓ} → List (Text × A) → List Text
keys m = map (λ (k, a). k) m

-- Entries are given up from the front as long as there are too many.
unfoldable pub keep_last : {A : Type 0} → (capacity : ℕ) → List A → List A
keep_last capacity [] = []
keep_last capacity (a ∷ l) =
    let rest = keep_last capacity l in if ltb capacity (suc (length l)) then rest else a ∷ l

other_key : (k i j : Text) → text_eq i k ≡ false → i ≡ j → text_eq k j ≡ false
other_key k i j apart same = elim (Bool-cases (text_eq k j)) [
  | inl e ↦
      cc (text_eq_refl i, subst (λ t. text_eq i t ≡ false) ((text_eq_iff k j).0 e ∙ sym same) apart)
  | inr e ↦ e
]

module _ {A : Type 0} where
  -- A key that is read moves to the end.
  unfoldable pub touch : Text → List (Text × A) → List (Text × A)
  touch k l = elim (get k l) [ none ↦ l | some a ↦ remove k l ++ ((k, a) ∷ []) ]

  unfoldable pub insert_recent : (capacity : ℕ) → Text → A → List (Text × A) → List (Text × A)
  insert_recent capacity k a l = keep_last capacity (remove k l ++ ((k, a) ∷ []))

  unfoldable pub distinct : List (Text × A) → Bool
  distinct [] = true
  distinct ((k, a) ∷ m) = not (has k m) && distinct m

  has-none : (k : Text) (m : List (Text × A)) → has k m ≡ false → get k m ≡ none
  has-none k m h = elim (Option-cases (get k m)) [
    | inl gone ↦ gone
    | inr (a, found) ↦ cc (ap is_some found, h)
  ]

  -- The first of several keys that differ stands nowhere else.
  pub distinct-head :
      (k : Text) (a : A) (m : List (Text × A))
      → distinct ((k, a) ∷ m) ≡ true
      → (get k m ≡ none) × (distinct m ≡ true)
  unfolding distinct
  distinct-head k a m h =
      let (fresh, rest) = &&-eq-true (not (has k m)) (distinct m) h in
      (has-none k m (ground (arith, fresh)), rest)

  pub distinct-remove :
      (k : Text) (m : List (Text × A)) → distinct m ≡ true → distinct (remove k m) ≡ true
  unfolding distinct remove
  distinct-remove k [] h = refl
  distinct-remove k ((j, a) ∷ m) h =
      let (fresh, rest) = &&-eq-true (not (has j m)) (distinct m) h in
      let later = distinct-remove k m rest in
      elim (Bool-cases (text_eq j k)) [
        | inl same ↦ rw (same, remove) later
        | inr other ↦ rw (other, remove) (rw (has-remove j k m) (rw later (ground (arith, fresh))))
      ]

  pub length-remove-distinct :
      (k : Text) (a : A) (m : List (Text × A))
      → distinct m ≡ true
      → get k m ≡ some a
      → suc (length (remove k m)) ≡ length m
  unfolding remove get
  length-remove-distinct k a [] h found = cc
  length-remove-distinct k a ((j, b) ∷ m) h found =
      let (fresh, rest) = distinct-head j b m h in
      elim (Bool-cases (text_eq j k)) [
        | inl same ↦
            rw (same, remove)
              (ap (λ l. suc (length l))
                (remove_missing k m (subst (λ i. get i m ≡ none) ((text_eq_iff j k).0 same) fresh)))
        | inr other ↦
            rw (other, remove)
              (ap suc (length-remove-distinct k a m rest (rw (other, get) at found)))
      ]

  pub keys-remove :
      (k : Text) (m : List (Text × A))
      → distinct m ≡ true
      → keys (remove k m) ≡ remove_from_order k (keys m)
  unfolding remove remove_from_order get
  keys-remove k [] h = refl
  keys-remove k ((j, a) ∷ m) h =
      let (fresh, rest) = distinct-head j a m h in
      elim (Bool-cases (text_eq j k)) [
        | inl same ↦
            rw (same, remove)
              (ap keys
                (remove_missing k m (subst (λ i. get i m ≡ none) ((text_eq_iff j k).0 same) fresh)))
        | inr other ↦ rw (other, remove) (ap (λ ks. j ∷ ks) (keys-remove k m rest))
      ]

  get_missing :
      (k i : Text) (b : A) (m : List (Text × A))
      → get k ((i, b) ∷ m) ≡ none
      → (text_eq i k ≡ false) × (get k m ≡ none)
  unfolding get
  get_missing k i b m gone = elim (Bool-cases (text_eq i k)) [
    | inl same ↦ absurd (cc (rw (same, get) at gone))
    | inr other ↦ (other, rw (other, get) at gone)
  ]

  pub get-append_last :
      (j k : Text) (a : A) (m : List (Text × A))
      → get k m ≡ none
      → get j (m ++ ((k, a) ∷ [])) ≡ (if text_eq k j then some a else get j m)
  unfolding get
  get-append_last j k a [] gone = refl
  get-append_last j k a ((i, b) ∷ m) gone =
      let (apart, missing) = get_missing k i b m gone in
      let later = get-append_last j k a m missing in
      elim (Bool-cases (text_eq i j)) [
        | inl same ↦ rw (same, other_key k i j apart ((text_eq_iff i j).0 same)) refl
        | inr other ↦ rw other later
      ]

  pub distinct-append_last :
      (k : Text) (a : A) (m : List (Text × A))
      → get k m ≡ none
      → distinct m ≡ true
      → distinct (m ++ ((k, a) ∷ [])) ≡ true
  unfolding distinct get
  distinct-append_last k a [] gone h = refl
  distinct-append_last k a ((i, b) ∷ m) gone h =
      let (apart, missing) = get_missing k i b m gone in
      let (fresh, rest) = distinct-head i b m h in
      let absent : get i (m ++ ((k, a) ∷ [])) ≡ none =
        get-append_last i k a m missing ∙ rw (other_key k i i apart refl) fresh in
      rw absent (distinct-append_last k a m missing rest)

  pub keys-append_last :
      (k : Text) (a : A) (m : List (Text × A)) → keys (m ++ ((k, a) ∷ [])) ≡ keys m ++ (k ∷ [])
  keys-append_last k a [] = refl
  keys-append_last k a ((i, b) ∷ m) = ap (λ ks. i ∷ ks) (keys-append_last k a m)
