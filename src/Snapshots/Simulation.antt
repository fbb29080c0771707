-- ===== src/Snapshots/Simulation.antt =====
-- The cache of crates/cli/src/core/snapshot.rs does what the list of recently used snapshots does.
use devit.Prelude.{
  ℕ, suc, ◌≤◌, ◌≡◌, refl, ap, ◌∙◌, sym, subst, true, some, List, [], ◌∷◌, ◌++◌, ltb, length,
  length-append, arith, if◌then◌else◌, Bool-cases, Option-cases, inl, inr,
}
use devit.Text.{Text, text_eq, text_eq_iff, text_eq_refl}
use devit.Tasks.{get, remove, insert}
use devit.Tasks.Maps.{get-remove}
use devit.Tasks.Keys.{remove_missing, get-remove_other}
use devit.Snapshots.{
  SnapshotSignatureCache, with_capacity, remove_from_order, mark_recent, order_without, evict,
  evict_if_needed, get_cached, insert_cached,
}
use devit.Snapshots.Recency.{
  keys, keep_last, touch, insert_recent, distinct, distinct-head, distinct-remove,
  length-remove-distinct, keys-remove, get-append_last, distinct-append_last, keys-append_last,
}

-- The map holds what the list holds, and both hold each key once.
abbrev pub Agrees : List (Text × Text) → List (Text × Text) → Type 0
Agrees m l =
    ((k : Text) → get k m ≡ get k l)
    × (length m ≡ length l)
    × (distinct m ≡ true)
    × (distinct l ≡ true)

-- The order is that of the list, and the list has no more entries than the cache may have.
abbrev pub IsView : SnapshotSignatureCache → List (Text × Text) → Type 0
IsView cache l = Agrees cache.entries l × (cache.order ≡ keys l) × (length l ≤ cache.capacity)

remove-Agrees :
    (k : Text) (m l : List (Text × Text)) → Agrees m l → Agrees (remove k m) (remove k l)
remove-Agrees k m l (same, sizes, dm, dl) = (
  λ j. elim (Bool-cases (text_eq k j)) [
    | inl e ↦
        subst (λ i. get i (remove k m) ≡ get i (remove k l)) ((text_eq_iff k j).0 e)
          (get-remove k m ∙ sym (get-remove k l))
    | inr e ↦ get-remove_other j k m e ∙ (same j ∙ sym (get-remove_other j k l e))
  ],
  elim (Option-cases (get k m)) [
    | inl gone ↦
        ap length (remove_missing k m gone)
        ∙ (sizes ∙ sym (ap length (remove_missing k l (sym (same k) ∙ gone))))
    | inr (a, found) ↦ omega (
      arith,
      sizes,
      length-remove-distinct k a m dm found,
      length-remove-distinct k a l dl (sym (same k) ∙ found),
    )
  ],
  distinct-remove k m dm,
  distinct-remove k l dl,
)

insert-Agrees :
    (k a : Text) (m l : List (Text × Text))
    → Agrees m l
    → Agrees (insert k a m) (remove k l ++ ((k, a) ∷ []))
unfolding insert get distinct
insert-Agrees k a m l agrees =
    let (same, sizes, dm, dl) = remove-Agrees k m l agrees in
    let gone = get-remove k l in
    (
      λ j.
          rw (get-append_last j k a (remove k l) gone)
            (ap (λ r. if text_eq k j then some a else r) (same j)),
      rw (length-append (remove k l) ((k, a) ∷ [])) (omega (arith, sizes)),
      rw (get-remove k m) dm,
      distinct-append_last k a (remove k l) gone dl,
    )

-- The loop that gives entries up.
evict-keep_last :
    (capacity : ℕ) (m l : List (Text × Text))
    → Agrees m l
    → Agrees (evict capacity m (keys l)).0 (keep_last capacity l)
      × ((evict capacity m (keys l)).1 ≡ keys (keep_last capacity l))
      × (length (keep_last capacity l) ≤ capacity)
unfolding evict keep_last remove
evict-keep_last capacity m [] agrees = (agrees, refl, omega arith)
evict-keep_last capacity m ((k, a) ∷ l) agrees =
    let sizes : length m ≡ suc (length l) = agrees.1 in
    let (fresh, rest) = distinct-head k a l agrees.3 in
    let alike : ltb capacity (length m) ≡ ltb capacity (suc (length l)) = ap (ltb capacity) sizes in
    let left : remove k ((k, a) ∷ l) ≡ l = rw (text_eq_refl k, remove) (remove_missing k l fresh) in
    elim (Bool-cases (ltb capacity (length m))) [
      | inl over ↦
          rw (over, evict)
            (rw (sym alike ∙ over, keep_last)
              (evict-keep_last capacity (remove k m) l
                (subst (Agrees (remove k m)) left (remove-Agrees k m ((k, a) ∷ l) agrees))))
      | inr fits ↦
          rw (fits, evict)
            (rw (sym alike ∙ fits, keep_last) (agrees, refl, ground (arith, sizes, fits)))
    ]

get-spread :
    (j k a : Text) (l : List (Text × Text))
    → get k l ≡ some a
    → get j l ≡ (if text_eq k j then some a else get j (remove k l))
get-spread j k a l found = elim (Bool-cases (text_eq k j)) [
  | inl e ↦ rw e (subst (λ i. get i l ≡ some a) ((text_eq_iff k j).0 e) found)
  | inr e ↦ rw e (sym (get-remove_other j k l e))
]

-- An entry that is read becomes the last one.
touch-Agrees :
    (k a : Text) (m l : List (Text × Text))
    → get k l ≡ some a
    → Agrees m l
    → Agrees m (remove k l ++ ((k, a) ∷ []))
touch-Agrees k a m l found (same, sizes, dm, dl) = (
  λ j.
      same j
      ∙ (get-spread j k a l found ∙ sym (get-append_last j k a (remove k l) (get-remove k l))),
  rw (length-append (remove k l) ((k, a) ∷ []))
      (omega (arith, sizes, length-remove-distinct k a l dl found)),
  dm,
  distinct-append_last k a (remove k l) (get-remove k l) (distinct-remove k l dl),
)

keys-moved :
    (k a : Text) (l : List (Text × Text))
    → distinct l ≡ true
    → keys (remove k l ++ ((k, a) ∷ [])) ≡ remove_from_order k (keys l) ++ (k ∷ [])
keys-moved k a l dl =
    keys-append_last k a (remove k l) ∙ ap (λ ks. ks ++ (k ∷ [])) (keys-remove k l dl)

order_without-keys :
    (key : Text) (cache : SnapshotSignatureCache) (l : List (Text × Text))
    → IsView cache l
    → order_without key cache ≡ keys (remove key l)
unfolding order_without
order_without-keys key cache l (agrees, order, few) = elim (Option-cases (get key l)) [
  | inl gone ↦
      rw (agrees.0 key ∙ gone, order_without) (order ∙ sym (ap keys (remove_missing key l gone)))
  | inr (a, found) ↦
      rw (agrees.0 key ∙ found, order_without)
        (ap (remove_from_order key) order ∙ sym (keys-remove key l agrees.3))
]

get_cached-IsView :
    (key : Text) (cache : SnapshotSignatureCache) (l : List (Text × Text))
    → IsView cache l
    → ((get_cached key cache).0 ≡ get key l) × IsView (get_cached key cache).1 (touch key l)
unfolding get_cached mark_recent touch
get_cached-IsView key cache l (agrees, order, few) = elim (Option-cases (get key l)) [
  | inl gone ↦ rw (agrees.0 key ∙ gone, get_cached) (rw (gone, touch) (refl, (agrees, order, few)))
  | inr (a, found) ↦
      rw (agrees.0 key ∙ found, get_cached)
        (rw (found, touch)
          (
            refl,
            (
              touch-Agrees key a cache.entries l found agrees,
              ap (λ ks. remove_from_order key ks ++ (key ∷ [])) order
                  ∙ sym (keys-moved key a l agrees.3),
              rw (length-append (remove key l) ((key, a) ∷ []))
                  (omega (arith, few, length-remove-distinct key a l agrees.3 found)),
            ),
          ))
]

insert_cached-IsView :
    (key snapshot_id : Text) (cache : SnapshotSignatureCache) (l : List (Text × Text))
    → IsView cache l
    → IsView (insert_cached key snapshot_id cache) (insert_recent cache.capacity key snapshot_id l)
unfolding insert_cached evict_if_needed insert_recent
insert_cached-IsView key snapshot_id cache l (agrees, order, few) =
    let moved = remove key l ++ ((key, snapshot_id) ∷ []) in
    let ordered : order_without key cache ++ (key ∷ []) ≡ keys moved =
      ap (λ ks. ks ++ (key ∷ [])) (order_without-keys key cache l (agrees, order, few))
      ∙ sym (keys-append_last key snapshot_id (remove key l)) in
    rw ordered (
      evict-keep_last cache.capacity (insert key snapshot_id cache.entries) moved
        (insert-Agrees key snapshot_id cache.entries l agrees))

-- The operations of a cache and of the list that it stands for, in any order.
pub data Runs (capacity : ℕ) : SnapshotSignatureCache → List (Text × Text) → Type 0 where
  fresh : Runs capacity (with_capacity capacity) []
  got :
      {cache : SnapshotSignatureCache} {l : List (Text × Text)} (key : Text)
      → Runs capacity cache l
      → Runs capacity (get_cached key cache).1 (touch key l)
  inserted :
      {cache : SnapshotSignatureCache} {l : List (Text × Text)} (key snapshot_id : Text)
      → Runs capacity cache l
      → Runs capacity
          (insert_cached key snapshot_id cache)
          (insert_recent cache.capacity key snapshot_id l)

Runs-IsView :
    (capacity : ℕ) (cache : SnapshotSignatureCache) (l : List (Text × Text))
    → Runs capacity cache l
    → IsView cache l
unfolding with_capacity distinct
Runs-IsView capacity _ _ fresh = (((λ k. refl), refl, refl, refl), refl, omega arith)
Runs-IsView capacity _ _ (got {cache} {l} key r) =
    (get_cached-IsView key cache l (Runs-IsView capacity cache l r)).1
Runs-IsView capacity _ _ (inserted {cache} {l} key snapshot_id r) =
    insert_cached-IsView key snapshot_id cache l (Runs-IsView capacity cache l r)

-- A cache refines the list of recently used snapshots: whatever was read and inserted before, the cache
-- answers each key as the list does, it has as many entries as the list and no more than its capacity,
-- and its order is the order of the list.
pub get_cached-Runs :
    (capacity : ℕ) (cache : SnapshotSignatureCache) (l : List (Text × Text)) (key : Text)
    → Runs capacity cache l
    → ((get_cached key cache).0 ≡ get key l)
      × (length cache.entries ≡ length l)
      × (length l ≤ cache.capacity)
      × (cache.order ≡ keys l)
get_cached-Runs capacity cache l key r =
    let view = Runs-IsView capacity cache l r in
    ((get_cached-IsView key cache l view).0, view.0.1, view.2, view.1)
