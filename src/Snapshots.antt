-- ===== src/Snapshots.antt =====
-- The cache of snapshot signatures, crates/cli/src/core/snapshot.rs: which snapshot stands for a state of
-- the index, with the least recently used one given up where the cache is full.
use Prim.Native.Nat.{max}
use devit.Prelude.{
  ℕ, Bool, true, false, Option, none, some, List, [], ◌∷◌, ◌++◌, ltb, length, any, if◌then◌else◌,
}
use devit.Text.{Text, text, text_eq}
use devit.Tasks.{get, remove, insert}
pub mod Recency
pub mod Simulation
mod Examples

pub record IndexSignature : Type 0 where
  pub head_sha : Option Text
  pub summary : Text

-- An entry is the id of a snapshot.
pub record SnapshotSignatureCache : Type 0 where
  pub capacity : ℕ
  pub entries : List (Text × Text)
  pub order : List Text

-- `hash` is the beginning of the BLAKE3 hash of a text, in hexadecimal digits.
unfoldable pub digest : (hash : Text → Text) → IndexSignature → Text
digest hash signature = elim signature.head_sha [
  | none ↦ hash signature.summary
  | some head ↦ hash (head ++ signature.summary)
]

unfoldable pub head_component : Option Text → Text
head_component none = text "nohead"
head_component (some []) = text "nohead"
head_component (some (c ∷ s)) = c ∷ s

unfoldable pub cache_key : (hash : Text → Text) → IndexSignature → Text
cache_key hash signature = head_component signature.head_sha ++ (b':' ∷ digest hash signature)

abbrev pub default_capacity : ℕ
default_capacity = 128

unfoldable pub with_capacity : ℕ → SnapshotSignatureCache
with_capacity capacity = record { capacity = max 1 capacity; entries = []; order = [] }

-- The first place where the key stands is removed.
unfoldable pub remove_from_order : Text → List Text → List Text
remove_from_order key [] = []
remove_from_order key (k ∷ ks) = if text_eq k key then ks else k ∷ remove_from_order key ks

unfoldable pub mark_recent : Text → SnapshotSignatureCache → SnapshotSignatureCache
mark_recent key self = record self { order = remove_from_order key self.order ++ (key ∷ []) }

-- The loop of evict_if_needed, on the entries and the order.
unfoldable pub evict :
    (capacity : ℕ) → List (Text × Text) → List Text → List (Text × Text) × List Text
evict capacity entries [] = (entries, [])
evict capacity entries (oldest ∷ order) =
    let rest = evict capacity (remove oldest entries) order in
    if ltb capacity (length entries) then rest else (entries, oldest ∷ order)

unfoldable pub evict_if_needed : SnapshotSignatureCache → SnapshotSignatureCache
evict_if_needed self =
    let (entries, order) = evict self.capacity self.entries self.order in
    record self { entries = entries; order = order }

-- SnapshotSignatureCache::get, for the key of the signature
unfoldable pub get_cached :
    (key : Text) → SnapshotSignatureCache → Option Text × SnapshotSignatureCache
get_cached key self = elim (get key self.entries) [
  | none ↦ (none, self)
  | some snapshot_id ↦ (some snapshot_id, mark_recent key self)
]

-- The order without a key that is already in the map.
unfoldable pub order_without : (key : Text) → SnapshotSignatureCache → List Text
order_without key self = elim (get key self.entries) [
  | none ↦ self.order
  | some old ↦ remove_from_order key self.order
]

-- SnapshotSignatureCache::insert, for the key of the signature
unfoldable pub insert_cached :
    (key snapshot_id : Text) → SnapshotSignatureCache → SnapshotSignatureCache
insert_cached key snapshot_id self = evict_if_needed (record self {
  entries = insert key snapshot_id self.entries;
  order = order_without key self ++ (key ∷ []);
})

unfoldable pub contains_snapshot : (snapshot_id : Text) → SnapshotSignatureCache → Bool
contains_snapshot snapshot_id self = any (λ (k, id). text_eq id snapshot_id) self.entries
