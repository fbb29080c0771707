-- ===== src/Snapshots/Examples.antt =====
-- A cache of two snapshots that is given three, and asked in between.
use devit.Prelude.{◌≡◌, ◌≤◌, List, [], length}
use devit.Text.{Text, text}
use devit.Tasks.{get}
use devit.Snapshots.{SnapshotSignatureCache, with_capacity, get_cached, insert_cached}
use devit.Snapshots.Recency.{keys, touch, insert_recent}
use devit.Snapshots.Simulation.{fresh, got, inserted, get_cached-Runs}

abbrev two_less : SnapshotSignatureCache
two_less = insert_cached (text "a") (text "snap1") (with_capacity 2)

abbrev two : SnapshotSignatureCache
two =
    insert_cached (text "b") (text "snap2")
      (insert_cached (text "a") (text "snap1") (with_capacity 2))

abbrev two_recent : List (Text × Text)
two_recent =
    insert_recent two_less.capacity (text "b") (text "snap2")
      (insert_recent (with_capacity 2).capacity (text "a") (text "snap1") [])

abbrev three : SnapshotSignatureCache
three = insert_cached (text "c") (text "snap3") (get_cached (text "a") two).1

abbrev three_recent : List (Text × Text)
three_recent =
    insert_recent (get_cached (text "a") two).1.capacity (text "c") (text "snap3")
      (touch (text "a") two_recent)

get_cached-Runs_example :
    ((get_cached (text "b") three).0 ≡ get (text "b") three_recent)
    × (length three.entries ≡ length three_recent)
    × (length three_recent ≤ three.capacity)
    × (three.order ≡ keys three_recent)
get_cached-Runs_example = get_cached-Runs 2 three three_recent (text "b") (
    inserted (text "c") (text "snap3") (
      got (text "a")
        (inserted (text "b") (text "snap2") (inserted (text "a") (text "snap1") fresh))))
