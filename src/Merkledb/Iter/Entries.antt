-- ===== src/Merkledb/Iter/Entries.antt =====
-- components/merkledb/src/db.rs and components/merkledb/src/views/mod.rs: the entries that a loop over
-- an iterator shows, against lookups.
use exonum.Prelude.{
  ℕ, zero, suc, ◌+◌, ◌≤◌, ◌<◌, ◌≡◌, refl, sym, Option, none, some, [], ◌∷◌, length, arith,
}
use exonum.Prelude.Order.{bytes_order}
use exonum.Prelude.SortedMap.{
  SortedMap, Above, Sorted, insert-Sorted, remove-Sorted, get-insert, get-remove, get-Above,
  length-insert, length-remove,
}
use exonum.Prelude.SortedMap
use exonum.Merkledb.Changes.{Bytes, Change, put, delete, apply_changes, value_of}
use exonum.Merkledb.Iter.{
  ForkIter, changes_of, changes_iter, fork_iter, collect_changes, changes_next, entries,
}
use exonum.Merkledb.Iter.Merged.{apply_changes-Above, content, IsOrdered}
use exonum.Merkledb.Iter.Collected.{collect_lem}

pub apply_changes-Sorted :
    (changes : SortedMap Bytes Change) (m : SortedMap Bytes Bytes)
    → Sorted m
    → Sorted (apply_changes changes m)
unfolding apply_changes
apply_changes-Sorted [] m s = s
apply_changes-Sorted ((k, put v) ∷ changes) m s =
    apply_changes-Sorted changes (SortedMap.insert m k v) (insert-Sorted m k v s)
apply_changes-Sorted ((k, delete) ∷ changes) m s =
    apply_changes-Sorted changes (SortedMap.remove m k) (remove-Sorted m k s)

pub length-apply_changes :
    (changes : SortedMap Bytes Change) (m : SortedMap Bytes Bytes)
    → length (apply_changes changes m) ≤ length changes + length m
unfolding apply_changes
length-apply_changes [] m = omega arith
length-apply_changes ((k, put v) ∷ changes) m =
    omega (arith, length-apply_changes changes (SortedMap.insert m k v), length-insert m k v)
length-apply_changes ((k, delete) ∷ changes) m =
    omega (arith, length-apply_changes changes (SortedMap.remove m k), length-remove m k)

-- a change to a key over the value below it
abbrev pub changed : Option Change → Option Bytes → Option Bytes
changed none below = below
changed (some change) below = value_of change

pub get-apply_changes :
    (changes : SortedMap Bytes Change) (m : SortedMap Bytes Bytes) (key : Bytes)
    → Sorted changes
    → SortedMap.get (apply_changes changes m) key
      ≡ changed (SortedMap.get changes key) (SortedMap.get m key)
unfolding apply_changes SortedMap.get
get-apply_changes [] m key s = refl
get-apply_changes ((k, put v) ∷ changes) m key s = ground (
  arith,
  get-apply_changes changes (SortedMap.insert m k v) key s.1,
  get-insert m k v key,
  get-Above changes k key s.0,
)
get-apply_changes ((k, delete) ∷ changes) m key s = ground (
  arith,
  get-apply_changes changes (SortedMap.remove m k) key s.1,
  get-remove m k key,
  get-Above changes k key s.0,
)

-- a loop over the changes alone shows what they leave of nothing
collect_changes_lem :
    (n : ℕ) (changes : SortedMap Bytes Change)
    → length changes < n
    → Sorted changes
    → collect_changes n changes ≡ apply_changes changes []
unfolding collect_changes changes_next apply_changes SortedMap.insert SortedMap.remove
collect_changes_lem zero changes enough s = absurd (omega (arith, enough))
collect_changes_lem (suc n) [] enough s = refl
collect_changes_lem (suc n) ((k, put v) ∷ changes) enough s =
    rw (collect_changes_lem n changes (omega (arith, enough)) s.1)
      (sym (apply_changes-Above changes k v [] s.0))
collect_changes_lem (suc n) ((k, delete) ∷ changes) enough s =
    collect_changes_lem (suc n) changes (omega (arith, enough)) s.1

pub entries-changes_iter :
    (changes : SortedMap Bytes Change)
    → Sorted changes
    → entries (changes_iter changes) ≡ apply_changes changes []
unfolding entries
entries-changes_iter changes s = collect_changes_lem (length changes + 1) changes (omega arith) s

-- a loop over the iterator has enough fuel
pub entries-fork_iter : (it : ForkIter) → IsOrdered it → entries (fork_iter it) ≡ content it
unfolding entries
entries-fork_iter it o =
    rw
      (collect_lem (length (changes_of it) + length it.snapshot + 1) (length (changes_of it) + 1) it
        (omega (arith, length-apply_changes (changes_of it) it.snapshot)) (omega arith) o)
      refl
