-- ===== src/Merkledb/Backup.antt =====
-- components/merkledb/src/db.rs: `Database` and `DatabaseExt::merge_with_backup`.
pub mod Restore
use exonum.Prelude.{Bool, true, false, Option, none, some, List, [], ◌∷◌, if◌then◌else◌}
use exonum.Prelude.Order.{bytes_order}
use exonum.Prelude.SortedMap.{SortedMap}
use exonum.Prelude.SortedMap
use exonum.Prelude.HashMap.{HashMap}
use exonum.Prelude.HashMap
use exonum.Prelude.Panic.{◌>>=◌}
use exonum.Merkledb.Changes.{Bytes, Change, put, delete, ViewChanges}
use exonum.Merkledb.Patch.{ResolvedAddress, address_eq, Snapshot, Patch}

-- `trait Database`, over the states of a database; `none` is the error of a merge
pub record Database : Type 1 where
  pub State : Type 0
  pub snapshot : State → Snapshot
  pub merge : State → Patch → Option State

-- `map_or(Change::Delete, Change::Put)`
abbrev pub change_to : Option Bytes → Change
change_to none = delete
change_to (some value) = put value

-- the loop over the keys of a changed index
unfoldable pub revert_entries :
    (Bytes → Option Bytes) → SortedMap Bytes Change → SortedMap Bytes Change
revert_entries value [] = []
revert_entries value ((key, change) ∷ changes) =
    (key, change_to (value key)) ∷ revert_entries value changes

-- the loop over the elements that a clear deletes
unfoldable pub remember : SortedMap Bytes Change → List (Bytes × Bytes) → SortedMap Bytes Change
remember changes [] = changes
remember changes ((key, value) ∷ es) = remember (SortedMap.insert changes key (put value)) es

-- the reverse of the changes to an index
abbrev pub revert_view : Snapshot → ResolvedAddress → ViewChanges → ViewChanges
revert_view snapshot name changes = record {
  entries =
      let reverted = revert_entries (snapshot.get name) changes.entries in
      if changes.is_cleared then remember reverted (snapshot.iter name []) else reverted;
  is_cleared = false;
  namespace = changes.namespace;
}

-- the loop over the changed indexes
unfoldable pub revert_changes :
    Snapshot
    → HashMap ResolvedAddress ViewChanges
    → HashMap ResolvedAddress ViewChanges
    → HashMap ResolvedAddress ViewChanges
revert_changes snapshot [] rev_changes = rev_changes
revert_changes snapshot ((name, changes) ∷ rest) rev_changes =
    revert_changes snapshot rest
      (HashMap.insert rev_changes name (revert_view snapshot name changes))

-- `DatabaseExt::merge_with_backup`
unfoldable pub merge_with_backup : (db : Database) → db.State → Patch → Option (db.State × Patch)
merge_with_backup db state patch = do
  merged ← db.merge state patch
  some (
    merged,
    record {
      snapshot = db.snapshot merged;
      changes = revert_changes (db.snapshot state) patch.changes [];
      changed_aggregated_addrs = patch.changed_aggregated_addrs;
      removed_aggregated_addrs = [];
    },
  )
