-- ===== src/Merkledb/Temporary/Restoring.antt =====
-- components/merkledb/src/backends/temporarydb.rs: backups of a database in memory.
use exonum.Prelude.{◌≡◌, some, [], ◌∷◌}
use exonum.Prelude.HashMap.{HashMap, Distinct, All-insert}
use exonum.Prelude.HashMap
use exonum.Merkledb.Changes.{Bytes, ViewChanges}
use exonum.Merkledb.Patch.{ResolvedAddress, address_eq, Snapshot, Patch}
use exonum.Merkledb.Backup.{revert_view, revert_changes, merge_with_backup}
use exonum.Merkledb.Backup.Restore.{
  backup_of, merge_with_backup_lem, backup_restores, revert_view-Sorted, revert_changes-Distinct,
}
use exonum.Merkledb.Temporary.{MemoryDb, collection_of, default_address, get, temporary_db}
use exonum.Merkledb.Temporary.Merging.{AllWritable, IsWritable, IsSound}
use exonum.Merkledb.Temporary.Sound.{merge-IsMerged}
use exonum.Merkledb.Temporary.Lawful.{temporary_db-IsLawful}

revert_changes-AllWritable :
    (snapshot : Snapshot) (changes acc : HashMap ResolvedAddress ViewChanges)
    → AllWritable changes
    → AllWritable acc
    → AllWritable (revert_changes snapshot changes acc)
unfolding revert_changes
revert_changes-AllWritable snapshot [] acc w a = a
revert_changes-AllWritable snapshot ((name, c) ∷ changes) acc w a =
    revert_changes-AllWritable snapshot changes
      (HashMap.insert acc name (revert_view snapshot name c)) w.1
      (All-insert (λ x. IsWritable x.0 x.1) acc name (revert_view snapshot name c) a
        (record {
          ordered = revert_view-Sorted snapshot name c w.0.ordered;
          clearable = λ e. absurd (cc);
        }))

-- A merge with a backup, followed by the merge of the backup, is a round trip on a database in memory
-- whose collections are sound and whose default collection is empty, for a patch with one entry for
-- each changed index, with its changes in the order of their keys, that clears no index with the
-- greatest identifier: both merges succeed, and after them every key of every index has the value it
-- had at the start, whether the patch put, deleted or cleared.
pub backup_round_trip :
    (db : MemoryDb) (patch : Patch)
    → IsSound db
    → collection_of db default_address ≡ []
    → AllWritable patch.changes
    → Distinct patch.changes
    → (merged : MemoryDb) × (backup : Patch) × (restored : MemoryDb) × (merge_with_backup
          temporary_db db patch
        ≡ some (merged, backup))
      × (temporary_db.merge merged backup ≡ some restored)
      × ((name : ResolvedAddress) (key : Bytes) → get restored name key ≡ get db name key)
backup_round_trip db patch s e w d =
    let (merged, m, sound, im) = merge-IsMerged db patch s w d in
    let backup = backup_of temporary_db db merged patch in
    let (restored, r, sound', ir) =
      merge-IsMerged merged backup sound
        (revert_changes-AllWritable (temporary_db.snapshot db) patch.changes [] w tt)
        (revert_changes-Distinct (temporary_db.snapshot db) patch.changes [] tt) in
    (
      merged,
      backup,
      restored,
      merge_with_backup_lem temporary_db db merged patch m,
      r,
      backup_restores temporary_db db merged restored patch (temporary_db-IsLawful db s e) d im ir,
    )
