-- ===== src/Merkledb/Tests.antt =====
-- components/merkledb/src: runs on small data.
use exonum.Prelude.{
  ◌≡◌, ◌↔◌, ◌<◌, ◌+◌, refl, true, false, none, some, List, [], ◌∷◌, arith, subst, sym,
}
use exonum.Prelude.Order.{bytes_order, bytes_cmp}
use exonum.Prelude.SortedMap
use exonum.Prelude.HashMap
use exonum.Merkledb.Changes.{Bytes, put, delete, ViewChanges, apply_changes}
use exonum.Merkledb.Changes
use exonum.Merkledb.Iter.{ForkIter, collect}
use exonum.Merkledb.Iter.Merged.{content, IsOrdered}
use exonum.Merkledb.Iter.Collected.{collect_lem}
use exonum.Merkledb.Iter.Peek.{Peeked, next-peek}
use exonum.Merkledb.Patch.{ResolvedAddress, address_eq, Snapshot, Patch, as_snapshot}
use exonum.Merkledb.Patch
use exonum.Merkledb.Patch.Lawful.{IsLawful, as_snapshot-IsLawful}
use exonum.Merkledb.Fork.{
  Fork, WorkingPatch, from, take_view_changes, clone_view_changes, drop_changes_mut,
  drop_changes_ref,
}
use exonum.Merkledb.Fork.Commands.{
  Command, put_in, remove_in, clear_in, flush_all, roll_back, run_all,
}
use exonum.Merkledb.Fork.Merge.{IsIdle}
use exonum.Merkledb.Fork.Reading.{Reads}
use exonum.Merkledb.Fork.Store.{Store, Represents, apply_all, read}
use exonum.Merkledb.Fork.Refinement.{run_all-Represents}
use exonum.Merkledb.Fork.Borrow.{Held, start, open_mut, bump, Count}
use exonum.Merkledb.Fork.Borrow.Exclusive.{open_panics, drop_returns}
use exonum.Merkledb.Backup.{merge_with_backup}
use exonum.Merkledb.Backup.Restore.{IsMerged}
use exonum.Merkledb.Temporary.{
  MemoryDb, default_address, collection_of, merge_all, id_to_bytes, to_le_bytes, incremented,
  temporary_db,
}
use exonum.Merkledb.Temporary
use exonum.Merkledb.Temporary.Merging.{AllWritable, IsSound, IsCollection}
use exonum.Merkledb.Temporary.Sound.{merge_all-IsSound, merge-IsMerged}
use exonum.Merkledb.Temporary.Lawful.{temporary_db-IsLawful}
use exonum.Merkledb.Temporary.Restoring.{backup_round_trip}

abbrev stored_three : List (Bytes × Bytes)
stored_three = (1 ∷ [], 10 ∷ []) ∷ (2 ∷ [], 20 ∷ []) ∷ (3 ∷ [], 30 ∷ []) ∷ []

abbrev three_over : ForkIter
three_over = record {
  snapshot = stored_three;
  changes = some ((0 ∷ [], put (5 ∷ [])) ∷ (2 ∷ [], delete) ∷ (3 ∷ [], put (31 ∷ [])) ∷ []);
}

three_over-IsOrdered : IsOrdered three_over
unfolding bytes_cmp
three_over-IsOrdered = record {
  snapshot = ((refl, (refl, tt)), ((refl, tt), (tt, tt)));
  changes = ((refl, (refl, tt)), ((refl, tt), (tt, tt)));
}

three_over-content :
    content three_over ≡ (0 ∷ [], 5 ∷ []) ∷ (1 ∷ [], 10 ∷ []) ∷ (3 ∷ [], 31 ∷ []) ∷ []
unfolding apply_changes SortedMap.insert SortedMap.remove bytes_cmp
three_over-content = refl

collect_lem_example : collect 9 9 three_over ≡ some (content three_over)
collect_lem_example =
    collect_lem 9 9 three_over (rw three_over-content (omega arith)) (omega arith)
      three_over-IsOrdered

-- an iterator that starts with a deletion
abbrev deleted_first : ForkIter
deleted_first = record { snapshot = stored_three; changes = some ((1 ∷ [], delete) ∷ []) }

next-peek_example : Peeked 4 deleted_first
next-peek_example = next-peek 4 deleted_first (omega arith)

abbrev users : ResolvedAddress
users = record { name = 117 ∷ []; id = some 1 }

abbrev blocks : ResolvedAddress
blocks = record { name = 98 ∷ []; id = none }

-- a snapshot with nothing in it
abbrev empty_snapshot : Snapshot
empty_snapshot = record {
  get = λ name key. none;
  contains = λ name key. false;
  iter = λ name from. [];
}

empty_snapshot-IsLawful : IsLawful empty_snapshot
unfolding SortedMap.get
empty_snapshot-IsLawful = record {
  sorted = λ name from. tt;
  lists = λ name from key. ground arith;
  contains = λ name key. refl;
}

abbrev user_changes : ViewChanges
user_changes = record {
  entries = (1 ∷ [], put (10 ∷ [])) ∷ (2 ∷ [], delete) ∷ [];
  is_cleared = true;
  namespace = none;
}

abbrev user_patch : Patch
user_patch = record {
  snapshot = empty_snapshot;
  changes = (users, user_changes) ∷ [];
  changed_aggregated_addrs = [];
  removed_aggregated_addrs = [];
}

as_snapshot-IsLawful_example : IsLawful (as_snapshot user_patch)
as_snapshot-IsLawful_example =
    as_snapshot-IsLawful user_patch empty_snapshot-IsLawful
      (unfold bytes_cmp in (((refl, tt), (tt, tt)), tt))

abbrev user_fork : Fork
user_fork = from user_patch

abbrev user_commands : List Command
user_commands =
    put_in users (3 ∷ []) (30 ∷ [])
    ∷ flush_all
    ∷ clear_in users
    ∷ put_in blocks [] (1 ∷ [])
    ∷ roll_back
    ∷ remove_in users (1 ∷ [])
    ∷ []

abbrev user_store : Store
user_store = record { flushed = Patch.get user_patch; current = read user_fork }

run_all-Represents_example :
    (fork' : Fork) × (run_all true user_commands user_fork ≡ some fork')
    × IsIdle fork'.working_patch
    × Represents fork' (apply_all user_commands user_store)
    × ((a : ResolvedAddress) → Reads fork' (apply_all user_commands user_store) a)
run_all-Represents_example =
    run_all-Represents true user_commands user_fork user_store
      (record { cells = tt; distinct = tt })
      (record { flushed = λ a k. refl; current = λ a k. refl })

abbrev no_views : Count
no_views a = 0

abbrev users_open : WorkingPatch
users_open = (users, none) ∷ []

users_open-Held : Held true users_open (bump no_views users) no_views
unfolding take_view_changes HashMap.get HashMap.insert
users_open-Held = open_mut Changes.new users start refl

open_panics_example :
    ((take_view_changes users_open users ≡ none) ↔ (0 < bump no_views users users + 0))
    × ((clone_view_changes users_open users ≡ none) ↔ (0 < bump no_views users users))
open_panics_example =
    open_panics true users_open (bump no_views users) no_views users users_open-Held

drop_returns_example :
    (0 < bump no_views users users
      → (w' : WorkingPatch) × (drop_changes_mut true users_open users user_changes ≡ some w'))
    × (0 < 0 → (w' : WorkingPatch) × (drop_changes_ref users_open users ≡ some w'))
drop_returns_example =
    drop_returns true users_open (bump no_views users) no_views users user_changes users_open-Held

-- a database in memory with a collection for `users`
abbrev empty_db : MemoryDb
empty_db = (default_address, []) ∷ []

abbrev first_changes : HashMap.HashMap ResolvedAddress ViewChanges
first_changes =
    (
      users,
      record {
        entries = (2 ∷ [], put (20 ∷ [])) ∷ (4 ∷ [], put (40 ∷ [])) ∷ [];
        is_cleared = false;
        namespace = none;
      },
    )
    ∷ []

abbrev user_db : MemoryDb
user_db = merge_all first_changes empty_db

empty_db-collection : (a : ResolvedAddress) → collection_of empty_db a ≡ []
unfolding HashMap.get
empty_db-collection a = ground arith

empty_db-IsSound : IsSound empty_db
empty_db-IsSound = record {
  collections = λ a.
      subst (λ m. IsCollection a m) (sym (empty_db-collection a))
        (record { ordered = tt; prefixed = tt });
}

user_db-IsSound : IsSound user_db
user_db-IsSound = merge_all-IsSound first_changes empty_db empty_db-IsSound

user_db-default : collection_of user_db default_address ≡ []
unfolding merge_all HashMap.get HashMap.insert
user_db-default = refl

user_patch-AllWritable : AllWritable user_patch.changes
unfolding bytes_cmp id_to_bytes to_le_bytes incremented
user_patch-AllWritable = (record { ordered = ((refl, tt), (tt, tt)); clearable = λ e. refl }, tt)

merge-IsMerged_example :
    (after : MemoryDb) × (temporary_db.merge user_db user_patch ≡ some after)
    × IsSound after
    × IsMerged (temporary_db.snapshot user_db) (temporary_db.snapshot after) user_patch
merge-IsMerged_example =
    merge-IsMerged user_db user_patch user_db-IsSound user_patch-AllWritable (tt, tt)

temporary_db-IsLawful_example : IsLawful (temporary_db.snapshot user_db)
temporary_db-IsLawful_example = temporary_db-IsLawful user_db user_db-IsSound user_db-default

backup_round_trip_example :
    (merged : MemoryDb) × (backup : Patch) × (restored : MemoryDb) × (merge_with_backup temporary_db
        user_db user_patch
      ≡ some (merged, backup))
    × (temporary_db.merge merged backup ≡ some restored)
    × ((name : ResolvedAddress) (key : Bytes)
        → Temporary.get restored name key ≡ Temporary.get user_db name key)
backup_round_trip_example =
    backup_round_trip user_db user_patch user_db-IsSound user_db-default user_patch-AllWritable
      (tt, tt)
