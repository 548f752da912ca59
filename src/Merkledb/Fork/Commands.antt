-- ===== src/Merkledb/Fork/Commands.antt =====
-- components/merkledb/src/db.rs and components/merkledb/src/views/mod.rs: a client of a fork, which
-- opens a view of an index, changes it and drops it, or calls `flush` or `rollback`.
use exonum.Prelude.{Bool, Option, none, some, List, [], ◌∷◌}
use exonum.Prelude.Panic.{◌>>=◌}
use exonum.Merkledb.Changes.{Bytes, ViewChanges}
use exonum.Merkledb.Patch.{ResolvedAddress, as_snapshot}
use exonum.Merkledb.Fork.{
  Fork, take_view_changes, clone_view_changes, drop_changes_mut, flush, rollback,
}
use exonum.Merkledb.Views.{
  View, real, phantom, changes_ref, changes_mut, no_changes, put_bytes, remove, clear,
}

-- `View::new` on a `&Fork`
unfoldable pub open_view : Fork → ResolvedAddress → Option (View × Fork)
open_view fork address = do
  (changes, w) ← take_view_changes fork.working_patch address
  some (
    real (record {
      address = address;
      snapshot = as_snapshot fork.patch;
      changes = changes_mut changes;
    }),
    record fork { working_patch = w },
  )

-- `View::new` on a `ReadonlyFork`
unfoldable pub open_readonly : Fork → ResolvedAddress → Option (View × Fork)
open_readonly fork address = do
  (changes, w) ← clone_view_changes fork.working_patch address
  some (
    real (record {
      address = address;
      snapshot = as_snapshot fork.patch;
      changes = changes_ref changes;
    }),
    record fork { working_patch = w },
  )

held_changes : View → Option (ResolvedAddress × ViewChanges)
held_changes (real (inner)) = elim inner.changes [
  | no_changes ↦ none
  | changes_ref changes ↦ none
  | changes_mut changes ↦ some (inner.address, changes)
]
held_changes phantom = none

-- the drop of a view for writing
unfoldable pub close_view : Bool → View → Fork → Option Fork
unfolding held_changes
close_view debug view fork = do
  (address, changes) ← held_changes view
  w ← drop_changes_mut debug fork.working_patch address changes
  some (record fork { working_patch = w })

-- a view is opened, changed and dropped
unfoldable pub with_view : Bool → Fork → ResolvedAddress → (View → Option View) → Option Fork
with_view debug fork address change = do
  (view, opened) ← open_view fork address
  changed ← change view
  close_view debug changed opened

-- what a client does
pub data Command : Type 0 where
  put_in : ResolvedAddress → Bytes → Bytes → Command
  remove_in : ResolvedAddress → Bytes → Command
  clear_in : ResolvedAddress → Command
  flush_all : Command
  roll_back : Command

unfoldable pub run : Bool → Command → Fork → Option Fork
run debug (put_in address key value) fork =
    with_view debug fork address (λ view. put_bytes view key value)
run debug (remove_in address key) fork = with_view debug fork address (λ view. remove view key)
run debug (clear_in address) fork = with_view debug fork address clear
run debug flush_all fork = flush fork
run debug roll_back fork = some (rollback fork)

unfoldable pub run_all : Bool → List Command → Fork → Option Fork
run_all debug [] fork = some fork
run_all debug (c ∷ cs) fork = run debug c fork >>= run_all debug cs
