-- ===== src/Merkledb/Fork/Reading.antt =====
-- components/merkledb/src/db.rs: views for reading on a fork that stands for a store.
use exonum.Prelude.{◌≡◌, refl, ◌+◌, none, some}
use exonum.Prelude.HashMap
use exonum.Merkledb.Changes.{Bytes}
use exonum.Merkledb.Patch.{ResolvedAddress, address_eq, as_snapshot}
use exonum.Merkledb.Views.{View, real, changes_ref, get_bytes}
use exonum.Merkledb.Fork.{Fork, ChangesCell, WorkingPatch, cell_of, clone_cell, clone_view_changes}
use exonum.Merkledb.Fork.Merge.{IsIdle, IdleCell, cell_changes, changes_at}
use exonum.Merkledb.Fork.Commands.{open_readonly}
use exonum.Merkledb.Fork.Store.{Store, Represents, idle_cell}

-- the cell of an index with no open view gives its changes to a reader
clone_cell-IdleCell :
    (w : WorkingPatch) (a : ResolvedAddress) (cell : ChangesCell)
    → IdleCell cell
    → (w' : WorkingPatch) × (clone_cell w a cell ≡ some (cell_changes cell, w'))
unfolding clone_cell
clone_cell-IdleCell w a none i = absurd i
clone_cell-IdleCell w a (some shared) i =
    (HashMap.insert w a (some (record shared { readers = shared.readers + 1 })), refl)

-- a view for reading of an index opens, and reads what the store has
abbrev pub Reads : Fork → Store → ResolvedAddress → Type 0
Reads fork st a =
    (view : View) × (opened : Fork) × (open_readonly fork a ≡ some (view, opened))
    × ((k : Bytes) → get_bytes view k ≡ st.current a k)

pub Reads-Represents :
    (fork : Fork) (st : Store) (a : ResolvedAddress)
    → IsIdle fork.working_patch
    → Represents fork st
    → Reads fork st a
unfolding open_readonly clone_view_changes get_bytes
Reads-Represents fork st a i r =
    let (w, e) =
      clone_cell-IdleCell fork.working_patch a (cell_of fork.working_patch a)
        (idle_cell fork.working_patch a i) in
    (
      real (record {
        address = a;
        snapshot = as_snapshot fork.patch;
        changes = changes_ref (changes_at fork.working_patch a);
      }),
      record fork { working_patch = w },
      rw e refl,
      λ k. r.current a k,
    )
