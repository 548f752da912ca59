-- ===== src/Merkledb/Fork.antt =====
-- components/merkledb/src/db.rs: `WorkingPatch`, `ChangesMut`, `ChangesRef` and `Fork`. A cell of the
-- working patch counts the readers that hold its changes; `none` is a panic.

pub mod Merge
pub mod Borrow
pub mod Commands
pub mod Store
pub mod Reading
pub mod Refinement
use exonum.Prelude.{
  ℕ, zero, suc, ◌≡◌, ◌-◌, ◌+◌, Bool, true, false, Option, none, some, List, [], ◌∷◌, if◌then◌else◌,
}
use exonum.Prelude.Eq.{◌==◌, nat_eq}
use exonum.Prelude.Order.{bytes_order}
use exonum.Prelude.SortedMap
use exonum.Prelude.HashMap.{HashMap}
use exonum.Prelude.HashMap
use exonum.Prelude.Panic.{◌>>=◌, ◌>>◌, assert, debug_assert}
use exonum.Merkledb.Changes.{Bytes, Text, ViewChanges, Change}
use exonum.Merkledb.Changes
use exonum.Merkledb.Patch.{ResolvedAddress, address_eq, Patch}

-- `Rc<ViewChanges>`, with the number of its owners apart from the cell
pub record Shared : Type 0 where
  pub changes : ViewChanges
  pub readers : ℕ

-- `ChangesCell`; `none` while a view holds the changes for writing
abbrev pub ChangesCell : Type 0
ChangesCell = Option Shared

-- `struct WorkingPatch`
abbrev pub WorkingPatch : Type 0
WorkingPatch = HashMap ResolvedAddress ChangesCell

abbrev pub fresh_cell : ChangesCell
fresh_cell = some (record { changes = Changes.new; readers = 0 })

-- `entry(address).or_insert_with(…)`
abbrev pub cell_of : WorkingPatch → ResolvedAddress → ChangesCell
cell_of w address = elim (HashMap.get w address) [ none ↦ fresh_cell | some cell ↦ cell ]

take_cell : WorkingPatch → ResolvedAddress → ChangesCell → Option (ViewChanges × WorkingPatch)
take_cell w address none = none
take_cell w address (some shared) =
    if shared.readers == 0 then some (shared.changes, HashMap.insert w address none) else none

-- `WorkingPatch::take_view_changes`
unfoldable pub take_view_changes :
    WorkingPatch → ResolvedAddress → Option (ViewChanges × WorkingPatch)
unfolding take_cell
take_view_changes w address = take_cell w address (cell_of w address)

clone_cell : WorkingPatch → ResolvedAddress → ChangesCell → Option (ViewChanges × WorkingPatch)
clone_cell w address none = none
clone_cell w address (some shared) = some (
  shared.changes,
  HashMap.insert w address (some (record shared { readers = shared.readers + 1 })),
)

-- `WorkingPatch::clone_view_changes`
unfoldable pub clone_view_changes :
    WorkingPatch → ResolvedAddress → Option (ViewChanges × WorkingPatch)
unfolding clone_cell
clone_view_changes w address = clone_cell w address (cell_of w address)

abbrev is_none : ChangesCell → Bool
is_none none = true
is_none (some shared) = false

-- `ChangesMut::drop`
unfoldable pub drop_changes_mut :
    Bool → WorkingPatch → ResolvedAddress → ViewChanges → Option WorkingPatch
drop_changes_mut debug w address changes = do
  cell ← HashMap.get w address
  debug_assert debug (is_none cell)
  some (HashMap.insert w address (some (record { changes = changes; readers = 0 })))

drop_reader : ChangesCell → ChangesCell
drop_reader none = none
drop_reader (some shared) = some (record shared { readers = shared.readers - 1 })

-- dropping a `ChangesRef`, and so its `Rc`
unfoldable pub drop_changes_ref : WorkingPatch → ResolvedAddress → Option WorkingPatch
unfolding drop_reader
drop_changes_ref w address = do
  cell ← HashMap.get w address
  some (HashMap.insert w address (drop_reader cell))

abbrev pub insert_namespace :
    Option Text → HashMap ResolvedAddress Text → ResolvedAddress → HashMap ResolvedAddress Text
insert_namespace none addrs address = addrs
insert_namespace (some namespace) addrs address = HashMap.insert addrs address namespace

-- the newer changes `new` over the changes of the patch
abbrev pub merged_changes : ViewChanges → ViewChanges → ViewChanges
merged_changes old new =
    if new.is_cleared
    then record new { namespace = none }
    else record old { entries = SortedMap.extend old.entries new.entries }

abbrev pub changes_or_new : Option ViewChanges → ViewChanges
changes_or_new none = Changes.new
changes_or_new (some changes) = changes

-- one step of the loop of `merge_into`
abbrev pub merge_view : Patch → ResolvedAddress → ViewChanges → Patch
merge_view patch address changes = record patch {
  changes =
      HashMap.insert patch.changes address
        (merged_changes (changes_or_new (HashMap.get patch.changes address)) changes);
  changed_aggregated_addrs =
      insert_namespace changes.namespace patch.changed_aggregated_addrs address;
}

-- `ok_or_panic` twice: no view holds the cell for writing, or for reading
abbrev pub owned_changes : ChangesCell → Option ViewChanges
owned_changes none = none
owned_changes (some shared) = if shared.readers == 0 then some shared.changes else none

-- `WorkingPatch::merge_into`
unfoldable pub merge_into : WorkingPatch → Patch → Option Patch
merge_into [] patch = some patch
merge_into ((address, cell) ∷ w) patch = do
  changes ← owned_changes cell
  merge_into w (merge_view patch address changes)

-- `struct Fork`
pub record Fork : Type 0 where
  pub patch : Patch
  pub working_patch : WorkingPatch

-- `Fork::from`
abbrev pub from : Patch → Fork
from patch = record { patch = patch; working_patch = [] }

-- `Fork::flush`
unfoldable pub flush : Fork → Option Fork
flush fork = do
  patch ← merge_into fork.working_patch fork.patch
  some (record { patch = patch; working_patch = [] })

-- `Fork::rollback`
unfoldable pub rollback : Fork → Fork
rollback fork = record fork { working_patch = [] }
