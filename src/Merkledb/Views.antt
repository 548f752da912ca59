-- ===== src/Merkledb/Views.antt =====
-- components/merkledb/src/views/mod.rs: `View`, over keys and values that are bytes already.
pub mod Writing
use exonum.Prelude.{Bool, true, false, Option, none, some, []}
use exonum.Prelude.Order.{bytes_order}
use exonum.Prelude.SortedMap
use exonum.Prelude.Panic.{◌>>=◌}
use exonum.Merkledb.Changes.{Bytes, Text, Change, put, delete, ViewChanges}
use exonum.Merkledb.Changes
use exonum.Merkledb.Iter.{IterOf, changes_iter}
use exonum.Merkledb.Patch.{ResolvedAddress, Snapshot, get_in, contains_in, iter_over, unwrap_or}

-- `trait ChangeSet`: `()`, `ChangesRef` and `ChangesMut`
pub data ChangeSet : Type 0 where
  no_changes : ChangeSet
  changes_ref : ViewChanges → ChangeSet
  changes_mut : ViewChanges → ChangeSet

-- `ChangeSet::as_ref`
abbrev pub as_ref : ChangeSet → Option ViewChanges
as_ref no_changes = none
as_ref (changes_ref changes) = some changes
as_ref (changes_mut changes) = some changes

-- `ChangeSet::as_mut`, followed by a change
abbrev pub change_mut : ChangeSet → (ViewChanges → ViewChanges) → Option ChangeSet
change_mut no_changes f = none
change_mut (changes_ref changes) f = none
change_mut (changes_mut changes) f = some (changes_mut (f changes))

-- `struct ViewInner`
pub record ViewInner : Type 0 where
  pub address : ResolvedAddress
  pub snapshot : Snapshot
  pub changes : ChangeSet

-- `enum View`
pub data View : Type 0 where
  real : ViewInner → View
  phantom : View

-- `View::get_bytes`
unfoldable pub get_bytes : View → Bytes → Option Bytes
get_bytes (real inner) key =
    unwrap_or (get_in (as_ref inner.changes) key) (inner.snapshot.get inner.address key)
get_bytes phantom key = none

-- `View::contains_raw_key`
unfoldable pub contains_raw_key : View → Bytes → Bool
contains_raw_key (real inner) key =
    unwrap_or (contains_in (as_ref inner.changes) key) (inner.snapshot.contains inner.address key)
contains_raw_key phantom key = false

-- `View::iter_bytes`; a phantom view has no entries
unfoldable pub iter_bytes : View → Bytes → IterOf
iter_bytes (real inner) from =
    iter_over (as_ref inner.changes) (inner.snapshot.iter inner.address from) from
iter_bytes phantom from = changes_iter []

-- `changes_mut`, which panics on a view that is only for reading, followed by a change
unfoldable pub modify : View → (ViewChanges → ViewChanges) → Option View
modify (real inner) f = do
  changes ← change_mut inner.changes f
  some (real (record inner { changes = changes }))
modify phantom f = none

-- `View::put`
abbrev pub put_bytes : View → Bytes → Bytes → Option View
put_bytes view key value =
    modify view (λ c. record c { entries = SortedMap.insert c.entries key (put value) })

-- `View::remove`
abbrev pub remove : View → Bytes → Option View
remove view key = modify view (λ c. record c { entries = SortedMap.insert c.entries key delete })

-- `View::clear`
abbrev pub clear : View → Option View
clear view = modify view Changes.clear

or_forget : View → Option View → View × Bool
or_forget view none = (view, false)
or_forget view (some changed) = (changed, true)

-- `View::put_or_forget`
unfoldable pub put_or_forget : View → Bytes → Bytes → View × Bool
unfolding or_forget
put_or_forget view key value = or_forget view (put_bytes view key value)

-- `View::set_or_forget_aggregation`
unfoldable pub set_or_forget_aggregation : View → Option Text → View
unfolding or_forget
set_or_forget_aggregation view namespace =
    (or_forget view (modify view (λ c. Changes.set_aggregation c namespace))).0
