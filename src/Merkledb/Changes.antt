-- ===== src/Merkledb/Changes.antt =====
-- components/merkledb/src/db.rs: `Change` and `ViewChanges`, the changes of one index.
use exonum.Prelude.{Bool, true, false, Option, none, some, List, [], ◌∷◌, ℕ, if◌then◌else◌}
use exonum.Prelude.Order.{bytes_order}
use exonum.Prelude.SortedMap.{SortedMap}
use exonum.Prelude.SortedMap

-- `Vec<u8>`
abbrev pub Bytes : Type 0
Bytes = List ℕ

-- `String`, by its bytes
abbrev pub Text : Type 0
Text = List ℕ

-- `enum Change`
pub data Change : Type 0 where
  put : Bytes → Change
  delete : Change

-- `struct ViewChanges`
pub record ViewChanges : Type 0 where
  pub entries : SortedMap Bytes Change
  pub is_cleared : Bool
  pub namespace : Option Text

-- `ViewChanges::new`
abbrev pub new : ViewChanges
new = record { entries = []; is_cleared = false; namespace = none }

-- `ViewChanges::clear`
unfoldable pub clear : ViewChanges → ViewChanges
clear c = record c { entries = []; is_cleared = true }

-- `ViewChanges::set_aggregation`
unfoldable pub set_aggregation : ViewChanges → Option Text → ViewChanges
set_aggregation c namespace = record c { namespace = namespace }

abbrev pub value_of : Change → Option Bytes
value_of (put v) = some v
value_of delete = none

-- `none` is the error, where the snapshot has the value
abbrev pub get_changed : Option Change → Bool → Option (Option Bytes)
get_changed (some change) is_cleared = some (value_of change)
get_changed none is_cleared = if is_cleared then some none else none

-- `ViewChanges::get`
unfoldable pub get : ViewChanges → Bytes → Option (Option Bytes)
get c key = get_changed (SortedMap.get c.entries key) c.is_cleared

abbrev pub contains_changed : Option Change → Bool → Option Bool
contains_changed (some (put v)) is_cleared = some true
contains_changed (some delete) is_cleared = some false
contains_changed none is_cleared = if is_cleared then some false else none

-- `ViewChanges::contains`
unfoldable pub contains : ViewChanges → Bytes → Option Bool
contains c key = contains_changed (SortedMap.get c.entries key) c.is_cleared

-- a change to a collection of keys and values
unfoldable pub apply_change : SortedMap Bytes Bytes → Bytes → Change → SortedMap Bytes Bytes
apply_change m key (put v) = SortedMap.insert m key v
apply_change m key delete = SortedMap.remove m key

-- changes to a collection, one after another
unfoldable pub apply_changes :
    SortedMap Bytes Change → SortedMap Bytes Bytes → SortedMap Bytes Bytes
unfolding apply_change
apply_changes [] m = m
apply_changes ((key, change) ∷ changes) m = apply_changes changes (apply_change m key change)
