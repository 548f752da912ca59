-- ===== src/Merkledb/ListIndex.antt =====
-- components/merkledb/src/indexes/list.rs: `ListIndex`, a list over a view, with `u64` keys. Values are
-- bytes, and the state of the index is its length; the copy of it in the pool of indexes is left out.
pub mod Listing
pub mod Refinement
use exonum.Prelude.{
  ℕ, zero, suc, ◌+◌, ◌-◌, Bool, true, false, Option, none, some, List, [], ◌∷◌, if◌then◌else◌, ltb,
  leb,
}
use exonum.Prelude.Panic.{◌>>=◌}
use exonum.Helpers.Word.{checked}
use exonum.Merkledb.Changes.{Bytes}
use exonum.Merkledb.Keys.{BigEndian}
use exonum.Merkledb.Views.{View, get_bytes, put_bytes}
use exonum.Merkledb.Views

-- `struct ListIndex`
pub record ListIndex : Type 0 where
  pub base : View
  pub state : Option ℕ

abbrev or_zero : Option ℕ → ℕ
or_zero none = 0
or_zero (some n) = n

-- `ListIndex::len`
abbrev pub list_len : ListIndex → ℕ
list_len l = or_zero l.state

abbrev pub set_len : ListIndex → ℕ → ListIndex
set_len l n = record l { state = some n }

module _ (be : BigEndian 64) where
  -- `ListIndex::get`
  unfoldable pub get : ListIndex → ℕ → Option Bytes
  get l index = get_bytes l.base (be.write index)

  last_at : ListIndex → ℕ → Option Bytes
  last_at l zero = none
  last_at l (suc n) = get_bytes l.base (be.write n)

  -- `ListIndex::last`
  unfoldable pub last : ListIndex → Option Bytes
  unfolding last_at
  last l = last_at l (list_len l)

  -- `ListIndex::push`
  unfoldable pub push : Bool → ListIndex → Bytes → Option ListIndex
  push debug l value = do
    base ← put_bytes l.base (be.write (list_len l)) value
    n ← checked debug 64 (list_len l + 1)
    some (record { base = base; state = some n })

  pop_at : ListIndex → ℕ → Option (Option Bytes × ListIndex)
  pop_at l zero = some (none, l)
  pop_at l (suc n) = do
    base ← Views.remove l.base (be.write n)
    some (get_bytes l.base (be.write n), record { base = base; state = some n })

  -- `ListIndex::pop`
  unfoldable pub pop : ListIndex → Option (Option Bytes × ListIndex)
  unfolding pop_at
  pop l = pop_at l (list_len l)

  -- `ListIndex::truncate`, with fuel for its loop
  unfoldable pub truncate : ℕ → ListIndex → ℕ → Option ListIndex
  truncate zero l n = if ltb n (list_len l) then none else some l
  truncate (suc fuel) l n =
      let rest = truncate fuel in if ltb n (list_len l) then (pop l >>= λ r. rest r.1 n) else some l

  -- `ListIndex::set`
  unfoldable pub set : ListIndex → ℕ → Bytes → Option ListIndex
  set l index value =
      if leb (list_len l) index
      then none
      else (do base ← put_bytes l.base (be.write index) value; some (record l { base = base }))

-- `ListIndex::clear`
unfoldable pub clear : ListIndex → Option ListIndex
clear l = do base ← Views.clear l.base; some (record { base = base; state = none })
