-- ===== src/Merkledb/Iter.antt =====
-- components/merkledb/src/db.rs: `ForkIter`, which merges the entries of a snapshot with changes to
-- them, and `ChangesIter` of views/mod.rs, where the snapshot does not count. An iterator is the list of
-- the entries that it has left.
pub mod Merged
pub mod Collected
pub mod Peek
pub mod Entries
use exonum.Prelude.{ℕ, zero, suc, Option, none, some, List, [], ◌∷◌, length, ◌+◌}
use Prim.Native.Nat.{Ordering}
use exonum.Prelude.Order.{bytes_cmp}
use exonum.Merkledb.Changes.{Bytes, Change, put, delete}

-- `enum NextIterValue`
pub data NextIterValue : Type 0 where
  stored replaced inserted deleted miss_deleted finished : NextIterValue

-- `struct ForkIter`
pub record ForkIter : Type 0 where
  pub snapshot : List (Bytes × Bytes)
  pub changes : Option (List (Bytes × Change))

on_change : Change → Ordering → NextIterValue
on_change (put v) Ordering.eq = replaced
on_change (put v) Ordering.lt = inserted
on_change (put v) Ordering.gt = stored
on_change delete Ordering.eq = deleted
on_change delete Ordering.lt = miss_deleted
on_change delete Ordering.gt = stored

on_rest : Change → NextIterValue
on_rest (put v) = inserted
on_rest delete = miss_deleted

on_snapshot : List (Bytes × Bytes) → NextIterValue
on_snapshot [] = finished
on_snapshot (e ∷ s) = stored

step_on : Option (List (Bytes × Change)) → List (Bytes × Bytes) → NextIterValue
unfolding on_change on_rest on_snapshot bytes_cmp
step_on (some ((k, change) ∷ changes)) ((key, v) ∷ s) = on_change change (bytes_cmp k key)
step_on (some ((k, change) ∷ changes)) [] = on_rest change
step_on (some []) s = on_snapshot s
step_on none s = on_snapshot s

-- `ForkIter::step`
unfoldable pub step : ForkIter → NextIterValue
unfolding step_on
step it = step_on it.changes it.snapshot

-- an entry, if there is one, and the iterator after it; `none` is `unreachable!` or spent fuel
abbrev pub Next : Type 0
Next = Option (Option (Bytes × Bytes) × ForkIter)

next_stored : Option (List (Bytes × Change)) → List (Bytes × Bytes) → Next
next_stored changes [] = some (none, record { snapshot = []; changes = changes })
next_stored changes (e ∷ s) = some (some e, record { snapshot = s; changes = changes })

-- `self.changes.as_mut().unwrap().next()`, whose change is a value that is put
next_change : Option (List (Bytes × Change)) → List (Bytes × Bytes) → Next
next_change (some ((k, put v) ∷ changes)) s =
    some (some (k, v), record { snapshot = s; changes = some changes })
next_change (some ((k, delete) ∷ changes)) s = none
next_change (some []) s = some (none, record { snapshot = s; changes = some [] })
next_change none s = none

abbrev skip_stored : List (Bytes × Bytes) → List (Bytes × Bytes)
skip_stored [] = []
skip_stored (e ∷ s) = s

abbrev skip_change : Option (List (Bytes × Change)) → Option (List (Bytes × Change))
skip_change (some (e ∷ changes)) = some changes
skip_change (some []) = some []
skip_change none = none

-- `ForkIter::next`, with fuel for its loop
unfoldable pub next : ℕ → ForkIter → Next
unfolding step next_stored next_change
next zero it = none
next (suc fuel) it = elim (step it) [
  | NextIterValue.stored ↦ next_stored it.changes it.snapshot
  | NextIterValue.replaced ↦ next_change it.changes (skip_stored it.snapshot)
  | NextIterValue.inserted ↦ next_change it.changes it.snapshot
  | NextIterValue.deleted ↦
      next fuel (record { snapshot = skip_stored it.snapshot; changes = skip_change it.changes })
  | NextIterValue.miss_deleted ↦ next fuel (record it { changes = skip_change it.changes })
  | NextIterValue.finished ↦ some (none, it)
]

shown_first : Bytes × Bytes → Option (List (Bytes × Bytes)) → Option (List (Bytes × Bytes))
shown_first e none = none
shown_first e (some es) = some (e ∷ es)

collect_from : Next → (ForkIter → Option (List (Bytes × Bytes))) → Option (List (Bytes × Bytes))
unfolding shown_first
collect_from none rest = none
collect_from (some (none, it)) rest = some []
collect_from (some (some e, it)) rest = shown_first e (rest it)

-- a loop over the iterator, with the entries that it shows
unfoldable pub collect : ℕ → ℕ → ForkIter → Option (List (Bytes × Bytes))
unfolding collect_from
collect zero fuel it = none
collect (suc n) fuel it = collect_from (next fuel it) (collect n fuel)

peek_stored : ForkIter → List (Bytes × Bytes) → Next
peek_stored it [] = some (none, it)
peek_stored it (e ∷ s) = some (some e, it)

peek_change : ForkIter → Option (List (Bytes × Change)) → Next
peek_change it (some ((k, put v) ∷ changes)) = some (some (k, v), it)
peek_change it (some ((k, delete) ∷ changes)) = none
peek_change it (some []) = some (none, it)
peek_change it none = none

-- `ForkIter::peek`, which leaves the entry that it shows, and drops deletions on its way
unfoldable pub peek : ℕ → ForkIter → Next
unfolding step peek_stored peek_change
peek zero it = none
peek (suc fuel) it = elim (step it) [
  | NextIterValue.stored ↦ peek_stored it it.snapshot
  | NextIterValue.replaced ↦ peek_change it it.changes
  | NextIterValue.inserted ↦ peek_change it it.changes
  | NextIterValue.deleted ↦
      peek fuel (record { snapshot = skip_stored it.snapshot; changes = skip_change it.changes })
  | NextIterValue.miss_deleted ↦ peek fuel (record it { changes = skip_change it.changes })
  | NextIterValue.finished ↦ some (none, it)
]

-- `ChangesIter::next`, which passes over deletions
unfoldable pub changes_next : List (Bytes × Change) → Option (Bytes × Bytes) × List (Bytes × Change)
changes_next [] = (none, [])
changes_next ((k, put v) ∷ changes) = (some (k, v), changes)
changes_next ((k, delete) ∷ changes) = changes_next changes

-- `Box<dyn Iterator>`: over the changes alone, or over a snapshot with changes
pub data IterOf : Type 0 where
  changes_iter : List (Bytes × Change) → IterOf
  fork_iter : ForkIter → IterOf

collect_change :
    Option (Bytes × Bytes) × List (Bytes × Change)
    → (List (Bytes × Change) → List (Bytes × Bytes))
    → List (Bytes × Bytes)
collect_change (none, changes) rest = []
collect_change (some e, changes) rest = e ∷ rest changes

-- a loop over `ChangesIter`, with the entries that it shows
unfoldable pub collect_changes : ℕ → List (Bytes × Change) → List (Bytes × Bytes)
unfolding collect_change
collect_changes zero changes = []
collect_changes (suc n) changes = collect_change (changes_next changes) (collect_changes n)

abbrev pub changes_of : ForkIter → List (Bytes × Change)
changes_of it = elim it.changes [ none ↦ [] | some changes ↦ changes ]

abbrev or_empty : Option (List (Bytes × Bytes)) → List (Bytes × Bytes)
or_empty none = []
or_empty (some entries) = entries

-- a loop over an iterator, with enough fuel
unfoldable pub entries : IterOf → List (Bytes × Bytes)
entries (changes_iter changes) = collect_changes (length changes + 1) changes
entries (fork_iter it) =
    or_empty
      (collect (length (changes_of it) + length it.snapshot + 1) (length (changes_of it) + 1) it)
