-- ===== src/Merkledb/Fork/Merge.antt =====
-- components/merkledb/src/db.rs: what `merge_into` leaves in a patch.
use exonum.Prelude.{
  ◌≡◌, refl, sym, ◌∙◌, Option, none, some, [], ◌∷◌, All, ap, subst, inl, inr, arith, if◌then◌else◌,
  Bool-cases,
}
use exonum.Prelude.Eq.{◌==◌}
use exonum.Prelude.Order.{bytes_order}
use exonum.Prelude.SortedMap.{Sorted}
use exonum.Prelude.SortedMap.Ranges.{get-extend}
use exonum.Prelude.SortedMap
use exonum.Prelude.HashMap.{Distinct, Fresh, get-insert, get-Fresh}
use exonum.Prelude.HashMap
use exonum.Merkledb.Changes.{Bytes, ViewChanges}
use exonum.Merkledb.Changes
use exonum.Merkledb.Patch.{ResolvedAddress, address_eq, address_beq_iff, Patch, unwrap_or}
use exonum.Merkledb.Patch
use exonum.Merkledb.Fork.{
  ChangesCell, WorkingPatch, cell_of, merged_changes, changes_or_new, merge_view, merge_into,
}

-- a cell that no view holds, with its changes in the order of their keys
abbrev pub IdleCell : ChangesCell → Type 0
IdleCell none = ⊥
IdleCell (some shared) = (shared.readers ≡ 0) × Sorted shared.changes.entries

pub record IsIdle (w : WorkingPatch) : Type 0 where
  pub cells : All (λ x. IdleCell x.1) w
  pub distinct : Distinct w

abbrev pub cell_changes : ChangesCell → ViewChanges
cell_changes none = Changes.new
cell_changes (some shared) = shared.changes

-- the changes of an index; none, where the working patch has no cell for it
abbrev pub changes_at : WorkingPatch → ResolvedAddress → ViewChanges
changes_at w address = cell_changes (cell_of w address)

-- changes over the value below them
abbrev pub over : ViewChanges → Bytes → Option Bytes → Option Bytes
over changes key below = unwrap_or (Changes.get changes key) below

over-merged :
    (old new : ViewChanges) (key : Bytes) (below : Option Bytes)
    → Sorted new.entries
    → over (merged_changes old new) key below ≡ over new key (over old key below)
unfolding Changes.get
over-merged old new key below s = ground (arith, get-extend old.entries new.entries key s)

get-over :
    (patch : Patch) (address : ResolvedAddress) (key : Bytes)
    → Patch.get patch address key
      ≡ over
          (changes_or_new (HashMap.get patch.changes address))
          key
          (patch.snapshot.get address key)
unfolding Patch.get Changes.get SortedMap.get
get-over patch address key = ground arith

get-merge_view :
    (patch : Patch) (a : ResolvedAddress) (changes : ViewChanges) (b : ResolvedAddress)
    (key : Bytes)
    → Sorted changes.entries
    → Patch.get (merge_view patch a changes) b key
      ≡ (if a == b then over changes key (Patch.get patch b key) else Patch.get patch b key)
get-merge_view patch a changes b key s =
    rw
      (
        get-over (merge_view patch a changes) b key,
        get-over patch b key,
        get-insert patch.changes a
            (merged_changes (changes_or_new (HashMap.get patch.changes a)) changes) b,
      )
      (ground (
        arith,
        address_beq_iff a b,
        over-merged (changes_or_new (HashMap.get patch.changes a)) changes key
            (patch.snapshot.get a key) s,
      ))

over-new : (key : Bytes) (below : Option Bytes) → over Changes.new key below ≡ below
unfolding Changes.get SortedMap.get
over-new key below = refl

-- an index whose cell is the first one has no other cell
changes_at-cons :
    (a : ResolvedAddress) (cell : ChangesCell) (w : WorkingPatch) (b : ResolvedAddress)
    (key : Bytes) (below : Option Bytes)
    → Fresh a w
    → over (changes_at ((a, cell) ∷ w) b) key below
      ≡ over (changes_at w b) key (if a == b then over (cell_changes cell) key below else below)
unfolding HashMap.get
changes_at-cons a cell w b key below f = elim (Bool-cases (a == b)) [
  | inl t ↦ ground (
    arith,
    over-new key below,
    over-new key (over (cell_changes cell) key below),
    get-Fresh w b (subst (λ x. Fresh x w) ((address_beq_iff a b).0 t) f),
  )
  | inr n ↦ ground arith
]

-- what `merge_into` gives for an index
abbrev pub Merged : WorkingPatch → Patch → Patch → Type 0
Merged w patch patch' =
    (address : ResolvedAddress) (key : Bytes)
    → Patch.get patch' address key ≡ over (changes_at w address) key (Patch.get patch address key)

pub merge_into_lem :
    (w : WorkingPatch) (patch : Patch)
    → IsIdle w
    → (patch' : Patch) × (merge_into w patch ≡ some patch') × Merged w patch patch'
unfolding merge_into
merge_into_lem [] patch i =
    (patch, refl, λ b key. unfold HashMap.get in sym (over-new key (Patch.get patch b key)))
merge_into_lem ((a, none) ∷ w) patch i = absurd i.cells.0
merge_into_lem ((a, some shared) ∷ w) patch i =
    let (patch', e, m) =
      merge_into_lem w (merge_view patch a shared.changes)
        (record { cells = i.cells.1; distinct = i.distinct.1 }) in
    (
      patch',
      rw (i.cells.0.0) e,
      λ b key.
          m b key
          ∙ ap (over (changes_at w b) key) (get-merge_view patch a shared.changes b key i.cells.0.1)
          ∙ sym (changes_at-cons a (some shared) w b key (Patch.get patch b key) i.distinct.0),
    )
