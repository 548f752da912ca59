-- ===== src/Merkledb/Fork/Store.antt =====
-- components/merkledb/src/db.rs: what a fork stands for, a store of two maps, the one that the last
-- `flush` left and the one with the changes since; and a change to one index.
use exonum.Prelude.{
  ◌≡◌, refl, sym, ◌∙◌, Bool, true, false, ◌&&◌, Option, none, some, List, [], ◌∷◌, arith,
  if◌then◌else◌, Option-cases, inl, inr,
}
use exonum.Prelude.Eq.{◌==◌, list_eq, nat_eq}
use exonum.Prelude.Order.{bytes_order}
use exonum.Prelude.SortedMap.{Sorted}
use exonum.Prelude.HashMap.{
  Distinct, get-insert, get-insert_same, insert-Distinct, insert-insert, All-insert, All-get,
}
use exonum.Prelude.HashMap
use exonum.Prelude.Panic.{debug_assert}
use exonum.Merkledb.Changes.{Bytes, ViewChanges}
use exonum.Merkledb.Patch.{ResolvedAddress, address_eq, address_beq_iff, Patch}
use exonum.Merkledb.Patch
use exonum.Merkledb.Views.{modify}
use exonum.Merkledb.Fork.{
  Fork, WorkingPatch, ChangesCell, cell_of, take_cell, take_view_changes, drop_changes_mut,
}
use exonum.Merkledb.Fork.Merge.{cell_changes, IdleCell, IsIdle, changes_at, over}
use exonum.Merkledb.Fork.Commands.{
  Command, put_in, remove_in, clear_in, flush_all, roll_back, run, with_view, open_view, close_view,
}

-- the value of each key of each index
abbrev pub Values : Type 0
Values = ResolvedAddress → Bytes → Option Bytes

-- what a fork promises: the values that are flushed, and those that views read
pub record Store : Type 0 where
  pub flushed : Values
  pub current : Values

-- a command on the store
abbrev pub apply : Command → Store → Store
apply (put_in a k v) st = record st {
  current = λ b j. if (a == b) && (k == j) then some v else st.current b j;
}
apply (remove_in a k) st = record st {
  current = λ b j. if (a == b) && (k == j) then none else st.current b j;
}
apply (clear_in a) st = record st { current = λ b j. if a == b then none else st.current b j }
apply flush_all st = record st { flushed = st.current }
apply roll_back st = record st { current = st.flushed }

unfoldable pub apply_all : List Command → Store → Store
apply_all [] st = st
apply_all (c ∷ cs) st = apply_all cs (apply c st)

-- what a view of an index reads
abbrev pub read : Fork → Values
read fork address key =
    over (changes_at fork.working_patch address) key (Patch.get fork.patch address key)

pub record Represents (fork : Fork) (st : Store) : Type 0 where
  pub flushed : (a : ResolvedAddress) (k : Bytes) → Patch.get fork.patch a k ≡ st.flushed a k
  pub current : (a : ResolvedAddress) (k : Bytes) → read fork a k ≡ st.current a k

abbrev with_changes : Fork → ResolvedAddress → ViewChanges → Fork
with_changes fork a c = record fork {
  working_patch = HashMap.insert fork.working_patch a (some (record { changes = c; readers = 0 }));
}

pub idle_cell : (w : WorkingPatch) (a : ResolvedAddress) → IsIdle w → IdleCell (cell_of w a)
idle_cell w a i = elim (Option-cases (HashMap.get w a)) [
  | inl e ↦ rw (e, IdleCell) (refl, tt)
  | inr (cell, e) ↦ rw (e, IdleCell) (All-get IdleCell w a cell i.cells e)
]

take_cell-idle :
    (w : WorkingPatch) (a : ResolvedAddress) (cell : ChangesCell)
    → IdleCell cell
    → take_cell w a cell ≡ some (cell_changes cell, HashMap.insert w a none)
unfolding take_cell
take_cell-idle w a none i = absurd i
take_cell-idle w a (some shared) i = ground (arith, i.0)

debug_assert-true : (debug : Bool) → debug_assert debug true ≡ some tt
debug_assert-true true = refl
debug_assert-true false = refl

with_view_lem :
    (debug : Bool) (fork : Fork) (a : ResolvedAddress) (f : ViewChanges → ViewChanges)
    → IsIdle fork.working_patch
    → with_view debug fork a (λ view. modify view f)
      ≡ some (with_changes fork a (f (changes_at fork.working_patch a)))
unfolding with_view open_view close_view take_view_changes drop_changes_mut modify
with_view_lem debug fork a f i =
    rw
      (
        take_cell-idle fork.working_patch a (cell_of fork.working_patch a)
            (idle_cell fork.working_patch a i),
        get-insert_same fork.working_patch a none,
        insert-insert fork.working_patch a none,
        debug_assert-true debug,
      )
      refl

-- the cell of an index after a view of it
IsIdle-with_changes :
    (fork : Fork) (a : ResolvedAddress) (c : ViewChanges)
    → IsIdle fork.working_patch
    → Sorted c.entries
    → IsIdle (with_changes fork a c).working_patch
IsIdle-with_changes fork a c i s = record {
  cells =
      All-insert (λ x. IdleCell x.1) fork.working_patch a
        (some (record { changes = c; readers = 0 })) i.cells (refl, s);
  distinct =
      insert-Distinct fork.working_patch a (some (record { changes = c; readers = 0 })) i.distinct;
}

read-with_changes :
    (fork : Fork) (a : ResolvedAddress) (c : ViewChanges) (b : ResolvedAddress) (key : Bytes)
    → read (with_changes fork a c) b key
      ≡ (if a == b then over c key (Patch.get fork.patch b key) else read fork b key)
read-with_changes fork a c b key =
    ground (arith, get-insert fork.working_patch a (some (record { changes = c; readers = 0 })) b)

-- a command on a fork, and what the fork then stands for
abbrev pub Ran : Bool → Command → Fork → Store → Type 0
Ran debug c fork st =
    (fork' : Fork) × (run debug c fork ≡ some fork')
    × IsIdle fork'.working_patch
    × Represents fork' (apply c st)

cell_changes-Sorted : (cell : ChangesCell) → IdleCell cell → Sorted (cell_changes cell).entries
cell_changes-Sorted none i = tt
cell_changes-Sorted (some shared) i = i.1

pub changes_at-Sorted :
    (w : WorkingPatch) (a : ResolvedAddress) → IsIdle w → Sorted (changes_at w a).entries
changes_at-Sorted w a i = cell_changes-Sorted (cell_of w a) (idle_cell w a i)

-- a change to one index
pub with_view-Ran :
    (debug : Bool) (c : Command) (fork : Fork) (st : Store) (a : ResolvedAddress)
    (f : ViewChanges → ViewChanges)
    → IsIdle fork.working_patch
    → Represents fork st
    → run debug c fork ≡ with_view debug fork a (λ view. modify view f)
    → Sorted (f (changes_at fork.working_patch a)).entries
    → ((b : ResolvedAddress) (k : Bytes) → (apply c st).flushed b k ≡ st.flushed b k)
    → ((b : ResolvedAddress) (k : Bytes)
        → (if a == b
            then over (f (changes_at fork.working_patch a)) k (Patch.get fork.patch b k)
            else read fork b k)
          ≡ (apply c st).current b k)
    → Ran debug c fork st
with_view-Ran debug c fork st a f i r same sorted fl cur = (
  with_changes fork a (f (changes_at fork.working_patch a)),
  same ∙ with_view_lem debug fork a f i,
  IsIdle-with_changes fork a (f (changes_at fork.working_patch a)) i sorted,
  record {
    flushed = λ b k. r.flushed b k ∙ sym (fl b k);
    current = λ b k. read-with_changes fork a (f (changes_at fork.working_patch a)) b k ∙ cur b k;
  },
)
