-- ===== src/Merkledb/Fork/Refinement.antt =====
-- components/merkledb/src/db.rs: a fork refines a store of two maps, the one that the last `flush`
-- left and the one with the changes since.
use exonum.Prelude.{◌≡◌, refl, ◌∙◌, Bool, Option, none, some, List, [], ◌∷◌, arith, if◌then◌else◌}
use exonum.Prelude.Eq.{◌==◌, list_eq, nat_eq}
use exonum.Prelude.Order.{bytes_order, is_eq-bytes_cmp}
use exonum.Prelude.SortedMap.{Sorted, insert-Sorted}
use exonum.Prelude.SortedMap
use exonum.Prelude.HashMap.{
  Distinct, get-insert, get-insert_same, insert-Distinct, insert-insert, All-insert, All-get,
}
use exonum.Prelude.HashMap
use exonum.Merkledb.Changes.{Bytes, Change, put, delete, value_of, ViewChanges}
use exonum.Merkledb.Changes
use exonum.Merkledb.Patch.{ResolvedAddress, address_eq, address_beq_iff, Patch}
use exonum.Merkledb.Patch
use exonum.Merkledb.Fork.{Fork, flush, rollback}
use exonum.Merkledb.Fork.Merge.{IsIdle, changes_at, over, merge_into_lem}
use exonum.Merkledb.Fork.Commands.{
  Command, put_in, remove_in, clear_in, flush_all, roll_back, run, run_all,
}
use exonum.Merkledb.Fork.Reading.{Reads, Reads-Represents}
use exonum.Merkledb.Fork.Store.{
  Store, apply, apply_all, read, Represents, Ran, changes_at-Sorted, with_view-Ran,
}

-- reading after a change to a key
over-insert :
    (c : ViewChanges) (k : Bytes) (change : Change) (j : Bytes) (below : Option Bytes)
    → over (record c { entries = SortedMap.insert c.entries k change }) j below
      ≡ (if k == j then value_of change else over c j below)
unfolding Changes.get
over-insert c k change j below =
    ground (arith, SortedMap.get-insert c.entries k change j, is_eq-bytes_cmp k j)

put_in-Ran :
    (debug : Bool) (a : ResolvedAddress) (k v : Bytes) (fork : Fork) (st : Store)
    → IsIdle fork.working_patch
    → Represents fork st
    → Ran debug (put_in a k v) fork st
put_in-Ran debug a k v fork st i r =
    with_view-Ran debug (put_in a k v) fork st a
      (λ c. record c { entries = SortedMap.insert c.entries k (put v) }) i r (unfold run in refl)
      (insert-Sorted (changes_at fork.working_patch a).entries k (put v)
        (changes_at-Sorted fork.working_patch a i))
      (λ b j. refl)
      (λ b j. ground (
        arith,
        over-insert (changes_at fork.working_patch a) k (put v) j (Patch.get fork.patch b j),
        r.current b j,
        address_beq_iff a b,
      ))

remove_in-Ran :
    (debug : Bool) (a : ResolvedAddress) (k : Bytes) (fork : Fork) (st : Store)
    → IsIdle fork.working_patch
    → Represents fork st
    → Ran debug (remove_in a k) fork st
remove_in-Ran debug a k fork st i r =
    with_view-Ran debug (remove_in a k) fork st a
      (λ c. record c { entries = SortedMap.insert c.entries k delete }) i r (unfold run in refl)
      (insert-Sorted (changes_at fork.working_patch a).entries k delete
        (changes_at-Sorted fork.working_patch a i))
      (λ b j. refl)
      (λ b j. ground (
        arith,
        over-insert (changes_at fork.working_patch a) k delete j (Patch.get fork.patch b j),
        r.current b j,
        address_beq_iff a b,
      ))

over-clear :
    (c : ViewChanges) (j : Bytes) (below : Option Bytes) → over (Changes.clear c) j below ≡ none
unfolding Changes.get Changes.clear SortedMap.get
over-clear c j below = refl

clear_in-Ran :
    (debug : Bool) (a : ResolvedAddress) (fork : Fork) (st : Store)
    → IsIdle fork.working_patch
    → Represents fork st
    → Ran debug (clear_in a) fork st
clear_in-Ran debug a fork st i r =
    with_view-Ran debug (clear_in a) fork st a Changes.clear i r (unfold run in refl)
      (unfold Changes.clear in tt) (λ b j. refl)
      (λ b j. ground (
        arith,
        over-clear (changes_at fork.working_patch a) j (Patch.get fork.patch b j),
        r.current b j,
      ))

read_rolled :
    (patch : Patch) (a : ResolvedAddress) (k : Bytes)
    → read (record { patch = patch; working_patch = [] }) a k ≡ Patch.get patch a k
unfolding HashMap.get Changes.get SortedMap.get
read_rolled patch a k = refl

flush_all-Ran :
    (debug : Bool) (fork : Fork) (st : Store)
    → IsIdle fork.working_patch
    → Represents fork st
    → Ran debug flush_all fork st
unfolding run flush
flush_all-Ran debug fork st i r =
    let (patch, e, m) = merge_into_lem fork.working_patch fork.patch i in
    (
      record { patch = patch; working_patch = [] },
      rw e refl,
      record { cells = tt; distinct = tt },
      record {
        flushed = λ a k. m a k ∙ r.current a k;
        current = λ a k. read_rolled patch a k ∙ m a k ∙ r.current a k;
      },
    )

roll_back-Ran :
    (debug : Bool) (fork : Fork) (st : Store) → Represents fork st → Ran debug roll_back fork st
unfolding run rollback
roll_back-Ran debug fork st r = (
  record fork { working_patch = [] },
  refl,
  record { cells = tt; distinct = tt },
  record { flushed = r.flushed; current = λ a k. read_rolled fork.patch a k ∙ r.flushed a k },
)

run-Ran :
    (debug : Bool) (c : Command) (fork : Fork) (st : Store)
    → IsIdle fork.working_patch
    → Represents fork st
    → Ran debug c fork st
run-Ran debug (put_in a k v) fork st i r = put_in-Ran debug a k v fork st i r
run-Ran debug (remove_in a k) fork st i r = remove_in-Ran debug a k fork st i r
run-Ran debug (clear_in a) fork st i r = clear_in-Ran debug a fork st i r
run-Ran debug flush_all fork st i r = flush_all-Ran debug fork st i r
run-Ran debug roll_back fork st i r = roll_back-Ran debug fork st r

-- A fork with no open view that stands for a store refines it: any sequence of commands, each of
-- which puts or removes a value of an index, clears an index, flushes or rolls back, runs without a
-- panic, leaves no view open, and gives a fork that stands for the store after the same commands. A
-- view for reading of any index then opens, and reads what that store has: the last change to each
-- key, where a flush keeps what views read and a rollback restores what the last flush left.
pub run_all-Represents :
    (debug : Bool) (cs : List Command) (fork : Fork) (st : Store)
    → IsIdle fork.working_patch
    → Represents fork st
    → (fork' : Fork) × (run_all debug cs fork ≡ some fork')
      × IsIdle fork'.working_patch
      × Represents fork' (apply_all cs st)
      × ((a : ResolvedAddress) → Reads fork' (apply_all cs st) a)
unfolding run_all apply_all
run_all-Represents debug [] fork st i r = (fork, refl, i, r, λ a. Reads-Represents fork st a i r)
run_all-Represents debug (c ∷ cs) fork st i r =
    let (fork1, e1, i1, r1) = run-Ran debug c fork st i r in
    let (fork2, e2, i2, r2, reads) = run_all-Represents debug cs fork1 (apply c st) i1 r1 in
    (fork2, rw e1 e2, i2, r2, reads)
