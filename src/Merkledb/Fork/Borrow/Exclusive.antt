-- ===== src/Merkledb/Fork/Borrow/Exclusive.antt =====
-- components/merkledb/src/db.rs: the borrow checks of a fork, like those of `RefCell`.
use exonum.Prelude.{ℕ, ◌+◌, ◌<◌, ◌≡◌, ◌↔◌, refl, Bool, true, none, some, arith}
use exonum.Prelude.HashMap
use exonum.Merkledb.Changes.{ViewChanges}
use exonum.Merkledb.Patch.{ResolvedAddress, address_eq}
use exonum.Merkledb.Fork.{
  ChangesCell, WorkingPatch, cell_of, take_cell, clone_cell, take_view_changes, clone_view_changes,
  drop_changes_mut, drop_changes_ref, drop_reader,
}
use exonum.Merkledb.Fork.Borrow.{
  Count, Held, Counted, Counts, Held-Counts, writer_alone, stored_cell,
}

take_none :
    (w : WorkingPatch) (a : ResolvedAddress) (cell : ChangesCell) (n r : ℕ)
    → Counted cell n r
    → (take_cell w a cell ≡ none) ↔ (0 < n + r)
unfolding take_cell
take_none w a none n r k = (λ h. omega (arith, k.0), λ h. refl)
take_none w a (some shared) n r k = ground (arith, k.0, k.1)

clone_none :
    (w : WorkingPatch) (a : ResolvedAddress) (cell : ChangesCell) (n r : ℕ)
    → Counted cell n r
    → (clone_cell w a cell ≡ none) ↔ (0 < n)
unfolding clone_cell
clone_none w a none n r k = (λ h. omega (arith, k.0), λ h. refl)
clone_none w a (some shared) n r k = ground (arith, k.0, k.1)

-- However views have opened and dropped, opening a view of an index for writing panics exactly when
-- some view of that index is open, and opening one for reading panics exactly when a view of that
-- index is open for writing.
pub open_panics :
    (debug : Bool) (w : WorkingPatch) (ws rs : Count) (a : ResolvedAddress)
    → Held debug w ws rs
    → ((take_view_changes w a ≡ none) ↔ (0 < ws a + rs a))
      × ((clone_view_changes w a ≡ none) ↔ (0 < ws a))
unfolding Counts take_view_changes clone_view_changes
open_panics debug w ws rs a h = (
  take_none w a (cell_of w a) (ws a) (rs a) (Held-Counts debug h a),
  clone_none w a (cell_of w a) (ws a) (rs a) (Held-Counts debug h a),
)

-- However views have opened and dropped, the drop of an open view does not panic: the entry of the
-- index is there, and it is empty when a view for writing puts its changes back, as the debug
-- assertion of the drop wants.
pub drop_returns :
    (debug : Bool) (w : WorkingPatch) (ws rs : Count) (a : ResolvedAddress) (c : ViewChanges)
    → Held debug w ws rs
    → (0 < ws a → (w' : WorkingPatch) × (drop_changes_mut true w a c ≡ some w'))
      × (0 < rs a → (w' : WorkingPatch) × (drop_changes_ref w a ≡ some w'))
unfolding Counts drop_changes_mut drop_changes_ref
drop_returns debug w ws rs a c h = (
  λ n.
      let k = Held-Counts debug h a in
      let e = stored_cell w a (ws a) (rs a) k (omega (arith, n)) in
      let (cell, one, r) = writer_alone (cell_of w a) (ws a) (rs a) k n in
      (HashMap.insert w a (some (record { changes = c; readers = 0 })), ground (arith, e, cell)),
  λ r.
      let k = Held-Counts debug h a in
      let e = stored_cell w a (ws a) (rs a) k (omega (arith, r)) in
      (HashMap.insert w a (drop_reader (cell_of w a)), rw e refl),
)
