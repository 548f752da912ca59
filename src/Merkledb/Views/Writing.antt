-- ===== src/Merkledb/Views/Writing.antt =====
-- components/merkledb/src/views/mod.rs: what a view reads after a change to it.
use exonum.Prelude.{◌≡◌, refl, Option, none, some, arith, if◌then◌else◌}
use exonum.Prelude.Eq.{◌==◌, list_eq, nat_eq}
use exonum.Prelude.Order.{bytes_order, is_eq-bytes_cmp}
use exonum.Prelude.SortedMap
use exonum.Merkledb.Changes.{Bytes, Change, put, delete, value_of, ViewChanges}
use exonum.Merkledb.Changes
use exonum.Merkledb.Patch.{unwrap_or}
use exonum.Merkledb.Views.{
  View, real, phantom, changes_mut, get_bytes, put_bytes, remove, clear, modify,
}

-- a view for writing
abbrev pub CanWrite : View → Type 0
CanWrite (real inner) = (c : ViewChanges) × (inner.changes ≡ changes_mut c)
CanWrite phantom = ⊥

-- reading after a change to a key
get-changed :
    (c : ViewChanges) (k : Bytes) (change : Change) (j : Bytes) (below : Option Bytes)
    → unwrap_or (Changes.get (record c { entries = SortedMap.insert c.entries k change }) j) below
      ≡ (if k == j then value_of change else unwrap_or (Changes.get c j) below)
unfolding Changes.get
get-changed c k change j below =
    ground (arith, SortedMap.get-insert c.entries k change j, is_eq-bytes_cmp k j)

-- a changed view, and what it reads
abbrev pub Changed : View → Option View → (Bytes → Option Bytes) → Type 0
Changed view result reads =
    (view' : View) × (result ≡ some view')
    × CanWrite view'
    × ((j : Bytes) → get_bytes view' j ≡ reads j)

pub put_bytes-CanWrite :
    (view : View) (k v : Bytes)
    → CanWrite view
    → Changed view (put_bytes view k v) (λ j. if k == j then some v else get_bytes view j)
unfolding get_bytes modify
put_bytes-CanWrite (real inner) k v (c, e) = (
  real (record inner {
    changes = changes_mut (record c { entries = SortedMap.insert c.entries k (put v) });
  }),
  rw e refl,
  (record c { entries = SortedMap.insert c.entries k (put v) }, refl),
  λ j. rw e (get-changed c k (put v) j (inner.snapshot.get inner.address j)),
)
put_bytes-CanWrite phantom k v w = absurd w

pub remove-CanWrite :
    (view : View) (k : Bytes)
    → CanWrite view
    → Changed view (remove view k) (λ j. if k == j then none else get_bytes view j)
unfolding get_bytes modify
remove-CanWrite (real inner) k (c, e) = (
  real (record inner {
    changes = changes_mut (record c { entries = SortedMap.insert c.entries k delete });
  }),
  rw e refl,
  (record c { entries = SortedMap.insert c.entries k delete }, refl),
  λ j. rw e (get-changed c k delete j (inner.snapshot.get inner.address j)),
)
remove-CanWrite phantom k w = absurd w

pub clear-CanWrite : (view : View) → CanWrite view → Changed view (clear view) (λ j. none)
unfolding get_bytes modify Changes.clear Changes.get SortedMap.get
clear-CanWrite (real inner) (c, e) = (
  real (record inner { changes = changes_mut (Changes.clear c) }),
  rw e refl,
  (Changes.clear c, refl),
  λ j. refl,
)
clear-CanWrite phantom w = absurd w
