-- ===== src/Merkledb/Iter/Collected.antt =====
-- components/merkledb/src/db.rs: a loop over a `ForkIter` shows the entries that the snapshot has after
-- the changes, in the order of their keys.
use exonum.Prelude.{ℕ, zero, suc, ◌<◌, ◌≡◌, refl, ap, Option, none, some, length, arith}
use exonum.Prelude.Order.{bytes_order}
use exonum.Merkledb.Changes.{Bytes}
use exonum.Merkledb.Iter.{ForkIter, next, collect, changes_of}
use exonum.Merkledb.Iter.Merged.{content, IsOrdered, Advanced, next_first}

collected :
    (n fuel : ℕ) (it : ForkIter) (entry : Option (Bytes × Bytes)) (it' : ForkIter)
    → length (content it) < suc n
    → length (changes_of it) < fuel
    → next fuel it ≡ some (entry, it')
    → Advanced it entry it'
    → (length (content it') < n
        → length (changes_of it') < fuel
        → IsOrdered it'
        → collect n fuel it' ≡ some (content it'))
    → collect (suc n) fuel it ≡ some (content it)
unfolding collect
collected n fuel it none it' long enough e a rest = rw (e, a.shows) refl
collected n fuel it (some x) it' long enough e a rest =
    rw
      (
        e,
        a.shows,
        rest (omega (arith, long, ap length a.shows)) (omega (arith, enough, a.fewer)) a.ordered,
      )
      refl

-- The iterator over a snapshot with changes, both in the order of their keys, shows exactly the
-- entries that the snapshot has after the changes are applied to it, in order, and then ends: for
-- any fuel above the number of changes and any bound on the loop above the number of entries.
pub collect_lem :
    (n fuel : ℕ) (it : ForkIter)
    → length (content it) < n
    → length (changes_of it) < fuel
    → IsOrdered it
    → collect n fuel it ≡ some (content it)
unfolding collect
collect_lem zero fuel it long enough o = absurd (omega (arith, long))
collect_lem (suc n) fuel it long enough o =
    let (entry, it', e, a) = next_first fuel it enough o in
    collected n fuel it entry it' long enough e a (collect_lem n fuel it')
