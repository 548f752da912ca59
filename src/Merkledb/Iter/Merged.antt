-- ===== src/Merkledb/Iter/Merged.antt =====
-- components/merkledb/src/db.rs: the next entry of a `ForkIter` is the first one that the snapshot has
-- after the changes.
use exonum.Prelude.{
  ℕ, zero, suc, ◌+◌, ◌<◌, ◌≡◌, refl, ap, ◌∙◌, Option, none, some, [], ◌∷◌, length, arith, inl, inr,
}
use exonum.Prelude.Order.{bytes_cmp, bytes_order, flip_gt, Ordering-cases}
use exonum.Prelude.SortedMap.{
  SortedMap, Above, Sorted, insert_lt, insert_eq, insert_gt, remove_gt, remove_below, remove_eq,
  Above-trans,
}
use exonum.Prelude.SortedMap
use exonum.Merkledb.Changes.{Bytes, Change, put, delete, apply_changes}
use exonum.Merkledb.Iter.{ForkIter, next, changes_of}

-- changes to greater keys leave the first entry
pub apply_changes-Above :
    (changes : SortedMap Bytes Change) (k v : Bytes) (m : SortedMap Bytes Bytes)
    → Above k changes
    → apply_changes changes ((k, v) ∷ m) ≡ (k, v) ∷ apply_changes changes m
unfolding apply_changes
apply_changes-Above [] k v m a = refl
apply_changes-Above ((j, put w) ∷ changes) k v m a =
    rw (insert_gt m k v j w a.0) (apply_changes-Above changes k v (SortedMap.insert m j w) a.1)
apply_changes-Above ((j, delete) ∷ changes) k v m a =
    rw (remove_gt m k v j a.0) (apply_changes-Above changes k v (SortedMap.remove m j) a.1)

-- the entries that are left
abbrev pub content : ForkIter → SortedMap Bytes Bytes
content it = apply_changes (changes_of it) it.snapshot

-- an iterator in the order of the keys
pub record IsOrdered (it : ForkIter) : Type 0 where
  pub snapshot : Sorted it.snapshot
  pub changes : Sorted (changes_of it)

abbrev Shows : ForkIter → Option (Bytes × Bytes) → ForkIter → Type 0
Shows it none it' = content it ≡ []
Shows it (some e) it' = content it ≡ e ∷ content it'

-- a result of `next`: the first of the entries that are left, and an iterator with the others
pub record Advanced (it : ForkIter) (entry : Option (Bytes × Bytes)) (it' : ForkIter) : Type 0 where
  pub shows : Shows it entry it'
  pub ordered : IsOrdered it'
  pub fewer : length (changes_of it') < length (changes_of it) + 1

abbrev over : SortedMap Bytes Bytes → SortedMap Bytes Change → ForkIter
over s changes = record { snapshot = s; changes = some changes }

Advanced-skip :
    (s t : SortedMap Bytes Bytes) (e : Bytes × Change) (changes : SortedMap Bytes Change)
    (entry : Option (Bytes × Bytes)) (it' : ForkIter)
    → content (over s (e ∷ changes)) ≡ content (over t changes)
    → Advanced (over t changes) entry it'
    → Advanced (over s (e ∷ changes)) entry it'
Advanced-skip s t e changes none it' same a = record {
  shows = same ∙ a.shows;
  ordered = a.ordered;
  fewer = omega (arith, a.fewer);
}
Advanced-skip s t e changes (some x) it' same a = record {
  shows = same ∙ a.shows;
  ordered = a.ordered;
  fewer = omega (arith, a.fewer);
}

-- the first entry comes from the snapshot
stored_of :
    (s : SortedMap Bytes Bytes) (changes : SortedMap Bytes Change) (j w : Bytes)
    → Sorted ((j, w) ∷ s)
    → Sorted changes
    → Above j changes
    → Advanced (over ((j, w) ∷ s) changes) (some (j, w)) (over s changes)
stored_of s changes j w ss sc a = record {
  shows = apply_changes-Above changes j w s a;
  ordered = record { snapshot = ss.1; changes = sc };
  fewer = omega arith;
}

-- the first entry comes from the changes
put_of :
    (s t : SortedMap Bytes Bytes) (changes : SortedMap Bytes Change) (k v : Bytes)
    → Sorted t
    → Sorted ((k, put v) ∷ changes)
    → SortedMap.insert s k v ≡ (k, v) ∷ t
    → Advanced (over s ((k, put v) ∷ changes)) (some (k, v)) (over t changes)
unfolding apply_changes
put_of s t changes k v st sc e = record {
  shows = ap (apply_changes changes) e ∙ apply_changes-Above changes k v t sc.0;
  ordered = record { snapshot = st; changes = sc.1 };
  fewer = omega arith;
}

abbrev NextOf : ℕ → ForkIter → Type 0
NextOf fuel it =
    (entry : Option (Bytes × Bytes)) × (it' : ForkIter) × (next fuel it ≡ some (entry, it'))
    × Advanced it entry it'

-- the changes start with a deletion, which is passed over
skip_of :
    (fuel : ℕ) (s t : SortedMap Bytes Bytes) (k : Bytes) (changes : SortedMap Bytes Change)
    → next (suc fuel) (over s ((k, delete) ∷ changes)) ≡ next fuel (over t changes)
    → SortedMap.remove s k ≡ t
    → NextOf fuel (over t changes)
    → NextOf (suc fuel) (over s ((k, delete) ∷ changes))
unfolding apply_changes
skip_of fuel s t k changes same e (entry, it', n, a) = (
  entry,
  it',
  same ∙ n,
  Advanced-skip s t (k, delete) changes entry it' (ap (apply_changes changes) e) a,
)

next_put :
    (fuel : ℕ) (s : SortedMap Bytes Bytes) (k v : Bytes) (changes : SortedMap Bytes Change)
    → Sorted s
    → Sorted ((k, put v) ∷ changes)
    → NextOf (suc fuel) (over s ((k, put v) ∷ changes))
unfolding next
next_put fuel [] k v changes ss sc = (
  some (k, v),
  over [] changes,
  refl,
  put_of [] [] changes k v tt sc (unfold SortedMap.insert in refl),
)
next_put fuel ((j, w) ∷ s) k v changes ss sc = elim (Ordering-cases (bytes_cmp k j)) [
  | inl e ↦ (
    some (k, v),
    over ((j, w) ∷ s) changes,
    rw (e, next) refl,
    put_of ((j, w) ∷ s) ((j, w) ∷ s) changes k v ss sc (insert_lt s j w k v e),
  )
  | inr (inl e) ↦ (
    some (k, v),
    over s changes,
    rw (e, next) refl,
    put_of ((j, w) ∷ s) s changes k v ss.1 sc (insert_eq s j w k v e),
  )
  | inr (inr e) ↦ (
    some (j, w),
    over s ((k, put v) ∷ changes),
    rw (e, next) refl,
    stored_of s ((k, put v) ∷ changes) j w ss sc
        (flip_gt k j e, Above-trans changes j k (flip_gt k j e) sc.0),
  )
]

next_delete :
    (fuel : ℕ) (s : SortedMap Bytes Bytes) (k : Bytes) (changes : SortedMap Bytes Change)
    → Sorted s
    → Sorted ((k, delete) ∷ changes)
    → ((t : SortedMap Bytes Bytes) → Sorted t → NextOf fuel (over t changes))
    → NextOf (suc fuel) (over s ((k, delete) ∷ changes))
unfolding next
next_delete fuel [] k changes ss sc rest =
    skip_of fuel [] [] k changes refl (unfold SortedMap.remove in refl) (rest [] tt)
next_delete fuel ((j, w) ∷ s) k changes ss sc rest = elim (Ordering-cases (bytes_cmp k j)) [
  | inl e ↦
      skip_of fuel ((j, w) ∷ s) ((j, w) ∷ s) k changes (rw (e, next) refl)
        (remove_below ((j, w) ∷ s) k (e, Above-trans s k j e ss.0)) (rest ((j, w) ∷ s) ss)
  | inr (inl e) ↦
      skip_of fuel ((j, w) ∷ s) s k changes (rw (e, next) refl) (remove_eq s j w k e ss.0)
        (rest s ss.1)
  | inr (inr e) ↦ (
    some (j, w),
    over s ((k, delete) ∷ changes),
    rw (e, next) refl,
    stored_of s ((k, delete) ∷ changes) j w ss sc
        (flip_gt k j e, Above-trans changes j k (flip_gt k j e) sc.0),
  )
]

next_over :
    (fuel : ℕ) (s : SortedMap Bytes Bytes) (changes : SortedMap Bytes Change)
    → length changes < fuel
    → Sorted s
    → Sorted changes
    → NextOf fuel (over s changes)
next_over zero s changes enough ss sc = absurd (omega (arith, enough))
next_over (suc fuel) [] [] enough ss sc = (
  none,
  over [] [],
  unfold next in refl,
  record {
    shows = unfold apply_changes in refl;
    ordered = record { snapshot = tt; changes = tt };
    fewer = omega arith;
  },
)
next_over (suc fuel) ((j, w) ∷ s) [] enough ss sc =
    (some (j, w), over s [], unfold next in refl, stored_of s [] j w ss tt tt)
next_over (suc fuel) s ((k, put v) ∷ changes) enough ss sc = next_put fuel s k v changes ss sc
next_over (suc fuel) s ((k, delete) ∷ changes) enough ss sc =
    next_delete fuel s k changes ss sc
      (λ t st. next_over fuel t changes (omega (arith, enough)) st sc.1)

next_any :
    (fuel : ℕ) (s : SortedMap Bytes Bytes) (changes : Option (SortedMap Bytes Change))
    → length (changes_of (record { snapshot = s; changes = changes })) < fuel
    → IsOrdered (record { snapshot = s; changes = changes })
    → NextOf fuel (record { snapshot = s; changes = changes })
next_any zero s changes enough o = absurd (omega (arith, enough))
next_any (suc fuel) s (some changes) enough o =
    next_over (suc fuel) s changes enough o.snapshot o.changes
next_any (suc fuel) [] none enough o = (
  none,
  record { snapshot = []; changes = none },
  unfold next in refl,
  record { shows = unfold apply_changes in refl; ordered = o; fewer = omega arith },
)
next_any (suc fuel) (x ∷ s) none enough o = (
  some x,
  record { snapshot = s; changes = none },
  unfold next in refl,
  record {
    shows = unfold apply_changes in refl;
    ordered = record { snapshot = o.snapshot.1; changes = tt };
    fewer = omega arith;
  },
)

-- enough fuel, and an iterator in order: `next` finds the first of the entries that are left
pub next_first :
    (fuel : ℕ) (it : ForkIter) → length (changes_of it) < fuel → IsOrdered it → NextOf fuel it
next_first fuel it enough o = next_any fuel it.snapshot it.changes enough o
