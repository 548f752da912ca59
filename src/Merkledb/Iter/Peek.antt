-- ===== src/Merkledb/Iter/Peek.antt =====
-- components/merkledb/src/db.rs: `ForkIter::peek` against `ForkIter::next`.
use exonum.Prelude.{
  ℕ, zero, suc, ◌<◌, ◌≡◌, refl, sym, ap, ◌∙◌, subst, Option, none, some, List, [], ◌∷◌, length,
  arith, inl, inr,
}
use exonum.Prelude.Order.{bytes_cmp, Ordering-cases}
use exonum.Merkledb.Changes.{Bytes, Change, put, delete}
use exonum.Merkledb.Iter.{
  ForkIter, NextIterValue, Next, next, peek, next_stored, next_change, peek_stored, peek_change,
  step, skip_stored, skip_change, changes_of,
}

-- the results of a peek and of a `next` agree: neither returns, or both show the same entry, and
-- `next` after the peek gives the result of `next` without it
abbrev Agree : Next → Next → Type 0
Agree none none = Unit
Agree none (some after) = ⊥
Agree (some peeked) none = ⊥
Agree (some (entry, it')) (some (other, it'')) =
    (entry ≡ other) × ((n : ℕ) → next (suc n) it' ≡ some (entry, it''))

peek_stored-Agree :
    (it : ForkIter) (changes : Option (List (Bytes × Change))) (s : List (Bytes × Bytes))
    → ((n : ℕ) → next (suc n) it ≡ next_stored changes s)
    → Agree (peek_stored it s) (next_stored changes s)
unfolding peek_stored next_stored
peek_stored-Agree it changes [] same = (refl, same)
peek_stored-Agree it changes (e ∷ s) same = (refl, same)

peek_change-Agree :
    (it : ForkIter) (changes : Option (List (Bytes × Change))) (s : List (Bytes × Bytes))
    → ((n : ℕ) → next (suc n) it ≡ next_change changes s)
    → Agree (peek_change it changes) (next_change changes s)
unfolding peek_change next_change
peek_change-Agree it none s same = tt
peek_change-Agree it (some []) s same = (refl, same)
peek_change-Agree it (some ((k, put v) ∷ changes)) s same = (refl, same)
peek_change-Agree it (some ((k, delete) ∷ changes)) s same = tt

-- one step of the loop
peek_at :
    (fuel : ℕ) (v : NextIterValue) (it : ForkIter)
    → step it ≡ v
    → ((s : List (Bytes × Bytes)) (changes : Option (List (Bytes × Change)))
        → Agree
            (peek fuel (record { snapshot = s; changes = changes }))
            (next fuel (record { snapshot = s; changes = changes })))
    → Agree (peek (suc fuel) it) (next (suc fuel) it)
unfolding next peek
peek_at fuel NextIterValue.stored it e rest =
    rw (e, peek, next) (peek_stored-Agree it it.changes it.snapshot (λ n. rw (e, next) refl))
peek_at fuel NextIterValue.replaced it e rest =
    rw (e, peek, next)
      (peek_change-Agree it it.changes (skip_stored it.snapshot) (λ n. rw (e, next) refl))
peek_at fuel NextIterValue.inserted it e rest =
    rw (e, peek, next) (peek_change-Agree it it.changes it.snapshot (λ n. rw (e, next) refl))
peek_at fuel NextIterValue.deleted it e rest =
    rw (e, peek, next) (rest (skip_stored it.snapshot) (skip_change it.changes))
peek_at fuel NextIterValue.miss_deleted it e rest =
    rw (e, peek, next) (rest it.snapshot (skip_change it.changes))
peek_at fuel NextIterValue.finished it e rest = rw (e, peek, next) (refl, λ n. rw (e, next) refl)

peek-Agree : (fuel : ℕ) (it : ForkIter) → Agree (peek fuel it) (next fuel it)
unfolding next peek
peek-Agree zero it = tt
peek-Agree (suc fuel) it =
    peek_at fuel (step it) it refl (λ s c. peek-Agree fuel (record { snapshot = s; changes = c }))

abbrev Returns : ℕ → ForkIter → Type 0
Returns fuel it =
    (entry : Option (Bytes × Bytes)) × (it' : ForkIter) × (next fuel it ≡ some (entry, it'))

-- the changes start with a deletion, which is passed over, or waits behind the snapshot's entry
next_over_delete :
    (fuel : ℕ) (s : List (Bytes × Bytes)) (k : Bytes) (changes : List (Bytes × Change))
    → ((t : List (Bytes × Bytes)) → Returns fuel (record { snapshot = t; changes = some changes }))
    → Returns (suc fuel) (record { snapshot = s; changes = some ((k, delete) ∷ changes) })
unfolding next
next_over_delete fuel [] k changes rest = rest []
next_over_delete fuel ((j, w) ∷ s) k changes rest = elim (Ordering-cases (bytes_cmp k j)) [
  | inl e ↦ rw (e, next) (rest ((j, w) ∷ s))
  | inr (inl e) ↦ rw (e, next) (rest s)
  | inr (inr e) ↦ (
    some (j, w),
    record { snapshot = s; changes = some ((k, delete) ∷ changes) },
    rw (e, next) refl,
  )
]

next_over_put :
    (fuel : ℕ) (s : List (Bytes × Bytes)) (k v : Bytes) (changes : List (Bytes × Change))
    → Returns (suc fuel) (record { snapshot = s; changes = some ((k, put v) ∷ changes) })
unfolding next
next_over_put fuel [] k v changes = (_, _, refl)
next_over_put fuel ((j, w) ∷ s) k v changes = elim (Ordering-cases (bytes_cmp k j)) [
  | inl e ↦
      (some (k, v), record { snapshot = (j, w) ∷ s; changes = some (changes) }, rw (e, next) refl)
  | inr (inl e) ↦
      (some (k, v), record { snapshot = s; changes = some (changes) }, rw (e, next) refl)
  | inr (inr e) ↦ (
    some (j, w),
    record { snapshot = s; changes = some ((k, put v) ∷ changes) },
    rw (e, next) refl,
  )
]

next-Returns :
    (fuel : ℕ) (s : List (Bytes × Bytes)) (changes : Option (List (Bytes × Change)))
    → length (changes_of (record { snapshot = s; changes = changes })) < fuel
    → Returns fuel (record { snapshot = s; changes = changes })
unfolding next
next-Returns zero s changes enough = absurd (omega (arith, enough))
next-Returns (suc fuel) [] none enough = (_, _, refl)
next-Returns (suc fuel) (e ∷ s) none enough = (_, _, refl)
next-Returns (suc fuel) [] (some []) enough = (_, _, refl)
next-Returns (suc fuel) (e ∷ s) (some []) enough = (_, _, refl)
next-Returns (suc fuel) s (some ((k, put v) ∷ changes)) enough = next_over_put fuel s k v changes
next-Returns (suc fuel) s (some ((k, delete) ∷ changes)) enough =
    next_over_delete fuel s k changes
      (λ t. next-Returns fuel t (some changes) (omega (arith, enough)))

-- What a peek and a `next` do with the same iterator: both return, and show the same entry, if any;
-- `next` after the peek shows that entry and leaves the iterator that it leaves without the peek.
pub record Peeked (fuel : ℕ) (it : ForkIter) : Type 0 where
  pub entry : Option (Bytes × Bytes)
  pub peeked : ForkIter
  pub taken : ForkIter
  pub peek_shows : peek fuel it ≡ some (entry, peeked)
  pub next_shows : next fuel it ≡ some (entry, taken)
  pub next_after : (n : ℕ) → next (suc n) peeked ≡ some (entry, taken)

Agree-Peeked :
    (r : Next) (fuel : ℕ) (it : ForkIter) (entry : Option (Bytes × Bytes)) (taken : ForkIter)
    → peek fuel it ≡ r
    → next fuel it ≡ some (entry, taken)
    → Agree r (some (entry, taken))
    → Peeked fuel it
Agree-Peeked none fuel it entry taken p e a = absurd a
Agree-Peeked (some (shown, peeked)) fuel it entry taken p e (same, after) = record {
  entry = shown;
  peeked = peeked;
  taken = taken;
  peek_shows = p;
  next_shows = e ∙ ap (λ x. some (x, taken)) (sym same);
  next_after = after;
}

-- With fuel above the number of the changes, `peek` and `next` return, and `peek` shows what `next`
-- would return and does not take it: they show the same entry, or none, and `next` on the iterator
-- after the peek, which has dropped the deletions before the entry, gives that entry and the same
-- iterator as `next` without the peek, with any fuel but zero.
pub next-peek : (fuel : ℕ) (it : ForkIter) → length (changes_of it) < fuel → Peeked fuel it
next-peek fuel it enough =
    let (entry, taken, e) = next-Returns fuel it.snapshot it.changes enough in
    Agree-Peeked (peek fuel it) fuel it entry taken refl e
      (subst (Agree (peek fuel it)) e (peek-Agree fuel it))
