-- ===== src/Prelude/SortedMap/Ranges.antt =====
-- Ranges of a `BTreeMap`, as `range` and `split_off` give them, and `extend`.
use Prim.Native.Nat.{Ordering}
use mathlib.Core.Path.{◌≡◌, refl, ◌∙◌}
use mathlib.Core.List.{[], ◌∷◌}
use mathlib.Core.Option.{none, some}
use native.Mathlib.Omega.{arith}
use mathlib.Core.Logic.{inl, inr}
use exonum.Prelude.Order.{Order, is_lt, flip_gt, Ordering-cases}
use exonum.Prelude.Tests.{if◌then◌else◌}
use exonum.Prelude.SortedMap.{
  SortedMap, get, insert, range_from, range_to, extend, Above, Sorted, get-insert, Above-trans,
  insert-Sorted, get-Above,
}

module _ {ℓ κ} {K : Type ℓ} {V : Type κ} ⦃o : Order K⦄ where
  Above-range_from : (m : SortedMap K V) (i from : K) → Above i m → Above i (range_from m from)
  unfolding range_from
  Above-range_from [] i from a = tt
  Above-range_from ((j, w) ∷ m) i from a = ground (arith, Above-range_from m i from a.1)

  pub range_from-Sorted : (m : SortedMap K V) (from : K) → Sorted m → Sorted (range_from m from)
  unfolding range_from
  range_from-Sorted [] from s = tt
  range_from-Sorted ((j, w) ∷ m) from s = ground (arith, range_from-Sorted m from s.1)

  -- a key below all keys has no value
  get-below :
      (m : SortedMap K V) (j : K) (w : V) (k : K)
      → o.cmp k j ≡ Ordering.lt
      → Above j m
      → get ((j, w) ∷ m) k ≡ none
  unfolding get
  get-below m j w k h a =
      ground (
        arith,
        o.cmp_flip j k,
        o.cmp_flip k j,
        get-Above m k k (Above-trans m k j h a),
        o.cmp_refl k,
      )

  -- a range that starts at or below the first key drops nothing
  kept_range :
      (m : SortedMap K V) (j : K) (w : V) (from k : K)
      → Above j m
      → (o.cmp k from ≡ Ordering.lt → o.cmp k j ≡ Ordering.lt)
      → get ((j, w) ∷ m) k ≡ (if is_lt (o.cmp k from) then none else get ((j, w) ∷ m) k)
  kept_range m j w from k a h = elim (Ordering-cases (o.cmp k from)) [
    | inl e ↦ rw e (get-below m j w k (h e) a)
    | inr (inl e) ↦ rw e refl
    | inr (inr e) ↦ rw e refl
  ]

  -- a range that starts above the first key drops it
  dropped :
      (m : SortedMap K V) (j : K) (w : V) (from k : K)
      → o.cmp j from ≡ Ordering.lt
      → (if is_lt (o.cmp k from) then none else get m k)
        ≡ (if is_lt (o.cmp k from) then none else get ((j, w) ∷ m) k)
  unfolding get
  dropped m j w from k e = ground (arith, o.eq_of_cmp j k)

  pub get-range_from :
      (m : SortedMap K V) (from k : K)
      → Sorted m
      → get (range_from m from) k ≡ (if is_lt (o.cmp k from) then none else get m k)
  unfolding range_from
  get-range_from [] from k s = unfold get in (ground arith)
  get-range_from ((j, w) ∷ m) from k s = elim (Ordering-cases (o.cmp j from)) [
    | inl e ↦ rw (e, range_from) (get-range_from m from k s.1 ∙ dropped m j w from k e)
    | inr (inl e) ↦
        rw (e, range_from) (kept_range m j w from k s.0 (λ h. rw (o.eq_of_cmp j from e) h))
    | inr (inr e) ↦
        rw (e, range_from)
          (kept_range m j w from k s.0 (λ h. o.lt_trans k from j h (flip_gt j from e)))
  ]

  pub get-range_to :
      (m : SortedMap K V) (to k : K)
      → get (range_to m to) k ≡ (if is_lt (o.cmp k to) then get m k else none)
  unfolding get range_to
  get-range_to [] to k = ground arith
  get-range_to ((j, w) ∷ m) to k = ground (arith, get-range_to m to k, o.eq_of_cmp j k)

  Above-range_to : (m : SortedMap K V) (i to : K) → Above i m → Above i (range_to m to)
  unfolding range_to
  Above-range_to [] i to a = tt
  Above-range_to ((j, w) ∷ m) i to a = ground (arith, Above-range_to m i to a.1)

  pub range_to-Sorted : (m : SortedMap K V) (to : K) → Sorted m → Sorted (range_to m to)
  unfolding range_to
  range_to-Sorted [] to s = tt
  range_to-Sorted ((j, w) ∷ m) to s =
      ground (arith, range_to-Sorted m to s.1, Above-range_to m j to s.0)

  pub get-extend :
      (m n : SortedMap K V) (k : K)
      → Sorted n
      → get (extend m n) k ≡ (elim (get n k) [ none ↦ get m k | some v ↦ some v ])
  unfolding extend get
  get-extend m [] k s = refl
  get-extend m ((j, v) ∷ n) k s =
      ground (arith, get-extend (insert m j v) n k s.1, get-insert m j v k, get-Above n j k s.0)

  pub extend-Sorted : (m n : SortedMap K V) → Sorted m → Sorted (extend m n)
  unfolding extend
  extend-Sorted m [] s = s
  extend-Sorted m ((k, v) ∷ n) s = extend-Sorted (insert m k v) n (insert-Sorted m k v s)
