-- ===== src/Prelude/SortedMap.antt =====
-- `BTreeMap` over any ordered keys: entries in the order of their keys, which is the order of
-- iteration.
pub mod Ranges
pub mod Keys
use Prim.Native.Nat.{Ordering, ◌≤◌, ◌+◌}
use mathlib.Core.Path.{◌≡◌, refl, ◌∙◌}
use mathlib.Core.Bool.{true}
use mathlib.Core.List.{List, [], ◌∷◌}
use mathlib.Core.Option.{Option, none, some}
use native.Mathlib.Omega.{arith}
use mathlib.Core.Logic.{inl, inr}
use exonum.Prelude.Lists.{All, length}
use exonum.Prelude.Order.{Order, is_eq, is_lt, flip_gt, Ordering-cases}
use exonum.Prelude.Tests.{if◌then◌else◌}

abbrev pub SortedMap {ℓ κ} : Type ℓ → Type κ → Type (ℓ ⊔ κ)
SortedMap K V = List (K × V)

module _ {ℓ κ} {K : Type ℓ} {V : Type κ} ⦃o : Order K⦄ where
  unfoldable pub get : SortedMap K V → K → Option V
  get [] k = none
  get ((j, v) ∷ m) k = elim (o.cmp j k) [ Ordering.eq ↦ some v | _ ↦ get m k ]

  unfoldable pub insert : SortedMap K V → K → V → SortedMap K V
  insert [] k v = (k, v) ∷ []
  insert ((j, w) ∷ m) k v =
      let rest = insert m k v in
      elim (o.cmp k j) [
        | Ordering.lt ↦ (k, v) ∷ (j, w) ∷ m
        | Ordering.eq ↦ (k, v) ∷ m
        | Ordering.gt ↦ (j, w) ∷ rest
      ]

  unfoldable pub remove : SortedMap K V → K → SortedMap K V
  remove [] k = []
  remove ((j, v) ∷ m) k =
      let rest = remove m k in elim (o.cmp k j) [ Ordering.eq ↦ rest | _ ↦ (j, v) ∷ rest ]

  -- `range(from..)`
  unfoldable pub range_from : SortedMap K V → K → SortedMap K V
  range_from [] from = []
  range_from ((j, v) ∷ m) from =
      let rest = range_from m from in elim (o.cmp j from) [ Ordering.lt ↦ rest | _ ↦ (j, v) ∷ m ]

  -- what `split_off(to)` leaves
  unfoldable pub range_to : SortedMap K V → K → SortedMap K V
  range_to [] to = []
  range_to ((j, v) ∷ m) to =
      let rest = range_to m to in elim (o.cmp j to) [ Ordering.lt ↦ (j, v) ∷ rest | _ ↦ rest ]

  -- the keys of `m` are greater than `k`
  abbrev pub Above : K → SortedMap K V → Type 0
  Above k m = All (λ e. o.cmp k e.0 ≡ Ordering.lt) m

  abbrev pub Sorted : SortedMap K V → Type 0
  Sorted [] = Unit
  Sorted ((k, v) ∷ m) = Above k m × Sorted m

  pub get-insert :
      (m : SortedMap K V) (k : K) (v : V) (j : K)
      → get (insert m k v) j ≡ (if is_eq (o.cmp k j) then some v else get m j)
  unfolding get insert
  get-insert [] k v j = ground arith
  get-insert ((i, w) ∷ m) k v j = ground (
    arith,
    get-insert m k v j,
    o.eq_of_cmp k i,
    o.eq_of_cmp k j,
    o.eq_of_cmp i j,
    o.cmp_refl k,
    o.cmp_refl i,
    o.cmp_refl j,
  )

  pub get-remove :
      (m : SortedMap K V) (k j : K)
      → get (remove m k) j ≡ (if is_eq (o.cmp k j) then none else get m j)
  unfolding get remove
  get-remove [] k j = ground arith
  get-remove ((i, w) ∷ m) k j = ground (
    arith,
    get-remove m k j,
    o.eq_of_cmp k i,
    o.eq_of_cmp k j,
    o.eq_of_cmp i j,
    o.cmp_refl k,
    o.cmp_refl i,
    o.cmp_refl j,
  )

  pub Above-trans : (m : SortedMap K V) (k j : K) → o.cmp k j ≡ Ordering.lt → Above j m → Above k m
  Above-trans [] k j h a = tt
  Above-trans ((i, w) ∷ m) k j h a = (o.lt_trans k j i h a.0, Above-trans m k j h a.1)

  pub Above-insert :
      (m : SortedMap K V) (i k : K) (v : V)
      → o.cmp i k ≡ Ordering.lt
      → Above i m
      → Above i (insert m k v)
  unfolding insert
  Above-insert [] i k v h a = (h, tt)
  Above-insert ((j, w) ∷ m) i k v h a = ground (arith, Above-insert m i k v h)

  pub insert_lt :
      (m : SortedMap K V) (j : K) (w : V) (k : K) (v : V)
      → o.cmp k j ≡ Ordering.lt
      → insert ((j, w) ∷ m) k v ≡ (k, v) ∷ (j, w) ∷ m
  unfolding insert
  insert_lt m j w k v e = ground arith

  pub insert_eq :
      (m : SortedMap K V) (j : K) (w : V) (k : K) (v : V)
      → o.cmp k j ≡ Ordering.eq
      → insert ((j, w) ∷ m) k v ≡ (k, v) ∷ m
  unfolding insert
  insert_eq m j w k v e = ground arith

  pub insert_gt :
      (m : SortedMap K V) (j : K) (w : V) (k : K) (v : V)
      → o.cmp j k ≡ Ordering.lt
      → insert ((j, w) ∷ m) k v ≡ (j, w) ∷ insert m k v
  unfolding insert
  insert_gt m j w k v e = ground (arith, o.cmp_flip j k)

  pub remove_gt :
      (m : SortedMap K V) (j : K) (w : V) (k : K)
      → o.cmp j k ≡ Ordering.lt
      → remove ((j, w) ∷ m) k ≡ (j, w) ∷ remove m k
  unfolding remove
  remove_gt m j w k e = ground (arith, o.cmp_flip j k)

  pub insert-Sorted : (m : SortedMap K V) (k : K) (v : V) → Sorted m → Sorted (insert m k v)
  insert-Sorted [] k v s = unfold insert in (tt, tt)
  insert-Sorted ((j, w) ∷ m) k v s = elim (Ordering-cases (o.cmp k j)) [
    | inl e ↦ rw (insert_lt m j w k v e) ((e, Above-trans m k j e s.0), s)
    | inr (inl e) ↦ rw (insert_eq m j w k v e) (rw (o.eq_of_cmp k j e) s)
    | inr (inr e) ↦
        rw (insert_gt m j w k v (flip_gt k j e))
          (Above-insert m j k v (flip_gt k j e) s.0, insert-Sorted m k v s.1)
  ]

  -- removing a key that is below all keys changes nothing
  pub remove_below : (m : SortedMap K V) (k : K) → Above k m → remove m k ≡ m
  unfolding remove
  remove_below [] k a = refl
  remove_below ((j, w) ∷ m) k a = ground (arith, remove_below m k a.1)

  pub remove_eq :
      (m : SortedMap K V) (j : K) (w : V) (k : K)
      → o.cmp k j ≡ Ordering.eq
      → Above j m
      → remove ((j, w) ∷ m) k ≡ m
  unfolding remove
  remove_eq m j w k e a = ground (arith, remove_below m k, o.eq_of_cmp k j e)

  pub Above-remove : (m : SortedMap K V) (i k : K) → Above i m → Above i (remove m k)
  unfolding remove
  Above-remove [] i k a = tt
  Above-remove ((j, w) ∷ m) i k a = ground (arith, Above-remove m i k)

  pub remove-Sorted : (m : SortedMap K V) (k : K) → Sorted m → Sorted (remove m k)
  unfolding remove
  remove-Sorted [] k s = tt
  remove-Sorted ((j, w) ∷ m) k s = ground (arith, remove-Sorted m k, Above-remove m j k)

  -- `extend`: every entry is inserted
  unfoldable pub extend : SortedMap K V → SortedMap K V → SortedMap K V
  extend m [] = m
  extend m ((k, v) ∷ n) = extend (insert m k v) n

  pub get-Above :
      (m : SortedMap K V) (k j : K) → Above k m → is_eq (o.cmp k j) ≡ true → get m j ≡ none
  unfolding get
  get-Above [] k j a e = refl
  get-Above ((i, w) ∷ m) k j a e =
      ground (arith, get-Above m k j a.1 e, o.eq_of_cmp k j, o.cmp_flip k i, o.cmp_flip i k)

  pub length-insert : (m : SortedMap K V) (k : K) (v : V) → length (insert m k v) ≤ length m + 1
  unfolding insert
  length-insert [] k v = omega arith
  length-insert ((j, w) ∷ m) k v = ground (arith, length-insert m k v)

  pub length-remove : (m : SortedMap K V) (k : K) → length (remove m k) ≤ length m
  unfolding remove
  length-remove [] k = omega arith
  length-remove ((j, w) ∷ m) k = ground (arith, length-remove m k)
