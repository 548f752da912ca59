-- ===== src/Prelude/SortedMap/Keys.antt =====
-- What the keys of a `BTreeMap` satisfy.
use mathlib.Core.List.{[], ◌∷◌}
use native.Mathlib.Omega.{arith}
use exonum.Prelude.Lists.{All}
use exonum.Prelude.Order.{Order}
use exonum.Prelude.SortedMap.{SortedMap, insert, remove, range_from, range_to, extend}

module _ {ℓ κ} {K : Type ℓ} {V : Type κ} ⦃o : Order K⦄ where
  -- what the keys satisfy
  abbrev pub Keys {μ} : (K → Type μ) → SortedMap K V → Type μ
  Keys P m = All (λ x. P x.0) m

  pub Keys-insert {μ} :
      (P : K → Type μ) (m : SortedMap K V) (k : K) (v : V) → Keys P m → P k → Keys P (insert m k v)
  unfolding insert
  Keys-insert P [] k v a p = (p, tt)
  Keys-insert P ((j, w) ∷ m) k v a p = ground (arith, Keys-insert P m k v a.1 p)

  pub Keys-remove {μ} :
      (P : K → Type μ) (m : SortedMap K V) (k : K) → Keys P m → Keys P (remove m k)
  unfolding remove
  Keys-remove P [] k a = tt
  Keys-remove P ((j, w) ∷ m) k a = ground (arith, Keys-remove P m k a.1)

  pub Keys-range_from {μ} :
      (P : K → Type μ) (m : SortedMap K V) (from : K) → Keys P m → Keys P (range_from m from)
  unfolding range_from
  Keys-range_from P [] from a = tt
  Keys-range_from P ((j, w) ∷ m) from a = ground (arith, Keys-range_from P m from a.1)

  pub Keys-range_to {μ} :
      (P : K → Type μ) (m : SortedMap K V) (to : K) → Keys P m → Keys P (range_to m to)
  unfolding range_to
  Keys-range_to P [] to a = tt
  Keys-range_to P ((j, w) ∷ m) to a = ground (arith, Keys-range_to P m to a.1)

  pub Keys-extend {μ} :
      (P : K → Type μ) (m n : SortedMap K V) → Keys P m → Keys P n → Keys P (extend m n)
  unfolding extend
  Keys-extend P m [] a b = a
  Keys-extend P m ((k, v) ∷ n) a b = Keys-extend P (insert m k v) n (Keys-insert P m k v a b.0) b.1
