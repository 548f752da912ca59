-- ===== src/Prelude/BTreeMap.antt =====
-- `BTreeMap` over numeric keys: entries in the order of their keys, which is the order of
-- iteration.
use Prim.Native.Nat.{ℕ, compare, Ordering}
use mathlib.Core.Path.{◌≡◌, refl}
use mathlib.Core.Bool.{Bool, true, false}
use mathlib.Core.List.{List, [], ◌∷◌}
use mathlib.Core.Option.{Option, none, some}
use native.Mathlib.Omega.{arith}
use exonum.Prelude.Tests.{nat_beq, if◌then◌else◌}

abbrev pub BTreeMap {κ} : Type κ → Type κ
BTreeMap V = List (ℕ × V)

module _ {κ} {V : Type κ} where
  unfoldable pub get : BTreeMap V → ℕ → Option V
  get [] k = none
  get ((j, v) ∷ m) k = if nat_beq j k then some v else get m k

  unfoldable pub insert : BTreeMap V → ℕ → V → BTreeMap V
  insert [] k v = (k, v) ∷ []
  insert ((j, w) ∷ m) k v =
      let rest = insert m k v in
      elim (compare k j) [
        | Ordering.lt ↦ (k, v) ∷ (j, w) ∷ m
        | Ordering.eq ↦ (k, v) ∷ m
        | Ordering.gt ↦ (j, w) ∷ rest
      ]

  unfoldable pub remove : BTreeMap V → ℕ → BTreeMap V
  remove [] k = []
  remove ((j, v) ∷ m) k = let rest = remove m k in if nat_beq j k then rest else (j, v) ∷ rest

  abbrev pub contains_key : BTreeMap V → ℕ → Bool
  contains_key m k = elim (get m k) [ none ↦ false | some _ ↦ true ]

  pub get-insert :
      (m : BTreeMap V) (k : ℕ) (v : V) (j : ℕ)
      → get (insert m k v) j ≡ (if nat_beq k j then some v else get m j)
  unfolding get insert
  get-insert [] k v j = refl
  get-insert ((i, w) ∷ m) k v j = ground (arith, get-insert m k v j)

  pub get-remove :
      (m : BTreeMap V) (k j : ℕ) → get (remove m k) j ≡ (if nat_beq k j then none else get m j)
  unfolding get remove
  get-remove [] k j = ground arith
  get-remove ((i, w) ∷ m) k j = ground (arith, get-remove m k j)
