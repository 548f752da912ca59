-- ===== src/Merkledb/ProofListKey/Siblings.antt =====
-- components/merkledb/src/indexes/proof_list/key.rs: the tree of a proof list.
use exonum.Prelude.{
  ℕ, ◌+◌, ◌-◌, ◌/◌, ◌%◌, ◌^◌, ◌<◌, ◌≤◌, ◌≡◌, refl, ap, ◌∙◌, Bool, true, false, some, arith,
  if◌then◌else◌,
}
use exonum.Helpers.Word.{checked}
use exonum.Merkledb.ProofListKey.{ProofListKey, new, is_valid, is_left, parent, as_left, as_right}
use exonum.Merkledb.ProofListKey.Ordered.{InBounds, valid_bounds}

abbrev at : ℕ → ℕ → ProofListKey
at height index = record { index = index; height = height }

new-InBounds :
    (debug : Bool) (height index : ℕ)
    → height ≤ 56
    → index < 2 ^ 56
    → new debug height index ≡ some (at height index)
unfolding new
new-InBounds true height index h i = ground (arith, h, i)
new-InBounds false height index h i = refl

parent-at :
    (debug : Bool) (height index : ℕ)
    → height < 56
    → index < 2 ^ 56
    → parent debug (at height index) ≡ some (at (height + 1) (index / 2))
unfolding parent checked
parent-at debug height index h i = ground (arith, h, i, new-InBounds debug (height + 1) (index / 2))

-- A valid key below the top of the tree has a left and a right sibling, the one after the other, one
-- of which it is, and all three have the same parent; none of these steps overflows or panics.
pub siblings_meet :
    (debug : Bool) (key : ProofListKey)
    → is_valid key ≡ true
    → key.height < 56
    → (l : ProofListKey) × (r : ProofListKey) × (p : ProofListKey) × (as_left debug key ≡ some l)
      × (as_right debug key ≡ some r)
      × (parent debug key ≡ some p)
      × (parent debug l ≡ some p)
      × (parent debug r ≡ some p)
      × (is_left l ≡ true)
      × (is_left r ≡ false)
      × (r.index ≡ l.index + 1)
      × (key ≡ (if is_left key then l else r))
unfolding as_left as_right is_left InBounds
siblings_meet debug key v h =
    let k = valid_bounds key v in
    let even = key.index - key.index % 2 in
    (
      at key.height even,
      at key.height (even + 1),
      at (key.height + 1) (key.index / 2),
      new-InBounds debug key.height even k.0 (omega (arith, k.1)),
      new-InBounds debug key.height (even + 1) k.0 (omega (arith, k.1)),
      parent-at debug key.height key.index h k.1,
      parent-at debug key.height even h (omega (arith, k.1))
          ∙ ap (λ i. some (at (key.height + 1) i)) (omega arith),
      parent-at debug key.height (even + 1) h (omega (arith, k.1))
          ∙ ap (λ i. some (at (key.height + 1) i)) (omega arith),
      ground arith,
      ground arith,
      refl,
      ground arith,
    )
