-- ===== src/Merkledb/Keys/Signed.antt =====
-- components/merkledb/src/keys.rs: signed integers as keys.
use exonum.Prelude.{ℕ, suc, ◌+◌, ◌-◌, ◌^◌, ◌<◌, ◌≤◌, ◌≡◌, ap, ◌∙◌, arith}
use Prim.Native.Nat.{compare}
use native.Mathlib.Nat.{mod-eq_of_lt, mod-eq-sub-mod}
use exonum.Prelude.Order.{bytes_cmp}
use exonum.Merkledb.Keys.{
  BigEndian, ℤ, pos, negsuc, InRange, int_cmp, to_word, from_word, flip_sign, write, read,
}

-- the sign bit flipped
flip_low : (h n : ℕ) → n < h → flip_sign h n ≡ n + h
flip_low h n k = mod-eq_of_lt (omega (arith, k))

flip_high : (h n : ℕ) → h ≤ n → n < h + h → flip_sign h n ≡ n - h
flip_high h n k l =
    mod-eq-sub-mod (omega (arith, k)) ∙ mod-eq_of_lt (omega (arith, k, l)) ∙ omega (arith, k, l)

-- an integer above the least one of its type
offset : ℕ → ℤ → ℕ
offset h (pos n) = n + h
offset h (negsuc n) = h - 1 - n

flip_to_word : (h : ℕ) (i : ℤ) → InRange h i → flip_sign h (to_word h i) ≡ offset h i
unfolding offset
flip_to_word h (pos n) k = flip_low h n k
flip_to_word h (negsuc n) k =
    flip_high h (h + h - 1 - n) (omega (arith, k)) (omega (arith, k)) ∙ omega (arith, k)

from_word-offset : (h : ℕ) (i : ℤ) → InRange h i → from_word h (flip_sign h (offset h i)) ≡ i
unfolding offset
from_word-offset h (pos n) k =
    rw (flip_high h (n + h) (omega arith) (omega (arith, k))) (ground (arith, k))
from_word-offset h (negsuc n) k = rw (flip_low h (h - 1 - n) (omega (arith, k))) (ground (arith, k))

offset_bounded : (h : ℕ) (i : ℤ) → InRange h i → offset h i < h + h
unfolding offset
offset_bounded h (pos n) k = omega (arith, k)
offset_bounded h (negsuc n) k = omega (arith, k)

compare-offset :
    (h : ℕ) (i j : ℤ) → InRange h i → InRange h j → compare (offset h i) (offset h j) ≡ int_cmp i j
unfolding offset
compare-offset h (pos a) (pos b) k l = ground (arith, k, l)
compare-offset h (pos a) (negsuc b) k l = ground (arith, k, l)
compare-offset h (negsuc a) (pos b) k l = ground (arith, k, l)
compare-offset h (negsuc a) (negsuc b) k l = ground (arith, k, l)

doubled : (w : ℕ) → 2 ^ suc w ≡ 2 ^ w + 2 ^ w
doubled w = omega arith

bounded : (w : ℕ) (i : ℤ) → InRange (2 ^ w) i → offset (2 ^ w) i < 2 ^ suc w
bounded w i k = omega (arith, offset_bounded (2 ^ w) i k, doubled w)

-- Signed integers make good keys: reading what was written gives the integer back, and the order of
-- the bytes is the order of the integers, negative ones first, for integers in the range of the type.
pub signed_keys :
    (width : ℕ) (be : BigEndian (suc width)) (i j : ℤ)
    → InRange (2 ^ width) i
    → InRange (2 ^ width) j
    → (read width be (write width be i) ≡ i)
      × (bytes_cmp (write width be i) (write width be j) ≡ int_cmp i j)
unfolding read write
signed_keys width be i j k l =
    let h = 2 ^ width in
    (
      ap (λ n. from_word h (flip_sign h (be.read (be.write n)))) (flip_to_word h i k)
          ∙ ap (λ n. from_word h (flip_sign h n)) (be.read-write (offset h i) (bounded width i k))
          ∙ from_word-offset h i k,
      ap (λ n. bytes_cmp (be.write n) (write width be j)) (flip_to_word h i k)
          ∙ ap (λ n. bytes_cmp (be.write (offset h i)) (be.write n)) (flip_to_word h j l)
          ∙ be.cmp-write (offset h i) (offset h j) (bounded width i k) (bounded width j l)
          ∙ compare-offset h i j k l,
    )
