-- ===== src/Merkledb/Keys.antt =====
-- components/merkledb/src/keys.rs: `BinaryKey` of the integers. `BigEndian` of the byteorder crate is
-- a parameter, with the two facts about it that the code relies on.
pub mod Signed
mod Tests
use exonum.Prelude.{ℕ, zero, suc, ◌+◌, ◌-◌, ◌*◌, ◌%◌, ◌^◌, ◌<◌, ◌≤◌, ◌≡◌, if◌then◌else◌, ltb}
use Prim.Native.Nat.{Ordering, compare}
use exonum.Prelude.Order.{bytes_cmp}
use exonum.Merkledb.Changes.{Bytes}

-- `BigEndian`, for integers of a width in bits
pub record BigEndian (width : ℕ) : Type 0 where
  pub write : ℕ → Bytes
  pub read : Bytes → ℕ
  pub read-write : (n : ℕ) → n < 2 ^ width → read (write n) ≡ n
  pub cmp-write :
      (a b : ℕ) → a < 2 ^ width → b < 2 ^ width → bytes_cmp (write a) (write b) ≡ compare a b

-- integers, as machine integers of a sign
pub data ℤ : Type 0 where
  pos : ℕ → ℤ
  negsuc : ℕ → ℤ

-- the values of a signed type of `h + h` words
abbrev pub InRange : ℕ → ℤ → Type 0
InRange h (pos n) = n < h
InRange h (negsuc n) = n < h

-- the order of a signed type
abbrev pub int_cmp : ℤ → ℤ → Ordering
int_cmp (pos a) (pos b) = compare a b
int_cmp (pos a) (negsuc b) = Ordering.gt
int_cmp (negsuc a) (pos b) = Ordering.lt
int_cmp (negsuc a) (negsuc b) = compare b a

-- the word of a signed integer, in two's complement
abbrev pub to_word : ℕ → ℤ → ℕ
to_word h (pos n) = n
to_word h (negsuc n) = h + h - 1 - n

abbrev pub from_word : ℕ → ℕ → ℤ
from_word h n = if ltb n h then pos n else negsuc (h + h - 1 - n)

-- `wrapping_add(Self::min_value())` on words, and `wrapping_sub`, which is the same
abbrev pub flip_sign : ℕ → ℕ → ℕ
flip_sign h n = (n + h) % (h + h)

module _ (width : ℕ) (be : BigEndian (suc width)) where
  -- `BinaryKey::write` of a signed type
  unfoldable pub write : ℤ → Bytes
  write i = be.write (flip_sign (2 ^ width) (to_word (2 ^ width) i))

  -- `BinaryKey::read` of a signed type
  unfoldable pub read : Bytes → ℤ
  read buffer = from_word (2 ^ width) (flip_sign (2 ^ width) (be.read buffer))
