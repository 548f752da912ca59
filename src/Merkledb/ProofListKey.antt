-- ===== src/Merkledb/ProofListKey.antt =====
-- components/merkledb/src/indexes/proof_list/key.rs: `ProofListKey`, the place of a hash in the tree of
-- a proof list, and its key in the database.
pub mod Ordered
pub mod Siblings
use exonum.Prelude.{
  ℕ, suc, ◌+◌, ◌-◌, ◌*◌, ◌/◌, ◌%◌, ◌^◌, ◌<◌, ◌≤◌, ◌≡◌, Bool, true, false, ◌&&◌, Option, none, some,
  if◌then◌else◌, ltb, leb,
}
use exonum.Prelude.Eq.{◌==◌, nat_eq}
use Prim.Native.Nat.{Ordering, compare}
use exonum.Prelude.Panic.{◌>>=◌, ◌>>◌, debug_assert}
use exonum.Helpers.Word.{checked}
use exonum.Merkledb.Changes.{Bytes}
use exonum.Merkledb.Keys.{BigEndian}

-- `HEIGHT_SHIFT`
abbrev pub height_shift : ℕ
height_shift = 56

-- `MAX_INDEX`
abbrev pub max_index : ℕ
max_index = 72057594037927935

-- `struct ProofListKey`
pub record ProofListKey : Type 0 where
  pub index : ℕ
  pub height : ℕ

-- `ProofListKey::new`
unfoldable pub new : Bool → ℕ → ℕ → Option ProofListKey
new debug height index = do
  debug_assert debug (leb height height_shift && leb index max_index)
  some (record { index = index; height = height })

-- `ProofListKey::is_valid`
unfoldable pub is_valid : ProofListKey → Bool
is_valid key = leb key.height height_shift && leb key.index max_index

-- `ProofListKey::as_db_key`, a sum of words of 64 bits
unfoldable pub as_db_key : Bool → ProofListKey → Option ℕ
as_db_key debug key = checked debug 64 (key.height * 2 ^ 56 % 2 ^ 64 + key.index)

-- `ProofListKey::from_db_key`
unfoldable pub from_db_key : Bool → ℕ → Option ProofListKey
from_db_key debug key = new debug (key / 2 ^ 56 % 2 ^ 8) (key % 2 ^ 56)

-- `ProofListKey::parent`
unfoldable pub parent : Bool → ProofListKey → Option ProofListKey
parent debug key = do height ← checked debug 8 (key.height + 1); new debug height (key.index / 2)

-- `ProofListKey::is_left`
unfoldable pub is_left : ProofListKey → Bool
is_left key = key.index % 2 == 0

-- `ProofListKey::as_left`
unfoldable pub as_left : Bool → ProofListKey → Option ProofListKey
as_left debug key = new debug key.height (key.index - key.index % 2)

-- `ProofListKey::as_right`
unfoldable pub as_right : Bool → ProofListKey → Option ProofListKey
as_right debug key = new debug key.height (key.index - key.index % 2 + 1)

then_compare : Ordering → Ordering → Ordering
then_compare Ordering.eq rest = rest
then_compare Ordering.lt rest = Ordering.lt
then_compare Ordering.gt rest = Ordering.gt

-- `Ord::cmp` of `ProofListKey`
unfoldable pub cmp : ProofListKey → ProofListKey → Ordering
unfolding then_compare
cmp a b = then_compare (compare a.height b.height) (compare a.index b.index)

module _ (be : BigEndian 64) where
  -- `BinaryKey::write`
  unfoldable pub write : Bool → ProofListKey → Option Bytes
  write debug key = do n ← as_db_key debug key; some (be.write n)

  -- `BinaryKey::read`
  unfoldable pub read : Bool → Bytes → Option ProofListKey
  read debug buffer = from_db_key debug (be.read buffer)
