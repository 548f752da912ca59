-- ===== src/Merkledb/ProofListKey/Ordered.antt =====
-- components/merkledb/src/indexes/proof_list/key.rs: keys of a proof list in the database.
use exonum.Prelude.{
  ℕ, ◌+◌, ◌*◌, ◌/◌, ◌%◌, ◌^◌, ◌<◌, ◌≤◌, ◌≡◌, refl, ap, ◌∙◌, Bool, true, false, some, arith,
}
use Prim.Native.Nat.{compare}
use exonum.Prelude.Order.{bytes_cmp}
use exonum.Helpers.Word.{checked}
use exonum.Merkledb.Changes.{Bytes}
use exonum.Merkledb.Keys.{BigEndian}
use exonum.Merkledb.ProofListKey.{
  ProofListKey, new, is_valid, as_db_key, from_db_key, cmp, then_compare, write, read,
}

-- the sum of `as_db_key`
db_key : ProofListKey → ℕ
db_key key = key.height * 2 ^ 56 + key.index

unfoldable pub InBounds : ProofListKey → Type 0
InBounds key = (key.height ≤ 56) × (key.index < 2 ^ 56)

pub valid_bounds : (key : ProofListKey) → is_valid key ≡ true → InBounds key
unfolding InBounds is_valid
valid_bounds key v = ground (arith, v)

new-valid :
    (debug : Bool) (key : ProofListKey)
    → is_valid key ≡ true
    → new debug key.height key.index ≡ some key
unfolding new is_valid
new-valid true key v = rw v refl
new-valid false key v = refl

as_db_key_lem :
    (debug : Bool) (key : ProofListKey) → InBounds key → as_db_key debug key ≡ some (db_key key)
unfolding as_db_key db_key InBounds checked
as_db_key_lem debug key k = ground (arith, k.0, k.1)

height_back : (key : ProofListKey) → InBounds key → db_key key / 2 ^ 56 % 2 ^ 8 ≡ key.height
unfolding db_key InBounds
height_back key k = omega (arith, k.0, k.1)

index_back : (key : ProofListKey) → InBounds key → db_key key % 2 ^ 56 ≡ key.index
unfolding db_key InBounds
index_back key k = omega (arith, k.0, k.1)

db_key-bounded : (key : ProofListKey) → InBounds key → db_key key < 2 ^ 64
unfolding db_key InBounds
db_key-bounded key k = omega (arith, k.0, k.1)

from_db_key_lem :
    (debug : Bool) (key : ProofListKey)
    → is_valid key ≡ true
    → from_db_key debug (db_key key) ≡ some key
unfolding from_db_key db_key InBounds
from_db_key_lem debug key v =
    let k = valid_bounds key v in
    ap (λ h. new debug h (db_key key % 2 ^ 56)) (height_back key k)
    ∙ ap (new debug key.height) (index_back key k)
    ∙ new-valid debug key v

compare-db_key :
    (a b : ProofListKey) → InBounds a → InBounds b → compare (db_key a) (db_key b) ≡ cmp a b
unfolding db_key InBounds cmp then_compare
compare-db_key a b k l = ground (arith, k.0, k.1, l.0, l.1)

-- The keys of a proof list are good keys: for two valid keys, writing does not overflow, reading what
-- was written gives the key back, and the order of the bytes is the order of the keys, by the height
-- and then by the index, so that the hashes of one height stand together in the database.
pub proof_list_keys :
    (be : BigEndian 64) (debug : Bool) (a b : ProofListKey)
    → is_valid a ≡ true
    → is_valid b ≡ true
    → (x : Bytes) × (y : Bytes) × (write be debug a ≡ some x)
      × (write be debug b ≡ some y)
      × (read be debug x ≡ some a)
      × (bytes_cmp x y ≡ cmp a b)
unfolding write read
proof_list_keys be debug a b v u =
    let k = valid_bounds a v in
    let l = valid_bounds b u in
    (
      be.write (db_key a),
      be.write (db_key b),
      rw (as_db_key_lem debug a k) refl,
      rw (as_db_key_lem debug b l) refl,
      ap (from_db_key debug) (be.read-write (db_key a) (db_key-bounded a k))
          ∙ from_db_key_lem debug a v,
      be.cmp-write (db_key a) (db_key b) (db_key-bounded a k) (db_key-bounded b l)
          ∙ compare-db_key a b k l,
    )
