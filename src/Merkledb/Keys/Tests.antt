-- ===== src/Merkledb/Keys/Tests.antt =====
-- components/merkledb/src/keys.rs: keys, and a list over them, with an instance of `BigEndian`, byte
-- by byte.
use exonum.Prelude.{
  ℕ, zero, suc, ◌+◌, ◌*◌, ◌/◌, ◌%◌, ◌^◌, ◌<◌, ◌≡◌, refl, sym, ap, ◌∙◌, true, false, [], ◌∷◌, none,
  some, arith, if◌then◌else◌, inl, inr,
}
use Prim.Native.Nat.{Ordering, compare}
use native.Mathlib.Nat.{mod-lt, div-add-mod', mul-le-mul_right}
use exonum.Prelude.Order.{bytes_cmp, Ordering-cases}
use exonum.Merkledb.Changes.{Bytes}
use exonum.Merkledb.Keys.{BigEndian, pos, negsuc, write, read}
use exonum.Merkledb.Keys.Signed.{signed_keys}
use exonum.Merkledb.ProofListKey.{ProofListKey, is_valid, is_left, cmp, parent, as_left, as_right}
use exonum.Merkledb.ProofListKey
use exonum.Merkledb.Changes
use exonum.Merkledb.Views.{real, changes_mut, get_bytes}
use exonum.Merkledb.ListIndex.{ListIndex}
use exonum.Merkledb.ListIndex
use exonum.Merkledb.ListIndex.Refinement.{run, apply, push_value, Keeps, Agrees, run-Agrees}
use exonum.Prelude.SortedMap
use exonum.Merkledb.ProofListKey.Ordered.{proof_list_keys}
use exonum.Merkledb.ProofListKey.Siblings.{siblings_meet}

power_pos : (w : ℕ) → 0 < 2 ^ w
power_pos zero = omega arith
power_pos (suc w) = omega (arith, power_pos w)

-- the order by quotients, and by remainders where those are equal
compare-parts :
    (b p q r s : ℕ)
    → r < b
    → s < b
    → compare (p * b + r) (q * b + s) ≡ (elim (compare p q) [ Ordering.eq ↦ compare r s | o ↦ o ])
compare-parts b p q r s k l = elim (Ordering-cases (compare p q)) [
  | inl e ↦ ground (arith, k, l, e, mul-le-mul_right {m = suc p} {n = q} b)
  | inr (inl e) ↦ ground (arith, k, l, e)
  | inr (inr e) ↦ ground (arith, k, l, e, mul-le-mul_right {m = suc q} {n = p} b)
]

compare-div_mod :
    (b x y : ℕ)
    → 0 < b
    → compare x y
      ≡ (elim (compare (x / b) (y / b)) [ Ordering.eq ↦ compare (x % b) (y % b) | o ↦ o ])
compare-div_mod b x y k =
    sym (ap (λ n. compare n y) (div-add-mod' x b))
    ∙ sym (ap (compare (x / b * b + x % b)) (div-add-mod' y b))
    ∙ compare-parts b (x / b) (y / b) (x % b) (y % b) (mod-lt x k) (mod-lt y k)

-- no bytes, for one value
abbrev no_bytes : BigEndian 0
no_bytes = record {
  write = λ n. [];
  read = λ bytes. 0;
  read-write = λ n k. omega (arith, k);
  cmp-write = λ a b k l. unfold bytes_cmp in (ground (arith, k, l));
}

first_read : ℕ → (Bytes → ℕ) → Bytes → ℕ
first_read w rest [] = 0
first_read w rest (byte ∷ bytes) = byte * 2 ^ w + rest bytes

cmp-cons :
    (x y : ℕ) (xs ys : Bytes)
    → bytes_cmp (x ∷ xs) (y ∷ ys) ≡ (elim (compare x y) [ Ordering.eq ↦ bytes_cmp xs ys | o ↦ o ])
unfolding bytes_cmp
cmp-cons x y xs ys = ground arith

-- one byte more, in front
one_more : (w : ℕ) → BigEndian w → BigEndian (w + 8)
one_more w be = record {
  write = λ n. n / 2 ^ w ∷ be.write (n % 2 ^ w);
  read = first_read w be.read;
  read-write = λ n k.
      unfold first_read in
      (ap (λ r. n / 2 ^ w * 2 ^ w + r) (be.read-write (n % 2 ^ w) (mod-lt n (power_pos w)))
        ∙ div-add-mod' n (2 ^ w));
  cmp-write = λ a b k l.
      cmp-cons (a / 2 ^ w) (b / 2 ^ w) (be.write (a % 2 ^ w)) (be.write (b % 2 ^ w))
      ∙ ap (λ o. elim (compare (a / 2 ^ w) (b / 2 ^ w)) [ Ordering.eq ↦ o | o' ↦ o' ])
          (be.cmp-write (a % 2 ^ w) (b % 2 ^ w) (mod-lt a (power_pos w)) (mod-lt b (power_pos w)))
      ∙ sym (compare-div_mod (2 ^ w) a b (power_pos w));
}

abbrev two_bytes : BigEndian 16
two_bytes = one_more 8 (one_more 0 no_bytes)

abbrev eight_bytes : BigEndian 64
eight_bytes =
    one_more 56 (one_more 48 (one_more 40 (one_more 32 (one_more 24 (one_more 16 two_bytes)))))

signed_keys_example :
    (read 15 two_bytes (write 15 two_bytes (negsuc 4)) ≡ negsuc 4)
    × (bytes_cmp (write 15 two_bytes (negsuc 4)) (write 15 two_bytes (pos 3)) ≡ Ordering.lt)
signed_keys_example = signed_keys 15 two_bytes (negsuc 4) (pos 3) (omega arith) (omega arith)

abbrev low_key : ProofListKey
low_key = record { index = 5; height = 1 }

abbrev high_key : ProofListKey
high_key = record { index = 2; height = 2 }

low_key-valid : is_valid low_key ≡ true
unfolding is_valid
low_key-valid = refl

high_key-valid : is_valid high_key ≡ true
unfolding is_valid
high_key-valid = refl

proof_list_keys_example :
    (x : Bytes) × (y : Bytes) × (ProofListKey.write eight_bytes true low_key ≡ some x)
    × (ProofListKey.write eight_bytes true high_key ≡ some y)
    × (ProofListKey.read eight_bytes true x ≡ some low_key)
    × (bytes_cmp x y ≡ cmp low_key high_key)
proof_list_keys_example =
    proof_list_keys eight_bytes true low_key high_key low_key-valid high_key-valid

siblings_meet_example :
    (l : ProofListKey) × (r : ProofListKey) × (p : ProofListKey) × (as_left true low_key ≡ some l)
    × (as_right true low_key ≡ some r)
    × (parent true low_key ≡ some p)
    × (parent true l ≡ some p)
    × (parent true r ≡ some p)
    × (is_left l ≡ true)
    × (is_left r ≡ false)
    × (r.index ≡ l.index + 1)
    × (low_key ≡ (if is_left low_key then l else r))
siblings_meet_example = siblings_meet true low_key low_key-valid (omega arith)

-- an index with no elements, over a view with no changes
abbrev empty_list : ListIndex
empty_list = record {
  base = real (record {
    address = record { name = []; id = some 1 };
    snapshot = record {
      get = λ name key. none;
      contains = λ name key. false;
      iter = λ name from. [];
    };
    changes = changes_mut Changes.new;
  });
  state = none;
}

empty_list-Keeps : Keeps eight_bytes empty_list []
unfolding ListIndex.get get_bytes Changes.get SortedMap.get
empty_list-Keeps = record {
  writable = (Changes.new, refl);
  as_long = refl;
  fits = omega arith;
  elements = λ i b. refl;
}

run-Agrees_example :
    Agrees eight_bytes
      (run eight_bytes true (push_value (7 ∷ [])) empty_list)
      (apply (push_value (7 ∷ [])) [])
run-Agrees_example =
    run-Agrees eight_bytes true (push_value (7 ∷ [])) empty_list [] empty_list-Keeps (omega arith)
