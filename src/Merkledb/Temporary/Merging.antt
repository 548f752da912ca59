-- ===== src/Merkledb/Temporary/Merging.antt =====
-- components/merkledb/src/backends/temporarydb.rs: a merge gives each key the value of the patch.
use exonum.Prelude.{
  ℕ, ◌≡◌, refl, Bool, true, false, Option, none, some, [], ◌∷◌, ◌++◌, All, arith, inl, inr,
  Bool-cases, if◌then◌else◌,
}
use exonum.Prelude.Eq.{list_eq, nat_eq}
use exonum.Prelude.Order.{bytes_order, bytes_cmp, is_lt}
use exonum.Prelude.SortedMap.{
  SortedMap, Sorted, Above, get-insert, get-remove, get-Above, insert-Sorted, remove-Sorted,
}
use exonum.Prelude.SortedMap.Ranges.{
  get-range_from, get-range_to, get-extend, range_from-Sorted, range_to-Sorted, extend-Sorted,
}
use exonum.Prelude.SortedMap.Keys.{
  Keys, Keys-insert, Keys-remove, Keys-range_from, Keys-range_to, Keys-extend,
}
use exonum.Prelude.SortedMap
use exonum.Prelude.HashMap.{HashMap}
use exonum.Merkledb.Changes.{Bytes, Change, put, delete, value_of, ViewChanges, apply_change}
use exonum.Merkledb.Changes
use exonum.Merkledb.Iter.Entries.{changed}
use exonum.Merkledb.Patch.{ResolvedAddress, address_eq, unwrap_or}
use exonum.Merkledb.Temporary.{
  MemoryDb, id_to_bytes, with_prefix, keyed, increment, incremented, next_id_bytes,
  clear_collection, write_changes, collection_of, merge_collection, get,
}

-- a common prefix does not change the order
pub cmp-append : (p k j : Bytes) → bytes_cmp (p ++ k) (p ++ j) ≡ bytes_cmp k j
unfolding bytes_cmp
cmp-append [] k j = refl
cmp-append (x ∷ p) k j = ground (arith, cmp-append p k j)

cmp-with_prefix :
    (p : Option Bytes) (k j : Bytes) → bytes_cmp (with_prefix p k) (with_prefix p j) ≡ bytes_cmp k j
cmp-with_prefix none k j = refl
cmp-with_prefix (some p) k j = cmp-append p k j

pub cmp-keyed :
    (a : ResolvedAddress) (k j : Bytes) → bytes_cmp (keyed a k) (keyed a j) ≡ bytes_cmp k j
unfolding keyed
cmp-keyed a k j = cmp-with_prefix (id_to_bytes a) k j

-- a key is not below its prefix
prefix_least : (p k : Bytes) → is_lt (bytes_cmp (p ++ k) p) ≡ false
unfolding bytes_cmp
prefix_least [] [] = refl
prefix_least [] (x ∷ k) = refl
prefix_least (x ∷ p) k = ground (arith, prefix_least p k)

below_incremented :
    (x : ℕ) (p k : Bytes) (next : Bytes × Bool)
    → (increment x next).1 ≡ false
    → (next.1 ≡ false → is_lt (bytes_cmp (p ++ k) next.0) ≡ true)
    → is_lt (bytes_cmp (x ∷ (p ++ k)) (increment x next).0) ≡ true
unfolding bytes_cmp
below_incremented x p k (bytes, true) h rest = ground arith
below_incremented x p k (bytes, false) h rest = ground (arith, rest refl)

-- a key is below the prefix after its own
below_next :
    (p k : Bytes) → (incremented p).1 ≡ false → is_lt (bytes_cmp (p ++ k) (next_id_bytes p)) ≡ true
unfolding bytes_cmp incremented
below_next [] k h = cc
below_next (x ∷ p) k h = below_incremented x p k (incremented p) h (below_next p k)

-- the identifier is not the greatest one, where an index is cleared
abbrev pub HasNext : Option Bytes → Type 0
HasNext none = Unit
HasNext (some id_bytes) = (incremented id_bytes).1 ≡ false

get-cleared :
    (p : Option Bytes) (m : SortedMap Bytes Bytes) (key : Bytes)
    → Sorted m
    → HasNext p
    → SortedMap.get (clear_collection p m) (with_prefix p key) ≡ none
get-cleared none m key s h = unfold SortedMap.get in refl
get-cleared (some p) m key s h =
    let middle = SortedMap.range_from m p in
    let tail = SortedMap.range_from middle (next_id_bytes p) in
    let middle-Sorted = range_from-Sorted m p s in
    ground (
      arith,
      get-extend (SortedMap.range_to m p) tail (p ++ key)
          (range_from-Sorted middle (next_id_bytes p) middle-Sorted),
      get-range_from middle (next_id_bytes p) (p ++ key) middle-Sorted,
      get-range_to m p (p ++ key),
      prefix_least p key,
      below_next p key h,
    )

get-clear_collection :
    (a : ResolvedAddress) (m : SortedMap Bytes Bytes) (key : Bytes)
    → Sorted m
    → HasNext (id_to_bytes a)
    → SortedMap.get (clear_collection (id_to_bytes a) m) (keyed a key) ≡ none
unfolding keyed
get-clear_collection a m key s h = get-cleared (id_to_bytes a) m key s h

get-write_changes :
    (a : ResolvedAddress) (changes : SortedMap Bytes Change) (m : SortedMap Bytes Bytes)
    (key : Bytes)
    → Sorted changes
    → SortedMap.get (write_changes a changes m) (keyed a key)
      ≡ changed (SortedMap.get changes key) (SortedMap.get m (keyed a key))
unfolding write_changes SortedMap.get apply_change
get-write_changes a [] m key s = refl
get-write_changes a ((k, put v) ∷ changes) m key s = ground (
  arith,
  get-write_changes a changes (SortedMap.insert m (keyed a k) v) key s.1,
  get-insert m (keyed a k) v (keyed a key),
  get-Above changes k key s.0,
  cmp-keyed a k key,
)
get-write_changes a ((k, delete) ∷ changes) m key s = ground (
  arith,
  get-write_changes a changes (SortedMap.remove m (keyed a k)) key s.1,
  get-remove m (keyed a k) (keyed a key),
  get-Above changes k key s.0,
  cmp-keyed a k key,
)

pub get-merge_collection :
    (a : ResolvedAddress) (c : ViewChanges) (m : SortedMap Bytes Bytes) (key : Bytes)
    → Sorted m
    → Sorted c.entries
    → (c.is_cleared ≡ true → HasNext (id_to_bytes a))
    → SortedMap.get (merge_collection a c m) (keyed a key)
      ≡ unwrap_or (Changes.get c key) (SortedMap.get m (keyed a key))
unfolding Changes.get
get-merge_collection a c m key s e h = elim (Bool-cases c.is_cleared) [
  | inl t ↦ ground (
    arith,
    t,
    get-write_changes a c.entries (clear_collection (id_to_bytes a) m) key e,
    get-clear_collection a m key s (h t),
  )
  | inr n ↦ ground (arith, n, get-write_changes a c.entries m key e)
]

pub get-collection_of :
    (db : MemoryDb) (a : ResolvedAddress) (key : Bytes)
    → get db a key ≡ SortedMap.get (collection_of db a) (keyed a key)
unfolding get SortedMap.get
get-collection_of db a key = ground arith

-- changes that a database takes: in the order of their keys, and of an index that can be cleared
pub record IsWritable (a : ResolvedAddress) (c : ViewChanges) : Type 0 where
  pub ordered : Sorted c.entries
  pub clearable : c.is_cleared ≡ true → HasNext (id_to_bytes a)

abbrev pub AllWritable : HashMap ResolvedAddress ViewChanges → Type 0
AllWritable changes = All (λ x. IsWritable x.0 x.1) changes

-- what a state of the database keeps: each collection is in the order of its keys, which are keys of
-- its index
pub record IsCollection (a : ResolvedAddress) (m : SortedMap Bytes Bytes) : Type 0 where
  pub ordered : Sorted m
  pub prefixed : Keys (λ k. (key : Bytes) × (k ≡ keyed a key)) m

pub record IsSound (db : MemoryDb) : Type 0 where
  pub collections : (a : ResolvedAddress) → IsCollection a (collection_of db a)

write_changes-IsCollection :
    (a : ResolvedAddress) (changes : SortedMap Bytes Change) (m : SortedMap Bytes Bytes)
    → IsCollection a m
    → IsCollection a (write_changes a changes m)
unfolding write_changes apply_change
write_changes-IsCollection a [] m i = i
write_changes-IsCollection a ((k, put v) ∷ changes) m i =
    write_changes-IsCollection a changes (SortedMap.insert m (keyed a k) v) (record {
      ordered = insert-Sorted m (keyed a k) v i.ordered;
      prefixed = Keys-insert _ m (keyed a k) v i.prefixed (k, refl);
    })
write_changes-IsCollection a ((k, delete) ∷ changes) m i =
    write_changes-IsCollection a changes (SortedMap.remove m (keyed a k)) (record {
      ordered = remove-Sorted m (keyed a k) i.ordered;
      prefixed = Keys-remove _ m (keyed a k) i.prefixed;
    })

clear_collection-IsCollection :
    (a : ResolvedAddress) (id_bytes : Option Bytes) (m : SortedMap Bytes Bytes)
    → IsCollection a m
    → IsCollection a (clear_collection id_bytes m)
clear_collection-IsCollection a none m i = record { ordered = tt; prefixed = tt }
clear_collection-IsCollection a (some p) m i =
    let middle = SortedMap.range_from m p in
    let tail = SortedMap.range_from middle (next_id_bytes p) in
    record {
      ordered = extend-Sorted (SortedMap.range_to m p) tail (range_to-Sorted m p i.ordered);
      prefixed =
          Keys-extend _ (SortedMap.range_to m p) tail (Keys-range_to _ m p i.prefixed)
            (Keys-range_from _ middle (next_id_bytes p) (Keys-range_from _ m p i.prefixed));
    }

if-IsCollection :
    (a : ResolvedAddress) (b : Bool) (m n : SortedMap Bytes Bytes)
    → IsCollection a m
    → IsCollection a n
    → IsCollection a (if b then m else n)
if-IsCollection a true m n i j = i
if-IsCollection a false m n i j = j

pub merge_collection-IsCollection :
    (a : ResolvedAddress) (c : ViewChanges) (m : SortedMap Bytes Bytes)
    → IsCollection a m
    → IsCollection a (merge_collection a c m)
merge_collection-IsCollection a c m i =
    write_changes-IsCollection a c.entries
      (if c.is_cleared then clear_collection (id_to_bytes a) m else m)
      (if-IsCollection a c.is_cleared (clear_collection (id_to_bytes a) m) m
        (clear_collection-IsCollection a (id_to_bytes a) m i) i)
