-- ===== src/Merkledb/Temporary/Lawful.antt =====
-- components/merkledb/src/backends/temporarydb.rs: the snapshot of a database in memory.
use exonum.Prelude.{◌≡◌, refl, sym, ◌∙◌, subst, Option, none, some, [], ◌∷◌, ◌++◌, arith}
use exonum.Prelude.Eq.{nat_eq}
use exonum.Prelude.Order.{bytes_order, bytes_cmp}
use exonum.Prelude.SortedMap.{SortedMap, Sorted, Above}
use exonum.Prelude.SortedMap.Ranges.{range_from-Sorted, get-range_from}
use exonum.Prelude.SortedMap.Keys.{Keys, Keys-range_from}
use exonum.Prelude.SortedMap
use exonum.Merkledb.Changes.{Bytes}
use exonum.Merkledb.Patch.{ResolvedAddress, address_eq}
use exonum.Merkledb.Patch.Lawful.{IsLawful}
use exonum.Merkledb.Temporary.{
  MemoryDb, id_to_bytes, with_prefix, keyed, strip, strip_all, shown, default_address,
  collection_of, collection_or_default, iter, temporary_db,
}
use exonum.Merkledb.Temporary.Merging.{IsSound, cmp-append, cmp-keyed, get-collection_of}

strip-append : (p k : Bytes) → strip p (p ++ k) ≡ some k
unfolding strip
strip-append [] k = refl
strip-append (x ∷ p) k = ground (arith, strip-append p k)

-- keys that have the prefix
abbrev Prefixed : Bytes → SortedMap Bytes Bytes → Type 0
Prefixed p m = Keys (λ j. (key : Bytes) × (j ≡ p ++ key)) m

-- an entry with the prefix is shown without it
strip_all-cons :
    (p : Bytes) (j v : Bytes) (m : SortedMap Bytes Bytes) (k : Bytes)
    → j ≡ p ++ k
    → strip_all p ((j, v) ∷ m) ≡ (k, v) ∷ strip_all p m
unfolding strip_all
strip_all-cons p j v m k e = rw (e, strip_all, strip-append p k) refl

Above-strip_all :
    (p : Bytes) (i : Bytes) (m : SortedMap Bytes Bytes)
    → Prefixed p m
    → Above (p ++ i) m
    → Above i (strip_all p m)
Above-strip_all p i [] f a = unfold strip_all in tt
Above-strip_all p i ((j, v) ∷ m) f a = rw (strip_all-cons p j v m f.0.0 f.0.1) (
  sym (cmp-append p i f.0.0)
      ∙ subst (λ x. bytes_cmp (p ++ i) x ≡ bytes_cmp (p ++ i) j) f.0.1 refl
      ∙ a.0,
  Above-strip_all p i m f.1 a.1,
)

strip_all-Sorted :
    (p : Bytes) (m : SortedMap Bytes Bytes) → Prefixed p m → Sorted m → Sorted (strip_all p m)
strip_all-Sorted p [] f s = unfold strip_all in tt
strip_all-Sorted p ((j, v) ∷ m) f s =
    rw (strip_all-cons p j v m f.0.0 f.0.1) (
      Above-strip_all p f.0.0 m f.1 (subst (λ x. Above x m) f.0.1 s.0),
      strip_all-Sorted p m f.1 s.1,
    )

get-entry :
    (p k v : Bytes) (m : SortedMap Bytes Bytes) (key : Bytes)
    → SortedMap.get (strip_all p m) key ≡ SortedMap.get m (p ++ key)
    → SortedMap.get ((k, v) ∷ strip_all p m) key ≡ SortedMap.get ((p ++ k, v) ∷ m) (p ++ key)
unfolding SortedMap.get
get-entry p k v m key h = ground (arith, h, cmp-append p k key)

get-strip_all :
    (p : Bytes) (m : SortedMap Bytes Bytes) (key : Bytes)
    → Prefixed p m
    → SortedMap.get (strip_all p m) key ≡ SortedMap.get m (p ++ key)
get-strip_all p [] key f = unfold strip_all SortedMap.get in refl
get-strip_all p ((j, v) ∷ m) key f =
    rw (strip_all-cons p j v m f.0.0 f.0.1, f.0.1)
      (get-entry p f.0.0 v m key (get-strip_all p m key f.1))

-- what a prefix leaves of a collection
record Stripped (p : Option Bytes) (m : SortedMap Bytes Bytes) : Type 0 where
  sorted : Sorted (shown p m)
  lists : (key : Bytes) → SortedMap.get (shown p m) key ≡ SortedMap.get m (with_prefix p key)

stripped :
    (p : Option Bytes) (m : SortedMap Bytes Bytes)
    → Sorted m
    → Keys (λ j. (key : Bytes) × (j ≡ with_prefix p key)) m
    → Stripped p m
stripped none m s f = record { sorted = s; lists = λ key. refl }
stripped (some p) m s f = record {
  sorted = strip_all-Sorted p m f s;
  lists = λ key. get-strip_all p m key f;
}

or_default_lem :
    (db : MemoryDb) (name : ResolvedAddress)
    → collection_of db default_address ≡ []
    → collection_or_default db name ≡ collection_of db name
or_default_lem db name e = ground (arith, e)

shown_of :
    (db : MemoryDb) (name : ResolvedAddress) (from : Bytes)
    → IsSound db
    → Stripped (id_to_bytes name) (SortedMap.range_from (collection_of db name) (keyed name from))
unfolding keyed
shown_of db name from s =
    stripped (id_to_bytes name) (SortedMap.range_from (collection_of db name) (keyed name from))
      (range_from-Sorted (collection_of db name) (keyed name from) (s.collections name).ordered)
      (Keys-range_from _ (collection_of db name) (keyed name from) (s.collections name).prefixed)

-- A snapshot of a database in memory is lawful, where its collections are sound and the default
-- collection, which the iterator over an unknown index falls back on, is empty.
pub temporary_db-IsLawful :
    (db : MemoryDb)
    → IsSound db
    → collection_of db default_address ≡ []
    → IsLawful (temporary_db.snapshot db)
unfolding iter keyed
temporary_db-IsLawful db s e = record {
  sorted = λ name from. rw (or_default_lem db name e) (shown_of db name from s).sorted;
  lists = λ name from key.
      rw (or_default_lem db name e, get-collection_of db name key)
        ((shown_of db name from s).lists key
          ∙ get-range_from (collection_of db name) (keyed name from) (keyed name key)
              (s.collections name).ordered
          ∙ rw (cmp-keyed name key from) refl);
  contains = λ name key. refl;
}
