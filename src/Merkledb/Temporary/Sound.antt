-- ===== src/Merkledb/Temporary/Sound.antt =====
-- components/merkledb/src/backends/temporarydb.rs: `TemporaryDB::merge` over all indexes of a patch.
use exonum.Prelude.{
  ◌≡◌, refl, ap, ◌∙◌, subst, Option, some, [], ◌∷◌, arith, inl, inr, Bool-cases, if◌then◌else◌,
}
use exonum.Prelude.Eq.{◌==◌}
use exonum.Prelude.HashMap.{HashMap, Distinct, Fresh, get-Fresh, get-insert}
use exonum.Prelude.HashMap
use exonum.Prelude.SortedMap
use exonum.Prelude.Order.{bytes_order}
use exonum.Merkledb.Changes.{Bytes, ViewChanges}
use exonum.Merkledb.Changes
use exonum.Merkledb.Patch.{ResolvedAddress, address_eq, address_beq_iff, Patch, get_in, unwrap_or}
use exonum.Merkledb.Backup.Restore.{IsMerged}
use exonum.Merkledb.Temporary.{
  MemoryDb, keyed, collection_of, merge_collection, merge_all, get, temporary_db,
}
use exonum.Merkledb.Temporary.Merging.{
  AllWritable, IsWritable, IsSound, IsCollection, get-merge_collection, get-collection_of,
  merge_collection-IsCollection,
}

abbrev merged_in : MemoryDb → ResolvedAddress → ViewChanges → MemoryDb
merged_in db a c = HashMap.insert db a (merge_collection a c (collection_of db a))

collection_of-merged_in :
    (db : MemoryDb) (a : ResolvedAddress) (c : ViewChanges) (b : ResolvedAddress)
    → collection_of (merged_in db a c) b
      ≡ (if a == b then merge_collection a c (collection_of db a) else collection_of db b)
collection_of-merged_in db a c b =
    ground (arith, get-insert db a (merge_collection a c (collection_of db a)) b)

merged_in-IsSound :
    (db : MemoryDb) (a : ResolvedAddress) (c : ViewChanges)
    → IsSound db
    → IsSound (merged_in db a c)
merged_in-IsSound db a c s = record {
  collections = λ b. elim (Bool-cases (a == b)) [
    | inl t ↦
        let e = (address_beq_iff a b).0 t in
        rw (collection_of-merged_in db a c b, t)
          (subst (λ x. IsCollection x (merge_collection a c (collection_of db a))) e
            (merge_collection-IsCollection a c (collection_of db a) (s.collections a)))
    | inr n ↦ rw (collection_of-merged_in db a c b, n) (s.collections b)
  ];
}

-- A merge keeps a database in memory sound: every collection is in the order of its keys, and has
-- keys of its own index only.
pub merge_all-IsSound :
    (changes : HashMap ResolvedAddress ViewChanges) (db : MemoryDb)
    → IsSound db
    → IsSound (merge_all changes db)
unfolding merge_all
merge_all-IsSound [] db s = s
merge_all-IsSound ((a, c) ∷ changes) db s =
    merge_all-IsSound changes (merged_in db a c) (merged_in-IsSound db a c s)

get-merged_in :
    (db : MemoryDb) (a : ResolvedAddress) (c : ViewChanges) (b : ResolvedAddress) (key : Bytes)
    → IsSound db
    → IsWritable a c
    → get (merged_in db a c) b key
      ≡ (if a == b then unwrap_or (Changes.get c key) (get db b key) else get db b key)
get-merged_in db a c b key s w =
    rw
      (
        get-collection_of (merged_in db a c) b key,
        get-collection_of db b key,
        collection_of-merged_in db a c b,
      )
      (elim (Bool-cases (a == b)) [
        | inl t ↦
            let e = (address_beq_iff a b).0 t in
            rw t (
              subst
                (λ x.
                  SortedMap.get (merge_collection a c (collection_of db a)) (keyed x key)
                  ≡ unwrap_or (Changes.get c key)
                      (SortedMap.get (collection_of db x) (keyed x key)))
                e
                (get-merge_collection a c (collection_of db a) key (s.collections a).ordered
                  w.ordered w.clearable))
        | inr n ↦ rw n refl
      ])

get_in-cons :
    (a : ResolvedAddress) (c : ViewChanges) (changes : HashMap ResolvedAddress ViewChanges)
    (b : ResolvedAddress) (key : Bytes) (below : Option Bytes)
    → Fresh a changes
    → unwrap_or
        (get_in (HashMap.get changes b) key)
        (if a == b then unwrap_or (Changes.get c key) below else below)
      ≡ unwrap_or (get_in (HashMap.get ((a, c) ∷ changes) b) key) below
unfolding HashMap.get
get_in-cons a c changes b key below f = elim (Bool-cases (a == b)) [
  | inl t ↦
      ground
        (arith, t, get-Fresh changes b (subst (λ x. Fresh x changes) ((address_beq_iff a b).0 t) f))
  | inr n ↦ ground (arith, n)
]

pub get-merge_all :
    (changes : HashMap ResolvedAddress ViewChanges) (db : MemoryDb) (b : ResolvedAddress)
    (key : Bytes)
    → IsSound db
    → AllWritable changes
    → Distinct changes
    → get (merge_all changes db) b key
      ≡ unwrap_or (get_in (HashMap.get changes b) key) (get db b key)
unfolding merge_all
get-merge_all [] db b key s w d = unfold HashMap.get in refl
get-merge_all ((a, c) ∷ changes) db b key s w d =
    get-merge_all changes (merged_in db a c) b key (merged_in-IsSound db a c s) w.1 d.1
    ∙ ap (unwrap_or (get_in (HashMap.get changes b) key)) (get-merged_in db a c b key s w.0)
    ∙ get_in-cons a c changes b key (get db b key) d.0

-- The database in memory does what a merge promises. Where its collections are sound, and the patch
-- has one entry for each changed index, with its changes in the order of their keys, and clears no
-- index with the greatest identifier, the merge succeeds, leaves a sound database, and gives each key
-- of each index the value that the patch has for it over the old one.
pub merge-IsMerged :
    (db : MemoryDb) (patch : Patch)
    → IsSound db
    → AllWritable patch.changes
    → Distinct patch.changes
    → (after : MemoryDb) × (temporary_db.merge db patch ≡ some after)
      × IsSound after
      × IsMerged (temporary_db.snapshot db) (temporary_db.snapshot after) patch
merge-IsMerged db patch s w d = (
  merge_all patch.changes db,
  refl,
  merge_all-IsSound patch.changes db s,
  record { merged = λ name key. get-merge_all patch.changes db name key s w d },
)
