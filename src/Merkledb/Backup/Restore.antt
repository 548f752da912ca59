-- ===== src/Merkledb/Backup/Restore.antt =====
-- components/merkledb/src/db.rs: merging a backup restores what a merge changed.
use exonum.Prelude.{
  ◌≡◌, refl, ap, ◌∙◌, Option, none, some, List, [], ◌∷◌, arith, if◌then◌else◌, subst, Bool-cases,
  inl, inr,
}
use exonum.Prelude.Eq.{◌==◌}
use exonum.Prelude.Order.{bytes_order, bytes_cmp, is_lt, bytes-eq_of_cmp}
use exonum.Prelude.SortedMap.{SortedMap, Sorted, Above, insert-Sorted, get-insert, get-Above}
use exonum.Prelude.SortedMap
use exonum.Prelude.HashMap.{HashMap, Distinct, insert-Distinct, Fresh, get-Fresh}
use exonum.Prelude.HashMap
use exonum.Merkledb.Changes.{Bytes, Change, put, delete, ViewChanges}
use exonum.Merkledb.Changes
use exonum.Merkledb.Patch.{
  ResolvedAddress, address_eq, address_beq_iff, Snapshot, Patch, get_in, unwrap_or,
}
use exonum.Merkledb.Patch.Lawful.{IsLawful}
use exonum.Merkledb.Backup.{
  Database, change_to, revert_entries, remember, revert_view, revert_changes, merge_with_backup,
}

-- what a merge promises: each key has the value that the patch gives it over the database
pub record IsMerged (before after : Snapshot) (patch : Patch) : Type 0 where
  pub merged :
      (name : ResolvedAddress) (key : Bytes)
      → after.get name key
        ≡ unwrap_or (get_in (HashMap.get patch.changes name) key) (before.get name key)

get-revert_entries :
    (value : Bytes → Option Bytes) (m : SortedMap Bytes Change) (key : Bytes)
    → SortedMap.get (revert_entries value m) key
      ≡ (elim (SortedMap.get m key) [ none ↦ none | some change ↦ some (change_to (value key)) ])
unfolding revert_entries SortedMap.get
get-revert_entries value [] key = refl
get-revert_entries value ((k, change) ∷ m) key =
    ground (arith, get-revert_entries value m key, bytes-eq_of_cmp k key)

get-remember :
    (m : SortedMap Bytes Change) (es : SortedMap Bytes Bytes) (key : Bytes)
    → Sorted es
    → SortedMap.get (remember m es) key
      ≡ (elim (SortedMap.get es key) [ none ↦ SortedMap.get m key | some v ↦ some (put v) ])
unfolding remember SortedMap.get
get-remember m [] key s = refl
get-remember m ((k, v) ∷ es) key s = ground (
  arith,
  get-remember (SortedMap.insert m k (put v)) es key s.1,
  get-insert m k (put v) key,
  get-Above es k key s.0,
)

get-revert_changes :
    (snapshot : Snapshot) (changes acc : HashMap ResolvedAddress ViewChanges)
    (name : ResolvedAddress)
    → Distinct changes
    → HashMap.get (revert_changes snapshot changes acc) name ≡ (elim (HashMap.get changes name) [
      | none ↦ HashMap.get acc name
      | some c ↦ some (revert_view snapshot name c)
    ])
unfolding revert_changes HashMap.get
get-revert_changes snapshot [] acc name d = refl
get-revert_changes snapshot ((a, c) ∷ changes) acc name d =
    let rev = HashMap.insert acc a (revert_view snapshot a c) in
    let rest = get-revert_changes snapshot changes rev name d.1 in
    elim (Bool-cases (a == name)) [
      | inl t ↦
          let e = (address_beq_iff a name).0 t in
          rw
            (
              rest,
              get-Fresh changes name (subst (λ x. Fresh x changes) e d.0),
              HashMap.get-insert acc a (revert_view snapshot a c) name,
              t,
            )
            (ap (λ x. some (revert_view snapshot x c)) e)
      | inr n ↦ rw n (
          rest
          ∙ ap
              (λ v. elim (HashMap.get changes name) [
                | none ↦ v
                | some c ↦ some (revert_view snapshot name c)
              ])
              (HashMap.get-insert_other acc a (revert_view snapshot a c) name n))
    ]

at_least : (key : Bytes) (v : Option Bytes) → (if is_lt (bytes_cmp key []) then none else v) ≡ v
unfolding bytes_cmp
at_least [] v = refl
at_least (x ∷ key) v = refl

iter_all :
    (snapshot : Snapshot) (name : ResolvedAddress) (key : Bytes)
    → IsLawful snapshot
    → SortedMap.get (snapshot.iter name []) key ≡ snapshot.get name key
iter_all snapshot name key l = rw (l.lists name [] key) (at_least key (snapshot.get name key))

-- reading the reverse of the changes to an index over what a merge left
revert_view_lem :
    (snapshot : Snapshot) (name : ResolvedAddress) (c : ViewChanges) (key : Bytes)
    → IsLawful snapshot
    → unwrap_or
        (Changes.get (revert_view snapshot name c) key)
        (unwrap_or (Changes.get c key) (snapshot.get name key))
      ≡ snapshot.get name key
unfolding Changes.get
revert_view_lem snapshot name c key l =
    let reverted = revert_entries (snapshot.get name) c.entries in
    ground (
      arith,
      get-revert_entries (snapshot.get name) c.entries key,
      get-remember reverted (snapshot.iter name []) key (l.sorted name []),
      iter_all snapshot name key l,
    )

revert_in :
    (snapshot : Snapshot) (name : ResolvedAddress) (changes : Option ViewChanges) (key : Bytes)
    → IsLawful snapshot
    → unwrap_or
        (get_in (elim changes [ none ↦ none | some c ↦ some (revert_view snapshot name c) ]) key)
        (unwrap_or (get_in changes key) (snapshot.get name key))
      ≡ snapshot.get name key
revert_in snapshot name none key l = refl
revert_in snapshot name (some c) key l = revert_view_lem snapshot name c key l

-- the entries of a backup in order, where those of the patch are
revert_entries-Above :
    (value : Bytes → Option Bytes) (m : SortedMap Bytes Change) (k : Bytes)
    → Above k m
    → Above k (revert_entries value m)
unfolding revert_entries
revert_entries-Above value [] k a = tt
revert_entries-Above value ((j, c) ∷ m) k a = (a.0, revert_entries-Above value m k a.1)

revert_entries-Sorted :
    (value : Bytes → Option Bytes) (m : SortedMap Bytes Change)
    → Sorted m
    → Sorted (revert_entries value m)
unfolding revert_entries
revert_entries-Sorted value [] s = tt
revert_entries-Sorted value ((k, c) ∷ m) s =
    (revert_entries-Above value m k s.0, revert_entries-Sorted value m s.1)

remember-Sorted :
    (m : SortedMap Bytes Change) (es : List (Bytes × Bytes)) → Sorted m → Sorted (remember m es)
unfolding remember
remember-Sorted m [] s = s
remember-Sorted m ((k, v) ∷ es) s =
    remember-Sorted (SortedMap.insert m k (put v)) es (insert-Sorted m k (put v) s)

pub revert_view-Sorted :
    (snapshot : Snapshot) (name : ResolvedAddress) (c : ViewChanges)
    → Sorted c.entries
    → Sorted (revert_view snapshot name c).entries
revert_view-Sorted snapshot name c s =
    let reverted = revert_entries (snapshot.get name) c.entries in
    let reverted-Sorted = revert_entries-Sorted (snapshot.get name) c.entries s in
    elim (Bool-cases c.is_cleared) [
      | inl t ↦ simp t (remember-Sorted reverted (snapshot.iter name []) reverted-Sorted)
      | inr n ↦ simp n reverted-Sorted
    ]

pub revert_changes-Distinct :
    (snapshot : Snapshot) (changes acc : HashMap ResolvedAddress ViewChanges)
    → Distinct acc
    → Distinct (revert_changes snapshot changes acc)
unfolding revert_changes
revert_changes-Distinct snapshot [] acc d = d
revert_changes-Distinct snapshot ((a, c) ∷ changes) acc d =
    revert_changes-Distinct snapshot changes (HashMap.insert acc a (revert_view snapshot a c))
      (insert-Distinct acc a (revert_view snapshot a c) d)

-- the backup of a patch
abbrev pub backup_of : (db : Database) → db.State → db.State → Patch → Patch
backup_of db state merged patch = record {
  snapshot = db.snapshot merged;
  changes = revert_changes (db.snapshot state) patch.changes [];
  changed_aggregated_addrs = patch.changed_aggregated_addrs;
  removed_aggregated_addrs = [];
}

pub merge_with_backup_lem :
    (db : Database) (state merged : db.State) (patch : Patch)
    → db.merge state patch ≡ some merged
    → merge_with_backup db state patch ≡ some (merged, backup_of db state merged patch)
unfolding merge_with_backup
merge_with_backup_lem db state merged patch m = rw m refl

-- a merge of a patch, and one of its backup
pub backup_restores :
    (db : Database) (state merged restored : db.State) (patch : Patch)
    → IsLawful (db.snapshot state)
    → Distinct patch.changes
    → IsMerged (db.snapshot state) (db.snapshot merged) patch
    → IsMerged (db.snapshot merged) (db.snapshot restored) (backup_of db state merged patch)
    → (name : ResolvedAddress) (key : Bytes)
    → (db.snapshot restored).get name key ≡ (db.snapshot state).get name key
unfolding HashMap.get
backup_restores db state merged restored patch l d m r name key =
    let rev = revert_changes (db.snapshot state) patch.changes [] in
    r.merged name key
    ∙ ap (unwrap_or (get_in (HashMap.get rev name) key)) (m.merged name key)
    ∙ rw (get-revert_changes (db.snapshot state) patch.changes [] name d)
        (revert_in (db.snapshot state) name (HashMap.get patch.changes name) key l)
