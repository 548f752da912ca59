-- ===== src/Merkledb/Patch/Lawful.antt =====
-- components/merkledb/src/db.rs: what a `Snapshot` promises, and that a `Patch` keeps it.
use exonum.Prelude.{
  ◌≡◌, refl, ◌∙◌, Bool, true, false, Option, none, some, List, [], All, arith, if◌then◌else◌,
  Bool-cases, inl, inr,
}
use exonum.Prelude.Order.{bytes_order, bytes_cmp, is_lt}
use exonum.Prelude.SortedMap.{Sorted}
use exonum.Prelude.SortedMap.Ranges.{range_from-Sorted, get-range_from}
use exonum.Prelude.SortedMap
use exonum.Prelude.HashMap.{All-get}
use exonum.Prelude.HashMap
use exonum.Merkledb.Changes.{Bytes, ViewChanges, apply_changes}
use exonum.Merkledb.Changes
use exonum.Merkledb.Iter.{changes_iter, fork_iter, entries}
use exonum.Merkledb.Iter.Entries.{
  apply_changes-Sorted, get-apply_changes, entries-changes_iter, entries-fork_iter,
}
use exonum.Merkledb.Patch.{
  ResolvedAddress, address_eq, Snapshot, Patch, get, contains, iter, iter_over, get_in, contains_in,
  unwrap_or, as_snapshot,
}

abbrev pub is_some {ℓ} : {A : Type ℓ} → Option A → Bool
is_some none = false
is_some (some a) = true

-- an iterator shows the entries from `from` on, in order, and lookups agree with it
pub record IsLawful (s : Snapshot) : Type 0 where
  pub sorted : (name : ResolvedAddress) (from : Bytes) → Sorted (s.iter name from)
  pub lists :
      (name : ResolvedAddress) (from key : Bytes)
      → SortedMap.get (s.iter name from) key
        ≡ (if is_lt (bytes_cmp key from) then none else s.get name key)
  pub contains :
      (name : ResolvedAddress) (key : Bytes) → s.contains name key ≡ is_some (s.get name key)

-- the changes to each index in the order of their keys
abbrev pub IsOrderly : Patch → Type 0
IsOrderly p = All (λ x. Sorted x.1.entries) p.changes

-- what the iterator over an index shows
pub record Listed (changes : Option ViewChanges) (es : List (Bytes × Bytes))
    (below : Bytes → Option Bytes) (from : Bytes) : Type 0 where
  pub sorted : Sorted es
  pub lists :
      (key : Bytes)
      → SortedMap.get es key
        ≡ (if is_lt (bytes_cmp key from) then none else unwrap_or (get_in changes key) (below key))

Listed-cleared :
    (c : ViewChanges) (below : Bytes → Option Bytes) (from : Bytes)
    → c.is_cleared ≡ true
    → Sorted c.entries
    → Listed (some c) (entries (changes_iter (SortedMap.range_from c.entries from))) below from
unfolding Changes.get
Listed-cleared c below from t s =
    let rs = range_from-Sorted c.entries from s in
    rw (entries-changes_iter (SortedMap.range_from c.entries from) rs) (record {
      sorted = apply_changes-Sorted (SortedMap.range_from c.entries from) [] tt;
      lists = λ key.
          get-apply_changes (SortedMap.range_from c.entries from) [] key rs
          ∙ unfold SortedMap.get in (ground (arith, t, get-range_from c.entries from key s));
    })

Listed-changes :
    (c : ViewChanges) (es : List (Bytes × Bytes)) (below : Bytes → Option Bytes) (from : Bytes)
    → c.is_cleared ≡ false
    → Sorted c.entries
    → Sorted es
    → ((key : Bytes)
        → SortedMap.get es key ≡ (if is_lt (bytes_cmp key from) then none else below key))
    → Listed
        (some c)
        (entries (
          fork_iter
            (record { snapshot = es; changes = some (SortedMap.range_from c.entries from) })))
        below
        from
unfolding Changes.get
Listed-changes c es below from n s se l =
    let rs = range_from-Sorted c.entries from s in
    rw
      (entries-fork_iter
        (record { snapshot = es; changes = some (SortedMap.range_from c.entries from) })
        (record { snapshot = se; changes = rs }))
      (record {
        sorted = apply_changes-Sorted (SortedMap.range_from c.entries from) es se;
        lists = λ key.
            get-apply_changes (SortedMap.range_from c.entries from) es key rs
            ∙ ground (arith, n, get-range_from c.entries from key s, l key);
      })

iter_over-Listed :
    (changes : Option ViewChanges) (es : List (Bytes × Bytes)) (below : Bytes → Option Bytes)
    (from : Bytes)
    → Sorted es
    → ((key : Bytes)
        → SortedMap.get es key ≡ (if is_lt (bytes_cmp key from) then none else below key))
    → ((c : ViewChanges) → changes ≡ some c → Sorted c.entries)
    → Listed changes (entries (iter_over changes es from)) below from
iter_over-Listed none es below from s l c =
    rw
      (entries-fork_iter (record { snapshot = es; changes = none })
        (record { snapshot = s; changes = tt }))
      (record { sorted = apply_changes-Sorted [] es s; lists = unfold apply_changes in l })
iter_over-Listed (some changes) es below from s l c = elim (Bool-cases changes.is_cleared) [
  | inl t ↦ simp t (Listed-cleared changes below from t (c changes refl))
  | inr n ↦ simp n (Listed-changes changes es below from n (c changes refl) s l)
]

contains_changes :
    (c : ViewChanges) (key : Bytes) (below : Option Bytes)
    → unwrap_or (Changes.contains c key) (is_some below)
      ≡ is_some (unwrap_or (Changes.get c key) below)
unfolding Changes.contains Changes.get
contains_changes c key below = ground arith

contains-get :
    (changes : Option ViewChanges) (key : Bytes) (below : Option Bytes)
    → unwrap_or (contains_in changes key) (is_some below)
      ≡ is_some (unwrap_or (get_in changes key) below)
contains-get none key below = refl
contains-get (some c) key below = contains_changes c key below

Listed-in :
    (p : Patch) (name : ResolvedAddress) (from : Bytes)
    → IsLawful p.snapshot
    → IsOrderly p
    → Listed
        (HashMap.get p.changes name)
        (entries (iter_over (HashMap.get p.changes name) (p.snapshot.iter name from) from))
        (p.snapshot.get name)
        from
Listed-in p name from l o =
    iter_over-Listed (HashMap.get p.changes name) (p.snapshot.iter name from) (p.snapshot.get name)
      from (l.sorted name from) (l.lists name from)
      (λ c e. All-get (λ c. Sorted c.entries) p.changes name c o e)

-- A patch over a lawful snapshot is a lawful snapshot, where the changes to each index are in the
-- order of their keys. Its iterator from a key on shows entries in increasing order of the keys, and
-- exactly those from that key on whose value `Patch::get` finds, with that value, whether the changes
-- replace, add or delete entries or clear the index; `Patch::contains` tells whether `Patch::get`
-- finds a value.
pub as_snapshot-IsLawful :
    (p : Patch) → IsLawful p.snapshot → IsOrderly p → IsLawful (as_snapshot p)
unfolding get contains iter
as_snapshot-IsLawful p l o = record {
  sorted = λ name from. (Listed-in p name from l o).sorted;
  lists = λ name from. (Listed-in p name from l o).lists;
  contains = λ name key.
      rw (l.contains name key)
        (contains-get (HashMap.get p.changes name) key (p.snapshot.get name key));
}
