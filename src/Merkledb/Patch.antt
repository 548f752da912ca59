-- ===== src/Merkledb/Patch.antt =====
-- components/merkledb/src/db.rs: `Snapshot` and `Patch`; components/merkledb/src/views/address.rs:
-- `ResolvedAddress`. A snapshot's iterator is the list of the entries that it shows.
pub mod Lawful
use exonum.Prelude.{
  ℕ, ◌≡◌, ◌↔◌, Bool, true, false, ◌&&◌, Option, none, some, List, [], ◌∷◌, if◌then◌else◌, arith,
}
use exonum.Prelude.Eq.{Eq, ◌==◌, list_eq, option_eq, nat_eq, list_beq_iff, option_beq_iff}
use exonum.Prelude.Order.{bytes_order}
use exonum.Prelude.SortedMap
use exonum.Prelude.HashMap.{HashMap}
use exonum.Prelude.HashMap
use exonum.Merkledb.Changes.{Bytes, Text, ViewChanges, Change}
use exonum.Merkledb.Changes
use exonum.Merkledb.Iter.{ForkIter, IterOf, changes_iter, fork_iter, entries}

-- `struct ResolvedAddress`
pub record ResolvedAddress : Type 0 where
  pub name : Text
  pub id : Option ℕ

abbrev pub address_beq : ResolvedAddress → ResolvedAddress → Bool
address_beq a b = (a.name == b.name) && (a.id == b.id)

pub address_beq_iff : (a b : ResolvedAddress) → (address_beq a b ≡ true) ↔ (a ≡ b)
address_beq_iff a b = ground (arith, list_beq_iff a.name b.name, option_beq_iff a.id b.id)

instance abbrev pub address_eq : Eq ResolvedAddress
address_eq = record { beq = address_beq; beq_iff = address_beq_iff }

-- `trait Snapshot`
pub record Snapshot : Type 0 where
  pub get : ResolvedAddress → Bytes → Option Bytes
  pub contains : ResolvedAddress → Bytes → Bool
  pub iter : ResolvedAddress → Bytes → List (Bytes × Bytes)

-- `struct Patch`
pub record Patch : Type 0 where
  pub snapshot : Snapshot
  pub changes : HashMap ResolvedAddress ViewChanges
  pub changed_aggregated_addrs : HashMap ResolvedAddress Text
  pub removed_aggregated_addrs : List Text

-- `unwrap_or_else`, where `none` is the error
abbrev pub unwrap_or {ℓ} : {A : Type ℓ} → Option A → A → A
unwrap_or none a = a
unwrap_or (some x) a = x

-- `map_or(Err(()), |changes| changes.get(key))`
abbrev pub get_in : Option ViewChanges → Bytes → Option (Option Bytes)
get_in none key = none
get_in (some changes) key = Changes.get changes key

abbrev pub contains_in : Option ViewChanges → Bytes → Option Bool
contains_in none key = none
contains_in (some changes) key = Changes.contains changes key

-- `Patch::get`
unfoldable pub get : Patch → ResolvedAddress → Bytes → Option Bytes
get p name key = unwrap_or (get_in (HashMap.get p.changes name) key) (p.snapshot.get name key)

-- `Patch::contains`
unfoldable pub contains : Patch → ResolvedAddress → Bytes → Bool
contains p name key =
    unwrap_or (contains_in (HashMap.get p.changes name) key) (p.snapshot.contains name key)

abbrev pub iter_over : Option ViewChanges → List (Bytes × Bytes) → Bytes → IterOf
iter_over none entries from = fork_iter (record { snapshot = entries; changes = none })
iter_over (some c) entries from =
    let range = SortedMap.range_from c.entries from in
    if c.is_cleared
    then changes_iter range
    else fork_iter (record { snapshot = entries; changes = some range })

-- `Patch::iter`
unfoldable pub iter : Patch → ResolvedAddress → Bytes → IterOf
iter p name from = iter_over (HashMap.get p.changes name) (p.snapshot.iter name from) from

-- `impl Snapshot for Patch`
abbrev pub as_snapshot : Patch → Snapshot
as_snapshot p = record {
  get = get p;
  contains = contains p;
  iter = λ name from. entries (iter p name from);
}
