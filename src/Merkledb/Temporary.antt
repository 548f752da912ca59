-- ===== src/Merkledb/Temporary.antt =====
-- components/merkledb/src/backends/temporarydb.rs: `TemporaryDB`, the database in memory, with
-- `next_id_bytes` of backends/rocksdb.rs and the keys of views/address.rs.
pub mod Merging
pub mod Sound
pub mod Lawful
pub mod Restoring
use exonum.Prelude.{
  ℕ, zero, suc, ◌+◌, ◌/◌, ◌%◌, Bool, true, false, Option, none, some, List, [], ◌∷◌, ◌++◌,
  if◌then◌else◌,
}
use exonum.Prelude.Eq.{◌==◌, nat_eq, list_eq}
use exonum.Prelude.Order.{bytes_order}
use exonum.Prelude.SortedMap.{SortedMap}
use exonum.Prelude.SortedMap
use exonum.Prelude.HashMap.{HashMap}
use exonum.Prelude.HashMap
use exonum.Merkledb.Changes.{Bytes, Text, Change, ViewChanges, apply_change}
use exonum.Merkledb.Patch.{ResolvedAddress, address_eq, Snapshot, Patch}
use exonum.Merkledb.Patch.Lawful.{is_some}
use exonum.Merkledb.Backup.{Database}

-- `type MemoryDB`
abbrev pub MemoryDb : Type 0
MemoryDb = HashMap ResolvedAddress (SortedMap Bytes Bytes)

-- `to_le_bytes`, for a number of bytes
unfoldable pub to_le_bytes : ℕ → ℕ → Bytes
to_le_bytes zero n = []
to_le_bytes (suc size) n = n % 256 ∷ to_le_bytes size (n / 256)

-- `ResolvedAddress::id_to_bytes`
unfoldable pub id_to_bytes : ResolvedAddress → Option Bytes
id_to_bytes a = elim a.id [ none ↦ none | some id ↦ some (to_le_bytes 8 id) ]

abbrev pub with_prefix : Option Bytes → Bytes → Bytes
with_prefix none key = key
with_prefix (some prefix) key = prefix ++ key

-- `ResolvedAddress::keyed`
unfoldable pub keyed : ResolvedAddress → Bytes → Bytes
keyed a key = with_prefix (id_to_bytes a) key

-- one byte of the loop, with the carry from the bytes after it
abbrev pub increment : ℕ → Bytes × Bool → Bytes × Bool
increment byte (bytes, true) =
    if byte == 255 then (0 ∷ bytes, true) else ((byte + 1) ∷ bytes, false)
increment byte (bytes, false) = (byte ∷ bytes, false)

unfoldable pub incremented : Bytes → Bytes × Bool
incremented [] = ([], true)
incremented (byte ∷ bytes) = increment byte (incremented bytes)

-- `next_id_bytes`
abbrev pub next_id_bytes : Bytes → Bytes
next_id_bytes bytes = (incremented bytes).0

-- a collection without the keys of an identifier: `split_off` twice and `append`
abbrev pub clear_collection : Option Bytes → SortedMap Bytes Bytes → SortedMap Bytes Bytes
clear_collection none collection = []
clear_collection (some id_bytes) collection =
    let middle_and_tail = SortedMap.range_from collection id_bytes in
    let tail = SortedMap.range_from middle_and_tail (next_id_bytes id_bytes) in
    SortedMap.extend (SortedMap.range_to collection id_bytes) tail

-- the loop over the changes, each key after the identifier
unfoldable pub write_changes :
    ResolvedAddress → SortedMap Bytes Change → SortedMap Bytes Bytes → SortedMap Bytes Bytes
write_changes a [] collection = collection
write_changes a ((key, change) ∷ changes) collection =
    write_changes a changes (apply_change collection (keyed a key) change)

-- the collection of an address, and an empty one where it has none
abbrev pub collection_of : MemoryDb → ResolvedAddress → SortedMap Bytes Bytes
collection_of db a = elim (HashMap.get db a) [ none ↦ [] | some collection ↦ collection ]

abbrev pub merge_collection :
    ResolvedAddress → ViewChanges → SortedMap Bytes Bytes → SortedMap Bytes Bytes
merge_collection a changes collection =
    write_changes a changes.entries
      (if changes.is_cleared then clear_collection (id_to_bytes a) collection else collection)

-- the loop of `TemporaryDB::merge`
unfoldable pub merge_all : HashMap ResolvedAddress ViewChanges → MemoryDb → MemoryDb
merge_all [] db = db
merge_all ((a, changes) ∷ rest) db =
    merge_all rest (HashMap.insert db a (merge_collection a changes (collection_of db a)))

-- `TemporarySnapshot::get`
unfoldable pub get : MemoryDb → ResolvedAddress → Bytes → Option Bytes
get db name key = elim (HashMap.get db name) [
  | none ↦ none
  | some collection ↦ SortedMap.get collection (keyed name key)
]

-- `ResolvedAddress::system("default")`
abbrev pub default_address : ResolvedAddress
default_address = record { name = 100 ∷ 101 ∷ 102 ∷ 97 ∷ 117 ∷ 108 ∷ 116 ∷ []; id = none }

-- a key after a prefix; a shorter key, where the code panics, is in no collection of an identifier
unfoldable pub strip : Bytes → Bytes → Option Bytes
strip [] key = some key
strip (p ∷ prefix) [] = none
strip (p ∷ prefix) (k ∷ key) = let rest = strip prefix key in if p == k then rest else none

-- `TemporaryDBIterator::next`, until the first key with another prefix
unfoldable pub strip_all : Bytes → List (Bytes × Bytes) → List (Bytes × Bytes)
unfolding strip
strip_all prefix [] = []
strip_all prefix ((key, value) ∷ es) =
    let rest = strip_all prefix es in
    elim (strip prefix key) [ none ↦ [] | some k ↦ (k, value) ∷ rest ]

abbrev pub shown : Option Bytes → List (Bytes × Bytes) → List (Bytes × Bytes)
shown none es = es
shown (some prefix) es = strip_all prefix es

abbrev pub collection_or_default : MemoryDb → ResolvedAddress → SortedMap Bytes Bytes
collection_or_default db a = elim (HashMap.get db a) [
  | none ↦ collection_of db default_address
  | some collection ↦ collection
]

-- `TemporarySnapshot::iter`; the database has the default collection from `TemporaryDB::new` on
unfoldable pub iter : MemoryDb → ResolvedAddress → Bytes → List (Bytes × Bytes)
iter db name from =
    shown (id_to_bytes name)
      (SortedMap.range_from (collection_or_default db name) (keyed name from))

-- `TemporaryDB`
abbrev pub temporary_db : Database
temporary_db = record {
  State = MemoryDb;
  snapshot = λ db. record {
    get = get db;
    contains = λ name key. is_some (get db name key);
    iter = iter db;
  };
  merge = λ db patch. some (merge_all patch.changes db);
}
