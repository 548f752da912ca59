-- ===== src/Merkledb.antt =====
-- components/merkledb/src: the database under the blockchain. A fork collects changes to a snapshot in
-- two layers, and a patch is merged into the database.
pub mod Changes
pub mod Patch
pub mod Fork
pub mod Views
pub mod Backup
pub mod Temporary
pub mod Keys
pub mod ProofListKey
pub mod ListIndex
mod Tests
pub mod Iter
