-- ===== src/Helpers.antt =====
-- exonum/src/helpers: heights, rounds and validator ids, their machine arithmetic, and the quorum.
-- `Height(u64)`, `Round(u32)` and `ValidatorId(u16)` are native numbers.
pub mod Word
pub mod Height
pub mod Round
pub mod Bits
pub mod Quorum
pub mod Descending
