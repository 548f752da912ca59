-- ===== src/Node/Consensus.antt =====
-- exonum-node/src/consensus.rs: the consensus algorithm, as handlers of messages and timeouts.
pub mod Broadcast
pub mod Commit
pub mod Locking
pub mod Handlers
pub mod Blocks
pub mod Timeouts
pub mod Transactions
