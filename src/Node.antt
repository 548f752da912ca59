-- ===== src/Node.antt =====
-- exonum-node/src: the node, which runs the consensus algorithm.
pub mod Messages
pub mod Votes
pub mod Chain
pub mod State
pub mod Handler
pub mod Consensus
pub mod Basic
pub mod Events
pub mod Tests
