-- ===== src/Node/Consensus/Commit.antt =====
-- exonum-node/src/consensus.rs: `NodeHandler::commit`. At its end it handles the queued messages,
-- and `again` is the handler that it calls on each.
pub mod Kept
pub mod Finishing
use exonum.Prelude.{some, List, [], if◌then◌else◌}
use exonum.Prelude.BTreeMap
use exonum.Helpers.Height
use exonum.Node.Messages.{Hash, Verified, Precommit, ConsensusMessage}
use exonum.Node.Chain.{Chain, BlockKind}
use exonum.Node.State.{State, update_config, new_height, new_epoch, is_leader, BlockState}
use exonum.Node.State.Blocks.{take_block_for_commit}
use exonum.Node.Handler.{
  M, Effect, skip, lift, gets, modify, update, run, ◌>>=◌, ◌>>◌, ledger, set_ledger, emit,
  current_time, clear_messages, with_manager, for_each,
}
use exonum.Node.Handler.Sending.{broadcast_status}
use exonum.Node.Handler.Timers.{add_status_timeout, add_round_timeout, add_propose_timeout}

module _ {c : Chain} where
  -- `tx_cache_mut().remove(hash)`
  pub uncache : Hash → State c → State c
  uncache hash s = record s { tx_cache = BTreeMap.remove s.tx_cache hash }

  -- the node's new height or epoch after its block is in the blockchain
  pub advance : Hash → BlockState c.Patch → BlockKind → M c (Unit {0})
  advance block_hash block BlockKind.normal = do
    l ← ledger
    modify (λ s. update_config s (c.consensus_config l))
    next ← lift (Height.next c.debug block.epoch)
    now ← current_time
    update (λ s. new_height s block_hash next now)
    emit (Effect.after_commit l)
  advance block_hash block BlockKind.skip = do
    next ← lift (Height.next c.debug block.epoch)
    now ← current_time
    update (λ s. new_epoch s next now)

  reject : Hash → M c (Unit {0})
  reject hash = do modify (uncache hash); l ← ledger; set_ledger (c.reject_transaction l hash)

  -- the transactions that the pool manager removes
  pub clean_pool : M c (Unit {0})
  clean_pool = do
    hashes ← with_manager (λ g n. c.remove_transactions g n.blockchain n.state.tx_cache)
    for_each hashes reject

  -- `add_propose_timeout` for the leader of the round
  unfoldable pub propose_if_leader : M c (Unit {0})
  propose_if_leader = do
    l ← gets is_leader
    leader ← lift l
    if leader then add_propose_timeout else skip

  -- `State::queued`
  unfoldable pub take_queued : M c (List ConsensusMessage)
  take_queued = run (λ s. some (s.queued, record s { queued = [] }))

  -- `commit` up to the queued messages
  pub commit_block : Hash → List (Verified Precommit) → M c (Unit {0})
  commit_block block_hash precommits = do
    block ← run (λ s. take_block_for_commit s block_hash)
    for_each block.txs (λ tx. modify (uncache tx))
    clear_messages
    patch ← lift block.patch
    l ← ledger
    l' ← lift (c.commit l patch precommits)
    set_ledger l'
    advance block_hash block block.kind
    clean_pool
    broadcast_status
    add_status_timeout
    add_round_timeout
    propose_if_leader

  -- `NodeHandler::commit`
  pub commit :
      (ConsensusMessage → M c (Unit {0})) → Hash → List (Verified Precommit) → M c (Unit {0})
  commit again block_hash precommits = do
    commit_block block_hash precommits
    queued ← take_queued
    for_each queued again
