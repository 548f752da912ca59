-- ===== src/Node/Basic.antt =====
-- exonum-node/src/basic.rs: the status of peers, which tells a node that it is behind.
pub mod Kept
use exonum.Prelude.{ℕ, ◌&&◌, not, ltb, if◌then◌else◌}
use exonum.Prelude.Eq.{◌==◌, nat_eq}
use exonum.Node.Messages.{Verified, Status}
use exonum.Node.Chain.{Chain}
use exonum.Node.State.{State, RequestData}
use exonum.Node.State.Peers.{is_peer_allowed, new_peer_state, update_peer_state}
use exonum.Node.Handler.{M, skip, gets, modify, ◌>>=◌, ◌>>◌}
use exonum.Node.Handler.Sending.{request, uncommitted_txs_count, broadcast_status}
use exonum.Node.Handler.Timers.{add_status_timeout}

module _ {c : Chain} where
  -- the requests of `handle_status`, for the node's own epoch and height
  request_missing : Verified Status → ℕ → ℕ → M c (Unit {0})
  request_missing msg epoch block_height = do
    if ltb block_height msg.payload.blockchain_height
        then request (RequestData.block block_height) msg.author
        else (if ltb epoch msg.payload.epoch
            then request (RequestData.block_or_epoch block_height epoch) msg.author
            else skip)
    txs ← uncommitted_txs_count
    if (txs == 0) && ltb 0 msg.payload.pool_size
        then request RequestData.pool_transactions msg.author
        else skip

  -- `NodeHandler::handle_status`
  pub handle_status : Verified Status → M c (Unit {0})
  handle_status msg = do
    epoch ← gets (λ s. s.epoch)
    block_height ← gets (λ s. s.blockchain_height)
    allowed ← gets (λ s. is_peer_allowed s msg.author)
    if not allowed then skip else (do
      modify (λ s. update_peer_state s msg.author (new_peer_state msg.payload))
      request_missing msg epoch block_height)

  -- `NodeHandler::handle_status_timeout`
  pub handle_status_timeout : ℕ → M c (Unit {0})
  handle_status_timeout epoch = do
    current ← gets (λ s. s.epoch)
    if current == epoch then (broadcast_status >> add_status_timeout) else skip
