-- ===== src/Node/Handler/Sending.antt =====
-- exonum-node/src/lib.rs: sending messages, and requests for data.
pub mod Kept
use exonum.Prelude.{ℕ, ◌+◌, Option, none, some, List, [], ◌∷◌, length, if◌then◌else◌}
use exonum.Prelude.HashMap.{HashMap}
use exonum.Node.Messages.{PublicKey, Verified, Status, Connect}
use exonum.Node.Chain.{Chain}
use exonum.Node.State.{State, RequestData}
use exonum.Node.State.Requests
use exonum.Node.State.Peers.{is_peer_allowed}
use exonum.Node.Handler.{
  M, NodeTimeout, Outgoing, Effect, pure, skip, gets, run, ◌>>=◌, for_each, ledger, emit,
  current_time, sign_message,
}

-- the keys of a map, in the order of iteration
pub keys : HashMap PublicKey (Verified Connect) → List PublicKey
keys [] = []
keys ((k, v) ∷ m) = k ∷ keys m

module _ {c : Chain} where
  -- `NodeHandler::send_to_peer`
  pub send_to_peer : PublicKey → Outgoing c → M c (Unit {0})
  send_to_peer key message = emit (Effect.send key message)

  -- the peers that may connect
  allowed : State c → List PublicKey → List PublicKey
  allowed s [] = []
  allowed s (k ∷ ks) = let rest = allowed s ks in if is_peer_allowed s k then k ∷ rest else rest

  -- `NodeHandler::broadcast`
  pub broadcast : Outgoing c → M c (Unit {0})
  broadcast message = do
    peers ← gets (λ s. allowed s (keys s.peers))
    for_each peers (λ key. send_to_peer key message)

  -- `NodeHandler::add_timeout`
  unfoldable pub add_timeout : NodeTimeout → ℕ → M c (Unit {0})
  add_timeout timeout time = emit (Effect.timeout timeout time)

  -- `NodeHandler::add_request_timeout`; `RequestData::timeout` is 100 ms for each kind of data
  pub add_request_timeout : RequestData → Option PublicKey → M c (Unit {0})
  add_request_timeout data' peer = do
    now ← current_time
    add_timeout (NodeTimeout.request data' peer) (now + 100)

  -- `NodeHandler::request`
  pub request : RequestData → PublicKey → M c (Unit {0})
  request data' peer = do
    is_new ← run (λ s. some (Requests.request s data' peer))
    if is_new then add_request_timeout data' none else skip

  -- `NodeHandler::remove_request`
  pub remove_request : RequestData → M c (List PublicKey)
  remove_request data' = run (λ s. some (Requests.remove_request s data'))

  -- `NodeHandler::uncommitted_txs_count`
  pub uncommitted_txs_count : M c ℕ
  uncommitted_txs_count = do
    l ← ledger
    cached ← gets (λ s. length s.tx_cache)
    pure (c.pool_len l + cached)

  -- `NodeHandler::broadcast_status` (exonum-node/src/basic.rs)
  pub broadcast_status : M c (Unit {0})
  broadcast_status = do
    epoch ← gets (λ s. s.epoch)
    height ← gets (λ s. s.blockchain_height)
    l ← ledger
    pool_size ← uncommitted_txs_count
    message ← sign_message {T = Status} (record {
      epoch = epoch;
      blockchain_height = height;
      last_hash = c.last_block_hash l;
      pool_size = pool_size;
    })
    broadcast (Outgoing.status message)
