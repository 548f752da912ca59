-- ===== src/Node/Events.antt =====
-- exonum-node/src/events_impl.rs: the events of a node, each handled to its end before the next.
-- Requests of peers for stored data, the exchange of addresses and the API state are left out: they
-- do not change the state of the consensus.
pub mod Kept
pub mod Finishing
use exonum.Prelude.{ℕ, ◌+◌, ◌≡◌, Bool, Option, List, [], ◌∷◌, if◌then◌else◌, is_empty}
use exonum.Prelude.Eq.{◌==◌}
use exonum.Prelude.BTreeMap.{BTreeMap}
use exonum.Node.Messages.{Hash, PublicKey, Verified, Status, BlockResponse, ConsensusMessage}
use exonum.Node.Chain.{Chain}
use exonum.Node.State.{State, RequestData, FlushPoolStrategy}
use exonum.Node.Handler.Sending.{add_timeout}
use exonum.Node.Handler.{
  current_time, NodeTimeout, Node, Outcome, M, skip, modify, gets, set_ledger, ledger, ◌>>=◌, ◌>>◌,
}
use exonum.Node.Basic.{handle_status, handle_status_timeout}
use exonum.Node.Consensus.Handlers.{handle_consensus}
use exonum.Node.Consensus.Blocks.{handle_block, request_next_block}
use exonum.Node.Consensus.Timeouts.{
  handle_request_timeout, handle_new_round, handle_round_timeout, handle_propose_timeout,
}
use exonum.Node.Consensus.Transactions.{
  TransactionsResponse, handle_txs_batch, handle_tx, handle_incoming_tx,
}

-- the events: verified messages, transactions of the node's API, timeouts, and scheduled jumps
pub data Event (c : Chain) : Type 0 where
  consensus : ConsensusMessage → Event c
  status : Verified Status → Event c
  any_tx : c.Tx → Event c
  block_response : Verified (BlockResponse c.Block) → Event c
  transactions_response : Verified TransactionsResponse → Event c
  transaction : c.Tx → Event c
  jump_to_round : ℕ → ℕ → Event c
  round_timeout : ℕ → ℕ → Event c
  request_timeout : RequestData → Option PublicKey → Event c
  status_timeout : ℕ → Event c
  propose_timeout : ℕ → ℕ → Event c
  flush_pool_timeout : Event c

-- the loop of `flush_txs_into_pool`
add_all : (c : Chain) → c.Ledger → BTreeMap c.Tx → c.Ledger
add_all c l [] = l
add_all c l ((hash, tx) ∷ txs) = add_all c (c.add_transaction_into_pool l tx) txs

module _ {c : Chain} where
  -- `mem::take(tx_cache_mut())`
  empty_cache : State c → State c
  empty_cache s = record s { tx_cache = [] }

  -- `NodeHandler::flush_txs_into_pool`
  pub flush_txs_into_pool : M c (Unit {0})
  flush_txs_into_pool = do
    txs ← gets (λ s. s.tx_cache)
    if is_empty txs then skip else (do l ← ledger; modify empty_cache; set_ledger (add_all c l txs))

  flush_after : FlushPoolStrategy → M c (Unit {0})
  flush_after FlushPoolStrategy.never = skip
  flush_after FlushPoolStrategy.immediate = skip
  flush_after (FlushPoolStrategy.timeout timeout) = do
    now ← current_time
    add_timeout NodeTimeout.flush_pool (now + timeout)

  -- `NodeHandler::maybe_add_flush_pool_timeout`
  pub maybe_add_flush_pool_timeout : M c (Unit {0})
  maybe_add_flush_pool_timeout = do
    strategy ← gets (λ s. s.flush_pool_strategy)
    flush_after strategy

  -- `NodeHandler::handle_event`, with the fuel of `handle_consensus`
  unfoldable pub handle_event : ℕ → Event c → M c (Unit {0})
  handle_event fuel (Event.consensus msg) = handle_consensus fuel msg
  handle_event fuel (Event.status msg) = handle_status msg
  handle_event fuel (Event.any_tx tx) = handle_tx (handle_consensus fuel) tx >> skip
  handle_event fuel (Event.block_response msg) = handle_block (handle_consensus fuel) msg
  handle_event fuel (Event.transactions_response msg) = handle_txs_batch msg >> skip
  handle_event fuel (Event.transaction tx) = handle_incoming_tx (handle_consensus fuel) tx
  handle_event fuel (Event.jump_to_round epoch round) =
      handle_new_round (handle_consensus fuel) epoch round
  handle_event fuel (Event.round_timeout epoch round) =
      handle_round_timeout (handle_consensus fuel) epoch round
  handle_event fuel (Event.request_timeout data' peer) = handle_request_timeout data' peer
  handle_event fuel (Event.status_timeout epoch) = handle_status_timeout epoch
  handle_event fuel (Event.propose_timeout epoch round) =
      handle_propose_timeout (handle_consensus fuel) epoch round
  handle_event fuel Event.flush_pool_timeout = flush_txs_into_pool >> maybe_add_flush_pool_timeout

-- A node comes from one state to another by handling events to their ends.
pub data Reaches {c : Chain} : Node c → Node c → Type 0 where
  start : (n : Node c) → Reaches n n
  handled :
      {n m : Node c} (k : Node c) (fuel : ℕ) (e : Event c)
      → Reaches n m
      → handle_event fuel e m ≡ Outcome.done tt k
      → Reaches n k
