-- ===== src/Node/Consensus/Transactions.antt =====
-- exonum-node/src/consensus.rs: transactions from peers and from the node's own API. `again`
-- handles a message that was queued.
pub mod Kept
use exonum.Prelude.{
  ℕ, Bool, true, false, not, ◌&&◌, Option, none, some, List, [], ◌∷◌, if◌then◌else◌,
}
use exonum.Prelude.Eq.{◌==◌, nat_eq}
use exonum.Prelude.Eq
use exonum.Prelude.BTreeMap
use exonum.Node.Messages.{Hash, PublicKey, Verified, ConsensusMessage}
use exonum.Node.Chain.{Chain}
use exonum.Node.State.{State, RequestData, FlushPoolStrategy, is_leader}
use exonum.Node.State.Peers.{is_peer_allowed}
use exonum.Node.State.Proposes.{check_incomplete_proposes}
use exonum.Node.State.Blocks.{RoundAction, new_epoch, no_action, remove_unknown_transaction}
use exonum.Node.Handler.{
  M, Effect, Outgoing, pure, skip, lift, gets, modify, run, ◌>>=◌, ◌>>◌, ledger, set_ledger, emit,
  for_each,
}
use exonum.Node.Handler.Sending.{broadcast, remove_request}
use exonum.Node.Handler.Timers.{maybe_add_propose_timeout}
use exonum.Node.Consensus.Locking.{handle_full_propose}
use exonum.Node.Consensus.Blocks.{handle_full_block}

-- `Result<(), HandleTxError>`
pub data TxOutcome (E : Type 0) : Type 0 where
  accepted : TxOutcome E
  already_processed : TxOutcome E
  invalid : E → TxOutcome E

-- `struct TransactionsResponse`
pub record TransactionsResponse : Type 0 where
  pub to : PublicKey
  pub transactions : List (List ℕ)

-- `action == RoundAction::NewEpoch`
abbrev is_new_epoch : RoundAction → Bool
is_new_epoch new_epoch = true
is_new_epoch no_action = false

module _ {c : Chain} where
  -- `State::persist_txs_immediately`
  abbrev pub persist_txs_immediately : State c → Bool
  persist_txs_immediately s = elim s.flush_pool_strategy [
    | FlushPoolStrategy.immediate ↦ true
    | FlushPoolStrategy.never ↦ false
    | FlushPoolStrategy.timeout _ ↦ false
  ]

  check : c.Ledger → c.Tx → State c → Option c.ExecutionError × State c
  check l tx s =
      let r = c.check_tx l tx s.tx_check_cache in (r.0, record s { tx_check_cache = r.1 })

  store_tx : c.Tx → M c (Unit {0})
  store_tx tx = do
    immediate ← gets persist_txs_immediately
    l ← ledger
    if immediate
        then set_ledger (c.add_transaction_into_pool l tx)
        else modify (λ s. record s { tx_cache = BTreeMap.insert s.tx_cache (c.tx_hash tx) tx })

  admit_tx : c.Tx → Option c.ExecutionError → M c (TxOutcome c.ExecutionError)
  admit_tx tx none = do store_tx tx; pure TxOutcome.accepted
  admit_tx tx (some e) = do
    modify (λ s. record s { invalid_txs = Eq.insert s.invalid_txs (c.tx_hash tx) })
    pure (TxOutcome.invalid e)

  -- `is_leader() && round() != Round::zero()`, and the propose timeout
  expedite : M c (Unit {0})
  expedite = do
    l ← gets is_leader
    leader ← lift l
    round ← gets (λ s. s.round)
    if leader && not (round == 0) then maybe_add_propose_timeout else skip

  -- the check of the transaction, and where it is stored
  pub check_and_store : c.Tx → M c (TxOutcome c.ExecutionError)
  check_and_store tx = do l ← ledger; error ← run (λ s. some (check l tx s)); admit_tx tx error

  -- `NodeHandler::handle_txs_batch`: whether there is no error
  pub handle_txs_batch : Verified TransactionsResponse → M c Bool
  handle_txs_batch msg = do
    mine ← gets (λ s. (msg.payload.to == s.consensus_pk) && is_peer_allowed s msg.author)
    if mine
        then (do
          for_each msg.payload.transactions (λ tx. emit (Effect.verify_message tx))
          pure true)
        else pure false

  relay : c.Tx → TxOutcome c.ExecutionError → M c (Unit {0})
  relay tx TxOutcome.accepted = broadcast (Outgoing.any_tx tx)
  relay tx TxOutcome.already_processed = skip
  relay tx (TxOutcome.invalid e) = skip

module _ {c : Chain} (again : ConsensusMessage → M c (Unit {0})) where
  -- the loop over the full proposes: after a new epoch only requests are removed
  full_each : List (Hash × ℕ) → Bool → M c (Unit {0})
  full_each [] bumped = skip
  full_each ((hash, round) ∷ ps) bumped = do
    remove_request (RequestData.propose_transactions hash)
    if bumped
        then full_each ps true
        else (do action ← handle_full_propose again hash round; full_each ps (is_new_epoch action))

  complete_block : RoundAction → M c (Unit {0})
  complete_block no_action = skip
  complete_block new_epoch = do
    remove_request RequestData.block_transactions
    handle_full_block again

  -- `handle_tx` after the checks
  process_tx : c.Tx → M c (TxOutcome c.ExecutionError)
  process_tx tx = do
    outcome ← check_and_store tx
    expedite
    proposes ← run (λ s. some (check_incomplete_proposes s (c.tx_hash tx)))
    full_each proposes false
    action ← run (λ s. remove_unknown_transaction s (c.tx_hash tx))
    complete_block action
    pure outcome

  -- `NodeHandler::handle_tx`
  pub handle_tx : c.Tx → M c (TxOutcome c.ExecutionError)
  handle_tx tx = do
    cached ← gets (λ s. BTreeMap.contains_key s.tx_cache (c.tx_hash tx))
    l ← ledger
    if cached
        then pure TxOutcome.already_processed
        else (if c.has_transaction l (c.tx_hash tx)
            then pure TxOutcome.already_processed
            else process_tx tx)

  -- `NodeHandler::handle_incoming_tx`
  pub handle_incoming_tx : c.Tx → M c (Unit {0})
  handle_incoming_tx tx = do outcome ← handle_tx tx; relay tx outcome
