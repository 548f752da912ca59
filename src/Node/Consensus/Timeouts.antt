-- ===== src/Node/Consensus/Timeouts.antt =====
-- exonum-node/src/consensus.rs: new rounds, and the timeouts of rounds, proposes and requests.
-- `again` handles a message that was queued.
pub mod Kept
use exonum.Prelude.{ℕ, Bool, true, false, not, ◌||◌, Option, none, some, [], leb, if◌then◌else◌}
use exonum.Prelude.Eq.{◌==◌, nat_eq}
use exonum.Prelude.Panic.{debug_assert}
use exonum.Node.Messages.{Hash, PublicKey, Verified, Propose, ConsensusMessage}
use exonum.Node.Chain.{Chain, ProposeTemplate}
use exonum.Node.State.{RequestData, is_validator, is_leader, validator_id, jump_round, new_round}
use exonum.Node.State.Proposes.{add_self_propose}
use exonum.Node.State.Requests
use exonum.Node.State.Voting
use exonum.Node.Handler.{
  M, Outgoing, RequestBody, pure, skip, lift, gets, modify, update, run, ◌>>=◌, ◌>>◌, is_enabled,
  save_message, set_expedited, sign_message, with_manager, for_each,
}
use exonum.Node.Handler.Sending.{broadcast, add_request_timeout, send_to_peer}
use exonum.Node.Handler.Timers.{add_round_timeout}
use exonum.Node.Consensus.Broadcast.{check_propose_and_broadcast_prevote, the_propose}
use exonum.Node.Consensus.Commit.{propose_if_leader, take_queued}
use exonum.Node.Consensus.Locking.{handle_majority_prevotes}

module _ {c : Chain} where
  -- `have_prevote(round)` of a timeout
  voted : ℕ → M c Bool
  voted round = do h ← gets (λ s. Voting.have_prevote s round); lift h

  -- `NodeHandler::get_propose_template`
  pub get_propose_template : M c ProposeTemplate
  get_propose_template = with_manager λ g n.
      c.propose_block g n.blockchain n.state.tx_cache
        (record { config = n.state.config; height = n.state.epoch; round = n.state.round })

  -- `Propose::new` or `Propose::skip`
  pub build_propose : ℕ → ℕ → ProposeTemplate → M c (Verified Propose)
  build_propose validator round template = do
    epoch ← gets (λ s. s.epoch)
    last_hash ← gets (λ s. s.last_hash)
    sign_message {T = Propose} (record {
      validator = validator;
      epoch = epoch;
      round = round;
      prev_hash = last_hash;
      transactions = elim template [ ProposeTemplate.ordinary hs ↦ hs | ProposeTemplate.skip ↦ [] ];
      skip = elim template [ ProposeTemplate.ordinary _ ↦ false | ProposeTemplate.skip ↦ true ];
    })

  -- the body of the request for some data; `none` is the early return for a block that is complete
  request_body : RequestData → M c (Option RequestBody)
  request_body (RequestData.propose hash) = do
    epoch ← gets (λ s. s.epoch)
    pure (some (RequestBody.propose epoch hash))
  request_body (RequestData.propose_transactions hash) = do
    p ← the_propose hash
    pure (some (RequestBody.transactions p.unknown_txs))
  request_body RequestData.pool_transactions = pure (some RequestBody.pool_transactions)
  request_body RequestData.block_transactions = gets λ s. elim s.incomplete_block [
    | none ↦ none
    | some block ↦ some (RequestBody.transactions block.unknown_txs)
  ]
  request_body (RequestData.prevotes round hash) = do
    epoch ← gets (λ s. s.epoch)
    known ← gets (λ s. Voting.known_prevotes s round hash)
    pure (some (RequestBody.prevotes epoch round hash known))
  request_body (RequestData.block height) = pure (some (RequestBody.block height))
  request_body (RequestData.block_or_epoch height epoch) =
      pure (some (RequestBody.block_with_epoch height epoch))

  send_request : PublicKey → Option RequestBody → M c (Unit {0})
  send_request peer none = skip
  send_request peer (some body) = do
    message ← sign_message body
    send_to_peer peer (Outgoing.request peer message)

  retry_with : RequestData → Option PublicKey → M c (Unit {0})
  retry_with data' none = skip
  retry_with data' (some peer) = do
    add_request_timeout data' (some peer)
    enabled ← is_enabled
    if not enabled then skip else (do body ← request_body data'; send_request peer body)

  -- `NodeHandler::handle_request_timeout`
  pub handle_request_timeout : RequestData → Option PublicKey → M c (Unit {0})
  handle_request_timeout data' peer = do
    next ← run (λ s. Requests.retry s data' peer)
    retry_with data' next

module _ {c : Chain} (again : ConsensusMessage → M c (Unit {0})) where
  -- a prevote for the propose, and what a majority leads to
  pub prevote_and_lock : ℕ → Hash → M c (Unit {0})
  prevote_and_lock round hash = do
    majority ← check_propose_and_broadcast_prevote round hash
    if majority then (handle_majority_prevotes again round hash >> skip) else skip

  unfoldable pub start_round : Option Hash → M c (Unit {0})
  start_round none = propose_if_leader
  start_round (some hash) = do round ← gets (λ s. s.round); prevote_and_lock round hash

  -- `NodeHandler::process_new_round`
  unfoldable pub process_new_round : M c (Unit {0})
  process_new_round = do
    validator ← gets is_validator
    locked ← gets (λ s. s.locked_propose)
    if validator then start_round locked else skip
    queued ← take_queued
    for_each queued again

  -- `NodeHandler::handle_new_round`
  unfoldable pub handle_new_round : ℕ → ℕ → M c (Unit {0})
  handle_new_round height round = do
    epoch ← gets (λ s. s.epoch)
    current ← gets (λ s. s.round)
    if not (height == epoch) || leb round current
        then skip
        else (do modify (λ s. jump_round s round); add_round_timeout; process_new_round)

  -- `NodeHandler::handle_round_timeout`
  pub handle_round_timeout : ℕ → ℕ → M c (Unit {0})
  handle_round_timeout epoch round = do
    epoch' ← gets (λ s. s.epoch)
    round' ← gets (λ s. s.round)
    if not (epoch == epoch') || not (round == round')
        then skip
        else (do update new_round; add_round_timeout; process_new_round)

  -- a propose of ours, and our prevote for it
  pub make_propose : ℕ → ℕ → M c (Unit {0})
  make_propose validator round = do
    leads ← gets is_leader
    leader ← (if c.debug then lift leads else pure true)
    lift (debug_assert c.debug leader)
    template ← get_propose_template
    propose ← build_propose validator round template
    broadcast (Outgoing.consensus (ConsensusMessage.propose propose))
    set_expedited true
    save_message round (ConsensusMessage.propose propose)
    hash ← run (λ s. some (add_self_propose s propose))
    prevote_and_lock round hash

  propose_as : ℕ → Option ℕ → M c (Unit {0})
  propose_as round none = skip
  propose_as round (some validator) = make_propose validator round

  -- the propose of a node that is not locked
  propose_unlocked : ℕ → Option Hash → M c (Unit {0})
  propose_unlocked round (some hash) = skip
  propose_unlocked round none = do
    done ← voted round
    if done then skip else (do id ← gets validator_id; propose_as round id)

  -- `NodeHandler::handle_propose_timeout`
  pub handle_propose_timeout : ℕ → ℕ → M c (Unit {0})
  handle_propose_timeout epoch round = do
    epoch' ← gets (λ s. s.epoch)
    round' ← gets (λ s. s.round)
    locked ← gets (λ s. s.locked_propose)
    if not (epoch == epoch') || not (round == round') then skip else propose_unlocked round locked
