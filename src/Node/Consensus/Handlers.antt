-- ===== src/Node/Consensus/Handlers.antt =====
-- exonum-node/src/consensus.rs: the handlers of consensus messages. A commit handles the messages
-- that were queued, so that `handle_consensus` calls itself: here on fuel.
pub mod Kept
pub mod Finishing
use exonum.Prelude.{
  ℕ, zero, suc, Bool, not, ◌&&◌, ◌||◌, Option, none, some, [], ◌∷◌, ◌++◌, ltb, is_empty,
  if◌then◌else◌,
}
use exonum.Prelude.Eq.{◌==◌, nat_eq, option_eq}
use exonum.Prelude.Panic.{debug_assert}
use exonum.Helpers.Height
use exonum.Node.Messages.{
  Hash, PublicKey, Verified, Propose, Prevote, Precommit, ConsensusMessage, propose, prevote,
  precommit, validator, epoch, round,
}
use exonum.Node.Chain.{Chain}
use exonum.Node.State.{State, ProposeState, RequestData, leader, consensus_public_key_of}
use exonum.Node.State.Rounds.{update_validator_round}
use exonum.Node.State.Proposes.{AddPropose, has_unknown_txs, add_propose}
use exonum.Node.State.Voting
use exonum.Node.Handler.{
  M, Effect, skip, spent, lift, gets, modify, run, ◌>>=◌, ◌>>◌, ledger, emit, is_enabled, for_each,
}
use exonum.Node.Handler.Sending.{request, remove_request}
use exonum.Node.Consensus.Broadcast
use exonum.Node.Consensus.Broadcast.{request_propose_or_txs}
use exonum.Node.Consensus.Locking.{
  handle_full_propose, handle_majority_prevotes, handle_majority_precommits,
}

module _ {c : Chain} where
  -- `debug_assert_eq!(Some(from), state.consensus_public_key_of(validator))`
  assert_author : PublicKey → ℕ → M c (Unit {0})
  assert_author from validator = do
    key ← gets (λ s. consensus_public_key_of s validator)
    lift (debug_assert c.debug (some from == key))

  added : State c → AddPropose (State c) → Option Bool × State c
  added s (AddPropose.added p s') = (some (has_unknown_txs p), s')
  added s AddPropose.already_found = (none, s)
  added s AddPropose.already_committed = (none, s)

  -- `add_propose`: whether the propose has unknown transactions; `none` is one of its errors
  pub try_add_propose : Verified Propose → M c (Option Bool)
  try_add_propose msg = do l ← ledger; run (λ s. some (added s (add_propose s l msg)))

  -- `add_queued`
  pub add_queued : ConsensusMessage → M c (Unit {0})
  add_queued msg = modify (λ s. record s { queued = s.queued ++ msg ∷ [] })

  schedule_jump : Option ℕ → M c (Unit {0})
  schedule_jump none = skip
  schedule_jump (some r) = do epoch ← gets (λ s. s.epoch); emit (Effect.jump_to_round epoch r)

  -- the branch of `handle_consensus` for a message of the next epoch or a later round
  pub queue_message : ConsensusMessage → M c (Unit {0})
  queue_message msg = do
    add_queued msg
    jump ← run (λ s. update_validator_round s (validator msg) (round msg))
    schedule_jump jump

  request_unknown : Option ProposeState → Hash → PublicKey → M c (Unit {0})
  request_unknown none hash from = request (RequestData.propose hash) from
  request_unknown (some p) hash from = skip

module _ {c : Chain} (again : ConsensusMessage → M c (Unit {0})) where
  full_or_request : PublicKey → Verified Propose → Option Bool → M c (Unit {0})
  full_or_request from msg none = skip
  full_or_request from msg (some unknown) = do
    let hash = c.propose_hash msg
    known_nodes ← remove_request (RequestData.propose hash)
    if unknown
        then (do
          request (RequestData.propose_transactions hash) from
          for_each known_nodes (λ node. request (RequestData.propose_transactions hash) node))
        else (handle_full_propose again hash msg.payload.round >> skip)

  -- `NodeHandler::handle_propose`
  pub handle_propose : PublicKey → Verified Propose → M c (Unit {0})
  handle_propose from msg = do
    assert_author from msg.payload.validator
    if msg.payload.skip && not (is_empty msg.payload.transactions) then skip else (do
      last_hash ← gets (λ s. s.last_hash)
      if msg.payload.prev_hash == last_hash
          then (do
            l ← gets (λ s. leader s msg.payload.round)
            expected ← lift l
            if msg.payload.validator == expected
                then (do unknown ← try_add_propose msg; full_or_request from msg unknown)
                else skip)
          else skip)

  -- `NodeHandler::handle_prevote`
  pub handle_prevote : PublicKey → Verified Prevote → M c (Unit {0})
  handle_prevote from msg = do
    assert_author from msg.payload.validator
    has_consensus ← run (λ s. Voting.add_prevote s msg)
    has_propose ← request_propose_or_txs msg.payload.propose_hash from
    locked_round ← gets (λ s. s.locked_round)
    if ltb locked_round msg.payload.locked_round
        then request (RequestData.prevotes msg.payload.locked_round msg.payload.propose_hash) from
        else skip
    if has_consensus && has_propose
        then (handle_majority_prevotes again msg.payload.round msg.payload.propose_hash >> skip)
        else skip

  -- `NodeHandler::handle_precommit`
  pub handle_precommit : PublicKey → Verified Precommit → M c (Unit {0})
  handle_precommit from msg = do
    let m : Precommit = msg.payload
    assert_author from m.validator
    has_consensus ← run (λ s. Voting.add_precommit s msg)
    p ← Broadcast.propose m.propose_hash
    request_unknown p m.propose_hash from
    locked_round ← gets (λ s. s.locked_round)
    if ltb locked_round m.round
        then request (RequestData.prevotes m.round m.propose_hash) from
        else skip
    if has_consensus
        then (handle_majority_precommits again m.round m.propose_hash m.block_hash >> skip)
        else skip

  -- the last match of `handle_consensus`
  pub dispatch : ConsensusMessage → M c (Unit {0})
  dispatch (propose msg) = handle_propose msg.author msg
  dispatch (prevote msg) = handle_prevote msg.author msg
  dispatch (precommit msg) = handle_precommit msg.author msg

  -- the rest of `handle_consensus` for a message that is not of an epoch long past
  pub from_near : ConsensusMessage → ℕ → M c (Unit {0})
  from_near msg current = do
    next ← lift (Height.next c.debug current)
    if ltb (epoch msg) current || ltb next (epoch msg) then skip else (do
      current_round ← gets (λ s. s.round)
      if epoch msg == next || ltb current_round (round msg)
          then queue_message msg
          else dispatch msg)

  -- `handle_consensus`, where `again` stands for its calls of itself. A message from before
  -- the previous epoch is only logged, and `epoch.previous()` asserts that the epoch is not 0.
  pub handle_consensus_step : ConsensusMessage → M c (Unit {0})
  handle_consensus_step msg = do
    enabled ← is_enabled
    if not enabled then skip else (do
      current ← gets (λ s. s.epoch)
      previous ← lift (Height.previous current)
      if ltb (epoch msg) previous then skip else from_near msg current)

-- `NodeHandler::handle_consensus`
pub handle_consensus : {c : Chain} → ℕ → ConsensusMessage → M c (Unit {0})
handle_consensus zero msg = spent
handle_consensus (suc fuel) msg = handle_consensus_step (handle_consensus fuel) msg
