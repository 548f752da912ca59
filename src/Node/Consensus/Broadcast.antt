-- ===== src/Node/Consensus/Broadcast.antt =====
-- exonum-node/src/consensus.rs: executing a propose, and the votes that the node sends.
pub mod Kept
use exonum.Prelude.{ℕ, Bool, true, false, not, Option, none, some, if◌then◌else◌}
use exonum.Prelude.Eq.{nat_eq}
use exonum.Prelude.HashMap
use exonum.Node.Messages.{Hash, PublicKey, Propose, Prevote, Precommit, ConsensusMessage}
use exonum.Node.Chain.{Chain, BlockKind, BlockContents, BlockPatch}
use exonum.Node.State.{State, ProposeState, RequestData, validator_id}
use exonum.Node.State.Proposes.{block_kind, has_unknown_txs, has_invalid_txs}
use exonum.Node.State.Blocks.{add_block}
use exonum.Node.State.Voting
use exonum.Node.Handler.{
  M, Outgoing, pure, skip, lift, gets, modify, run, ◌>>=◌, ◌>>◌, ledger, current_time, save_message,
  sign_message,
}
use exonum.Node.Handler.Sending.{broadcast, request}

-- the contents of the block of a propose
abbrev pub contents_of : ProposeState → BlockContents
contents_of p = elim (block_kind p) [
  | BlockKind.normal ↦ BlockContents.transactions p.message.payload.transactions
  | BlockKind.skip ↦ BlockContents.skip
]

-- what `request_propose_or_txs` asks for
missing : Hash → Option ProposeState → Option RequestData
missing hash none = some (RequestData.propose hash)
missing hash (some p) =
    if has_unknown_txs p then some (RequestData.propose_transactions hash) else none

module _ {c : Chain} where
  -- `State::propose`
  pub propose : Hash → M c (Option ProposeState)
  propose hash = gets (λ s. HashMap.get s.proposes hash)

  -- `state.propose(hash).unwrap()`
  pub the_propose : Hash → M c ProposeState
  the_propose hash = do p ← propose hash; lift p

  -- `NodeHandler::create_block`
  pub create_block : ℕ → ℕ → BlockContents → M c (BlockPatch c.Patch)
  create_block proposer epoch contents = do
    l ← ledger
    txs ← gets (λ s. s.tx_cache)
    pure (c.create_patch l (record { contents = contents; proposer = proposer; epoch = epoch }) txs)

  set_propose : Hash → ProposeState → State c → State c
  set_propose hash p s = record s { proposes = HashMap.insert s.proposes hash p }

  run_propose : Hash → ProposeState → M c Hash
  run_propose propose_hash p = do
    let m : Propose = p.message.payload
    patch ← create_block m.validator m.epoch (contents_of p)
    modify (λ s. add_block s patch m.transactions m.validator m.epoch)
    p' ← the_propose propose_hash
    modify (set_propose propose_hash (record p' { block_hash = some patch.block_hash }))
    pure patch.block_hash

  executed : Hash → ProposeState → Option Hash → M c Hash
  executed propose_hash p none = run_propose propose_hash p
  executed propose_hash p (some hash) = pure hash

  -- `NodeHandler::execute`
  pub execute : Hash → M c Hash
  execute propose_hash = do p ← the_propose propose_hash; executed propose_hash p p.block_hash

  save_propose : ℕ → Hash → Option ProposeState → M c (Unit {0})
  save_propose round hash none = skip
  save_propose round hash (some p) =
      if not p.is_saved
      then (do
        save_message round (ConsensusMessage.propose p.message)
        modify (set_propose hash (record p { is_saved = true })))
      else skip

  -- `NodeHandler::ensure_saved_propose`
  pub ensure_saved_propose : ℕ → Hash → M c (Unit {0})
  ensure_saved_propose round hash = do p ← propose hash; save_propose round hash p

  -- `NodeHandler::broadcast_prevote`
  pub broadcast_prevote : ℕ → Hash → M c Bool
  broadcast_prevote round propose_hash = do
    id ← gets validator_id
    validator ← lift id
    locked_round ← gets (λ s. s.locked_round)
    epoch ← gets (λ s. s.epoch)
    prevote ← sign_message {T = Prevote} (record {
      validator = validator;
      epoch = epoch;
      round = round;
      propose_hash = propose_hash;
      locked_round = locked_round;
    })
    has_majority ← run (λ s. Voting.add_prevote s prevote)
    ensure_saved_propose round propose_hash
    save_message round (ConsensusMessage.prevote prevote)
    broadcast (Outgoing.consensus (ConsensusMessage.prevote prevote))
    pure has_majority

  -- `NodeHandler::broadcast_precommit`
  pub broadcast_precommit : ℕ → Hash → Hash → M c (Unit {0})
  broadcast_precommit round propose_hash block_hash = do
    id ← gets validator_id
    validator ← lift id
    epoch ← gets (λ s. s.epoch)
    now ← current_time
    precommit ← sign_message {T = Precommit} (record {
      validator = validator;
      epoch = epoch;
      round = round;
      propose_hash = propose_hash;
      block_hash = block_hash;
      time = now;
    })
    run (λ s. Voting.add_precommit s precommit)
    save_message round (ConsensusMessage.precommit precommit)
    broadcast (Outgoing.consensus (ConsensusMessage.precommit precommit))

  -- `NodeHandler::check_propose_and_broadcast_prevote`
  pub check_propose_and_broadcast_prevote : ℕ → Hash → M c Bool
  check_propose_and_broadcast_prevote round propose_hash = do
    p ← the_propose propose_hash
    if has_invalid_txs p
        then gets (λ s. Voting.has_majority_prevotes s round propose_hash)
        else broadcast_prevote round propose_hash

  -- `NodeHandler::check_propose_and_broadcast_precommit`
  pub check_propose_and_broadcast_precommit : ℕ → Hash → Hash → M c (Unit {0})
  check_propose_and_broadcast_precommit round propose_hash block_hash = do
    p ← the_propose propose_hash
    if has_invalid_txs p then skip else broadcast_precommit round propose_hash block_hash

  ask : Option RequestData → PublicKey → M c Bool
  ask none key = pure true
  ask (some data') key = do request data' key; pure false

  -- `NodeHandler::request_propose_or_txs`
  pub request_propose_or_txs : Hash → PublicKey → M c Bool
  request_propose_or_txs propose_hash key = do
    p ← propose propose_hash
    ask (missing propose_hash p) key
