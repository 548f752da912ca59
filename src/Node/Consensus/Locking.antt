-- ===== src/Node/Consensus/Locking.antt =====
-- exonum-node/src/consensus.rs: what a majority of prevotes or precommits leads to. `again` handles
-- a message that was queued, for the commit of a block.
pub mod Kept
use Prim.Native.Nat.{max}
use exonum.Prelude.{
  ℕ, Bool, true, false, not, Option, none, some, List, [], ◌∷◌, map, ltb, if◌then◌else◌,
}
use exonum.Prelude.Eq.{◌==◌, nat_eq}
use exonum.Helpers.Round
use exonum.Node.Messages.{Hash, ConsensusMessage}
use exonum.Node.Chain.{Chain}
use exonum.Node.State.{
  ProposeState, RequestData, is_validator, consensus_public_key_of, lock as lock_state,
}
use exonum.Node.State.Proposes.{
  has_unknown_txs, has_invalid_txs, add_propose_confirmed_by_majority, take_confirmed_propose,
}
use exonum.Node.State.Blocks.{RoundAction, new_epoch, no_action}
use exonum.Node.State.Voting
use exonum.Node.Handler.{M, pure, skip, panic, lift, gets, update, run, ◌>>=◌, ◌>>◌, save_messages}
use exonum.Node.Handler.Sending.{request, remove_request}
use exonum.Node.Consensus.Broadcast.{
  propose, execute, ensure_saved_propose, check_propose_and_broadcast_prevote,
  check_propose_and_broadcast_precommit,
}
use exonum.Node.Consensus.Commit.{commit}

-- whether a propose cannot be executed yet
abbrev not_full : Option ProposeState → Bool
not_full none = true
not_full (some p) = has_unknown_txs p

module _ {c : Chain} where
  -- `is_validator() && !have_prevote(round)`
  pub may_prevote : ℕ → M c Bool
  may_prevote round = do
    validator ← gets is_validator
    if validator
        then (do h ← gets (λ s. Voting.have_prevote s round); have ← lift h; pure (not have))
        else pure false

  -- `is_validator() && !have_incompatible_prevotes()`
  pub may_precommit : M c Bool
  may_precommit = do
    validator ← gets is_validator
    if validator
        then (do h ← gets Voting.have_incompatible_prevotes; have ← lift h; pure (not have))
        else pure false

  -- the prevote that a node sends where it has not sent one for the round
  pub prevote_once : ℕ → Hash → M c (Unit {0})
  prevote_once round hash = do
    may ← may_prevote round
    if may then (check_propose_and_broadcast_prevote round hash >> skip) else skip

  after_precommit : ℕ → Hash → Option RoundAction → M c (Option RoundAction)
  after_precommit round propose_hash (some action) = pure (some action)
  after_precommit round propose_hash none = do
    remove_request (RequestData.prevotes round propose_hash)
    pure none

  or_rest : M c RoundAction → Option RoundAction → M c RoundAction
  or_rest rest none = rest
  or_rest rest (some action) = pure action

  or_next : M c RoundAction → RoundAction → M c RoundAction
  or_next rest new_epoch = pure RoundAction.new_epoch
  or_next rest no_action = rest

module _ {c : Chain} (again : ConsensusMessage → M c (Unit {0})) where
  -- `execute`, the check of the block hash, and `commit`
  pub execute_and_commit : ℕ → Hash → Hash → M c RoundAction
  execute_and_commit round propose_hash block_hash = do
    ours ← execute propose_hash
    if ours == block_hash
        then (do
          precommits ← gets (λ s. Voting.precommits s round ours)
          commit again ours precommits
          pure RoundAction.new_epoch)
        else panic

  -- `handle_majority_precommits` where the propose is known
  with_propose : ℕ → Hash → Hash → Option ProposeState → M c RoundAction
  with_propose round propose_hash block_hash none = pure RoundAction.no_action
  with_propose round propose_hash block_hash (some p) =
      if has_unknown_txs p
      then (do
        key ← gets (λ s. consensus_public_key_of s p.message.payload.validator)
        proposer ← lift key
        request (RequestData.propose_transactions propose_hash) proposer
        pure RoundAction.no_action)
      else (if has_invalid_txs p then panic else execute_and_commit round propose_hash block_hash)

  -- `NodeHandler::handle_majority_precommits`
  pub handle_majority_precommits : ℕ → Hash → Hash → M c RoundAction
  handle_majority_precommits round propose_hash block_hash = do
    p ← propose propose_hash
    if not_full p
        then update (λ s. add_propose_confirmed_by_majority s round propose_hash block_hash)
        else skip
    p' ← propose propose_hash
    with_propose round propose_hash block_hash p'

  -- the precommit of a locked node; `some` is an early return of `lock`
  pub precommit_locked : ℕ → Hash → M c (Option RoundAction)
  precommit_locked round propose_hash = do
    may ← may_precommit
    if may
        then (do
          block_hash ← execute propose_hash
          check_propose_and_broadcast_precommit round propose_hash block_hash
          majority ← gets (λ s. Voting.has_majority_precommits s round block_hash)
          if majority
              then (do
                action ← handle_majority_precommits round propose_hash block_hash
                pure (some action))
              else pure none)
        else pure none

  -- the lock on a round with a majority of prevotes
  pub lock_round : ℕ → ℕ → Hash → M c (Option RoundAction)
  lock_round prevote_round round propose_hash = do
    ensure_saved_propose round propose_hash
    ms ← gets (λ s. map ConsensusMessage.prevote (Voting.prevotes s prevote_round propose_hash))
    save_messages round ms
    update (λ s. lock_state s round propose_hash)
    action ← precommit_locked round propose_hash
    after_precommit round propose_hash action

  -- the body of the loop of `lock`
  pub try_round : ℕ → Hash → ℕ → M c (Option RoundAction)
  try_round prevote_round propose_hash round = do
    prevote_once round propose_hash
    majority ← gets (λ s. Voting.has_majority_prevotes s round propose_hash)
    if majority then lock_round prevote_round round propose_hash else pure none

  pub lock_rounds : ℕ → Hash → List ℕ → M c RoundAction
  lock_rounds prevote_round propose_hash [] = pure RoundAction.no_action
  lock_rounds prevote_round propose_hash (round ∷ rounds) = do
    action ← try_round prevote_round propose_hash round
    or_rest (lock_rounds prevote_round propose_hash rounds) action

  -- `NodeHandler::lock`
  pub lock : ℕ → Hash → M c RoundAction
  lock prevote_round propose_hash = do
    round ← gets (λ s. s.round)
    next ← lift (Round.next c.debug round)
    lock_rounds prevote_round propose_hash (Round.iter_to prevote_round next)

  lock_on : ℕ → Hash → Option ProposeState → M c RoundAction
  lock_on prevote_round propose_hash none = pure RoundAction.no_action
  lock_on prevote_round propose_hash (some p) =
      if has_invalid_txs p then panic else lock prevote_round propose_hash

  -- `NodeHandler::handle_majority_prevotes`
  pub handle_majority_prevotes : ℕ → Hash → M c RoundAction
  handle_majority_prevotes prevote_round propose_hash = do
    remove_request (RequestData.prevotes prevote_round propose_hash)
    locked_round ← gets (λ s. s.locked_round)
    p ← propose propose_hash
    if ltb locked_round prevote_round
        then lock_on prevote_round propose_hash p
        else pure RoundAction.no_action

  -- the body of the loop of `handle_full_propose`
  full_round : Hash → ℕ → M c RoundAction
  full_round hash round = do
    majority ← gets (λ s. Voting.has_majority_prevotes s round hash)
    if majority then handle_majority_prevotes round hash else pure RoundAction.no_action

  -- the loop of `handle_full_propose`
  pub full_rounds : Hash → List ℕ → M c RoundAction
  full_rounds hash [] = pure RoundAction.no_action
  full_rounds hash (round ∷ rounds) = do
    action ← full_round hash round
    or_next (full_rounds hash rounds) action

  commit_if : Hash → Option (ℕ × Hash) → M c RoundAction
  commit_if hash none = pure RoundAction.no_action
  commit_if hash (some (round, block_hash)) = execute_and_commit round hash block_hash

  -- the commit of a propose that was confirmed before it was known
  commit_confirmed : Hash → RoundAction → M c RoundAction
  commit_confirmed hash new_epoch = pure RoundAction.new_epoch
  commit_confirmed hash no_action = do
    confirmed ← run (λ s. some (take_confirmed_propose s hash))
    commit_if hash confirmed

  -- `NodeHandler::handle_full_propose`
  pub handle_full_propose : Hash → ℕ → M c RoundAction
  handle_full_propose hash propose_round = do
    locked_round ← gets (λ s. s.locked_round)
    if locked_round == 0 then prevote_once propose_round hash else skip
    locked ← gets (λ s. s.locked_round)
    start ← lift (Round.next c.debug locked)
    round ← gets (λ s. s.round)
    end' ← lift (Round.next c.debug round)
    action ← full_rounds hash (Round.iter_to (max start propose_round) end')
    commit_confirmed hash action
