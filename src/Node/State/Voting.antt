-- ===== src/Node/State/Voting.antt =====
-- exonum-node/src/state.rs: the prevotes and precommits that a node has, and its own.
pub mod Majority
pub mod Own
pub mod Incompatible
use exonum.Prelude.{
  ℕ, Bool, true, false, not, Option, none, some, List, [], ◌∷◌, length, leb, replicate,
  if◌then◌else◌,
}
use exonum.Prelude.Eq.{◌==◌, nat_eq, pair_eq, option_eq}
use exonum.Prelude.HashMap.{HashMap}
use exonum.Prelude.HashMap
use exonum.Prelude.Panic.{◌>>=◌, ◌>>◌, assert}
use exonum.Helpers.Round
use exonum.Node.Messages.{
  Hash, Verified, Prevote, Precommit, prevote_eq, prevote_vote, precommit_vote,
}
use exonum.Node.Chain.{Chain}
use exonum.Node.Votes.{Votes}
use exonum.Node.Votes
use exonum.Node.State.{State, ValidatorState, majority_count}

-- whether an earlier prevote of ours, if any, equals the new one
abbrev same_prevote : Option (Verified Prevote) → Verified Prevote → Bool
same_prevote none msg = true
same_prevote (some other) msg = other == msg

-- the part of `add_prevote` on our own votes
unfoldable pub record_prevote :
    Option ValidatorState → Verified Prevote → Option (Option ValidatorState)
record_prevote none msg = some none
record_prevote (some v) msg =
    if v.id == msg.payload.validator
    then (do
      assert (same_prevote (HashMap.get v.our_prevotes msg.payload.round) msg)
      some (some (record v { our_prevotes = HashMap.insert v.our_prevotes msg.payload.round msg })))
    else some (some v)

-- whether an earlier precommit of ours, if any, is for the same propose
abbrev same_precommit : Option (Verified Precommit) → Verified Precommit → Bool
same_precommit none msg = true
same_precommit (some other) msg = other.payload.propose_hash == msg.payload.propose_hash

unfoldable pub record_precommit :
    Option ValidatorState → Verified Precommit → Option (Option ValidatorState)
record_precommit none msg = some none
record_precommit (some v) msg =
    if v.id == msg.payload.validator
    then (do
      assert (same_precommit (HashMap.get v.our_precommits msg.payload.round) msg)
      some (
          some
            (record v { our_precommits = HashMap.insert v.our_precommits msg.payload.round msg })))
    else some (some v)

abbrev or_new : {T : Type 0} → ℕ → Option (Votes T) → Votes T
or_new n none = Votes.new n
or_new n (some v) = v

-- `entry(key).or_insert_with(|| Votes::new(n))`
abbrev pub votes_at : {T : Type 0} → HashMap (ℕ × Hash) (Votes T) → ℕ × Hash → ℕ → Votes T
votes_at m key n = or_new n (HashMap.get m key)

-- `map_or(false, |votes| votes.count() >= majority)`
abbrev pub reached : {T : Type 0} → ℕ → Option (Votes T) → Bool
reached majority none = false
reached majority (some votes) = leb majority votes.count

-- whether a prevote of ours, if there is one, is for another propose than the locked one
abbrev incompatible : Option Hash → Option (Verified Prevote) → Bool
incompatible locked none = false
incompatible locked (some msg) = not (some msg.payload.propose_hash == locked)

-- one round of `have_incompatible_prevotes`, which panics for an auditor
check_round : Option Hash → Option ValidatorState → ℕ → Option Bool → Option Bool
check_round locked none round rest = none
check_round locked (some v) round rest =
    if incompatible locked (HashMap.get v.our_prevotes round) then some true else rest

module _ {c : Chain} where
  abbrev pub validators_len : State c → ℕ
  validators_len s = length s.config.validator_keys

  -- `State::add_prevote`
  unfoldable pub add_prevote : State c → Verified Prevote → Option (Bool × State c)
  unfolding record_prevote majority_count
  add_prevote s msg = do
    own ← record_prevote s.validator_state msg
    let key : ℕ × Hash = (msg.payload.round, msg.payload.propose_hash)
    votes ← Votes.insert (votes_at s.prevotes key (validators_len s)) msg
    some (
      leb (majority_count s) votes.count,
      record s { validator_state = own; prevotes = HashMap.insert s.prevotes key votes },
    )

  -- `State::add_precommit`; the key is the block hash
  unfoldable pub add_precommit : State c → Verified Precommit → Option (Bool × State c)
  unfolding record_precommit majority_count
  add_precommit s msg = do
    own ← record_precommit s.validator_state msg
    let key : ℕ × Hash = (msg.payload.round, msg.payload.block_hash)
    votes ← Votes.insert (votes_at s.precommits key (validators_len s)) msg
    some (
      leb (majority_count s) votes.count,
      record s { validator_state = own; precommits = HashMap.insert s.precommits key votes },
    )

  -- `State::has_majority_prevotes`
  unfoldable pub has_majority_prevotes : State c → ℕ → Hash → Bool
  has_majority_prevotes s round propose_hash =
      reached (majority_count s) (HashMap.get s.prevotes (round, propose_hash))

  -- `State::has_majority_precommits`
  unfoldable pub has_majority_precommits : State c → ℕ → Hash → Bool
  has_majority_precommits s round block_hash =
      reached (majority_count s) (HashMap.get s.precommits (round, block_hash))

  -- `State::known_prevotes`
  unfoldable pub known_prevotes : State c → ℕ → Hash → List Bool
  known_prevotes s round propose_hash = elim (HashMap.get s.prevotes (round, propose_hash)) [
    | none ↦ replicate (validators_len s) false
    | some votes ↦ votes.validators
  ]

  -- `State::prevotes`
  unfoldable pub prevotes : State c → ℕ → Hash → List (Verified Prevote)
  prevotes s round propose_hash = elim (HashMap.get s.prevotes (round, propose_hash)) [
    | none ↦ []
    | some v ↦ v.messages
  ]

  -- `State::precommits`
  unfoldable pub precommits : State c → ℕ → Hash → List (Verified Precommit)
  precommits s round block_hash = elim (HashMap.get s.precommits (round, block_hash)) [
    | none ↦ []
    | some v ↦ v.messages
  ]

  -- `State::have_prevote`, which panics for an auditor
  unfoldable pub have_prevote : State c → ℕ → Option Bool
  have_prevote s round = elim s.validator_state [
    | none ↦ none
    | some v ↦ some (HashMap.contains_key v.our_prevotes round)
  ]

  -- the loop of `have_incompatible_prevotes`
  any_incompatible : State c → List ℕ → Option Bool
  unfolding check_round
  any_incompatible s [] = some false
  any_incompatible s (round ∷ rounds) =
      let rest = any_incompatible s rounds in
      check_round s.locked_propose s.validator_state round rest

  -- `State::have_incompatible_prevotes`
  unfoldable pub have_incompatible_prevotes : State c → Option Bool
  unfolding any_incompatible Round.next Round.iter_to
  have_incompatible_prevotes s = do
    from ← Round.next c.debug s.locked_round
    to ← Round.next c.debug s.round
    any_incompatible s (Round.iter_to from to)
