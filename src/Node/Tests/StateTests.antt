-- ===== src/Node/Tests/StateTests.antt =====
-- Votes, blocks and rounds of a node of four validators.
use exonum.Prelude.{
  ℕ, ◌+◌, ◌-◌, ◌*◌, ◌/◌, ◌≤◌, ◌<◌, ◌≡◌, ◌⊎◌, refl, Bool, true, false, Option, none, some, List, [],
  ◌∷◌, arith, get_elem?, if◌then◌else◌,
}
use exonum.Prelude.Eq.{nat_eq, pair_eq}
use exonum.Prelude.Eq
use exonum.Prelude.HashMap.{get-nil}
use exonum.Prelude.HashMap
use exonum.Prelude.Panic.{Returns}
use exonum.Helpers.Word.{checked}
use exonum.Helpers.Round
use exonum.Helpers.Quorum.{byzantine_quorum, quorums_share_honest, quorum_reachable}
use exonum.Node.Messages.{Verified, Prevote, Precommit, prevote_vote, precommit_vote}
use exonum.Node.Votes.{Votes, insert}
use exonum.Node.Votes
use exonum.Node.Votes.Counting.{IsValid, HasVoter, new-IsValid, insert-IsValid}
use exonum.Node.State.{
  leader, State, ValidatorState, IncompleteBlock, majority_count, consensus_public_key_of,
}
use exonum.Node.State.Rounds.{update_validator_round}
use exonum.Node.State.Rounds.Supported.{Jump, update_validator_round-Jump}
use exonum.Node.State.Blocks.{new_incomplete_block}
use exonum.Node.Handler.RoundTime.{round_timeout_increase, offset, round_offset}
use exonum.Node.Handler.RoundTime.Lengthening.{round_offset_rises}
use exonum.Node.State.Leading.{leader_rotates}
use exonum.Node.State.Blocks.Unknown.{Waiting, create_incomplete_block-Waiting}
use exonum.Node.State.Peers.{known_state, update_peer_state}
use exonum.Node.State.Peers.Rising.{NotLess, update_peer_state-NotLess}
use exonum.Node.State.Voting.Incompatible.{have_incompatible_prevotes_lem}
use exonum.Node.State.Voting.{have_incompatible_prevotes, record_prevote, add_precommit}
use exonum.Node.State.Voting.Own.{ContradictsOwn}
use exonum.Node.State.Voting.Majority.{
  ValidVotes, PrevoteAdded, PrecommitAdded, add_prevote-PrevoteAdded, add_precommit-PrecommitAdded,
}
use exonum.Node.Consensus.Blocks.{
  validate_precommits, validate_each, validate_precommit, from_first, signed_by,
}
use exonum.Node.Consensus.Blocks.Certificate.{
  Certificate, SignedBy, validate_precommits-Certificate, certificates_share_honest,
}
use exonum.Node.Tests.{number_chain, voted_state, prevote_of, precommit_of, three_bits}

-- no votes yet
abbrev fresh_state : State number_chain
fresh_state = record voted_state { prevotes = []; precommits = [] }

no_prevotes-ValidVotes : ValidVotes {T = Verified Prevote} 4 []
no_prevotes-ValidVotes k votes e = absurd (ground (arith, get-nil {V = Votes (Verified Prevote)} k))

no_precommits-ValidVotes : ValidVotes {T = Verified Precommit} 4 []
no_precommits-ValidVotes k votes e =
    absurd (ground (arith, get-nil {V = Votes (Verified Precommit)} k))

add_prevote-PrevoteAdded_example :
    (b : Bool) × (s' : State number_chain) × PrevoteAdded fresh_state (prevote_of 3) b s'
unfolding record_prevote
add_prevote-PrevoteAdded_example =
    add_prevote-PrevoteAdded fresh_state (prevote_of 3) fresh_state.validator_state
      no_prevotes-ValidVotes (omega arith) refl

-- validator 0 has sent a precommit for the same propose and block 42
add_precommit-PrecommitAdded_example :
    (ContradictsOwn fresh_state.validator_state (precommit_of 0 7)
      × (add_precommit fresh_state (precommit_of 0 7) ≡ none))
    ⊎ (¬ ContradictsOwn fresh_state.validator_state (precommit_of 0 7)
        × (b : Bool) × (s' : State number_chain) × PrecommitAdded fresh_state
            (precommit_of 0 7)
            b
            s')
add_precommit-PrecommitAdded_example =
    add_precommit-PrecommitAdded fresh_state (precommit_of 0 7) no_precommits-ValidVotes
      (omega arith)

abbrev certificate_7 : List (Verified Precommit)
certificate_7 = precommit_of 0 7 ∷ precommit_of 1 7 ∷ precommit_of 2 7 ∷ []

abbrev certificate_8 : List (Verified Precommit)
certificate_8 = precommit_of 1 8 ∷ precommit_of 2 8 ∷ precommit_of 3 8 ∷ []

validate_precommits-Certificate_example : Certificate voted_state certificate_7 5 7
unfolding validate_precommits validate_each validate_precommit from_first signed_by
    consensus_public_key_of majority_count Eq.contains Eq.insert
validate_precommits-Certificate_example =
    validate_precommits-Certificate voted_state certificate_7 5 7 refl

-- validator 2 is faulty, and has signed both
certificates_share_honest_example :
    (i : ℕ) × SignedBy certificate_7 i
    × SignedBy certificate_8 i
    × (get_elem? (false ∷ false ∷ true ∷ false ∷ []) i ≡ some false)
unfolding validate_precommits validate_each validate_precommit from_first signed_by
    consensus_public_key_of majority_count Eq.contains Eq.insert
certificates_share_honest_example =
    certificates_share_honest voted_state certificate_7 certificate_8 5 5 7 8
      (false ∷ false ∷ true ∷ false ∷ []) refl refl refl (omega arith)

insert-IsValid_example :
    (votes' : Votes (Verified Prevote)) × (insert (Votes.new 4) (prevote_of 3) ≡ some votes')
    × IsValid 4 votes'
    × (votes'.count ≡ (if false then 0 else 0 + 1))
    × HasVoter votes'.validators (prevote_of 3)
unfolding Votes.new
insert-IsValid_example = insert-IsValid 4 (Votes.new 4) (prevote_of 3) false (new-IsValid 4) refl

abbrev behind : State number_chain
behind = record voted_state { validators_rounds = (1, 4) ∷ [] }

update_validator_round-Jump_example :
    Returns
      (λ (x : Option ℕ × State number_chain). Jump behind x.0 x.1)
      (update_validator_round behind 2 4)
update_validator_round-Jump_example = update_validator_round-Jump behind 2 4

create_incomplete_block-Waiting_example :
    (b' : IncompleteBlock ℕ) × (s' : State number_chain) × Waiting voted_state 3
      (new_incomplete_block 4 (21 ∷ 22 ∷ []) certificate_7)
      b'
      s'
unfolding Eq.contains
create_incomplete_block-Waiting_example =
    create_incomplete_block-Waiting voted_state 3 4 (21 ∷ 22 ∷ []) certificate_7 refl
      (refl, (refl, tt))

quorums_share_honest_example :
    (i : ℕ) × (get_elem? three_bits i ≡ some true)
    × (get_elem? (false ∷ true ∷ true ∷ true ∷ []) i ≡ some true)
    × (get_elem? (false ∷ true ∷ false ∷ false ∷ []) i ≡ some false)
unfolding byzantine_quorum
quorums_share_honest_example =
    quorums_share_honest three_bits (false ∷ true ∷ true ∷ true ∷ [])
      (false ∷ true ∷ false ∷ false ∷ []) refl refl (omega arith) (omega arith) (omega arith)
      (omega arith)

quorum_reachable_example : (byzantine_quorum 4 ≤ 4) × (byzantine_quorum 4 ≤ 4 - (4 - 1) / 3)
quorum_reachable_example = quorum_reachable 4 (omega arith)

-- validator 0, locked on propose 42 in round 1 and prevoting for it again in round 2
abbrev relocked : ValidatorState
relocked = record { id = 0; our_prevotes = (2, prevote_of 0) ∷ []; our_precommits = [] }

abbrev locked_state : State number_chain
locked_state = record voted_state {
  validator_state = some relocked;
  round = 3;
  locked_round = 1;
  locked_propose = some 42;
}

have_incompatible_prevotes_example : locked_state.locked_propose ≡ some 42
unfolding have_incompatible_prevotes HashMap.get checked
have_incompatible_prevotes_example =
    have_incompatible_prevotes_lem locked_state relocked 2 (prevote_of 0) refl refl refl
      (omega arith) (omega arith) refl

update_peer_state-NotLess_example : NotLess (known_state voted_state 11) (
    known_state (update_peer_state voted_state 11 (record { epoch = 6; blockchain_height = 2 })) 11)
update_peer_state-NotLess_example =
    update_peer_state-NotLess voted_state 11 (record { epoch = 6; blockchain_height = 2 }) 11

leader_rotates_example :
    (k : ℕ) × (k < 4)
    × (leader voted_state (1 + k) ≡ some 3)
    × ((j : ℕ) → j < 4 → leader voted_state (1 + j) ≡ some 3 → j ≡ k)
leader_rotates_example = leader_rotates voted_state 1 3 (omega arith) (omega arith) (omega arith)

-- rounds 2 and 3 of a first timeout of 3 seconds
round_offset_rises_example : 6300 ≡ 3000 + 3000 + (2 - 1) * (3000 * 10 / 100)
unfolding round_offset offset round_timeout_increase Round.previous checked
round_offset_rises_example = round_offset_rises 3000 2 (omega arith) refl refl
