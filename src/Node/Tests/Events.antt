-- ===== src/Node/Tests/Events.antt =====
-- A node that handles an event, and what stays.
use exonum.Prelude.{◌≤◌, ◌<◌, ◌≡◌, refl, ◌⊎◌, true, some, [], ◌∷◌, arith}
use exonum.Prelude.HashMap
use exonum.Node.Messages.{ConsensusMessage}
use exonum.Helpers.Quorum.{byzantine_quorum}
use exonum.Helpers.Round
use exonum.Node.State.{leader, is_leader, jump_round, majority_count}
use exonum.Node.State.Progress.{Locked, core, own_prevote, own_precommit}
use exonum.Node.State.Voting.{has_majority_prevotes, has_majority_precommits}
use exonum.Node.Handler.{Node, Outcome, pure, lift, gets, modify, run, emit, ◌>>=◌, for_each}
use exonum.Node.Handler.RoundTime.{round_offset}
use exonum.Node.Handler.Sending.{add_timeout}
use exonum.Node.Handler.Timers.{round_start_time, add_round_timeout}
use exonum.Node.Consensus.Commit.{propose_if_leader, take_queued}
use exonum.Node.Consensus.Timeouts.{handle_new_round, process_new_round, start_round}
use exonum.Node.Events.{Event, Reaches, handle_event}
use exonum.Node.Events.Kept.{
  prevote_stays, precommit_stays, lock_stays, lock_majority, rounds_rise, majority_prevotes_stay,
  majority_precommits_stay,
}
use exonum.Node.Handler.Steps.{Moves}
use exonum.Node.Handler.Kept.{Later, Never}
use exonum.Node.Handler.Finishing.{QueuedNear}
use exonum.Node.Events.Finishing.{handle_event_finishes}
use exonum.Node.Consensus.Commit.{commit_block}
use exonum.Node.Consensus.Commit.Kept.{commit_block-Later}
use exonum.Node.Tests.{number_chain, voted_node, locked_node, prevote_of}

abbrev node_after : Outcome (Node number_chain) (Unit {0}) → Node number_chain
node_after (Outcome.done a n) = n
node_after Outcome.panicked = voted_node
node_after Outcome.out_of_fuel = voted_node

-- the node after a jump to round 4, which it does not lead
abbrev jumped : Node number_chain
jumped = node_after (handle_event 1 (Event.jump_to_round 5 4) voted_node)

jumps : handle_event 1 (Event.jump_to_round 5 4) voted_node ≡ Outcome.done tt jumped
unfolding handle_event handle_new_round ◌>>=◌ gets modify add_round_timeout lift Round.next
    jump_round round_start_time round_offset pure add_timeout emit process_new_round start_round
    propose_if_leader Round.previous take_queued for_each run is_leader leader
jumps = refl

jumped_epoch : jumped.state.epoch ≡ 5
unfolding handle_event handle_new_round ◌>>=◌ gets modify add_round_timeout lift Round.next
    jump_round round_start_time round_offset pure add_timeout emit process_new_round start_round
    propose_if_leader Round.previous take_queued for_each run is_leader leader
jumped_epoch = refl

abbrev voted-Reaches-jumped : Reaches voted_node jumped
voted-Reaches-jumped =
    Reaches.handled jumped 1 (Event.jump_to_round 5 4) (Reaches.start voted_node) jumps

prevote_stays_example : own_prevote jumped.state.validator_state 1 ≡ some (prevote_of 0)
unfolding HashMap.get
prevote_stays_example =
    prevote_stays {c = number_chain} refl voted_node jumped 1 (prevote_of 0) voted-Reaches-jumped
      jumped_epoch refl

precommit_stays_example : own_precommit jumped.state.validator_state 1 ≡ some 42
unfolding HashMap.get
precommit_stays_example =
    precommit_stays {c = number_chain} refl voted_node jumped 1 42 voted-Reaches-jumped jumped_epoch
      refl

abbrev locked_jumped : Node number_chain
locked_jumped = node_after (handle_event 1 (Event.jump_to_round 5 4) locked_node)

locked_jumps : handle_event 1 (Event.jump_to_round 5 4) locked_node ≡ Outcome.done tt locked_jumped
unfolding handle_event handle_new_round ◌>>=◌ gets modify add_round_timeout lift Round.next
    jump_round round_start_time round_offset pure add_timeout emit process_new_round start_round
    propose_if_leader Round.previous take_queued for_each run is_leader leader
locked_jumps = refl

abbrev locked-Reaches-jumped : Reaches locked_node locked_jumped
locked-Reaches-jumped =
    Reaches.handled locked_jumped 1 (Event.jump_to_round 5 4) (Reaches.start locked_node)
      locked_jumps

locked_jumped_epoch : locked_jumped.state.epoch ≡ 5
unfolding handle_event handle_new_round ◌>>=◌ gets modify add_round_timeout lift Round.next
    jump_round round_start_time round_offset pure add_timeout emit process_new_round start_round
    propose_if_leader Round.previous take_queued for_each run is_leader leader
locked_jumped_epoch = refl

locked_jumped_round : locked_jumped.state.locked_round ≡ 1
unfolding handle_event handle_new_round ◌>>=◌ gets modify add_round_timeout lift Round.next
    jump_round round_start_time round_offset pure add_timeout emit process_new_round start_round
    propose_if_leader Round.previous take_queued for_each run is_leader leader
locked_jumped_round = refl

locked_jumped_propose : locked_jumped.state.locked_propose ≡ some 42
unfolding handle_event handle_new_round ◌>>=◌ gets modify add_round_timeout lift Round.next
    jump_round round_start_time round_offset pure add_timeout emit process_new_round start_round
    propose_if_leader Round.previous take_queued for_each run is_leader leader
locked_jumped_propose = refl

lock_stays_example : locked_jumped.state.locked_propose ≡ locked_node.state.locked_propose
lock_stays_example =
    lock_stays {c = number_chain} refl locked_node locked_jumped locked-Reaches-jumped
      locked_jumped_epoch locked_jumped_round

Locked-before : Locked (core locked_node.state)
unfolding HashMap.get byzantine_quorum
Locked-before = refl

lock_majority_example :
    has_majority_prevotes locked_jumped.state locked_jumped.state.locked_round 42 ≡ true
lock_majority_example =
    lock_majority {c = number_chain} refl locked_node locked_jumped 42 locked-Reaches-jumped
      Locked-before locked_jumped_propose

rounds_rise_example :
    (voted_node.state.epoch < jumped.state.epoch)
    ⊎ ((jumped.state.epoch ≡ voted_node.state.epoch)
        × (voted_node.state.round ≤ jumped.state.round)
        × (voted_node.state.locked_round ≤ jumped.state.locked_round)
        × (jumped.state.blockchain_height ≡ voted_node.state.blockchain_height)
        × (jumped.state.last_hash ≡ voted_node.state.last_hash)
        × (jumped.state.config ≡ voted_node.state.config))
rounds_rise_example = rounds_rise {c = number_chain} refl voted_node jumped voted-Reaches-jumped

majority_prevotes_stay_example : has_majority_prevotes jumped.state 1 42 ≡ true
unfolding has_majority_prevotes HashMap.get majority_count
majority_prevotes_stay_example =
    majority_prevotes_stay {c = number_chain} refl voted_node jumped 1 42 voted-Reaches-jumped
      jumped_epoch refl

majority_precommits_stay_example : has_majority_precommits jumped.state 1 42 ≡ true
unfolding has_majority_precommits HashMap.get majority_count
majority_precommits_stay_example =
    majority_precommits_stay {c = number_chain} refl voted_node jumped 1 42 voted-Reaches-jumped
      jumped_epoch refl

commit_block-Later_example : Moves (Later {c = number_chain}) Never (commit_block 7 [])
commit_block-Later_example = commit_block-Later {c = number_chain} refl 7 []

-- the node with a message of the next epoch in its queue
abbrev queued_node : Node number_chain
queued_node = record voted_node {
  state = record voted_node.state {
    queued =
        ConsensusMessage.prevote (record {
          payload = record {
            validator = 2;
            epoch = 6;
            round = 1;
            propose_hash = 42;
            locked_round = 0;
          };
          author = 12;
        })
        ∷ [];
  };
}

handle_event_finishes_example :
    (handle_event 3 (Event.jump_to_round 5 4) queued_node ≡ Outcome.panicked)
    ⊎ ((k : Node number_chain) × (handle_event 3 (Event.jump_to_round 5 4) queued_node
          ≡ Outcome.done tt k)
        × QueuedNear k.state)
handle_event_finishes_example =
    handle_event_finishes {c = number_chain} refl 3 (Event.jump_to_round 5 4) queued_node
      (omega arith) (omega arith, tt)
