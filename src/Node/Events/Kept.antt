-- ===== src/Node/Events/Kept.antt =====
-- exonum-node/src/events_impl.rs: what holds between two states of one node, however many events it
-- has handled, in a build with debug assertions.
use exonum.Prelude.{
  length, ◌≤◌, ◌⊎◌, ◌<◌, sym, ℕ, ◌≡◌, refl, true, some, List, inl, inr, arith, subst,
}
use exonum.Helpers.Quorum.{byzantine_quorum}
use exonum.Node.Messages.{Hash, Verified, Prevote, Precommit, ConsensusMessage}
use exonum.Node.Chain.{Chain}
use exonum.Node.State.{State, FlushPoolStrategy, majority_count}
use exonum.Node.State.Voting.{has_majority_prevotes, has_majority_precommits}
use exonum.Node.State.VotesKept.{majority_prevotes_kept, majority_precommits_kept}
use exonum.Node.State.Progress.{
  Kept, Locked, LockedBy, Majority, Within, core, Progress-refl, Progress-trans, Still-refl,
  own_prevote, own_precommit,
}
use exonum.Node.Handler.{Node, modify, for_each, ◌>>=◌}
use exonum.Node.Handler.Steps.{Regime, Ends, Steps, step_rules, Steps-modify}
use exonum.Node.Handler.Kept.{kept}
use exonum.Node.Handler.Sending.Kept.{sending_kept}
use exonum.Node.Basic.Kept.{handle_status-Steps, handle_status_timeout-Steps}
use exonum.Node.Consensus.Commit.{commit, take_queued}
use exonum.Node.Consensus.Commit.Kept.{commit-Kept, replays-Kept}
use exonum.Node.Consensus.Handlers.{handle_consensus}
use exonum.Node.Consensus.Handlers.Kept.{handle_consensus-Kept}
use exonum.Node.Consensus.Blocks.Kept.{handle_block-Steps}
use exonum.Node.Consensus.Timeouts.Kept.{
  handle_request_timeout-Steps, handle_new_round-Steps, handle_round_timeout-Steps,
  handle_propose_timeout-Steps,
}
use exonum.Node.Consensus.Transactions.Kept.{
  handle_txs_batch-Steps, handle_tx-Steps, handle_incoming_tx-Steps,
}
use exonum.Node.Events.{
  Event, Reaches, handle_event, flush_txs_into_pool, empty_cache, flush_after,
  maybe_add_flush_pool_timeout,
}

module _ {c : Chain} {R : Regime c} where
  uncache_step : Steps R (modify empty_cache)
  unfolding empty_cache
  uncache_step = Steps-modify _ (λ s. Still-refl (core s))

  flush-Steps : Steps R flush_txs_into_pool
  unfolding flush_txs_into_pool
  flush-Steps = search (step_rules, uncache_step) depth 20

  flush_after-Steps : (strategy : FlushPoolStrategy) → Steps R (flush_after strategy)
  unfolding flush_after
  flush_after-Steps FlushPoolStrategy.never = search (step_rules)
  flush_after-Steps FlushPoolStrategy.immediate = search (step_rules)
  flush_after-Steps (FlushPoolStrategy.timeout t) = search (step_rules, sending_kept)

  flush_timeout-Steps : Steps R maybe_add_flush_pool_timeout
  unfolding maybe_add_flush_pool_timeout
  flush_timeout-Steps = search (step_rules, flush_after-Steps)

module _ {c : Chain} {R : Regime c} (d : c.debug ≡ true) (fuel : ℕ)
    (commits : (hash : Hash) (precommits : List (Verified Precommit))
      → Steps R (commit (handle_consensus fuel) hash precommits))
    (replays : Steps R (take_queued >>= λ queued. for_each queued (handle_consensus fuel))) where
  -- Every event, in any regime in which its parts do as they should.
  pub handle_event-Steps :
      (e : Event c)
      → ((msg : ConsensusMessage) → e ≡ Event.consensus msg → Steps R (handle_consensus fuel msg))
      → Steps R (handle_event fuel e)
  unfolding handle_event
  handle_event-Steps (Event.consensus msg) h = h msg refl
  handle_event-Steps (Event.status msg) h = handle_status-Steps msg
  handle_event-Steps (Event.any_tx tx) h = search (step_rules, handle_tx-Steps, commits)
  handle_event-Steps (Event.block_response msg) h = handle_block-Steps _ commits msg
  handle_event-Steps (Event.transactions_response msg) h =
      search (step_rules, handle_txs_batch-Steps)
  handle_event-Steps (Event.transaction tx) h = handle_incoming_tx-Steps _ commits tx
  handle_event-Steps (Event.jump_to_round epoch round) h =
      handle_new_round-Steps _ commits d replays epoch round
  handle_event-Steps (Event.round_timeout epoch round) h =
      handle_round_timeout-Steps _ commits d replays epoch round
  handle_event-Steps (Event.request_timeout r peer) h = handle_request_timeout-Steps r peer
  handle_event-Steps (Event.status_timeout epoch) h = handle_status_timeout-Steps epoch
  handle_event-Steps (Event.propose_timeout epoch round) h =
      handle_propose_timeout-Steps _ commits d replays epoch round
  handle_event-Steps Event.flush_pool_timeout h =
      search (step_rules, flush-Steps, flush_timeout-Steps)

module _ {c : Chain} where
  lock_of :
      (s : State c) (h : Hash)
      → s.locked_propose ≡ some h
      → Locked (core s)
      → Majority s.locked_round h (core s)
  lock_of s h e l =
      subst
        (λ o.
          LockedBy o s.locked_round (byzantine_quorum (length s.config.validator_keys)) s.prevotes)
        e l

module _ {c : Chain} (d : c.debug ≡ true) where
  -- Every event, with any fuel.
  pub handle_event-Kept : (fuel : ℕ) (e : Event c) → Steps (kept c) (handle_event fuel e)
  handle_event-Kept fuel e =
      handle_event-Steps d fuel (commit-Kept d _ (handle_consensus-Kept d fuel))
        (replays-Kept _ (handle_consensus-Kept d fuel)) e
        (λ msg _. handle_consensus-Kept d fuel msg)

  pub Reaches-Kept : (n k : Node c) → Reaches n k → Kept n.state k.state
  Reaches-Kept n _ (Reaches.start _) = Progress-refl (core n.state)
  Reaches-Kept n k (Reaches.handled {m = m} _ fuel e r h) =
      Progress-trans (core n.state) (core m.state) (core k.state) (Reaches-Kept n m r)
        (subst (Ends Kept (λ s. Unit) m.state) h ((handle_event-Kept fuel e).at m))

  within :
      (n k : Node c)
      → Reaches n k
      → k.state.epoch ≡ n.state.epoch
      → Within (core n.state) (core k.state)
  within n k reach same = elim (Reaches-Kept n k reach).0 [
    | inl h ↦ absurd (omega arith)
    | inr h ↦ h
  ]

  -- A node that has prevoted in a round keeps that prevote as long as it is in the same epoch, so that
  -- it never prevotes differently in that round.
  pub prevote_stays :
      (n k : Node c) (r : ℕ) (m : Verified Prevote)
      → Reaches n k
      → k.state.epoch ≡ n.state.epoch
      → own_prevote n.state.validator_state r ≡ some m
      → own_prevote k.state.validator_state r ≡ some m
  prevote_stays n k r m reach same h = (within n k reach same).prevote_kept r m h

  -- A node that has precommitted in a round does not precommit for another propose in that round, as
  -- long as it is in the same epoch.
  pub precommit_stays :
      (n k : Node c) (r : ℕ) (h : Hash)
      → Reaches n k
      → k.state.epoch ≡ n.state.epoch
      → own_precommit n.state.validator_state r ≡ some h
      → own_precommit k.state.validator_state r ≡ some h
  precommit_stays n k r h reach same e = (within n k reach same).precommit_kept r h e

  -- The epoch never goes back. In the same epoch neither do the round and the locked round, and the
  -- node is on the same block with the same configuration.
  pub rounds_rise :
      (n k : Node c)
      → Reaches n k
      → (n.state.epoch < k.state.epoch)
        ⊎ ((k.state.epoch ≡ n.state.epoch)
            × (n.state.round ≤ k.state.round)
            × (n.state.locked_round ≤ k.state.locked_round)
            × (k.state.blockchain_height ≡ n.state.blockchain_height)
            × (k.state.last_hash ≡ n.state.last_hash)
            × (k.state.config ≡ n.state.config))
  rounds_rise n k reach = elim (Reaches-Kept n k reach).0 [
    | inl h ↦ inl h
    | inr h ↦ inr (h.epoch, h.round, h.locked_round, h.height, h.last_hash, h.config)
  ]

  -- A node that is locked in the same epoch on the same round as before is locked on the same propose.
  pub lock_stays :
      (n k : Node c)
      → Reaches n k
      → k.state.epoch ≡ n.state.epoch
      → k.state.locked_round ≡ n.state.locked_round
      → k.state.locked_propose ≡ n.state.locked_propose
  lock_stays n k reach same e = (within n k reach same).locked_propose (sym e)

  -- A majority of prevotes that a node has seen for a propose in a round stays in the epoch.
  pub majority_prevotes_stay :
      (n k : Node c) (r : ℕ) (h : Hash)
      → Reaches n k
      → k.state.epoch ≡ n.state.epoch
      → has_majority_prevotes n.state r h ≡ true
      → has_majority_prevotes k.state r h ≡ true
  majority_prevotes_stay n k r h reach same =
      majority_prevotes_kept n.state k.state r h (within n k reach same)

  -- A majority of precommits that a node has seen for a block in a round stays in the epoch.
  pub majority_precommits_stay :
      (n k : Node c) (r : ℕ) (h : Hash)
      → Reaches n k
      → k.state.epoch ≡ n.state.epoch
      → has_majority_precommits n.state r h ≡ true
      → has_majority_precommits k.state r h ≡ true
  majority_precommits_stay n k r h reach same =
      majority_precommits_kept n.state k.state r h (within n k reach same)

  -- In a build with debug assertions, a node whose lock, if it has one, is on a propose with a majority
  -- of prevotes in the locked round, and that is in the locked round 0 if it has none, is locked only on
  -- such proposes after any number of handled events.
  pub lock_majority :
      (n k : Node c) (h : Hash)
      → Reaches n k
      → Locked (core n.state)
      → k.state.locked_propose ≡ some h
      → has_majority_prevotes k.state k.state.locked_round h ≡ true
  unfolding has_majority_prevotes majority_count
  lock_majority n k h reach before locked =
      lock_of k.state h locked ((Reaches-Kept n k reach).1 before)
