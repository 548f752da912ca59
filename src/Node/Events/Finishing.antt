-- ===== src/Node/Events/Finishing.antt =====
-- exonum-node/src/events_impl.rs: the handling of an event ends, in a build with debug assertions.
use exonum.Prelude.{ℕ, ◌+◌, ◌≤◌, ◌≡◌, refl, ◌⊎◌, inl, inr, true, Bool-cases, leb, All-map, arith}
use exonum.Node.Messages.{ConsensusMessage, epoch}
use exonum.Node.Chain.{Chain}
use exonum.Node.Handler.{Node, Outcome}
use exonum.Node.Handler.Steps.{Ends, Steps}
use exonum.Node.Handler.Finishing.{QueuedUpTo, QueuedNear, Rising, Enough, finishing}
use exonum.Node.Consensus.Commit.Finishing.{commit_finishes_early, replays_finish}
use exonum.Node.Consensus.Handlers.{handle_consensus}
use exonum.Node.Consensus.Handlers.Finishing.{far_finishes, handle_consensus_finishes}
use exonum.Node.Events.{Event, handle_event}
use exonum.Node.Events.Kept.{handle_event-Steps}

module _ {c : Chain} (d : c.debug ≡ true) where
  other_finishes :
      (bound fuel : ℕ) (e : Event c)
      → ((msg : ConsensusMessage) → e ≡ Event.consensus msg → epoch msg ≤ bound)
      → Steps (finishing c bound 1 fuel) (handle_event fuel e)
  other_finishes bound fuel e h =
      let hc = handle_consensus_finishes d bound fuel in
      handle_event-Steps d fuel (commit_finishes_early d bound fuel (handle_consensus fuel) hc)
        (replays_finish bound 1 fuel (handle_consensus fuel) hc) e (λ msg q. hc msg (h msg q))

  -- a message that is later than the next epoch is skipped
  event_finishes :
      (bound fuel : ℕ) (e : Event c) (n : Node c)
      → bound ≡ n.state.epoch + 1
      → Ends (Rising bound) (λ s. Enough bound 1 fuel s → ⊥) n.state (handle_event fuel e n)
  unfolding handle_event
  event_finishes bound fuel (Event.consensus msg) n b = elim (Bool-cases (leb (epoch msg) bound)) [
    | inl near ↦ (handle_consensus_finishes d bound fuel msg (ground arith)).at n
    | inr far ↦ far_finishes d bound fuel msg n (ground arith)
  ]
  event_finishes bound fuel e n b = (other_finishes bound fuel e (λ msg e. absurd (cc))).at n

  queue_after :
      (n : Node c) (o : Outcome (Node c) (Unit {0})) (bound fuel : ℕ)
      → Ends (Rising bound) (λ s. Enough bound 1 fuel s → ⊥) n.state o
      → bound ≡ n.state.epoch + 1
      → 3 ≤ fuel
      → QueuedUpTo bound n.state
      → (o ≡ Outcome.panicked) ⊎ ((k : Node c) × (o ≡ Outcome.done tt k) × QueuedNear k.state)
  queue_after n (Outcome.done tt k) bound fuel h b f q =
      inr (k, refl, All-map _ _ k.state.queued (λ m l. omega (arith, (h q).0)) (h q).1)
  queue_after n Outcome.panicked bound fuel h b f q = inl refl
  queue_after n Outcome.out_of_fuel bound fuel h b f q = absurd (h (q, omega arith))

  -- In a build with debug assertions, a node in which no message is queued that is later than the next
  -- epoch handles every event to its end, or panics, with fuel for three nested calls of
  -- `handle_consensus`; and no message is queued afterwards that is later than the next epoch.
  pub handle_event_finishes :
      (fuel : ℕ) (e : Event c) (n : Node c)
      → 3 ≤ fuel
      → QueuedNear n.state
      → (handle_event fuel e n ≡ Outcome.panicked)
        ⊎ ((k : Node c) × (handle_event fuel e n ≡ Outcome.done tt k) × QueuedNear k.state)
  handle_event_finishes fuel e n enough q =
      queue_after n (handle_event fuel e n) (n.state.epoch + 1) fuel
        (event_finishes (n.state.epoch + 1) fuel e n refl) refl enough q
