-- ===== src/Node/Consensus/Handlers/Finishing.antt =====
-- exonum-node/src/consensus.rs: the handling of a consensus message ends.
use exonum.Prelude.{
  ℕ, zero, suc, ◌+◌, ◌≤◌, ◌<◌, ◌≡◌, sym, subst, some, ◌⊎◌, inl, inr, true, Bool-cases, ltb, [], ◌∷◌,
  All-append, arith, Option-cases,
}
use exonum.Helpers.Height
use exonum.Node.Messages.{ConsensusMessage, epoch}
use exonum.Node.Chain.{Chain}
use exonum.Node.Handler.{Node, Outcome, M, spent, pure, gets, lift, is_enabled, ◌>>=◌}
use exonum.Node.Handler.Steps.{Regime, Ends, Steps, Moves-Steps, Moves-modify, Ends-weaken}
use exonum.Node.Handler.Finishing.{Rising, Enough, finishing}
use exonum.Node.Consensus.Commit.Finishing.{commit_finishes}
use exonum.Node.Consensus.Handlers.{add_queued, from_near, handle_consensus_step, handle_consensus}
use exonum.Node.Consensus.Handlers.Kept.{handle_consensus_step-Steps}

module _ {c : Chain} where
  add_queued_finishes :
      (bound k fuel : ℕ) (msg : ConsensusMessage)
      → epoch msg ≤ bound
      → Steps (finishing c bound k fuel) (add_queued msg)
  unfolding add_queued
  add_queued_finishes bound k fuel msg le = Moves-Steps (finishing c bound k fuel) _ (
      Moves-modify _
        (λ s q. (omega arith, All-append (λ m. epoch m ≤ bound) s.queued (msg ∷ []) q (le, tt))))

  -- a message of an old epoch is only logged
  old_skipped :
      (again : ConsensusMessage → M c (Unit {0})) (msg : ConsensusMessage) (n : Node c)
      → epoch msg < n.state.epoch
      → (handle_consensus_step again msg n ≡ Outcome.done tt n)
        ⊎ (handle_consensus_step again msg n ≡ Outcome.panicked)
  unfolding handle_consensus_step from_near is_enabled gets lift pure ◌>>=◌
  old_skipped again msg n old = ground arith

  -- so is one that is later than the next epoch
  far_skipped :
      (d : c.debug ≡ true) (again : ConsensusMessage → M c (Unit {0})) (msg : ConsensusMessage)
      (n : Node c)
      → n.state.epoch + 1 < epoch msg
      → (handle_consensus_step again msg n ≡ Outcome.done tt n)
        ⊎ (handle_consensus_step again msg n ≡ Outcome.panicked)
  unfolding handle_consensus_step from_near is_enabled gets lift pure ◌>>=◌
  far_skipped d again msg n far = elim (Option-cases (Height.next c.debug n.state.epoch)) [
    | inl e ↦ ground arith
    | inr (next, e) ↦
        let exact : next ≡ n.state.epoch + 1 =
          Height.next_exact n.state.epoch
            (subst (λ b. Height.next b n.state.epoch ≡ some next) d e) in
        ground arith
  ]

  Ends-skipped :
      (R : Regime c) (n : Node c) (o : Outcome (Node c) (Unit {0}))
      → (o ≡ Outcome.done tt n) ⊎ (o ≡ Outcome.panicked)
      → Ends R.Step R.Spent n.state o
  Ends-skipped R n o (inl e) = subst (Ends R.Step R.Spent n.state) (sym e) (R.reflexive n.state)
  Ends-skipped R n o (inr e) = subst (Ends R.Step R.Spent n.state) (sym e) tt

-- a message that is not later than the bound, with fuel for the epochs up to it and one more
pub handle_consensus_finishes :
    {c : Chain}
    → c.debug ≡ true
    → (bound fuel : ℕ) (msg : ConsensusMessage) → epoch msg ≤ bound
    → Steps (finishing c bound 1 fuel) (handle_consensus fuel msg)
unfolding handle_consensus spent
handle_consensus_finishes d bound zero msg le = record { at = λ n e. omega (arith, e.1) }
handle_consensus_finishes {c} d bound (suc fuel) msg le = record {
  at = λ n. elim (Bool-cases (ltb (epoch msg) n.state.epoch)) [
    | inl old ↦
        Ends-skipped (finishing c bound 1 (suc fuel)) n _
          (old_skipped (handle_consensus fuel) msg n (ground arith))
    | inr near ↦
        Ends-weaken (Rising bound) (Rising bound) (λ s. Enough bound 0 fuel s → ⊥)
          (λ s. Enough bound 1 (suc fuel) s → ⊥) n.state _ (λ t l. l)
          (λ k e. k (e.0, ground (arith, e.1)))
          ((handle_consensus_step-Steps (handle_consensus fuel)
              (commit_finishes d bound fuel (handle_consensus fuel)
                (handle_consensus_finishes d bound fuel))
              msg (add_queued_finishes bound 0 fuel msg le)).at
            n)
  ];
}

pub far_finishes :
    {c : Chain}
    → c.debug ≡ true
    → (bound fuel : ℕ) (msg : ConsensusMessage) (n : Node c) → n.state.epoch + 1 < epoch msg
    → Ends (Rising bound) (λ s. Enough bound 1 fuel s → ⊥) n.state (handle_consensus fuel msg n)
unfolding handle_consensus spent
far_finishes d bound zero msg n far = λ e. omega (arith, e.1)
far_finishes {c} d bound (suc fuel) msg n far =
    Ends-skipped (finishing c bound 1 (suc fuel)) n _
      (far_skipped d (handle_consensus fuel) msg n far)
