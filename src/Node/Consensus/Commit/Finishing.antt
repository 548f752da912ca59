-- ===== src/Node/Consensus/Commit/Finishing.antt =====
-- exonum-node/src/consensus.rs: a commit ends, where the handling of each queued message does.
use exonum.Prelude.{ℕ, ◌≤◌, ◌≡◌, sym, subst, true, List, [], ◌∷◌, All, arith}
use exonum.Node.Messages.{Hash, Verified, Precommit, ConsensusMessage, epoch}
use exonum.Node.Chain.{Chain}
use exonum.Node.State.{State}
use exonum.Node.Handler.{M, run, ◌>>=◌, for_each}
use exonum.Node.Handler.Steps.{
  Steps, Steps-Moves, Moves-Steps, Moves-weaken, Moves-compose, Ends-trans, Steps-pure, Steps-bind,
}
use exonum.Node.Handler.Kept.{Later, Never}
use exonum.Node.Handler.Finishing.{Rising, Enough, finishing, Ends-queued}
use exonum.Node.Consensus.Commit.{commit, commit_block, take_queued}
use exonum.Node.Consensus.Commit.Kept.{commit_block-Later}

module _ {c : Chain} (bound k fuel : ℕ) (again : ConsensusMessage → M c (Unit {0}))
    (h : (m : ConsensusMessage)
      → epoch m ≤ bound
      → Steps (finishing c bound k fuel) (again m)) where
  each_finishes :
      (queued : List ConsensusMessage)
      → All (λ m. epoch m ≤ bound) queued
      → Steps (finishing c bound k fuel) (for_each queued again)
  unfolding for_each
  each_finishes [] q = Steps-pure tt
  each_finishes (m ∷ queued) q = Steps-bind (again m) _ (h m q.0) (λ _. each_finishes queued q.1)

  pub replays_finish :
      Steps (finishing c bound k fuel) (take_queued >>= λ queued. for_each queued again)
  unfolding take_queued run ◌>>=◌
  replays_finish = record {
    at = λ n. Ends-queued bound k fuel n.state _ λ q.
        Ends-trans (finishing c bound k fuel) n.state (record n.state { queued = [] }) _
          (λ _. (omega arith, tt))
          ((each_finishes n.state.queued q).at
            (record n { state = record n.state { queued = [] } }));
  }

module _ {c : Chain} (d : c.debug ≡ true) (bound fuel : ℕ)
    (again : ConsensusMessage → M c (Unit {0}))
    (h : (m : ConsensusMessage)
      → epoch m ≤ bound
      → Steps (finishing c bound 1 fuel) (again m)) where
  -- a commit raises the epoch, so that fuel for one epoch less is left
  pub commit_finishes :
      (hash : Hash) (precommits : List (Verified Precommit))
      → Steps (finishing c bound 0 fuel) (commit again hash precommits)
  unfolding commit
  commit_finishes hash precommits =
      let rest = replays_finish bound 1 fuel again h in
      let spent_later : (s t : State c)
          → Later s t
          → (Enough bound 1 fuel t → ⊥)
          → Enough bound 0 fuel s
          → ⊥ =
        λ s t l k e.
          k (subst (All (λ m. epoch m ≤ bound)) (sym l.1) e.0, omega (arith, l.0, e.1)) in
      Moves-Steps (finishing c bound 0 fuel) _ (
        Moves-compose Later (Rising bound) (Rising bound) (λ s. Enough bound 1 fuel s → ⊥)
          (λ s. Enough bound 0 fuel s → ⊥) (commit_block hash precommits) _
          (λ s t u l k q.
            let (later, queued) = k (subst (All (λ m. epoch m ≤ bound)) (sym l.1) q) in
            (omega (arith, l.0, later), queued))
          spent_later
          (Moves-weaken Later Later Never (λ s. Enough bound 0 fuel s → ⊥)
            (commit_block hash precommits) (λ s t l. l) (λ s k. absurd k)
            (commit_block-Later d hash precommits))
          (λ _. Steps-Moves (finishing c bound 1 fuel) _ rest))

  pub commit_finishes_early :
      (hash : Hash) (precommits : List (Verified Precommit))
      → Steps (finishing c bound 1 fuel) (commit again hash precommits)
  commit_finishes_early hash precommits = Moves-Steps (finishing c bound 1 fuel) _ (
      Moves-weaken (Rising bound) (Rising bound) (λ s. Enough bound 0 fuel s → ⊥)
        (λ s. Enough bound 1 fuel s → ⊥) (commit again hash precommits) (λ s t l. l)
        (λ s k e. k (e.0, omega (arith, e.1)))
        (Steps-Moves (finishing c bound 0 fuel) _ (commit_finishes hash precommits)))
