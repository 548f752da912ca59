-- ===== src/Node/Consensus/Commit/Kept.antt =====
-- exonum-node/src/consensus.rs: a commit ends in a later epoch.
use exonum.Prelude.{ℕ, ◌≡◌, refl, true, List, [], Bool-cases, inl, inr, arith}
use exonum.Prelude.Panic.{Returns-bind, Returns-intro, Returns-apply}
use exonum.Prelude.Eq.{◌==◌}
use exonum.Prelude.Eq.{nat_eq}
use exonum.Prelude.HashMap
use exonum.Helpers.Height
use exonum.Node.Messages.{Hash, Verified, Precommit, ConsensusMessage}
use exonum.Node.Chain.{Chain, BlockKind, ConsensusConfig, config_eq}
use exonum.Node.State.{State, BlockState, update_config, new_height, new_epoch}
use exonum.Node.State.Blocks.{take_block_for_commit}
use exonum.Node.State.Progress.{
  Kept, Still, core, Still-refl, Within-queued, NextEpoch, NextHeight, new_epoch-Progress,
  new_height-Progress,
}
use exonum.Node.Handler.{
  M, Effect, ◌>>=◌, for_each, update, modify, run, ledger, lift, current_time,
}
use exonum.Helpers.Height
use exonum.Node.Handler.Steps.{
  Regime, Steps, Moves, Moves-Steps, Moves-weaken, Moves-modify, Moves-update, Moves-run,
  Steps-bind, Steps-for_each, Steps-ledger, Steps-lift, Steps-current_time, Steps-emit, step_rules,
  Steps-run, Steps-modify,
}
use exonum.Node.Handler.Kept.{kept, up_to, UpTo, Later, Never, Later-rest, Later-first}
use exonum.Node.Handler.Sending.Kept.{sending_kept}
use exonum.Node.Handler.Timers.Kept.{timers_kept}
use exonum.Node.Consensus.Commit.{
  uncache, advance, reject, clean_pool, propose_if_leader, take_queued, commit_block, commit,
}

module _ {c : Chain} {R : Regime c} where
  uncache_step : (hash : Hash) → Steps R (modify (uncache hash))
  unfolding uncache
  uncache_step hash = Steps-modify _ (λ s. Still-refl (core s))

  reject-Steps : (hash : Hash) → Steps R (reject hash)
  unfolding reject
  reject-Steps hash = search (step_rules, uncache_step) depth 20

  pub clean_pool-Steps : Steps R clean_pool
  unfolding clean_pool
  clean_pool-Steps = search (step_rules, reject-Steps) depth 20

  pub propose_if_leader-Steps : Steps R propose_if_leader
  unfolding propose_if_leader
  propose_if_leader-Steps = search (step_rules, timers_kept) depth 20

  take_block_step : (hash : Hash) → Steps R (run (λ s. take_block_for_commit s hash))
  unfolding take_block_for_commit
  take_block_step hash = Steps-run _ λ s.
      Returns-bind (λ (r : BlockState c.Patch × State c). Still s r.1) (HashMap.get s.blocks hash) _
        (λ b e. Still-refl (core s))

module _ {c : Chain} where
  update_config-UpTo : (config : ConsensusConfig) (s : State c) → UpTo s (update_config s config)
  unfolding update_config
  update_config-UpTo config s = elim (Bool-cases (s.config == config)) [
    | inl e ↦ rw e (omega arith, refl)
    | inr e ↦ rw e (omega arith, refl)
  ]

  update_config_step :
      (config : ConsensusConfig) → Steps (up_to c) (modify (λ s. update_config s config))
  update_config_step config = Moves-Steps (up_to c) _ (Moves-modify _ (update_config-UpTo config))

module _ {c : Chain} where
  take_queued-Kept : Steps (kept c) take_queued
  unfolding take_queued
  take_queued-Kept =
      Moves-Steps (kept c) _ (Moves-run _ (λ s. (inr (Within-queued (core s) []), λ l. l)))

  -- the queued messages, each handled
  pub replays-Kept :
      (again : ConsensusMessage → M c (Unit {0}))
      → ((m : ConsensusMessage) → Steps (kept c) (again m))
      → Steps (kept c) (take_queued >>= λ queued. for_each queued again)
  replays-Kept again h =
      Steps-bind take_queued _ take_queued-Kept (λ queued. Steps-for_each queued again h)

module _ {c : Chain} (d : c.debug ≡ true) where
  new_height-Later :
      (hash : Hash) (next now : ℕ)
      → Moves {c = c} Later Never (update (λ s. new_height s hash next now))
  new_height-Later hash next now = Moves-update _ λ s. Returns-intro (Later s) _ λ s' e.
      (let (later, _, locked, queue) =
          Returns-apply (NextHeight s) _ (new_height-Progress s hash next now d) e in
        (later, queue, locked))

  new_epoch-Later : (next now : ℕ) → Moves {c = c} Later Never (update (λ s. new_epoch s next now))
  new_epoch-Later next now = Moves-update _ λ s. Returns-intro (Later s) _ λ s' e.
      (let (later, _, locked, queue) =
          Returns-apply (NextEpoch s) _ (new_epoch-Progress s next now d) e in
        (later, queue, locked))

  pub advance-Later :
      (hash : Hash) (block : BlockState c.Patch) (kind : BlockKind)
      → Moves {c = c} Later Never (advance {c = c} hash block kind)
  unfolding advance
  advance-Later hash block BlockKind.normal = Later-rest ledger _ Steps-ledger λ l.
      Later-rest (modify (λ s. update_config s (c.consensus_config l))) _ (update_config_step _)
        λ _. Later-rest (lift (Height.next c.debug block.epoch)) _ (Steps-lift _) λ next.
          Later-rest current_time _ Steps-current_time λ now.
            Later-first (update (λ s. new_height s hash next now)) _
              (new_height-Later hash next now) λ _. Steps-emit (Effect.after_commit l)
  advance-Later hash block BlockKind.skip =
      Later-rest (lift (Height.next c.debug block.epoch)) _ (Steps-lift _)
        λ next. Later-rest current_time _ Steps-current_time λ now. new_epoch-Later next now

  -- The commit of a block panics, or ends in a later epoch, where the lock, if there is one, is on a
  -- propose with a majority; the queue of messages is the same.
  pub commit_block-Later :
      (hash : Hash) (precommits : List (Verified Precommit))
      → Moves {c = c} Later Never (commit_block hash precommits)
  unfolding commit_block
  commit_block-Later hash precommits =
      search
        (
          Later-rest, Later-first, advance-Later, step_rules, take_block_step, uncache_step,
          clean_pool-Steps, propose_if_leader-Steps, sending_kept, timers_kept,
        )
        depth 30

  pub commit-Kept :
      (again : ConsensusMessage → M c (Unit {0}))
      → ((m : ConsensusMessage) → Steps (kept c) (again m))
      → (hash : Hash) (precommits : List (Verified Precommit))
      → Steps (kept c) (commit again hash precommits)
  unfolding commit
  commit-Kept again h hash precommits =
      Steps-bind (commit_block hash precommits) _
        (Moves-Steps (kept c) _ (
          Moves-weaken Later Kept Never (λ s. Unit) (commit_block hash precommits)
            (λ s t k. (inl k.0, λ _. k.2)) (λ s k. tt) (commit_block-Later hash precommits)))
        (λ _. replays-Kept again h)

pub ruleset commit_kept = (clean_pool-Steps, propose_if_leader-Steps)
