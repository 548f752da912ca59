-- ===== src/Node/Consensus/Blocks/Kept.antt =====
-- exonum-node/src/consensus.rs: the handlers of blocks keep what the consensus rests on, in a build
-- with debug assertions.
use exonum.Prelude.{not, Option, none, some, List}
use exonum.Prelude.Panic.{Returns-bind, assert, debug_assert}
use exonum.Node.Messages.{PublicKey, Verified, Precommit, BlockResponse, ConsensusMessage, Hash}
use exonum.Node.Chain.{Chain}
use exonum.Node.State.{State, IncompleteBlock, RequestData}
use exonum.Node.State.Blocks.{
  create_incomplete_block, take_completed_block, collect_unknown, is_none, lacks_txs,
}
use exonum.Node.State.Progress.{Still, core, Still-refl}
use exonum.Node.Handler.{M, run}
use exonum.Node.Handler.Steps.{Regime, Steps, step_rules, Steps-run}
use exonum.Node.Handler.Sending.Kept.{sending_kept}
use exonum.Node.Consensus.Broadcast.Kept.{broadcast_kept, add_block_step}
use exonum.Node.Consensus.Commit.{commit}
use exonum.Node.Consensus.Blocks.{
  ask_block, request_next_block, execute_block, handle_full_block, wait_for_txs, accept_block,
  handle_block,
}

module _ {c : Chain} {R : Regime c} where
  ask_block-Steps : (r : Option (PublicKey × RequestData)) → Steps R (ask_block r)
  unfolding ask_block
  ask_block-Steps none = search (step_rules)
  ask_block-Steps (some (peer, d)) = search (sending_kept)

  pub request_next_block-Steps : Steps R request_next_block
  unfolding request_next_block
  request_next_block-Steps = search (step_rules, ask_block-Steps) depth 20

  execute_block-Steps : (b : IncompleteBlock c.Block) → Steps R (execute_block b)
  unfolding execute_block
  execute_block-Steps b = search (step_rules, broadcast_kept, add_block_step) depth 20

  take_completed_step : Steps R (run take_completed_block)
  unfolding take_completed_block
  take_completed_step = Steps-run _ λ s.
      Returns-bind (λ (r : IncompleteBlock c.Block × State c). Still s r.1) s.incomplete_block _
        λ b _.
          Returns-bind (λ (r : IncompleteBlock c.Block × State c). Still s r.1)
            (debug_assert c.debug (not (lacks_txs b))) _ (λ _ _. Still-refl (core s))

  create_incomplete_step :
      (l : c.Ledger) (b : IncompleteBlock c.Block)
      → Steps R (run (λ s. create_incomplete_block s l b))
  unfolding create_incomplete_block
  create_incomplete_step l b = Steps-run _ λ s.
      Returns-bind (λ (r : IncompleteBlock c.Block × State c). Still s r.1)
        (assert (is_none s.incomplete_block)) _
        λ _ _.
          Returns-bind (λ (r : IncompleteBlock c.Block × State c). Still s r.1)
            (collect_unknown s l b.transactions b.unknown_txs) _ (λ _ _. Still-refl (core s))

module _ {c : Chain} {R : Regime c} (again : ConsensusMessage → M c (Unit {0}))
    (commits : (hash : Hash) (precommits : List (Verified Precommit))
      → Steps R (commit again hash precommits)) where
  pub handle_full_block-Steps : Steps R (handle_full_block again)
  unfolding handle_full_block
  handle_full_block-Steps =
      search
        (step_rules, take_completed_step, execute_block-Steps, commits, request_next_block-Steps)
        depth 20

  wait_for_txs-Steps :
      (sender : PublicKey) (m : BlockResponse c.Block) (precommits : List (Verified Precommit))
      → Steps R (wait_for_txs again sender m precommits)
  unfolding wait_for_txs
  wait_for_txs-Steps sender m precommits =
      search (step_rules, create_incomplete_step, sending_kept, handle_full_block-Steps) depth 20

  accept_block-Steps :
      (sender : PublicKey) (m : BlockResponse c.Block)
      (precommits : Option (List (Verified Precommit)))
      → Steps R (accept_block again sender m precommits)
  unfolding accept_block
  accept_block-Steps sender m none = search (step_rules)
  accept_block-Steps sender m (some precommits) =
      search (step_rules, commits, request_next_block-Steps, wait_for_txs-Steps) depth 20

  pub handle_block-Steps :
      (msg : Verified (BlockResponse c.Block)) → Steps R (handle_block again msg)
  unfolding handle_block
  handle_block-Steps msg = search (step_rules, accept_block-Steps) depth 20
