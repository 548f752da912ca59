-- ===== src/Node/Consensus/Broadcast/Kept.antt =====
-- exonum-node/src/consensus.rs: executing a propose and sending votes keeps what the consensus
-- rests on.
use exonum.Prelude.{ℕ, Option, none, some, List, Bool-cases, inl, inr}
use exonum.Prelude.Eq.{nat_eq}
use exonum.Prelude.HashMap
use exonum.Node.Messages.{Hash, PublicKey}
use exonum.Node.Chain.{Chain, BlockPatch, BlockContents}
use exonum.Node.State.{State, ProposeState, RequestData}
use exonum.Node.State.Progress.{Still, core, Still-refl}
use exonum.Node.State.VotesKept.{add_prevote-Still, add_precommit-Still}
use exonum.Node.State.Blocks.{add_block}
use exonum.Node.Handler.{modify}
use exonum.Node.Handler.Steps.{Regime, Steps, step_rules, Steps-run, Steps-modify}
use exonum.Node.Handler.Sending.Kept.{sending_kept}
use exonum.Node.Consensus.Broadcast.{
  propose, the_propose, create_block, set_propose, run_propose, executed, execute, save_propose,
  ensure_saved_propose, broadcast_prevote, broadcast_precommit, ask, request_propose_or_txs,
  check_propose_and_broadcast_prevote, check_propose_and_broadcast_precommit,
}

module _ {c : Chain} {R : Regime c} where
  pub propose-Steps : (hash : Hash) → Steps R (propose hash)
  unfolding propose
  propose-Steps hash = search (step_rules)

  pub the_propose-Steps : (hash : Hash) → Steps R (the_propose hash)
  unfolding the_propose
  the_propose-Steps hash = search (step_rules, propose-Steps)

  pub create_block-Steps :
      (proposer epoch : ℕ) (contents : BlockContents)
      → Steps R (create_block proposer epoch contents)
  unfolding create_block
  create_block-Steps proposer epoch contents = search (step_rules)

module _ {c : Chain} where
  pub add_block-Still :
      (patch : BlockPatch c.Patch) (txs : List Hash) (proposer epoch : ℕ) (s : State c)
      → Still s (add_block s patch txs proposer epoch)
  unfolding add_block
  add_block-Still patch txs proposer epoch s =
      elim (Bool-cases (HashMap.contains_key s.blocks patch.block_hash)) [
        | inl e ↦ rw e (Still-refl (core s))
        | inr e ↦ rw e (Still-refl (core s))
      ]

module _ {c : Chain} {R : Regime c} where
  pub add_block_step :
      (patch : BlockPatch c.Patch) (txs : List Hash) (proposer epoch : ℕ)
      → Steps R (modify (λ s. add_block s patch txs proposer epoch))
  add_block_step patch txs proposer epoch =
      Steps-modify _ (add_block-Still patch txs proposer epoch)

module _ {c : Chain} where
  set_propose-Still :
      (hash : Hash) (p : ProposeState) (s : State c) → Still s (set_propose hash p s)
  unfolding set_propose
  set_propose-Still hash p s = Still-refl (core s)

module _ {c : Chain} {R : Regime c} where
  set_propose_step : (hash : Hash) (p : ProposeState) → Steps R (modify (set_propose hash p))
  set_propose_step hash p = Steps-modify _ (set_propose-Still hash p)

  run_propose-Steps : (hash : Hash) (p : ProposeState) → Steps R (run_propose hash p)
  unfolding run_propose
  run_propose-Steps hash p =
      search (step_rules, create_block-Steps, add_block_step, the_propose-Steps, set_propose_step)
        depth 20

  executed-Steps : (hash : Hash) (p : ProposeState) (h : Option Hash) → Steps R (executed hash p h)
  unfolding executed
  executed-Steps hash p none = run_propose-Steps hash p
  executed-Steps hash p (some h) = search (step_rules)

  pub execute-Steps : (hash : Hash) → Steps R (execute hash)
  unfolding execute
  execute-Steps hash = search (step_rules, the_propose-Steps, executed-Steps)

  save_propose-Steps :
      (round : ℕ) (hash : Hash) (p : Option ProposeState) → Steps R (save_propose round hash p)
  unfolding save_propose
  save_propose-Steps round hash none = search (step_rules)
  save_propose-Steps round hash (some p) = search (step_rules, set_propose_step) depth 20

  pub ensure_saved_propose-Steps :
      (round : ℕ) (hash : Hash) → Steps R (ensure_saved_propose round hash)
  unfolding ensure_saved_propose
  ensure_saved_propose-Steps round hash = search (step_rules, propose-Steps, save_propose-Steps)

  pub broadcast_prevote-Steps : (round : ℕ) (hash : Hash) → Steps R (broadcast_prevote round hash)
  unfolding broadcast_prevote
  broadcast_prevote-Steps round hash =
      search (step_rules, Steps-run, add_prevote-Still, ensure_saved_propose-Steps, sending_kept)
        depth 20

  pub broadcast_precommits :
      (round : ℕ) (hash block_hash : Hash) → Steps R (broadcast_precommit round hash block_hash)
  unfolding broadcast_precommit
  broadcast_precommits round hash block_hash =
      search (step_rules, Steps-run, add_precommit-Still, sending_kept) depth 20

  pub check_propose_and_broadcast_prevote-Steps :
      (round : ℕ) (hash : Hash) → Steps R (check_propose_and_broadcast_prevote round hash)
  unfolding check_propose_and_broadcast_prevote
  check_propose_and_broadcast_prevote-Steps round hash =
      search (step_rules, the_propose-Steps, broadcast_prevote-Steps)

  pub check_propose_and_broadcast_precommits :
      (round : ℕ) (hash block_hash : Hash)
      → Steps R (check_propose_and_broadcast_precommit round hash block_hash)
  unfolding check_propose_and_broadcast_precommit
  check_propose_and_broadcast_precommits round hash block_hash =
      search (step_rules, the_propose-Steps, broadcast_precommits)

  ask-Steps : (d : Option RequestData) (key : PublicKey) → Steps R (ask d key)
  unfolding ask
  ask-Steps none key = search (step_rules)
  ask-Steps (some d) key = search (step_rules, sending_kept)

  pub request_propose_or_txs-Steps :
      (hash : Hash) (key : PublicKey) → Steps R (request_propose_or_txs hash key)
  unfolding request_propose_or_txs
  request_propose_or_txs-Steps hash key = search (step_rules, propose-Steps, ask-Steps)

pub ruleset broadcast_kept = (
  propose-Steps, the_propose-Steps, create_block-Steps, execute-Steps, ensure_saved_propose-Steps,
  check_propose_and_broadcast_prevote-Steps, check_propose_and_broadcast_precommits,
  request_propose_or_txs-Steps,
)
