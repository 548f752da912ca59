-- ===== src/Node/Consensus/Handlers/Kept.antt =====
-- exonum-node/src/consensus.rs: the handlers of consensus messages keep what the consensus rests
-- on, in a build with debug assertions.
use exonum.Prelude.{
  ℕ, zero, suc, ◌≡◌, true, Bool, Option, none, some, List, [], ◌∷◌, ◌++◌, inl, inr, Bool-cases, leb,
}
use exonum.Prelude.Panic.{Returns, Returns-bind}
use exonum.Prelude.Eq.{nat_eq}
use exonum.Prelude.BTreeMap
use exonum.Node.Messages.{
  Hash, PublicKey, Verified, Propose, Prevote, Precommit, ConsensusMessage, propose, prevote,
  precommit,
}
use exonum.Node.Chain.{Chain}
use exonum.Node.State.{State, ProposeState}
use exonum.Node.State.Rounds.{update_validator_round, actual_round, known_round}
use exonum.Node.State.Proposes.{AddPropose, add_propose}
use exonum.Node.State.Proposes.Kept.{AddStill, add_propose-Still}
use exonum.Node.State.Progress.{Still, core, Still-refl, Within-queued}
use exonum.Node.State.VotesKept.{add_prevote-Still, add_precommit-Still}
use exonum.Node.State.Voting.{add_prevote, add_precommit}
use exonum.Node.Handler.{M, run, spent}
use exonum.Node.Handler.Kept.{kept}
use exonum.Node.Consensus.Commit.Kept.{commit-Kept}
use exonum.Node.Handler.Steps.{
  Regime, Steps, Steps-bind, Moves-Steps, Moves-modify, step_rules, Steps-run,
}
use exonum.Node.Handler.Sending.Kept.{sending_kept}
use exonum.Node.Consensus.Commit.{commit}
use exonum.Node.Consensus.Broadcast.Kept.{broadcast_kept}
use exonum.Node.Consensus.Locking.Kept.{locking_kept}
use exonum.Node.Consensus.Handlers.{
  assert_author, added, try_add_propose, add_queued, schedule_jump, queue_message, full_or_request,
  handle_propose, handle_prevote, request_unknown, handle_precommit, dispatch, from_near,
  handle_consensus_step, handle_consensus,
}

module _ {c : Chain} {R : Regime c} where
  assert_author-Steps : (from : PublicKey) (v : ℕ) → Steps R (assert_author from v)
  unfolding assert_author
  assert_author-Steps from v = search (step_rules) depth 20

module _ {c : Chain} where
  added-Still : (s : State c) (r : AddPropose (State c)) → AddStill s r → Still s (added s r).1
  unfolding added
  added-Still s (AddPropose.added p s') h = h
  added-Still s AddPropose.already_found h = Still-refl (core s)
  added-Still s AddPropose.already_committed h = Still-refl (core s)

module _ {c : Chain} {R : Regime c} where
  add_step :
      (l : c.Ledger) (msg : Verified Propose)
      → Steps R (run (λ s. some (added s (add_propose s l msg))))
  add_step l msg = Steps-run _ λ s. added-Still s (add_propose s l msg) (add_propose-Still s l msg)

  try_add_propose-Steps : (msg : Verified Propose) → Steps R (try_add_propose msg)
  unfolding try_add_propose
  try_add_propose-Steps msg = search (step_rules, add_step)

module _ {c : Chain} where
  validator_round-Still :
      (v r : ℕ) (s : State c)
      → Returns (λ (x : Option ℕ × State c). Still s x.1) (update_validator_round s v r)
  unfolding update_validator_round
  validator_round-Still v r s = elim (Bool-cases (leb r (known_round s.validators_rounds v))) [
    | inl e ↦ rw e (Still-refl (core s))
    | inr e ↦ rw e (
        Returns-bind (λ (x : Option ℕ × State c). Still s x.1)
          (actual_round (record s { validators_rounds = BTreeMap.insert s.validators_rounds v r }))
          _ (λ _ _. Still-refl (core s)))
  ]

module _ {c : Chain} {R : Regime c} where
  schedule_jump-Steps : (r : Option ℕ) → Steps R (schedule_jump r)
  unfolding schedule_jump
  schedule_jump-Steps none = search (step_rules)
  schedule_jump-Steps (some r) = search (step_rules)

  -- where a message may be queued
  queue_message-Steps :
      (msg : ConsensusMessage) → Steps R (add_queued msg) → Steps R (queue_message msg)
  unfolding queue_message
  queue_message-Steps msg q =
      Steps-bind (add_queued msg) _ q
        (λ _. search (step_rules, Steps-run, validator_round-Still, schedule_jump-Steps) depth 20)

  prevote_step : (msg : Verified Prevote) → Steps R (run (λ s. add_prevote s msg))
  prevote_step msg = Steps-run _ (λ s. add_prevote-Still s msg)

  precommit_step : (msg : Verified Precommit) → Steps R (run (λ s. add_precommit s msg))
  precommit_step msg = Steps-run _ (λ s. add_precommit-Still s msg)

  request_unknown-Steps :
      (p : Option ProposeState) (hash : Hash) (from : PublicKey)
      → Steps R (request_unknown p hash from)
  unfolding request_unknown
  request_unknown-Steps none hash from = search (sending_kept)
  request_unknown-Steps (some p) hash from = search (step_rules)

module _ {c : Chain} {R : Regime c} (again : ConsensusMessage → M c (Unit {0}))
    (commits : (hash : Hash) (precommits : List (Verified Precommit))
      → Steps R (commit again hash precommits)) where
  full_or_request-Steps :
      (from : PublicKey) (msg : Verified Propose) (r : Option Bool)
      → Steps R (full_or_request again from msg r)
  unfolding full_or_request
  full_or_request-Steps from msg none = search (step_rules)
  full_or_request-Steps from msg (some unknown) =
      search (step_rules, sending_kept, locking_kept) depth 20

  handle_propose-Steps :
      (from : PublicKey) (msg : Verified Propose) → Steps R (handle_propose again from msg)
  unfolding handle_propose
  handle_propose-Steps from msg =
      search (step_rules, assert_author-Steps, try_add_propose-Steps, full_or_request-Steps) depth
        20

  handle_prevote-Steps :
      (from : PublicKey) (msg : Verified Prevote) → Steps R (handle_prevote again from msg)
  unfolding handle_prevote
  handle_prevote-Steps from msg =
      search
        (step_rules, assert_author-Steps, prevote_step, sending_kept, broadcast_kept, locking_kept)
        depth 20

  handle_precommit-Steps :
      (from : PublicKey) (msg : Verified Precommit) → Steps R (handle_precommit again from msg)
  unfolding handle_precommit
  handle_precommit-Steps from msg =
      search
        (
          step_rules, assert_author-Steps, precommit_step, sending_kept, broadcast_kept,
          locking_kept, request_unknown-Steps,
        )
        depth 20

  dispatch-Steps : (msg : ConsensusMessage) → Steps R (dispatch again msg)
  unfolding dispatch
  dispatch-Steps (propose msg) = handle_propose-Steps msg.author msg
  dispatch-Steps (prevote msg) = handle_prevote-Steps msg.author msg
  dispatch-Steps (precommit msg) = handle_precommit-Steps msg.author msg

  from_near-Steps :
      (msg : ConsensusMessage) (current : ℕ)
      → Steps R (add_queued msg)
      → Steps R (from_near again msg current)
  unfolding from_near
  from_near-Steps msg current q =
      let queue : Unit {0} → Steps R (queue_message msg) = λ _. queue_message-Steps msg q in
      search (step_rules, queue, dispatch-Steps) depth 20

  pub handle_consensus_step-Steps :
      (msg : ConsensusMessage)
      → Steps R (add_queued msg)
      → Steps R (handle_consensus_step again msg)
  unfolding handle_consensus_step
  handle_consensus_step-Steps msg q =
      let near : (current : ℕ) → Steps R (from_near again msg current) =
        λ current. from_near-Steps msg current q in
      search (step_rules, near) depth 20

module _ {c : Chain} where
  add_queued-Kept : (msg : ConsensusMessage) → Steps (kept c) (add_queued msg)
  unfolding add_queued
  add_queued-Kept msg =
      Moves-Steps (kept c) _
        (Moves-modify _ (λ s. (inr (Within-queued (core s) (s.queued ++ msg ∷ [])), λ l. l)))

pub handle_consensus-Kept :
    {c : Chain}
    → c.debug ≡ true
    → (fuel : ℕ) (msg : ConsensusMessage) → Steps (kept c) (handle_consensus fuel msg)
unfolding handle_consensus spent
handle_consensus-Kept d zero msg = record { at = λ n. tt }
handle_consensus-Kept d (suc fuel) msg =
    handle_consensus_step-Steps (handle_consensus fuel)
      (commit-Kept d (handle_consensus fuel) (handle_consensus-Kept d fuel)) msg
      (add_queued-Kept msg)
