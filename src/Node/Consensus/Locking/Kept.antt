-- ===== src/Node/Consensus/Locking/Kept.antt =====
-- exonum-node/src/consensus.rs: what a majority of votes leads to keeps what the consensus rests on.
use exonum.Prelude.{map, ℕ, ◌≡◌, true, Option, none, some, List, [], ◌∷◌}
use exonum.Prelude.HashMap
use exonum.Prelude.Panic.{Returns-intro, Returns-apply, Returns-bind, debug_assert}
use exonum.Prelude.Eq.{nat_eq, pair_eq}
use exonum.Node.Messages.{Hash, Verified, Precommit, ConsensusMessage}
use exonum.Node.Chain.{Chain}
use exonum.Node.State.{State, ProposeState, majority_count, lock as lock_state}
use exonum.Node.State.Proposes.{
  same_confirmed, add_propose_confirmed_by_majority, take_confirmed_propose,
}
use exonum.Node.State.Blocks.{RoundAction, new_epoch, no_action}
use exonum.Node.State.Voting.{has_majority_prevotes}
use exonum.Node.State.Voting
use exonum.Node.State.Progress.{
  Core, StillCore, Still, Majority, Majority-still, core, Still-refl, lock-Still,
}
use exonum.Node.Handler.{◌>>=◌, gets, save_messages, M, update, run}
use exonum.Node.Handler.Steps.{
  Regime, Steps, Steps-gets, Steps-save_messages, Ends-update, Steps-bind, Steps-pure, step_rules,
  Steps-update, Steps-run,
}
use exonum.Node.Handler.Guarded.{StepsIf, StepsIf-Still, StepsIf-then, Steps-tested}
use exonum.Node.Handler.Sending.Kept.{sending_kept}
use exonum.Node.Consensus.Broadcast.Kept.{broadcast_kept, ensure_saved_propose-Steps}
use exonum.Node.Consensus.Broadcast.{ensure_saved_propose}
use exonum.Node.Consensus.Commit.{commit}
use exonum.Node.Consensus.Locking.{
  may_prevote, may_precommit, prevote_once, execute_and_commit, with_propose,
  handle_majority_precommits, precommit_locked, after_precommit, lock_round, try_round, or_rest,
  lock_rounds, lock, lock_on, handle_majority_prevotes, or_next, full_round, full_rounds, commit_if,
  commit_confirmed, handle_full_propose,
}

module _ {c : Chain} {R : Regime c} where
  may_prevote-Steps : (round : ℕ) → Steps R (may_prevote round)
  unfolding may_prevote
  may_prevote-Steps round = search (step_rules) depth 20

  may_precommits : Steps R may_precommit
  unfolding may_precommit
  may_precommits = search (step_rules) depth 20

  prevote_once-Steps : (round : ℕ) (hash : Hash) → Steps R (prevote_once round hash)
  unfolding prevote_once
  prevote_once-Steps round hash = search (step_rules, may_prevote-Steps, broadcast_kept) depth 20

  confirmed-Steps :
      (round : ℕ) (hash block_hash : Hash)
      → Steps R (update (λ s. add_propose_confirmed_by_majority s round hash block_hash))
  unfolding add_propose_confirmed_by_majority
  confirmed-Steps round hash block_hash = Steps-update _ λ s.
      Returns-bind (Still s)
        (debug_assert c.debug
          (same_confirmed (HashMap.get s.proposes_confirmed_by_majority hash) (round, block_hash)))
        _ (λ _ _. Still-refl (core s))

  take_confirmed-Steps : (hash : Hash) → Steps R (run (λ s. some (take_confirmed_propose s hash)))
  unfolding take_confirmed_propose
  take_confirmed-Steps hash = Steps-run _ (λ s. Still-refl (core s))

module _ {c : Chain} where
  -- a majority that has been tested
  tested-Majority :
      (s : State c) (round : ℕ) (hash : Hash)
      → has_majority_prevotes s round hash ≡ true
      → Majority round hash (core s)
  unfolding has_majority_prevotes majority_count
  tested-Majority s round hash h = h

  Majority-tested :
      (s : State c) (round : ℕ) (hash : Hash)
      → Majority round hash (core s)
      → has_majority_prevotes s round hash ≡ true
  unfolding has_majority_prevotes majority_count
  Majority-tested s round hash h = h

module _ {c : Chain} {R : Regime c} where
  lock_step :
      (round : ℕ) (hash : Hash)
      → StepsIf R (Majority round hash) (update (λ s. lock_state s round hash))
  lock_step round hash = record {
    at = λ n p.
        Ends-update R.Step R.Spent n (λ s. lock_state s round hash)
          (Returns-intro (R.Step n.state) _ λ s e. R.still n.state s (
            Returns-apply (Still n.state) _
              (lock-Still n.state round hash (Majority-tested n.state round hash p)) e));
  }

module _ {c : Chain} {R : Regime c} where
  or_rest-Steps :
      (rest : M c RoundAction) (action : Option RoundAction)
      → Steps R rest
      → Steps R (or_rest rest action)
  unfolding or_rest
  or_rest-Steps rest none h = h
  or_rest-Steps rest (some a) h = search (step_rules)

  or_next-Steps :
      (rest : M c RoundAction) (action : RoundAction) → Steps R rest → Steps R (or_next rest action)
  unfolding or_next
  or_next-Steps rest new_epoch h = search (step_rules)
  or_next-Steps rest no_action h = h

  after_precommits :
      (round : ℕ) (hash : Hash) (action : Option RoundAction)
      → Steps R (after_precommit round hash action)
  unfolding after_precommit
  after_precommits round hash (some a) = search (step_rules)
  after_precommits round hash none = search (step_rules, sending_kept) depth 20

module _ {c : Chain} {R : Regime c} (again : ConsensusMessage → M c (Unit {0}))
    (commits : (hash : Hash) (precommits : List (Verified Precommit))
      → Steps R (commit again hash precommits)) where
  execute_and_commits :
      (round : ℕ) (hash block_hash : Hash)
      → Steps R (execute_and_commit again round hash block_hash)
  unfolding execute_and_commit
  execute_and_commits round hash block_hash = search (step_rules, broadcast_kept, commits) depth 20

  with_propose-Steps :
      (round : ℕ) (hash block_hash : Hash) (p : Option ProposeState)
      → Steps R (with_propose again round hash block_hash p)
  unfolding with_propose
  with_propose-Steps round hash block_hash none = search (step_rules)
  with_propose-Steps round hash block_hash (some p) =
      search (step_rules, sending_kept, execute_and_commits) depth 20

  pub handle_majority_precommits-Steps :
      (round : ℕ) (hash block_hash : Hash)
      → Steps R (handle_majority_precommits again round hash block_hash)
  unfolding handle_majority_precommits
  handle_majority_precommits-Steps round hash block_hash =
      search (step_rules, broadcast_kept, confirmed-Steps, with_propose-Steps) depth 20

  precommit_locked-Steps : (round : ℕ) (hash : Hash) → Steps R (precommit_locked again round hash)
  unfolding precommit_locked
  precommit_locked-Steps round hash =
      search (step_rules, broadcast_kept, may_precommits, handle_majority_precommits-Steps) depth 20

  after_lock-Steps :
      (round : ℕ) (hash : Hash)
      → Steps R (precommit_locked again round hash >>= λ a. after_precommit round hash a)
  after_lock-Steps round hash = search (step_rules, precommit_locked-Steps, after_precommits)

  -- a lock on a round with a majority
  lock_round-StepsIf :
      (prevote_round round : ℕ) (hash : Hash)
      → StepsIf R (Majority round hash) (lock_round again prevote_round round hash)
  unfolding lock_round
  lock_round-StepsIf prevote_round round hash =
      let P = Majority round hash in
      let stays : (a b : Core) → StillCore a b → P a → P b =
        λ a b h. Majority-still round hash a b h.0 in
      StepsIf-Still R P stays (ensure_saved_propose round hash) _
        (ensure_saved_propose-Steps round hash)
        λ _.
          StepsIf-Still R P stays
            (gets (λ s. map ConsensusMessage.prevote (Voting.prevotes s prevote_round hash))) _
            (Steps-gets _)
            λ ms.
              StepsIf-Still R P stays (save_messages round ms) _ (Steps-save_messages round ms) λ _.
                StepsIf-then R P (update (λ s. lock_state s round hash)) _ (lock_step round hash)
                  λ _. after_lock-Steps round hash

  try_round-Steps :
      (prevote_round : ℕ) (hash : Hash) (round : ℕ)
      → Steps R (try_round again prevote_round hash round)
  unfolding try_round
  try_round-Steps prevote_round hash round =
      Steps-bind (prevote_once round hash) _ (prevote_once-Steps round hash) λ _.
        Steps-tested R (Majority round hash) (λ s. has_majority_prevotes s round hash) _ _
          (λ s. tested-Majority s round hash) (lock_round-StepsIf prevote_round round hash)
          (Steps-pure none)

  lock_rounds-Steps :
      (prevote_round : ℕ) (hash : Hash) (rounds : List ℕ)
      → Steps R (lock_rounds again prevote_round hash rounds)
  unfolding lock_rounds
  lock_rounds-Steps prevote_round hash [] = search (step_rules)
  lock_rounds-Steps prevote_round hash (round ∷ rounds) =
      Steps-bind (try_round again prevote_round hash round) _
        (try_round-Steps prevote_round hash round)
        (λ a. or_rest-Steps _ a (lock_rounds-Steps prevote_round hash rounds))

  lock-Steps : (prevote_round : ℕ) (hash : Hash) → Steps R (lock again prevote_round hash)
  unfolding lock
  lock-Steps prevote_round hash = search (step_rules, lock_rounds-Steps) depth 20

  lock_on-Steps :
      (prevote_round : ℕ) (hash : Hash) (p : Option ProposeState)
      → Steps R (lock_on again prevote_round hash p)
  unfolding lock_on
  lock_on-Steps prevote_round hash none = Steps-pure _
  lock_on-Steps prevote_round hash (some p) = search (step_rules, lock-Steps)

  pub handle_majority_prevotes-Steps :
      (prevote_round : ℕ) (hash : Hash)
      → Steps R (handle_majority_prevotes again prevote_round hash)
  unfolding handle_majority_prevotes
  handle_majority_prevotes-Steps prevote_round hash =
      search (step_rules, sending_kept, broadcast_kept, lock_on-Steps) depth 20

  full_round-Steps : (hash : Hash) (round : ℕ) → Steps R (full_round again hash round)
  unfolding full_round
  full_round-Steps hash round = search (step_rules, handle_majority_prevotes-Steps) depth 20

  full_rounds-Steps : (hash : Hash) (rounds : List ℕ) → Steps R (full_rounds again hash rounds)
  unfolding full_rounds
  full_rounds-Steps hash [] = search (step_rules)
  full_rounds-Steps hash (round ∷ rounds) =
      Steps-bind (full_round again hash round) _ (full_round-Steps hash round)
        (λ a. or_next-Steps _ a (full_rounds-Steps hash rounds))

  commit_if-Steps : (hash : Hash) (r : Option (ℕ × Hash)) → Steps R (commit_if again hash r)
  unfolding commit_if
  commit_if-Steps hash none = search (step_rules)
  commit_if-Steps hash (some (round, block_hash)) = execute_and_commits round hash block_hash

  commit_confirmed-Steps :
      (hash : Hash) (action : RoundAction) → Steps R (commit_confirmed again hash action)
  unfolding commit_confirmed
  commit_confirmed-Steps hash new_epoch = search (step_rules)
  commit_confirmed-Steps hash no_action =
      search (step_rules, take_confirmed-Steps, commit_if-Steps) depth 20

  pub handle_full_propose-Steps :
      (hash : Hash) (round : ℕ) → Steps R (handle_full_propose again hash round)
  unfolding handle_full_propose
  handle_full_propose-Steps hash round =
      search (step_rules, prevote_once-Steps, full_rounds-Steps, commit_confirmed-Steps) depth 20

pub ruleset locking_kept =
    (handle_majority_precommits-Steps, handle_majority_prevotes-Steps, handle_full_propose-Steps)
