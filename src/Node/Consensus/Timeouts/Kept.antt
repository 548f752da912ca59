-- ===== src/Node/Consensus/Timeouts/Kept.antt =====
-- exonum-node/src/consensus.rs: new rounds and timeouts keep what the consensus rests on, in a build
-- with debug assertions.
use exonum.Prelude.{
  ℕ, ◌≡◌, true, not, ◌||◌, Option, none, some, List, arith, inl, inr, Bool-cases, leb,
}
use exonum.Prelude.Eq.{◌==◌, nat_eq}
use exonum.Node.Messages.{Hash, PublicKey, Verified, Propose, ConsensusMessage, Precommit}
use exonum.Node.Chain.{Chain, ProposeTemplate}
use exonum.Node.State.{RequestData, jump_round, new_round}
use exonum.Node.State.Requests
use exonum.Node.State.Requests.Kept.{retry-Still}
use exonum.Node.State.Proposes.{add_self_propose}
use exonum.Node.State.Progress.{core, Still-refl, jump_round-Still, new_round-Still}
use exonum.Node.Handler.{M, RequestBody, update, run, gets, modify, pure, for_each, ◌>>=◌, ◌>>◌}
use exonum.Node.Handler.Steps.{Regime, Steps, step_rules, Steps-run, Steps-update, Ends-trans}
use exonum.Node.Handler.Sending.Kept.{sending_kept}
use exonum.Node.Handler.Timers.{add_round_timeout}
use exonum.Node.Handler.Timers.Kept.{timers_kept}
use exonum.Node.Consensus.Commit.{commit, take_queued}
use exonum.Node.Consensus.Broadcast.Kept.{broadcast_kept}
use exonum.Node.Consensus.Commit.Kept.{commit_kept}
use exonum.Node.Consensus.Locking.Kept.{locking_kept}
use exonum.Node.Consensus.Timeouts.{
  voted, get_propose_template, build_propose, request_body, send_request, retry_with,
  handle_request_timeout, prevote_and_lock, start_round, process_new_round, handle_new_round,
  handle_round_timeout, make_propose, propose_as, propose_unlocked, handle_propose_timeout,
}

module _ {c : Chain} {R : Regime c} where
  voted-Steps : (round : ℕ) → Steps R (voted round)
  unfolding voted
  voted-Steps round = search (step_rules)

  template-Steps : Steps R get_propose_template
  unfolding get_propose_template
  template-Steps = search (step_rules)

  build_propose-Steps : (v round : ℕ) (t : ProposeTemplate) → Steps R (build_propose v round t)
  unfolding build_propose
  build_propose-Steps v round t = search (step_rules) depth 20

  request_body-Steps : (r : RequestData) → Steps R (request_body r)
  unfolding request_body
  request_body-Steps (RequestData.propose hash) = search (step_rules)
  request_body-Steps (RequestData.propose_transactions hash) = search (step_rules, broadcast_kept)
  request_body-Steps RequestData.pool_transactions = search (step_rules)
  request_body-Steps RequestData.block_transactions = search (step_rules)
  request_body-Steps (RequestData.prevotes round hash) = search (step_rules) depth 20
  request_body-Steps (RequestData.block height) = search (step_rules)
  request_body-Steps (RequestData.block_or_epoch height epoch) = search (step_rules)

  send_request-Steps :
      (peer : PublicKey) (body : Option RequestBody) → Steps R (send_request peer body)
  unfolding send_request
  send_request-Steps peer none = search (step_rules)
  send_request-Steps peer (some body) = search (step_rules, sending_kept)

  retry_with-Steps : (r : RequestData) (peer : Option PublicKey) → Steps R (retry_with r peer)
  unfolding retry_with
  retry_with-Steps r none = search (step_rules)
  retry_with-Steps r (some peer) =
      search (step_rules, sending_kept, request_body-Steps, send_request-Steps) depth 20

  retry_step :
      (r : RequestData) (peer : Option PublicKey) → Steps R (run (λ s. Requests.retry s r peer))
  retry_step r peer = Steps-run _ (retry-Still r peer)

  pub handle_request_timeout-Steps :
      (r : RequestData) (peer : Option PublicKey) → Steps R (handle_request_timeout r peer)
  unfolding handle_request_timeout
  handle_request_timeout-Steps r peer = search (step_rules, retry_step, retry_with-Steps) depth 20

  add_self_step : (msg : Verified Propose) → Steps R (run (λ s. some (add_self_propose s msg)))
  unfolding add_self_propose
  add_self_step msg = Steps-run _ (λ s. Still-refl (core s))

  new_round_step : c.debug ≡ true → Steps R (update new_round)
  new_round_step d = Steps-update _ (λ s. new_round-Still s d)

module _ {c : Chain} {R : Regime c} (again : ConsensusMessage → M c (Unit {0}))
    (commits : (hash : Hash) (precommits : List (Verified Precommit))
      → Steps R (commit again hash precommits))
    (d : c.debug ≡ true) (replays : Steps R (take_queued >>= λ queued. for_each queued again)) where
  prevote_and_lock-Steps : (round : ℕ) (hash : Hash) → Steps R (prevote_and_lock again round hash)
  unfolding prevote_and_lock
  prevote_and_lock-Steps round hash = search (step_rules, broadcast_kept, locking_kept) depth 20

  start_round-Steps : (locked : Option Hash) → Steps R (start_round again locked)
  unfolding start_round
  start_round-Steps none = search (commit_kept)
  start_round-Steps (some hash) = search (step_rules, prevote_and_lock-Steps)

  process_new_round-Steps : Steps R (process_new_round again)
  unfolding process_new_round
  process_new_round-Steps =
      let replayed : Unit {0} → Steps R (take_queued >>= λ queued. for_each queued again) =
        λ _. replays in
      search (step_rules, start_round-Steps, replayed) depth 20

  pub handle_round_timeout-Steps :
      (epoch round : ℕ) → Steps R (handle_round_timeout again epoch round)
  unfolding handle_round_timeout
  handle_round_timeout-Steps epoch round =
      search (step_rules, new_round_step, timers_kept, process_new_round-Steps) depth 20

  make_propose-Steps : (v round : ℕ) → Steps R (make_propose again v round)
  unfolding make_propose
  make_propose-Steps v round =
      search
        (
          step_rules, template-Steps, build_propose-Steps, sending_kept, add_self_step,
          prevote_and_lock-Steps,
        )
        depth 30

  propose_as-Steps : (round : ℕ) (v : Option ℕ) → Steps R (propose_as again round v)
  unfolding propose_as
  propose_as-Steps round none = search (step_rules)
  propose_as-Steps round (some v) = make_propose-Steps v round

  propose_unlocked-Steps :
      (round : ℕ) (locked : Option Hash) → Steps R (propose_unlocked again round locked)
  unfolding propose_unlocked
  propose_unlocked-Steps round (some hash) = search (step_rules)
  propose_unlocked-Steps round none = search (step_rules, voted-Steps, propose_as-Steps) depth 20

  pub handle_propose_timeout-Steps :
      (epoch round : ℕ) → Steps R (handle_propose_timeout again epoch round)
  unfolding handle_propose_timeout
  handle_propose_timeout-Steps epoch round = search (step_rules, propose_unlocked-Steps) depth 20

  new_round_rest-Steps : Steps R (add_round_timeout >> process_new_round again)
  new_round_rest-Steps = search (step_rules, timers_kept, process_new_round-Steps) depth 20

  -- a jump goes to a later round only
  pub handle_new_round-Steps : (epoch round : ℕ) → Steps R (handle_new_round again epoch round)
  unfolding handle_new_round ◌>>=◌ gets modify pure
  handle_new_round-Steps epoch round = record {
    at = λ n. elim (Bool-cases (not (epoch == n.state.epoch) || leb round n.state.round)) [
      | inl e ↦ rw e (R.reflexive n.state)
      | inr e ↦ rw e (
          Ends-trans R n.state (jump_round n.state round) _
            (R.still n.state (jump_round n.state round)
              (jump_round-Still n.state round (ground arith)))
            (new_round_rest-Steps.at (record n { state = jump_round n.state round })))
    ];
  }
