-- ===== src/Node/Handler/Timers/Kept.antt =====
-- exonum-node/src/lib.rs: starting timeouts keeps what the consensus rests on.
use exonum.Prelude.{ℕ}
use exonum.Node.Chain.{Chain}
use exonum.Node.Handler.Steps.{Regime, Steps, step_rules}
use exonum.Node.Handler.Sending.Kept.{add_timeout-Steps, uncommitted_txs_count-Steps}
use exonum.Node.Handler.Timers.{
  round_start_time, add_round_timeout, need_faster_propose, add_propose_timeout,
  maybe_add_propose_timeout, add_status_timeout,
}

module _ {c : Chain} {R : Regime c} where
  pub round_start_time-Steps : (r : ℕ) → Steps R (round_start_time r)
  unfolding round_start_time
  round_start_time-Steps r = search (step_rules) depth 20

  pub add_round_timeout-Steps : Steps R add_round_timeout
  unfolding add_round_timeout
  add_round_timeout-Steps = search (step_rules, round_start_time-Steps, add_timeout-Steps) depth 20

  need_faster_propose-Steps : Steps R need_faster_propose
  unfolding need_faster_propose
  need_faster_propose-Steps = search (step_rules, uncommitted_txs_count-Steps) depth 20

  pub add_propose_timeout-Steps : Steps R add_propose_timeout
  unfolding add_propose_timeout
  add_propose_timeout-Steps =
      search (step_rules, need_faster_propose-Steps, round_start_time-Steps, add_timeout-Steps)
        depth 20

  pub maybe_add_propose_timeout-Steps : Steps R maybe_add_propose_timeout
  unfolding maybe_add_propose_timeout
  maybe_add_propose_timeout-Steps =
      search (step_rules, need_faster_propose-Steps, add_propose_timeout-Steps) depth 20

  pub add_status_timeout-Steps : Steps R add_status_timeout
  unfolding add_status_timeout
  add_status_timeout-Steps = search (step_rules, add_timeout-Steps) depth 20

pub ruleset timers_kept = (
  add_round_timeout-Steps, add_propose_timeout-Steps, maybe_add_propose_timeout-Steps,
  add_status_timeout-Steps,
)
