-- ===== src/Node/Handler/Timers.antt =====
-- exonum-node/src/lib.rs: the timeouts of rounds, proposes and statuses. A point in time is a count
-- of milliseconds, and the range of `SystemTime` is not modelled.
pub mod Kept
use exonum.Prelude.{ℕ, ◌+◌, Bool, false, ◌&&◌, leb, if◌then◌else◌}
use exonum.Helpers.Round
use exonum.Node.Chain.{Chain}
use exonum.Node.Handler.{
  M, NodeTimeout, pure, skip, lift, gets, ◌>>=◌, ◌>>◌, current_time, get_expedited, set_expedited,
}
use exonum.Node.Handler.RoundTime.{round_offset}
use exonum.Node.Handler.Sending.{add_timeout, uncommitted_txs_count}

module _ {c : Chain} where
  -- `NodeHandler::round_start_time`
  unfoldable pub round_start_time : ℕ → M c ℕ
  round_start_time round = do
    first ← gets (λ s. s.config.first_round_timeout)
    offset ← lift (round_offset c.debug first round)
    start ← gets (λ s. s.epoch_start_time)
    pure (start + offset)

  -- `NodeHandler::add_round_timeout`
  unfoldable pub add_round_timeout : M c (Unit {0})
  add_round_timeout = do
    epoch ← gets (λ s. s.epoch)
    round ← gets (λ s. s.round)
    next ← lift (Round.next c.debug round)
    time ← round_start_time next
    add_timeout (NodeTimeout.round epoch round) time

  -- `NodeHandler::need_faster_propose`
  pub need_faster_propose : M c Bool
  need_faster_propose = do
    pending ← uncommitted_txs_count
    threshold ← gets (λ s. s.config.propose_timeout_threshold)
    pure (leb threshold pending)

  -- `NodeHandler::add_propose_timeout`
  pub add_propose_timeout : M c (Unit {0})
  add_propose_timeout = do
    faster ← need_faster_propose
    timeout ←
        gets (λ s. if faster then s.config.min_propose_timeout else s.config.max_propose_timeout)
    epoch ← gets (λ s. s.epoch)
    round ← gets (λ s. s.round)
    start ← round_start_time round
    add_timeout (NodeTimeout.propose epoch round) (start + timeout)

  -- `NodeHandler::maybe_add_propose_timeout`
  pub maybe_add_propose_timeout : M c (Unit {0})
  maybe_add_propose_timeout = do
    expedited ← get_expedited
    faster ← need_faster_propose
    if expedited && faster then (add_propose_timeout >> set_expedited false) else skip

  -- `NodeHandler::add_status_timeout`
  pub add_status_timeout : M c (Unit {0})
  add_status_timeout = do
    now ← current_time
    timeout ← gets (λ s. s.config.status_timeout)
    epoch ← gets (λ s. s.epoch)
    add_timeout (NodeTimeout.status epoch) (now + timeout)
