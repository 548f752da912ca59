-- ===== src/Node/Handler/Sending/Kept.antt =====
-- exonum-node/src/lib.rs: sending messages and requests keeps what the consensus rests on.
use exonum.Prelude.{ℕ, Option}
use exonum.Node.Messages.{PublicKey}
use exonum.Node.Chain.{Chain}
use exonum.Node.State.{State, RequestData}
use exonum.Node.State.Progress.{Still, core, Still-refl}
use exonum.Node.State.Requests
use exonum.Node.Handler.{Outgoing, NodeTimeout}
use exonum.Node.Handler.Steps.{Regime, Steps, step_rules, Steps-run}
use exonum.Node.Handler.Sending.{
  send_to_peer, broadcast, add_timeout, add_request_timeout, request, remove_request,
  uncommitted_txs_count, broadcast_status,
}

module _ {c : Chain} {R : Regime c} where
  pub send_to_peer-Steps : (key : PublicKey) (m : Outgoing c) → Steps R (send_to_peer key m)
  unfolding send_to_peer
  send_to_peer-Steps key m = search (step_rules) depth 20

  pub broadcast-Steps : (m : Outgoing c) → Steps R (broadcast m)
  unfolding broadcast
  broadcast-Steps m = search (step_rules, send_to_peer-Steps) depth 20

  pub add_timeout-Steps : (t : NodeTimeout) (time : ℕ) → Steps R (add_timeout t time)
  unfolding add_timeout
  add_timeout-Steps t time = search (step_rules) depth 20

  pub add_request_timeout-Steps :
      (d : RequestData) (peer : Option PublicKey) → Steps R (add_request_timeout d peer)
  unfolding add_request_timeout
  add_request_timeout-Steps d peer = search (step_rules, add_timeout-Steps) depth 20

module _ {c : Chain} where
  request_state-Still :
      (d : RequestData) (key : PublicKey) (s : State c) → Still s (Requests.request s d key).1
  unfolding Requests.request
  request_state-Still d key s = Still-refl (core s)

module _ {c : Chain} {R : Regime c} where
  pub request-Steps : (d : RequestData) (key : PublicKey) → Steps R (request d key)
  unfolding request
  request-Steps d key =
      search (step_rules, add_request_timeout-Steps, Steps-run, request_state-Still) depth 20

module _ {c : Chain} where
  remove_state-Still : (d : RequestData) (s : State c) → Still s (Requests.remove_request s d).1
  unfolding Requests.remove_request
  remove_state-Still d s = Still-refl (core s)

module _ {c : Chain} {R : Regime c} where
  pub remove_request-Steps : (d : RequestData) → Steps R (remove_request d)
  unfolding remove_request
  remove_request-Steps d = Steps-run _ (remove_state-Still d)

  pub uncommitted_txs_count-Steps : Steps R uncommitted_txs_count
  unfolding uncommitted_txs_count
  uncommitted_txs_count-Steps = search (step_rules) depth 20

  pub broadcast_status-Steps : Steps R broadcast_status
  unfolding broadcast_status
  broadcast_status-Steps =
      search (step_rules, uncommitted_txs_count-Steps, broadcast-Steps) depth 20

pub ruleset sending_kept = (
  send_to_peer-Steps, broadcast-Steps, add_timeout-Steps, add_request_timeout-Steps, request-Steps,
  remove_request-Steps, uncommitted_txs_count-Steps, broadcast_status-Steps,
)
