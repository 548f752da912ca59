-- ===== src/Node/Basic/Kept.antt =====
-- exonum-node/src/basic.rs: statuses keep what the consensus rests on.
use exonum.Prelude.{ℕ}
use exonum.Node.Messages.{PublicKey, Verified, Status}
use exonum.Node.Chain.{Chain}
use exonum.Node.State.{PeerState}
use exonum.Node.State.Peers.{update_peer_state}
use exonum.Node.State.Progress.{core, Still-refl}
use exonum.Node.Handler.{modify}
use exonum.Node.Handler.Steps.{Regime, Steps, step_rules, Steps-modify}
use exonum.Node.Handler.Sending.Kept.{sending_kept}
use exonum.Node.Handler.Timers.Kept.{timers_kept}
use exonum.Node.Basic.{request_missing, handle_status, handle_status_timeout}

module _ {c : Chain} {R : Regime c} where
  peer_step :
      (key : PublicKey) (new : PeerState) → Steps R (modify (λ s. update_peer_state s key new))
  unfolding update_peer_state
  peer_step key new = Steps-modify _ (λ s. Still-refl (core s))

  request_missing-Steps :
      (msg : Verified Status) (epoch height : ℕ) → Steps R (request_missing msg epoch height)
  unfolding request_missing
  request_missing-Steps msg epoch height = search (step_rules, sending_kept) depth 20

  pub handle_status-Steps : (msg : Verified Status) → Steps R (handle_status msg)
  unfolding handle_status
  handle_status-Steps msg = search (step_rules, peer_step, request_missing-Steps) depth 20

  pub handle_status_timeout-Steps : (epoch : ℕ) → Steps R (handle_status_timeout epoch)
  unfolding handle_status_timeout
  handle_status_timeout-Steps epoch = search (step_rules, sending_kept, timers_kept) depth 20
