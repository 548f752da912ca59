-- ===== src/Node/State/Requests/Kept.antt =====
-- exonum-node/src/state.rs: requests keep what the consensus rests on.
use exonum.Prelude.{Option, none, some}
use exonum.Prelude.HashMap
use exonum.Prelude.Panic.{Returns, Returns-bind}
use exonum.Node.Messages.{PublicKey}
use exonum.Node.Chain.{Chain}
use exonum.Node.State.{State, RequestData, RequestState}
use exonum.Node.State.Progress.{Still, core, Still-refl}
use exonum.Node.State.Requests.{request_eq, without_peer, retry_at, retry}

module _ {c : Chain} where
  retry_at-Still :
      (r : RequestData) (peer : Option PublicKey) (s : State c) (st : Option RequestState)
      → Returns (λ (x : Option PublicKey × State c). Still s x.1) (retry_at s r peer st)
  unfolding retry_at
  retry_at-Still r peer s none = Still-refl (core s)
  retry_at-Still r peer s (some st) =
      Returns-bind (λ (x : Option PublicKey × State c). Still s x.1) (without_peer c.debug st peer)
        _ (λ _ _. Still-refl (core s))

  pub retry-Still :
      (r : RequestData) (peer : Option PublicKey) (s : State c)
      → Returns (λ (x : Option PublicKey × State c). Still s x.1) (retry s r peer)
  unfolding retry
  retry-Still r peer s = retry_at-Still r peer s (HashMap.get s.requests r)
