-- ===== src/Node/State/Requests.antt =====
-- exonum-node/src/state.rs: the requests for data that a node has sent and not yet given up.
pub mod Kept
use exonum.Prelude.{
  ◌+◌, ◌≡◌, ◌↔◌, Bool, true, false, ◌&&◌, Option, none, some, List, [], ◌∷◌, arith, is_empty,
}
use exonum.Prelude.Eq.{Eq, ◌==◌, nat_eq}
use exonum.Prelude.Eq
use exonum.Prelude.HashMap
use exonum.Prelude.Panic.{◌>>=◌}
use exonum.Helpers.Word.{checked}
use exonum.Node.Messages.{PublicKey}
use exonum.Node.Chain.{Chain}
use exonum.Node.State.{State, RequestState, RequestData}

-- the derived `PartialEq`
abbrev pub request_beq : RequestData → RequestData → Bool
request_beq (RequestData.propose h) (RequestData.propose k) = h == k
request_beq RequestData.pool_transactions RequestData.pool_transactions = true
request_beq (RequestData.propose_transactions h) (RequestData.propose_transactions k) = h == k
request_beq RequestData.block_transactions RequestData.block_transactions = true
request_beq (RequestData.prevotes r h) (RequestData.prevotes q k) = (r == q) && (h == k)
request_beq (RequestData.block h) (RequestData.block k) = h == k
request_beq (RequestData.block_or_epoch h e) (RequestData.block_or_epoch k f) = (h == k) && (e == f)
request_beq _ _ = false

pub request_beq_iff : (a b : RequestData) → (request_beq a b ≡ true) ↔ (a ≡ b)
request_beq_iff a b = ground arith

instance abbrev pub request_eq : Eq RequestData
request_eq = record { beq = request_beq; beq_iff = request_beq_iff }

-- `RequestState::new`
abbrev pub new_request : RequestState
new_request = record { retries = 0; known_nodes = [] }

-- `RequestState::peek`
abbrev pub peek : List PublicKey → Option PublicKey
peek [] = none
peek (key ∷ keys) = some key

-- `RequestState::remove`; `retries` is a `u16`
without_peer : Bool → RequestState → Option PublicKey → Option RequestState
without_peer debug st none = some st
without_peer debug st (some peer) = do
  n ← checked debug 16 (st.retries + 1)
  some (record { retries = n; known_nodes = Eq.remove st.known_nodes peer })

module _ {c : Chain} where
  abbrev pub request_state : State c → RequestData → RequestState
  request_state s data' = elim (HashMap.get s.requests data') [ none ↦ new_request | some r ↦ r ]

  -- `State::request`: whether the request is new, and the state
  unfoldable pub request : State c → RequestData → PublicKey → Bool × State c
  request s data' peer =
      let st = request_state s data' in
      (
        is_empty st.known_nodes,
        record s {
          requests =
              HashMap.insert s.requests data'
                (record st { known_nodes = Eq.insert st.known_nodes peer });
        },
      )

  retried : State c → RequestData → RequestState → Option PublicKey × State c
  retried s data' st = (
    peek st.known_nodes,
    record s {
      requests = elim (peek st.known_nodes) [
        | none ↦ HashMap.remove s.requests data'
        | some _ ↦ HashMap.insert s.requests data' st
      ];
    },
  )

  retry_at :
      State c
      → RequestData
      → Option PublicKey
      → Option RequestState
      → Option (Option PublicKey × State c)
  unfolding without_peer retried checked
  retry_at s data' peer none = some (none, s)
  retry_at s data' peer (some st) =
      without_peer c.debug st peer >>= λ st'. some (retried s data' st')

  -- `State::retry`
  unfoldable pub retry :
      State c → RequestData → Option PublicKey → Option (Option PublicKey × State c)
  unfolding retry_at
  retry s data' peer = retry_at s data' peer (HashMap.get s.requests data')

  -- `State::remove_request`
  unfoldable pub remove_request : State c → RequestData → List PublicKey × State c
  remove_request s data' = (
    elim (HashMap.get s.requests data') [ none ↦ [] | some st ↦ st.known_nodes ],
    record s { requests = HashMap.remove s.requests data' },
  )
