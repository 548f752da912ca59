-- ===== src/Node/State/Peers.antt =====
-- exonum-node/src/state.rs: the peers of a node and what it knows of their progress.
use exonum.Prelude.{
  ℕ, Bool, true, false, Option, none, some, List, [], ◌∷◌, leb, ltb, if◌then◌else◌,
}
use exonum.Prelude.Eq.{◌==◌, nat_eq}
use exonum.Prelude.HashMap
use exonum.Prelude.BTreeMap.{BTreeMap}
use exonum.Prelude.BTreeMap
pub mod Rising
use exonum.Node.Messages.{PublicKey, Verified, Connect, Status}
use exonum.Node.Chain.{Chain, ValidatorKeys}
use exonum.Node.State.{State, PeerState, RequestData}
use Prim.Native.String.{String}

-- `PeerState::new`
abbrev pub new_peer_state : Status → PeerState
new_peer_state st = record { epoch = st.epoch; blockchain_height = st.blockchain_height }

-- `PeerState::default`
abbrev pub default_peer_state : PeerState
default_peer_state = record { epoch = 0; blockchain_height = 0 }

pub record AdvancedPeers : Type 0 where
  pub peers_with_greater_height : List PublicKey
  pub peers_with_greater_epoch : List PublicKey

has_key : List ValidatorKeys → PublicKey → Bool
has_key [] key = false
has_key (v ∷ vs) key = let rest = has_key vs key in if v.consensus_key == key then true else rest

-- what is kept of the current and the new state of a peer
abbrev pub merge_peer_state : PeerState → PeerState → PeerState
merge_peer_state current new =
    if ltb current.epoch new.epoch
    then (if leb current.blockchain_height new.blockchain_height then new else current)
    else current

-- the loop of `advanced_peers`, for a node at a height and epoch
unfoldable pub split_peers : ℕ → ℕ → BTreeMap PeerState → AdvancedPeers
split_peers height epoch [] = record {
  peers_with_greater_height = [];
  peers_with_greater_epoch = [];
}
split_peers height epoch ((key, st) ∷ m) =
    let rest = split_peers height epoch m in
    if ltb height st.blockchain_height
    then record rest { peers_with_greater_height = key ∷ rest.peers_with_greater_height }
    else (if ltb epoch st.epoch
        then record rest { peers_with_greater_epoch = key ∷ rest.peers_with_greater_epoch }
        else rest)

abbrev pub or_default : Option PeerState → PeerState
or_default none = default_peer_state
or_default (some p) = p

-- `entry(key).or_default()`
abbrev pub known_state : {c : Chain} → State c → PublicKey → PeerState
known_state s key = or_default (BTreeMap.get s.peer_states key)

module _ {c : Chain} where
  -- `State::add_peer`
  unfoldable pub add_peer : State c → PublicKey → Verified Connect → Bool × State c
  add_peer s key msg =
      let is_new : Bool = elim (HashMap.get s.peers key) [ none ↦ true | some _ ↦ false ] in
      (is_new, record s { peers = HashMap.insert s.peers key msg })

  -- `State::add_connection`
  unfoldable pub add_connection : State c → PublicKey → String → State c
  add_connection s key address = record s { connections = HashMap.insert s.connections key address }

  -- `State::remove_peer_with_pubkey`
  unfoldable pub remove_peer_with_pubkey : State c → PublicKey → Option (Verified Connect) × State c
  remove_peer_with_pubkey s key = (
    HashMap.get s.peers key,
    record s { connections = HashMap.remove s.connections key; peers = HashMap.remove s.peers key },
  )

  -- `State::peer_is_validator`
  unfoldable pub peer_is_validator : State c → PublicKey → Bool
  unfolding has_key
  peer_is_validator s key = has_key s.config.validator_keys key

  -- `State::peer_in_connect_list`, and `ConnectList::is_peer_allowed`
  unfoldable pub is_peer_allowed : State c → PublicKey → Bool
  is_peer_allowed s key = BTreeMap.contains_key s.connect_list key

  -- `State::add_peer_to_connect_list`, and `ConnectList::update_peer`
  unfoldable pub update_peer : State c → PublicKey → String → State c
  update_peer s key address = record s { connect_list = BTreeMap.insert s.connect_list key address }

  -- `State::update_peer_state`
  unfoldable pub update_peer_state : State c → PublicKey → PeerState → State c
  update_peer_state s key new = record s {
    peer_states = BTreeMap.insert s.peer_states key (merge_peer_state (known_state s key) new);
  }

  -- `State::advanced_peers`
  unfoldable pub advanced_peers : State c → AdvancedPeers
  unfolding split_peers
  advanced_peers s = split_peers s.blockchain_height s.epoch s.peer_states

  -- the first of the keys that is a connected peer
  unfoldable pub first_connected : State c → List PublicKey → Option PublicKey
  first_connected s [] = none
  first_connected s (key ∷ keys) =
      let rest = first_connected s keys in
      if HashMap.contains_key s.peers key then some key else rest

  or_epoch : State c → Option PublicKey → Option (PublicKey × RequestData)
  or_epoch s none = none
  or_epoch s (some key) = some (key, RequestData.block_or_epoch s.blockchain_height s.epoch)

  -- `AdvancedPeers::send_message`
  unfoldable pub send_message : AdvancedPeers → State c → Option (PublicKey × RequestData)
  unfolding first_connected or_epoch
  send_message peers s = elim (first_connected s peers.peers_with_greater_height) [
    | some key ↦ some (key, RequestData.block s.blockchain_height)
    | none ↦ or_epoch s (first_connected s peers.peers_with_greater_epoch)
  ]
