-- ===== src/Node/State/Peers/Rising.antt =====
-- exonum-node/src/state.rs: what a node knows of the progress of its peers never goes back.
use exonum.Prelude.{
  nat_beq_iff, ap, subst, ◌∙◌, true, ◌≤◌, ◌≡◌, refl, Bool, false, Option, some, arith,
  if◌then◌else◌,
}
use exonum.Prelude.Eq.{◌==◌, nat_eq}
use exonum.Prelude.BTreeMap.{get-insert}
use exonum.Prelude.BTreeMap
use exonum.Node.Messages.{PublicKey}
use exonum.Node.Chain.{Chain}
use exonum.Node.State.{State, PeerState}
use exonum.Node.State.Peers.{or_default, merge_peer_state, known_state, update_peer_state}

merged :
    (current new : PeerState)
    → (current.epoch ≤ (merge_peer_state current new).epoch)
      × (current.blockchain_height ≤ (merge_peer_state current new).blockchain_height)
merged current new = (ground arith, ground arith)

or_default-if :
    (b : Bool) (p : PeerState) (o : Option PeerState)
    → or_default (if b then some p else o) ≡ (if b then p else or_default o)
or_default-if true p o = refl
or_default-if false p o = refl

-- both parts of a peer's progress are not less
abbrev pub NotLess : PeerState → PeerState → Type 0
NotLess p q = (p.epoch ≤ q.epoch) × (p.blockchain_height ≤ q.blockchain_height)

NotLess-if :
    (b : Bool) (old new p : PeerState)
    → (b ≡ true → NotLess old new)
    → NotLess old (if b then new else old)
NotLess-if true old new p h = h refl
NotLess-if false old new p h = (omega arith, omega arith)

module _ {c : Chain} where
  known_state-update :
      (s : State c) (key : PublicKey) (new : PeerState) (other : PublicKey)
      → known_state (update_peer_state s key new) other
        ≡ (if key == other then merge_peer_state (known_state s key) new else known_state s other)
  unfolding update_peer_state
  known_state-update s key new other =
      ap or_default (get-insert s.peer_states key (merge_peer_state (known_state s key) new) other)
      ∙ or_default-if (key == other) _ (BTreeMap.get s.peer_states other)

  -- After a status of one peer, the epoch and the height that the node knows of any peer are not less
  -- than before.
  pub update_peer_state-NotLess :
      (s : State c) (key : PublicKey) (new : PeerState) (other : PublicKey)
      → NotLess (known_state s other) (known_state (update_peer_state s key new) other)
  update_peer_state-NotLess s key new other = rw (known_state-update s key new other) (
      NotLess-if (key == other) (known_state s other) (merge_peer_state (known_state s key) new) new
        λ e.
          subst (λ k. NotLess (known_state s k) (merge_peer_state (known_state s key) new))
            ((nat_beq_iff key other).0 e) (merged (known_state s key) new))
