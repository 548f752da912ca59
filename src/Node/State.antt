-- ===== src/Node/State.antt =====
-- exonum-node/src/state.rs: the state of a node, and the methods that read it or move it to
-- another round, epoch, height or configuration. The other methods are in the children. A method
-- that may panic returns an `Option`, whose `none` is the panic.
pub mod Rounds
pub mod Peers
pub mod Proposes
pub mod Blocks
pub mod Voting
pub mod Requests
pub mod Progress
pub mod VotesKept
pub mod Leading
use exonum.Prelude.{
  ℕ, zero, suc, ◌+◌, ◌%◌, ◌^◌, Bool, true, false, ◌&&◌, Option, none, some, List, [], ◌∷◌, ◌++◌,
  length, get_elem?, ltb, leb, is_empty, if◌then◌else◌,
}
use exonum.Prelude.Eq.{Eq, ◌==◌, nat_eq, option_eq, pair_eq}
use exonum.Prelude.HashMap.{HashMap}
use exonum.Prelude.HashMap
use exonum.Prelude.BTreeMap.{BTreeMap}
use exonum.Prelude.Panic.{◌>>=◌, ◌>>◌, assert, debug_assert}
use exonum.Helpers.Word.{checked}
use exonum.Helpers.Height
use exonum.Helpers.Round
use exonum.Helpers.Quorum.{byzantine_quorum}
use exonum.Node.Messages.{
  Hash, PublicKey, Verified, Propose, Prevote, Precommit, Connect, ConsensusMessage,
}
use exonum.Node.Chain.{Chain, ConsensusConfig, ValidatorKeys, BlockKind, BlockPatch, config_eq}
use exonum.Node.Votes.{Votes}
use Prim.Native.String.{String}

pub record PeerState : Type 0 where
  pub epoch : ℕ
  pub blockchain_height : ℕ

-- `enum RequestData`
pub data RequestData : Type 0 where
  propose : Hash → RequestData
  pool_transactions : RequestData
  propose_transactions : Hash → RequestData
  block_transactions : RequestData
  prevotes : ℕ → Hash → RequestData
  block : ℕ → RequestData
  block_or_epoch : ℕ → ℕ → RequestData

-- `known_nodes` is a set; `retries` is a `u16`
pub record RequestState : Type 0 where
  pub retries : ℕ
  pub known_nodes : List PublicKey

pub record ValidatorState : Type 0 where
  pub id : ℕ
  pub our_prevotes : HashMap ℕ (Verified Prevote)
  pub our_precommits : HashMap ℕ (Verified Precommit)

-- `unknown_txs` is a set
pub record ProposeState : Type 0 where
  pub message : Verified Propose
  pub unknown_txs : List Hash
  pub block_hash : Option Hash
  pub is_saved : Bool
  pub is_valid : Bool

pub record BlockState (D : Type 0) : Type 0 where
  pub hash : Hash
  pub patch : Option (BlockPatch D)
  pub txs : List Hash
  pub proposer_id : ℕ
  pub kind : BlockKind
  pub epoch : ℕ

pub record IncompleteBlock (B : Type 0) : Type 0 where
  pub header : B
  pub precommits : List (Verified Precommit)
  pub transactions : List Hash
  pub unknown_txs : List Hash

-- `enum FlushPoolStrategy`
pub data FlushPoolStrategy : Type 0 where
  never immediate : FlushPoolStrategy
  timeout : ℕ → FlushPoolStrategy

-- `struct State`. Of the keys of the node the public consensus key is kept: signing adds it to a
-- message as its author. The connect list is shared with the network threads, which read it.
pub record State (c : Chain) : Type 0 where
  pub validator_state : Option ValidatorState
  pub our_connect_message : Verified Connect
  pub config : ConsensusConfig
  pub connect_list : BTreeMap String
  pub peers : HashMap PublicKey (Verified Connect)
  pub connections : HashMap PublicKey String
  pub epoch_start_time : ℕ
  pub epoch : ℕ
  pub blockchain_height : ℕ
  pub round : ℕ
  pub locked_round : ℕ
  pub locked_propose : Option Hash
  pub last_hash : Hash
  pub proposes : HashMap Hash ProposeState
  pub blocks : HashMap Hash (BlockState c.Patch)
  pub prevotes : HashMap (ℕ × Hash) (Votes (Verified Prevote))
  pub precommits : HashMap (ℕ × Hash) (Votes (Verified Precommit))
  pub queued : List ConsensusMessage
  pub proposes_confirmed_by_majority : HashMap Hash (ℕ × Hash)
  pub requests : HashMap RequestData RequestState
  pub peer_states : BTreeMap PeerState
  pub validators_rounds : BTreeMap ℕ
  pub incomplete_block : Option (IncompleteBlock c.Block)
  pub tx_cache : BTreeMap c.Tx
  pub flush_pool_strategy : FlushPoolStrategy
  pub tx_check_cache : c.CheckCache
  pub invalid_txs : List Hash
  pub consensus_pk : PublicKey

-- `iter().position(|pk| pk.consensus_key == key)`
unfoldable pub position : ℕ → List ValidatorKeys → PublicKey → Option ℕ
position i [] key = none
position i (v ∷ vs) key = if v.consensus_key == key then some i else position (i + 1) vs key

-- `ValidatorState::new`
abbrev pub new_validator_state : ℕ → ValidatorState
new_validator_state id = record { id = id; our_prevotes = []; our_precommits = [] }

renewed : Option ℕ → Option ValidatorState → Option ValidatorState
renewed none old = none
renewed (some id) none = some (new_validator_state id)
renewed (some id) (some v) = some (record v { id = id })

-- `ValidatorId(id as u16)`
abbrev as_u16 : Option ℕ → Option ℕ
as_u16 none = none
as_u16 (some i) = some (i % 2 ^ 16)

-- `ValidatorState::clear`
abbrev cleared : Option ValidatorState → Option ValidatorState
cleared none = none
cleared (some v) = some (new_validator_state v.id)

-- `map(|keys| keys.consensus_key)`
abbrev pub consensus_key_of : Option ValidatorKeys → Option PublicKey
consensus_key_of none = none
consensus_key_of (some v) = some v.consensus_key

module _ {c : Chain} where
  -- `State::validator_id`
  abbrev pub validator_id : State c → Option ℕ
  validator_id s = elim s.validator_state [ none ↦ none | some v ↦ some v.id ]

  -- `State::is_validator`
  abbrev pub is_validator : State c → Bool
  is_validator s = elim s.validator_state [ none ↦ false | some _ ↦ true ]

  -- `State::renew_validator_id`: the votes of the node are kept
  renew_validator_id : State c → Option ℕ → State c
  unfolding renewed
  renew_validator_id s id = record s { validator_state = renewed id s.validator_state }

  -- `State::update_config`
  unfoldable pub update_config : State c → ConsensusConfig → State c
  unfolding renew_validator_id position
  update_config s config =
      if s.config == config
      then s
      else record (renew_validator_id s
          (as_u16 (position 0 config.validator_keys s.consensus_pk))) { config = config }

  -- `State::leader`: the sum is a `u64`, and the remainder by 0 panics in every build
  unfoldable pub leader : State c → ℕ → Option ℕ
  unfolding checked
  leader s round = do
    sum ← checked c.debug 64 (s.epoch + round)
    let n = length s.config.validator_keys
    if n == 0 then none else some (sum % n % 2 ^ 16)

  leads : State c → Option ValidatorState → Option Bool
  leads s none = some false
  leads s (some v) = do l ← leader s s.round; some (l == v.id)

  -- `State::is_leader`
  unfoldable pub is_leader : State c → Option Bool
  unfolding leader leads
  is_leader s = leads s s.validator_state

  -- `State::consensus_public_key_of`
  unfoldable pub consensus_public_key_of : State c → ℕ → Option PublicKey
  consensus_public_key_of s id = consensus_key_of (get_elem? s.config.validator_keys id)

  -- `State::majority_count`
  unfoldable pub majority_count : State c → ℕ
  unfolding byzantine_quorum
  majority_count s = byzantine_quorum (length s.config.validator_keys)

  -- `State::lock`
  unfoldable pub lock : State c → ℕ → Hash → Option (State c)
  lock s round hash =
      if leb round s.locked_round
      then none
      else some (record s { locked_round = round; locked_propose = some hash })

  -- `State::jump_round`
  unfoldable pub jump_round : State c → ℕ → State c
  jump_round s round = record s { round = round }

  -- `State::new_round`
  unfoldable pub new_round : State c → Option (State c)
  unfolding Round.next
  new_round s = do r ← Round.next c.debug s.round; some (record s { round = r })

  -- `State::new_epoch`
  unfoldable pub new_epoch : State c → ℕ → ℕ → Option (State c)
  new_epoch s epoch start_time = do
    debug_assert c.debug (ltb s.epoch epoch)
    some (record s {
      epoch = epoch;
      epoch_start_time = start_time;
      round = 1;
      locked_round = 0;
      locked_propose = none;
      blocks = [];
      proposes = [];
      proposes_confirmed_by_majority = [];
      prevotes = [];
      precommits = [];
      validators_rounds = [];
      validator_state = cleared s.validator_state;
      requests = [];
      incomplete_block = none;
    })

  -- `State::new_height`
  unfoldable pub new_height : State c → Hash → ℕ → ℕ → Option (State c)
  unfolding new_epoch Height.next
  new_height s block_hash epoch start_time = do
    s' ← new_epoch s epoch start_time
    height ← Height.next c.debug s'.blockchain_height
    some (record s' {
      blockchain_height = height;
      last_hash = block_hash;
      invalid_txs = [];
      tx_check_cache = c.new_check_cache;
    })
