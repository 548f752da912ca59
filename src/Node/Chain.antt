-- ===== src/Node/Chain.antt =====
-- The interface of the node to what it calls: the blockchain of exonum/src/blockchain, the pool
-- manager plugged into it (exonum-node/src/pool.rs), the crypto library, and the system clock.
-- Only results are fixed here: each operation that changes the blockchain or the pool manager
-- returns the new value.
use exonum.Prelude.{ℕ, ◌≡◌, ◌↔◌, Bool, true, ◌&&◌, Option, List, arith}
use exonum.Prelude.Eq.{Eq, ◌==◌, nat_eq, list_eq, list_beq_iff}
use exonum.Prelude.BTreeMap.{BTreeMap}
use exonum.Node.Messages.{Hash, PublicKey, Verified, Propose, Precommit}

-- `enum BlockKind`
pub data BlockKind : Type 0 where
  normal skip : BlockKind

-- `enum BlockContents`
pub data BlockContents : Type 0 where
  transactions : List Hash → BlockContents
  skip : BlockContents

-- `struct BlockParams`
pub record BlockParams : Type 0 where
  pub contents : BlockContents
  pub proposer : ℕ
  pub epoch : ℕ

-- `struct ValidatorKeys`
pub record ValidatorKeys : Type 0 where
  pub consensus_key : PublicKey
  pub service_key : PublicKey

-- `struct ConsensusConfig`; times in milliseconds
pub record ConsensusConfig : Type 0 where
  pub validator_keys : List ValidatorKeys
  pub first_round_timeout : ℕ
  pub status_timeout : ℕ
  pub peers_timeout : ℕ
  pub txs_block_limit : ℕ
  pub max_message_len : ℕ
  pub min_propose_timeout : ℕ
  pub max_propose_timeout : ℕ
  pub propose_timeout_threshold : ℕ

-- the derived `PartialEq`
abbrev pub keys_beq : ValidatorKeys → ValidatorKeys → Bool
keys_beq a b = (a.consensus_key == b.consensus_key) && (a.service_key == b.service_key)

pub keys_beq_iff : (a b : ValidatorKeys) → (keys_beq a b ≡ true) ↔ (a ≡ b)
keys_beq_iff a b = ground arith

instance abbrev pub validator_keys_eq : Eq ValidatorKeys
validator_keys_eq = record { beq = keys_beq; beq_iff = keys_beq_iff }

abbrev pub config_beq : ConsensusConfig → ConsensusConfig → Bool
config_beq a b =
    (a.validator_keys == b.validator_keys)
    && (a.first_round_timeout == b.first_round_timeout)
    && (a.status_timeout == b.status_timeout)
    && (a.peers_timeout == b.peers_timeout)
    && (a.txs_block_limit == b.txs_block_limit)
    && (a.max_message_len == b.max_message_len)
    && (a.min_propose_timeout == b.min_propose_timeout)
    && (a.max_propose_timeout == b.max_propose_timeout)
    && (a.propose_timeout_threshold == b.propose_timeout_threshold)

pub config_beq_iff : (a b : ConsensusConfig) → (config_beq a b ≡ true) ↔ (a ≡ b)
config_beq_iff a b = ground (arith, list_beq_iff a.validator_keys b.validator_keys)

instance abbrev pub config_eq : Eq ConsensusConfig
config_eq = record { beq = config_beq; beq_iff = config_beq_iff }

-- `enum ProposeTemplate`
pub data ProposeTemplate : Type 0 where
  ordinary : List Hash → ProposeTemplate
  skip : ProposeTemplate

-- `struct ProposeParams`, whose snapshot is handed over beside it
pub record ProposeParams : Type 0 where
  pub config : ConsensusConfig
  pub height : ℕ
  pub round : ℕ

-- `struct BlockPatch`, over the database's type of changes
pub record BlockPatch (D : Type 0) : Type 0 where
  pub inner : D
  pub block_hash : Hash
  pub kind : BlockKind

pub record Chain : Type 1 where
  -- whether the build has debug assertions and overflow checks
  pub debug : Bool
  -- the database with the core schema; changes of it; a signed transaction; a block header; an
  -- error of a transaction; the cache of transaction checks; the pool manager
  pub Ledger : Type 0
  pub Patch : Type 0
  pub Tx : Type 0
  pub Block : Type 0
  pub ExecutionError : Type 0
  pub CheckCache : Type 0
  pub PoolManager : Type 0
  -- `object_hash` of what is signed or stored, and `HashTag::hash_list`
  pub propose_hash : Verified Propose → Hash
  pub tx_hash : Tx → Hash
  pub block_hash : Block → Hash
  pub hash_list : List Hash → Hash
  -- parts of a block header: `epoch()`, `is_skip()`, and `get_header::<ProposerId>()`, which fails
  -- on bytes that do not decode
  pub block_height : Block → ℕ
  pub block_prev_hash : Block → Hash
  pub block_tx_hash : Block → Hash
  pub block_epoch : Block → Option ℕ
  pub block_is_skip : Block → Bool
  pub block_proposer : Block → Option (Option ℕ)
  -- `into_verified` for one precommit
  pub decode_precommit : List ℕ → Option (Verified Precommit)
  -- the core schema
  pub has_transaction : Ledger → Hash → Bool
  pub in_pool : Ledger → Hash → Bool
  pub pool_len : Ledger → ℕ
  pub last_block_hash : Ledger → Hash
  pub consensus_config : Ledger → ConsensusConfig
  pub add_transaction_into_pool : Ledger → Tx → Ledger
  pub reject_transaction : Ledger → Hash → Ledger
  -- `BlockchainMut::create_patch`, `BlockchainMut::commit` and `Blockchain::check_tx_with_cache`
  pub create_patch : Ledger → BlockParams → BTreeMap Tx → BlockPatch Patch
  pub commit : Ledger → BlockPatch Patch → List (Verified Precommit) → Option Ledger
  pub new_check_cache : CheckCache
  pub check_tx : Ledger → Tx → CheckCache → Option ExecutionError × CheckCache
  -- `ManagePool`, over the pool made of the database and the transaction cache
  pub propose_block :
      PoolManager → Ledger → BTreeMap Tx → ProposeParams → ProposeTemplate × PoolManager
  pub remove_transactions : PoolManager → Ledger → BTreeMap Tx → List Hash × PoolManager
  -- the reading of the clock, in milliseconds, by the number of readings before it
  pub current_time : ℕ → ℕ
