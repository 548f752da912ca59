-- ===== src/Node/Tests.antt =====
-- A node of four validators on a blockchain that keeps numbers only, and examples at it.
pub mod Events
pub mod StateTests
use exonum.Prelude.{ℕ, ◌+◌, ◌*◌, Bool, true, false, none, some, List, [], ◌∷◌, length}
use exonum.Node.Messages.{Hash, Verified, Prevote, Precommit, Connect}
use exonum.Node.Chain.{Chain, BlockKind, ValidatorKeys, ConsensusConfig, ProposeTemplate}
use exonum.Node.Votes.{Votes}
use exonum.Node.State.{State, FlushPoolStrategy}
use exonum.Node.Handler.{Node}

abbrev pub keys : ℕ → ValidatorKeys
keys k = record { consensus_key = k; service_key = k + 100 }

abbrev pub four_validators : ConsensusConfig
four_validators = record {
  validator_keys = keys 10 ∷ keys 11 ∷ keys 12 ∷ keys 13 ∷ [];
  first_round_timeout = 3000;
  status_timeout = 5000;
  peers_timeout = 10000;
  txs_block_limit = 1000;
  max_message_len = 1000000;
  min_propose_timeout = 10;
  max_propose_timeout = 200;
  propose_timeout_threshold = 500;
}

-- blocks, transactions and hashes are numbers; a ledger is its height
abbrev pub number_chain : Chain
number_chain = record {
  debug = true;
  Ledger = ℕ;
  Patch = ℕ;
  Tx = ℕ;
  Block = ℕ;
  ExecutionError = ℕ;
  CheckCache = ℕ;
  PoolManager = ℕ;
  propose_hash = λ m. m.payload.round;
  tx_hash = λ tx. tx;
  block_hash = λ b. b;
  hash_list = length;
  block_height = λ b. b;
  block_prev_hash = λ b. 0;
  block_tx_hash = λ b. 0;
  block_epoch = λ b. some b;
  block_is_skip = λ b. false;
  block_proposer = λ b. some (some 0);
  decode_precommit = λ bytes. none;
  has_transaction = λ l h. false;
  in_pool = λ l h. false;
  pool_len = λ l. 0;
  last_block_hash = λ l. l;
  consensus_config = λ l. four_validators;
  add_transaction_into_pool = λ l tx. l;
  reject_transaction = λ l h. l;
  create_patch = λ l p txs. record { inner = 0; block_hash = 7; kind = BlockKind.normal };
  commit = λ l patch precommits. some (l + 1);
  new_check_cache = 0;
  check_tx = λ l tx cache. (none, cache);
  propose_block = λ g l txs p. (ProposeTemplate.ordinary [], g);
  remove_transactions = λ g l txs. ([], g);
  current_time = λ n. 1000 * n;
}

abbrev pub prevote_of : ℕ → Verified Prevote
prevote_of i = record {
  payload = record { validator = i; epoch = 5; round = 1; propose_hash = 42; locked_round = 0 };
  author = 10 + i;
}

-- a precommit of a validator for a block in epoch 5, signed with its key
abbrev pub precommit_of : ℕ → Hash → Verified Precommit
precommit_of i block_hash = record {
  payload = record {
    validator = i;
    epoch = 5;
    round = 1;
    propose_hash = 42;
    block_hash = block_hash;
    time = 0;
  };
  author = 10 + i;
}

abbrev pub three_bits : List Bool
three_bits = true ∷ true ∷ true ∷ false ∷ []

abbrev pub three_prevotes : Votes (Verified Prevote)
three_prevotes = record {
  messages = prevote_of 0 ∷ prevote_of 1 ∷ prevote_of 2 ∷ [];
  validators = three_bits;
  count = 3;
}

abbrev pub three_precommits : Votes (Verified Precommit)
three_precommits = record {
  messages = precommit_of 0 42 ∷ precommit_of 1 42 ∷ precommit_of 2 42 ∷ [];
  validators = three_bits;
  count = 3;
}

abbrev pub our_connect : Verified Connect
our_connect = record {
  payload = record { host = "node"; time = 0; user_agent = "exonum" };
  author = 10;
}

-- validator 0 in the first round of epoch 5, with its prevote
abbrev pub voted_state : State number_chain
voted_state = record {
  validator_state = some (record {
    id = 0;
    our_prevotes = (1, prevote_of 0) ∷ [];
    our_precommits = (1, precommit_of 0 42) ∷ [];
  });
  our_connect_message = our_connect;
  config = four_validators;
  connect_list = [];
  peers = [];
  connections = [];
  epoch_start_time = 0;
  epoch = 5;
  blockchain_height = 3;
  round = 1;
  locked_round = 0;
  locked_propose = none;
  last_hash = 0;
  proposes = [];
  blocks = [];
  prevotes = ((1, 42), three_prevotes) ∷ [];
  precommits = ((1, 42), three_precommits) ∷ [];
  queued = [];
  proposes_confirmed_by_majority = [];
  requests = [];
  peer_states = [];
  validators_rounds = [];
  incomplete_block = none;
  tx_cache = [];
  flush_pool_strategy = FlushPoolStrategy.immediate;
  tx_check_cache = 0;
  invalid_txs = [];
  consensus_pk = 10;
}

abbrev pub voted_node : Node number_chain
voted_node = record {
  blockchain = 3;
  state = voted_state;
  pool_manager = 0;
  is_enabled = true;
  allow_expedited_propose = true;
  messages_cache = [];
  consensus_round = none;
  clock_reads = 0;
  effects = [];
}

-- a node that is not a validator and is locked in round 1
abbrev pub locked_node : Node number_chain
locked_node = record voted_node {
  state = record voted_state { validator_state = none; locked_round = 1; locked_propose = some 42 };
}
