-- ===== src/Node/Handler.antt =====
-- exonum-node/src/lib.rs: `NodeHandler`, the node with its blockchain, and the small operations
-- that the handlers of messages and timeouts are made of. A handler runs on the node and has three
-- outcomes: it is done, it panics, or the model's fuel is spent, which the source does not have.
-- What leaves the node (network requests, timeouts, internal requests) is a list of effects.
pub mod Sending
pub mod RoundTime
pub mod Timers
pub mod Steps
pub mod Kept
pub mod Guarded
pub mod Finishing
use exonum.Prelude.{
  ℕ, ◌+◌, ◌-◌, ◌*◌, ◌/◌, Bool, true, false, not, Option, none, some, List, [], ◌∷◌, ◌++◌, length,
  leb, ltb, if◌then◌else◌,
}
use exonum.Prelude.HashMap.{HashMap}
use exonum.Prelude.BTreeMap.{BTreeMap}
use exonum.Prelude.BTreeMap
use exonum.Prelude.Panic
use exonum.Helpers.Word.{checked}
use exonum.Helpers.Round
use exonum.Node.Messages.{
  Hash, PublicKey, Verified, Propose, Prevote, Precommit, Status, Connect, ConsensusMessage,
}
use exonum.Node.Chain.{Chain}
use exonum.Node.State.{State, RequestData}
use exonum.Node.State.Requests
use exonum.Node.State.Peers.{is_peer_allowed}

-- `enum NodeTimeout`
pub data NodeTimeout : Type 0 where
  status : ℕ → NodeTimeout
  round : ℕ → ℕ → NodeTimeout
  request : RequestData → Option PublicKey → NodeTimeout
  propose : ℕ → ℕ → NodeTimeout
  update_api_state peer_exchange flush_pool : NodeTimeout

-- the request messages, without the receiver
pub data RequestBody : Type 0 where
  propose : ℕ → Hash → RequestBody
  transactions : List Hash → RequestBody
  pool_transactions : RequestBody
  prevotes : ℕ → ℕ → Hash → List Bool → RequestBody
  block : ℕ → RequestBody
  block_with_epoch : ℕ → ℕ → RequestBody

-- signed messages that the handlers send
pub data Outgoing (c : Chain) : Type 0 where
  consensus : ConsensusMessage → Outgoing c
  status : Verified Status → Outgoing c
  any_tx : c.Tx → Outgoing c
  connect : Verified Connect → Outgoing c
  request : PublicKey → Verified RequestBody → Outgoing c

pub data Effect (c : Chain) : Type 0 where
  send : PublicKey → Outgoing c → Effect c
  timeout : NodeTimeout → ℕ → Effect c
  jump_to_round : ℕ → ℕ → Effect c
  verify_message : List ℕ → Effect c
  after_commit : c.Ledger → Effect c

-- `struct NodeHandler`, with the node's own part of the database: `consensus_messages_cache` and
-- `consensus_round` of exonum-node/src/schema.rs. `clock_reads` counts the readings of the clock.
pub record Node (c : Chain) : Type 0 where
  pub blockchain : c.Ledger
  pub state : State c
  pub pool_manager : c.PoolManager
  pub is_enabled : Bool
  pub allow_expedited_propose : Bool
  pub messages_cache : List ConsensusMessage
  pub consensus_round : Option ℕ
  pub clock_reads : ℕ
  pub effects : List (Effect c)

pub data Outcome (S A : Type 0) : Type 0 where
  done : A → S → Outcome S A
  panicked : Outcome S A
  out_of_fuel : Outcome S A

abbrev pub M : Chain → Type 0 → Type 0
M c A = Node c → Outcome (Node c) A

module _ {c : Chain} {A : Type 0} where
  unfoldable pub pure : A → M c A
  pure a n = Outcome.done a n

  unfoldable pub panic : M c A
  panic n = Outcome.panicked

  unfoldable pub spent : M c A
  spent n = Outcome.out_of_fuel

  lifted : Option A → Node c → Outcome (Node c) A
  lifted none n = Outcome.panicked
  lifted (some a) n = Outcome.done a n

  -- code that may panic
  unfoldable pub lift : Option A → M c A
  unfolding lifted
  lift o n = lifted o n

  -- a reading of the state
  unfoldable pub gets : (State c → A) → M c A
  gets f n = Outcome.done (f n.state) n

  stepped : Option (A × State c) → Node c → Outcome (Node c) A
  stepped none n = Outcome.panicked
  stepped (some (a, s)) n = Outcome.done a (record n { state = s })

  -- a method of `State` with a result, which may panic
  unfoldable pub run : (State c → Option (A × State c)) → M c A
  unfolding stepped
  run f n = stepped (f n.state) n

module _ {c : Chain} {A B : Type 0} where
  abbrev continue : Outcome (Node c) A → (A → M c B) → Outcome (Node c) B
  continue (Outcome.done a n) f = f a n
  continue Outcome.panicked f = Outcome.panicked
  continue Outcome.out_of_fuel f = Outcome.out_of_fuel

  infixl 5 ◌>>=◌ ◌>>◌
  unfoldable pub ◌>>=◌ : M c A → (A → M c B) → M c B
  ◌>>=◌ m f n = continue (m n) f

  abbrev pub ◌>>◌ : M c A → M c B → M c B
  m >> k = m >>= λ _. k

module _ {c : Chain} where
  abbrev pub skip : M c (Unit {0})
  skip = pure tt

  -- a method of `State` without a result
  unfoldable pub modify : (State c → State c) → M c (Unit {0})
  modify f n = Outcome.done tt (record n { state = f n.state })

  abbrev unit_result : Option (State c) → Option (Unit {0} × State c)
  unit_result none = none
  unit_result (some s) = some (tt, s)

  unfoldable pub update : (State c → Option (State c)) → M c (Unit {0})
  unfolding run
  update f = run (λ s. unit_result (f s))

  unfoldable pub ledger : M c c.Ledger
  ledger n = Outcome.done n.blockchain n

  unfoldable pub set_ledger : c.Ledger → M c (Unit {0})
  set_ledger l n = Outcome.done tt (record n { blockchain = l })

  unfoldable pub emit : Effect c → M c (Unit {0})
  emit e n = Outcome.done tt (record n { effects = n.effects ++ e ∷ [] })

  unfoldable pub current_time : M c ℕ
  current_time n =
      Outcome.done (c.current_time n.clock_reads) (record n { clock_reads = n.clock_reads + 1 })

  -- `persist_changes` with `NodeSchema::save_messages`
  unfoldable pub save_messages : ℕ → List ConsensusMessage → M c (Unit {0})
  save_messages r ms n =
      Outcome.done tt
        (record n { messages_cache = n.messages_cache ++ ms; consensus_round = some r })

  unfoldable pub save_message : ℕ → ConsensusMessage → M c (Unit {0})
  unfolding save_messages
  save_message r m = save_messages r (m ∷ [])

  -- `consensus_messages_cache().clear()`
  unfoldable pub clear_messages : M c (Unit {0})
  clear_messages n = Outcome.done tt (record n { messages_cache = [] })

  unfoldable pub is_enabled : M c Bool
  is_enabled n = Outcome.done n.is_enabled n

  unfoldable pub get_expedited : M c Bool
  get_expedited n = Outcome.done n.allow_expedited_propose n

  unfoldable pub set_expedited : Bool → M c (Unit {0})
  set_expedited b n = Outcome.done tt (record n { allow_expedited_propose = b })

  -- `ManagePool::propose_block` and `ManagePool::remove_transactions`, which may change the manager
  unfoldable pub with_manager : {A : Type 0} → (c.PoolManager → Node c → A × c.PoolManager) → M c A
  with_manager f n =
      let r = f n.pool_manager n in Outcome.done r.0 (record n { pool_manager = r.1 })

  -- `for x in xs { body(x) }`
  unfoldable pub for_each : {A : Type 0} → List A → (A → M c (Unit {0})) → M c (Unit {0})
  for_each [] body = skip
  for_each (x ∷ xs) body = body x >> for_each xs body

  -- `sign_message`
  unfoldable pub sign_message : {T : Type 0} → T → M c (Verified T)
  sign_message payload n =
      Outcome.done (record { payload = payload; author = n.state.consensus_pk }) n
