-- ===== src/Node/State/Blocks.antt =====
-- exonum-node/src/state.rs: executed blocks, and the block that waits for transactions.
pub mod Unknown
use exonum.Prelude.{
  ℕ, Bool, true, false, not, ◌&&◌, ◌||◌, Option, none, some, List, [], ◌∷◌, is_empty, if◌then◌else◌,
}
use exonum.Prelude.Eq.{nat_eq}
use exonum.Prelude.Eq
use exonum.Prelude.HashMap
use exonum.Prelude.BTreeMap
use exonum.Prelude.Panic.{◌>>=◌, ◌>>◌, assert, debug_assert}
use exonum.Node.Messages.{Hash, Verified, Precommit}
use exonum.Node.Chain.{Chain, BlockPatch}
use exonum.Node.State.{State, BlockState, IncompleteBlock}

-- `enum RoundAction`
pub data RoundAction : Type 0 where
  new_epoch no_action : RoundAction

-- `IncompleteBlock::new`
abbrev pub new_incomplete_block :
    {B : Type 0} → B → List Hash → List (Verified Precommit) → IncompleteBlock B
new_incomplete_block header transactions precommits = record {
  header = header;
  precommits = precommits;
  transactions = transactions;
  unknown_txs = [];
}

-- `IncompleteBlock::has_unknown_txs`
abbrev pub lacks_txs : {B : Type 0} → IncompleteBlock B → Bool
lacks_txs b = not (is_empty b.unknown_txs)

abbrev pub is_none {ℓ} : {A : Type ℓ} → Option A → Bool
is_none none = true
is_none (some a) = false

module _ {c : Chain} where
  -- `State::add_block`; an entry that is there stays
  unfoldable pub add_block : State c → BlockPatch c.Patch → List Hash → ℕ → ℕ → State c
  add_block s patch txs proposer_id epoch =
      if HashMap.contains_key s.blocks patch.block_hash then s else record s {
        blocks = HashMap.insert s.blocks patch.block_hash (record {
          hash = patch.block_hash;
          patch = some patch;
          txs = txs;
          proposer_id = proposer_id;
          kind = patch.kind;
          epoch = epoch;
        });
      }

  -- `State::take_block_for_commit`
  unfoldable pub take_block_for_commit : State c → Hash → Option (BlockState c.Patch × State c)
  take_block_for_commit s hash = do
    block ← HashMap.get s.blocks hash
    some (block, record s { blocks = HashMap.remove s.blocks hash })

  -- `PersistentPool::contains_transaction` (exonum/src/blockchain/mod.rs)
  abbrev pub pool_contains : State c → c.Ledger → Hash → Bool
  pool_contains s ledger h = BTreeMap.contains_key s.tx_cache h || c.in_pool ledger h

  -- the loop of `create_incomplete_block`, over the set of unknown transactions
  unfoldable pub collect_unknown : State c → c.Ledger → List Hash → List Hash → Option (List Hash)
  collect_unknown s ledger [] unknown = some unknown
  collect_unknown s ledger (h ∷ hs) unknown =
      let known = collect_unknown s ledger hs unknown in
      let missing = collect_unknown s ledger hs (Eq.insert unknown h) in
      if pool_contains s ledger h
      then (if not (BTreeMap.contains_key s.tx_cache h) && not (c.in_pool ledger h)
          then none
          else known)
      else (if Eq.contains s.invalid_txs h then none else missing)

  -- `State::create_incomplete_block`
  unfoldable pub create_incomplete_block :
      State c → c.Ledger → IncompleteBlock c.Block → Option (IncompleteBlock c.Block × State c)
  unfolding collect_unknown
  create_incomplete_block s ledger block = do
    assert (is_none s.incomplete_block)
    unknown ← collect_unknown s ledger block.transactions block.unknown_txs
    let block' = record block { unknown_txs = unknown }
    some (block', record s { incomplete_block = some block' })

  -- `State::take_completed_block`
  unfoldable pub take_completed_block : State c → Option (IncompleteBlock c.Block × State c)
  take_completed_block s = do
    block ← s.incomplete_block
    debug_assert c.debug (not (lacks_txs block))
    some (block, record s { incomplete_block = none })

  received : State c → Hash → IncompleteBlock c.Block → RoundAction × State c
  received s tx_hash block =
      let unknown = Eq.remove block.unknown_txs tx_hash in
      (
        if is_empty unknown then RoundAction.new_epoch else RoundAction.no_action,
        record s { incomplete_block = some (record block { unknown_txs = unknown }) },
      )

  -- `State::remove_unknown_transaction`
  unfoldable pub remove_unknown_transaction : State c → Hash → Option (RoundAction × State c)
  unfolding received
  remove_unknown_transaction s tx_hash = elim s.incomplete_block [
    | none ↦ some (RoundAction.no_action, s)
    | some block ↦
        if Eq.contains s.invalid_txs tx_hash then none else some (received s tx_hash block)
  ]
