-- ===== src/Node/State/Proposes.antt =====
-- exonum-node/src/state.rs: the proposes of the epoch, and the transactions that they wait for.
pub mod Kept
use Prim.Native.Nat.{compare, Ordering}
use exonum.Prelude.{
  ℕ, Bool, true, false, not, ◌&&◌, Option, none, some, List, [], ◌∷◌, length, leb, is_empty,
  if◌then◌else◌,
}
use exonum.Prelude.Eq.{◌==◌, nat_eq, pair_eq, option_eq}
use exonum.Prelude.Eq
use exonum.Prelude.HashMap.{HashMap}
use exonum.Prelude.HashMap
use exonum.Prelude.BTreeMap
use exonum.Prelude.Panic.{◌>>◌, debug_assert}
use exonum.Node.Messages.{Hash, Verified, Propose}
use exonum.Node.Chain.{Chain, BlockKind}
use exonum.Node.State.{State, ProposeState}

-- `ProposeState::block_kind`
abbrev pub block_kind : ProposeState → BlockKind
block_kind p = if p.message.payload.skip then BlockKind.skip else BlockKind.normal

-- `ProposeState::has_unknown_txs`
abbrev pub has_unknown_txs : ProposeState → Bool
has_unknown_txs p = not (is_empty p.unknown_txs)

-- `ProposeState::has_invalid_txs`
abbrev pub has_invalid_txs : ProposeState → Bool
has_invalid_txs p = not p.is_valid

-- the result of `add_propose`: the new state, or one of the two errors
pub data AddPropose (S : Type 0) : Type 0 where
  added : ProposeState → S → AddPropose S
  already_found : AddPropose S
  already_committed : AddPropose S

-- what the loop of `add_propose` finds: whether the transactions are valid, and the unknown ones
pub data TxScan : Type 0 where
  scanned : Bool → List Hash → TxScan
  committed : TxScan

-- the order of the build with debug assertions: rounds downwards, then hashes upwards
abbrev before_debug : Hash × ℕ → Hash × ℕ → Bool
before_debug a b = elim (compare a.1 b.1) [
  | Ordering.gt ↦ true
  | Ordering.eq ↦ leb a.0 b.0
  | Ordering.lt ↦ false
]

abbrev before_release : Hash × ℕ → Hash × ℕ → Bool
before_release a b = leb b.1 a.1

insert_propose : (Hash × ℕ → Hash × ℕ → Bool) → Hash × ℕ → List (Hash × ℕ) → List (Hash × ℕ)
insert_propose before p [] = p ∷ []
insert_propose before p (x ∷ xs) =
    let rest = insert_propose before p xs in if before p x then p ∷ x ∷ xs else x ∷ rest

sort_proposes : (Hash × ℕ → Hash × ℕ → Bool) → List (Hash × ℕ) → List (Hash × ℕ)
sort_proposes before [] = []
sort_proposes before (p ∷ ps) = insert_propose before p (sort_proposes before ps)

-- `State::reorder_proposes_if_needed`, of both builds
unfoldable pub reorder_proposes_if_needed : Bool → List (Hash × ℕ) → List (Hash × ℕ)
unfolding sort_proposes insert_propose
reorder_proposes_if_needed debug ps =
    if debug
    then sort_proposes before_debug ps
    else (if leb (length ps) 10 then sort_proposes before_release ps else ps)

-- a propose after a transaction, known as invalid or not, has come
unfoldable pub receive_tx : Hash → Bool → ProposeState → ProposeState
receive_tx tx invalid p = record p {
  unknown_txs = Eq.remove p.unknown_txs tx;
  is_valid = if Eq.contains p.unknown_txs tx && invalid then false else p.is_valid;
}

receive_all : Hash → Bool → HashMap Hash ProposeState → HashMap Hash ProposeState
unfolding receive_tx
receive_all tx invalid [] = []
receive_all tx invalid ((h, p) ∷ m) = (h, receive_tx tx invalid p) ∷ receive_all tx invalid m

-- the proposes without unknown transactions
full_proposes : HashMap Hash ProposeState → List (Hash × ℕ)
full_proposes [] = []
full_proposes ((h, p) ∷ m) =
    let rest = full_proposes m in
    if is_empty p.unknown_txs then (h, p.message.payload.round) ∷ rest else rest

-- `old_value.map_or(true, |val| val == (round, block_hash))`
abbrev pub same_confirmed : Option (ℕ × Hash) → ℕ × Hash → Bool
same_confirmed none new = true
same_confirmed (some old) new = old == new

module _ {c : Chain} where
  -- the loop of `add_propose`, over the transactions of the propose and the two variables
  scan_txs : State c → c.Ledger → List Hash → Bool → List Hash → TxScan
  scan_txs s ledger [] valid unknown = TxScan.scanned valid unknown
  scan_txs s ledger (h ∷ hs) valid unknown =
      let known = scan_txs s ledger hs valid unknown in
      let invalid = scan_txs s ledger hs false unknown in
      let missing = scan_txs s ledger hs valid (Eq.insert unknown h) in
      if BTreeMap.contains_key s.tx_cache h
      then known
      else (if c.has_transaction ledger h
          then (if c.in_pool ledger h then known else TxScan.committed)
          else (if Eq.contains s.invalid_txs h then invalid else missing))

  admit : State c → Verified Propose → TxScan → AddPropose (State c)
  admit s msg TxScan.committed = AddPropose.already_committed
  admit s msg (TxScan.scanned valid unknown) =
      let p : ProposeState = record {
        message = msg;
        unknown_txs = unknown;
        block_hash = none;
        is_saved = false;
        is_valid = valid;
      } in
      AddPropose.added p (record s { proposes = HashMap.insert s.proposes (c.propose_hash msg) p })

  -- `State::add_propose`
  unfoldable pub add_propose : State c → c.Ledger → Verified Propose → AddPropose (State c)
  unfolding scan_txs admit
  add_propose s ledger msg =
      if HashMap.contains_key s.proposes (c.propose_hash msg)
      then AddPropose.already_found
      else admit s msg (scan_txs s ledger msg.payload.transactions true [])

  -- `State::add_self_propose`, after the message is saved to the cache
  unfoldable pub add_self_propose : State c → Verified Propose → Hash × State c
  add_self_propose s msg =
      let hash = c.propose_hash msg in
      (
        hash,
        record s {
          proposes = HashMap.insert s.proposes hash (record {
            message = msg;
            unknown_txs = [];
            block_hash = none;
            is_saved = true;
            is_valid = true;
          });
        },
      )

  -- `State::check_incomplete_proposes`
  unfoldable pub check_incomplete_proposes : State c → Hash → List (Hash × ℕ) × State c
  unfolding receive_all full_proposes reorder_proposes_if_needed
  check_incomplete_proposes s tx_hash =
      let ps = receive_all tx_hash (Eq.contains s.invalid_txs tx_hash) s.proposes in
      (reorder_proposes_if_needed c.debug (full_proposes ps), record s { proposes = ps })

  -- `State::add_propose_confirmed_by_majority`
  unfoldable pub add_propose_confirmed_by_majority : State c → ℕ → Hash → Hash → Option (State c)
  add_propose_confirmed_by_majority s round propose_hash block_hash = do
    let m = s.proposes_confirmed_by_majority
    debug_assert c.debug (same_confirmed (HashMap.get m propose_hash) (round, block_hash))
    some (record s {
      proposes_confirmed_by_majority = HashMap.insert m propose_hash (round, block_hash);
    })

  -- `State::take_confirmed_propose`
  unfoldable pub take_confirmed_propose : State c → Hash → Option (ℕ × Hash) × State c
  take_confirmed_propose s propose_hash =
      let m = s.proposes_confirmed_by_majority in
      (
        HashMap.get m propose_hash,
        record s { proposes_confirmed_by_majority = HashMap.remove m propose_hash },
      )
