-- ===== src/Node/Consensus/Blocks.antt =====
-- exonum-node/src/consensus.rs: blocks received from a peer that is ahead.
pub mod Kept
pub mod Certificate
use exonum.Prelude.{
  ℕ, Bool, true, false, not, ◌&&◌, ◌||◌, Option, none, some, List, [], ◌∷◌, length, leb, ltb,
  is_empty, if◌then◌else◌,
}
use exonum.Prelude.Eq.{◌==◌, nat_eq}
use exonum.Prelude.Eq
use exonum.Prelude.HashMap
use exonum.Helpers.Height
use exonum.Node.Messages.{Hash, PublicKey, Verified, Precommit, BlockResponse, ConsensusMessage}
use exonum.Node.Chain.{Chain, BlockContents}
use exonum.Node.State.{State, IncompleteBlock, RequestData, majority_count, consensus_public_key_of}
use exonum.Node.State.Peers.{is_peer_allowed, advanced_peers, send_message}
use exonum.Node.State.Blocks.{
  add_block, create_incomplete_block, take_completed_block, new_incomplete_block, lacks_txs,
}
use exonum.Node.Handler.{
  M, skip, panic, lift, gets, modify, run, ◌>>=◌, ◌>>◌, ledger, is_enabled, for_each,
}
use exonum.Node.Handler.Sending.{request, remove_request}
use exonum.Node.Consensus.Broadcast.{create_block}
use exonum.Node.Consensus.Commit.{commit}

-- `into_verified`
pub into_verified : (c : Chain) → List (List ℕ) → Option (List (Verified Precommit))
into_verified c [] = some []
into_verified c (bytes ∷ raw) = elim (c.decode_precommit bytes) [
  | none ↦ none
  | some p ↦ elim (into_verified c raw) [ none ↦ none | some ps ↦ some (p ∷ ps) ]
]

contents_of_block : (c : Chain) → IncompleteBlock c.Block → BlockContents
contents_of_block c b =
    if c.block_is_skip b.header
    then BlockContents.skip
    else BlockContents.transactions b.transactions

-- `validate_precommit`, with the key of the validator
unfoldable pub signed_by : Option PublicKey → Hash → ℕ → ℕ → Verified Precommit → Bool
signed_by none block_hash epoch round precommit = false
signed_by (some key) block_hash epoch round precommit =
    (key == precommit.author)
    && (precommit.payload.block_hash == block_hash)
    && (precommit.payload.epoch == epoch)
    && (precommit.payload.round == round)

module _ {c : Chain} where
  -- `validate_precommit`
  unfoldable pub validate_precommit : State c → Hash → ℕ → ℕ → Verified Precommit → Bool
  unfolding signed_by
  validate_precommit s block_hash epoch round precommit =
      signed_by (consensus_public_key_of s precommit.payload.validator) block_hash epoch round
        precommit

  -- the loop of `validate_precommits`, with the validators met so far
  unfoldable pub validate_each : State c → Hash → ℕ → ℕ → List ℕ → List (Verified Precommit) → Bool
  validate_each s block_hash epoch round met [] = true
  validate_each s block_hash epoch round met (p ∷ ps) =
      let rest = validate_each s block_hash epoch round (Eq.insert met p.payload.validator) ps in
      if Eq.contains met p.payload.validator
      then false
      else (if validate_precommit s block_hash epoch round p then rest else false)

  -- the loop with the round of the first precommit; indexing an empty list panics
  unfoldable pub from_first : State c → Hash → ℕ → List (Verified Precommit) → Option Bool
  from_first s block_hash epoch [] = none
  from_first s block_hash epoch (p ∷ ps) =
      some (validate_each s block_hash epoch p.payload.round [] (p ∷ ps))

  -- `validate_precommits`: whether there is no error
  unfoldable pub validate_precommits : State c → List (Verified Precommit) → ℕ → Hash → Option Bool
  validate_precommits s precommits epoch block_hash =
      if ltb (length precommits) (majority_count s)
      then some false
      else (if ltb (length s.config.validator_keys) (length precommits)
          then some false
          else from_first s block_hash epoch precommits)

  -- the checks of `validate_block_response` on the content of a block
  pub valid_content : State c → c.Ledger → BlockResponse c.Block → Bool
  valid_content s l m =
      (c.block_prev_hash m.block == c.last_block_hash l)
      && elim s.incomplete_block [ none ↦ true | some _ ↦ false ]
      && elim (c.block_proposer m.block) [ none ↦ false | some none ↦ false | some (some _) ↦ true ]
      && not (c.block_is_skip m.block && not (is_empty m.transactions))
      && (c.block_tx_hash m.block == c.hash_list m.transactions)

  checked_precommits :
      State c
      → ℕ
      → Hash
      → Option (List (Verified Precommit))
      → Option (Option (List (Verified Precommit)))
  checked_precommits s epoch block_hash none = some none
  checked_precommits s epoch block_hash (some ps) =
      elim (validate_precommits s ps epoch block_hash) [
        | none ↦ none
        | some valid ↦ some (if valid then some ps else none)
      ]

  -- the checks with the block's epoch and the height after the block's
  checked_block :
      State c
      → c.Ledger
      → BlockResponse c.Block
      → ℕ
      → ℕ
      → Option (Option (List (Verified Precommit)))
  checked_block s l m epoch next =
      let is_next_height = s.blockchain_height == c.block_height m.block in
      let is_future_epoch = s.blockchain_height == next && leb s.epoch epoch in
      if (is_next_height || is_future_epoch) && valid_content s l m
      then checked_precommits s epoch (c.block_hash m.block) (into_verified c m.precommits)
      else some none

  -- `validate_block_response`: the precommits, or `none` for one of its errors; the outer `none` is
  -- the panic of `height.next()`
  pub validate_block_response :
      State c
      → c.Ledger
      → Verified (BlockResponse c.Block)
      → Option (Option (List (Verified Precommit)))
  validate_block_response s l msg =
      if (msg.payload.to == s.consensus_pk) && is_peer_allowed s msg.author
      then elim (c.block_epoch msg.payload.block) [
        | none ↦ some none
        | some epoch ↦ elim (Height.next c.debug (c.block_height msg.payload.block)) [
          | none ↦ none
          | some next ↦ checked_block s l msg.payload epoch next
        ]
      ]
      else some none

  ask_block : Option (PublicKey × RequestData) → M c (Unit {0})
  ask_block none = skip
  ask_block (some (peer, data')) = request data' peer

  -- `NodeHandler::request_next_block`
  pub request_next_block : M c (Unit {0})
  request_next_block = do
    enabled ← is_enabled
    if not enabled
        then skip
        else (do target ← gets (λ s. send_message (advanced_peers s) s); ask_block target)

  -- the block is executed and must have the hash that was received
  execute_block : IncompleteBlock c.Block → M c (Unit {0})
  execute_block b = do
    header ← lift (c.block_proposer b.header)
    proposer_id ← lift header
    epoch ← lift (c.block_epoch b.header)
    patch ← create_block proposer_id epoch (contents_of_block c b)
    if patch.block_hash == c.block_hash b.header
        then modify (λ s. add_block s patch b.transactions proposer_id epoch)
        else panic

module _ {c : Chain} (again : ConsensusMessage → M c (Unit {0})) where
  -- `NodeHandler::handle_full_block`
  pub handle_full_block : M c (Unit {0})
  handle_full_block = do
    b ← run take_completed_block
    known ← gets (λ s. HashMap.contains_key s.blocks (c.block_hash b.header))
    if known then skip else execute_block b
    commit again (c.block_hash b.header) b.precommits
    request_next_block

  -- the block waits for its transactions, which are requested
  wait_for_txs : PublicKey → BlockResponse c.Block → List (Verified Precommit) → M c (Unit {0})
  wait_for_txs sender m precommits = do
    l ← ledger
    b ←
        run (λ s.
          create_incomplete_block s l (new_incomplete_block m.block m.transactions precommits))
    known_nodes ← remove_request (RequestData.block (c.block_height m.block))
    if lacks_txs b
        then (do
          request RequestData.block_transactions sender
          for_each known_nodes (λ node. request RequestData.block_transactions node))
        else handle_full_block

  accept_block :
      PublicKey → BlockResponse c.Block → Option (List (Verified Precommit)) → M c (Unit {0})
  accept_block sender m none = skip
  accept_block sender m (some precommits) = do
    known ← gets (λ s. HashMap.contains_key s.blocks (c.block_hash m.block))
    if known
        then (do commit again (c.block_hash m.block) precommits; request_next_block)
        else wait_for_txs sender m precommits

  -- `NodeHandler::handle_block`
  pub handle_block : Verified (BlockResponse c.Block) → M c (Unit {0})
  handle_block msg = do
    l ← ledger
    v ← gets (λ s. validate_block_response s l msg)
    precommits ← lift v
    accept_block msg.author msg.payload precommits
