-- ===== src/Node/State/Blocks/Unknown.antt =====
-- exonum-node/src/state.rs: which transactions a received block waits for.
use exonum.Prelude.{
  ◌≡◌, refl, Bool, true, false, not, ◌&&◌, ◌||◌, Option, some, List, [], ◌∷◌, arith, All,
  Bool-cases, inl, inr,
}
use exonum.Prelude.Eq.{◌==◌, nat_eq}
use exonum.Prelude.Eq
use exonum.Node.Messages.{Hash, Verified, Precommit}
use exonum.Node.Chain.{Chain}
use exonum.Node.State.{State, IncompleteBlock}
use exonum.Node.State.Blocks.{
  new_incomplete_block, is_none, pool_contains, collect_unknown, create_incomplete_block,
}

in_pool_or_cached : (a b : Bool) → (a || b) ≡ true → (not a && not b) ≡ false
in_pool_or_cached a b h = ground arith

module _ {c : Chain} where
  -- the set after the loop, from the one before
  Collected : State c → c.Ledger → List Hash → List Hash → Option (List Hash) → Type 0
  Collected s l txs unknown o =
      (set : List Hash) × (o ≡ some set)
      × ((h : Hash)
          → Eq.contains set h
            ≡ (Eq.contains unknown h || Eq.contains txs h && not (pool_contains s l h)))

  collect_unknown-Collected :
      (s : State c) (l : c.Ledger) (txs unknown : List Hash)
      → All (λ h. Eq.contains s.invalid_txs h ≡ false) txs
      → Collected s l txs unknown (collect_unknown s l txs unknown)
  unfolding collect_unknown Eq.contains Collected
  collect_unknown-Collected s l [] unknown valid = (unknown, refl, λ h. ground arith)
  collect_unknown-Collected s l (t ∷ txs) unknown valid =
      let (with_t, q, m) = collect_unknown-Collected s l txs (Eq.insert unknown t) valid.1 in
      let (without_t, q', m') = collect_unknown-Collected s l txs unknown valid.1 in
      elim (Bool-cases (pool_contains s l t)) [
        | inl e ↦ (
          without_t,
          rw (e, in_pool_or_cached _ _ e) q',
          λ h. ground (arith, m' h, nat_eq.beq_iff t h),
        )
        | inr e ↦ (
          with_t,
          rw (e, valid.0) q,
          λ h. ground (arith, m h, nat_eq.beq_iff t h, Eq.contains-insert unknown t h),
        )
      ]

  -- What `create_incomplete_block` returns for a new block: the block, kept in the state, which waits for the
  -- transactions that are neither in the cache nor in the pool.
  pub record Waiting (s : State c) (l : c.Ledger) (b : IncompleteBlock c.Block)
      (b' : IncompleteBlock c.Block) (s' : State c) : Type 0 where
    pub returned : create_incomplete_block s l b ≡ some (b', s')
    pub kept : s'.incomplete_block ≡ some b'
    pub same_transactions : b'.transactions ≡ b.transactions
    pub unknown :
        (h : Hash)
        → Eq.contains b'.unknown_txs h ≡ (Eq.contains b.transactions h && not (pool_contains s l h))

  -- A block is accepted without a panic if none waits yet and none of its transactions is known to be invalid:
  -- also one with a transaction that is committed already.
  pub create_incomplete_block-Waiting :
      (s : State c) (l : c.Ledger) (header : c.Block) (txs : List Hash)
      (precommits : List (Verified Precommit))
      → is_none s.incomplete_block ≡ true
      → All (λ h. Eq.contains s.invalid_txs h ≡ false) txs
      → (b' : IncompleteBlock c.Block) × (s' : State c) × Waiting s l
          (new_incomplete_block header txs precommits)
          b'
          s'
  unfolding create_incomplete_block Collected Eq.contains
  create_incomplete_block-Waiting s l header txs precommits free valid =
      let (set, q, m) = collect_unknown-Collected s l txs [] valid in
      (
        record (new_incomplete_block header txs precommits) { unknown_txs = set },
        record s {
          incomplete_block =
              some (record (new_incomplete_block header txs precommits) { unknown_txs = set });
        },
        record { returned = rw (free, q) refl; kept = refl; same_transactions = refl; unknown = m },
      )
