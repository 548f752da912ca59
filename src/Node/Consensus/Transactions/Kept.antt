-- ===== src/Node/Consensus/Transactions/Kept.antt =====
-- exonum-node/src/consensus.rs: the handlers of transactions keep what the consensus rests on, in a
-- build with debug assertions.
use exonum.Prelude.{
  ℕ, true, Bool, Option, none, some, List, [], ◌∷◌, inl, inr, Bool-cases, Option-cases,
}
use exonum.Prelude.Eq.{nat_eq}
use exonum.Prelude.Eq
use exonum.Prelude.BTreeMap
use exonum.Node.Messages.{Hash, Verified, ConsensusMessage, Precommit}
use exonum.Node.Chain.{Chain}
use exonum.Node.State.{RequestData}
use exonum.Node.State.Proposes.{check_incomplete_proposes}
use exonum.Node.State.Blocks.{RoundAction, new_epoch, no_action, remove_unknown_transaction}
use exonum.Node.State.Progress.{core, Still-refl}
use exonum.Node.Handler.{M, run, modify}
use exonum.Node.Handler.Sending.{remove_request}
use exonum.Node.Handler.Steps.{
  Regime, Steps, step_rules, Steps-run, Steps-modify, Steps-bind, Steps-if,
}
use exonum.Node.Handler.Sending.Kept.{sending_kept, remove_request-Steps}
use exonum.Node.Handler.Timers.Kept.{timers_kept}
use exonum.Node.Consensus.Commit.{commit}
use exonum.Node.Consensus.Locking.Kept.{handle_full_propose-Steps}
use exonum.Node.Consensus.Locking.{handle_full_propose}
use exonum.Node.Consensus.Blocks.Kept.{handle_full_block-Steps}
use exonum.Node.Consensus.Transactions.{
  TxOutcome, TransactionsResponse, check, store_tx, admit_tx, expedite, check_and_store,
  handle_txs_batch, is_new_epoch, full_each, complete_block, process_tx, handle_tx, relay,
  handle_incoming_tx,
}

module _ {c : Chain} {R : Regime c} where
  cache_step :
      (tx : c.Tx)
      → Steps R (modify (λ s. record s { tx_cache = BTreeMap.insert s.tx_cache (c.tx_hash tx) tx }))
  cache_step tx = Steps-modify _ (λ s. Still-refl (core s))

  invalid_step :
      (tx : c.Tx)
      → Steps R (modify (λ s. record s { invalid_txs = Eq.insert s.invalid_txs (c.tx_hash tx) }))
  invalid_step tx = Steps-modify _ (λ s. Still-refl (core s))

  check_step : (l : c.Ledger) (tx : c.Tx) → Steps R (run (λ s. some (check l tx s)))
  unfolding check
  check_step l tx = Steps-run _ (λ s. Still-refl (core s))

  store_tx-Steps : (tx : c.Tx) → Steps R (store_tx {c = c} tx)
  unfolding store_tx
  store_tx-Steps tx = search (step_rules, cache_step) depth 20

  admit_tx-Steps : (tx : c.Tx) (e : Option c.ExecutionError) → Steps R (admit_tx {c = c} tx e)
  unfolding admit_tx
  admit_tx-Steps tx none = search (step_rules, store_tx-Steps)
  admit_tx-Steps tx (some e) = search (step_rules, invalid_step)

  expedite-Steps : Steps R expedite
  unfolding expedite
  expedite-Steps = search (step_rules, timers_kept) depth 20

  check_and_store-Steps : (tx : c.Tx) → Steps R (check_and_store {c = c} tx)
  unfolding check_and_store
  check_and_store-Steps tx = search (step_rules, check_step, admit_tx-Steps)

  pub handle_txs_batch-Steps :
      (msg : Verified TransactionsResponse) → Steps R (handle_txs_batch msg)
  unfolding handle_txs_batch
  handle_txs_batch-Steps msg = search (step_rules) depth 20

  incomplete_step : (h : Hash) → Steps R (run (λ s. some (check_incomplete_proposes s h)))
  unfolding check_incomplete_proposes
  incomplete_step h = Steps-run _ (λ s. Still-refl (core s))

  received_step : (h : Hash) → Steps R (run (λ s. remove_unknown_transaction s h))
  unfolding remove_unknown_transaction
  received_step h = Steps-run _ λ s. elim (Option-cases s.incomplete_block) [
    | inl e ↦ rw e (Still-refl (core s))
    | inr (b, e) ↦ rw e (elim (Bool-cases (Eq.contains s.invalid_txs h)) [
      | inl k ↦ rw k tt
      | inr k ↦ rw k (Still-refl (core s))
    ])
  ]

  relay-Steps : (tx : c.Tx) (r : TxOutcome c.ExecutionError) → Steps R (relay tx r)
  unfolding relay
  relay-Steps tx TxOutcome.accepted = search (sending_kept)
  relay-Steps tx TxOutcome.already_processed = search (step_rules)
  relay-Steps tx (TxOutcome.invalid e) = search (step_rules)

module _ {c : Chain} {R : Regime c} (again : ConsensusMessage → M c (Unit {0}))
    (commits : (hash : Hash) (precommits : List (Verified Precommit))
      → Steps R (commit again hash precommits)) where
  full_each-Steps : (ps : List (Hash × ℕ)) (bumped : Bool) → Steps R (full_each again ps bumped)
  unfolding full_each
  full_each-Steps [] bumped = search (step_rules)
  full_each-Steps ((hash, round) ∷ ps) bumped =
      Steps-bind (remove_request (RequestData.propose_transactions hash)) _ (remove_request-Steps _)
        (λ _. Steps-if bumped _ _ (full_each-Steps ps true) (
          Steps-bind (handle_full_propose again hash round) _
            (handle_full_propose-Steps again commits hash round)
            (λ a. full_each-Steps ps (is_new_epoch a))))

  complete_block-Steps : (a : RoundAction) → Steps R (complete_block again a)
  unfolding complete_block
  complete_block-Steps no_action = search (step_rules)
  complete_block-Steps new_epoch = search (step_rules, sending_kept, handle_full_block-Steps)

  process_tx-Steps : (tx : c.Tx) → Steps R (process_tx again tx)
  unfolding process_tx
  process_tx-Steps tx =
      search
        (
          step_rules, check_and_store-Steps, expedite-Steps, incomplete_step, full_each-Steps,
          received_step, complete_block-Steps,
        )
        depth 20

  pub handle_tx-Steps : (tx : c.Tx) → Steps R (handle_tx again tx)
  unfolding handle_tx
  handle_tx-Steps tx = search (step_rules, process_tx-Steps) depth 20

  pub handle_incoming_tx-Steps : (tx : c.Tx) → Steps R (handle_incoming_tx again tx)
  unfolding handle_incoming_tx
  handle_incoming_tx-Steps tx = search (step_rules, handle_tx-Steps, relay-Steps)
