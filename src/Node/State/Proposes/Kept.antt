-- ===== src/Node/State/Proposes/Kept.antt =====
-- exonum-node/src/state.rs: a new propose keeps what the consensus rests on.
use exonum.Prelude.{true, [], inl, inr, Bool-cases}
use exonum.Prelude.Eq.{nat_eq}
use exonum.Prelude.HashMap
use exonum.Node.Messages.{Verified, Propose}
use exonum.Node.Chain.{Chain}
use exonum.Node.State.{State}
use exonum.Node.State.Progress.{Still, core, Still-refl}
use exonum.Node.State.Proposes.{AddPropose, TxScan, admit, scan_txs, add_propose}

module _ {c : Chain} where
  -- the state of a propose that is added
  abbrev pub AddStill : State c → AddPropose (State c) → Type 0
  AddStill s (AddPropose.added p s') = Still s s'
  AddStill s AddPropose.already_found = Unit
  AddStill s AddPropose.already_committed = Unit

  admit-Still :
      (s : State c) (msg : Verified Propose) (scan : TxScan) → AddStill s (admit s msg scan)
  unfolding admit
  admit-Still s msg (TxScan.scanned valid unknown) = Still-refl (core s)
  admit-Still s msg TxScan.committed = tt

  pub add_propose-Still :
      (s : State c) (l : c.Ledger) (msg : Verified Propose) → AddStill s (add_propose s l msg)
  unfolding add_propose
  add_propose-Still s l msg =
      elim (Bool-cases (HashMap.contains_key s.proposes (c.propose_hash msg))) [
        | inl e ↦ rw e tt
        | inr e ↦ rw e (admit-Still s msg (scan_txs s l msg.payload.transactions true []))
      ]
