-- ===== src/Node/Handler/Finishing.antt =====
-- The regime of code that ends. A commit handles the queued messages, and each of these may lead to a
-- commit, but every commit raises the epoch, and no message is queued that is later than the next one.
use exonum.Prelude.{ℕ, ◌+◌, ◌-◌, ◌≤◌, sym, subst, All, arith}
use exonum.Node.Messages.{epoch}
use exonum.Node.Chain.{Chain}
use exonum.Node.State.{State}
use exonum.Node.State.Progress.{Still}
use exonum.Node.Handler.{Node, Outcome}
use exonum.Node.Handler.Steps.{Regime, Ends}

module _ {c : Chain} where
  -- no message is queued for an epoch later than `bound`
  abbrev pub QueuedUpTo : ℕ → State c → Type 0
  QueuedUpTo bound s = All (λ m. epoch m ≤ bound) s.queued

  -- no message is queued that is later than the next epoch
  abbrev pub QueuedNear : State c → Type 0
  QueuedNear s = QueuedUpTo (s.epoch + 1) s

  abbrev pub Rising : ℕ → State c → State c → Type 0
  Rising bound s t = QueuedUpTo bound s → (s.epoch ≤ t.epoch) × QueuedUpTo bound t

  -- fuel for a commit in each epoch that is left up to `bound`, and `k` more
  abbrev pub Enough : ℕ → ℕ → ℕ → State c → Type 0
  Enough bound k fuel s = QueuedUpTo bound s × (bound + k - s.epoch + 1 ≤ fuel)

  pub Still-Rising : (bound : ℕ) (s t : State c) → Still s t → Rising bound s t
  Still-Rising bound s t h q =
      (omega (arith, h.0.epoch), subst (All (λ m. epoch m ≤ bound)) (sym h.2) q)

-- the regime in which the fuel is spent only where there was not enough
abbrev pub finishing : (c : Chain) → ℕ → ℕ → ℕ → Regime c
finishing c bound k fuel = record {
  Step = Rising bound;
  Spent = λ s. Enough bound k fuel s → ⊥;
  reflexive = λ s q. (omega arith, q);
  transitive = λ s t u h k q. (omega (arith, (h q).0, (k (h q).1).0), (k (h q).1).1);
  spent_before = λ s t h k e. k ((h e.0).1, omega (arith, e.1, (h e.0).0));
  still = Still-Rising bound;
}

module _ {c : Chain} (bound k fuel : ℕ) where
  -- the queue before may be taken to be bounded
  pub Ends-queued :
      {A : Type 0} (s : State c) (o : Outcome (Node c) A)
      → (QueuedUpTo bound s → Ends (Rising bound) (λ s. Enough bound k fuel s → ⊥) s o)
      → Ends (Rising bound) (λ s. Enough bound k fuel s → ⊥) s o
  Ends-queued s (Outcome.done a n) h = λ q. h q q
  Ends-queued s Outcome.panicked h = tt
  Ends-queued s Outcome.out_of_fuel h = λ e. h e.0 e
