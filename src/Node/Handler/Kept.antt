-- ===== src/Node/Handler/Kept.antt =====
-- The regimes of the handlers: keeping what the consensus rests on, and two that serve for a commit,
-- which spends no fuel until it handles the queued messages.
use exonum.Prelude.{◌≤◌, ◌<◌, ◌≡◌, ◌∙◌, refl, inr, arith}
use exonum.Node.Chain.{Chain}
use exonum.Node.State.{State}
use exonum.Node.State.Progress.{Kept, Still, Locked, core, Progress-refl, Progress-trans}
use exonum.Node.Handler.{M, ◌>>=◌}
use exonum.Node.Handler.Steps.{Regime, Steps, Moves, Steps-Moves, Moves-compose}

module _ {c : Chain} where
  -- the same epoch or a later one
  abbrev pub UpTo : State c → State c → Type 0
  UpTo s t = (s.epoch ≤ t.epoch) × (t.queued ≡ s.queued)

  -- so, with a lock that stays supported
  abbrev pub Firm : State c → State c → Type 0
  Firm s t = (s.epoch ≤ t.epoch) × (t.queued ≡ s.queued) × (Locked (core s) → Locked (core t))

  -- a later epoch, with a lock that is supported
  abbrev pub Later : State c → State c → Type 0
  Later s t = (s.epoch < t.epoch) × (t.queued ≡ s.queued) × Locked (core t)

  abbrev pub Never : State c → Type 0
  Never s = ⊥

  pub Still-UpTo : (s t : State c) → Still s t → UpTo s t
  Still-UpTo s t h = (omega (arith, h.0.epoch), h.2)

  pub Still-Firm : (s t : State c) → Still s t → Firm s t
  Still-Firm s t h = (omega (arith, h.0.epoch), h.2, h.1)

abbrev pub kept : (c : Chain) → Regime c
kept c = record {
  Step = Kept;
  Spent = λ s. Unit;
  reflexive = λ s. Progress-refl (core s);
  transitive = λ s t u. Progress-trans (core s) (core t) (core u);
  spent_before = λ s t h k. tt;
  still = λ s t h. (inr h.0, h.1);
}

abbrev pub up_to : (c : Chain) → Regime c
up_to c = record {
  Step = UpTo;
  Spent = Never;
  reflexive = λ s. (omega arith, refl);
  transitive = λ s t u h k. (omega (arith, h.0, k.0), k.1 ∙ h.1);
  spent_before = λ s t h k. k;
  still = Still-UpTo;
}

abbrev pub firm : (c : Chain) → Regime c
firm c = record {
  Step = Firm;
  Spent = Never;
  reflexive = λ s. (omega arith, refl, λ l. l);
  transitive = λ s t u h k. (omega (arith, h.0, k.0), k.1 ∙ h.1, λ l. k.2 (h.2 l));
  spent_before = λ s t h k. k;
  still = Still-Firm;
}

module _ {c : Chain} where
  -- a later epoch, in the first part or in the rest
  pub Later-rest :
      {A B : Type 0} (m : M c A) (f : A → M c B)
      → Steps (up_to c) m
      → ((a : A) → Moves Later Never (f a))
      → Moves Later Never (m >>= f)
  Later-rest m f h k =
      Moves-compose UpTo Later Later Never Never m f
        (λ s t u p q. (omega (arith, p.0, q.0), q.1 ∙ p.1, q.2)) (λ s t p q. q)
        (Steps-Moves (up_to c) m h) k

  pub Later-first :
      {A B : Type 0} (m : M c A) (f : A → M c B)
      → Moves Later Never m
      → ((a : A) → Steps (firm c) (f a))
      → Moves Later Never (m >>= f)
  Later-first m f h k =
      Moves-compose Later Firm Later Never Never m f
        (λ s t u p q. (omega (arith, p.0, q.0), q.1 ∙ p.1, q.2 p.2)) (λ s t p q. q) h
        (λ a. Steps-Moves (firm c) (f a) (k a))
