-- ===== src/Node/Handler/Guarded.antt =====
-- A handler after a test: what holds of it where the test holds, as long as what the test reads does
-- not go back.
use exonum.Prelude.{◌≡◌, Bool, true, if◌then◌else◌, Bool-cases, inl, inr}
use exonum.Node.Chain.{Chain}
use exonum.Node.State.{State}
use exonum.Node.State.Progress.{Core, core, Still, StillCore, Still-refl, Still-trans}
use exonum.Node.Handler.{Node, Outcome, M, continue, gets, ◌>>=◌}
use exonum.Node.Handler.Steps.{Regime, Ends, Steps, Ends-trans}

-- the regime of code in which the consensus does not move, and that spends no fuel
abbrev pub unmoved : (c : Chain) → Regime c
unmoved c = record {
  Step = Still;
  Spent = λ s. ⊥;
  reflexive = λ s. Still-refl (core s);
  transitive = λ s t u. Still-trans (core s) (core t) (core u);
  spent_before = λ s t h k. k;
  still = λ s t h. h;
}

module _ {c : Chain} (R : Regime c) (P : Core → Type 0) where
  -- what holds of `m` where it starts in a state of `P`
  pub record StepsIf {A : Type 0} (m : M c A) : Type 0 where
    pub at : (n : Node c) → P (core n.state) → Ends R.Step R.Spent n.state (m n)

  module _ {A B : Type 0} where
    Ends-Still :
        (s : State c) (o : Outcome (Node c) A) (f : A → M c B)
        → ((t : State c) → Still s t → P (core t))
        → Ends Still (λ s. ⊥) s o
        → ((a : A) → StepsIf (f a))
        → Ends R.Step R.Spent s (continue o f)
    Ends-Still s (Outcome.done a n) f p h k =
        Ends-trans R s n.state (f a n) (R.still s n.state h) ((k a).at n (p n.state h))
    Ends-Still s Outcome.panicked f p h k = tt
    Ends-Still s Outcome.out_of_fuel f p h k = absurd h

    pub StepsIf-Still :
        ((a b : Core) → StillCore a b → P a → P b)
        → (m : M c A) (f : A → M c B) → Steps (unmoved c) m
        → ((a : A) → StepsIf (f a))
        → StepsIf (m >>= f)
    unfolding ◌>>=◌
    StepsIf-Still stable m f h k = record {
      at = λ n p. Ends-Still n.state (m n) f (λ t e. stable (core n.state) (core t) e p) (h.at n) k;
    }

    Ends-then :
        (s : State c) (o : Outcome (Node c) A) (f : A → M c B)
        → Ends R.Step R.Spent s o
        → ((a : A) → Steps R (f a))
        → Ends R.Step R.Spent s (continue o f)
    Ends-then s (Outcome.done a n) f h k = Ends-trans R s n.state (f a n) h ((k a).at n)
    Ends-then s Outcome.panicked f h k = tt
    Ends-then s Outcome.out_of_fuel f h k = h

    pub StepsIf-then :
        (m : M c A) (f : A → M c B) → StepsIf m → ((a : A) → Steps R (f a)) → StepsIf (m >>= f)
    unfolding ◌>>=◌
    StepsIf-then m f h k = record { at = λ n p. Ends-then n.state (m n) f (h.at n p) k }

  -- the test and the code after it
  pub Steps-tested :
      {A : Type 0} (f : State c → Bool) (m k : M c A)
      → ((s : State c) → f s ≡ true → P (core s))
      → StepsIf m
      → Steps R k
      → Steps R (gets f >>= λ b. if b then m else k)
  unfolding ◌>>=◌ gets
  Steps-tested f m k p hm hk = record {
    at = λ n. elim (Bool-cases (f n.state)) [
      | inl e ↦ rw e (hm.at n (p n.state e))
      | inr e ↦ rw e (hk.at n)
    ];
  }
