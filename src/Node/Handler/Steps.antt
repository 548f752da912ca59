-- ===== src/Node/Handler/Steps.antt =====
-- What holds of a handler wherever it starts: a relation between the states before and after where it
-- ends, and a predicate of the state before where the fuel is spent. There is one rule for each way to
-- build a handler.
use exonum.Prelude.{ℕ, Bool, true, false, Option, none, some, List, [], ◌∷◌, if◌then◌else◌}
use exonum.Prelude.Panic.{Returns, Returns-intro, Returns-apply}
use exonum.Node.Messages.{ConsensusMessage}
use exonum.Node.Chain.{Chain}
use exonum.Node.State.{State}
use exonum.Node.State.Progress.{Still}
use exonum.Node.Handler.{
  Node, Outcome, Effect, M, continue, stepped, unit_result, pure, panic, lift, gets, modify, update,
  run, ◌>>=◌, ledger, set_ledger, emit, current_time, save_messages, save_message, clear_messages,
  is_enabled, get_expedited, set_expedited, with_manager, for_each, sign_message,
}

module _ {c : Chain} {A : Type 0} where
  -- `R` of the states before and after; where the fuel is spent, `Spent` of the state before
  abbrev pub Ends :
      (State c → State c → Type 0) → (State c → Type 0) → State c → Outcome (Node c) A → Type 0
  Ends R Spent s (Outcome.done a n) = R s n.state
  Ends R Spent s Outcome.panicked = Unit
  Ends R Spent s Outcome.out_of_fuel = Spent s

  -- wherever `m` starts, and ends
  pub record Moves (R : State c → State c → Type 0) (Spent : State c → Type 0) (m : M c A)
      : Type 0 where
    pub at : (n : Node c) → Ends R Spent n.state (m n)

-- what is to be shown of the handlers: a relation that composes, that holds where the consensus does not
-- move, and what the states are like in which the fuel may be spent
pub record Regime (c : Chain) : Type 1 where
  pub Step : State c → State c → Type 0
  pub Spent : State c → Type 0
  pub reflexive : (s : State c) → Step s s
  pub transitive : (s t u : State c) → Step s t → Step t u → Step s u
  pub spent_before : (s t : State c) → Step s t → Spent t → Spent s
  pub still : (s t : State c) → Still s t → Step s t

pub record Steps {c : Chain} (R : Regime c) {A : Type 0} (m : M c A) : Type 0 where
  pub at : (n : Node c) → Ends R.Step R.Spent n.state (m n)

module _ {c : Chain} (R : Regime c) {A : Type 0} (m : M c A) where
  pub Steps-Moves : Steps R m → Moves R.Step R.Spent m
  Steps-Moves h = record { at = h.at }

  pub Moves-Steps : Moves R.Step R.Spent m → Steps R m
  Moves-Steps h = record { at = h.at }

module _ {c : Chain} (R : Regime c) where
  pub Ends-trans :
      {A : Type 0} (s t : State c) (o : Outcome (Node c) A)
      → R.Step s t
      → Ends R.Step R.Spent t o
      → Ends R.Step R.Spent s o
  Ends-trans s t (Outcome.done a n) h k = R.transitive s t n.state h k
  Ends-trans s t Outcome.panicked h k = tt
  Ends-trans s t Outcome.out_of_fuel h k = R.spent_before s t h k

module _ {c : Chain} {R : Regime c} where
  pub Steps-pure : {A : Type 0} (a : A) → Steps R (pure a)
  unfolding pure
  Steps-pure a = record { at = λ n. R.reflexive n.state }

  pub Steps-gets : {A : Type 0} (f : State c → A) → Steps R (gets f)
  unfolding gets
  Steps-gets f = record { at = λ n. R.reflexive n.state }

  pub Steps-lift : {A : Type 0} (o : Option A) → Steps R (lift o)
  unfolding lift
  Steps-lift none = record { at = λ n. tt }
  Steps-lift (some a) = record { at = λ n. R.reflexive n.state }

  pub Steps-ledger : Steps R ledger
  unfolding ledger
  Steps-ledger = record { at = λ n. R.reflexive n.state }

  pub Steps-set_ledger : (l : c.Ledger) → Steps R (set_ledger l)
  unfolding set_ledger
  Steps-set_ledger l = record { at = λ n. R.reflexive n.state }

  pub Steps-emit : (e : Effect c) → Steps R (emit e)
  unfolding emit
  Steps-emit e = record { at = λ n. R.reflexive n.state }

  pub Steps-current_time : Steps R current_time
  unfolding current_time
  Steps-current_time = record { at = λ n. R.reflexive n.state }

  pub Steps-save_messages : (r : ℕ) (ms : List ConsensusMessage) → Steps R (save_messages r ms)
  unfolding save_messages
  Steps-save_messages r ms = record { at = λ n. R.reflexive n.state }

  pub Steps-save_message : (r : ℕ) (m : ConsensusMessage) → Steps R (save_message r m)
  unfolding save_message
  Steps-save_message r m = record { at = λ n. R.reflexive n.state }

  pub Steps-clear_messages : Steps R clear_messages
  unfolding clear_messages
  Steps-clear_messages = record { at = λ n. R.reflexive n.state }

  pub Steps-is_enabled : Steps R is_enabled
  unfolding is_enabled
  Steps-is_enabled = record { at = λ n. R.reflexive n.state }

  pub Steps-get_expedited : Steps R get_expedited
  unfolding get_expedited
  Steps-get_expedited = record { at = λ n. R.reflexive n.state }

  pub Steps-set_expedited : (b : Bool) → Steps R (set_expedited b)
  unfolding set_expedited
  Steps-set_expedited b = record { at = λ n. R.reflexive n.state }

  pub Steps-with_manager :
      {A : Type 0} (f : c.PoolManager → Node c → A × c.PoolManager) → Steps R (with_manager f)
  unfolding with_manager
  Steps-with_manager f = record { at = λ n. R.reflexive n.state }

  pub Steps-sign_message : {T : Type 0} (payload : T) → Steps R (sign_message payload)
  unfolding sign_message
  Steps-sign_message payload = record { at = λ n. R.reflexive n.state }

  Ends-bind :
      {A B : Type 0} (s : State c) (o : Outcome (Node c) A) (f : A → M c B)
      → Ends R.Step R.Spent s o
      → ((a : A) → Steps R (f a))
      → Ends R.Step R.Spent s (continue o f)
  Ends-bind s (Outcome.done a n) f h k = Ends-trans R s n.state (f a n) h ((k a).at n)
  Ends-bind s Outcome.panicked f h k = tt
  Ends-bind s Outcome.out_of_fuel f h k = h

  pub Steps-bind :
      {A B : Type 0} (m : M c A) (f : A → M c B)
      → Steps R m
      → ((a : A) → Steps R (f a))
      → Steps R (m >>= f)
  unfolding ◌>>=◌
  Steps-bind m f h k = record { at = λ n. Ends-bind n.state (m n) f (h.at n) k }

  pub Steps-for_each :
      {A : Type 0} (xs : List A) (body : A → M c (Unit {0}))
      → ((a : A) → Steps R (body a))
      → Steps R (for_each xs body)
  unfolding for_each
  Steps-for_each [] body h = Steps-pure tt
  Steps-for_each (x ∷ xs) body h =
      Steps-bind (body x) (λ _. for_each xs body) (h x) (λ _. Steps-for_each xs body h)

module _ {c : Chain} {A : Type 0} (R S : State c → State c → Type 0) (P Q : State c → Type 0) where
  pub Ends-weaken :
      (s : State c) (o : Outcome (Node c) A)
      → ((t : State c) → R s t → S s t)
      → (P s → Q s)
      → Ends R P s o
      → Ends S Q s o
  Ends-weaken s (Outcome.done a n) h q k = h n.state k
  Ends-weaken s Outcome.panicked h q k = tt
  Ends-weaken s Outcome.out_of_fuel h q k = q k

  pub Moves-weaken :
      (m : M c A)
      → ((s t : State c) → R s t → S s t)
      → ((s : State c) → P s → Q s)
      → Moves R P m
      → Moves S Q m
  Moves-weaken m h q k = record {
    at = λ n. Ends-weaken n.state (m n) (h n.state) (q n.state) (k.at n);
  }

module _ {c : Chain} {B : Type 0} (R S T : State c → State c → Type 0)
    (P Q : State c → Type 0) where
  Ends-after :
      (s t : State c) (o : Outcome (Node c) B)
      → ((u : State c) → R s t → S t u → T s u)
      → (R s t → P t → Q s)
      → R s t
      → Ends S P t o
      → Ends T Q s o
  Ends-after s t (Outcome.done b n) q p h k = q n.state h k
  Ends-after s t Outcome.panicked q p h k = tt
  Ends-after s t Outcome.out_of_fuel q p h k = p h k

module _ {c : Chain} {A B : Type 0} (R S T : State c → State c → Type 0)
    (P Q : State c → Type 0) where
  Ends-compose :
      (s : State c) (o : Outcome (Node c) A) (f : A → M c B)
      → ((t u : State c) → R s t → S t u → T s u)
      → ((t : State c) → R s t → P t → Q s)
      → Ends R Q s o
      → ((a : A) → Moves S P (f a))
      → Ends T Q s (continue o f)
  Ends-compose s (Outcome.done a n) f q p h k =
      Ends-after R S T P Q s n.state (f a n) (q n.state) (p n.state) h ((k a).at n)
  Ends-compose s Outcome.panicked f q p h k = tt
  Ends-compose s Outcome.out_of_fuel f q p h k = h

  -- one relation after another
  pub Moves-compose :
      (m : M c A) (f : A → M c B)
      → ((s t u : State c) → R s t → S t u → T s u)
      → ((s t : State c) → R s t → P t → Q s)
      → Moves R Q m
      → ((a : A) → Moves S P (f a))
      → Moves T Q (m >>= f)
  unfolding ◌>>=◌
  Moves-compose m f q p h k = record {
    at = λ n. Ends-compose n.state (m n) f (q n.state) (p n.state) (h.at n) k;
  }

module _ {c : Chain} (R : State c → State c → Type 0) (Spent : State c → Type 0) where
  Ends-stepped :
      {A : Type 0} (n : Node c) (o : Option (A × State c))
      → Returns (λ (r : A × State c). R n.state r.1) o
      → Ends R Spent n.state (stepped o n)
  unfolding stepped
  Ends-stepped n none h = tt
  Ends-stepped n (some (a, s)) h = h

  Ends-updated :
      (n : Node c) (o : Option (State c))
      → Returns (λ s. R n.state s) o
      → Ends R Spent n.state (stepped (unit_result o) n)
  unfolding stepped
  Ends-updated n none h = tt
  Ends-updated n (some s) h = h

  pub Ends-update :
      (n : Node c) (f : State c → Option (State c))
      → Returns (R n.state) (f n.state)
      → Ends R Spent n.state (update f n)
  unfolding update run
  Ends-update n f h = Ends-updated n (f n.state) h

module _ {c : Chain} {R : State c → State c → Type 0} {Spent : State c → Type 0} where
  pub Moves-modify :
      (f : State c → State c) → ((s : State c) → R s (f s)) → Moves R Spent (modify f)
  unfolding modify
  Moves-modify f h = record { at = λ n. h n.state }

  pub Moves-run :
      {A : Type 0} (f : State c → Option (A × State c))
      → ((s : State c) → Returns (λ (r : A × State c). R s r.1) (f s))
      → Moves R Spent (run f)
  unfolding run
  Moves-run f h = record { at = λ n. Ends-stepped R Spent n (f n.state) (h n.state) }

  pub Moves-update :
      (f : State c → Option (State c))
      → ((s : State c) → Returns (λ s'. R s s') (f s))
      → Moves R Spent (update f)
  unfolding update run
  Moves-update f h = record { at = λ n. Ends-updated R Spent n (f n.state) (h n.state) }

module _ {c : Chain} {R : Regime c} where
  pub Steps-panic : {A : Type 0} → Steps R {A = A} panic
  unfolding panic
  Steps-panic = record { at = λ n. tt }

  pub Steps-if :
      {A : Type 0} (b : Bool) (m k : M c A) → Steps R m → Steps R k → Steps R (if b then m else k)
  Steps-if true m k hm hk = hm
  Steps-if false m k hm hk = hk

  pub Steps-modify : (f : State c → State c) → ((s : State c) → Still s (f s)) → Steps R (modify f)
  Steps-modify f h = Moves-Steps R _ (Moves-modify f (λ s. R.still s (f s) (h s)))

  pub Steps-run :
      {A : Type 0} (f : State c → Option (A × State c))
      → ((s : State c) → Returns (λ (r : A × State c). Still s r.1) (f s))
      → Steps R (run f)
  Steps-run {A} f h = Moves-Steps R _ (
      Moves-run f λ s.
        Returns-intro (λ (r : A × State c). R.Step s r.1) (f s)
          λ r e. R.still s r.1 (Returns-apply (λ (r : A × State c). Still s r.1) (f s) (h s) e))

  pub Steps-update :
      (f : State c → Option (State c))
      → ((s : State c) → Returns (λ s'. Still s s') (f s))
      → Steps R (update f)
  Steps-update f h = Moves-Steps R _ (
      Moves-update f λ s.
        Returns-intro (λ s'. R.Step s s') (f s)
          λ s' e. R.still s s' (Returns-apply (λ s'. Still s s') (f s) (h s) e))

pub ruleset step_rules = (
  Steps-pure, Steps-gets, Steps-lift, Steps-ledger, Steps-set_ledger, Steps-emit,
  Steps-current_time, Steps-save_messages, Steps-save_message, Steps-clear_messages,
  Steps-is_enabled, Steps-get_expedited, Steps-set_expedited, Steps-with_manager,
  Steps-sign_message, Steps-bind, Steps-for_each, Steps-panic, Steps-if,
)
