-- ===== src/Node/State/Voting/Incompatible.antt =====
-- exonum-node/src/state.rs: `have_incompatible_prevotes`, the test before a precommit.
use exonum.Prelude.{
  ℕ, zero, suc, ◌+◌, ◌-◌, ◌≤◌, ◌<◌, ◌≡◌, refl, subst, Bool, true, false, Option, none, some, List,
  [], ◌∷◌, arith, All, Bool-cases, inl, inr, if◌then◌else◌,
}
use exonum.Prelude.Eq.{◌==◌, nat_eq, option_eq, option_beq_iff}
use exonum.Prelude.HashMap
use exonum.Prelude.Panic.{>>=-eq-some}
use exonum.Helpers.Round
use exonum.Node.Messages.{Hash, Verified, Prevote}
use exonum.Node.Chain.{Chain}
use exonum.Node.State.{State, ValidatorState}
use exonum.Node.State.Voting.{
  incompatible, check_round, any_incompatible, have_incompatible_prevotes,
}

-- a round in a range is met
All-range : (P : ℕ → Type 0) (a n r : ℕ) → All P (Round.count_from a n) → a ≤ r → r < a + n → P r
unfolding Round.count_from
All-range P a zero r h le lt = absurd (omega arith)
All-range P a (suc n) r h le lt = elim (Bool-cases (a == r)) [
  | inl e ↦ subst P (ground arith) h.0
  | inr e ↦ All-range P (a + 1) n r h.1 (ground arith) (omega arith)
]

found :
    (b : Bool) (rest : Option Bool)
    → (if b then some true else rest) ≡ some false
    → (b ≡ false) × (rest ≡ some false)
found true rest h = ground arith
found false rest h = (refl, h)

compatible :
    (locked : Option Hash) (o : Option (Verified Prevote)) (m : Verified Prevote)
    → incompatible locked o ≡ false
    → o ≡ some m
    → locked ≡ some m.payload.propose_hash
compatible locked none m h e = ground arith
compatible locked (some k) m h e =
    ground (arith, option_beq_iff (some k.payload.propose_hash) locked)

module _ {c : Chain} where
  none_incompatible :
      (s : State c) (v : ValidatorState) (rounds : List ℕ)
      → s.validator_state ≡ some v
      → any_incompatible s rounds ≡ some false
      → All (λ r. incompatible s.locked_propose (HashMap.get v.our_prevotes r) ≡ false) rounds
  unfolding any_incompatible
  none_incompatible s v [] e h = tt
  none_incompatible s v (r ∷ rounds) e h =
      let (now, later) =
        found (incompatible s.locked_propose (HashMap.get v.our_prevotes r))
          (any_incompatible s rounds)
          (subst (λ o. check_round s.locked_propose o r (any_incompatible s rounds) ≡ some false) e
            h) in
      (now, none_incompatible s v rounds e later)

  -- In a build with overflow checks: a validator that finds no incompatible prevotes, which is its test
  -- before a precommit, has prevoted after the locked round and up to its round for the locked propose only.
  pub have_incompatible_prevotes_lem :
      (s : State c) (v : ValidatorState) (r : ℕ) (m : Verified Prevote)
      → c.debug ≡ true
      → s.validator_state ≡ some v
      → have_incompatible_prevotes s ≡ some false
      → s.locked_round < r
      → r ≤ s.round
      → HashMap.get v.our_prevotes r ≡ some m
      → s.locked_propose ≡ some m.payload.propose_hash
  unfolding have_incompatible_prevotes Round.iter_to
  have_incompatible_prevotes_lem s v r m d e h past upto own =
      let (from, p, h') = >>=-eq-some (Round.next c.debug s.locked_round) _ h in
      let (to, q, h'') = >>=-eq-some (Round.next c.debug s.round) _ h' in
      let start =
        Round.next_exact s.locked_round
          (subst (λ b. Round.next b s.locked_round ≡ some from) d p) in
      let end' = Round.next_exact s.round (subst (λ b. Round.next b s.round ≡ some to) d q) in
      compatible s.locked_propose (HashMap.get v.our_prevotes r) m
        (All-range (λ r. incompatible s.locked_propose (HashMap.get v.our_prevotes r) ≡ false) from
          (to - from) r (none_incompatible s v (Round.iter_to from to) e h'') (omega arith)
          (omega arith))
        own
