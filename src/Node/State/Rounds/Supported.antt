-- ===== src/Node/State/Rounds/Supported.antt =====
-- exonum-node/src/state.rs: a jump to a higher round needs more validators in it than can be
-- Byzantine.
use exonum.Prelude.{
  ℕ, ◌+◌, ◌-◌, ◌/◌, ◌≤◌, ◌<◌, ◌≡◌, Bool, true, false, Option, none, some, List, arith, length,
  get_elem?, leb, Bool-cases, inl, inr, if◌then◌else◌,
}
use exonum.Prelude.BTreeMap.{BTreeMap}
use exonum.Prelude.BTreeMap
use exonum.Prelude.Panic.{Returns, Returns-bind, >>=-eq-some}
use exonum.Helpers.Word.{checked_sub}
use exonum.Node.Chain.{Chain}
use exonum.Node.State.{State}
use exonum.Helpers.Descending.{
  count_ge, count_ge-get, count_ge-sort_desc, sort_desc, sort_desc-Descending,
}
use exonum.Node.State.Rounds.{
  values, known_round, higher_round, actual_round, update_validator_round,
}

-- the subtraction is not below the exact one, in both builds
checked_sub-ge : (debug : Bool) (a : ℕ) {m : ℕ} → checked_sub debug 64 a 1 ≡ some m → a - 1 ≤ m
unfolding checked_sub
checked_sub-ge debug a h = ground arith

higher_round-past :
    (round : ℕ) (o : Option ℕ) {r : ℕ}
    → higher_round round o ≡ some (some r)
    → (round < r) × (o ≡ some r)
unfolding higher_round
higher_round-past round none h = ground arith
higher_round-past round (some x) h = ground arith

not_none :
    {r : ℕ} {o : Option (Option ℕ)} (b : Bool)
    → (if b then some none else o) ≡ some (some r)
    → o ≡ some (some r)
not_none true h = ground arith
not_none false h = h

-- of `n` validators, more than can be Byzantine are known to be in the round `r` or past it, and the
-- node, in the round `round`, is not
pub record Supported (n round : ℕ) (rounds : List ℕ) (r : ℕ) : Type 0 where
  pub past : round < r
  pub supported : (n + 2) / 3 - 1 < count_ge r rounds

module _ {c : Chain} where
  -- a round to jump to, if there is one
  abbrev pub Jump : State c → Option ℕ → State c → Type 0
  Jump s none s' = Unit
  Jump s (some r) s' =
      Supported (length s.config.validator_keys) s.round (values s'.validators_rounds) r

  actual_round-Jump : (s : State c) (o : Option ℕ) → actual_round s ≡ some o → Jump s o s
  unfolding actual_round
  actual_round-Jump s none h = tt
  actual_round-Jump s (some r) h =
      let (max, e, k) =
        >>=-eq-some (checked_sub c.debug 64 ((length s.config.validator_keys + 2) / 3) 1) _ h in
      let rounds = values s.validators_rounds in
      let (past, at) =
        higher_round-past s.round (get_elem? (sort_desc rounds) max)
          (not_none (leb (length s.validators_rounds) max) k) in
      record {
        past = past;
        supported = omega (
          arith,
          checked_sub-ge c.debug ((length s.config.validator_keys + 2) / 3) e,
          count_ge-get (sort_desc rounds) max (sort_desc-Descending rounds) at,
          count_ge-sort_desc r rounds,
        );
      }

  actual_round-raised :
      (s : State c) (m : BTreeMap ℕ) (o : Option ℕ)
      → actual_round (record s { validators_rounds = m }) ≡ some o
      → Jump s o (record s { validators_rounds = m })
  actual_round-raised s m none h = tt
  actual_round-raised s m (some r) h =
      actual_round-Jump (record s { validators_rounds = m }) (some r) h

  -- `update_validator_round` returns a round to jump to only if the node is in an earlier one and more
  -- validators than can be Byzantine, (n + 2) / 3 - 1 of n, are known to be in it or past it.
  pub update_validator_round-Jump :
      (s : State c) (id round : ℕ)
      → Returns (λ (x : Option ℕ × State c). Jump s x.0 x.1) (update_validator_round s id round)
  unfolding update_validator_round
  update_validator_round-Jump s id round =
      elim (Bool-cases (leb round (known_round s.validators_rounds id))) [
        | inl e ↦ rw e tt
        | inr e ↦ rw e (
            Returns-bind (λ (x : Option ℕ × State c). Jump s x.0 x.1)
              (actual_round
                (record s { validators_rounds = BTreeMap.insert s.validators_rounds id round }))
              _ (actual_round-raised s (BTreeMap.insert s.validators_rounds id round)))
      ]
