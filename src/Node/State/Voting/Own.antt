-- ===== src/Node/State/Voting/Own.antt =====
-- exonum-node/src/state.rs: `add_precommit` on the precommits that the node itself has sent.
use exonum.Prelude.{◌≡◌, ◌≢◌, refl, Option, none, some, ◌⊎◌, inl, inr, arith, Bool-cases}
use exonum.Prelude.Eq.{◌==◌, nat_eq}
use exonum.Prelude.HashMap.{HashMap}
use exonum.Prelude.HashMap
use exonum.Node.Messages.{Verified, Precommit}
use exonum.Node.State.{ValidatorState}
use exonum.Node.State.Voting.{record_precommit}

-- the message is one of the node's own, and an earlier one of the same round is for another propose
abbrev pub ContradictsOwn : Option ValidatorState → Verified Precommit → Type 0
ContradictsOwn none msg = ⊥
ContradictsOwn (some v) msg =
    (v.id ≡ msg.payload.validator)
    × (other : Verified Precommit) × (HashMap.get v.our_precommits msg.payload.round ≡ some other)
    × (other.payload.propose_hash ≢ msg.payload.propose_hash)

-- the node is the same validator, if one, and a message of its own is the one of its round
abbrev pub Recorded : Option ValidatorState → Verified Precommit → Option ValidatorState → Type 0
Recorded none msg none = Unit
Recorded none msg (some v') = ⊥
Recorded (some v) msg none = ⊥
Recorded (some v) msg (some v') =
    (v'.id ≡ v.id)
    × (v.id ≡ msg.payload.validator → HashMap.get v'.our_precommits msg.payload.round ≡ some msg)

abbrev Outcome : Option ValidatorState → Verified Precommit → Type 0
Outcome own msg =
    (ContradictsOwn own msg × (record_precommit own msg ≡ none))
    ⊎ (¬ ContradictsOwn own msg
        × (own' : Option ValidatorState) × (record_precommit own msg ≡ some own')
        × Recorded own msg own')

-- a message of the node's own that does not contradict an earlier one
outcome_recorded :
    (v : ValidatorState) (msg : Verified Precommit)
    → ¬ ContradictsOwn (some v) msg
    → record_precommit (some v) msg
      ≡ some (
          some
            (record v { our_precommits = HashMap.insert v.our_precommits msg.payload.round msg }))
    → Outcome (some v) msg
outcome_recorded v msg agrees e = inr (
  agrees,
  some (record v { our_precommits = HashMap.insert v.our_precommits msg.payload.round msg }),
  e,
  (refl, λ _. HashMap.get-insert_same v.our_precommits msg.payload.round msg),
)

-- a message of the node's own, by the earlier one of the round, if any
outcome_own :
    (v : ValidatorState) (msg : Verified Precommit) (old : Option (Verified Precommit))
    → v.id ≡ msg.payload.validator
    → HashMap.get v.our_precommits msg.payload.round ≡ old
    → Outcome (some v) msg
unfolding record_precommit
outcome_own v msg none mine e =
    outcome_recorded v msg (λ (_, other, f, _). absurd (ground (arith, e, f))) (ground (arith, e))
outcome_own v msg (some other) mine e =
    elim (Bool-cases (other.payload.propose_hash == msg.payload.propose_hash)) [
      | inl same ↦
          outcome_recorded v msg (λ (_, o, f, differs). absurd (ground (arith, e, f)))
            (ground (arith, e))
      | inr differs ↦ inl ((mine, other, e, ground arith), ground (arith, e))
    ]

-- The part of `add_precommit` on the node's own precommits panics exactly if the message contradicts
-- one of them.
pub record_precommit_cases :
    (own : Option ValidatorState) (msg : Verified Precommit) → Outcome own msg
unfolding record_precommit
record_precommit_cases none msg = inr (λ c. c, none, refl, tt)
record_precommit_cases (some v) msg = elim (Bool-cases (v.id == msg.payload.validator)) [
  | inl mine ↦
      outcome_own v msg (HashMap.get v.our_precommits msg.payload.round) (ground arith) refl
  | inr other ↦
      inr (
        λ (mine, _, _, _). ground arith,
        some v,
        ground arith,
        (refl, λ mine. absurd (ground arith)),
      )
]
