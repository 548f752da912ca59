-- ===== src/Node/State/Rounds.antt =====
-- exonum-node/src/state.rs: `State::update_validator_round`, the rounds of the other validators.
pub mod Supported
use exonum.Prelude.{
  ℕ, ◌+◌, ◌/◌, Option, none, some, List, [], ◌∷◌, length, get_elem?, leb, ltb, if◌then◌else◌,
}
use exonum.Prelude.BTreeMap.{BTreeMap}
use exonum.Prelude.BTreeMap
use exonum.Prelude.Panic.{◌>>=◌}
use exonum.Helpers.Descending.{sort_desc}
use exonum.Helpers.Word.{checked_sub}
use exonum.Node.Chain.{Chain}
use exonum.Node.State.{State}

-- `iter().map(|(_, v)| v)`
unfoldable pub values : BTreeMap ℕ → List ℕ
values [] = []
values ((id, r) ∷ m) = r ∷ values m

-- `entry(id).or_insert_with(Round::zero)`
abbrev pub known_round : BTreeMap ℕ → ℕ → ℕ
known_round m id = elim (BTreeMap.get m id) [ none ↦ 0 | some r ↦ r ]

-- the round at place `max` of the sorted ones, if it is past the node's round
higher_round : ℕ → Option ℕ → Option (Option ℕ)
higher_round round none = none
higher_round round (some r) = some (if ltb round r then some r else none)

module _ {c : Chain} where
  -- the part after the known rounds are updated
  unfoldable pub actual_round : State c → Option (Option ℕ)
  unfolding sort_desc values higher_round checked_sub
  actual_round s = do
    max_byzantine ← checked_sub c.debug 64 ((length s.config.validator_keys + 2) / 3) 1
    if leb (length s.validators_rounds) max_byzantine
        then some none
        else higher_round s.round (get_elem? (sort_desc (values s.validators_rounds)) max_byzantine)

  -- `State::update_validator_round`
  unfoldable pub update_validator_round : State c → ℕ → ℕ → Option (Option ℕ × State c)
  unfolding actual_round
  update_validator_round s id round =
      let known = known_round s.validators_rounds id in
      if leb round known
      then some
          (none, record s { validators_rounds = BTreeMap.insert s.validators_rounds id known })
      else (let s' = record s {
        validators_rounds = BTreeMap.insert s.validators_rounds id round;
      } in
          actual_round s' >>= λ r. some (r, s'))
