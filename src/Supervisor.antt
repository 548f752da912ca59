-- ===== src/Supervisor.antt =====
-- services/supervisor/src: votes on requests to the supervisor service, and the modes that approve
-- requests by their votes. A set of keys is a list without repetition.
pub mod Confirming
pub mod Tests
use exonum.Prelude.{
  ℕ, Bool, true, false, Option, none, some, List, [], ◌∷◌, length, leb, if◌then◌else◌,
}
use exonum.Prelude.Eq.{Eq, ◌==◌, nat_eq, contains, insert}
use exonum.Prelude.HashMap.{HashMap}
use exonum.Prelude.HashMap
use exonum.Helpers.Quorum.{byzantine_quorum}
use exonum.Node.Messages.{PublicKey}

-- `Option::unwrap_or_default` of a set
unfoldable pub or_empty : Option (List PublicKey) → List PublicKey
or_empty none = []
or_empty (some set) = set

-- the keys of the second set that are in the first
unfoldable pub intersection : List PublicKey → List PublicKey → List PublicKey
unfolding contains
intersection set [] = []
intersection set (key ∷ keys) =
    let rest = intersection set keys in if contains set key then key ∷ rest else rest

-- a set, from keys that may be repeated
unfoldable pub collect : List PublicKey → List PublicKey
unfolding insert
collect [] = []
collect (key ∷ keys) = insert (collect keys) key

-- `enum Mode`
pub data Mode : Type 0 where
  simple : Mode
  decentralized : Mode

-- `struct MultisigIndex`
abbrev pub MultisigIndex : Type 0 → Type 0
MultisigIndex V = HashMap V (List PublicKey)

module _ {V : Type 0} ⦃e : Eq V⦄ where
  -- `MultisigIndex::confirmed_by`
  unfoldable pub confirmed_by : MultisigIndex V → V → PublicKey → Bool
  unfolding or_empty contains HashMap.get
  confirmed_by index id author = contains (or_empty (HashMap.get index id)) author

  -- `MultisigIndex::confirmations`
  unfoldable pub confirmations : MultisigIndex V → V → ℕ
  unfolding or_empty HashMap.get
  confirmations index id = length (or_empty (HashMap.get index id))

  -- `MultisigIndex::confirm`
  unfoldable pub confirm : MultisigIndex V → V → PublicKey → ℕ × MultisigIndex V
  unfolding or_empty insert HashMap.get HashMap.insert
  confirm index id author =
      let set = insert (or_empty (HashMap.get index id)) author in
      (length set, HashMap.insert index id set)

  -- `MultisigIndex::intersect`
  unfoldable pub intersect : MultisigIndex V → V → List PublicKey → ℕ × MultisigIndex V
  unfolding or_empty intersection HashMap.get HashMap.insert
  intersect index id validator_keys =
      let set = intersection (or_empty (HashMap.get index id)) validator_keys in
      (length set, HashMap.insert index id set)

  -- `MultisigIndex::intersect_with_validators`
  unfoldable pub intersect_with_validators :
      MultisigIndex V → V → List PublicKey → Bool × MultisigIndex V
  unfolding collect intersect
  intersect_with_validators index id validator_keys =
      let keys = collect validator_keys in
      let (amount, index') = intersect index id keys in (amount == length keys, index')

  -- `Mode::deploy_approved`, and `config_approved` and `migration_approved`, whose code is the same
  unfoldable pub approved : Mode → V → MultisigIndex V → ℕ → Bool
  unfolding confirmations byzantine_quorum
  approved Mode.simple id index validators = leb 1 (confirmations index id)
  approved Mode.decentralized id index validators =
      leb (byzantine_quorum validators) (confirmations index id)
