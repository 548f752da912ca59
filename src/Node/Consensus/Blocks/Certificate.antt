-- ===== src/Node/Consensus/Blocks/Certificate.antt =====
-- exonum-node/src/consensus.rs: `validate_precommits`. What it accepts are precommits of a quorum of
-- validators, so two accepted lists share an honest validator.
use exonum.Prelude.{
  ℕ, ◌-◌, ◌/◌, ◌≤◌, ◌<◌, ◌≡◌, refl, sym, ◌∙◌, zero, suc, All-map, get_elem?_lt, if◌then◌else◌, ◌⊎◌,
  inl, inr, Bool, true, false, Option, none, some, List, [], ◌∷◌, arith, length, get_elem?, set,
  replicate, All, ltb, length-set, length-replicate, Bool-cases, Option-cases,
}
use mathlib.Core.Option.{some-injective}
use exonum.Prelude.Eq.{◌==◌, nat_eq}
use exonum.Prelude.Eq
use exonum.Helpers.Bits.{
  count_ones, count_ones-le-length, count_ones-replicate, count_ones-set, get_elem?-set_other,
  get_elem?-replicate,
}
use exonum.Helpers.Quorum.{byzantine_quorum, quorums_share_honest}
use exonum.Node.Messages.{Hash, PublicKey, Verified, Precommit}
use exonum.Node.Chain.{Chain}
use exonum.Node.State.{State, consensus_public_key_of, majority_count}
use exonum.Node.Consensus.Blocks.{
  validate_precommit, validate_each, validate_precommits, from_first, signed_by,
}

module _ {c : Chain} where
  -- a precommit for the block in the epoch and round, signed by the key of its validator
  pub record Supports (s : State c) (block_hash : Hash) (epoch round : ℕ) (p : Verified Precommit)
      : Type 0 where
    pub signed : consensus_public_key_of s p.payload.validator ≡ some p.author
    pub block : p.payload.block_hash ≡ block_hash
    pub in_epoch : p.payload.epoch ≡ epoch
    pub in_round : p.payload.round ≡ round

  signed_by-Supports :
      (s : State c) (block_hash : Hash) (epoch round : ℕ) (p : Verified Precommit)
      (key : Option PublicKey)
      → consensus_public_key_of s p.payload.validator ≡ key
      → signed_by key block_hash epoch round p ≡ true
      → Supports s block_hash epoch round p
  unfolding signed_by
  signed_by-Supports s block_hash epoch round p none e h = ground arith
  signed_by-Supports s block_hash epoch round p (some key) e h = record {
    signed = ground arith;
    block = ground arith;
    in_epoch = ground arith;
    in_round = ground arith;
  }

  validate_precommit-Supports :
      (s : State c) (block_hash : Hash) (epoch round : ℕ) (p : Verified Precommit)
      → validate_precommit s block_hash epoch round p ≡ true
      → Supports s block_hash epoch round p
  unfolding validate_precommit
  validate_precommit-Supports s block_hash epoch round p h =
      signed_by-Supports s block_hash epoch round p _ refl h

-- no two precommits of one validator, and none of a validator in `met`
Fresh : List ℕ → List (Verified Precommit) → Type 0
Fresh met [] = Unit
Fresh met (p ∷ ps) =
    (Eq.contains met p.payload.validator ≡ false) × Fresh (Eq.insert met p.payload.validator) ps

both_tests :
    (b k : Bool) {rest : Bool}
    → (if b then false else (if k then rest else false)) ≡ true
    → (b ≡ false) × (k ≡ true) × (rest ≡ true)
both_tests false true h = (refl, refl, h)
both_tests false false h = ground arith
both_tests true k h = ground arith

module _ {c : Chain} where
  validate_each-Fresh :
      (s : State c) (block_hash : Hash) (epoch round : ℕ) (met : List ℕ)
      (ps : List (Verified Precommit))
      → validate_each s block_hash epoch round met ps ≡ true
      → All (Supports s block_hash epoch round) ps × Fresh met ps
  unfolding validate_each Fresh
  validate_each-Fresh s block_hash epoch round met [] h = (tt, tt)
  validate_each-Fresh s block_hash epoch round met (p ∷ ps) h =
      let (new, good, rest) = both_tests _ _ h in
      let (supports, fresh) =
        validate_each-Fresh s block_hash epoch round (Eq.insert met p.payload.validator) ps rest in
      ((validate_precommit-Supports s block_hash epoch round p good, supports), (new, fresh))

-- the validators of the precommits, out of `n`
pub signers : ℕ → List (Verified Precommit) → List Bool
signers n [] = replicate n false
signers n (p ∷ ps) = set (signers n ps) p.payload.validator true

length-signers : (n : ℕ) (ps : List (Verified Precommit)) → length (signers n ps) ≡ n
unfolding signers
length-signers n [] = length-replicate n false
length-signers n (p ∷ ps) = length-set (signers n ps) p.payload.validator true ∙ length-signers n ps

-- one of the precommits is of the validator `i`
pub SignedBy : List (Verified Precommit) → ℕ → Type 0
SignedBy [] i = ⊥
SignedBy (p ∷ ps) i = (p.payload.validator ≡ i) ⊎ SignedBy ps i

replicate_unset : (n i : ℕ) → get_elem? (replicate n false) i ≡ some true → ⊥
replicate_unset zero i h = ground arith
replicate_unset (suc n) zero h = ground arith
replicate_unset (suc n) (suc i) h = replicate_unset n i h

signers-SignedBy :
    (n : ℕ) (ps : List (Verified Precommit)) (i : ℕ)
    → get_elem? (signers n ps) i ≡ some true
    → SignedBy ps i
unfolding signers SignedBy
signers-SignedBy n [] i h = replicate_unset n i h
signers-SignedBy n (p ∷ ps) i h = elim (Bool-cases (p.payload.validator == i)) [
  | inl e ↦ inl (ground arith)
  | inr e ↦ inr (
      signers-SignedBy n ps i (
        sym (get_elem?-set_other (signers n ps) p.payload.validator i true (λ q. ground arith))
        ∙ h))
]

-- a validator that is in `met` is not among them
Fresh-unmet :
    (met : List ℕ) (ps : List (Verified Precommit))
    → Fresh met ps
    → All (λ p. Eq.contains met p.payload.validator ≡ false) ps
unfolding Fresh
Fresh-unmet met [] h = tt
Fresh-unmet met (p ∷ ps) h = (
  h.0,
  All-map (λ q. Eq.contains (Eq.insert met p.payload.validator) q.payload.validator ≡ false)
      (λ q. Eq.contains met q.payload.validator ≡ false) ps
      (λ q k. ground (arith, Eq.contains-insert met p.payload.validator q.payload.validator))
      (Fresh-unmet (Eq.insert met p.payload.validator) ps h.1),
)

signers-unset :
    (n : ℕ) (ps : List (Verified Precommit)) (i : ℕ)
    → i < n
    → All (λ p. ¬ p.payload.validator ≡ i) ps
    → get_elem? (signers n ps) i ≡ some false
unfolding signers
signers-unset n [] i lt h = get_elem?-replicate n false i lt
signers-unset n (p ∷ ps) i lt h =
    get_elem?-set_other (signers n ps) p.payload.validator i true h.0 ∙ signers-unset n ps i lt h.1

count_ones-signers :
    (n : ℕ) (met : List ℕ) (ps : List (Verified Precommit))
    → Fresh met ps
    → All (λ p. p.payload.validator < n) ps
    → count_ones (signers n ps) ≡ length ps
unfolding signers Fresh
count_ones-signers n met [] h k = count_ones-replicate n
count_ones-signers n met (p ∷ ps) h k =
    let others =
      All-map (λ q. Eq.contains (Eq.insert met p.payload.validator) q.payload.validator ≡ false)
        (λ q. ¬ q.payload.validator ≡ p.payload.validator) ps
        (λ q e same. ground (arith, Eq.contains-insert met p.payload.validator q.payload.validator))
        (Fresh-unmet (Eq.insert met p.payload.validator) ps h.1) in
    omega (
      arith,
      count_ones-set (signers n ps) p.payload.validator
          (signers-unset n ps p.payload.validator k.0 others),
      count_ones-signers n (Eq.insert met p.payload.validator) ps h.1 k.1,
    )

quorum_pos : (n : ℕ) → 0 < byzantine_quorum n
unfolding byzantine_quorum
quorum_pos n = omega arith

two_guards :
    (a b : Bool) {rest : Option Bool}
    → (if a then some false else (if b then some false else rest)) ≡ some true
    → (a ≡ false) × (b ≡ false) × (rest ≡ some true)
two_guards false false h = (refl, refl, h)
two_guards false true h = ground arith
two_guards true b h = ground arith

module _ {c : Chain} where
  -- What the precommits of a block are that `validate_precommits` accepts: one for the block in the
  -- epoch from each of a quorum of validators, all in one round and each signed with the validator's key.
  pub record Certificate (s : State c) (ps : List (Verified Precommit)) (epoch : ℕ)
      (block_hash : Hash) : Type 0 where
    pub round : ℕ
    pub supported : All (Supports s block_hash epoch round) ps
    pub quorum :
        byzantine_quorum (length s.config.validator_keys)
        ≤ count_ones (signers (length s.config.validator_keys) ps)

  in_range :
      (s : State c) (i : ℕ) {key : PublicKey}
      → consensus_public_key_of s i ≡ some key
      → i < length s.config.validator_keys
  unfolding consensus_public_key_of
  in_range s i h = elim (Option-cases (get_elem? s.config.validator_keys i)) [
    | inl e ↦ ground arith
    | inr (v, e) ↦ get_elem?_lt s.config.validator_keys i e
  ]

  from_first-Certificate :
      (s : State c) (ps : List (Verified Precommit)) (epoch : ℕ) (block_hash : Hash)
      → majority_count s ≤ length ps
      → from_first s block_hash epoch ps ≡ some true
      → Certificate s ps epoch block_hash
  unfolding from_first majority_count
  from_first-Certificate s [] epoch block_hash le h = ground arith
  from_first-Certificate s (p ∷ ps) epoch block_hash le h =
      let (supports, fresh) =
        validate_each-Fresh s block_hash epoch p.payload.round [] (p ∷ ps) (some-injective _ _ h) in
      record {
        round = p.payload.round;
        supported = supports;
        quorum = omega (
          arith,
          count_ones-signers (length s.config.validator_keys) [] (p ∷ ps) fresh (
              All-map (Supports s block_hash epoch p.payload.round)
                (λ q. q.payload.validator < length s.config.validator_keys) (p ∷ ps)
                (λ q k. in_range s q.payload.validator k.signed) supports),
        );
      }

  -- Accepted precommits are a certificate.
  pub validate_precommits-Certificate :
      (s : State c) (ps : List (Verified Precommit)) (epoch : ℕ) (block_hash : Hash)
      → validate_precommits s ps epoch block_hash ≡ some true
      → Certificate s ps epoch block_hash
  unfolding validate_precommits
  validate_precommits-Certificate s ps epoch block_hash h =
      let (enough, few, rest) = two_guards (ltb (length ps) (majority_count s)) _ h in
      from_first-Certificate s ps epoch block_hash (ground (arith, enough)) rest

  -- Two lists of precommits that are accepted, whatever their blocks, epochs and rounds: if at most a third of
  -- the validators, rounded down, is faulty, there is a validator that is not and that has signed in both.
  pub certificates_share_honest :
      (s : State c) (ps qs : List (Verified Precommit)) (epoch epoch' : ℕ)
      (block_hash block_hash' : Hash) (faulty : List Bool)
      → validate_precommits s ps epoch block_hash ≡ some true
      → validate_precommits s qs epoch' block_hash' ≡ some true
      → length faulty ≡ length s.config.validator_keys
      → count_ones faulty ≤ (length s.config.validator_keys - 1) / 3
      → (i : ℕ) × SignedBy ps i × SignedBy qs i × (get_elem? faulty i ≡ some false)
  certificates_share_honest s ps qs epoch epoch' block_hash block_hash' faulty h k size few =
      let n = length s.config.validator_keys in
      let cert = validate_precommits-Certificate s ps epoch block_hash h in
      let cert' = validate_precommits-Certificate s qs epoch' block_hash' k in
      let (i, left, right, honest) =
        quorums_share_honest (signers n ps) (signers n qs) faulty
          (length-signers n ps ∙ sym (length-signers n qs)) (length-signers n ps ∙ sym size)
          (omega (arith, quorum_pos n, cert.quorum, count_ones-le-length (signers n ps)))
          (rw (length-signers n ps) cert.quorum) (rw (length-signers n ps) cert'.quorum)
          (rw (length-signers n ps) few) in
      (i, signers-SignedBy n ps i left, signers-SignedBy n qs i right, honest)
