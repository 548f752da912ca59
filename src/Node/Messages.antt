-- ===== src/Node/Messages.antt =====
-- exonum-node/src/messages and exonum/src/messages: the messages of the consensus algorithm.
-- A `Hash` and a `PublicKey` are 32 bytes, read as the number that they spell, so that the order
-- of keys is the order of numbers. A `Verified<T>` is its payload and author: the signature was
-- checked when the value was built, and the code reads nothing else of it.
use exonum.Prelude.{ℕ, ◌≡◌, ◌↔◌, Bool, true, ◌&&◌, List, arith}
use exonum.Prelude.Eq.{Eq, ◌==◌, nat_eq}
use Prim.Native.String.{String}

abbrev pub Hash : Type 0
Hash = ℕ

abbrev pub PublicKey : Type 0
PublicKey = ℕ

pub record Verified (T : Type 0) : Type 0 where
  pub payload : T
  pub author : PublicKey

pub record Propose : Type 0 where
  pub validator : ℕ
  pub epoch : ℕ
  pub round : ℕ
  pub prev_hash : Hash
  pub transactions : List Hash
  pub skip : Bool

pub record Prevote : Type 0 where
  pub validator : ℕ
  pub epoch : ℕ
  pub round : ℕ
  pub propose_hash : Hash
  pub locked_round : ℕ

-- `time` in milliseconds
pub record Precommit : Type 0 where
  pub validator : ℕ
  pub epoch : ℕ
  pub round : ℕ
  pub propose_hash : Hash
  pub block_hash : Hash
  pub time : ℕ

pub record Status : Type 0 where
  pub epoch : ℕ
  pub blockchain_height : ℕ
  pub last_hash : Hash
  pub pool_size : ℕ

pub record Connect : Type 0 where
  pub host : String
  pub time : ℕ
  pub user_agent : String

-- `enum Consensus`
pub data ConsensusMessage : Type 0 where
  propose : Verified Propose → ConsensusMessage
  prevote : Verified Prevote → ConsensusMessage
  precommit : Verified Precommit → ConsensusMessage

abbrev pub author : ConsensusMessage → PublicKey
author (propose m) = m.author
author (prevote m) = m.author
author (precommit m) = m.author

abbrev pub validator : ConsensusMessage → ℕ
validator (propose m) = m.payload.validator
validator (prevote m) = m.payload.validator
validator (precommit m) = m.payload.validator

abbrev pub epoch : ConsensusMessage → ℕ
epoch (propose m) = m.payload.epoch
epoch (prevote m) = m.payload.epoch
epoch (precommit m) = m.payload.epoch

abbrev pub round : ConsensusMessage → ℕ
round (propose m) = m.payload.round
round (prevote m) = m.payload.round
round (precommit m) = m.payload.round

-- the derived `PartialEq` of a signed prevote
abbrev prevote_beq : Verified Prevote → Verified Prevote → Bool
prevote_beq a b =
    (a.payload.validator == b.payload.validator)
    && (a.payload.epoch == b.payload.epoch)
    && (a.payload.round == b.payload.round)
    && (a.payload.propose_hash == b.payload.propose_hash)
    && (a.payload.locked_round == b.payload.locked_round)
    && (a.author == b.author)

pub prevote_beq_iff : (a b : Verified Prevote) → (prevote_beq a b ≡ true) ↔ (a ≡ b)
prevote_beq_iff a b = ground arith

instance abbrev pub prevote_eq : Eq (Verified Prevote)
prevote_eq = record { beq = prevote_beq; beq_iff = prevote_beq_iff }

-- `trait VoteMessage`
pub record VoteMessage (T : Type 0) : Type 0 where
  pub validator : T → ℕ

instance abbrev pub prevote_vote : VoteMessage (Verified Prevote)
prevote_vote = record { validator = λ m. m.payload.validator }

instance abbrev pub precommit_vote : VoteMessage (Verified Precommit)
precommit_vote = record { validator = λ m. m.payload.validator }

-- `struct BlockResponse`, over the chain's type of block headers
pub record BlockResponse (B : Type 0) : Type 0 where
  pub to : PublicKey
  pub block : B
  pub precommits : List (List ℕ)
  pub transactions : List Hash
