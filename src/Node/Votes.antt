-- ===== src/Node/Votes.antt =====
-- exonum-node/src/state.rs: `Votes`, the votes that a node has for one round and hash.
pub mod Counting
use exonum.Prelude.{
  ℕ, ◌+◌, Bool, true, false, Option, none, some, List, [], ◌∷◌, ◌++◌, get_elem?, set, replicate,
}
use exonum.Node.Messages.{VoteMessage}

pub record Votes (T : Type 0) : Type 0 where
  pub messages : List T
  pub validators : List Bool
  pub count : ℕ

module _ {T : Type 0} where
  -- `Votes::new`
  unfoldable pub new : ℕ → Votes T
  new validators_len = record {
    messages = [];
    validators = replicate validators_len false;
    count = 0;
  }

module _ {T : Type 0} ⦃v : VoteMessage T⦄ where
  put : Votes T → T → Option Bool → Option (Votes T)
  put votes message none = none
  put votes message (some true) = some votes
  put votes message (some false) = some (record {
    messages = votes.messages ++ message ∷ [];
    validators = set votes.validators (v.validator message) true;
    count = votes.count + 1;
  })

  -- `Votes::insert`; the index into the bit vector panics for a voter out of range
  unfoldable pub insert : Votes T → T → Option (Votes T)
  unfolding put
  insert votes message = put votes message (get_elem? votes.validators (v.validator message))
