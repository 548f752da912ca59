-- ===== src/Node/Votes/Counting.antt =====
-- exonum-node/src/state.rs: what `Votes` counts, and what two majorities share.
use exonum.Prelude.{
  ℕ, ◌+◌, ◌≡◌, refl, sym, Bool, true, false, some, List, [], ◌∷◌, arith, if◌then◌else◌, length,
  get_elem?, set, All, length-append, length-set, length-replicate, All-append,
}
use exonum.Helpers.Bits.{
  count_ones, count_ones-replicate, count_ones-set, get_elem?-set-true, get_elem?-set_self,
}
use exonum.Node.Messages.{VoteMessage}
use exonum.Node.Votes.{Votes, new, insert, put}

module _ {T : Type 0} ⦃v : VoteMessage T⦄ where
  abbrev pub HasVoter : List Bool → T → Type 0
  HasVoter bits m = get_elem? bits (v.validator m) ≡ some true

  -- out of `n` validators: the count is the number of bits set and of messages, and the voter of
  -- each message has its bit set
  pub record IsValid (n : ℕ) (votes : Votes T) : Type 0 where
    pub sized : length votes.validators ≡ n
    pub counted : votes.count ≡ count_ones votes.validators
    pub messaged : votes.count ≡ length votes.messages
    pub voted : All (HasVoter votes.validators) votes.messages

  All-HasVoter-set :
      (bits : List Bool) (i : ℕ) (ms : List T)
      → All (HasVoter bits) ms
      → All (HasVoter (set bits i true)) ms
  All-HasVoter-set bits i [] h = tt
  All-HasVoter-set bits i (m ∷ ms) h =
      (get_elem?-set-true bits i (v.validator m) h.0, All-HasVoter-set bits i ms h.1)

  pub new-IsValid : (n : ℕ) → IsValid n (new n)
  unfolding new
  new-IsValid n = record {
    sized = length-replicate n false;
    counted = sym (count_ones-replicate n);
    messaged = refl;
    voted = tt;
  }

  put-IsValid :
      (n : ℕ) (votes : Votes T) (message : T) (b : Bool)
      → IsValid n votes
      → get_elem? votes.validators (v.validator message) ≡ some b
      → (votes' : Votes T) × (put votes message (some b) ≡ some votes')
        × IsValid n votes'
        × (votes'.count ≡ (if b then votes.count else votes.count + 1))
        × HasVoter votes'.validators message
  unfolding put
  put-IsValid n votes message true h e = (votes, refl, h, refl, e)
  put-IsValid n votes message false h e =
      let bits = set votes.validators (v.validator message) true in
      let self = get_elem?-set_self votes.validators (v.validator message) e in
      (
        _,
        refl,
        record {
          sized = omega (arith, length-set votes.validators (v.validator message) true, h.sized);
          counted =
              omega (arith, count_ones-set votes.validators (v.validator message) e, h.counted);
          messaged = omega (arith, length-append votes.messages (message ∷ []), h.messaged);
          voted =
              All-append (HasVoter bits) votes.messages (message ∷ [])
                (All-HasVoter-set votes.validators (v.validator message) votes.messages h.voted)
                (self, tt);
        },
        refl,
        self,
      )

  -- A vote of a validator in range is accepted without a panic. The votes stay valid, the voter is
  -- counted afterwards, and the count grows by one exactly if the voter was not counted before.
  pub insert-IsValid :
      (n : ℕ) (votes : Votes T) (message : T) (b : Bool)
      → IsValid n votes
      → get_elem? votes.validators (v.validator message) ≡ some b
      → (votes' : Votes T) × (insert votes message ≡ some votes')
        × IsValid n votes'
        × (votes'.count ≡ (if b then votes.count else votes.count + 1))
        × HasVoter votes'.validators message
  unfolding insert
  insert-IsValid n votes message b h e = rw e (put-IsValid n votes message b h e)
