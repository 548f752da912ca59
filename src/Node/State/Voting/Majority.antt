-- ===== src/Node/State/Voting/Majority.antt =====
-- exonum-node/src/state.rs: adding a vote counts it once, and tells whether there is a majority.
use exonum.Prelude.{
  true, false, ap, ◌∙◌, if◌then◌else◌, subst, ℕ, ◌<◌, ◌≡◌, refl, Bool, Option, none, some, arith,
  ◌⊎◌, inl, inr, get_elem?-some, leb, Option-cases,
}
use exonum.Prelude.Eq.{◌==◌, nat_eq, pair_eq}
use exonum.Prelude.HashMap.{HashMap, get-insert}
use exonum.Prelude.HashMap
use exonum.Node.Messages.{
  Hash, Verified, Prevote, Precommit, VoteMessage, prevote_vote, precommit_vote,
}
use exonum.Node.Chain.{Chain}
use exonum.Node.Votes.{Votes, insert}
use exonum.Node.Votes.Counting.{IsValid, HasVoter, new-IsValid, insert-IsValid}
use exonum.Node.State.{State, ValidatorState, majority_count}
use exonum.Node.State.Voting.Own.{ContradictsOwn, Recorded, record_precommit_cases}
use exonum.Node.State.Voting.{
  record_prevote, record_precommit, add_precommit, has_majority_precommits, reached, votes_at,
  validators_len, add_prevote, has_majority_prevotes,
}

module _ {T : Type 0} ⦃v : VoteMessage T⦄ where
  -- each entry of the map counts votes of `n` validators
  abbrev pub ValidVotes : ℕ → HashMap (ℕ × Hash) (Votes T) → Type 0
  ValidVotes n m = (k : ℕ × Hash) (votes : Votes T) → HashMap.get m k ≡ some votes → IsValid n votes

  votes_at-IsValid :
      (n : ℕ) (m : HashMap (ℕ × Hash) (Votes T)) (k : ℕ × Hash)
      → ValidVotes n m
      → IsValid n (votes_at m k n)
  votes_at-IsValid n m k h = elim (Option-cases (HashMap.get m k)) [
    | inl e ↦ rw e (new-IsValid n)
    | inr (w, e) ↦ rw e (h k w e)
  ]

  ValidVotes-insert :
      (n : ℕ) (m : HashMap (ℕ × Hash) (Votes T)) (k : ℕ × Hash) (w : Votes T)
      → ValidVotes n m
      → IsValid n w
      → ValidVotes n (HashMap.insert m k w)
  ValidVotes-insert n m k w h hw j votes e = elim (HashMap.insert-cases m k w j votes e) [
    | inl q ↦ subst (IsValid n) q hw
    | inr q ↦ h j votes q
  ]

  -- What is true of the votes at `k` after one more vote of a validator in range: it is accepted, it
  -- is counted, and the votes at other places are untouched.
  insert-ValidVotes :
      (n : ℕ) (m : HashMap (ℕ × Hash) (Votes T)) (k : ℕ × Hash) (msg : T)
      → ValidVotes n m
      → v.validator msg < n
      → (w : Votes T) × (insert (votes_at m k n) msg ≡ some w)
        × IsValid n w
        × HasVoter w.validators msg
  insert-ValidVotes n m k msg h lt =
      let old = votes_at-IsValid n m k h in
      let (bit, e) =
        get_elem?-some (votes_at m k n).validators (v.validator msg) (omega (arith, old.sized)) in
      let (w, q, valid, count, voter) = insert-IsValid n (votes_at m k n) msg bit old e in
      (w, q, valid, voter)

  reached-if :
      (majority : ℕ) (b : Bool) (w : Votes T) (o : Option (Votes T))
      → reached majority (if b then some w else o)
        ≡ (if b then leb majority w.count else reached majority o)
  reached-if majority true w o = refl
  reached-if majority false w o = refl

  reached-insert :
      (majority : ℕ) (m : HashMap (ℕ × Hash) (Votes T)) (k : ℕ × Hash) (w : Votes T) (j : ℕ × Hash)
      → reached majority (HashMap.get (HashMap.insert m k w) j) ≡ (
          if ◌==◌ {A = ℕ × Hash} k j
          then leb majority w.count
          else reached majority (HashMap.get m j))
  reached-insert majority m k w j =
      ap (reached majority) (get-insert m k w j) ∙ reached-if majority (k == j) w (HashMap.get m j)

module _ {c : Chain} where
  -- What `add_prevote` does with a prevote of a validator in range that does not contradict a prevote
  -- of the node's own: the votes stay valid, the vote is among them, the result tells whether the
  -- propose has a majority in the round now, and other rounds and proposes have one as before.
  pub record PrevoteAdded (s : State c) (msg : Verified Prevote) (b : Bool) (s' : State c)
      : Type 0 where
    pub returned : add_prevote s msg ≡ some (b, s')
    pub valid : ValidVotes (validators_len s') s'.prevotes
    pub voted :
        (w : Votes (Verified Prevote)) × (HashMap.get s'.prevotes
            (msg.payload.round, msg.payload.propose_hash)
          ≡ some w)
        × HasVoter w.validators msg
    pub majority :
        (r : ℕ) (h : Hash)
        → has_majority_prevotes s' r h ≡ (
            if ◌==◌ {A = ℕ × Hash} (msg.payload.round, msg.payload.propose_hash) (r, h)
            then b
            else has_majority_prevotes s r h)

  -- A prevote of a validator in range that does not contradict a prevote of the node's own is added
  -- without a panic.
  pub add_prevote-PrevoteAdded :
      (s : State c) (msg : Verified Prevote) (own : Option ValidatorState)
      → ValidVotes (validators_len s) s.prevotes
      → msg.payload.validator < validators_len s
      → record_prevote s.validator_state msg ≡ some own
      → (b : Bool) × (s' : State c) × PrevoteAdded s msg b s'
  unfolding add_prevote has_majority_prevotes majority_count
  add_prevote-PrevoteAdded s msg own h lt e =
      let k : ℕ × Hash = (msg.payload.round, msg.payload.propose_hash) in
      let (w, q, valid, voter) = insert-ValidVotes (validators_len s) s.prevotes k msg h lt in
      (
        leb (majority_count s) w.count,
        record s { validator_state = own; prevotes = HashMap.insert s.prevotes k w },
        record {
          returned = rw (e, q) refl;
          valid = ValidVotes-insert (validators_len s) s.prevotes k w h valid;
          voted = (w, HashMap.get-insert_same s.prevotes k w, voter);
          majority = λ r p. reached-insert (majority_count s) s.prevotes k w (r, p);
        },
      )

  -- The same for `add_precommit`, with the block hash; and a precommit of the node's own is now its
  -- precommit of the round.
  pub record PrecommitAdded (s : State c) (msg : Verified Precommit) (b : Bool) (s' : State c)
      : Type 0 where
    pub returned : add_precommit s msg ≡ some (b, s')
    pub valid : ValidVotes (validators_len s') s'.precommits
    pub voted :
        (w : Votes (Verified Precommit)) × (HashMap.get s'.precommits
            (msg.payload.round, msg.payload.block_hash)
          ≡ some w)
        × HasVoter w.validators msg
    pub majority :
        (r : ℕ) (h : Hash)
        → has_majority_precommits s' r h ≡ (
            if ◌==◌ {A = ℕ × Hash} (msg.payload.round, msg.payload.block_hash) (r, h)
            then b
            else has_majority_precommits s r h)
    pub own : Recorded s.validator_state msg s'.validator_state

  added_at :
      (s : State c) (msg : Verified Precommit) (own : Option ValidatorState)
      → ValidVotes (validators_len s) s.precommits
      → msg.payload.validator < validators_len s
      → record_precommit s.validator_state msg ≡ some own
      → Recorded s.validator_state msg own
      → (b : Bool) × (s' : State c) × PrecommitAdded s msg b s'
  unfolding add_precommit has_majority_precommits majority_count
  added_at s msg own h lt e recorded =
      let k : ℕ × Hash = (msg.payload.round, msg.payload.block_hash) in
      let (w, q, valid, voter) = insert-ValidVotes (validators_len s) s.precommits k msg h lt in
      (
        leb (majority_count s) w.count,
        record s { validator_state = own; precommits = HashMap.insert s.precommits k w },
        record {
          returned = rw (e, q) refl;
          valid = ValidVotes-insert (validators_len s) s.precommits k w h valid;
          voted = (w, HashMap.get-insert_same s.precommits k w, voter);
          majority = λ r p. reached-insert (majority_count s) s.precommits k w (r, p);
          own = recorded;
        },
      )

  refused_at :
      (s : State c) (msg : Verified Precommit)
      → record_precommit s.validator_state msg ≡ none
      → add_precommit s msg ≡ none
  unfolding add_precommit
  refused_at s msg e = rw e refl

  -- Where the votes are valid, a precommit of a validator in range is a panic exactly if it is of the
  -- node's own and the node's earlier precommit of the round is for another propose; only the hashes
  -- of the proposes are compared. Otherwise it is added: the votes stay valid, the vote is among
  -- them, the result tells whether the block has a majority in the round now, other rounds and blocks
  -- have one as before, and a precommit of the node's own, with whatever block hash and time, takes
  -- the place of the earlier one.
  pub add_precommit-PrecommitAdded :
      (s : State c) (msg : Verified Precommit)
      → ValidVotes (validators_len s) s.precommits
      → msg.payload.validator < validators_len s
      → (ContradictsOwn s.validator_state msg × (add_precommit s msg ≡ none))
        ⊎ (¬ ContradictsOwn s.validator_state msg
            × (b : Bool) × (s' : State c) × PrecommitAdded s msg b s')
  add_precommit-PrecommitAdded s msg h lt = elim (record_precommit_cases s.validator_state msg) [
    | inl (contradicts, e) ↦ inl (contradicts, refused_at s msg e)
    | inr (agrees, own, e, recorded) ↦
        let (b, s', added) = added_at s msg own h lt e recorded in inr (agrees, b, s', added)
  ]
