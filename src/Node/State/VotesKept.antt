-- ===== src/Node/State/VotesKept.antt =====
-- exonum-node/src/state.rs: adding a vote keeps the votes that are there, our own ones too.
use exonum.Prelude.{
  true, ℕ, ◌≤◌, ◌≡◌, refl, inr, Bool, Option, none, some, arith, Option-cases, inl,
}
use exonum.Prelude.Eq.{nat_eq, pair_eq, pair_beq_iff}
use exonum.Prelude.HashMap.{HashMap, get-insert}
use exonum.Prelude.HashMap
use exonum.Prelude.Panic.{Returns, Returns-bind, Returns-intro, Returns-apply}
use exonum.Helpers.Quorum.{byzantine_quorum}
use exonum.Node.Messages.{
  Hash, Verified, Prevote, Precommit, VoteMessage, prevote_eq, prevote_beq_iff, prevote_vote,
  precommit_vote,
}
use exonum.Node.Chain.{Chain}
use exonum.Node.Votes.{Votes, insert}
use exonum.Node.Votes
use exonum.Node.State.{State, ValidatorState, majority_count}
use exonum.Node.State.Progress.{
  Core, core, Within, Still, reached_mono, LockedBy-grow, quorum-pos, own_prevote, own_precommit,
  count_at,
}
use exonum.Node.State.Voting.{
  has_majority_prevotes, has_majority_precommits, record_prevote, record_precommit, votes_at,
  add_prevote, add_precommit, validators_len,
}

module _ {T : Type 0} ⦃v : VoteMessage T⦄ where
  insert-count : (votes : Votes T) (m : T) → Returns (λ w. votes.count ≤ w.count) (insert votes m)
  unfolding insert
  insert-count votes m = ground arith

pub count_at-insert :
    {T : Type 0} (m : HashMap (ℕ × Hash) (Votes T)) (k : ℕ × Hash) (n : ℕ) (w : Votes T)
    (j : ℕ × Hash)
    → (votes_at m k n).count ≤ w.count
    → count_at m j ≤ count_at (HashMap.insert m k w) j
unfolding Votes.new
count_at-insert m k n w j h = rw get-insert (ground (arith, pair_beq_iff k j))

record KeepsOwn (a b : Option ValidatorState) : Type 0 where
  prevote : (r : ℕ) (m : Verified Prevote) → own_prevote a r ≡ some m → own_prevote b r ≡ some m
  precommit : (r : ℕ) (h : Hash) → own_precommit a r ≡ some h → own_precommit b r ≡ some h

record_prevote-KeepsOwn :
    (own : Option ValidatorState) (msg : Verified Prevote)
    → Returns (KeepsOwn own) (record_prevote own msg)
unfolding record_prevote
record_prevote-KeepsOwn none msg = record { prevote = λ r m e. e; precommit = λ r h e. e }
record_prevote-KeepsOwn (some v) msg =
    elim (Option-cases (HashMap.get v.our_prevotes msg.payload.round)) [
      | inl e ↦ Returns-intro (KeepsOwn (some v)) _ λ own' h. record {
        prevote = λ r m k. ground (arith, get-insert v.our_prevotes msg.payload.round msg r);
        precommit = λ r p k. ground arith;
      }
      | inr (other, e) ↦ Returns-intro (KeepsOwn (some v)) _ λ own' h. record {
        prevote = λ r m k.
            ground
              (arith, get-insert v.our_prevotes msg.payload.round msg r, prevote_beq_iff other msg);
        precommit = λ r p k. ground arith;
      }
    ]

record_precommit-KeepsOwn :
    (own : Option ValidatorState) (msg : Verified Precommit)
    → Returns (KeepsOwn own) (record_precommit own msg)
unfolding record_precommit
record_precommit-KeepsOwn none msg = record { prevote = λ r m e. e; precommit = λ r h e. e }
record_precommit-KeepsOwn (some v) msg =
    elim (Option-cases (HashMap.get v.our_precommits msg.payload.round)) [
      | inl e ↦ Returns-intro (KeepsOwn (some v)) _ λ own' h. record {
        prevote = λ r m k. ground arith;
        precommit = λ r p k. ground (arith, get-insert v.our_precommits msg.payload.round msg r);
      }
      | inr (other, e) ↦ Returns-intro (KeepsOwn (some v)) _ λ own' h. record {
        prevote = λ r m k. ground arith;
        precommit = λ r p k. ground (arith, get-insert v.our_precommits msg.payload.round msg r);
      }
    ]

-- new votes of others and of our own
Within-vote :
    (a b : Core)
    → b ≡ record a { own = b.own; prevotes = b.prevotes; precommits = b.precommits }
    → KeepsOwn a.own b.own
    → ((k : ℕ × Hash) → count_at a.prevotes k ≤ count_at b.prevotes k)
    → ((k : ℕ × Hash) → count_at a.precommits k ≤ count_at b.precommits k)
    → Within a b
Within-vote a b e own p q = record {
  epoch = cc;
  height = cc;
  last_hash = cc;
  config = cc;
  round = ground arith;
  locked_round = ground arith;
  locked_propose = λ _. cc;
  prevote_kept = own.prevote;
  precommit_kept = own.precommit;
  prevotes_grow = p;
  precommits_grow = q;
}

-- the votes after one more vote at the place `k`
votes_grow :
    {T : Type 0} ⦃v : VoteMessage T⦄ (m : HashMap (ℕ × Hash) (Votes T)) (k : ℕ × Hash) (n : ℕ)
    (msg : T) (w : Votes T)
    → insert (votes_at m k n) msg ≡ some w
    → (j : ℕ × Hash) → count_at m j ≤ count_at (HashMap.insert m k w) j
votes_grow m k n msg w e j =
    count_at-insert m k n w j (
      Returns-apply (λ u. (votes_at m k n).count ≤ u.count) _ (insert-count (votes_at m k n) msg) e)

module _ {c : Chain} where
  abbrev prevote_votes : State c → Verified Prevote → Votes (Verified Prevote)
  prevote_votes s msg =
      votes_at s.prevotes (msg.payload.round, msg.payload.propose_hash) (validators_len s)

  abbrev precommit_votes : State c → Verified Precommit → Votes (Verified Precommit)
  precommit_votes s msg =
      votes_at s.precommits (msg.payload.round, msg.payload.block_hash) (validators_len s)

  abbrev KeptResult : State c → Bool × State c → Type 0
  KeptResult s r = Still s r.1

  -- a prevote that is added, of any validator
  pub add_prevote-Still :
      (s : State c) (msg : Verified Prevote)
      → Returns (λ (r : Bool × State c). Still s r.1) (add_prevote s msg)
  unfolding add_prevote
  add_prevote-Still s msg =
      Returns-bind (KeptResult s) (record_prevote s.validator_state msg) _ λ own e.
        Returns-bind (KeptResult s) (insert (prevote_votes s msg) msg) _ λ votes k. (
          (Within-vote (core s)
              (record (core s) {
                own = own;
                prevotes =
                    HashMap.insert s.prevotes (msg.payload.round, msg.payload.propose_hash) votes;
              })
              refl
              (Returns-apply (KeepsOwn s.validator_state) _
                (record_prevote-KeepsOwn s.validator_state msg) e)
              (votes_grow s.prevotes (msg.payload.round, msg.payload.propose_hash)
                (validators_len s) msg votes k)
              (λ j. omega arith)),
          LockedBy-grow s.locked_propose s.locked_round (byzantine_quorum (validators_len s))
              s.prevotes
              (HashMap.insert s.prevotes (msg.payload.round, msg.payload.propose_hash) votes)
              (quorum-pos (validators_len s))
              (votes_grow s.prevotes (msg.payload.round, msg.payload.propose_hash)
                (validators_len s) msg votes k),
          refl,
        )

  -- a precommit that is added, of any validator
  pub add_precommit-Still :
      (s : State c) (msg : Verified Precommit)
      → Returns (λ (r : Bool × State c). Still s r.1) (add_precommit s msg)
  unfolding add_precommit
  add_precommit-Still s msg =
      Returns-bind (KeptResult s) (record_precommit s.validator_state msg) _ λ own e.
        Returns-bind (KeptResult s) (insert (precommit_votes s msg) msg) _ λ votes k. (
          (Within-vote (core s)
              (record (core s) {
                own = own;
                precommits =
                    HashMap.insert s.precommits (msg.payload.round, msg.payload.block_hash) votes;
              })
              refl
              (Returns-apply (KeepsOwn s.validator_state) _
                (record_precommit-KeepsOwn s.validator_state msg) e)
              (λ j. omega arith)
              (votes_grow s.precommits (msg.payload.round, msg.payload.block_hash)
                (validators_len s) msg votes k)),
          λ l. l,
          refl,
        )

module _ {c : Chain} where
  pub majority_prevotes_kept :
      (s t : State c) (r : ℕ) (h : Hash)
      → Within (core s) (core t)
      → has_majority_prevotes s r h ≡ true
      → has_majority_prevotes t r h ≡ true
  unfolding has_majority_prevotes majority_count
  majority_prevotes_kept s t r h w e = rw w.config (
      reached_mono (majority_count s) (HashMap.get s.prevotes (r, h))
        (HashMap.get t.prevotes (r, h)) (omega arith) (w.prevotes_grow (r, h)) e)

  pub majority_precommits_kept :
      (s t : State c) (r : ℕ) (h : Hash)
      → Within (core s) (core t)
      → has_majority_precommits s r h ≡ true
      → has_majority_precommits t r h ≡ true
  unfolding has_majority_precommits majority_count
  majority_precommits_kept s t r h w e = rw w.config (
      reached_mono (majority_count s) (HashMap.get s.precommits (r, h))
        (HashMap.get t.precommits (r, h)) (omega arith) (w.precommits_grow (r, h)) e)
