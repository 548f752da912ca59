-- ===== src/Node/State/Progress.antt =====
-- exonum-node/src/state.rs: how the state of the consensus moves. Within an epoch rounds and locks
-- only rise, a lock at one round keeps its propose, votes of the node are not taken back, and a
-- majority once reached stays; or the node is in a later epoch.
use exonum.Prelude.{
  ℕ, ◌+◌, ◌≤◌, ◌<◌, ◌≡◌, refl, ◌∙◌, subst, ◌⊎◌, inl, inr, true, Option, none, some, List, arith,
  leb, ltb, ltb→lt, Bool-cases, length, leb→le, le→leb,
}
use exonum.Prelude.Eq.{nat_eq, pair_eq}
use exonum.Prelude.HashMap.{HashMap, get-insert}
use exonum.Prelude.HashMap
use exonum.Prelude.Panic.{Returns, Returns-bind, Returns-apply}
use exonum.Helpers.Height
use exonum.Helpers.Round
use exonum.Helpers.Quorum.{byzantine_quorum}
use exonum.Node.Messages.{Hash, Verified, Prevote, Precommit, ConsensusMessage}
use exonum.Node.Chain.{Chain, ConsensusConfig}
use exonum.Node.Votes.{Votes}
use exonum.Node.State.Voting.{reached, has_majority_prevotes}
use exonum.Node.State.{
  majority_count, State, ValidatorState, lock, jump_round, new_round, new_epoch, new_height,
}

-- the part of the state that the consensus rests on
pub record Core : Type 0 where
  pub epoch : ℕ
  pub height : ℕ
  pub last_hash : Hash
  pub config : ConsensusConfig
  pub round : ℕ
  pub locked_round : ℕ
  pub locked_propose : Option Hash
  pub own : Option ValidatorState
  pub prevotes : HashMap (ℕ × Hash) (Votes (Verified Prevote))
  pub precommits : HashMap (ℕ × Hash) (Votes (Verified Precommit))
  pub queued : List ConsensusMessage

abbrev pub core : {c : Chain} → State c → Core
core s = record {
  epoch = s.epoch;
  height = s.blockchain_height;
  last_hash = s.last_hash;
  config = s.config;
  round = s.round;
  locked_round = s.locked_round;
  locked_propose = s.locked_propose;
  own = s.validator_state;
  prevotes = s.prevotes;
  precommits = s.precommits;
  queued = s.queued;
}

-- the prevote that the node itself has for a round
abbrev pub own_prevote : Option ValidatorState → ℕ → Option (Verified Prevote)
own_prevote none r = none
own_prevote (some v) r = HashMap.get v.our_prevotes r

abbrev pub precommit_hash : Option (Verified Precommit) → Option Hash
precommit_hash none = none
precommit_hash (some m) = some m.payload.propose_hash

-- the propose of the precommit that the node itself has for a round
abbrev pub own_precommit : Option ValidatorState → ℕ → Option Hash
own_precommit none r = none
own_precommit (some v) r = precommit_hash (HashMap.get v.our_precommits r)

abbrev pub count_of : {T : Type 0} → Option (Votes T) → ℕ
count_of none = 0
count_of (some v) = v.count

abbrev pub count_at : {T : Type 0} → HashMap (ℕ × Hash) (Votes T) → ℕ × Hash → ℕ
count_at m k = count_of (HashMap.get m k)

pub record Within (a b : Core) : Type 0 where
  pub epoch : b.epoch ≡ a.epoch
  pub height : b.height ≡ a.height
  pub last_hash : b.last_hash ≡ a.last_hash
  pub config : b.config ≡ a.config
  pub round : a.round ≤ b.round
  pub locked_round : a.locked_round ≤ b.locked_round
  pub locked_propose : a.locked_round ≡ b.locked_round → b.locked_propose ≡ a.locked_propose
  pub prevote_kept :
      (r : ℕ) (m : Verified Prevote) → own_prevote a.own r ≡ some m → own_prevote b.own r ≡ some m
  pub precommit_kept :
      (r : ℕ) (h : Hash) → own_precommit a.own r ≡ some h → own_precommit b.own r ≡ some h
  pub prevotes_grow : (k : ℕ × Hash) → count_at a.prevotes k ≤ count_at b.prevotes k
  pub precommits_grow : (k : ℕ × Hash) → count_at a.precommits k ≤ count_at b.precommits k

-- a majority is not lost by more votes
pub reached_mono :
    {T : Type 0} (q : ℕ) (a b : Option (Votes T))
    → 0 < q
    → count_of a ≤ count_of b
    → reached q a ≡ true
    → reached q b ≡ true
reached_mono q none b pos le h = ground arith
reached_mono q (some v) none pos le h = ground (arith, leb→le q v.count h)
reached_mono q (some v) (some w) pos le h = le→leb q w.count (omega (arith, leb→le q v.count h))

-- the lock of a node: none in the round 0, or a propose with a majority, `q` votes, of the prevotes in
-- the locked round
abbrev pub LockedBy : Option Hash → ℕ → ℕ → HashMap (ℕ × Hash) (Votes (Verified Prevote)) → Type 0
LockedBy none locked_round q prevotes = locked_round ≡ 0
LockedBy (some h) locked_round q prevotes =
    reached q (HashMap.get prevotes (locked_round, h)) ≡ true

-- more prevotes keep the lock supported
pub LockedBy-grow :
    (o : Option Hash) (locked_round q : ℕ) (m w : HashMap (ℕ × Hash) (Votes (Verified Prevote)))
    → 0 < q
    → ((k : ℕ × Hash) → count_at m k ≤ count_at w k)
    → LockedBy o locked_round q m
    → LockedBy o locked_round q w
LockedBy-grow none locked_round q m w pos grow h = h
LockedBy-grow (some p) locked_round q m w pos grow h =
    reached_mono q (HashMap.get m (locked_round, p)) (HashMap.get w (locked_round, p)) pos
      (grow (locked_round, p)) h

pub quorum-pos : (n : ℕ) → 0 < byzantine_quorum n
unfolding byzantine_quorum
quorum-pos n = omega arith

abbrev pub Locked : Core → Type 0
Locked a =
    LockedBy a.locked_propose a.locked_round (byzantine_quorum (length a.config.validator_keys))
      a.prevotes

-- a majority of prevotes for a propose in a round
abbrev pub Majority : ℕ → Hash → Core → Type 0
Majority r h a =
    reached (byzantine_quorum (length a.config.validator_keys)) (HashMap.get a.prevotes (r, h))
    ≡ true

-- a majority stays within an epoch
pub Majority-still : (r : ℕ) (h : Hash) (a b : Core) → Within a b → Majority r h a → Majority r h b
Majority-still r h a b w e = rw w.config (
    reached_mono (byzantine_quorum (length a.config.validator_keys)) (HashMap.get a.prevotes (r, h))
      (HashMap.get b.prevotes (r, h)) (quorum-pos _) (w.prevotes_grow (r, h)) e)

abbrev pub Progress : Core → Core → Type 0
Progress a b = ((a.epoch < b.epoch) ⊎ Within a b) × (Locked a → Locked b)

pub Within-refl : (a : Core) → Within a a
Within-refl a = record {
  epoch = refl;
  height = refl;
  last_hash = refl;
  config = refl;
  round = omega arith;
  locked_round = omega arith;
  locked_propose = λ _. refl;
  prevote_kept = λ r m h. h;
  precommit_kept = λ r h e. e;
  prevotes_grow = λ k. omega arith;
  precommits_grow = λ k. omega arith;
}

pub Within-trans : (x y z : Core) → Within x y → Within y z → Within x z
Within-trans x y z h k = record {
  epoch = omega (arith, h.epoch, k.epoch);
  height = omega (arith, h.height, k.height);
  last_hash = omega (arith, h.last_hash, k.last_hash);
  config = cc (h.config, k.config);
  round = omega (arith, h.round, k.round);
  locked_round = omega (arith, h.locked_round, k.locked_round);
  locked_propose = λ e. cc (
    h.locked_propose (omega (arith, h.locked_round, k.locked_round)),
    k.locked_propose (omega (arith, h.locked_round, k.locked_round)),
  );
  prevote_kept = λ r m e. k.prevote_kept r m (h.prevote_kept r m e);
  precommit_kept = λ r p e. k.precommit_kept r p (h.precommit_kept r p e);
  prevotes_grow = λ q. omega (arith, h.prevotes_grow q, k.prevotes_grow q);
  precommits_grow = λ q. omega (arith, h.precommits_grow q, k.precommits_grow q);
}

-- the same epoch, in which no message is queued or taken from the queue
abbrev pub StillCore : Core → Core → Type 0
StillCore a b = Within a b × (Locked a → Locked b) × (b.queued ≡ a.queued)

pub Still-refl : (a : Core) → StillCore a a
Still-refl a = (Within-refl a, λ h. h, refl)

-- messages that are queued or taken from the queue
pub Within-queued :
    (a : Core) (queued : List ConsensusMessage) → Within a (record a { queued = queued })
Within-queued a queued = record {
  epoch = refl;
  height = refl;
  last_hash = refl;
  config = refl;
  round = omega arith;
  locked_round = omega arith;
  locked_propose = λ _. refl;
  prevote_kept = λ r m h. h;
  precommit_kept = λ r h e. e;
  prevotes_grow = λ k. omega arith;
  precommits_grow = λ k. omega arith;
}

pub Progress-refl : (a : Core) → Progress a a
Progress-refl a = (inr (Within-refl a), λ h. h)

pub Still-trans : (x y z : Core) → StillCore x y → StillCore y z → StillCore x z
Still-trans x y z h k = (Within-trans x y z h.0 k.0, λ l. k.1 (h.1 l), k.2 ∙ h.2)

moved_trans :
    (x y z : Core)
    → (x.epoch < y.epoch) ⊎ Within x y
    → (y.epoch < z.epoch) ⊎ Within y z
    → (x.epoch < z.epoch) ⊎ Within x z
moved_trans x y z (inl h) (inl k) = inl (omega arith)
moved_trans x y z (inl h) (inr k) = inl (omega (arith, k.epoch))
moved_trans x y z (inr h) (inl k) = inl (omega (arith, h.epoch))
moved_trans x y z (inr h) (inr k) = inr (Within-trans x y z h k)

pub Progress-trans : (x y z : Core) → Progress x y → Progress y z → Progress x z
Progress-trans x y z h k = (moved_trans x y z h.0 k.0, λ l. k.1 (h.1 l))

-- rounds and locks that rise
Within-raise :
    (a : Core) (round locked_round : ℕ) (locked_propose : Option Hash)
    → a.round ≤ round
    → a.locked_round ≤ locked_round
    → (a.locked_round ≡ locked_round → locked_propose ≡ a.locked_propose)
    → Within a
        (record a { round = round; locked_round = locked_round; locked_propose = locked_propose })
Within-raise a round locked_round locked_propose h k l = record {
  epoch = refl;
  height = refl;
  last_hash = refl;
  config = refl;
  round = h;
  locked_round = k;
  locked_propose = l;
  prevote_kept = λ r m e. e;
  precommit_kept = λ r p e. e;
  prevotes_grow = λ q. omega arith;
  precommits_grow = λ q. omega arith;
}

module _ {c : Chain} where
  abbrev pub Kept : State c → State c → Type 0
  Kept s s' = Progress (core s) (core s')

  abbrev pub Still : State c → State c → Type 0
  Still s s' = StillCore (core s) (core s')

  -- a lock is taken at a higher round only, here on a propose with a majority in that round
  pub lock-Still :
      (s : State c) (r : ℕ) (hash : Hash)
      → has_majority_prevotes s r hash ≡ true
      → Returns (Still s) (lock s r hash)
  unfolding lock has_majority_prevotes majority_count
  lock-Still s r hash majority = elim (Bool-cases (leb r s.locked_round)) [
    | inl e ↦ rw e tt
    | inr e ↦ rw e (
      Within-raise (core s) s.round r (some hash) (omega arith) (ground arith) (ground arith),
      λ _. majority,
      refl,
    )
  ]

  pub jump_round-Still : (s : State c) (r : ℕ) → s.round ≤ r → Still s (jump_round s r)
  unfolding jump_round
  jump_round-Still s r h = (
    Within-raise (core s) r s.locked_round s.locked_propose h (omega arith) (λ _. refl),
    λ l. l,
    refl,
  )

  -- the next round, in a build that panics at an overflow
  pub new_round-Still : (s : State c) → c.debug ≡ true → Returns (Still s) (new_round s)
  unfolding new_round jump_round
  new_round-Still s d = Returns-bind (Still s) (Round.next c.debug s.round) _ λ r e.
      jump_round-Still s r
        (omega (arith, Round.next_exact s.round (subst (λ b. Round.next b s.round ≡ some r) d e)))

  -- a later epoch of the same blockchain
  abbrev pub NextEpoch : State c → State c → Type 0
  NextEpoch s s' =
      (s.epoch < s'.epoch)
      × (s'.blockchain_height ≡ s.blockchain_height)
      × Locked (core s')
      × (s'.queued ≡ s.queued)

  -- a new epoch is a later one, in a build that asserts it
  pub new_epoch-Progress :
      (s : State c) (epoch time : ℕ)
      → c.debug ≡ true
      → Returns (NextEpoch s) (new_epoch s epoch time)
  unfolding new_epoch
  new_epoch-Progress s epoch time d = rw d (elim (Bool-cases (ltb s.epoch epoch)) [
    | inl e ↦ rw e (ltb→lt s.epoch epoch e, refl, refl, refl)
    | inr e ↦ rw e tt
  ])

  -- one block more, in a later epoch
  abbrev pub NextHeight : State c → State c → Type 0
  NextHeight s s' =
      (s.epoch < s'.epoch)
      × (s'.blockchain_height ≡ s.blockchain_height + 1)
      × Locked (core s')
      × (s'.queued ≡ s.queued)

  pub new_height-Progress :
      (s : State c) (block_hash : Hash) (epoch time : ℕ)
      → c.debug ≡ true
      → Returns (NextHeight s) (new_height s block_hash epoch time)
  unfolding new_height
  new_height-Progress s block_hash epoch time d =
      Returns-bind (NextHeight s) (new_epoch s epoch time) _ λ s' e.
        Returns-bind (NextHeight s) (Height.next c.debug s'.blockchain_height) _ λ height k.
          let (later, same, locked, queue) =
            Returns-apply (NextEpoch s) _ (new_epoch-Progress s epoch time d) e in
          let next =
            Height.next_exact s'.blockchain_height
              (subst (λ b. Height.next b s'.blockchain_height ≡ some height) d k) in
          (later, omega arith, locked, queue)
