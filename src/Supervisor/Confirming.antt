-- ===== src/Supervisor/Confirming.antt =====
-- services/supervisor/src/multisig.rs: a vote is counted once, and all validators have voted exactly
-- if the code finds so.
use exonum.Prelude.{
  ℕ, ◌+◌, ◌≤◌, ◌≡◌, refl, ap, ◌∙◌, sym, true, List, [], ◌∷◌, arith, length, if◌then◌else◌,
  Bool-cases, inl, inr, ◌||◌, ◌↔◌, ◌&&◌, subst,
}
use exonum.Prelude.Eq.{Eq, ◌==◌, nat_eq, contains, insert, contains-insert}
use exonum.Prelude.HashMap.{get-insert, get-insert_same}
use exonum.Prelude.HashMap
use exonum.Node.Messages.{PublicKey}
use exonum.Supervisor.{
  Mode, MultisigIndex, or_empty, intersection, collect, confirmed_by, confirmations, confirm,
  intersect, intersect_with_validators, approved,
}

-- each key of the second list is in the first
Covers : List PublicKey → List PublicKey → Type 0
Covers set keys = (key : PublicKey) → contains keys key ≡ true → contains set key ≡ true

length-intersection : (set keys : List PublicKey) → length (intersection set keys) ≤ length keys
unfolding intersection
length-intersection set [] = omega arith
length-intersection set (key ∷ keys) = ground (arith, length-intersection set keys)

-- the intersection is as long as the keys only if all are in it
intersection-Covers :
    (set keys : List PublicKey) → length (intersection set keys) ≡ length keys → Covers set keys
unfolding intersection contains Covers
intersection-Covers set [] e key h = absurd (ground arith)
intersection-Covers set (k ∷ keys) e key h = elim (Bool-cases (contains set k)) [
  | inl q ↦ elim (Bool-cases (k == key)) [
    | inl r ↦ subst (λ x. contains set x ≡ true) ((nat_eq.beq_iff k key).0 r) q
    | inr r ↦ intersection-Covers set keys (ground arith) key (ground arith)
  ]
  | inr q ↦ absurd (ground (arith, length-intersection set keys))
]

Covers-intersection :
    (set keys : List PublicKey) → Covers set keys → length (intersection set keys) ≡ length keys
unfolding intersection contains Covers
Covers-intersection set [] covers = refl
Covers-intersection set (k ∷ keys) covers =
    let same : (k == k) ≡ true = (nat_eq.beq_iff k k).1 refl in
    let head : contains set k ≡ true = covers k (rw same refl) in
    let rest : Covers set keys = λ key h. covers key (ground arith) in
    ground (arith, Covers-intersection set keys rest)

contains-collect :
    (keys : List PublicKey) (key : PublicKey) → contains (collect keys) key ≡ contains keys key
unfolding collect contains
contains-collect [] key = refl
contains-collect (k ∷ keys) key =
    contains-insert (collect keys) k key ∙ ap (λ b. k == key || b) (contains-collect keys key)

length-insert :
    (set : List PublicKey) (key : PublicKey)
    → length (insert set key) ≡ length set + (if contains set key then 0 else 1)
unfolding insert
length-insert set key = elim (Bool-cases (contains set key)) [
  | inl q ↦ rw q (omega arith)
  | inr q ↦ rw q (omega arith)
]

module _ {V : Type 0} ⦃e : Eq V⦄ (index : MultisigIndex V) (id : V) where
  -- The vote of a key is counted once: after it the request has the vote of that key, every other vote on any
  -- request is as before, the result is the number of votes on the request, and that number grows by one
  -- exactly if the key had not voted.
  pub confirm_lem :
      (author : PublicKey)
      → ((id' : V) (key : PublicKey)
          → confirmed_by (confirm index id author).1 id' key
            ≡ ((id == id') && (author == key) || confirmed_by index id' key))
        × ((confirm index id author).0 ≡ confirmations (confirm index id author).1 id)
        × ((confirm index id author).0
            ≡ confirmations index id + (if confirmed_by index id author then 0 else 1))
  unfolding confirm confirmed_by confirmations or_empty
  confirm_lem author = (
    λ id' key.
        rw (get-insert index id (insert (or_empty (HashMap.get index id)) author) id')
          (elim (Bool-cases (id == id')) [
            | inl q ↦ rw q (
                contains-insert (or_empty (HashMap.get index id)) author key
                ∙ ap (λ i. author == key || contains (or_empty (HashMap.get index i)) key)
                    ((e.beq_iff id id').0 q))
            | inr q ↦ rw q refl
          ]),
    rw (get-insert_same index id (insert (or_empty (HashMap.get index id)) author)) refl,
    length-insert (or_empty (HashMap.get index id)) author,
  )

  -- The code finds that all the validators have voted exactly if each of the keys has.
  pub intersect_with_validators_iff :
      (keys : List PublicKey)
      → ((intersect_with_validators index id keys).0 ≡ true)
        ↔ ((key : PublicKey) → contains keys key ≡ true → confirmed_by index id key ≡ true)
  unfolding intersect_with_validators intersect confirmed_by Covers
  intersect_with_validators_iff keys =
      let set = or_empty (HashMap.get index id) in
      (
        λ h key m.
            intersection-Covers set (collect keys) ((nat_eq.beq_iff _ _).0 h) key
              (contains-collect keys key ∙ m),
        λ covers. (nat_eq.beq_iff _ _).1 (
            Covers-intersection set (collect keys)
              (λ key m. covers key (sym (contains-collect keys key) ∙ m))),
      )

  -- the votes on a request do not become fewer
  confirm-confirmations :
      (id' : V) (author : PublicKey)
      → confirmations index id' ≤ confirmations (confirm index id author).1 id'
  unfolding confirm confirmations or_empty
  confirm-confirmations id' author =
      rw (get-insert index id (insert (or_empty (HashMap.get index id)) author) id')
        (elim (Bool-cases (id == id')) [
          | inl q ↦
              rw (q, sym ((e.beq_iff id id').0 q))
                (ground (arith, length-insert (or_empty (HashMap.get index id)) author))
          | inr q ↦ rw q (omega arith)
        ])

  -- A vote, on whatever request, takes no request's approval away, in either mode.
  pub approval_stays :
      (mode : Mode) (id' : V) (author : PublicKey) (validators : ℕ)
      → approved mode id' index validators ≡ true
      → approved mode id' (confirm index id author).1 validators ≡ true
  unfolding approved
  approval_stays Mode.simple id' author validators h =
      ground (arith, confirm-confirmations id' author)
  approval_stays Mode.decentralized id' author validators h =
      ground (arith, confirm-confirmations id' author)
