-- ===== src/Supervisor/Tests.antt =====
-- Votes of validators on two requests to the supervisor.
use exonum.Prelude.{ℕ, ◌+◌, ◌≡◌, refl, true, false, [], ◌∷◌, ◌&&◌, ◌||◌, ◌↔◌, if◌then◌else◌}
use exonum.Prelude.Eq.{◌==◌, nat_eq, contains, insert}
use exonum.Prelude.HashMap
use exonum.Helpers.Quorum.{byzantine_quorum}
use exonum.Node.Messages.{PublicKey}
use exonum.Supervisor.{
  Mode, MultisigIndex, confirmed_by, confirmations, confirm, intersect, intersect_with_validators,
  approved, intersection, collect, or_empty,
}
use exonum.Supervisor.Confirming.{confirm_lem, intersect_with_validators_iff, approval_stays}

-- request 7 with votes of the keys 1, 2 and 3, and 8 with a vote of 4
abbrev requests : MultisigIndex ℕ
requests = (7, 1 ∷ 2 ∷ 3 ∷ []) ∷ (8, 4 ∷ []) ∷ []

-- of four validators, three are enough in the decentralized mode, and not all
three_of_four : approved Mode.decentralized 7 requests 4 ≡ true
unfolding approved confirmations byzantine_quorum or_empty HashMap.get
three_of_four = refl

not_all : (intersect_with_validators requests 7 (1 ∷ 2 ∷ 3 ∷ 4 ∷ [])).0 ≡ false
unfolding intersect_with_validators intersect intersection collect or_empty HashMap.get insert
    contains
not_all = refl

one_of_four : approved Mode.decentralized 8 requests 4 ≡ false
unfolding approved confirmations byzantine_quorum or_empty HashMap.get
one_of_four = refl

confirm_lem_example :
    ((id' : ℕ) (key : PublicKey)
      → confirmed_by (confirm requests 8 1).1 id' key
        ≡ ((8 == id') && (1 == key) || confirmed_by requests id' key))
    × ((confirm requests 8 1).0 ≡ confirmations (confirm requests 8 1).1 8)
    × ((confirm requests 8 1).0
        ≡ confirmations requests 8 + (if confirmed_by requests 8 1 then 0 else 1))
confirm_lem_example = confirm_lem requests 8 1

intersect_with_validators_iff_example :
    ((intersect_with_validators requests 7 (3 ∷ 1 ∷ 3 ∷ [])).0 ≡ true) ↔ (
      (key : PublicKey) → contains (3 ∷ 1 ∷ 3 ∷ []) key ≡ true → confirmed_by requests 7 key ≡ true)
intersect_with_validators_iff_example = intersect_with_validators_iff requests 7 (3 ∷ 1 ∷ 3 ∷ [])

approval_stays_example : approved Mode.decentralized 7 (confirm requests 8 2).1 4 ≡ true
unfolding approved confirmations byzantine_quorum or_empty HashMap.get
approval_stays_example = approval_stays requests 8 Mode.decentralized 7 2 4 refl
