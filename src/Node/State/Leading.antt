-- ===== src/Node/State/Leading.antt =====
-- exonum-node/src/state.rs: the leaders of the rounds take turns.
use exonum.Prelude.{
  ℕ, ◌+◌, ◌-◌, ◌%◌, ◌^◌, ◌<◌, ◌≤◌, ◌≡◌, ap, sym, ◌∙◌, ◌⊎◌, inl, inr, some, arith, length, ltb,
  Bool-cases,
}
use native.Mathlib.Nat.{mod-lt, mod-eq_of_lt, mod-add-mod, add-mod_right}
use mathlib.Core.Option.{some-injective}
use exonum.Prelude.Eq.{nat_eq}
use exonum.Helpers.Word.{checked}
use exonum.Node.Chain.{Chain}
use exonum.Node.State.{State, leader}

-- a remainder and less than `n` more
mod_of_sum :
    (q j n : ℕ)
    → q < n
    → j < n
    → ((q + j < n) × ((q + j) % n ≡ q + j)) ⊎ ((n ≤ q + j) × ((q + j) % n ≡ q + j - n))
mod_of_sum q j n ql jl = elim (Bool-cases (ltb (q + j) n)) [
  | inl h ↦ let small : q + j < n = ground arith in inl (small, mod-eq_of_lt small)
  | inr h ↦
      let large : n ≤ q + j = ground arith in
      let less : q + j - n < n = omega arith in
      let split : q + j ≡ q + j - n + n = omega arith in
      inr (large, ap (λ x. x % n) split ∙ add-mod_right (q + j - n) n ∙ mod-eq_of_lt less)
]

-- sums of different numbers less than `n` have different remainders
same_turn : (q j k n : ℕ) → q < n → j < n → k < n → (q + j) % n ≡ (q + k) % n → j ≡ k
same_turn q j k n ql jl kl e = elim (mod_of_sum q j n ql jl) [
  | inl (a, f) ↦ elim (mod_of_sum q k n ql kl) [
    | inl (b, g) ↦ omega (arith, a, b, sym f ∙ e ∙ g)
    | inr (b, g) ↦ omega (arith, a, b, sym f ∙ e ∙ g)
  ]
  | inr (a, f) ↦ elim (mod_of_sum q k n ql kl) [
    | inl (b, g) ↦ omega (arith, a, b, sym f ∙ e ∙ g)
    | inr (b, g) ↦ omega (arith, a, b, sym f ∙ e ∙ g)
  ]
]

-- the turn of `v`, from the remainder `q`
has_turn : (q n v : ℕ) → q < n → v < n → (k : ℕ) × (k < n) × ((q + k) % n ≡ v)
has_turn q n v ql vl = elim (Bool-cases (ltb v q)) [
  | inr h ↦
      let after : q ≤ v = ground arith in
      let sum : q + (v - q) ≡ v = omega arith in
      (v - q, omega arith, ap (λ x. x % n) sum ∙ mod-eq_of_lt vl)
  | inl h ↦
      let before : v < q = ground arith in
      let sum : q + (v + n - q) ≡ v + n = omega arith in
      (v + n - q, omega arith, ap (λ x. x % n) sum ∙ add-mod_right v n ∙ mod-eq_of_lt vl)
]

-- one of `n` sums in sequence has the remainder, and no other has
turn_of :
    (a n v : ℕ)
    → v < n
    → (k : ℕ) × (k < n) × ((a + k) % n ≡ v) × ((j : ℕ) → j < n → (a + j) % n ≡ v → j ≡ k)
turn_of a n v vl =
    let ql : a % n < n = mod-lt a (omega arith) in
    let (k, kl, e) = has_turn (a % n) n v ql vl in
    (
      k,
      kl,
      sym (mod-add-mod a n k) ∙ e,
      λ j jl f. same_turn (a % n) j k n ql jl kl (mod-add-mod a n j ∙ f ∙ sym e),
    )

module _ {c : Chain} (s : State c) where
  leader_lem :
      (round : ℕ)
      → 0 < length s.config.validator_keys
      → length s.config.validator_keys ≤ 2 ^ 16
      → s.epoch + round < 2 ^ 64
      → leader s round ≡ some ((s.epoch + round) % length s.config.validator_keys)
  unfolding leader checked
  leader_lem round pos few small = ground (arith, mod-lt (s.epoch + round) pos)

-- Where no more than 2 ^ 16 validators are and no sum with the epoch leaves 64 bits, each validator leads
-- exactly one of as many rounds in sequence as there are validators.
pub leader_rotates :
    {c : Chain} (s : State c) (round v : ℕ)
    → v < length s.config.validator_keys
    → length s.config.validator_keys ≤ 2 ^ 16
    → s.epoch + round + length s.config.validator_keys ≤ 2 ^ 64
    → (k : ℕ) × (k < length s.config.validator_keys)
      × (leader s (round + k) ≡ some v)
      × ((j : ℕ) → j < length s.config.validator_keys → leader s (round + j) ≡ some v → j ≡ k)
leader_rotates s round v vl few small =
    let n = length s.config.validator_keys in
    let (k, kl, e, only) = turn_of (s.epoch + round) n v vl in
    let turn : (j : ℕ) → j < n → leader s (round + j) ≡ some ((s.epoch + round + j) % n) = λ j jl.
      leader_lem s (round + j) (omega arith) few (omega arith)
      ∙ ap (λ x. some (x % n)) (omega arith) in
    (k, kl, turn k kl ∙ ap some e, λ j jl f. only j jl (some-injective _ _ (sym (turn j jl) ∙ f)))
