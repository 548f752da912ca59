-- ===== src/Node/Handler/RoundTime/Lengthening.antt =====
-- exonum-node/src/lib.rs: the rounds of an epoch become longer.
use exonum.Prelude.{
  Bool, ℕ, zero, suc, ◌+◌, ◌-◌, ◌*◌, ◌/◌, ◌<◌, ◌≡◌, ap, ◌∙◌, sym, true, some, arith,
}
use exonum.Prelude.Panic.{◌>>=◌, >>=-eq-some}
use native.Mathlib.Nat.{add-mul}
use mathlib.Core.Option.{some-injective}
use exonum.Helpers.Word.{checked, checked_exact}
use exonum.Helpers.Round
use exonum.Node.Handler.RoundTime.{round_timeout_increase, offset, round_offset}

sum_of :
    {linear product increase growth ms l p i : ℕ}
    → linear ≡ l
    → product ≡ p
    → increase ≡ i
    → growth ≡ product / 2 * increase
    → ms ≡ linear + growth
    → ms ≡ l + p / 2 * i
sum_of a b c d e = cc

-- what the sums and products come to in a build with overflow checks
offset_exact :
    (first p : ℕ) {ms : ℕ}
    → offset true first p ≡ some ms
    → ms ≡ p * first + p * (p - 1) / 2 * (first * 10 / 100)
unfolding offset round_timeout_increase
offset_exact first p h =
    let (linear, e1, h1) = >>=-eq-some (checked true 64 (p * first)) _ h in
    let (product, e2, h2) = >>=-eq-some (checked true 64 (p * (p - 1))) _ h1 in
    let (increase, e3, h3) = >>=-eq-some (round_timeout_increase true first) _ h2 in
    let (growth, e4, h4) = >>=-eq-some (checked true 64 (product / 2 * increase)) _ h3 in
    let (ten, e5, h5) = >>=-eq-some (checked true 64 (first * 10)) _ e3 in
    let inc : increase ≡ first * 10 / 100 =
      sym (some-injective _ _ h5) ∙ ap (λ x. x / 100) (checked_exact 64 (first * 10) e5).0 in
    sum_of (checked_exact 64 (p * first) e1).0 (checked_exact 64 (p * (p - 1)) e2).0 inc
      (checked_exact 64 (product / 2 * increase) e4).0 (checked_exact 64 (linear + growth) h4).0

-- the triangular number of `p`, by those before
triangle : (p d : ℕ) → (p + 1) * p / 2 * d ≡ p * (p - 1) / 2 * d + p * d
triangle zero d = omega arith
triangle (suc k) d =
    let twice : (suc k + 1) * suc k ≡ suc k * (suc k - 1) + 2 * suc k = grind arith in
    let half : (suc k + 1) * suc k / 2 ≡ suc k * (suc k - 1) / 2 + suc k = rw twice (omega arith) in
    ap (λ x. x * d) half ∙ add-mul (suc k * (suc k - 1) / 2) (suc k) d

lengthened :
    (p first d : ℕ) {start end : ℕ}
    → start ≡ p * first + p * (p - 1) / 2 * d
    → end ≡ (p + 1) * first + (p + 1) * (p + 1 - 1) / 2 * d
    → end ≡ start + first + p * d
lengthened p first d before after =
    let same : p + 1 - 1 ≡ p = omega arith in
    let rise : (p + 1) * (p + 1 - 1) / 2 * d ≡ p * (p - 1) / 2 * d + p * d =
      rw same (triangle p d) in
    let linear : (p + 1) * first ≡ p * first + first = grind arith in
    after ∙ rw (rise, linear, before) (omega arith)

previous_at : (round p : ℕ) → round ≡ p + 1 → Round.previous round ≡ some p
unfolding Round.previous
previous_at round p e = ground arith

round_offset_at :
    (debug : Bool) (first round p : ℕ)
    → round ≡ p + 1
    → round_offset debug first round ≡ offset debug first p
unfolding round_offset
round_offset_at debug first round p e = ap (λ o. o >>= offset debug first) (previous_at round p e)

-- In a build with overflow checks: where the starts of a round and of the next one are in range, the round takes
-- the first timeout, and a tenth of it more for each of the rounds before it.
pub round_offset_rises :
    (first round : ℕ) {start end : ℕ}
    → 0 < round
    → round_offset true first round ≡ some start
    → round_offset true first (round + 1) ≡ some end
    → end ≡ start + first + (round - 1) * (first * 10 / 100)
round_offset_rises first round {start} {end} pos h k =
    let p = round - 1 in
    let before : start ≡ p * first + p * (p - 1) / 2 * (first * 10 / 100) =
      offset_exact first p (sym (round_offset_at true first round p (omega arith)) ∙ h) in
    let after : end ≡ (p + 1) * first + (p + 1) * (p + 1 - 1) / 2 * (first * 10 / 100) =
      offset_exact first (p + 1)
        (sym (round_offset_at true first (round + 1) (p + 1) (omega arith)) ∙ k) in
    lengthened p first (first * 10 / 100) before after
