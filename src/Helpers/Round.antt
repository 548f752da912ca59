-- ===== src/Helpers/Round.antt =====
-- exonum/src/helpers/types.rs: `Round`, and the ranges of rounds that the handlers loop over.
use exonum.Prelude.{
  ℕ, zero, suc, ◌+◌, ◌-◌, ◌≤◌, ◌<◌, ◌≡◌, Bool, true, Option, none, some, List, [], ◌∷◌, arith, All,
  if◌then◌else◌,
}
use exonum.Prelude.Eq.{◌==◌, nat_eq}
use exonum.Helpers.Word.{checked, checked_exact}

-- `Round::next`, and the new value of `Round::increment`
unfoldable pub next : Bool → ℕ → Option ℕ
next debug r = checked debug 32 (r + 1)

-- `Round::previous`; it asserts that the round is not 0 in every build
unfoldable pub previous : ℕ → Option ℕ
previous r = if r == 0 then none else some (r - 1)

-- `n` numbers from `a`
unfoldable pub count_from : ℕ → ℕ → List ℕ
count_from a zero = []
count_from a (suc n) = a ∷ count_from (a + 1) n

-- `Round::iter_to`: the range from `a` up to `b`, without `b`
unfoldable pub iter_to : ℕ → ℕ → List ℕ
unfolding count_from
iter_to a b = count_from a (b - a)

pub next_exact : (r : ℕ) {n : ℕ} → next true r ≡ some n → n ≡ r + 1
unfolding next
next_exact r e = (checked_exact 32 (r + 1) e).0

All-count_from :
    (a n lo hi : ℕ) → lo ≤ a → n ≤ hi - a → All (λ r. (lo ≤ r) × (r < hi)) (count_from a n)
unfolding count_from
All-count_from a zero lo hi h k = tt
All-count_from a (suc n) lo hi h k =
    ((omega arith, omega arith), All-count_from (a + 1) n lo hi (omega arith) (omega arith))

-- every round of `iter_to` lies in the range
pub All-iter_to : (a b : ℕ) → All (λ r. (a ≤ r) × (r < b)) (iter_to a b)
unfolding iter_to
All-iter_to a b = All-count_from a (b - a) a b (omega arith) (omega arith)
