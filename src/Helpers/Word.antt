-- ===== src/Helpers/Word.antt =====
-- Machine arithmetic of Rust. An operation that leaves its width panics in a build with debug
-- assertions and wraps in one without: the flag `debug` says which build, `none` is the panic.
use exonum.Prelude.{
  ℕ, ◌+◌, ◌-◌, ◌%◌, ◌^◌, ◌<◌, ◌≡◌, Bool, true, Option, none, some, arith, ltb, if◌then◌else◌,
}

-- a result in `w` bits, from the exact one
unfoldable pub checked : Bool → ℕ → ℕ → Option ℕ
checked debug w n = if ltb n (2 ^ w) then some n else if debug then none else some (n % 2 ^ w)

-- `a - b` in `w` bits
unfoldable pub checked_sub : Bool → ℕ → ℕ → ℕ → Option ℕ
checked_sub debug w a b =
    if ltb a b then (if debug then none else some (a + 2 ^ w - b)) else some (a - b)

pub checked_exact : (w n : ℕ) {m : ℕ} → checked true w n ≡ some m → (m ≡ n) × (n < 2 ^ w)
unfolding checked
checked_exact w n h = ground arith
