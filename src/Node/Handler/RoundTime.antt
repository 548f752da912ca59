-- ===== src/Node/Handler/RoundTime.antt =====
-- exonum-node/src/lib.rs: `round_start_time`, when a round of an epoch starts. Products and sums
-- of milliseconds are `u64`.
pub mod Lengthening
use exonum.Prelude.{ℕ, ◌+◌, ◌-◌, ◌*◌, ◌/◌, Bool, Option, some}
use exonum.Prelude.Panic.{◌>>=◌}
use exonum.Helpers.Word.{checked}
use exonum.Helpers.Round

-- `NodeHandler::round_timeout_increase`: a tenth of the first timeout
unfoldable pub round_timeout_increase : Bool → ℕ → Option ℕ
unfolding checked
round_timeout_increase debug first = do p ← checked debug 64 (first * 10); some (p / 100)

-- the milliseconds from the start of the epoch, from the number of the rounds before; the
-- subtraction saturates
unfoldable pub offset : Bool → ℕ → ℕ → Option ℕ
unfolding round_timeout_increase
offset debug first previous = do
  linear ← checked debug 64 (previous * first)
  product ← checked debug 64 (previous * (previous - 1))
  increase ← round_timeout_increase debug first
  growth ← checked debug 64 (product / 2 * increase)
  checked debug 64 (linear + growth)

-- `NodeHandler::round_start_time`, after the start of the epoch
unfoldable pub round_offset : Bool → ℕ → ℕ → Option ℕ
unfolding offset Round.previous
round_offset debug first round = do previous ← Round.previous round; offset debug first previous
