-- ===== src/Helpers/Height.antt =====
-- exonum/src/helpers/types.rs: `Height`.
use exonum.Prelude.{ℕ, ◌+◌, ◌-◌, ◌≡◌, Bool, true, Option, none, some, if◌then◌else◌}
use exonum.Prelude.Eq.{◌==◌, nat_eq}
use exonum.Helpers.Word.{checked, checked_exact}

-- `Height::next`, and the new value of `Height::increment`
unfoldable pub next : Bool → ℕ → Option ℕ
next debug h = checked debug 64 (h + 1)

-- `Height::previous`; it asserts that the height is not 0 in every build
unfoldable pub previous : ℕ → Option ℕ
previous h = if h == 0 then none else some (h - 1)

pub next_exact : (h : ℕ) {n : ℕ} → next true h ≡ some n → n ≡ h + 1
unfolding next
next_exact h e = (checked_exact 64 (h + 1) e).0
