-- ===== src/Helpers/Quorum.antt =====
-- exonum/src/helpers/mod.rs: what makes `byzantine_quorum` a quorum.
use exonum.Prelude.{
  ℕ, ◌+◌, ◌-◌, ◌*◌, ◌/◌, ◌≤◌, ◌<◌, ◌≡◌, Bool, true, false, some, List, arith, length, get_elem?,
}
use exonum.Helpers.Bits.{count_ones, both, overlap, both_member, length-both, count_ones-lt_member}

-- `byzantine_quorum`; the product of a count of validators (an id is a `u16`) is far below 2 ^ 64
unfoldable pub byzantine_quorum : ℕ → ℕ
byzantine_quorum total = total * 2 / 3 + 1

-- Two quorums of one set of validators share more validators than can be Byzantine, at most
-- (n - 1) / 3, so they share one that is honest.
pub quorum_overlap :
    (xs ys : List Bool)
    → length xs ≡ length ys
    → 0 < length xs
    → byzantine_quorum (length xs) ≤ count_ones xs
    → byzantine_quorum (length xs) ≤ count_ones ys
    → (length xs - 1) / 3 < count_ones (both xs ys)
unfolding byzantine_quorum
quorum_overlap xs ys e pos ha hb = omega (arith, overlap xs ys e)

-- If at most (n - 1) / 3 validators are faulty, two quorums share one that is not.
pub quorums_share_honest :
    (xs ys faulty : List Bool)
    → length xs ≡ length ys
    → length xs ≡ length faulty
    → 0 < length xs
    → byzantine_quorum (length xs) ≤ count_ones xs
    → byzantine_quorum (length xs) ≤ count_ones ys
    → count_ones faulty ≤ (length xs - 1) / 3
    → (i : ℕ) × (get_elem? xs i ≡ some true)
      × (get_elem? ys i ≡ some true)
      × (get_elem? faulty i ≡ some false)
quorums_share_honest xs ys faulty e f pos ha hb few =
    let (i, shared, honest) =
      count_ones-lt_member (both xs ys) faulty (omega (arith, length-both xs ys e))
        (omega (arith, quorum_overlap xs ys e pos ha hb)) in
    let (left, right) = both_member xs ys i shared in (i, left, right, honest)

-- A quorum is never more than the validators, and the honest validators alone, all but
-- (n - 1) / 3, reach it.
pub quorum_reachable :
    (n : ℕ) → 0 < n → (byzantine_quorum n ≤ n) × (byzantine_quorum n ≤ n - (n - 1) / 3)
unfolding byzantine_quorum
quorum_reachable n pos = omega arith
