-- ===== src/Helpers/Bits.antt =====
-- `BitVec` of the `bit-vec` library, as a list: counting the bits that are set.
use exonum.Prelude.{
  ℕ, zero, suc, ◌+◌, ◌≤◌, ◌<◌, ◌≡◌, refl, ap, Bool, true, false, ◌&&◌, some, List, [], ◌∷◌, arith,
  length, get_elem?, set, replicate,
}

-- the number of bits that are set
abbrev pub count_ones : List Bool → ℕ
count_ones [] = 0
count_ones (true ∷ bits) = suc (count_ones bits)
count_ones (false ∷ bits) = count_ones bits

-- the bits set in both
abbrev pub both : List Bool → List Bool → List Bool
both (x ∷ xs) (y ∷ ys) = (x && y) ∷ both xs ys
both _ _ = []

pub count_ones-le-length : (bits : List Bool) → count_ones bits ≤ length bits
count_ones-le-length [] = omega arith
count_ones-le-length (true ∷ bits) = omega (arith, count_ones-le-length bits)
count_ones-le-length (false ∷ bits) = omega (arith, count_ones-le-length bits)

-- two sets out of `n` overlap in at least what they count beyond `n`
pub overlap :
    (xs ys : List Bool)
    → length xs ≡ length ys
    → count_ones xs + count_ones ys ≤ length xs + count_ones (both xs ys)
overlap [] [] h = omega arith
overlap [] (y ∷ ys) h = omega arith
overlap (x ∷ xs) [] h = absurd (omega arith)
overlap (true ∷ xs) (true ∷ ys) h = omega (arith, overlap xs ys (omega arith))
overlap (true ∷ xs) (false ∷ ys) h = omega (arith, overlap xs ys (omega arith))
overlap (false ∷ xs) (true ∷ ys) h = omega (arith, overlap xs ys (omega arith))
overlap (false ∷ xs) (false ∷ ys) h = omega (arith, overlap xs ys (omega arith))

pub length-both : (xs ys : List Bool) → length xs ≡ length ys → length (both xs ys) ≡ length xs
length-both [] [] h = refl
length-both [] (y ∷ ys) h = omega arith
length-both (x ∷ xs) [] h = absurd (omega arith)
length-both (x ∷ xs) (y ∷ ys) h = omega (arith, length-both xs ys (omega arith))

pub both_member :
    (xs ys : List Bool) (i : ℕ)
    → get_elem? (both xs ys) i ≡ some true
    → (get_elem? xs i ≡ some true) × (get_elem? ys i ≡ some true)
both_member [] ys i h = ground arith
both_member (x ∷ xs) [] i h = ground arith
both_member (x ∷ xs) (y ∷ ys) zero h = ground arith
both_member (x ∷ xs) (y ∷ ys) (suc i) h = both_member xs ys i h

-- a larger set of bits has a bit that the smaller one lacks
pub count_ones-lt_member :
    (xs ys : List Bool)
    → length xs ≡ length ys
    → count_ones ys < count_ones xs
    → (i : ℕ) × (get_elem? xs i ≡ some true) × (get_elem? ys i ≡ some false)
count_ones-lt_member [] ys e h = absurd (omega arith)
count_ones-lt_member (x ∷ xs) [] e h = absurd (omega arith)
count_ones-lt_member (true ∷ xs) (false ∷ ys) e h = (0, refl, refl)
count_ones-lt_member (true ∷ xs) (true ∷ ys) e h =
    let (i, p, q) = count_ones-lt_member xs ys (omega arith) (omega arith) in (suc i, p, q)
count_ones-lt_member (false ∷ xs) (true ∷ ys) e h =
    let (i, p, q) = count_ones-lt_member xs ys (omega arith) (omega arith) in (suc i, p, q)
count_ones-lt_member (false ∷ xs) (false ∷ ys) e h =
    let (i, p, q) = count_ones-lt_member xs ys (omega arith) (omega arith) in (suc i, p, q)

pub count_ones-replicate : (n : ℕ) → count_ones (replicate n false) ≡ 0
count_ones-replicate zero = refl
count_ones-replicate (suc n) = count_ones-replicate n

pub count_ones-set :
    (bits : List Bool) (i : ℕ)
    → get_elem? bits i ≡ some false
    → count_ones (set bits i true) ≡ count_ones bits + 1
count_ones-set [] i h = ground arith
count_ones-set (x ∷ bits) zero h = ground arith
count_ones-set (true ∷ bits) (suc i) h = omega (arith, count_ones-set bits i h)
count_ones-set (false ∷ bits) (suc i) h = count_ones-set bits i h

pub get_elem?-set-true :
    (bits : List Bool) (i j : ℕ)
    → get_elem? bits j ≡ some true
    → get_elem? (set bits i true) j ≡ some true
get_elem?-set-true [] i j h = h
get_elem?-set-true (x ∷ bits) zero zero h = refl
get_elem?-set-true (x ∷ bits) zero (suc j) h = h
get_elem?-set-true (x ∷ bits) (suc i) zero h = h
get_elem?-set-true (x ∷ bits) (suc i) (suc j) h = get_elem?-set-true bits i j h

pub get_elem?-set_self :
    (bits : List Bool) (i : ℕ) {b : Bool}
    → get_elem? bits i ≡ some b
    → get_elem? (set bits i true) i ≡ some true
get_elem?-set_self [] i h = ground arith
get_elem?-set_self (x ∷ bits) zero h = refl
get_elem?-set_self (x ∷ bits) (suc i) h = get_elem?-set_self bits i h

pub get_elem?-set_other :
    {A : Type 0} (xs : List A) (i j : ℕ) (v : A)
    → ¬ i ≡ j
    → get_elem? (set xs i v) j ≡ get_elem? xs j
get_elem?-set_other [] i j v h = refl
get_elem?-set_other (x ∷ xs) zero zero v h = absurd (h refl)
get_elem?-set_other (x ∷ xs) zero (suc j) v h = refl
get_elem?-set_other (x ∷ xs) (suc i) zero v h = refl
get_elem?-set_other (x ∷ xs) (suc i) (suc j) v h = get_elem?-set_other xs i j v (λ e. h (ap suc e))

pub get_elem?-replicate :
    {A : Type 0} (n : ℕ) (v : A) (i : ℕ) → i < n → get_elem? (replicate n v) i ≡ some v
get_elem?-replicate zero v i h = absurd (omega arith)
get_elem?-replicate (suc n) v zero h = refl
get_elem?-replicate (suc n) v (suc i) h = get_elem?-replicate n v i (omega arith)
