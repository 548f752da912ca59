-- ===== src/Merkledb/ListIndex/Listing.antt =====
-- Lists by their elements: one more element, one less, and another one in a place.
use exonum.Prelude.{
  ℕ, zero, suc, ◌≡◌, ◌<◌, ◌≤◌, refl, ap, none, some, List, [], ◌∷◌, ◌++◌, length, get_elem?, arith,
  if◌then◌else◌,
}
use exonum.Prelude.Eq.{◌==◌, nat_eq}
use exonum.Merkledb.Changes.{Bytes}

-- a list without its last element
unfoldable pub init : List Bytes → List Bytes
init [] = []
init (x ∷ []) = []
init (x ∷ y ∷ ys) = x ∷ init (y ∷ ys)

-- a list with another element at an index
unfoldable pub update : List Bytes → ℕ → Bytes → List Bytes
update [] i v = []
update (x ∷ xs) zero v = v ∷ xs
update (x ∷ xs) (suc i) v = x ∷ update xs i v

pub get_elem?-append_one :
    (xs : List Bytes) (v : Bytes) (i : ℕ)
    → get_elem? (xs ++ v ∷ []) i ≡ (if length xs == i then some v else get_elem? xs i)
get_elem?-append_one [] v zero = ground arith
get_elem?-append_one [] v (suc i) = ground arith
get_elem?-append_one (x ∷ xs) v zero = ground arith
get_elem?-append_one (x ∷ xs) v (suc i) = ground (arith, get_elem?-append_one xs v i)

pub get_elem?-init :
    (xs : List Bytes) (n i : ℕ)
    → length xs ≡ suc n
    → get_elem? (init xs) i ≡ (if n == i then none else get_elem? xs i)
unfolding init
get_elem?-init [] n i e = absurd (omega (arith, e))
get_elem?-init (x ∷ []) n zero e = ground (arith, e)
get_elem?-init (x ∷ []) n (suc i) e = ground (arith, e)
get_elem?-init (x ∷ y ∷ ys) n zero e = ground (arith, e)
get_elem?-init (x ∷ y ∷ ys) zero (suc i) e = absurd (omega (arith, e))
get_elem?-init (x ∷ y ∷ ys) (suc n) (suc i) e =
    ground (arith, get_elem?-init (y ∷ ys) n i (omega (arith, e)))

pub get_elem?-update :
    (xs : List Bytes) (k : ℕ) (v : Bytes) (i : ℕ)
    → k < length xs
    → get_elem? (update xs k v) i ≡ (if k == i then some v else get_elem? xs i)
unfolding update
get_elem?-update [] k v i l = absurd (omega (arith, l))
get_elem?-update (x ∷ xs) zero v zero l = ground arith
get_elem?-update (x ∷ xs) zero v (suc i) l = ground arith
get_elem?-update (x ∷ xs) (suc k) v zero l = ground arith
get_elem?-update (x ∷ xs) (suc k) v (suc i) l =
    ground (arith, get_elem?-update xs k v i (omega (arith, l)))

pub length-init : (xs : List Bytes) (n : ℕ) → length xs ≡ suc n → length (init xs) ≡ n
unfolding init
length-init [] n e = absurd (omega (arith, e))
length-init (x ∷ []) n e = omega (arith, e)
length-init (x ∷ y ∷ ys) zero e = absurd (omega (arith, e))
length-init (x ∷ y ∷ ys) (suc n) e = omega (arith, length-init (y ∷ ys) n (omega (arith, e)))

pub length-update : (xs : List Bytes) (k : ℕ) (v : Bytes) → length (update xs k v) ≡ length xs
unfolding update
length-update [] k v = refl
length-update (x ∷ xs) zero v = refl
length-update (x ∷ xs) (suc k) v = ap suc (length-update xs k v)

-- the first elements of a list
unfoldable pub take : ℕ → List Bytes → List Bytes
take zero xs = []
take (suc n) [] = []
take (suc n) (x ∷ xs) = x ∷ take n xs

pub take-init : (n : ℕ) (xs : List Bytes) → n < length xs → take n (init xs) ≡ take n xs
unfolding take init
take-init zero xs l = refl
take-init (suc n) [] l = absurd (omega (arith, l))
take-init (suc n) (x ∷ []) l = absurd (omega (arith, l))
take-init (suc n) (x ∷ y ∷ ys) l = ap (◌∷◌ x) (take-init n (y ∷ ys) (omega (arith, l)))

pub take-all : (n : ℕ) (xs : List Bytes) → length xs ≤ n → take n xs ≡ xs
unfolding take
take-all zero [] l = refl
take-all zero (x ∷ xs) l = absurd (omega (arith, l))
take-all (suc n) [] l = refl
take-all (suc n) (x ∷ xs) l = ap (◌∷◌ x) (take-all n xs (omega (arith, l)))
