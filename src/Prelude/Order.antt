-- ===== src/Prelude/Order.antt =====
-- Total orders as an interface (Rust's `Ord`), and the order of strings of bytes.
use Prim.Native.Nat.{ℕ, compare, Ordering}
use mathlib.Core.Path.{◌≡◌, refl}
use mathlib.Core.Logic.{◌⊎◌, inl, inr}
use mathlib.Core.Bool.{Bool, true, false}
use mathlib.Core.List.{List, [], ◌∷◌}
use native.Mathlib.Omega.{arith}
use exonum.Prelude.Eq.{◌==◌, list_eq, nat_eq, list_beq_iff}

abbrev pub is_eq : Ordering → Bool
is_eq Ordering.lt = false
is_eq Ordering.eq = true
is_eq Ordering.gt = false

abbrev pub is_lt : Ordering → Bool
is_lt Ordering.lt = true
is_lt Ordering.eq = false
is_lt Ordering.gt = false

abbrev pub reversed : Ordering → Ordering
reversed Ordering.lt = Ordering.gt
reversed Ordering.eq = Ordering.eq
reversed Ordering.gt = Ordering.lt

pub record Order {ℓ} (A : Type ℓ) : Type ℓ where
  pub cmp : A → A → Ordering
  pub eq_of_cmp : (a b : A) → cmp a b ≡ Ordering.eq → a ≡ b
  pub cmp_refl : (a : A) → cmp a a ≡ Ordering.eq
  pub cmp_flip : (a b : A) → cmp b a ≡ reversed (cmp a b)
  pub lt_trans : (a b c : A) → cmp a b ≡ Ordering.lt → cmp b c ≡ Ordering.lt → cmp a c ≡ Ordering.lt

module _ {ℓ} {A : Type ℓ} ⦃o : Order A⦄ where
  pub flip_gt : (a b : A) → o.cmp a b ≡ Ordering.gt → o.cmp b a ≡ Ordering.lt
  flip_gt a b e = rw (o.cmp_flip a b, e) refl

pub Ordering-cases : (o : Ordering) → (o ≡ Ordering.lt) ⊎ (o ≡ Ordering.eq) ⊎ (o ≡ Ordering.gt)
Ordering-cases Ordering.lt = inl refl
Ordering-cases Ordering.eq = inr (inl refl)
Ordering-cases Ordering.gt = inr (inr refl)

-- the order of `Vec<u8>`: by the first byte that differs, and a prefix comes first
then_cmp : Ordering → Ordering → Ordering
then_cmp Ordering.lt rest = Ordering.lt
then_cmp Ordering.eq rest = rest
then_cmp Ordering.gt rest = Ordering.gt

unfoldable pub bytes_cmp : List ℕ → List ℕ → Ordering
unfolding then_cmp
bytes_cmp [] [] = Ordering.eq
bytes_cmp [] (y ∷ ys) = Ordering.lt
bytes_cmp (x ∷ xs) [] = Ordering.gt
bytes_cmp (x ∷ xs) (y ∷ ys) = then_cmp (compare x y) (bytes_cmp xs ys)

pub bytes-eq_of_cmp : (a b : List ℕ) → bytes_cmp a b ≡ Ordering.eq → a ≡ b
unfolding bytes_cmp
bytes-eq_of_cmp [] [] h = refl
bytes-eq_of_cmp [] (y ∷ ys) h = absurd (ground arith)
bytes-eq_of_cmp (x ∷ xs) [] h = absurd (ground arith)
bytes-eq_of_cmp (x ∷ xs) (y ∷ ys) h = ground (arith, bytes-eq_of_cmp xs ys)

pub bytes-cmp_refl : (a : List ℕ) → bytes_cmp a a ≡ Ordering.eq
unfolding bytes_cmp
bytes-cmp_refl [] = refl
bytes-cmp_refl (x ∷ xs) = ground (arith, bytes-cmp_refl xs)

pub bytes-cmp_flip : (a b : List ℕ) → bytes_cmp b a ≡ reversed (bytes_cmp a b)
unfolding bytes_cmp
bytes-cmp_flip [] [] = refl
bytes-cmp_flip [] (y ∷ ys) = refl
bytes-cmp_flip (x ∷ xs) [] = refl
bytes-cmp_flip (x ∷ xs) (y ∷ ys) = ground (arith, bytes-cmp_flip xs ys)

pub bytes-lt_trans :
    (a b c : List ℕ)
    → bytes_cmp a b ≡ Ordering.lt
    → bytes_cmp b c ≡ Ordering.lt
    → bytes_cmp a c ≡ Ordering.lt
unfolding bytes_cmp
bytes-lt_trans [] [] c h k = k
bytes-lt_trans [] (y ∷ ys) [] h k = absurd (ground arith)
bytes-lt_trans [] (y ∷ ys) (z ∷ zs) h k = refl
bytes-lt_trans (x ∷ xs) [] c h k = absurd (ground arith)
bytes-lt_trans (x ∷ xs) (y ∷ ys) [] h k = absurd (ground arith)
bytes-lt_trans (x ∷ xs) (y ∷ ys) (z ∷ zs) h k = ground (arith, bytes-lt_trans xs ys zs)

instance abbrev pub bytes_order : Order (List ℕ)
bytes_order = record {
  cmp = bytes_cmp;
  eq_of_cmp = bytes-eq_of_cmp;
  cmp_refl = bytes-cmp_refl;
  cmp_flip = bytes-cmp_flip;
  lt_trans = bytes-lt_trans;
}

pub is_eq-bytes_cmp : (a b : List ℕ) → is_eq (bytes_cmp a b) ≡ (a == b)
is_eq-bytes_cmp a b =
    ground (arith, bytes-eq_of_cmp a b, bytes-cmp_refl a, bytes-cmp_refl b, list_beq_iff a b)
