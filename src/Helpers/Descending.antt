-- ===== src/Helpers/Descending.antt =====
-- Rust's sorting by `Reverse`: lists from the highest number to the lowest, and how many numbers of a
-- list are not below or not above one of them.
use mathlib.Core.Option.{some-injective}
use exonum.Prelude.{
  ℕ, zero, suc, ◌+◌, ◌-◌, ◌≤◌, ◌<◌, ◌≡◌, refl, ap, subst, ◌∙◌, some, List, [], ◌∷◌, arith, length,
  get_elem?, leb, All, All-map, Bool-cases, inl, inr, if◌then◌else◌,
}

unfoldable pub insert_desc : ℕ → List ℕ → List ℕ
insert_desc r [] = r ∷ []
insert_desc r (x ∷ xs) = let rest = insert_desc r xs in if leb x r then r ∷ x ∷ xs else x ∷ rest

-- `sort_unstable_by_key(|&r| Reverse(r))`
unfoldable pub sort_desc : List ℕ → List ℕ
unfolding insert_desc
sort_desc [] = []
sort_desc (x ∷ xs) = insert_desc x (sort_desc xs)

-- how many numbers are at least `r`
pub count_ge : ℕ → List ℕ → ℕ
count_ge r [] = 0
count_ge r (x ∷ xs) = (if leb r x then 1 else 0) + count_ge r xs

pub Descending : List ℕ → Type 0
Descending [] = Unit
Descending (x ∷ xs) = All (λ y. y ≤ x) xs × Descending xs

All-insert_desc : (P : ℕ → Type 0) (x : ℕ) (xs : List ℕ) → P x → All P xs → All P (insert_desc x xs)
unfolding insert_desc
All-insert_desc P x [] px h = (px, tt)
All-insert_desc P x (y ∷ ys) px h = elim (Bool-cases (leb y x)) [
  | inl e ↦ rw e (px, h)
  | inr e ↦ rw e (h.0, All-insert_desc P x ys px h.1)
]

insert_desc-Descending : (x : ℕ) (xs : List ℕ) → Descending xs → Descending (insert_desc x xs)
unfolding insert_desc Descending
insert_desc-Descending x [] h = (tt, tt)
insert_desc-Descending x (y ∷ ys) h = elim (Bool-cases (leb y x)) [
  | inl e ↦ rw e ((ground arith, All-map (λ z. z ≤ y) (λ z. z ≤ x) ys (λ z k. ground arith) h.0), h)
  | inr e ↦
      rw e (All-insert_desc (λ z. z ≤ y) x ys (ground arith) h.0, insert_desc-Descending x ys h.1)
]

pub sort_desc-Descending : (xs : List ℕ) → Descending (sort_desc xs)
unfolding sort_desc Descending
sort_desc-Descending [] = tt
sort_desc-Descending (x ∷ xs) = insert_desc-Descending x (sort_desc xs) (sort_desc-Descending xs)

count_ge-insert_desc : (r x : ℕ) (xs : List ℕ) → count_ge r (insert_desc x xs) ≡ count_ge r (x ∷ xs)
unfolding insert_desc count_ge
count_ge-insert_desc r x [] = refl
count_ge-insert_desc r x (y ∷ ys) = elim (Bool-cases (leb y x)) [
  | inl e ↦ rw e refl
  | inr e ↦ rw e (omega (arith, count_ge-insert_desc r x ys))
]

pub count_ge-sort_desc : (r : ℕ) (xs : List ℕ) → count_ge r (sort_desc xs) ≡ count_ge r xs
unfolding sort_desc count_ge
count_ge-sort_desc r [] = refl
count_ge-sort_desc r (x ∷ xs) =
    count_ge-insert_desc r x (sort_desc xs)
    ∙ ap (λ k. (if leb r x then 1 else 0) + k) (count_ge-sort_desc r xs)

All-get : (P : ℕ → Type 0) (xs : List ℕ) (i : ℕ) {v : ℕ} → All P xs → get_elem? xs i ≡ some v → P v
All-get P [] i h e = ground arith
All-get P (x ∷ xs) zero h e = subst P (some-injective _ _ e) h.0
All-get P (x ∷ xs) (suc i) h e = All-get P xs i h.1 e

-- the item at place `i` and the ones before it are at least the item
pub count_ge-get :
    (xs : List ℕ) (i : ℕ) {r : ℕ} → Descending xs → get_elem? xs i ≡ some r → i < count_ge r xs
unfolding Descending count_ge
count_ge-get [] i h e = ground arith
count_ge-get (x ∷ xs) zero h e = ground arith
count_ge-get (x ∷ xs) (suc i) {r} h e =
    ground (arith, count_ge-get xs i h.1 e, All-get (λ y. y ≤ x) xs i h.0 e)

-- how many numbers are at most `r`
pub count_le : ℕ → List ℕ → ℕ
count_le r [] = 0
count_le r (x ∷ xs) = (if leb x r then 1 else 0) + count_le r xs

count_le-insert_desc : (r x : ℕ) (xs : List ℕ) → count_le r (insert_desc x xs) ≡ count_le r (x ∷ xs)
unfolding insert_desc count_le
count_le-insert_desc r x [] = refl
count_le-insert_desc r x (y ∷ ys) = elim (Bool-cases (leb y x)) [
  | inl e ↦ rw e refl
  | inr e ↦ rw e (omega (arith, count_le-insert_desc r x ys))
]

pub count_le-sort_desc : (r : ℕ) (xs : List ℕ) → count_le r (sort_desc xs) ≡ count_le r xs
unfolding sort_desc count_le
count_le-sort_desc r [] = refl
count_le-sort_desc r (x ∷ xs) =
    count_le-insert_desc r x (sort_desc xs)
    ∙ ap (λ k. (if leb x r then 1 else 0) + k) (count_le-sort_desc r xs)

count_le-All : (r : ℕ) (xs : List ℕ) → All (λ y. y ≤ r) xs → count_le r xs ≡ length xs
unfolding count_le
count_le-All r [] h = refl
count_le-All r (x ∷ xs) h = ground (arith, count_le-All r xs h.1, h.0)

-- the item at place `i` and the ones after it are at most the item
pub count_le-get :
    (xs : List ℕ) (i : ℕ) {r : ℕ}
    → Descending xs
    → get_elem? xs i ≡ some r
    → length xs - i ≤ count_le r xs
unfolding Descending count_le
count_le-get [] i h e = ground arith
count_le-get (x ∷ xs) zero {r} h e = ground (arith, count_le-All x xs h.0)
count_le-get (x ∷ xs) (suc i) {r} h e = ground (arith, count_le-get xs i h.1 e)

length-insert_desc : (x : ℕ) (xs : List ℕ) → length (insert_desc x xs) ≡ suc (length xs)
unfolding insert_desc
length-insert_desc x [] = refl
length-insert_desc x (y ∷ ys) = elim (Bool-cases (leb y x)) [
  | inl e ↦ rw e refl
  | inr e ↦ rw e (ap suc (length-insert_desc x ys))
]

pub length-sort_desc : (xs : List ℕ) → length (sort_desc xs) ≡ length xs
unfolding sort_desc
length-sort_desc [] = refl
length-sort_desc (x ∷ xs) = length-insert_desc x (sort_desc xs) ∙ ap suc (length-sort_desc xs)
