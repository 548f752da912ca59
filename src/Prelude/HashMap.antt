-- ===== src/Prelude/HashMap.antt =====
-- `HashMap`, as a list of entries with a test on keys. Rust leaves the order of iteration open;
-- here a new key stands at the head.
use mathlib.Core.Path.{◌≡◌, refl, subst}
use mathlib.Core.Bool.{Bool, true, false}
use mathlib.Core.List.{List, [], ◌∷◌}
use mathlib.Core.Option.{Option, none, some, some-injective}
use mathlib.Core.Logic.{◌⊎◌, inl, inr}
use native.Mathlib.Omega.{arith}
use exonum.Prelude.Lists.{All}
use exonum.Prelude.Tests.{if◌then◌else◌, Bool-cases}
use exonum.Prelude.Eq.{Eq, ◌==◌}

abbrev pub HashMap {ℓ κ} : Type ℓ → Type κ → Type (ℓ ⊔ κ)
HashMap K V = List (K × V)

module _ {ℓ κ} {K : Type ℓ} {V : Type κ} ⦃e : Eq K⦄ where
  unfoldable pub get : HashMap K V → K → Option V
  get [] k = none
  get ((j, v) ∷ m) k = if j == k then some v else get m k

  -- the entry of the key is replaced in its place
  unfoldable pub insert : HashMap K V → K → V → HashMap K V
  insert [] k v = (k, v) ∷ []
  insert ((j, w) ∷ m) k v = let rest = insert m k v in if j == k then (k, v) ∷ m else (j, w) ∷ rest

  unfoldable pub remove : HashMap K V → K → HashMap K V
  remove [] k = []
  remove ((j, v) ∷ m) k = let rest = remove m k in if j == k then rest else (j, v) ∷ rest

  abbrev pub contains_key : HashMap K V → K → Bool
  contains_key m k = elim (get m k) [ none ↦ false | some _ ↦ true ]

  pub get-insert :
      (m : HashMap K V) (k : K) (v : V) (j : K)
      → get (insert m k v) j ≡ (if k == j then some v else get m j)
  unfolding get insert
  get-insert [] k v j = refl
  get-insert ((i, w) ∷ m) k v j =
      ground (arith, get-insert m k v j, e.beq_iff i k, e.beq_iff i j, e.beq_iff k j)

  -- what a map has after an insertion
  pub insert-cases :
      (m : HashMap K V) (k : K) (v : V) (j : K) (u : V)
      → get (insert m k v) j ≡ some u
      → (v ≡ u) ⊎ (get m j ≡ some u)
  insert-cases m k v j u h = ground (arith, get-insert m k v j)

  pub get-insert_same : (m : HashMap K V) (k : K) (v : V) → get (insert m k v) k ≡ some v
  get-insert_same m k v = ground (arith, get-insert m k v k, e.beq_iff k k)

  pub get-insert_other :
      (m : HashMap K V) (k : K) (v : V) (j : K) → (k == j) ≡ false → get (insert m k v) j ≡ get m j
  get-insert_other m k v j h = ground (arith, get-insert m k v j)

  pub get-remove :
      (m : HashMap K V) (k j : K) → get (remove m k) j ≡ (if k == j then none else get m j)
  unfolding get remove
  get-remove [] k j = ground arith
  get-remove ((i, w) ∷ m) k j =
      ground (arith, get-remove m k j, e.beq_iff i k, e.beq_iff i j, e.beq_iff k j)

  pub get-nil : (k : K) → get [] k ≡ none
  unfolding get
  get-nil k = refl

  -- the later of two insertions of a key stays
  pub insert-insert : (m : HashMap K V) (k : K) (u v : V) → insert (insert m k u) k v ≡ insert m k v
  unfolding insert
  insert-insert [] k u v = ground (arith, e.beq_iff k k)
  insert-insert ((j, w) ∷ m) k u v = ground (arith, insert-insert m k u v, e.beq_iff k k)

  -- no entry has the key
  abbrev pub Fresh : K → HashMap K V → Type 0
  Fresh k m = All (λ x. (k == x.0) ≡ false) m

  -- every key has one entry
  abbrev pub Distinct : HashMap K V → Type 0
  Distinct [] = Unit
  Distinct ((k, v) ∷ m) = Fresh k m × Distinct m

  pub get-Fresh : (m : HashMap K V) (k : K) → Fresh k m → get m k ≡ none
  unfolding get
  get-Fresh [] k f = refl
  get-Fresh ((j, w) ∷ m) k f = ground (arith, get-Fresh m k f.1, e.beq_iff k j, e.beq_iff j k)

  Fresh-insert :
      (m : HashMap K V) (i k : K) (v : V) → (i == k) ≡ false → Fresh i m → Fresh i (insert m k v)
  unfolding insert
  Fresh-insert [] i k v h f = (h, tt)
  Fresh-insert ((j, w) ∷ m) i k v h f = ground (arith, Fresh-insert m i k v h)

  pub insert-Distinct : (m : HashMap K V) (k : K) (v : V) → Distinct m → Distinct (insert m k v)
  unfolding insert
  insert-Distinct [] k v d = (tt, tt)
  insert-Distinct ((j, w) ∷ m) k v d =
      ground (arith, insert-Distinct m k v, Fresh-insert m j k v, e.beq_iff j k, e.beq_iff k j)

  -- what every entry satisfies
  pub All-insert {μ} :
      (P : K × V → Type μ) (m : HashMap K V) (k : K) (v : V)
      → All P m
      → P (k, v)
      → All P (insert m k v)
  unfolding insert
  All-insert P [] k v a p = (p, tt)
  All-insert P ((j, w) ∷ m) k v a p = ground (arith, All-insert P m k v a.1 p)

  pub All-get {μ} :
      (P : V → Type μ) (m : HashMap K V) (k : K) (v : V)
      → All (λ x. P x.1) m
      → get m k ≡ some v
      → P v
  unfolding get
  All-get P [] k v a h = cc
  All-get P ((j, w) ∷ m) k v a h = elim (Bool-cases (j == k)) [
    | inl t ↦ subst P (some-injective _ _ (rw t at h)) a.0
    | inr f ↦ All-get P m k v a.1 (rw f at h)
  ]
