-- ===== src/Prelude/Panic.antt =====
-- Code that may panic, as an `Option` whose `none` is the panic.
use mathlib.Core.Path.{◌≡◌, refl, subst}
use mathlib.Core.Bool.{Bool, true, false}
use mathlib.Core.Option.{Option, none, some, some-injective}

infixl 5 ◌>>=◌ ◌>>◌
abbrev pub ◌>>=◌ {ℓ κ} : {A : Type ℓ} {B : Type κ} → Option A → (A → Option B) → Option B
none >>= f = none
some a >>= f = f a

abbrev pub ◌>>◌ {ℓ} : {B : Type ℓ} → Option (Unit {0}) → Option B → Option B
m >> k = m >>= λ _. k

-- `assert!`
abbrev pub assert : Bool → Option (Unit {0})
assert true = some tt
assert false = none

-- `debug_assert!`, which only a build with debug assertions checks
abbrev pub debug_assert : Bool → Bool → Option (Unit {0})
debug_assert true b = assert b
debug_assert false b = some tt

pub >>=-eq-some {ℓ κ} :
    {A : Type ℓ} {B : Type κ} (m : Option A) (f : A → Option B) {b : B}
    → (m >>= f) ≡ some b
    → (a : A) × (m ≡ some a) × (f a ≡ some b)
>>=-eq-some none f h = cc
>>=-eq-some (some a) f h = (a, refl, h)

-- `P` of the result, where the code does not panic
abbrev pub Returns {ℓ κ} : {A : Type ℓ} → (A → Type κ) → Option A → Type κ
Returns P none = Unit
Returns P (some a) = P a

pub Returns-bind {ℓ κ μ} :
    {A : Type ℓ} {B : Type κ} (Q : B → Type μ) (m : Option A) (f : A → Option B)
    → ((a : A) → m ≡ some a → Returns Q (f a))
    → Returns Q (m >>= f)
Returns-bind Q none f k = tt
Returns-bind Q (some a) f k = k a refl

module _ {ℓ κ} {A : Type ℓ} (P : A → Type κ) where
  pub Returns-intro : (m : Option A) → ((a : A) → m ≡ some a → P a) → Returns P m
  Returns-intro none h = tt
  Returns-intro (some a) h = h a refl

  pub Returns-apply : (m : Option A) {a : A} → Returns P m → m ≡ some a → P a
  Returns-apply none h e = cc
  Returns-apply (some a) h e = subst P (some-injective _ _ e) h
