-- ===== src/Merkledb/Fork/Borrow.antt =====
-- components/merkledb/src/db.rs: the views that are open on a fork. Views open and drop in any order,
-- and the cells of the working patch keep count of them.
pub mod Exclusive
use exonum.Prelude.{
  ℕ, zero, suc, ◌+◌, ◌-◌, ◌<◌, ◌≡◌, ◌⊎◌, ◌↔◌, refl, Bool, true, false, Option, none, some, List, [],
  ◌∷◌, inl, inr, arith, if◌then◌else◌, Option-cases, Bool-cases, sym, subst, ◌∙◌,
}
use exonum.Prelude.Eq.{◌==◌, nat_eq}
use exonum.Prelude.HashMap.{get-insert}
use exonum.Prelude.HashMap
use exonum.Merkledb.Changes.{ViewChanges}
use exonum.Merkledb.Patch.{ResolvedAddress, address_eq, address_beq_iff}
use exonum.Merkledb.Fork.{
  Shared, ChangesCell, WorkingPatch, cell_of, take_cell, clone_cell, drop_reader, take_view_changes,
  clone_view_changes, drop_changes_mut, drop_changes_ref,
}

-- how many views of each index are open
abbrev pub Count : Type 0
Count = ResolvedAddress → ℕ

abbrev pub bump : Count → ResolvedAddress → Count
bump f a = λ b. if a == b then f b + 1 else f b

abbrev pub dip : Count → ResolvedAddress → Count
dip f a = λ b. if a == b then f b - 1 else f b

-- the states of a working patch, with the views that are open for writing and for reading: views open
-- where the code does not panic, and only open views are dropped
pub data Held (debug : Bool) : WorkingPatch → Count → Count → Type 0 where
  start : Held debug [] (λ a. 0) (λ a. 0)
  open_mut :
      {w w' : WorkingPatch} {ws rs : Count} (c : ViewChanges) (a : ResolvedAddress)
      → Held debug w ws rs
      → take_view_changes w a ≡ some (c, w')
      → Held debug w' (bump ws a) rs
  open_ref :
      {w w' : WorkingPatch} {ws rs : Count} (c : ViewChanges) (a : ResolvedAddress)
      → Held debug w ws rs
      → clone_view_changes w a ≡ some (c, w')
      → Held debug w' ws (bump rs a)
  drop_mut :
      {w w' : WorkingPatch} {ws rs : Count} (c : ViewChanges) (a : ResolvedAddress)
      → Held debug w ws rs
      → 0 < ws a
      → drop_changes_mut debug w a c ≡ some w'
      → Held debug w' (dip ws a) rs
  drop_ref :
      {w w' : WorkingPatch} {ws rs : Count} (a : ResolvedAddress)
      → Held debug w ws rs
      → 0 < rs a
      → drop_changes_ref w a ≡ some w'
      → Held debug w' ws (dip rs a)

-- a cell against the views of its index
abbrev pub Counted : ChangesCell → ℕ → ℕ → Type 0
Counted none writers readers = (writers ≡ 1) × (readers ≡ 0)
Counted (some shared) writers readers = (writers ≡ 0) × (readers ≡ shared.readers)

unfoldable pub Counts : WorkingPatch → Count → Count → Type 0
Counts w ws rs = (b : ResolvedAddress) → Counted (cell_of w b) (ws b) (rs b)

-- a cell that is written
cell_of-insert :
    (w : WorkingPatch) (a : ResolvedAddress) (cell : ChangesCell) (b : ResolvedAddress)
    → cell_of (HashMap.insert w a cell) b ≡ (if a == b then cell else cell_of w b)
cell_of-insert w a cell b = ground (arith, get-insert w a cell b)

cell_at :
    (w : WorkingPatch) (a : ResolvedAddress) (cell : ChangesCell)
    → cell_of (HashMap.insert w a cell) a ≡ cell
cell_at w a cell = ground (arith, cell_of-insert w a cell a, address_beq_iff a a)

cell_other :
    (w : WorkingPatch) (a : ResolvedAddress) (cell : ChangesCell) (b : ResolvedAddress)
    → (a == b) ≡ false
    → cell_of (HashMap.insert w a cell) b ≡ cell_of w b
cell_other w a cell b n = ground (arith, cell_of-insert w a cell b)

take-Counted :
    (w w' : WorkingPatch) (a : ResolvedAddress) (cell : ChangesCell) (c : ViewChanges) (n r : ℕ)
    → Counted cell n r
    → take_cell w a cell ≡ some (c, w')
    → (HashMap.insert w a none ≡ w') × (n ≡ 0) × (r ≡ 0)
unfolding take_cell
take-Counted w w' a none c n r k h = absurd (ground arith)
take-Counted w w' a (some shared) c n r k h = ground arith

clone-Counted :
    (w w' : WorkingPatch) (a : ResolvedAddress) (cell : ChangesCell) (c : ViewChanges) (n r : ℕ)
    → Counted cell n r
    → clone_cell w a cell ≡ some (c, w')
    → (cell' : ChangesCell) × (HashMap.insert w a cell' ≡ w') × Counted cell' n (r + 1)
unfolding clone_cell
clone-Counted w w' a none c n r k h = absurd (ground arith)
clone-Counted w w' a (some shared) c n r k h =
    (some (record shared { readers = shared.readers + 1 }), ground arith, (k.0, omega (arith, k.1)))

-- `HashMap::get_mut`, for an index with an open view
pub stored_cell :
    (w : WorkingPatch) (a : ResolvedAddress) (n r : ℕ)
    → Counted (cell_of w a) n r
    → 0 < n + r
    → HashMap.get w a ≡ some (cell_of w a)
stored_cell w a n r k h = ground arith

drop_reader-Counted :
    (cell : ChangesCell) (n r : ℕ) → Counted cell n r → 0 < r → Counted (drop_reader cell) n (r - 1)
unfolding drop_reader
drop_reader-Counted none n r k h = absurd (omega (arith, k.1, h))
drop_reader-Counted (some shared) n r k h = (k.0, omega (arith, k.1))

Counts-insert :
    (w : WorkingPatch) (a : ResolvedAddress) (cell : ChangesCell) (ws rs ws' rs' : Count)
    → Counts w ws rs
    → Counted cell (ws' a) (rs' a)
    → ((b : ResolvedAddress) → (a == b) ≡ false → (ws' b ≡ ws b) × (rs' b ≡ rs b))
    → Counts (HashMap.insert w a cell) ws' rs'
unfolding Counts
Counts-insert w a cell ws rs ws' rs' k at other b = elim (Bool-cases (a == b)) [
  | inl t ↦
      subst (λ b. Counted (cell_of (HashMap.insert w a cell) b) (ws' b) (rs' b))
        ((address_beq_iff a b).0 t)
        (subst (λ x. Counted x (ws' a) (rs' a)) (sym (cell_at w a cell)) at)
  | inr n ↦
      let (e, e') = other b n in
      rw (e, e') (subst (λ x. Counted x (ws b) (rs b)) (sym (cell_other w a cell b n)) (k b))
]

pub writer_alone :
    (cell : ChangesCell) (n r : ℕ) → Counted cell n r → 0 < n → (cell ≡ none) × (n ≡ 1) × (r ≡ 0)
writer_alone none n r k h = (refl, k.0, k.1)
writer_alone (some shared) n r k h = absurd (omega (arith, k.0, h))

dropped_mut :
    (debug : Bool) (w w' : WorkingPatch) (a : ResolvedAddress) (c : ViewChanges)
    → drop_changes_mut debug w a c ≡ some w'
    → HashMap.insert w a (some (record { changes = c; readers = 0 })) ≡ w'
unfolding drop_changes_mut
dropped_mut true w w' a c h = ground arith
dropped_mut false w w' a c h = ground arith

dropped_ref :
    (w w' : WorkingPatch) (a : ResolvedAddress)
    → drop_changes_ref w a ≡ some w'
    → HashMap.insert w a (drop_reader (cell_of w a)) ≡ w'
unfolding drop_changes_ref
dropped_ref w w' a h = ground arith

bump_at : (f : Count) (a : ResolvedAddress) → bump f a a ≡ f a + 1
bump_at f a = ground (arith, address_beq_iff a a)

dip_at : (f : Count) (a : ResolvedAddress) → dip f a a ≡ f a - 1
dip_at f a = ground (arith, address_beq_iff a a)

open_mut-Counts :
    (w w' : WorkingPatch) (ws rs : Count) (c : ViewChanges) (a : ResolvedAddress)
    → Counts w ws rs
    → take_view_changes w a ≡ some (c, w')
    → Counts w' (bump ws a) rs
unfolding Counts take_view_changes
open_mut-Counts w w' ws rs c a k e =
    let (same, n, r) = take-Counted w w' a (cell_of w a) c (ws a) (rs a) (k a) e in
    subst (λ x. Counts x (bump ws a) rs) same
      (Counts-insert w a none ws rs (bump ws a) rs k (bump_at ws a ∙ omega (arith, n), r)
        (λ b d. (rw d refl, refl)))

open_ref-Counts :
    (w w' : WorkingPatch) (ws rs : Count) (c : ViewChanges) (a : ResolvedAddress)
    → Counts w ws rs
    → clone_view_changes w a ≡ some (c, w')
    → Counts w' ws (bump rs a)
unfolding Counts clone_view_changes
open_ref-Counts w w' ws rs c a k e =
    let (cell, same, n) = clone-Counted w w' a (cell_of w a) c (ws a) (rs a) (k a) e in
    subst (λ x. Counts x ws (bump rs a)) same
      (Counts-insert w a cell ws rs ws (bump rs a) k (rw (bump_at rs a) n)
        (λ b d. (refl, rw d refl)))

drop_mut-Counts :
    (debug : Bool) (w w' : WorkingPatch) (ws rs : Count) (c : ViewChanges) (a : ResolvedAddress)
    → Counts w ws rs
    → 0 < ws a
    → drop_changes_mut debug w a c ≡ some w'
    → Counts w' (dip ws a) rs
unfolding Counts
drop_mut-Counts debug w w' ws rs c a k h e =
    let (cell, n, r) = writer_alone (cell_of w a) (ws a) (rs a) (k a) h in
    subst (λ x. Counts x (dip ws a) rs) (dropped_mut debug w w' a c e)
      (Counts-insert w a (some (record { changes = c; readers = 0 })) ws rs (dip ws a) rs k
        (dip_at ws a ∙ omega (arith, n), r) (λ b d. (rw d refl, refl)))

drop_ref-Counts :
    (w w' : WorkingPatch) (ws rs : Count) (a : ResolvedAddress)
    → Counts w ws rs
    → 0 < rs a
    → drop_changes_ref w a ≡ some w'
    → Counts w' ws (dip rs a)
unfolding Counts
drop_ref-Counts w w' ws rs a k h e =
    subst (λ x. Counts x ws (dip rs a)) (dropped_ref w w' a e)
      (Counts-insert w a (drop_reader (cell_of w a)) ws rs ws (dip rs a) k
        (rw (dip_at rs a) (drop_reader-Counted (cell_of w a) (ws a) (rs a) (k a) h))
        (λ b d. (refl, rw d refl)))

pub Held-Counts :
    (debug : Bool) {w : WorkingPatch} {ws rs : Count} → Held debug w ws rs → Counts w ws rs
unfolding Counts HashMap.get
Held-Counts debug start = λ b. (refl, refl)
Held-Counts debug (open_mut c a h e) = open_mut-Counts _ _ _ _ c a (Held-Counts debug h) e
Held-Counts debug (open_ref c a h e) = open_ref-Counts _ _ _ _ c a (Held-Counts debug h) e
Held-Counts debug (drop_mut c a h n e) = drop_mut-Counts debug _ _ _ _ c a (Held-Counts debug h) n e
Held-Counts debug (drop_ref a h n e) = drop_ref-Counts _ _ _ _ a (Held-Counts debug h) n e
