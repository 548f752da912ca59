-- ===== src/Merkledb/ListIndex/Refinement.antt =====
-- components/merkledb/src/indexes/list.rs: a `ListIndex` refines a list.
use exonum.Prelude.{
  zero, true, ℕ, suc, ◌+◌, ◌-◌, ◌^◌, ◌<◌, ◌≤◌, ◌≡◌, refl, sym, ap, ◌∙◌, Bool, Option, none, some,
  List, [], ◌∷◌, ◌++◌, length, length-append, get_elem?, arith, if◌then◌else◌, leb, lt→ltb, ltb,
  subst, Bool-cases, inl, inr,
}
use exonum.Prelude.Eq.{◌==◌, list_eq, nat_eq}
use exonum.Prelude.Order.{is_eq, is_eq-bytes_cmp}
use exonum.Prelude.Panic.{◌>>=◌}
use exonum.Helpers.Word.{checked}
use exonum.Merkledb.Changes.{Bytes}
use exonum.Merkledb.Keys.{BigEndian}
use exonum.Merkledb.Views.Writing.{CanWrite, put_bytes-CanWrite, remove-CanWrite, clear-CanWrite}
use exonum.Merkledb.ListIndex.{ListIndex, list_len, push, pop, pop_at, truncate, set, clear}
use exonum.Merkledb.ListIndex
use exonum.Merkledb.ListIndex.Listing.{
  init, update, get_elem?-append_one, get_elem?-init, get_elem?-update, length-init, length-update,
  take, take-init, take-all,
}

-- what a client does with a list
pub data ListCommand : Type 0 where
  push_value : Bytes → ListCommand
  pop_last : ListCommand
  truncate_to : ℕ → ListCommand
  set_at : ℕ → Bytes → ListCommand
  clear_all : ListCommand

abbrev pub run : BigEndian 64 → Bool → ListCommand → ListIndex → Option (Option Bytes × ListIndex)
run be debug (push_value v) l = push be debug l v >>= λ l'. some (none, l')
run be debug pop_last l = pop be l
run be debug (truncate_to n) l = truncate be (list_len l) l n >>= λ l'. some (none, l')
run be debug (set_at i v) l = set be l i v >>= λ l'. some (none, l')
run be debug clear_all l = clear l >>= λ l'. some (none, l')

-- the commands on a list; `none` is the panic
abbrev pub apply : ListCommand → List Bytes → Option (Option Bytes × List Bytes)
apply (push_value v) xs = some (none, xs ++ v ∷ [])
apply pop_last xs = some (get_elem? xs (length xs - 1), init xs)
apply (truncate_to n) xs = some (none, take n xs)
apply (set_at i v) xs = if leb (length xs) i then none else some (none, update xs i v)
apply clear_all xs = some (none, [])

-- an index that keeps a list, for writing
pub record Keeps (be : BigEndian 64) (l : ListIndex) (xs : List Bytes) : Type 0 where
  pub writable : CanWrite l.base
  pub as_long : list_len l ≡ length xs
  pub fits : length xs < 2 ^ 64
  pub elements : (i : ℕ) → i < 2 ^ 64 → ListIndex.get be l i ≡ get_elem? xs i

-- the same panic, or the same value and an index that keeps the list
abbrev pub Agrees :
    BigEndian 64 → Option (Option Bytes × ListIndex) → Option (Option Bytes × List Bytes) → Type 0
Agrees be none none = Unit
Agrees be none (some y) = ⊥
Agrees be (some x) none = ⊥
Agrees be (some (r, l)) (some (s, xs)) = (r ≡ s) × Keeps be l xs

module _ (be : BigEndian 64) where
  Agrees-some :
      (x : Option (Option Bytes × ListIndex)) (s : Option Bytes) (ys : List Bytes)
      → Agrees be x (some (s, ys))
      → (r : Option Bytes) × (l' : ListIndex) × (x ≡ some (r, l')) × Keeps be l' ys
  Agrees-some none s ys a = absurd a
  Agrees-some (some (r, l)) s ys a = (r, l, refl, a.1)

  same_key : (i j : ℕ) → i < 2 ^ 64 → j < 2 ^ 64 → (be.write i == be.write j) ≡ (i == j)
  same_key i j k l =
      sym (is_eq-bytes_cmp (be.write i) (be.write j))
      ∙ ap is_eq (be.cmp-write i j k l)
      ∙ ground arith

  push-Agrees :
      (debug : Bool) (l : ListIndex) (xs : List Bytes) (v : Bytes)
      → Keeps be l xs
      → length xs + 1 < 2 ^ 64
      → Agrees be (run be debug (push_value v) l) (apply (push_value v) xs)
  unfolding push checked ListIndex.get
  push-Agrees debug l xs v k f =
      let (base, e, w, reads) = put_bytes-CanWrite l.base (be.write (list_len l)) v k.writable in
      rw (e, lt→ltb (list_len l + 1) (2 ^ 64) (omega (arith, f, k.as_long)))
        (
          refl,
          record {
            writable = w;
            as_long = omega (arith, k.as_long, length-append xs (v ∷ []));
            fits = omega (arith, f, length-append xs (v ∷ []));
            elements = λ i b.
                reads (be.write i)
                ∙ ground (
                  arith,
                  same_key (list_len l) i (omega (arith, f, k.as_long)) b,
                  k.as_long,
                  get_elem?-append_one xs v i,
                  k.elements i b,
                );
          },
        )

  pop_at-Agrees :
      (l : ListIndex) (xs : List Bytes) (n : ℕ)
      → Keeps be l xs
      → length xs ≡ suc n
      → Agrees be (pop_at be l (suc n)) (some (get_elem? xs n, init xs))
  unfolding pop_at ListIndex.get
  pop_at-Agrees l xs n k e =
      let (base, r, w, reads) = remove-CanWrite l.base (be.write n) k.writable in
      rw r (
        k.elements n (omega (arith, k.fits, e)),
        record {
          writable = w;
          as_long = sym (length-init xs n e);
          fits = omega (arith, k.fits, e, length-init xs n e);
          elements = λ i b.
              reads (be.write i)
              ∙ ground (
                arith,
                same_key n i (omega (arith, k.fits, e)) b,
                get_elem?-init xs n i e,
                k.elements i b,
              );
        },
      )

  pop-Agrees :
      (debug : Bool) (l : ListIndex) (xs : List Bytes)
      → Keeps be l xs
      → Agrees be (run be debug pop_last l) (apply pop_last xs)
  unfolding pop pop_at init
  pop-Agrees debug l [] k = rw (k.as_long) (refl, k)
  pop-Agrees debug l (x ∷ xs) k =
      let e : length (x ∷ xs) - 1 ≡ length xs = omega arith in
      rw (k.as_long, e) (pop_at-Agrees l (x ∷ xs) (length xs) k refl)

  -- what a pop leaves
  popped :
      (l : ListIndex) (xs : List Bytes)
      → Keeps be l xs
      → (r : Option Bytes) × (l' : ListIndex) × (pop be l ≡ some (r, l')) × Keeps be l' (init xs)
  popped l xs k =
      Agrees-some (pop be l) (get_elem? xs (length xs - 1)) (init xs) (pop-Agrees true l xs k)

  truncate-Keeps :
      (fuel : ℕ) (l : ListIndex) (xs : List Bytes) (n : ℕ)
      → Keeps be l xs
      → length xs ≤ fuel + n
      → (l' : ListIndex) × (truncate be fuel l n ≡ some l') × Keeps be l' (take n xs)
  unfolding truncate
  truncate-Keeps zero l xs n k f = (
    l,
    ground (arith, k.as_long, f),
    subst (Keeps be l) (sym (take-all n xs (omega (arith, f)))) k,
  )
  truncate-Keeps (suc fuel) l xs n k f = elim (Bool-cases (ltb n (list_len l))) [
    | inl t ↦
        let b : n < length xs = ground (arith, t, k.as_long) in
        let (r, l1, e, k1) = popped l xs k in
        let d : length (init xs) ≡ length xs - 1 =
          length-init xs (length xs - 1) (omega (arith, b)) in
        let (l', e', k') = truncate-Keeps fuel l1 (init xs) n k1 (omega (arith, d, f, b)) in
        (l', rw (t, e) e', subst (Keeps be l') (take-init n xs b) k')
    | inr u ↦
        let b : length xs ≤ n = ground (arith, u, k.as_long) in
        (l, rw u refl, subst (Keeps be l) (sym (take-all n xs b)) k)
  ]

  truncate-Agrees :
      (debug : Bool) (l : ListIndex) (xs : List Bytes) (n : ℕ)
      → Keeps be l xs
      → Agrees be (run be debug (truncate_to n) l) (apply (truncate_to n) xs)
  truncate-Agrees debug l xs n k =
      let (l', e, k') = truncate-Keeps (list_len l) l xs n k (omega (arith, k.as_long)) in
      rw e (refl, k')

  set-Agrees :
      (debug : Bool) (l : ListIndex) (xs : List Bytes) (i : ℕ) (v : Bytes)
      → Keeps be l xs
      → Agrees be (run be debug (set_at i v) l) (apply (set_at i v) xs)
  unfolding set ListIndex.get
  set-Agrees debug l xs i v k = elim (Bool-cases (leb (length xs) i)) [
    | inl t ↦ rw (k.as_long, t) tt
    | inr n ↦
        let b : i < length xs = ground (arith, n) in
        let (base, e, w, reads) = put_bytes-CanWrite l.base (be.write i) v k.writable in
        rw (k.as_long, n, e)
          (
            refl,
            record {
              writable = w;
              as_long = k.as_long ∙ sym (length-update xs i v);
              fits = omega (arith, k.fits, length-update xs i v);
              elements = λ j c.
                  reads (be.write j)
                  ∙ ground (
                    arith,
                    same_key i j (omega (arith, k.fits, b)) c,
                    get_elem?-update xs i v j b,
                    k.elements j c,
                  );
            },
          )
  ]

  clear-Agrees :
      (debug : Bool) (l : ListIndex) (xs : List Bytes)
      → Keeps be l xs
      → Agrees be (run be debug clear_all l) (apply clear_all xs)
  unfolding clear ListIndex.get
  clear-Agrees debug l xs k =
      let (base, e, w, reads) = clear-CanWrite l.base k.writable in
      rw e (
        refl,
        record {
          writable = w;
          as_long = refl;
          fits = omega arith;
          elements = λ i b. reads (be.write i);
        },
      )

  -- A list index refines a list. Where a view for writing keeps a list of less than 2 ^ 64 - 1
  -- elements, a push, a pop, a truncation, a change of an element and a clear do what they do to the
  -- list: they return, with the same value, leave an index that keeps the list after it, and panic
  -- exactly where the index of the changed element is out of bounds.
  pub run-Agrees :
      (debug : Bool) (c : ListCommand) (l : ListIndex) (xs : List Bytes)
      → Keeps be l xs
      → length xs + 1 < 2 ^ 64
      → Agrees be (run be debug c l) (apply c xs)
  run-Agrees debug (push_value v) l xs k f = push-Agrees debug l xs v k f
  run-Agrees debug pop_last l xs k f = pop-Agrees debug l xs k
  run-Agrees debug (truncate_to n) l xs k f = truncate-Agrees debug l xs n k
  run-Agrees debug (set_at i v) l xs k f = set-Agrees debug l xs i v k
  run-Agrees debug clear_all l xs k f = clear-Agrees debug l xs k
