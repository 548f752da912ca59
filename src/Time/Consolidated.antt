-- ===== src/Time/Consolidated.antt =====
-- services/time/src/schema.rs: the consolidated time never goes back, and lies between times that
-- honest validators have reported.
use exonum.Prelude.{
  get_elem?-some, ◌^◌, ℕ, ◌-◌, ◌*◌, ◌/◌, ◌<◌, ◌≡◌, refl, ap, ◌∙◌, sym, ◌⊎◌, inl, inr, Bool, true,
  false, Option, none, some, List, arith, length, get_elem?, leb, Bool-cases, if◌then◌else◌, subst,
}
use mathlib.Core.Option.{some-injective}
use exonum.Prelude.Eq.{◌==◌, nat_eq}
use exonum.Prelude.HashMap.{get-insert}
use exonum.Prelude.HashMap
use exonum.Helpers.Word.{checked, checked_sub}
use exonum.Helpers.Descending.{
  sort_desc, sort_desc-Descending, count_ge, count_le, count_ge-get, count_le-get,
  count_ge-sort_desc, count_le-sort_desc, length-sort_desc,
}
use exonum.Node.Chain.{ValidatorKeys}
use exonum.Node.Messages.{PublicKey}
use exonum.Time.{
  ReportOutcome, has_service_key, update_validator_time, report_time, TimeSchema, not_below,
  known_times, select_time, update_consolidated_time,
}

-- Of the times that validators have reported, more than `f` are not below the time and more than `f`
-- are not above it.
pub record Between (f : ℕ) (times : List ℕ) (time : ℕ) : Type 0 where
  pub not_below : f < count_ge time times
  pub not_above : f < count_le time times

-- the place `f` of the sorted times, of more than 2 f
sorted-Between :
    (f : ℕ) (times : List ℕ) (time : ℕ)
    → 2 * f < length times
    → get_elem? (sort_desc times) f ≡ some time
    → Between f times time
sorted-Between f times time long e = record {
  not_below = omega (
    arith,
    count_ge-get (sort_desc times) f (sort_desc-Descending times) e,
    count_ge-sort_desc time times,
  );
  not_above = omega (
    arith,
    count_le-get (sort_desc times) f (sort_desc-Descending times) e,
    count_le-sort_desc time times,
    length-sort_desc times,
  );
}

-- a time that is later than the one before, if there was one
abbrev pub Later : Option ℕ → ℕ → Type 0
Later none time = Unit
Later (some before) time = before < time

-- what a report does to the consolidated time
abbrev pub Selected : TimeSchema → TimeSchema → ℕ → List ℕ → Type 0
Selected s s' f times =
    (s'.validators_times ≡ s.validators_times)
    × ((s'.time ≡ s.time)
        ⊎ ((time : ℕ) × (s'.time ≡ some time) × Later s.time time × Between f times time))

not_below-Later : (o : Option ℕ) (time : ℕ) → not_below o time ≡ false → Later o time
not_below-Later none time h = tt
not_below-Later (some before) time h = ground arith

select_time-Selected :
    (s : TimeSchema) (o : Option ℕ) (time f : ℕ) (times : List ℕ)
    → o ≡ some time
    → Between f times time
    → (s' : TimeSchema) × (select_time s o ≡ some s') × Selected s s' f times
unfolding select_time
select_time-Selected s none time f times e between = absurd (ground arith)
select_time-Selected s (some t) time f times e between = elim (Bool-cases (not_below s.time t)) [
  | inl q ↦ (s, rw q refl, (refl, inl refl))
  | inr q ↦ (
    record s { time = some t },
    rw q refl,
    (
      refl,
      inr (
        t,
        refl,
        not_below-Later s.time t q,
        subst (Between f times) (sym (some-injective _ _ e)) between,
      ),
    ),
  )
]

exact_sub : (debug : Bool) (n : ℕ) → 0 < n → checked_sub debug 64 n 1 ≡ some (n - 1)
unfolding checked_sub
exact_sub debug n pos = ground arith

exact_twice :
    (debug : Bool) (n : ℕ)
    → n < 2 ^ 64
    → checked debug 64 (2 * ((n - 1) / 3)) ≡ some (2 * ((n - 1) / 3))
unfolding checked
exact_twice debug n small = ground arith

-- With validators, fewer than 2 ^ 64, the update of the consolidated time does not panic. The time is the
-- same as before, or it is later, and then it lies between reported times of validators: more than f of
-- them are not below it and more than f are not above it, for f = (n - 1) / 3 of n validators.
pub update_consolidated_time-Selected :
    (debug : Bool) (s : TimeSchema) (keys : List ValidatorKeys)
    → 0 < length keys
    → length keys < 2 ^ 64
    → (s' : TimeSchema) × (update_consolidated_time debug s keys ≡ some s')
      × Selected s s' ((length keys - 1) / 3) (known_times keys s.validators_times)
unfolding update_consolidated_time
update_consolidated_time-Selected debug s keys pos small =
    let f = (length keys - 1) / 3 in
    let times = known_times keys s.validators_times in
    rw (exact_sub debug (length keys) pos, exact_twice debug (length keys) small)
      (elim (Bool-cases (leb (length (sort_desc times)) (2 * f))) [
        | inl q ↦ (s, rw q refl, (refl, inl refl))
        | inr q ↦
            let (time, e) = get_elem?-some (sort_desc times) f (ground arith) in
            let (s', r, selected) =
              select_time-Selected s (get_elem? (sort_desc times) f) time f times e
                (sorted-Between f times time (ground (arith, length-sort_desc times)) e) in
            (s', rw q r, selected)
      ])

-- What a report of `author` at `time` comes to, by its outcome.
pub Reported : TimeSchema → List ValidatorKeys → PublicKey → ℕ → ReportOutcome → Type 0
Reported s keys author time (ReportOutcome.reported s') =
    (has_service_key keys author ≡ true)
    × Later (HashMap.get s.validators_times author) time
    × ((other : PublicKey)
        → HashMap.get s'.validators_times other
          ≡ (if author == other then some time else HashMap.get s.validators_times other))
    × ((s'.time ≡ s.time)
        ⊎ ((t : ℕ) × (s'.time ≡ some t)
            × Later s.time t
            × Between ((length keys - 1) / 3) (known_times keys s'.validators_times) t))
Reported s keys author time ReportOutcome.unauthorized_caller = has_service_key keys author ≡ false
Reported s keys author time ReportOutcome.validator_time_is_greater =
    (has_service_key keys author ≡ true)
    × (not_below (HashMap.get s.validators_times author) time ≡ true)

-- A signed report never panics where there are validators, fewer than 2 ^ 64. It is refused as unauthorized
-- exactly if the author is not a validator, and as not later exactly if a time of the author is known that is
-- not below it. Otherwise it is the author's known time afterwards, the other known times are the same, and the
-- consolidated time is the same or later, and in that case between reported times of validators.
pub report_time-Reported :
    (debug : Bool) (s : TimeSchema) (keys : List ValidatorKeys) (author : PublicKey) (time : ℕ)
    → 0 < length keys
    → length keys < 2 ^ 64
    → (o : ReportOutcome) × (report_time debug s keys (some author) time ≡ some o)
      × Reported s keys author time o
unfolding report_time update_validator_time Reported
report_time-Reported debug s keys author time pos small =
    elim (Bool-cases (has_service_key keys author)) [
      | inr q ↦ (ReportOutcome.unauthorized_caller, rw q refl, q)
      | inl q ↦ elim (Bool-cases (not_below (HashMap.get s.validators_times author) time)) [
        | inl r ↦ (ReportOutcome.validator_time_is_greater, rw (q, r) refl, (q, r))
        | inr r ↦
            let s1 : TimeSchema = record s {
              validators_times = HashMap.insert s.validators_times author time;
            } in
            let (s', u, (same, selected)) =
              update_consolidated_time-Selected debug s1 keys pos small in
            (
              ReportOutcome.reported s',
              rw (q, r) (rw u refl),
              (
                q,
                not_below-Later (HashMap.get s.validators_times author) time r,
                (λ other.
                    ap (λ m. HashMap.get m other) same
                    ∙ get-insert s.validators_times author time other),
                subst
                    (λ m.
                      (s'.time ≡ s.time)
                      ⊎ ((t : ℕ) × (s'.time ≡ some t)
                          × Later s.time t
                          × Between ((length keys - 1) / 3) (known_times keys m) t))
                    (sym same) selected,
              ),
            )
      ]
    ]
