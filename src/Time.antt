-- ===== src/Time.antt =====
-- services/time/src: the time service, by which validators agree on a time of the blockchain. The
-- times are milliseconds. `validators_times` is a map in the database, whose order of iteration does
-- not matter since the times are sorted.
pub mod Consolidated
pub mod Tests
use exonum.Prelude.{
  ℕ, ◌+◌, ◌-◌, ◌*◌, ◌/◌, ◌%◌, ◌^◌, Bool, true, false, Option, none, some, List, [], ◌∷◌, length,
  get_elem?, leb, if◌then◌else◌,
}
use exonum.Prelude.Eq.{◌==◌, nat_eq}
use exonum.Prelude.HashMap.{HashMap}
use exonum.Prelude.HashMap
use exonum.Prelude.Panic.{◌>>=◌}
use exonum.Helpers.Word.{checked, checked_sub}
use exonum.Helpers.Descending.{sort_desc}
use exonum.Node.Messages.{PublicKey}
use exonum.Node.Chain.{ValidatorKeys}

-- `struct TimeSchema`
pub record TimeSchema : Type 0 where
  pub validators_times : HashMap PublicKey ℕ
  pub time : Option ℕ

-- the result of a transaction: the new state, or one of its errors, which leave the state
pub data ReportOutcome : Type 0 where
  reported : TimeSchema → ReportOutcome
  unauthorized_caller : ReportOutcome
  validator_time_is_greater : ReportOutcome

-- whether a known time is not below a new one
abbrev pub not_below : Option ℕ → ℕ → Bool
not_below none time = false
not_below (some known) time = leb time known

-- `TimeSchema::update_validator_time`; `none` is its error
unfoldable pub update_validator_time : TimeSchema → PublicKey → ℕ → Option TimeSchema
update_validator_time s author time =
    if not_below (HashMap.get s.validators_times author) time
    then none
    else some (record s { validators_times = HashMap.insert s.validators_times author time })

-- whether the key is the service key of one of the validators
unfoldable pub has_service_key : List ValidatorKeys → PublicKey → Bool
has_service_key [] key = false
has_service_key (v ∷ vs) key =
    let rest = has_service_key vs key in if v.service_key == key then true else rest

-- the known times of the validators, before they are sorted
unfoldable pub known_times : List ValidatorKeys → HashMap PublicKey ℕ → List ℕ
unfolding has_service_key
known_times keys [] = []
known_times keys ((key, time) ∷ m) =
    let rest = known_times keys m in if has_service_key keys key then time ∷ rest else rest

-- the selected time is written unless the stored one is not below it; an index out of range panics
pub select_time : TimeSchema → Option ℕ → Option TimeSchema
select_time s none = none
select_time s (some time) =
    some (if not_below s.time time then s else record s { time = some time })

-- `TimeSchema::update_consolidated_time`
pub update_consolidated_time : Bool → TimeSchema → List ValidatorKeys → Option TimeSchema
update_consolidated_time debug s keys = do
  others ← checked_sub debug 64 (length keys) 1
  let max_byzantine : ℕ = others / 3
  twice ← checked debug 64 (2 * max_byzantine)
  let times : List ℕ = sort_desc (known_times keys s.validators_times)
  if leb (length times) twice then some s else select_time s (get_elem? times max_byzantine)

consolidated : Option TimeSchema → Option ReportOutcome
consolidated none = none
consolidated (some s) = some (ReportOutcome.reported s)

updated : Bool → List ValidatorKeys → Option TimeSchema → Option ReportOutcome
unfolding consolidated
updated debug keys none = some ReportOutcome.validator_time_is_greater
updated debug keys (some s) = consolidated (update_consolidated_time debug s keys)

-- a report of a caller that is signed
authored : Bool → TimeSchema → List ValidatorKeys → PublicKey → ℕ → Option ReportOutcome
unfolding updated
authored debug s keys author time =
    if has_service_key keys author
    then updated debug keys (update_validator_time s author time)
    else some ReportOutcome.unauthorized_caller

-- `TimeService::report_time`, for the author of the call, if it is signed, and the validators
pub report_time :
    Bool → TimeSchema → List ValidatorKeys → Option PublicKey → ℕ → Option ReportOutcome
unfolding authored
report_time debug s keys none time = some ReportOutcome.unauthorized_caller
report_time debug s keys (some author) time = authored debug s keys author time
