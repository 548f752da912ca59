-- ===== src/Time/Tests.antt =====
-- The time service of four validators, of which three have reported a time.
use exonum.Prelude.{ℕ, ◌+◌, ◌≡◌, refl, none, some, List, [], ◌∷◌, arith, false}
use exonum.Prelude.HashMap
use exonum.Prelude.Eq.{nat_eq}
use exonum.Node.Chain.{ValidatorKeys}
use exonum.Time.{
  TimeSchema, ReportOutcome, report_time, update_consolidated_time, update_validator_time,
  known_times, has_service_key, select_time,
}
use exonum.Helpers.Word.{checked, checked_sub}
use exonum.Helpers.Descending.{sort_desc}
use exonum.Time.Consolidated.{
  Selected, Reported, update_consolidated_time-Selected, report_time-Reported,
}

abbrev keys_of : ℕ → ValidatorKeys
keys_of k = record { consensus_key = k; service_key = k + 100 }

abbrev four_keys : List ValidatorKeys
four_keys = keys_of 10 ∷ keys_of 11 ∷ keys_of 12 ∷ keys_of 13 ∷ []

abbrev two_reports : TimeSchema
two_reports = record { validators_times = (110, 50) ∷ (112, 70) ∷ []; time = none }

-- after the third report, the second of the three times is selected
abbrev three_reports : TimeSchema
three_reports = record {
  validators_times = HashMap.insert two_reports.validators_times 111 60;
  time = some 60;
}

third_report :
    report_time false two_reports four_keys (some 111) 60
    ≡ some (ReportOutcome.reported three_reports)
unfolding report_time update_validator_time has_service_key HashMap.insert HashMap.get known_times
    update_consolidated_time select_time checked_sub checked sort_desc
third_report = refl

-- a stranger, and a validator that reports an earlier time
stranger :
    report_time false three_reports four_keys (some 10) 80 ≡ some ReportOutcome.unauthorized_caller
unfolding report_time has_service_key
stranger = refl

earlier :
    report_time false three_reports four_keys (some 112) 70
    ≡ some ReportOutcome.validator_time_is_greater
unfolding report_time update_validator_time has_service_key HashMap.get HashMap.insert
earlier = refl

update_consolidated_time-Selected_example :
    (s : TimeSchema) × (update_consolidated_time false three_reports four_keys ≡ some s)
    × Selected three_reports s 1 (known_times four_keys three_reports.validators_times)
update_consolidated_time-Selected_example =
    update_consolidated_time-Selected false three_reports four_keys (omega arith) (omega arith)

report_time-Reported_example :
    (o : ReportOutcome) × (report_time false two_reports four_keys (some 111) 60 ≡ some o)
    × Reported two_reports four_keys 111 60 o
report_time-Reported_example =
    report_time-Reported false two_reports four_keys 111 60 (omega arith) (omega arith)
