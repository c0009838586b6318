-- ===== src/StateTransition/Tests.antt =====
-- Runs of the state transition, and the theorems at concrete inputs.
mod Queue
mod Reports
mod Services
mod Validation
mod Transfers
mod Statistics
use strawberry.Base.{
  ℕ, suc, zero, ◌≤◌, Bool, true, false, ◌||◌, ◌==◌, ◌≡◌, refl, Option, some, List, [], ◌∷◌, arith,
  contains,
}
use strawberry.StateTransition.Errors.{Result, ok, err}
use strawberry.StateTransition.Disputes.{calculate_new_judgements}
use strawberry.StateTransition.Disputes.Extrinsic.{
  Verify, Judgement, Verdict, Culprit, Fault, Disputes, Judgements, ValidatorSets,
}
use strawberry.StateTransition.Disputes.Votes.{Judged, calculate_new_judgements-Judged}
use strawberry.StateTransition.Disputes.Once.{JudgedOnce, calculate_new_judgements-JudgedOnce}
use strawberry.StateTransition.Disputes.Offenders.{
  denies_good, is_culprit, calculate_new_judgements-offenders,
}

-- A signature verifies where it is the hash.
abbrev pub verify_example : Verify
verify_example key context hash signature = hash == signature

abbrev votes : Bool → ℕ → ℕ → ℕ → List Judgement
votes valid hash first zero = []
votes valid hash first (suc n) =
    record { is_valid = valid; validator_index = first; signature = hash }
    ∷ votes valid hash (suc first) n

abbrev pub validator_keys : ℕ → ℕ → List (Option ℕ)
validator_keys first zero = []
validator_keys first (suc n) = some first ∷ validator_keys (suc first) n

abbrev validators_example : ValidatorSets
validators_example = record { current_validators = validator_keys 0 700; archived_validators = [] }

-- A verdict for a report with 683 votes, one with none, a fault and two culprits.
abbrev disputes_example : Disputes
disputes_example = record {
  verdicts =
      record { report_hash = 7; epoch_index = 0; judgements = votes true 7 0 683 }
      ∷ record { report_hash = 9; epoch_index = 0; judgements = votes false 9 4 683 }
      ∷ [];
  culprits =
      record { report_hash = 9; validator_key = 3; signature = 9 }
      ∷ record { report_hash = 9; validator_key = 5; signature = 9 }
      ∷ [];
  faults = record { report_hash = 7; is_valid = false; validator_key = 11; signature = 7 } ∷ [];
}

abbrev judgements_before : Judgements
judgements_before = record {
  bad_work_reports = 1 ∷ [];
  good_work_reports = 2 ∷ [];
  wonky_work_reports = [];
  offending_validators = 20 ∷ [];
}

abbrev judgements_after : Judgements
judgements_after = record {
  bad_work_reports = 1 ∷ 9 ∷ [];
  good_work_reports = 2 ∷ 7 ∷ [];
  wonky_work_reports = [];
  offending_validators = 20 ∷ 11 ∷ 3 ∷ 5 ∷ [];
}

run_disputes :
    calculate_new_judgements verify_example 12 disputes_example judgements_before validators_example
    ≡ ok judgements_after
unfolding calculate_new_judgements
run_disputes = refl

calculate_new_judgements-Judged_example :
    Judged disputes_example.verdicts judgements_before judgements_after
calculate_new_judgements-Judged_example =
    calculate_new_judgements-Judged verify_example 12 disputes_example judgements_before
      validators_example run_disputes

once_before : JudgedOnce judgements_before
once_before h = ground arith

calculate_new_judgements-JudgedOnce_example : JudgedOnce judgements_after
calculate_new_judgements-JudgedOnce_example =
    calculate_new_judgements-JudgedOnce verify_example 12 disputes_example judgements_before
      validators_example once_before run_disputes

calculate_new_judgements-offenders_example : contains judgements_after.offending_validators 11 ≡ (
    contains judgements_before.offending_validators 11
    || (denies_good 11 disputes_example.faults disputes_example.verdicts
        || is_culprit 11 disputes_example.culprits))
calculate_new_judgements-offenders_example =
    calculate_new_judgements-offenders verify_example 12 disputes_example judgements_before
      validators_example 11 run_disputes
