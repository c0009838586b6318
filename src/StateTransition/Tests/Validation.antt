-- ===== src/StateTransition/Tests/Validation.antt =====
-- The validation of guarantees, and the reports that verdicts take from their cores, at concrete inputs.
use strawberry.Base.{ℕ, arith, true, false, map, ◌≡◌, refl, Option, none, some, List, [], ◌∷◌}
use strawberry.StateTransition.Errors.{ok}
use strawberry.StateTransition.Reports.{WorkReport, Assignment, Guarantee, package_hash}
use strawberry.StateTransition.Disputes.Extrinsic.{Verdict}
use strawberry.StateTransition.Disputes.Withdrawn.{
  assignments_from_extrinsics, after_verdicts, assignments_from_extrinsics-after_verdicts,
}
use strawberry.StateTransition.Validation.{validate_extrinsic_guarantees}
use strawberry.StateTransition.Validation.Packages.{Recorded}
use strawberry.StateTransition.Validation.Limits.{Oracles}
use strawberry.StateTransition.Validation.Accepted.{
  Validated, validate_extrinsic_guarantees-Validated,
}
use strawberry.StateTransition.Tests.Queue.{report}

abbrev oracles_example : Oracles
oracles_example = record {
  has_header = λ slot hash. true;
  context_id = λ context. some context.anchor.header_hash;
  work_report_hash = λ w. some (package_hash w);
  super_peak = λ peaks. 6;
}

-- The anchor of the reports is the recent block with the hash 4.
abbrev recorded_example : Recorded
recorded_example = record {
  recent_blocks =
      record {
        header_hash = 3;
        state_root = 1;
        accumulation_result_mmr = [];
        work_report_hashes = (40, 2) ∷ [];
      }
      ∷ record {
        header_hash = 4;
        state_root = 5;
        accumulation_result_mmr = [];
        work_report_hashes = [];
      }
      ∷ [];
  current_validators = some 70 ∷ some 71 ∷ some 72 ∷ [];
  services = [];
  core_authorizers_pool = (8 ∷ 9 ∷ []) ∷ (9 ∷ []) ∷ [];
  accumulation_queue = [];
  core_assignments = none ∷ none ∷ [];
}

-- The second report waits for the first one's package and for one of a recent block.
abbrev guarantees_example : List Guarantee
guarantees_example =
    record {
      work_report = report 41 [] 0;
      timeslot = 19995;
      credentials =
          record { validator_index = 0; signature = 1 }
          ∷ record { validator_index = 2; signature = 1 }
          ∷ [];
    }
    ∷ record {
      work_report = report 42 (41 ∷ 40 ∷ []) 1;
      timeslot = 19985;
      credentials =
          record { validator_index = 1; signature = 1 }
          ∷ record { validator_index = 2; signature = 1 }
          ∷ [];
    }
    ∷ []

run_validation :
    validate_extrinsic_guarantees oracles_example 19999 recorded_example guarantees_example
      (none ∷ none ∷ [])
      19999
    ≡ ok tt
unfolding validate_extrinsic_guarantees
run_validation = refl

validate_extrinsic_guarantees-Validated_example :
    Validated recorded_example 19999 guarantees_example (none ∷ none ∷ []) 19999
validate_extrinsic_guarantees-Validated_example =
    validate_extrinsic_guarantees-Validated oracles_example 19999 recorded_example
      guarantees_example (none ∷ none ∷ []) 19999 (omega arith) run_validation

abbrev hash_of_report : Option WorkReport → Option ℕ
hash_of_report none = none
hash_of_report (some w) = some (package_hash w)

abbrev verdicts_example : List Verdict
verdicts_example =
    record {
      report_hash = 41;
      epoch_index = 0;
      judgements = record { is_valid = false; validator_index = 0; signature = 0 } ∷ [];
    }
    ∷ []

abbrev cores_example : List (Option Assignment)
cores_example =
    some (record { work_report = some (report 41 [] 0); time = 3 })
    ∷ some (record { work_report = some (report 42 [] 1); time = 3 })
    ∷ []

assignments_from_extrinsics-after_verdicts_example :
    assignments_from_extrinsics hash_of_report verdicts_example cores_example
    ≡ map (after_verdicts hash_of_report verdicts_example) cores_example
assignments_from_extrinsics-after_verdicts_example =
    assignments_from_extrinsics-after_verdicts hash_of_report verdicts_example cores_example
