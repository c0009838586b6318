-- ===== src/StateTransition/Tests/Reports.antt =====
-- Guarantees and assurances at concrete inputs.
use mathlib.Core.List.{Mem}
use strawberry.Base.{
  ℕ, ◌<◌, true, false, ◌≡◌, ◌⊎◌, refl, arith, Option, none, some, List, [], ◌∷◌, get_elem?,
  replicate, count,
}
use strawberry.StateTransition.Constants.{total_number_of_cores}
use strawberry.StateTransition.Errors.{ok, err, timeslot_out_of_range}
use strawberry.StateTransition.Disputes.Extrinsic.{ValidatorSets}
use strawberry.StateTransition.Reports.{WorkReport, Guarantee, Assurance, Assignment, package_hash}
use strawberry.StateTransition.Guarantees.{permute_assignments, is_assignment_valid}
use strawberry.StateTransition.Guarantees.Rotation.{permute_assignments-count}
use strawberry.StateTransition.Guarantees.Credentials.{
  Crypto, verify_guarantee_credentials, determine_validators_and_data_for_permutation,
}
use strawberry.StateTransition.Guarantees.Placement.{
  CoreAssignments, calculate_new_core_assignments,
}
use strawberry.StateTransition.Guarantees.Engaged.{
  Placed, calculate_new_core_assignments-engaged, calculate_new_core_assignments-Placed,
  calculate_new_core_assignments-first_rotation,
}
use strawberry.StateTransition.Guarantees.Sound.{Accepted, verify_guarantee_credentials-Vouches}
use strawberry.StateTransition.Assurances.{
  Signing, has_assurance_for_core, assignments_from_assurances,
}
use strawberry.StateTransition.Assurances.Repeated.{assignments_from_assurances-repeated}
use strawberry.StateTransition.Tests.{validator_keys, verify_example}
use strawberry.StateTransition.Tests.Queue.{report}

abbrev zero_hash : List ℕ → List ℕ
zero_hash bytes = replicate 32 0

permute_assignments-count_example :
    (assignments : List ℕ) × (permute_assignments zero_hash [] 1234 ≡ some assignments)
    × ((c : ℕ) → c < total_number_of_cores → count c assignments ≡ 3)
permute_assignments-count_example = permute_assignments-count zero_hash [] 1234

abbrev crypto_example : Crypto
crypto_example = record {
  hash_data = zero_hash;
  report_hash = λ w. some (package_hash w);
  verify = verify_example;
}

abbrev validators_example : ValidatorSets
validators_example = record { current_validators = validator_keys 70 8; archived_validators = [] }

-- The permutation has the validator 5 at the core 1.
abbrev guarantee_example : Guarantee
guarantee_example = record {
  work_report = report 41 [] 1;
  timeslot = 1231;
  credentials = record { validator_index = 5; signature = 41 } ∷ [];
}

abbrev engaged_assignment : Assignment
engaged_assignment = record { work_report = some (report 40 [] 2); time = 1232 }

abbrev engaged : Option Assignment
engaged = some engaged_assignment

abbrev cores_before : CoreAssignments
cores_before = none ∷ none ∷ engaged ∷ []

abbrev cores_after : CoreAssignments
cores_after =
    none ∷ some (record { work_report = some (report 41 [] 1); time = 1234 }) ∷ engaged ∷ []

run_guarantees :
    calculate_new_core_assignments crypto_example validators_example [] 1234 cores_before
      (guarantee_example ∷ [])
    ≡ ok (cores_after, 75 ∷ [])
unfolding calculate_new_core_assignments
run_guarantees = refl

not_valid : is_assignment_valid engaged 1234 ≡ false
unfolding is_assignment_valid
not_valid = refl

calculate_new_core_assignments-engaged_example : get_elem? cores_after 2 ≡ some engaged
calculate_new_core_assignments-engaged_example =
    calculate_new_core_assignments-engaged crypto_example validators_example [] 1234 cores_before
      (guarantee_example ∷ []) 2 engaged refl not_valid run_guarantees

calculate_new_core_assignments-Placed_example :
    (get_elem? cores_after 1 ≡ get_elem? cores_before 1)
    ⊎ Placed crypto_example validators_example [] 1234 cores_before
        (guarantee_example ∷ [])
        1
        (get_elem? cores_after 1)
calculate_new_core_assignments-Placed_example =
    calculate_new_core_assignments-Placed crypto_example validators_example [] 1234 cores_before
      (guarantee_example ∷ []) 1 run_guarantees

calculate_new_core_assignments-first_rotation_example :
    calculate_new_core_assignments crypto_example validators_example [] 7 cores_before
      (guarantee_example ∷ [])
    ≡ err timeslot_out_of_range
calculate_new_core_assignments-first_rotation_example =
    calculate_new_core_assignments-first_rotation crypto_example validators_example [] 7
      cores_before guarantee_example [] (omega arith)

run_credentials :
    verify_guarantee_credentials crypto_example guarantee_example validators_example [] 1234
    ≡ ok (75 ∷ [])
unfolding verify_guarantee_credentials
run_credentials = refl

verify_guarantee_credentials-Vouches_example :
    Accepted crypto_example guarantee_example
      (determine_validators_and_data_for_permutation 1231 1234 [] validators_example)
verify_guarantee_credentials-Vouches_example =
    verify_guarantee_credentials-Vouches crypto_example guarantee_example validators_example [] 1234
      run_credentials

-- The assurance of the validator 1 for the core 2.
abbrev assurance_example : Assurance
assurance_example = record { anchor = 99; bitfield = 4 ∷ []; validator_index = 1; signature = 99 }

abbrev signing_example : Signing
signing_example = record { verify = verify_example; message_hash = λ parent bitfield. parent }

has_core_2 : has_assurance_for_core assurance_example 2 ≡ true
unfolding has_assurance_for_core
has_core_2 = refl

run_assurances :
    assignments_from_assurances signing_example
      (validator_keys 70 8)
      cores_before
      99
      1234
      (assurance_example ∷ [])
    ≡ ok (cores_before, [])
unfolding assignments_from_assurances
run_assurances = refl

assignments_from_assurances-repeated_example :
    (new : List (Option Assignment)) × (removed : List (Option WorkReport))
    × (assignments_from_assurances signing_example
          (validator_keys 70 8)
          cores_before
          99
          1234
          (replicate 683 assurance_example)
        ≡ ok (new, removed))
    × (get_elem? new 2 ≡ some none)
    × Mem (some (report 40 [] 2)) removed
assignments_from_assurances-repeated_example =
    assignments_from_assurances-repeated signing_example (validator_keys 70 8) cores_before 99 1234
      assurance_example 2 683 engaged_assignment run_assurances has_core_2 refl (omega arith)
