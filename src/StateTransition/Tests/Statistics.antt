-- ===== src/StateTransition/Tests/Statistics.antt =====
-- The statistics of the validators at a concrete input.
use strawberry.Base.{ℕ, ◌≡◌, refl, arith, some, [], ◌∷◌, get_elem?}
use strawberry.StateTransition.Reports.{Assurance}
use strawberry.StateTransition.Statistics.{
  ValidatorStatistics, StatisticsState, Activity, zero_statistics,
  calculate_new_validator_statistics,
}
use strawberry.StateTransition.Statistics.Increments.{
  Incremented, calculate_new_validator_statistics-Incremented,
}

abbrev assurance_of : ℕ → Assurance
assurance_of v = record { anchor = 1; bitfield = []; validator_index = v; signature = 0 }

abbrev activity_example : Activity
activity_example = record {
  time_slot_index = 1210;
  block_author_index = 1;
  num_of_ticket_proofs = 3;
  preimages = record { service_index = 1; bytes = 5 ∷ 6 ∷ [] } ∷ [];
  assurances = assurance_of 0 ∷ assurance_of 1 ∷ [];
  reporters = 70 ∷ 72 ∷ [];
}

abbrev statistics_example : StatisticsState
statistics_example = record {
  completed = [];
  present = zero_statistics ∷ record zero_statistics { num_of_blocks = 4 } ∷ [];
}

calculate_new_validator_statistics-Incremented_example :
    ((calculate_new_validator_statistics activity_example 1205
        (some 70 ∷ some 71 ∷ [])
        statistics_example).completed
      ≡ [])
    × ((s' : ValidatorStatistics) × (get_elem?
            (calculate_new_validator_statistics activity_example 1205
              (some 70 ∷ some 71 ∷ [])
              statistics_example).present
            1
          ≡ some s')
        × Incremented activity_example
            (some 70 ∷ some 71 ∷ [])
            1
            (record zero_statistics { num_of_blocks = 4 })
            s')
calculate_new_validator_statistics-Incremented_example =
    calculate_new_validator_statistics-Incremented activity_example 1205 (some 70 ∷ some 71 ∷ [])
      statistics_example 1 (record zero_statistics { num_of_blocks = 4 }) refl refl (omega arith)
      (omega arith) (omega arith)
