-- ===== src/StateTransition/Guarantees/Placement.antt =====
-- `CalculateNewCoreAssignments`: the reports of the guarantees take their cores.
use strawberry.Base.{
  ℕ, ◌/◌, ◌||◌, Option, some, List, [], ◌∷◌, get_elem?, set, ltb, if◌then◌else◌, sub_w, mul_w,
}
use strawberry.StateTransition.Constants.{validator_rotation_period}
use strawberry.StateTransition.Errors.{Result, ok, ◌>>=◌, ◌>>◌, fail_if, timeslot_out_of_range}
use strawberry.StateTransition.Disputes.Extrinsic.{ValidatorSets}
use strawberry.StateTransition.Reports.{Guarantee, Assignment}
use strawberry.StateTransition.Guarantees.{is_assignment_valid}
use strawberry.StateTransition.Guarantees.Credentials.{
  Crypto, add_reporter, or_crash, verify_guarantee_credentials,
}

-- `state.CoreAssignments`; `none` is a nil assignment.
abbrev pub CoreAssignments : Type 0
CoreAssignments = List (Option Assignment)

-- `previousRotationStart`, in 32 bits.
abbrev pub previous_rotation_start : ℕ → ℕ
previous_rotation_start new_timeslot =
    mul_w 32 (sub_w 32 (new_timeslot / validator_rotation_period) 1) validator_rotation_period

abbrev pub add_reporters : List ℕ → List ℕ → List ℕ
add_reporters reporters [] = reporters
add_reporters reporters (key ∷ keys) = add_reporters (add_reporter reporters key) keys

-- The assignment that a guarantee makes for its core.
abbrev pub assign : CoreAssignments → Guarantee → ℕ → CoreAssignments
assign assignments g new_timeslot =
    set assignments g.work_report.core_index
      (some (record { work_report = some g.work_report; time = new_timeslot }))

module _ (crypto : Crypto) (validators : ValidatorSets) (pool : List (List ℕ)) (new_timeslot : ℕ)
    (intermediate : CoreAssignments) where
  -- The loop, with the assignments and the reporters so far. A core out of range panics.
  unfoldable pub place_guarantees :
      List Guarantee → CoreAssignments → List ℕ → Result (CoreAssignments × List ℕ)
  unfolding is_assignment_valid verify_guarantee_credentials
  place_guarantees [] assignments reporters = ok (assignments, reporters)
  place_guarantees (g ∷ gs) assignments reporters =
      let skipped = place_guarantees gs assignments reporters in
      let placed = verify_guarantee_credentials crypto g validators pool new_timeslot >>= λ found.
      place_guarantees gs (assign assignments g new_timeslot) (add_reporters reporters found) in
      fail_if (ltb g.timeslot (previous_rotation_start new_timeslot) || ltb new_timeslot g.timeslot)
        timeslot_out_of_range
      >> or_crash (get_elem? intermediate g.work_report.core_index)
      >>= λ current. if is_assignment_valid current new_timeslot then placed else skipped

  unfoldable pub calculate_new_core_assignments : List Guarantee → Result (CoreAssignments × List ℕ)
  unfolding place_guarantees
  calculate_new_core_assignments guarantees = place_guarantees guarantees intermediate []
