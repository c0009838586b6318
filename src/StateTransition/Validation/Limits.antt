-- ===== src/StateTransition/Validation/Limits.antt =====
-- The checks of one guarantee: its core and services, its limits, and its context.
use strawberry.Base.{
  ℕ, ◌+◌, Bool, not, Option, none, some, List, [], ◌∷◌, length, ltb, leb, ◌==◌, if◌then◌else◌,
  contains, sub_w, add_w, get_elem?, get_or,
}
use strawberry.Merkle.MountainRange.{Peak}
use strawberry.StateTransition.Constants.{
  max_timeslots_for_preimage, max_allocated_gas_accumulation, work_report_max_sum_of_dependencies,
  max_work_package_size_bytes,
}
use strawberry.StateTransition.Errors.{
  Result, ok, err, ◌>>=◌, ◌>>◌, fail_if, for_each, future_report_slot, bad_validator_index,
  bad_service_id, bad_code_hash, bad_core_index, work_report_too_big, core_unauthorized,
  core_engaged, service_item_gas_too_low, work_report_gas_too_high, too_many_dependencies,
  marshal_failed, bad_state_root, bad_beefy_mmr_root, anchor_not_recent, lookup_anchor_out_of_range,
  no_record_of_header,
}
use strawberry.StateTransition.Reports.{
  WorkReport, WorkResult, WorkResultOutputOrError, output, RefinementContext, Guarantee,
  CredentialSignature,
}
use strawberry.StateTransition.Guarantees.{is_assignment_valid}
use strawberry.StateTransition.Guarantees.Credentials.{or_crash}
use strawberry.StateTransition.Guarantees.Placement.{CoreAssignments}
use strawberry.StateTransition.Accumulation.{Waiting, concat}
use strawberry.StateTransition.RecentBlocks.{BlockState}
use strawberry.StateTransition.Preimages.{Account, Services, find}
use strawberry.StateTransition.Validation.Packages.{Recorded}

-- A header of the chain with the slot and the hash, the identifier of a context and the hash of a report,
-- which a failure of `jam.Marshal` leaves out, and the super peak of a range.
pub record Oracles : Type 0 where
  pub has_header : ℕ → ℕ → Bool
  pub context_id : RefinementContext → Option ℕ
  pub work_report_hash : WorkReport → Option ℕ
  pub super_peak : List Peak → ℕ

abbrev pub output_size : WorkResultOutputOrError → ℕ
output_size (output bytes) = length bytes
output_size _ = 0

abbrev pub output_sizes : List WorkResult → ℕ
output_sizes [] = 0
output_sizes (r ∷ rs) = output_size r.output + output_sizes rs

-- `WorkReport.OutputSizeIsValid`
unfoldable pub output_size_is_valid : WorkReport → Bool
output_size_is_valid w =
    leb (output_sizes w.work_results + length w.output) max_work_package_size_bytes

unfoldable pub check_service : Services → WorkResult → Result (Unit {0})
check_service services r = elim (find services r.service_id) [
  | none ↦ err bad_service_id
  | some a ↦ fail_if (not (r.service_hash_code == a.code_hash)) bad_code_hash
]

-- The parts of the second loop of the source, on one guarantee: its slot, its guarantors and services,
unfoldable pub check_slot : ℕ → Guarantee → Result (Unit {0})
check_slot slot g = fail_if (ltb slot g.timeslot) future_report_slot

unfoldable pub check_guarantors : Recorded → Guarantee → Result (Unit {0})
check_guarantors s g =
    for_each
      (λ (c : CredentialSignature).
        fail_if (leb (length s.current_validators) c.validator_index) bad_validator_index)
      g.credentials

unfoldable pub check_services : Recorded → Guarantee → Result (Unit {0})
unfolding check_service
check_services s g = for_each (check_service s.services) g.work_report.work_results

-- its core, its size, its authorizer, and the assignment of its core.
unfoldable pub check_core : Recorded → Guarantee → Result (Unit {0})
check_core s g =
    fail_if (leb (length s.core_authorizers_pool) g.work_report.core_index) bad_core_index

unfoldable pub check_size : Guarantee → Result (Unit {0})
unfolding output_size_is_valid
check_size g = fail_if (not (output_size_is_valid g.work_report)) work_report_too_big

unfoldable pub check_authorizer : Recorded → Guarantee → Result (Unit {0})
check_authorizer s g =
    fail_if
      (not (
        contains (get_or s.core_authorizers_pool g.work_report.core_index [])
          g.work_report.authorizer_hash))
      core_unauthorized

unfoldable pub check_engaged : CoreAssignments → ℕ → Guarantee → Result (Unit {0})
unfolding is_assignment_valid
check_engaged current_assignment new_timeslot g =
    or_crash (get_elem? current_assignment g.work_report.core_index) >>= λ current.
    fail_if (not (is_assignment_valid current new_timeslot)) core_engaged

unfoldable pub check_guarantee : Recorded → ℕ → CoreAssignments → ℕ → Guarantee → Result (Unit {0})
unfolding check_slot check_guarantors check_services check_core check_size check_authorizer
    check_engaged
check_guarantee s slot current_assignment new_timeslot g = do
  check_slot slot g
  check_guarantors s g
  check_services s g
  check_core s g
  check_size g
  check_authorizer s g
  check_engaged current_assignment new_timeslot g

-- The least gas of the service; the account of a missing key has zeros.
abbrev pub least_gas : Option Account → ℕ
least_gas none = 0
least_gas (some a) = a.gas_limit_for_accumulator

-- The loop over the results, with the gas so far in 64 bits.
unfoldable pub total_gas : Services → List WorkResult → ℕ → Result ℕ
total_gas services [] total = ok total
total_gas services (r ∷ rs) total =
    fail_if (ltb r.gas_prioritization_ratio (least_gas (find services r.service_id)))
      service_item_gas_too_low
    >> total_gas services rs (add_w 64 total r.gas_prioritization_ratio)

-- A value that is computed from a serialized one.
abbrev pub is_marshalled {ℓ} : {A : Type ℓ} → Option A → Result (Unit {0})
is_marshalled none = err marshal_failed
is_marshalled (some a) = ok tt

-- The hashes that are computed for each prerequisite, of each report of the queue and of the guarantee's.
unfoldable pub check_hashes :
    (WorkReport → Option ℕ) → List Waiting → WorkReport → Result (Unit {0})
check_hashes work_report_hash queue w =
    for_each
      (λ (prerequisite : ℕ).
        for_each
          (λ (wd : Waiting).
            is_marshalled (work_report_hash wd.work_report) >> is_marshalled (work_report_hash w))
          queue)
      w.refinement_context.prerequisite_work_package

-- The third loop of the source, on one guarantee.
unfoldable pub check_limits : Oracles → Recorded → Guarantee → Result (Unit {0})
unfolding total_gas check_hashes
check_limits oracles s g = do
  is_marshalled (oracles.context_id g.work_report.refinement_context)
  total ← total_gas s.services g.work_report.work_results 0
  fail_if (ltb max_allocated_gas_accumulation total) work_report_gas_too_high
  fail_if
      (ltb work_report_max_sum_of_dependencies (
        length g.work_report.refinement_context.prerequisite_work_package
        + length g.work_report.segment_root_lookup))
      too_many_dependencies
  check_hashes oracles.work_report_hash (concat s.accumulation_queue) g.work_report

-- `anchorBlockInRecentBlocks`
unfoldable pub anchor_block_in_recent_blocks :
    (List Peak → ℕ) → RefinementContext → List BlockState → Result (Unit {0})
anchor_block_in_recent_blocks super_peak context [] = err anchor_not_recent
anchor_block_in_recent_blocks super_peak context (y ∷ ys) =
    let rest = anchor_block_in_recent_blocks super_peak context ys in
    if not (context.anchor.header_hash == y.header_hash)
    then rest
    else fail_if (not (context.anchor.posterior_state_root == y.state_root)) bad_state_root
      >> fail_if (not (context.anchor.posterior_beefy_root == super_peak y.accumulation_result_mmr))
          bad_beefy_mmr_root

-- The loop over the contexts.
unfoldable pub check_context : Oracles → Recorded → ℕ → Guarantee → Result (Unit {0})
unfolding anchor_block_in_recent_blocks
check_context oracles s slot g =
    let context = g.work_report.refinement_context in
    anchor_block_in_recent_blocks oracles.super_peak context s.recent_blocks
    >> fail_if (leb (sub_w 32 slot max_timeslots_for_preimage) context.lookup_anchor.timeslot)
        lookup_anchor_out_of_range
    >> fail_if
        (not (oracles.has_header context.lookup_anchor.timeslot context.lookup_anchor.header_hash))
        no_record_of_header
