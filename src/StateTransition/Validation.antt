-- ===== src/StateTransition/Validation.antt =====
-- `ValidateExtrinsicGuarantees`: the checks of the guarantees of a block. The identifier of a context
-- is put into a map by one loop and looked up by the next one, which computes it again from the same
-- context: that it is found holds of itself, and has no place here; that a context or a report may fail
-- to be marshalled has. The search for a header of the chain, the SHA-256 hashes of a context and of a
-- report, and `SuperPeak` under the Keccak hash are parameters.
pub mod Packages
pub mod Limits
pub mod Order
pub mod Fresh
pub mod Free
pub mod Accepted
use strawberry.Base.{
  ℕ, zero, suc, ◌+◌, Bool, true, false, not, ◌||◌, Option, none, some, List, [], ◌∷◌, ◌++◌, length,
  ltb, leb, ◌==◌, if◌then◌else◌, contains, sub_w, add_w, get_elem?,
}
use strawberry.Merkle.MountainRange.{Peak}
use strawberry.StateTransition.Errors.{
  Error, Result, ok, err, crash, ◌>>=◌, ◌>>◌, fail_if, for_each, out_of_order_guarantee,
  not_sorted_guarantors, insufficient_guarantees,
}
use strawberry.StateTransition.Disputes.Checks.{not_ascending}
use strawberry.StateTransition.Reports.{Guarantee, CredentialSignature}
use strawberry.StateTransition.Guarantees.{is_guarantees_sorted_by_core_index}
use strawberry.StateTransition.Guarantees.Credentials.{verify_guarantee_age}
use strawberry.StateTransition.Guarantees.Placement.{CoreAssignments}
use strawberry.StateTransition.Validation.Packages.{
  Recorded, check_duplicates, check_cardinality, check_past, check_lookups, check_dependencies,
}
use strawberry.StateTransition.Validation.Limits.{
  Oracles, check_guarantee, check_limits, check_context,
}

-- The last loop, on one guarantee; the lookups are checked a second time.
unfoldable pub check_signers : Recorded → List Guarantee → ℕ → Guarantee → Result (Unit {0})
unfolding check_lookups not_ascending verify_guarantee_age
check_signers s guarantees new_timeslot g = do
  check_lookups s guarantees g
  fail_if (not_ascending (λ (c : CredentialSignature). c.validator_index) g.credentials)
      not_sorted_guarantors
  fail_if (ltb (length g.credentials) 2) insufficient_guarantees
  verify_guarantee_age g new_timeslot

-- `ValidateExtrinsicGuarantees`, with the slot of the header, the assignments and the new slot.
unfoldable pub validate_extrinsic_guarantees :
    Oracles → ℕ → Recorded → List Guarantee → CoreAssignments → ℕ → Result (Unit {0})
unfolding check_duplicates check_guarantee check_limits check_cardinality check_context check_past
    check_lookups check_dependencies is_guarantees_sorted_by_core_index check_signers
validate_extrinsic_guarantees oracles slot s guarantees current_assignment new_timeslot = do
  check_duplicates s guarantees []
  for_each (check_guarantee s slot current_assignment new_timeslot) guarantees
  for_each (check_limits oracles s) guarantees
  check_cardinality guarantees
  for_each (check_context oracles s slot) guarantees
  check_past oracles.work_report_hash s guarantees
  for_each (check_lookups s guarantees) guarantees
  check_dependencies s guarantees
  fail_if (not (is_guarantees_sorted_by_core_index guarantees)) out_of_order_guarantee
  for_each (check_signers s guarantees new_timeslot) guarantees
