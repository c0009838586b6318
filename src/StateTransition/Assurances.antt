-- ===== src/StateTransition/Assurances.antt =====
-- `CalculateIntermediateCoreFromAssurances`: the assurances of a block make reports available.
pub mod Settled
pub mod Repeated
use strawberry.Base.{
  ℕ, zero, suc, ◌/◌, ◌%◌, ◌^◌, Bool, true, false, not, ◌&&◌, ◌||◌, Option, none, some, List, [],
  ◌∷◌, length, get_elem?, get_or, ltb, leb, ◌==◌, if◌then◌else◌, bit_and,
}
use strawberry.StateTransition.Constants.{number_of_validators, availability_threshold}
use strawberry.StateTransition.Errors.{
  Result, ok, err, ◌>>=◌, ◌>>◌, fail_if, for_each, core_not_engaged, report_timeout, bad_order,
  bad_validator_index, bad_attestation_parent, bad_signature,
}
use strawberry.StateTransition.Disputes.Extrinsic.{available, Verify}
use strawberry.StateTransition.Reports.{WorkReport, Assurance, Assignment}
use strawberry.StateTransition.Guarantees.{is_assignment_stale}

-- What an assurance is checked with: `ed25519.Verify`, and the hash of the parent's hash and the bitfield.
pub record Signing : Type 0 where
  pub verify : Verify
  pub message_hash : ℕ → List ℕ → ℕ

-- `block.HasAssuranceForCore`
unfoldable pub has_assurance_for_core : Assurance → ℕ → Bool
has_assurance_for_core a core_index =
    not (bit_and (get_or a.bitfield (core_index / 8) 0) (2 ^ (core_index % 8)) == 0)

-- The checks of one assurance by the key of its validator.
unfoldable pub check_assurance : Signing → ℕ → Assurance → Option (Option ℕ) → Result (Unit {0})
check_assurance signing parent_hash a (some (some key)) = do
  fail_if (not (a.anchor == parent_hash)) bad_attestation_parent
  fail_if
      (not (signing.verify key available (signing.message_hash parent_hash a.bitfield) a.signature))
      bad_signature
check_assurance signing parent_hash a key = err bad_validator_index

-- The validators are an array of `NumberOfValidators`.
unfoldable pub validate_assurances_signature :
    Signing → List (Option ℕ) → ℕ → List Assurance → Result (Unit {0})
unfolding check_assurance
validate_assurances_signature signing validators parent_hash assurances =
    for_each
      (λ (a : Assurance).
        check_assurance signing parent_hash a (get_elem? validators a.validator_index))
      assurances

-- `slices.IsSortedFunc` with the comparison of the indices: no index is below the one before it.
unfoldable pub assurance_is_ordered_by_validator_index : List Assurance → Bool
assurance_is_ordered_by_validator_index [] = true
assurance_is_ordered_by_validator_index (a ∷ []) = true
assurance_is_ordered_by_validator_index (a ∷ b ∷ rest) =
    not (ltb b.validator_index a.validator_index)
    && assurance_is_ordered_by_validator_index (b ∷ rest)

-- The inner loop of the first pass, on one core, with the count so far.
unfoldable pub count_core :
    List Assurance → ℕ → Option Assignment → ℕ → (availability : ℕ) → Result ℕ
unfolding has_assurance_for_core is_assignment_stale
count_core [] core_index assignment slot availability = ok availability
count_core (a ∷ rest) core_index none slot availability =
    let skipped = count_core rest core_index none slot availability in
    if has_assurance_for_core a core_index then err core_not_engaged else skipped
count_core (a ∷ rest) core_index (some x) slot availability =
    let counted = count_core rest core_index (some x) slot (suc availability) in
    let skipped = count_core rest core_index (some x) slot availability in
    if has_assurance_for_core a core_index
    then if is_assignment_stale (some x) slot then err report_timeout else counted
    else skipped

-- The first pass, over the cores from core_index on.
unfoldable pub count_cores : List Assurance → ℕ → List (Option Assignment) → ℕ → Result (List ℕ)
unfolding count_core
count_cores assurances core_index [] slot = ok []
count_cores assurances core_index (x ∷ xs) slot = count_core assurances core_index x slot 0 >>= λ n.
    count_cores assurances (suc core_index) xs slot >>= λ ns. ok (n ∷ ns)

abbrev pub cleared : Bool → Option Assignment → Option Assignment
cleared true x = none
cleared false x = x

-- The second pass on the assignments.
unfoldable pub settle_assignments : List ℕ → List (Option Assignment) → ℕ → List (Option Assignment)
unfolding is_assignment_stale
settle_assignments (n ∷ ns) (x ∷ xs) slot =
    let y = cleared (ltb availability_threshold n) x in
    cleared (is_assignment_stale y slot) y ∷ settle_assignments ns xs slot
settle_assignments _ _ slot = []

-- `removedReports`, of the second pass; a core that is counted has an assignment.
unfoldable pub removed_reports : List ℕ → List (Option Assignment) → List (Option WorkReport)
removed_reports (n ∷ ns) (some x ∷ xs) =
    let rest = removed_reports ns xs in
    if ltb availability_threshold n then x.work_report ∷ rest else rest
removed_reports (n ∷ ns) (none ∷ xs) = removed_reports ns xs
removed_reports _ _ = []

-- `CalculateIntermediateCoreAssignmentsFromAvailability`
unfoldable pub assignments_from_availability :
    List Assurance
    → List (Option Assignment)
    → ℕ
    → Result (List (Option Assignment) × List (Option WorkReport))
unfolding count_cores settle_assignments removed_reports
assignments_from_availability assurances assignments slot =
    count_cores assurances 0 assignments slot >>= λ counts.
    ok (settle_assignments counts assignments slot, removed_reports counts assignments)

-- `CalculateIntermediateCoreFromAssurances`, from the parent's hash and the slot of the header.
unfoldable pub assignments_from_assurances :
    Signing
    → List (Option ℕ)
    → List (Option Assignment)
    → ℕ
    → ℕ
    → List Assurance
    → Result (List (Option Assignment) × List (Option WorkReport))
unfolding validate_assurances_signature assurance_is_ordered_by_validator_index
    assignments_from_availability
assignments_from_assurances signing validators assignments parent_hash slot assurances =
    validate_assurances_signature signing validators parent_hash assurances
    >> fail_if (not (assurance_is_ordered_by_validator_index assurances)) bad_order
    >> assignments_from_availability assurances assignments slot
