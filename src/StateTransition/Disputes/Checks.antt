-- ===== src/StateTransition/Disputes/Checks.antt =====
-- The checks of a dispute before anything is changed.
use strawberry.Base.{
  contains, ℕ, ◌-◌, ◌/◌, Bool, true, false, not, ◌||◌, Option, none, some, List, [], ◌∷◌, length,
  get_elem?, ltb, leb, ◌==◌, if◌then◌else◌,
}
use strawberry.StateTransition.Constants.{timeslots_per_epoch}
use strawberry.StateTransition.Errors.{
  Result, err, crash, ◌>>◌, fail_if, for_each, faults_not_sorted, verdicts_not_sorted,
  judgements_not_sorted, invalid_validator_index, bad_signature, bad_judgement_age,
  offender_already_reported, already_judged, fault_verdict_wrong,
}
use strawberry.StateTransition.Disputes.Extrinsic.{
  guarantee, Verify, Judgement, Verdict, Culprit, Fault, Disputes, Judgements, ValidatorSets,
  count_positive_judgements, context_of,
}

-- A loop `for i := 1; i < len(s); i++` that compares the keys of s[i-1] and s[i]; true where some
-- pair is not ascending.
unfoldable pub not_ascending {ℓ} : {A : Type ℓ} → (A → ℕ) → List A → Bool
not_ascending key [] = false
not_ascending key (x ∷ []) = false
not_ascending key (x ∷ y ∷ rest) = leb (key y) (key x) || not_ascending key (y ∷ rest)

unfoldable pub verify_sorted_unique : Disputes → Result (Unit {0})
unfolding not_ascending
verify_sorted_unique disputes = do
  fail_if (not_ascending (λ (f : Fault). f.validator_key) disputes.faults) faults_not_sorted
  fail_if (not_ascending (λ (v : Verdict). v.report_hash) disputes.verdicts) verdicts_not_sorted
  for_each
      (λ (v : Verdict).
        fail_if (not_ascending (λ (j : Judgement). j.validator_index) v.judgements)
          judgements_not_sorted)
      disputes.verdicts

-- A signature of the validator at the index; a nil pointer at it panics.
unfoldable pub check_judgement_key : Verify → ℕ → Judgement → Option (Option ℕ) → Result (Unit {0})
check_judgement_key verify report_hash j none = err invalid_validator_index
check_judgement_key verify report_hash j (some none) = crash
check_judgement_key verify report_hash j (some (some key)) =
    fail_if (not (verify key (context_of j.is_valid) report_hash j.signature)) bad_signature

unfoldable pub verify_verdict_signatures : Verify → ℕ → ValidatorSets → Verdict → Result (Unit {0})
unfolding check_judgement_key
verify_verdict_signatures verify new_timeslot validators verdict =
    let current_epoch = new_timeslot / timeslots_per_epoch in
    let validator_set =
      if verdict.epoch_index == current_epoch
      then validators.current_validators
      else validators.archived_validators in
    for_each
      (λ (j : Judgement).
        check_judgement_key verify verdict.report_hash j
          (get_elem? validator_set j.validator_index))
      verdict.judgements
    >> fail_if (ltb current_epoch verdict.epoch_index) bad_judgement_age
    >> fail_if (ltb 1 (current_epoch - verdict.epoch_index)) bad_judgement_age

unfoldable pub verify_all_signatures : Verify → ℕ → Disputes → ValidatorSets → Result (Unit {0})
unfolding verify_verdict_signatures
verify_all_signatures verify new_timeslot disputes validators = do
  for_each (verify_verdict_signatures verify new_timeslot validators) disputes.verdicts
  for_each
      (λ (c : Culprit).
        fail_if (not (verify c.validator_key guarantee c.report_hash c.signature)) bad_signature)
      disputes.culprits
  for_each
      (λ (f : Fault).
        fail_if (not (verify f.validator_key (context_of f.is_valid) f.report_hash f.signature))
          bad_signature)
      disputes.faults

unfoldable pub verify_not_already_offending : List Fault → List ℕ → Result (Unit {0})
verify_not_already_offending faults offending_validators =
    for_each
      (λ (f : Fault).
        fail_if (contains offending_validators f.validator_key) offender_already_reported)
      faults

unfoldable pub verify_not_already_judged : List Verdict → Judgements → Result (Unit {0})
verify_not_already_judged verdicts judgements =
    for_each
      (λ (v : Verdict).
        fail_if
          (contains judgements.good_work_reports v.report_hash
            || contains judgements.bad_work_reports v.report_hash
            || contains judgements.wonky_work_reports v.report_hash)
          already_judged)
      verdicts

-- `allPositive`, from the first verdict on the hash: every judgement is positive.
unfoldable pub all_positive : ℕ → List Verdict → Bool
unfolding count_positive_judgements
all_positive report_hash [] = false
all_positive report_hash (v ∷ vs) =
    let rest = all_positive report_hash vs in
    if v.report_hash == report_hash
    then count_positive_judgements v.judgements == length v.judgements
    else rest

abbrev pub same : Bool → Bool → Bool
same true b = b
same false b = not b

unfoldable pub verify_faults : Verify → List Fault → List Verdict → List ℕ → Result (Unit {0})
unfolding all_positive
verify_faults verify faults verdicts offending_validators =
    for_each
      (λ (f : Fault).
        fail_if (same f.is_valid (all_positive f.report_hash verdicts)) fault_verdict_wrong
        >> fail_if (contains offending_validators f.validator_key) offender_already_reported
        >> fail_if (not (verify f.validator_key (context_of f.is_valid) f.report_hash f.signature))
            bad_signature)
      faults
