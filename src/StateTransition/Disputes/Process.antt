-- ===== src/StateTransition/Disputes/Process.antt =====
-- The changes that the verdicts and the culprits make to the judgements.
use strawberry.Base.{
  contains, ℕ, suc, ◌+◌, ◌*◌, ◌/◌, Bool, false, not, List, [], ◌∷◌, ◌++◌, length, ltb, ◌==◌,
  if◌then◌else◌,
}
use strawberry.StateTransition.Constants.{number_of_validators}
use strawberry.StateTransition.Errors.{
  Result, ok, err, ◌>>=◌, ◌>>◌, fail_if, for_each, culprits_not_sorted, bad_signature,
  offender_already_reported, bad_vote_split, not_enough_faults, not_enough_culprits,
  culprits_verdict_not_bad,
}
use strawberry.StateTransition.Disputes.Extrinsic.{
  guarantee, Verify, Verdict, Culprit, Fault, Disputes, Judgements, count_positive_judgements,
  append_missing,
}
use strawberry.StateTransition.Disputes.Checks.{not_ascending}

abbrev pub two_thirds_plus_one : ℕ
two_thirds_plus_one = 2 * number_of_validators / 3 + 1

abbrev pub one_third : ℕ
one_third = number_of_validators / 3

-- The test of the loop of `processPositiveVerdict`: the fault is on this report and denies it.
abbrev pub denies : ℕ → Fault → Bool
denies report_hash f = if f.report_hash == report_hash then not f.is_valid else false

-- The loop: the number of faults that deny the report, and the offenders with their keys.
unfoldable pub count_faults : ℕ → List Fault → ℕ
count_faults report_hash [] = 0
count_faults report_hash (f ∷ fs) =
    let rest = count_faults report_hash fs in if denies report_hash f then suc rest else rest

unfoldable pub report_faults : ℕ → List Fault → List ℕ → List ℕ
report_faults report_hash [] offenders = offenders
report_faults report_hash (f ∷ fs) offenders =
    report_faults report_hash fs
      (if denies report_hash f then append_missing offenders f.validator_key else offenders)

unfoldable pub process_positive_verdict : Verdict → List Fault → Judgements → Result Judgements
unfolding count_faults report_faults
process_positive_verdict verdict faults judgements = do
  fail_if (count_faults verdict.report_hash faults == 0) not_enough_faults
  ok (record judgements {
    offending_validators = report_faults verdict.report_hash faults judgements.offending_validators;
    good_work_reports = judgements.good_work_reports ++ (verdict.report_hash ∷ []);
  })

unfoldable pub process_negative_verdict : Verdict → List Culprit → Judgements → Result Judgements
process_negative_verdict verdict culprits judgements = do
  fail_if (ltb (length culprits) 2) not_enough_culprits
  ok (record judgements {
    bad_work_reports = judgements.bad_work_reports ++ (verdict.report_hash ∷ []);
  })

unfoldable pub process_wonky_verdict : Verdict → Judgements → Judgements
process_wonky_verdict verdict judgements = record judgements {
  wonky_work_reports = judgements.wonky_work_reports ++ (verdict.report_hash ∷ []);
}

-- The switch on the number of positive judgements.
unfoldable pub process_verdict : Disputes → Verdict → Judgements → Result Judgements
unfolding count_positive_judgements process_positive_verdict process_negative_verdict
    process_wonky_verdict
process_verdict disputes verdict judgements =
    let positive = count_positive_judgements verdict.judgements in
    if positive == two_thirds_plus_one
    then process_positive_verdict verdict disputes.faults judgements
    else if positive == 0
    then process_negative_verdict verdict disputes.culprits judgements
    else if positive == one_third
    then ok (process_wonky_verdict verdict judgements)
    else err bad_vote_split

unfoldable pub process_each : Disputes → List Verdict → Judgements → Result Judgements
unfolding process_verdict
process_each disputes [] judgements = ok judgements
process_each disputes (v ∷ vs) judgements =
    process_verdict disputes v judgements >>= λ j. process_each disputes vs j

unfoldable pub process_verdicts : Disputes → Judgements → Result Judgements
unfolding process_each
process_verdicts disputes judgements = process_each disputes disputes.verdicts judgements

-- The inner loop of `processCulprits`, over the verdicts: `allNegative`, or the error.
unfoldable pub check_culprit : Culprit → List Verdict → Result (Unit {0})
unfolding count_positive_judgements
check_culprit c [] = err culprits_verdict_not_bad
check_culprit c (v ∷ vs) =
    let rest = check_culprit c vs in
    if v.report_hash == c.report_hash
    then fail_if (ltb 0 (count_positive_judgements v.judgements)) bad_vote_split
    else rest

unfoldable pub verify_culprits : Verify → List Culprit → List ℕ → List ℕ → Result (Unit {0})
unfolding not_ascending
verify_culprits verify culprits bad_reports offending_validators = do
  fail_if (not_ascending (λ (c : Culprit). c.validator_key) culprits) culprits_not_sorted
  for_each
      (λ (c : Culprit).
        fail_if (not (verify c.validator_key guarantee c.report_hash c.signature)) bad_signature
        >> fail_if (not (contains bad_reports c.report_hash)) culprits_verdict_not_bad
        >> fail_if (contains offending_validators c.validator_key) offender_already_reported)
      culprits

unfoldable pub report_culprits : List Culprit → List ℕ → List ℕ
report_culprits [] offenders = offenders
report_culprits (c ∷ cs) offenders = report_culprits cs (append_missing offenders c.validator_key)

unfoldable pub process_culprits :
    Verify → List Culprit → List Verdict → Judgements → Result Judgements
unfolding check_culprit verify_culprits report_culprits
process_culprits verify culprits verdicts judgements = do
  for_each (λ (c : Culprit). check_culprit c verdicts) culprits
  verify_culprits verify culprits judgements.bad_work_reports judgements.offending_validators
  ok (record judgements {
    offending_validators = report_culprits culprits judgements.offending_validators;
  })
