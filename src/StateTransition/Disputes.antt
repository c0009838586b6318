-- ===== src/StateTransition/Disputes.antt =====
-- `CalculateNewJudgements` of state_transition.go, with block/dispute.go: the verdicts, culprits and
-- faults of a block and the judgements of the state. `ed25519.Verify` is a parameter, as is what it
-- verifies: the context of a signature and the hash behind it.
pub mod Extrinsic
pub mod Checks
pub mod Process
pub mod Votes
pub mod Once
pub mod Offenders
pub mod Withdrawn
use strawberry.Base.{ℕ, Bool, Option, List}
use strawberry.StateTransition.Errors.{Result, ◌>>=◌, ◌>>◌}
use strawberry.StateTransition.Disputes.Extrinsic.{Disputes, Judgements, Verify, ValidatorSets}
use strawberry.StateTransition.Disputes.Checks.{
  verify_sorted_unique, verify_all_signatures, verify_not_already_offending,
  verify_not_already_judged, verify_faults,
}
use strawberry.StateTransition.Disputes.Process.{process_verdicts, process_culprits}

-- `CalculateNewJudgements`; the copy of the judgements is a new value. With an error the source
-- returns the judgements that it was given.
unfoldable pub calculate_new_judgements :
    Verify → ℕ → Disputes → Judgements → ValidatorSets → Result Judgements
unfolding verify_sorted_unique verify_all_signatures verify_not_already_offending
    verify_not_already_judged verify_faults process_verdicts process_culprits
calculate_new_judgements verify new_timeslot disputes judgements validators = do
  verify_sorted_unique disputes
  verify_all_signatures verify new_timeslot disputes validators
  verify_not_already_offending disputes.faults judgements.offending_validators
  verify_not_already_judged disputes.verdicts judgements
  verify_faults verify disputes.faults disputes.verdicts judgements.offending_validators
  new_judgements ← process_verdicts disputes judgements
  process_culprits verify disputes.culprits disputes.verdicts new_judgements
