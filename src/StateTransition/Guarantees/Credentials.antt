-- ===== src/StateTransition/Guarantees/Credentials.antt =====
-- The age of a guarantee and the signatures of its guarantors. The hash of a report, `crypto.HashData`
-- of its encoding, is a parameter, where `none` is an error of the encoding, and so is `ed25519.Verify`.
-- Every key has its 32 bytes, so the check of their number has no place here.
use strawberry.Base.{
  ℕ, ◌/◌, not, Option, none, some, List, [], ◌∷◌, ◌++◌, get_elem?, get_or, ltb, leb, ◌==◌,
  if◌then◌else◌, sub_w, contains,
}
use strawberry.StateTransition.Constants.{validator_rotation_period, timeslots_per_epoch}
use strawberry.StateTransition.Errors.{
  Result, ok, err, crash, ◌>>=◌, ◌>>◌, fail_if, guarantee_from_future, report_epoch_before_last,
  wrong_assignment, invalid_validator_index, bad_signature, marshal_failed,
}
use strawberry.StateTransition.Disputes.Extrinsic.{guarantee, Verify, ValidatorSets}
use strawberry.StateTransition.Reports.{WorkReport, CredentialSignature, Guarantee}
use strawberry.StateTransition.Guarantees.{permute_assignments, is_validator_assigned_to_core}

unfoldable pub verify_guarantee_age : Guarantee → ℕ → Result (Unit {0})
verify_guarantee_age g current_timeslot =
    let guarantee_rotation = g.timeslot / validator_rotation_period in
    let current_rotation = current_timeslot / validator_rotation_period in
    if ltb current_timeslot g.timeslot
    then err guarantee_from_future
    else if leb (sub_w 32 current_rotation guarantee_rotation) 1
    then ok tt
    else err report_epoch_before_last

-- The validators, the entropy and the slot that the assignment to cores is made from. The entropy pool
-- is a list of four hashes, each the list of its bytes.
unfoldable pub determine_validators_and_data_for_permutation :
    ℕ → ℕ → List (List ℕ) → ValidatorSets → List (Option ℕ) × List ℕ × ℕ
determine_validators_and_data_for_permutation guarantee_timeslot current_timeslot pool validators =
    let current_rotation = current_timeslot / validator_rotation_period in
    let guarantee_rotation = guarantee_timeslot / validator_rotation_period in
    let previous = sub_w 32 current_timeslot validator_rotation_period in
    if guarantee_rotation == current_rotation
    then (validators.current_validators, get_or pool 2 [], current_timeslot)
    else if current_timeslot / timeslots_per_epoch == previous / timeslots_per_epoch
    then (validators.current_validators, get_or pool 2 [], previous)
    else (validators.archived_validators, get_or pool 3 [], previous)

-- `reporters.Add(key)`
abbrev pub add_reporter : List ℕ → ℕ → List ℕ
add_reporter reporters key = if contains reporters key then reporters else reporters ++ (key ∷ [])

-- The key of the validator at the index; a nil pointer there panics.
abbrev pub key_at : List (Option ℕ) → ℕ → Result ℕ
key_at validators index = elim (get_elem? validators index) [
  | none ↦ err invalid_validator_index
  | some none ↦ crash
  | some (some key) ↦ ok key
]

-- The loop over the credentials, with the reporters so far.
unfoldable pub verify_credentials :
    Verify → ℕ → ℕ → List ℕ → List (Option ℕ) → List CredentialSignature → List ℕ → Result (List ℕ)
unfolding is_validator_assigned_to_core
verify_credentials verify hash core_index core_assignments validators [] reporters = ok reporters
verify_credentials verify hash core_index core_assignments validators (c ∷ cs) reporters = do
  fail_if (not (is_validator_assigned_to_core c.validator_index core_index core_assignments))
      wrong_assignment
  key ← key_at validators c.validator_index
  fail_if (not (verify key guarantee hash c.signature)) bad_signature
  verify_credentials verify hash core_index core_assignments validators cs
      (add_reporter reporters key)

abbrev pub or_crash {ℓ} : {A : Type ℓ} → Option A → Result A
or_crash none = crash
or_crash (some a) = ok a

abbrev pub or_marshal_failed {ℓ} : {A : Type ℓ} → Option A → Result A
or_marshal_failed none = err marshal_failed
or_marshal_failed (some a) = ok a

-- What the guarantees are checked with: `crypto.HashData`, the hash of a report, and `ed25519.Verify`.
pub record Crypto : Type 0 where
  pub hash_data : List ℕ → List ℕ
  pub report_hash : WorkReport → Option ℕ
  pub verify : Verify

unfoldable pub verify_guarantee_credentials :
    Crypto → Guarantee → ValidatorSets → List (List ℕ) → ℕ → Result (List ℕ)
unfolding determine_validators_and_data_for_permutation permute_assignments verify_credentials
verify_guarantee_credentials crypto g validators pool current_timeslot =
    let (chosen, entropy, timeslot) =
      determine_validators_and_data_for_permutation g.timeslot current_timeslot pool validators in
    do
      core_assignments ← or_crash (permute_assignments crypto.hash_data entropy timeslot)
      hash ← or_marshal_failed (crypto.report_hash g.work_report)
      verify_credentials crypto.verify hash g.work_report.core_index core_assignments chosen
          g.credentials []
