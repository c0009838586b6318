-- ===== src/StateTransition/Guarantees/Sound.antt =====
-- What verified credentials say.
use strawberry.Base.{
  ℕ, Bool, true, false, not, ◌≡◌, refl, ap, ◌∙◌, Option, none, some, List, [], ◌∷◌, get_elem?, All,
  Option-cases, inl, inr, arith,
}
use strawberry.StateTransition.Errors.{
  ok, >>=-eq-ok, fail_if, fail_if-eq-ok, wrong_assignment, bad_signature,
}
use strawberry.StateTransition.Disputes.Extrinsic.{guarantee, Verify, ValidatorSets}
use strawberry.StateTransition.Disputes.Votes.{unit-eq}
use strawberry.StateTransition.Reports.{CredentialSignature, Guarantee}
use strawberry.StateTransition.Guarantees.{permute_assignments, is_validator_assigned_to_core}
use strawberry.StateTransition.Guarantees.Engaged.{or_crash-eq-ok}
use strawberry.StateTransition.Guarantees.Credentials.{
  Crypto, key_at, add_reporter, or_crash, or_marshal_failed, verify_credentials,
  verify_guarantee_credentials, determine_validators_and_data_for_permutation,
}

-- The validator is assigned to the core and has signed the hash.
pub record Vouches (verify : Verify) (hash core_index : ℕ) (core_assignments : List ℕ)
    (validators : List (Option ℕ)) (c : CredentialSignature) : Type 0 where
  pub assigned : get_elem? core_assignments c.validator_index ≡ some core_index
  pub key : ℕ
  pub is_key : get_elem? validators c.validator_index ≡ some (some key)
  pub signed : verify key guarantee hash c.signature ≡ true

not-false : (b : Bool) → not b ≡ false → b ≡ true
not-false true e = refl
not-false false e = cc

assigned-eq :
    (index core : ℕ) (core_assignments : List ℕ)
    → is_validator_assigned_to_core index core core_assignments ≡ true
    → get_elem? core_assignments index ≡ some core
unfolding is_validator_assigned_to_core
assigned-eq index core core_assignments e = elim (Option-cases (get_elem? core_assignments index)) [
  | inl gone ↦ ground (arith, gone)
  | inr (a, found) ↦ ground (arith, found)
]

key_at-eq-ok :
    (validators : List (Option ℕ)) (index : ℕ) {key : ℕ}
    → key_at validators index ≡ ok key
    → get_elem? validators index ≡ some (some key)
key_at-eq-ok validators index e = elim (Option-cases (get_elem? validators index)) [
  | inl gone ↦ ground (arith, gone)
  | inr (k, found) ↦ ground (arith, found)
]

verify_credentials-Vouches :
    (verify : Verify) (hash core_index : ℕ) (core_assignments : List ℕ)
    (validators : List (Option ℕ)) (cs : List CredentialSignature) (reporters : List ℕ)
    {found : List ℕ}
    → verify_credentials verify hash core_index core_assignments validators cs reporters ≡ ok found
    → All (Vouches verify hash core_index core_assignments validators) cs
unfolding verify_credentials
verify_credentials-Vouches verify hash core_index core_assignments validators [] reporters e = tt
verify_credentials-Vouches verify hash core_index core_assignments validators (c ∷ cs) reporters e =
    let member = is_validator_assigned_to_core c.validator_index core_index core_assignments in
    let (u, assigned, e1) = >>=-eq-ok (fail_if (not member) wrong_assignment) _ e in
    let (key, is_key, e2) = >>=-eq-ok (key_at validators c.validator_index) _ e1 in
    let (w, signed, rest) =
      >>=-eq-ok (fail_if (not (verify key guarantee hash c.signature)) bad_signature) _ e2 in
    (
      record {
        assigned = assigned-eq c.validator_index core_index core_assignments (
            not-false member
              (fail_if-eq-ok (not member) wrong_assignment (assigned ∙ ap ok (unit-eq u))));
        key = key;
        is_key = key_at-eq-ok validators c.validator_index is_key;
        signed = not-false _ (fail_if-eq-ok _ bad_signature (signed ∙ ap ok (unit-eq w)));
      },
      verify_credentials-Vouches verify hash core_index core_assignments validators cs
          (add_reporter reporters key) rest,
    )

or_marshal_failed-eq-ok :
    {A : Type 0} (o : Option A) {a : A} → or_marshal_failed o ≡ ok a → o ≡ some a
or_marshal_failed-eq-ok none e = cc
or_marshal_failed-eq-ok (some x) e = cc

-- A guarantee under the validators, the entropy and the slot that its permutation is made from.
pub record Accepted (crypto : Crypto) (g : Guarantee) (basis : List (Option ℕ) × List ℕ × ℕ)
    : Type 0 where
  pub core_assignments : List ℕ
  pub hash : ℕ
  pub permuted : permute_assignments crypto.hash_data basis.1 basis.2 ≡ some core_assignments
  pub hashed : crypto.report_hash g.work_report ≡ some hash
  pub vouched :
      All
        (Vouches crypto.verify hash g.work_report.core_index core_assignments basis.0)
        g.credentials

-- Every credential of a guarantee that `verifyGuaranteeCredentials` accepts is of a validator that the
-- permutation assigns to the core of the report, and is that validator's signature on the report.
pub verify_guarantee_credentials-Vouches :
    (crypto : Crypto) (g : Guarantee) (validators : ValidatorSets) (pool : List (List ℕ))
    (current_timeslot : ℕ) {found : List ℕ}
    → verify_guarantee_credentials crypto g validators pool current_timeslot ≡ ok found
    → Accepted crypto g
        (determine_validators_and_data_for_permutation g.timeslot current_timeslot pool validators)
unfolding verify_guarantee_credentials
verify_guarantee_credentials-Vouches crypto g validators pool current_timeslot e =
    let basis =
      determine_validators_and_data_for_permutation g.timeslot current_timeslot pool validators in
    let (assignments, permuted, e1) =
      >>=-eq-ok (or_crash (permute_assignments crypto.hash_data basis.1 basis.2)) _ e in
    let (hash, hashed, e2) =
      >>=-eq-ok (or_marshal_failed (crypto.report_hash g.work_report)) _ e1 in
    record {
      core_assignments = assignments;
      hash = hash;
      permuted = or_crash-eq-ok (permute_assignments crypto.hash_data basis.1 basis.2) permuted;
      hashed = or_marshal_failed-eq-ok (crypto.report_hash g.work_report) hashed;
      vouched =
          verify_credentials-Vouches crypto.verify hash g.work_report.core_index assignments basis.0
            g.credentials [] e2;
    }
