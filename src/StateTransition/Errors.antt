-- ===== src/StateTransition/Errors.antt =====
-- internal/statetransition: the errors, by their messages, and what a fallible function returns.
use strawberry.Base.{Bool, true, false, List, [], ◌∷◌, ◌≡◌, refl, All}

pub data Error : Type 0 where
  faults_not_sorted verdicts_not_sorted judgements_not_sorted culprits_not_sorted : Error
  invalid_validator_index bad_signature bad_judgement_age : Error
  offender_already_reported already_judged fault_verdict_wrong : Error
  bad_vote_split not_enough_faults not_enough_culprits culprits_verdict_not_bad : Error
  core_not_engaged report_timeout bad_order bad_validator_index bad_attestation_parent : Error
  guarantee_from_future report_epoch_before_last : Error
  timeslot_out_of_range wrong_assignment marshal_failed : Error
  duplicate_package future_report_slot bad_service_id bad_code_hash bad_core_index : Error
  work_report_too_big core_unauthorized core_engaged service_item_gas_too_low : Error
  work_report_gas_too_high too_many_dependencies package_cardinality bad_state_root : Error
  bad_beefy_mmr_root anchor_not_recent lookup_anchor_out_of_range no_record_of_header : Error
  past_package segment_root_lookup_invalid dependency_missing out_of_order_guarantee : Error
  not_sorted_guarantors insufficient_guarantees : Error

-- A value, an error, or a run-time panic of Go (a nil pointer).
pub data Result {ℓ} (A : Type ℓ) : Type ℓ where
  ok : A → Result A
  err : Error → Result A
  crash : Result A

infixl 5 ◌>>=◌ ◌>>◌
abbrev pub ◌>>=◌ {ℓ κ} : {A : Type ℓ} {B : Type κ} → Result A → (A → Result B) → Result B
ok a >>= f = f a
err e >>= f = err e
crash >>= f = crash

abbrev pub ◌>>◌ {ℓ} : {B : Type ℓ} → Result (Unit {0}) → Result B → Result B
m >> k = m >>= λ _. k

-- `if bad { return errors.New(…) }`
abbrev pub fail_if : Bool → Error → Result (Unit {0})
fail_if true e = err e
fail_if false e = ok tt

-- A loop over a collection whose body may return an error.
abbrev pub for_each {ℓ} : {A : Type ℓ} → (A → Result (Unit {0})) → List A → Result (Unit {0})
for_each body [] = ok tt
for_each body (x ∷ xs) = body x >> for_each body xs

-- What a successful sequence consists of.
pub >>=-eq-ok {ℓ κ} :
    {A : Type ℓ} {B : Type κ} (r : Result A) (f : A → Result B) {b : B}
    → (r >>= f) ≡ ok b
    → (a : A) × (r ≡ ok a) × (f a ≡ ok b)
>>=-eq-ok (ok a) f e = (a, refl, e)
>>=-eq-ok (err x) f e = cc
>>=-eq-ok crash f e = cc

pub fail_if-eq-ok : (b : Bool) (e : Error) → fail_if b e ≡ ok tt → b ≡ false
fail_if-eq-ok true e h = cc
fail_if-eq-ok false e h = refl

pub ok-injective {ℓ} : {A : Type ℓ} {x y : A} → ok x ≡ ok y → x ≡ y
ok-injective e = cc

pub err-not-ok {ℓ} : {A : Type ℓ} {e : Error} {a : A} → err e ≡ ok a → ⊥
err-not-ok h = cc

pub >>-eq-ok {ℓ} :
    {B : Type ℓ} (r : Result (Unit {0})) (k : Result B) {b : B}
    → (r >> k) ≡ ok b
    → (r ≡ ok tt) × (k ≡ ok b)
>>-eq-ok (ok tt) k e = (refl, e)
>>-eq-ok (err x) k e = cc
>>-eq-ok crash k e = cc

-- A loop that ends without an error has passed its body on every element.
pub for_each-All {ℓ} :
    {A : Type ℓ} (body : A → Result (Unit {0})) (xs : List A)
    → for_each body xs ≡ ok tt
    → All (λ x. body x ≡ ok tt) xs
for_each-All body [] e = tt
for_each-All body (x ∷ xs) e =
    let p = >>-eq-ok (body x) (for_each body xs) e in (p.0, for_each-All body xs p.1)
