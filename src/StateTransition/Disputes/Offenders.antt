-- ===== src/StateTransition/Disputes/Offenders.antt =====
-- Which validators the disputes of a block make offenders.
use strawberry.Base.{
  ℕ, Bool, true, false, ◌||◌, ◌≡◌, refl, ap, ◌∙◌, arith, List, [], ◌∷◌, ◌==◌, contains,
  contains-append, if◌then◌else◌,
}
use strawberry.StateTransition.Errors.{ok, >>=-eq-ok}
use strawberry.StateTransition.Disputes.Extrinsic.{
  Verify, Verdict, Culprit, Fault, Disputes, Judgements, ValidatorSets, count_positive_judgements,
  append_missing,
}
use strawberry.StateTransition.Disputes.{calculate_new_judgements}
use strawberry.StateTransition.Disputes.Process.{
  two_thirds_plus_one, denies, report_faults, report_culprits, process_verdict, process_each,
  process_positive_verdict, process_negative_verdict, process_wonky_verdict,
}
use strawberry.StateTransition.Disputes.Votes.{
  process_culprits-reports, calculate_new_judgements-Steps,
}

-- A culprit with this key.
abbrev pub is_culprit : ℕ → List Culprit → Bool
is_culprit key [] = false
is_culprit key (c ∷ cs) = c.validator_key == key || is_culprit key cs

-- A fault with this key that denies the report.
abbrev pub denied_by : ℕ → ℕ → List Fault → Bool
denied_by report_hash key [] = false
denied_by report_hash key (f ∷ fs) =
    (if denies report_hash f then f.validator_key == key else false) || denied_by report_hash key fs

-- A fault with this key that denies a report of a verdict with two thirds plus one positive votes.
abbrev pub denies_good : ℕ → List Fault → List Verdict → Bool
denies_good key faults [] = false
denies_good key faults (v ∷ vs) =
    (if count_positive_judgements v.judgements == two_thirds_plus_one
      then denied_by v.report_hash key faults
      else false)
    || denies_good key faults vs

||-assoc : (a b c : Bool) → ((a || b) || c) ≡ (a || (b || c))
||-assoc true b c = refl
||-assoc false b c = refl

contains-append_missing :
    (xs : List ℕ) (item key : ℕ)
    → contains (append_missing xs item) key ≡ (contains xs key || item == key)
contains-append_missing xs item key = ground (arith, contains-append xs (item ∷ []) key)

contains-report_culprits :
    (cs : List Culprit) (offenders : List ℕ) (key : ℕ)
    → contains (report_culprits cs offenders) key ≡ (contains offenders key || is_culprit key cs)
unfolding report_culprits
contains-report_culprits [] offenders key = ground arith
contains-report_culprits (c ∷ cs) offenders key =
    contains-report_culprits cs (append_missing offenders c.validator_key) key
    ∙ ap (λ b. b || is_culprit key cs) (contains-append_missing offenders c.validator_key key)
    ∙ ||-assoc (contains offenders key) (c.validator_key == key) (is_culprit key cs)

contains-report_faults :
    (report_hash : ℕ) (fs : List Fault) (offenders : List ℕ) (key : ℕ)
    → contains (report_faults report_hash fs offenders) key
      ≡ (contains offenders key || denied_by report_hash key fs)
unfolding report_faults
contains-report_faults report_hash [] offenders key = ground arith
contains-report_faults report_hash (f ∷ fs) offenders key = ground (
  arith,
  contains-report_faults report_hash fs offenders key,
  contains-report_faults report_hash fs (append_missing offenders f.validator_key) key,
  contains-append_missing offenders f.validator_key key,
)

-- What one verdict makes of the offenders.
offenders-process_verdict :
    (d : Disputes) (v : Verdict) (j : Judgements) {j' : Judgements} (key : ℕ)
    → process_verdict d v j ≡ ok j'
    → contains j'.offending_validators key
      ≡ (contains j.offending_validators key || denies_good key d.faults (v ∷ []))
unfolding process_verdict process_positive_verdict process_negative_verdict process_wonky_verdict
offenders-process_verdict d v j key h =
    ground (arith, contains-report_faults v.report_hash d.faults j.offending_validators key)

offenders-process_each :
    (d : Disputes) (vs : List Verdict) (j : Judgements) {j' : Judgements} (key : ℕ)
    → process_each d vs j ≡ ok j'
    → contains j'.offending_validators key
      ≡ (contains j.offending_validators key || denies_good key d.faults vs)
unfolding process_each
offenders-process_each d [] j key h = ground arith
offenders-process_each d (v ∷ vs) j key h =
    let (k, first, rest) = >>=-eq-ok (process_verdict d v j) _ h in
    ground
      (arith, offenders-process_each d vs k key rest, offenders-process_verdict d v j key first)

-- After a block whose disputes are accepted, the offenders are those from before, the culprits, and the
-- validators with a fault that denies a report of a verdict with two thirds plus one positive votes;
-- a fault that affirms a report adds none.
pub calculate_new_judgements-offenders :
    (verify : Verify) (new_timeslot : ℕ) (d : Disputes) (j : Judgements)
    (validators : ValidatorSets) {j' : Judgements} (key : ℕ)
    → calculate_new_judgements verify new_timeslot d j validators ≡ ok j'
    → contains j'.offending_validators key ≡ (
        contains j.offending_validators key
        || (denies_good key d.faults d.verdicts || is_culprit key d.culprits))
calculate_new_judgements-offenders verify new_timeslot d j validators key h =
    let s = calculate_new_judgements-Steps verify new_timeslot d j validators h in
    let q = process_culprits-reports verify d.culprits d.verdicts s.judgements s.culprits in
    ap (λ xs. contains xs key) q.3
    ∙ contains-report_culprits d.culprits s.judgements.offending_validators key
    ∙ ap (λ b. b || is_culprit key d.culprits)
        (offenders-process_each d d.verdicts j key s.verdicts)
    ∙ ||-assoc (contains j.offending_validators key) (denies_good key d.faults d.verdicts)
        (is_culprit key d.culprits)
