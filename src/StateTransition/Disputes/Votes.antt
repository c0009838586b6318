-- ===== src/StateTransition/Disputes/Votes.antt =====
-- The reports that the verdicts of a block judge.
use strawberry.Base.{
  ℕ, ◌≡◌, refl, sym, ap, ◌∙◌, ◌⊎◌, inl, inr, arith, List, [], ◌∷◌, ◌++◌, ◌==◌, if◌then◌else◌, All,
  Bool-cases, subst,
}
use mathlib.Core.List.{append_assoc, append-nil}
use strawberry.StateTransition.Errors.{ok, >>=-eq-ok, ok-injective, for_each}
use strawberry.StateTransition.Disputes.Extrinsic.{
  Verify, Verdict, Culprit, Disputes, Judgements, ValidatorSets, count_positive_judgements,
}
use strawberry.StateTransition.Disputes.{calculate_new_judgements}
use strawberry.StateTransition.Disputes.Checks.{
  verify_sorted_unique, verify_all_signatures, verify_not_already_offending,
  verify_not_already_judged, verify_faults,
}
use strawberry.StateTransition.Disputes.Process.{
  two_thirds_plus_one, one_third, process_positive_verdict, process_negative_verdict,
  process_wonky_verdict, process_verdict, process_each, process_verdicts, check_culprit,
  verify_culprits, report_culprits, process_culprits,
}

-- The reports whose verdict has this number of positive judgements: { r | (r, votes) ∈ V }.
abbrev pub judged_by : ℕ → List Verdict → List ℕ
judged_by votes [] = []
judged_by votes (v ∷ vs) =
    if count_positive_judgements v.judgements == votes
    then v.report_hash ∷ judged_by votes vs
    else judged_by votes vs

abbrev pub IsSplit : Verdict → Type 0
IsSplit v =
    (count_positive_judgements v.judgements ≡ two_thirds_plus_one)
    ⊎ (count_positive_judgements v.judgements ≡ 0)
    ⊎ (count_positive_judgements v.judgements ≡ one_third)

-- Equations 112 to 114 of the Graypaper: what the verdicts vs make of the judgements j.
pub record Judged (vs : List Verdict) (j j' : Judgements) : Type 0 where
  pub good : j'.good_work_reports ≡ j.good_work_reports ++ judged_by two_thirds_plus_one vs
  pub bad : j'.bad_work_reports ≡ j.bad_work_reports ++ judged_by 0 vs
  pub wonky : j'.wonky_work_reports ≡ j.wonky_work_reports ++ judged_by one_third vs
  pub split : All IsSplit vs

Judged-process_verdict :
    (d : Disputes) (v : Verdict) {j j' : Judgements}
    → process_verdict d v j ≡ ok j'
    → Judged (v ∷ []) j j'
unfolding process_verdict process_positive_verdict process_negative_verdict process_wonky_verdict
Judged-process_verdict d v {j = j} h = ground (
  arith,
  append-nil j.good_work_reports,
  append-nil j.bad_work_reports,
  append-nil j.wonky_work_reports,
)

Judged-none : (j : Judgements) → Judged [] j j
Judged-none j = ground (
  arith,
  append-nil j.good_work_reports,
  append-nil j.bad_work_reports,
  append-nil j.wonky_work_reports,
)

judged_by-append :
    (votes : ℕ) (v : Verdict) (vs : List Verdict) (xs : List ℕ)
    → (xs ++ judged_by votes (v ∷ [])) ++ judged_by votes vs ≡ xs ++ judged_by votes (v ∷ vs)
judged_by-append votes v vs xs =
    elim (Bool-cases (count_positive_judgements v.judgements == votes)) [
      | inl t ↦ rw t (append_assoc xs (v.report_hash ∷ []) (judged_by votes vs))
      | inr f ↦ rw f (ap (λ l. l ++ judged_by votes vs) (append-nil xs))
    ]

Judged-trans :
    (v : Verdict) (vs : List Verdict) {i j k : Judgements}
    → Judged (v ∷ []) i j
    → Judged vs j k
    → Judged (v ∷ vs) i k
Judged-trans v vs {i = i} p q = record {
  good =
      q.good
      ∙ ap (λ l. l ++ judged_by two_thirds_plus_one vs) p.good
      ∙ judged_by-append two_thirds_plus_one v vs i.good_work_reports;
  bad = q.bad ∙ ap (λ l. l ++ judged_by 0 vs) p.bad ∙ judged_by-append 0 v vs i.bad_work_reports;
  wonky =
      q.wonky
      ∙ ap (λ l. l ++ judged_by one_third vs) p.wonky
      ∙ judged_by-append one_third v vs i.wonky_work_reports;
  split = (p.split.0, q.split);
}

Judged-process_each :
    (d : Disputes) (vs : List Verdict) {j j' : Judgements}
    → process_each d vs j ≡ ok j'
    → Judged vs j j'
unfolding process_each
Judged-process_each d [] {j = j} h = subst (Judged [] j) (ok-injective h) (Judged-none j)
Judged-process_each d (v ∷ vs) {j = j} h =
    let (k, first, rest) = >>=-eq-ok (process_verdict d v j) _ h in
    Judged-trans v vs (Judged-process_verdict d v first) (Judged-process_each d vs rest)

-- `processCulprits` judges no report.
pub process_culprits-reports :
    (verify : Verify) (cs : List Culprit) (vs : List Verdict) (j : Judgements) {j' : Judgements}
    → process_culprits verify cs vs j ≡ ok j'
    → (j'.good_work_reports ≡ j.good_work_reports)
      × (j'.bad_work_reports ≡ j.bad_work_reports)
      × (j'.wonky_work_reports ≡ j.wonky_work_reports)
      × (j'.offending_validators ≡ report_culprits cs j.offending_validators)
unfolding process_culprits
process_culprits-reports verify cs vs j h =
    let (u, checked, h1) = >>=-eq-ok (for_each (λ (c : Culprit). check_culprit c vs) cs) _ h in
    let (w, verified, h2) =
      >>=-eq-ok (verify_culprits verify cs j.bad_work_reports j.offending_validators) _ h1 in
    let e = ok-injective h2 in
    (
      sym (ap (λ (k : Judgements). k.good_work_reports) e),
      sym (ap (λ (k : Judgements). k.bad_work_reports) e),
      sym (ap (λ (k : Judgements). k.wonky_work_reports) e),
      sym (ap (λ (k : Judgements). k.offending_validators) e),
    )

-- A successful `CalculateNewJudgements` has passed the check of the earlier judgements, and has
-- judged the verdicts, then the culprits.
pub record Steps (verify : Verify) (new_timeslot : ℕ) (d : Disputes) (j : Judgements)
    (validators : ValidatorSets) (j' : Judgements) : Type 0 where
  pub judgements : Judgements
  pub sorted : verify_sorted_unique d ≡ ok tt
  pub signed : verify_all_signatures verify new_timeslot d validators ≡ ok tt
  pub fresh : verify_not_already_judged d.verdicts j ≡ ok tt
  pub verdicts : process_each d d.verdicts j ≡ ok judgements
  pub culprits : process_culprits verify d.culprits d.verdicts judgements ≡ ok j'

pub unit-eq : (u : Unit {0}) → u ≡ tt
unit-eq tt = refl

pub calculate_new_judgements-Steps :
    (verify : Verify) (new_timeslot : ℕ) (d : Disputes) (j : Judgements)
    (validators : ValidatorSets) {j' : Judgements}
    → calculate_new_judgements verify new_timeslot d j validators ≡ ok j'
    → Steps verify new_timeslot d j validators j'
unfolding calculate_new_judgements process_verdicts
calculate_new_judgements-Steps verify new_timeslot d j validators h =
    let (u1, sorted, h1) = >>=-eq-ok (verify_sorted_unique d) _ h in
    let (u2, signed, h2) =
      >>=-eq-ok (verify_all_signatures verify new_timeslot d validators) _ h1 in
    let (u3, fresh_faults, h3) =
      >>=-eq-ok (verify_not_already_offending d.faults j.offending_validators) _ h2 in
    let (u4, fresh, h4) = >>=-eq-ok (verify_not_already_judged d.verdicts j) _ h3 in
    let (u5, faults, h5) =
      >>=-eq-ok (verify_faults verify d.faults d.verdicts j.offending_validators) _ h4 in
    let (k, verdicts, culprits) = >>=-eq-ok (process_each d d.verdicts j) _ h5 in
    record {
      judgements = k;
      sorted = sorted ∙ ap ok (unit-eq u1);
      signed = signed ∙ ap ok (unit-eq u2);
      fresh = fresh ∙ ap ok (unit-eq u4);
      verdicts = verdicts;
      culprits = culprits;
    }

-- A block whose disputes are accepted judges each of its verdicts by the votes: the good, the bad and
-- the wonky reports grow by the reports with two thirds plus one, no, and one third positive votes, in
-- the order of the verdicts, and no verdict has another number of votes.
pub calculate_new_judgements-Judged :
    (verify : Verify) (new_timeslot : ℕ) (d : Disputes) (j : Judgements)
    (validators : ValidatorSets) {j' : Judgements}
    → calculate_new_judgements verify new_timeslot d j validators ≡ ok j'
    → Judged d.verdicts j j'
calculate_new_judgements-Judged verify new_timeslot d j validators h =
    let s = calculate_new_judgements-Steps verify new_timeslot d j validators h in
    let p = Judged-process_each d d.verdicts s.verdicts in
    let q = process_culprits-reports verify d.culprits d.verdicts s.judgements s.culprits in
    record { good = q.0 ∙ p.good; bad = q.1 ∙ p.bad; wonky = q.2 ∙ p.wonky; split = p.split }
