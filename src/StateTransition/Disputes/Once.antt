-- ===== src/StateTransition/Disputes/Once.antt =====
-- No report is judged twice.
use strawberry.Base.{
  ℕ, ◌+◌, ◌≤◌, false, ◌||◌, ◌≡◌, refl, ap, subst, ◌∙◌, ◌⊎◌, inl, inr, arith, List, [], ◌∷◌, ◌==◌,
  Bool-cases, ==_iff, count, count-append, contains, count-contains,
}
use strawberry.StateTransition.Errors.{
  ok, >>=-eq-ok, fail_if, fail_if-eq-ok, already_judged, verdicts_not_sorted, faults_not_sorted,
}
use strawberry.StateTransition.Disputes.Extrinsic.{
  Verify, Verdict, Fault, Disputes, Judgements, ValidatorSets,
}
use strawberry.StateTransition.Disputes.{calculate_new_judgements}
use strawberry.StateTransition.Disputes.Checks.{
  not_ascending, verify_sorted_unique, verify_not_already_judged,
}
use strawberry.StateTransition.Disputes.Process.{two_thirds_plus_one, one_third}
use strawberry.StateTransition.Disputes.Votes.{
  judged_by, Judged, unit-eq, calculate_new_judgements-Steps, calculate_new_judgements-Judged,
}

-- How often the hash stands among the judged reports.
abbrev pub times_judged : ℕ → Judgements → ℕ
times_judged h j =
    count h j.good_work_reports + count h j.bad_work_reports + count h j.wonky_work_reports

abbrev pub JudgedOnce : Judgements → Type 0
JudgedOnce j = (h : ℕ) → times_judged h j ≤ 1

abbrev pub keys {ℓ} : {A : Type ℓ} → (A → ℕ) → List A → List ℕ
keys key [] = []
keys key (x ∷ xs) = key x ∷ keys key xs

-- Above an ascending head there is nothing at or below it.
pub count-above {ℓ} :
    {A : Type ℓ} (key : A → ℕ) (x : A) (xs : List A) (h : ℕ)
    → not_ascending key (x ∷ xs) ≡ false
    → h ≤ key x
    → count h (keys key xs) ≡ 0
unfolding not_ascending
count-above key x [] h e le = refl
count-above key x (y ∷ ys) h e le = ground (arith, count-above key y ys h)

pub count-ascending {ℓ} :
    {A : Type ℓ} (key : A → ℕ) (xs : List A) (h : ℕ)
    → not_ascending key xs ≡ false
    → count h (keys key xs) ≤ 1
unfolding not_ascending
count-ascending key [] h e = omega arith
count-ascending key (x ∷ []) h e = ground arith
count-ascending key (x ∷ y ∷ ys) h e =
    ground (arith, count-ascending key (y ∷ ys) h, count-above key x (y ∷ ys) h)

count-judged_by :
    (h : ℕ) (vs : List Verdict)
    → count h (judged_by two_thirds_plus_one vs)
        + count h (judged_by 0 vs)
        + count h (judged_by one_third vs)
      ≤ count h (keys (λ v. v.report_hash) vs)
count-judged_by h [] = omega arith
count-judged_by h (v ∷ vs) = ground (arith, count-judged_by h vs)

-- A hash that stands in none of the three lists has not been judged.
unjudged :
    (h : ℕ) (j : Judgements)
    → (contains j.good_work_reports h
        || contains j.bad_work_reports h
        || contains j.wonky_work_reports h)
      ≡ false
    → times_judged h j ≡ 0
unjudged h j e = ground (
  arith,
  count-contains h j.good_work_reports,
  count-contains h j.bad_work_reports,
  count-contains h j.wonky_work_reports,
)

count-fresh :
    (h : ℕ) (vs : List Verdict) (j : Judgements)
    → verify_not_already_judged vs j ≡ ok tt
    → (count h (keys (λ (v : Verdict). v.report_hash) vs) ≡ 0) ⊎ (times_judged h j ≡ 0)
unfolding verify_not_already_judged
count-fresh h [] j e = inl refl
count-fresh h (v ∷ vs) j e =
    let (u, first, rest) =
      >>=-eq-ok
        (fail_if
          (contains j.good_work_reports v.report_hash
            || contains j.bad_work_reports v.report_hash
            || contains j.wonky_work_reports v.report_hash)
          already_judged)
        _ e in
    let z = unjudged v.report_hash j (fail_if-eq-ok _ already_judged (first ∙ ap ok (unit-eq u))) in
    elim (Bool-cases (v.report_hash == h)) [
      | inl t ↦ inr (subst (λ x. times_judged x j ≡ 0) ((==_iff v.report_hash h).0 t) z)
      | inr f ↦ ground (arith, count-fresh h vs j rest)
    ]

-- Accepted verdicts have ascending hashes.
verdicts-ascending :
    (d : Disputes)
    → verify_sorted_unique d ≡ ok tt
    → not_ascending (λ (v : Verdict). v.report_hash) d.verdicts ≡ false
unfolding verify_sorted_unique
verdicts-ascending d e =
    let faults = not_ascending (λ (f : Fault). f.validator_key) d.faults in
    let verdicts = not_ascending (λ (v : Verdict). v.report_hash) d.verdicts in
    let (u, first, rest) = >>=-eq-ok (fail_if faults faults_not_sorted) _ e in
    let (w, second, third) = >>=-eq-ok (fail_if verdicts verdicts_not_sorted) _ rest in
    fail_if-eq-ok verdicts verdicts_not_sorted (second ∙ ap ok (unit-eq w))

times_judged-Judged :
    (h : ℕ) (vs : List Verdict) {j j' : Judgements}
    → Judged vs j j'
    → times_judged h j' ≤ times_judged h j + count h (keys (λ (v : Verdict). v.report_hash) vs)
times_judged-Judged h vs {j = j} p = omega (
  arith,
  ap (count h) p.good,
  ap (count h) p.bad,
  ap (count h) p.wonky,
  count-append h j.good_work_reports (judged_by two_thirds_plus_one vs),
  count-append h j.bad_work_reports (judged_by 0 vs),
  count-append h j.wonky_work_reports (judged_by one_third vs),
  count-judged_by h vs,
)

-- A block whose disputes are accepted leaves no report judged twice, in one list or in two, where none
-- was before.
pub calculate_new_judgements-JudgedOnce :
    (verify : Verify) (new_timeslot : ℕ) (d : Disputes) (j : Judgements)
    (validators : ValidatorSets) {j' : Judgements}
    → JudgedOnce j
    → calculate_new_judgements verify new_timeslot d j validators ≡ ok j'
    → JudgedOnce j'
calculate_new_judgements-JudgedOnce verify new_timeslot d j validators {j' = j'} once e h =
    let s = calculate_new_judgements-Steps verify new_timeslot d j validators e in
    let judged =
      times_judged-Judged h d.verdicts
        (calculate_new_judgements-Judged verify new_timeslot d j validators e) in
    let ascending =
      count-ascending (λ (v : Verdict). v.report_hash) d.verdicts h
        (verdicts-ascending d s.sorted) in
    elim (count-fresh h d.verdicts j s.fresh) [
      | inl none ↦ omega (arith, judged, none, once h)
      | inr fresh ↦ omega (arith, judged, ascending, fresh)
    ]
