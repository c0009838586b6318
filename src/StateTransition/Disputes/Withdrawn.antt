-- ===== src/StateTransition/Disputes/Withdrawn.antt =====
-- `CalculateIntermediateCoreAssignmentsFromExtrinsics`: the verdicts take reports from their cores. The
-- hash of a report is a parameter, where `none` is an error of the encoding.
use strawberry.Base.{
  ℕ, Bool, true, false, ◌&&◌, ◌||◌, ◌≡◌, refl, ap, ◌∙◌, inl, inr, arith, Option, none, some, List,
  [], ◌∷◌, map, ltb, ◌==◌, if◌then◌else◌, Bool-cases,
}
use strawberry.StateTransition.Constants.{validators_super_majority}
use strawberry.StateTransition.Disputes.Extrinsic.{Verdict, count_positive_judgements}
use strawberry.StateTransition.Reports.{WorkReport, Assignment}

module _ (report_hash : Option WorkReport → Option ℕ) where
  -- The report of the core has this hash.
  abbrev pub is_on : ℕ → Option Assignment → Bool
  is_on hash none = false
  is_on hash (some a) = elim (report_hash a.work_report) [ none ↦ false | some h ↦ h == hash ]

  -- The inner loop over the cores.
  unfoldable pub clear_report : ℕ → List (Option Assignment) → List (Option Assignment)
  clear_report hash [] = []
  clear_report hash (x ∷ xs) = (if is_on hash x then none else x) ∷ clear_report hash xs

  unfoldable pub assignments_from_extrinsics :
      List Verdict → List (Option Assignment) → List (Option Assignment)
  unfolding count_positive_judgements clear_report
  assignments_from_extrinsics [] assignments = assignments
  assignments_from_extrinsics (v ∷ vs) assignments = assignments_from_extrinsics vs (
      if ltb (count_positive_judgements v.judgements) validators_super_majority
      then clear_report v.report_hash assignments
      else assignments)

  -- A verdict with fewer than two thirds plus one positive votes is on the report of the core.
  abbrev pub is_withdrawn : List Verdict → Option Assignment → Bool
  is_withdrawn [] x = false
  is_withdrawn (v ∷ vs) x =
      (ltb (count_positive_judgements v.judgements) validators_super_majority
        && is_on v.report_hash x)
      || is_withdrawn vs x

  abbrev pub after_verdicts : List Verdict → Option Assignment → Option Assignment
  after_verdicts vs x = if is_withdrawn vs x then none else x

  is_withdrawn-none : (vs : List Verdict) → is_withdrawn vs none ≡ false
  is_withdrawn-none [] = refl
  is_withdrawn-none (v ∷ vs) = ground (arith, is_withdrawn-none vs)

  map-nothing : (xs : List (Option Assignment)) → xs ≡ map (after_verdicts []) xs
  map-nothing [] = refl
  map-nothing (x ∷ xs) = ap (λ ys. x ∷ ys) (map-nothing xs)

  after-clear :
      (v : Verdict) (vs : List Verdict) (x : Option Assignment)
      → ltb (count_positive_judgements v.judgements) validators_super_majority ≡ true
      → after_verdicts vs (if is_on v.report_hash x then none else x) ≡ after_verdicts (v ∷ vs) x
  after-clear v vs x few = elim (Bool-cases (is_on v.report_hash x)) [
    | inl on ↦ rw on (rw few (rw (is_withdrawn-none vs) refl))
    | inr off ↦ rw off (rw few refl)
  ]

  after-kept :
      (v : Verdict) (vs : List Verdict) (x : Option Assignment)
      → ltb (count_positive_judgements v.judgements) validators_super_majority ≡ false
      → after_verdicts vs x ≡ after_verdicts (v ∷ vs) x
  after-kept v vs x many = rw many refl

  map-clear_report :
      (v : Verdict) (vs : List Verdict) (xs : List (Option Assignment))
      → ltb (count_positive_judgements v.judgements) validators_super_majority ≡ true
      → map (after_verdicts vs) (clear_report v.report_hash xs) ≡ map (after_verdicts (v ∷ vs)) xs
  unfolding clear_report
  map-clear_report v vs [] few = refl
  map-clear_report v vs (x ∷ xs) few =
      ap (λ y. y ∷ map (after_verdicts vs) (clear_report v.report_hash xs)) (after-clear v vs x few)
      ∙ ap (λ ys. after_verdicts (v ∷ vs) x ∷ ys) (map-clear_report v vs xs few)

  map-kept :
      (v : Verdict) (vs : List Verdict) (xs : List (Option Assignment))
      → ltb (count_positive_judgements v.judgements) validators_super_majority ≡ false
      → map (after_verdicts vs) xs ≡ map (after_verdicts (v ∷ vs)) xs
  map-kept v vs [] many = refl
  map-kept v vs (x ∷ xs) many =
      ap (λ y. y ∷ map (after_verdicts vs) xs) (after-kept v vs x many)
      ∙ ap (λ ys. after_verdicts (v ∷ vs) x ∷ ys) (map-kept v vs xs many)

-- Every core loses its report when a verdict of the block with fewer than 683 positive votes is on the
-- report, and keeps its assignment otherwise.
pub assignments_from_extrinsics-after_verdicts :
    (report_hash : Option WorkReport → Option ℕ) (vs : List Verdict) (xs : List (Option Assignment))
    → assignments_from_extrinsics report_hash vs xs ≡ map (after_verdicts report_hash vs) xs
unfolding assignments_from_extrinsics
assignments_from_extrinsics-after_verdicts report_hash [] xs = map-nothing report_hash xs
assignments_from_extrinsics-after_verdicts report_hash (v ∷ vs) xs =
    elim (Bool-cases (ltb (count_positive_judgements v.judgements) validators_super_majority)) [
      | inl few ↦ rw few (
          assignments_from_extrinsics-after_verdicts report_hash vs
            (clear_report report_hash v.report_hash xs)
          ∙ map-clear_report report_hash v vs xs few)
      | inr many ↦ rw many (
          assignments_from_extrinsics-after_verdicts report_hash vs xs
          ∙ map-kept report_hash v vs xs many)
    ]
