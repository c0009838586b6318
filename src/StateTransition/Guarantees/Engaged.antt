-- ===== src/StateTransition/Guarantees/Engaged.antt =====
-- Which cores `CalculateNewCoreAssignments` changes.
use strawberry.Base.{
  ℕ, zero, suc, length, length-set, get_elem?-set_self, ◌<◌, true, false, ◌||◌, ◌≡◌, ◌≢◌, refl, sym,
  ap, ◌∙◌, ◌⊎◌, inl, inr, arith, Option, none, some, List, [], ◌∷◌, get_elem?, get_elem?-set_ne,
  set, ltb, ◌==◌, ==_iff, Bool-cases, if-eq_true, if-eq_false,
}
use strawberry.StateTransition.Errors.{
  ok, err, ◌>>◌, >>=-eq-ok, fail_if, ok-injective, timeslot_out_of_range,
}
use strawberry.StateTransition.Disputes.Extrinsic.{ValidatorSets}
use strawberry.StateTransition.Reports.{Guarantee, Assignment}
use strawberry.StateTransition.Guarantees.{is_assignment_valid}
use strawberry.StateTransition.Guarantees.Credentials.{
  Crypto, or_crash, verify_guarantee_credentials,
}
use strawberry.StateTransition.Guarantees.Placement.{
  CoreAssignments, previous_rotation_start, add_reporters, assign, place_guarantees,
  calculate_new_core_assignments,
}

get_elem?-lt : {A : Type 0} (xs : List A) (i : ℕ) {a : A} → get_elem? xs i ≡ some a → i < length xs
get_elem?-lt [] i e = cc
get_elem?-lt (x ∷ xs) zero e = omega arith
get_elem?-lt (x ∷ xs) (suc i) e = omega (arith, get_elem?-lt xs i e)

==-false_ne : (a b : ℕ) → (a == b) ≡ false → a ≢ b
==-false_ne a b e h = ground arith

refused :
    (at new_timeslot : ℕ)
    → new_timeslot < 10
    → (ltb at (previous_rotation_start new_timeslot) || ltb new_timeslot at) ≡ true
refused at new_timeslot h = ground arith

pub or_crash-eq-ok : {A : Type 0} (o : Option A) {a : A} → or_crash o ≡ ok a → o ≡ some a
or_crash-eq-ok none e = cc
or_crash-eq-ok (some x) e = cc

module _ (crypto : Crypto) (validators : ValidatorSets) (pool : List (List ℕ)) (new_timeslot : ℕ)
    (intermediate : CoreAssignments) where
  -- A successful round: the guarantee is placed, or its core is engaged and it is passed over.
  Round :
      Guarantee
      → List Guarantee
      → CoreAssignments
      → List ℕ
      → CoreAssignments × List ℕ
      → Option Assignment
      → Type 0
  Round g gs a r result current =
      ((is_assignment_valid current new_timeslot ≡ true)
        × ((found : List ℕ) × (verify_guarantee_credentials crypto g validators pool new_timeslot
              ≡ ok found)
            × (place_guarantees crypto validators pool new_timeslot intermediate gs
                  (assign a g new_timeslot) (add_reporters r found)
                ≡ ok result)))
      ⊎ ((is_assignment_valid current new_timeslot ≡ false)
          × (place_guarantees crypto validators pool new_timeslot intermediate gs a r ≡ ok result))

  place_guarantees-Round :
      (g : Guarantee) (gs : List Guarantee) (a : CoreAssignments) (r : List ℕ)
      {result : CoreAssignments × List ℕ}
      → place_guarantees crypto validators pool new_timeslot intermediate (g ∷ gs) a r ≡ ok result
      → (current : Option Assignment) × (get_elem? intermediate g.work_report.core_index
          ≡ some current)
        × Round g gs a r result current
  unfolding place_guarantees Round
  place_guarantees-Round g gs a r e =
      let late =
        ltb g.timeslot (previous_rotation_start new_timeslot) || ltb new_timeslot g.timeslot in
      let at = or_crash (get_elem? intermediate g.work_report.core_index) in
      let (current, found, rest) = >>=-eq-ok (fail_if late timeslot_out_of_range >> at) _ e in
      let (u, in_time, at_core) = >>=-eq-ok (fail_if late timeslot_out_of_range) (λ _. at) found in
      (
        current,
        or_crash-eq-ok (get_elem? intermediate g.work_report.core_index) at_core,
        elim (Bool-cases (is_assignment_valid current new_timeslot)) [
          | inl t ↦ inl (
            t,
            >>=-eq-ok (verify_guarantee_credentials crypto g validators pool new_timeslot) _
                (if-eq_true (is_assignment_valid current new_timeslot) _ _ t rest),
          )
          | inr f ↦ inr (f, if-eq_false (is_assignment_valid current new_timeslot) _ _ f rest)
        ],
      )

  place_guarantees-engaged :
      (gs : List Guarantee) (a : CoreAssignments) (r : List ℕ) (c : ℕ) (current : Option Assignment)
      {result : CoreAssignments × List ℕ}
      → get_elem? intermediate c ≡ some current
      → is_assignment_valid current new_timeslot ≡ false
      → place_guarantees crypto validators pool new_timeslot intermediate gs a r ≡ ok result
      → get_elem? result.0 c ≡ get_elem? a c
  unfolding place_guarantees Round
  place_guarantees-engaged [] a r c current at engaged e =
      ap (λ (x : CoreAssignments × List ℕ). get_elem? x.0 c) (sym (ok-injective e))
  place_guarantees-engaged (g ∷ gs) a r c current at engaged e =
      let (taken, at_core, round) = place_guarantees-Round g gs a r e in
      elim round [
        | inl (valid, (found, checked, rest)) ↦
            place_guarantees-engaged gs (assign a g new_timeslot) (add_reporters r found) c current
              at engaged rest
            ∙ get_elem?-set_ne a _ (λ same. cc)
        | inr (full, rest) ↦ place_guarantees-engaged gs a r c current at engaged rest
      ]

  -- A guarantee for the core, whose credentials are verified, and what the core then holds.
  abbrev pub Placed : List Guarantee → ℕ → Option (Option Assignment) → Type 0
  Placed [] c held = ⊥
  Placed (g ∷ gs) c held =
      ((g.work_report.core_index ≡ c)
        × ((found : List ℕ) × (verify_guarantee_credentials crypto g validators pool new_timeslot
              ≡ ok found)
            × (held
                ≡ some (some (record { work_report = some g.work_report; time = new_timeslot })))))
      ⊎ Placed gs c held

  place_guarantees-Placed :
      (gs : List Guarantee) (a : CoreAssignments) (r : List ℕ) (c : ℕ)
      {result : CoreAssignments × List ℕ}
      → length a ≡ length intermediate
      → place_guarantees crypto validators pool new_timeslot intermediate gs a r ≡ ok result
      → (get_elem? result.0 c ≡ get_elem? a c) ⊎ Placed gs c (get_elem? result.0 c)
  unfolding place_guarantees Round
  place_guarantees-Placed [] a r c len e =
      inl (ap (λ (x : CoreAssignments × List ℕ). get_elem? x.0 c) (sym (ok-injective e)))
  place_guarantees-Placed (g ∷ gs) a r c len e =
      let (taken, at_core, round) = place_guarantees-Round g gs a r e in
      let core = g.work_report.core_index in
      let new : Option Assignment =
        some (record { work_report = some g.work_report; time = new_timeslot }) in
      elim round [
        | inl (valid, (found, checked, rest)) ↦
            elim (place_guarantees-Placed gs (assign a g new_timeslot) (add_reporters r found) c
              (length-set a core new ∙ len) rest) [
                | inr later ↦ inr (inr later)
                | inl kept ↦ elim (Bool-cases (core == c)) [
                  | inl same ↦
                      let at : core ≡ c = (==_iff core c).0 same in
                      let short : core < length a =
                        omega (arith, len, get_elem?-lt intermediate core at_core) in
                      inr (
                        inl (
                          at,
                          (
                            found,
                            checked,
                            kept
                                ∙ sym (ap (get_elem? (set a core new)) at)
                                ∙ get_elem?-set_self a core new short,
                          ),
                        ))
                  | inr apart ↦ inl (kept ∙ get_elem?-set_ne a new (==-false_ne core c apart))
                ]
              ]
        | inr (full, rest) ↦ elim (place_guarantees-Placed gs a r c len rest) [
          | inl kept ↦ inl kept
          | inr later ↦ inr (inr later)
        ]
      ]

-- An engaged core, whose report is neither absent nor timed out, keeps its report through the guarantees
-- that a block brings.
pub calculate_new_core_assignments-engaged :
    (crypto : Crypto) (validators : ValidatorSets) (pool : List (List ℕ)) (new_timeslot : ℕ)
    (intermediate : CoreAssignments) (guarantees : List Guarantee) (c : ℕ)
    (current : Option Assignment) {assignments : CoreAssignments} {reporters : List ℕ}
    → get_elem? intermediate c ≡ some current
    → is_assignment_valid current new_timeslot ≡ false
    → calculate_new_core_assignments crypto validators pool new_timeslot intermediate guarantees
      ≡ ok (assignments, reporters)
    → get_elem? assignments c ≡ some current
unfolding calculate_new_core_assignments
calculate_new_core_assignments-engaged crypto validators pool new_timeslot intermediate guarantees c
      current at engaged e =
    place_guarantees-engaged crypto validators pool new_timeslot intermediate guarantees
      intermediate [] c current at engaged e
    ∙ at

-- Every core keeps its assignment, or holds the report of a guarantee of the block for this core whose
-- credentials are verified, with the slot of the block as its time.
pub calculate_new_core_assignments-Placed :
    (crypto : Crypto) (validators : ValidatorSets) (pool : List (List ℕ)) (new_timeslot : ℕ)
    (intermediate : CoreAssignments) (guarantees : List Guarantee) (c : ℕ)
    {assignments : CoreAssignments} {reporters : List ℕ}
    → calculate_new_core_assignments crypto validators pool new_timeslot intermediate guarantees
      ≡ ok (assignments, reporters)
    → (get_elem? assignments c ≡ get_elem? intermediate c)
      ⊎ Placed crypto validators pool new_timeslot intermediate guarantees c
          (get_elem? assignments c)
unfolding calculate_new_core_assignments
calculate_new_core_assignments-Placed crypto validators pool new_timeslot intermediate guarantees c
      e =
    place_guarantees-Placed crypto validators pool new_timeslot intermediate guarantees intermediate
      [] c refl e

-- In the first rotation, the first ten slots, the start of the previous rotation wraps around: a block
-- with any guarantee, whatever its slot, is refused.
pub calculate_new_core_assignments-first_rotation :
    (crypto : Crypto) (validators : ValidatorSets) (pool : List (List ℕ)) (new_timeslot : ℕ)
    (intermediate : CoreAssignments) (g : Guarantee) (gs : List Guarantee)
    → new_timeslot < 10
    → calculate_new_core_assignments crypto validators pool new_timeslot intermediate (g ∷ gs)
      ≡ err timeslot_out_of_range
unfolding calculate_new_core_assignments place_guarantees
calculate_new_core_assignments-first_rotation crypto validators pool new_timeslot intermediate g gs
      h =
    let late : (ltb g.timeslot (previous_rotation_start new_timeslot)
          || ltb new_timeslot g.timeslot)
        ≡ true =
      refused g.timeslot new_timeslot h in
    rw late
