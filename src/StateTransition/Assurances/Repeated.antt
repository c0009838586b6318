-- ===== src/StateTransition/Assurances/Repeated.antt =====
-- One assurance many times.
use mathlib.Core.List.{Mem, mem-cons_self, mem-cons_of_mem}
use strawberry.Base.{
  sym, ℕ, zero, suc, ◌+◌, ◌≤◌, ◌<◌, true, ◌≡◌, refl, ap, subst, ◌∙◌, inl, inr, arith, Option, none,
  some, List, [], ◌∷◌, ltb, Bool-cases, if-eq_true, replicate, get_elem?,
}
use strawberry.StateTransition.Constants.{availability_threshold}
use strawberry.StateTransition.Errors.{ok, ◌>>◌, >>=-eq-ok, err-not-ok}
use strawberry.StateTransition.Reports.{WorkReport, Assurance, Assignment}
use strawberry.StateTransition.Guarantees.{is_assignment_stale}
use strawberry.StateTransition.Assurances.{
  Signing, has_assurance_for_core, check_assurance, validate_assurances_signature,
  assurance_is_ordered_by_validator_index, count_core, count_cores, settle_assignments,
  removed_reports, assignments_from_availability, assignments_from_assurances,
}
use strawberry.StateTransition.Assurances.Settled.{
  supporters, settled, settled_core, made_available, assignments_from_availability-settled,
}
use strawberry.StateTransition.Disputes.Votes.{unit-eq}
use strawberry.StateTransition.Preimages.Provided.{some-injective}

-- The order of the assurances does not refuse an assurance that is repeated.
ordered-replicate :
    (a : Assurance) (n : ℕ) → assurance_is_ordered_by_validator_index (replicate n a) ≡ true
unfolding assurance_is_ordered_by_validator_index
ordered-replicate a zero = refl
ordered-replicate a (suc zero) = refl
ordered-replicate a (suc (suc n)) = ground (arith, ordered-replicate a (suc n))

validate-replicate :
    (signing : Signing) (validators : List (Option ℕ)) (parent_hash : ℕ) (a : Assurance) (n : ℕ)
    → check_assurance signing parent_hash a (get_elem? validators a.validator_index) ≡ ok tt
    → validate_assurances_signature signing validators parent_hash (replicate n a) ≡ ok tt
unfolding validate_assurances_signature
validate-replicate signing validators parent_hash a zero e = refl
validate-replicate signing validators parent_hash a (suc n) e =
    rw e (validate-replicate signing validators parent_hash a n e)

supporters-replicate :
    (a : Assurance) (n core_index : ℕ)
    → has_assurance_for_core a core_index ≡ true
    → supporters (replicate n a) core_index ≡ n
supporters-replicate a zero core_index h = refl
supporters-replicate a (suc n) core_index h = rw h (ap suc (supporters-replicate a n core_index h))

-- A core that admits the assurance once admits it any number of times.
count_core-replicate :
    (a : Assurance) (core_index : ℕ) (x : Option Assignment) (slot : ℕ) {m : ℕ}
    → count_core (a ∷ []) core_index x slot 0 ≡ ok m
    → (n availability : ℕ)
    → (total : ℕ) × (count_core (replicate n a) core_index x slot availability ≡ ok total)
unfolding count_core
count_core-replicate a core_index x slot e zero availability = (availability, refl)
count_core-replicate a core_index none slot e (suc n) availability =
    elim (Bool-cases (has_assurance_for_core a core_index)) [
      | inl t ↦ absurd (err-not-ok (if-eq_true (has_assurance_for_core a core_index) _ _ t e))
      | inr f ↦
          let (total, more) = count_core-replicate a core_index none slot e n availability in
          (total, rw f more)
    ]
count_core-replicate a core_index (some x) slot e (suc n) availability =
    elim (Bool-cases (has_assurance_for_core a core_index)) [
      | inl t ↦ elim (Bool-cases (is_assignment_stale (some x) slot)) [
        | inl stale ↦ absurd (
            err-not-ok (
              if-eq_true (is_assignment_stale (some x) slot) _ _ stale
                (if-eq_true (has_assurance_for_core a core_index) _ _ t e)))
        | inr fresh ↦
            let (total, more) =
              count_core-replicate a core_index (some x) slot e n (suc availability) in
            (total, rw t (rw fresh more))
      ]
      | inr f ↦
          let (total, more) = count_core-replicate a core_index (some x) slot e n availability in
          (total, rw f more)
    ]

count_cores-replicate :
    (a : Assurance) (core_index : ℕ) (xs : List (Option Assignment)) (slot n : ℕ) {counts : List ℕ}
    → count_cores (a ∷ []) core_index xs slot ≡ ok counts
    → (totals : List ℕ) × (count_cores (replicate n a) core_index xs slot ≡ ok totals)
unfolding count_cores
count_cores-replicate a core_index [] slot n e = ([], refl)
count_cores-replicate a core_index (x ∷ xs) slot n e =
    let (m, first, e1) = >>=-eq-ok (count_core (a ∷ []) core_index x slot 0) _ e in
    let (ms, more, e2) = >>=-eq-ok (count_cores (a ∷ []) (suc core_index) xs slot) _ e1 in
    let (total, here) = count_core-replicate a core_index x slot first n 0 in
    let (totals, later) = count_cores-replicate a (suc core_index) xs slot n more in
    (total ∷ totals, rw here (rw later refl))

start : (i : ℕ) → i + 0 ≡ i
start i = omega arith

from_zero : (i : ℕ) → 0 + i ≡ i
from_zero i = omega arith

made_available-more :
    (assurances : List Assurance) (core_index : ℕ) (y : Option Assignment)
    (xs : List (Option Assignment)) {w : Option WorkReport}
    → Mem w (made_available assurances (suc core_index) xs)
    → Mem w (made_available assurances core_index (y ∷ xs))
made_available-more assurances core_index none xs m = m
made_available-more assurances core_index (some y) xs m =
    elim (Bool-cases (ltb availability_threshold (supporters assurances core_index))) [
      | inl t ↦ rw t (mem-cons_of_mem y.work_report m)
      | inr f ↦ rw f m
    ]

-- What becomes of a core with an assignment that more than two thirds support: it is emptied, and its
-- report is made available.
settled-emptied :
    (assurances : List Assurance) (core_index : ℕ) (xs : List (Option Assignment)) (slot c : ℕ)
    {x : Assignment}
    → get_elem? xs c ≡ some (some x)
    → availability_threshold < supporters assurances (core_index + c)
    → (get_elem? (settled assurances core_index xs slot) c ≡ some none)
      × Mem x.work_report (made_available assurances core_index xs)
settled-emptied assurances core_index [] slot c h k = cc
settled-emptied assurances core_index (none ∷ xs) slot zero h k = cc
settled-emptied assurances core_index (some y ∷ xs) slot zero h k =
    let many : ltb availability_threshold (supporters assurances core_index) ≡ true =
      ground (arith, ap (supporters assurances) (start core_index)) in
    (
      ap (λ b. some (settled_core b (some y) slot)) many,
      rw many (
          subst (λ z. Mem z (y.work_report ∷ made_available assurances (suc core_index) xs))
            (ap (λ (z : Assignment). z.work_report) (some-injective (some-injective h)))
            mem-cons_self),
    )
settled-emptied assurances core_index (y ∷ xs) slot (suc c) h k =
    let (emptied, available) =
      settled-emptied assurances (suc core_index) xs slot c h
        (subst (λ i. availability_threshold < supporters assurances i) (omega arith) k) in
    (emptied, made_available-more assurances core_index y xs available)

module _ (signing : Signing) (validators : List (Option ℕ)) (assignments : List (Option Assignment))
    (parent_hash slot : ℕ) where
  accepted_once :
      (a : Assurance) {result : List (Option Assignment) × List (Option WorkReport)}
      → assignments_from_assurances signing validators assignments parent_hash slot (a ∷ [])
        ≡ ok result
      → (check_assurance signing parent_hash a (get_elem? validators a.validator_index) ≡ ok tt)
        × ((counts : List ℕ) × (count_cores (a ∷ []) 0 assignments slot ≡ ok counts))
  unfolding assignments_from_assurances assignments_from_availability validate_assurances_signature
  accepted_once a e =
      let check = check_assurance signing parent_hash a (get_elem? validators a.validator_index) in
      let (u, checked, e1) = >>=-eq-ok (check >> ok tt >> ok tt) _ e in
      let (w, checked1, e2) = >>=-eq-ok (check >> ok tt) _ checked in
      let (v, checked2, e3) = >>=-eq-ok check _ checked1 in
      let (counts, counted, e4) = >>=-eq-ok (count_cores (a ∷ []) 0 assignments slot) _ e1 in
      (checked2 ∙ ap ok (unit-eq v), (counts, counted))

  accepted :
      (assurances : List Assurance) {result : List (Option Assignment) × List (Option WorkReport)}
      → validate_assurances_signature signing validators parent_hash assurances ≡ ok tt
      → assurance_is_ordered_by_validator_index assurances ≡ true
      → assignments_from_availability assurances assignments slot ≡ ok result
      → assignments_from_assurances signing validators assignments parent_hash slot assurances
        ≡ ok result
  unfolding assignments_from_assurances
  accepted assurances valid ordered e = rw valid (rw ordered e)

-- An assurance that is accepted alone and supports a core with an assignment makes its report available
-- when it stands in the block 683 times or more: the block is accepted, the core is emptied and the report
-- is among those that come out. One validator alone is enough.
pub assignments_from_assurances-repeated :
    (signing : Signing) (validators : List (Option ℕ)) (assignments : List (Option Assignment))
    (parent_hash slot : ℕ) (a : Assurance) (c n : ℕ) (x : Assignment)
    {result : List (Option Assignment) × List (Option WorkReport)}
    → assignments_from_assurances signing validators assignments parent_hash slot (a ∷ [])
      ≡ ok result
    → has_assurance_for_core a c ≡ true
    → get_elem? assignments c ≡ some (some x)
    → 683 ≤ n
    → (new : List (Option Assignment)) × (removed : List (Option WorkReport))
      × (assignments_from_assurances signing validators assignments parent_hash slot (replicate n a)
          ≡ ok (new, removed))
      × (get_elem? new c ≡ some none)
      × Mem x.work_report removed
unfolding assignments_from_availability
assignments_from_assurances-repeated signing validators assignments parent_hash slot a c n x e
      supports at many =
    let (checked, (counts, counted)) =
      accepted_once signing validators assignments parent_hash slot a e in
    let (totals, all) = count_cores-replicate a 0 assignments slot n counted in
    let new = settle_assignments totals assignments slot in
    let removed = removed_reports totals assignments in
    let e1 : assignments_from_availability (replicate n a) assignments slot ≡ ok (new, removed) =
      rw all refl in
    let (left, out, supportable) =
      assignments_from_availability-settled (replicate n a) assignments slot e1 in
    let (emptied, available) = settled-emptied (replicate n a) 0 assignments slot c at (
      omega (
        arith,
        ap (supporters (replicate n a)) (from_zero c),
        supporters-replicate a n c supports,
      )) in
    (
      new,
      removed,
      accepted signing validators assignments parent_hash slot (replicate n a)
          (validate-replicate signing validators parent_hash a n checked) (ordered-replicate a n)
          e1,
      ap (λ xs. get_elem? xs c) left ∙ emptied,
      subst (Mem x.work_report) (sym out) available,
    )
