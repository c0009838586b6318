-- ===== src/StateTransition/Assurances/Settled.antt =====
-- What accepted assurances make of the cores.
use strawberry.Base.{
  ℕ, suc, ◌+◌, Bool, true, false, ◌||◌, ◌≡◌, refl, sym, ap, ◌∙◌, ◌⊎◌, inl, inr, arith, Option, none,
  some, List, [], ◌∷◌, ltb, if◌then◌else◌, Bool-cases, if-eq_true, if-eq_false,
}
use strawberry.StateTransition.Constants.{availability_threshold}
use strawberry.StateTransition.Errors.{ok, >>=-eq-ok, ok-injective, err-not-ok}
use strawberry.StateTransition.Reports.{WorkReport, Assurance, Assignment}
use strawberry.StateTransition.Guarantees.{is_assignment_stale}
use strawberry.StateTransition.Assurances.{
  has_assurance_for_core, count_core, count_cores, cleared, settle_assignments, removed_reports,
  assignments_from_availability,
}

-- The number of assurances for the core.
abbrev pub supporters : List Assurance → ℕ → ℕ
supporters [] core_index = 0
supporters (a ∷ rest) core_index =
    if has_assurance_for_core a core_index
    then suc (supporters rest core_index)
    else supporters rest core_index

-- A core that is supported has an assignment that is not stale.
abbrev pub IsSupportable : List Assurance → ℕ → Option Assignment → ℕ → Type 0
IsSupportable assurances core_index x slot =
    (supporters assurances core_index ≡ 0)
    ⊎ ((y : Assignment) × (x ≡ some y) × (is_assignment_stale x slot ≡ false))

-- Where a loop over the assurances goes on it has counted the first one, or passed it over.
module _ (a : Assurance) (rest : List Assurance) (core_index : ℕ) where
  supporters-true :
      has_assurance_for_core a core_index ≡ true
      → supporters (a ∷ rest) core_index ≡ suc (supporters rest core_index)
  supporters-true t = rw t

  supporters-false :
      has_assurance_for_core a core_index ≡ false
      → supporters (a ∷ rest) core_index ≡ supporters rest core_index
  supporters-false f = rw f

IsSupportable-more :
    (a : Assurance) (rest : List Assurance) (core_index : ℕ) (x : Option Assignment) (slot : ℕ)
    → has_assurance_for_core a core_index ≡ false
    → IsSupportable rest core_index x slot
    → IsSupportable (a ∷ rest) core_index x slot
IsSupportable-more a rest core_index x slot f (inl unsupported) =
    inl (supporters-false a rest core_index f ∙ unsupported)
IsSupportable-more a rest core_index x slot f (inr engaged) = inr engaged

count_core-supporters :
    (assurances : List Assurance) (core_index : ℕ) (x : Option Assignment) (slot availability : ℕ)
    {n : ℕ}
    → count_core assurances core_index x slot availability ≡ ok n
    → n ≡ availability + supporters assurances core_index
unfolding count_core
count_core-supporters [] core_index x slot availability e = omega (arith, ok-injective e)
count_core-supporters (a ∷ rest) core_index none slot availability e =
    elim (Bool-cases (has_assurance_for_core a core_index)) [
      | inl t ↦ absurd (err-not-ok (if-eq_true (has_assurance_for_core a core_index) _ _ t e))
      | inr f ↦
          count_core-supporters rest core_index none slot availability
            (if-eq_false (has_assurance_for_core a core_index) _ _ f e)
          ∙ ap (◌+◌ availability) (sym (supporters-false a rest core_index f))
    ]
count_core-supporters (a ∷ rest) core_index (some x) slot availability e =
    elim (Bool-cases (has_assurance_for_core a core_index)) [
      | inl t ↦
          let counted = if-eq_true (has_assurance_for_core a core_index) _ _ t e in
          elim (Bool-cases (is_assignment_stale (some x) slot)) [
            | inl stale ↦
                absurd
                  (err-not-ok (if-eq_true (is_assignment_stale (some x) slot) _ _ stale counted))
            | inr fresh ↦ omega (
              arith,
              supporters-true a rest core_index t,
              count_core-supporters rest core_index (some x) slot (suc availability)
                  (if-eq_false (is_assignment_stale (some x) slot) _ _ fresh counted),
            )
          ]
      | inr f ↦
          count_core-supporters rest core_index (some x) slot availability
            (if-eq_false (has_assurance_for_core a core_index) _ _ f e)
          ∙ ap (◌+◌ availability) (sym (supporters-false a rest core_index f))
    ]

count_core-IsSupportable :
    (assurances : List Assurance) (core_index : ℕ) (x : Option Assignment) (slot availability : ℕ)
    {n : ℕ}
    → count_core assurances core_index x slot availability ≡ ok n
    → IsSupportable assurances core_index x slot
unfolding count_core
count_core-IsSupportable [] core_index x slot availability e = inl refl
count_core-IsSupportable (a ∷ rest) core_index none slot availability e =
    elim (Bool-cases (has_assurance_for_core a core_index)) [
      | inl t ↦ absurd (err-not-ok (if-eq_true (has_assurance_for_core a core_index) _ _ t e))
      | inr f ↦ IsSupportable-more a rest core_index none slot f (
          count_core-IsSupportable rest core_index none slot availability
            (if-eq_false (has_assurance_for_core a core_index) _ _ f e))
    ]
count_core-IsSupportable (a ∷ rest) core_index (some x) slot availability e =
    elim (Bool-cases (has_assurance_for_core a core_index)) [
      | inl t ↦
          let counted = if-eq_true (has_assurance_for_core a core_index) _ _ t e in
          elim (Bool-cases (is_assignment_stale (some x) slot)) [
            | inl stale ↦
                absurd
                  (err-not-ok (if-eq_true (is_assignment_stale (some x) slot) _ _ stale counted))
            | inr fresh ↦ inr (x, refl, fresh)
          ]
      | inr f ↦ IsSupportable-more a rest core_index (some x) slot f (
          count_core-IsSupportable rest core_index (some x) slot availability
            (if-eq_false (has_assurance_for_core a core_index) _ _ f e))
    ]

abbrev pub settled_core : Bool → Option Assignment → ℕ → Option Assignment
settled_core is_available x slot = if is_available || is_assignment_stale x slot then none else x

-- The assignments behind the assurances: a core is emptied where more than two thirds as many
-- assurances as there are validators support it, and where its report is stale.
abbrev pub settled : List Assurance → ℕ → List (Option Assignment) → ℕ → List (Option Assignment)
settled assurances core_index [] slot = []
settled assurances core_index (x ∷ xs) slot =
    settled_core (ltb availability_threshold (supporters assurances core_index)) x slot
    ∷ settled assurances (suc core_index) xs slot

-- The reports of the cores that so many assurances support, in the order of the cores.
abbrev pub made_available : List Assurance → ℕ → List (Option Assignment) → List (Option WorkReport)
made_available assurances core_index [] = []
made_available assurances core_index (none ∷ xs) = made_available assurances (suc core_index) xs
made_available assurances core_index (some x ∷ xs) =
    if ltb availability_threshold (supporters assurances core_index)
    then x.work_report ∷ made_available assurances (suc core_index) xs
    else made_available assurances (suc core_index) xs

abbrev pub AreSupportable : List Assurance → ℕ → List (Option Assignment) → ℕ → Type 0
AreSupportable assurances core_index [] slot = Unit {0}
AreSupportable assurances core_index (x ∷ xs) slot =
    IsSupportable assurances core_index x slot × AreSupportable assurances (suc core_index) xs slot

cleared_twice :
    (available : Bool) (x : Option Assignment) (slot : ℕ)
    → cleared (is_assignment_stale (cleared available x) slot) (cleared available x)
      ≡ settled_core available x slot
unfolding is_assignment_stale
cleared_twice true x slot = refl
cleared_twice false x slot = ground arith

abbrev supporter_counts : List Assurance → ℕ → List (Option Assignment) → List ℕ
supporter_counts assurances core_index [] = []
supporter_counts assurances core_index (x ∷ xs) =
    supporters assurances core_index ∷ supporter_counts assurances (suc core_index) xs

count_cores-counts :
    (assurances : List Assurance) (core_index : ℕ) (xs : List (Option Assignment)) (slot : ℕ)
    {counts : List ℕ}
    → count_cores assurances core_index xs slot ≡ ok counts
    → (counts ≡ supporter_counts assurances core_index xs)
      × AreSupportable assurances core_index xs slot
unfolding count_cores
count_cores-counts assurances core_index [] slot e = (sym (ok-injective e), tt)
count_cores-counts assurances core_index (x ∷ xs) slot e =
    let (n, first, e1) = >>=-eq-ok (count_core assurances core_index x slot 0) _ e in
    let (ns, more, e2) = >>=-eq-ok (count_cores assurances (suc core_index) xs slot) _ e1 in
    let here : n ≡ supporters assurances core_index =
      omega (arith, count_core-supporters assurances core_index x slot 0 first) in
    let (later, supportable) = count_cores-counts assurances (suc core_index) xs slot more in
    (
      sym (ok-injective e2)
          ∙ ap (λ m. m ∷ ns) here
          ∙ ap (λ ms. supporters assurances core_index ∷ ms) later,
      (count_core-IsSupportable assurances core_index x slot 0 first, supportable),
    )

settle_assignments-settled :
    (assurances : List Assurance) (core_index : ℕ) (xs : List (Option Assignment)) (slot : ℕ)
    → settle_assignments (supporter_counts assurances core_index xs) xs slot
      ≡ settled assurances core_index xs slot
unfolding settle_assignments
settle_assignments-settled assurances core_index [] slot = refl
settle_assignments-settled assurances core_index (x ∷ xs) slot =
    rw (cleared_twice (ltb availability_threshold (supporters assurances core_index)) x slot) (
      ap
        (λ ys.
          settled_core (ltb availability_threshold (supporters assurances core_index)) x slot ∷ ys)
        (settle_assignments-settled assurances (suc core_index) xs slot))

removed_reports-made_available :
    (assurances : List Assurance) (core_index : ℕ) (xs : List (Option Assignment))
    → removed_reports (supporter_counts assurances core_index xs) xs
      ≡ made_available assurances core_index xs
unfolding removed_reports
removed_reports-made_available assurances core_index [] = refl
removed_reports-made_available assurances core_index (none ∷ xs) =
    removed_reports-made_available assurances (suc core_index) xs
removed_reports-made_available assurances core_index (some x ∷ xs) =
    rw (removed_reports-made_available assurances (suc core_index) xs)

pub assignments_from_availability-settled :
    (assurances : List Assurance) (assignments : List (Option Assignment)) (slot : ℕ)
    {new : List (Option Assignment)} {removed : List (Option WorkReport)}
    → assignments_from_availability assurances assignments slot ≡ ok (new, removed)
    → (new ≡ settled assurances 0 assignments slot)
      × (removed ≡ made_available assurances 0 assignments)
      × AreSupportable assurances 0 assignments slot
unfolding assignments_from_availability
assignments_from_availability-settled assurances assignments slot e =
    let (counts, counted, e1) = >>=-eq-ok (count_cores assurances 0 assignments slot) _ e in
    let (are, supportable) = count_cores-counts assurances 0 assignments slot counted in
    let result = ok-injective e1 in
    (
      sym (ap (λ (r : List (Option Assignment) × List (Option WorkReport)). r.0) result)
          ∙ ap (λ ns. settle_assignments ns assignments slot) are
          ∙ settle_assignments-settled assurances 0 assignments slot,
      sym (ap (λ (r : List (Option Assignment) × List (Option WorkReport)). r.1) result)
          ∙ ap (λ ns. removed_reports ns assignments) are
          ∙ removed_reports-made_available assurances 0 assignments,
      supportable,
    )
