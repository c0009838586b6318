-- ===== src/StateTransition/Accumulation/Immediate.antt =====
-- The reports that a block accumulates.
use strawberry.Base.{
  ℕ, suc, true, false, ◌&&◌, ◌≡◌, refl, ap, ◌∙◌, inl, inr, some, List, [], ◌∷◌, ◌++◌, Bool-cases,
}
use mathlib.Core.List.{append-nil}
use mathlib.Core.Option
use strawberry.StateTransition.Reports.{WorkReport}
use strawberry.StateTransition.Accumulation.{
  Waiting, is_empty, is_immediate, immediate_reports, work_reports_from_queue,
  accumulatable_work_reports,
}
use strawberry.StateTransition.Accumulation.Laws.{accumulation_priority_empty}

-- The report waits for nothing: it has no prerequisite package and looks up no segment root.
abbrev pub IsIndependent : WorkReport → Type 0
IsIndependent w =
    (w.refinement_context.prerequisite_work_package ≡ []) × (w.segment_root_lookup ≡ [])

-- The second list has the independent reports of the first one, all of them and no other, in their order.
pub data Independent : List WorkReport → List WorkReport → Type 0 where
  nothing : Independent [] []
  takes :
      {w : WorkReport} {ws chosen : List WorkReport}
      → IsIndependent w
      → Independent ws chosen
      → Independent (w ∷ ws) (w ∷ chosen)
  leaves :
      {w : WorkReport} {ws chosen : List WorkReport}
      → ¬ IsIndependent w
      → Independent ws chosen
      → Independent (w ∷ ws) chosen

is_empty-nil : {A : Type 0} (xs : List A) → is_empty xs ≡ true → xs ≡ []
is_empty-nil [] e = refl
is_empty-nil (x ∷ xs) e = cc

empty_both :
    {A B : Type 0} (xs : List A) (ys : List B)
    → (is_empty xs && is_empty ys) ≡ true
    → (xs ≡ []) × (ys ≡ [])
empty_both [] [] e = (refl, refl)
empty_both [] (y ∷ ys) e = cc
empty_both (x ∷ xs) ys e = cc

not_empty_both :
    {A B : Type 0} (xs : List A) (ys : List B)
    → (is_empty xs && is_empty ys) ≡ false
    → ¬ ((xs ≡ []) × (ys ≡ []))
not_empty_both [] [] e h = cc
not_empty_both [] (y ∷ ys) e (p, q) = cc
not_empty_both (x ∷ xs) ys e (p, q) = cc

immediate_reports-Independent : (ws : List WorkReport) → Independent ws (immediate_reports ws)
unfolding immediate_reports
immediate_reports-Independent [] = Independent.nothing
immediate_reports-Independent (w ∷ ws) = elim (Bool-cases (is_immediate w)) [
  | inl t ↦ rw t (Independent.takes (empty_both _ _ t) (immediate_reports-Independent ws))
  | inr f ↦ rw f (Independent.leaves (not_empty_both _ _ f) (immediate_reports-Independent ws))
]

-- Whatever waits in the queue and has been accumulated before, the reports that a block accumulates
-- are found after at most two calls of `accumulationPriority`, and are the available ones
-- without a prerequisite and without a segment root lookup, in their order: none of the queue, and none
-- of the available ones that wait for an earlier package.
pub accumulatable_work_reports-immediate :
    (fuel time_slot_index : ℕ) (available : List WorkReport) (queue : List (List Waiting))
    (history : List (List ℕ))
    → (accumulated : List WorkReport) × (accumulatable_work_reports
          (suc (suc fuel))
          time_slot_index
          available
          queue
          history
        ≡ some accumulated)
      × Independent available accumulated
unfolding accumulatable_work_reports
accumulatable_work_reports-immediate fuel time_slot_index available queue history = (
  immediate_reports available,
  ap (Option.map (λ prioritized. immediate_reports available ++ prioritized)) (
        accumulation_priority_empty fuel
          (work_reports_from_queue time_slot_index available queue history))
      ∙ ap some (append-nil (immediate_reports available)),
  immediate_reports-Independent available,
)
