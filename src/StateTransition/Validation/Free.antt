-- ===== src/StateTransition/Validation/Free.antt =====
-- The cores that may take a report.
use strawberry.Base.{
  ℕ, ◌≤◌, true, ◌≡◌, arith, inl, inr, Option, none, some, leb, add_w, get_elem?, Option-cases,
}
use strawberry.StateTransition.Constants.{work_report_timeout_period}
use strawberry.StateTransition.Reports.{Assignment, Guarantee}
use strawberry.StateTransition.Guarantees.{is_assignment_valid, is_assignment_stale}
use strawberry.StateTransition.Guarantees.Placement.{CoreAssignments}

-- A core that has no assignment, or one without a report, or one that has timed out, in 32 bits.
pub data IsOpen (new_timeslot : ℕ) : Option Assignment → Type 0 where
  unassigned : IsOpen new_timeslot none
  unreported : {a : Assignment} → a.work_report ≡ none → IsOpen new_timeslot (some a)
  timed_out :
      {a : Assignment}
      → add_w 32 a.time work_report_timeout_period ≤ new_timeslot
      → IsOpen new_timeslot (some a)

-- The core of the guarantee is there and may take a report.
abbrev pub IsFree : CoreAssignments → ℕ → Guarantee → Type 0
IsFree assignments new_timeslot g =
    (current : Option Assignment) × (get_elem? assignments g.work_report.core_index ≡ some current)
    × IsOpen new_timeslot current

leb-le : (a b : ℕ) → leb a b ≡ true → a ≤ b
leb-le a b e = ground arith

pub is_assignment_valid-IsOpen :
    (current : Option Assignment) (new_timeslot : ℕ)
    → is_assignment_valid current new_timeslot ≡ true
    → IsOpen new_timeslot current
unfolding is_assignment_valid is_assignment_stale
is_assignment_valid-IsOpen none new_timeslot e = IsOpen.unassigned
is_assignment_valid-IsOpen (some a) new_timeslot e = elim (Option-cases a.work_report) [
  | inl absent ↦ IsOpen.unreported absent
  | inr (w, there) ↦
      IsOpen.timed_out
        (leb-le (add_w 32 a.time work_report_timeout_period) new_timeslot (grind (arith, there)))
]
