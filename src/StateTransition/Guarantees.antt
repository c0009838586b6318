-- ===== src/StateTransition/Guarantees.antt =====
-- The reports that guarantors bring: which core a validator guarantees for, and
-- `CalculateNewCoreAssignments`.
pub mod Rotation
pub mod Credentials
pub mod Placement
pub mod Engaged
pub mod Sound
use strawberry.Base.{
  ℕ, zero, suc, ◌+◌, ◌-◌, ◌*◌, ◌/◌, ◌%◌, ◌^◌, Bool, true, false, not, ◌&&◌, ◌||◌, Option, none,
  some, List, [], ◌∷◌, ◌++◌, map, length, get_elem?, get_or, set, ltb, leb, ◌==◌, if◌then◌else◌,
  u32, add_w, sub_w, mul_w,
}
use mathlib.Core.Option
use strawberry.Common.Shuffling.{deterministic_shuffle}
use strawberry.StateTransition.Constants.{
  number_of_validators, total_number_of_cores, validator_rotation_period, timeslots_per_epoch,
  work_report_timeout_period,
}
use strawberry.StateTransition.Reports.{WorkReport, CredentialSignature, Guarantee, Assignment}

-- [⌊C ⋅ i/V⌋ | i ∈ N_V], for n more indices from i on, in 32 bits.
unfoldable pub core_indices : (n i : ℕ) → List ℕ
core_indices zero i = []
core_indices (suc n) i =
    mul_w 32 total_number_of_cores i / number_of_validators ∷ core_indices n (suc i)

unfoldable pub rotate_sequence : List ℕ → ℕ → List ℕ
rotate_sequence [] n = []
rotate_sequence (x ∷ xs) n = add_w 32 x n % total_number_of_cores ∷ rotate_sequence xs n

-- `rotationAmount`
abbrev pub rotation_amount : ℕ → ℕ
rotation_amount timeslot = timeslot % timeslots_per_epoch / validator_rotation_period

-- `PermuteAssignments(entropy, timeslot)`; `none` is a run-time panic.
unfoldable pub permute_assignments : (List ℕ → List ℕ) → List ℕ → ℕ → Option (List ℕ)
unfolding core_indices rotate_sequence deterministic_shuffle
permute_assignments hash_data entropy timeslot =
    Option.map (λ shuffled. rotate_sequence shuffled (rotation_amount timeslot))
      (deterministic_shuffle hash_data (core_indices number_of_validators 0) entropy)

unfoldable pub is_validator_assigned_to_core : ℕ → ℕ → List ℕ → Bool
is_validator_assigned_to_core validator_index core_index core_assignments =
    elim (get_elem? core_assignments validator_index) [
      | none ↦ false
      | some core ↦ core == core_index
    ]

unfoldable pub is_assignment_stale : Option Assignment → ℕ → Bool
is_assignment_stale none new_timeslot = false
is_assignment_stale (some a) new_timeslot =
    leb (add_w 32 a.time work_report_timeout_period) new_timeslot

abbrev pub is_none {ℓ} : {A : Type ℓ} → Option A → Bool
is_none none = true
is_none (some a) = false

unfoldable pub is_assignment_valid : Option Assignment → ℕ → Bool
unfolding is_assignment_stale
is_assignment_valid none new_timeslot = true
is_assignment_valid (some a) new_timeslot =
    is_none a.work_report || is_assignment_stale (some a) new_timeslot

unfoldable pub is_guarantees_sorted_by_core_index : List Guarantee → Bool
is_guarantees_sorted_by_core_index [] = true
is_guarantees_sorted_by_core_index (g ∷ []) = true
is_guarantees_sorted_by_core_index (g ∷ h ∷ rest) =
    ltb g.work_report.core_index h.work_report.core_index
    && is_guarantees_sorted_by_core_index (h ∷ rest)
