-- ===== src/StateTransition/Validation/Order.antt =====
-- The orders that the validation of guarantees tests between neighbours, as orders of whole lists.
use strawberry.Base.{ℕ, ◌<◌, true, false, ◌≡◌, arith, List, [], ◌∷◌, All}
use strawberry.StateTransition.Disputes.Checks.{not_ascending}
use strawberry.StateTransition.Disputes.Once.{keys}
use strawberry.StateTransition.Reports.{Guarantee}
use strawberry.StateTransition.Guarantees.{is_guarantees_sorted_by_core_index}

-- Each number is below all that come after it.
abbrev pub IsAscending : List ℕ → Type 0
IsAscending [] = Unit {0}
IsAscending (x ∷ xs) = All (λ y. x < y) xs × IsAscending xs

All-below : (x y : ℕ) (xs : List ℕ) → x < y → All (λ z. y < z) xs → All (λ z. x < z) xs
All-below x y [] h a = tt
All-below x y (z ∷ zs) h a = (omega (arith, h, a.0), All-below x y zs h a.1)

cons-IsAscending : (x y : ℕ) (xs : List ℕ) → x < y → IsAscending (y ∷ xs) → IsAscending (x ∷ y ∷ xs)
cons-IsAscending x y xs h a = ((h, All-below x y xs h a.0), a)

pub not_ascending-IsAscending {ℓ} :
    {A : Type ℓ} (key : A → ℕ) (xs : List A)
    → not_ascending key xs ≡ false
    → IsAscending (keys key xs)
unfolding not_ascending
not_ascending-IsAscending key [] e = tt
not_ascending-IsAscending key (x ∷ []) e = (tt, tt)
not_ascending-IsAscending key (x ∷ y ∷ rest) e =
    cons-IsAscending (key x) (key y) (keys key rest) (ground arith)
      (not_ascending-IsAscending key (y ∷ rest) (ground arith))

pub sorted-IsAscending :
    (gs : List Guarantee)
    → is_guarantees_sorted_by_core_index gs ≡ true
    → IsAscending (keys (λ (g : Guarantee). g.work_report.core_index) gs)
unfolding is_guarantees_sorted_by_core_index
sorted-IsAscending [] e = tt
sorted-IsAscending (g ∷ []) e = (tt, tt)
sorted-IsAscending (g ∷ h ∷ rest) e =
    cons-IsAscending g.work_report.core_index h.work_report.core_index
      (keys (λ (g : Guarantee). g.work_report.core_index) rest) (ground arith)
      (sorted-IsAscending (h ∷ rest) (ground arith))
