-- ===== src/Base/Occurrences.antt =====
-- How often a number stands in a list, and whether it does.
use Prim.Native.Nat.{ℕ, ◌+◌}
use mathlib.Core.Path.{◌≡◌, refl}
use mathlib.Core.Bool.{Bool, false, ◌||◌}
use mathlib.Core.List.{List, [], ◌∷◌, ◌++◌}
use native.Mathlib.Omega.{arith}
use strawberry.Base.Tests.{◌==◌, if◌then◌else◌}

abbrev pub one_if : ℕ → ℕ → ℕ
one_if v x = if x == v then 1 else 0

abbrev pub count : ℕ → List ℕ → ℕ
count v [] = 0
count v (x ∷ xs) = one_if v x + count v xs

pub count-append : (v : ℕ) (xs ys : List ℕ) → count v (xs ++ ys) ≡ count v xs + count v ys
count-append v [] ys = omega arith
count-append v (x ∷ xs) ys = omega (arith, count-append v xs ys)

-- The loop that looks for an item.
abbrev pub contains : List ℕ → ℕ → Bool
contains [] item = false
contains (x ∷ xs) item = x == item || contains xs item

pub count-contains : (v : ℕ) (xs : List ℕ) → contains xs v ≡ false → count v xs ≡ 0
count-contains v [] h = refl
count-contains v (x ∷ xs) h = ground (arith, count-contains v xs)

pub contains-append :
    (xs ys : List ℕ) (v : ℕ) → contains (xs ++ ys) v ≡ (contains xs v || contains ys v)
contains-append [] ys v = refl
contains-append (x ∷ xs) ys v = ground (arith, contains-append xs ys v)
