-- ===== src/Pvm/Spec/Floor.antt =====
-- The floor of a quotient of integers, and the quotient that the code rounds toward zero.
use mathlib.Core.Bool.{xor}
use native.Mathlib.Nat.{div-eq_of_lt-le, mod-add-div, mul_comm, mod-zero, zero-div}
use strawberry.Base.{
  negsuc, ◌∙◌, ℕ, zero, suc, ◌*◌, ◌/◌, ◌%◌, ◌<◌, ◌≡◌, refl, ap, sym, arith, Bool, true, false, not,
  ◌||◌, ◌==◌, ℤ, abs, is_negative, with_sign, floor_div,
}
use strawberry.Pvm.Spec.{floor_quotient, no_negative_fraction}

-- a ÷ b rounded toward zero
abbrev pub quotient : ℤ → ℤ → ℤ
quotient a b = with_sign (xor (is_negative a) (is_negative b)) (abs a / abs b)

div-below : (n m q : ℕ) → 0 < m → suc n ≡ m * q → suc (n / m) ≡ q
div-below n m zero p e = omega (arith, e)
div-below n m (suc k) p e = ap suc (
    div-eq_of_lt-le {k = k} m {m = n} (omega (arith, e, mul_comm m k))
      (omega (arith, e, mul_comm m k)))

suc-div : (n m : ℕ) → 0 < m → suc n % m ≡ 0 → suc n / m ≡ suc (n / m)
suc-div n m p e = sym (div-below n m (suc n / m) p (omega (arith, mod-add-div (suc n) m)))

with_sign-suc : (n : ℕ) → with_sign true (suc n) ≡ negsuc n
with_sign-suc n = ground arith

-- The floor of a negative integer that the divisor divides.
floor_div-exact :
    (n m : ℕ) → (n % m == 0) ≡ true → with_sign true (n / m) ≡ floor_div (with_sign true n) m
floor_div-exact zero m e = rw (zero-div m) refl
floor_div-exact (suc n) zero e = ground (arith, mod-zero (suc n))
floor_div-exact (suc n) (suc m) e =
    ap (with_sign true) (suc-div n (suc m) (omega arith) (ground arith))
    ∙ with_sign-suc (n / suc m)
    ∙ sym (ap (λ x. floor_div x (suc m)) (with_sign-suc n))

-- The two quotients agree where the quotient is no negative fraction.
floor_quotient-signs :
    (s : Bool) (n m : ℕ)
    → (not s || n % m == 0) ≡ true
    → with_sign s (n / m) ≡ floor_div (with_sign s n) m
floor_quotient-signs false n m h = refl
floor_quotient-signs true n m h = floor_div-exact n m h

pub quotient-floor_quotient :
    (x y : ℤ) → no_negative_fraction x y ≡ true → quotient x y ≡ floor_quotient x y
quotient-floor_quotient x y h =
    floor_quotient-signs (xor (is_negative x) (is_negative y)) (abs x) (abs y) h
