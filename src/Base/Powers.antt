-- ===== src/Base/Powers.antt =====
-- Powers of two, as shifts use them.
use Prim.Native.Nat.{ℕ, zero, suc, ◌+◌, ◌-◌, ◌*◌, ◌/◌, ◌%◌, ◌^◌, ◌≤◌, ◌<◌}
use mathlib.Core.Path.{◌≡◌, ap, ◌∙◌}
use native.Mathlib.Nat.{
  pow-suc, one-le-pow, div-add-mod, mod-lt, mod-eq_of_lt, add-mul-mod_self_right, div-lt_iff_lt-mul,
}
use native.Mathlib.Omega.{arith}

pow-add : (a b : ℕ) → 2 ^ (a + b) ≡ 2 ^ a * 2 ^ b
pow-add a zero = ap (λ e. 2 ^ e) plus ∙ omega arith
  where
    plus : a + zero ≡ a
    plus = omega arith
pow-add a (suc b) =
    ap (λ e. 2 ^ e) plus
    ∙ pow-suc 2 (a + b)
    ∙ omega (arith, ap (λ (t : ℕ). t * 2) (pow-add a b), ap (λ (t : ℕ). 2 ^ a * t) (pow-suc 2 b))
  where
    plus : a + suc b ≡ suc (a + b)
    plus = omega arith

pub pow-sub : (w s : ℕ) → s ≤ w → 2 ^ w ≡ 2 ^ (w - s) * 2 ^ s
pow-sub w s h = ap (λ e. 2 ^ e) plus ∙ pow-add (w - s) s
  where
    plus : w ≡ w - s + s
    plus = omega arith

-- A factor moves out of a remainder by a multiple of it.
mul-mod-mul : (x p s : ℕ) → 0 < p → 0 < s → x * s % (p * s) ≡ x % p * s
mul-mod-mul x p s hp hs =
    ap (λ t. t % (p * s)) split
    ∙ add-mul-mod_self_right (x % p * s) (x / p) (p * s)
    ∙ mod-eq_of_lt fits
  where
    split : x * s ≡ x % p * s + x / p * (p * s)
    split = omega (arith, ap (λ (t : ℕ). t * s) (div-add-mod x p))

    fits : x % p * s < p * s
    fits = grind (arith, mod-lt x hp)

-- What is left of x, moved up by s places in w bits.
pub shifted_up : (w x s : ℕ) → s ≤ w → x * 2 ^ s % 2 ^ w ≡ x % 2 ^ (w - s) * 2 ^ s
shifted_up w x s h =
    ap (λ t. x * 2 ^ s % t) (pow-sub w s h)
    ∙ mul-mod-mul x (2 ^ (w - s)) (2 ^ s) (one-le-pow (w - s) 2 (omega arith))
        (one-le-pow s 2 (omega arith))

-- The bits that leave x at the upper end fit into s places.
pub moved_out-lt : (w x s : ℕ) → s ≤ w → x < 2 ^ w → x / 2 ^ (w - s) < 2 ^ s
moved_out-lt w x s h hx =
    (div-lt_iff_lt-mul (one-le-pow (w - s) 2 (omega arith))).1 (omega (arith, pow-sub w s h))
