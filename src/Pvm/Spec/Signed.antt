-- ===== src/Pvm/Spec/Signed.antt =====
-- The operations on patterns of signed numbers, in terms of the integers that they stand for.
use strawberry.Base.{
  ℕ, ◌-◌, ◌*◌, ◌/◌, ◌%◌, ◌^◌, ◌≤◌, ◌<◌, ◌≡◌, refl, arith, signed, to_word, extend, lt→ltb, ltb_ℤ,
  ltb_signed, shift_left, shift_right, shift_right_signed, rotate_left, floor_div, bit_xor-ones,
  bit_or-disjoint_high, shifted_up, moved_out-lt,
}
use native.Mathlib.Nat.{mod-lt}
use strawberry.Pvm.Mutations.Values.{sext, complement}
use strawberry.Pvm.Spec.{x_n, z_n, z_8_inverse, rotated}

pub extend-x_n : (x : ℕ) → x < 2 ^ 32 → extend 32 x ≡ x_n 4 x
unfolding extend
extend-x_n x h = ground arith

-- A result of 32 bits is widened as X_4 says.
pub sext-x_n : (x : ℕ) → sext x 4 ≡ x_n 4 (x % 2 ^ 32)
unfolding sext
sext-x_n x = extend-x_n (x % 2 ^ 32) (omega arith)

pub extend-z_n : (x : ℕ) → x < 2 ^ 32 → extend 32 x ≡ z_8_inverse (z_n 4 x)
unfolding extend
extend-z_n x h = ground arith

pub complement-sub : (b : ℕ) → b < 2 ^ 64 → complement b ≡ 2 ^ 64 - 1 - b
complement-sub b h = bit_xor-ones 64 b h

-- A shift by less than the width.
pub shift_left-lt : (w x n : ℕ) → n < w → shift_left w x n ≡ x * 2 ^ n % 2 ^ w
unfolding shift_left
shift_left-lt w x n h = rw (lt→ltb n w h)

pub shift_right-lt : (w x n : ℕ) → n < w → shift_right w x n ≡ x / 2 ^ n
unfolding shift_right
shift_right-lt w x n h = rw (lt→ltb n w h)

pub shift_right_signed-lt :
    (w x n : ℕ) → n < w → shift_right_signed w x n ≡ to_word w (floor_div (signed w x) (2 ^ n))
unfolding shift_right_signed
shift_right_signed-lt w x n h = rw (lt→ltb n w h)

-- Widening the pattern of a 32-bit quotient gives the 64-bit pattern of the same integer.
pub extend-to_word-floor_div :
    (x p : ℕ)
    → x < 2 ^ 32
    → 0 < p
    → extend 32 (to_word 32 (floor_div (signed 32 x) p)) ≡ z_8_inverse (floor_div (z_n 4 x) p)
unfolding extend to_word signed
extend-to_word-floor_div x p h positive = ground arith

pub to_word-floor_div :
    (x p : ℕ) → to_word 64 (floor_div (signed 64 x) p) ≡ z_8_inverse (floor_div (z_n 8 x) p)
unfolding to_word signed
to_word-floor_div x p = ground arith

pub ltb_signed-z_n : (a b : ℕ) → ltb_signed 64 a b ≡ ltb_ℤ (z_n 8 a) (z_n 8 b)
unfolding ltb_signed signed
ltb_signed-z_n a b = refl

-- Nothing is left of a number below 2^w that is shifted down by w.
shift_right-le : (w x n : ℕ) → n ≤ w → x < 2 ^ w → shift_right w x n ≡ x / 2 ^ n
unfolding shift_right
shift_right-le w x n h hx = ground (arith, moved_out-lt w x 0)

pub rotate_left-rotated : (w x k : ℕ) → 0 < w → x < 2 ^ w → rotate_left w x k ≡ rotated w x k
unfolding rotate_left
rotate_left-rotated w x k positive h =
    let s = k % w in
    let below : s < w = mod-lt k positive in
    let up = shifted_up w x s (omega arith) in
    rw (shift_left-lt w x s below, shift_right-le w x (w - s) (omega arith) h, up)
      (bit_or-disjoint_high s _ (x % 2 ^ (w - s)) (moved_out-lt w x s (omega arith) h))
