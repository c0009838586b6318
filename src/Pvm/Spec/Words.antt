-- ===== src/Pvm/Spec/Words.antt =====
-- The values of the instructions of three registers, over plain numbers: the code's and the formulas'.
use strawberry.Base.{
  ℕ, ◌+◌, ◌-◌, ◌*◌, ◌/◌, ◌%◌, ◌^◌, ◌<◌, ◌≡◌, refl, arith, ◌==◌, if◌then◌else◌, ap, ◌∙◌, sym, IsU64,
  u32, add_w, sub_w, mul_w, extend, shift_left, shift_right, shift_right_signed, rotate_left,
  bit_or, bit_or-lt,
}
use native.Mathlib.Nat.{
  mod-lt, div-le_self, mod-le, one-le-pow, add-mul-mod_self_right, mod-add-div',
}
use strawberry.Pvm.Opcode.{Opcode}
use strawberry.Pvm.Mutations.Values.{sext, max_uint64}
use strawberry.Pvm.Spec.{x_n, spec_reg_3}
use strawberry.Pvm.Spec.Signed.{
  sext-x_n, shift_left-lt, shift_right-lt, shift_right_signed-lt, extend-to_word-floor_div,
  to_word-floor_div, rotate_left-rotated,
}

power_positive : (n : ℕ) → 0 < 2 ^ n
power_positive n = one-le-pow n 2 (omega arith)

sext-small : (v : ℕ) → v < 2 ^ 32 → sext v 4 ≡ x_n 4 v
sext-small v h = sext-x_n v ∙ ap (x_n 4) (omega (arith, h))

low_mul : (a p : ℕ) → u32 a * p % 2 ^ 32 ≡ a * p % 2 ^ 32
low_mul a p =
    let e : (u32 a + a / 2 ^ 32 * 2 ^ 32) * p ≡ u32 a * p + (a / 2 ^ 32 * p) * 2 ^ 32 =
      omega arith in
    sym (add-mul-mod_self_right (u32 a * p) (a / 2 ^ 32 * p) (2 ^ 32))
    ∙ ap (λ t. t % 2 ^ 32) (sym e)
    ∙ ap (λ t. t * p % 2 ^ 32) (mod-add-div' a (2 ^ 32))

shifted_left-lt : (w x s : ℕ) → shift_left w x s < 2 ^ w
unfolding shift_left
shifted_left-lt w x s = ground (arith, mod-lt (x * 2 ^ s) (power_positive w), power_positive w)

shifted_right-lt : (w x s : ℕ) → x < 2 ^ w → shift_right w x s < 2 ^ w
unfolding shift_right
shifted_right-lt w x s h = ground (arith, div-le_self x (2 ^ s), h)

rotate_left-lt : (w x k : ℕ) → x < 2 ^ w → rotate_left w x k < 2 ^ w
unfolding rotate_left
rotate_left-lt w x k h =
    bit_or-lt w _ _ (shifted_left-lt w x (k % w)) (shifted_right-lt w x (w - k % w) h)

-- Only the remainder of the amount counts.
rotate_left-amount : (w x k m : ℕ) → k % w ≡ m % w → rotate_left w x k ≡ rotate_left w x m
unfolding rotate_left
rotate_left-amount w x k m e = ap (λ s. bit_or (shift_left w x s) (shift_right w x (w - s))) e

module _ (a b d : ℕ) where
  pub sum_32 : sext (u32 (add_w 64 a b)) 4 ≡ spec_reg_3 Opcode.add_32 a b d
  unfolding spec_reg_3
  sum_32 = sext-x_n _ ∙ ap (x_n 4) (omega arith)

  pub product_32 : sext (u32 (mul_w 64 a b)) 4 ≡ spec_reg_3 Opcode.mul_32 a b d
  unfolding spec_reg_3
  product_32 = sext-x_n _ ∙ ap (x_n 4) (omega arith)

  pub difference_32 : IsU64 b → sext (u32 (sub_w 64 a b)) 4 ≡ spec_reg_3 Opcode.sub_32 a b d
  unfolding spec_reg_3
  difference_32 h = sext-x_n _ ∙ ap (x_n 4) (omega (arith, h))

  pub div_unsigned_32 :
      (if u32 b == 0 then max_uint64 else sext (u32 a / u32 b) 4)
      ≡ spec_reg_3 Opcode.div_unsigned_32 a b d
  unfolding spec_reg_3
  div_unsigned_32 =
      ap (λ q. if u32 b == 0 then max_uint64 else q)
        (sext-x_n _ ∙ ap (x_n 4) (omega (arith, div-le_self (u32 a) (u32 b))))

  pub rem_unsigned_32 :
      (if u32 b == 0 then sext (u32 a) 4 else sext (u32 a % u32 b) 4)
      ≡ spec_reg_3 Opcode.rem_unsigned_32 a b d
  unfolding spec_reg_3
  rem_unsigned_32 =
      rw
        (
          sext-small (u32 a) (omega arith),
          sext-small (u32 a % u32 b) (omega (arith, mod-le (u32 a) (u32 b))),
        )
        refl

  pub shift_left_32 :
      sext (shift_left 32 (u32 a) (u32 b % 32)) 4 ≡ spec_reg_3 Opcode.shift_logical_left_32 a b d
  unfolding spec_reg_3
  shift_left_32 =
      rw (amount, shift_left-lt 32 (u32 a) (b % 32) (omega arith), low_mul a (2 ^ (b % 32)))
        (sext-small _ (omega arith))
    where
      amount : u32 b % 32 ≡ b % 32
      amount = omega arith

  pub shift_right_32 :
      sext (shift_right 32 (u32 a) (u32 b % 32)) 4 ≡ spec_reg_3 Opcode.shift_logical_right_32 a b d
  unfolding spec_reg_3
  shift_right_32 =
      rw (amount, shift_right-lt 32 (u32 a) (b % 32) (omega arith))
        (sext-small _ (omega (arith, div-le_self (u32 a) (2 ^ (b % 32)))))
    where
      amount : u32 b % 32 ≡ b % 32
      amount = omega arith

  pub shift_arithmetic_32 :
      extend 32 (shift_right_signed 32 (u32 a) (u32 b % 32))
      ≡ spec_reg_3 Opcode.shift_arithmetic_right_32 a b d
  unfolding spec_reg_3
  shift_arithmetic_32 =
      rw (amount, shift_right_signed-lt 32 (u32 a) (b % 32) (omega arith))
        (extend-to_word-floor_div (u32 a) (2 ^ (b % 32)) (omega arith) (power_positive _))
    where
      amount : u32 b % 32 ≡ b % 32
      amount = omega arith

  pub rotate_left_32 : sext (rotate_left 32 (u32 a) b) 4 ≡ spec_reg_3 Opcode.rot_l_32 a b d
  unfolding spec_reg_3
  rotate_left_32 =
      let e = rotate_left-rotated 32 (u32 a) b (omega arith) (omega arith) in
      sext-small _ (rotate_left-lt 32 (u32 a) b (omega arith)) ∙ ap (x_n 4) e

  pub rotate_right_32 :
      IsU64 b → sext (rotate_left 32 (u32 a) (sub_w 64 0 b)) 4 ≡ spec_reg_3 Opcode.rot_r_32 a b d
  unfolding spec_reg_3
  rotate_right_32 h =
      rw (rotate_left-amount 32 (u32 a) (sub_w 64 0 b) (32 - b % 32) (omega (arith, h))) (
        sext-small _ (rotate_left-lt 32 (u32 a) (32 - b % 32) (omega arith))
        ∙ ap (x_n 4) (rotate_left-rotated 32 (u32 a) (32 - b % 32) (omega arith) (omega arith)))

  pub shift_left_64 : shift_left 64 a (b % 64) ≡ spec_reg_3 Opcode.shift_logical_left_64 a b d
  unfolding spec_reg_3
  shift_left_64 = shift_left-lt 64 a (b % 64) (omega arith)

  pub shift_right_64 : shift_right 64 a (b % 64) ≡ spec_reg_3 Opcode.shift_logical_right_64 a b d
  unfolding spec_reg_3
  shift_right_64 = shift_right-lt 64 a (b % 64) (omega arith)

  pub shift_arithmetic_64 :
      shift_right_signed 64 a (b % 64) ≡ spec_reg_3 Opcode.shift_arithmetic_right_64 a b d
  unfolding spec_reg_3
  shift_arithmetic_64 =
      shift_right_signed-lt 64 a (b % 64) (omega arith) ∙ to_word-floor_div a (2 ^ (b % 64))

  pub rotate_left_64 : IsU64 a → rotate_left 64 a b ≡ spec_reg_3 Opcode.rot_l_64 a b d
  unfolding spec_reg_3
  rotate_left_64 h = rotate_left-rotated 64 a b (omega arith) h

  pub rotate_right_64 :
      IsU64 a → IsU64 b → rotate_left 64 a (sub_w 64 0 b) ≡ spec_reg_3 Opcode.rot_r_64 a b d
  unfolding spec_reg_3
  rotate_right_64 ha h =
      rotate_left-amount 64 a (sub_w 64 0 b) (64 - b % 64) (omega (arith, h))
      ∙ rotate_left-rotated 64 a (64 - b % 64) (omega arith) ha
