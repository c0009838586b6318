-- ===== src/Pvm/Spec.antt =====
-- The values that the instructions are meant to give, in the formulas of the Graypaper (appendix A)
-- that the comments of internal/polkavm/interpreter/mutations.go quote, over plain numbers and integers.
-- The quotient of signed numbers is the floor that the comments on the divisions give.
pub mod Signed
pub mod Floor
pub mod Division
pub mod Words
pub mod Signs
pub mod Registers
use Prim.Native.Nat.{max}
use mathlib.Core.Bool.{xor}
use strawberry.Base.{
  ℕ, ◌+◌, ◌-◌, ◌*◌, ◌/◌, ◌%◌, ◌^◌, Bool, true, false, not, ◌||◌, ltb, ◌==◌, if◌then◌else◌, bit_and,
  bit_or, bit_xor, min, ℤ, pos, negsuc, ◌&&◌, ◌*ℤ◌, abs, is_negative, with_sign, floor_div, ltb_ℤ,
}
use strawberry.Pvm.Opcode.{Opcode}

-- X_n: the sign of a number of n bytes is extended to 8 bytes.
abbrev pub x_n : ℕ → ℕ → ℕ
x_n n x = x + x / 2 ^ (8 * n - 1) * (2 ^ 64 - 2 ^ (8 * n))

-- Z_n: the integer that a number of n bytes stands for.
abbrev pub z_n : ℕ → ℕ → ℤ
z_n n x = if ltb x (2 ^ (8 * n - 1)) then pos x else negsuc (2 ^ (8 * n) - x - 1)

-- The inverse of Z_8, for every integer: its remainder by 2^64.
abbrev pub z_8_inverse : ℤ → ℕ
z_8_inverse (pos n) = n % 2 ^ 64
z_8_inverse (negsuc n) = 2 ^ 64 - 1 - n % 2 ^ 64

-- ⌊ a ÷ b ⌋
abbrev pub floor_quotient : ℤ → ℤ → ℤ
floor_quotient a b = floor_div (with_sign (xor (is_negative a) (is_negative b)) (abs a)) (abs b)

-- The quotient of a and b is no negative fraction: the signs are the same, or b divides a.
abbrev pub no_negative_fraction : ℤ → ℤ → Bool
no_negative_fraction a b = not (xor (is_negative a) (is_negative b)) || abs a % abs b == 0

-- smod(a, b) = sgn(a)(|a| mod |b|), eq. A.32
abbrev pub remainder : ℤ → ℤ → ℤ
remainder a b = with_sign (is_negative a) (abs a % abs b)

abbrev pub low_half : ℕ → ℕ
low_half x = x % 2 ^ 32

-- The bits of x, a number of w bits, moved up by k places, with those that leave it at the low end.
abbrev pub rotated : ℕ → ℕ → ℕ → ℕ
rotated w x k = x * 2 ^ (k % w) % 2 ^ w + x / 2 ^ (w - k % w)

abbrev pub truth : Bool → ℕ
truth true = 1
truth false = 0

-- ω′D of an instruction of three registers, from ωA, ωB and ωD.
unfoldable pub spec_reg_3 : Opcode → ℕ → ℕ → ℕ → ℕ
spec_reg_3 Opcode.add_32 a b d = x_n 4 ((a + b) % 2 ^ 32)
spec_reg_3 Opcode.sub_32 a b d = x_n 4 ((a + 2 ^ 32 - b % 2 ^ 32) % 2 ^ 32)
spec_reg_3 Opcode.mul_32 a b d = x_n 4 (a * b % 2 ^ 32)
spec_reg_3 Opcode.div_unsigned_32 a b d =
    if low_half b == 0 then 2 ^ 64 - 1 else x_n 4 (low_half a / low_half b)
spec_reg_3 Opcode.div_signed_32 a b d =
    if low_half b == 0
    then 2 ^ 64 - 1
    else if low_half a == 2 ^ 31 && low_half b == 2 ^ 32 - 1
    then z_8_inverse (z_n 4 (low_half a))
    else z_8_inverse (floor_quotient (z_n 4 (low_half a)) (z_n 4 (low_half b)))
spec_reg_3 Opcode.rem_unsigned_32 a b d =
    if low_half b == 0 then x_n 4 (low_half a) else x_n 4 (low_half a % low_half b)
spec_reg_3 Opcode.rem_signed_32 a b d =
    if low_half b == 0
    then z_8_inverse (z_n 4 (low_half a))
    else if low_half a == 2 ^ 31 && low_half b == 2 ^ 32 - 1
    then 0
    else z_8_inverse (remainder (z_n 4 (low_half a)) (z_n 4 (low_half b)))
spec_reg_3 Opcode.shift_logical_left_32 a b d = x_n 4 (a * 2 ^ (b % 32) % 2 ^ 32)
spec_reg_3 Opcode.shift_logical_right_32 a b d = x_n 4 (low_half a / 2 ^ (b % 32))
spec_reg_3 Opcode.shift_arithmetic_right_32 a b d =
    z_8_inverse (floor_div (z_n 4 (low_half a)) (2 ^ (b % 32)))
spec_reg_3 Opcode.add_64 a b d = (a + b) % 2 ^ 64
spec_reg_3 Opcode.sub_64 a b d = (a + 2 ^ 64 - b) % 2 ^ 64
spec_reg_3 Opcode.mul_64 a b d = a * b % 2 ^ 64
spec_reg_3 Opcode.div_unsigned_64 a b d = if b == 0 then 2 ^ 64 - 1 else a / b
spec_reg_3 Opcode.div_signed_64 a b d =
    if b == 0
    then 2 ^ 64 - 1
    else if a == 2 ^ 63 && b == 2 ^ 64 - 1
    then a
    else z_8_inverse (floor_quotient (z_n 8 a) (z_n 8 b))
spec_reg_3 Opcode.rem_unsigned_64 a b d = if b == 0 then a else a % b
spec_reg_3 Opcode.rem_signed_64 a b d =
    if b == 0
    then a
    else if a == 2 ^ 63 && b == 2 ^ 64 - 1
    then 0
    else z_8_inverse (remainder (z_n 8 a) (z_n 8 b))
spec_reg_3 Opcode.shift_logical_left_64 a b d = a * 2 ^ (b % 64) % 2 ^ 64
spec_reg_3 Opcode.shift_logical_right_64 a b d = a / 2 ^ (b % 64)
spec_reg_3 Opcode.shift_arithmetic_right_64 a b d = z_8_inverse (floor_div (z_n 8 a) (2 ^ (b % 64)))
spec_reg_3 Opcode.and a b d = bit_and a b
spec_reg_3 Opcode.xor a b d = bit_xor a b
spec_reg_3 Opcode.or a b d = bit_or a b
spec_reg_3 Opcode.mul_upper_signed_signed a b d =
    z_8_inverse (floor_div (z_n 8 a *ℤ z_n 8 b) (2 ^ 64))
spec_reg_3 Opcode.mul_upper_unsigned_unsigned a b d = a * b / 2 ^ 64
spec_reg_3 Opcode.mul_upper_signed_unsigned a b d =
    z_8_inverse (floor_div (z_n 8 a *ℤ pos b) (2 ^ 64))
spec_reg_3 Opcode.set_less_than_unsigned a b d = truth (ltb a b)
spec_reg_3 Opcode.set_less_than_signed a b d = truth (ltb_ℤ (z_n 8 a) (z_n 8 b))
spec_reg_3 Opcode.cmov_if_zero a b d = if b == 0 then a else d
spec_reg_3 Opcode.cmov_if_not_zero a b d = if b == 0 then d else a
spec_reg_3 Opcode.rot_l_64 a b d = rotated 64 a b
spec_reg_3 Opcode.rot_l_32 a b d = x_n 4 (rotated 32 (low_half a) b)
spec_reg_3 Opcode.rot_r_64 a b d = rotated 64 a (64 - b % 64)
spec_reg_3 Opcode.rot_r_32 a b d = x_n 4 (rotated 32 (low_half a) (32 - b % 32))
spec_reg_3 Opcode.and_inv a b d = bit_and a (2 ^ 64 - 1 - b)
spec_reg_3 Opcode.or_inv a b d = bit_or a (2 ^ 64 - 1 - b)
spec_reg_3 Opcode.xnor a b d = 2 ^ 64 - 1 - bit_xor a b
spec_reg_3 Opcode.max a b d = if ltb_ℤ (z_n 8 a) (z_n 8 b) then b else a
spec_reg_3 Opcode.max_u a b d = max a b
spec_reg_3 Opcode.min a b d = if ltb_ℤ (z_n 8 b) (z_n 8 a) then b else a
spec_reg_3 Opcode.min_u a b d = min a b
spec_reg_3 _ a b d = d
