-- ===== src/Pvm/Mutations/Immediate64.antt =====
-- internal/polkavm/interpreter/mutations.go. The 64-bit instructions of two registers and an immediate.
use strawberry.Base.{
  ℕ, not, ltb, ◌==◌, if◌then◌else◌, u32, add_w, sub_w, mul_w, extend, ltb_signed, shift_left,
  shift_right, shift_right_signed, rotate_left, bit_and, bit_or, bit_xor,
}
use strawberry.Pvm.Instance.{Instance, Outcome, reg, set_reg, skip, set_and_skip}
use strawberry.Pvm.Mutations.Values.{sext, bool_to_uint64}

unfoldable pub and_imm : Instance → ℕ → ℕ → ℕ → Outcome
and_imm i dst reg_a value = set_and_skip i dst (bit_and (reg i reg_a) value)

unfoldable pub xor_imm : Instance → ℕ → ℕ → ℕ → Outcome
xor_imm i dst reg_a value = set_and_skip i dst (bit_xor (reg i reg_a) value)

unfoldable pub or_imm : Instance → ℕ → ℕ → ℕ → Outcome
or_imm i dst reg_a value = set_and_skip i dst (bit_or (reg i reg_a) value)

unfoldable pub set_less_than_unsigned_imm : Instance → ℕ → ℕ → ℕ → Outcome
set_less_than_unsigned_imm i dst reg_a value =
    set_and_skip i dst (bool_to_uint64 (ltb (reg i reg_a) value))

unfoldable pub set_less_than_signed_imm : Instance → ℕ → ℕ → ℕ → Outcome
set_less_than_signed_imm i dst reg_a value =
    set_and_skip i dst (bool_to_uint64 (ltb_signed 64 (reg i reg_a) value))

unfoldable pub set_greater_than_unsigned_imm : Instance → ℕ → ℕ → ℕ → Outcome
set_greater_than_unsigned_imm i dst reg_a value =
    set_and_skip i dst (bool_to_uint64 (ltb value (reg i reg_a)))

unfoldable pub set_greater_than_signed_imm : Instance → ℕ → ℕ → ℕ → Outcome
set_greater_than_signed_imm i dst reg_a value =
    set_and_skip i dst (bool_to_uint64 (ltb_signed 64 value (reg i reg_a)))

unfoldable pub cmov_if_zero_imm : Instance → ℕ → ℕ → ℕ → Outcome
cmov_if_zero_imm i dst c s = skip (if reg i c == 0 then set_reg i dst s else i)

unfoldable pub cmov_if_not_zero_imm : Instance → ℕ → ℕ → ℕ → Outcome
cmov_if_not_zero_imm i dst c s = skip (if not (reg i c == 0) then set_reg i dst s else i)

unfoldable pub add_imm_64 : Instance → ℕ → ℕ → ℕ → Outcome
add_imm_64 i dst reg_a value = set_and_skip i dst (add_w 64 (reg i reg_a) value)

unfoldable pub mul_imm_64 : Instance → ℕ → ℕ → ℕ → Outcome
mul_imm_64 i dst reg_a value = set_and_skip i dst (mul_w 64 (reg i reg_a) value)

unfoldable pub shift_logical_left_imm_64 : Instance → ℕ → ℕ → ℕ → Outcome
shift_logical_left_imm_64 i dst reg_a value =
    set_and_skip i dst (sext (shift_left 64 (reg i reg_a) value) 8)

unfoldable pub shift_logical_right_imm_64 : Instance → ℕ → ℕ → ℕ → Outcome
shift_logical_right_imm_64 i dst reg_a value =
    set_and_skip i dst (sext (shift_right 64 (reg i reg_a) value) 8)

unfoldable pub shift_arithmetic_right_imm_64 : Instance → ℕ → ℕ → ℕ → Outcome
shift_arithmetic_right_imm_64 i dst reg_a value =
    set_and_skip i dst (shift_right_signed 64 (reg i reg_a) value)

unfoldable pub negate_and_add_imm_64 : Instance → ℕ → ℕ → ℕ → Outcome
negate_and_add_imm_64 i dst reg_a value = set_and_skip i dst (sub_w 64 value (reg i reg_a))

unfoldable pub shift_logical_left_imm_alt_64 : Instance → ℕ → ℕ → ℕ → Outcome
shift_logical_left_imm_alt_64 i dst reg_b value =
    set_and_skip i dst (shift_left 64 value (reg i reg_b))

unfoldable pub shift_logical_right_imm_alt_64 : Instance → ℕ → ℕ → ℕ → Outcome
shift_logical_right_imm_alt_64 i dst reg_b value =
    set_and_skip i dst (shift_right 64 value (reg i reg_b))

unfoldable pub shift_arithmetic_right_imm_alt_64 : Instance → ℕ → ℕ → ℕ → Outcome
shift_arithmetic_right_imm_alt_64 i dst reg_b value =
    set_and_skip i dst (extend 32 (shift_right_signed 32 (u32 value) (reg i reg_b)))

unfoldable pub rotate_right_64_imm : Instance → ℕ → ℕ → ℕ → Outcome
rotate_right_64_imm i dst reg_a value =
    set_and_skip i dst (rotate_left 64 (reg i reg_a) (sub_w 64 0 value))

unfoldable pub rotate_right_64_imm_alt : Instance → ℕ → ℕ → ℕ → Outcome
rotate_right_64_imm_alt i dst reg_a value =
    set_and_skip i dst (rotate_left 64 value (sub_w 64 0 (reg i reg_a)))
