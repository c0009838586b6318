-- ===== src/Pvm/Mutations/Immediate32.antt =====
-- internal/polkavm/interpreter/mutations.go. The 32-bit instructions of two registers and an immediate.
use strawberry.Base.{
  ℕ, u32, add_w, sub_w, mul_w, extend, shift_left, shift_right, shift_right_signed, rotate_left,
}
use strawberry.Pvm.Instance.{Instance, Outcome, reg, set_and_skip}
use strawberry.Pvm.Mutations.Values.{sext}

unfoldable pub add_imm_32 : Instance → ℕ → ℕ → ℕ → Outcome
add_imm_32 i dst reg_a value = set_and_skip i dst (sext (u32 (add_w 64 (reg i reg_a) value)) 4)

unfoldable pub mul_imm_32 : Instance → ℕ → ℕ → ℕ → Outcome
mul_imm_32 i dst reg_a value = set_and_skip i dst (sext (u32 (mul_w 64 (reg i reg_a) value)) 4)

unfoldable pub shift_logical_left_imm_32 : Instance → ℕ → ℕ → ℕ → Outcome
shift_logical_left_imm_32 i dst reg_a value =
    set_and_skip i dst (sext (shift_left 32 (u32 (reg i reg_a)) value) 4)

unfoldable pub shift_logical_right_imm_32 : Instance → ℕ → ℕ → ℕ → Outcome
shift_logical_right_imm_32 i dst reg_a value =
    set_and_skip i dst (sext (shift_right 32 (u32 (reg i reg_a)) value) 4)

unfoldable pub shift_arithmetic_right_imm_32 : Instance → ℕ → ℕ → ℕ → Outcome
shift_arithmetic_right_imm_32 i dst reg_a value =
    set_and_skip i dst (extend 32 (shift_right_signed 32 (u32 (reg i reg_a)) value))

unfoldable pub negate_and_add_imm_32 : Instance → ℕ → ℕ → ℕ → Outcome
negate_and_add_imm_32 i dst reg_a value =
    set_and_skip i dst (sext (u32 (sub_w 64 value (reg i reg_a))) 4)

unfoldable pub shift_logical_left_imm_alt_32 : Instance → ℕ → ℕ → ℕ → Outcome
shift_logical_left_imm_alt_32 i dst reg_b value =
    set_and_skip i dst (sext (u32 (shift_left 64 value (reg i reg_b))) 4)

unfoldable pub shift_logical_right_imm_alt_32 : Instance → ℕ → ℕ → ℕ → Outcome
shift_logical_right_imm_alt_32 i dst reg_b value =
    set_and_skip i dst (sext (shift_right 32 (u32 value) (u32 (reg i reg_b))) 4)

unfoldable pub shift_arithmetic_right_imm_alt_32 : Instance → ℕ → ℕ → ℕ → Outcome
shift_arithmetic_right_imm_alt_32 i dst reg_b value =
    set_and_skip i dst (extend 32 (shift_right_signed 32 (u32 value) (u32 (reg i reg_b))))

unfoldable pub rotate_right_32_imm : Instance → ℕ → ℕ → ℕ → Outcome
rotate_right_32_imm i dst reg_a value =
    set_and_skip i dst (sext (rotate_left 32 (u32 (reg i reg_a)) (sub_w 64 0 value)) 4)

unfoldable pub rotate_right_32_imm_alt : Instance → ℕ → ℕ → ℕ → Outcome
rotate_right_32_imm_alt i dst reg_a value =
    set_and_skip i dst (sext (rotate_left 32 (u32 value) (sub_w 64 0 (u32 (reg i reg_a)))) 4)
