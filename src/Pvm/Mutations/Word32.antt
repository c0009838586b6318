-- ===== src/Pvm/Mutations/Word32.antt =====
-- internal/polkavm/interpreter/mutations.go. The 32-bit instructions of three registers.
use strawberry.Base.{
  ℕ, ◌/◌, ◌%◌, ◌&&◌, ◌==◌, if◌then◌else◌, u32, add_w, sub_w, mul_w, extend, shift_left, shift_right,
  shift_right_signed, div_signed, rotate_left,
}
use strawberry.Pvm.Instance.{Instance, Outcome, reg, set_reg, skip, set_and_skip}
use strawberry.Pvm.Mutations.Values.{sext, max_uint64, min_int32, minus_one, smod}

unfoldable pub add_32 : Instance → ℕ → ℕ → ℕ → Outcome
add_32 i dst reg_a reg_b = set_and_skip i dst (sext (u32 (add_w 64 (reg i reg_a) (reg i reg_b))) 4)

unfoldable pub sub_32 : Instance → ℕ → ℕ → ℕ → Outcome
sub_32 i dst reg_a reg_b = set_and_skip i dst (sext (u32 (sub_w 64 (reg i reg_a) (reg i reg_b))) 4)

unfoldable pub mul_32 : Instance → ℕ → ℕ → ℕ → Outcome
mul_32 i dst reg_a reg_b = set_and_skip i dst (sext (u32 (mul_w 64 (reg i reg_a) (reg i reg_b))) 4)

unfoldable pub div_unsigned_32 : Instance → ℕ → ℕ → ℕ → Outcome
div_unsigned_32 i dst reg_a reg_b =
    let lhs = u32 (reg i reg_a) in
    let rhs = u32 (reg i reg_b) in
    skip (set_reg i dst (if rhs == 0 then max_uint64 else sext (lhs / rhs) 4))

unfoldable pub div_signed_32 : Instance → ℕ → ℕ → ℕ → Outcome
div_signed_32 i dst reg_a reg_b =
    let lhs = u32 (reg i reg_a) in
    let rhs = u32 (reg i reg_b) in
    skip (
      set_reg i dst (
        if rhs == 0
        then max_uint64
        else if lhs == min_int32 && rhs == minus_one 32
        then extend 32 lhs
        else extend 32 (div_signed 32 lhs rhs)))

unfoldable pub rem_unsigned_32 : Instance → ℕ → ℕ → ℕ → Outcome
rem_unsigned_32 i dst reg_a reg_b =
    let lhs = u32 (reg i reg_a) in
    let rhs = u32 (reg i reg_b) in
    skip (set_reg i dst (if rhs == 0 then sext lhs 4 else sext (lhs % rhs) 4))

unfoldable pub rem_signed_32 : Instance → ℕ → ℕ → ℕ → Outcome
rem_signed_32 i dst reg_a reg_b =
    let lhs = u32 (reg i reg_a) in
    let rhs = u32 (reg i reg_b) in
    skip (
      set_reg i dst (
        if rhs == 0
        then extend 32 lhs
        else if lhs == min_int32 && rhs == minus_one 32
        then 0
        else extend 32 (smod 32 lhs rhs)))

unfoldable pub shift_logical_left_32 : Instance → ℕ → ℕ → ℕ → Outcome
shift_logical_left_32 i dst reg_a reg_b =
    set_and_skip i dst (sext (shift_left 32 (u32 (reg i reg_a)) (u32 (reg i reg_b) % 32)) 4)

unfoldable pub shift_logical_right_32 : Instance → ℕ → ℕ → ℕ → Outcome
shift_logical_right_32 i dst reg_a reg_b =
    set_and_skip i dst (sext (shift_right 32 (u32 (reg i reg_a)) (u32 (reg i reg_b) % 32)) 4)

unfoldable pub shift_arithmetic_right_32 : Instance → ℕ → ℕ → ℕ → Outcome
shift_arithmetic_right_32 i dst reg_a reg_b =
    let shift_amount = u32 (reg i reg_b) % 32 in
    set_and_skip i dst (extend 32 (shift_right_signed 32 (u32 (reg i reg_a)) shift_amount))

unfoldable pub rotate_left_32 : Instance → ℕ → ℕ → ℕ → Outcome
rotate_left_32 i dst reg_a reg_b =
    set_and_skip i dst (sext (rotate_left 32 (u32 (reg i reg_a)) (reg i reg_b)) 4)

unfoldable pub rotate_right_32 : Instance → ℕ → ℕ → ℕ → Outcome
rotate_right_32 i dst reg_a reg_b =
    set_and_skip i dst (sext (rotate_left 32 (u32 (reg i reg_a)) (sub_w 64 0 (reg i reg_b))) 4)
