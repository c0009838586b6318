-- ===== src/Pvm/Mutations/Word64.antt =====
-- internal/polkavm/interpreter/mutations.go. The 64-bit arithmetic of three registers.
use strawberry.Base.{
  ℕ, ◌/◌, ◌%◌, ◌^◌, ◌&&◌, ◌==◌, if◌then◌else◌, add_w, sub_w, mul_w, signed, to_word, extend,
  shift_left, shift_right, shift_right_signed, div_signed, rotate_left, ◌*ℤ◌, floor_div, pos,
}
use strawberry.Pvm.Instance.{Instance, Outcome, reg, set_reg, skip, set_and_skip}
use strawberry.Pvm.Mutations.Values.{max_uint64, min_int32, min_int64, minus_one, smod}

unfoldable pub add_64 : Instance → ℕ → ℕ → ℕ → Outcome
add_64 i dst reg_a reg_b = set_and_skip i dst (add_w 64 (reg i reg_a) (reg i reg_b))

unfoldable pub sub_64 : Instance → ℕ → ℕ → ℕ → Outcome
sub_64 i dst reg_a reg_b = set_and_skip i dst (sub_w 64 (reg i reg_a) (reg i reg_b))

unfoldable pub mul_64 : Instance → ℕ → ℕ → ℕ → Outcome
mul_64 i dst reg_a reg_b = set_and_skip i dst (mul_w 64 (reg i reg_a) (reg i reg_b))

unfoldable pub div_unsigned_64 : Instance → ℕ → ℕ → ℕ → Outcome
div_unsigned_64 i dst reg_a reg_b =
    let lhs = reg i reg_a in
    let rhs = reg i reg_b in skip (set_reg i dst (if rhs == 0 then max_uint64 else lhs / rhs))

unfoldable pub div_signed_64 : Instance → ℕ → ℕ → ℕ → Outcome
div_signed_64 i dst reg_a reg_b =
    let lhs = reg i reg_a in
    let rhs = reg i reg_b in
    skip (
      set_reg i dst (
        if rhs == 0
        then max_uint64
        else if lhs == min_int64 && rhs == minus_one 64
        then lhs
        else div_signed 64 lhs rhs))

unfoldable pub rem_unsigned_64 : Instance → ℕ → ℕ → ℕ → Outcome
rem_unsigned_64 i dst reg_a reg_b =
    let lhs = reg i reg_a in
    let rhs = reg i reg_b in skip (set_reg i dst (if rhs == 0 then lhs else lhs % rhs))

unfoldable pub rem_signed_64 : Instance → ℕ → ℕ → ℕ → Outcome
rem_signed_64 i dst reg_a reg_b =
    let lhs = reg i reg_a in
    let rhs = reg i reg_b in
    skip (
      set_reg i dst (
        if rhs == 0
        then lhs
        else if lhs == extend 32 min_int32 && rhs == minus_one 64
        then 0
        else smod 64 lhs rhs))

unfoldable pub shift_logical_left_64 : Instance → ℕ → ℕ → ℕ → Outcome
shift_logical_left_64 i dst reg_a reg_b =
    set_and_skip i dst (shift_left 64 (reg i reg_a) (reg i reg_b % 64))

unfoldable pub shift_logical_right_64 : Instance → ℕ → ℕ → ℕ → Outcome
shift_logical_right_64 i dst reg_a reg_b =
    set_and_skip i dst (shift_right 64 (reg i reg_a) (reg i reg_b % 64))

unfoldable pub shift_arithmetic_right_64 : Instance → ℕ → ℕ → ℕ → Outcome
shift_arithmetic_right_64 i dst reg_a reg_b =
    set_and_skip i dst (shift_right_signed 64 (reg i reg_a) (reg i reg_b % 64))

unfoldable pub mul_upper_signed_signed : Instance → ℕ → ℕ → ℕ → Outcome
mul_upper_signed_signed i dst reg_a reg_b =
    let mul = signed 64 (reg i reg_a) *ℤ signed 64 (reg i reg_b) in
    set_and_skip i dst (to_word 64 (floor_div mul (2 ^ 64)))

unfoldable pub mul_upper_unsigned_unsigned : Instance → ℕ → ℕ → ℕ → Outcome
mul_upper_unsigned_unsigned i dst reg_a reg_b =
    let mul = pos (reg i reg_a) *ℤ pos (reg i reg_b) in
    set_and_skip i dst (to_word 64 (floor_div mul (2 ^ 64)))

unfoldable pub mul_upper_signed_unsigned : Instance → ℕ → ℕ → ℕ → Outcome
mul_upper_signed_unsigned i dst reg_a reg_b =
    let mul = signed 64 (reg i reg_a) *ℤ pos (reg i reg_b) in
    set_and_skip i dst (to_word 64 (floor_div mul (2 ^ 64)))

unfoldable pub rotate_left_64 : Instance → ℕ → ℕ → ℕ → Outcome
rotate_left_64 i dst reg_a reg_b = set_and_skip i dst (rotate_left 64 (reg i reg_a) (reg i reg_b))

unfoldable pub rotate_right_64 : Instance → ℕ → ℕ → ℕ → Outcome
rotate_right_64 i dst reg_a reg_b =
    set_and_skip i dst (rotate_left 64 (reg i reg_a) (sub_w 64 0 (reg i reg_b)))
