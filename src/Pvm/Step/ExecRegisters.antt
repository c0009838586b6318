-- ===== src/Pvm/Step/ExecRegisters.antt =====
-- internal/polkavm/interpreter/step.go: the inner switches of the forms of two and of three registers.
use strawberry.Base.{ℕ}
use strawberry.Pvm.Errors.{panic}
use strawberry.Pvm.Opcode.{Opcode}
use strawberry.Pvm.Instance.{Instance, Outcome, stopped}
use strawberry.Pvm.Mutations.Stores.{sbrk}
use strawberry.Pvm.Mutations.Bits.{
  move_reg, count_set_bits_64, count_set_bits_32, leading_zero_bits_64, leading_zero_bits_32,
  trailing_zero_bits_64, trailing_zero_bits_32, sign_extend_8, sign_extend_16, zero_extend_16,
  reverse_bytes,
}
use strawberry.Pvm.Mutations.Word32.{
  add_32, sub_32, mul_32, div_unsigned_32, div_signed_32, rem_unsigned_32, rem_signed_32,
  shift_logical_left_32, shift_logical_right_32, shift_arithmetic_right_32, rotate_left_32,
  rotate_right_32,
}
use strawberry.Pvm.Mutations.Word64.{
  add_64, sub_64, mul_64, div_unsigned_64, div_signed_64, rem_unsigned_64, rem_signed_64,
  shift_logical_left_64, shift_logical_right_64, shift_arithmetic_right_64, mul_upper_signed_signed,
  mul_upper_unsigned_unsigned, mul_upper_signed_unsigned, rotate_left_64, rotate_right_64,
}
use strawberry.Pvm.Mutations.Logic.{
  and, xor, or, set_less_than_unsigned, set_less_than_signed, cmov_if_zero, cmov_if_not_zero,
  and_inverted, or_inverted, xnor, max, max_unsigned, min, min_unsigned,
}

-- The instructions of the form InstrRegReg.
unfoldable pub exec_reg_reg : Opcode → Instance → ℕ → ℕ → Outcome
unfolding move_reg sbrk count_set_bits_64 count_set_bits_32 leading_zero_bits_64
    leading_zero_bits_32 trailing_zero_bits_64 trailing_zero_bits_32 sign_extend_8 sign_extend_16
    zero_extend_16 reverse_bytes
exec_reg_reg Opcode.move_reg i reg_dst reg_a = move_reg i reg_dst reg_a
exec_reg_reg Opcode.sbrk i reg_dst reg_a = sbrk i reg_dst reg_a
exec_reg_reg Opcode.count_set_bits_64 i reg_dst reg_a = count_set_bits_64 i reg_dst reg_a
exec_reg_reg Opcode.count_set_bits_32 i reg_dst reg_a = count_set_bits_32 i reg_dst reg_a
exec_reg_reg Opcode.leading_zero_bits_64 i reg_dst reg_a = leading_zero_bits_64 i reg_dst reg_a
exec_reg_reg Opcode.leading_zero_bits_32 i reg_dst reg_a = leading_zero_bits_32 i reg_dst reg_a
exec_reg_reg Opcode.trailing_zero_bits_64 i reg_dst reg_a = trailing_zero_bits_64 i reg_dst reg_a
exec_reg_reg Opcode.trailing_zero_bits_32 i reg_dst reg_a = trailing_zero_bits_32 i reg_dst reg_a
exec_reg_reg Opcode.sign_extend_8 i reg_dst reg_a = sign_extend_8 i reg_dst reg_a
exec_reg_reg Opcode.sign_extend_16 i reg_dst reg_a = sign_extend_16 i reg_dst reg_a
exec_reg_reg Opcode.zero_extend_16 i reg_dst reg_a = zero_extend_16 i reg_dst reg_a
exec_reg_reg Opcode.reverse_bytes i reg_dst reg_a = reverse_bytes i reg_dst reg_a
exec_reg_reg _ i reg_dst reg_a = stopped panic i

-- The instructions of the form InstrReg3.
unfoldable pub exec_reg_3 : Opcode → Instance → ℕ → ℕ → ℕ → Outcome
unfolding add_32 sub_32 mul_32 div_unsigned_32 div_signed_32 rem_unsigned_32 rem_signed_32
    shift_logical_left_32 shift_logical_right_32 shift_arithmetic_right_32 add_64 sub_64 mul_64
    div_unsigned_64 div_signed_64 rem_unsigned_64 rem_signed_64 shift_logical_left_64
    shift_logical_right_64 shift_arithmetic_right_64 and xor or mul_upper_signed_signed
    mul_upper_unsigned_unsigned mul_upper_signed_unsigned set_less_than_unsigned
    set_less_than_signed cmov_if_zero cmov_if_not_zero rotate_left_64 rotate_left_32 rotate_right_64
    rotate_right_32 and_inverted or_inverted xnor max max_unsigned min min_unsigned
exec_reg_3 Opcode.add_32 i reg_dst reg_a reg_b = add_32 i reg_dst reg_a reg_b
exec_reg_3 Opcode.sub_32 i reg_dst reg_a reg_b = sub_32 i reg_dst reg_a reg_b
exec_reg_3 Opcode.mul_32 i reg_dst reg_a reg_b = mul_32 i reg_dst reg_a reg_b
exec_reg_3 Opcode.div_unsigned_32 i reg_dst reg_a reg_b = div_unsigned_32 i reg_dst reg_a reg_b
exec_reg_3 Opcode.div_signed_32 i reg_dst reg_a reg_b = div_signed_32 i reg_dst reg_a reg_b
exec_reg_3 Opcode.rem_unsigned_32 i reg_dst reg_a reg_b = rem_unsigned_32 i reg_dst reg_a reg_b
exec_reg_3 Opcode.rem_signed_32 i reg_dst reg_a reg_b = rem_signed_32 i reg_dst reg_a reg_b
exec_reg_3 Opcode.shift_logical_left_32 i reg_dst reg_a reg_b =
    shift_logical_left_32 i reg_dst reg_a reg_b
exec_reg_3 Opcode.shift_logical_right_32 i reg_dst reg_a reg_b =
    shift_logical_right_32 i reg_dst reg_a reg_b
exec_reg_3 Opcode.shift_arithmetic_right_32 i reg_dst reg_a reg_b =
    shift_arithmetic_right_32 i reg_dst reg_a reg_b
exec_reg_3 Opcode.add_64 i reg_dst reg_a reg_b = add_64 i reg_dst reg_a reg_b
exec_reg_3 Opcode.sub_64 i reg_dst reg_a reg_b = sub_64 i reg_dst reg_a reg_b
exec_reg_3 Opcode.mul_64 i reg_dst reg_a reg_b = mul_64 i reg_dst reg_a reg_b
exec_reg_3 Opcode.div_unsigned_64 i reg_dst reg_a reg_b = div_unsigned_64 i reg_dst reg_a reg_b
exec_reg_3 Opcode.div_signed_64 i reg_dst reg_a reg_b = div_signed_64 i reg_dst reg_a reg_b
exec_reg_3 Opcode.rem_unsigned_64 i reg_dst reg_a reg_b = rem_unsigned_64 i reg_dst reg_a reg_b
exec_reg_3 Opcode.rem_signed_64 i reg_dst reg_a reg_b = rem_signed_64 i reg_dst reg_a reg_b
exec_reg_3 Opcode.shift_logical_left_64 i reg_dst reg_a reg_b =
    shift_logical_left_64 i reg_dst reg_a reg_b
exec_reg_3 Opcode.shift_logical_right_64 i reg_dst reg_a reg_b =
    shift_logical_right_64 i reg_dst reg_a reg_b
exec_reg_3 Opcode.shift_arithmetic_right_64 i reg_dst reg_a reg_b =
    shift_arithmetic_right_64 i reg_dst reg_a reg_b
exec_reg_3 Opcode.and i reg_dst reg_a reg_b = and i reg_dst reg_a reg_b
exec_reg_3 Opcode.xor i reg_dst reg_a reg_b = xor i reg_dst reg_a reg_b
exec_reg_3 Opcode.or i reg_dst reg_a reg_b = or i reg_dst reg_a reg_b
exec_reg_3 Opcode.mul_upper_signed_signed i reg_dst reg_a reg_b =
    mul_upper_signed_signed i reg_dst reg_a reg_b
exec_reg_3 Opcode.mul_upper_unsigned_unsigned i reg_dst reg_a reg_b =
    mul_upper_unsigned_unsigned i reg_dst reg_a reg_b
exec_reg_3 Opcode.mul_upper_signed_unsigned i reg_dst reg_a reg_b =
    mul_upper_signed_unsigned i reg_dst reg_a reg_b
exec_reg_3 Opcode.set_less_than_unsigned i reg_dst reg_a reg_b =
    set_less_than_unsigned i reg_dst reg_a reg_b
exec_reg_3 Opcode.set_less_than_signed i reg_dst reg_a reg_b =
    set_less_than_signed i reg_dst reg_a reg_b
exec_reg_3 Opcode.cmov_if_zero i reg_dst reg_a reg_b = cmov_if_zero i reg_dst reg_a reg_b
exec_reg_3 Opcode.cmov_if_not_zero i reg_dst reg_a reg_b = cmov_if_not_zero i reg_dst reg_a reg_b
exec_reg_3 Opcode.rot_l_64 i reg_dst reg_a reg_b = rotate_left_64 i reg_dst reg_a reg_b
exec_reg_3 Opcode.rot_l_32 i reg_dst reg_a reg_b = rotate_left_32 i reg_dst reg_a reg_b
exec_reg_3 Opcode.rot_r_64 i reg_dst reg_a reg_b = rotate_right_64 i reg_dst reg_a reg_b
exec_reg_3 Opcode.rot_r_32 i reg_dst reg_a reg_b = rotate_right_32 i reg_dst reg_a reg_b
exec_reg_3 Opcode.and_inv i reg_dst reg_a reg_b = and_inverted i reg_dst reg_a reg_b
exec_reg_3 Opcode.or_inv i reg_dst reg_a reg_b = or_inverted i reg_dst reg_a reg_b
exec_reg_3 Opcode.xnor i reg_dst reg_a reg_b = xnor i reg_dst reg_a reg_b
exec_reg_3 Opcode.max i reg_dst reg_a reg_b = max i reg_dst reg_a reg_b
exec_reg_3 Opcode.max_u i reg_dst reg_a reg_b = max_unsigned i reg_dst reg_a reg_b
exec_reg_3 Opcode.min i reg_dst reg_a reg_b = min i reg_dst reg_a reg_b
exec_reg_3 Opcode.min_u i reg_dst reg_a reg_b = min_unsigned i reg_dst reg_a reg_b
exec_reg_3 _ i reg_dst reg_a reg_b = stopped panic i
