-- ===== src/Pvm/Step/ExecImmediate.antt =====
-- internal/polkavm/interpreter/step.go: the inner switch of the form of two registers and an immediate.
use strawberry.Base.{ℕ}
use strawberry.Pvm.Errors.{panic}
use strawberry.Pvm.Opcode.{Opcode}
use strawberry.Pvm.Instance.{Instance, Outcome, stopped}
use strawberry.Pvm.Mutations.Access.{
  load_indirect_u8, load_indirect_i8, load_indirect_u16, load_indirect_i16, load_indirect_u32,
  load_indirect_i32, load_indirect_u64,
}
use strawberry.Pvm.Mutations.Stores.{
  store_indirect_u8, store_indirect_u16, store_indirect_u32, store_indirect_u64,
}
use strawberry.Pvm.Mutations.Immediate32.{
  add_imm_32, mul_imm_32, shift_logical_left_imm_32, shift_logical_right_imm_32,
  shift_arithmetic_right_imm_32, negate_and_add_imm_32, shift_logical_left_imm_alt_32,
  shift_logical_right_imm_alt_32, shift_arithmetic_right_imm_alt_32, rotate_right_32_imm,
  rotate_right_32_imm_alt,
}
use strawberry.Pvm.Mutations.Immediate64.{
  and_imm, xor_imm, or_imm, set_less_than_unsigned_imm, set_less_than_signed_imm,
  set_greater_than_unsigned_imm, set_greater_than_signed_imm, cmov_if_zero_imm,
  cmov_if_not_zero_imm, add_imm_64, mul_imm_64, shift_logical_left_imm_64,
  shift_logical_right_imm_64, shift_arithmetic_right_imm_64, negate_and_add_imm_64,
  shift_logical_left_imm_alt_64, shift_logical_right_imm_alt_64, shift_arithmetic_right_imm_alt_64,
  rotate_right_64_imm, rotate_right_64_imm_alt,
}

-- The instructions of the form InstrReg2Imm.
unfoldable pub exec_reg_2_imm : Opcode → Instance → ℕ → ℕ → ℕ → Outcome
unfolding store_indirect_u8 store_indirect_u16 store_indirect_u32 store_indirect_u64
    load_indirect_u8 load_indirect_i8 load_indirect_u16 load_indirect_i16 load_indirect_u32
    load_indirect_i32 load_indirect_u64 add_imm_32 and_imm xor_imm or_imm mul_imm_32
    set_less_than_unsigned_imm set_less_than_signed_imm shift_logical_left_imm_32
    shift_logical_right_imm_32 shift_arithmetic_right_imm_32 negate_and_add_imm_32
    set_greater_than_unsigned_imm set_greater_than_signed_imm shift_logical_left_imm_alt_32
    shift_logical_right_imm_alt_32 shift_arithmetic_right_imm_alt_32 cmov_if_zero_imm
    cmov_if_not_zero_imm add_imm_64 mul_imm_64 shift_logical_left_imm_64 shift_logical_right_imm_64
    shift_arithmetic_right_imm_64 negate_and_add_imm_64 shift_logical_left_imm_alt_64
    shift_logical_right_imm_alt_64 shift_arithmetic_right_imm_alt_64 rotate_right_64_imm
    rotate_right_64_imm_alt rotate_right_32_imm rotate_right_32_imm_alt
exec_reg_2_imm Opcode.store_indirect_u8 i reg_a reg_b value_x =
    store_indirect_u8 i reg_a reg_b value_x
exec_reg_2_imm Opcode.store_indirect_u16 i reg_a reg_b value_x =
    store_indirect_u16 i reg_a reg_b value_x
exec_reg_2_imm Opcode.store_indirect_u32 i reg_a reg_b value_x =
    store_indirect_u32 i reg_a reg_b value_x
exec_reg_2_imm Opcode.store_indirect_u64 i reg_a reg_b value_x =
    store_indirect_u64 i reg_a reg_b value_x
exec_reg_2_imm Opcode.load_indirect_u8 i reg_a reg_b value_x =
    load_indirect_u8 i reg_a reg_b value_x
exec_reg_2_imm Opcode.load_indirect_i8 i reg_a reg_b value_x =
    load_indirect_i8 i reg_a reg_b value_x
exec_reg_2_imm Opcode.load_indirect_u16 i reg_a reg_b value_x =
    load_indirect_u16 i reg_a reg_b value_x
exec_reg_2_imm Opcode.load_indirect_i16 i reg_a reg_b value_x =
    load_indirect_i16 i reg_a reg_b value_x
exec_reg_2_imm Opcode.load_indirect_u32 i reg_a reg_b value_x =
    load_indirect_u32 i reg_a reg_b value_x
exec_reg_2_imm Opcode.load_indirect_i32 i reg_a reg_b value_x =
    load_indirect_i32 i reg_a reg_b value_x
exec_reg_2_imm Opcode.load_indirect_u64 i reg_a reg_b value_x =
    load_indirect_u64 i reg_a reg_b value_x
exec_reg_2_imm Opcode.add_imm_32 i reg_a reg_b value_x = add_imm_32 i reg_a reg_b value_x
exec_reg_2_imm Opcode.and_imm i reg_a reg_b value_x = and_imm i reg_a reg_b value_x
exec_reg_2_imm Opcode.xor_imm i reg_a reg_b value_x = xor_imm i reg_a reg_b value_x
exec_reg_2_imm Opcode.or_imm i reg_a reg_b value_x = or_imm i reg_a reg_b value_x
exec_reg_2_imm Opcode.mul_imm_32 i reg_a reg_b value_x = mul_imm_32 i reg_a reg_b value_x
exec_reg_2_imm Opcode.set_less_than_unsigned_imm i reg_a reg_b value_x =
    set_less_than_unsigned_imm i reg_a reg_b value_x
exec_reg_2_imm Opcode.set_less_than_signed_imm i reg_a reg_b value_x =
    set_less_than_signed_imm i reg_a reg_b value_x
exec_reg_2_imm Opcode.shift_logical_left_imm_32 i reg_a reg_b value_x =
    shift_logical_left_imm_32 i reg_a reg_b value_x
exec_reg_2_imm Opcode.shift_logical_right_imm_32 i reg_a reg_b value_x =
    shift_logical_right_imm_32 i reg_a reg_b value_x
exec_reg_2_imm Opcode.shift_arithmetic_right_imm_32 i reg_a reg_b value_x =
    shift_arithmetic_right_imm_32 i reg_a reg_b value_x
exec_reg_2_imm Opcode.negate_and_add_imm_32 i reg_a reg_b value_x =
    negate_and_add_imm_32 i reg_a reg_b value_x
exec_reg_2_imm Opcode.set_greater_than_unsigned_imm i reg_a reg_b value_x =
    set_greater_than_unsigned_imm i reg_a reg_b value_x
exec_reg_2_imm Opcode.set_greater_than_signed_imm i reg_a reg_b value_x =
    set_greater_than_signed_imm i reg_a reg_b value_x
exec_reg_2_imm Opcode.shift_logical_left_imm_alt_32 i reg_a reg_b value_x =
    shift_logical_left_imm_alt_32 i reg_a reg_b value_x
exec_reg_2_imm Opcode.shift_arithmetic_right_imm_alt_32 i reg_a reg_b value_x =
    shift_logical_right_imm_alt_32 i reg_a reg_b value_x
exec_reg_2_imm Opcode.shift_logical_right_imm_alt_32 i reg_a reg_b value_x =
    shift_arithmetic_right_imm_alt_32 i reg_a reg_b value_x
exec_reg_2_imm Opcode.cmov_if_zero_imm i reg_a reg_b value_x =
    cmov_if_zero_imm i reg_a reg_b value_x
exec_reg_2_imm Opcode.cmov_if_not_zero_imm i reg_a reg_b value_x =
    cmov_if_not_zero_imm i reg_a reg_b value_x
exec_reg_2_imm Opcode.add_imm_64 i reg_a reg_b value_x = add_imm_64 i reg_a reg_b value_x
exec_reg_2_imm Opcode.mul_imm_64 i reg_a reg_b value_x = mul_imm_64 i reg_a reg_b value_x
exec_reg_2_imm Opcode.shift_logical_left_imm_64 i reg_a reg_b value_x =
    shift_logical_left_imm_64 i reg_a reg_b value_x
exec_reg_2_imm Opcode.shift_logical_right_imm_64 i reg_a reg_b value_x =
    shift_logical_right_imm_64 i reg_a reg_b value_x
exec_reg_2_imm Opcode.shift_arithmetic_right_imm_64 i reg_a reg_b value_x =
    shift_arithmetic_right_imm_64 i reg_a reg_b value_x
exec_reg_2_imm Opcode.negate_and_add_imm_64 i reg_a reg_b value_x =
    negate_and_add_imm_64 i reg_a reg_b value_x
exec_reg_2_imm Opcode.shift_logical_left_imm_alt_64 i reg_a reg_b value_x =
    shift_logical_left_imm_alt_64 i reg_a reg_b value_x
exec_reg_2_imm Opcode.shift_logical_right_imm_alt_64 i reg_a reg_b value_x =
    shift_logical_right_imm_alt_64 i reg_a reg_b value_x
exec_reg_2_imm Opcode.shift_arithmetic_right_imm_alt_64 i reg_a reg_b value_x =
    shift_arithmetic_right_imm_alt_64 i reg_a reg_b value_x
exec_reg_2_imm Opcode.rot_r_64_imm i reg_a reg_b value_x = rotate_right_64_imm i reg_a reg_b value_x
exec_reg_2_imm Opcode.rot_r_64_imm_alt i reg_a reg_b value_x =
    rotate_right_64_imm_alt i reg_a reg_b value_x
exec_reg_2_imm Opcode.rot_r_32_imm i reg_a reg_b value_x = rotate_right_32_imm i reg_a reg_b value_x
exec_reg_2_imm Opcode.rot_r_32_imm_alt i reg_a reg_b value_x =
    rotate_right_32_imm_alt i reg_a reg_b value_x
exec_reg_2_imm _ i reg_a reg_b value_x = stopped panic i
