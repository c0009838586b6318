-- ===== src/Pvm/Tables.antt =====
-- internal/polkavm/instructions.go: the form, the cost and the block ends of the operation codes.
use strawberry.Base.{ℕ, Bool, true, false}
use strawberry.Pvm.Opcode.{Opcode}

-- `InstrNone`, …, `InstrReg3`.
pub data InstructionType : Type 0 where
  none_args imm reg_imm_ext imm_2 offset reg_imm reg_imm_2 reg_imm_offset reg_reg reg_2_imm :
      InstructionType
  reg_2_offset reg_2_imm_2 reg_3 : InstructionType

-- The map that `init` fills. A missing key gives the zero value, InstrNone.
unfoldable pub instruction_for_type : Opcode → InstructionType
instruction_for_type Opcode.trap = none_args
instruction_for_type Opcode.fallthrough = none_args
instruction_for_type Opcode.ecalli = imm
instruction_for_type Opcode.load_imm_64 = reg_imm_ext
instruction_for_type Opcode.store_imm_u8 = imm_2
instruction_for_type Opcode.store_imm_u16 = imm_2
instruction_for_type Opcode.store_imm_u32 = imm_2
instruction_for_type Opcode.store_imm_u64 = imm_2
instruction_for_type Opcode.jump = offset
instruction_for_type Opcode.jump_indirect = reg_imm
instruction_for_type Opcode.load_imm = reg_imm
instruction_for_type Opcode.load_u8 = reg_imm
instruction_for_type Opcode.load_i8 = reg_imm
instruction_for_type Opcode.load_u16 = reg_imm
instruction_for_type Opcode.load_i16 = reg_imm
instruction_for_type Opcode.load_u32 = reg_imm
instruction_for_type Opcode.load_i32 = reg_imm
instruction_for_type Opcode.load_u64 = reg_imm
instruction_for_type Opcode.store_u8 = reg_imm
instruction_for_type Opcode.store_u16 = reg_imm
instruction_for_type Opcode.store_u32 = reg_imm
instruction_for_type Opcode.store_u64 = reg_imm
instruction_for_type Opcode.store_imm_indirect_u8 = reg_imm_2
instruction_for_type Opcode.store_imm_indirect_u16 = reg_imm_2
instruction_for_type Opcode.store_imm_indirect_u32 = reg_imm_2
instruction_for_type Opcode.store_imm_indirect_u64 = reg_imm_2
instruction_for_type Opcode.load_imm_and_jump = reg_imm_offset
instruction_for_type Opcode.branch_eq_imm = reg_imm_offset
instruction_for_type Opcode.branch_not_eq_imm = reg_imm_offset
instruction_for_type Opcode.branch_less_unsigned_imm = reg_imm_offset
instruction_for_type Opcode.branch_less_or_equal_unsigned_imm = reg_imm_offset
instruction_for_type Opcode.branch_greater_or_equal_unsigned_imm = reg_imm_offset
instruction_for_type Opcode.branch_greater_unsigned_imm = reg_imm_offset
instruction_for_type Opcode.branch_less_signed_imm = reg_imm_offset
instruction_for_type Opcode.branch_less_or_equal_signed_imm = reg_imm_offset
instruction_for_type Opcode.branch_greater_or_equal_signed_imm = reg_imm_offset
instruction_for_type Opcode.branch_greater_signed_imm = reg_imm_offset
instruction_for_type Opcode.move_reg = reg_reg
instruction_for_type Opcode.sbrk = reg_reg
instruction_for_type Opcode.count_set_bits_64 = reg_reg
instruction_for_type Opcode.count_set_bits_32 = reg_reg
instruction_for_type Opcode.leading_zero_bits_64 = reg_reg
instruction_for_type Opcode.leading_zero_bits_32 = reg_reg
instruction_for_type Opcode.trailing_zero_bits_64 = reg_reg
instruction_for_type Opcode.trailing_zero_bits_32 = reg_reg
instruction_for_type Opcode.sign_extend_8 = reg_reg
instruction_for_type Opcode.sign_extend_16 = reg_reg
instruction_for_type Opcode.zero_extend_16 = reg_reg
instruction_for_type Opcode.reverse_bytes = reg_reg
instruction_for_type Opcode.store_indirect_u8 = reg_2_imm
instruction_for_type Opcode.store_indirect_u16 = reg_2_imm
instruction_for_type Opcode.store_indirect_u32 = reg_2_imm
instruction_for_type Opcode.store_indirect_u64 = reg_2_imm
instruction_for_type Opcode.load_indirect_u8 = reg_2_imm
instruction_for_type Opcode.load_indirect_i8 = reg_2_imm
instruction_for_type Opcode.load_indirect_u16 = reg_2_imm
instruction_for_type Opcode.load_indirect_i16 = reg_2_imm
instruction_for_type Opcode.load_indirect_u32 = reg_2_imm
instruction_for_type Opcode.load_indirect_i32 = reg_2_imm
instruction_for_type Opcode.load_indirect_u64 = reg_2_imm
instruction_for_type Opcode.add_imm_32 = reg_2_imm
instruction_for_type Opcode.and_imm = reg_2_imm
instruction_for_type Opcode.xor_imm = reg_2_imm
instruction_for_type Opcode.or_imm = reg_2_imm
instruction_for_type Opcode.mul_imm_32 = reg_2_imm
instruction_for_type Opcode.set_less_than_unsigned_imm = reg_2_imm
instruction_for_type Opcode.set_less_than_signed_imm = reg_2_imm
instruction_for_type Opcode.shift_logical_left_imm_32 = reg_2_imm
instruction_for_type Opcode.shift_logical_right_imm_32 = reg_2_imm
instruction_for_type Opcode.shift_arithmetic_right_imm_32 = reg_2_imm
instruction_for_type Opcode.negate_and_add_imm_32 = reg_2_imm
instruction_for_type Opcode.set_greater_than_unsigned_imm = reg_2_imm
instruction_for_type Opcode.set_greater_than_signed_imm = reg_2_imm
instruction_for_type Opcode.shift_logical_right_imm_alt_32 = reg_2_imm
instruction_for_type Opcode.shift_arithmetic_right_imm_alt_32 = reg_2_imm
instruction_for_type Opcode.shift_logical_left_imm_alt_32 = reg_2_imm
instruction_for_type Opcode.cmov_if_zero_imm = reg_2_imm
instruction_for_type Opcode.cmov_if_not_zero_imm = reg_2_imm
instruction_for_type Opcode.add_imm_64 = reg_2_imm
instruction_for_type Opcode.mul_imm_64 = reg_2_imm
instruction_for_type Opcode.shift_logical_left_imm_64 = reg_2_imm
instruction_for_type Opcode.shift_logical_right_imm_64 = reg_2_imm
instruction_for_type Opcode.shift_arithmetic_right_imm_64 = reg_2_imm
instruction_for_type Opcode.negate_and_add_imm_64 = reg_2_imm
instruction_for_type Opcode.shift_logical_left_imm_alt_64 = reg_2_imm
instruction_for_type Opcode.shift_logical_right_imm_alt_64 = reg_2_imm
instruction_for_type Opcode.shift_arithmetic_right_imm_alt_64 = reg_2_imm
instruction_for_type Opcode.rot_r_64_imm = reg_2_imm
instruction_for_type Opcode.rot_r_64_imm_alt = reg_2_imm
instruction_for_type Opcode.rot_r_32_imm = reg_2_imm
instruction_for_type Opcode.rot_r_32_imm_alt = reg_2_imm
instruction_for_type Opcode.branch_eq = reg_2_offset
instruction_for_type Opcode.branch_not_eq = reg_2_offset
instruction_for_type Opcode.branch_less_unsigned = reg_2_offset
instruction_for_type Opcode.branch_less_signed = reg_2_offset
instruction_for_type Opcode.branch_greater_or_equal_unsigned = reg_2_offset
instruction_for_type Opcode.branch_greater_or_equal_signed = reg_2_offset
instruction_for_type Opcode.load_imm_and_jump_indirect = reg_2_imm_2
instruction_for_type Opcode.add_32 = reg_3
instruction_for_type Opcode.sub_32 = reg_3
instruction_for_type Opcode.mul_32 = reg_3
instruction_for_type Opcode.div_unsigned_32 = reg_3
instruction_for_type Opcode.div_signed_32 = reg_3
instruction_for_type Opcode.rem_unsigned_32 = reg_3
instruction_for_type Opcode.rem_signed_32 = reg_3
instruction_for_type Opcode.shift_logical_left_32 = reg_3
instruction_for_type Opcode.shift_logical_right_32 = reg_3
instruction_for_type Opcode.shift_arithmetic_right_32 = reg_3
instruction_for_type Opcode.add_64 = reg_3
instruction_for_type Opcode.sub_64 = reg_3
instruction_for_type Opcode.mul_64 = reg_3
instruction_for_type Opcode.div_unsigned_64 = reg_3
instruction_for_type Opcode.div_signed_64 = reg_3
instruction_for_type Opcode.rem_unsigned_64 = reg_3
instruction_for_type Opcode.rem_signed_64 = reg_3
instruction_for_type Opcode.shift_logical_left_64 = reg_3
instruction_for_type Opcode.shift_logical_right_64 = reg_3
instruction_for_type Opcode.shift_arithmetic_right_64 = reg_3
instruction_for_type Opcode.and = reg_3
instruction_for_type Opcode.xor = reg_3
instruction_for_type Opcode.or = reg_3
instruction_for_type Opcode.mul_upper_signed_signed = reg_3
instruction_for_type Opcode.mul_upper_unsigned_unsigned = reg_3
instruction_for_type Opcode.mul_upper_signed_unsigned = reg_3
instruction_for_type Opcode.set_less_than_unsigned = reg_3
instruction_for_type Opcode.set_less_than_signed = reg_3
instruction_for_type Opcode.cmov_if_zero = reg_3
instruction_for_type Opcode.cmov_if_not_zero = reg_3
instruction_for_type Opcode.rot_l_64 = reg_3
instruction_for_type Opcode.rot_l_32 = reg_3
instruction_for_type Opcode.rot_r_64 = reg_3
instruction_for_type Opcode.rot_r_32 = reg_3
instruction_for_type Opcode.and_inv = reg_3
instruction_for_type Opcode.or_inv = reg_3
instruction_for_type Opcode.xnor = reg_3
instruction_for_type Opcode.max = reg_3
instruction_for_type Opcode.max_u = reg_3
instruction_for_type Opcode.min = reg_3
instruction_for_type Opcode.min_u = reg_3
instruction_for_type Opcode.unknown = none_args

-- The map of costs: 1 for every constant, and the zero value for a missing key.
unfoldable pub gas_costs : Opcode → ℕ
gas_costs Opcode.unknown = 0
gas_costs _ = 1

unfoldable pub is_basic_block_termination : Opcode → Bool
is_basic_block_termination Opcode.trap = true
is_basic_block_termination Opcode.fallthrough = true
is_basic_block_termination Opcode.jump = true
is_basic_block_termination Opcode.jump_indirect = true
is_basic_block_termination Opcode.load_imm_and_jump = true
is_basic_block_termination Opcode.load_imm_and_jump_indirect = true
is_basic_block_termination Opcode.branch_eq = true
is_basic_block_termination Opcode.branch_not_eq = true
is_basic_block_termination Opcode.branch_greater_or_equal_unsigned = true
is_basic_block_termination Opcode.branch_greater_or_equal_signed = true
is_basic_block_termination Opcode.branch_less_unsigned = true
is_basic_block_termination Opcode.branch_less_signed = true
is_basic_block_termination Opcode.branch_eq_imm = true
is_basic_block_termination Opcode.branch_not_eq_imm = true
is_basic_block_termination Opcode.branch_less_unsigned_imm = true
is_basic_block_termination Opcode.branch_less_signed_imm = true
is_basic_block_termination Opcode.branch_less_or_equal_unsigned_imm = true
is_basic_block_termination Opcode.branch_less_or_equal_signed_imm = true
is_basic_block_termination Opcode.branch_greater_or_equal_unsigned_imm = true
is_basic_block_termination Opcode.branch_greater_or_equal_signed_imm = true
is_basic_block_termination Opcode.branch_greater_unsigned_imm = true
is_basic_block_termination Opcode.branch_greater_signed_imm = true
is_basic_block_termination _ = false
