-- ===== src/Pvm/Step/Exec.antt =====
-- internal/polkavm/interpreter/step.go: the inner switches of the forms with immediates and offsets.
use strawberry.Base.{ℕ}
use strawberry.Pvm.Errors.{panic}
use strawberry.Pvm.Opcode.{Opcode}
use strawberry.Pvm.Instance.{Instance, Outcome, stopped}
use strawberry.Pvm.Mutations.Immediates.{
  store_imm_u8, store_imm_u16, store_imm_u32, store_imm_u64, load_imm, store_imm_indirect_u8,
  store_imm_indirect_u16, store_imm_indirect_u32, store_imm_indirect_u64,
}
use strawberry.Pvm.Mutations.Access.{
  load_u8, load_i8, load_u16, load_i16, load_u32, load_i32, load_u64,
}
use strawberry.Pvm.Mutations.Stores.{store_u8, store_u16, store_u32, store_u64}
use strawberry.Pvm.Mutations.Jumps.{
  jump, jump_indirect, load_imm_and_jump, branch_eq_imm, branch_not_eq_imm,
  branch_less_unsigned_imm, branch_less_or_equal_unsigned_imm, branch_greater_or_equal_unsigned_imm,
  branch_greater_unsigned_imm, branch_less_signed_imm, branch_less_or_equal_signed_imm,
  branch_greater_or_equal_signed_imm, branch_greater_signed_imm, branch_eq, branch_not_eq,
  branch_less_unsigned, branch_less_signed, branch_greater_or_equal_unsigned,
  branch_greater_or_equal_signed, load_imm_and_jump_indirect,
}

-- The instructions of the form InstrImm2.
unfoldable pub exec_imm_2 : Opcode → Instance → ℕ → ℕ → Outcome
unfolding store_imm_u8 store_imm_u16 store_imm_u32 store_imm_u64
exec_imm_2 Opcode.store_imm_u8 i value_x value_y = store_imm_u8 i value_x value_y
exec_imm_2 Opcode.store_imm_u16 i value_x value_y = store_imm_u16 i value_x value_y
exec_imm_2 Opcode.store_imm_u32 i value_x value_y = store_imm_u32 i value_x value_y
exec_imm_2 Opcode.store_imm_u64 i value_x value_y = store_imm_u64 i value_x value_y
exec_imm_2 _ i value_x value_y = stopped panic i

-- The instructions of the form InstrOffset.
unfoldable pub exec_offset : Opcode → Instance → ℕ → Outcome
unfolding jump
exec_offset Opcode.jump i value_x = jump i value_x
exec_offset _ i value_x = stopped panic i

-- The instructions of the form InstrRegImm.
unfoldable pub exec_reg_imm : Opcode → Instance → ℕ → ℕ → Outcome
unfolding jump_indirect load_imm load_u8 load_i8 load_u16 load_i16 load_u32 load_i32 load_u64
    store_u8 store_u16 store_u32 store_u64
exec_reg_imm Opcode.jump_indirect i reg_a value_x = jump_indirect i reg_a value_x
exec_reg_imm Opcode.load_imm i reg_a value_x = load_imm i reg_a value_x
exec_reg_imm Opcode.load_u8 i reg_a value_x = load_u8 i reg_a value_x
exec_reg_imm Opcode.load_i8 i reg_a value_x = load_i8 i reg_a value_x
exec_reg_imm Opcode.load_u16 i reg_a value_x = load_u16 i reg_a value_x
exec_reg_imm Opcode.load_i16 i reg_a value_x = load_i16 i reg_a value_x
exec_reg_imm Opcode.load_u32 i reg_a value_x = load_u32 i reg_a value_x
exec_reg_imm Opcode.load_i32 i reg_a value_x = load_i32 i reg_a value_x
exec_reg_imm Opcode.load_u64 i reg_a value_x = load_u64 i reg_a value_x
exec_reg_imm Opcode.store_u8 i reg_a value_x = store_u8 i reg_a value_x
exec_reg_imm Opcode.store_u16 i reg_a value_x = store_u16 i reg_a value_x
exec_reg_imm Opcode.store_u32 i reg_a value_x = store_u32 i reg_a value_x
exec_reg_imm Opcode.store_u64 i reg_a value_x = store_u64 i reg_a value_x
exec_reg_imm _ i reg_a value_x = stopped panic i

-- The instructions of the form InstrRegImm2.
unfoldable pub exec_reg_imm_2 : Opcode → Instance → ℕ → ℕ → ℕ → Outcome
unfolding store_imm_indirect_u8 store_imm_indirect_u16 store_imm_indirect_u32 store_imm_indirect_u64
exec_reg_imm_2 Opcode.store_imm_indirect_u8 i reg_a value_x value_y =
    store_imm_indirect_u8 i reg_a value_x value_y
exec_reg_imm_2 Opcode.store_imm_indirect_u16 i reg_a value_x value_y =
    store_imm_indirect_u16 i reg_a value_x value_y
exec_reg_imm_2 Opcode.store_imm_indirect_u32 i reg_a value_x value_y =
    store_imm_indirect_u32 i reg_a value_x value_y
exec_reg_imm_2 Opcode.store_imm_indirect_u64 i reg_a value_x value_y =
    store_imm_indirect_u64 i reg_a value_x value_y
exec_reg_imm_2 _ i reg_a value_x value_y = stopped panic i

-- The instructions of the form InstrRegImmOffset.
unfoldable pub exec_reg_imm_offset : Opcode → Instance → ℕ → ℕ → ℕ → Outcome
unfolding load_imm_and_jump branch_eq_imm branch_not_eq_imm branch_less_unsigned_imm
    branch_less_or_equal_unsigned_imm branch_greater_or_equal_unsigned_imm
    branch_greater_unsigned_imm branch_less_signed_imm branch_less_or_equal_signed_imm
    branch_greater_or_equal_signed_imm branch_greater_signed_imm
exec_reg_imm_offset Opcode.load_imm_and_jump i reg_a value_x value_y =
    load_imm_and_jump i reg_a value_x value_y
exec_reg_imm_offset Opcode.branch_eq_imm i reg_a value_x value_y =
    branch_eq_imm i reg_a value_x value_y
exec_reg_imm_offset Opcode.branch_not_eq_imm i reg_a value_x value_y =
    branch_not_eq_imm i reg_a value_x value_y
exec_reg_imm_offset Opcode.branch_less_unsigned_imm i reg_a value_x value_y =
    branch_less_unsigned_imm i reg_a value_x value_y
exec_reg_imm_offset Opcode.branch_less_or_equal_unsigned_imm i reg_a value_x value_y =
    branch_less_or_equal_unsigned_imm i reg_a value_x value_y
exec_reg_imm_offset Opcode.branch_greater_or_equal_unsigned_imm i reg_a value_x value_y =
    branch_greater_or_equal_unsigned_imm i reg_a value_x value_y
exec_reg_imm_offset Opcode.branch_greater_unsigned_imm i reg_a value_x value_y =
    branch_greater_unsigned_imm i reg_a value_x value_y
exec_reg_imm_offset Opcode.branch_less_signed_imm i reg_a value_x value_y =
    branch_less_signed_imm i reg_a value_x value_y
exec_reg_imm_offset Opcode.branch_less_or_equal_signed_imm i reg_a value_x value_y =
    branch_less_or_equal_signed_imm i reg_a value_x value_y
exec_reg_imm_offset Opcode.branch_greater_or_equal_signed_imm i reg_a value_x value_y =
    branch_greater_or_equal_signed_imm i reg_a value_x value_y
exec_reg_imm_offset Opcode.branch_greater_signed_imm i reg_a value_x value_y =
    branch_greater_signed_imm i reg_a value_x value_y
exec_reg_imm_offset _ i reg_a value_x value_y = stopped panic i

-- The instructions of the form InstrReg2Offset.
unfoldable pub exec_reg_2_offset : Opcode → Instance → ℕ → ℕ → ℕ → Outcome
unfolding branch_eq branch_not_eq branch_less_unsigned branch_less_signed
    branch_greater_or_equal_unsigned branch_greater_or_equal_signed
exec_reg_2_offset Opcode.branch_eq i reg_a reg_b value_x = branch_eq i reg_a reg_b value_x
exec_reg_2_offset Opcode.branch_not_eq i reg_a reg_b value_x = branch_not_eq i reg_a reg_b value_x
exec_reg_2_offset Opcode.branch_less_unsigned i reg_a reg_b value_x =
    branch_less_unsigned i reg_a reg_b value_x
exec_reg_2_offset Opcode.branch_less_signed i reg_a reg_b value_x =
    branch_less_signed i reg_a reg_b value_x
exec_reg_2_offset Opcode.branch_greater_or_equal_unsigned i reg_a reg_b value_x =
    branch_greater_or_equal_unsigned i reg_a reg_b value_x
exec_reg_2_offset Opcode.branch_greater_or_equal_signed i reg_a reg_b value_x =
    branch_greater_or_equal_signed i reg_a reg_b value_x
exec_reg_2_offset _ i reg_a reg_b value_x = stopped panic i

-- The instructions of the form InstrReg2Imm2.
unfoldable pub exec_reg_2_imm_2 : Opcode → Instance → ℕ → ℕ → ℕ → ℕ → Outcome
unfolding load_imm_and_jump_indirect
exec_reg_2_imm_2 Opcode.load_imm_and_jump_indirect i reg_a reg_b value_x value_y =
    load_imm_and_jump_indirect i reg_a reg_b value_x value_y
exec_reg_2_imm_2 _ i reg_a reg_b value_x value_y = stopped panic i
