-- ===== src/Pvm/Mutations/Immediates.antt =====
-- internal/polkavm/interpreter/mutations.go. Trap, fallthrough, and the instructions that load or store an immediate.
use strawberry.Base.{ℕ, u8, u16, u32, add_w}
use strawberry.Pvm.Errors.{panic}
use strawberry.Pvm.Instance.{Instance, Outcome, stopped, reg, store, skip, set_and_skip}

unfoldable pub trap : Instance → Outcome
trap i = stopped panic i

unfoldable pub fallthrough : Instance → Outcome
fallthrough i = skip i

unfoldable pub load_imm_64 : Instance → ℕ → ℕ → Outcome
load_imm_64 i dst imm = set_and_skip i dst imm

unfoldable pub load_imm : Instance → ℕ → ℕ → Outcome
load_imm i dst imm = set_and_skip i dst imm

unfoldable pub store_imm_u8 : Instance → ℕ → ℕ → Outcome
store_imm_u8 i address value = store i address 1 (u8 value)

unfoldable pub store_imm_u16 : Instance → ℕ → ℕ → Outcome
store_imm_u16 i address value = store i address 2 (u16 value)

unfoldable pub store_imm_u32 : Instance → ℕ → ℕ → Outcome
store_imm_u32 i address value = store i address 4 (u32 value)

unfoldable pub store_imm_u64 : Instance → ℕ → ℕ → Outcome
store_imm_u64 i address value = store i address 8 value

unfoldable pub store_imm_indirect_u8 : Instance → ℕ → ℕ → ℕ → Outcome
store_imm_indirect_u8 i base offset value = store i (add_w 64 (reg i base) offset) 1 (u8 value)

unfoldable pub store_imm_indirect_u16 : Instance → ℕ → ℕ → ℕ → Outcome
store_imm_indirect_u16 i base offset value = store i (add_w 64 (reg i base) offset) 2 (u16 value)

unfoldable pub store_imm_indirect_u32 : Instance → ℕ → ℕ → ℕ → Outcome
store_imm_indirect_u32 i base offset value = store i (add_w 64 (reg i base) offset) 4 (u32 value)

unfoldable pub store_imm_indirect_u64 : Instance → ℕ → ℕ → ℕ → Outcome
store_imm_indirect_u64 i base offset value = store i (add_w 64 (reg i base) offset) 8 value
