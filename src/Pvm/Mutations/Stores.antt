-- ===== src/Pvm/Mutations/Stores.antt =====
-- internal/polkavm/interpreter/mutations.go. The stores of a register, and the growth of the heap.
use strawberry.Base.{ℕ, u8, u16, u32, add_w}
use strawberry.Pvm.Memory
use strawberry.Pvm.Instance.{Instance, Outcome, after, reg, store, set_and_skip}

unfoldable pub store_u8 : Instance → ℕ → ℕ → Outcome
store_u8 i src address = store i address 1 (u8 (reg i src))

unfoldable pub store_u16 : Instance → ℕ → ℕ → Outcome
store_u16 i src address = store i address 2 (u16 (reg i src))

unfoldable pub store_u32 : Instance → ℕ → ℕ → Outcome
store_u32 i src address = store i address 4 (u32 (reg i src))

unfoldable pub store_u64 : Instance → ℕ → ℕ → Outcome
store_u64 i src address = store i address 8 (reg i src)

unfoldable pub store_indirect_u8 : Instance → ℕ → ℕ → ℕ → Outcome
store_indirect_u8 i src base offset = store i (add_w 64 (reg i base) offset) 1 (u8 (reg i src))

unfoldable pub store_indirect_u16 : Instance → ℕ → ℕ → ℕ → Outcome
store_indirect_u16 i src base offset = store i (add_w 64 (reg i base) offset) 2 (u16 (reg i src))

unfoldable pub store_indirect_u32 : Instance → ℕ → ℕ → ℕ → Outcome
store_indirect_u32 i src base offset = store i (add_w 64 (reg i base) offset) 4 (u32 (reg i src))

unfoldable pub store_indirect_u64 : Instance → ℕ → ℕ → ℕ → Outcome
store_indirect_u64 i src base offset = store i (add_w 64 (reg i base) offset) 8 (reg i src)

unfoldable pub sbrk : Instance → ℕ → ℕ → Outcome
sbrk i dst size_reg =
    after (Memory.sbrk i.memory (reg i size_reg)) i
      (λ (heap_top, m). set_and_skip (record i { memory = m }) dst heap_top)
