-- ===== src/Pvm/Mutations/Access.antt =====
-- internal/polkavm/interpreter/mutations.go. The loads from an immediate address and from a register with an offset.
use strawberry.Base.{ℕ, get_or, add_w, extend}
use strawberry.Pvm.Memory.{read}
use strawberry.Pvm.Instance.{Instance, Outcome, after, reg, load, set_and_skip}
use strawberry.Pvm.Mutations.Values.{sext}

unfoldable pub load_u8 : Instance → ℕ → ℕ → Outcome
load_u8 i dst address =
    after (read i.memory address 1) i (λ slice. set_and_skip i dst (get_or slice 0 0))

unfoldable pub load_i8 : Instance → ℕ → ℕ → Outcome
load_i8 i dst address =
    after (read i.memory address 1) i (λ slice. set_and_skip i dst (extend 8 (get_or slice 0 0)))

unfoldable pub load_u16 : Instance → ℕ → ℕ → Outcome
load_u16 i dst address = load i address 2 (λ v. set_and_skip i dst v)

unfoldable pub load_i16 : Instance → ℕ → ℕ → Outcome
load_i16 i dst address = load i address 2 (λ v. set_and_skip i dst (extend 16 v))

unfoldable pub load_u32 : Instance → ℕ → ℕ → Outcome
load_u32 i dst address = load i address 4 (λ v. set_and_skip i dst v)

unfoldable pub load_i32 : Instance → ℕ → ℕ → Outcome
load_i32 i dst address = load i address 4 (λ v. set_and_skip i dst (sext v 4))

unfoldable pub load_u64 : Instance → ℕ → ℕ → Outcome
load_u64 i dst address = load i address 8 (λ v. set_and_skip i dst v)

unfoldable pub load_indirect_u8 : Instance → ℕ → ℕ → ℕ → Outcome
load_indirect_u8 i dst base offset =
    after (read i.memory (add_w 64 (reg i base) offset) 1) i
      (λ slice. set_and_skip i dst (get_or slice 0 0))

unfoldable pub load_indirect_i8 : Instance → ℕ → ℕ → ℕ → Outcome
load_indirect_i8 i dst base offset =
    after (read i.memory (add_w 64 (reg i base) offset) 1) i
      (λ slice. set_and_skip i dst (extend 8 (get_or slice 0 0)))

unfoldable pub load_indirect_u16 : Instance → ℕ → ℕ → ℕ → Outcome
load_indirect_u16 i dst base offset =
    load i (add_w 64 (reg i base) offset) 2 (λ v. set_and_skip i dst v)

unfoldable pub load_indirect_i16 : Instance → ℕ → ℕ → ℕ → Outcome
load_indirect_i16 i dst base offset =
    load i (add_w 64 (reg i base) offset) 2 (λ v. set_and_skip i dst (extend 16 v))

unfoldable pub load_indirect_u32 : Instance → ℕ → ℕ → ℕ → Outcome
load_indirect_u32 i dst base offset =
    load i (add_w 64 (reg i base) offset) 4 (λ v. set_and_skip i dst v)

unfoldable pub load_indirect_i32 : Instance → ℕ → ℕ → ℕ → Outcome
load_indirect_i32 i dst base offset =
    load i (add_w 64 (reg i base) offset) 4 (λ v. set_and_skip i dst (extend 32 v))

unfoldable pub load_indirect_u64 : Instance → ℕ → ℕ → ℕ → Outcome
load_indirect_u64 i dst base offset =
    load i (add_w 64 (reg i base) offset) 8 (λ v. set_and_skip i dst v)
