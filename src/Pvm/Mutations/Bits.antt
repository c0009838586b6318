-- ===== src/Pvm/Mutations/Bits.antt =====
-- internal/polkavm/interpreter/mutations.go. The instructions of two registers.
use strawberry.Base.{
  ℕ, u8, u16, u32, extend, ones_count, leading_zeros, trailing_zeros, reverse_bytes_n,
}
use strawberry.Pvm.Instance.{Instance, Outcome, reg, set_and_skip}

unfoldable pub move_reg : Instance → ℕ → ℕ → Outcome
move_reg i dst s = set_and_skip i dst (reg i s)

unfoldable pub count_set_bits_64 : Instance → ℕ → ℕ → Outcome
count_set_bits_64 i dst s = set_and_skip i dst (ones_count 64 (reg i s))

unfoldable pub count_set_bits_32 : Instance → ℕ → ℕ → Outcome
count_set_bits_32 i dst s = set_and_skip i dst (ones_count 32 (u32 (reg i s)))

unfoldable pub leading_zero_bits_64 : Instance → ℕ → ℕ → Outcome
leading_zero_bits_64 i dst s = set_and_skip i dst (leading_zeros 64 (reg i s))

unfoldable pub leading_zero_bits_32 : Instance → ℕ → ℕ → Outcome
leading_zero_bits_32 i dst s = set_and_skip i dst (leading_zeros 32 (u32 (reg i s)))

unfoldable pub trailing_zero_bits_64 : Instance → ℕ → ℕ → Outcome
trailing_zero_bits_64 i dst s = set_and_skip i dst (trailing_zeros 64 (reg i s))

unfoldable pub trailing_zero_bits_32 : Instance → ℕ → ℕ → Outcome
trailing_zero_bits_32 i dst s = set_and_skip i dst (trailing_zeros 32 (u32 (reg i s)))

unfoldable pub sign_extend_8 : Instance → ℕ → ℕ → Outcome
sign_extend_8 i dst s = set_and_skip i dst (extend 8 (u8 (reg i s)))

unfoldable pub sign_extend_16 : Instance → ℕ → ℕ → Outcome
sign_extend_16 i dst s = set_and_skip i dst (extend 16 (u16 (reg i s)))

unfoldable pub zero_extend_16 : Instance → ℕ → ℕ → Outcome
zero_extend_16 i dst s = set_and_skip i dst (u16 (reg i s))

unfoldable pub reverse_bytes : Instance → ℕ → ℕ → Outcome
reverse_bytes i dst s = set_and_skip i dst (reverse_bytes_n 8 (reg i s))
