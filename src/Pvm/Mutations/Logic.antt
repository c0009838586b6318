-- ===== src/Pvm/Mutations/Logic.antt =====
-- internal/polkavm/interpreter/mutations.go. Bit operations, comparisons and choices of three registers.
use strawberry.Base.{ℕ, not, ltb, ◌==◌, if◌then◌else◌, u32, ltb_signed, bit_and, bit_or, bit_xor}
use strawberry.Pvm.Instance.{Instance, Outcome, reg, set_reg, skip, set_and_skip}
use strawberry.Pvm.Mutations.Values.{bool_to_uint64, complement}

unfoldable pub and : Instance → ℕ → ℕ → ℕ → Outcome
and i dst reg_a reg_b = set_and_skip i dst (bit_and (reg i reg_a) (reg i reg_b))

unfoldable pub xor : Instance → ℕ → ℕ → ℕ → Outcome
xor i dst reg_a reg_b = set_and_skip i dst (bit_xor (reg i reg_a) (reg i reg_b))

unfoldable pub or : Instance → ℕ → ℕ → ℕ → Outcome
or i dst reg_a reg_b = set_and_skip i dst (bit_or (reg i reg_a) (reg i reg_b))

unfoldable pub set_less_than_unsigned : Instance → ℕ → ℕ → ℕ → Outcome
set_less_than_unsigned i dst reg_a reg_b =
    set_and_skip i dst (bool_to_uint64 (ltb (reg i reg_a) (reg i reg_b)))

unfoldable pub set_less_than_signed : Instance → ℕ → ℕ → ℕ → Outcome
set_less_than_signed i dst reg_a reg_b =
    set_and_skip i dst (bool_to_uint64 (ltb_signed 32 (u32 (reg i reg_a)) (u32 (reg i reg_b))))

unfoldable pub cmov_if_zero : Instance → ℕ → ℕ → ℕ → Outcome
cmov_if_zero i dst s c = skip (if reg i c == 0 then set_reg i dst (reg i s) else i)

unfoldable pub cmov_if_not_zero : Instance → ℕ → ℕ → ℕ → Outcome
cmov_if_not_zero i dst s c = skip (if not (reg i c == 0) then set_reg i dst (reg i s) else i)

unfoldable pub and_inverted : Instance → ℕ → ℕ → ℕ → Outcome
and_inverted i dst reg_a reg_b =
    set_and_skip i dst (bit_and (reg i reg_a) (complement (reg i reg_b)))

unfoldable pub or_inverted : Instance → ℕ → ℕ → ℕ → Outcome
or_inverted i dst reg_a reg_b = set_and_skip i dst (bit_or (reg i reg_a) (complement (reg i reg_b)))

unfoldable pub xnor : Instance → ℕ → ℕ → ℕ → Outcome
xnor i dst reg_a reg_b = set_and_skip i dst (complement (bit_xor (reg i reg_a) (reg i reg_b)))

unfoldable pub max : Instance → ℕ → ℕ → ℕ → Outcome
max i dst reg_a reg_b =
    let a = reg i reg_a in
    let b = reg i reg_b in set_and_skip i dst (if ltb_signed 64 a b then b else a)

unfoldable pub max_unsigned : Instance → ℕ → ℕ → ℕ → Outcome
max_unsigned i dst reg_a reg_b =
    let a = reg i reg_a in let b = reg i reg_b in set_and_skip i dst (if ltb a b then b else a)

unfoldable pub min : Instance → ℕ → ℕ → ℕ → Outcome
min i dst reg_a reg_b =
    let a = reg i reg_a in
    let b = reg i reg_b in set_and_skip i dst (if ltb_signed 64 b a then b else a)

unfoldable pub min_unsigned : Instance → ℕ → ℕ → ℕ → Outcome
min_unsigned i dst reg_a reg_b =
    let a = reg i reg_a in let b = reg i reg_b in set_and_skip i dst (if ltb b a then b else a)
