-- ===== src/Pvm/Mutations/Jumps.antt =====
-- internal/polkavm/interpreter/mutations.go. Jumps and branches.
use strawberry.Base.{ℕ, true, not, ltb, leb, ◌==◌, add_w, ltb_signed}
use strawberry.Pvm.Instance.{Instance, Outcome, reg, set_reg, branch, djump, and_then}
use strawberry.Pvm.Mutations.Immediates.{load_imm}

unfoldable pub jump : Instance → ℕ → Outcome
jump i target = branch i true target

unfoldable pub jump_indirect : Instance → ℕ → ℕ → Outcome
jump_indirect i base offset = djump i (add_w 64 (reg i base) offset)

unfoldable pub load_imm_and_jump : Instance → ℕ → ℕ → ℕ → Outcome
load_imm_and_jump i ra value target = and_then (load_imm i ra value) (λ j. jump j target)

unfoldable pub branch_eq_imm : Instance → ℕ → ℕ → ℕ → Outcome
branch_eq_imm i reg_a value_x target = branch i (reg i reg_a == value_x) target

unfoldable pub branch_not_eq_imm : Instance → ℕ → ℕ → ℕ → Outcome
branch_not_eq_imm i reg_a value_x target = branch i (not (reg i reg_a == value_x)) target

unfoldable pub branch_less_unsigned_imm : Instance → ℕ → ℕ → ℕ → Outcome
branch_less_unsigned_imm i reg_a value_x target = branch i (ltb (reg i reg_a) (value_x)) target

unfoldable pub branch_less_or_equal_unsigned_imm : Instance → ℕ → ℕ → ℕ → Outcome
branch_less_or_equal_unsigned_imm i reg_a value_x target =
    branch i (leb (reg i reg_a) (value_x)) target

unfoldable pub branch_greater_or_equal_unsigned_imm : Instance → ℕ → ℕ → ℕ → Outcome
branch_greater_or_equal_unsigned_imm i reg_a value_x target =
    branch i (leb (value_x) (reg i reg_a)) target

unfoldable pub branch_greater_unsigned_imm : Instance → ℕ → ℕ → ℕ → Outcome
branch_greater_unsigned_imm i reg_a value_x target = branch i (ltb (value_x) (reg i reg_a)) target

unfoldable pub branch_less_signed_imm : Instance → ℕ → ℕ → ℕ → Outcome
branch_less_signed_imm i reg_a value_x target =
    branch i (ltb_signed 64 (reg i reg_a) (value_x)) target

unfoldable pub branch_less_or_equal_signed_imm : Instance → ℕ → ℕ → ℕ → Outcome
branch_less_or_equal_signed_imm i reg_a value_x target =
    branch i (not (ltb_signed 64 (value_x) (reg i reg_a))) target

unfoldable pub branch_greater_or_equal_signed_imm : Instance → ℕ → ℕ → ℕ → Outcome
branch_greater_or_equal_signed_imm i reg_a value_x target =
    branch i (not (ltb_signed 64 (reg i reg_a) (value_x))) target

unfoldable pub branch_greater_signed_imm : Instance → ℕ → ℕ → ℕ → Outcome
branch_greater_signed_imm i reg_a value_x target =
    branch i (ltb_signed 64 (value_x) (reg i reg_a)) target

unfoldable pub branch_eq : Instance → ℕ → ℕ → ℕ → Outcome
branch_eq i reg_a reg_b target = branch i (reg i reg_a == reg i reg_b) target

unfoldable pub branch_not_eq : Instance → ℕ → ℕ → ℕ → Outcome
branch_not_eq i reg_a reg_b target = branch i (not (reg i reg_a == reg i reg_b)) target

unfoldable pub branch_less_unsigned : Instance → ℕ → ℕ → ℕ → Outcome
branch_less_unsigned i reg_a reg_b target = branch i (ltb (reg i reg_a) (reg i reg_b)) target

unfoldable pub branch_greater_or_equal_unsigned : Instance → ℕ → ℕ → ℕ → Outcome
branch_greater_or_equal_unsigned i reg_a reg_b target =
    branch i (leb (reg i reg_b) (reg i reg_a)) target

unfoldable pub branch_less_signed : Instance → ℕ → ℕ → ℕ → Outcome
branch_less_signed i reg_a reg_b target =
    branch i (ltb_signed 64 (reg i reg_a) (reg i reg_b)) target

unfoldable pub branch_greater_or_equal_signed : Instance → ℕ → ℕ → ℕ → Outcome
branch_greater_or_equal_signed i reg_a reg_b target =
    branch i (not (ltb_signed 64 (reg i reg_a) (reg i reg_b))) target

unfoldable pub load_imm_and_jump_indirect : Instance → ℕ → ℕ → ℕ → ℕ → Outcome
load_imm_and_jump_indirect i ra base value offset =
    let target = add_w 64 (reg i base) offset in djump (set_reg i ra value) target
