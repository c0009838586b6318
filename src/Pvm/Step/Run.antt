-- ===== src/Pvm/Step/Run.antt =====
-- internal/polkavm/interpreter/step.go, `step`, and invocations.go, `Invoke`.
use strawberry.Base.{ℕ, zero, suc, Option, none, some, get_elem?}
use strawberry.Pvm.Errors.{panic, host_call}
use strawberry.Pvm.Opcode.{Opcode, opcode_of_byte}
use strawberry.Pvm.Tables.{
  none_args, imm, reg_imm_ext, imm_2, offset, reg_imm, reg_imm_2, reg_imm_offset, reg_reg,
  reg_2_imm, reg_2_offset, reg_2_imm_2, reg_3, InstructionType, instruction_for_type, gas_costs,
}
use strawberry.Pvm.Instance.{
  Instance, Outcome, running, stopped, crashed, after, and_then, skip_length, deduct_gas,
}
use strawberry.Pvm.Mutations.Immediates.{trap, fallthrough, load_imm_64}
use strawberry.Pvm.Step.Decode.{
  decode_imm, decode_reg_imm_ext, decode_imm_2, decode_offset, decode_reg_imm, decode_reg_imm_2,
  decode_reg_imm_offset, decode_reg_reg, decode_reg_2_imm, decode_reg_2_offset, decode_reg_2_imm_2,
  decode_reg_3,
}
use strawberry.Pvm.Step.Exec.{
  exec_imm_2, exec_offset, exec_reg_imm, exec_reg_imm_2, exec_reg_imm_offset, exec_reg_2_offset,
  exec_reg_2_imm_2,
}
use strawberry.Pvm.Step.ExecRegisters.{exec_reg_reg, exec_reg_3}
use strawberry.Pvm.Step.ExecImmediate.{exec_reg_2_imm}

unfoldable pub exec_none : Opcode → Instance → Outcome
unfolding trap fallthrough
exec_none Opcode.trap i = trap i
exec_none Opcode.fallthrough i = fallthrough i
exec_none _ i = stopped panic i

unfoldable pub exec_imm : Opcode → Instance → ℕ → Outcome
exec_imm Opcode.ecalli i value_x = stopped (host_call value_x) i
exec_imm _ i value_x = stopped panic i

unfoldable pub exec_reg_imm_ext : Opcode → Instance → ℕ → ℕ → Outcome
unfolding load_imm_64
exec_reg_imm_ext Opcode.load_imm_64 i reg_a value_x = load_imm_64 i reg_a value_x
exec_reg_imm_ext _ i reg_a value_x = stopped panic i

-- The outer switch, on the form of the instruction.
unfoldable pub execute : InstructionType → Opcode → ℕ → Instance → Outcome
unfolding exec_none exec_imm exec_reg_imm_ext
execute none_args op skip i = exec_none op i
execute imm op skip i = after (decode_imm i skip) i (λ x. exec_imm op i x)
execute reg_imm_ext op skip i = after (decode_reg_imm_ext i) i (λ (a, x). exec_reg_imm_ext op i a x)
execute imm_2 op skip i = after (decode_imm_2 i skip) i (λ (x, y). exec_imm_2 op i x y)
execute offset op skip i = after (decode_offset i skip) i (λ x. exec_offset op i x)
execute reg_imm op skip i = after (decode_reg_imm i skip) i (λ (a, x). exec_reg_imm op i a x)
execute reg_imm_2 op skip i =
    after (decode_reg_imm_2 i skip) i (λ (a, x, y). exec_reg_imm_2 op i a x y)
execute reg_imm_offset op skip i =
    after (decode_reg_imm_offset i skip) i (λ (a, x, y). exec_reg_imm_offset op i a x y)
execute reg_reg op skip i = after (decode_reg_reg i) i (λ (d, a). exec_reg_reg op i d a)
execute reg_2_imm op skip i =
    after (decode_reg_2_imm i skip) i (λ (a, b, x). exec_reg_2_imm op i a b x)
execute reg_2_offset op skip i =
    after (decode_reg_2_offset i skip) i (λ (a, b, x). exec_reg_2_offset op i a b x)
execute reg_2_imm_2 op skip i =
    after (decode_reg_2_imm_2 i skip) i (λ (a, b, x, y). exec_reg_2_imm_2 op i a b x y)
execute reg_3 op skip i = after (decode_reg_3 i) i (λ (d, a, b). exec_reg_3 op i d a b)

-- The part of `step` behind the reading of the operation code.
unfoldable pub step_opcode : Opcode → ℕ → Instance → Outcome
unfolding and_then gas_costs instruction_for_type execute deduct_gas
step_opcode op skip i =
    and_then (deduct_gas i (gas_costs op)) (λ j. execute (instruction_for_type op) op skip j)

-- `step` behind the reading of the length and of the operation code; each read may be out of range.
unfoldable pub step_fetched : Option ℕ → Option ℕ → Instance → Outcome
unfolding opcode_of_byte step_opcode
step_fetched none b i = crashed
step_fetched (some skip) none i = crashed
step_fetched (some skip) (some b) i = step_opcode (opcode_of_byte b) skip i

unfoldable pub step : Instance → Outcome
unfolding skip_length step_fetched
step i =
    step_fetched (skip_length i.instruction_counter i.bitmask)
      (get_elem? i.code i.instruction_counter) i

-- `Invoke` on fuel: `none` means that the fuel ran out before the loop ended.
unfoldable pub invoke : ℕ → Instance → Option Outcome
unfolding step
invoke zero i = none
invoke (suc fuel) i = elim (step i) [
  | running j ↦ invoke fuel j
  | stopped e j ↦ some (stopped e j)
  | crashed ↦ some crashed
]
