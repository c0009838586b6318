-- ===== src/Pvm/Step/ExecLanding.antt =====
-- Where every instruction leaves the instruction counter.
use strawberry.Base.{ℕ}
use strawberry.Pvm.Opcode.{Opcode}
use strawberry.Pvm.Tables.{
  none_args, imm, reg_imm_ext, imm_2, offset, reg_imm, reg_imm_2, reg_imm_offset, reg_reg,
  reg_2_imm, reg_2_offset, reg_2_imm_2, reg_3, InstructionType,
}
use strawberry.Pvm.Instance.{Instance}
use strawberry.Pvm.Mutations.Immediates.{load_imm}
use strawberry.Pvm.Mutations.Jumps.{load_imm_and_jump, jump}
use strawberry.Pvm.Step.Exec.{
  exec_imm_2, exec_offset, exec_reg_imm, exec_reg_imm_2, exec_reg_imm_offset, exec_reg_2_offset,
  exec_reg_2_imm_2,
}
use strawberry.Pvm.Step.ExecRegisters.{exec_reg_reg, exec_reg_3}
use strawberry.Pvm.Step.ExecImmediate.{exec_reg_2_imm}
use strawberry.Pvm.Step.Run.{exec_none, exec_imm, exec_reg_imm_ext, execute}
use strawberry.Pvm.Step.Landing.{Lands, Lands-after, lands}

pub Lands-exec_reg_3 : (op : Opcode) (i : Instance) (d a b : ℕ) → Lands i (exec_reg_3 op i d a b)
unfolding exec_reg_3
Lands-exec_reg_3 Opcode.add_32 i d a b = search lands
Lands-exec_reg_3 _ i d a b = search lands

pub Lands-exec_reg_2_imm :
    (op : Opcode) (i : Instance) (a b x : ℕ) → Lands i (exec_reg_2_imm op i a b x)
unfolding exec_reg_2_imm
Lands-exec_reg_2_imm Opcode.and_imm i a b x = search lands
Lands-exec_reg_2_imm _ i a b x = search lands

pub Lands-exec_imm_2 : (op : Opcode) (i : Instance) (x y : ℕ) → Lands i (exec_imm_2 op i x y)
unfolding exec_imm_2
Lands-exec_imm_2 Opcode.store_imm_u8 i x y = search lands
Lands-exec_imm_2 _ i x y = search lands

pub Lands-exec_offset : (op : Opcode) (i : Instance) (x : ℕ) → Lands i (exec_offset op i x)
unfolding exec_offset
Lands-exec_offset Opcode.jump i x = search lands
Lands-exec_offset _ i x = search lands

pub Lands-exec_reg_imm : (op : Opcode) (i : Instance) (a x : ℕ) → Lands i (exec_reg_imm op i a x)
unfolding exec_reg_imm
Lands-exec_reg_imm Opcode.load_imm i a x = search lands
Lands-exec_reg_imm _ i a x = search lands

pub Lands-exec_reg_imm_2 :
    (op : Opcode) (i : Instance) (a x y : ℕ) → Lands i (exec_reg_imm_2 op i a x y)
unfolding exec_reg_imm_2
Lands-exec_reg_imm_2 Opcode.store_imm_indirect_u8 i a x y = search lands
Lands-exec_reg_imm_2 _ i a x y = search lands

pub Lands-exec_reg_imm_offset :
    (op : Opcode) (i : Instance) (a x y : ℕ) → Lands i (exec_reg_imm_offset op i a x y)
unfolding exec_reg_imm_offset load_imm_and_jump load_imm jump
Lands-exec_reg_imm_offset Opcode.branch_eq_imm i a x y = search lands
Lands-exec_reg_imm_offset _ i a x y = search lands

pub Lands-exec_reg_2_offset :
    (op : Opcode) (i : Instance) (a b x : ℕ) → Lands i (exec_reg_2_offset op i a b x)
unfolding exec_reg_2_offset
Lands-exec_reg_2_offset Opcode.branch_eq i a b x = search lands
Lands-exec_reg_2_offset _ i a b x = search lands

pub Lands-exec_reg_2_imm_2 :
    (op : Opcode) (i : Instance) (a b x y : ℕ) → Lands i (exec_reg_2_imm_2 op i a b x y)
unfolding exec_reg_2_imm_2
Lands-exec_reg_2_imm_2 Opcode.load_imm_and_jump_indirect i a b x y = search lands
Lands-exec_reg_2_imm_2 _ i a b x y = search lands

pub Lands-exec_reg_reg : (op : Opcode) (i : Instance) (d a : ℕ) → Lands i (exec_reg_reg op i d a)
unfolding exec_reg_reg
Lands-exec_reg_reg Opcode.sbrk i d a = search lands
Lands-exec_reg_reg _ i d a = search lands

Lands-exec_none : (op : Opcode) (i : Instance) → Lands i (exec_none op i)
unfolding exec_none
Lands-exec_none Opcode.trap i = search lands
Lands-exec_none _ i = search lands

Lands-exec_imm : (op : Opcode) (i : Instance) (x : ℕ) → Lands i (exec_imm op i x)
unfolding exec_imm
Lands-exec_imm Opcode.ecalli i x = search lands
Lands-exec_imm _ i x = search lands

Lands-exec_reg_imm_ext :
    (op : Opcode) (i : Instance) (a x : ℕ) → Lands i (exec_reg_imm_ext op i a x)
unfolding exec_reg_imm_ext
Lands-exec_reg_imm_ext Opcode.load_imm_64 i a x = search lands
Lands-exec_reg_imm_ext _ i a x = search lands

-- Execution of an instruction of any form goes on at a basic block or at the next instruction.
pub Lands-execute :
    (t : InstructionType) (op : Opcode) (skip : ℕ) (i : Instance) → Lands i (execute t op skip i)
unfolding execute
Lands-execute none_args op skip i = Lands-exec_none op i
Lands-execute imm op skip i = Lands-after _ i _ (λ x. Lands-exec_imm op i x)
Lands-execute reg_imm_ext op skip i = Lands-after _ i _ (λ (a, x). Lands-exec_reg_imm_ext op i a x)
Lands-execute imm_2 op skip i = Lands-after _ i _ (λ (x, y). Lands-exec_imm_2 op i x y)
Lands-execute offset op skip i = Lands-after _ i _ (λ x. Lands-exec_offset op i x)
Lands-execute reg_imm op skip i = Lands-after _ i _ (λ (a, x). Lands-exec_reg_imm op i a x)
Lands-execute reg_imm_2 op skip i = Lands-after _ i _ (λ (a, x, y). Lands-exec_reg_imm_2 op i a x y)
Lands-execute reg_imm_offset op skip i =
    Lands-after _ i _ (λ (a, x, y). Lands-exec_reg_imm_offset op i a x y)
Lands-execute reg_reg op skip i = Lands-after _ i _ (λ (d, a). Lands-exec_reg_reg op i d a)
Lands-execute reg_2_imm op skip i = Lands-after _ i _ (λ (a, b, x). Lands-exec_reg_2_imm op i a b x)
Lands-execute reg_2_offset op skip i =
    Lands-after _ i _ (λ (a, b, x). Lands-exec_reg_2_offset op i a b x)
Lands-execute reg_2_imm_2 op skip i =
    Lands-after _ i _ (λ (a, b, x, y). Lands-exec_reg_2_imm_2 op i a b x y)
Lands-execute reg_3 op skip i = Lands-after _ i _ (λ (d, a, b). Lands-exec_reg_3 op i d a b)
