-- ===== src/Pvm/Step/ExecFrame.antt =====
-- Every instruction keeps what `Same` lists.
use strawberry.Base.{ℕ}
use strawberry.Pvm.Opcode.{Opcode}
use strawberry.Pvm.Tables.{
  none_args, imm, reg_imm_ext, imm_2, offset, reg_imm, reg_imm_2, reg_imm_offset, reg_reg,
  reg_2_imm, reg_2_offset, reg_2_imm_2, reg_3, InstructionType,
}
use strawberry.Pvm.Instance.{Instance}
use strawberry.Pvm.Mutations.Immediates.{load_imm}
use strawberry.Pvm.Mutations.Jumps.{load_imm_and_jump, jump}
use strawberry.Pvm.Step.Exec.{
  exec_imm_2, exec_offset, exec_reg_imm, exec_reg_imm_2, exec_reg_imm_offset, exec_reg_2_offset,
  exec_reg_2_imm_2,
}
use strawberry.Pvm.Step.ExecRegisters.{exec_reg_reg, exec_reg_3}
use strawberry.Pvm.Step.ExecImmediate.{exec_reg_2_imm}
use strawberry.Pvm.Step.Run.{exec_none, exec_imm, exec_reg_imm_ext, execute}
use strawberry.Pvm.Step.Frame.{Keeps, Keeps-after, keeps}

pub Keeps-exec_reg_3 : (op : Opcode) (i : Instance) (d a b : ℕ) → Keeps i (exec_reg_3 op i d a b)
unfolding exec_reg_3
Keeps-exec_reg_3 Opcode.add_32 i d a b = search keeps
Keeps-exec_reg_3 _ i d a b = search keeps

pub Keeps-exec_reg_2_imm :
    (op : Opcode) (i : Instance) (a b x : ℕ) → Keeps i (exec_reg_2_imm op i a b x)
unfolding exec_reg_2_imm
Keeps-exec_reg_2_imm Opcode.and_imm i a b x = search keeps
Keeps-exec_reg_2_imm _ i a b x = search keeps

pub Keeps-exec_imm_2 : (op : Opcode) (i : Instance) (x y : ℕ) → Keeps i (exec_imm_2 op i x y)
unfolding exec_imm_2
Keeps-exec_imm_2 Opcode.store_imm_u8 i x y = search keeps
Keeps-exec_imm_2 _ i x y = search keeps

pub Keeps-exec_offset : (op : Opcode) (i : Instance) (x : ℕ) → Keeps i (exec_offset op i x)
unfolding exec_offset
Keeps-exec_offset Opcode.jump i x = search keeps
Keeps-exec_offset _ i x = search keeps

pub Keeps-exec_reg_imm : (op : Opcode) (i : Instance) (a x : ℕ) → Keeps i (exec_reg_imm op i a x)
unfolding exec_reg_imm
Keeps-exec_reg_imm Opcode.load_imm i a x = search keeps
Keeps-exec_reg_imm _ i a x = search keeps

pub Keeps-exec_reg_imm_2 :
    (op : Opcode) (i : Instance) (a x y : ℕ) → Keeps i (exec_reg_imm_2 op i a x y)
unfolding exec_reg_imm_2
Keeps-exec_reg_imm_2 Opcode.store_imm_indirect_u8 i a x y = search keeps
Keeps-exec_reg_imm_2 _ i a x y = search keeps

pub Keeps-exec_reg_imm_offset :
    (op : Opcode) (i : Instance) (a x y : ℕ) → Keeps i (exec_reg_imm_offset op i a x y)
unfolding exec_reg_imm_offset load_imm_and_jump load_imm jump
Keeps-exec_reg_imm_offset Opcode.branch_eq_imm i a x y = search keeps
Keeps-exec_reg_imm_offset _ i a x y = search keeps

pub Keeps-exec_reg_2_offset :
    (op : Opcode) (i : Instance) (a b x : ℕ) → Keeps i (exec_reg_2_offset op i a b x)
unfolding exec_reg_2_offset
Keeps-exec_reg_2_offset Opcode.branch_eq i a b x = search keeps
Keeps-exec_reg_2_offset _ i a b x = search keeps

pub Keeps-exec_reg_2_imm_2 :
    (op : Opcode) (i : Instance) (a b x y : ℕ) → Keeps i (exec_reg_2_imm_2 op i a b x y)
unfolding exec_reg_2_imm_2
Keeps-exec_reg_2_imm_2 Opcode.load_imm_and_jump_indirect i a b x y = search keeps
Keeps-exec_reg_2_imm_2 _ i a b x y = search keeps

pub Keeps-exec_reg_reg : (op : Opcode) (i : Instance) (d a : ℕ) → Keeps i (exec_reg_reg op i d a)
unfolding exec_reg_reg
Keeps-exec_reg_reg Opcode.sbrk i d a = search keeps
Keeps-exec_reg_reg _ i d a = search keeps

Keeps-exec_none : (op : Opcode) (i : Instance) → Keeps i (exec_none op i)
unfolding exec_none
Keeps-exec_none Opcode.trap i = search keeps
Keeps-exec_none _ i = search keeps

Keeps-exec_imm : (op : Opcode) (i : Instance) (x : ℕ) → Keeps i (exec_imm op i x)
unfolding exec_imm
Keeps-exec_imm Opcode.ecalli i x = search keeps
Keeps-exec_imm _ i x = search keeps

Keeps-exec_reg_imm_ext :
    (op : Opcode) (i : Instance) (a x : ℕ) → Keeps i (exec_reg_imm_ext op i a x)
unfolding exec_reg_imm_ext
Keeps-exec_reg_imm_ext Opcode.load_imm_64 i a x = search keeps
Keeps-exec_reg_imm_ext _ i a x = search keeps

-- Execution of an instruction of any form keeps them.
pub Keeps-execute :
    (t : InstructionType) (op : Opcode) (skip : ℕ) (i : Instance) → Keeps i (execute t op skip i)
unfolding execute
Keeps-execute none_args op skip i = Keeps-exec_none op i
Keeps-execute imm op skip i = Keeps-after _ i _ (λ x. Keeps-exec_imm op i x)
Keeps-execute reg_imm_ext op skip i = Keeps-after _ i _ (λ (a, x). Keeps-exec_reg_imm_ext op i a x)
Keeps-execute imm_2 op skip i = Keeps-after _ i _ (λ (x, y). Keeps-exec_imm_2 op i x y)
Keeps-execute offset op skip i = Keeps-after _ i _ (λ x. Keeps-exec_offset op i x)
Keeps-execute reg_imm op skip i = Keeps-after _ i _ (λ (a, x). Keeps-exec_reg_imm op i a x)
Keeps-execute reg_imm_2 op skip i = Keeps-after _ i _ (λ (a, x, y). Keeps-exec_reg_imm_2 op i a x y)
Keeps-execute reg_imm_offset op skip i =
    Keeps-after _ i _ (λ (a, x, y). Keeps-exec_reg_imm_offset op i a x y)
Keeps-execute reg_reg op skip i = Keeps-after _ i _ (λ (d, a). Keeps-exec_reg_reg op i d a)
Keeps-execute reg_2_imm op skip i = Keeps-after _ i _ (λ (a, b, x). Keeps-exec_reg_2_imm op i a b x)
Keeps-execute reg_2_offset op skip i =
    Keeps-after _ i _ (λ (a, b, x). Keeps-exec_reg_2_offset op i a b x)
Keeps-execute reg_2_imm_2 op skip i =
    Keeps-after _ i _ (λ (a, b, x, y). Keeps-exec_reg_2_imm_2 op i a b x y)
Keeps-execute reg_3 op skip i = Keeps-after _ i _ (λ (d, a, b). Keeps-exec_reg_3 op i d a b)
