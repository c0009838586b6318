-- ===== src/Pvm/Step/ExecShields.antt =====
-- What every instruction may do to the memory.
use strawberry.Base.{ℕ}
use strawberry.Pvm.Opcode.{Opcode}
use strawberry.Pvm.Tables.{
  none_args, imm, reg_imm_ext, imm_2, offset, reg_imm, reg_imm_2, reg_imm_offset, reg_reg,
  reg_2_imm, reg_2_offset, reg_2_imm_2, reg_3, InstructionType,
}
use strawberry.Pvm.Instance.{Instance}
use strawberry.Pvm.Mutations.Immediates.{load_imm}
use strawberry.Pvm.Mutations.Jumps.{load_imm_and_jump, jump}
use strawberry.Pvm.Step.Exec.{
  exec_imm_2, exec_offset, exec_reg_imm, exec_reg_imm_2, exec_reg_imm_offset, exec_reg_2_offset,
  exec_reg_2_imm_2,
}
use strawberry.Pvm.Step.ExecRegisters.{exec_reg_reg, exec_reg_3}
use strawberry.Pvm.Step.ExecImmediate.{exec_reg_2_imm}
use strawberry.Pvm.Step.Run.{exec_none, exec_imm, exec_reg_imm_ext, execute}
use strawberry.Pvm.Step.Shields.{Shields, Shields-after, Shields-sbrk, shields}

pub Shields-exec_reg_3 :
    (op : Opcode) (i : Instance) (d a b : ℕ) → Shields i (exec_reg_3 op i d a b)
unfolding exec_reg_3
Shields-exec_reg_3 Opcode.add_32 i d a b = search shields
Shields-exec_reg_3 _ i d a b = search shields

pub Shields-exec_reg_2_imm :
    (op : Opcode) (i : Instance) (a b x : ℕ) → Shields i (exec_reg_2_imm op i a b x)
unfolding exec_reg_2_imm
Shields-exec_reg_2_imm Opcode.and_imm i a b x = search shields
Shields-exec_reg_2_imm _ i a b x = search shields

pub Shields-exec_imm_2 : (op : Opcode) (i : Instance) (x y : ℕ) → Shields i (exec_imm_2 op i x y)
unfolding exec_imm_2
Shields-exec_imm_2 Opcode.store_imm_u8 i x y = search shields
Shields-exec_imm_2 _ i x y = search shields

pub Shields-exec_offset : (op : Opcode) (i : Instance) (x : ℕ) → Shields i (exec_offset op i x)
unfolding exec_offset
Shields-exec_offset Opcode.jump i x = search shields
Shields-exec_offset _ i x = search shields

pub Shields-exec_reg_imm :
    (op : Opcode) (i : Instance) (a x : ℕ) → Shields i (exec_reg_imm op i a x)
unfolding exec_reg_imm
Shields-exec_reg_imm Opcode.load_imm i a x = search shields
Shields-exec_reg_imm _ i a x = search shields

pub Shields-exec_reg_imm_2 :
    (op : Opcode) (i : Instance) (a x y : ℕ) → Shields i (exec_reg_imm_2 op i a x y)
unfolding exec_reg_imm_2
Shields-exec_reg_imm_2 Opcode.store_imm_indirect_u8 i a x y = search shields
Shields-exec_reg_imm_2 _ i a x y = search shields

pub Shields-exec_reg_imm_offset :
    (op : Opcode) (i : Instance) (a x y : ℕ) → Shields i (exec_reg_imm_offset op i a x y)
unfolding exec_reg_imm_offset load_imm_and_jump load_imm jump
Shields-exec_reg_imm_offset Opcode.branch_eq_imm i a x y = search shields
Shields-exec_reg_imm_offset _ i a x y = search shields

pub Shields-exec_reg_2_offset :
    (op : Opcode) (i : Instance) (a b x : ℕ) → Shields i (exec_reg_2_offset op i a b x)
unfolding exec_reg_2_offset
Shields-exec_reg_2_offset Opcode.branch_eq i a b x = search shields
Shields-exec_reg_2_offset _ i a b x = search shields

pub Shields-exec_reg_2_imm_2 :
    (op : Opcode) (i : Instance) (a b x y : ℕ) → Shields i (exec_reg_2_imm_2 op i a b x y)
unfolding exec_reg_2_imm_2
Shields-exec_reg_2_imm_2 Opcode.load_imm_and_jump_indirect i a b x y = search shields
Shields-exec_reg_2_imm_2 _ i a b x y = search shields

pub Shields-exec_reg_reg :
    (op : Opcode) (i : Instance) (d a : ℕ) → Shields i (exec_reg_reg op i d a)
unfolding exec_reg_reg
Shields-exec_reg_reg Opcode.sbrk i d a = Shields-sbrk i d a
Shields-exec_reg_reg _ i d a = search shields

Shields-exec_none : (op : Opcode) (i : Instance) → Shields i (exec_none op i)
unfolding exec_none
Shields-exec_none Opcode.trap i = search shields
Shields-exec_none _ i = search shields

Shields-exec_imm : (op : Opcode) (i : Instance) (x : ℕ) → Shields i (exec_imm op i x)
unfolding exec_imm
Shields-exec_imm Opcode.ecalli i x = search shields
Shields-exec_imm _ i x = search shields

Shields-exec_reg_imm_ext :
    (op : Opcode) (i : Instance) (a x : ℕ) → Shields i (exec_reg_imm_ext op i a x)
unfolding exec_reg_imm_ext
Shields-exec_reg_imm_ext Opcode.load_imm_64 i a x = search shields
Shields-exec_reg_imm_ext _ i a x = search shields

-- Execution of an instruction of any form leaves the closed segments as they are.
pub Shields-execute :
    (t : InstructionType) (op : Opcode) (skip : ℕ) (i : Instance) → Shields i (execute t op skip i)
unfolding execute
Shields-execute none_args op skip i = Shields-exec_none op i
Shields-execute imm op skip i = Shields-after _ i _ (λ x. Shields-exec_imm op i x)
Shields-execute reg_imm_ext op skip i =
    Shields-after _ i _ (λ (a, x). Shields-exec_reg_imm_ext op i a x)
Shields-execute imm_2 op skip i = Shields-after _ i _ (λ (x, y). Shields-exec_imm_2 op i x y)
Shields-execute offset op skip i = Shields-after _ i _ (λ x. Shields-exec_offset op i x)
Shields-execute reg_imm op skip i = Shields-after _ i _ (λ (a, x). Shields-exec_reg_imm op i a x)
Shields-execute reg_imm_2 op skip i =
    Shields-after _ i _ (λ (a, x, y). Shields-exec_reg_imm_2 op i a x y)
Shields-execute reg_imm_offset op skip i =
    Shields-after _ i _ (λ (a, x, y). Shields-exec_reg_imm_offset op i a x y)
Shields-execute reg_reg op skip i = Shields-after _ i _ (λ (d, a). Shields-exec_reg_reg op i d a)
Shields-execute reg_2_imm op skip i =
    Shields-after _ i _ (λ (a, b, x). Shields-exec_reg_2_imm op i a b x)
Shields-execute reg_2_offset op skip i =
    Shields-after _ i _ (λ (a, b, x). Shields-exec_reg_2_offset op i a b x)
Shields-execute reg_2_imm_2 op skip i =
    Shields-after _ i _ (λ (a, b, x, y). Shields-exec_reg_2_imm_2 op i a b x y)
Shields-execute reg_3 op skip i = Shields-after _ i _ (λ (d, a, b). Shields-exec_reg_3 op i d a b)
