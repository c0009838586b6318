-- ===== src/Pvm/Tests.antt =====
-- Runs of the machine on small inputs, and the theorems at such inputs.
use strawberry.Base.{
  ◌≡◌, ℕ, ◌+◌, ◌-◌, ◌^◌, add_w, refl, ◌⊎◌, arith, true, false, some, [], ◌∷◌, replicate,
}
use strawberry.Pvm.Errors.{Error, ok, panic}
use strawberry.Pvm.Memory.{
  read_only, read_write, Memory, read, write, slice, overwrite, holds_range, find_range,
  write_range,
}
use strawberry.Pvm.Memory.RoundTrip.{read-write, read-write_apart}
use strawberry.Pvm.Instance.{
  Instance, running, stopped, crashed, skip_length, is_block, set_and_skip,
}
use strawberry.Jam.Fixed.{deserialize_trivial_natural}
use strawberry.Pvm.Step.Decode.{decode_reg_imm}
use strawberry.Pvm.Step.Exec.{exec_reg_imm}
use strawberry.Pvm.Step.Run.{step, invoke}
use strawberry.Pvm.Opcode.{Opcode}
use strawberry.Pvm.Tables.{instruction_for_type}
use strawberry.Pvm.Step.ExecRegisters.{exec_reg_3}
use strawberry.Pvm.Spec.{spec_reg_3}
use strawberry.Pvm.Spec.Registers.{Agree, exec_reg_3-spec_reg_3}
use strawberry.Pvm.Memory.Protects.{Protects}
use strawberry.Pvm.Step.Closed.{invoke-Protects}
use strawberry.Pvm.Step.Flow.{step-lands}
use strawberry.Pvm.Step.Runs.{Steps, none_yet, first, Reached, Steps-Reached, invoke_gas}
use strawberry.Pvm.Step.Gas.{Paid, step-Paid, invoke_ends}

abbrev ram : Memory
ram = record {
  ro = record { address = 65536; contents = 1 ∷ 2 ∷ 3 ∷ 4 ∷ []; access = read_only };
  rw = record { address = 131072; contents = replicate 16 0; access = read_write };
  stack = record { address = 196608; contents = replicate 8 0; access = read_write };
  args = record { address = 262144; contents = 9 ∷ []; access = read_only };
}

-- `load_imm a0, 42`, and the `trap` that is added behind the code.
abbrev program : Instance
program = record {
  memory = ram;
  regs = replicate 13 0;
  instruction_counter = 0;
  gas_remaining = 5;
  code = 51 ∷ 7 ∷ 42 ∷ 0 ∷ [];
  jump_table = [];
  bitmask = true ∷ false ∷ false ∷ true ∷ [];
  basic_block_instructions = 0 ∷ [];
}

abbrev loaded : Instance
loaded = record program {
  regs = 0 ∷ 0 ∷ 0 ∷ 0 ∷ 0 ∷ 0 ∷ 0 ∷ 42 ∷ 0 ∷ 0 ∷ 0 ∷ 0 ∷ 0 ∷ [];
  instruction_counter = 3;
  gas_remaining = 4;
}

step_load_imm : step program ≡ running loaded
unfolding step decode_reg_imm exec_reg_imm set_and_skip deserialize_trivial_natural
step_load_imm = refl

step-Paid_example : Paid program loaded
step-Paid_example = step-Paid program loaded (omega arith) step_load_imm

invoke_ends_example :
    ((e : Error) × (j : Instance) × (invoke 6 program ≡ some (stopped e j)))
    ⊎ (invoke 6 program ≡ some crashed)
invoke_ends_example = invoke_ends 6 program (omega arith) (omega arith)

step-lands_example :
    (is_block program 3 ≡ true)
    ⊎ ((n : ℕ) × (skip_length 0 program.bitmask ≡ some n) × (3 ≡ add_w 64 0 (add_w 64 1 n)))
step-lands_example = step-lands program loaded step_load_imm

Steps-Reached_example : Reached 1 program loaded
Steps-Reached_example = Steps-Reached (omega arith) (first step_load_imm none_yet)

abbrev ended : Instance
ended = record loaded { gas_remaining = 3 }

invoke_two : invoke 6 program ≡ some (stopped panic ended)
unfolding invoke decode_reg_imm exec_reg_imm set_and_skip deserialize_trivial_natural
invoke_two = refl

invoke_gas_example :
    (n : ℕ) × (j : Instance) × (Steps n program j)
    × (step j ≡ stopped panic ended)
    × ((3 + n ≡ 5) ⊎ (3 + n + 1 ≡ 5))
invoke_gas_example = invoke_gas 6 program ended panic (omega arith) invoke_two

invoke-Protects_example : Protects program.memory ended.memory
invoke-Protects_example = invoke-Protects 6 program ended panic invoke_two

-- −6 and 3 in the first two registers
abbrev operands : Instance
operands = record program { regs = (2 ^ 64 - 6) ∷ 3 ∷ 0 ∷ [] }

exec_reg_3-spec_reg_3_example :
    exec_reg_3 Opcode.div_signed_64 operands 2 0 1 ≡ set_and_skip operands 2 (2 ^ 64 - 2)
unfolding spec_reg_3 instruction_for_type Agree mathlib.Core.Bool.xor
exec_reg_3-spec_reg_3_example =
    exec_reg_3-spec_reg_3 operands 2 0 1 (omega arith) (omega arith) Opcode.div_signed_64 refl
      (λ e. refl)

abbrev written : Memory
written = record ram {
  rw = record { address = 131072; contents = 0 ∷ 0 ∷ 7 ∷ 8 ∷ replicate 12 0; access = read_write };
}

write_two : write ram 131074 (7 ∷ 8 ∷ []) ≡ ok written
unfolding write write_range find_range holds_range slice overwrite
write_two = refl

read-write_example : read written 131074 2 ≡ ok (7 ∷ 8 ∷ [])
read-write_example =
    read-write ram written 131074 (7 ∷ 8 ∷ []) (omega arith) (omega arith) write_two

read-write_apart_example : read written 131076 4 ≡ read ram 131076 4
read-write_apart_example =
    read-write_apart ram written 131074 131076 4 (7 ∷ 8 ∷ []) (omega arith) (omega arith) write_two
      (omega arith) (omega arith)
