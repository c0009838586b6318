-- ===== src/Pvm/Step/Gas.antt =====
-- The gas that a step takes, and the end of every run.
use strawberry.Base.{
  ℕ, zero, suc, ◌^◌, ◌<◌, ◌≡◌, ◌≢◌, refl, ◌⊎◌, inl, inr, arith, Option, none, some, true, false,
  ltb, IsU64, ltb_signed, sub_w, length, Bool-cases, if◌then◌else◌,
}
use strawberry.Pvm.Errors.{Error, out_of_gas}
use strawberry.Pvm.Opcode.{Opcode, opcode_of_byte}
use strawberry.Pvm.Tables.{gas_costs, instruction_for_type}
use strawberry.Pvm.Instance.{Instance, Outcome, running, stopped, crashed, and_then, deduct_gas}
use strawberry.Pvm.Step.Run.{exec_none, step_opcode, step_fetched, step, invoke}
use strawberry.Pvm.Step.Frame.{Same, Keeps, Same-running}
use strawberry.Pvm.Step.ExecFrame.{Keeps-execute}

-- From i to j one unit of gas was paid, out of a positive amount, and the program is the same.
pub record Paid (i j : Instance) : Type 0 where
  pub gas : suc j.gas_remaining ≡ i.gas_remaining
  pub positive : i.gas_remaining < 2 ^ 63
  pub code : j.code ≡ i.code
  pub jump_table : j.jump_table ≡ i.jump_table
  pub bitmask : j.bitmask ≡ i.bitmask
  pub basic_block_instructions : j.basic_block_instructions ≡ i.basic_block_instructions
  pub regs : length j.regs ≡ length i.regs

abbrev pub paid_one : Instance → Instance
paid_one i = record i { gas_remaining = sub_w 64 i.gas_remaining 1 }

Paid-Same :
    (i j : Instance)
    → IsU64 i.gas_remaining
    → ltb_signed 64 i.gas_remaining 1 ≡ false
    → Same (paid_one i) j
    → Paid i j
unfolding ltb_signed
Paid-Same i j word enough s = ground arith

pub deduct_gas-enough :
    (i : Instance) (cost : ℕ)
    → ltb_signed 64 i.gas_remaining cost ≡ false
    → deduct_gas i cost ≡ running (record i { gas_remaining = sub_w 64 i.gas_remaining cost })
unfolding deduct_gas
deduct_gas-enough i cost h = rw h

pub deduct_gas-short :
    (i : Instance) (cost : ℕ)
    → ltb_signed 64 i.gas_remaining cost ≡ true
    → deduct_gas i cost ≡ stopped out_of_gas i
unfolding deduct_gas
deduct_gas-short i cost h = rw h

Paid-and_then :
    (i j : Instance) (f : Instance → Outcome)
    → IsU64 i.gas_remaining
    → Keeps (paid_one i) (f (paid_one i))
    → and_then (deduct_gas i 1) f ≡ running j
    → Paid i j
unfolding and_then
Paid-and_then i j f word k e = elim (Bool-cases (ltb_signed 64 i.gas_remaining 1)) [
  | inl short ↦ cc (rw (deduct_gas-short i 1 short) at e)
  | inr enough ↦
      let e' : f (paid_one i) ≡ running j = rw (deduct_gas-enough i 1 enough) at e in
      Paid-Same i j word enough (Same-running (rw e' at k))
]

-- The case of a byte that names no operation: nothing is paid, and the step is refused.
unknown_stops : (skip : ℕ) (i j : Instance) → step_opcode Opcode.unknown skip i ≢ running j
unfolding step_opcode deduct_gas exec_none
unknown_stops skip i j e = ground arith

Paid-step_opcode :
    (op : Opcode) (skip : ℕ) (i j : Instance)
    → IsU64 i.gas_remaining
    → step_opcode op skip i ≡ running j
    → Paid i j
unfolding step_opcode gas_costs
Paid-step_opcode Opcode.unknown skip i j word e = absurd (unknown_stops skip i j e)
Paid-step_opcode op skip i j word e =
    Paid-and_then i j _ word (Keeps-execute (instruction_for_type op) op skip (paid_one i)) e

Paid-step_fetched :
    (n b : Option ℕ) (i j : Instance)
    → IsU64 i.gas_remaining
    → step_fetched n b i ≡ running j
    → Paid i j
unfolding step_fetched
Paid-step_fetched none b i j word e = cc
Paid-step_fetched (some n) none i j word e = cc
Paid-step_fetched (some n) (some b) i j word e = Paid-step_opcode (opcode_of_byte b) n i j word e

-- A step that does not stop costs exactly one unit of a positive amount of gas, and leaves the code,
-- the jump table, the bitmask, the basic blocks and the number of registers as they are.
pub step-Paid : (i j : Instance) → IsU64 i.gas_remaining → step i ≡ running j → Paid i j
unfolding step
step-Paid i j word e = Paid-step_fetched _ _ i j word e

-- The steps that an amount of gas can pay for: a negative one pays for none.
abbrev pub payable : ℕ → ℕ
payable gas = if ltb gas (2 ^ 63) then gas else 0

payable-suc : (g h n : ℕ) → suc h ≡ g → g < 2 ^ 63 → payable g < suc n → payable h < n
payable-suc g h n e positive below = ground arith

pub Outcome-cases :
    (o : Outcome)
    → ((j : Instance) × (o ≡ running j))
      ⊎ ((e : Error) × (j : Instance) × (o ≡ stopped e j))
      ⊎ (o ≡ crashed)
Outcome-cases (running j) = inl (j, refl)
Outcome-cases (stopped e j) = inr (inl (e, j, refl))
Outcome-cases crashed = inr (inr refl)

-- `Invoke` comes to an end: with more fuel than the gas can pay for, the loop is left.
pub invoke_ends :
    (fuel : ℕ) (i : Instance)
    → IsU64 i.gas_remaining
    → payable i.gas_remaining < fuel
    → ((e : Error) × (j : Instance) × (invoke fuel i ≡ some (stopped e j)))
      ⊎ (invoke fuel i ≡ some crashed)
unfolding invoke
invoke_ends zero i word h = absurd (omega arith)
invoke_ends (suc fuel) i word h = elim (Outcome-cases (step i)) [
  | inl (j, e) ↦
      let paid = step-Paid i j word e in
      rw (e, invoke)
        (invoke_ends fuel j (omega (arith, paid.gas))
          (payable-suc _ _ fuel paid.gas paid.positive h))
  | inr (inl (x, j, e)) ↦ rw (e, invoke) (inl (x, j, refl))
  | inr (inr e) ↦ rw (e, invoke) (inr refl)
]
