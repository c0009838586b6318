-- ===== src/Pvm/Step/Runs.antt =====
-- Runs of the machine, as sequences of steps, and the loop of `Invoke`.
use strawberry.Base.{
  ℕ, zero, suc, ◌+◌, ◌≡◌, ◌≢◌, ◌⊎◌, inl, inr, Option, none, some, false, arith, Bool-cases,
  ltb_signed, IsU64,
}
use strawberry.Pvm.Errors.{Error}
use strawberry.Pvm.Opcode.{Opcode, opcode_of_byte}
use strawberry.Pvm.Tables.{instruction_for_type, gas_costs}
use strawberry.Pvm.Instance.{Instance, Outcome, running, stopped, crashed, and_then, deduct_gas}
use strawberry.Pvm.Step.Run.{exec_none, step_opcode, step_fetched, step, invoke}
use strawberry.Pvm.Step.Frame.{Keeps}
use strawberry.Pvm.Step.ExecFrame.{Keeps-execute}
use strawberry.Pvm.Step.Gas.{
  Paid, step-Paid, paid_one, deduct_gas-short, deduct_gas-enough, Outcome-cases,
}

-- j is reached from i by n steps that go on.
pub data Steps : ℕ → Instance → Instance → Type 0 where
  none_yet : {i : Instance} → Steps 0 i i
  first : {n : ℕ} {i j k : Instance} → step i ≡ running j → Steps n j k → Steps (suc n) i k

-- From i to j n units of gas are gone, none of them borrowed, and the program is the same.
pub record Reached (n : ℕ) (i j : Instance) : Type 0 where
  pub gas : j.gas_remaining + n ≡ i.gas_remaining
  pub word : IsU64 j.gas_remaining
  pub code : j.code ≡ i.code
  pub jump_table : j.jump_table ≡ i.jump_table
  pub bitmask : j.bitmask ≡ i.bitmask
  pub basic_block_instructions : j.basic_block_instructions ≡ i.basic_block_instructions

Reached-first :
    {n : ℕ} {i j k : Instance}
    → IsU64 i.gas_remaining
    → Paid i j
    → Reached n j k
    → Reached (suc n) i k
Reached-first word p r = ground arith

-- From an amount of gas of 64 bits, n steps that go on cost exactly n units of it, and leave the
-- code, the jump table, the bitmask and the basic blocks as they are.
pub Steps-Reached : {n : ℕ} {i j : Instance} → IsU64 i.gas_remaining → Steps n i j → Reached n i j
Steps-Reached word none_yet = ground arith
Steps-Reached word (first {i = i} {j = j} e s) =
    let paid = step-Paid i j word e in
    Reached-first word paid (Steps-Reached (omega (arith, paid.gas)) s)

-- What a step that stops has taken: nothing, or one unit of gas.
abbrev Charged : Instance → Instance → Type 0
Charged i k = (k.gas_remaining ≡ i.gas_remaining) ⊎ (suc k.gas_remaining ≡ i.gas_remaining)

Charged-Keeps :
    (i k : Instance) (e : Error)
    → IsU64 i.gas_remaining
    → ltb_signed 64 i.gas_remaining 1 ≡ false
    → Keeps (paid_one i) (stopped e k)
    → Charged i k
unfolding ltb_signed
Charged-Keeps i k e word enough (Keeps.stops s) = inr (ground arith)

Charged-and_then :
    (i k : Instance) (e : Error) (f : Instance → Outcome)
    → IsU64 i.gas_remaining
    → Keeps (paid_one i) (f (paid_one i))
    → and_then (deduct_gas i 1) f ≡ stopped e k
    → Charged i k
unfolding and_then
Charged-and_then i k e f word keeps h = elim (Bool-cases (ltb_signed 64 i.gas_remaining 1)) [
  | inl short ↦ inl (ground (arith, rw (deduct_gas-short i 1 short) at h))
  | inr enough ↦
      let h' : f (paid_one i) ≡ stopped e k = rw (deduct_gas-enough i 1 enough) at h in
      Charged-Keeps i k e word enough (rw h' at keeps)
]

Charged-unknown :
    (skip : ℕ) (i k : Instance) (e : Error)
    → IsU64 i.gas_remaining
    → step_opcode Opcode.unknown skip i ≡ stopped e k
    → Charged i k
unfolding step_opcode deduct_gas exec_none
Charged-unknown skip i k e word h = ground arith

Charged-step_opcode :
    (op : Opcode) (skip : ℕ) (i k : Instance) (e : Error)
    → IsU64 i.gas_remaining
    → step_opcode op skip i ≡ stopped e k
    → Charged i k
unfolding step_opcode gas_costs
Charged-step_opcode Opcode.unknown skip i k e word h = Charged-unknown skip i k e word h
Charged-step_opcode op skip i k e word h =
    Charged-and_then i k e _ word (Keeps-execute (instruction_for_type op) op skip (paid_one i)) h

Charged-step_fetched :
    (n b : Option ℕ) (i k : Instance) (e : Error)
    → IsU64 i.gas_remaining
    → step_fetched n b i ≡ stopped e k
    → Charged i k
unfolding step_fetched
Charged-step_fetched none b i k e word h = cc
Charged-step_fetched (some n) none i k e word h = cc
Charged-step_fetched (some n) (some b) i k e word h =
    Charged-step_opcode (opcode_of_byte b) n i k e word h

step-Charged :
    (i k : Instance) (e : Error) → IsU64 i.gas_remaining → step i ≡ stopped e k → Charged i k
unfolding step
step-Charged i k e word h = Charged-step_fetched _ _ i k e word h

crashed-stops : {e : Error} {k : Instance} → some crashed ≢ some (stopped e k)
crashed-stops h = ground arith

-- `Invoke` that stops has made n steps, and then one that stopped with the error returned.
pub invoke-Steps :
    (fuel : ℕ) (i k : Instance) (e : Error)
    → invoke fuel i ≡ some (stopped e k)
    → (n : ℕ) × (j : Instance) × (Steps n i j) × (step j ≡ stopped e k)
unfolding invoke
invoke-Steps zero i k e h = cc
invoke-Steps (suc fuel) i k e h = elim (Outcome-cases (step i)) [
  | inl (j, s) ↦
      let (n, l, steps, last) = invoke-Steps fuel j k e (rw (s, invoke) at h) in
      (suc n, l, first s steps, last)
  | inr (inl (x, j, s)) ↦ (0, i, none_yet, cc (s, rw (s, invoke) at h))
  | inr (inr s) ↦ absurd (crashed-stops (rw (s, invoke) at h))
]

-- When `Invoke` stops, with whatever error, it has made a number n of steps that went on and a last
-- one that stopped with that error; the gas that is left is what was given less n, or less n + 1.
pub invoke_gas :
    (fuel : ℕ) (i k : Instance) (e : Error)
    → IsU64 i.gas_remaining
    → invoke fuel i ≡ some (stopped e k)
    → (n : ℕ) × (j : Instance) × (Steps n i j)
      × (step j ≡ stopped e k)
      × ((k.gas_remaining + n ≡ i.gas_remaining) ⊎ (k.gas_remaining + n + 1 ≡ i.gas_remaining))
invoke_gas fuel i k e word h =
    let (n, j, steps, last) = invoke-Steps fuel i k e h in
    let reached = Steps-Reached word steps in
    (
      n,
      j,
      steps,
      last,
      elim (step-Charged j k e reached.word last) [
        | inl p ↦ inl (omega (arith, reached.gas))
        | inr p ↦ inr (omega (arith, reached.gas))
      ],
    )
