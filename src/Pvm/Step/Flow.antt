-- ===== src/Pvm/Step/Flow.antt =====
-- The control flow of the machine.
use strawberry.Base.{
  ℕ, ◌≡◌, ◌⊎◌, inl, inr, Option, none, some, add_w, true, subst, Bool-cases, ltb_signed,
}
use strawberry.Pvm.Opcode.{opcode_of_byte}
use strawberry.Pvm.Tables.{instruction_for_type, gas_costs}
use strawberry.Pvm.Instance.{
  Instance, Outcome, running, and_then, is_block, skip_length, deduct_gas,
}
use strawberry.Pvm.Step.Run.{step_opcode, step_fetched, step}
use strawberry.Pvm.Step.Gas.{deduct_gas-short, deduct_gas-enough}
use strawberry.Pvm.Step.Landing.{Lands, at_block, at_next, stops, crashes}
use strawberry.Pvm.Step.ExecLanding.{Lands-execute}

-- Payment for an instruction leaves what the landing depends on.
Lands-paid :
    (i : Instance) (g : ℕ) {o : Outcome} → Lands (record i { gas_remaining = g }) o → Lands i o
Lands-paid i g (at_block b) = at_block b
Lands-paid i g (at_next n e c) = at_next n e c
Lands-paid i g stops = stops
Lands-paid i g crashes = crashes

Lands-deduct_gas :
    (i : Instance) (cost : ℕ) (f : Instance → Outcome)
    → ((j : Instance) → Lands j (f j))
    → Lands i (and_then (deduct_gas i cost) f)
unfolding and_then
Lands-deduct_gas i cost f h = elim (Bool-cases (ltb_signed 64 i.gas_remaining cost)) [
  | inl short ↦ rw (deduct_gas-short i cost short) stops
  | inr enough ↦ rw (deduct_gas-enough i cost enough) (Lands-paid i _ (h _))
]

Lands-step_fetched : (n b : Option ℕ) (i : Instance) → Lands i (step_fetched n b i)
unfolding step_fetched step_opcode
Lands-step_fetched none b i = crashes
Lands-step_fetched (some n) none i = crashes
Lands-step_fetched (some n) (some b) i =
    let op = opcode_of_byte b in
    Lands-deduct_gas i (gas_costs op) _ (λ j. Lands-execute (instruction_for_type op) op n j)

Lands-running :
    {i j : Instance}
    → Lands i (running j)
    → (is_block i j.instruction_counter ≡ true)
      ⊎ ((n : ℕ) × (skip_length i.instruction_counter i.bitmask ≡ some n)
          × (j.instruction_counter ≡ add_w 64 i.instruction_counter (add_w 64 1 n)))
Lands-running (at_block b) = inl b
Lands-running (at_next n e c) = inr (n, e, c)

-- A step that does not stop leaves the instruction counter at the start of a basic block, or at the
-- instruction that follows the one executed: 1 + skip places on.
pub step-lands :
    (i j : Instance)
    → step i ≡ running j
    → (is_block i j.instruction_counter ≡ true)
      ⊎ ((n : ℕ) × (skip_length i.instruction_counter i.bitmask ≡ some n)
          × (j.instruction_counter ≡ add_w 64 i.instruction_counter (add_w 64 1 n)))
unfolding step
step-lands i j e = Lands-running (subst (Lands i) e (Lands-step_fetched _ _ i))
