-- ===== src/Pvm/Step/Closed.antt =====
-- The memory over a whole run.
use strawberry.Base.{ℕ, ◌≡◌, Option, none, some, Bool-cases, inl, inr, ltb_signed, subst}
use strawberry.Pvm.Errors.{Error}
use strawberry.Pvm.Opcode.{opcode_of_byte}
use strawberry.Pvm.Tables.{instruction_for_type, gas_costs}
use strawberry.Pvm.Memory.Protects.{Protects, Protects-refl, Protects-trans}
use strawberry.Pvm.Instance.{Instance, Outcome, running, stopped, and_then, deduct_gas}
use strawberry.Pvm.Step.Run.{step_opcode, step_fetched, step, invoke}
use strawberry.Pvm.Step.Gas.{deduct_gas-short, deduct_gas-enough}
use strawberry.Pvm.Step.Runs.{Steps, none_yet, first, invoke-Steps}
use strawberry.Pvm.Step.Shields.{Guarded-refl, Shields, runs, stops, crashes}
use strawberry.Pvm.Step.ExecShields.{Shields-execute}

-- Payment does not touch the memory.
Shields-paid :
    (i : Instance) (g : ℕ) {o : Outcome} → Shields (record i { gas_remaining = g }) o → Shields i o
Shields-paid i g (runs h) = runs (record { memory = h.memory })
Shields-paid i g (stops h) = stops (record { memory = h.memory })
Shields-paid i g crashes = crashes

Shields-deduct_gas :
    (i : Instance) (cost : ℕ) (f : Instance → Outcome)
    → ((j : Instance) → Shields j (f j))
    → Shields i (and_then (deduct_gas i cost) f)
unfolding and_then
Shields-deduct_gas i cost f h = elim (Bool-cases (ltb_signed 64 i.gas_remaining cost)) [
  | inl short ↦ rw (deduct_gas-short i cost short) (stops (Guarded-refl i))
  | inr enough ↦ rw (deduct_gas-enough i cost enough) (Shields-paid i _ (h _))
]

Shields-step_fetched : (n b : Option ℕ) (i : Instance) → Shields i (step_fetched n b i)
unfolding step_fetched step_opcode
Shields-step_fetched none b i = crashes
Shields-step_fetched (some n) none i = crashes
Shields-step_fetched (some n) (some b) i =
    let op = opcode_of_byte b in
    Shields-deduct_gas i (gas_costs op) _ (λ j. Shields-execute (instruction_for_type op) op n j)

Shields-step : (i : Instance) → Shields i (step i)
unfolding step
Shields-step i = Shields-step_fetched _ _ i

Protects-running : {i j : Instance} → Shields i (running j) → Protects i.memory j.memory
Protects-running (runs g) = g.memory

Protects-stopped :
    {i j : Instance} {e : Error} → Shields i (stopped e j) → Protects i.memory j.memory
Protects-stopped (stops g) = g.memory

Protects-Steps : {n : ℕ} {i j : Instance} → Steps n i j → Protects i.memory j.memory
Protects-Steps (none_yet {i = i}) = Protects-refl i.memory
Protects-Steps (first {i = i} e s) =
    Protects-trans (Protects-running (subst (Shields i) e (Shields-step i))) (Protects-Steps s)

-- Whatever a program does until `Invoke` stops: no segment has moved or changed its access, and a
-- segment other than the heap that was not writable holds the bytes that it held. The contents of the
-- heap, which `Sbrk` replaces and resizes, may have changed whatever its access.
pub invoke-Protects :
    (fuel : ℕ) (i k : Instance) (e : Error)
    → invoke fuel i ≡ some (stopped e k)
    → Protects i.memory k.memory
invoke-Protects fuel i k e h =
    let (n, j, steps, last) = invoke-Steps fuel i k e h in
    Protects-trans (Protects-Steps steps)
      (Protects-stopped (subst (Shields j) last (Shields-step j)))
