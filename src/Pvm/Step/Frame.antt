-- ===== src/Pvm/Step/Frame.antt =====
-- What no instruction touches: the program, the gas that is left and the number of registers.
use strawberry.Base.{
  ℕ, ◌-◌, ◌*◌, ◌/◌, ◌%◌, ◌≡◌, arith, Bool, true, false, not, ◌||◌, Option, none, some, length,
  length-set, get_elem?, ltb, ◌==◌, if◌then◌else◌, u32,
}
use strawberry.Pvm.Errors.{Error, Result, ok, err, crash}
use strawberry.Pvm.Memory.{Memory}
use strawberry.Pvm.Instance.{
  Instance, Outcome, running, stopped, crashed, after, and_then, advance, skip, set_reg,
  set_and_skip, load, store, is_block, refuse_branch, branch, address_return_to_host, jump_to_entry,
  djump,
}

pub record Same (i j : Instance) : Type 0 where
  pub gas_remaining : j.gas_remaining ≡ i.gas_remaining
  pub code : j.code ≡ i.code
  pub jump_table : j.jump_table ≡ i.jump_table
  pub bitmask : j.bitmask ≡ i.bitmask
  pub basic_block_instructions : j.basic_block_instructions ≡ i.basic_block_instructions
  pub regs : length j.regs ≡ length i.regs

-- An instance that an operation leaves agrees with the one that it began with.
pub data Keeps (i : Instance) : Outcome → Type 0 where
  runs : {j : Instance} → Same i j → Keeps i (running j)
  stops : {e : Error} {j : Instance} → Same i j → Keeps i (stopped e j)
  crashes : Keeps i crashed

pub Same-refl : (i : Instance) → Same i i
Same-refl i = ground arith

pub Same-trans : {i j k : Instance} → Same i j → Same j k → Same i k
Same-trans p q = ground arith

pub Same-set_reg : (i : Instance) (r v : ℕ) → Same i (set_reg i r v)
Same-set_reg i r v = ground (arith, length-set i.regs r v)

pub Same-memory : (i : Instance) (m : Memory) → Same i (record i { memory = m })
Same-memory i m = ground arith

pub Same-if : (i j : Instance) (b : Bool) → Same i j → Same i (if b then j else i)
Same-if i j true s = s
Same-if i j false s = Same-refl i

pub Keeps-after {ℓ} :
    {A : Type ℓ} (r : Result A) (i : Instance) (f : A → Outcome)
    → ((a : A) → Keeps i (f a))
    → Keeps i (after r i f)
Keeps-after (ok a) i f h = h a
Keeps-after (err e) i f h = stops (Same-refl i)
Keeps-after crash i f h = crashes

Keeps-advance : {i : Instance} (j : Instance) (n : Option ℕ) → Same i j → Keeps i (advance j n)
unfolding advance
Keeps-advance j none s = crashes
Keeps-advance j (some n) s = runs (ground arith)

pub Keeps-skip : {i : Instance} (j : Instance) → Same i j → Keeps i (skip j)
unfolding skip
Keeps-skip j s = Keeps-advance j _ s

pub Keeps-set_and_skip :
    {i : Instance} (j : Instance) (r v : ℕ) → Same i j → Keeps i (set_and_skip j r v)
unfolding set_and_skip
Keeps-set_and_skip j r v s = Keeps-skip (set_reg j r v) (Same-trans s (Same-set_reg j r v))

pub Keeps-store : (i : Instance) (address n v : ℕ) → Keeps i (store i address n v)
unfolding store
Keeps-store i address n v =
    Keeps-after _ i _ (λ m. Keeps-skip (record i { memory = m }) (Same-memory i m))

pub Keeps-load :
    (i : Instance) (address n : ℕ) (f : ℕ → Outcome)
    → ((v : ℕ) → Keeps i (f v))
    → Keeps i (load i address n f)
unfolding load
Keeps-load i address n f h = Keeps-after _ i _ (λ bytes. h _)

Same-counter :
    {i : Instance} (j : Instance) (n : ℕ) → Same i j → Same i (record j { instruction_counter = n })
Same-counter j n s = ground arith

Keeps-refuse_branch :
    {i : Instance} (j : Instance) (n : Option ℕ) → Same i j → Keeps i (refuse_branch j n)
unfolding refuse_branch
Keeps-refuse_branch j none s = crashes
Keeps-refuse_branch j (some n) s = stops s

pub Keeps-if :
    {i : Instance} (b : Bool) {o p : Outcome} → Keeps i o → Keeps i p → Keeps i (if b then o else p)
Keeps-if true h k = h
Keeps-if false h k = k

pub Keeps-branch :
    {i : Instance} (j : Instance) (c : Bool) (target : ℕ) → Same i j → Keeps i (branch j c target)
unfolding branch
Keeps-branch j c target s =
    Keeps-if c
      (Keeps-if (is_block j target) (runs (Same-counter j target s)) (Keeps-refuse_branch j _ s))
      (Keeps-skip j s)

Keeps-jump_to_entry :
    {i : Instance} (j : Instance) (n : Option ℕ) → Same i j → Keeps i (jump_to_entry j n)
unfolding jump_to_entry
Keeps-jump_to_entry j none s = crashes
Keeps-jump_to_entry j (some n) s = Keeps-if (is_block j n) (runs (Same-counter j n s)) (stops s)

pub Keeps-djump : {i : Instance} (j : Instance) (address : ℕ) → Same i j → Keeps i (djump j address)
unfolding djump
Keeps-djump j address s =
    let a = u32 address in
    Keeps-if (a == address_return_to_host) (stops s) (
      Keeps-if (a == 0 || ltb (length j.jump_table * 2) a || not (a % 2 == 0)) (stops s)
        (Keeps-jump_to_entry j (get_elem? j.jump_table (a / 2 - 1)) s))

pub Keeps-and_then :
    {i : Instance} (o : Outcome) (f : Instance → Outcome)
    → Keeps i o
    → ((j : Instance) → Same i j → Keeps i (f j))
    → Keeps i (and_then o f)
unfolding and_then
Keeps-and_then (running j) f (runs s) h = h j s
Keeps-and_then (stopped e j) f (stops s) h = stops s
Keeps-and_then crashed f k h = crashes

pub Same-running : {i j : Instance} → Keeps i (running j) → Same i j
Same-running (runs s) = s

pub ruleset keeps = (
  Keeps-skip, Keeps-set_and_skip, Keeps-store, Keeps-load, Keeps-branch, Keeps-djump, Keeps-after,
  Keeps-and_then, Same-refl, Same-set_reg, Same-if, Same-memory, runs, stops,
)
