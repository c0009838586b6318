-- ===== src/Pvm/Step/Landing.antt =====
-- Where an instruction leaves the instruction counter.
use strawberry.Base.{
  ℕ, ◌-◌, ◌*◌, ◌/◌, ◌%◌, ◌≡◌, refl, sym, ap, ◌∙◌, Bool, true, false, not, ◌||◌, Option, none, some,
  length, get_elem?, ltb, ◌==◌, if◌then◌else◌, u32, add_w, Bool-cases, inl, inr, arith,
}
use strawberry.Pvm.Step.Frame.{Same, Keeps, Same-running, keeps}
use strawberry.Pvm.Errors.{Error, Result, ok, err, crash}
use strawberry.Pvm.Memory.{Memory}
use strawberry.Pvm.Instance.{
  Instance, Outcome, running, stopped, crashed, after, and_then, advance, skip, set_reg,
  set_and_skip, load, store, is_block, refuse_branch, branch, address_return_to_host, jump_to_entry,
  djump, skip_length, has_key,
}

-- j stands where i stands, in the same program.
pub record Here (i j : Instance) : Type 0 where
  pub instruction_counter : j.instruction_counter ≡ i.instruction_counter
  pub bitmask : j.bitmask ≡ i.bitmask
  pub basic_block_instructions : j.basic_block_instructions ≡ i.basic_block_instructions

-- An operation on i that goes on does so at the start of a basic block, or at the instruction that
-- the bitmask gives as the next one.
pub data Lands (i : Instance) : Outcome → Type 0 where
  at_block : {j : Instance} → is_block i j.instruction_counter ≡ true → Lands i (running j)
  at_next :
      {j : Instance} (n : ℕ)
      → skip_length i.instruction_counter i.bitmask ≡ some n
      → j.instruction_counter ≡ add_w 64 i.instruction_counter (add_w 64 1 n)
      → Lands i (running j)
  stops : {e : Error} {j : Instance} → Lands i (stopped e j)
  crashes : Lands i crashed

pub Here-refl : (i : Instance) → Here i i
Here-refl i = ground arith

pub Here-set_reg : {i : Instance} (j : Instance) (r v : ℕ) → Here i j → Here i (set_reg j r v)
Here-set_reg j r v h = ground arith

pub Here-memory :
    {i : Instance} (j : Instance) (m : Memory) → Here i j → Here i (record j { memory = m })
Here-memory j m h = ground arith

pub Here-if :
    {i : Instance} (j k : Instance) (b : Bool) → Here i j → Here i k → Here i (if b then j else k)
Here-if j k true s t = s
Here-if j k false s t = t

pub Lands-after {ℓ} :
    {i : Instance} {A : Type ℓ} (r : Result A) (j : Instance) (f : A → Outcome)
    → ((a : A) → Lands i (f a))
    → Lands i (after r j f)
Lands-after (ok a) i f h = h a
Lands-after (err e) i f h = stops
Lands-after crash i f h = crashes

Lands-advance :
    {i : Instance} (j : Instance) (n : Option ℕ)
    → skip_length j.instruction_counter j.bitmask ≡ n
    → Here i j
    → Lands i (advance j n)
unfolding advance
Lands-advance j none e h = crashes
Lands-advance {i = i} j (some n) e h =
    at_next n
      (ap (λ c. skip_length c i.bitmask) (sym h.instruction_counter)
        ∙ ap (skip_length j.instruction_counter) (sym h.bitmask)
        ∙ e)
      (ap (λ c. add_w 64 c (add_w 64 1 n)) h.instruction_counter)

pub Lands-skip : {i : Instance} (j : Instance) → Here i j → Lands i (skip j)
unfolding skip
Lands-skip j h = Lands-advance j _ refl h

pub Lands-set_and_skip :
    {i : Instance} (j : Instance) (r v : ℕ) → Here i j → Lands i (set_and_skip j r v)
unfolding set_and_skip
Lands-set_and_skip j r v h = Lands-skip (set_reg j r v) (Here-set_reg j r v h)

pub Lands-store :
    {i : Instance} (j : Instance) (address n v : ℕ) → Here i j → Lands i (store j address n v)
unfolding store
Lands-store j address n v h =
    Lands-after _ j _ (λ m. Lands-skip (record j { memory = m }) (Here-memory j m h))

pub Lands-load :
    {i : Instance} (j : Instance) (address n : ℕ) (f : ℕ → Outcome)
    → ((v : ℕ) → Lands i (f v))
    → Lands i (load j address n f)
unfolding load
Lands-load j address n f h = Lands-after _ j _ (λ bytes. h _)

Lands-refuse_branch : {i : Instance} (j : Instance) (n : Option ℕ) → Lands i (refuse_branch j n)
unfolding refuse_branch
Lands-refuse_branch j none = crashes
Lands-refuse_branch j (some n) = stops

-- The jump that a test on the basic blocks guards.
Lands-guarded :
    {i : Instance} (j : Instance) (target : ℕ) (o : Outcome)
    → j.basic_block_instructions ≡ i.basic_block_instructions
    → Lands i o
    → Lands i (if is_block j target then running (record j { instruction_counter = target }) else o)
Lands-guarded {i = i} j target o e h = elim (Bool-cases (is_block j target)) [
  | inl t ↦ rw t (at_block (ap (λ bs. has_key bs target) (sym e) ∙ t))
  | inr f ↦ rw f h
]

pub Lands-taken :
    {i : Instance} (j : Instance) (target : ℕ)
    → j.basic_block_instructions ≡ i.basic_block_instructions
    → Lands i (branch j true target)
unfolding branch
Lands-taken j target e = Lands-guarded j target _ e (Lands-refuse_branch j _)

pub Lands-branch : (i : Instance) (c : Bool) (target : ℕ) → Lands i (branch i c target)
unfolding branch
Lands-branch i true target = Lands-guarded i target _ refl (Lands-refuse_branch i _)
Lands-branch i false target = Lands-skip i (Here-refl i)

Lands-jump_to_entry :
    {i : Instance} (j : Instance) (n : Option ℕ)
    → j.basic_block_instructions ≡ i.basic_block_instructions
    → Lands i (jump_to_entry j n)
unfolding jump_to_entry
Lands-jump_to_entry j none e = crashes
Lands-jump_to_entry j (some n) e = Lands-guarded j n _ e stops

Lands-if :
    {i : Instance} (b : Bool) {o p : Outcome} → Lands i o → Lands i p → Lands i (if b then o else p)
Lands-if true h k = h
Lands-if false h k = k

Lands-djump :
    {i : Instance} (j : Instance) (address : ℕ)
    → j.basic_block_instructions ≡ i.basic_block_instructions
    → Lands i (djump j address)
unfolding djump
Lands-djump j address e =
    let a = u32 address in
    Lands-if (a == address_return_to_host) stops (
      Lands-if (a == 0 || ltb (length j.jump_table * 2) a || not (a % 2 == 0)) stops
        (Lands-jump_to_entry j (get_elem? j.jump_table (a / 2 - 1)) e))

pub Lands-djump-Same : {i j : Instance} (address : ℕ) → Same i j → Lands i (djump j address)
Lands-djump-Same {j = j} address s = Lands-djump j address s.basic_block_instructions

pub Lands-taken-Same : {i j : Instance} (target : ℕ) → Same i j → Lands i (branch j true target)
Lands-taken-Same {j = j} target s = Lands-taken j target s.basic_block_instructions

-- What follows a first part goes on from an instance with the same program.
pub Lands-and_then :
    {i : Instance} (o : Outcome) (f : Instance → Outcome)
    → Keeps i o
    → ((j : Instance) → Same i j → Lands i (f j))
    → Lands i (and_then o f)
unfolding and_then
Lands-and_then (running j) f k h = h j (Same-running k)
Lands-and_then (stopped e j) f k h = stops
Lands-and_then crashed f k h = crashes

pub ruleset lands = (
  Lands-skip, Lands-set_and_skip, Lands-store, Lands-load, Lands-branch, Lands-djump-Same,
  Lands-taken-Same, Lands-after, Lands-and_then, Here-refl, Here-set_reg, Here-if, Here-memory,
  stops, keeps,
)
