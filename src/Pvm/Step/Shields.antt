-- ===== src/Pvm/Step/Shields.antt =====
-- What an instruction may do to the memory.
use strawberry.Base.{
  ℕ, ◌≡◌, refl, Bool, true, false, Option, none, some, if◌then◌else◌, not, ◌||◌, ◌==◌, ltb, length,
  get_elem?, u32, ◌*◌, ◌/◌, ◌%◌, ◌-◌,
}
use strawberry.Pvm.Errors.{Error, Result, ok, err, crash}
use strawberry.Pvm.Memory.{Memory, write}
use strawberry.Pvm.Memory
use strawberry.Pvm.Memory.Protects.{
  Protects, Protects-refl, Protects-trans, Protects-write, Protects-sbrk,
}
use strawberry.Pvm.Instance.{
  Instance, Outcome, running, stopped, crashed, after, and_then, advance, skip, set_reg, reg,
  set_and_skip, load, store, is_block, refuse_branch, branch, address_return_to_host, jump_to_entry,
  djump,
}
use strawberry.Pvm.Mutations.Stores.{sbrk}
use strawberry.Jam.Fixed.{serialize_trivial_natural}

-- From i to j the memory has changed within what `Protects` allows.
pub record Guarded (i j : Instance) : Type 0 where
  pub memory : Protects i.memory j.memory

pub data Shields (i : Instance) : Outcome → Type 0 where
  runs : {j : Instance} → Guarded i j → Shields i (running j)
  stops : {e : Error} {j : Instance} → Guarded i j → Shields i (stopped e j)
  crashes : Shields i crashed

pub Guarded-refl : (i : Instance) → Guarded i i
Guarded-refl i = record { memory = Protects-refl i.memory }

pub Guarded-trans : {i j k : Instance} → Guarded i j → Guarded j k → Guarded i k
Guarded-trans p q = record { memory = Protects-trans p.memory q.memory }

pub Guarded-set_reg :
    {i : Instance} (j : Instance) (r v : ℕ) → Guarded i j → Guarded i (set_reg j r v)
Guarded-set_reg j r v g = record { memory = g.memory }

pub Guarded-if : (i j : Instance) (b : Bool) → Guarded i j → Guarded i (if b then j else i)
Guarded-if i j true g = g
Guarded-if i j false g = Guarded-refl i

pub Shields-after {ℓ} :
    {A : Type ℓ} (r : Result A) (i : Instance) (f : A → Outcome)
    → ((a : A) → Shields i (f a))
    → Shields i (after r i f)
Shields-after (ok a) i f h = h a
Shields-after (err e) i f h = stops (Guarded-refl i)
Shields-after crash i f h = crashes

-- What follows a call may depend on the call's result.
Shields-after_eq {ℓ} :
    {A : Type ℓ} (r : Result A) (i : Instance) (f : A → Outcome)
    → ((a : A) → r ≡ ok a → Shields i (f a))
    → Shields i (after r i f)
Shields-after_eq (ok a) i f h = h a refl
Shields-after_eq (err e) i f h = stops (Guarded-refl i)
Shields-after_eq crash i f h = crashes

Shields-advance :
    {i : Instance} (j : Instance) (n : Option ℕ) → Guarded i j → Shields i (advance j n)
unfolding advance
Shields-advance j none g = crashes
Shields-advance j (some n) g = runs (record { memory = g.memory })

pub Shields-skip : {i : Instance} (j : Instance) → Guarded i j → Shields i (skip j)
unfolding skip
Shields-skip j g = Shields-advance j _ g

pub Shields-set_and_skip :
    {i : Instance} (j : Instance) (r v : ℕ) → Guarded i j → Shields i (set_and_skip j r v)
unfolding set_and_skip
Shields-set_and_skip j r v g = Shields-skip (set_reg j r v) (Guarded-set_reg j r v g)

pub Shields-store : (i : Instance) (address n v : ℕ) → Shields i (store i address n v)
unfolding store
Shields-store i address n v =
    Shields-after_eq (write i.memory address (serialize_trivial_natural v n)) i _ (λ m e.
      Shields-skip (record i { memory = m })
        (record { memory = Protects-write i.memory address _ e }))

pub Shields-load :
    (i : Instance) (address n : ℕ) (f : ℕ → Outcome)
    → ((v : ℕ) → Shields i (f v))
    → Shields i (load i address n f)
unfolding load
Shields-load i address n f h = Shields-after _ i _ (λ bytes. h _)

pub Shields-sbrk : (i : Instance) (dst size_reg : ℕ) → Shields i (sbrk i dst size_reg)
unfolding sbrk
Shields-sbrk i dst size_reg =
    Shields-after_eq (Memory.sbrk i.memory (reg i size_reg)) i _ (λ (top, m) e.
      Shields-set_and_skip (record i { memory = m }) dst top
        (record { memory = Protects-sbrk i.memory m (reg i size_reg) top e }))

Shields-counter :
    {i : Instance} (j : Instance) (n : ℕ)
    → Guarded i j
    → Shields i (running (record j { instruction_counter = n }))
Shields-counter j n g = runs (record { memory = g.memory })

Shields-refuse_branch :
    {i : Instance} (j : Instance) (n : Option ℕ) → Guarded i j → Shields i (refuse_branch j n)
unfolding refuse_branch
Shields-refuse_branch j none g = crashes
Shields-refuse_branch j (some n) g = stops g

Shields-if :
    {i : Instance} (b : Bool) {o p : Outcome}
    → Shields i o
    → Shields i p
    → Shields i (if b then o else p)
Shields-if true h k = h
Shields-if false h k = k

pub Shields-branch :
    {i : Instance} (j : Instance) (c : Bool) (target : ℕ)
    → Guarded i j
    → Shields i (branch j c target)
unfolding branch
Shields-branch j c target g =
    Shields-if c
      (Shields-if (is_block j target) (Shields-counter j target g) (Shields-refuse_branch j _ g))
      (Shields-skip j g)

Shields-jump_to_entry :
    {i : Instance} (j : Instance) (n : Option ℕ) → Guarded i j → Shields i (jump_to_entry j n)
unfolding jump_to_entry
Shields-jump_to_entry j none g = crashes
Shields-jump_to_entry j (some n) g = Shields-if (is_block j n) (Shields-counter j n g) (stops g)

pub Shields-djump :
    {i : Instance} (j : Instance) (address : ℕ) → Guarded i j → Shields i (djump j address)
unfolding djump
Shields-djump j address g =
    let a = u32 address in
    Shields-if (a == address_return_to_host) (stops g) (
      Shields-if (a == 0 || ltb (length j.jump_table * 2) a || not (a % 2 == 0)) (stops g)
        (Shields-jump_to_entry j (get_elem? j.jump_table (a / 2 - 1)) g))

pub Shields-and_then :
    {i : Instance} (o : Outcome) (f : Instance → Outcome)
    → Shields i o
    → ((j : Instance) → Guarded i j → Shields i (f j))
    → Shields i (and_then o f)
unfolding and_then
Shields-and_then (running j) f (runs g) h = h j g
Shields-and_then (stopped e j) f (stops g) h = stops g
Shields-and_then crashed f k h = crashes

pub ruleset shields = (
  Shields-skip, Shields-set_and_skip, Shields-store, Shields-load, Shields-branch, Shields-djump,
  Shields-after, Shields-sbrk, Shields-and_then, Guarded-refl, Guarded-set_reg, Guarded-if, runs,
  stops,
)
