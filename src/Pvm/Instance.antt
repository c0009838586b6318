-- ===== src/Pvm/Instance.antt =====
-- internal/polkavm/interpreter/instance.go: the state of the machine, and how it is changed.
use strawberry.Base.{
  ℕ, ◌+◌, ◌-◌, ◌*◌, ◌/◌, ◌%◌, ◌^◌, Bool, false, ◌||◌, not, Option, none, some, List, [], ◌∷◌,
  length, drop, get_or, get_elem?, set, ltb, ◌==◌, if◌then◌else◌, u32, add_w, sub_w, ltb_signed,
}
use strawberry.Jam.Fixed.{serialize_trivial_natural, deserialize_trivial_natural}
use strawberry.Pvm.Errors.{Error, panic, out_of_gas, halt, Result, ok, err, crash}
use strawberry.Pvm.Memory.{Memory, read, write}

-- Registers are the list of their 13 values. `basic_block_instructions` lists the keys of the map.
-- `gas_remaining` is an int64, as its bit pattern.
pub record Instance : Type 0 where
  pub memory : Memory
  pub regs : List ℕ
  pub instruction_counter : ℕ
  pub gas_remaining : ℕ
  pub code : List ℕ
  pub jump_table : List ℕ
  pub bitmask : List Bool
  pub basic_block_instructions : List ℕ

-- What a method leaves: the instance and `nil`, or the instance and an error; or the program ended in
-- a run-time panic.
pub data Outcome : Type 0 where
  running : Instance → Outcome
  stopped : Error → Instance → Outcome
  crashed : Outcome

-- `if err != nil { return err }` behind a call that leaves the instance as it is.
abbrev pub after {ℓ} : {A : Type ℓ} → Result A → Instance → (A → Outcome) → Outcome
after (ok a) i f = f a
after (err e) i f = stopped e i
after crash i f = crashed

-- What follows a call that has returned no error.
unfoldable pub and_then : Outcome → (Instance → Outcome) → Outcome
and_then (running i) f = f i
and_then (stopped e i) f = stopped e i
and_then crashed f = crashed

-- `i.regs[r]`; every register of a decoded instruction is below 13.
abbrev pub reg : Instance → ℕ → ℕ
reg i r = get_or i.regs r 0

abbrev pub set_reg : Instance → ℕ → ℕ → Instance
set_reg i r value = record i { regs = set i.regs r value }

abbrev pub bitmask_max : ℕ
bitmask_max = 24

-- The loop of `Skip`, over what is left of the bitmask, with its index.
unfoldable pub skip_loop : ℕ → List Bool → ℕ
skip_loop n [] = 0
skip_loop n (b ∷ bs) =
    let rest = skip_loop (n + 1) bs in
    if ltb bitmask_max n then bitmask_max else if b then n else rest

-- program.go, `Skip`; `bitmask[offset+1:]` may be out of range.
unfoldable pub skip_length : ℕ → List Bool → Option ℕ
unfolding skip_loop
skip_length offset bitmask =
    let start = add_w 64 offset 1 in
    if ltb (length bitmask) start then none else some (skip_loop 0 (drop start bitmask))

-- `i.instructionCounter += 1 + n`
unfoldable pub advance : Instance → Option ℕ → Outcome
advance i none = crashed
advance i (some n) =
    running (record i { instruction_counter = add_w 64 i.instruction_counter (add_w 64 1 n) })

unfoldable pub skip : Instance → Outcome
unfolding skip_length advance
skip i = advance i (skip_length i.instruction_counter i.bitmask)

unfoldable pub deduct_gas : Instance → ℕ → Outcome
unfolding ltb_signed
deduct_gas i cost =
    if ltb_signed 64 i.gas_remaining cost
    then stopped out_of_gas i
    else running (record i { gas_remaining = sub_w 64 i.gas_remaining cost })

-- `load(address, n, &v)` for an unsigned v of n bytes.
unfoldable pub load : Instance → ℕ → ℕ → (ℕ → Outcome) → Outcome
unfolding read
load i address n f =
    after (read i.memory address n) i (λ bytes. f (deserialize_trivial_natural (8 * n) bytes))

-- `store(address, v)` for an unsigned v of n bytes.
unfoldable pub store : Instance → ℕ → ℕ → ℕ → Outcome
unfolding write skip
store i address n v =
    after (write i.memory address (serialize_trivial_natural v n)) i
      (λ m. skip (record i { memory = m }))

unfoldable pub set_and_skip : Instance → ℕ → ℕ → Outcome
unfolding skip
set_and_skip i dst value = skip (set_reg i dst value)

-- `_, ok := i.basicBlockInstructions[target]`
unfoldable pub has_key : List ℕ → ℕ → Bool
has_key [] target = false
has_key (b ∷ bs) target = b == target || has_key bs target

abbrev pub is_block : Instance → ℕ → Bool
is_block i target = has_key i.basic_block_instructions target

-- The refusal of a branch: its message reads `i.code[target]`, which may be out of range.
unfoldable pub refuse_branch : Instance → Option ℕ → Outcome
refuse_branch i none = crashed
refuse_branch i (some opcode) = stopped panic i

unfoldable pub branch : Instance → Bool → ℕ → Outcome
unfolding skip has_key refuse_branch
branch i condition target =
    if condition
    then (if is_block i target
        then running (record i { instruction_counter = target })
        else refuse_branch i (get_elem? i.code target))
    else skip i

abbrev pub address_return_to_host : ℕ
address_return_to_host = 2 ^ 32 - 2 ^ 16

-- The end of `djump`, with `i.jumpTable[(address/2)-1]`.
unfoldable pub jump_to_entry : Instance → Option ℕ → Outcome
unfolding has_key
jump_to_entry i none = crashed
jump_to_entry i (some offset) =
    if is_block i offset
    then running (record i { instruction_counter = offset })
    else stopped panic i

unfoldable pub djump : Instance → ℕ → Outcome
unfolding jump_to_entry
djump i address0 =
    let address = u32 address0 in
    if address == address_return_to_host
    then stopped halt i
    else if address == 0 || ltb (length i.jump_table * 2) address || not (address % 2 == 0)
    then stopped panic i
    else jump_to_entry i (get_elem? i.jump_table (address / 2 - 1))
