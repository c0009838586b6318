-- ===== src/Pvm/Step/Decode.antt =====
-- internal/polkavm/interpreter/step.go: how each form reads its registers and immediates. `length` is
-- the number of bytes behind the operation code, the result of `Skip`.
use strawberry.Base.{ℕ, ◌+◌, ◌-◌, ◌/◌, ◌%◌, none, some, length, get_elem?, ltb, min, add_w}
use strawberry.Jam.Fixed.{deserialize_trivial_natural}
use strawberry.Pvm.Errors.{Result, ok, crash, panic_if, ◌>>=◌, ◌>>◌}
use strawberry.Pvm.Memory.{slice}
use strawberry.Pvm.Instance.{Instance}
use strawberry.Pvm.Mutations.Values.{sext}

-- `if codeLength < i.instructionCounter+n { return 0, ErrPanicf(…) }`
unfoldable pub check_code : Instance → ℕ → Result (Unit {0})
check_code i n = panic_if (ltb (length i.code) (add_w 64 i.instruction_counter n))

-- `i.code[i.instructionCounter+n]`
unfoldable pub code_at : Instance → ℕ → Result ℕ
code_at i n = elim (get_elem? i.code (add_w 64 i.instruction_counter n)) [
  | none ↦ crash
  | some b ↦ ok b
]

-- `Unmarshal` of `i.code[i.instructionCounter+n : i.instructionCounter+n+l]` into a uint64: no byte
-- leaves the 0 that it holds, and bytes that are missing count as 0.
unfoldable pub code_value : Instance → ℕ → ℕ → Result ℕ
unfolding slice
code_value i n l =
    slice i.code (add_w 64 i.instruction_counter n) (add_w 64 i.instruction_counter (n + l))
    >>= λ bytes. ok (deserialize_trivial_natural 64 bytes)

-- The value that `code_value` reads, with its sign extended.
unfoldable pub immediate : Instance → ℕ → ℕ → Result ℕ
unfolding code_value sext
immediate i n l = code_value i n l >>= λ v. ok (sext v l)

-- `i.instructionCounter + sext(…)`
unfoldable pub target : Instance → ℕ → ℕ → Result ℕ
unfolding immediate
target i n l = immediate i n l >>= λ v. ok (add_w 64 i.instruction_counter v)

-- `min(12, b%16)` and `min(12, b/16)`
abbrev pub low_reg : ℕ → ℕ
low_reg b = min 12 (b % 16)

abbrev pub high_reg : ℕ → ℕ
high_reg b = min 12 (b / 16)

unfoldable pub decode_imm : Instance → ℕ → Result ℕ
unfolding check_code immediate
decode_imm i skip = do let len_x = min 4 skip; check_code i (1 + len_x); immediate i 1 len_x

unfoldable pub decode_reg_imm_ext : Instance → Result (ℕ × ℕ)
unfolding check_code code_at code_value
decode_reg_imm_ext i = do check_code i 10; b ← code_at i 1; x ← code_value i 2 8; ok (low_reg b, x)

unfoldable pub decode_imm_2 : Instance → ℕ → Result (ℕ × ℕ)
unfolding check_code code_at immediate
decode_imm_2 i skip = do
  check_code i 2
  b ← code_at i 1
  let len_x = min 4 (b % 8)
  let len_y = min 4 (skip - len_x - 1)
  check_code i (2 + len_x + len_y)
  x ← immediate i 2 len_x
  y ← immediate i (2 + len_x) len_y
  ok (x, y)

unfoldable pub decode_offset : Instance → ℕ → Result ℕ
unfolding check_code target
decode_offset i skip = do let len_x = min 4 skip; check_code i (1 + len_x); target i 1 len_x

unfoldable pub decode_reg_imm : Instance → ℕ → Result (ℕ × ℕ)
unfolding check_code code_at immediate
decode_reg_imm i skip = do
  let len_x = min 4 (skip - 1)
  check_code i (2 + len_x)
  b ← code_at i 1
  x ← immediate i 2 len_x
  ok (low_reg b, x)

unfoldable pub decode_reg_imm_2 : Instance → ℕ → Result (ℕ × ℕ × ℕ)
unfolding check_code code_at immediate
decode_reg_imm_2 i skip = do
  check_code i 2
  b ← code_at i 1
  let len_x = min 4 (b / 16 % 8)
  let len_y = min 4 (skip - len_x - 1)
  check_code i (2 + len_x + len_y)
  x ← immediate i 2 len_x
  y ← immediate i (2 + len_x) len_y
  ok (low_reg b, x, y)

unfoldable pub decode_reg_imm_offset : Instance → ℕ → Result (ℕ × ℕ × ℕ)
unfolding check_code code_at immediate target
decode_reg_imm_offset i skip = do
  check_code i 2
  b ← code_at i 1
  let len_x = min 4 (b / 16 % 8)
  let len_y = min 4 (skip - len_x - 1)
  check_code i (2 + len_x + len_y)
  x ← immediate i 2 len_x
  y ← target i (2 + len_x) len_y
  ok (low_reg b, x, y)

unfoldable pub decode_reg_reg : Instance → Result (ℕ × ℕ)
unfolding check_code code_at
decode_reg_reg i = do check_code i 1; b ← code_at i 1; ok (low_reg b, high_reg b)

unfoldable pub decode_reg_2_imm : Instance → ℕ → Result (ℕ × ℕ × ℕ)
unfolding check_code code_at immediate
decode_reg_2_imm i skip = do
  let len_x = min 4 (skip - 1)
  check_code i (2 + len_x)
  b ← code_at i 1
  x ← immediate i 2 len_x
  ok (low_reg b, high_reg b, x)

unfoldable pub decode_reg_2_offset : Instance → ℕ → Result (ℕ × ℕ × ℕ)
unfolding check_code code_at target
decode_reg_2_offset i skip = do
  let len_x = min 4 (skip - 1)
  check_code i (2 + len_x)
  b ← code_at i 1
  x ← target i 2 len_x
  ok (low_reg b, high_reg b, x)

-- The first immediate is taken as it is read, with no sign.
unfoldable pub decode_reg_2_imm_2 : Instance → ℕ → Result (ℕ × ℕ × ℕ × ℕ)
unfolding check_code code_at code_value immediate
decode_reg_2_imm_2 i skip = do
  check_code i 3
  b ← code_at i 1
  c ← code_at i 2
  let len_x = min 4 (c % 8)
  let len_y = min 4 (skip - len_x - 2)
  check_code i (3 + len_x + len_y)
  x ← code_value i 3 len_x
  y ← immediate i (3 + len_x) len_y
  ok (low_reg b, high_reg b, x, y)

unfoldable pub decode_reg_3 : Instance → Result (ℕ × ℕ × ℕ)
unfolding check_code code_at
decode_reg_3 i = do
  check_code i 2
  b ← code_at i 1
  d ← code_at i 2
  ok (min 12 d, low_reg b, high_reg b)
