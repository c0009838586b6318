-- ===== src/Pvm/Mutations/Values.antt =====
-- internal/polkavm/interpreter: the helpers on values, and the constants of Go's math.
use strawberry.Base.{
  ℕ, ◌-◌, ◌^◌, Bool, true, false, ◌==◌, if◌then◌else◌, u8, u16, u32, sub_w, extend, ltb_signed,
  shift_left, shift_right_signed, mod_signed, bit_xor,
}

-- step.go, `sext`. The source panics at any other length; every call has a length below 5, or 8.
unfoldable pub sext : ℕ → ℕ → ℕ
unfolding extend shift_left shift_right_signed
sext value length =
    if length == 1
    then extend 8 (u8 value)
    else if length == 2
    then extend 16 (u16 value)
    else if length == 3
    then extend 32 (shift_right_signed 32 (u32 (shift_left 64 value 8)) 8)
    else if length == 4
    then extend 32 (u32 value)
    else if length == 8
    then value
    else 0

abbrev pub bool_to_uint64 : Bool → ℕ
bool_to_uint64 true = 1
bool_to_uint64 false = 0

abbrev pub max_uint64 : ℕ
max_uint64 = 2 ^ 64 - 1

-- `math.MinInt32`, `math.MinInt64` and -1, as patterns.
abbrev pub min_int32 : ℕ
min_int32 = 2 ^ 31

abbrev pub min_int64 : ℕ
min_int64 = 2 ^ 63

abbrev pub minus_one : ℕ → ℕ
minus_one w = 2 ^ w - 1

-- `^v` of a uint64
abbrev pub complement : ℕ → ℕ
complement v = bit_xor v (2 ^ 64 - 1)

-- `abs64` at w = 64, `abs32` at w = 32
unfoldable pub abs_w : ℕ → ℕ → ℕ
unfolding shift_right_signed
abs_w w v = let mask = shift_right_signed w v (w - 1) in sub_w w (bit_xor v mask) mask

-- `smod64` at w = 64, `smod32` at w = 32
unfoldable pub smod : ℕ → ℕ → ℕ → ℕ
unfolding abs_w mod_signed ltb_signed
smod w a b =
    if b == 0
    then a
    else if ltb_signed w a 0
    then sub_w w 0 (mod_signed w (abs_w w a) (abs_w w b))
    else mod_signed w (abs_w w a) (abs_w w b)
