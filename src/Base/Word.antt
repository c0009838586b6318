-- ===== src/Base/Word.antt =====
-- Go's fixed-width integers. A uintN is a number below 2 ^ N, and an intN is the bit pattern that it
-- shares with its uintN, so that a conversion between the two of one width is nothing.
use Prim.Native.Nat.{ℕ, zero, suc, ◌+◌, ◌-◌, ◌*◌, ◌/◌, ◌%◌, ◌^◌, bit_xor}
use mathlib.Core.Bool.{Bool, true, false}
use strawberry.Base.Tests.{ltb, if◌then◌else◌}
use strawberry.Base.Integers.{ℤ, pos, negsuc, ltb_ℤ, abs, is_negative, with_sign, floor_div}

-- The conversions uint8(x), …, uint64(x) of a wider unsigned value.
abbrev pub u8 : ℕ → ℕ
u8 x = x % 2 ^ 8

abbrev pub u16 : ℕ → ℕ
u16 x = x % 2 ^ 16

abbrev pub u32 : ℕ → ℕ
u32 x = x % 2 ^ 32

abbrev pub u64 : ℕ → ℕ
u64 x = x % 2 ^ 64

abbrev pub IsU64 : ℕ → Type 0
IsU64 x = Prim.Native.Nat.◌<◌ x (2 ^ 64)

-- `+`, `-` and `*` at the width w wrap around.
abbrev pub add_w : ℕ → ℕ → ℕ → ℕ
add_w w a b = (a + b) % 2 ^ w

abbrev pub sub_w : ℕ → ℕ → ℕ → ℕ
sub_w w a b = (a + 2 ^ w - b) % 2 ^ w

abbrev pub mul_w : ℕ → ℕ → ℕ → ℕ
mul_w w a b = (a * b) % 2 ^ w

-- The integer that a pattern of w bits stands for, and the pattern of an integer.
unfoldable pub signed : ℕ → ℕ → ℤ
signed w x = if ltb x (2 ^ (w - 1)) then pos x else negsuc (2 ^ w - x - 1)

unfoldable pub to_word : ℕ → ℤ → ℕ
to_word w (pos n) = n % 2 ^ w
to_word w (negsuc n) = 2 ^ w - 1 - n % 2 ^ w

-- `uint64(x)` of an intW: the sign is extended.
unfoldable pub extend : ℕ → ℕ → ℕ
extend w x = if ltb x (2 ^ (w - 1)) then x else x + 2 ^ 64 - 2 ^ w

-- `<` on intW.
unfoldable pub ltb_signed : ℕ → ℕ → ℕ → Bool
unfolding signed
ltb_signed w a b = ltb_ℤ (signed w a) (signed w b)

-- `x << n` and `x >> n` of a uintW: nothing is left from n = w on.
unfoldable pub shift_left : ℕ → ℕ → ℕ → ℕ
shift_left w x n = if ltb n w then (x * 2 ^ n) % 2 ^ w else 0

unfoldable pub shift_right : ℕ → ℕ → ℕ → ℕ
shift_right w x n = if ltb n w then x / 2 ^ n else 0

-- `x >> n` of an intW: from n = w on only the sign is left.
unfoldable pub shift_right_signed : ℕ → ℕ → ℕ → ℕ
unfolding signed to_word
shift_right_signed w x n = to_word w (floor_div (signed w x) (if ltb n w then 2 ^ n else 2 ^ w))

-- `a / b` and `a % b` of an intW for b ≢ 0: both truncate toward zero.
unfoldable pub div_signed : ℕ → ℕ → ℕ → ℕ
unfolding signed to_word
div_signed w a b =
    let x = signed w a in
    let y = signed w b in
    to_word w (with_sign (mathlib.Core.Bool.xor (is_negative x) (is_negative y)) (abs x / abs y))

unfoldable pub mod_signed : ℕ → ℕ → ℕ → ℕ
unfolding signed to_word
mod_signed w a b =
    let x = signed w a in to_word w (with_sign (is_negative x) (abs x % abs (signed w b)))
