-- ===== src/Base/Counts.antt =====
-- The functions of Go's math/bits that the interpreter calls, on unsigned numbers of w bits.
use Prim.Native.Nat.{ℕ, zero, suc, ◌+◌, ◌-◌, ◌*◌, ◌/◌, ◌%◌, ◌^◌, bit_or}
use strawberry.Base.Tests.{◌==◌, if◌then◌else◌}
use strawberry.Base.Word.{shift_left, shift_right}

-- `OnesCount64`, `OnesCount32`
unfoldable pub ones_count : ℕ → ℕ → ℕ
ones_count zero x = 0
ones_count (suc w) x = x % 2 + ones_count w (x / 2)

-- `Len64`, `Len32`: the bits without the leading zeros.
unfoldable pub bit_length : ℕ → ℕ → ℕ
bit_length zero x = 0
bit_length (suc w) x = if x == 0 then 0 else suc (bit_length w (x / 2))

-- `LeadingZeros64`, `LeadingZeros32`
unfoldable pub leading_zeros : ℕ → ℕ → ℕ
unfolding bit_length
leading_zeros w x = w - bit_length w x

-- `TrailingZeros64`, `TrailingZeros32`: w for 0.
unfoldable pub trailing_zeros : ℕ → ℕ → ℕ
trailing_zeros zero x = 0
trailing_zeros (suc w) x = if x % 2 == 0 then suc (trailing_zeros w (x / 2)) else 0

-- `ReverseBytes64` at n = 8: the lowest byte of x becomes the highest.
unfoldable pub reverse_bytes_n : ℕ → ℕ → ℕ
reverse_bytes_n zero x = 0
reverse_bytes_n (suc n) x = x % 256 * 256 ^ n + reverse_bytes_n n (x / 256)

-- `RotateLeft64(x, k)`, `RotateLeft32(x, k)` for a pattern k of an int: `s := uint(k) & (w - 1)`, which
-- is the remainder by w, and `x<<s | x>>(w-s)`.
unfoldable pub rotate_left : ℕ → ℕ → ℕ → ℕ
unfolding shift_left shift_right
rotate_left w x k = let s = k % w in bit_or (shift_left w x s) (shift_right w x (w - s))
