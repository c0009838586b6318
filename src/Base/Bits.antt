-- ===== src/Base/Bits.antt =====
-- The bit operations as arithmetic. Each is a recursion on binary digits, given with fuel by the
-- prelude; the fuel is dropped first, and the laws follow for every width by induction on it.
use Prim.Native.Nat.{
  ℕ, zero, suc, ◌+◌, ◌-◌, ◌*◌, ◌/◌, ◌%◌, ◌^◌, ◌≤◌, ◌<◌, min, max, digits, bitwise, bit_and, bit_or,
  bit_xor, differ, bit_and-bitwise, bit_or-bitwise, bit_xor-bitwise,
}
use mathlib.Core.Path.{◌≡◌, refl, sym, ap, ◌∙◌}
use native.Mathlib.Nat.{
  le_refl, pow-suc, one-le-pow, div-add-mod, mod-lt, mod-eq_of_lt, add-mul-mod_self_right,
}
use native.Mathlib.Omega.{arith}

module _ (z : ℕ → ℕ) (f : ℕ → ℕ → ℕ) where
  digits_enough : (n m a b : ℕ) → a ≤ n → a ≤ m → digits z f n a b ≡ digits z f m a b
  digits_enough zero zero a b p q = refl
  digits_enough zero (suc m) zero b p q = refl
  digits_enough zero (suc m) (suc a) b p q = absurd (omega arith)
  digits_enough (suc n) zero zero b p q = refl
  digits_enough (suc n) zero (suc a) b p q = absurd (omega arith)
  digits_enough (suc n) (suc m) zero b p q = refl
  digits_enough (suc n) (suc m) (suc a) b p q =
      ap (λ t. t * 2 + f (suc a % 2) (b % 2))
        (digits_enough n m (suc a / 2) (b / 2) (omega arith) (omega arith))

  bitwise_digit :
      (a b : ℕ)
      → bitwise z f (suc a) b ≡ bitwise z f (suc a / 2) (b / 2) * 2 + f (suc a % 2) (b % 2)
  bitwise_digit a b =
      omega (arith, digits_enough a (suc a / 2) (suc a / 2) (b / 2) (omega arith) (le_refl _))

bit_or_digit : (a b : ℕ) → bit_or a b ≡ bit_or (a / 2) (b / 2) * 2 + max (a % 2) (b % 2)
bit_or_digit zero b = simp bit_or-bitwise (omega arith)
bit_or_digit (suc a) b = simp bit_or-bitwise (bitwise_digit (λ y. y) max a b)

bit_and_digit : (a b : ℕ) → bit_and a b ≡ bit_and (a / 2) (b / 2) * 2 + min (a % 2) (b % 2)
bit_and_digit zero b = simp bit_and-bitwise (omega arith)
bit_and_digit (suc a) b = simp bit_and-bitwise (bitwise_digit (λ y. 0) min a b)

bit_xor_digit : (a b : ℕ) → bit_xor a b ≡ bit_xor (a / 2) (b / 2) * 2 + differ (a % 2) (b % 2)
bit_xor_digit zero b = simp bit_xor-bitwise (ground arith)
bit_xor_digit (suc a) b = simp bit_xor-bitwise (bitwise_digit (λ y. y) differ a b)

differ_lem : (x y : ℕ) → x < 2 → y < 2 → differ x y ≡ (x + y) % 2
differ_lem zero y p q = omega arith
differ_lem (suc zero) zero p q = refl
differ_lem (suc zero) (suc zero) p q = refl
differ_lem (suc zero) (suc (suc y)) p q = absurd (omega arith)
differ_lem (suc (suc x)) y p q = absurd (omega arith)

xor_digit : (a b : ℕ) → bit_xor a b ≡ bit_xor (a / 2) (b / 2) * 2 + (a + b) % 2
xor_digit a b = omega (arith, bit_xor_digit a b, differ_lem (a % 2) (b % 2))

-- The halves of a mask of ones.
ones_half : (k : ℕ) → ((2 ^ suc k - 1) / 2 ≡ 2 ^ k - 1) × ((2 ^ suc k - 1) % 2 ≡ 1) × (1 ≤ 2 ^ k)
ones_half k = omega (arith, pow-suc 2 k, one-le-pow k 2 (omega arith))

bit_and-zero_le : (n a : ℕ) → a ≤ n → bit_and a 0 ≡ 0
bit_and-zero_le n zero h = simp bit_and-bitwise
bit_and-zero_le zero (suc a) h = absurd (omega arith)
bit_and-zero_le (suc n) (suc a) h =
    omega (arith, bit_and_digit (suc a) 0, bit_and-zero_le n (suc a / 2) (omega arith))

bit_or-zero_le : (n a : ℕ) → a ≤ n → bit_or a 0 ≡ a
bit_or-zero_le n zero h = simp bit_or-bitwise
bit_or-zero_le zero (suc a) h = absurd (omega arith)
bit_or-zero_le (suc n) (suc a) h =
    omega (arith, bit_or_digit (suc a) 0, bit_or-zero_le n (suc a / 2) (omega arith))

bit_xor-zero_le : (n a : ℕ) → a ≤ n → bit_xor a 0 ≡ a
bit_xor-zero_le n zero h = simp bit_xor-bitwise
bit_xor-zero_le zero (suc a) h = absurd (omega arith)
bit_xor-zero_le (suc n) (suc a) h =
    omega (arith, xor_digit (suc a) 0, bit_xor-zero_le n (suc a / 2) (omega arith))

pub bit_xor-zero : (a : ℕ) → bit_xor a 0 ≡ a
bit_xor-zero a = bit_xor-zero_le a a (le_refl a)

mod_digit : (k a : ℕ) → a / 2 % 2 ^ k * 2 + min (a % 2) 1 ≡ a % 2 ^ suc k
mod_digit k a =
    let low : ℕ = a / 2 % 2 ^ k * 2 + min (a % 2) 1 in
    let high : ℕ = a / 2 / 2 ^ k in
    let split : a ≡ low + high * 2 ^ suc k =
      omega (arith, div-add-mod (a / 2) (2 ^ k), ap (λ (t : ℕ). high * t) (pow-suc 2 k)) in
    let fits : low < 2 ^ suc k = omega (arith, pow-suc 2 k, mod-lt (a / 2) (ones_half k).2) in
    sym (
      ap (λ t. t % 2 ^ suc k) split
      ∙ add-mul-mod_self_right low high (2 ^ suc k)
      ∙ mod-eq_of_lt fits)

-- A mask of k ones keeps the remainder.
pub bit_and-ones : (k a : ℕ) → bit_and a (2 ^ k - 1) ≡ a % 2 ^ k
bit_and-ones zero a = omega (arith, bit_and-zero_le a a (le_refl a))
bit_and-ones (suc k) a =
    let (half, odd, positive) = ones_half k in
    let digit = bit_and_digit a (2 ^ suc k - 1) in
    rw (digit, half, odd, bit_and-ones k (a / 2)) (mod_digit k a)

-- Two parts that share no bit.
pub bit_or-disjoint : (k r q : ℕ) → r < 2 ^ k → bit_or r (q * 2 ^ k) ≡ r + q * 2 ^ k
bit_or-disjoint zero zero q h = simp bit_or-bitwise (omega arith)
bit_or-disjoint zero (suc r) q h = absurd (omega arith)
bit_or-disjoint (suc k) r q h = ground (
  arith,
  bit_or_digit r (q * 2 ^ suc k),
  pow-suc 2 k,
  ap (λ (t : ℕ). q * t) (pow-suc 2 k),
  bit_or-disjoint k (r / 2) q,
)

pub bit_xor-ones : (k a : ℕ) → a < 2 ^ k → bit_xor a (2 ^ k - 1) ≡ 2 ^ k - 1 - a
bit_xor-ones zero zero h = simp bit_xor-bitwise
bit_xor-ones zero (suc a) h = absurd (omega arith)
bit_xor-ones (suc k) a h =
    let (half, odd, positive) = ones_half k in
    rw (xor_digit a (2 ^ suc k - 1), half, bit_xor-ones k (a / 2) (omega (arith, pow-suc 2 k)))
      (omega (arith, pow-suc 2 k, positive))

pub bit_and-lt : (k a b : ℕ) → a < 2 ^ k → bit_and a b < 2 ^ k
bit_and-lt zero zero b h = simp bit_and-bitwise (omega arith)
bit_and-lt zero (suc a) b h = absurd (omega arith)
bit_and-lt (suc k) a b h =
    ground (arith, bit_and_digit a b, pow-suc 2 k, bit_and-lt k (a / 2) (b / 2))

pub bit_or-lt : (k a b : ℕ) → a < 2 ^ k → b < 2 ^ k → bit_or a b < 2 ^ k
bit_or-lt zero zero b h g = simp bit_or-bitwise g
bit_or-lt zero (suc a) b h g = absurd (omega arith)
bit_or-lt (suc k) a b h g =
    ground (arith, bit_or_digit a b, pow-suc 2 k, bit_or-lt k (a / 2) (b / 2))

pub bit_xor-lt : (k a b : ℕ) → a < 2 ^ k → b < 2 ^ k → bit_xor a b < 2 ^ k
bit_xor-lt zero zero b h g = simp bit_xor-bitwise g
bit_xor-lt zero (suc a) b h g = absurd (omega arith)
bit_xor-lt (suc k) a b h g =
    ground (arith, xor_digit a b, pow-suc 2 k, bit_xor-lt k (a / 2) (b / 2))

-- The same two parts, the upper one first.
pub bit_or-disjoint_high : (k r q : ℕ) → r < 2 ^ k → bit_or (q * 2 ^ k) r ≡ q * 2 ^ k + r
bit_or-disjoint_high zero zero q h = omega (arith, bit_or-zero_le (q * 1) (q * 1) (le_refl _))
bit_or-disjoint_high zero (suc r) q h = absurd (omega arith)
bit_or-disjoint_high (suc k) r q h = ground (
  arith,
  bit_or_digit (q * 2 ^ suc k) r,
  pow-suc 2 k,
  ap (λ (t : ℕ). q * t) (pow-suc 2 k),
  bit_or-disjoint_high k (r / 2) q,
)
