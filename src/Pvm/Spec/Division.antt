-- ===== src/Pvm/Spec/Division.antt =====
-- The signed divisions and remainders, in terms of the integers that the patterns stand for.
use strawberry.Base.{
  ℕ, zero, suc, ◌+◌, ◌-◌, ◌/◌, ◌%◌, ◌^◌, ◌≤◌, ◌<◌, ◌≡◌, ◌≢◌, refl, ap, arith, Bool, true, false,
  ltb, ◌==◌, ◌&&◌, if◌then◌else◌, ℤ, pos, negsuc, abs, is_negative, with_sign, signed, to_word,
  extend, ltb_signed, shift_right_signed, div_signed, mod_signed, bit_xor-zero, bit_xor-ones, sub_w,
  Bool-cases, ltb→lt, ◌⊎◌, inl, inr,
}
use mathlib.Core.Bool.{xor, true≢false}
use native.Mathlib.Nat.{mod-lt, div-le_self, div-lt_self, mod-le, le_trans, lt_of_le_of_lt}
use strawberry.Pvm.Mutations.Values.{abs_w, smod}
use strawberry.Pvm.Spec.{z_n, z_8_inverse, remainder}
use strawberry.Pvm.Spec.Floor.{quotient}

lt_cases : (a b : ℕ) → (a < b) ⊎ (b ≤ a)
lt_cases a b = elim (Bool-cases (ltb a b)) [
  | inl t ↦ inl (ltb→lt a b t)
  | inr f ↦ inr (ground arith)
]

-- The widened pattern of an integer that 32 bits can hold.
extend-to_word :
    (neg : Bool) (n : ℕ)
    → n ≤ 2 ^ 31
    → (neg ≡ false → n < 2 ^ 31)
    → extend 32 (to_word 32 (with_sign neg n)) ≡ z_8_inverse (with_sign neg n)
unfolding extend to_word
extend-to_word true n h k = ground arith
extend-to_word false n h k = ground (arith, k refl)

abs-z_n : (a : ℕ) → a < 2 ^ 32 → abs (z_n 4 a) ≤ 2 ^ 31
abs-z_n a h = ground arith

pub to_word-z_8_inverse : (v : ℤ) → to_word 64 v ≡ z_8_inverse v
unfolding to_word
to_word-z_8_inverse (pos n) = refl
to_word-z_8_inverse (negsuc n) = refl

-- A quotient of 32-bit numbers is a 32-bit number, but for −2^31 ÷ −1.
quotient_fits :
    (x y : ℤ)
    → abs x ≤ 2 ^ 31
    → x ≢ pos (2 ^ 31)
    → ((x ≡ negsuc (2 ^ 31 - 1)) → (y ≡ negsuc 0) → ⊥)
    → xor (is_negative x) (is_negative y) ≡ false
    → abs x / abs y < 2 ^ 31
unfolding xor
quotient_fits (pos n) (pos m) h k apart sign =
    let below : n ≢ 2 ^ 31 = λ e. k (ap pos e) in omega (arith, below, div-le_self (n + 0) (m + 0))
quotient_fits (pos n) (negsuc m) h k apart sign = absurd (true≢false sign)
quotient_fits (negsuc n) (pos m) h k apart sign = absurd (true≢false sign)
quotient_fits (negsuc n) (negsuc zero) h k apart sign =
    let below : n ≢ 2 ^ 31 - 1 = λ e. apart (ap negsuc e) refl in
    omega (arith, below, div-le_self (0 + suc n) (0 + 1))
quotient_fits (negsuc n) (negsuc (suc m)) h k apart sign =
    omega (arith, div-lt_self {n = 0 + suc n} {k = 0 + suc (suc m)} (omega arith) (omega arith))

z_n-lowest : (a : ℕ) → a < 2 ^ 32 → z_n 4 a ≡ negsuc (2 ^ 31 - 1) → a ≡ 2 ^ 31
z_n-lowest a h e = ground arith

z_n-minus_one : (b : ℕ) → b < 2 ^ 32 → z_n 4 b ≡ negsuc 0 → b ≡ 2 ^ 32 - 1
z_n-minus_one b h e = ground arith

z_n-small : (a : ℕ) → z_n 4 a ≢ pos (2 ^ 31)
z_n-small a e = ground arith

both_true : (a b c d : ℕ) → (a == c && b == d) ≡ false → a ≡ c → b ≡ d → ⊥
both_true a b c d h p q = ground arith

pub div_signed-quotient_32 :
    (a b : ℕ)
    → a < 2 ^ 32
    → b < 2 ^ 32
    → (a == 2 ^ 31 && b == 2 ^ 32 - 1) ≡ false
    → extend 32 (div_signed 32 a b) ≡ z_8_inverse (quotient (z_n 4 a) (z_n 4 b))
unfolding div_signed signed
div_signed-quotient_32 a b ha hb apart =
    let x = z_n 4 a in
    let y = z_n 4 b in
    extend-to_word (xor (is_negative x) (is_negative y)) (abs x / abs y)
      (le_trans (div-le_self (abs x) (abs y)) (abs-z_n a ha))
      (quotient_fits x y (abs-z_n a ha) (z_n-small a)
        (λ p q. both_true a b _ _ apart (z_n-lowest a ha p) (z_n-minus_one b hb q)))

pub div_signed-quotient_64 :
    (a b : ℕ) → div_signed 64 a b ≡ z_8_inverse (quotient (z_n 8 a) (z_n 8 b))
unfolding div_signed signed
div_signed-quotient_64 a b = to_word-z_8_inverse (quotient (z_n 8 a) (z_n 8 b))

mask_32-zero : (x : ℕ) → x < 2 ^ 31 → shift_right_signed 32 x (32 - 1) ≡ 0
unfolding shift_right_signed signed to_word
mask_32-zero x h = ground arith

mask_32-ones : (x : ℕ) → 2 ^ 31 ≤ x → x < 2 ^ 32 → shift_right_signed 32 x (32 - 1) ≡ 2 ^ 32 - 1
unfolding shift_right_signed signed to_word
mask_32-ones x l h = ground arith

-- The absolute value, as a pattern; that of the lowest number is its own pattern.
abs_w-abs_32 : (x : ℕ) → x < 2 ^ 32 → abs_w 32 x ≡ abs (z_n 4 x)
unfolding abs_w
abs_w-abs_32 x h = elim (lt_cases x (2 ^ 31)) [
  | inl small ↦ rw (mask_32-zero x small, bit_xor-zero x) (ground arith)
  | inr large ↦ rw (mask_32-ones x large h, bit_xor-ones 32 x h) (ground arith)
]

mod_signed-mod_32 : (n m : ℕ) → n < 2 ^ 31 → m ≤ 2 ^ 31 → 0 < m → mod_signed 32 n m ≡ n % m
unfolding mod_signed signed to_word
mod_signed-mod_32 n m hn hm positive = elim (lt_cases m (2 ^ 31)) [
  | inl small ↦ ground (arith, mod-lt n positive)
  | inr large ↦ ground (arith, mod-lt n positive)
]

mask_64-zero : (x : ℕ) → x < 2 ^ 63 → shift_right_signed 64 x (64 - 1) ≡ 0
unfolding shift_right_signed signed to_word
mask_64-zero x h = ground arith

mask_64-ones : (x : ℕ) → 2 ^ 63 ≤ x → x < 2 ^ 64 → shift_right_signed 64 x (64 - 1) ≡ 2 ^ 64 - 1
unfolding shift_right_signed signed to_word
mask_64-ones x l h = ground arith

-- The absolute value, as a pattern; that of the lowest number is its own pattern.
abs_w-abs_64 : (x : ℕ) → x < 2 ^ 64 → abs_w 64 x ≡ abs (z_n 8 x)
unfolding abs_w
abs_w-abs_64 x h = elim (lt_cases x (2 ^ 63)) [
  | inl small ↦ rw (mask_64-zero x small, bit_xor-zero x) (ground arith)
  | inr large ↦ rw (mask_64-ones x large h, bit_xor-ones 64 x h) (ground arith)
]

mod_signed-mod_64 : (n m : ℕ) → n < 2 ^ 63 → m ≤ 2 ^ 63 → 0 < m → mod_signed 64 n m ≡ n % m
unfolding mod_signed signed to_word
mod_signed-mod_64 n m hn hm positive = elim (lt_cases m (2 ^ 63)) [
  | inl small ↦ ground (arith, mod-lt n positive)
  | inr large ↦ ground (arith, mod-lt n positive)
]

smod-negative_32 : (r : ℕ) → r < 2 ^ 31 → extend 32 (sub_w 32 0 r) ≡ z_8_inverse (with_sign true r)
unfolding extend
smod-negative_32 zero h = refl
smod-negative_32 (suc r) h = ground arith

smod-positive_32 : (r : ℕ) → r < 2 ^ 31 → extend 32 (r) ≡ z_8_inverse (with_sign false r)
unfolding extend
smod-positive_32 r h = ground arith

abs-z_4_lt : (a : ℕ) → a < 2 ^ 32 → (a == 2 ^ 31) ≡ false → abs (z_n 4 a) < 2 ^ 31
abs-z_4_lt a h k = ground arith

abs-z_4_le : (a : ℕ) → a < 2 ^ 32 → abs (z_n 4 a) ≤ 2 ^ 31
abs-z_4_le a h = ground arith

abs-z_4_positive : (a : ℕ) → a < 2 ^ 32 → (a == 0) ≡ false → 0 < abs (z_n 4 a)
abs-z_4_positive a h k = ground arith

z_4-ltb_signed : (a : ℕ) → ltb_signed 32 a 0 ≡ is_negative (z_n 4 a)
unfolding ltb_signed signed
z_4-ltb_signed a = ground arith

signed_remainder_32 :
    (s : Bool) (r : ℕ)
    → r < 2 ^ 31
    → extend 32 (if s then sub_w 32 0 r else r) ≡ z_8_inverse (with_sign s r)
signed_remainder_32 true r h = smod-negative_32 r h
signed_remainder_32 false r h = smod-positive_32 r h

pub smod-remainder_32 :
    (a b : ℕ)
    → a < 2 ^ 32
    → b < 2 ^ 32
    → (b == 0) ≡ false
    → (a == 2 ^ 31) ≡ false
    → extend 32 (smod 32 a b) ≡ z_8_inverse (remainder (z_n 4 a) (z_n 4 b))
unfolding smod
smod-remainder_32 a b ha hb apart low =
    let x = abs (z_n 4 a) in
    let y = abs (z_n 4 b) in
    let small = abs-z_4_lt a ha low in
    rw
      (
        apart,
        z_4-ltb_signed a,
        abs_w-abs_32 a ha,
        abs_w-abs_32 b hb,
        mod_signed-mod_32 x y small (abs-z_4_le b hb) (abs-z_4_positive b hb apart),
      )
      (signed_remainder_32 (is_negative (z_n 4 a)) (x % y) (lt_of_le_of_lt (mod-le x y) small))

smod-negative_64 : (r : ℕ) → r < 2 ^ 63 → sub_w 64 0 r ≡ z_8_inverse (with_sign true r)
smod-negative_64 zero h = refl
smod-negative_64 (suc r) h = ground arith

smod-positive_64 : (r : ℕ) → r < 2 ^ 63 → r ≡ z_8_inverse (with_sign false r)
smod-positive_64 r h = ground arith

abs-z_8_lt : (a : ℕ) → a < 2 ^ 64 → (a == 2 ^ 63) ≡ false → abs (z_n 8 a) < 2 ^ 63
abs-z_8_lt a h k = ground arith

abs-z_8_le : (a : ℕ) → a < 2 ^ 64 → abs (z_n 8 a) ≤ 2 ^ 63
abs-z_8_le a h = ground arith

abs-z_8_positive : (a : ℕ) → a < 2 ^ 64 → (a == 0) ≡ false → 0 < abs (z_n 8 a)
abs-z_8_positive a h k = ground arith

z_8-ltb_signed : (a : ℕ) → ltb_signed 64 a 0 ≡ is_negative (z_n 8 a)
unfolding ltb_signed signed
z_8-ltb_signed a = ground arith

signed_remainder_64 :
    (s : Bool) (r : ℕ) → r < 2 ^ 63 → (if s then sub_w 64 0 r else r) ≡ z_8_inverse (with_sign s r)
signed_remainder_64 true r h = smod-negative_64 r h
signed_remainder_64 false r h = smod-positive_64 r h

pub smod-remainder_64 :
    (a b : ℕ)
    → a < 2 ^ 64
    → b < 2 ^ 64
    → (b == 0) ≡ false
    → (a == 2 ^ 63) ≡ false
    → smod 64 a b ≡ z_8_inverse (remainder (z_n 8 a) (z_n 8 b))
unfolding smod
smod-remainder_64 a b ha hb apart low =
    let x = abs (z_n 8 a) in
    let y = abs (z_n 8 b) in
    let small = abs-z_8_lt a ha low in
    rw
      (
        apart,
        z_8-ltb_signed a,
        abs_w-abs_64 a ha,
        abs_w-abs_64 b hb,
        mod_signed-mod_64 x y small (abs-z_8_le b hb) (abs-z_8_positive b hb apart),
      )
      (signed_remainder_64 (is_negative (z_n 8 a)) (x % y) (lt_of_le_of_lt (mod-le x y) small))
