-- ===== src/Pvm/Spec/Signs.antt =====
-- The values of the signed instructions of three registers, over plain numbers: the code's and the formulas'.
use strawberry.Base.{
  ℕ, ◌-◌, ◌*◌, ◌^◌, ◌<◌, ◌≡◌, refl, arith, Bool, true, false, ltb, ◌==◌, ◌&&◌, if◌then◌else◌, inl,
  inr, Bool-cases, ap, ◌∙◌, sym, IsU64, u32, extend, div_signed, floor_div, ltb_signed, ltb_ℤ,
  signed, to_word, pos, ◌*ℤ◌, bit_and, bit_or, bit_xor, bit_xor-lt, ℤ, negsuc, abs,
}
use native.Mathlib.Nat.{mod-one, mod-eq_of_lt, div-lt_iff_lt-mul, mul-le-mul}
use strawberry.Pvm.Opcode.{Opcode}
use strawberry.Pvm.Mutations.Values.{
  smod, max_uint64, min_int32, min_int64, minus_one, complement, bool_to_uint64,
}
use strawberry.Pvm.Spec.{x_n, z_n, z_8_inverse, truth, remainder, no_negative_fraction, spec_reg_3}
use strawberry.Pvm.Spec.Floor.{quotient-floor_quotient}
use strawberry.Pvm.Spec.Signed.{extend-z_n, complement-sub, ltb_signed-z_n}
use strawberry.Pvm.Spec.Division.{
  div_signed-quotient_32, div_signed-quotient_64, smod-remainder_32, smod-remainder_64,
  to_word-z_8_inverse,
}

-- A choice between results is made of the results.
choice :
    {A : Type 0} (p q : Bool) {x x' y y' z z' : A}
    → x ≡ x'
    → (p ≡ false → y ≡ y')
    → (p ≡ false → q ≡ false → z ≡ z')
    → (if p then x else if q then y else z) ≡ (if p then x' else if q then y' else z')
choice true q e f g = e
choice false true e f g = f refl
choice false false e f g = g refl refl

last_true : (p : Bool) (b c : ℕ) → (p && b == c) ≡ true → b ≡ c
last_true true b c h = ground arith
last_true false b c h = ground arith

truth-bool : (t : Bool) → bool_to_uint64 t ≡ truth t
truth-bool true = refl
truth-bool false = refl

remainder-minus_one : (x : ℤ) → z_8_inverse (remainder x (z_n 8 (2 ^ 64 - 1))) ≡ 0
remainder-minus_one (pos n) = rw (mod-one (abs (pos n))) refl
remainder-minus_one (negsuc n) = rw (mod-one (abs (negsuc n))) refl

-- A sign-extended 32-bit value stands for the integer of its low half.
z_8-x_4 : (v : ℕ) → v < 2 ^ 32 → z_n 8 (x_n 4 v) ≡ signed 32 v
unfolding signed
z_8-x_4 v h = ground arith

pos-product : (a b : ℕ) → pos a *ℤ pos b ≡ pos (a * b)
pos-product a b = ground arith

module _ (a b d : ℕ) where
  pub div_signed_32 :
      ((u32 b == 0) ≡ false → no_negative_fraction (z_n 4 (u32 a)) (z_n 4 (u32 b)) ≡ true)
      → (if u32 b == 0
          then max_uint64
          else if u32 a == min_int32 && u32 b == minus_one 32
          then extend 32 (u32 a)
          else extend 32 (div_signed 32 (u32 a) (u32 b)))
        ≡ spec_reg_3 Opcode.div_signed_32 a b d
  unfolding spec_reg_3
  div_signed_32 h =
      choice (u32 b == 0) (u32 a == min_int32 && u32 b == minus_one 32) refl
        (λ p. extend-z_n (u32 a) (omega arith))
        (λ p q.
          div_signed-quotient_32 (u32 a) (u32 b) (omega arith) (omega arith) q
          ∙ ap z_8_inverse (quotient-floor_quotient (z_n 4 (u32 a)) (z_n 4 (u32 b)) (h p)))

  pub rem_signed_32 :
      (u32 a == 2 ^ 31) ≡ false
      → (if u32 b == 0
          then extend 32 (u32 a)
          else if u32 a == min_int32 && u32 b == minus_one 32
          then 0
          else extend 32 (smod 32 (u32 a) (u32 b)))
        ≡ spec_reg_3 Opcode.rem_signed_32 a b d
  unfolding spec_reg_3
  rem_signed_32 low =
      choice (u32 b == 0) (u32 a == min_int32 && u32 b == minus_one 32)
        (extend-z_n (u32 a) (omega arith)) (λ p. refl)
        (λ p q. smod-remainder_32 (u32 a) (u32 b) (omega arith) (omega arith) p low)

  pub div_signed_64 :
      ((b == 0) ≡ false → no_negative_fraction (z_n 8 a) (z_n 8 b) ≡ true)
      → (if b == 0
          then max_uint64
          else if a == min_int64 && b == minus_one 64
          then a
          else div_signed 64 a b)
        ≡ spec_reg_3 Opcode.div_signed_64 a b d
  unfolding spec_reg_3
  div_signed_64 h =
      choice (b == 0) (a == min_int64 && b == minus_one 64) refl (λ p. refl)
        (λ p q.
          div_signed-quotient_64 a b
          ∙ ap z_8_inverse (quotient-floor_quotient (z_n 8 a) (z_n 8 b) (h p)))

  pub rem_signed_64 :
      IsU64 a
      → IsU64 b
      → (a == 2 ^ 63) ≡ false
      → (if b == 0
          then a
          else if a == extend 32 min_int32 && b == minus_one 64
          then 0
          else smod 64 a b)
        ≡ spec_reg_3 Opcode.rem_signed_64 a b d
  unfolding spec_reg_3
  rem_signed_64 ha hb low = elim (Bool-cases (b == 0)) [
    | inl zero_divisor ↦ rw zero_divisor refl
    | inr p ↦
        rw (p, low)
          (elim (Bool-cases (a == extend 32 min_int32 && b == minus_one 64)) [
            | inl t ↦
                rw (t, last_true (a == extend 32 min_int32) b _ t)
                  (sym (remainder-minus_one (z_n 8 a)))
            | inr f ↦ rw f (smod-remainder_64 a b ha hb p low)
          ])
  ]

  pub less_than_signed :
      x_n 4 (u32 a) ≡ a
      → x_n 4 (u32 b) ≡ b
      → bool_to_uint64 (ltb_signed 32 (u32 a) (u32 b))
        ≡ spec_reg_3 Opcode.set_less_than_signed a b d
  unfolding spec_reg_3 ltb_signed signed
  less_than_signed ha hb =
      truth-bool (ltb_ℤ (signed 32 (u32 a)) (signed 32 (u32 b)))
      ∙ ap (λ t. truth (ltb_ℤ (signed 32 (u32 a)) t)) (value b hb)
      ∙ ap (λ t. truth (ltb_ℤ t (z_n 8 b))) (value a ha)
    where
      value : (x : ℕ) → x_n 4 (u32 x) ≡ x → signed 32 (u32 x) ≡ z_n 8 x
      value x h = sym (z_8-x_4 (u32 x) (omega arith)) ∙ ap (z_n 8) h

  pub max_signed : (if ltb_signed 64 a b then b else a) ≡ spec_reg_3 Opcode.max a b d
  unfolding spec_reg_3
  max_signed = ap (λ t. if t then b else a) (ltb_signed-z_n a b)

  pub min_signed : (if ltb_signed 64 b a then b else a) ≡ spec_reg_3 Opcode.min a b d
  unfolding spec_reg_3
  min_signed = ap (λ t. if t then b else a) (ltb_signed-z_n b a)

  pub max_unsigned : (if ltb a b then b else a) ≡ spec_reg_3 Opcode.max_u a b d
  unfolding spec_reg_3
  max_unsigned = ground arith

  pub min_unsigned : (if ltb b a then b else a) ≡ spec_reg_3 Opcode.min_u a b d
  unfolding spec_reg_3
  min_unsigned = ground arith

  pub less_than_unsigned : bool_to_uint64 (ltb a b) ≡ spec_reg_3 Opcode.set_less_than_unsigned a b d
  unfolding spec_reg_3
  less_than_unsigned = truth-bool (ltb a b)

  pub upper_signed :
      to_word 64 (floor_div (signed 64 a *ℤ signed 64 b) (2 ^ 64))
      ≡ spec_reg_3 Opcode.mul_upper_signed_signed a b d
  unfolding spec_reg_3 signed
  upper_signed = to_word-z_8_inverse _

  pub upper_mixed :
      to_word 64 (floor_div (signed 64 a *ℤ pos b) (2 ^ 64))
      ≡ spec_reg_3 Opcode.mul_upper_signed_unsigned a b d
  unfolding spec_reg_3 signed
  upper_mixed = to_word-z_8_inverse _

  pub upper_unsigned :
      IsU64 a
      → IsU64 b
      → to_word 64 (floor_div (pos a *ℤ pos b) (2 ^ 64))
        ≡ spec_reg_3 Opcode.mul_upper_unsigned_unsigned a b d
  unfolding spec_reg_3 to_word
  upper_unsigned ha hb = rw (pos-product a b) (
      mod-eq_of_lt
        ((div-lt_iff_lt-mul {k = 2 ^ 64} {x = a * b} {y = 2 ^ 64} (omega arith)).1 below))
    where
      below : a * b < 2 ^ 64 * 2 ^ 64
      below = omega (
        arith,
        mul-le-mul {n₁ = a} {m₁ = b} {n₂ = 2 ^ 64 - 1} {m₂ = 2 ^ 64 - 1} (omega (arith, ha))
            (omega (arith, hb)),
      )

  pub and_complement : IsU64 b → bit_and a (complement b) ≡ spec_reg_3 Opcode.and_inv a b d
  unfolding spec_reg_3
  and_complement h = ap (bit_and a) (complement-sub b h)

  pub or_complement : IsU64 b → bit_or a (complement b) ≡ spec_reg_3 Opcode.or_inv a b d
  unfolding spec_reg_3
  or_complement h = ap (bit_or a) (complement-sub b h)

  pub xor_complement : IsU64 a → IsU64 b → complement (bit_xor a b) ≡ spec_reg_3 Opcode.xnor a b d
  unfolding spec_reg_3
  xor_complement ha hb = complement-sub (bit_xor a b) (bit_xor-lt 64 a b ha hb)
