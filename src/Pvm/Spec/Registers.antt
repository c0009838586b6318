-- ===== src/Pvm/Spec/Registers.antt =====
-- The instructions of three registers put the value of the formulas into the register of the result.
use strawberry.Base.{
  ℕ, ◌^◌, ◌≡◌, refl, Bool, false, ap, IsU64, List, [], ◌∷◌, get_or, set, ◌==◌, sym, if◌then◌else◌,
  true, not, zero, suc,
}
use strawberry.Pvm.Opcode.{Opcode}
use strawberry.Pvm.Tables.{reg_3, instruction_for_type}
use strawberry.Pvm.Instance.{Instance, reg, set_and_skip, skip, set_reg}
use strawberry.Pvm.Mutations.Word32.{
  add_32, sub_32, mul_32, div_unsigned_32, div_signed_32, rem_unsigned_32, rem_signed_32,
  shift_logical_left_32, shift_logical_right_32, shift_arithmetic_right_32, rotate_left_32,
  rotate_right_32,
}
use strawberry.Pvm.Mutations.Word64.{
  add_64, sub_64, mul_64, div_unsigned_64, div_signed_64, rem_unsigned_64, rem_signed_64,
  shift_logical_left_64, shift_logical_right_64, shift_arithmetic_right_64, mul_upper_signed_signed,
  mul_upper_unsigned_unsigned, mul_upper_signed_unsigned, rotate_left_64, rotate_right_64,
}
use strawberry.Pvm.Mutations.Logic.{
  and, xor, or, set_less_than_unsigned, set_less_than_signed, cmov_if_zero, cmov_if_not_zero,
  and_inverted, or_inverted, xnor, max, max_unsigned, min, min_unsigned,
}
use strawberry.Pvm.Step.ExecRegisters.{exec_reg_3}
use strawberry.Pvm.Spec.{x_n, z_n, no_negative_fraction, low_half, spec_reg_3}
use strawberry.Pvm.Spec.Words
use strawberry.Pvm.Spec.Signs

-- The operands at which the code and the formulas agree. `SetLessThanSigned` compares the low halves
-- as 32-bit numbers, and `smod32` and `smod64` take the absolute value of the dividend, which the
-- lowest number does not have. The signed divisions round toward zero, where the formula has the floor:
-- they agree when the quotient is no negative fraction.
unfoldable pub Agree : Opcode → ℕ → ℕ → Type 0
Agree Opcode.set_less_than_signed a b = (x_n 4 (low_half a) ≡ a) × (x_n 4 (low_half b) ≡ b)
Agree Opcode.rem_signed_32 a b = (low_half a == 2 ^ 31) ≡ false
Agree Opcode.rem_signed_64 a b = (a == 2 ^ 63) ≡ false
Agree Opcode.div_signed_32 a b =
    (low_half b == 0) ≡ false
    → no_negative_fraction (z_n 4 (low_half a)) (z_n 4 (low_half b)) ≡ true
Agree Opcode.div_signed_64 a b = (b == 0) ≡ false → no_negative_fraction (z_n 8 a) (z_n 8 b) ≡ true
Agree _ a b = Unit

set-get_or : (xs : List ℕ) (r : ℕ) → set xs r (get_or xs r 0) ≡ xs
set-get_or [] r = refl
set-get_or (x ∷ xs) zero = refl
set-get_or (x ∷ xs) (suc r) = ap (λ t. x ∷ t) (set-get_or xs r)

-- Leaving a register alone is putting its own value into it.
set_reg-reg : (i : Instance) (r : ℕ) → set_reg i r (reg i r) ≡ i
set_reg-reg i r = ap (λ regs. record i { regs = regs }) (set-get_or i.regs r)

cmov-set_and_skip :
    (i : Instance) (dst v : ℕ) (test : Bool)
    → skip (if test then set_reg i dst v else i)
      ≡ set_and_skip i dst (if test then v else reg i dst)
unfolding set_and_skip
cmov-set_and_skip i dst v true = refl
cmov-set_and_skip i dst v false = ap skip (sym (set_reg-reg i dst))

cmov_not-set_and_skip :
    (i : Instance) (dst v : ℕ) (test : Bool)
    → skip (if not test then set_reg i dst v else i)
      ≡ set_and_skip i dst (if test then reg i dst else v)
unfolding set_and_skip
cmov_not-set_and_skip i dst v true = ap skip (sym (set_reg-reg i dst))
cmov_not-set_and_skip i dst v false = refl

module _ (i : Instance) (dst reg_a reg_b : ℕ) (ha : IsU64 (reg i reg_a))
    (hb : IsU64 (reg i reg_b)) where
  abbrev a : ℕ
  a = reg i reg_a

  abbrev b : ℕ
  b = reg i reg_b

  abbrev d : ℕ
  d = reg i dst

  put : {v w : ℕ} → v ≡ w → skip (set_reg i dst v) ≡ skip (set_reg i dst w)
  put e = ap (λ v. skip (set_reg i dst v)) e

  -- An instruction of three registers moves on to the next instruction, and changes nothing but
  -- the register of the result, which receives the value of the formula: for all of the 41
  -- instructions, and all 64-bit operands at which `Agree` holds. That leaves out the operands of a
  -- signed division whose quotient is a negative fraction, the lowest number as the dividend of a
  -- signed remainder, and operands of the signed comparison that are no sign-extended 32-bit numbers.
  pub exec_reg_3-spec_reg_3 :
      (op : Opcode)
      → instruction_for_type op ≡ reg_3
      → Agree op (reg i reg_a) (reg i reg_b)
      → exec_reg_3 op i dst reg_a reg_b
        ≡ set_and_skip i dst (spec_reg_3 op (reg i reg_a) (reg i reg_b) (reg i dst))
  unfolding exec_reg_3 set_and_skip Agree instruction_for_type spec_reg_3 add_32 sub_32 mul_32
      div_unsigned_32 div_signed_32 rem_unsigned_32 rem_signed_32 shift_logical_left_32
      shift_logical_right_32 shift_arithmetic_right_32 add_64 sub_64 mul_64 div_unsigned_64
      div_signed_64 rem_unsigned_64 rem_signed_64 shift_logical_left_64 shift_logical_right_64
      shift_arithmetic_right_64 and xor or mul_upper_signed_signed mul_upper_unsigned_unsigned
      mul_upper_signed_unsigned set_less_than_unsigned set_less_than_signed cmov_if_zero
      cmov_if_not_zero rotate_left_64 rotate_left_32 rotate_right_64 rotate_right_32 and_inverted
      or_inverted xnor max max_unsigned min min_unsigned
  exec_reg_3-spec_reg_3 Opcode.add_32 form _ = put (Words.sum_32 a b d)
  exec_reg_3-spec_reg_3 Opcode.sub_32 form _ = put (Words.difference_32 a b d hb)
  exec_reg_3-spec_reg_3 Opcode.mul_32 form _ = put (Words.product_32 a b d)
  exec_reg_3-spec_reg_3 Opcode.div_unsigned_32 form _ = put (Words.div_unsigned_32 a b d)
  exec_reg_3-spec_reg_3 Opcode.div_signed_32 form h = put (Signs.div_signed_32 a b d h)
  exec_reg_3-spec_reg_3 Opcode.rem_unsigned_32 form _ = put (Words.rem_unsigned_32 a b d)
  exec_reg_3-spec_reg_3 Opcode.rem_signed_32 form h = put (Signs.rem_signed_32 a b d h)
  exec_reg_3-spec_reg_3 Opcode.shift_logical_left_32 form _ = put (Words.shift_left_32 a b d)
  exec_reg_3-spec_reg_3 Opcode.shift_logical_right_32 form _ = put (Words.shift_right_32 a b d)
  exec_reg_3-spec_reg_3 Opcode.shift_arithmetic_right_32 form _ =
      put (Words.shift_arithmetic_32 a b d)
  exec_reg_3-spec_reg_3 Opcode.add_64 form _ = refl
  exec_reg_3-spec_reg_3 Opcode.sub_64 form _ = refl
  exec_reg_3-spec_reg_3 Opcode.mul_64 form _ = refl
  exec_reg_3-spec_reg_3 Opcode.div_unsigned_64 form _ = refl
  exec_reg_3-spec_reg_3 Opcode.div_signed_64 form h = put (Signs.div_signed_64 a b d h)
  exec_reg_3-spec_reg_3 Opcode.rem_unsigned_64 form _ = refl
  exec_reg_3-spec_reg_3 Opcode.rem_signed_64 form h = put (Signs.rem_signed_64 a b d ha hb h)
  exec_reg_3-spec_reg_3 Opcode.shift_logical_left_64 form _ = put (Words.shift_left_64 a b d)
  exec_reg_3-spec_reg_3 Opcode.shift_logical_right_64 form _ = put (Words.shift_right_64 a b d)
  exec_reg_3-spec_reg_3 Opcode.shift_arithmetic_right_64 form _ =
      put (Words.shift_arithmetic_64 a b d)
  exec_reg_3-spec_reg_3 Opcode.and form _ = refl
  exec_reg_3-spec_reg_3 Opcode.xor form _ = refl
  exec_reg_3-spec_reg_3 Opcode.or form _ = refl
  exec_reg_3-spec_reg_3 Opcode.mul_upper_signed_signed form _ = put (Signs.upper_signed a b d)
  exec_reg_3-spec_reg_3 Opcode.mul_upper_unsigned_unsigned form _ =
      put (Signs.upper_unsigned a b d ha hb)
  exec_reg_3-spec_reg_3 Opcode.mul_upper_signed_unsigned form _ = put (Signs.upper_mixed a b d)
  exec_reg_3-spec_reg_3 Opcode.set_less_than_unsigned form _ = put (Signs.less_than_unsigned a b d)
  exec_reg_3-spec_reg_3 Opcode.set_less_than_signed form (p, q) =
      put (Signs.less_than_signed a b d p q)
  exec_reg_3-spec_reg_3 Opcode.cmov_if_zero form _ = cmov-set_and_skip i dst a (b == 0)
  exec_reg_3-spec_reg_3 Opcode.cmov_if_not_zero form _ = cmov_not-set_and_skip i dst a (b == 0)
  exec_reg_3-spec_reg_3 Opcode.rot_l_64 form _ = put (Words.rotate_left_64 a b d ha)
  exec_reg_3-spec_reg_3 Opcode.rot_l_32 form _ = put (Words.rotate_left_32 a b d)
  exec_reg_3-spec_reg_3 Opcode.rot_r_64 form _ = put (Words.rotate_right_64 a b d ha hb)
  exec_reg_3-spec_reg_3 Opcode.rot_r_32 form _ = put (Words.rotate_right_32 a b d hb)
  exec_reg_3-spec_reg_3 Opcode.and_inv form _ = put (Signs.and_complement a b d hb)
  exec_reg_3-spec_reg_3 Opcode.or_inv form _ = put (Signs.or_complement a b d hb)
  exec_reg_3-spec_reg_3 Opcode.xnor form _ = put (Signs.xor_complement a b d ha hb)
  exec_reg_3-spec_reg_3 Opcode.max form _ = put (Signs.max_signed a b d)
  exec_reg_3-spec_reg_3 Opcode.max_u form _ = put (Signs.max_unsigned a b d)
  exec_reg_3-spec_reg_3 Opcode.min form _ = put (Signs.min_signed a b d)
  exec_reg_3-spec_reg_3 Opcode.min_u form _ = put (Signs.min_unsigned a b d)
  exec_reg_3-spec_reg_3 _ form _ = cc
