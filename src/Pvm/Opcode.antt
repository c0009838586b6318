-- ===== src/Pvm/Opcode.antt =====
-- internal/polkavm/instruction_codes.go: the operation codes.
use strawberry.Base.{ℕ, ◌+◌, ◌-◌, ◌&&◌, List, [], ◌∷◌, length, get_or, leb, ltb, if◌then◌else◌}

-- The constants of the source. `unknown` stands for every byte that none of them names.
pub data Opcode : Type 0 where
  trap fallthrough : Opcode
  ecalli : Opcode
  load_imm_64 : Opcode
  store_imm_u8 store_imm_u16 store_imm_u32 store_imm_u64 : Opcode
  jump : Opcode
  jump_indirect load_imm load_u8 load_i8 load_u16 load_i16 load_u32 load_i32 load_u64 store_u8 :
      Opcode
  store_u16 store_u32 store_u64 : Opcode
  store_imm_indirect_u8 store_imm_indirect_u16 store_imm_indirect_u32 store_imm_indirect_u64 :
      Opcode
  load_imm_and_jump branch_eq_imm branch_not_eq_imm branch_less_unsigned_imm : Opcode
  branch_less_or_equal_unsigned_imm branch_greater_or_equal_unsigned_imm : Opcode
  branch_greater_unsigned_imm branch_less_signed_imm branch_less_or_equal_signed_imm : Opcode
  branch_greater_or_equal_signed_imm branch_greater_signed_imm : Opcode
  move_reg sbrk count_set_bits_64 count_set_bits_32 leading_zero_bits_64 leading_zero_bits_32 :
      Opcode
  trailing_zero_bits_64 trailing_zero_bits_32 sign_extend_8 sign_extend_16 zero_extend_16 : Opcode
  reverse_bytes : Opcode
  store_indirect_u8 store_indirect_u16 store_indirect_u32 store_indirect_u64 load_indirect_u8 :
      Opcode
  load_indirect_i8 load_indirect_u16 load_indirect_i16 load_indirect_u32 load_indirect_i32 : Opcode
  load_indirect_u64 add_imm_32 and_imm xor_imm or_imm mul_imm_32 set_less_than_unsigned_imm : Opcode
  set_less_than_signed_imm shift_logical_left_imm_32 shift_logical_right_imm_32 : Opcode
  shift_arithmetic_right_imm_32 negate_and_add_imm_32 set_greater_than_unsigned_imm : Opcode
  set_greater_than_signed_imm shift_logical_right_imm_alt_32 shift_arithmetic_right_imm_alt_32 :
      Opcode
  shift_logical_left_imm_alt_32 cmov_if_zero_imm cmov_if_not_zero_imm add_imm_64 mul_imm_64 : Opcode
  shift_logical_left_imm_64 shift_logical_right_imm_64 shift_arithmetic_right_imm_64 : Opcode
  negate_and_add_imm_64 shift_logical_left_imm_alt_64 shift_logical_right_imm_alt_64 : Opcode
  shift_arithmetic_right_imm_alt_64 rot_r_64_imm rot_r_64_imm_alt rot_r_32_imm rot_r_32_imm_alt :
      Opcode
  branch_eq branch_not_eq branch_less_unsigned branch_less_signed : Opcode
  branch_greater_or_equal_unsigned branch_greater_or_equal_signed : Opcode
  load_imm_and_jump_indirect : Opcode
  add_32 sub_32 mul_32 div_unsigned_32 div_signed_32 rem_unsigned_32 rem_signed_32 : Opcode
  shift_logical_left_32 shift_logical_right_32 shift_arithmetic_right_32 add_64 sub_64 mul_64 :
      Opcode
  div_unsigned_64 div_signed_64 rem_unsigned_64 rem_signed_64 shift_logical_left_64 : Opcode
  shift_logical_right_64 shift_arithmetic_right_64 and xor or mul_upper_signed_signed : Opcode
  mul_upper_unsigned_unsigned mul_upper_signed_unsigned set_less_than_unsigned : Opcode
  set_less_than_signed cmov_if_zero cmov_if_not_zero rot_l_64 rot_l_32 rot_r_64 rot_r_32 and_inv :
      Opcode
  or_inv xnor max max_u min min_u : Opcode
  unknown : Opcode

-- The constants as blocks of consecutive numbers: the first number of a block, and its names.
abbrev blocks : List (ℕ × List Opcode)
blocks =
    (0, trap ∷ fallthrough ∷ [])
    ∷ (10, ecalli ∷ [])
    ∷ (20, load_imm_64 ∷ [])
    ∷ (30, store_imm_u8 ∷ store_imm_u16 ∷ store_imm_u32 ∷ store_imm_u64 ∷ [])
    ∷ (40, jump ∷ [])
    ∷ (
      50,
      jump_indirect ∷ load_imm ∷ load_u8 ∷ load_i8 ∷ load_u16 ∷ load_i16 ∷ load_u32 ∷ load_i32
          ∷ load_u64 ∷ store_u8 ∷ store_u16 ∷ store_u32 ∷ store_u64 ∷ [],
    )
    ∷ (
      70,
      store_imm_indirect_u8 ∷ store_imm_indirect_u16 ∷ store_imm_indirect_u32
          ∷ store_imm_indirect_u64 ∷ [],
    )
    ∷ (
      80,
      load_imm_and_jump ∷ branch_eq_imm ∷ branch_not_eq_imm ∷ branch_less_unsigned_imm
          ∷ branch_less_or_equal_unsigned_imm ∷ branch_greater_or_equal_unsigned_imm
          ∷ branch_greater_unsigned_imm ∷ branch_less_signed_imm ∷ branch_less_or_equal_signed_imm
          ∷ branch_greater_or_equal_signed_imm ∷ branch_greater_signed_imm ∷ [],
    )
    ∷ (
      100,
      move_reg ∷ sbrk ∷ count_set_bits_64 ∷ count_set_bits_32 ∷ leading_zero_bits_64
          ∷ leading_zero_bits_32 ∷ trailing_zero_bits_64 ∷ trailing_zero_bits_32 ∷ sign_extend_8
          ∷ sign_extend_16 ∷ zero_extend_16 ∷ reverse_bytes ∷ [],
    )
    ∷ (
      120,
      store_indirect_u8 ∷ store_indirect_u16 ∷ store_indirect_u32 ∷ store_indirect_u64
          ∷ load_indirect_u8 ∷ load_indirect_i8 ∷ load_indirect_u16 ∷ load_indirect_i16
          ∷ load_indirect_u32 ∷ load_indirect_i32 ∷ load_indirect_u64 ∷ add_imm_32 ∷ and_imm
          ∷ xor_imm ∷ or_imm ∷ mul_imm_32 ∷ set_less_than_unsigned_imm ∷ set_less_than_signed_imm
          ∷ shift_logical_left_imm_32 ∷ shift_logical_right_imm_32 ∷ shift_arithmetic_right_imm_32
          ∷ negate_and_add_imm_32 ∷ set_greater_than_unsigned_imm ∷ set_greater_than_signed_imm
          ∷ shift_logical_left_imm_alt_32 ∷ shift_arithmetic_right_imm_alt_32
          ∷ shift_logical_right_imm_alt_32 ∷ cmov_if_zero_imm ∷ cmov_if_not_zero_imm ∷ add_imm_64
          ∷ mul_imm_64 ∷ shift_logical_left_imm_64 ∷ shift_logical_right_imm_64
          ∷ shift_arithmetic_right_imm_64 ∷ negate_and_add_imm_64 ∷ shift_logical_left_imm_alt_64
          ∷ shift_logical_right_imm_alt_64 ∷ shift_arithmetic_right_imm_alt_64 ∷ rot_r_64_imm
          ∷ rot_r_64_imm_alt ∷ rot_r_32_imm ∷ rot_r_32_imm_alt ∷ [],
    )
    ∷ (
      170,
      branch_eq ∷ branch_not_eq ∷ branch_less_unsigned ∷ branch_less_signed
          ∷ branch_greater_or_equal_unsigned ∷ branch_greater_or_equal_signed ∷ [],
    )
    ∷ (180, load_imm_and_jump_indirect ∷ [])
    ∷ (
      190,
      add_32 ∷ sub_32 ∷ mul_32 ∷ div_unsigned_32 ∷ div_signed_32 ∷ rem_unsigned_32 ∷ rem_signed_32
          ∷ shift_logical_left_32 ∷ shift_logical_right_32 ∷ shift_arithmetic_right_32 ∷ add_64
          ∷ sub_64 ∷ mul_64 ∷ div_unsigned_64 ∷ div_signed_64 ∷ rem_unsigned_64 ∷ rem_signed_64
          ∷ shift_logical_left_64 ∷ shift_logical_right_64 ∷ shift_arithmetic_right_64 ∷ and ∷ xor
          ∷ or ∷ mul_upper_signed_signed ∷ mul_upper_unsigned_unsigned ∷ mul_upper_signed_unsigned
          ∷ set_less_than_unsigned ∷ set_less_than_signed ∷ cmov_if_zero ∷ cmov_if_not_zero
          ∷ rot_l_64 ∷ rot_l_32 ∷ rot_r_64 ∷ rot_r_32 ∷ and_inv ∷ or_inv ∷ xnor ∷ max ∷ max_u ∷ min
          ∷ min_u ∷ [],
    )
    ∷ []

-- The name with the number b.
named : List (ℕ × List Opcode) → ℕ → Opcode
named [] b = unknown
named ((first, names) ∷ rest) b =
    if leb first b && ltb b (first + length names)
    then get_or names (b - first) unknown
    else named rest b

-- `Opcode(b)`
unfoldable pub opcode_of_byte : ℕ → Opcode
unfolding named
opcode_of_byte b = named blocks b
