-- ===== src/Jam/Fixed.antt =====
-- pkg/serialization/codec/jam/trivial_natural.go: numbers of a fixed count of bytes.
use Prim.Native.Nat.{bit_and, bit_or}
use native.Mathlib.Nat.{
  div-div-eq-div-mul, pow-le-pow_right, div-one, one-le-pow, div-add-mod, mod-lt, mod-eq_of_lt,
  add-mul-mod_self_right,
}
use native.Mathlib.Numerals.{towards_suc}
use strawberry.Base.{
  ℕ, zero, suc, ◌+◌, ◌*◌, ◌/◌, ◌%◌, ◌^◌, ◌≤◌, ◌<◌, ◌≡◌, refl, sym, ap, ◌∙◌, arith, List, [], ◌∷◌,
  All, length, lt→ltb, shift_left, bit_and-ones, bit_or-disjoint,
}

-- The rounds of the loop from i on.
unfoldable pub serialize_from : ℕ → ℕ → ℕ → List ℕ
serialize_from x i zero = []
serialize_from x i (suc rounds) = bit_and (x / 2 ^ (8 * i)) 255 ∷ serialize_from x (suc i) rounds

-- `serializeTrivialNatural(x, l)`; a shift by the width or more leaves 0, as the quotient does.
unfoldable pub serialize_trivial_natural : ℕ → ℕ → List ℕ
unfolding serialize_from
serialize_trivial_natural x l = serialize_from x 0 l

-- The loop over the bytes from the index i on, for a type of w bits.
unfoldable pub deserialize_from : ℕ → ℕ → ℕ → List ℕ → ℕ
unfolding shift_left
deserialize_from w u i [] = u
deserialize_from w u i (b ∷ bs) = deserialize_from w (bit_or u (shift_left w b (8 * i))) (suc i) bs

unfoldable pub deserialize_trivial_natural : ℕ → List ℕ → ℕ
unfolding deserialize_from
deserialize_trivial_natural w bytes = deserialize_from w 0 0 bytes

-- The meaning of a list of bytes, the lowest first, in plain arithmetic.
unfoldable pub little_endian : List ℕ → ℕ
little_endian [] = 0
little_endian (b ∷ bs) = b + 256 * little_endian bs

abbrev pub IsByte : ℕ → Type 0
IsByte b = b < 256

eight_more : (i : ℕ) → 2 ^ (8 * suc i) ≡ 256 * 2 ^ (8 * i)
eight_more i = ap (λ e. 2 ^ e) eight ∙ simp towards_suc (omega arith)
  where
    eight : 8 * suc i ≡ 8 * i + 8
    eight = omega arith

-- The lowest byte of a remainder, and the others.
mod_byte : (y p : ℕ) → 0 < p → y % 256 + 256 * (y / 256 % p) ≡ y % (256 * p)
mod_byte y p h =
    let low : ℕ = y % 256 + 256 * (y / 256 % p) in
    let high : ℕ = y / 256 / p in
    let split : y ≡ low + high * (256 * p) = omega (arith, div-add-mod (y / 256) p) in
    let fits : low < 256 * p = omega (arith, mod-lt (y / 256) h) in
    sym (ap (λ t. t % (256 * p)) split ∙ add-mul-mod_self_right low high _ ∙ mod-eq_of_lt fits)

serialize_from-IsByte : (x i n : ℕ) → All IsByte (serialize_from x i n)
unfolding serialize_from
serialize_from-IsByte x i zero = tt
serialize_from-IsByte x i (suc n) =
    (omega (arith, bit_and-ones 8 (x / 2 ^ (8 * i))), serialize_from-IsByte x (suc i) n)

pub length-serialize_from : (x i n : ℕ) → length (serialize_from x i n) ≡ n
unfolding serialize_from
length-serialize_from x i zero = refl
length-serialize_from x i (suc n) = ap suc (length-serialize_from x (suc i) n)

little_endian-serialize_from :
    (x i n : ℕ) → little_endian (serialize_from x i n) ≡ x / 2 ^ (8 * i) % 2 ^ (8 * n)
unfolding serialize_from little_endian
little_endian-serialize_from x i zero = omega arith
little_endian-serialize_from x i (suc n) =
    let y : ℕ = x / 2 ^ (8 * i) in
    let next : y / 256 ≡ x / 2 ^ (8 * suc i) =
      div-div-eq-div-mul x (2 ^ (8 * i)) 256 ∙ ap (λ t. x / t) (omega (arith, eight_more i)) in
    rw (bit_and-ones 8 y, little_endian-serialize_from x (suc i) n, ← next, eight_more n)
      (mod_byte y (2 ^ (8 * n)) (one-le-pow (8 * n) 2 (omega arith)))

-- A byte that is shifted into its place stays within the width.
shift_byte : (w i b : ℕ) → b < 256 → 8 * suc i ≤ w → shift_left w b (8 * i) ≡ b * 2 ^ (8 * i)
unfolding shift_left
shift_byte w i b hb fits = rw (lt→ltb (8 * i) w (omega arith)) (mod-eq_of_lt below)
  where
    below : b * 2 ^ (8 * i) < 2 ^ w
    below = grind (arith, eight_more i, one-le-pow w 2, pow-le-pow_right {n = 2} (omega arith) fits)

deserialize_from-little_endian :
    (w u i : ℕ) (bs : List ℕ)
    → All IsByte bs
    → u < 2 ^ (8 * i)
    → 8 * (i + length bs) ≤ w
    → deserialize_from w u i bs ≡ u + little_endian bs * 2 ^ (8 * i)
unfolding deserialize_from little_endian
deserialize_from-little_endian w u i [] h lt fits = omega arith
deserialize_from-little_endian w u i (b ∷ bs) (hb, h) lt fits =
    rw (shift_byte w i b hb (omega arith), bit_or-disjoint (8 * i) u b lt)
      (deserialize_from-little_endian w (u + b * 2 ^ (8 * i)) (suc i) bs h below (omega arith)
        ∙ omega (arith, ap (λ (t : ℕ). little_endian bs * t) (eight_more i)))
  where
    below : u + b * 2 ^ (8 * i) < 2 ^ (8 * suc i)
    below = grind (arith, eight_more i)

-- What is written in l bytes is read back modulo 2 ^ 8l, into a type of at least 8l bits.
pub deserialize_trivial_natural-serialize_trivial_natural :
    (w x l : ℕ)
    → 8 * l ≤ w
    → deserialize_trivial_natural w (serialize_trivial_natural x l) ≡ x % 2 ^ (8 * l)
unfolding deserialize_trivial_natural serialize_trivial_natural
deserialize_trivial_natural-serialize_trivial_natural w x l h =
    let bytes : List ℕ = serialize_from x 0 l in
    deserialize_from-little_endian w 0 0 bytes (serialize_from-IsByte x 0 l) (omega arith)
      (omega (arith, length-serialize_from x 0 l))
    ∙ rw (little_endian-serialize_from, first x) (omega arith)
  where
    first : (x : ℕ) → x / 2 ^ (8 * 0) ≡ x
    first x = div-one x

-- The count of the bytes is the one asked for.
pub length-serialize_trivial_natural : (x l : ℕ) → length (serialize_trivial_natural x l) ≡ l
unfolding serialize_trivial_natural
length-serialize_trivial_natural x l = length-serialize_from x 0 l
