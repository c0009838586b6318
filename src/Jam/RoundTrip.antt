-- ===== src/Jam/RoundTrip.antt =====
-- What is written with a first byte that tells the length is read back.
use Prim.Native.Nat.{bit_and, bit_or}
use native.Mathlib.Nat.{div-lt_iff_lt-mul, mod-eq_of_lt, mod-add-div', mod-lt, one-le-pow}
use strawberry.Base.{
  ℕ, zero, suc, ◌+◌, ◌-◌, ◌*◌, ◌/◌, ◌%◌, ◌^◌, ◌≤◌, ◌<◌, ◌≡◌, refl, sym, ap, ◌∙◌, arith, false, some,
  List, [], ◌∷◌, length, take, drop, ltb, u8, shift_left, shift_right, leading_zeros, bit_length,
  ◌++◌, IsU64, Bool-cases, inl, inr, ltb→lt, lt→ltb, ltb-false, pow-sub, bit_and-ones,
  bit_or-disjoint,
}
use strawberry.Jam.Fixed.{
  serialize_from, deserialize_from, serialize_trivial_natural, deserialize_trivial_natural,
  length-serialize_from, deserialize_trivial_natural-serialize_trivial_natural,
}
use strawberry.Jam.General.{
  length_from, length_needed, serialize_uint64, decoded, deserialize_loop, with_prefix,
  deserialize_uint64_with_length, read_bytes, finish_uint, with_rest, decode_uint,
}

-- r bytes behind the first one are enough, and the number reaches into the last of them.
record Fits (x last r : ℕ) : Type 0 where
  at_most : r ≤ last
  enough : r < last → x < 2 ^ (7 * (r + 1))

length_from-Fits : (x l rounds : ℕ) → Fits x (l + rounds) (length_from x l rounds)
unfolding length_from
length_from-Fits x l zero = ground arith
length_from-Fits x l (suc rounds) =
    let later = length_from-Fits x (suc l) rounds in
    elim (Bool-cases (ltb x (2 ^ (7 * (l + 1))))) [
      | inl t ↦ rw t (ground (arith, ltb→lt _ _ t))
      | inr f ↦ rw f (ground (arith, later))
    ]

-- The first byte for l < 8 bytes behind it and the top h of the number.
abbrev first_byte : ℕ → ℕ → ℕ
first_byte l h = 256 - 2 ^ (8 - l) + h

-- What the first byte says.
record Says (l h : ℕ) : Type 0 where
  written : u8 (256 - 2 ^ (8 - l) + bit_and h 255) ≡ first_byte l h
  zeros : leading_zeros 8 (255 - first_byte l h) ≡ l
  mask : shift_right 8 255 l ≡ 2 ^ (8 - l) - 1
  top : first_byte l h % 2 ^ (8 - l) ≡ h

Says-first_byte : (l h : ℕ) → l < 8 → h < 2 ^ (7 - l) → Says l h
unfolding leading_zeros bit_length shift_right
Says-first_byte zero h lt k = let low = bit_and-ones 8 h in ground arith
Says-first_byte (suc zero) h lt k = let low = bit_and-ones 8 h in ground arith
Says-first_byte (suc (suc zero)) h lt k = let low = bit_and-ones 8 h in ground arith
Says-first_byte (suc (suc (suc zero))) h lt k = let low = bit_and-ones 8 h in ground arith
Says-first_byte (suc (suc (suc (suc zero)))) h lt k = let low = bit_and-ones 8 h in ground arith
Says-first_byte (suc (suc (suc (suc (suc zero))))) h lt k =
    let low = bit_and-ones 8 h in ground arith
Says-first_byte (suc (suc (suc (suc (suc (suc zero)))))) h lt k =
    let low = bit_and-ones 8 h in ground arith
Says-first_byte (suc (suc (suc (suc (suc (suc (suc zero))))))) h lt k =
    let low = bit_and-ones 8 h in ground arith
Says-first_byte (suc (suc (suc (suc (suc (suc (suc (suc l)))))))) h lt k = absurd (omega arith)

deserialize_loop-deserialize_from :
    (u i : ℕ) (bs : List ℕ)
    → deserialize_loop u i (length bs) bs ≡ some (deserialize_from 64 u i bs)
unfolding deserialize_loop deserialize_from
deserialize_loop-deserialize_from u i [] = refl
deserialize_loop-deserialize_from u i (b ∷ bs) =
    deserialize_loop-deserialize_from (bit_or u (shift_left 64 b (8 * i))) (suc i) bs

take-append : {A : Type 0} (xs ys : List A) → take (length xs) (xs ++ ys) ≡ xs
take-append [] ys = refl
take-append (x ∷ xs) ys = ap (λ t. x ∷ t) (take-append xs ys)

drop-append : {A : Type 0} (xs ys : List A) → drop (length xs) (xs ++ ys) ≡ ys
drop-append [] ys = refl
drop-append (x ∷ xs) ys = drop-append xs ys

none_missing : (xs ys : List ℕ) → length xs - length (xs ++ ys) ≡ 0
none_missing [] ys = omega arith
none_missing (x ∷ xs) ys = omega (arith, none_missing xs ys)

append_empty : (xs : List ℕ) → xs ++ [] ≡ xs
append_empty [] = refl
append_empty (x ∷ xs) = ap (λ t. x ∷ t) (append_empty xs)

read_bytes-append : (xs ys : List ℕ) → read_bytes (length xs) (xs ++ ys) ≡ decoded (xs, ys)
unfolding read_bytes
read_bytes-append [] ys = refl
read_bytes-append (x ∷ xs) ys =
    rw (take-append xs ys, drop-append xs ys, none_missing xs ys, append_empty xs) refl

-- The bytes behind the first one, put together.
low_part :
    (x l : ℕ) → l ≤ 8 → deserialize_loop 0 0 l (serialize_from x 0 l) ≡ some (x % 2 ^ (8 * l))
unfolding deserialize_trivial_natural serialize_trivial_natural
low_part x l h =
    let bs : List ℕ = serialize_from x 0 l in
    ap (λ n. deserialize_loop 0 0 n bs) (sym (length-serialize_from x 0 l))
    ∙ deserialize_loop-deserialize_from 0 0 bs
    ∙ ap some (deserialize_trivial_natural-serialize_trivial_natural 64 x l (omega arith))

-- The top of the number, shifted into its place.
top_part :
    (x l : ℕ)
    → l < 8
    → IsU64 x
    → bit_or (x % 2 ^ (8 * l)) (shift_left 64 (x / 2 ^ (8 * l)) (u8 (8 * l))) ≡ x
unfolding shift_left
top_part x l lt word =
    let h : ℕ = x / 2 ^ (8 * l) in
    let m : ℕ = 2 ^ (8 * l) in
    let whole : x % m + h * m ≡ x = mod-add-div' x m in
    rw
      (
        place,
        lt→ltb (8 * l) 64 (omega arith),
        fits h m whole,
        bit_or-disjoint (8 * l) (x % m) h (mod-lt x (one-le-pow (8 * l) 2 (omega arith))),
      )
      whole
  where
    place : u8 (8 * l) ≡ 8 * l
    place = omega arith

    fits : (h m : ℕ) → x % m + h * m ≡ x → h * m % 2 ^ 64 ≡ h * m
    fits h m e = mod-eq_of_lt (omega (arith, e))

-- The number that a list of fewer than nine bytes stands for.
deserialize-short :
    (x l : ℕ)
    → l < 8
    → IsU64 x
    → Says l (x / 2 ^ (8 * l))
    → deserialize_uint64_with_length (first_byte l (x / 2 ^ (8 * l)) ∷ serialize_from x 0 l) l
      ≡ decoded x
unfolding deserialize_uint64_with_length with_prefix
deserialize-short x l lt word says =
    let p : ℕ = first_byte l (x / 2 ^ (8 * l)) in
    rw
      (
        length-serialize_from x 0 l,
        ltb-false 7 l (omega arith),
        low_part x l (omega arith),
        says.mask,
        bit_and-ones (8 - l) p,
        says.top,
      )
      (ap decoded (top_part x l lt word))

top_of : (x l : ℕ) → l < 8 → x < 2 ^ (7 * (l + 1)) → x / 2 ^ (8 * l) < 2 ^ (7 - l)
top_of x l lt below =
    (div-lt_iff_lt-mul (one-le-pow (8 * l) 2 (omega arith))).1 (omega (arith, below, power))
  where
    count : 7 * (l + 1) - 8 * l ≡ 7 - l
    count = omega arith

    power : 2 ^ (7 * (l + 1)) ≡ 2 ^ (7 - l) * 2 ^ (8 * l)
    power = pow-sub (7 * (l + 1)) (8 * l) (omega (arith, lt)) ∙ ap (λ e. 2 ^ e * 2 ^ (8 * l)) count

read_back :
    (x l : ℕ) (rest : List ℕ)
    → read_bytes l (serialize_from x 0 l ++ rest) ≡ decoded (serialize_from x 0 l, rest)
read_back x l rest =
    ap (λ n. read_bytes n (serialize_from x 0 l ++ rest)) (sym (length-serialize_from x 0 l))
    ∙ read_bytes-append (serialize_from x 0 l) rest

finish_uint-decoded :
    (p l v : ℕ) (bs rest : List ℕ)
    → deserialize_uint64_with_length (p ∷ bs) l ≡ decoded v
    → finish_uint p l (decoded (bs, rest)) ≡ decoded (v, rest)
unfolding finish_uint with_rest
finish_uint-decoded p l v bs rest e = rw e refl

decode_short :
    (x l : ℕ) (rest : List ℕ)
    → l < 8
    → x < 2 ^ (7 * (l + 1))
    → IsU64 x
    → decode_uint
        ((u8 (256 - 2 ^ (8 - l) + bit_and (x / 2 ^ (8 * l)) 255) ∷ serialize_from x 0 l) ++ rest)
      ≡ decoded (x, rest)
unfolding decode_uint
decode_short x l rest lt below word =
    let says = Says-first_byte l (x / 2 ^ (8 * l)) lt (top_of x l lt below) in
    rw (says.written, says.zeros, read_back x l rest)
      (finish_uint-decoded _ l x _ rest (deserialize-short x l lt word says))

-- A number that needs all of its eight bytes.
deserialize-long :
    (x : ℕ) → IsU64 x → deserialize_uint64_with_length (255 ∷ serialize_from x 0 8) 8 ≡ decoded x
unfolding deserialize_uint64_with_length serialize_trivial_natural serialize_from
deserialize-long x word =
    ap decoded (
      deserialize_trivial_natural-serialize_trivial_natural 64 x 8 (omega arith)
      ∙ mod-eq_of_lt word)

all_ones : leading_zeros 8 (255 - 255) ≡ 8
unfolding leading_zeros bit_length
all_ones = refl

decode_long :
    (x : ℕ) (rest : List ℕ)
    → IsU64 x
    → decode_uint ((255 ∷ serialize_from x 0 8) ++ rest) ≡ decoded (x, rest)
unfolding decode_uint
decode_long x rest word =
    rw (all_ones, read_back x 8 rest) (finish_uint-decoded 255 8 x _ rest (deserialize-long x word))

-- Every 64-bit number that `serializeUint64` has written is what `decodeUint` gives, whatever follows
-- it in the input, and exactly its bytes are taken.
pub decode_uint-serialize_uint64 :
    (x : ℕ) (rest : List ℕ) → IsU64 x → decode_uint (serialize_uint64 x ++ rest) ≡ decoded (x, rest)
unfolding serialize_uint64
decode_uint-serialize_uint64 x rest word =
    let fits = length_from-Fits x 0 8 in
    elim (Bool-cases (ltb (length_needed x) 8)) [
      | inl t ↦
          rw t
            (decode_short x (length_needed x) rest (ltb→lt _ _ t) (fits.enough (ltb→lt _ _ t)) word)
      | inr f ↦ rw (f, all_eight fits.at_most f) (decode_long x rest word)
    ]
  where
    all_eight : {l : ℕ} → l ≤ 8 → ltb l 8 ≡ false → l ≡ 8
    all_eight h f = ground arith
