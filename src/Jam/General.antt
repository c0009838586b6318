-- ===== src/Jam/General.antt =====
-- pkg/serialization/codec/jam/general_natural.go, and `decodeUint` of decode.go: numbers whose first
-- byte tells how many bytes follow.
use Prim.Native.Nat.{bit_and, bit_or}
use strawberry.Base.{
  ℕ, zero, suc, ◌+◌, ◌-◌, ◌*◌, ◌/◌, ◌^◌, Option, none, some, List, [], ◌∷◌, length, take, drop,
  replicate, ltb, ◌==◌, if◌then◌else◌, u8, shift_left, shift_right, leading_zeros, ◌++◌,
}
use strawberry.Jam.Fixed.{serialize_from, deserialize_trivial_natural}

-- The loop `for l = 0; l < 8; l++`, with the number of rounds left.
unfoldable pub length_from : ℕ → ℕ → ℕ → ℕ
length_from x l zero = l
length_from x l (suc rounds) =
    let rest = length_from x (suc l) rounds in if ltb x (2 ^ (7 * (l + 1))) then l else rest

-- The number of bytes behind the first one.
abbrev pub length_needed : ℕ → ℕ
length_needed x = length_from x 0 8

-- `serializeUint64(x)`; the loop at its end is the one of `serializeTrivialNatural`.
unfoldable pub serialize_uint64 : ℕ → List ℕ
unfolding length_from serialize_from
serialize_uint64 x =
    let l = length_needed x in
    (if ltb l 8 then u8 (256 - 2 ^ (8 - l) + bit_and (x / 2 ^ (8 * l)) 255) else 255)
    ∷ serialize_from x 0 l

pub data DecodeError : Type 0 where
  end_of_file first_byte_nine_byte_serialization : DecodeError

-- A value, an error, or a run-time panic of Go.
pub data Decoded {ℓ} (A : Type ℓ) : Type ℓ where
  decoded : A → Decoded A
  failed : DecodeError → Decoded A
  crashed : Decoded A

-- The loop over the bytes behind the first one, from the index i on, with the number of rounds left.
unfoldable pub deserialize_loop : ℕ → ℕ → ℕ → List ℕ → Option ℕ
deserialize_loop u i zero bs = some u
deserialize_loop u i (suc rounds) [] = none
deserialize_loop u i (suc rounds) (b ∷ bs) =
    deserialize_loop (bit_or u (shift_left 64 b (8 * i))) (suc i) rounds bs

-- The rest of the first byte goes on top.
unfoldable pub with_prefix : ℕ → ℕ → Option ℕ → Decoded ℕ
with_prefix prefix l none = crashed
with_prefix prefix l (some u) =
    decoded (bit_or u (shift_left 64 (bit_and prefix (shift_right 8 255 l)) (u8 (8 * l))))

-- `deserializeUint64WithLength(serialized, l, &u)`
unfoldable pub deserialize_uint64_with_length : List ℕ → ℕ → Decoded ℕ
unfolding with_prefix deserialize_loop
deserialize_uint64_with_length [] l = decoded 0
deserialize_uint64_with_length (b ∷ bs) l =
    if ltb 7 (length bs)
    then (if b == 255
        then decoded (deserialize_trivial_natural 64 (take 8 bs))
        else failed first_byte_nine_byte_serialization)
    else with_prefix b l (deserialize_loop 0 0 l bs)

-- `Read` of a bytes.Buffer into n fresh bytes: as many as there are, and zeros behind them.
unfoldable pub read_bytes : ℕ → List ℕ → Decoded (List ℕ × List ℕ)
read_bytes zero input = decoded ([], input)
read_bytes (suc n) [] = failed end_of_file
read_bytes (suc n) (b ∷ bs) =
    decoded (take (suc n) (b ∷ bs) ++ replicate (n - length bs) 0, drop (suc n) (b ∷ bs))

-- The number, with what is left of the input.
unfoldable pub with_rest : Decoded ℕ → List ℕ → Decoded (ℕ × List ℕ)
with_rest (decoded v) rest = decoded (v, rest)
with_rest (failed e) rest = failed e
with_rest crashed rest = crashed

-- What `decodeUint` does with the bytes that it has read.
unfoldable pub finish_uint : ℕ → ℕ → Decoded (List ℕ × List ℕ) → Decoded (ℕ × List ℕ)
finish_uint prefix l crashed = crashed
finish_uint prefix l (failed e) = failed e
finish_uint prefix l (decoded (bytes, rest)) =
    with_rest (deserialize_uint64_with_length (prefix ∷ bytes) l) rest

-- `decodeUint`, over the bytes of the input: the number, and the bytes that are left.
unfoldable pub decode_uint : List ℕ → Decoded (ℕ × List ℕ)
decode_uint [] = failed end_of_file
decode_uint (prefix ∷ input) =
    let l = leading_zeros 8 (255 - prefix) in finish_uint prefix l (read_bytes l input)
